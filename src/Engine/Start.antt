-- ===== src/Engine/Start.antt =====
-- The instructions of engine/engine.c that an imago starts with: stationary, worker and messenger.
use mlvm.Base.{ℕ, ◌==◌, if◌then◌else◌}
use mlvm.Engine.Machine.{Machine, error, Outcome, switched, tt_of, store, up, down, od, jump}

-- E_ILLEGAL_ENTRY
abbrev pub e_illegal_entry : ℕ
e_illegal_entry = 8

-- The simulated activation frame, `n` cells on.
unfoldable pub first_frame : ℕ → Machine → Machine
first_frame n m =
    let m1 : Machine = record m { af = up m.st n; st = up m.st n } in
    let m2 = store m1.af m1.cf m1 in store (down m2.af 2) (tt_of m2) m2

-- `*(++st) = v`, where `v` is made from the new `st`.
unfoldable pub push_with : (ℕ → ℕ) → Machine → Machine
push_with v m = store (up m.st 1) (v (up m.st 1)) (record m { st = up m.st 1 })

-- The simulated call: `cf` and CCP are set, and an imago without an entry procedure is in error.
unfoldable pub enter_procedure : Machine → Outcome
enter_procedure m =
    let m1 = store (down m.cf 1) m.pp m in
    if od 1 m1 == m1.pp then switched error e_illegal_entry m1 else jump (od 1 m1) m1

-- LVM_STATIONARY
unfoldable pub stationary : Machine → Outcome
unfolding first_frame push_with enter_procedure
stationary m =
    let m1 = push_with (λ st. st) (push_with (λ st. st) (first_frame 2 m)) in
    enter_procedure (record m1 { cf = m1.af })

-- LVM_WORKER, LVM_MESSENGER
unfoldable pub worker : Machine → Outcome
unfolding first_frame push_with enter_procedure
worker m =
    let m1 = push_with (λ st. st) (first_frame 3 m) in
    let m2 = push_with (λ st. m1.mem (down m1.af 3)) m1 in
    enter_procedure (record m2 { cf = m2.af; af = m2.st })
