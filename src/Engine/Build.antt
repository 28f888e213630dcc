-- ===== src/Engine/Build.antt =====
-- The put and set instructions of engine/engine.c: they build arguments above `st` and terms in
-- the cells of a frame. An instruction that does one thing n times, `put2val` to `put8val`, is its
-- step taken n times.
pub mod Arguments
use mlvm.Base.{ℕ, zero, suc, ◌+◌}
use mlvm.Engine.Word.{word, make_list, make_str, fvl_tag}
use mlvm.Engine.Machine.{Machine, Outcome, store, up, od, cell, next}
use mlvm.Engine.Trail.{trail}

-- `*(++st) = v`
unfoldable pub push : ℕ → Machine → Machine
push v m = store (up m.st 1) v (record m { st = up m.st 1 })

-- `gp = cell(N); *(++st) = *gp = make_ref(gp)` for the `i`th operand
unfoldable pub put_var : ℕ → Machine → Machine
unfolding push
put_var i m = let gp = cell (od i m) m in push gp (store gp gp (record m { gp = gp }))

-- `*(++st) = *cell(N)` for the `i`th operand
unfoldable pub put_val : ℕ → Machine → Machine
unfolding push
put_val i m = push (m.mem (cell (od i m) m)) m

-- A step for each of the operands `i`, `i + 1`, .. , `n` of them.
pub each : (ℕ → Machine → Machine) → (i n : ℕ) → Machine → Machine
each step i zero m = m
each step i (suc n) m = each step (i + 1) n (step i m)

-- LVM_PUTVOID, LVM_PUT2VOID
unfoldable pub put_void : Machine → Machine
unfolding push
put_void m = push (up m.st 1) m

unfoldable pub putvoid : Machine → Outcome
unfolding put_void
putvoid m = next 1 (put_void m)

unfoldable pub put2void : Machine → Outcome
unfolding put_void
put2void m = next 1 (put_void (put_void m))

-- LVM_PUTVAR, LVM_PUT2VAR .. LVM_PUT4VAR
unfoldable pub putvars : ℕ → Machine → Outcome
unfolding each put_var
putvars n m = next (n + 1) (each put_var 1 n m)

-- LVM_PUTVAL, LVM_PUT2VAL .. LVM_PUT8VAL
unfoldable pub putvals : ℕ → Machine → Outcome
unfolding each put_val
putvals n m = next (n + 1) (each put_val 1 n m)

-- LVM_PUTRVAL
unfoldable pub putrval : Machine → Outcome
unfolding push
putrval m =
    let gp = cell (od 1 m) m in next 2 (store gp gp (push (m.mem gp) (record m { gp = gp })))

-- LVM_PUTCON (LVM_PUTINT), LVM_PUTLIST, LVM_PUTSTR
unfoldable pub putcon : Machine → Outcome
unfolding push
putcon m = next 2 (push (od 1 m) m)

unfoldable pub putlist : Machine → Outcome
unfolding push
putlist m = next 2 (push (make_list (cell (od 1 m) m)) m)

unfoldable pub putstr : Machine → Outcome
unfolding push
putstr m = next 2 (push (make_str (cell (od 1 m) m)) m)

-- `*(gp = cell(OD1)) = v` and `*(++gp) = v`
abbrev pub set_cell : ℕ → Machine → Machine
set_cell v m = store (cell (od 1 m) m) v (record m { gp = cell (od 1 m) m })

abbrev pub set_next : ℕ → Machine → Machine
set_next v m = store (up m.gp 1) v (record m { gp = up m.gp 1 })

-- LVM_SETVAR, LVM_SETCON (LVM_SETINT, LVM_SETFUN), LVM_SETVAL, LVM_SETLIST, LVM_SETSTR
unfoldable pub setvar : Machine → Outcome
setvar m = next 2 (set_cell (cell (od 1 m) m) m)

unfoldable pub setcon : Machine → Outcome
setcon m = next 3 (set_cell (od 2 m) m)

unfoldable pub setval : Machine → Outcome
setval m = next 3 (set_cell (cell (od 2 m) m) m)

unfoldable pub setlist : Machine → Outcome
setlist m = next 3 (set_cell (make_list (cell (od 2 m) m)) m)

unfoldable pub setstr : Machine → Outcome
setstr m = next 3 (set_cell (make_str (cell (od 2 m) m)) m)

-- LVM_CSETVAR, LVM_CSETCON (LVM_CSETINT, LVM_CSETFUN), LVM_CSETVAL, LVM_CSETLIST, LVM_CSETSTR
unfoldable pub csetvar : Machine → Outcome
csetvar m = next 1 (set_next (up m.gp 1) m)

unfoldable pub csetcon : Machine → Outcome
csetcon m = next 2 (set_next (od 1 m) m)

unfoldable pub csetval : Machine → Outcome
csetval m = next 2 (set_next (cell (od 1 m) m) m)

unfoldable pub csetlist : Machine → Outcome
csetlist m = next 2 (set_next (make_list (cell (od 1 m) m)) m)

unfoldable pub csetstr : Machine → Outcome
csetstr m = next 2 (set_next (make_str (cell (od 1 m) m)) m)

-- The words of a floating-point value above `st`, and its place in `gp` trailed: `i` is the
-- operand of its first word.
abbrev pub float_above : ℕ → Machine → Machine
float_above i m =
    let m1 = store m.st fvl_tag m in
    let m2 = push (od i m1) m1 in let m3 = push (od (i + 1) m2) m2 in trail m3.gp m3

-- LVM_SETFLOAT, LVM_CSETFLOAT
unfoldable pub setfloat : Machine → Outcome
unfolding push trail
setfloat m =
    let m1 : Machine = record m { st = up m.st 1 } in
    next 4 (float_above 2 (set_cell (make_str m1.st) m1))

unfoldable pub csetfloat : Machine → Outcome
unfolding push trail
csetfloat m =
    let m1 : Machine = record m { st = up m.st 1 } in
    next 3 (float_above 1 (set_next (make_str m1.st) m1))
