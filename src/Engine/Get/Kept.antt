-- ===== src/Engine/Get/Kept.antt =====
-- What unifiable, nonunifiable and tryunifiable of engine/engine.c do to the bindings that their
-- unification made.
use mlvm.Base.{ℕ, ◌≤◌, ◌≡◌, refl, subst, inl, inr, [], arith, length-append}
use mlvm.Engine.Word.{mlvm_zero, mlvm_none}
use mlvm.Engine.Machine.{Machine, tt_of, store, od, cell, next}
use mlvm.Engine.Trail.Idle.{clear_trail-idle}
use mlvm.Engine.Trail.Undo.{Logged, Logged-refl}
use mlvm.Engine.Unify.{Unified, unified, failed, unfinished}
use mlvm.Engine.Unify.Undo.{Safe, Ends, EndSafe, unify-Safe}
use mlvm.Engine.Get.{tentative, tryunifiable}

grown-tt : {m m' : Machine} → Logged m m' → tt_of m' ≤ tt_of m
grown-tt {m} {m'} l = rw (l.grown, l.base_same) (omega (arith, length-append l.new m.trail))

-- Where it ends, `tt` is not above `gp`.
abbrev BelowMark : Unified → Type 0
BelowMark (unified m) = tt_of m ≤ m.gp
BelowMark (failed m) = tt_of m ≤ m.gp
BelowMark unfinished = Unit

tentative-BelowMark : (fuel : ℕ) (m : Machine) → m.bb ≤ m.gl → BelowMark (tentative fuel m)
unfolding tentative
tentative-BelowMark fuel m line = from _ (
    unify-Safe fuel (m.mem (cell (od 1 m) m)) (m.mem (cell (od 2 m) m)) []
      (record { log = Logged-refl start; line = line; gp_same = refl }))
  where
    start : Machine
    start = record m { gp = tt_of m }

    below : {m' : Machine} → Safe start m' → tt_of m' ≤ m'.gp
    below s = omega (arith, grown-tt s.log, s.gp_same)

    from :
        (u : Unified)
        → EndSafe start u
        → BelowMark (elim u [
          | unified m'' ↦ unified m''
          | failed m'' ↦ failed (record m'' { st = m.st })
          | unfinished ↦ unfinished
        ])
    from (unified m'') s = below s
    from (failed m'') s = below s
    from unfinished s = tt

-- What `dx` holds after the unification.
abbrev pub dx : Unified → ℕ
dx (unified m) = mlvm_zero
dx (failed m) = mlvm_none
dx unfinished = mlvm_none

-- A tentative unification is not taken back, whether it succeeds or not: `tryunifiable` goes on
-- in the machine in which the unification ended, with its bindings, and only adds `dx` to it. The
-- generation line must not lie below the choice frame.
pub tryunifiable-keeps :
    (fuel : ℕ) (m m' : Machine)
    → m.bb ≤ m.gl
    → Ends (tentative fuel m) m'
    → tryunifiable fuel m ≡ next 4 (store (cell (od 3 m') m') (dx (tentative fuel m)) m')
unfolding tryunifiable
tryunifiable-keeps fuel m m' line (inl q) =
    rw
      (
        q,
        clear_trail-idle m'.gp (tt_of m') m' (subst BelowMark q (tentative-BelowMark fuel m line)),
        tryunifiable,
      )
      refl
tryunifiable-keeps fuel m m' line (inr q) =
    rw
      (
        q,
        clear_trail-idle m'.gp (tt_of m') m' (subst BelowMark q (tentative-BelowMark fuel m line)),
        tryunifiable,
      )
      refl
