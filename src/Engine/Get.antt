-- ===== src/Engine/Get.antt =====
-- The instructions of engine/engine.c that begin a unification, and the jumps: jump, branch,
-- getcon, cgetcon, getval, cgetval, unifiable, nonunifiable, tryunifiable. `fuel` bounds the
-- dereferencing, and the rounds of general unification.
pub mod Constant
pub mod Kept
use mlvm.Base.{
  ℕ, zero, suc, ◌+◌, Bool, true, false, Option, none, some, List, [], if◌then◌else◌, ltb, ◌==◌,
}
use mlvm.Engine.Word.{is_var, mlvm_zero, mlvm_none}
use mlvm.Engine.Machine.{
  Machine, terminate, Outcome, switched, out_of_fuel, e_succeed, tt_of, up, store, od, cell, next,
  jump, backtrack,
}
use mlvm.Engine.Trail.{bbtrail, filter_trail, clear_trail}
use mlvm.Engine.Unify.{chase, Unified, unified, failed, unfinished, unify}

-- LVM_NOOP, LVM_FAIL, LVM_FINISH
unfoldable pub noop : Machine → Outcome
noop m = next 1 m

unfoldable pub fail : Machine → Outcome
unfolding backtrack
fail m = backtrack m

unfoldable pub finish : Machine → Outcome
finish m = switched terminate e_succeed m

-- LVM_JUMP, LVM_BRANCH
unfoldable pub jump_to : Machine → Outcome
jump_to m = jump (od 1 m) m

unfoldable pub branch : Machine → Outcome
branch m = if ltb m.nl 4 then jump (od (1 + m.nl) m) m else next 5 m

-- How the comparison with a constant ends.
pub data Matched : Type 0 where
  matched : Machine → Matched
  mismatched : Matched
  unfinished_chain : Matched

-- The loop at LGETCON and LCGETCON.
unfoldable pub match_constant : (fuel ax c : ℕ) → Machine → Matched
unfolding bbtrail
match_constant fuel ax c m = elim (chase fuel m.mem ax) [
  | none ↦ unfinished_chain
  | some a ↦
      if is_var a
      then matched (bbtrail a (store a c m))
      else if a == c
      then matched m
      else mismatched
]

pub after_match : ℕ → Machine → Matched → Outcome
after_match n m (matched m') = next n m'
after_match n m mismatched = backtrack m
after_match n m unfinished_chain = out_of_fuel

-- LVM_GETCON (LVM_GETINT), LVM_CGETCON (LVM_CGETINT)
unfoldable pub getcon : ℕ → Machine → Outcome
unfolding after_match match_constant
getcon fuel m =
    let m1 : Machine = record m { gp = cell (od 1 m) m } in
    after_match 3 m1 (match_constant fuel (m1.mem m1.gp) (od 2 m1) m1)

unfoldable pub cgetcon : ℕ → Machine → Outcome
unfolding after_match match_constant
cgetcon fuel m =
    let m1 : Machine = record m { gp = up m.gp 1 } in
    after_match 2 m1 (match_constant fuel (m1.mem m1.gp) (od 1 m1) m1)

-- What UNIFY leads to.
pub after_unify : Unified → Outcome
after_unify (unified m) = next 0 m
after_unify (failed m) = backtrack m
after_unify unfinished = out_of_fuel

-- LVM_GETVAL, LVM_CGETVAL
unfoldable pub getval : ℕ → Machine → Outcome
unfolding after_unify unify
getval fuel m =
    let gp = cell (od 1 m) m in
    after_unify
      (unify fuel (m.mem gp) (m.mem (cell (od 2 m) m)) [] (record m { gp = gp; pp = up m.pp 3 }))

unfoldable pub cgetval : ℕ → Machine → Outcome
unfolding after_unify unify
cgetval fuel m =
    let m1 : Machine = record m { gp = up m.gp 1 } in
    after_unify
      (unify fuel (m1.mem m1.gp) (m1.mem (cell (od 1 m1) m1)) [] (record m1 { pp = up m.pp 2 }))

-- The unification in LVM_UNIFIABLE, LVM_NONUNIFIABLE and LVM_TRYUNIFIABLE, with `gp = tt` before
-- it, and `st` as before it after it.
unfoldable pub tentative : ℕ → Machine → Unified
unfolding unify
tentative fuel m =
    elim (unify fuel (m.mem (cell (od 1 m) m)) (m.mem (cell (od 2 m) m)) []
      (record m { gp = tt_of m })) [
        | unified m' ↦ unified m'
        | failed m' ↦ failed (record m' { st = m.st })
        | unfinished ↦ unfinished
      ]

abbrev pub filtered : Machine → Machine
filtered m = filter_trail m.gp (tt_of m) m

abbrev pub cleared : Machine → Machine
cleared m = clear_trail m.gp (tt_of m) m

unfoldable pub unifiable : ℕ → Machine → Outcome
unfolding tentative
unifiable fuel m = elim (tentative fuel m) [
  | unified m' ↦ next 4 (filtered m')
  | failed m' ↦ let m1 = cleared m' in jump (od 3 m1) m1
  | unfinished ↦ out_of_fuel
]

unfoldable pub nonunifiable : ℕ → Machine → Outcome
unfolding tentative
nonunifiable fuel m = elim (tentative fuel m) [
  | unified m' ↦ let m1 = filtered m' in jump (od 3 m1) m1
  | failed m' ↦ next 4 (cleared m')
  | unfinished ↦ out_of_fuel
]

unfoldable pub tryunifiable : ℕ → Machine → Outcome
unfolding tentative
tryunifiable fuel m = elim (tentative fuel m) [
  | unified m' ↦ let m1 = cleared m' in next 4 (store (cell (od 3 m1) m1) mlvm_zero m1)
  | failed m' ↦ let m1 = cleared m' in next 4 (store (cell (od 3 m1) m1) mlvm_none m1)
  | unfinished ↦ out_of_fuel
]
