-- ===== src/Engine/Compare.antt =====
-- Term comparison in engine/engine.c: identical, nonidentical, precede, preidentical, follow,
-- floidentical and termcompare. Dereferencing and the rounds of the loop run on fuel. The words that
-- the code pushes above `st` are a list of pairs. `strcmp` of two names is a parameter, by their
-- offsets from `name_base`.
pub mod Atomic
pub mod Disorder
use mlvm.Base.{
  ℕ, zero, suc, ◌+◌, ◌-◌, ◌*◌, Bool, true, false, not, ◌&&◌, ◌||◌, Option, none, some, List, [],
  ◌∷◌, ◌++◌, length, if◌then◌else◌, ltb, ◌==◌,
}
use mlvm.Engine.Word.{
  word, addr, tag, is_var, is_list, is_int, is_con, is_float, arity, mlvm_zero, mlvm_none,
}
use mlvm.Engine.Number.{con_value, fun_value, less}
use mlvm.Engine.Machine.{Machine, Outcome, out_of_fuel, store, up, od, cell, next}
use mlvm.Engine.Unify.{chase, arg_pairs}
use mlvm.Engine.Arithmetic.{
  Doubles, Comparison, equal, differs, below, at_most, above, at_least, int_test, mlvm_one, ordered,
  branch_on, float_value,
}

-- ASCII_SIZE
abbrev pub ascii_size : ℕ
ascii_size = 128

-- Where one round ends: with the next pair, or with `dx`.
pub data Round : Type 0 where
  again : ℕ → ℕ → List (ℕ × ℕ) → Round
  answer : ℕ → Machine → Round
  stuck : Round

-- `dx = ..; break;`: the words that are still pushed stay below `st`.
abbrev pub stop : ℕ → List (ℕ × ℕ) → Machine → Round
stop dx ps m = answer dx (record m { st = m.st + word * (2 * length ps) })

-- `if ((int)st == cx){ dx = MLVM_ZERO; break; } else { ax = *(st--); bx = *(st--); }`
pub resume : List (ℕ × ℕ) → Machine → Round
resume [] m = answer mlvm_zero m
resume ((ax, bx) ∷ ps) m = again ax bx ps

-- A difference that has been found decides, and else the next pair does.
abbrev pub decide : (less greater : Bool) → List (ℕ × ℕ) → Machine → Round
decide less greater ps m =
    if less then stop mlvm_none ps m else if greater then stop mlvm_one ps m else resume ps m

module _ (F : Doubles) (strcmp_below : ℕ → ℕ → Bool) where
  -- Two names, by their values: one of a single character is by its code.
  unfoldable pub compare_names : ℕ → ℕ → List (ℕ × ℕ) → Machine → (Unit {0} → Round) → Round
  compare_names a b ps m same =
      if not (less ascii_size a) || not (less ascii_size b)
      then if less b a then stop mlvm_one ps m else stop mlvm_none ps m
      else if strcmp_below (b - ascii_size) (a - ascii_size)
      then stop mlvm_one ps m
      else if strcmp_below (a - ascii_size) (b - ascii_size)
      then stop mlvm_none ps m
      else same tt

  -- Two structures: the arguments of the first, of which there are as many as it has.
  unfoldable pub compare_structures : ℕ → ℕ → List (ℕ × ℕ) → Machine → Round
  unfolding compare_names resume arg_pairs
  compare_structures a b ps m =
      let x = addr a in
      let y = addr b in
      compare_names (fun_value (m.mem x)) (fun_value (m.mem y)) ps m
        λ _. resume (arg_pairs m.mem x y 1 (arity (m.mem x)) ++ ps) m

  -- Two words that are dereferenced.
  unfoldable pub compare_words : ℕ → ℕ → List (ℕ × ℕ) → Machine → Round
  unfolding compare_names compare_structures resume
  compare_words a b ps m =
      if is_var a
      then if is_var b then decide (less a b) (less b a) ps m else stop mlvm_none ps m
      else if is_float m.mem a
      then if is_var b
        then stop mlvm_one ps m
        else if is_float m.mem b
        then decide (F.test below (float_value F m.mem a) (float_value F m.mem b))
            (F.test above (float_value F m.mem a) (float_value F m.mem b)) ps m
        else stop mlvm_none ps m
      else if is_int a
      then if is_var b || is_float m.mem b
        then stop mlvm_one ps m
        else if is_int b
        then decide (less a b) (less b a) ps m
        else stop mlvm_none ps m
      else if is_con a
      then if is_var b || is_float m.mem b || is_int b
        then stop mlvm_one ps m
        else if is_con b
        then if a == b
          then resume ps m
          else compare_names (con_value a) (con_value b) ps m (λ _. resume ps m)
        else stop mlvm_none ps m
      else if is_list a
      then if is_float m.mem b || ltb (tag b) 1
        then stop mlvm_one ps m
        else if is_list b
        then again (addr a) (addr b) ((up (addr a) 1, up (addr b) 1) ∷ ps)
        else stop mlvm_none ps m
      else if is_float m.mem b || ltb (tag b) 2
      then stop mlvm_one ps m
      else compare_structures a b ps m

  unfoldable pub round : ℕ → ℕ → ℕ → List (ℕ × ℕ) → Machine → Round
  unfolding compare_words
  round k ax bx ps m = elim (chase k m.mem ax) [
    | none ↦ stuck
    | some a ↦ elim (chase k m.mem bx) [ none ↦ stuck | some b ↦ compare_words a b ps m ]
  ]

  -- The loop: `dx`, and the machine after it.
  unfoldable pub compare_terms : ℕ → ℕ → ℕ → List (ℕ × ℕ) → Machine → Option (ℕ × Machine)
  compare_terms zero ax bx ps m = none
  compare_terms (suc k) ax bx ps m = elim (round k ax bx ps m) [
    | again ax' bx' ps' ↦ compare_terms k ax' bx' ps' m
    | answer dx m' ↦ some (dx, m')
    | stuck ↦ none
  ]

  -- The instructions: each goes on with `dx`.
  abbrev pub compared : ℕ → Machine → (ℕ → Machine → Outcome) → Outcome
  compared fuel m go =
      elim (compare_terms fuel (m.mem (cell (od 1 m) m)) (m.mem (cell (od 2 m) m)) [] m) [
        | none ↦ out_of_fuel
        | some (dx, m') ↦ go dx m'
      ]

  -- LVM_IDENTICAL, LVM_NONIDENTICAL, LVM_PREIDENTICAL, LVM_FLOIDENTICAL
  unfoldable pub compare_zero : Comparison → ℕ → Machine → Outcome
  unfolding int_test
  compare_zero op fuel m = compared fuel m λ dx m'. branch_on (int_test op dx mlvm_zero) m'

  abbrev pub identical : ℕ → Machine → Outcome
  identical fuel m = compare_zero equal fuel m

  abbrev pub nonidentical : ℕ → Machine → Outcome
  nonidentical fuel m = compare_zero differs fuel m

  abbrev pub preidentical : ℕ → Machine → Outcome
  preidentical fuel m = compare_zero at_most fuel m

  abbrev pub floidentical : ℕ → Machine → Outcome
  floidentical fuel m = compare_zero at_least fuel m

  -- LVM_PRECEDE, LVM_FOLLOW, LVM_TERMCOMPARE
  unfoldable pub precede : ℕ → Machine → Outcome
  precede fuel m = compared fuel m λ dx m'. branch_on (dx == mlvm_none) m'

  unfoldable pub follow : ℕ → Machine → Outcome
  follow fuel m = compared fuel m λ dx m'. branch_on (dx == mlvm_one) m'

  unfoldable pub termcompare : ℕ → Machine → Outcome
  termcompare fuel m = compared fuel m λ dx m'. next 4 (store (cell (od 3 m') m') dx m')
