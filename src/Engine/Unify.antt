-- ===== src/Engine/Unify.antt =====
-- General unification in engine/engine.c: the code at the label UNIFY, and its copy under
-- UNIFIABLE. The loops for dereferencing and the rounds of the outer loop run on fuel. The words
-- that the code pushes above `st`, and takes back before it ends, are a list of pairs.
pub mod Cases
pub mod Chase
pub mod Undo
pub mod Sound
pub mod Cycle
use mlvm.Base.{
  ℕ, zero, suc, ◌+◌, ◌-◌, ◌*◌, Bool, true, false, not, ◌&&◌, ◌||◌, Option, none, some, List, [],
  ◌∷◌, ◌++◌, length, update, if◌then◌else◌, ltb, leb, ◌==◌,
}
use mlvm.Engine.Word.{word, addr, is_var, is_list, is_str, is_cst, is_float, arity}
use mlvm.Engine.Machine.{Machine, store, up}
use mlvm.Engine.Trail.{trail, bbtrail}

-- `while (is_var(X) && X != *X) X = *X`
unfoldable pub chase : ℕ → (ℕ → ℕ) → ℕ → Option ℕ
chase zero mem w = none
chase (suc k) mem w = elim (is_var w && not (mem w == w)) [
  | true ↦ chase k mem (mem w)
  | false ↦ some w
]

-- `deref(X, Y)`
unfoldable pub deref : ℕ → (ℕ → ℕ) → ℕ → Option ℕ
unfolding chase
deref k mem y = chase k mem (mem y)

-- The assignment to an unbound variable, and its trailing.
unfoldable pub bind : ℕ → ℕ → Machine → Machine
unfolding trail bbtrail
bind x v m = if is_cst v then bbtrail x (store x v m) else trail x (store x v m)

-- Where one round of the loop ends: with the next pair, the pairs on the stack, and the machine.
pub data Round : Type 0 where
  again : ℕ → ℕ → List (ℕ × ℕ) → Machine → Round
  succeed : Machine → Round
  fail : Machine → Round
  stuck : Round

-- `if (st == cx) goto CONTROL; ax = *(st--); bx = *(st--); continue;`
unfoldable pub resume : List (ℕ × ℕ) → Machine → Round
resume [] m = succeed m
resume ((ax, bx) ∷ ps) m = again ax bx ps m

-- The arguments from the `i`th on, `n` of them, of two structures.
unfoldable pub arg_pairs : (ℕ → ℕ) → ℕ → ℕ → ℕ → ℕ → List (ℕ × ℕ)
arg_pairs mem x y i zero = []
arg_pairs mem x y i (suc n) = (mem (up x i), mem (up y i)) ∷ arg_pairs mem x y (i + 1) n

-- A failure leaves `st` above the words that are still on the stack.
abbrev pub give_up : List (ℕ × ℕ) → Machine → Round
give_up ps m = fail (record m { st = m.st + word * (2 * length ps) })

-- Two words that are no variables.
unfoldable pub compare_terms : ℕ → ℕ → List (ℕ × ℕ) → Machine → Round
compare_terms a b ps m =
    if a == b
    then resume ps m
    else if is_list a && is_list b
    then again (m.mem (addr a)) (m.mem (addr b))
        ((m.mem (up (addr a) 1), m.mem (up (addr b) 1)) ∷ ps) m
    else if is_float m.mem a && is_float m.mem b
    then if not (m.mem (up (addr a) 1) == m.mem (up (addr b) 1))
        || not (m.mem (up (addr a) 2) == m.mem (up (addr b) 2))
      then give_up ps m
      else resume ps m
    else if is_str a && is_str b
    then if m.mem (addr a) == m.mem (addr b)
      then again (m.mem (up (addr a) 1)) (m.mem (up (addr b) 1))
          (arg_pairs m.mem (addr a) (addr b) 2 (arity (m.mem (addr a)) - 1) ++ ps) m
      else give_up ps m
    else give_up ps m

-- One round. An unbound `ax` takes `bx` as it stands.
unfoldable pub round : ℕ → ℕ → ℕ → List (ℕ × ℕ) → Machine → Round
round k ax bx ps m = elim (chase k m.mem ax) [
  | none ↦ stuck
  | some a ↦ elim (is_var a) [
    | true ↦ resume ps (bind a bx m)
    | false ↦ elim (chase k m.mem bx) [
      | none ↦ stuck
      | some b ↦ elim (is_var b) [ true ↦ resume ps (bind b a m) | false ↦ compare_terms a b ps m ]
    ]
  ]
]

-- How the loop ends: `goto CONTROL`, `backtrack()`, or not within the fuel.
pub data Unified : Type 0 where
  unified : Machine → Unified
  failed : Machine → Unified
  unfinished : Unified

unfoldable pub unify : ℕ → ℕ → ℕ → List (ℕ × ℕ) → Machine → Unified
unify zero ax bx ps m = unfinished
unify (suc k) ax bx ps m = elim (round k ax bx ps m) [
  | again ax' bx' ps' m' ↦ unify k ax' bx' ps' m'
  | succeed m' ↦ unified m'
  | fail m' ↦ failed m'
  | stuck ↦ unfinished
]
