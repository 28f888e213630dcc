-- ===== src/Engine/Unify/Cases.antt =====
-- The ways in which one round of unification can go, each with what its tests have shown.
use mlvm.Base.{
  ℕ, zero, suc, ◌-◌, ◌≡◌, inl, inr, Bool, true, false, not, ◌&&◌, ◌||◌, some, List, ◌∷◌, ◌++◌,
  arith, ◌==◌, Bool-cases, Option-cases, ==→eq,
}
use mlvm.Engine.Word.{addr, is_var, is_list, is_str, is_float, arity}
use mlvm.Engine.Machine.{Machine, up}
use mlvm.Engine.Unify.{
  chase, bind, Round, again, stuck, resume, arg_pairs, give_up, compare_terms, round,
}

-- The end of a chain of references is an unbound variable or no variable.
pub chase-end :
    (k : ℕ) (mem : ℕ → ℕ) (w : ℕ) {a : ℕ} → chase k mem w ≡ some a → is_var a ≡ true → mem a ≡ a
unfolding chase
chase-end zero mem w e v = cc
chase-end (suc k) mem w e v = elim (Bool-cases (is_var w && not (mem w == w))) [
  | inl q ↦ chase-end k mem (mem w) (rw (q, chase) at e) v
  | inr q ↦ ground (arith, rw (q, chase) at e)
]

pub data Compared (a b : ℕ) (ps : List (ℕ × ℕ)) (m : Machine) : Round → Type 0 where
  same : a ≡ b → Compared a b ps m (resume ps m)
  lists :
      is_list a ≡ true
      → is_list b ≡ true
      → Compared a b ps m (
          again
            (m.mem (addr a))
            (m.mem (addr b))
            ((m.mem (up (addr a) 1), m.mem (up (addr b) 1)) ∷ ps)
            m)
  floats :
      is_float m.mem a ≡ true
      → is_float m.mem b ≡ true
      → m.mem (up (addr a) 1) ≡ m.mem (up (addr b) 1)
      → m.mem (up (addr a) 2) ≡ m.mem (up (addr b) 2)
      → Compared a b ps m (resume ps m)
  structures :
      is_str a ≡ true
      → is_str b ≡ true
      → m.mem (addr a) ≡ m.mem (addr b)
      → Compared a b ps m (
          again
            (m.mem (up (addr a) 1))
            (m.mem (up (addr b) 1))
            (arg_pairs m.mem (addr a) (addr b) 2 (arity (m.mem (addr a)) - 1) ++ ps)
            m)
  clash : Compared a b ps m (give_up ps m)

and_parts : (p q : Bool) → (p && q) ≡ true → (p ≡ true) × (q ≡ true)
and_parts p q h = ground arith

or_parts : (a b c d : ℕ) → (not (a == b) || not (c == d)) ≡ false → (a ≡ b) × (c ≡ d)
or_parts a b c d h = ground arith

pub compare_terms-Compared :
    (a b : ℕ) (ps : List (ℕ × ℕ)) (m : Machine) → Compared a b ps m (compare_terms a b ps m)
unfolding compare_terms
compare_terms-Compared a b ps m = elim (Bool-cases (a == b)) [
  | inl e ↦ rw (e, compare_terms) (same (==→eq a b e))
  | inr e ↦ elim (Bool-cases (is_list a && is_list b)) [
    | inl l ↦ rw (e, l, compare_terms) (lists (and_parts _ _ l).0 (and_parts _ _ l).1)
    | inr l ↦ elim (Bool-cases (is_float m.mem a && is_float m.mem b)) [
      | inl f ↦ elim (Bool-cases differ) [
        | inl d ↦ rw (e, l, f, d, compare_terms) clash
        | inr d ↦
            rw (e, l, f, d, compare_terms)
              (floats (and_parts _ _ f).0 (and_parts _ _ f).1 (or_parts _ _ _ _ d).0
                (or_parts _ _ _ _ d).1)
      ]
      | inr f ↦ elim (Bool-cases (is_str a && is_str b)) [
        | inl s ↦ elim (Bool-cases (m.mem (addr a) == m.mem (addr b))) [
          | inl q ↦
              rw (e, l, f, s, q, compare_terms)
                (structures (and_parts _ _ s).0 (and_parts _ _ s).1 (==→eq _ _ q))
          | inr q ↦ rw (e, l, f, s, q, compare_terms) clash
        ]
        | inr s ↦ rw (e, l, f, s, compare_terms) clash
      ]
    ]
  ]
]
  where
    differ : Bool
    differ =
        not (m.mem (up (addr a) 1) == m.mem (up (addr b) 1))
        || not (m.mem (up (addr a) 2) == m.mem (up (addr b) 2))

-- A round binds what an unbound end of a chain is, or compares the ends.
pub data Rounded (k ax bx : ℕ) (ps : List (ℕ × ℕ)) (m : Machine) : Round → Type 0 where
  left :
      (a : ℕ)
      → chase k m.mem ax ≡ some a
      → is_var a ≡ true
      → Rounded k ax bx ps m (resume ps (bind a bx m))
  right :
      (a b : ℕ)
      → chase k m.mem ax ≡ some a
      → chase k m.mem bx ≡ some b
      → is_var b ≡ true
      → Rounded k ax bx ps m (resume ps (bind b a m))
  terms :
      (a b : ℕ) {r : Round}
      → chase k m.mem ax ≡ some a
      → chase k m.mem bx ≡ some b
      → Compared a b ps m r
      → Rounded k ax bx ps m r
  no_fuel : Rounded k ax bx ps m stuck

pub round-Rounded :
    (k ax bx : ℕ) (ps : List (ℕ × ℕ)) (m : Machine) → Rounded k ax bx ps m (round k ax bx ps m)
unfolding round
round-Rounded k ax bx ps m = elim (Option-cases (chase k m.mem ax)) [
  | inl e ↦ rw (e, round) no_fuel
  | inr (a, e) ↦ elim (Bool-cases (is_var a)) [
    | inl v ↦ rw (e, round, v) (left a e v)
    | inr v ↦ elim (Option-cases (chase k m.mem bx)) [
      | inl f ↦ rw (e, round, v, f) no_fuel
      | inr (b, f) ↦ elim (Bool-cases (is_var b)) [
        | inl w ↦ rw (e, round, v, f, w) (right a b e f w)
        | inr w ↦ rw (e, round, v, f, w) (terms a b e f (compare_terms-Compared a b ps m))
      ]
    ]
  ]
]
