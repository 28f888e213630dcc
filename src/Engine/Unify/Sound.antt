-- ===== src/Engine/Unify/Sound.antt =====
-- Where unification succeeds, the two words stand for the same term.
use mlvm.Base.{ℕ, ◌≤◌, ◌≡◌, refl, ◌⊎◌, inl, inr, true, List, All, ltb, leb, Bool-cases, update}
use mlvm.Engine.Word.{addr, is_var, is_cst, is_list, is_str, fvl_tag, arity}
use mlvm.Engine.Machine.{Machine, up}
use mlvm.Engine.Unify.{
  bind, Round, again, succeed, fail, stuck, Unified, unified, failed, unfinished,
}

-- Two words stand for the same term: they are equal, or are so once the references are followed,
-- or are lists, floating-point values or structures with the same parts. A part is named by the
-- address of its cell, which is a reference to it. The proof is finite: no term is unrolled
-- without end.
pub data Same (mem : ℕ → ℕ) : ℕ → ℕ → Type 0 where
  equal : {a b : ℕ} → a ≡ b → Same mem a b
  ref_left : {a b : ℕ} → is_var a ≡ true → Same mem (mem a) b → Same mem a b
  ref_right : {a b : ℕ} → is_var b ≡ true → Same mem a (mem b) → Same mem a b
  list :
      {a b : ℕ}
      → is_list a ≡ true
      → is_list b ≡ true
      → Same mem (addr a) (addr b)
      → Same mem (up (addr a) 1) (up (addr b) 1)
      → Same mem a b
  float :
      {a b : ℕ}
      → is_str a ≡ true
      → is_str b ≡ true
      → mem (addr a) ≡ fvl_tag
      → mem (addr b) ≡ fvl_tag
      → Same mem (up (addr a) 1) (up (addr b) 1)
      → Same mem (up (addr a) 2) (up (addr b) 2)
      → Same mem a b
  structure :
      {a b : ℕ} (f : ℕ)
      → is_str a ≡ true
      → is_str b ≡ true
      → Same mem (addr a) f
      → Same mem (addr b) f
      → Same mem (up (addr a) 1) (up (addr b) 1)
      → ((i : ℕ) → 2 ≤ i → i ≤ arity f → Same mem (up (addr a) i) (up (addr b) i))
      → Same mem a b

-- Nothing is changed but unbound variables.
abbrev pub Extends : (ℕ → ℕ) → (ℕ → ℕ) → Type 0
Extends mem mem' = (a : ℕ) → ((mem a ≡ a) × (is_var a ≡ true)) ⊎ (mem' a ≡ mem a)

pub mem-bind : (x v : ℕ) (m : Machine) → (bind x v m).mem ≡ update m.mem x v
unfolding bind
mem-bind x v m = elim (Bool-cases (is_cst v)) [
  | inl c ↦ elim (Bool-cases (ltb x m.bb)) [
    | inl e ↦ rw (c, e, bind) refl
    | inr e ↦ rw (c, e, bind) refl
  ]
  | inr c ↦ elim (Bool-cases (leb x m.gl)) [
    | inl e ↦ rw (c, e, bind) refl
    | inr e ↦ rw (c, e, bind) refl
  ]
]

abbrev Pairs : (ℕ → ℕ) → List (ℕ × ℕ) → Type 0
Pairs f = All (λ p. Same f p.0 p.1)

-- What one round owes to the final memory `f`.
data RoundSound (m : Machine) (ax bx : ℕ) (ps : List (ℕ × ℕ)) : Round → Type 0 where
  at_again :
      {ax' bx' : ℕ} {ps' : List (ℕ × ℕ)} {m' : Machine}
      → Extends m.mem m'.mem
      → ((f : ℕ → ℕ) → Extends m'.mem f → Same f ax' bx' → Pairs f ps' → Same f ax bx × Pairs f ps)
      → RoundSound m ax bx ps (again ax' bx' ps' m')
  at_succeed :
      {m' : Machine}
      → Extends m.mem m'.mem
      → ((f : ℕ → ℕ) → Extends m'.mem f → Same f ax bx × Pairs f ps)
      → RoundSound m ax bx ps (succeed m')
  at_fail : {m' : Machine} → RoundSound m ax bx ps (fail m')
  at_stuck : RoundSound m ax bx ps stuck

end_of : Machine → Unified → Machine
end_of d (unified m) = m
end_of d (failed m) = m
end_of d unfinished = d
