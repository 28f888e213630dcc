-- ===== src/Engine/Compare/Atomic.antt =====
-- The comparison of atomic terms in engine/engine.c: unbound variables, floating-point values,
-- integers and names.
use mlvm.Base.{
  ℕ, ◌-◌, ◌^◌, ◌<◌, ◌≡◌, ◌⊎◌, inl, inr, refl, Bool, true, false, [], not, if◌then◌else◌, ◌==◌,
  Bool-cases, arith,
}
use mlvm.Engine.Word.{is_var, is_con, is_int, is_float, mlvm_none}
use mlvm.Engine.Number.{con_value, less}
use mlvm.Engine.Machine.{Machine}
use mlvm.Engine.Arithmetic.{Doubles, below, above, mlvm_one, float_value}
use mlvm.Engine.Compare.{
  Round, again, answer, stuck, resume, decide, ascii_size, compare_names, compare_words,
}

-- The opposite answer.
abbrev pub opposite : ℕ → ℕ
opposite dx = if dx == mlvm_one then mlvm_none else if dx == mlvm_none then mlvm_one else dx

abbrev pub mirrored : Round → Round
mirrored (again ax bx ps) = again ax bx ps
mirrored (answer dx m) = answer (opposite dx) m
mirrored stuck = stuck

-- The tests of the code, in its order.
abbrev pub IsAtomic : Machine → ℕ → Type 0
IsAtomic m w =
    (is_var w ≡ true)
    ⊎ (((is_var w ≡ false) × (is_float m.mem w ≡ true))
        ⊎ (((is_var w ≡ false) × ((is_float m.mem w ≡ false) × (is_int w ≡ true)))
            ⊎ ((is_var w ≡ false)
                × ((is_float m.mem w ≡ false) × ((is_int w ≡ false) × (is_con w ≡ true))))))

less-asym : (a b : ℕ) → less a b ≡ true → less b a ≡ false
less-asym a b e = ground (arith)

con-connex :
    (a b : ℕ)
    → a < 2 ^ 32
    → b < 2 ^ 32
    → is_con a ≡ true
    → is_con b ≡ true
    → (a == b) ≡ false
    → less (con_value a) (con_value b) ≡ not (less (con_value b) (con_value a))
con-connex a b h g i j e = ground (arith)

==-comm : (a b : ℕ) → (b == a) ≡ (a == b)
==-comm a b = ground (arith)

decide-mirrored :
    (m : Machine) (l g : Bool)
    → (l ≡ true → g ≡ false)
    → decide g l [] m ≡ mirrored (decide l g [] m)
unfolding resume
decide-mirrored m true true h = ground (arith, h refl)
decide-mirrored m true false h = refl
decide-mirrored m false true h = refl
decide-mirrored m false false h = refl

module _ (F : Doubles) (strcmp_below : ℕ → ℕ → Bool) where
  names-mirrored :
      (x y : ℕ) (m : Machine)
      → less x y ≡ not (less y x)
      → ((x y : ℕ) → strcmp_below x y ≡ true → strcmp_below y x ≡ false)
      → compare_names F strcmp_below y x [] m (λ _. resume [] m)
        ≡ mirrored (compare_names F strcmp_below x y [] m (λ _. resume [] m))
  unfolding compare_names resume
  names-mirrored x y m e s =
      let a = s (y - ascii_size) (x - ascii_size) in
      elim (Bool-cases (less ascii_size x)) [
        | inl p ↦ elim (Bool-cases (less ascii_size y)) [
          | inl q ↦ elim (Bool-cases (strcmp_below (y - ascii_size) (x - ascii_size))) [
            | inl t ↦ rw (p, q, t, a t)
            | inr t ↦ elim (Bool-cases (strcmp_below (x - ascii_size) (y - ascii_size))) [
              | inl u ↦ rw (p, q, t, u)
              | inr u ↦ rw (p, q, t, u)
            ]
          ]
          | inr q ↦ elim (Bool-cases (less y x)) [
            | inl t ↦ rw (p, q, e, t)
            | inr t ↦ rw (p, q, e, t)
          ]
        ]
        | inr p ↦ elim (Bool-cases (less ascii_size y)) [
          | inl q ↦ elim (Bool-cases (less y x)) [
            | inl t ↦ rw (p, q, e, t)
            | inr t ↦ rw (p, q, e, t)
          ]
          | inr q ↦ elim (Bool-cases (less y x)) [
            | inl t ↦ rw (p, q, e, t)
            | inr t ↦ rw (p, q, e, t)
          ]
        ]
      ]

  consts-mirrored :
      (a b : ℕ) (m : Machine)
      → ((x y : ℕ) → strcmp_below x y ≡ true → strcmp_below y x ≡ false)
      → a < 2 ^ 32
      → b < 2 ^ 32
      → is_con a ≡ true
      → is_con b ≡ true
      → (if b == a
          then resume [] m
          else compare_names F strcmp_below (con_value b) (con_value a) [] m (λ _. resume [] m))
        ≡ mirrored (
            if a == b
            then resume [] m
            else compare_names F strcmp_below (con_value a) (con_value b) [] m (λ _. resume [] m))
  unfolding resume
  consts-mirrored a b m s h g i j = elim (Bool-cases (a == b)) [
    | inl e ↦ rw (==-comm a b, e)
    | inr e ↦
        rw (==-comm a b, e)
          (names-mirrored (con_value a) (con_value b) m (con-connex a b h g i j e) s)
  ]

  -- Where the test of two numbers and that of two names are asymmetric, two atomic terms that are
  -- compared the other way round give the opposite answer.
  pub compare_words-mirrored :
      (a b : ℕ) (m : Machine)
      → ((x y : F.Double) → F.test above x y ≡ F.test below y x)
      → ((x y : F.Double) → F.test below x y ≡ true → F.test below y x ≡ false)
      → ((x y : ℕ) → strcmp_below x y ≡ true → strcmp_below y x ≡ false)
      → a < 2 ^ 32
      → b < 2 ^ 32
      → IsAtomic m a
      → IsAtomic m b
      → compare_words F strcmp_below b a [] m ≡ mirrored (compare_words F strcmp_below a b [] m)
  unfolding compare_words resume
  compare_words-mirrored a b m swap asym s h g k l = elim k [
    | inl v ↦ elim l [
      | inl v' ↦ rw (v, v') (decide-mirrored m (less a b) (less b a) (less-asym a b))
      | inr (inl (v', f')) ↦ rw (v, v', f')
      | inr (inr (inl (v', (f', i')))) ↦ rw (v, v', f', i')
      | inr (inr (inr (v', (f', (i', c'))))) ↦ rw (v, v', f', i', c')
    ]
    | inr (inl (v, f)) ↦ elim l [
      | inl v' ↦ rw (v, v', f)
      | inr (inl (v', f')) ↦
          let fa = float_value F m.mem a in
          let fb = float_value F m.mem b in
          rw (v, v', f, f', swap fa fb, swap fb fa)
            (decide-mirrored m (F.test below fa fb) (F.test below fb fa) (asym fa fb))
      | inr (inr (inl (v', (f', i')))) ↦ rw (v, v', f, f', i')
      | inr (inr (inr (v', (f', (i', c'))))) ↦ rw (v, v', f, f', i', c')
    ]
    | inr (inr (inl (v, (f, i)))) ↦ elim l [
      | inl v' ↦ rw (v, v', f, i)
      | inr (inl (v', f')) ↦ rw (v, v', f, f', i)
      | inr (inr (inl (v', (f', i')))) ↦
          rw (v, v', f, f', i, i') (decide-mirrored m (less a b) (less b a) (less-asym a b))
      | inr (inr (inr (v', (f', (i', c'))))) ↦ rw (v, v', f, f', i, i', c')
    ]
    | inr (inr (inr (v, (f, (i, c))))) ↦ elim l [
      | inl v' ↦ rw (v, v', f, i, c)
      | inr (inl (v', f')) ↦ rw (v, v', f, f', i, c)
      | inr (inr (inl (v', (f', i')))) ↦ rw (v, v', f, f', i, i', c)
      | inr (inr (inr (v', (f', (i', c'))))) ↦
          rw (v, v', f, f', i, i', c, c') (consts-mirrored a b m s h g c c')
    ]
  ]
