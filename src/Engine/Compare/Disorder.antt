-- ===== src/Engine/Compare/Disorder.antt =====
-- Terms on which the comparison of engine/engine.c is no order.
use mlvm.Base.{Bool-cases, ◌⊎◌, inl, inr, ℕ, ◌≤◌, ◌≡◌, Bool, true, false, List, ltb, arith}
use mlvm.Engine.Word.{
  addr, is_var, is_list, is_con, is_int, is_str, is_cst, tag, is_float, mlvm_none,
}
use mlvm.Engine.Number.{fun_value}
use mlvm.Engine.Machine.{Machine}
use mlvm.Engine.Arithmetic.{Doubles}
use mlvm.Engine.Compare.{stop, compare_names, compare_structures, compare_words}

list_tests :
    (m : Machine) (l : ℕ)
    → is_list l ≡ true
    → (is_var l ≡ false)
      × ((is_float m.mem l ≡ false)
          × ((is_int l ≡ false) × ((is_con l ≡ false) × (ltb (tag l) 1 ≡ false))))
list_tests m l i = ground (arith)

cst_tests :
    (m : Machine) (c : ℕ)
    → is_cst c ≡ true
    → (is_var c ≡ false)
      × ((is_float m.mem c ≡ false) × ((ltb (tag c) 1 ≡ false) × (is_list c ≡ false)))
cst_tests m c i = ground (arith)

cst_cases : (c : ℕ) → is_cst c ≡ true → (is_int c ≡ true) ⊎ ((is_int c ≡ false) × (is_con c ≡ true))
cst_cases c i = elim (Bool-cases (is_int c)) [ inl e ↦ inl e | inr e ↦ inr (e, ground (arith)) ]

module _ (F : Doubles) (strcmp_below : ℕ → ℕ → Bool) where
  -- A list and a tagged constant or integer: each is put before the other.
  pub compare_words-list :
      (l c : ℕ) (ps : List (ℕ × ℕ)) (m : Machine)
      → is_list l ≡ true
      → is_cst c ≡ true
      → (compare_words F strcmp_below l c ps m ≡ stop mlvm_none ps m)
        × (compare_words F strcmp_below c l ps m ≡ stop mlvm_none ps m)
  unfolding compare_words
  compare_words-list l c ps m i j =
      let (v, (f, (n, (k, t)))) = list_tests m l i in
      let (v', (f', (t', l'))) = cst_tests m c j in
      (
        rw (v, f, n, k, i, f', t', l'),
        elim (cst_cases c j) [
          | inl n' ↦ rw (v', f', n', v, f, n)
          | inr (n', k') ↦ rw (v', f', n', k', v, f, n, k)
        ],
      )

  -- A structure whose functor is a single character is put before itself.
  pub compare_words-letter :
      (a : ℕ) (ps : List (ℕ × ℕ)) (m : Machine)
      → is_str a ≡ true
      → is_float m.mem a ≡ false
      → fun_value (m.mem (addr a)) ≤ 128
      → compare_words F strcmp_below a a ps m ≡ stop mlvm_none ps m
  unfolding compare_words compare_structures compare_names
  compare_words-letter a ps m s f h = ground (arith)
