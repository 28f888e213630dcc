-- ===== src/Base/Array.antt =====
-- A C array, or the machine's memory, as a function of the index.
use Prim.Native.Nat.{ℕ, zero, suc, ◌+◌, ◌-◌, ◌≤◌, ◌<◌}
use mathlib.Core.Path.{◌≡◌, refl, ap, ◌∙◌}
use mathlib.Core.List.{List, [], ◌∷◌}
use native.Mathlib.Omega.{arith}
use package.mlvm.Base.Test.{◌==◌, if◌then◌else◌}
use package.mlvm.Base.Lists.{length, take, drop}

-- `a[i] = v`
abbrev pub update {ℓ} : {A : Type ℓ} → (ℕ → A) → ℕ → A → ℕ → A
update a i v j = if j == i then v else a j

-- `n` elements from index `i` on
abbrev pub slice {ℓ} : {A : Type ℓ} → (ℕ → A) → ℕ → ℕ → List A
slice a i zero = []
slice a i (suc n) = a i ∷ slice a (i + 1) n

module _ {ℓ} {A : Type ℓ} where
  pub length-slice : (a : ℕ → A) (i n : ℕ) → length (slice a i n) ≡ n
  length-slice a i zero = refl
  length-slice a i (suc n) = ap suc (length-slice a (i + 1) n)

  -- A write below a slice does not show in it.
  pub slice-update_lt :
      (a : ℕ → A) (k i n : ℕ) (v : A) → k < i → slice (update a k v) i n ≡ slice a i n
  slice-update_lt a k i zero v h = refl
  slice-update_lt a k i (suc n) v h = ground (arith, slice-update_lt a k (i + 1) n v)

  pub take-slice : (k : ℕ) (a : ℕ → A) (i n : ℕ) → k ≤ n → take k (slice a i n) ≡ slice a i k
  take-slice zero a i n h = refl
  take-slice (suc k) a i zero h = elim h [ ]
  take-slice (suc k) a i (suc n) h = ap (◌∷◌ (a i)) (take-slice k a (i + 1) n (omega arith))

  pub drop-slice :
      (k : ℕ) (a : ℕ → A) (i n : ℕ) → k ≤ n → drop k (slice a i n) ≡ slice a (i + k) (n - k)
  drop-slice zero a i n h =
      let e : i + 0 ≡ i = omega arith in let d : n - 0 ≡ n = omega arith in rw (e, d)
  drop-slice (suc k) a i zero h = elim h [ ]
  drop-slice (suc k) a i (suc n) h =
      drop-slice k a (i + 1) n (omega arith)
      ∙ (let e : i + 1 + k ≡ i + suc k = omega arith in
          let d : n - k ≡ suc n - suc k = omega arith in rw (e, d))
