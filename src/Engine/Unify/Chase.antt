-- ===== src/Engine/Unify/Chase.antt =====
-- Chains of references: where they end, and what a binding at the end of one does to it.
use mlvm.Base.{
  ℕ, zero, suc, ◌<◌, ◌≡◌, ◌≢◌, refl, sym, subst, ◌∙◌, inl, inr, true, false, not, ◌&&◌, some, arith,
  ◌==◌, Bool-cases, ==-refl, update,
}
use mlvm.Engine.Word.{is_var}
use mlvm.Engine.Unify.{chase}
use mlvm.Engine.Unify.Cases.{chase-end}

-- No reference leads round: each is to a cell of a lower rank.
abbrev pub Ranked : (ℕ → ℕ) → (ℕ → ℕ) → Type 0
Ranked rank mem = (a : ℕ) → is_var a ≡ true → mem a ≢ a → rank (mem a) < rank a

-- Where references do not lead round, dereferencing ends within as many steps as the rank of the word, and one.
pub chase-ends :
    (rank : ℕ → ℕ) (mem : ℕ → ℕ)
    → Ranked rank mem
    → (k w : ℕ) → rank w < k
    → (a : ℕ) × (chase k mem w ≡ some a)
unfolding chase
chase-ends rank mem r zero w h = absurd (omega arith)
chase-ends rank mem r (suc k) w h = elim (Bool-cases (is_var w && not (mem w == w))) [
  | inl q ↦
      let step : rank (mem w) < rank w = r w (ground arith) (ground arith) in
      rw (q, chase) (chase-ends rank mem r k (mem w) (omega (arith, step)))
  | inr q ↦ rw (q, chase) (w, refl)
]

pub chase-more :
    (k : ℕ) (mem : ℕ → ℕ) (w : ℕ) {a : ℕ} → chase k mem w ≡ some a → chase (suc k) mem w ≡ some a
unfolding chase
chase-more zero mem w e = absurd (cc)
chase-more (suc k) mem w e = elim (Bool-cases (is_var w && not (mem w == w))) [
  | inl q ↦ rw (q, chase) (chase-more k mem (mem w) (rw (q, chase) at e))
  | inr q ↦ rw (q, chase) (rw (q, chase) at e)
]

pub chase-step :
    (k : ℕ) (mem : ℕ → ℕ) (w : ℕ)
    → (is_var w && not (mem w == w)) ≡ true
    → chase (suc k) mem w ≡ chase k mem (mem w)
unfolding chase
chase-step k mem w q = rw (q, chase) refl

pub chase-stop :
    (k : ℕ) (mem : ℕ → ℕ) (w : ℕ)
    → (is_var w && not (mem w == w)) ≡ false
    → chase (suc k) mem w ≡ some w
unfolding chase
chase-stop k mem w q = rw (q, chase) refl

bound-chase :
    (k c x : ℕ) (mem : ℕ → ℕ)
    → is_var c ≡ false
    → is_var x ≡ true
    → chase (suc (suc k)) (update mem x c) x ≡ some c
bound-chase k c x mem n v =
    chase-step (suc k) (update mem x c) x (ground arith)
    ∙ (rw (==-refl x) (chase-stop k (update mem x c) c (rw n refl)))

pub chase-zero : {P : Type 0} (mem : ℕ → ℕ) (w : ℕ) {a : ℕ} → chase zero mem w ≡ some a → P
unfolding chase
chase-zero mem w e = absurd cc

-- Binding the variable at the end of `ax` to a word that is no variable makes `ax` lead to it.
pub stored :
    (k ax c x : ℕ) (mem : ℕ → ℕ)
    → is_var c ≡ false
    → chase k mem ax ≡ some x
    → is_var x ≡ true
    → chase (suc k) (update mem x c) ax ≡ some c
stored zero ax c x mem n e v = chase-zero mem ax e
stored (suc k) ax c x mem n e v = elim (Bool-cases (is_var ax && not (mem ax == ax))) [
  | inl q ↦
      let apart : (ax == x) ≡ false = ground (arith, chase-end (suc k) mem ax e v) in
      chase-step (suc k) (update mem x c) ax (rw (apart) q)
      ∙ (rw apart (stored k (mem ax) c x mem n (sym (chase-step k mem ax q) ∙ e) v))
  | inr q ↦
      let ends : some ax ≡ some x = sym (chase-stop k mem ax q) ∙ e in
      let here : ax ≡ x = cc in
      subst (λ y. chase (suc (suc k)) (update mem x c) y ≡ some c) (sym here)
        (bound-chase k c x mem n v)
]
