-- ===== src/Engine/Unify/Cycle.antt =====
-- What the missing dereferencing of `bx` does, where `ax` is an unbound variable.
use mlvm.Base.{ℕ, zero, suc, ◌≡◌, ◌≢◌, refl, true, none, some, [], arith, update, ==-refl, ne→==}
use mlvm.Engine.Word.{is_var}
use mlvm.Engine.Machine.{Machine}
use mlvm.Engine.Unify.{chase, bind, unify, unified, round, resume}
use mlvm.Engine.Unify.Sound.{mem-bind}

-- From two cells that refer to one another no chain of references ends.
chase-loop :
    (n : ℕ) (mem : ℕ → ℕ) (x y : ℕ)
    → is_var x ≡ true
    → is_var y ≡ true
    → x ≢ y
    → mem x ≡ y
    → mem y ≡ x
    → chase n mem x ≡ none
unfolding chase
chase-loop zero mem x y v w d p q = refl
chase-loop (suc n) mem x y v w d p q =
    rw (v, p, ne→== y x (λ e. d (ground arith)), chase)
      (rw p (chase-loop n mem y x w v (λ e. d (ground arith)) q p))

chase-unbound :
    (k : ℕ) (mem : ℕ → ℕ) (x : ℕ) → is_var x ≡ true → mem x ≡ x → chase (suc k) mem x ≡ some x
unfolding chase
chase-unbound k mem x v p = rw (v, p, ==-refl x, chase)

-- Let `y` be a reference to the unbound variable `x`. The unification of `x` with `y` succeeds, as
-- it should, but it binds `x` to `y`: from then on no dereferencing of `x` ends, whatever the fuel.
pub unify-cycle :
    (k n x y : ℕ) (m : Machine)
    → is_var x ≡ true
    → is_var y ≡ true
    → x ≢ y
    → m.mem x ≡ x
    → m.mem y ≡ x
    → (unify (suc (suc k)) x y [] m ≡ unified (bind x y m)) × (chase n (bind x y m).mem x ≡ none)
unfolding unify round resume
unify-cycle k n x y m v w d p q = (
  rw (chase-unbound k m.mem x v p, v, unify, round) refl,
  rw (mem-bind x y m) (
      chase-loop n (update m.mem x y) x y v w d (ground arith)
        (rw (ne→== y x (λ e. d (ground arith))) q)),
)
