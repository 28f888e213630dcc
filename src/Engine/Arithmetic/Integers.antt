-- ===== src/Engine/Arithmetic/Integers.antt =====
-- The arithmetic of engine/engine.c on integers.
use mlvm.Base.{ℕ, ◌+◌, ◌%◌, ◌^◌, ◌<◌, ◌≡◌, refl, ap, ◌∙◌, true, not, some, ◌==◌, arith}
use mlvm.Engine.Word.{is_int}
use mlvm.Engine.Number.{Operator, make_int, int_value, apply}
use mlvm.Engine.Number.Laws.{IsSmall, int_value-make_int, tagged-plus_one, less-int_value}
use mlvm.Engine.Machine.{Machine, Outcome, store, od, cell, next}
use mlvm.Engine.Unify.{deref}
use mlvm.Engine.Arithmetic.{
  Doubles, Comparison, equal, differs, below, at_most, above, at_least, with_operand, put_result,
  ari_cpu, int_one, inc, ari_cmp, branch_on, int_test,
}

pub with_operand-some :
    (fuel i : ℕ) (m : Machine) (go : ℕ → Outcome) {w : ℕ}
    → deref fuel m.mem (cell (od i m) m) ≡ some w
    → with_operand fuel i m go ≡ go w
unfolding with_operand
with_operand-some fuel i m go e = rw (e, with_operand) refl

-- An instruction on two integers whose result has 29 bits puts the tagged result into the cell of
-- the third operand and goes on: the value read back from it is the result.
pub ari_cpu-int :
    (F : Doubles) (fuel : ℕ) (op : Operator) (m : Machine) (v w x : ℕ)
    → deref fuel m.mem (cell (od 1 m) m) ≡ some v
    → deref fuel m.mem (cell (od 2 m) m) ≡ some w
    → is_int v ≡ true
    → is_int w ≡ true
    → apply op (int_value v) (int_value w) ≡ some x
    → IsSmall x
    → (t : ℕ) × ((ari_cpu F fuel op m ≡ next 4 (store (cell (od 3 m) m) t m))
        × ((is_int t ≡ true) × (int_value t ≡ x)))
unfolding ari_cpu put_result
ari_cpu-int F fuel op m v w x e f i j r s = (
  make_int x,
  (
    with_operand-some fuel 1 m _ e ∙ (with_operand-some fuel 2 m _ f ∙ (rw (i, j, r) refl)),
    (ground arith, int_value-make_int x s),
  ),
)

-- `inc` adds to the tagged word what adding one to its value, and tagging that, gives.
pub inc-make_int :
    (fuel : ℕ) (m : Machine) (w : ℕ)
    → deref fuel m.mem (cell (od 1 m) m) ≡ some w
    → is_int w ≡ true
    → w < 2 ^ 32
    → inc fuel m ≡ next 3 (store (cell (od 2 m) m) (make_int ((int_value w + 1) % 2 ^ 32)) m)
unfolding int_one apply
inc-make_int fuel m w e i b = with_operand-some fuel 1 m _ e ∙ (rw (i, tagged-plus_one w b i) refl)

same-int_value :
    (v w : ℕ)
    → v < 2 ^ 32
    → w < 2 ^ 32
    → is_int v ≡ true
    → is_int w ≡ true
    → (v == w) ≡ (int_value v == int_value w)
same-int_value v w b c i j = ground arith

int_test-int_value :
    (op : Comparison) (v w : ℕ)
    → v < 2 ^ 32
    → w < 2 ^ 32
    → is_int v ≡ true
    → is_int w ≡ true
    → int_test op v w ≡ int_test op (int_value v) (int_value w)
unfolding int_test
int_test-int_value equal v w b c i j = same-int_value v w b c i j
int_test-int_value differs v w b c i j = ap not (same-int_value v w b c i j)
int_test-int_value below v w b c i j = less-int_value v w b c i j
int_test-int_value at_most v w b c i j = ap not (less-int_value w v c b j i)
int_test-int_value above v w b c i j = less-int_value w v c b j i
int_test-int_value at_least v w b c i j = ap not (less-int_value v w b c i j)

-- A comparison branches on the tagged words as it would on the values.
pub ari_cmp-int_value :
    (F : Doubles) (fuel : ℕ) (op : Comparison) (m : Machine) (v w : ℕ)
    → deref fuel m.mem (cell (od 1 m) m) ≡ some v
    → deref fuel m.mem (cell (od 2 m) m) ≡ some w
    → is_int v ≡ true
    → is_int w ≡ true
    → v < 2 ^ 32
    → w < 2 ^ 32
    → ari_cmp F fuel op m ≡ branch_on (int_test op (int_value v) (int_value w)) m
unfolding ari_cmp
ari_cmp-int_value F fuel op m v w e f i j b c =
    with_operand-some fuel 1 m _ e
    ∙ (with_operand-some fuel 2 m _ f
        ∙ (rw (i, j) (ap (λ t. branch_on t m) (int_test-int_value op v w b c i j))))
