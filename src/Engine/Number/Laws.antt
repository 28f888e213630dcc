-- ===== src/Engine/Number/Laws.antt =====
-- Tagged integers and the values that they stand for.
use mlvm.Base.{ℕ, ◌+◌, ◌-◌, ◌%◌, ◌^◌, ◌≤◌, ◌<◌, ◌≡◌, ◌⊎◌, true, arith}
use mlvm.Engine.Word.{is_int}
use mlvm.Engine.Number.{less, make_int, int_value}

-- A number that has 29 bits, with its sign.
abbrev pub IsSmall : ℕ → Type 0
IsSmall x = (x < 2 ^ 28) ⊎ ((2 ^ 32 - 2 ^ 28 ≤ x) × (x < 2 ^ 32))

pub int_value-make_int : (x : ℕ) → IsSmall x → int_value (make_int x) ≡ x
int_value-make_int x h = ground (arith)

pub make_int-int_value : (w : ℕ) → w < 2 ^ 32 → is_int w ≡ true → make_int (int_value w) ≡ w
make_int-int_value w h i = ground (arith)

pub is_int-make_int : (x : ℕ) → is_int (make_int x) ≡ true
is_int-make_int x = ground (arith)

-- Adding to the tagged word adds to the value.
pub tagged-plus_one :
    (w : ℕ)
    → w < 2 ^ 32
    → is_int w ≡ true
    → (w + 8) % 2 ^ 32 ≡ make_int ((int_value w + 1) % 2 ^ 32)
tagged-plus_one w h i = ground (arith)

pub less-int_value :
    (v w : ℕ)
    → v < 2 ^ 32
    → w < 2 ^ 32
    → is_int v ≡ true
    → is_int w ≡ true
    → less v w ≡ less (int_value v) (int_value w)
less-int_value v w h g i j = ground (arith)
