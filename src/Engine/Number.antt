-- ===== src/Engine/Number.antt =====
-- The numbers of the engine: opcode/opcode.h and the operators of C on `int`, whose values are their
-- 32-bit patterns. A result that does not fit wraps around.
pub mod Laws
use Prim.Native.Nat.{bit_and, bit_or, bit_xor}
use mlvm.Base.{
  ℕ, zero, suc, ◌+◌, ◌-◌, ◌*◌, ◌/◌, ◌%◌, ◌^◌, Bool, Option, none, some, if◌then◌else◌, ltb, leb,
  ◌==◌,
}

abbrev pub int_range : ℕ
int_range = 2 ^ 32

-- The sign, and the order of `int`.
abbrev pub negative : ℕ → Bool
negative x = leb (2 ^ 31) x

abbrev pub less : ℕ → ℕ → Bool
less x y = ltb ((x + 2 ^ 31) % 2 ^ 32) ((y + 2 ^ 31) % 2 ^ 32)

abbrev pub negated : ℕ → ℕ
negated x = (2 ^ 32 - x) % 2 ^ 32

-- `x >> n` for an `int`
abbrev pub shift_right : ℕ → ℕ → ℕ
shift_right x n = if negative x then 2 ^ 32 - 1 - (2 ^ 32 - 1 - x) / 2 ^ n else x / 2 ^ n

-- `make_int`, `int_value`, `con_value` and `fun_value`
abbrev pub make_int : ℕ → ℕ
make_int x = x * 8 % 2 ^ 32 + 3

abbrev pub int_value : ℕ → ℕ
int_value x = shift_right x 3

abbrev pub con_value : ℕ → ℕ
con_value x = shift_right x 3

abbrev pub fun_value : ℕ → ℕ
fun_value x = x % 2 ^ 23 / 8

-- The magnitude of a number, and `/` and `%`, which round towards zero. There is no result for a
-- divisor of 0.
abbrev pub magnitude : ℕ → ℕ
magnitude x = if negative x then 2 ^ 32 - x else x

abbrev pub quotient : ℕ → ℕ → ℕ
quotient x y =
    if negative x
    then if negative y then magnitude x / magnitude y else negated (magnitude x / magnitude y)
    else if negative y
    then negated (magnitude x / magnitude y)
    else magnitude x / magnitude y

abbrev pub remainder : ℕ → ℕ → ℕ
remainder x y =
    if negative x then negated (magnitude x % magnitude y) else magnitude x % magnitude y

-- The operators that the instructions are built with. A shift by a number of bits that is no less
-- than the width, or negative, has no result.
pub data Operator : Type 0 where
  plus minus times divide modulo and or exclusive right left : Operator

unfoldable pub apply : Operator → ℕ → ℕ → Option ℕ
apply plus x y = some ((x + y) % 2 ^ 32)
apply minus x y = some ((x + 2 ^ 32 - y) % 2 ^ 32)
apply times x y = some (x * y % 2 ^ 32)
apply divide x y = if y == 0 then none else some (quotient x y)
apply modulo x y = if y == 0 then none else some (remainder x y)
apply and x y = some (bit_and x y)
apply or x y = some (bit_or x y)
apply exclusive x y = some (bit_xor x y)
apply right x y = if ltb y 32 then some (shift_right x y) else none
apply left x y = if ltb y 32 then some (x * 2 ^ y % 2 ^ 32) else none
