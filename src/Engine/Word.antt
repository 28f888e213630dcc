-- ===== src/Engine/Word.antt =====
-- The tagged words of opcode/opcode.h, as their 32-bit patterns. Addresses are byte addresses of
-- words, so a pointer has its two low bits free for a tag.
use mlvm.Base.{ℕ, ◌+◌, ◌-◌, ◌/◌, ◌%◌, ◌^◌, Bool, ◌&&◌, ◌==◌}

-- `sizeof(int)`: a step of one by an `int *`.
abbrev pub word : ℕ
word = 4

-- `tag`, `tag3` and `addr`: the mask ADR_MASK clears the two low bits.
abbrev pub tag : ℕ → ℕ
tag t = t % 4

abbrev pub tag3 : ℕ → ℕ
tag3 t = t % 8

abbrev pub addr : ℕ → ℕ
addr t = t - t % 4

-- REF_TAG, LIS_TAG, STR_TAG and CST_TAG
abbrev pub is_var : ℕ → Bool
is_var t = tag t == 0

abbrev pub is_list : ℕ → Bool
is_list t = tag t == 1

abbrev pub is_str : ℕ → Bool
is_str t = tag t == 2

abbrev pub is_cst : ℕ → Bool
is_cst t = tag t == 3

-- INT_TAG and CON_TAG
abbrev pub is_int : ℕ → Bool
is_int t = tag3 t == 3

abbrev pub is_con : ℕ → Bool
is_con t = tag3 t == 7

-- FVL_TAG, the functor of a floating-point value.
abbrev pub fvl_tag : ℕ
fvl_tag = 2 ^ 32 - 1

abbrev pub is_float : (ℕ → ℕ) → ℕ → Bool
is_float mem t = is_str t && (mem (addr t) == fvl_tag)

-- `t | LIS_TAG` and `t | STR_TAG`
abbrev pub make_list : ℕ → ℕ
make_list t = t - t % 2 + 1

abbrev pub make_str : ℕ → ℕ
make_str t = t - t % 4 + t % 2 + 2

-- The high nine bits.
abbrev pub arity : ℕ → ℕ
arity t = t / 2 ^ 23 % 2 ^ 9

-- MLVM_ZERO and MLVM_NONE, the tagged integers 0 and -1.
abbrev pub mlvm_zero : ℕ
mlvm_zero = 3

abbrev pub mlvm_none : ℕ
mlvm_none = 0xfffffffb
