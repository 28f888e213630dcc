-- ===== src/Engine/Arithmetic.antt =====
-- The arithmetic instructions of engine/engine.c, with the macros of include/engine.h that they are
-- made of, and make_float and float_value of opcode/opcode.c. A division by zero, or a shift that C
-- leaves undefined, is beyond the model.
pub mod Integers
use mlvm.Base.{
  ℕ, suc, ◌+◌, ◌-◌, ◌%◌, ◌^◌, Bool, true, false, not, ◌&&◌, Option, none, some, if◌then◌else◌, ltb,
  ◌==◌,
}
use mlvm.Engine.Word.{addr, is_var, is_int, is_float, fvl_tag, make_str, mlvm_zero, mlvm_none}
use mlvm.Engine.Number.{
  Operator, plus, minus, times, divide, modulo, and, or, exclusive, right, left, apply, make_int,
  int_value, negated, less,
}
use mlvm.Engine.Machine.{
  Machine, error, Outcome, switched, elsewhere, out_of_fuel, store, up, od, cell, next, jump,
}
use mlvm.Engine.Trail.{trail, bbtrail}
use mlvm.Engine.Unify.{deref}

-- E_UNKNOWN_TYPE, MLVM_ONE, MLVM_NOTAG_ONE
abbrev pub e_unknown_type : ℕ
e_unknown_type = 19

abbrev pub mlvm_one : ℕ
mlvm_one = 0xb

abbrev pub mlvm_notag_one : ℕ
mlvm_notag_one = 8

-- The operators that numbers are compared with.
pub data Comparison : Type 0 where
  equal differs below at_most above at_least : Comparison

unfoldable pub int_test : Comparison → ℕ → ℕ → Bool
int_test equal x y = x == y
int_test differs x y = not (x == y)
int_test below x y = less x y
int_test at_most x y = not (less y x)
int_test above x y = less y x
int_test at_least x y = not (less x y)

-- The numbers of type `double`, with the two words that one is kept in.
pub record Doubles : Type 1 where
  pub Double : Type 0
  pub of_words : ℕ → ℕ → Double
  pub word_1 : Double → ℕ
  pub word_2 : Double → ℕ
  pub of_int : ℕ → Double
  pub negative_of : Double → Double
  pub combine : Operator → Double → Double → Double
  pub test : Comparison → Double → Double → Bool

-- Which of two numbers an order puts first, as a tagged integer.
abbrev pub ordered : (less greater : Bool) → ℕ
ordered less greater = if greater then mlvm_one else if less then mlvm_none else mlvm_zero

-- The words that the first two operands lead to.
unfoldable pub with_operand : ℕ → ℕ → Machine → (ℕ → Outcome) → Outcome
with_operand fuel i m go = elim (deref fuel m.mem (cell (od i m) m)) [
  | none ↦ out_of_fuel
  | some w ↦ go w
]

abbrev pub unknown_type : Machine → Outcome
unknown_type m = switched error e_unknown_type m

unfoldable pub put_result : Option ℕ → Machine → Outcome
put_result none m = elsewhere (m.mem m.pp) m
put_result (some x) m = next 4 (store (cell (od 3 m) m) (make_int x) m)

-- `int_cpu(OP)`
unfoldable pub int_cpu : ℕ → Operator → Machine → Outcome
unfolding put_result
int_cpu fuel op m = with_operand fuel 1 m λ ax. with_operand fuel 2 m λ bx.
    if is_int ax && is_int bx
    then put_result (apply op (int_value ax) (int_value bx)) m
    else unknown_type m

-- `int_one(+)` and `int_one(-)`: the words are added as they are, with their tags.
unfoldable pub int_one : ℕ → Operator → Machine → Outcome
int_one fuel op m = with_operand fuel 1 m λ ax.
    if is_int ax
    then elim (apply op ax mlvm_notag_one) [
      | none ↦ elsewhere (m.mem m.pp) m
      | some w ↦ next 3 (store (cell (od 2 m) m) w m)
    ]
    else unknown_type m

-- LVM_IS
unfoldable pub is : ℕ → Machine → Outcome
unfolding bbtrail
is fuel m = with_operand fuel 2 m λ bx.
    if is_var bx then next 3 (bbtrail bx (store bx (m.mem (cell (od 1 m) m)) m)) else unknown_type m

-- LVM_MOD, LVM_AND, LVM_OR, LVM_EOR, LVM_RSHIFT, LVM_LSHIFT, LVM_INC, LVM_DEC
abbrev pub inc : ℕ → Machine → Outcome
inc fuel m = int_one fuel plus m

abbrev pub dec : ℕ → Machine → Outcome
dec fuel m = int_one fuel minus m

abbrev pub mod_ints : ℕ → Machine → Outcome
mod_ints fuel m = int_cpu fuel modulo m

abbrev pub and_ints : ℕ → Machine → Outcome
and_ints fuel m = int_cpu fuel and m

abbrev pub or_ints : ℕ → Machine → Outcome
or_ints fuel m = int_cpu fuel or m

abbrev pub eor_ints : ℕ → Machine → Outcome
eor_ints fuel m = int_cpu fuel exclusive m

abbrev pub shift_ints_right : ℕ → Machine → Outcome
shift_ints_right fuel m = int_cpu fuel right m

abbrev pub shift_ints_left : ℕ → Machine → Outcome
shift_ints_left fuel m = int_cpu fuel left m

-- The two ways on from a test.
abbrev pub branch_on : Bool → Machine → Outcome
branch_on holds m = if holds then next 4 m else jump (od 3 m) m

module _ (F : Doubles) where
  -- `float_value` and `make_float`
  abbrev pub float_value : (ℕ → ℕ) → ℕ → F.Double
  float_value mem w = F.of_words (mem (up (addr w) 1)) (mem (up (addr w) 2))

  abbrev pub write_float_value : F.Double → Machine → Machine
  write_float_value f m =
      let m1 = store (up m.st 1) fvl_tag m in
      store (up m.st 3) (F.word_2 f) (store (up m.st 2) (F.word_1 f) m1)

  -- `*(int*) cx = make_float(.., st); adjust_st(3); trail(cx)`, where `cx` is the third operand's
  -- cell.
  unfoldable pub put_float : F.Double → Machine → Outcome
  unfolding trail
  put_float f m =
      let cx = cell (od 3 m) m in
      let m1 = store cx (make_str (up m.st 1)) (write_float_value f m) in
      next 4 (trail cx (record m1 { st = up m.st 3 }))

  -- `ari_cpu(OP)`
  unfoldable pub ari_cpu : ℕ → Operator → Machine → Outcome
  unfolding put_result put_float
  ari_cpu fuel op m = with_operand fuel 1 m λ ax. with_operand fuel 2 m λ bx.
      if is_int ax
      then if is_int bx
        then put_result (apply op (int_value ax) (int_value bx)) m
        else if is_float m.mem bx
        then put_float (F.combine op (F.of_int (int_value ax)) (float_value m.mem bx)) m
        else unknown_type m
      else if is_float m.mem ax
      then if is_int bx
        then put_float (F.combine op (float_value m.mem ax) (F.of_int (int_value bx))) m
        else if is_float m.mem bx
        then put_float (F.combine op (float_value m.mem ax) (float_value m.mem bx)) m
        else unknown_type m
      else unknown_type m

  -- LVM_ADD, LVM_SUB, LVM_MUL, LVM_DIV
  abbrev pub add : ℕ → Machine → Outcome
  add fuel m = ari_cpu fuel plus m

  abbrev pub sub : ℕ → Machine → Outcome
  sub fuel m = ari_cpu fuel minus m

  abbrev pub mul : ℕ → Machine → Outcome
  mul fuel m = ari_cpu fuel times m

  abbrev pub div : ℕ → Machine → Outcome
  div fuel m = ari_cpu fuel divide m

  -- LVM_MINUS
  unfoldable pub minus_of : ℕ → Machine → Outcome
  minus_of fuel m = with_operand fuel 1 m λ ax.
      if is_int ax
      then next 3 (store (cell (od 2 m) m) (make_int (negated (int_value ax))) m)
      else if is_float m.mem ax
      then next 3
          (record (store (cell (od 2 m) m) (make_str (up m.st 1))
            (write_float_value (F.negative_of (float_value m.mem ax)) m)) { st = up m.st 3 })
      else unknown_type m

  -- `ari_cmp(OP)`: LVM_IFEQ, LVM_IFNE, LVM_IFLT, LVM_IFLE, LVM_IFGT, LVM_IFGE
  unfoldable pub ari_cmp : ℕ → Comparison → Machine → Outcome
  unfolding int_test
  ari_cmp fuel op m = with_operand fuel 1 m λ ax. with_operand fuel 2 m λ bx.
      if is_int ax
      then if is_int bx
        then branch_on (int_test op ax bx) m
        else if is_float m.mem bx
        then branch_on (F.test op (F.of_int (int_value ax)) (float_value m.mem bx)) m
        else unknown_type m
      else if is_float m.mem ax
      then if is_int bx
        then branch_on (F.test op (float_value m.mem ax) (F.of_int (int_value bx))) m
        else if is_float m.mem bx
        then branch_on (F.test op (float_value m.mem ax) (float_value m.mem bx)) m
        else unknown_type m
      else unknown_type m

  -- LVM_ARICMP
  abbrev pub put_order : ℕ → Machine → Outcome
  put_order dx m = next 4 (store (cell (od 3 m) m) dx m)

  abbrev pub put_order_of : F.Double → F.Double → Machine → Outcome
  put_order_of d1 d2 m = put_order (ordered (F.test below d1 d2) (F.test above d1 d2)) m

  unfoldable pub aricmp : ℕ → Machine → Outcome
  aricmp fuel m = with_operand fuel 1 m λ ax. with_operand fuel 2 m λ bx.
      if is_int ax
      then if is_int bx
        then put_order (ordered (int_test below ax bx) (int_test above ax bx)) m
        else if is_float m.mem bx
        then put_order_of (F.of_int (int_value ax)) (float_value m.mem bx) m
        else unknown_type m
      else if is_float m.mem ax
      then if is_int bx
        then put_order_of (float_value m.mem ax) (F.of_int (int_value bx)) m
        else if is_float m.mem bx
        then put_order_of (float_value m.mem ax) (float_value m.mem bx) m
        else unknown_type m
      else unknown_type m
