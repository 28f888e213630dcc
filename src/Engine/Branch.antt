-- ===== src/Engine/Branch.antt =====
-- The instructions of engine/engine.c that test a term and branch: isatom to lastzero, switch,
-- hashing, and ifeq0 to ifge0. `con_nil` is the word for the empty list, which the loader finds.
pub mod Probes
use mlvm.Base.{
  ℕ, zero, suc, ◌+◌, ◌*◌, ◌%◌, Bool, true, false, not, ◌&&◌, ◌||◌, Option, none, some,
  if◌then◌else◌, ◌==◌,
}
use mlvm.Engine.Word.{
  addr, tag, is_var, is_list, is_str, is_cst, is_int, is_con, is_float, mlvm_zero,
}
use mlvm.Engine.Number.{con_value, fun_value}
use mlvm.Engine.Machine.{
  Machine, error, Outcome, switched, elsewhere, out_of_fuel, e_unknown_opcode, up, od, next, jump,
}
use mlvm.Engine.Unify.{deref}
use mlvm.Engine.Arithmetic.{
  Comparison, equal, differs, below, at_most, above, at_least, int_test, with_operand, unknown_type,
}

-- `if (..) next(3) else jump(LAB2)` for what the first operand leads to.
unfoldable pub test_term : ℕ → (ℕ → Bool) → Machine → Outcome
test_term fuel test m = with_operand fuel 1 m λ ax. if test ax then next 3 m else jump (od 2 m) m

-- What the last argument leads to, `deref(ax, st)`.
unfoldable pub with_last : ℕ → Machine → (ℕ → Outcome) → Outcome
with_last fuel m go = elim (deref fuel m.mem m.st) [ none ↦ out_of_fuel | some w ↦ go w ]

unfoldable pub test_last : ℕ → (ℕ → Bool) → Machine → Outcome
test_last fuel test m = with_last fuel m λ ax. if test ax then next 2 m else jump (od 1 m) m

-- LVM_ISATOM, LVM_ISATOMIC, LVM_ISFLOAT, LVM_ISINTEGER, LVM_ISNUMBER, LVM_ISNONVAR, LVM_ISVAR,
-- LVM_ISLIST, LVM_ISSTR, LVM_ISCOMPOUND, LVM_ISGROUND
abbrev pub isatom : ℕ → Machine → Outcome
isatom fuel m = test_term fuel (λ ax. is_con ax) m

abbrev pub isatomic : ℕ → Machine → Outcome
isatomic fuel m = test_term fuel (λ ax. is_cst ax || is_float m.mem ax) m

abbrev pub isfloat : ℕ → Machine → Outcome
isfloat fuel m = test_term fuel (λ ax. is_float m.mem ax) m

abbrev pub isinteger : ℕ → Machine → Outcome
isinteger fuel m = test_term fuel (λ ax. is_int ax) m

abbrev pub isnumber : ℕ → Machine → Outcome
isnumber fuel m = test_term fuel (λ ax. is_int ax || is_float m.mem ax) m

abbrev pub isnonvar : ℕ → Machine → Outcome
isnonvar fuel m = test_term fuel (λ ax. not (is_var ax)) m

abbrev pub isvar : ℕ → Machine → Outcome
isvar fuel m = test_term fuel (λ ax. is_var ax) m

abbrev pub islist : ℕ → Machine → Outcome
islist fuel m = test_term fuel (λ ax. is_list ax) m

abbrev pub isstr : ℕ → Machine → Outcome
isstr fuel m = test_term fuel (λ ax. is_str ax && not (is_float m.mem ax)) m

abbrev pub iscompound : ℕ → Machine → Outcome
iscompound fuel m = test_term fuel (λ ax. (is_list ax || is_str ax) && not (is_float m.mem ax)) m

abbrev pub isground : ℕ → Machine → Outcome
isground fuel m = with_operand fuel 1 m λ ax. switched error e_unknown_opcode m

-- LVM_ISNIL, LVM_LASTNIL, LVM_ISZERO, LVM_LASTZERO
abbrev pub isnil : ℕ → ℕ → Machine → Outcome
isnil con_nil fuel m = test_term fuel (λ ax. ax == con_nil) m

abbrev pub lastnil : ℕ → ℕ → Machine → Outcome
lastnil con_nil fuel m = test_last fuel (λ ax. ax == con_nil) m

abbrev pub iszero : ℕ → Machine → Outcome
iszero fuel m = test_term fuel (λ ax. ax == mlvm_zero) m

abbrev pub lastzero : ℕ → Machine → Outcome
lastzero fuel m = test_last fuel (λ ax. ax == mlvm_zero) m

-- LVM_IFEQ0, LVM_IFNE0, LVM_IFLT0, LVM_IFLE0, LVM_IFGT0, LVM_IFGE0
unfoldable pub if_zero : Comparison → ℕ → Machine → Outcome
unfolding int_test
if_zero op fuel m = test_term fuel (λ ax. int_test op ax mlvm_zero) m

-- LVM_SWITCH, LVM_LASTSWITCH
unfoldable pub switch : ℕ → Machine → Outcome
switch fuel m = with_operand fuel 1 m λ ax. jump (od (tag ax + 2) m) m

unfoldable pub lastswitch : ℕ → Machine → Outcome
lastswitch fuel m = with_last fuel m λ ax. jump (od (tag ax + 1) m) m

-- The search for the key `ax` in a table of `cx` entries: the address of the entry that it ends at.
unfoldable pub probe : (fuel : ℕ) (mem : ℕ → ℕ) (table cx ax dx : ℕ) → Option ℕ
probe zero mem table cx ax dx = none
probe (suc k) mem table cx ax dx =
    let pp = up table (dx * 2) in
    elim ((mem pp == 0) || (ax == mem pp)) [
      | true ↦ some pp
      | false ↦ probe k mem table cx ax ((dx + 1) % cx)
    ]

-- The key that a word is searched by, where it has one. CON_TAG has three bits, and `tag` gives two.
unfoldable pub hash_key : (ℕ → ℕ) → ℕ → Option ℕ
hash_key mem ax =
    if tag ax == 7
    then some (con_value ax)
    else if tag ax == 2
    then some (fun_value (mem (addr ax)))
    else none

-- DOHASH: a table of no entries, which makes `%` fail, is beyond the model.
unfoldable pub do_hash : ℕ → ℕ → ℕ → Machine → Outcome
unfolding probe
do_hash fuel ax gp m =
    let cx = m.mem (up gp 1) in
    if tag ax == 0
    then jump (m.mem (up gp 2)) (record m { gp = gp })
    else elim (hash_key m.mem ax) [
      | none ↦ unknown_type (record m { gp = gp })
      | some key ↦
          if cx == 0
          then elsewhere (m.mem m.pp) m
          else elim (probe fuel m.mem (up gp 3) cx key (key % cx)) [
            | none ↦ out_of_fuel
            | some pp ↦ jump (m.mem (up pp 1)) (record m { gp = up gp 3 })
          ]
    ]

-- LVM_HASHING, LVM_LASTHASHING
unfoldable pub hashing : ℕ → Machine → Outcome
hashing fuel m = with_operand fuel 1 m λ ax. do_hash fuel ax (od 2 m) m

unfoldable pub lasthashing : ℕ → Machine → Outcome
lasthashing fuel m = with_last fuel m λ ax. do_hash fuel ax (od 1 m) m
