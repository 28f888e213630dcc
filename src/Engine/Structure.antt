-- ===== src/Engine/Structure.antt =====
-- The get instructions of engine/engine.c that read or begin a compound term: getfloat, getlist,
-- getvlist, getstr and their forms that go on from the last cell.
pub mod Reads
use mlvm.Base.{
  ℕ, zero, suc, ◌+◌, Bool, true, false, ◌&&◌, Option, none, some, update, if◌then◌else◌, ◌==◌,
}
use mlvm.Engine.Word.{
  word, addr, is_var, is_list, is_str, is_float, fvl_tag, make_list, make_str, arity,
}
use mlvm.Engine.Machine.{
  Machine, Outcome, out_of_fuel, store, up, down, od, cell, next, jump, backtrack,
}
use mlvm.Engine.Trail.{trail, bbtrail}
use mlvm.Engine.Unify.{chase}
use mlvm.Engine.Build.{push}

-- The loop at the head of each of them, from the word `ax`, and its two ways on.
unfoldable pub on_term : ℕ → ℕ → Machine → (ℕ → Outcome) → (ℕ → Outcome) → Outcome
on_term fuel ax m at_variable at_term = elim (chase fuel m.mem ax) [
  | none ↦ out_of_fuel
  | some a ↦ if is_var a then at_variable a else at_term a
]

-- The registers with `gp` at the cell that the first operand names, or at the next cell.
abbrev pub at_cell : Machine → Machine
at_cell m = record m { gp = cell (od 1 m) m }

abbrev pub at_next : Machine → Machine
at_next m = record m { gp = up m.gp 1 }

-- A floating-point value for the unbound variable `a`; `i` is the operand of its first word.
unfoldable pub write_float : ℕ → ℕ → Machine → Machine
unfolding push bbtrail
write_float i a m =
    let m1 : Machine = record m { st = up m.st 1 } in
    let m2 = store a (make_str m1.st) m1 in
    let m3 = store m2.st fvl_tag m2 in
    let m4 = push (od i m3) m3 in bbtrail a (push (od (i + 1) m4) m4)

unfoldable pub read_float : ℕ → ℕ → Machine → Outcome
unfolding backtrack
read_float i a m =
    if is_float m.mem a
    then if (m.mem (up (addr a) 1) == od i m) && (m.mem (up (addr a) 2) == od (i + 1) m)
      then next (i + 2) m
      else backtrack m
    else backtrack m

-- LVM_GETFLOAT, LVM_CGETFLOAT
unfoldable pub getfloat : ℕ → Machine → Outcome
unfolding write_float read_float
getfloat fuel m =
    let m1 = at_cell m in
    on_term fuel (m1.mem m1.gp) m1 (λ a. next 4 (write_float 2 a m1)) (λ a. read_float 2 a m1)

unfoldable pub cgetfloat : ℕ → Machine → Outcome
unfolding write_float read_float
cgetfloat fuel m =
    let m1 = at_next m in
    on_term fuel (m1.mem m1.gp) m1 (λ a. next 3 (write_float 1 a m1)) (λ a. read_float 1 a m1)

-- A variable takes a compound term at `bx` that is still to be written: `gp` is before it.
unfoldable pub begin_write : (a term bx : ℕ) → Machine → Machine
unfolding trail
begin_write a term bx m = let m1 = trail a (store a term m) in record m1 { gp = down bx 1 }

-- `*bx = *addr(ax); *(bx + 1) = *(addr(ax) + 1)`
unfoldable pub copy_pair : ℕ → ℕ → Machine → Machine
copy_pair bx a m =
    let m1 = store bx (m.mem (addr a)) m in store (up bx 1) (m1.mem (up (addr a) 1)) m1

-- The write stream: the nesting level is operand `i`, and the entry operand `i + 1`.
unfoldable pub write_stream : ℕ → Machine → Outcome
write_stream i m = let m1 : Machine = record m { nl = od i m } in jump (od (i + 1) m1) m1

unfoldable pub read_list : ℕ → ℕ → ℕ → Machine → Outcome
unfolding copy_pair backtrack
read_list n bx a m = if is_list a then next n (copy_pair bx a m) else backtrack m

-- LVM_GETLIST, LVM_CGETLIST
unfoldable pub getlist : ℕ → Machine → Outcome
unfolding begin_write write_stream read_list
getlist fuel m =
    let m1 = at_cell m in
    let bx = cell (od 2 m1) m1 in
    on_term fuel (m1.mem m1.gp) m1 (λ a. write_stream 3 (begin_write a (make_list bx) bx m1))
      (λ a. read_list 5 bx a m1)

unfoldable pub cgetlist : ℕ → Machine → Outcome
unfolding begin_write write_stream read_list
cgetlist fuel m =
    let m1 = at_next m in
    let bx = cell (od 1 m1) m1 in
    on_term fuel (m1.mem m1.gp) m1 (λ a. write_stream 2 (begin_write a (make_list bx) bx m1))
      (λ a. read_list 4 bx a m1)

-- A variable takes a list of two unbound variables.
unfoldable pub write_pair : (a bx : ℕ) → Machine → Machine
unfolding trail
write_pair a bx m =
    let m1 = trail a (store a (make_list bx) m) in store (up bx 1) (up bx 1) (store bx bx m1)

-- LVM_GETVLIST, LVM_CGETVLIST
unfoldable pub getvlist : ℕ → Machine → Outcome
unfolding write_pair read_list
getvlist fuel m =
    let m1 = at_cell m in
    let bx = cell (od 2 m1) m1 in
    on_term fuel (m1.mem m1.gp) m1 (λ a. next 3 (write_pair a bx m1)) (λ a. read_list 3 bx a m1)

unfoldable pub cgetvlist : ℕ → Machine → Outcome
unfolding write_pair read_list
cgetvlist fuel m =
    let m1 = at_next m in
    let bx = cell (od 1 m1) m1 in
    on_term fuel (m1.mem m1.gp) m1 (λ a. next 2 (write_pair a bx m1)) (λ a. read_list 2 bx a m1)

-- `for (cx = 0; cx <= arity(dx); cx++) *(bx + cx) = *(ax + cx)`, from `cx` on, `n` rounds.
pub copy_cells : (n cx bx ax : ℕ) → (ℕ → ℕ) → ℕ → ℕ
copy_cells zero cx bx ax mem = mem
copy_cells (suc n) cx bx ax mem =
    copy_cells n (cx + 1) bx ax (update mem (up bx cx) (mem (up ax cx)))

unfoldable pub read_structure : (n bx dx a : ℕ) → Machine → Outcome
unfolding copy_cells backtrack
read_structure n bx dx a m =
    if is_str a
    then if m.mem (addr a) == dx
      then next n (record m { mem = copy_cells (arity dx + 1) 0 bx (addr a) m.mem })
      else backtrack m
    else backtrack m

-- LVM_GETSTR, LVM_CGETSTR: the functor is the operand before the entry of the write stream.
unfoldable pub structure_stream : ℕ → Machine → Outcome
structure_stream i m = let m1 : Machine = record m { nl = od i m } in jump (od (i + 2) m1) m1

unfoldable pub getstr : ℕ → Machine → Outcome
unfolding begin_write structure_stream read_structure
getstr fuel m =
    let m1 = at_cell m in
    let bx = cell (od 2 m1) m1 in
    on_term fuel (m1.mem m1.gp) m1 (λ a. structure_stream 3 (begin_write a (make_str bx) bx m1))
      (λ a. read_structure 6 bx (od 4 m1) a m1)

unfoldable pub cgetstr : ℕ → Machine → Outcome
unfolding begin_write structure_stream read_structure
cgetstr fuel m =
    let m1 = at_next m in
    let bx = cell (od 1 m1) m1 in
    on_term fuel (m1.mem m1.gp) m1 (λ a. structure_stream 2 (begin_write a (make_str bx) bx m1))
      (λ a. read_structure 5 bx (od 3 m1) a m1)
