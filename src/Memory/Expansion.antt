-- ===== src/Memory/Expansion.antt =====
-- do_expansion of memory/mmanager.c. Each loop takes fuel, and none is that it does not end within
-- it. What `realloc` answers, and the memory that it leaves, are arguments.
pub mod Scan
pub mod Terms
pub mod Trails
use mlvm.Base.{
  ℕ, zero, suc, ◌+◌, ◌-◌, ◌*◌, ◌/◌, ◌%◌, Bool, true, false, not, Option, none, some, List, [], ◌∷◌,
  if◌then◌else◌, ltb, leb, ◌==◌, update,
}
use mlvm.Engine.Word.{word, addr, tag, is_var, is_cst, make_str, fvl_tag}
use mlvm.Engine.Machine.{down, up}
use mlvm.Memory.{Icb, Shift, uint, move, add_distance, move_word}
use mlvm.Memory.Code.{CodeStep, direct, adjust, hash, type_of, adjust_code}

infixl 5 ◌>>=◌
abbrev pub ◌>>=◌ {ℓ κ} : {A : Type ℓ} {B : Type κ} → Option A → (A → Option B) → Option B
none >>= f = none
some a >>= f = f a

-- The memory of an imago.
abbrev pub Memory : Type 0
Memory = ℕ → ℕ

-- `*p += distance` for an `int *p`
abbrev pub shift_at : Shift → ℕ → Memory → Memory
shift_at s p mem = update mem p (add_distance s (mem p))

-- 1) The procedure table: the loop from `tp1` to `tp2`.
pub adjust_procs : ℕ → Shift → (tp1 tp2 : ℕ) → Memory → Option Memory
adjust_procs zero s tp1 tp2 mem = none
adjust_procs (suc fuel) s tp1 tp2 mem =
    let rest = adjust_procs fuel s (up tp1 2) tp2 (shift_at s tp1 mem) in
    if ltb tp1 tp2 then rest else some mem

-- The loop of `mhash`: two words for each entry.
pub adjust_hash : ℕ → Shift → ℕ → Memory → ℕ × Memory
adjust_hash zero s tp2 mem = (tp2, mem)
adjust_hash (suc ax) s tp2 mem = adjust_hash ax s (up tp2 2) (shift_at s tp2 mem)

-- `mdirect`, `madjust` and `mhash`
pub code_step : Shift → CodeStep → ℕ × Memory → ℕ × Memory
code_step s direct (tp2, mem) = (up tp2 1, mem)
code_step s adjust (tp2, mem) = (up tp2 1, shift_at s tp2 mem)
code_step s hash (tp2, mem) =
    let (p, mem') = adjust_hash (mem (up tp2 1) + 1) s (up tp2 2) mem in (down p 1, mem')

pub code_steps : Shift → List CodeStep → ℕ × Memory → ℕ × Memory
code_steps s [] r = r
code_steps s (c ∷ cs) r = code_steps s cs (code_step s c r)

-- `adjust_code(mtype(), ...)`, none where the word is no opcode.
pub adjust_instruction : Shift → ℕ → Memory → Option (ℕ × Memory)
adjust_instruction s tp2 mem = do
  t ← type_of (mem tp2)
  some (code_steps s (adjust_code t) (tp2, mem))

-- 2) The code: the loop from `tp2` to `tp1`.
pub adjust_codes : ℕ → Shift → (tp2 tp1 : ℕ) → Memory → Option Memory
adjust_codes zero s tp2 tp1 mem = none
adjust_codes (suc fuel) s tp2 tp1 mem =
    let rest = adjust_instruction s tp2 mem >>= λ r. adjust_codes fuel s r.0 tp1 r.1 in
    if ltb tp2 tp1 then rest else some mem

-- 4) The active stack: the loop from `tp1` to `tp2`, both included.
pub scan_stack : ℕ → Shift → (tp1 tp2 : ℕ) → Memory → Option Memory
scan_stack zero s tp1 tp2 mem = none
scan_stack (suc fuel) s tp1 tp2 mem =
    let float = scan_stack fuel s (up tp1 3) tp2 mem in
    let constant = scan_stack fuel s (up tp1 1) tp2 mem in
    let pointer = scan_stack fuel s (up tp1 1) tp2 (update mem tp1 (move_word s (mem tp1))) in
    if leb tp1 tp2
    then if is_cst (mem tp1) then if mem tp1 == fvl_tag then float else constant else pointer
    else some mem

-- The trail of a block that has not moved: `ax` words from above `tp1` to above `tp2`.
pub move_trail : ℕ → (tp1 tp2 : ℕ) → Memory → Memory
move_trail zero tp1 tp2 mem = mem
move_trail (suc ax) tp1 tp2 mem =
    move_trail ax (up tp1 1) (up tp2 1) (update mem (up tp2 1) (mem (up tp1 1)))

-- A word of the trail in a block that has moved: a variable, or a generation line.
abbrev pub move_root : Shift → ℕ → ℕ
move_root s bx = if is_var bx then move s bx else make_str (move s (addr bx))

-- The trail of a block that has moved.
pub adjust_trail : ℕ → Shift → (tp1 tp2 : ℕ) → Memory → Memory
adjust_trail zero s tp1 tp2 mem = mem
adjust_trail (suc ax) s tp1 tp2 mem =
    adjust_trail ax s (up tp1 1) (up tp2 1) (update mem (up tp2 1) (move_root s (mem (up tp1 1))))

-- The trail pointers of a chain of frames, whose next frame is `*(tp1 - link)`: the loops over the
-- control frames, with 0, and over the choice frames, with 3.
pub adjust_chain : ℕ → (link adjustment tp1 tp2 : ℕ) → Memory → Option Memory
adjust_chain zero link adjustment tp1 tp2 mem = none
adjust_chain (suc fuel) link adjustment tp1 tp2 mem =
    let mem' : Memory = update mem (down tp1 2) ((mem (down tp1 2) + adjustment) % uint) in
    let rest = adjust_chain fuel link adjustment (mem' (down tp1 link)) tp2 mem' in
    if ltb tp2 tp1 then rest else some mem

-- MM_TURNING and MM_EXP_SIZE
abbrev pub mm_turning : ℕ
mm_turning = 5

abbrev pub mm_exp_size : ℕ
mm_exp_size = 1048576

-- The size of the block, and how much is added to it, in words.
abbrev pub block_size : Icb → ℕ
block_size p = (p.block_ceiling - p.block_base) / word

abbrev pub adjustment_of : Icb → ℕ
adjustment_of p = if ltb p.expansions mm_turning then block_size p else mm_exp_size

-- The registers and the base pointers of a block that has moved.
abbrev pub move_registers : Shift → ℕ → Icb → Icb
move_registers s adjustment p = record p {
  block_base = s.new_base;
  block_ceiling = up (move s p.block_ceiling) adjustment;
  stack_base = move s p.stack_base;
  code_base = move s p.code_base;
  proc_base = move s p.proc_base;
  name_base = move s p.name_base;
  name_top = move s p.name_top;
  pp = move s p.pp;
  af = move s p.af;
  cp = move s p.cp;
  cf = move s p.cf;
  st = move s p.st;
  bb = move s p.bb;
  b0 = move s p.b0;
  gl = move s p.gl;
  tt = move s p.tt;
}

-- The segments of a block that has moved.
unfoldable pub move_segments : ℕ → Shift → Icb → Option Icb
unfolding adjust_procs adjust_codes scan_stack
move_segments fuel s p = do
  mem1 ← adjust_procs fuel s (up p.proc_base 1) p.code_base p.mem
  mem2 ← adjust_codes fuel s p.code_base p.name_base mem1
  mem3 ← scan_stack fuel s p.stack_base p.st mem2
  some (record p { mem = mem3 })

-- The trail and the frames, whether the block has moved or not. `moved` is `distance != 0`.
unfoldable pub move_trails : ℕ → Shift → Bool → (old_size adjustment : ℕ) → Icb → Option Icb
unfolding move_trail adjust_trail adjust_chain
move_trails fuel s moved old_size adjustment p =
    let ax = old_size - (p.tt - s.new_base) / word in
    let tt' = up p.tt adjustment in
    let mem1 = if moved then adjust_trail ax s p.tt tt' p.mem else move_trail ax p.tt tt' p.mem in
    do
      mem2 ← adjust_chain fuel 0 adjustment p.cf p.stack_base mem1
      mem3 ← adjust_chain fuel 3 adjustment p.bb p.stack_base mem2
      some (record p { tt = tt'; mem = mem3 })

-- E_SUCCEED and E_MEMORY_OUT
pub data Expanded : Type 0 where
  succeed memory_out : Icb → Expanded

-- `do_expansion` after `realloc` has given the block at `s.new_base` and left the memory `mem`.
unfoldable pub expand : ℕ → Shift → Memory → Icb → Option Icb
expand fuel s mem p =
    let old_size = block_size p in
    let adjustment = adjustment_of p in
    let moved = not (s.new_base == s.old_base) in
    let q : Icb =
      if moved
      then move_registers s adjustment p
      else record p { block_ceiling = up p.block_ceiling adjustment } in
    let q' : Icb = record q { expansions = p.expansions + 1; mem = mem } in
    do
      r ← if moved then move_segments fuel s q' else some q'
      move_trails fuel s moved old_size adjustment r

-- `do_expansion`
unfoldable pub do_expansion : ℕ → Option (ℕ × Memory) → Icb → Option Expanded
unfolding expand
do_expansion fuel none p = some (memory_out p)
do_expansion fuel (some (new_base, mem)) p = do
  q ← expand fuel (record { old_base = p.block_base; new_base = new_base }) mem p
  some (succeed q)
