-- ===== src/Memory/Tests.antt =====
-- The theorems on the expansion of memory/mmanager.c at a small block.
use mathlib.Core.Option
use mlvm.Base.{ℕ, ◌+◌, ◌-◌, ◌%◌, ◌≡◌, refl, some, [], ◌∷◌, if◌then◌else◌, ◌==◌, arith}
use mlvm.Memory.{Icb, Shift, uint}
use mlvm.Memory.Code.{type_of, i_htab}
use mlvm.Memory.Expansion.{Memory, adjust_chain}
use mlvm.Memory.Expansion.Trails.{is_tt, adjust_chain-Adds}

-- The last row of the table of instructions.
type_of_run : type_of 136 ≡ some i_htab
unfolding type_of
type_of_run = refl

-- A block at 4096 that goes to 8192, with three words of stack: a reference to an unbound variable,
-- that variable, and an integer.
abbrev shift : Shift
shift = record { old_base = 4096; new_base = 8192 }

abbrev old_stack : Memory
old_stack q = if q == 4096 then 4100 else if q == 4100 then 4100 else 11

abbrev new_stack : Memory
new_stack q = old_stack (q + 4096 - 8192)

-- One frame at 5000, with its trail pointer at 4992, above a stack that starts at 4096.
abbrev frame : Memory
frame q = if q == 5000 then 4096 else if q == 4992 then 9000 else 11

adjust_chain-Adds_example :
    (out : Memory) × (adjust_chain 2 0 100 5000 4096 frame ≡ some out)
    × ((q : ℕ) → out q ≡ (if is_tt q (5000 ∷ []) then (frame q + 100) % uint else frame q))
adjust_chain-Adds_example =
    adjust_chain-Adds 2 0 100 5000 4096 (5000 ∷ []) frame (omega arith)
      (refl, omega arith, omega arith) (refl, tt) (refl, tt)

-- A block of eight words, with one on the trail.
abbrev block : Icb
block = record {
  expansions = 0;
  block_base = 4096;
  block_ceiling = 4128;
  name_base = 4096;
  name_top = 4096;
  proc_base = 4096;
  code_base = 4096;
  stack_base = 4096;
  pp = 4096;
  af = 4124;
  cp = 4096;
  cf = 4096;
  st = 4096;
  bb = 4096;
  b0 = 4096;
  gl = 4096;
  tt = 4120;
  mem = frame;
}
