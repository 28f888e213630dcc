-- ===== src/Memory.antt =====
-- The memory manager of memory/mmanager.c: do_expansion, do_contraction and the double buffer of
-- the collection. Addresses are byte addresses, as in the engine; a word is its 32-bit pattern. An
-- imago has one block: code and names, the stack, which grows up from `stack_base`, and the trail,
-- which grows down from `block_ceiling`.
pub mod Code
pub mod Manager
pub mod Expansion
pub mod Tests
use mlvm.Base.{ℕ, ◌+◌, ◌-◌, ◌/◌, ◌%◌, ◌^◌, ◌<◌, ◌≡◌}
use mlvm.Engine.Word.{word, addr, tag}

-- The fields of the imago's control block that the memory manager uses, and the memory.
pub record Icb : Type 0 where
  pub expansions : ℕ
  pub block_base : ℕ
  pub block_ceiling : ℕ
  pub name_base : ℕ
  pub name_top : ℕ
  pub proc_base : ℕ
  pub code_base : ℕ
  pub stack_base : ℕ
  pub pp : ℕ
  pub af : ℕ
  pub cp : ℕ
  pub cf : ℕ
  pub st : ℕ
  pub bb : ℕ
  pub b0 : ℕ
  pub gl : ℕ
  pub tt : ℕ
  pub mem : ℕ → ℕ

-- The bases of the old block and of the new one.
pub record Shift : Type 0 where
  pub old_base : ℕ
  pub new_base : ℕ

abbrev pub uint : ℕ
uint = 2 ^ 32

-- `p + distance` for an `int *`, where `distance` is the number of words between the two bases.
abbrev pub move : Shift → ℕ → ℕ
move s p = (p + uint + s.new_base - s.old_base) % uint

-- `x + distance` for an `int`.
abbrev pub add_distance : Shift → ℕ → ℕ
add_distance s x = (x + uint + s.new_base / word - s.old_base / word) % uint

-- What the stack scan makes of a word that is no constant: the address is moved and keeps its tag.
-- The bases are addresses of words, so that `|` adds the two low bits.
abbrev pub move_word : Shift → ℕ → ℕ
move_word s w = move s (addr w) + tag w
