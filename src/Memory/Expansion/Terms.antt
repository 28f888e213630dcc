-- ===== src/Memory/Expansion/Terms.antt =====
-- The terms on the stack before and after do_expansion of memory/mmanager.c: the engine's
-- dereferencing ends at the same words.
use mathlib.Core.Option
use mlvm.Base.{ℕ, suc, ◌+◌, ◌-◌, ◌*◌, ◌≤◌, ◌≡◌, Bool, true, false, ◌&&◌, ◌==◌, arith}
use mlvm.Engine.Word.{word, tag, is_var, is_cst, fvl_tag}
use mlvm.Engine.Machine.{up}
use mlvm.Memory.{Shift, uint}
use mlvm.Memory.Expansion.{Memory}

-- The functor of a floating-point value.
abbrev pub is_float_head : ℕ → Bool
is_float_head w = is_cst w && (w == fvl_tag)

-- The cell `p` is one of the `n` cells from `a` on, and none of the two words behind the functor of
-- a floating-point value.
pub data TermCell (mem : Memory) (p : ℕ) : ℕ → ℕ → Type 0 where
  here : (a n : ℕ) → p ≡ a → TermCell mem p a (suc n)
  behind :
      (a n : ℕ)
      → is_float_head (mem a) ≡ false
      → TermCell mem p (up a 1) n
      → TermCell mem p a (suc n)
  behind_float :
      (a n : ℕ)
      → is_float_head (mem a) ≡ true
      → TermCell mem p (up a 3) n
      → TermCell mem p a (suc (suc (suc n)))

-- The block is moved within the address space, by whole words, and the stack lies in it.
pub record IsMove (s : Shift) (a n : ℕ) : Type 0 where
  pub inside : s.old_base ≤ a
  pub fits : a + word * n + s.new_base ≤ uint + s.old_base
  pub old_aligned : tag s.old_base ≡ 0
  pub new_aligned : tag s.new_base ≡ 0
  pub old_fits : s.old_base ≤ uint

-- The place of an address of the block in the new one.
abbrev pub place : Shift → ℕ → ℕ
place s p = p + s.new_base - s.old_base

module _ (s : Shift) where
  var_or_cst : (w : ℕ) → is_var w ≡ true → is_cst w ≡ false
  var_or_cst w h = ground arith
