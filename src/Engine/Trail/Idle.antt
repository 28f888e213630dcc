-- ===== src/Engine/Trail/Idle.antt =====
-- clear_trail and filter_trail of include/engine.h, where `tt` is not above `gp`.
use mlvm.Base.{ℕ, ◌-◌, ◌/◌, ◌≤◌, ◌≡◌, refl, arith}
use mlvm.Engine.Word.{word}
use mlvm.Engine.Machine.{Machine}
use mlvm.Engine.Trail.{filter_trail, clear_trail, filter_loop, clear_loop}

-- The trail grows down, so where it has grown since `gp` was set, the loops that clean up make no round.
pub clear_trail-idle : (gp tt : ℕ) (m : Machine) → tt ≤ gp → clear_trail gp tt m ≡ m
unfolding clear_trail clear_loop
clear_trail-idle gp tt m h = let z : (tt - gp) / word ≡ 0 = omega arith in rw z refl

pub filter_trail-idle : (gp tt : ℕ) (m : Machine) → tt ≤ gp → filter_trail gp tt m ≡ m
unfolding filter_trail filter_loop
filter_trail-idle gp tt m h = let z : (tt - gp) / word ≡ 0 = omega arith in rw z refl
