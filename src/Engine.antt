-- ===== src/Engine.antt =====
-- engine/engine.c and include/engine.h: the abstract machine that runs an imago's code.
pub mod Word
pub mod Number
pub mod Machine
pub mod Trail
pub mod Unify
pub mod Frames
pub mod Build
pub mod Get
pub mod Structure
pub mod Arithmetic
pub mod Branch
pub mod Compare
pub mod Start
pub mod Tests
