-- ===== src/System.antt =====
-- The daemon of an MLVM server, system/: the queues of its imagoes.
pub mod Queue
pub mod Threads
mod Tests
