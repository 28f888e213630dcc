-- ===== src/Transport.antt =====
-- The transport: the parts of transport/ that carry an imago from one server to another.
pub mod Frame
pub mod Queue
pub mod Timer
pub mod StateMachine
pub mod Connection
pub mod Pdu
pub mod Tests
