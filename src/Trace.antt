-- ===== src/Trace.antt =====
-- Program traces (vm/src/trace.rs).
pub mod Record
pub mod Witness
pub mod Operands
pub mod Replay
pub mod Blocks
