-- ===== src/Eval.antt =====
-- The evaluator (vm/src/eval.rs).
pub mod Alu
pub mod Machine
pub mod Profile
pub mod Step
pub mod Frame
pub mod Executed
