-- ===== src/Examples.antt =====
-- Concrete inputs on which the theorems apply.
mod Programs
mod Lines
mod Tries
mod Runs
mod Builtin
mod Shuffles
mod Memories
mod Pools
mod Trees
mod Parity
mod Folds
mod Circuits
mod Constraints
