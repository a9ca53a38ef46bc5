-- ===== src/Memory.antt =====
-- The machine's memory: cache lines, and the interface of a memory controller
-- (vm/src/memory.rs, vm/src/memory/).
pub mod CacheLine
pub mod Controller
pub mod Lines
pub mod Paged
pub mod Path
pub mod Trie
