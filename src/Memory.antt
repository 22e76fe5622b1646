-- ===== src/Memory.antt =====
-- crates/rvm-memory: the regions of guest memory.
pub mod Region
