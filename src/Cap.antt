-- ===== src/Cap.antt =====
-- crates/rvm-cap: the capability system. `Table` holds the slots, `Grant` decides a delegation,
-- `Derivation` is the tree of who derived what, `Manager` drives them, `Verify` checks proofs, and
-- `Tests` runs them.
pub mod Error
pub mod Table
pub mod Grant
pub mod Derivation
pub mod Verify
pub mod Manager
mod Tests
