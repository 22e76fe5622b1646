-- ===== src/Witness.antt =====
-- crates/rvm-witness: the log of witness records. `Action` has the numbers of actions, `Record` the records, `Hash` the hashes of the
-- chain, `Log` the ring buffer, `Emit` the makers of records, `Replay` the check of a chain.
pub mod Action
pub mod Record
pub mod Hash
pub mod Log
pub mod Emit
pub mod Replay
