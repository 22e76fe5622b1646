-- ===== src/Sched.antt =====
-- crates/rvm-sched: scheduling. `Smp` assigns partitions to processors.
pub mod Smp
pub mod Queue
pub mod Epoch
pub mod Scheduler
