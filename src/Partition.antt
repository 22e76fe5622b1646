-- ===== src/Partition.antt =====
-- crates/rvm-partition: partitions and the messages between them. `Queue` is the ring buffer of a
-- channel, `Ipc` the manager of the channels, `Device` the manager of device leases, `Manager` that
-- of partitions, `Lifecycle` the states of a partition, merge and split.
pub mod Queue
pub mod Ipc
pub mod Device
pub mod Manager
pub mod Lifecycle
