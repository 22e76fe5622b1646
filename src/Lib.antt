-- ===== src/Lib.antt =====
-- RVM, a capability-based hypervisor for coherence domains (crates/). This library models its
-- capability system, the isolation of its memory regions, the messages between partitions, the
-- assignment of processors, its scheduler, its witness log, its security gate, and its resource
-- quotas. Partitions hold capabilities in a table; a delegation goes through the grant policy,
-- is put into the table and is told to the derivation tree; a revocation walks the tree and
-- empties the slots; proofs check a capability before an operation. Memory regions are owned by
-- partitions, and the region manager keeps their address ranges apart. Partitions send messages
-- over channels, each with a bounded queue, and hold leases of devices. The scheduler assigns
-- partitions to processors. Quotas bound what a partition uses in an epoch. Privileged actions
-- leave records in a witness log, a ring whose records are chained by hashes; the security gate
-- decides on a request and leaves such a record.
--
-- - Types, Types.Capability: crates/rvm-types/src/ids.rs, error.rs and capability.rs. The
--   operations of the crate `bitflags` are a record `Bitflags` with the documented laws
--   `IsLawful`; Types.Capability.Digits has a concrete instance for the tests.
--
-- - Cap.Error, Cap.Table: crates/rvm-cap/src/error.rs and table.rs. The array of slots is a
--   list, a handle an index with a generation. Table.Free is about the search for a free slot,
--   Table.Invariant about the count and the generations, Table.Handles about reading what was
--   put in, Table.Retired about the handles of what was removed.
--
-- - Cap.Grant: crates/rvm-cap/src/grant.rs, with `validate_grant` as a chain of guards.
--
-- - Cap.Derivation: crates/rvm-cap/src/derivation.rs and revoke.rs. Derivation.Ranks is about
--   trees without circles, Derivation.Walks about the end of the walks.
--
-- - Cap.Verify: crates/rvm-cap/src/verify.rs, `verify_p1`, `verify_p2` and `verify_p3`.
--   Verify.Capabilities is about P1, Verify.Chains about P3, Verify.Nonces about replays.
--
-- - Cap.Manager: crates/rvm-cap/src/manager.rs. A method on `&mut self` returns the new state
--   with its result, also where it fails. Manager.State has its records, Manager.History the
--   histories of calls as a step relation, Manager.Delegation is about grants,
--   Manager.Revocation and Manager.Reuse about revocations.
--
-- - Memory.Region: crates/rvm-memory/src/region.rs, with Region.Isolation and Region.Changes
--   about the ranges, Region.Translation about addresses, Region.History about histories of
--   calls, and Region.Wrap about the end of the address space.
--
-- - Partition.Queue: `MessageQueue` of crates/rvm-partition/src/ipc.rs. Queue.Mask is about the
--   mask of the capacity, Queue.Fifo about the messages that a ring stands for, Queue.Refinement
--   about sequences of calls.
--
-- - Partition.Ipc: `IpcManager` of the same file. A reference to a channel is its slot.
--   Ipc.Lookup is about the index of edges, Ipc.Changes and Ipc.Opening about distinct ids,
--   Ipc.Sends about senders, Ipc.Life about creation and destruction, Ipc.History about
--   histories of calls, Ipc.Retired about ids that are not used again.
--
-- - Partition.Device: crates/rvm-partition/src/device.rs. Device.Books is about the slots of the
--   devices, Device.Leases about the calls, Device.Expiry about the leases that expire,
--   Device.History about histories of calls, Device.Grants about leases that are granted again.
--
-- - Partition.Manager: crates/rvm-partition/src/manager.rs and partition.rs. Manager.Slots and
--   Manager.Moves are about the search for an id, Manager.Directory has the directory that the
--   manager stands for, Manager.Refinement is about runs of calls.
--
-- - Partition.Lifecycle: lifecycle.rs, merge.rs and split.rs of the same crate.
--
-- - Sched.Smp: crates/rvm-sched/src/smp.rs. Smp.Flags is about the flags of the processors over
--   histories of calls, Smp.Idle about the search for an idle one.
--
-- - Sched.Queue, Sched.Epoch, Sched.Scheduler: crates/rvm-sched/src/scheduler.rs, priority.rs,
--   epoch.rs, modes.rs and per_cpu.rs. Queue has the heap of a processor, with Queue.Swaps,
--   Queue.Up and Queue.Down about its loops and Queue.Order about its order; Scheduler.History
--   has the histories of calls, Scheduler.Picks is about the entry that a switch takes,
--   Scheduler.Progress about switches that take place.
--
-- - Witness.Action, Witness.Record, Witness.Hash, Witness.Log, Witness.Emit, Witness.Replay:
--   crates/rvm-types/src/witness.rs and, in crates/rvm-witness/src, hash.rs, log.rs, emit.rs and
--   replay.rs. The digest of the crate `sha2`, which the hashes of the chain are made of, is an
--   argument, a function from bytes to bytes about which nothing is assumed, and so is the
--   signer. Log.Stamps is about the slots that records are written to, Log.Epochs about
--   checkpoints, Log.Refinement about the list that the ring stands for, Replay.Links about the
--   links of a chain.
--
-- - Security.Gate: crates/rvm-security/src/gate.rs. The branches that refuse a request all
--   record it in the same way; they are `decide`, and `conclude` records the decision.
--   Gate.Chains is about the witness chains that are accepted, Gate.Verdicts about the requests
--   that are allowed, Gate.Audit about the records of a run of requests.
--
-- - Security.Budget, Security.Validation: crates/rvm-security/src/budget.rs and validation.rs.
--
-- - Prelude: Boolean tests, lists as arrays, results and machine integers.
--
-- Integers are the native naturals. A sum that the source leaves unchecked wraps, as in a
-- release build, where it can reach the width: addresses, epochs, generations and counters.
-- Counts of slots do not reach theirs. The loops of the derivation tree take fuel and give
-- `none` where it runs out, since the code walks a circle of siblings for ever; on a tree
-- without circles, where a rank falls along every link, two to the power of the rank is enough
-- fuel. The sift loops of a run queue take its length as fuel, since each swap moves an entry
-- one level. The other loops are structural.
--
-- Reads outside an array, which would panic, give a default.
--
-- Not modelled: the references that `get_mut` hands out; of crates/rvm-sched the saved registers
-- and the reasons of the degraded mode; of crates/rvm-witness the signers, whose keyed hashes
-- are third-party code; of crates/rvm-security the attestation; and every other crate: coherence
-- graph, proof engine, kernel, agents, artifacts, contexts and the host side.
pub mod Prelude
pub mod Types
pub mod Witness
pub mod Security
pub mod Cap
pub mod Memory
pub mod Partition
pub mod Sched
