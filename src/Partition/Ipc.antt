-- ===== src/Partition/Ipc.antt =====
-- crates/rvm-partition/src/ipc.rs: `IpcManager`, the channels between partitions with their queues
-- and the index by the id of the edge. `MAX_EDGES` is the length of the arrays, and is not zero; the
-- capacity of the queues is an argument.
pub mod Lookup
pub mod Changes
pub mod Opening
pub mod Sends
pub mod Life
pub mod History
pub mod Retired
mod Tests
use rvm.Prelude.{
  ℕ, ◌+◌, ◌%◌, Bool, true, false, not, Option, none, some, List, [], ◌∷◌, leb, ◌==◌, if◌then◌else◌,
  ok, err, u64_max, wrapping_add64, wrapping_pred64, saturating_add, is_some_and, length, get_or,
  set, replicate,
}
use rvm.Types.{
  PartitionId, RvmResult, partition_not_found, resource_limit_exceeded, insufficient_capability,
  internal_error,
}
use rvm.Partition.Queue.{CommEdgeId, IpcMessage, MessageQueue}
use rvm.Partition.Queue

-- `struct ChannelMeta`.
pub record ChannelMeta : Type 0 where
  pub edge_id : CommEdgeId
  pub source : PartitionId
  pub dest : PartitionId
  pub queue : MessageQueue
  pub weight : ℕ

-- `struct IpcManager<MAX_EDGES, QUEUE_SIZE>`.
pub record IpcManager : Type 0 where
  pub queues : List (Option ChannelMeta)
  pub edge_index : List (Option ℕ)
  pub edge_count : ℕ
  pub next_edge_id : ℕ

pub new : ℕ → IpcManager
new max_edges = record {
  queues = replicate max_edges none;
  edge_index = replicate max_edges none;
  edge_count = 0;
  next_edge_id = 1;
}

abbrev pub channel : List (Option ChannelMeta) → ℕ → Option ChannelMeta
channel queues i = get_or queues i none

-- `ch.edge_id == edge_id` for the channel of a slot, if there is one.
abbrev pub has_id : CommEdgeId → Option ChannelMeta → Bool
has_id e none = false
has_id e (some ch) = ch.edge_id == e

-- The first empty slot, from `i` on.
pub first_empty : List (Option ChannelMeta) → ℕ → Option ℕ
first_empty [] i = none
first_empty (none ∷ cs) i = some i
first_empty (some ch ∷ cs) i = first_empty cs (i + 1)

-- The first slot whose channel has this id, from `i` on.
pub scan : CommEdgeId → List (Option ChannelMeta) → ℕ → Option ℕ
scan e [] i = none
scan e (c ∷ cs) i = let rest = scan e cs (i + 1) in if has_id e c then some i else rest

abbrev pub hash_slot : IpcManager → CommEdgeId → ℕ
hash_slot m e = e % length m.edge_index

pub create_channel : ℕ → IpcManager → PartitionId → PartitionId → IpcManager × RvmResult CommEdgeId
create_channel capacity m source dest =
    let e = m.next_edge_id in
    let m' = record m { next_edge_id = wrapping_add64 e 1 } in
    let ch : ChannelMeta = record {
      edge_id = e;
      source = source;
      dest = dest;
      queue = Queue.new capacity;
      weight = 0;
    } in
    if leb (length m.queues) m.edge_count
    then (m, err resource_limit_exceeded)
    else elim (first_empty m.queues 0) [
      | none ↦ (m', err internal_error)
      | some i ↦ (
        record m' {
          queues = set m.queues i (some ch);
          edge_count = m.edge_count + 1;
          edge_index = set m.edge_index (hash_slot m e) (some i);
        },
        ok e,
      )
    ]

-- The slot whose channel `find` and `find_mut` refer to: that of the index if its channel has the id,
-- and else the first one that has it.
pub find : IpcManager → CommEdgeId → RvmResult ℕ
find m e =
    let slow : RvmResult ℕ = elim (scan e m.queues 0) [
      | none ↦ err partition_not_found
      | some i ↦ ok i
    ] in
    elim (get_or m.edge_index (hash_slot m e) none) [
      | none ↦ slow
      | some i ↦ if has_id e (channel m.queues i) then ok i else slow
    ]

-- A message on the channel `ch` of the slot `i`, which gains weight if the queue takes it.
pub enqueue : ℕ → IpcManager → ℕ → ChannelMeta → IpcMessage → IpcManager × RvmResult (Unit {0})
enqueue capacity m i ch msg =
    let (q, r) = Queue.send capacity ch.queue msg in
    elim r [
      | err x ↦ (m, err x)
      | ok _ ↦
          let ch' = record ch { queue = q; weight = saturating_add u64_max ch.weight 1 } in
          (record m { queues = set m.queues i (some ch') }, ok tt)
    ]

pub send :
    ℕ → IpcManager → CommEdgeId → IpcMessage → PartitionId → IpcManager × RvmResult (Unit {0})
unfolding enqueue
send capacity m e msg caller =
    if not (msg.sender == caller) then (m, err insufficient_capability) else elim (find m e) [
      | err x ↦ (m, err x)
      | ok i ↦ elim (channel m.queues i) [
        | none ↦ (m, err partition_not_found)
        | some ch ↦
            let taken = enqueue capacity m i ch msg in
            if not (ch.source == caller) then (m, err insufficient_capability) else taken
      ]
    ]

pub send_unchecked : ℕ → IpcManager → CommEdgeId → IpcMessage → IpcManager × RvmResult (Unit {0})
unfolding enqueue
send_unchecked capacity m e msg = elim (find m e) [
  | err x ↦ (m, err x)
  | ok i ↦ elim (channel m.queues i) [
    | none ↦ (m, err partition_not_found)
    | some ch ↦ enqueue capacity m i ch msg
  ]
]

pub receive : ℕ → IpcManager → CommEdgeId → IpcManager × RvmResult (Option IpcMessage)
receive capacity m e = elim (find m e) [
  | err x ↦ (m, err x)
  | ok i ↦ elim (channel m.queues i) [
    | none ↦ (m, err partition_not_found)
    | some ch ↦
        let (q, msg) = Queue.receive capacity ch.queue in
        (record m { queues = set m.queues i (some (record ch { queue = q })) }, ok msg)
  ]
]

-- The entry of the index goes if it leads to the slot.
abbrev pub unindex : IpcManager → CommEdgeId → ℕ → List (Option ℕ)
unindex m e i =
    if is_some_and (get_or m.edge_index (hash_slot m e) none) (λ j. j == i)
    then set m.edge_index (hash_slot m e) none
    else m.edge_index

pub destroy_channel : IpcManager → CommEdgeId → IpcManager × RvmResult (Unit {0})
destroy_channel m e = elim (scan e m.queues 0) [
  | none ↦ (m, err partition_not_found)
  | some i ↦ (
    record m {
      queues = set m.queues i none;
      edge_count = wrapping_pred64 m.edge_count;
      edge_index = unindex m e i;
    },
    ok tt,
  )
]

pub comm_weight : IpcManager → CommEdgeId → RvmResult ℕ
comm_weight m e = elim (find m e) [
  | err x ↦ err x
  | ok i ↦ elim (channel m.queues i) [ none ↦ err partition_not_found | some ch ↦ ok ch.weight ]
]

abbrev pub channel_count : IpcManager → ℕ
channel_count m = m.edge_count
