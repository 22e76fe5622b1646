-- ===== src/Partition/Ipc/Life.antt =====
-- Proofs about `create_channel` and `destroy_channel` of crates/rvm-partition/src/ipc.rs: look-
-- ups after them.
use rvm.Prelude.{
  ℕ, ◌<◌, ◌≡◌, ◌∙◌, refl, ap, subst, arith, true, false, none, some, ok, err, inl, inr, Bool-cases,
  Option-cases, length, set, u64_max, get_or-set_self, get_or_default,
}
use rvm.Types.{PartitionId, partition_not_found}
use rvm.Partition.Queue.{CommEdgeId}
use rvm.Partition.Queue
use rvm.Partition.Ipc.{
  ChannelMeta, IpcManager, channel, has_id, find, scan, create_channel, destroy_channel,
  first_empty,
}
use rvm.Partition.Ipc.Lookup.{IsIpc, scan-some, scan-finds, find-scan}
use rvm.Partition.Ipc.Changes.{channel-set}
use rvm.Partition.Ipc.Opening.{create_channel-IsIpc, first_empty-some}

pub find_at :
    (m : IpcManager) (e : CommEdgeId) (i : ℕ)
    → IsIpc m
    → has_id e (channel m.queues i) ≡ true
    → find m e ≡ ok i
find_at m e i v h =
    let only = scan-finds e m.queues 0 i h (λ j g. v.distinct e j i g h) in
    find-scan m e v ∙ rw only (ground arith)

pub find_gone :
    (m : IpcManager) (e : CommEdgeId)
    → IsIpc m
    → ((j : ℕ) → has_id e (channel m.queues j) ≡ false)
    → find m e ≡ err partition_not_found
find_gone m e v none_left = find-scan m e v ∙ elim (Option-cases (scan e m.queues 0)) [
  | inl gone ↦ rw gone refl
  | inr (i, found) ↦
      let (j, _, there) = scan-some e m.queues 0 i found in
      absurd (ground (arith, there, none_left j))
]

create_channel-inv :
    (capacity : ℕ) (m m' : IpcManager) (source dest : PartitionId) (e : CommEdgeId)
    → create_channel capacity m source dest ≡ (m', ok e)
    → (i : ℕ) × (first_empty m.queues 0 ≡ some i)
      × (e ≡ m.next_edge_id)
      × (m'.queues
          ≡ set m.queues i (
              some (record {
                edge_id = e;
                source = source;
                dest = dest;
                queue = Queue.new capacity;
                weight = 0;
              })))
unfolding create_channel
create_channel-inv capacity m m' source dest e h = elim (Option-cases (first_empty m.queues 0)) [
  | inl full ↦ absurd (ground (arith, h, full))
  | inr (i, empty) ↦ (i, empty, ground (arith, h, empty), ground (arith, h, empty))
]

-- A channel that was created is found under the id returned, with its ends, an empty queue and no
-- weight. The ids of the manager are distinct, and the counter of ids is not used up.
pub create_channel-find :
    (capacity : ℕ) (m m' : IpcManager) (source dest : PartitionId) (e : CommEdgeId)
    → IsIpc m
    → m.next_edge_id < u64_max
    → create_channel capacity m source dest ≡ (m', ok e)
    → (i : ℕ) × (find m' e ≡ ok i)
      × (channel m'.queues i
          ≡ some (record {
            edge_id = e;
            source = source;
            dest = dest;
            queue = Queue.new capacity;
            weight = 0;
          }))
create_channel-find capacity m m' source dest e v room h =
    let v' = subst IsIpc (ap (λ p. p.0) h) (create_channel-IsIpc capacity m source dest room v) in
    let (i, empty, _, eq) = create_channel-inv capacity m m' source dest e h in
    let inside : i < length m.queues = omega (arith, first_empty-some m.queues 0 i empty) in
    let opened : ChannelMeta = record {
      edge_id = e;
      source = source;
      dest = dest;
      queue = Queue.new capacity;
      weight = 0;
    } in
    let at : channel m'.queues i ≡ some opened =
      rw eq (get_or-set_self m.queues i (some opened) none inside) in
    (i, find_at m' e i v' (ground (arith, at)), at)

-- Without the only channel with an id, no slot has the id.
cleared :
    (m : IpcManager) (e : CommEdgeId) (i : ℕ)
    → IsIpc m
    → has_id e (channel m.queues i) ≡ true
    → (j : ℕ) → has_id e (channel (set m.queues i none) j) ≡ false
cleared m e i v here j = elim (channel-set m.queues i j none) [
  | inl (_, eq) ↦ ground (arith, eq)
  | inr (eq, outside) ↦ elim (Bool-cases (has_id e (channel m.queues j))) [
    | inr other ↦ ground (arith, eq, other)
    | inl same ↦
        let at = v.distinct e j i same here in
        absurd (ground (arith, here, get_or_default m.queues i none (outside at)))
  ]
]

-- The id of a channel that was destroyed was issued, and no slot has it any more.
pub destroy_channel-clears :
    (m m' : IpcManager) (e : CommEdgeId)
    → IsIpc m
    → destroy_channel m e ≡ (m', ok tt)
    → (e < m'.next_edge_id) × ((j : ℕ) → has_id e (channel m'.queues j) ≡ false)
unfolding destroy_channel
destroy_channel-clears m m' e v h = elim (Option-cases (scan e m.queues 0)) [
  | inl gone ↦ absurd (ground (arith, h, gone))
  | inr (i, found) ↦
      let (j, at, here) = scan-some e m.queues 0 i found in
      let here' : has_id e (channel m.queues i) ≡ true = ground (arith, at, here) in
      let eq : m'.queues ≡ set m.queues i none = ground (arith, h, found) in
      let ids : m'.next_edge_id ≡ m.next_edge_id = ground (arith, h, found) in
      (omega (arith, ids, v.issued e i here'), λ k. rw eq (cleared m e i v here' k))
]
