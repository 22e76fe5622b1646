-- ===== src/Partition/Ipc/Sends.antt =====
-- Proofs about `send` of crates/rvm-partition/src/ipc.rs: who may send.
use rvm.Prelude.{
  ℕ, ◌+◌, ◌<◌, ◌≡◌, ◌≢◌, sym, arith, true, Option, none, some, List, ok, inl, inr, Option-cases,
  Result-cases, length, set, leb, saturating_add, u64_max, get_or-set_self, get_or-set_ne,
  get_or_default, if◌then◌else◌,
}
use rvm.Types.{PartitionId}
use rvm.Partition.Queue.{CommEdgeId, IpcMessage}
use rvm.Partition.Queue
use rvm.Partition.Ipc.{ChannelMeta, IpcManager, channel, has_id, find, enqueue, send, scan}
use rvm.Partition.Ipc.Lookup.{scan-some}

-- The slot that is found has the id that was asked for.
pub find-has_id :
    (m : IpcManager) (e : CommEdgeId) (i : ℕ)
    → find m e ≡ ok i
    → has_id e (channel m.queues i) ≡ true
unfolding find
find-has_id m e i h = elim (Option-cases (scan e m.queues 0)) [
  | inl gone ↦ ground arith
  | inr (j, found) ↦ let (k, at, found_at) = scan-some e m.queues 0 j found in ground arith
]

abbrev taken : ℕ → ChannelMeta → IpcMessage → ChannelMeta
taken capacity ch msg = record ch {
  queue = (Queue.send capacity ch.queue msg).0;
  weight = saturating_add u64_max ch.weight 1;
}

-- The tests that a message has passed, and the write.
send-inv :
    (capacity : ℕ) (m m' : IpcManager) (e : CommEdgeId) (msg : IpcMessage) (caller : PartitionId)
    (i : ℕ) (ch : ChannelMeta)
    → send capacity m e msg caller ≡ (m', ok tt)
    → find m e ≡ ok i
    → channel m.queues i ≡ some ch
    → (msg.sender ≡ caller)
      × (ch.source ≡ caller)
      × ((Queue.send capacity ch.queue msg).1 ≡ ok tt)
      × (m'.queues ≡ set m.queues i (some (taken capacity ch msg)))
unfolding send enqueue
send-inv capacity m m' e msg caller i ch h found at = ground arith

channel_inside :
    (cs : List (Option ChannelMeta)) (i : ℕ) (ch : ChannelMeta)
    → channel cs i ≡ some ch
    → i < length cs
channel_inside cs i ch at = ground (arith, get_or_default cs i none)

-- A message that `send` takes is declared and sent by the source of the channel with the id of the
-- edge. Its queue takes the message, its weight grows by one, unless it is the largest already, and
-- no other channel changes.
pub send-authentic :
    (capacity : ℕ) (m m' : IpcManager) (e : CommEdgeId) (msg : IpcMessage) (caller : PartitionId)
    → send capacity m e msg caller ≡ (m', ok tt)
    → (i : ℕ) × (ch : ChannelMeta) × (channel m.queues i ≡ some ch)
      × (ch.edge_id ≡ e)
      × (ch.source ≡ caller)
      × (msg.sender ≡ caller)
      × ((Queue.send capacity ch.queue msg).1 ≡ ok tt)
      × (channel m'.queues i
          ≡ some (record ch {
            queue = (Queue.send capacity ch.queue msg).0;
            weight = if leb (ch.weight + 1) u64_max then ch.weight + 1 else u64_max;
          }))
      × ((j : ℕ) → j ≢ i → channel m'.queues j ≡ channel m.queues j)
unfolding send enqueue
send-authentic capacity m m' e msg caller h = elim (Result-cases (find m e)) [
  | inr (x, bad) ↦ absurd (ground (arith, h, bad))
  | inl (i, found) ↦ elim (Option-cases (channel m.queues i)) [
    | inl empty ↦ absurd (ground (arith, h, found, empty))
    | inr (ch, at) ↦
        let own = find-has_id m e i found in
        let (sender, source, good, eq) = send-inv capacity m m' e msg caller i ch h found at in
        let inside = channel_inside m.queues i ch at in
        (
          i,
          ch,
          at,
          ground (arith, own, at),
          source,
          sender,
          good,
          rw eq (get_or-set_self m.queues i (some (taken capacity ch msg)) none inside),
          λ j ne. rw eq (get_or-set_ne m.queues i j _ none (λ x. ne (sym x))),
        )
  ]
]
