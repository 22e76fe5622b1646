-- ===== src/Partition/Ipc/History.antt =====
-- Proofs about `IpcManager` of crates/rvm-partition/src/ipc.rs: histories of calls.
use rvm.Prelude.{ℕ, ◌<◌, ◌≡◌, none, some, ok, err, u64_max}
use rvm.Types.{PartitionId, partition_not_found}
use rvm.Partition.Queue.{CommEdgeId, IpcMessage}
use rvm.Partition.Ipc.{
  IpcManager, new, create_channel, send, send_unchecked, receive, destroy_channel, find, scan,
}
use rvm.Partition.Ipc.Lookup.{IsIpc, find-scan}
use rvm.Partition.Ipc.Changes.{
  new-IsIpc, send-IsIpc, send_unchecked-IsIpc, receive-IsIpc, destroy_channel-IsIpc,
}
use rvm.Partition.Ipc.Opening.{create_channel-IsIpc}

-- A channel is created while the counter of ids is not used up.
pub data Step (capacity : ℕ) (m : IpcManager) : IpcManager → Type 0 where
  creates :
      (source dest : PartitionId)
      → m.next_edge_id < u64_max
      → Step capacity m (create_channel capacity m source dest).0
  sends :
      (e : CommEdgeId) (msg : IpcMessage) (caller : PartitionId)
      → Step capacity m (send capacity m e msg caller).0
  sends_unchecked :
      (e : CommEdgeId) (msg : IpcMessage) → Step capacity m (send_unchecked capacity m e msg).0
  receives : (e : CommEdgeId) → Step capacity m (receive capacity m e).0
  destroys : (e : CommEdgeId) → Step capacity m (destroy_channel m e).0

pub data Reach (capacity : ℕ) (m : IpcManager) : IpcManager → Type 0 where
  here : Reach capacity m m
  next : {p q : IpcManager} → Reach capacity m p → Step capacity p q → Reach capacity m q

Step-IsIpc : {capacity : ℕ} {m m' : IpcManager} → Step capacity m m' → IsIpc m → IsIpc m'
Step-IsIpc {capacity} {m} (creates source dest room) v =
    create_channel-IsIpc capacity m source dest room v
Step-IsIpc {capacity} {m} (sends e msg caller) v = send-IsIpc capacity m e msg caller v
Step-IsIpc {capacity} {m} (sends_unchecked e msg) v = send_unchecked-IsIpc capacity m e msg v
Step-IsIpc {capacity} {m} (receives e) v = receive-IsIpc capacity m e v
Step-IsIpc {capacity} {m} (destroys e) v = destroy_channel-IsIpc m e v

pub Reach-IsIpc : {capacity : ℕ} {m m' : IpcManager} → IsIpc m → Reach capacity m m' → IsIpc m'
Reach-IsIpc v here = v
Reach-IsIpc v (next r s) = Step-IsIpc s (Reach-IsIpc v r)

-- After any history of calls from a new manager, in which channels are created while the counter of
-- ids is not used up, a look-up through the index of edges, with its collisions and its stale
-- entries, gives what the scan of all slots gives.
pub find-scan_reached :
    (capacity n : ℕ) (m : IpcManager) (e : CommEdgeId)
    → Reach capacity (new n) m
    → find m e ≡ elim (scan e m.queues 0) [ none ↦ err partition_not_found | some i ↦ ok i ]
find-scan_reached capacity n m e r = find-scan m e (Reach-IsIpc (new-IsIpc n) r)
