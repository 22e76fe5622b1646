-- ===== src/Partition/Ipc/Retired.antt =====
-- Proofs about crates/rvm-partition/src/ipc.rs: the ids of channels that were destroyed.
use rvm.Prelude.{
  ℕ, ◌+◌, ◌≤◌, ◌<◌, ◌≡◌, ◌⊎◌, refl, ap, subst, arith, true, false, none, some, ok, err, inl, inr,
  Bool-cases, Option-cases, Result-cases, Option, length, set, u64_max, leb, wrapping_add64,
}
use rvm.Types.{PartitionId, partition_not_found}
use rvm.Partition.Queue.{CommEdgeId, IpcMessage}
use rvm.Partition.Queue
use rvm.Partition.Ipc.{
  ChannelMeta, IpcManager, new, channel, has_id, find, scan, enqueue, send, send_unchecked, receive,
  create_channel, destroy_channel, first_empty,
}
use rvm.Partition.Ipc.Lookup.{IsIpc}
use rvm.Partition.Ipc.Changes.{new-IsIpc, set_old, destroy_channel-IsIpc}
use rvm.Partition.Ipc.Opening.{opened-cases}
use rvm.Partition.Ipc.Life.{find_gone, destroy_channel-clears}
use rvm.Partition.Ipc.History.{
  Step, Reach, here, next, creates, sends, sends_unchecked, receives, destroys, Reach-IsIpc,
}

-- The counter of ids does not fall, and a channel has an id that a channel had before, or one that
-- was not issued before.
record IsLater (m m' : IpcManager) : Type 0 where
  counts : m.next_edge_id ≤ m'.next_edge_id
  issues :
      (e : CommEdgeId) (j : ℕ)
      → has_id e (channel m'.queues j) ≡ true
      → (has_id e (channel m.queues j) ≡ true) ⊎ (m.next_edge_id ≤ e)

same-IsLater : (m : IpcManager) → IsLater m m
same-IsLater m = record { counts = omega arith; issues = λ e j h. inl h }

-- A slot that is written with the id that it had, or with none.
write-IsLater :
    (m m' : IpcManager) (i : ℕ) (c : Option ChannelMeta)
    → m'.queues ≡ set m.queues i c
    → m'.next_edge_id ≡ m.next_edge_id
    → ((e : CommEdgeId) → has_id e c ≡ true → has_id e (channel m.queues i) ≡ true)
    → IsLater m m'
write-IsLater m m' i c eq ids same = record {
  counts = omega (arith, ids);
  issues = λ e j h.
      inl (set_old m.queues i c same e j (subst (λ cs. has_id e (channel cs j) ≡ true) eq h));
}

enqueue-IsLater :
    (capacity : ℕ) (m : IpcManager) (i : ℕ) (ch : ChannelMeta) (msg : IpcMessage)
    → channel m.queues i ≡ some ch
    → IsLater m (enqueue capacity m i ch msg).0
unfolding enqueue
enqueue-IsLater capacity m i ch msg at = elim (Result-cases (Queue.send capacity ch.queue msg).1) [
  | inl (u, good) ↦ rw (good, enqueue) (write-IsLater m _ i _ refl refl (λ e h. rw at h))
  | inr (x, bad) ↦ rw (bad, enqueue) (same-IsLater m)
]

send_unchecked-IsLater :
    (capacity : ℕ) (m : IpcManager) (e : CommEdgeId) (msg : IpcMessage)
    → IsLater m (send_unchecked capacity m e msg).0
unfolding send_unchecked
send_unchecked-IsLater capacity m e msg = elim (Result-cases (find m e)) [
  | inr (x, bad) ↦ rw (bad, send_unchecked) (same-IsLater m)
  | inl (i, found) ↦ elim (Option-cases (channel m.queues i)) [
    | inl empty ↦ rw (found, send_unchecked) (rw empty (same-IsLater m))
    | inr (ch, at) ↦ rw (found, send_unchecked) (rw at (enqueue-IsLater capacity m i ch msg at))
  ]
]

send-IsLater :
    (capacity : ℕ) (m : IpcManager) (e : CommEdgeId) (msg : IpcMessage) (caller : PartitionId)
    → IsLater m (send capacity m e msg caller).0
unfolding send send_unchecked
send-IsLater capacity m e msg caller =
    ground (arith, same-IsLater m, send_unchecked-IsLater capacity m e msg)

receive-IsLater :
    (capacity : ℕ) (m : IpcManager) (e : CommEdgeId) → IsLater m (receive capacity m e).0
unfolding receive
receive-IsLater capacity m e = elim (Result-cases (find m e)) [
  | inr (x, bad) ↦ rw (bad, receive) (same-IsLater m)
  | inl (i, found) ↦ elim (Option-cases (channel m.queues i)) [
    | inl empty ↦ rw (found, receive) (rw empty (same-IsLater m))
    | inr (ch, at) ↦ rw (found, receive) (rw at (write-IsLater m _ i _ refl refl (λ e' h. rw at h)))
  ]
]

destroy_channel-IsLater : (m : IpcManager) (e : CommEdgeId) → IsLater m (destroy_channel m e).0
unfolding destroy_channel
destroy_channel-IsLater m e = elim (Option-cases (scan e m.queues 0)) [
  | inl gone ↦ rw (gone, destroy_channel) (same-IsLater m)
  | inr (i, found) ↦
      rw (found, destroy_channel)
        (write-IsLater m _ i none refl refl (λ e' h. absurd (ground (arith, h))))
]

create_channel-IsLater :
    (capacity : ℕ) (m : IpcManager) (source dest : PartitionId)
    → m.next_edge_id < u64_max
    → IsLater m (create_channel capacity m source dest).0
unfolding create_channel
create_channel-IsLater capacity m source dest room =
    let up : wrapping_add64 m.next_edge_id 1 ≡ m.next_edge_id + 1 = omega arith in
    elim (Bool-cases (leb (length m.queues) m.edge_count)) [
      | inl full ↦ rw (full, create_channel) (same-IsLater m)
      | inr free ↦ elim (Option-cases (first_empty m.queues 0)) [
        | inl none_left ↦
            rw (free, create_channel)
              (rw (none_left, up) (record { counts = omega arith; issues = λ e j h. inl h }))
        | inr (i, empty) ↦
            rw (free, create_channel)
              (rw (empty, up)
                (record {
                  counts = omega arith;
                  issues = λ e j h. elim (opened-cases m.queues i _ e j h) [
                    | inl (_, new_id) ↦ inr (omega (arith, new_id))
                    | inr old ↦ inl old
                  ];
                }))
      ]
    ]

Step-IsLater : {capacity : ℕ} {m m' : IpcManager} → Step capacity m m' → IsLater m m'
Step-IsLater {capacity} {m} (creates source dest room) =
    create_channel-IsLater capacity m source dest room
Step-IsLater {capacity} {m} (sends e msg caller) = send-IsLater capacity m e msg caller
Step-IsLater {capacity} {m} (sends_unchecked e msg) = send_unchecked-IsLater capacity m e msg
Step-IsLater {capacity} {m} (receives e) = receive-IsLater capacity m e
Step-IsLater {capacity} {m} (destroys e) = destroy_channel-IsLater m e

-- An id that was issued, and that no channel has.
record IsRetired (e : CommEdgeId) (m : IpcManager) : Type 0 where
  issued : e < m.next_edge_id
  gone : (j : ℕ) → has_id e (channel m.queues j) ≡ false

IsLater-IsRetired :
    (m m' : IpcManager) (e : CommEdgeId) → IsLater m m' → IsRetired e m → IsRetired e m'
IsLater-IsRetired m m' e l r = record {
  issued = omega (arith, l.counts, r.issued);
  gone = λ j. elim (Bool-cases (has_id e (channel m'.queues j))) [
    | inr absent ↦ absent
    | inl there ↦ elim (l.issues e j there) [
      | inl old ↦ absurd (ground (arith, old, r.gone j))
      | inr later ↦ absurd (omega (arith, later, r.issued))
    ]
  ];
}

Reach-IsRetired :
    {capacity : ℕ} {m m' : IpcManager} (e : CommEdgeId)
    → Reach capacity m m'
    → IsRetired e m
    → IsRetired e m'
Reach-IsRetired e here r = r
Reach-IsRetired e (next h s) r = IsLater-IsRetired _ _ e (Step-IsLater s) (Reach-IsRetired e h r)

-- A channel that was destroyed after any history of calls from a new manager is never found again:
-- `find` refuses its id at once, and after any further history of calls, whatever channels are
-- created in the slot and whatever the index of edges holds. In both histories channels are created
-- only while the counter of ids is not used up.
pub destroy_channel-find :
    (capacity n : ℕ) (m m' m'' : IpcManager) (e : CommEdgeId)
    → Reach capacity (new n) m
    → destroy_channel m e ≡ (m', ok tt)
    → Reach capacity m' m''
    → find m'' e ≡ err partition_not_found
destroy_channel-find capacity n m m' m'' e before h later =
    let v = Reach-IsIpc (new-IsIpc n) before in
    let v' = subst IsIpc (ap (λ p. p.0) h) (destroy_channel-IsIpc m e v) in
    let (known, gone) = destroy_channel-clears m m' e v h in
    let r = Reach-IsRetired e later (record { issued = known; gone = gone }) in
    find_gone m'' e (Reach-IsIpc v' later) r.gone
