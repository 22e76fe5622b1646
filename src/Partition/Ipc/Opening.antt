-- ===== src/Partition/Ipc/Opening.antt =====
-- Proofs about `create_channel` of crates/rvm-partition/src/ipc.rs: the id of a new channel.
use rvm.Prelude.{
  ℕ, ◌+◌, ◌≤◌, ◌<◌, ◌≡◌, refl, sym, ◌∙◌, ◌⊎◌, arith, true, Option, none, some, List, [], ◌∷◌, inl,
  inr, Bool-cases, Option-cases, length, set, leb, wrapping_add64, length-set, u64_max,
}
use rvm.Types.{PartitionId}
use rvm.Partition.Queue.{CommEdgeId}
use rvm.Partition.Ipc.{
  ChannelMeta, IpcManager, channel, has_id, hash_slot, first_empty, create_channel,
}
use rvm.Partition.Ipc.Changes.{channel-set, index-set}
use rvm.Partition.Ipc.Lookup.{IsIpc}

pub first_empty-some :
    (cs : List (Option ChannelMeta)) (k i : ℕ)
    → first_empty cs k ≡ some i
    → (k ≤ i) × (i < k + length cs)
unfolding first_empty
first_empty-some [] k i h = absurd (ground (arith, h))
first_empty-some (none ∷ cs) k i h = ground (arith, h)
first_empty-some (some ch ∷ cs) k i h = omega (arith, first_empty-some cs (k + 1) i h)

-- A channel with the next id, in any slot.
abbrev opened : IpcManager → ℕ → ℕ → ChannelMeta → IpcManager
opened m i next ch = record m {
  queues = set m.queues i (some ch);
  edge_count = m.edge_count + 1;
  edge_index = set m.edge_index (hash_slot m ch.edge_id) (some i);
  next_edge_id = next;
}

-- A slot of the manager with a new channel has an id that was there, or is the new one.
pub opened-cases :
    (cs : List (Option ChannelMeta)) (i : ℕ) (ch : ChannelMeta) (e : CommEdgeId) (j : ℕ)
    → has_id e (channel (set cs i (some ch)) j) ≡ true
    → ((j ≡ i) × (e ≡ ch.edge_id)) ⊎ (has_id e (channel cs j) ≡ true)
opened-cases cs i ch e j h = elim (channel-set cs i j (some ch)) [
  | inl (at, eq) ↦ inl (at, ground (arith, eq, h))
  | inr (eq, _) ↦ inr (ground (arith, eq, h))
]

same_slot :
    {A B E : Type 0} {i j k : ℕ}
    → ((j ≡ i) × E) ⊎ A
    → ((k ≡ i) × E) ⊎ B
    → (A ⊎ B → E → j ≡ k)
    → (A → B → j ≡ k)
    → j ≡ k
same_slot (inl (a, _)) (inl (b, _)) clash old = a ∙ sym b
same_slot (inl (_, x)) (inr y) clash old = clash (inr y) x
same_slot (inr x) (inl (_, y)) clash old = clash (inl x) y
same_slot (inr x) (inr y) clash old = old x y

opened-distinct :
    (m : IpcManager) (i : ℕ) (ch : ChannelMeta)
    → IsIpc m
    → ch.edge_id ≡ m.next_edge_id
    → (e : CommEdgeId) (j k : ℕ) → has_id e (channel (set m.queues i (some ch)) j) ≡ true
    → has_id e (channel (set m.queues i (some ch)) k) ≡ true
    → j ≡ k
opened-distinct m i ch v fresh e j k h g =
    same_slot (opened-cases m.queues i ch e j h) (opened-cases m.queues i ch e k g)
      (λ o x. elim o [
        | inl a ↦ absurd (omega (arith, v.issued e j a, x, fresh))
        | inr b ↦ absurd (omega (arith, v.issued e k b, x, fresh))
      ])
      (v.distinct e j k)

opened-issued :
    (m : IpcManager) (i : ℕ) (ch : ChannelMeta)
    → IsIpc m
    → ch.edge_id ≡ m.next_edge_id
    → (e : CommEdgeId) (j : ℕ) → has_id e (channel (set m.queues i (some ch)) j) ≡ true
    → e < m.next_edge_id + 1
opened-issued m i ch v fresh e j h = elim (opened-cases m.queues i ch e j h) [
  | inl (_, x) ↦ omega (arith, x, fresh)
  | inr x ↦ omega (arith, v.issued e j x)
]

opened-IsIpc :
    (m : IpcManager) (i : ℕ) (ch : ChannelMeta)
    → IsIpc m
    → ch.edge_id ≡ m.next_edge_id
    → i < length m.queues
    → IsIpc (opened m i (m.next_edge_id + 1) ch)
opened-IsIpc m i ch v fresh inside = record {
  distinct = opened-distinct m i ch v fresh;
  issued = opened-issued m i ch v fresh;
  indexed = λ h j g. rw (length-set m.queues i (some ch)) (
      index-set m.edge_index (length m.queues) (hash_slot m ch.edge_id) h j (some i)
        (λ k e. ground (arith, e, inside)) v.indexed g);
}

later-IsIpc : (m : IpcManager) → IsIpc m → IsIpc (record m { next_edge_id = m.next_edge_id + 1 })
later-IsIpc m v = record {
  distinct = v.distinct;
  issued = λ e i h. omega (arith, v.issued e i h);
  indexed = v.indexed;
}

pub create_channel-IsIpc :
    (capacity : ℕ) (m : IpcManager) (source dest : PartitionId)
    → m.next_edge_id < u64_max
    → IsIpc m
    → IsIpc (create_channel capacity m source dest).0
unfolding create_channel
create_channel-IsIpc capacity m source dest room v =
    let next : wrapping_add64 m.next_edge_id 1 ≡ m.next_edge_id + 1 = omega arith in
    elim (Bool-cases (leb (length m.queues) m.edge_count)) [
      | inl full ↦ rw (full, create_channel) v
      | inr free ↦ elim (Option-cases (first_empty m.queues 0)) [
        | inl none_left ↦ rw (free, create_channel) (rw (none_left, next) (later-IsIpc m v))
        | inr (i, empty) ↦
            rw (free, create_channel)
              (rw (empty, next)
                (opened-IsIpc m i _ v refl (omega (arith, first_empty-some m.queues 0 i empty))))
      ]
    ]
