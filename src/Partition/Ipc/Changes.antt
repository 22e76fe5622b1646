-- ===== src/Partition/Ipc/Changes.antt =====
-- Proofs about the calls of `IpcManager` of crates/rvm-partition/src/ipc.rs that send, receive
-- and destroy: the ids of the channels.
use rvm.Prelude.{
  ℕ, ◌≤◌, ◌<◌, ◌≡◌, refl, sym, subst, ◌∙◌, ◌⊎◌, arith, true, Option, none, some, List, inl, inr,
  Bool-cases, Option-cases, Result-cases, length, get_or, set, ℕ_discrete, ◌==◌, leb, is_some_and,
  length-set, get_or-set_self, get_or-set_ne, get_or-replicate, get_or_default,
}
use rvm.Types.{PartitionId}
use rvm.Partition.Queue.{CommEdgeId, IpcMessage, MessageQueue}
use rvm.Partition.Queue
use rvm.Partition.Ipc.{
  ChannelMeta, IpcManager, channel, has_id, scan, find, hash_slot, unindex, new, enqueue, send,
  send_unchecked, receive, destroy_channel,
}
use rvm.Partition.Ipc.Lookup.{IsIpc}

pub new-IsIpc : (n : ℕ) → IsIpc (new n)
unfolding new
new-IsIpc n = record {
  distinct =
      λ e i j h g. absurd (ground (arith, h, get_or-replicate {A = Option ChannelMeta} n i none));
  issued = λ e i h. absurd (ground (arith, h, get_or-replicate {A = Option ChannelMeta} n i none));
  indexed = λ h i g. absurd (ground (arith, g, get_or-replicate {A = Option ℕ} n h none));
}

-- What a slot reads after a write: the value written, there, or what it was.
pub channel-set :
    (cs : List (Option ChannelMeta)) (i j : ℕ) (c : Option ChannelMeta)
    → ((j ≡ i) × (channel (set cs i c) j ≡ c))
      ⊎ ((channel (set cs i c) j ≡ channel cs j) × ((j ≡ i) → length cs ≤ i))
channel-set cs i j c = elim (ℕ_discrete i j) [
  | no ne ↦ inr (get_or-set_ne cs i j c none ne, λ e. absurd (ne (sym e)))
  | yes e ↦ elim (Bool-cases (leb (length cs) i)) [
    | inr inside ↦ inl (sym e, rw (sym e) (get_or-set_self cs i c none (ground arith)))
    | inl outside ↦ inr (
      ground
          (arith, get_or_default cs i none, get_or_default (set cs i c) i none, length-set cs i c),
      λ _. ground arith,
    )
  ]
]

-- A write of a channel with the id that the slot had, or of none, brings no id in.
pub set_old :
    (cs : List (Option ChannelMeta)) (i : ℕ) (c : Option ChannelMeta)
    → ((e : CommEdgeId) → has_id e c ≡ true → has_id e (channel cs i) ≡ true)
    → (e : CommEdgeId) (j : ℕ) → has_id e (channel (set cs i c) j) ≡ true
    → has_id e (channel cs j) ≡ true
set_old cs i c same e j h = elim (channel-set cs i j c) [
  | inl (at, eq) ↦ rw at (same e (ground (arith, eq, h)))
  | inr (eq, _) ↦ ground (arith, eq, h)
]

rewrite-IsIpc :
    (m : IpcManager) (i count : ℕ) (c : Option ChannelMeta) (index : List (Option ℕ))
    → IsIpc m
    → ((e : CommEdgeId) → has_id e c ≡ true → has_id e (channel m.queues i) ≡ true)
    → ((h j : ℕ) → get_or index h none ≡ some j → j < length m.queues)
    → IsIpc (record m { queues = set m.queues i c; edge_count = count; edge_index = index })
rewrite-IsIpc m i count c index v same led =
    let old = set_old m.queues i c same in
    record {
      distinct = λ e j k h g. v.distinct e j k (old e j h) (old e k g);
      issued = λ e j h. v.issued e j (old e j h);
      indexed = λ h j g. rw (length-set m.queues i c) (led h j g);
    }

-- What the index reads after a write.
pub index-set :
    (xs : List (Option ℕ)) (n i h j : ℕ) (x : Option ℕ)
    → ((k : ℕ) → x ≡ some k → k < n)
    → ((k l : ℕ) → get_or xs k none ≡ some l → l < n)
    → get_or (set xs i x) h none ≡ some j
    → j < n
index-set xs n i h j x new_led led g = elim (ℕ_discrete i h) [
  | no ne ↦ led h j (sym (get_or-set_ne xs i h x none ne) ∙ g)
  | yes e ↦ elim (Bool-cases (leb (length xs) i)) [
    | inr inside ↦ new_led j (
        sym (get_or-set_self xs i x none (ground arith))
        ∙ subst (λ k. get_or (set xs i x) k none ≡ some j) (sym e) g)
    | inl outside ↦
        absurd (ground (arith, g, e, get_or_default (set xs i x) h none, length-set xs i x))
  ]
]

unindex-led :
    (m : IpcManager) (e : CommEdgeId) (i : ℕ)
    → IsIpc m
    → (h j : ℕ) → get_or (unindex m e i) h none ≡ some j
    → j < length m.queues
unindex-led m e i v h j g =
    elim (Bool-cases (is_some_and (get_or m.edge_index (hash_slot m e) none) (λ j. j == i))) [
      | inr keep ↦ v.indexed h j (ground (arith, g, keep))
      | inl clear ↦
          index-set m.edge_index (length m.queues) (hash_slot m e) h j none
            (λ k n. absurd (ground (arith, n))) v.indexed (ground (arith, g, clear))
    ]

pub destroy_channel-IsIpc :
    (m : IpcManager) (e : CommEdgeId) → IsIpc m → IsIpc (destroy_channel m e).0
unfolding destroy_channel
destroy_channel-IsIpc m e v = elim (Option-cases (scan e m.queues 0)) [
  | inl gone ↦ rw (gone, destroy_channel) v
  | inr (i, found) ↦
      rw (found, destroy_channel)
        (rewrite-IsIpc m i _ none _ v (λ e' h. absurd (ground (arith, h))) (unindex-led m e i v))
]

-- A channel that is written back with its id.
updated-IsIpc :
    (m : IpcManager) (i : ℕ) (ch ch' : ChannelMeta)
    → IsIpc m
    → channel m.queues i ≡ some ch
    → ch'.edge_id ≡ ch.edge_id
    → IsIpc (record m { queues = set m.queues i (some ch') })
updated-IsIpc m i ch ch' v at same =
    rewrite-IsIpc m i m.edge_count (some ch') m.edge_index v (λ e h. rw at (rw (sym same) h))
      v.indexed

enqueue-IsIpc :
    (capacity : ℕ) (m : IpcManager) (i : ℕ) (ch : ChannelMeta) (msg : IpcMessage)
    → IsIpc m
    → channel m.queues i ≡ some ch
    → IsIpc (enqueue capacity m i ch msg).0
unfolding enqueue
enqueue-IsIpc capacity m i ch msg v at = elim (Result-cases (Queue.send capacity ch.queue msg).1) [
  | inl (u, good) ↦ rw (good, enqueue) (updated-IsIpc m i ch _ v at refl)
  | inr (x, bad) ↦ rw (bad, enqueue) v
]

pub send_unchecked-IsIpc :
    (capacity : ℕ) (m : IpcManager) (e : CommEdgeId) (msg : IpcMessage)
    → IsIpc m
    → IsIpc (send_unchecked capacity m e msg).0
unfolding send_unchecked
send_unchecked-IsIpc capacity m e msg v = elim (Result-cases (find m e)) [
  | inr (x, bad) ↦ rw (bad, send_unchecked) v
  | inl (i, found) ↦ elim (Option-cases (channel m.queues i)) [
    | inl empty ↦ rw (found, send_unchecked) (rw empty v)
    | inr (ch, at) ↦ rw (found, send_unchecked) (rw at (enqueue-IsIpc capacity m i ch msg v at))
  ]
]

pub send-IsIpc :
    (capacity : ℕ) (m : IpcManager) (e : CommEdgeId) (msg : IpcMessage) (caller : PartitionId)
    → IsIpc m
    → IsIpc (send capacity m e msg caller).0
unfolding send send_unchecked
send-IsIpc capacity m e msg caller v = ground (arith, v, send_unchecked-IsIpc capacity m e msg v)

pub receive-IsIpc :
    (capacity : ℕ) (m : IpcManager) (e : CommEdgeId) → IsIpc m → IsIpc (receive capacity m e).0
unfolding receive
receive-IsIpc capacity m e v = elim (Result-cases (find m e)) [
  | inr (x, bad) ↦ rw (bad, receive) v
  | inl (i, found) ↦ elim (Option-cases (channel m.queues i)) [
    | inl empty ↦ rw (found, receive) (rw empty v)
    | inr (ch, at) ↦ rw (found, receive) (rw at (updated-IsIpc m i ch _ v at refl))
  ]
]
