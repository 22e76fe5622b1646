-- ===== src/Partition/Ipc/Lookup.antt =====
-- Proofs about `find` of crates/rvm-partition/src/ipc.rs: the index of edges and the scan.
use rvm.Prelude.{
  ℕ, zero, suc, ◌⊎◌, subst, ◌+◌, ◌<◌, ◌≡◌, refl, ap, arith, true, false, Option, none, some, List,
  [], ◌∷◌, ok, err, inl, inr, Bool-cases, Option-cases, length, get_or,
}
use rvm.Types.{partition_not_found}
use rvm.Partition.Queue.{CommEdgeId}
use rvm.Partition.Ipc.{ChannelMeta, IpcManager, channel, has_id, scan, find, hash_slot}

-- No two channels have the same id, every id was issued before the next one, and the index leads into
-- the array.
pub record IsIpc (m : IpcManager) : Type 0 where
  pub distinct :
      (e : CommEdgeId) (i j : ℕ)
      → has_id e (channel m.queues i) ≡ true
      → has_id e (channel m.queues j) ≡ true
      → i ≡ j
  pub issued : (e : CommEdgeId) (i : ℕ) → has_id e (channel m.queues i) ≡ true → e < m.next_edge_id
  pub indexed : (h i : ℕ) → get_or m.edge_index h none ≡ some i → i < length m.queues

ℕ_pred : (i : ℕ) → (i ≡ 0) ⊎ ((j : ℕ) × (i ≡ suc j))
ℕ_pred zero = inl refl
ℕ_pred (suc j) = inr (j, refl)

-- The scan finds the slot of an id that only one slot has.
pub scan-finds :
    (e : CommEdgeId) (cs : List (Option ChannelMeta)) (k i : ℕ)
    → has_id e (channel cs i) ≡ true
    → ((j : ℕ) → has_id e (channel cs j) ≡ true → j ≡ i)
    → scan e cs k ≡ some (k + i)
unfolding scan
scan-finds e [] k i h only = absurd (ground (arith, h))
scan-finds e (c ∷ cs) k i h only = elim (Bool-cases (has_id e c)) [
  | inl found ↦ ground (arith, found, only 0 found)
  | inr other ↦ elim (ℕ_pred i) [
    | inl first ↦ absurd (ground (arith, other, ap (λ j. has_id e (channel (c ∷ cs) j)) first, h))
    | inr (i', later) ↦
        let h' : has_id e (channel cs i') ≡ true =
          subst (λ j. has_id e (channel (c ∷ cs) j) ≡ true) later h in
        let rest = scan-finds e cs (k + 1) i' h' (λ j g. ground (arith, only (suc j) g)) in
        rw (other, rest, later) (ap some (omega arith))
  ]
]

pub scan-none :
    (e : CommEdgeId) (cs : List (Option ChannelMeta)) (k : ℕ)
    → scan e cs k ≡ none
    → (j : ℕ) → has_id e (channel cs j) ≡ false
unfolding scan
scan-none e [] k h j = refl
scan-none e (c ∷ cs) k h zero = ground arith
scan-none e (c ∷ cs) k h (suc j) = scan-none e cs (k + 1) (ground arith) j

pub scan-some :
    (e : CommEdgeId) (cs : List (Option ChannelMeta)) (k i : ℕ)
    → scan e cs k ≡ some i
    → (j : ℕ) × (i ≡ k + j) × (has_id e (channel cs j) ≡ true)
unfolding scan
scan-some e [] k i h = absurd (ground (arith, h))
scan-some e (c ∷ cs) k i h = elim (Bool-cases (has_id e c)) [
  | inl found ↦ (0, ground (arith, h, found), found)
  | inr other ↦
      let (j, at, found) = scan-some e cs (k + 1) i (ground (arith, h, other)) in
      (suc j, omega (arith, at), found)
]

-- While no two channels share an id, a look-up through the index of edges, with its collisions and
-- its stale entries, gives what the scan of all slots gives.
pub find-scan :
    (m : IpcManager) (e : CommEdgeId)
    → IsIpc m
    → find m e ≡ elim (scan e m.queues 0) [ none ↦ err partition_not_found | some i ↦ ok i ]
unfolding find
find-scan m e v = elim (Option-cases (get_or m.edge_index (hash_slot m e) none)) [
  | inl unknown ↦ rw (unknown, find) refl
  | inr (i, known) ↦ elim (Bool-cases (has_id e (channel m.queues i))) [
    | inr stale ↦ rw (known, find) (rw stale refl)
    | inl found ↦
        let only = scan-finds e m.queues 0 i found (λ j g. v.distinct e j i g found) in
        rw (known, find) (rw (found, only) (ground arith))
  ]
]
