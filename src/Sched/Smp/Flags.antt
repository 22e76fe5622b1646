-- ===== src/Sched/Smp/Flags.antt =====
-- Proofs about crates/rvm-sched/src/smp.rs: the flags of the processors over histories of calls.
use rvm.Prelude.{
  ℕ, zero, suc, ◌+◌, ◌%◌, ◌^◌, ◌<◌, ◌≡◌, refl, ap, subst, ◌∙◌, arith, true, false, not, none, some,
  is_some, inl, inr, Bool-cases, length, get_or, set, ℕ_discrete, saturating_add, u64_max,
  if◌then◌else◌, length-set, get_or-set_self, get_or-set_ne,
}
use rvm.Types.{PartitionId}
use rvm.Sched.Smp.{
  CpuState, SmpCoordinator, offline, offline_from, new, state, write, has_state, bring_online,
  take_offline, assign_partition, release_partition,
}

-- The state of the processor `i`: it has its own id, is idle exactly when it runs nothing, and runs
-- nothing while it is offline.
abbrev pub Agrees : ℕ → CpuState → Type 0
Agrees i s =
    (s.cpu_id ≡ i % 2 ^ 8)
    × (s.idle ≡ not (is_some s.current_partition))
    × (s.online ≡ false → is_some s.current_partition ≡ false)

pub record IsSmp (n : ℕ) (c : SmpCoordinator) : Type 0 where
  pub sized : length c.cpu_states ≡ n
  pub agreeing : (i : ℕ) → i < n → Agrees i (state c i)

offline_from-Agrees : (n k i : ℕ) → i < n → Agrees (k + i) (get_or (offline_from k n) i (offline 0))
unfolding offline_from
offline_from-Agrees zero k i h = absurd (omega arith)
offline_from-Agrees (suc n) k zero h = ground arith
offline_from-Agrees (suc n) k (suc i) h =
    subst (λ j. Agrees j (get_or (offline_from (k + 1) n) i (offline 0))) (omega arith)
      (offline_from-Agrees n (k + 1) i (omega arith))

length-offline_from : (k n : ℕ) → length (offline_from k n) ≡ n
unfolding offline_from
length-offline_from k zero = refl
length-offline_from k (suc n) = ap suc (length-offline_from (k + 1) n)

new-IsSmp : (n count : ℕ) → IsSmp n (new n count)
unfolding new
new-IsSmp n count = record {
  sized = length-offline_from 0 n;
  agreeing = λ i h.
      subst (λ j. Agrees j (get_or (offline_from 0 n) i (offline 0))) (omega arith)
        (offline_from-Agrees n 0 i h);
}

write-IsSmp :
    {n : ℕ} (c : SmpCoordinator) (i : ℕ) (s : CpuState)
    → IsSmp n c
    → Agrees i s
    → IsSmp n (write c i s)
write-IsSmp {n} c i s v a = record {
  sized = length-set c.cpu_states i s ∙ v.sized;
  agreeing = λ j h. elim (ℕ_discrete i j) [
    | yes e ↦
        subst (λ k. Agrees k (get_or (set c.cpu_states i s) k (offline 0))) e
          (rw (get_or-set_self c.cpu_states i s (offline 0) (omega (arith, v.sized, e))) a)
    | no ne ↦ rw (get_or-set_ne c.cpu_states i j s (offline 0) ne) (v.agreeing j h)
  ];
}

-- The calls, at a processor that may be out of range.
pub data Step (c c' : SmpCoordinator) : Type 0 where
  onlines : (i : ℕ) → c' ≡ (bring_online c i).0 → Step c c'
  offlines : (i : ℕ) → c' ≡ (take_offline c i).0 → Step c c'
  assigns : (i : ℕ) (p : PartitionId) → c' ≡ (assign_partition c i p).0 → Step c c'
  releases : (i : ℕ) → c' ≡ (release_partition c i).0 → Step c c'

pub data Reach (c : SmpCoordinator) : SmpCoordinator → Type 0 where
  here : Reach c c
  next : {p q : SmpCoordinator} → Reach c p → Step p q → Reach c q

bring_online-IsSmp : {n : ℕ} (c : SmpCoordinator) (i : ℕ) → IsSmp n c → IsSmp n (bring_online c i).0
unfolding bring_online
bring_online-IsSmp {n} c i v = elim (Bool-cases (has_state c i)) [
  | inr outside ↦ ground (arith, v, outside)
  | inl inside ↦
      let a = v.agreeing i (subst (λ k. i < k) v.sized (ground (arith, inside))) in
      let s : CpuState = state c i in
      let kept =
        write-IsSmp c i (record s { online = true; idle = true; current_partition = none }) v in
      ground (arith, v, inside, a, kept)
]

take_offline-IsSmp : {n : ℕ} (c : SmpCoordinator) (i : ℕ) → IsSmp n c → IsSmp n (take_offline c i).0
unfolding take_offline
take_offline-IsSmp {n} c i v = elim (Bool-cases (has_state c i)) [
  | inr outside ↦ ground (arith, v, outside)
  | inl inside ↦
      let a = v.agreeing i (subst (λ k. i < k) v.sized (ground (arith, inside))) in
      let s : CpuState = state c i in
      let kept = write-IsSmp c i (record s { online = false; idle = true }) v in
      ground (arith, v, inside, a, kept)
]

assign_partition-IsSmp :
    {n : ℕ} (c : SmpCoordinator) (i : ℕ) (p : PartitionId)
    → IsSmp n c
    → IsSmp n (assign_partition c i p).0
unfolding assign_partition
assign_partition-IsSmp {n} c i p v = elim (Bool-cases (has_state c i)) [
  | inr outside ↦ ground (arith, v, outside)
  | inl inside ↦
      let a = v.agreeing i (subst (λ k. i < k) v.sized (ground (arith, inside))) in
      let s : CpuState = state c i in
      let kept =
        write-IsSmp c i
          (record s {
            current_partition = some p;
            idle = false;
            epoch_ticks = saturating_add u64_max s.epoch_ticks 1;
          })
          v in
      ground (arith, v, inside, a, kept)
]

release_partition-IsSmp :
    {n : ℕ} (c : SmpCoordinator) (i : ℕ) → IsSmp n c → IsSmp n (release_partition c i).0
unfolding release_partition
release_partition-IsSmp {n} c i v = elim (Bool-cases (has_state c i)) [
  | inr outside ↦ ground (arith, v, outside)
  | inl inside ↦
      let a = v.agreeing i (subst (λ k. i < k) v.sized (ground (arith, inside))) in
      let s : CpuState = state c i in
      let kept =
        write-IsSmp c i
          (record s {
            current_partition = none;
            idle = if is_some s.current_partition then true else s.idle;
          })
          v in
      ground (arith, v, inside, a, kept)
]

Step-IsSmp : {n : ℕ} {c c' : SmpCoordinator} → Step c c' → IsSmp n c → IsSmp n c'
Step-IsSmp {c = c} (onlines i e) v = rw e (bring_online-IsSmp c i v)
Step-IsSmp {c = c} (offlines i e) v = rw e (take_offline-IsSmp c i v)
Step-IsSmp {c = c} (assigns i p e) v = rw e (assign_partition-IsSmp c i p v)
Step-IsSmp {c = c} (releases i e) v = rw e (release_partition-IsSmp c i v)

pub Reach-IsSmp : {n : ℕ} {c c' : SmpCoordinator} → IsSmp n c → Reach c c' → IsSmp n c'
Reach-IsSmp v here = v
Reach-IsSmp v (next r s) = Step-IsSmp s (Reach-IsSmp v r)

-- After any history of calls from a new coordinator every processor is marked idle exactly when it
-- runs no partition, and one that is offline runs none.
pub Reach-new-IsSmp : (n count : ℕ) (c : SmpCoordinator) → Reach (new n count) c → IsSmp n c
Reach-new-IsSmp n count c r = Reach-IsSmp (new-IsSmp n count) r
