-- ===== src/Sched/Smp/Idle.antt =====
-- Proofs about `find_idle_cpu` and `assign_partition` of crates/rvm-sched/src/smp.rs.
use rvm.Prelude.{
  ℕ, zero, suc, ◌≤◌, ◌<◌, ◌≡◌, ◌≢◌, refl, sym, ap, subst, arith, Bool, true, false, none, some,
  List, [], ◌∷◌, ok, is_ok, is_some, inl, inr, Bool-cases, length, get_or, get_or-set_self,
  get_or-set_ne, saturating_add, u64_max,
}
use rvm.Types.{PartitionId}
use rvm.Sched.Smp.{
  CpuState, SmpCoordinator, offline, new, state, write, has_state, first_id, is_idle, find_idle_cpu,
  assign_partition,
}
use rvm.Sched.Smp.Flags.{IsSmp, Reach, Reach-new-IsSmp}

-- The first id is that of a state that passes.
first_id-some :
    (p : CpuState → Bool) (ss : List CpuState) (k : ℕ)
    → first_id p ss ≡ some k
    → (i : ℕ) × (i < length ss)
      × (p (get_or ss i (offline 0)) ≡ true)
      × (k ≡ (get_or ss i (offline 0)).cpu_id)
unfolding first_id
first_id-some p [] k h = absurd (ground (arith, h))
first_id-some p (s ∷ ss) k h = elim (Bool-cases (p s)) [
  | inl passes ↦ (0, omega arith, passes, ground (arith, h, passes))
  | inr other ↦
      let (i, lt, passes, eq) = first_id-some p ss k (ground (arith, h, other)) in
      (suc i, omega (arith, lt), passes, eq)
]

first_id-none :
    (p : CpuState → Bool) (ss : List CpuState)
    → first_id p ss ≡ none
    → (i : ℕ) → i < length ss
    → p (get_or ss i (offline 0)) ≡ false
unfolding first_id
first_id-none p [] h i lt = absurd (omega arith)
first_id-none p (s ∷ ss) h zero lt = ground (arith, h)
first_id-none p (s ∷ ss) h (suc i) lt = first_id-none p ss (ground (arith, h)) i (omega arith)

abbrev running : CpuState → PartitionId → CpuState
running s p = record s {
  current_partition = some p;
  idle = false;
  epoch_ticks = saturating_add u64_max s.epoch_ticks 1;
}

assign_free :
    (c : SmpCoordinator) (i : ℕ) (p : PartitionId)
    → has_state c i ≡ true
    → (state c i).online ≡ true
    → is_some (state c i).current_partition ≡ false
    → assign_partition c i p ≡ (write c i (running (state c i) p), ok tt)
unfolding assign_partition
assign_free c i p inside online free = rw (inside, online, free) refl

assign_idle :
    {n : ℕ} (c : SmpCoordinator) (i : ℕ) (p : PartitionId)
    → IsSmp n c
    → i < n
    → is_idle (state c i) ≡ true
    → let (c', r) = assign_partition c i p in
      (r ≡ ok tt)
      × ((state c' i).current_partition ≡ some p)
      × ((j : ℕ) → j ≢ i → state c' j ≡ state c j)
assign_idle {n} c i p v lt idle =
    let s = running (state c i) p in
    let lt' : i < length c.cpu_states = subst (λ m. i < m) (sym v.sized) lt in
    let eq =
      assign_free c i p (ground (arith, lt')) (ground (arith, idle))
        (ground (arith, idle, v.agreeing i lt)) in
    rw eq (
      refl,
      ap (λ (x : CpuState). x.current_partition) (get_or-set_self c.cpu_states i s (offline 0) lt'),
      λ j ne. get_or-set_ne c.cpu_states i j s (offline 0) (λ e. ne (sym e)),
    )

assign_busy :
    {n : ℕ} (c : SmpCoordinator) (i : ℕ) (p : PartitionId)
    → IsSmp n c
    → (i < n → is_idle (state c i) ≡ false)
    → is_ok (assign_partition c i p).1 ≡ false
unfolding assign_partition
assign_busy c i p v busy = elim (Bool-cases (has_state c i)) [
  | inr outside ↦ ground (arith, outside)
  | inl inside ↦
      let lt = subst (λ m. i < m) v.sized (ground (arith, inside)) in
      ground (arith, busy lt, v.agreeing i lt)
]

-- After any history of calls from a new coordinator of at most 256 processors, a processor that
-- `find_idle_cpu` names takes any partition, which then runs there, and no other processor changes.
pub find_idle_cpu-assign :
    (n count : ℕ) (c : SmpCoordinator) (k : ℕ) (p : PartitionId)
    → n ≤ 256
    → Reach (new n count) c
    → find_idle_cpu c ≡ some k
    → let (c', r) = assign_partition c k p in
      (r ≡ ok tt)
      × ((state c' k).current_partition ≡ some p)
      × ((j : ℕ) → j ≢ k → state c' j ≡ state c j)
unfolding find_idle_cpu
find_idle_cpu-assign n count c k p le r h =
    let v = Reach-new-IsSmp n count c r in
    let (i, lt, idle, eq) = first_id-some is_idle c.cpu_states k h in
    let inside : i < n = subst (λ m. i < m) v.sized lt in
    let named : k ≡ i = omega (arith, eq, (v.agreeing i inside).0) in
    rw named (assign_idle c i p v inside idle)

-- After any history of calls from a new coordinator, where `find_idle_cpu` names no processor every
-- assignment is refused.
pub find_idle_cpu-none :
    (n count : ℕ) (c : SmpCoordinator) (i : ℕ) (p : PartitionId)
    → Reach (new n count) c
    → find_idle_cpu c ≡ none
    → is_ok (assign_partition c i p).1 ≡ false
unfolding find_idle_cpu
find_idle_cpu-none n count c i p r h =
    let v = Reach-new-IsSmp n count c r in
    assign_busy c i p v
      (λ lt. first_id-none is_idle c.cpu_states h i (subst (λ m. i < m) (sym v.sized) lt))
