-- ===== src/Sched/Smp.antt =====
-- crates/rvm-sched/src/smp.rs: the coordinator of the processors. `MAX_CPUS` is the length of the
-- array of their states.
pub mod Flags
pub mod Idle
mod Tests
use rvm.Prelude.{
  ℕ, zero, suc, ◌+◌, ◌%◌, ◌^◌, Bool, true, false, ◌&&◌, not, Option, none, some, List, [], ◌∷◌, ltb,
  leb, ◌==◌, if◌then◌else◌, ok, err, is_some, is_some_and, saturating_add, u64_max, length, get_or,
  set, count_where,
}
use rvm.Types.{PartitionId, RvmResult, resource_limit_exceeded, invalid_partition_state}

-- `struct CpuState`.
pub record CpuState : Type 0 where
  pub cpu_id : ℕ
  pub online : Bool
  pub current_partition : Option PartitionId
  pub idle : Bool
  pub epoch_ticks : ℕ

abbrev pub offline : ℕ → CpuState
offline cpu_id = record {
  cpu_id = cpu_id;
  online = false;
  current_partition = none;
  idle = true;
  epoch_ticks = 0;
}

-- `struct SmpCoordinator<MAX_CPUS>`.
pub record SmpCoordinator : Type 0 where
  pub cpu_states : List CpuState
  pub cpu_count : ℕ

-- The `n` states from the processor `i` on; `i as u8` is its id.
pub offline_from : ℕ → ℕ → List CpuState
offline_from i zero = []
offline_from i (suc n) = offline (i % 2 ^ 8) ∷ offline_from (i + 1) n

pub new : ℕ → ℕ → SmpCoordinator
unfolding offline_from
new max_cpus cpu_count = record {
  cpu_states = offline_from 0 max_cpus;
  cpu_count = if ltb max_cpus cpu_count then max_cpus % 2 ^ 16 else cpu_count;
}

abbrev pub state : SmpCoordinator → ℕ → CpuState
state c i = get_or c.cpu_states i (offline 0)

-- `get_state_mut` finds a state.
abbrev pub has_state : SmpCoordinator → ℕ → Bool
has_state c i = ltb i (length c.cpu_states)

abbrev pub write : SmpCoordinator → ℕ → CpuState → SmpCoordinator
write c i s = record c { cpu_states = set c.cpu_states i s }

pub bring_online : SmpCoordinator → ℕ → SmpCoordinator × RvmResult (Unit {0})
bring_online c i =
    let s : CpuState = state c i in
    if leb c.cpu_count i
    then (c, err resource_limit_exceeded)
    else if not (has_state c i)
    then (c, err resource_limit_exceeded)
    else if s.online
    then (c, err invalid_partition_state)
    else (write c i (record s { online = true; idle = true; current_partition = none }), ok tt)

pub take_offline : SmpCoordinator → ℕ → SmpCoordinator × RvmResult (Unit {0})
take_offline c i =
    let s : CpuState = state c i in
    if not (has_state c i)
    then (c, err resource_limit_exceeded)
    else if not s.online
    then (c, err invalid_partition_state)
    else if is_some s.current_partition
    then (c, err invalid_partition_state)
    else (write c i (record s { online = false; idle = true }), ok tt)

pub assign_partition : SmpCoordinator → ℕ → PartitionId → SmpCoordinator × RvmResult (Unit {0})
assign_partition c i p =
    let s : CpuState = state c i in
    if not (has_state c i)
    then (c, err resource_limit_exceeded)
    else if not s.online
    then (c, err invalid_partition_state)
    else if is_some s.current_partition
    then (c, err invalid_partition_state)
    else (
      write c i (record s {
        current_partition = some p;
        idle = false;
        epoch_ticks = saturating_add u64_max s.epoch_ticks 1;
      }),
      ok tt,
    )

pub release_partition : SmpCoordinator → ℕ → SmpCoordinator × Option PartitionId
release_partition c i =
    let s : CpuState = state c i in
    if not (has_state c i) then (c, none) else (
      write c i (record s {
        current_partition = none;
        idle = if is_some s.current_partition then true else s.idle;
      }),
      s.current_partition,
    )

-- The first state that passes a test, by its id.
pub first_id : (CpuState → Bool) → List CpuState → Option ℕ
first_id p [] = none
first_id p (s ∷ ss) = let rest = first_id p ss in if p s then some s.cpu_id else rest

abbrev pub is_idle : CpuState → Bool
is_idle s = s.online && s.idle

pub find_idle_cpu : SmpCoordinator → Option ℕ
find_idle_cpu c = first_id is_idle c.cpu_states

pub partition_affinity : SmpCoordinator → PartitionId → Option ℕ
unfolding first_id
partition_affinity c p =
    first_id (λ s. s.online && is_some_and s.current_partition (λ q. q == p)) c.cpu_states

pub active_count : SmpCoordinator → ℕ
active_count c = count_where (λ s. s.online) c.cpu_states % 2 ^ 16

-- `max_by_key` over the busy processors: the last one with the most ticks.
pub busiest : List CpuState → Option CpuState → Option CpuState
busiest [] best = best
busiest (s ∷ ss) best =
    let taken = busiest ss (some s) in
    let kept = busiest ss best in
    if not (s.online && is_some s.current_partition)
    then kept
    else if is_some_and best (λ b. ltb s.epoch_ticks b.epoch_ticks)
    then kept
    else taken

pub rebalance_hint : SmpCoordinator → Option (ℕ × ℕ)
unfolding find_idle_cpu busiest
rebalance_hint c = elim (find_idle_cpu c) [
  | none ↦ none
  | some idle ↦ elim (busiest c.cpu_states none) [ none ↦ none | some s ↦ some (s.cpu_id, idle) ]
]
