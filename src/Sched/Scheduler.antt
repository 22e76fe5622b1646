-- ===== src/Sched/Scheduler.antt =====
-- crates/rvm-sched/src/scheduler.rs: `Scheduler`, with a run queue for each processor. The arrays of
-- `MAX_CPUS` elements are lists of that length.
pub mod History
pub mod Picks
pub mod Progress
mod Tests
use rvm.Prelude.{
  ℕ, zero, suc, ◌+◌, ◌-◌, ◌%◌, ◌^◌, Bool, true, false, ◌||◌, Option, none, some, List, [], ◌∷◌, ltb,
  leb, ◌==◌, if◌then◌else◌, u16_max, get_or, set, replicate, length,
}
use rvm.Types.{PartitionId}
use rvm.Sched.Queue.{
  RunQueueEntry, empty_queue, empty_entry, is_empty, entry, compute_priority, max_run_queue, push,
  pop,
}
use rvm.Sched.Epoch.{
  EpochSummary, EpochTracker, new_tracker, record_switch, advance, SchedulerMode, flow,
  PerCpuScheduler, new_cpu,
}

-- `struct Scheduler<MAX_CPUS, MAX_PARTITIONS>`; the second constant is not used.
pub record Scheduler : Type 0 where
  pub per_cpu : List PerCpuScheduler
  pub run_queues : List (List RunQueueEntry)
  pub queue_lens : List ℕ
  pub mode : SchedulerMode
  pub epoch : EpochTracker
  pub degraded : Bool

-- `PerCpuScheduler::new(i as u16)` for the `n` processors from `i` on.
cpus_from : ℕ → ℕ → List PerCpuScheduler
cpus_from i zero = []
cpus_from i (suc n) = new_cpu (i % 2 ^ 16) ∷ cpus_from (i + 1) n

pub new : ℕ → Scheduler
unfolding cpus_from
new max_cpus = record {
  per_cpu = cpus_from 0 max_cpus;
  run_queues = replicate max_cpus empty_queue;
  queue_lens = replicate max_cpus 0;
  mode = flow;
  epoch = new_tracker;
  degraded = false;
}

abbrev pub queue : Scheduler → ℕ → List RunQueueEntry
queue s cpu = get_or s.run_queues cpu []

abbrev pub queue_len : Scheduler → ℕ → ℕ
queue_len s cpu = get_or s.queue_lens cpu 0

pub set_mode : Scheduler → SchedulerMode → Scheduler
set_mode s mode = record s { mode = mode }

pub set_degraded : Scheduler → Bool → Scheduler
set_degraded s degraded = record s { degraded = degraded }

pub sum_lens : List ℕ → ℕ
sum_lens [] = 0
sum_lens (l ∷ ls) = l + sum_lens ls

pub tick_epoch : Scheduler → Scheduler × EpochSummary
unfolding sum_lens
tick_epoch s =
    let runnable = sum_lens s.queue_lens % 2 ^ 32 in
    let (epoch, summary) = advance s.epoch (if ltb u16_max runnable then u16_max else runnable) in
    (record s { epoch = epoch }, summary)

-- The entry that `enqueue` makes.
abbrev pub entry_for : Scheduler → PartitionId → ℕ → ℕ → RunQueueEntry
entry_for s partition_id deadline_urgency cut_pressure =
    let effective = if s.degraded then 0 else cut_pressure in
    record {
      partition_id = partition_id;
      deadline_urgency = deadline_urgency;
      cut_pressure = effective;
      priority = compute_priority deadline_urgency effective;
    }

pub enqueue : Scheduler → ℕ → PartitionId → ℕ → ℕ → Scheduler × Bool
enqueue s cpu partition_id deadline_urgency cut_pressure =
    let len = queue_len s cpu in
    let e = entry_for s partition_id deadline_urgency cut_pressure in
    if leb (length s.queue_lens) cpu || leb max_run_queue len then (s, false) else (
      record s {
        run_queues = set s.run_queues cpu (push (queue s cpu) len e);
        queue_lens = set s.queue_lens cpu (len + 1);
      },
      true,
    )

-- The processor runs the entry that was taken out.
abbrev pub running : PerCpuScheduler → RunQueueEntry → PerCpuScheduler
running c e = record c { current = some e.partition_id; idle = false }

pub switch_next : Scheduler → ℕ → Scheduler × Option (Option PartitionId × PartitionId)
switch_next s cpu =
    let len = queue_len s cpu in
    let q = queue s cpu in
    let e : RunQueueEntry = entry q 0 in
    let c : PerCpuScheduler = get_or s.per_cpu cpu (new_cpu 0) in
    if leb (length s.queue_lens) cpu || len == 0
    then (s, none)
    else if is_empty e
    then (s, none)
    else (
      record s {
        run_queues = set s.run_queues cpu (pop q len);
        queue_lens = set s.queue_lens cpu (len - 1);
        per_cpu = set s.per_cpu cpu (running c e);
        epoch = record_switch s.epoch;
      },
      some (c.current, e.partition_id),
    )
