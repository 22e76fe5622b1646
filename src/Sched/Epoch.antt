-- ===== src/Sched/Epoch.antt =====
-- crates/rvm-sched/src/epoch.rs, modes.rs and per_cpu.rs: the tracker of epochs and the state of a
-- processor.
use rvm.Prelude.{ℕ, Bool, true, Option, none, wrapping_add32, saturating_add, u16_max}
use rvm.Types.{PartitionId}

-- `struct EpochSummary`.
pub record EpochSummary : Type 0 where
  pub epoch : ℕ
  pub switch_count : ℕ
  pub runnable_count : ℕ

-- `struct EpochTracker`.
pub record EpochTracker : Type 0 where
  pub current_epoch : ℕ
  pub switch_count : ℕ

abbrev pub new_tracker : EpochTracker
new_tracker = record { current_epoch = 0; switch_count = 0 }

unfoldable pub record_switch : EpochTracker → EpochTracker
record_switch t = record t { switch_count = saturating_add u16_max t.switch_count 1 }

unfoldable pub advance : EpochTracker → ℕ → EpochTracker × EpochSummary
advance t runnable_count = (
  record { current_epoch = wrapping_add32 t.current_epoch 1; switch_count = 0 },
  record {
    epoch = t.current_epoch;
    switch_count = t.switch_count;
    runnable_count = runnable_count;
  },
)

-- `enum SchedulerMode`.
pub data SchedulerMode : Type 0 where
  reflex flow recovery : SchedulerMode

-- `struct PerCpuScheduler`.
pub record PerCpuScheduler : Type 0 where
  pub cpu_id : ℕ
  pub current : Option PartitionId
  pub mode : SchedulerMode
  pub idle : Bool

abbrev pub new_cpu : ℕ → PerCpuScheduler
new_cpu cpu_id = record { cpu_id = cpu_id; current = none; mode = flow; idle = true }
