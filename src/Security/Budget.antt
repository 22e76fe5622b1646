-- ===== src/Security/Budget.antt =====
-- crates/rvm-security/src/budget.rs: DMA budgets, partition quotas and GPU quotas.
-- A method on `&mut self` returns the new state with its result.
pub mod Limits
pub mod Tests
use rvm.Prelude.{
  ℕ, ◌+◌, ◌-◌, ◌≡◌, Bool, Option, none, some, ltb, leb, ◌==◌, if◌then◌else◌, ok, err, u64_max,
  checked_add, List, [], ◌∷◌,
}
use rvm.Types.{RvmError, RvmResult, resource_limit_exceeded, out_of_memory}

-- `struct DmaBudget`.
pub record DmaBudget : Type 0 where
  pub max_bytes_per_epoch : ℕ
  pub used_bytes : ℕ

pub dma_new : ℕ → DmaBudget
dma_new max = record { max_bytes_per_epoch = max; used_bytes = 0 }

pub check_dma : DmaBudget → ℕ → DmaBudget × RvmResult (Unit {0})
check_dma b requested =
    if requested == 0 then (b, ok tt) else elim (checked_add u64_max b.used_bytes requested) [
      | none ↦ (b, err resource_limit_exceeded)
      | some total ↦
          if ltb b.max_bytes_per_epoch total
          then (b, err resource_limit_exceeded)
          else (record b { used_bytes = total }, ok tt)
    ]

-- `saturating_sub` is the subtraction of ℕ.
pub dma_remaining : DmaBudget → ℕ
dma_remaining b = b.max_bytes_per_epoch - b.used_bytes

pub dma_reset : DmaBudget → DmaBudget
dma_reset b = record b { used_bytes = 0 }

pub dma_is_exhausted : DmaBudget → Bool
dma_is_exhausted b = leb b.max_bytes_per_epoch b.used_bytes

-- `struct ResourceQuota`.
pub record ResourceQuota : Type 0 where
  pub cpu_time_ns : ℕ
  pub cpu_time_used_ns : ℕ
  pub memory_bytes : ℕ
  pub memory_used_bytes : ℕ
  pub ipc_rate : ℕ
  pub ipc_used : ℕ
  pub dma : DmaBudget

pub quota_new : ℕ → ℕ → ℕ → ℕ → ResourceQuota
unfolding dma_new
quota_new cpu memory ipc dma_max = record {
  cpu_time_ns = cpu;
  cpu_time_used_ns = 0;
  memory_bytes = memory;
  memory_used_bytes = 0;
  ipc_rate = ipc;
  ipc_used = 0;
  dma = dma_new dma_max;
}

pub check_cpu_time : ResourceQuota → ℕ → ResourceQuota × RvmResult (Unit {0})
check_cpu_time q requested = elim (checked_add u64_max q.cpu_time_used_ns requested) [
  | none ↦ (q, err resource_limit_exceeded)
  | some total ↦
      if ltb q.cpu_time_ns total
      then (q, err resource_limit_exceeded)
      else (record q { cpu_time_used_ns = total }, ok tt)
]

pub check_memory : ResourceQuota → ℕ → ResourceQuota × RvmResult (Unit {0})
check_memory q requested = elim (checked_add u64_max q.memory_used_bytes requested) [
  | none ↦ (q, err out_of_memory)
  | some total ↦
      if ltb q.memory_bytes total
      then (q, err out_of_memory)
      else (record q { memory_used_bytes = total }, ok tt)
]

pub check_ipc : ResourceQuota → ResourceQuota × RvmResult (Unit {0})
check_ipc q =
    if leb q.ipc_rate q.ipc_used
    then (q, err resource_limit_exceeded)
    else (record q { ipc_used = q.ipc_used + 1 }, ok tt)

pub release_memory : ResourceQuota → ℕ → ResourceQuota
release_memory q bytes = record q { memory_used_bytes = q.memory_used_bytes - bytes }

pub reset_epoch : ResourceQuota → ResourceQuota
unfolding dma_reset
reset_epoch q = record q { cpu_time_used_ns = 0; ipc_used = 0; dma = dma_reset q.dma }

-- `struct GpuQuota`.
pub record GpuQuota : Type 0 where
  pub compute_ns_max : ℕ
  pub compute_ns_used : ℕ
  pub memory_max : ℕ
  pub memory_used : ℕ
  pub transfer_bytes_max : ℕ
  pub transfer_bytes_used : ℕ
  pub kernel_launches_max : ℕ
  pub kernel_launches_used : ℕ

pub gpu_new : ℕ → ℕ → ℕ → ℕ → GpuQuota
gpu_new compute memory transfer launches = record {
  compute_ns_max = compute;
  compute_ns_used = 0;
  memory_max = memory;
  memory_used = 0;
  transfer_bytes_max = transfer;
  transfer_bytes_used = 0;
  kernel_launches_max = launches;
  kernel_launches_used = 0;
}

pub gpu_check_compute : GpuQuota → ℕ → GpuQuota × RvmResult (Unit {0})
gpu_check_compute q ns = elim (checked_add u64_max q.compute_ns_used ns) [
  | none ↦ (q, err resource_limit_exceeded)
  | some total ↦
      if ltb q.compute_ns_max total
      then (q, err resource_limit_exceeded)
      else (record q { compute_ns_used = total }, ok tt)
]

pub gpu_check_memory : GpuQuota → ℕ → GpuQuota × RvmResult (Unit {0})
gpu_check_memory q bytes = elim (checked_add u64_max q.memory_used bytes) [
  | none ↦ (q, err resource_limit_exceeded)
  | some total ↦
      if ltb q.memory_max total
      then (q, err resource_limit_exceeded)
      else (record q { memory_used = total }, ok tt)
]

pub gpu_check_transfer : GpuQuota → ℕ → GpuQuota × RvmResult (Unit {0})
gpu_check_transfer q bytes =
    if bytes == 0 then (q, ok tt) else elim (checked_add u64_max q.transfer_bytes_used bytes) [
      | none ↦ (q, err resource_limit_exceeded)
      | some total ↦
          if ltb q.transfer_bytes_max total
          then (q, err resource_limit_exceeded)
          else (record q { transfer_bytes_used = total }, ok tt)
    ]

pub gpu_check_launch : GpuQuota → GpuQuota × RvmResult (Unit {0})
gpu_check_launch q =
    if leb q.kernel_launches_max q.kernel_launches_used
    then (q, err resource_limit_exceeded)
    else (record q { kernel_launches_used = q.kernel_launches_used + 1 }, ok tt)

pub gpu_record_transfer : GpuQuota → ℕ → GpuQuota × RvmResult (Unit {0})
unfolding gpu_check_transfer
gpu_record_transfer q bytes = gpu_check_transfer q bytes

pub gpu_record_launch : GpuQuota → GpuQuota × RvmResult (Unit {0})
unfolding gpu_check_launch
gpu_record_launch q = gpu_check_launch q

pub gpu_release_memory : GpuQuota → ℕ → GpuQuota
gpu_release_memory q bytes = record q { memory_used = q.memory_used - bytes }

pub gpu_reset_epoch : GpuQuota → GpuQuota
gpu_reset_epoch q = record q {
  compute_ns_used = 0;
  transfer_bytes_used = 0;
  kernel_launches_used = 0;
}

-- The calls that a partition and the hypervisor can make on the two quotas of a partition.
pub data Call : Type 0 where
  cpu memory dma release gpu_compute gpu_memory gpu_transfer gpu_release : ℕ → Call
  ipc gpu_launch epoch : Call

pub record Quotas : Type 0 where
  pub host : ResourceQuota
  pub gpu : GpuQuota

-- One call, its result dropped.
pub step : Quotas → Call → Quotas
unfolding check_dma check_cpu_time check_memory check_ipc release_memory reset_epoch
    gpu_check_compute gpu_check_memory gpu_check_transfer gpu_check_launch gpu_record_transfer
    gpu_record_launch gpu_release_memory gpu_reset_epoch
step q (cpu n) = record q { host = (check_cpu_time q.host n).0 }
step q (memory n) = record q { host = (check_memory q.host n).0 }
step q (dma n) =
    let r : ResourceQuota = q.host in record q { host = record r { dma = (check_dma r.dma n).0 } }
step q (release n) = record q { host = release_memory q.host n }
step q (gpu_compute n) = record q { gpu = (gpu_check_compute q.gpu n).0 }
step q (gpu_memory n) = record q { gpu = (gpu_check_memory q.gpu n).0 }
step q (gpu_transfer n) = record q { gpu = (gpu_record_transfer q.gpu n).0 }
step q (gpu_release n) = record q { gpu = gpu_release_memory q.gpu n }
step q ipc = record q { host = (check_ipc q.host).0 }
step q gpu_launch = record q { gpu = (gpu_record_launch q.gpu).0 }
step q epoch = record q { host = reset_epoch q.host; gpu = gpu_reset_epoch q.gpu }

pub run : Quotas → List Call → Quotas
run q [] = q
run q (c ∷ cs) = run (step q c) cs
