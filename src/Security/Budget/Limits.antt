-- ===== src/Security/Budget/Limits.antt =====
-- Proofs about the quotas of crates/rvm-security/src/budget.rs: meters and limits.
use rvm.Prelude.{ℕ, ◌+◌, ◌≤◌, ◌≡◌, List, [], ◌∷◌, ok, err, u64_max, arith, if◌then◌else◌, leb}
use rvm.Types.{resource_limit_exceeded, out_of_memory}
use rvm.Security.Budget.{
  DmaBudget, check_dma, ResourceQuota, quota_new, check_memory, gpu_new, Call, cpu, Quotas, step,
  run,
}

pub record IsWithin (q : Quotas) : Type 0 where
  pub cpu_within : q.host.cpu_time_used_ns ≤ q.host.cpu_time_ns
  pub memory_within : q.host.memory_used_bytes ≤ q.host.memory_bytes
  pub ipc_within : q.host.ipc_used ≤ q.host.ipc_rate
  pub dma_within : q.host.dma.used_bytes ≤ q.host.dma.max_bytes_per_epoch
  pub compute_within : q.gpu.compute_ns_used ≤ q.gpu.compute_ns_max
  pub gpu_memory_within : q.gpu.memory_used ≤ q.gpu.memory_max
  pub transfer_within : q.gpu.transfer_bytes_used ≤ q.gpu.transfer_bytes_max
  pub launches_within : q.gpu.kernel_launches_used ≤ q.gpu.kernel_launches_max

step-IsWithin : (q : Quotas) (c : Call) → IsWithin q → IsWithin (step q c)
unfolding step
step-IsWithin q (cpu n) w = ground arith
step-IsWithin q c w = ground arith

run-IsWithin : (q : Quotas) (cs : List Call) → IsWithin q → IsWithin (run q cs)
unfolding run
run-IsWithin q [] w = w
run-IsWithin q (c ∷ cs) w = run-IsWithin (step q c) cs (step-IsWithin q c w)

-- Whatever calls are made on new quotas, in any order and with any amounts, every meter of the
-- partition quota, its DMA budget and the GPU quota stays within its limit.
pub run-new-IsWithin :
    (c m i d gc gm gt gl : ℕ) (cs : List Call)
    → IsWithin (run (record { host = quota_new c m i d; gpu = gpu_new gc gm gt gl }) cs)
unfolding quota_new gpu_new
run-new-IsWithin c m i d gc gm gt gl cs = run-IsWithin _ cs (omega arith)

-- A charge of host memory is granted exactly when it fits under the limit; then the meter grows by
-- the amount charged, and otherwise the quota is unchanged and the error is `OutOfMemory`. The
-- limit is a `u64`.
check_memory_exact :
    (q : ResourceQuota) (n : ℕ)
    → q.memory_bytes ≤ u64_max
    → check_memory q n ≡ (
        if leb (q.memory_used_bytes + n) q.memory_bytes
        then (record q { memory_used_bytes = q.memory_used_bytes + n }, ok tt)
        else (q, err out_of_memory))
unfolding check_memory
check_memory_exact q n h = ground arith

-- A DMA transfer is granted exactly when it fits in what is left of the epoch's budget, and a
-- refused transfer leaves the budget as it was. The limit is a `u64`, and the meter is within it.
check_dma_exact :
    (b : DmaBudget) (n : ℕ)
    → b.max_bytes_per_epoch ≤ u64_max
    → b.used_bytes ≤ b.max_bytes_per_epoch
    → check_dma b n ≡ (
        if leb (b.used_bytes + n) b.max_bytes_per_epoch
        then (record b { used_bytes = b.used_bytes + n }, ok tt)
        else (b, err resource_limit_exceeded))
unfolding check_dma
check_dma_exact b n h w = ground arith
