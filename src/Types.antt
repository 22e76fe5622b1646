-- ===== src/Types.antt =====
-- crates/rvm-types: the identifiers, errors and small value types that every subsystem shares.
-- A newtype over a machine integer is that integer.
pub mod Capability
use rvm.Prelude.{ℕ, ◌^◌, ◌%◌, Bool, ◌||◌, Option, none, some, ltb, ◌==◌, if◌then◌else◌, Result}

-- `enum RvmError`.
pub data RvmError : Type 0 where
  partition_not_found invalid_partition_state partition_limit_exceeded : RvmError
  split_precondition_failed merge_precondition_failed migration_timeout : RvmError
  vcpu_not_found vcpu_limit_reached : RvmError
  insufficient_capability stale_capability capability_type_mismatch : RvmError
  delegation_depth_exceeded capability_consumed : RvmError
  witness_verification_failed witness_chain_broken witness_log_full : RvmError
  proof_invalid proof_tier_insufficient proof_budget_exceeded : RvmError
  coherence_below_threshold min_cut_budget_exceeded : RvmError
  memory_overlap alignment_error invalid_tier_transition out_of_memory : RvmError
  device_lease_not_found device_lease_expired device_lease_conflict : RvmError
  checkpoint_not_found checkpoint_corrupted failure_escalated : RvmError
  resource_limit_exceeded unsupported internal_error : RvmError

-- `type RvmResult<T>`.
abbrev pub RvmResult {ℓ} : Type ℓ → Type ℓ
RvmResult A = Result RvmError A

-- `struct PartitionId(u32)`.
abbrev pub PartitionId : Type 0
PartitionId = ℕ

abbrev pub hypervisor : PartitionId
hypervisor = 0

abbrev pub max_logical : ℕ
max_logical = 4096

-- `PartitionId::try_new`.
pub try_new : ℕ → Option PartitionId
try_new id = if (id == 0) || ltb max_logical id then none else some id

-- `PartitionId::vmid`: the low eight bits.
pub vmid : PartitionId → ℕ
vmid id = id % 2 ^ 8

abbrev pub is_hypervisor : PartitionId → Bool
is_hypervisor id = id == 0
