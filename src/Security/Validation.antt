-- ===== src/Security/Validation.antt =====
-- crates/rvm-security/src/validation.rs: checks on the arguments of hypercalls.
use rvm.Prelude.{
  ℕ, ◌+◌, ◌%◌, ◌≤◌, ◌<◌, ◌≡◌, ◌↔◌, is_none, ltb, leb, ◌==◌, not, if◌then◌else◌, ok, err, guard,
  ◌>>◌, checked_add, u64_max, arith,
}
use rvm.Types.{
  RvmResult, invalid_partition_state, insufficient_capability, partition_limit_exceeded,
  alignment_error, memory_overlap, device_lease_expired,
}
use rvm.Types.Capability.{CapRights, Bitflags}

abbrev max_partition_id : ℕ
max_partition_id = 4096

abbrev page_size : ℕ
page_size = 4096

pub validate_partition_id : ℕ → RvmResult (Unit {0})
validate_partition_id id = do
  guard (not (id == 0)) invalid_partition_state
  guard (not (ltb max_partition_id id)) partition_limit_exceeded

pub validate_region_bounds : ℕ → ℕ → RvmResult (Unit {0})
validate_region_bounds addr size = do
  guard (not (size == 0)) alignment_error
  guard (addr % page_size == 0) alignment_error
  guard (size % page_size == 0) alignment_error
  guard (not (is_none (checked_add u64_max addr size))) memory_overlap

pub validate_capability_rights : ⦃f : Bitflags⦄ → CapRights → CapRights → RvmResult (Unit {0})
validate_capability_rights ⦃f⦄ requested held =
    if f.contains held requested then ok tt else err insufficient_capability

pub validate_lease_expiry : ℕ → ℕ → RvmResult (Unit {0})
validate_lease_expiry expiry current =
    if leb expiry current then err device_lease_expired else ok tt

-- A range of guest memory is accepted exactly when it is a non-empty run of whole pages whose end
-- is a `u64`.
validate_region_bounds_iff :
    (addr size : ℕ)
    → (validate_region_bounds addr size ≡ ok tt)
      ↔ ((0 < size) × (addr % 4096 ≡ 0) × (size % 4096 ≡ 0) × (addr + size ≤ u64_max))
unfolding validate_region_bounds
validate_region_bounds_iff addr size = ground arith
