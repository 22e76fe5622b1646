-- ===== src/Cap/Error.antt =====
-- crates/rvm-cap/src/error.rs: the errors of the capability system and their public form.
use rvm.Prelude.{Result}
use rvm.Types.{
  RvmError, insufficient_capability, stale_capability, resource_limit_exceeded,
  capability_type_mismatch, capability_consumed, proof_invalid, unsupported,
}
use rvm.Types

-- `enum CapError`.
pub data CapError : Type 0 where
  invalid_handle stale_handle table_full revoked delegation_depth_exceeded : CapError
  grant_not_permitted rights_escalation tree_full type_mismatch consumed : CapError

-- `type CapResult<T>`.
abbrev pub CapResult {ℓ} : Type ℓ → Type ℓ
CapResult A = Result CapError A

-- `From<CapError> for RvmError`.
pub to_rvm_error : CapError → RvmError
to_rvm_error invalid_handle = insufficient_capability
to_rvm_error grant_not_permitted = insufficient_capability
to_rvm_error rights_escalation = insufficient_capability
to_rvm_error stale_handle = stale_capability
to_rvm_error revoked = stale_capability
to_rvm_error table_full = resource_limit_exceeded
to_rvm_error tree_full = resource_limit_exceeded
to_rvm_error delegation_depth_exceeded = Types.RvmError.delegation_depth_exceeded
to_rvm_error type_mismatch = capability_type_mismatch
to_rvm_error consumed = capability_consumed

-- `enum ProofError`.
pub data ProofError : Type 0 where
  bad_handle stale insufficient_rights policy_violation p3_not_implemented : ProofError
  derivation_chain_broken : ProofError

-- `From<ProofError> for RvmError`.
pub proof_to_rvm_error : ProofError → RvmError
proof_to_rvm_error bad_handle = insufficient_capability
proof_to_rvm_error insufficient_rights = insufficient_capability
proof_to_rvm_error stale = stale_capability
proof_to_rvm_error policy_violation = proof_invalid
proof_to_rvm_error derivation_chain_broken = proof_invalid
proof_to_rvm_error p3_not_implemented = unsupported
