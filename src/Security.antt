-- ===== src/Security.antt =====
-- crates/rvm-security: per-partition quotas, the validation of untrusted arguments, and the gate of
-- privileged operations.
pub mod Budget
pub mod Validation
pub mod Gate
