-- ===== src/Cap/Manager/State.antt =====
-- crates/rvm-cap/src/manager.rs: the configuration, the statistics and the state of the manager.
use rvm.Prelude.{ℕ, Bool, true}
use rvm.Cap.Table.{CapabilityTable}
use rvm.Cap.Table
use rvm.Cap.Grant.{GrantPolicy, default_max_delegation_depth}
use rvm.Cap.Derivation.{DerivationTree}
use rvm.Cap.Derivation
use rvm.Cap.Verify.{ProofVerifier}
use rvm.Cap.Verify

-- `struct CapManagerConfig`.
pub record CapManagerConfig : Type 0 where
  pub max_delegation_depth : ℕ
  pub track_derivation : Bool
  pub initial_epoch : ℕ

abbrev pub default_config : CapManagerConfig
default_config = record {
  max_delegation_depth = default_max_delegation_depth;
  track_derivation = true;
  initial_epoch = 0;
}

-- `struct ManagerStats`.
pub record ManagerStats : Type 0 where
  pub caps_created : ℕ
  pub caps_granted : ℕ
  pub caps_revoked : ℕ
  pub revoke_operations : ℕ
  pub max_depth_reached : ℕ

-- `struct CapabilityManager<N>`.
pub record CapabilityManager : Type 0 where
  pub table : CapabilityTable
  pub derivation : DerivationTree
  pub verifier : ProofVerifier
  pub config : CapManagerConfig
  pub grant_policy : GrantPolicy
  pub epoch : ℕ
  pub next_id : ℕ
  pub stats : ManagerStats

unfoldable pub new : ℕ → CapManagerConfig → CapabilityManager
new n config = record {
  table = Table.new n;
  derivation = Derivation.new n;
  verifier = Verify.new config.initial_epoch;
  config = config;
  grant_policy = record { max_depth = config.max_delegation_depth; allow_grant_once = true };
  epoch = config.initial_epoch;
  next_id = 1;
  stats = record {
    caps_created = 0;
    caps_granted = 0;
    caps_revoked = 0;
    revoke_operations = 0;
    max_depth_reached = 0;
  };
}
