-- ===== src/Witness/Record.antt =====
-- crates/rvm-types/src/witness.rs: `WitnessRecord`. Bytes are natural numbers, and an array of bytes
-- is a list.
use rvm.Prelude.{ℕ, List, replicate}

-- `struct WitnessRecord`.
pub record WitnessRecord : Type 0 where
  pub sequence : ℕ
  pub timestamp_ns : ℕ
  pub action_kind : ℕ
  pub proof_tier : ℕ
  pub flags : ℕ
  pub reserved : ℕ
  pub actor_partition_id : ℕ
  pub target_object_id : ℕ
  pub capability_hash : ℕ
  pub payload : List ℕ
  pub prev_hash : ℕ
  pub record_hash : ℕ
  pub aux : List ℕ
  pub pad : List ℕ

abbrev pub zeroed : WitnessRecord
zeroed = record {
  sequence = 0;
  timestamp_ns = 0;
  action_kind = 0;
  proof_tier = 0;
  flags = 0;
  reserved = 0;
  actor_partition_id = 0;
  target_object_id = 0;
  capability_hash = 0;
  payload = replicate 8 0;
  prev_hash = 0;
  record_hash = 0;
  aux = replicate 8 0;
  pad = replicate 4 0;
}
