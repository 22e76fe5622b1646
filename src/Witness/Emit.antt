-- ===== src/Witness/Emit.antt =====
-- crates/rvm-witness/src/emit.rs: `WitnessEmitter`.
use rvm.Prelude.{ℕ, List}
use rvm.Witness.Action.{
  partition_create, partition_destroy, capability_grant, capability_revoke, region_map,
  proof_rejected, action_number,
}
use rvm.Witness.Record.{zeroed}
use rvm.Witness.Log.{WitnessLog, append}

module _ (digest : List ℕ → List ℕ) where
  pub emit_partition_create : WitnessLog → ℕ → ℕ → ℕ → ℕ → WitnessLog × ℕ
  emit_partition_create log actor new_partition_id cap_hash ts = append digest log (record zeroed {
    action_kind = action_number partition_create;
    proof_tier = 1;
    actor_partition_id = actor;
    target_object_id = new_partition_id;
    capability_hash = cap_hash;
    timestamp_ns = ts;
  })

  pub emit_partition_destroy : WitnessLog → ℕ → ℕ → ℕ → ℕ → WitnessLog × ℕ
  emit_partition_destroy log actor partition_id cap_hash ts = append digest log (record zeroed {
    action_kind = action_number partition_destroy;
    proof_tier = 1;
    actor_partition_id = actor;
    target_object_id = partition_id;
    capability_hash = cap_hash;
    timestamp_ns = ts;
  })

  pub emit_capability_grant : WitnessLog → ℕ → ℕ → ℕ → List ℕ → ℕ → WitnessLog × ℕ
  emit_capability_grant log actor target cap_hash payload ts = append digest log (record zeroed {
    action_kind = action_number capability_grant;
    proof_tier = 1;
    actor_partition_id = actor;
    target_object_id = target;
    capability_hash = cap_hash;
    payload = payload;
    timestamp_ns = ts;
  })

  pub emit_capability_revoke : WitnessLog → ℕ → ℕ → ℕ → ℕ → WitnessLog × ℕ
  emit_capability_revoke log actor target cap_hash ts = append digest log (record zeroed {
    action_kind = action_number capability_revoke;
    proof_tier = 1;
    actor_partition_id = actor;
    target_object_id = target;
    capability_hash = cap_hash;
    timestamp_ns = ts;
  })

  pub emit_memory_map : WitnessLog → ℕ → ℕ → ℕ → List ℕ → ℕ → WitnessLog × ℕ
  emit_memory_map log actor region_id cap_hash payload ts = append digest log (record zeroed {
    action_kind = action_number region_map;
    proof_tier = 2;
    actor_partition_id = actor;
    target_object_id = region_id;
    capability_hash = cap_hash;
    payload = payload;
    timestamp_ns = ts;
  })

  pub emit_proof_rejected : WitnessLog → ℕ → ℕ → ℕ → ℕ → WitnessLog × ℕ
  emit_proof_rejected log actor target cap_hash ts = append digest log (record zeroed {
    action_kind = action_number proof_rejected;
    actor_partition_id = actor;
    target_object_id = target;
    capability_hash = cap_hash;
    timestamp_ns = ts;
  })
