-- ===== src/Witness/Log/Tests.antt =====
-- Tests of crates/rvm-witness/src/log.rs and replay.rs: a ring of two records, with a digest that
-- repeats its input.
use rvm.Prelude.{
  ℕ, ◌<◌, ◌≡◌, ◌↔◌, arith, List, [], ◌∷◌, ◌++◌, map, ltb, ◌==◌, if◌then◌else◌, ok, err, length,
  get_or, drop, replicate,
}
use rvm.Witness.Record.{WitnessRecord, zeroed}
use rvm.Witness.Log.{
  WitnessLog, WitnessCheckpoint, future_checkpoint, records_overwritten, output_too_small, new,
  checkpoint, snapshot_since,
}
use rvm.Witness.Log.Stamps.{content, stamps, append_all}
use rvm.Witness.Log.Epochs.{snapshot_since-append_all}
use rvm.Witness.Log.Refinement.{snapshot_since_refines}
use rvm.Witness.Replay.{empty_log, verify_chain_from}
use rvm.Witness.Replay.Links.{IsLink, verify_chain_from_iff}

abbrev doubled : List ℕ → List ℕ
doubled bytes = bytes ++ bytes

abbrev created : WitnessRecord
created = record zeroed {
  action_kind = 0x01;
  actor_partition_id = 1;
  target_object_id = 10;
  timestamp_ns = 1000;
}

abbrev granted : WitnessRecord
granted = record zeroed {
  action_kind = 0x10;
  actor_partition_id = 1;
  target_object_id = 20;
  timestamp_ns = 2000;
}

abbrev mapped : WitnessRecord
mapped = record zeroed {
  action_kind = 0x27;
  actor_partition_id = 2;
  target_object_id = 30;
  timestamp_ns = 3000;
}

abbrev output : List WitnessRecord
output = replicate 3 zeroed

abbrev before : WitnessLog
before = append_all doubled (new 2) (created ∷ [])

abbrev after : WitnessLog
after = append_all doubled before (granted ∷ mapped ∷ [])

snapshot_since-append_all_example :
    (copied : List WitnessRecord) × (snapshot_since after (checkpoint before) output
      ≡ (copied ++ drop 2 output, ok (record { count = 2; end_checkpoint = checkpoint after })))
    × (map content copied ≡ map content (granted ∷ mapped ∷ []))
    × (verify_chain_from doubled copied before.chain_hash before.sequence
        ≡ (if 2 == 0 then err empty_log else ok 2))
snapshot_since-append_all_example =
    snapshot_since-append_all doubled 2 (created ∷ []) (granted ∷ mapped ∷ []) output (omega arith)
      (omega arith) (omega arith) (omega arith)

abbrev all_of_them : List WitnessRecord
all_of_them = created ∷ granted ∷ mapped ∷ []

abbrev start : WitnessCheckpoint
start = record { next_sequence = 0; chain_hash = 0 }

-- The first record is gone.
snapshot_since_refines_example :
    snapshot_since (append_all doubled (new 2) all_of_them) start output ≡ (
      if ltb 3 0
      then (output, err future_checkpoint)
      else if ltb 2 3
      then (output, err records_overwritten)
      else if ltb 3 3
      then (output, err (output_too_small 3))
      else (
        drop 0 (stamps doubled 0 0 all_of_them) ++ drop 3 output,
        ok (record {
          count = 3;
          end_checkpoint = checkpoint (append_all doubled (new 2) all_of_them);
        }),
      ))
snapshot_since_refines_example =
    snapshot_since_refines doubled 2 all_of_them output start (omega arith) (omega arith)

abbrev chain : List WitnessRecord
chain = stamps doubled 0 0 (created ∷ granted ∷ [])

verify_chain_from_iff_example : (verify_chain_from doubled chain 0 0 ≡ ok 2) ↔ (
    (0 < length chain)
    × (2 ≡ length chain)
    × ((i : ℕ) → i < length chain → IsLink doubled 0 0 i (get_or chain i zeroed)))
verify_chain_from_iff_example = verify_chain_from_iff doubled chain 0 0 2 (omega arith)
