-- ===== src/Security/Gate/Tests.antt =====
-- Tests of crates/rvm-security/src/gate.rs: a request with enough rights, one without, and one with a
-- deep proof, over a log with four slots.
use rvm.Prelude.{
  ℕ, ◌≡◌, ◌↔◌, refl, arith, true, false, none, some, List, [], ◌∷◌, ◌++◌, ◌==◌, if◌then◌else◌, ok,
  err, length, get_elem?, drop, replicate,
}
use rvm.Types.Capability.{CapToken, partition, read, write}
use rvm.Types.Capability.Digits.{byte_flags, contains_digits}
use rvm.Witness.Action.{partition_create}
use rvm.Witness.Record.{WitnessRecord, zeroed}
use rvm.Witness.Log.{WitnessLog, new, append, checkpoint, snapshot_since}
use rvm.Witness.Log.Stamps.{append_all}
use rvm.Witness.Replay.{empty_log, verify_chain_from}
use rvm.Security.Gate.{
  P3WitnessChain, GateRequest, GateResponse, WitnessSigner, insufficient_rights, verify_p3_chain,
  linked, decide, check_and_execute, signed_check_and_execute,
}
use rvm.Security.Gate.Chains.{IsLinked, IsSigned}
use rvm.Security.Gate.Verdicts.{
  IsAllowed, tier_of, check_and_execute_iff, signed_check_and_execute_iff,
}
use rvm.Security.Gate.Audit.{run_gate, Audits, run_gate-Audits}

abbrev doubled : List ℕ → List ℕ
doubled bytes = bytes ++ bytes

abbrev reader : CapToken
reader = record { id = 1; cap_type = partition; rights = read; epoch = 1 }

abbrev reading : GateRequest
reading = record {
  token = reader;
  required_type = partition;
  required_rights = read;
  proof_commitment = none;
  require_p3 = false;
  p3_chain_valid = false;
  p3_witness_data = none;
  action = partition_create;
  target_object_id = 42;
  timestamp_ns = 1000;
}

abbrev writing : GateRequest
writing = record reading { required_rights = write }

-- One link, made up by the caller.
abbrev made_up : P3WitnessChain
made_up = record { links = (7, 9) ∷ []; signatures = replicate 4 (replicate 8 0); link_count = 1 }

abbrev proving : GateRequest
proving = record reading { require_p3 = true; p3_witness_data = some made_up }

abbrev empty_ring : WitnessLog
empty_ring = new 4

abbrev picky : WitnessSigner
picky = record { sign = λ r. replicate 8 1; verify = λ r. false }

runs :
    ((check_and_execute doubled byte_flags empty_ring reading).1
      ≡ ok (record { witness_sequence = 0; proof_tier = 1 }))
    × ((check_and_execute doubled byte_flags empty_ring writing).1 ≡ err insufficient_rights)
    × ((check_and_execute doubled byte_flags empty_ring proving).1
        ≡ ok (record { witness_sequence = 0; proof_tier = 3 }))
unfolding new append check_and_execute decide verify_p3_chain linked contains_digits
runs = (refl, refl, refl)

abbrev answer : GateResponse
answer = record { witness_sequence = 0; proof_tier = 3 }

check_and_execute_iff_example :
    ((check_and_execute doubled byte_flags empty_ring proving).1 ≡ ok answer) ↔ (
      IsAllowed byte_flags IsLinked proving
      × (answer ≡ record { witness_sequence = empty_ring.sequence; proof_tier = tier_of proving }))
check_and_execute_iff_example = check_and_execute_iff doubled byte_flags empty_ring proving answer

signed_check_and_execute_iff_example :
    ((signed_check_and_execute doubled byte_flags picky empty_ring proving).1 ≡ ok answer) ↔ (
      IsAllowed byte_flags (λ chain. IsLinked chain × IsSigned picky chain) proving
      × (answer ≡ record { witness_sequence = empty_ring.sequence; proof_tier = tier_of proving }))
signed_check_and_execute_iff_example =
    signed_check_and_execute_iff doubled byte_flags picky empty_ring proving answer

abbrev requests : List GateRequest
requests = reading ∷ writing ∷ proving ∷ []

abbrev started : WitnessLog
started = append_all doubled empty_ring (zeroed ∷ zeroed ∷ [])

abbrev ended : WitnessLog
ended = run_gate doubled byte_flags started requests

run_gate-Audits_example :
    (copied : List WitnessRecord) × (snapshot_since ended (checkpoint started) (replicate 5 zeroed)
      ≡ (
        copied ++ drop 3 (replicate 5 zeroed),
        ok (record { count = 3; end_checkpoint = checkpoint ended }),
      ))
    × (length copied ≡ 3)
    × ((i : ℕ) (q : GateRequest)
        → get_elem? requests i ≡ some q
        → (r : WitnessRecord) × (get_elem? copied i ≡ some r) × Audits byte_flags q r)
    × (verify_chain_from doubled copied started.chain_hash started.sequence
        ≡ (if 3 == 0 then err empty_log else ok 3))
run_gate-Audits_example =
    run_gate-Audits doubled byte_flags 4 (zeroed ∷ zeroed ∷ []) requests (replicate 5 zeroed)
      (omega arith) (omega arith) (omega arith) (omega arith)
