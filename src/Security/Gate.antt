-- ===== src/Security/Gate.antt =====
-- crates/rvm-security/src/gate.rs: `SecurityGate` and `SignedSecurityGate`, which decide on a request
-- and leave a record of the decision in the witness log. The digest of the log, the operations of
-- `bitflags` and the signer are arguments. The log behind the reference is passed and returned.
pub mod Chains
pub mod Verdicts
pub mod Audit
mod Tests
use Prim.Native.Nat.{bit_xor}
use rvm.Prelude.{
  ℕ, zero, suc, ◌+◌, ◌-◌, ◌*◌, ◌/◌, ◌%◌, ◌^◌, Bool, true, false, ◌&&◌, not, Option, none, some,
  List, [], ◌∷◌, ltb, ◌==◌, if◌then◌else◌, Result, ok, err, get_or, is_some, is_some_and,
}
use rvm.Types.{RvmError}
use rvm.Types.Capability.{CapType, CapRights, CapToken, Bitflags, cap_type_number}
use rvm.Witness.Action.{ActionKind, action_number, proof_rejected}
use rvm.Witness.Record.{WitnessRecord, zeroed}
use rvm.Witness.Log.{WitnessLog, append, signed_append}

-- `struct WitnessHash`, its 32 bytes.
abbrev pub WitnessHash : Type 0
WitnessHash = List ℕ

-- `WitnessHash::is_zero`.
abbrev pub is_zero : WitnessHash → Bool
is_zero [] = true
is_zero (b ∷ bs) = (b == 0) && is_zero bs

-- `struct P3WitnessChain`: four links, each the previous hash and the hash of a record, and four
-- signatures.
pub record P3WitnessChain : Type 0 where
  pub links : List (ℕ × ℕ)
  pub signatures : List (List ℕ)
  pub link_count : ℕ

-- `struct GateRequest`.
pub record GateRequest : Type 0 where
  pub token : CapToken
  pub required_type : CapType
  pub required_rights : CapRights
  pub proof_commitment : Option WitnessHash
  pub require_p3 : Bool
  pub p3_chain_valid : Bool
  pub p3_witness_data : Option P3WitnessChain
  pub action : ActionKind
  pub target_object_id : ℕ
  pub timestamp_ns : ℕ

-- `struct GateResponse`.
pub record GateResponse : Type 0 where
  pub witness_sequence : ℕ
  pub proof_tier : ℕ

-- `enum SecurityError`.
pub data SecurityError : Type 0 where
  capability_type_mismatch insufficient_rights policy_violation : SecurityError
  derivation_chain_broken : SecurityError
  internal : RvmError → SecurityError

-- `CapToken::truncated_hash`.
pub truncated_hash : CapToken → ℕ
truncated_hash t =
    let mixed = bit_xor (t.id % 2 ^ 32) (t.id / 2 ^ 32 % 2 ^ 32) in
    bit_xor (bit_xor mixed t.epoch) (t.rights * 2 ^ 24 % 2 ^ 32)

abbrev pub link : P3WitnessChain → ℕ → ℕ × ℕ
link chain i = get_or chain.links i (0, 0)

-- The loop of `verify_p3_chain`, from the link `i` on, over the next `k` pairs.
unfoldable pub linked : P3WitnessChain → (i k : ℕ) → Bool
linked chain i zero = true
linked chain i (suc k) =
    let rest = linked chain (i + 1) k in
    if not ((link chain i).1 == (link chain (i + 1)).0) then false else rest

-- `chain.link_count.min(4)`.
abbrev pub valid_links : P3WitnessChain → ℕ
valid_links chain = if ltb chain.link_count 4 then chain.link_count else 4

unfoldable pub verify_p3_chain : P3WitnessChain → Bool
verify_p3_chain chain =
    if chain.link_count == 0 then false else linked chain 0 (valid_links chain - 1)

-- The guards of `check_and_execute`: the proof tier, or the reason of the refusal. `chain_ok` is the
-- check of the witness chain.
unfoldable pub decide :
    Bitflags → (chain_ok : P3WitnessChain → Bool) → GateRequest → Result SecurityError ℕ
decide f chain_ok q =
    let tier = if is_some q.proof_commitment then 2 else 1 in
    if not (cap_type_number q.token.cap_type == cap_type_number q.required_type)
    then err capability_type_mismatch
    else if not (f.contains q.token.rights q.required_rights)
    then err insufficient_rights
    else if is_some_and q.proof_commitment is_zero
    then err policy_violation
    else if not q.require_p3
    then ok tier
    else if is_some_and q.p3_witness_data chain_ok
    then ok 3
    else err derivation_chain_broken

-- The record of an allowed request, before it is appended.
abbrev pub allowed_record : GateRequest → ℕ → WitnessRecord
allowed_record q tier = record zeroed {
  action_kind = action_number q.action;
  proof_tier = tier;
  actor_partition_id = 0;
  target_object_id = q.target_object_id;
  capability_hash = truncated_hash q.token;
  timestamp_ns = q.timestamp_ns;
}

-- The record of a refused request.
abbrev pub rejected_record : GateRequest → WitnessRecord
rejected_record q = record zeroed {
  action_kind = action_number proof_rejected;
  actor_partition_id = 0;
  target_object_id = q.target_object_id;
  capability_hash = truncated_hash q.token;
  timestamp_ns = q.timestamp_ns;
}

-- The decision is recorded by `emit`, one of the appends of the log, and returned.
abbrev pub conclude :
    (emit : WitnessLog → WitnessRecord → WitnessLog × ℕ)
    → WitnessLog
    → GateRequest
    → Result SecurityError ℕ
    → WitnessLog × Result SecurityError GateResponse
conclude emit log q (ok tier) =
    let (log', seq) = emit log (allowed_record q tier) in
    (log', ok (record { witness_sequence = seq; proof_tier = tier }))
conclude emit log q (err e) = ((emit log (rejected_record q)).0, err e)

-- `SecurityGate::check_and_execute`.
unfoldable pub check_and_execute :
    (digest : List ℕ → List ℕ)
    → Bitflags
    → WitnessLog
    → GateRequest
    → WitnessLog × Result SecurityError GateResponse
check_and_execute digest f log q = conclude (append digest) log q (decide f verify_p3_chain q)

-- `trait WitnessSigner`.
pub record WitnessSigner : Type 0 where
  pub sign : WitnessRecord → List ℕ
  pub verify : WitnessRecord → Bool

-- The record that stands for a link.
abbrev pub link_record : P3WitnessChain → ℕ → WitnessRecord
link_record chain i = record zeroed {
  prev_hash = (link chain i).0 % 2 ^ 32;
  record_hash = (link chain i).1 % 2 ^ 32;
  sequence = i;
  aux = get_or chain.signatures i [];
}

-- `sig == [0u8; 8]`.
abbrev pub is_unsigned : P3WitnessChain → ℕ → Bool
is_unsigned chain i = is_zero (get_or chain.signatures i [])

-- The loop of `verify_chain_signatures`, from the link `i` on, over the next `k` links.
unfoldable pub signatures_ok : WitnessSigner → P3WitnessChain → (i k : ℕ) → Bool
signatures_ok signer chain i zero = true
signatures_ok signer chain i (suc k) =
    let rest = signatures_ok signer chain (i + 1) k in
    if is_unsigned chain i
    then rest
    else if not (signer.verify (link_record chain i))
    then false
    else rest

unfoldable pub verify_chain_signatures : WitnessSigner → P3WitnessChain → Bool
verify_chain_signatures signer chain = signatures_ok signer chain 0 (valid_links chain)

-- `SignedSecurityGate::check_and_execute`.
unfoldable pub signed_check_and_execute :
    (digest : List ℕ → List ℕ)
    → Bitflags
    → WitnessSigner
    → WitnessLog
    → GateRequest
    → WitnessLog × Result SecurityError GateResponse
signed_check_and_execute digest f signer log q =
    conclude (signed_append digest signer.sign) log q
      (decide f (λ chain. verify_p3_chain chain && verify_chain_signatures signer chain) q)
