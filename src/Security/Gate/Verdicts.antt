-- ===== src/Security/Gate/Verdicts.antt =====
-- Proofs about crates/rvm-security/src/gate.rs: the requests that are allowed.
use rvm.Prelude.{
  ℕ, ◌≡◌, ◌↔◌, ◌∙◌, refl, sym, ap, arith, Bool, true, false, ◌&&◌, inl, inr, Bool-cases, some,
  Option-cases, List, [], ◌∷◌, get_or, if◌then◌else◌, Result, Result-cases, ok, err, is_some,
  is_some_and,
}
use rvm.Types.Capability.{
  CapType, Bitflags, cap_type_number, partition, region, comm_edge, device, scheduler, witness_log,
  proof, vcpu, coherence, context,
}
use rvm.Witness.Record.{WitnessRecord}
use rvm.Witness.Log.{WitnessLog, append, signed_append}
use rvm.Security.Gate.{
  WitnessHash, P3WitnessChain, GateRequest, GateResponse, SecurityError, WitnessSigner, is_zero,
  verify_p3_chain, decide, conclude, check_and_execute, allowed_record, verify_chain_signatures,
  signed_check_and_execute,
}
use rvm.Security.Gate.Chains.{
  IsLinked, IsSigned, verify_p3_chain_iff, accepted_sound, accepted_complete,
}

abbrev cap_type_of : ℕ → CapType
cap_type_of n =
    get_or
      (partition ∷ region ∷ comm_edge ∷ device ∷ scheduler ∷ witness_log ∷ proof ∷ vcpu ∷ coherence
        ∷ [])
      n context

cap_type_of-number : (t : CapType) → cap_type_of (cap_type_number t) ≡ t
cap_type_of-number partition = refl
cap_type_of-number region = refl
cap_type_of-number comm_edge = refl
cap_type_of-number device = refl
cap_type_of-number scheduler = refl
cap_type_of-number witness_log = refl
cap_type_of-number proof = refl
cap_type_of-number vcpu = refl
cap_type_of-number coherence = refl
cap_type_of-number context = refl

cap_type_number-injective : (s t : CapType) → cap_type_number s ≡ cap_type_number t → s ≡ t
cap_type_number-injective s t e =
    sym (cap_type_of-number s) ∙ ap cap_type_of e ∙ cap_type_of-number t

-- What the gate asks of a request. `Proves` says that its witness chain is accepted.
pub record IsAllowed (f : Bitflags) (Proves : P3WitnessChain → Type 0) (q : GateRequest)
    : Type 0 where
  pub typed : q.token.cap_type ≡ q.required_type
  pub righted : f.contains q.token.rights q.required_rights ≡ true
  pub committed : (h : WitnessHash) → q.proof_commitment ≡ some h → is_zero h ≡ false
  pub proved :
      q.require_p3 ≡ true
      → (chain : P3WitnessChain) × (q.p3_witness_data ≡ some chain) × Proves chain

-- The strongest proof that the request comes with.
abbrev pub tier_of : GateRequest → ℕ
tier_of q = if q.require_p3 then 3 else if is_some q.proof_commitment then 2 else 1

pub decide_sound :
    (f : Bitflags) (chain_ok : P3WitnessChain → Bool) (q : GateRequest) (t : ℕ)
    → decide f chain_ok q ≡ ok t
    → IsAllowed f (λ chain. chain_ok chain ≡ true) q × (t ≡ tier_of q)
unfolding decide
decide_sound f chain_ok q t e = (
  record {
    typed = cap_type_number-injective q.token.cap_type q.required_type (ground arith);
    righted = ground arith;
    committed = λ h at. ground (arith, at);
    proved = λ deep. elim (Option-cases q.p3_witness_data) [
      | inl none_given ↦ absurd (ground (arith, none_given, deep))
      | inr (chain, at) ↦ (chain, at, ground (arith, at, deep))
    ];
  },
  ground arith,
)

pub decide_complete :
    (f : Bitflags) (chain_ok : P3WitnessChain → Bool) (q : GateRequest)
    → IsAllowed f (λ chain. chain_ok chain ≡ true) q
    → decide f chain_ok q ≡ ok (tier_of q)
unfolding decide
decide_complete f chain_ok q v =
    let same : cap_type_number q.token.cap_type ≡ cap_type_number q.required_type =
      ap cap_type_number v.typed in
    let sealed : is_some_and q.proof_commitment is_zero ≡ false =
      elim (Option-cases q.proof_commitment) [
        | inl e ↦ rw e refl
        | inr (h, e) ↦ rw e (v.committed h e)
      ] in
    elim (Bool-cases q.require_p3) [
      | inl deep ↦
          let (chain, at, good) = v.proved deep in
          ground (arith, same, sealed, v.righted, deep, at, good)
      | inr shallow ↦ ground (arith, same, sealed, v.righted, shallow)
    ]

IsAllowed-map :
    {P Q : P3WitnessChain → Type 0} (f : Bitflags) (q : GateRequest)
    → ((chain : P3WitnessChain) → P chain → Q chain)
    → IsAllowed f P q
    → IsAllowed f Q q
IsAllowed-map f q g v = record {
  typed = v.typed;
  righted = v.righted;
  committed = v.committed;
  proved = λ deep. let (chain, at, p) = v.proved deep in (chain, at, g chain p);
}

value_or : GateResponse → Result SecurityError GateResponse → GateResponse
value_or d (ok r) = r
value_or d (err e) = d

ok_injective :
    {r s : GateResponse} → ◌≡◌ {A = Result SecurityError GateResponse} (ok r) (ok s) → r ≡ s
unfolding value_or
ok_injective {r} e = ap (value_or r) e

-- The answer of a gate that records with `emit` and accepts the chains that `chain_ok` does.
answered :
    (f : Bitflags) (emit : WitnessLog → WitnessRecord → WitnessLog × ℕ)
    (chain_ok : P3WitnessChain → Bool) (log : WitnessLog) (q : GateRequest) (r : GateResponse)
    → ((x : WitnessRecord) → (emit log x).1 ≡ log.sequence)
    → ((conclude emit log q (decide f chain_ok q)).1 ≡ ok r) ↔ (
        IsAllowed f (λ chain. chain_ok chain ≡ true) q
        × (r ≡ record { witness_sequence = log.sequence; proof_tier = tier_of q }))
answered f emit chain_ok log q r numbered = (
  λ e. elim (Result-cases (decide f chain_ok q)) [
    | inl (t, at) ↦
        let (v, same) = decide_sound f chain_ok q t at in
        let made : (conclude emit log q (decide f chain_ok q)).1
            ≡ ok (record { witness_sequence = (emit log (allowed_record q t)).1; proof_tier = t }) =
          rw at refl in
        (v, ok_injective (sym e ∙ made) ∙ rw (numbered (allowed_record q t), same) refl)
    | inr (x, at) ↦ absurd (ground (arith, at, e))
  ],
  λ p.
      rw (decide_complete f chain_ok q p.0)
        (ap ok (rw (numbered (allowed_record q (tier_of q))) (sym p.1))),
)

-- A request is answered with `ok` exactly if the capability has the type and the rights that are
-- asked for, a proof commitment is not zero if there is one, and, where a deep proof is asked for, it
-- comes with a chain of at least one link in which every record is the one that the next link names.
-- The answer has the number of the record in the log and the tier of the proof.
pub check_and_execute_iff :
    (digest : List ℕ → List ℕ) (f : Bitflags) (log : WitnessLog) (q : GateRequest)
    (r : GateResponse)
    → ((check_and_execute digest f log q).1 ≡ ok r) ↔ (
        IsAllowed f IsLinked q
        × (r ≡ record { witness_sequence = log.sequence; proof_tier = tier_of q }))
unfolding check_and_execute append
check_and_execute_iff digest f log q r =
    let (sound, complete) = answered f (append digest) verify_p3_chain log q r (λ x. refl) in
    (
      (λ e.
          let (v, same) = sound e in
          (IsAllowed-map f q (λ chain. (verify_p3_chain_iff chain).0) v, same)),
      (λ p. complete (IsAllowed-map f q (λ chain. (verify_p3_chain_iff chain).1) p.0, p.1)),
    )

-- The gate with a signer asks for the same, and that the signer accepts every signature in the chain
-- that is not zero: a link without a signature is accepted as it is.
pub signed_check_and_execute_iff :
    (digest : List ℕ → List ℕ) (f : Bitflags) (signer : WitnessSigner) (log : WitnessLog)
    (q : GateRequest) (r : GateResponse)
    → ((signed_check_and_execute digest f signer log q).1 ≡ ok r) ↔ (
        IsAllowed f (λ chain. IsLinked chain × IsSigned signer chain) q
        × (r ≡ record { witness_sequence = log.sequence; proof_tier = tier_of q }))
unfolding signed_check_and_execute signed_append
signed_check_and_execute_iff digest f signer log q r =
    let chain_ok : P3WitnessChain → Bool =
      λ chain. verify_p3_chain chain && verify_chain_signatures signer chain in
    let (sound, complete) =
      answered f (signed_append digest signer.sign) chain_ok log q r (λ x. refl) in
    (
      (λ e.
          let (v, same) = sound e in
          (IsAllowed-map f q (λ chain. accepted_sound signer chain) v, same)),
      (λ p. complete (IsAllowed-map f q (λ chain. accepted_complete signer chain) p.0, p.1)),
    )

pub IsAllowed-IsLinked :
    (f : Bitflags) (q : GateRequest)
    → (IsAllowed f (λ chain. verify_p3_chain chain ≡ true) q) ↔ IsAllowed f IsLinked q
IsAllowed-IsLinked f q = (
  IsAllowed-map f q (λ chain. (verify_p3_chain_iff chain).0),
  IsAllowed-map f q (λ chain. (verify_p3_chain_iff chain).1),
)
