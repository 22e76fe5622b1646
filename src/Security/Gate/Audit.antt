-- ===== src/Security/Gate/Audit.antt =====
-- Proofs about crates/rvm-security/src/gate.rs: the records that a gate leaves in its log.
use rvm.Prelude.{
  ℕ, zero, suc, ◌+◌, ◌^◌, ◌≤◌, ◌<◌, ◌≡◌, ◌⊎◌, ◌∙◌, refl, sym, ap, arith, inl, inr, Option, none,
  some, List, [], ◌∷◌, ◌++◌, map, ◌==◌, if◌then◌else◌, Result, Result-cases, ok, err, length,
  get_elem?, get_or, drop,
}
use rvm.Types.Capability.{Bitflags}
use rvm.Witness.Record.{WitnessRecord}
use rvm.Witness.Log.{WitnessLog, new, append, checkpoint, snapshot_since}
use rvm.Witness.Log.Stamps.{content, append_all}
use rvm.Witness.Log.Epochs.{snapshot_since-append_all}
use rvm.Witness.Replay.{empty_log, verify_chain_from}
use rvm.Security.Gate.{
  GateRequest, SecurityError, verify_p3_chain, decide, allowed_record, rejected_record, conclude,
  check_and_execute,
}
use rvm.Security.Gate.Chains.{IsLinked}
use rvm.Security.Gate.Verdicts.{
  IsAllowed, tier_of, decide_sound, decide_complete, IsAllowed-IsLinked,
}

-- The log after a run of requests.
abbrev pub run_gate : (List ℕ → List ℕ) → Bitflags → WitnessLog → List GateRequest → WitnessLog
run_gate digest f log [] = log
run_gate digest f log (q ∷ qs) = run_gate digest f (check_and_execute digest f log q).0 qs

-- The record says what became of the request: that it was allowed, with its tier, or refused.
abbrev pub Audits : Bitflags → GateRequest → WitnessRecord → Type 0
Audits f q r =
    (IsAllowed f IsLinked q × (content r ≡ content (allowed_record q (tier_of q))))
    ⊎ ((¬ IsAllowed f IsLinked q) × (content r ≡ content (rejected_record q)))

abbrev record_of : GateRequest → Result SecurityError ℕ → WitnessRecord
record_of q (ok t) = allowed_record q t
record_of q (err e) = rejected_record q

abbrev decision : Bitflags → GateRequest → WitnessRecord
decision f q = record_of q (decide f verify_p3_chain q)

decision-Audits :
    (f : Bitflags) (q : GateRequest) (r : WitnessRecord)
    → content r ≡ content (decision f q)
    → Audits f q r
decision-Audits f q r e = elim (Result-cases (decide f verify_p3_chain q)) [
  | inl (t, at) ↦
      let (v, same) = decide_sound f verify_p3_chain q t at in
      inl ((IsAllowed-IsLinked f q).0 v, e ∙ rw (at, same) refl)
  | inr (x, at) ↦ inr (
    λ v.
        absurd
          (ground (arith, at, decide_complete f verify_p3_chain q ((IsAllowed-IsLinked f q).1 v))),
    e ∙ rw at refl,
  )
]

concluded :
    (digest : List ℕ → List ℕ) (log : WitnessLog) (q : GateRequest) (d : Result SecurityError ℕ)
    → (conclude (append digest) log q d).0 ≡ (append digest log (record_of q d)).0
concluded digest log q (ok t) = refl
concluded digest log q (err e) = refl

run_gate-append_all :
    (digest : List ℕ → List ℕ) (f : Bitflags) (log : WitnessLog) (qs : List GateRequest)
    → run_gate digest f log qs ≡ append_all digest log (map (decision f) qs)
unfolding check_and_execute
run_gate-append_all digest f log [] = refl
run_gate-append_all digest f log (q ∷ qs) =
    ap (λ l. run_gate digest f l qs) (concluded digest log q (decide f verify_p3_chain q))
    ∙ run_gate-append_all digest f (append digest log (decision f q)).0 qs

length-map : {A B : Type 0} (g : A → B) (xs : List A) → length (map g xs) ≡ length xs
length-map g [] = refl
length-map g (x ∷ xs) = ap suc (length-map g xs)

cons_injective :
    {x y : WitnessRecord} {xs ys : List WitnessRecord} → x ∷ xs ≡ y ∷ ys → (x ≡ y) × (xs ≡ ys)
cons_injective {x} e = (ap (λ l. get_or l 0 x) e, ap (drop 1) e)

unwrap_or : GateRequest → Option GateRequest → GateRequest
unwrap_or d none = d
unwrap_or d (some q) = q

some_injective : {p q : GateRequest} → some p ≡ some q → p ≡ q
unfolding unwrap_or
some_injective {p} e = ap (unwrap_or p) e

matched :
    (f : Bitflags) (qs : List GateRequest) (rs : List WitnessRecord)
    → map content rs ≡ map content (map (decision f) qs)
    → (i : ℕ) (q : GateRequest) → get_elem? qs i ≡ some q
    → (r : WitnessRecord) × (get_elem? rs i ≡ some r) × (content r ≡ content (decision f q))
matched f [] rs e i q at = absurd (ground (arith, at))
matched f (p ∷ qs) [] e i q at = absurd (ground (arith, e))
matched f (p ∷ qs) (r ∷ rs) e zero q at =
    (r, refl, (cons_injective e).0 ∙ ap (λ x. content (decision f x)) (some_injective at))
matched f (p ∷ qs) (r ∷ rs) e (suc i) q at = matched f qs rs (cons_injective e).1 i q at

-- The trail of a gate is complete. Requests are put to a gate over a log that was used before, at
-- most as many as the ring has slots: the records since the checkpoint before them are one for each
-- request, in order, and each says whether its request was to be allowed, with the tier of the
-- proof, or refused; no other record is between them. `verify_chain_from` accepts them. The output
-- has room for them, and no more than 2⁶⁴ - 1 records were ever appended.
pub run_gate-Audits :
    (digest : List ℕ → List ℕ) (f : Bitflags) (n : ℕ) (before : List WitnessRecord)
    (qs : List GateRequest) (out : List WitnessRecord)
    → 0 < n
    → length before + length qs < 2 ^ 64
    → length qs ≤ n
    → length qs ≤ length out
    → let l = append_all digest (new n) before in
      let l' = run_gate digest f l qs in
      (copied : List WitnessRecord) × (snapshot_since l' (checkpoint l) out ≡ (
        copied ++ drop (length qs) out,
        ok (record { count = length qs; end_checkpoint = checkpoint l' }),
      ))
      × (length copied ≡ length qs)
      × ((i : ℕ) (q : GateRequest)
          → get_elem? qs i ≡ some q
          → (r : WitnessRecord) × (get_elem? copied i ≡ some r) × Audits f q r)
      × (verify_chain_from digest copied l.chain_hash l.sequence
          ≡ (if length qs == 0 then err empty_log else ok (length qs)))
run_gate-Audits digest f n before qs out pos b fits room =
    let rs = map (decision f) qs in
    let size = length-map (decision f) qs in
    let l = append_all digest (new n) before in
    let (copied, snap, same, chain) =
      snapshot_since-append_all digest n before rs out pos (omega (arith, b, size))
        (omega (arith, fits, size)) (omega (arith, room, size)) in
    rw (run_gate-append_all digest f l qs, sym size)
      (
        copied,
        snap,
        sym (length-map content copied) ∙ ap length same ∙ length-map content rs,
        (λ i q at.
            let (r, there, e) = matched f qs copied same i q at in
            (r, there, decision-Audits f q r e)),
        chain,
      )
