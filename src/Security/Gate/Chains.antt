-- ===== src/Security/Gate/Chains.antt =====
-- Proofs about crates/rvm-security/src/gate.rs: the witness chains that are accepted.
use rvm.Prelude.{
  ℕ, zero, suc, ◌+◌, ◌-◌, ◌<◌, ◌≡◌, ◌↔◌, refl, subst, arith, true, false, ◌&&◌, ◌||◌, ◌==◌,
}
use rvm.Security.Gate.{
  P3WitnessChain, WitnessSigner, link, linked, valid_links, verify_p3_chain, link_record,
  is_unsigned, signatures_ok, verify_chain_signatures,
}

-- The record of a link is the one that the next link names.
abbrev Joint : P3WitnessChain → ℕ → Type 0
Joint chain i = (link chain i).1 ≡ (link chain (i + 1)).0

-- Every record of the chain is the one that the next link names.
abbrev pub IsLinked : P3WitnessChain → Type 0
IsLinked chain =
    (0 < chain.link_count)
    × ((i : ℕ) → i + 1 < valid_links chain → (link chain i).1 ≡ (link chain (i + 1)).0)

linked_sound :
    (chain : P3WitnessChain) (i k : ℕ)
    → linked chain i k ≡ true
    → (j : ℕ) → j < k
    → Joint chain (i + j)
unfolding linked
linked_sound chain i zero e j lt = absurd (omega arith)
linked_sound chain i (suc k) e zero lt = subst (Joint chain) {x = i} (omega arith) (ground arith)
linked_sound chain i (suc k) e (suc j) lt =
    subst (Joint chain) {x = i + 1 + j} (omega arith)
      (linked_sound chain (i + 1) k (ground arith) j (omega arith))

linked_complete :
    (chain : P3WitnessChain) (i k : ℕ)
    → ((j : ℕ) → j < k → Joint chain (i + j))
    → linked chain i k ≡ true
unfolding linked
linked_complete chain i zero h = refl
linked_complete chain i (suc k) h =
    let here : Joint chain i = subst (Joint chain) {x = i + 0} (omega arith) (h 0 (omega arith)) in
    let rest =
      linked_complete chain (i + 1) k
        (λ j lt. subst (Joint chain) {x = i + suc j} (omega arith) (h (suc j) (omega arith))) in
    ground (arith, here, rest)

pub verify_p3_chain_iff : (chain : P3WitnessChain) → (verify_p3_chain chain ≡ true) ↔ IsLinked chain
unfolding verify_p3_chain
verify_p3_chain_iff chain = (
  (λ e. (
    ground arith,
    λ i lt.
        subst (Joint chain) {x = 0 + i} (omega arith)
          (linked_sound chain 0 (valid_links chain - 1) (ground arith) i (omega (arith, lt))),
  )),
  (λ p.
      let all =
        linked_complete chain 0 (valid_links chain - 1)
          (λ j lt. subst (Joint chain) {x = j} (omega arith) (p.1 j (omega (arith, lt)))) in
      let some_links : chain.link_count == 0 ≡ false = ground (arith, p.0) in rw some_links all),
)

-- The signatures of the chain that are not zero are accepted by the signer.
abbrev pub IsSigned : WitnessSigner → P3WitnessChain → Type 0
IsSigned signer chain =
    (i : ℕ)
    → i < valid_links chain
    → (is_unsigned chain i || signer.verify (link_record chain i)) ≡ true

abbrev Signature : WitnessSigner → P3WitnessChain → ℕ → Type 0
Signature signer chain i = (is_unsigned chain i || signer.verify (link_record chain i)) ≡ true

signatures_sound :
    (signer : WitnessSigner) (chain : P3WitnessChain) (i k : ℕ)
    → signatures_ok signer chain i k ≡ true
    → (j : ℕ) → j < k
    → Signature signer chain (i + j)
unfolding signatures_ok
signatures_sound signer chain i zero e j lt = absurd (omega arith)
signatures_sound signer chain i (suc k) e zero lt =
    subst (Signature signer chain) {x = i} (omega arith) (ground arith)
signatures_sound signer chain i (suc k) e (suc j) lt =
    subst (Signature signer chain) {x = i + 1 + j} (omega arith)
      (signatures_sound signer chain (i + 1) k (ground arith) j (omega arith))

signatures_complete :
    (signer : WitnessSigner) (chain : P3WitnessChain) (i k : ℕ)
    → ((j : ℕ) → j < k → Signature signer chain (i + j))
    → signatures_ok signer chain i k ≡ true
unfolding signatures_ok
signatures_complete signer chain i zero h = refl
signatures_complete signer chain i (suc k) h =
    let here : Signature signer chain i =
      subst (Signature signer chain) {x = i + 0} (omega arith) (h 0 (omega arith)) in
    let rest = signatures_complete signer chain (i + 1) k (λ j lt.
      subst (Signature signer chain) {x = i + suc j} (omega arith) (h (suc j) (omega arith))) in
    ground (arith, here, rest)

pub accepted_sound :
    (signer : WitnessSigner) (chain : P3WitnessChain)
    → (verify_p3_chain chain && verify_chain_signatures signer chain) ≡ true
    → IsLinked chain × IsSigned signer chain
unfolding verify_chain_signatures
accepted_sound signer chain e = (
  (verify_p3_chain_iff chain).0 (ground arith),
  λ i lt.
      subst (Signature signer chain) {x = 0 + i} (omega arith)
        (signatures_sound signer chain 0 (valid_links chain) (ground arith) i lt),
)

pub accepted_complete :
    (signer : WitnessSigner) (chain : P3WitnessChain)
    → IsLinked chain × IsSigned signer chain
    → (verify_p3_chain chain && verify_chain_signatures signer chain) ≡ true
unfolding verify_chain_signatures
accepted_complete signer chain p =
    let all =
      signatures_complete signer chain 0 (valid_links chain)
        (λ j lt. subst (Signature signer chain) {x = j} (omega arith) (p.1 j lt)) in
    ground (arith, all, (verify_p3_chain_iff chain).1 p.0)
