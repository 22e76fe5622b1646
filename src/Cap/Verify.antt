-- ===== src/Cap/Verify.antt =====
-- crates/rvm-cap/src/verify.rs: the proof verifier, with its ring of nonces.
pub mod Nonces
pub mod Capabilities
pub mod Chains
mod Tests
use rvm.Prelude.{
  ℕ, zero, suc, ◌+◌, ◌%◌, Bool, true, false, ◌&&◌, ◌||◌, not, Option, none, some, List, [], ◌∷◌,
  ltb, leb, ◌==◌, if◌then◌else◌, ok, err, Result, is_ok_and, u64_max, get_or, set, replicate,
}
use rvm.Types.Capability.{CapRights, Bitflags}
use rvm.Cap.Error.{
  ProofError, bad_handle, stale, insufficient_rights, policy_violation, derivation_chain_broken,
}
use rvm.Cap.Table.{CapabilityTable, lookup}
use rvm.Cap.Derivation.{DerivationTree, DerivationNode, find_parent}
use rvm.Cap.Derivation

abbrev pub nonce_ring_size : ℕ
nonce_ring_size = 4096

-- `struct PolicyContext`.
pub record PolicyContext : Type 0 where
  pub expected_owner : ℕ
  pub region_base : ℕ
  pub region_limit : ℕ
  pub lease_expiry_ns : ℕ
  pub current_time_ns : ℕ
  pub max_delegation_depth : ℕ
  pub nonce : ℕ

-- `struct ProofVerifier<N>`.
pub record ProofVerifier : Type 0 where
  pub current_epoch : ℕ
  pub nonce_ring : List ℕ
  pub nonce_hash : List ℕ
  pub nonce_write_pos : ℕ
  pub nonce_watermark : ℕ
  pub allow_zero_nonce : Bool

unfoldable pub new : ℕ → ProofVerifier
new epoch = record {
  current_epoch = epoch;
  nonce_ring = replicate nonce_ring_size 0;
  nonce_hash = replicate nonce_ring_size 0;
  nonce_write_pos = 0;
  nonce_watermark = 0;
  allow_zero_nonce = false;
}

pub set_allow_zero_nonce : ProofVerifier → Bool → ProofVerifier
set_allow_zero_nonce v allow = record v { allow_zero_nonce = allow }

unfoldable pub set_epoch : ProofVerifier → ℕ → ProofVerifier
set_epoch v epoch = record v { current_epoch = epoch }

-- The three bits of `fail_mask`: no such handle, another epoch, too few rights.
pub p1_result : Bool → Bool → Bool → Result ProofError (Unit {0})
p1_result no_handle no_epoch no_rights =
    if not (no_handle || (no_epoch || no_rights))
    then ok tt
    else if no_handle
    then err bad_handle
    else if no_epoch
    then err stale
    else err insufficient_rights

-- Each check of P1 is made, whatever the others say.
pub verify_p1 :
    ⦃f : Bitflags⦄
    → ProofVerifier
    → CapabilityTable
    → ℕ
    → ℕ
    → CapRights
    → Result ProofError (Unit {0})
unfolding p1_result
verify_p1 ⦃f⦄ v t index generation required = elim (lookup t index generation) [
  | err e ↦ p1_result true true true
  | ok s ↦
      p1_result false (not (s.token.epoch == v.current_epoch))
        (not (f.contains s.token.rights required))
]

pub check_nonce : ProofVerifier → ℕ → Bool
check_nonce v nonce =
    if nonce == 0
    then v.allow_zero_nonce
    else if leb nonce v.nonce_watermark
    then false
    else not (get_or v.nonce_hash (nonce % nonce_ring_size) 0 == nonce)

-- The least entry of the ring that is not zero, from `least` on.
pub min_entry : List ℕ → ℕ → ℕ
min_entry [] least = least
min_entry (e ∷ es) least = min_entry es (if not (e == 0) && ltb e least then e else least)

-- The watermark rises when the ring has wrapped.
pub advance_watermark : ProofVerifier → ProofVerifier
unfolding min_entry
advance_watermark v =
    let least = min_entry v.nonce_ring u64_max in
    if not (least == u64_max) && ltb v.nonce_watermark least
    then record v { nonce_watermark = least }
    else v

pub mark_nonce : ProofVerifier → ℕ → ProofVerifier
mark_nonce v nonce =
    let written = record v {
      nonce_ring = set v.nonce_ring v.nonce_write_pos nonce;
      nonce_hash = set v.nonce_hash (nonce % nonce_ring_size) nonce;
      nonce_write_pos = (v.nonce_write_pos + 1) % nonce_ring_size;
    } in
    if nonce == 0
    then v
    else if written.nonce_write_pos == 0
    then advance_watermark written
    else written

-- The checks of P2, all of them made.
abbrev pub p2_checks :
    ProofVerifier → CapabilityTable → DerivationTree → ℕ → ℕ → PolicyContext → Bool
p2_checks v t d index generation ctx =
    is_ok_and (lookup t index generation) (λ s. s.owner == ctx.expected_owner)
    && ltb ctx.region_base ctx.region_limit
    && leb ctx.current_time_ns ctx.lease_expiry_ns
    && is_ok_and (Derivation.depth d index) (λ n. leb n ctx.max_delegation_depth)
    && check_nonce v ctx.nonce

pub verify_p2 :
    ProofVerifier
    → CapabilityTable
    → DerivationTree
    → ℕ
    → ℕ
    → PolicyContext
    → ProofVerifier × Result ProofError (Unit {0})
verify_p2 v t d index generation ctx =
    if p2_checks v t d index generation ctx
    then (mark_nonce v ctx.nonce, ok tt)
    else (v, err policy_violation)

-- The walk to the root. `left` is the number of steps that `max_depth` still allows, and the walk of
-- `find_parent` takes fuel.
pub walk_to_root : ℕ → DerivationTree → ℕ → ℕ → ℕ → ℕ → Option (Result ProofError (Unit {0}))
walk_to_root fuel d zero depth epoch index = some (err derivation_chain_broken)
walk_to_root fuel d (suc left) depth epoch index = elim (find_parent fuel d index) [
  | none ↦ none
  | some none ↦ some (err derivation_chain_broken)
  | some (some p) ↦ elim (Derivation.get d p) [
    | none ↦ some (err derivation_chain_broken)
    | some parent ↦
        let rest = walk_to_root fuel d left parent.depth parent.epoch p in
        if not parent.is_valid
        then some (err derivation_chain_broken)
        else if leb depth parent.depth
        then some (err derivation_chain_broken)
        else if ltb epoch parent.epoch
        then some (err derivation_chain_broken)
        else if parent.depth == 0
        then some (ok tt)
        else rest
  ]
]

pub verify_p3 :
    ℕ → CapabilityTable → DerivationTree → ℕ → ℕ → ℕ → Option (Result ProofError (Unit {0}))
verify_p3 fuel t d index generation max_depth = elim (lookup t index generation) [
  | err _ ↦ some (err derivation_chain_broken)
  | ok _ ↦ elim (Derivation.get d index) [
    | none ↦ some (err derivation_chain_broken)
    | some n ↦
        if not n.is_valid
        then some (err derivation_chain_broken)
        else if n.depth == 0
        then some (ok tt)
        else walk_to_root fuel d max_depth n.depth n.epoch index
  ]
]
