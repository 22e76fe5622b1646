-- ===== src/Cap/Verify/Tests.antt =====
-- Tests of crates/rvm-cap/src/verify.rs. One capability, and a new verifier.
use rvm.Prelude.{
  ℕ, ◌+◌, ◌≡◌, ◌↔◌, ◌<◌, ◌≤◌, refl, true, some, is_ok, ok, err, arith, length, length-replicate,
}
use rvm.Types.Capability.{region, read}
use rvm.Types.Capability.Digits.{byte_flags}
use rvm.Cap.Error.{policy_violation}
use rvm.Cap.Table.{
  CapSlot, CapabilityTable, insert_root, insert_slot, find_free_slot, first_free, next_generation,
  lookup, matches,
}
use rvm.Cap.Table
use rvm.Cap.Derivation.{DerivationTree, DerivationNode, add_root, add_child, find_parent}
use rvm.Cap.Derivation
use rvm.Cap.Verify.{
  ProofVerifier, set_epoch, PolicyContext, nonce_ring_size, new, check_nonce, mark_nonce, verify_p1,
  verify_p2, verify_p3, walk_to_root,
}
use rvm.Cap.Verify.Capabilities.{verify_p1_iff}
use rvm.Cap.Verify.Chains.{Chain, verify_p3_iff}
use rvm.Cap.Verify.Nonces.{
  Reach, here, next, verifies, sets_epoch, verify_p2-replay, check_nonce-collision,
}

abbrev a_table : CapabilityTable
a_table =
    (insert_root (Table.new 3) (record { id = 1; cap_type = region; rights = 0x41; epoch = 0 }) 7
      0).0

abbrev a_tree : DerivationTree
a_tree = (add_root (Derivation.new 3) 0 0).0

verify_p1_iff_example : (verify_p1 (new 0) a_table 0 1 read ≡ ok tt) ↔ (
    (s : CapSlot) × (lookup a_table 0 1 ≡ ok s)
    × (s.token.epoch ≡ 0)
    × (byte_flags.contains s.token.rights read ≡ true))
unfolding new
verify_p1_iff_example = verify_p1_iff (new 0) a_table 0 1 read

abbrev a_context : PolicyContext
a_context = record {
  expected_owner = 7;
  region_base = 0;
  region_limit = 4096;
  lease_expiry_ns = 20;
  current_time_ns = 10;
  max_delegation_depth = 8;
  nonce = 5;
}

sized : length (new 0).nonce_hash ≡ nonce_ring_size
unfolding new
sized = length-replicate {A = ℕ} nonce_ring_size 0

fresh_nonce : check_nonce (new 0) 5 ≡ true
unfolding check_nonce new
fresh_nonce = refl

is_accepted : verify_p2 (new 0) a_table a_tree 0 1 a_context ≡ (mark_nonce (new 0) 5, ok tt)
unfolding verify_p2 Table.new Derivation.new add_root insert_root insert_slot find_free_slot
    first_free next_generation lookup matches Derivation.depth
is_accepted = ground (arith, fresh_nonce)

-- Another proof, with the nonce 6, and a new epoch in between.
abbrev meanwhile : ProofVerifier
meanwhile =
    set_epoch
      (verify_p2 (mark_nonce (new 0) 5) a_table a_tree 0 1 (record a_context { nonce = 6 })).0 1

meanwhile_reached : Reach 5 (mark_nonce (new 0) 5) meanwhile
meanwhile_reached =
    next
      (next here (
        verifies a_table a_tree 0 1 (record a_context { nonce = 6 })
          (λ _ e. absurd (omega (arith, e)))))
      (sets_epoch 1)

verify_p2-replay_example :
    verify_p2 meanwhile a_table a_tree 0 1 a_context ≡ (meanwhile, err policy_violation)
verify_p2-replay_example =
    verify_p2-replay (new 0) (mark_nonce (new 0) 5) meanwhile a_table a_table a_tree a_tree 0 0 1 1
      a_context a_context sized (omega arith) refl is_accepted meanwhile_reached

write_pos : (new 0).nonce_write_pos + 2 < nonce_ring_size
unfolding new
write_pos = omega arith

above_watermark : (new 0).nonce_watermark < 5
unfolding new
above_watermark = omega arith

check_nonce-collision_example :
    check_nonce (mark_nonce (mark_nonce (new 0) 5) (5 + nonce_ring_size)) 5 ≡ true
check_nonce-collision_example = check_nonce-collision (new 0) 5 sized write_pos above_watermark

abbrev b_table : CapabilityTable
b_table =
    (Table.insert_derived a_table (record { id = 2; cap_type = region; rights = read; epoch = 0 }) 8
      1 0 5).0

abbrev b_tree : DerivationTree
b_tree = (add_child a_tree 0 1 1 0).0

verify_p3_iff_example : (verify_p3 9 b_table b_tree 1 1 8 ≡ some (ok tt)) ↔ (
    (n : DerivationNode) × (steps : ℕ) × (is_ok (lookup b_table 1 1) ≡ true)
    × (Derivation.get b_tree 1 ≡ some n)
    × (steps ≤ 8)
    × Chain 9 b_tree 1 n steps)
verify_p3_iff_example = verify_p3_iff 9 b_table b_tree 1 1 8

is_chained : verify_p3 9 b_table b_tree 1 1 8 ≡ some (ok tt)
unfolding verify_p3 walk_to_root find_parent Derivation.get Table.new Derivation.new add_root
    add_child insert_root Table.insert_derived insert_slot find_free_slot first_free next_generation
    lookup matches
is_chained = refl
