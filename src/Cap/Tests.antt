-- ===== src/Cap/Tests.antt =====
-- Tests of crates/rvm-cap/src/manager.rs. A manager of four slots: a capability of partition 7
-- is granted to partition 8, and revoked. The rights are those of the concrete instance of
-- `bitflags`.
use rvm.Prelude.{
  ℕ, ◌+◌, ◌≤◌, ◌≡◌, refl, true, false, none, some, ok, err, is_ok, arith, u32_max, [], ◌∷◌, set,
  get_or,
}
use rvm.Types.{hypervisor}
use rvm.Types.Capability.{region, read, grant_right}
use rvm.Types.Capability.Digits.{
  byte_flags, byte_flags-IsLawful, contains_digits, difference_digits,
}
use rvm.Cap.Error.{grant_not_permitted, invalid_handle}
use rvm.Cap.Table.{
  CapSlot, CapabilityTable, empty_slot, lookup, lookup_mut, first_free, find_free_slot, insert_slot,
  insert_root, insert_derived, force_invalidate, release_slot, invalidate, next_generation, matches,
}
use rvm.Cap.Table
use rvm.Cap.Table.Invariant.{IsTable}
use rvm.Cap.Grant.{validate_grant}
use rvm.Cap.Derivation.{
  DerivationTree, node, add_root, add_child, push_children, collect_loop, collect_subtree,
  revoke_loop, revoke_subtree, revoke_capability, force_all,
}
use rvm.Cap.Derivation
use rvm.Cap.Manager.{
  CapabilityManager, default_config, new, create_root_capability_checked,
  create_root_capability_inner, track_root, grant_with_caller, derive_child, track_child,
  finish_grant, revoke, is_foreign,
}
use rvm.Cap.Manager.Invariant.{IsManager}
use rvm.Cap.Manager.History.{
  Reach, here, next, creates_checked, grants, revokes, Reach-new-IsManager,
}
use rvm.Cap.Manager.Delegation.{grant-attenuates, grant_once-spent}
use rvm.Cap.Manager.Revocation.{revoke-kills}
use rvm.Cap.Manager.Reuse.{revoke-diverges}

abbrev start : CapabilityManager
start = new 4 default_config

-- A root that can be read and be delegated once.
abbrev rooted : CapabilityManager
rooted = (create_root_capability_checked start region 0x41 0 7 hypervisor).0

abbrev granted : CapabilityManager
granted = (grant_with_caller rooted 0 1 read 5 8 (some 7)).0

abbrev revoked_all : CapabilityManager
revoked_all = record granted {
  table = force_all granted.table (0 ∷ 1 ∷ u32_max ∷ u32_max ∷ []);
  derivation = record {
    nodes =
        set
          (set granted.derivation.nodes 0
            (record (node granted.derivation.nodes 0) { is_valid = false }))
          1 (record (node granted.derivation.nodes 1) { is_valid = false });
    count = 0;
  };
  stats = record {
    caps_created = 1;
    caps_granted = 1;
    caps_revoked = 2;
    revoke_operations = 1;
    max_depth_reached = 1;
  };
}

-- The root is created, granted once and not again, and revoked with its child.
history :
    ((create_root_capability_checked start region 0x41 0 7 hypervisor).1 ≡ ok (0, 1))
    × (grant_with_caller rooted 0 1 read 5 8 (some 7) ≡ (granted, ok (1, 1)))
    × ((grant_with_caller rooted 0 1 read 5 8 (some 9)).1 ≡ err grant_not_permitted)
    × ((grant_with_caller granted 0 1 read 6 9 none).1 ≡ err grant_not_permitted)
    × (lookup rooted.table 0 1 ≡ ok (get_or rooted.table.slots 0 empty_slot))
    × (granted.next_id ≡ 3)
    × (byte_flags.contains (get_or rooted.table.slots 0 empty_slot).token.rights grant_right
        ≡ false)
    × (revoke 9 granted 0 1 ≡ some (revoked_all, ok 2))
unfolding create_root_capability_checked create_root_capability_inner track_root new insert_root
    insert_slot find_free_slot first_free next_generation Table.new Derivation.new add_root
    grant_with_caller derive_child track_child finish_grant insert_derived add_child validate_grant
    lookup lookup_mut matches contains_digits difference_digits revoke revoke_capability
    collect_subtree collect_loop push_children Derivation.revoke revoke_subtree revoke_loop
    force_all force_invalidate release_slot invalidate
history = (refl, refl, refl, refl, refl, refl, refl, refl)

rooted_reached : Reach start rooted
rooted_reached = next here (creates_checked region 0x41 0 7 hypervisor refl)

revoked_reached : Reach start revoked_all
revoked_reached =
    next (next rooted_reached (grants 0 1 read 5 8 (some 7) refl)) (revokes 9 0 1 (ok 2) history.7)

Reach-new-IsManager_example : IsManager 4 8 revoked_all
Reach-new-IsManager_example = Reach-new-IsManager 4 default_config revoked_all revoked_reached

rooted-IsTable : IsTable 4 rooted.table
rooted-IsTable = (Reach-new-IsManager 4 default_config rooted rooted_reached).table_valid

grant-attenuates_example :
    (source : CapSlot) × (child : CapSlot) × (lookup rooted.table 0 1 ≡ ok source)
    × (is_foreign (some 7) source ≡ false)
    × (lookup granted.table 1 1 ≡ ok child)
    × (child.owner ≡ 8)
    × (child.token.cap_type ≡ source.token.cap_type)
    × (child.token.rights ≡ read)
    × (byte_flags.contains source.token.rights child.token.rights ≡ true)
    × (child.token.epoch ≡ rooted.epoch)
    × (child.depth ≡ source.depth + 1)
    × (child.depth ≤ rooted.grant_policy.max_depth)
grant-attenuates_example =
    grant-attenuates rooted granted 0 1 read 5 8 (some 7) 1 1 rooted-IsTable (omega arith) history.1

grant_once-spent_example :
    ((grant_with_caller granted 0 1 read 6 9 none).1 ≡ err grant_not_permitted)
    × ((grant_with_caller granted 0 1 read 6 9 none).0.table ≡ granted.table)
grant_once-spent_example =
    grant_once-spent rooted granted 0 1 read read 5 6 8 9 (some 7) none 1 1
      (get_or rooted.table.slots 0 empty_slot) byte_flags-IsLawful rooted-IsTable (omega arith)
      history.4 history.6 history.1 (omega (arith, history.5))

revoke-kills_example :
    (lookup revoked_all.table 0 1 ≡ err invalid_handle)
    × ((j h : ℕ) (s : CapSlot)
        → lookup revoked_all.table j h ≡ ok s
        → lookup granted.table j h ≡ ok s)
revoke-kills_example = revoke-kills 9 granted revoked_all 0 1 2 history.7

-- The child of the root is revoked, and another one is derived into its slot.
abbrev after_revoke : DerivationTree
after_revoke = record {
  nodes =
      set granted.derivation.nodes 1
        (record (node granted.derivation.nodes 1) { is_valid = false });
  count = 1;
}

abbrev regranted : DerivationTree
regranted = (add_child after_revoke 0 1 1 0).0

child_is_revoked :
    (Derivation.revoke 9 granted.derivation 1 ≡ some (after_revoke, ok 1))
    × ((node after_revoke.nodes 0).first_child ≡ 1)
    × (add_child after_revoke 0 1 1 0 ≡ (regranted, ok tt))
    × (is_ok (lookup granted.table 0 1) ≡ true)
unfolding create_root_capability_checked create_root_capability_inner track_root new insert_root
    insert_slot find_free_slot first_free next_generation Table.new Derivation.new add_root
    grant_with_caller derive_child track_child finish_grant insert_derived add_child validate_grant
    lookup lookup_mut matches contains_digits difference_digits Derivation.revoke revoke_subtree
    revoke_loop push_children
child_is_revoked = (refl, refl, refl, refl)

revoke-diverges_example : revoke_capability 1000 granted.table regranted 0 1 ≡ none
revoke-diverges_example =
    revoke-diverges after_revoke regranted 0 1 1 0 granted.table 1 1000 child_is_revoked.1
      (omega arith) (omega arith) child_is_revoked.2 child_is_revoked.3
