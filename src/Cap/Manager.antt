-- ===== src/Cap/Manager.antt =====
-- crates/rvm-cap/src/manager.rs: the capability manager, which drives the table, the derivation tree
-- and the verifier. A method on `&mut self` returns the new state with its result.
mod State
pub mod Invariant
pub mod History
pub mod Delegation
pub mod Reuse
pub mod Revocation
pub use State.{CapManagerConfig, default_config, ManagerStats, CapabilityManager}
unfoldable pub use State.{new}
use rvm.Prelude.{
  ℕ, ◌+◌, Bool, true, not, Option, none, some, ltb, ◌==◌, if◌then◌else◌, ok, err, Result, u64_max,
  wrapping_add32, wrapping_add64, checked_add,
}
use rvm.Types.{PartitionId, is_hypervisor}
use rvm.Types.Capability.{CapType, CapToken, CapRights, Bitflags, grant_once}
use rvm.Cap.Error.{CapError, CapResult, ProofError, table_full, grant_not_permitted}
use rvm.Cap.Table.{
  CapSlot, CapabilityTable, lookup, lookup_mut, insert_root, insert_derived, force_invalidate,
}
use rvm.Cap.Table
use rvm.Cap.Grant.{validate_grant}
use rvm.Cap.Derivation.{add_root, add_child, revoke_capability}
use rvm.Cap.Derivation
use rvm.Cap.Verify.{PolicyContext, set_epoch}
use rvm.Cap.Verify

pub increment_epoch : CapabilityManager → CapabilityManager
increment_epoch m =
    let epoch = wrapping_add32 m.epoch 1 in
    record m { epoch = epoch; verifier = set_epoch m.verifier epoch }

-- The end of a creation: the counter.
abbrev created : CapabilityManager → CapabilityManager
created m =
    let s : ManagerStats = m.stats in
    record m { stats = record s { caps_created = wrapping_add64 s.caps_created 1 } }

-- The tree is told of a root that the table holds.
unfoldable pub track_root : CapabilityManager → ℕ → ℕ → CapabilityManager × CapResult (ℕ × ℕ)
track_root m index generation =
    let (d, r) = add_root m.derivation index m.epoch in
    let told : CapabilityManager × CapResult (ℕ × ℕ) = elim r [
      | err e ↦ (record m { derivation = d }, err e)
      | ok _ ↦ (created (record m { derivation = d }), ok (index, generation))
    ] in
    if m.config.track_derivation then told else (created m, ok (index, generation))

unfoldable pub create_root_capability_inner :
    CapabilityManager
    → CapType
    → CapRights
    → ℕ
    → PartitionId
    → CapabilityManager × CapResult (ℕ × ℕ)
unfolding track_root
create_root_capability_inner m cap_type rights badge owner =
    elim (checked_add u64_max m.next_id 1) [
      | none ↦ (m, err table_full)
      | some next ↦
          let token : CapToken = record {
            id = m.next_id;
            cap_type = cap_type;
            rights = rights;
            epoch = m.epoch;
          } in
          let (t, r) = insert_root m.table token owner badge in
          let m' = record m { next_id = next; table = t } in
          elim r [ err e ↦ (m', err e) | ok (index, generation) ↦ track_root m' index generation ]
    ]

unfoldable pub create_root_capability_checked :
    CapabilityManager
    → CapType
    → CapRights
    → ℕ
    → PartitionId
    → PartitionId
    → CapabilityManager × CapResult (ℕ × ℕ)
create_root_capability_checked m cap_type rights badge owner caller =
    if not (is_hypervisor caller)
    then (m, err grant_not_permitted)
    else create_root_capability_inner m cap_type rights badge owner

-- The source without `GRANT_ONCE`.
abbrev pub spend : ⦃f : Bitflags⦄ → CapSlot → CapSlot
spend ⦃f⦄ s =
    let token : CapToken = s.token in
    record s { token = record token { rights = f.difference token.rights grant_once } }

-- The end of a grant: `GRANT_ONCE` is taken from the source, and the counters move.
unfoldable pub finish_grant :
    ⦃f : Bitflags⦄
    → CapabilityManager
    → ℕ
    → ℕ
    → ℕ
    → Bool
    → ℕ × ℕ
    → CapabilityManager × CapResult (ℕ × ℕ)
finish_grant m source_index source_generation depth consume handle =
    let spent = (lookup_mut m.table source_index source_generation spend).0 in
    let s : ManagerStats = m.stats in
    let s' = record s {
      caps_granted = wrapping_add64 s.caps_granted 1;
      max_depth_reached = if ltb s.max_depth_reached depth then depth else s.max_depth_reached;
    } in
    (record m { table = if consume then spent else m.table; stats = s' }, ok handle)

-- The tree is told of a child that the table holds; if it refuses, the table lets it go again.
unfoldable pub track_child :
    CapabilityManager → ℕ → ℕ → ℕ → CapabilityManager × CapResult (Unit {0})
track_child m source_index child_index depth =
    let (d, r) = add_child m.derivation source_index child_index depth m.epoch in
    let told : CapabilityManager × CapResult (Unit {0}) = elim r [
      | err e ↦ (record m { derivation = d; table = force_invalidate m.table child_index }, err e)
      | ok _ ↦ (record m { derivation = d }, ok tt)
    ] in
    if m.config.track_derivation then told else (m, ok tt)

-- From the decision of `validate_grant` on.
unfoldable pub derive_child :
    ⦃f : Bitflags⦄
    → CapabilityManager
    → ℕ
    → ℕ
    → ℕ
    → PartitionId
    → CapToken × ℕ × Bool
    → CapabilityManager × CapResult (ℕ × ℕ)
unfolding track_child finish_grant
derive_child m source_index source_generation badge target (token, depth, consume) =
    let (t, r) = insert_derived m.table token target depth source_index badge in
    let m' = record m { table = t } in
    elim r [
      | err e ↦ (m', err e)
      | ok (index, generation) ↦
          let (m'', told) = track_child m' source_index index depth in
          elim told [
            | err e ↦ (m'', err e)
            | ok _ ↦
                finish_grant m'' source_index source_generation depth consume (index, generation)
          ]
    ]

-- A caller that does not own the source is refused.
abbrev pub is_foreign : Option PartitionId → CapSlot → Bool
is_foreign none source = Bool.false
is_foreign (some caller) source = not (source.owner == caller)

unfoldable pub grant_with_caller :
    ⦃f : Bitflags⦄
    → CapabilityManager
    → ℕ
    → ℕ
    → CapRights
    → ℕ
    → PartitionId
    → Option PartitionId
    → CapabilityManager × CapResult (ℕ × ℕ)
unfolding derive_child
grant_with_caller m source_index source_generation requested badge target caller =
    elim (lookup m.table source_index source_generation) [
      | err e ↦ (m, err e)
      | ok source ↦
          let go : CapabilityManager × CapResult (ℕ × ℕ) = elim (checked_add u64_max m.next_id 1) [
            | none ↦ (m, err table_full)
            | some next ↦
                let m' = record m { next_id = next } in
                elim (validate_grant source requested m.next_id badge m.epoch m.grant_policy) [
                  | err e ↦ (m', err e)
                  | ok decision ↦
                      derive_child m' source_index source_generation badge target decision
                ]
          ] in
          if is_foreign caller source then (m, err grant_not_permitted) else go
    ]

pub grant :
    ⦃f : Bitflags⦄
    → CapabilityManager
    → ℕ
    → ℕ
    → CapRights
    → ℕ
    → PartitionId
    → CapabilityManager × CapResult (ℕ × ℕ)
unfolding grant_with_caller
grant m source_index source_generation requested badge target =
    grant_with_caller m source_index source_generation requested badge target none

pub grant_checked :
    ⦃f : Bitflags⦄
    → CapabilityManager
    → ℕ
    → ℕ
    → CapRights
    → ℕ
    → PartitionId
    → PartitionId
    → CapabilityManager × CapResult (ℕ × ℕ)
unfolding grant_with_caller
grant_checked m source_index source_generation requested badge target caller =
    grant_with_caller m source_index source_generation requested badge target (some caller)

-- The walks of the tree take fuel; `none` is where it runs out.
unfoldable pub revoke : ℕ → CapabilityManager → ℕ → ℕ → Option (CapabilityManager × CapResult ℕ)
revoke fuel m index generation =
    elim (revoke_capability fuel m.table m.derivation index generation) [
      | none ↦ none
      | some (t, d, r) ↦
          let m' = record m { table = t; derivation = d } in
          let s : ManagerStats = m.stats in
          elim r [
            | err e ↦ some (m', err e)
            | ok n ↦
                let s' = record s {
                  caps_revoked = wrapping_add64 s.caps_revoked n;
                  revoke_operations = wrapping_add64 s.revoke_operations 1;
                } in
                some (record m' { stats = s' }, ok n)
          ]
    ]

pub verify_p1 :
    ⦃f : Bitflags⦄ → CapabilityManager → ℕ → ℕ → CapRights → Result ProofError (Unit {0})
verify_p1 m index generation required =
    Verify.verify_p1 m.verifier m.table index generation required

unfoldable pub verify_p2 :
    CapabilityManager → ℕ → ℕ → PolicyContext → CapabilityManager × Result ProofError (Unit {0})
verify_p2 m index generation ctx =
    let (v, r) = Verify.verify_p2 m.verifier m.table m.derivation index generation ctx in
    (record m { verifier = v }, r)

pub verify_p3 : ℕ → CapabilityManager → ℕ → ℕ → ℕ → Option (Result ProofError (Unit {0}))
verify_p3 fuel m index generation max_depth =
    Verify.verify_p3 fuel m.table m.derivation index generation max_depth
