-- ===== src/Cap/Manager/History.antt =====
-- Proofs about crates/rvm-cap/src/manager.rs: the calls of the manager as steps, and histories
-- of them.
use rvm.Prelude.{
  ℕ, ◌+◌, ◌≤◌, ◌<◌, ◌≡◌, ◌∙◌, refl, ap, Bool, Option, some, ok, err, arith, u64_max, checked_add,
  inl, inr, Result-cases, Option-cases, Bool-cases,
}
use rvm.Types.{PartitionId}
use rvm.Types.Capability.{CapRights, CapType, CapToken, Bitflags}
use rvm.Cap.Error.{CapResult}
use rvm.Cap.Table.{
  CapabilityTable, lookup, lookup_mut, force_invalidate, insert_root, insert_derived,
}
use rvm.Cap.Grant.{validate_grant}
use rvm.Cap.Grant.Attenuation.{validate_grant_attenuates}
use rvm.Cap.Derivation.{force_all, revoke_capability, collect_subtree}
use rvm.Cap.Verify.{PolicyContext}
use rvm.Cap.Manager.{
  CapabilityManager, CapManagerConfig, new, increment_epoch, create_root_capability_inner,
  create_root_capability_checked, track_root, grant_with_caller, derive_child, track_child,
  finish_grant, is_foreign, spend, revoke, verify_p2,
}
use rvm.Cap.Manager.Invariant.{
  IsManager, Holds, Fits-later, insert_slot-Holds, force_invalidate-Holds, lookup_mut-Holds,
  force_all-Holds, new-IsManager,
}

-- From the table and the counter of the manager that a call leaves.
rebuild :
    {n limit : ℕ} (m m' : CapabilityManager) (t : CapabilityTable) (next : ℕ)
    → m'.table ≡ t
    → m'.next_id ≡ next
    → m'.grant_policy ≡ m.grant_policy
    → IsManager n limit m
    → Holds n limit next t
    → IsManager n limit m'
rebuild m m' t next et en eg v h = record {
  table_valid = rw et h.0;
  limited = ap (λ p. p.max_depth) eg ∙ v.limited;
  fits = rw (et, en) h.1;
}

later_Holds :
    {n limit : ℕ} (m : CapabilityManager)
    → IsManager n limit m
    → Holds n limit (m.next_id + 1) m.table
later_Holds {limit = limit} m v =
    (v.table_valid, Fits-later limit m.next_id (m.next_id + 1) m.table.slots (omega arith) v.fits)

create-IsManager :
    {n limit : ℕ} (m : CapabilityManager) (cap_type : CapType) (rights : CapRights) (badge : ℕ)
    (owner : PartitionId)
    → IsManager n limit m
    → IsManager n limit (create_root_capability_inner m cap_type rights badge owner).0
unfolding create_root_capability_inner track_root insert_root
create-IsManager {n} {limit} m cap_type rights badge owner v =
    elim (Option-cases (checked_add u64_max m.next_id 1)) [
      | inl e ↦ rw (e, create_root_capability_inner) v
      | inr (next, e) ↦
          let token : CapToken = record {
            id = m.next_id;
            cap_type = cap_type;
            rights = rights;
            epoch = m.epoch;
          } in
          rebuild m (create_root_capability_inner m cap_type rights badge owner).0
            (insert_root m.table token owner badge).0 (m.next_id + 1) (ground arith) (ground arith)
            (ground arith) v
            (insert_slot-Holds limit (m.next_id + 1) m.table token owner 0 _ badge (later_Holds m v)
              (omega arith) (omega arith))
    ]

module _ ⦃f : Bitflags⦄ where
  -- A property that the table operations keep holds of the table that `derive_child` leaves.
  derive_child-table :
      (P : CapabilityTable → Type 0) (m : CapabilityManager) (i g badge : ℕ) (target : PartitionId)
      (token : CapToken) (depth : ℕ) (consume : Bool)
      → P (insert_derived m.table token target depth i badge).0
      → ((t : CapabilityTable) (j : ℕ) → P t → P (force_invalidate t j))
      → ((t : CapabilityTable) (j h : ℕ) → P t → P (lookup_mut t j h spend).0)
      → P (derive_child m i g badge target (token, depth, consume)).0.table
  unfolding derive_child track_child finish_grant
  derive_child-table P m i g badge target token depth consume p kf km =
      let t = (insert_derived m.table token target depth i badge).0 in
      elim (Result-cases (insert_derived m.table token target depth i badge).1) [
        | inr (x, e) ↦ ground (arith, p)
        | inl ((ci, cg), e) ↦ ground (arith, p, kf t ci p, km t i g p)
      ]

  derive_child-keeps :
      (m : CapabilityManager) (i g badge : ℕ) (target : PartitionId) (token : CapToken) (depth : ℕ)
      (consume : Bool)
      → let m' = (derive_child m i g badge target (token, depth, consume)).0 in
        (m'.next_id ≡ m.next_id) × (m'.grant_policy ≡ m.grant_policy)
  unfolding derive_child track_child finish_grant
  derive_child-keeps m i g badge target token depth consume = ground arith

  derive_child-IsManager :
      {n limit : ℕ} (m : CapabilityManager) (i g badge : ℕ) (target : PartitionId)
      (token : CapToken) (depth : ℕ) (consume : Bool)
      → IsManager n limit m
      → depth ≤ limit
      → token.id < m.next_id
      → IsManager n limit (derive_child m i g badge target (token, depth, consume)).0
  unfolding insert_derived
  derive_child-IsManager {n} {limit} m i g badge target token depth consume v le lt =
      let keeps = derive_child-keeps m i g badge target token depth consume in
      rebuild m (derive_child m i g badge target (token, depth, consume)).0 _ m.next_id refl keeps.0
        keeps.1 v
        (derive_child-table (Holds n limit m.next_id) m i g badge target token depth consume
          (insert_slot-Holds limit m.next_id m.table token target depth i badge
            (v.table_valid, v.fits) le lt)
          (force_invalidate-Holds limit m.next_id) (lookup_mut-Holds limit m.next_id))

  grant-IsManager :
      {n limit : ℕ} (m : CapabilityManager) (i g : ℕ) (requested : CapRights) (badge : ℕ)
      (target : PartitionId) (caller : Option PartitionId)
      → IsManager n limit m
      → IsManager n limit (grant_with_caller m i g requested badge target caller).0
  unfolding grant_with_caller
  grant-IsManager {n} {limit} m i g requested badge target caller v =
      elim (Result-cases (lookup m.table i g)) [
        | inr (x, r) ↦ rw (r, grant_with_caller) v
        | inl (s, r) ↦ elim (Bool-cases (is_foreign caller s)) [
          | inl b ↦ rw (r, grant_with_caller) (rw b v)
          | inr b ↦ elim (Option-cases (checked_add u64_max m.next_id 1)) [
            | inl o ↦ rw (r, grant_with_caller) (rw b (rw o v))
            | inr (next, o) ↦
                let m1 = record m { next_id = next } in
                let v1 : IsManager n limit m1 =
                  rebuild m m1 m.table (m.next_id + 1) refl (ground arith) refl v
                    (later_Holds m v) in
                elim (Result-cases
                  (validate_grant s requested m.next_id badge m.epoch m.grant_policy)) [
                    | inr (x, d) ↦ rw (r, grant_with_caller) (rw b (rw o (rw d v1)))
                    | inl ((token, depth, consume), d) ↦
                        let narrow =
                          validate_grant_attenuates s requested m.next_id badge m.epoch
                            m.grant_policy token depth consume d in
                        rw (r, grant_with_caller)
                          (rw b (
                            rw o (
                              rw d (
                                derive_child-IsManager m1 i g badge target token depth consume v1
                                  (ground (arith, narrow.6, v.limited))
                                  (ground (arith, narrow.2))))))
                  ]
          ]
        ]
      ]

revoke-IsManager :
    {n limit : ℕ} (fuel : ℕ) (m m' : CapabilityManager) (i g : ℕ) (r : CapResult ℕ)
    → IsManager n limit m
    → revoke fuel m i g ≡ some (m', r)
    → IsManager n limit m'
unfolding revoke revoke_capability
revoke-IsManager {n} {limit} fuel m m' i g (err x) v e =
    rebuild m m' m.table m.next_id (ground arith) (ground arith) (ground arith) v
      (v.table_valid, v.fits)
revoke-IsManager {n} {limit} fuel m m' i g (ok k) v e =
    elim (Option-cases (collect_subtree fuel m.derivation i)) [
      | inl c ↦ absurd (ground arith)
      | inr (found, c) ↦
          rebuild m m' (force_all m.table found) m.next_id (ground arith) (ground arith)
            (ground arith) v (force_all-Holds limit m.next_id m.table found (v.table_valid, v.fits))
    ]

-- The calls of the manager that change it. A revocation is a step where it returns.
module _ ⦃f : Bitflags⦄ where
  pub data Step (m m' : CapabilityManager) : Type 0 where
    creates :
        (cap_type : CapType) (rights : CapRights) (badge : ℕ) (owner : PartitionId)
        → m' ≡ (create_root_capability_inner m cap_type rights badge owner).0
        → Step m m'
    creates_checked :
        (cap_type : CapType) (rights : CapRights) (badge : ℕ) (owner caller : PartitionId)
        → m' ≡ (create_root_capability_checked m cap_type rights badge owner caller).0
        → Step m m'
    grants :
        (i g : ℕ) (requested : CapRights) (badge : ℕ) (target : PartitionId)
        (caller : Option PartitionId)
        → m' ≡ (grant_with_caller m i g requested badge target caller).0
        → Step m m'
    revokes : (fuel i g : ℕ) (r : CapResult ℕ) → revoke fuel m i g ≡ some (m', r) → Step m m'
    proves : (i g : ℕ) (ctx : PolicyContext) → m' ≡ (verify_p2 m i g ctx).0 → Step m m'
    new_epoch : m' ≡ increment_epoch m → Step m m'

  pub data Reach (m : CapabilityManager) : CapabilityManager → Type 0 where
    here : Reach m m
    next : {p q : CapabilityManager} → Reach m p → Step p q → Reach m q

  Step-IsManager :
      {n limit : ℕ} (m m' : CapabilityManager)
      → Step m m'
      → IsManager n limit m
      → IsManager n limit m'
  unfolding create_root_capability_checked verify_p2 increment_epoch
  Step-IsManager m m' (creates cap_type rights badge owner e) v =
      rw e (create-IsManager m cap_type rights badge owner v)
  Step-IsManager m m' (creates_checked cap_type rights badge owner caller e) v =
      ground (arith, v, create-IsManager m cap_type rights badge owner v)
  Step-IsManager m m' (grants i g requested badge target caller e) v =
      rw e (grant-IsManager m i g requested badge target caller v)
  Step-IsManager m m' (revokes fuel i g r e) v = revoke-IsManager fuel m m' i g r v e
  Step-IsManager m m' (proves i g ctx e) v =
      rebuild m m' m.table m.next_id (ground arith) (ground arith) (ground arith) v
        (v.table_valid, v.fits)
  Step-IsManager m m' (new_epoch e) v =
      rebuild m m' m.table m.next_id (ground arith) (ground arith) (ground arith) v
        (v.table_valid, v.fits)

  Reach-IsManager :
      {n limit : ℕ} {m m' : CapabilityManager}
      → IsManager n limit m
      → Reach m m'
      → IsManager n limit m'
  Reach-IsManager v here = v
  Reach-IsManager v (next r s) = Step-IsManager _ _ s (Reach-IsManager v r)

  -- After any history of calls from a new manager of `n` slots, the table still has its `n` slots and
  -- its count is that of the valid ones, no slot is deeper than the configured limit, every id was
  -- issued before `next_id`, and the limit itself has not moved.
  pub Reach-new-IsManager :
      (n : ℕ) (c : CapManagerConfig) (m : CapabilityManager)
      → Reach (new n c) m
      → IsManager n c.max_delegation_depth m
  Reach-new-IsManager n c m r = Reach-IsManager (new-IsManager n c) r
