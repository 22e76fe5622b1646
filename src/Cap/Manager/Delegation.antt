-- ===== src/Cap/Manager/Delegation.antt =====
-- Proofs about `grant_with_caller` of crates/rvm-cap/src/manager.rs: the new capability, and the
-- source after the grant.
use rvm.Prelude.{
  ℕ, ◌+◌, ◌≤◌, ◌<◌, ◌≡◌, refl, ap, Bool, true, false, Option, ok, err, arith, u32_max, u64_max,
  if◌then◌else◌, Bool-cases, Option-cases, Result-cases, checked_add, inl, inr,
}
use rvm.Types.{PartitionId}
use rvm.Types.Capability.{CapRights, CapToken, Bitflags, IsLawful, grant_right, grant_once}
use rvm.Cap.Error.{grant_not_permitted}
use rvm.Cap.Table.{CapSlot, CapabilityTable, new_slot, lookup, lookup_mut, insert_derived}
use rvm.Cap.Table.Invariant.{IsTable}
use rvm.Cap.Table.Handles.{
  lookup-insert_derived, insert_derived-apart, lookup-lookup_mut_self, lookup-lookup_mut_ne,
}
use rvm.Cap.Grant.{validate_grant}
use rvm.Cap.Grant.Attenuation.{validate_grant_attenuates, validate_grant-refused}
use rvm.Cap.Manager.{
  CapabilityManager, grant_with_caller, is_foreign, spend, derive_child, track_child, finish_grant,
}

module _ ⦃f : Bitflags⦄ where
  -- The steps of a grant that succeeded.
  record Granted (m m' : CapabilityManager) (i g : ℕ) (requested : CapRights) (badge : ℕ)
      (target : PartitionId) (caller : Option PartitionId) (ci cg : ℕ) : Type 0 where
    source : CapSlot
    token : CapToken
    depth : ℕ
    consume : Bool
    inserted : CapabilityTable
    read : lookup m.table i g ≡ ok source
    owned : is_foreign caller source ≡ false
    allowed :
        validate_grant source requested m.next_id badge m.epoch m.grant_policy
        ≡ ok (token, depth, consume)
    put : insert_derived m.table token target depth i badge ≡ (inserted, ok (ci, cg))
    left : m'.table ≡ (if consume then (lookup_mut inserted i g spend).0 else inserted)

  derive_child-inv :
      (m m' : CapabilityManager) (i g badge : ℕ) (target : PartitionId) (token : CapToken)
      (depth : ℕ) (consume : Bool) (ci cg : ℕ)
      → derive_child m i g badge target (token, depth, consume) ≡ (m', ok (ci, cg))
      → (t : CapabilityTable) × (insert_derived m.table token target depth i badge
          ≡ (t, ok (ci, cg)))
        × (m'.table ≡ (if consume then (lookup_mut t i g spend).0 else t))
  unfolding derive_child track_child finish_grant
  derive_child-inv m m' i g badge target token depth consume ci cg e =
      ((insert_derived m.table token target depth i badge).0, ground arith, ground arith)

  granted :
      (m m' : CapabilityManager) (i g : ℕ) (requested : CapRights) (badge : ℕ)
      (target : PartitionId) (caller : Option PartitionId) (ci cg : ℕ)
      → grant_with_caller m i g requested badge target caller ≡ (m', ok (ci, cg))
      → Granted m m' i g requested badge target caller ci cg
  unfolding grant_with_caller
  granted m m' i g requested badge target caller ci cg e =
      elim (Result-cases (lookup m.table i g)) [
        | inr (x, r) ↦ absurd (ground arith)
        | inl (s, r) ↦ elim (Bool-cases (is_foreign caller s)) [
          | inl b ↦ absurd (ground arith)
          | inr b ↦ elim (Option-cases (checked_add u64_max m.next_id 1)) [
            | inl o ↦ absurd (ground arith)
            | inr (next, o) ↦
                elim (Result-cases
                  (validate_grant s requested m.next_id badge m.epoch m.grant_policy)) [
                    | inr (x, v) ↦ absurd (ground arith)
                    | inl ((token, depth, consume), v) ↦
                        let (t, put, left) =
                          derive_child-inv (record m { next_id = next }) m' i g badge target token
                            depth consume ci cg (ground arith) in
                        record {
                          source = s;
                          token = token;
                          depth = depth;
                          consume = consume;
                          inserted = t;
                          read = r;
                          owned = b;
                          allowed = v;
                          put = put;
                          left = left;
                        }
                  ]
          ]
        ]
      ]

  -- A grant that succeeds reads a source capability that its caller owns, if it names one, and
  -- returns a handle to a new capability for the target: of the same type, with the rights that were
  -- asked for, all of them among those of the source, one level deeper and within the limit of the
  -- manager, stamped with the current epoch. The table satisfies its invariant and has at most
  -- 2³² - 1 slots.
  pub grant-attenuates :
      {n : ℕ} (m m' : CapabilityManager) (i g : ℕ) (requested : CapRights) (badge : ℕ)
      (target : PartitionId) (caller : Option PartitionId) (ci cg : ℕ)
      → IsTable n m.table
      → n ≤ u32_max
      → grant_with_caller m i g requested badge target caller ≡ (m', ok (ci, cg))
      → (source : CapSlot) × (child : CapSlot) × (lookup m.table i g ≡ ok source)
        × (is_foreign caller source ≡ false)
        × (lookup m'.table ci cg ≡ ok child)
        × (child.owner ≡ target)
        × (child.token.cap_type ≡ source.token.cap_type)
        × (child.token.rights ≡ requested)
        × (f.contains source.token.rights child.token.rights ≡ true)
        × (child.token.epoch ≡ m.epoch)
        × (child.depth ≡ source.depth + 1)
        × (child.depth ≤ m.grant_policy.max_depth)
  grant-attenuates m m' i g requested badge target caller ci cg valid le e =
      let r = granted m m' i g requested badge target caller ci cg e in
      let narrow =
        validate_grant_attenuates r.source requested m.next_id badge m.epoch m.grant_policy r.token
          r.depth r.consume r.allowed in
      let new =
        (lookup-insert_derived m.table r.inserted r.token target r.depth i badge ci cg valid le
          r.put).0 in
      let apart =
        insert_derived-apart m.table r.inserted r.token target r.depth i badge ci cg i g r.source
          valid le r.put r.read in
      let kept = lookup-lookup_mut_ne r.inserted i g spend ci cg apart in
      (
        r.source,
        new_slot r.token cg target r.depth i badge,
        r.read,
        r.owned,
        rw r.left (ground (arith, kept, new)),
        refl,
        narrow.1,
        narrow.0,
        ground (arith, narrow.0, narrow.4),
        narrow.3,
        narrow.5,
        narrow.6,
      )

  -- A source that has `GRANT_ONCE` and not `GRANT` can be used for one grant: after it, its own
  -- handle is refused as not permitted, whatever is asked for and whoever asks, as long as the
  -- counter of ids is not used up. The operations on rights are those of `bitflags`.
  pub grant_once-spent :
      {n : ℕ} (m m' : CapabilityManager) (i g : ℕ) (requested requested' : CapRights)
      (badge badge' : ℕ) (target target' : PartitionId) (caller caller' : Option PartitionId)
      (ci cg : ℕ) (source : CapSlot)
      → IsLawful f
      → IsTable n m.table
      → n ≤ u32_max
      → lookup m.table i g ≡ ok source
      → f.contains source.token.rights grant_right ≡ false
      → grant_with_caller m i g requested badge target caller ≡ (m', ok (ci, cg))
      → m'.next_id < u64_max
      → let (m'', result) = grant_with_caller m' i g requested' badge' target' caller' in
        (result ≡ err grant_not_permitted) × (m''.table ≡ m'.table)
  unfolding grant_with_caller
  grant_once-spent m m' i g requested requested' badge badge' target target' caller caller' ci cg
        source law valid le read lacks e room =
      let r = granted m m' i g requested badge target caller ci cg e in
      let narrow =
        validate_grant_attenuates r.source requested m.next_id badge m.epoch m.grant_policy r.token
          r.depth r.consume r.allowed in
      let same : r.source ≡ source = ground (arith, r.read) in
      let apart =
        insert_derived-apart m.table r.inserted r.token target r.depth i badge ci cg i g r.source
          valid le r.put r.read in
      let still =
        (lookup-insert_derived m.table r.inserted r.token target r.depth i badge ci cg valid le
            r.put).1
          i g apart in
      let spent = lookup-lookup_mut_self r.inserted i g spend source refl (ground (arith, still)) in
      let left = f.difference source.token.rights grant_once in
      let no_grant : f.contains left grant_right ≡ false = ground (
        arith,
        law.contains_difference source.token.rights grant_once,
        law.contains_trans source.token.rights left grant_right,
      ) in
      let used : r.consume ≡ true =
        ground
          (arith, narrow.8, ap (λ (s : CapSlot). f.contains s.token.rights grant_right) same) in
      let reads : lookup m'.table i g ≡ ok (spend source) = rw (r.left, used) spent in
      let refused =
        validate_grant-refused (spend source) requested' m'.next_id badge' m'.epoch m'.grant_policy
          no_grant (law.difference_once source.token.rights) in
      ground (arith, reads, refused)
