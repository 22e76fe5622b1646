-- ===== src/Cap/Grant.antt =====
-- crates/rvm-cap/src/grant.rs: the decision on a delegation.
pub mod Attenuation
mod Tests
use rvm.Prelude.{
  ℕ, Bool, true, not, ◌&&◌, ◌||◌, leb, ok, ◌>>=◌, ◌>>◌, ok_or, guard, checked_add, u8_max,
}
use rvm.Types.Capability.{CapRights, CapToken, Bitflags, grant_right, grant_once}
use rvm.Cap.Error.{CapResult, grant_not_permitted, rights_escalation, delegation_depth_exceeded}
use rvm.Cap.Table.{CapSlot}

-- `struct GrantPolicy`.
pub record GrantPolicy : Type 0 where
  pub max_depth : ℕ
  pub allow_grant_once : Bool

abbrev pub default_max_delegation_depth : ℕ
default_max_delegation_depth = 8

-- `GrantPolicy::new` and `with_max_depth`.
pub new : GrantPolicy
new = record { max_depth = default_max_delegation_depth; allow_grant_once = true }

pub with_max_depth : ℕ → GrantPolicy
with_max_depth depth = record { max_depth = depth; allow_grant_once = true }

-- The token derived, its depth, and whether the grant uses `GRANT_ONCE` up.
unfoldable pub validate_grant :
    ⦃f : Bitflags⦄ → CapSlot → CapRights → ℕ → ℕ → ℕ → GrantPolicy → CapResult (CapToken × ℕ × Bool)
validate_grant ⦃f⦄ source requested new_id badge epoch policy = do
  let source_rights = source.token.rights
  let has_grant = f.contains source_rights grant_right
  let has_grant_once = policy.allow_grant_once && f.contains source_rights grant_once
  guard (has_grant || has_grant_once) grant_not_permitted
  guard (f.contains source_rights requested) rights_escalation
  new_depth ← ok_or (checked_add u8_max source.depth 1) delegation_depth_exceeded
  guard (leb new_depth policy.max_depth) delegation_depth_exceeded
  let derived : CapToken = record {
    id = new_id;
    cap_type = source.token.cap_type;
    rights = requested;
    epoch = epoch;
  }
  ok (derived, new_depth, not has_grant && has_grant_once)
