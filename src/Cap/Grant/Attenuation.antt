-- ===== src/Cap/Grant/Attenuation.antt =====
-- Proofs about `validate_grant` of crates/rvm-cap/src/grant.rs: rights, depth and `GRANT_ONCE`.
use rvm.Prelude.{ℕ, ◌+◌, ◌≤◌, ◌≡◌, Bool, true, false, not, ◌&&◌, ◌||◌, ok, err, arith}
use rvm.Types.Capability.{CapRights, CapToken, Bitflags, grant_right, grant_once}
use rvm.Cap.Error.{grant_not_permitted}
use rvm.Cap.Table.{CapSlot}
use rvm.Cap.Grant.{GrantPolicy, validate_grant}

-- A grant that is allowed comes from a source that may delegate, keeps the type of the source, asks
-- for no right that the source lacks, and is one level deeper, within the limit of the policy; it
-- uses `GRANT_ONCE` up exactly when the source has no `GRANT`.
pub validate_grant_attenuates :
    ⦃f : Bitflags⦄ (source : CapSlot) (requested : CapRights) (new_id badge epoch : ℕ)
    (policy : GrantPolicy) (token : CapToken) (depth : ℕ) (consume : Bool)
    → validate_grant source requested new_id badge epoch policy ≡ ok (token, depth, consume)
    → (token.rights ≡ requested)
      × (token.cap_type ≡ source.token.cap_type)
      × (token.id ≡ new_id)
      × (token.epoch ≡ epoch)
      × (f.contains source.token.rights requested ≡ true)
      × (depth ≡ source.depth + 1)
      × (depth ≤ policy.max_depth)
      × (f.contains source.token.rights grant_right
            || (policy.allow_grant_once && f.contains source.token.rights grant_once)
          ≡ true)
      × (consume ≡ not (f.contains source.token.rights grant_right))
unfolding validate_grant
validate_grant_attenuates source requested new_id badge epoch policy token depth consume e =
    ground arith

-- Without `GRANT` and without `GRANT_ONCE` nothing is granted.
pub validate_grant-refused :
    ⦃f : Bitflags⦄ (source : CapSlot) (requested : CapRights) (new_id badge epoch : ℕ)
    (policy : GrantPolicy)
    → f.contains source.token.rights grant_right ≡ false
    → f.contains source.token.rights grant_once ≡ false
    → validate_grant source requested new_id badge epoch policy ≡ err grant_not_permitted
unfolding validate_grant
validate_grant-refused source requested new_id badge epoch policy h h' = ground arith
