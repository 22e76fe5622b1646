-- ===== src/Cap/Verify/Capabilities.antt =====
-- Proofs about `verify_p1` of crates/rvm-cap/src/verify.rs.
use rvm.Prelude.{ℕ, ◌≡◌, ◌↔◌, true, ok, arith}
use rvm.Types.Capability.{CapRights, Bitflags}
use rvm.Cap.Table.{CapSlot, CapabilityTable, lookup}
use rvm.Cap.Verify.{ProofVerifier, verify_p1}

-- P1 accepts a handle exactly when it reads a capability of the current epoch that has every right
-- asked for.
pub verify_p1_iff :
    ⦃f : Bitflags⦄ (v : ProofVerifier) (t : CapabilityTable) (i g : ℕ) (required : CapRights)
    → (verify_p1 v t i g required ≡ ok tt) ↔ (
        (s : CapSlot) × (lookup t i g ≡ ok s)
        × (s.token.epoch ≡ v.current_epoch)
        × (f.contains s.token.rights required ≡ true))
unfolding verify_p1
verify_p1_iff v t i g required = ground arith
