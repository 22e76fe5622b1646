-- ===== src/Memory/Region/Wrap.antt =====
-- Proofs about the ends of regions in `create` of crates/rvm-memory/src/region.rs, which are
-- computed without a check.
use rvm.Prelude.{ℕ, ◌+◌, ◌^◌, ◌≡◌, ◌≢◌, Option, none, some, List, [], ◌∷◌, err, arith}
use rvm.Types.{memory_overlap}
use rvm.Memory.Region.{
  OwnedRegion, RegionConfig, RegionManager, configured, size_bytes, scan, create,
}

scan-wraps :
    (r : OwnedRegion) (ss : List OwnedRegion) (i : ℕ) (first : Option ℕ)
    → r.guest_base + size_bytes r ≡ 2 ^ 64
    → r.host_base + size_bytes r ≡ 2 ^ 64
    → scan r ss i first ≢ err memory_overlap
unfolding scan
scan-wraps r [] i first g h = λ e. cc
scan-wraps r (s ∷ ss) i first g h =
    let first' : Option ℕ = elim first [ none ↦ some i | some k ↦ some k ] in
    ground (arith, scan-wraps r ss (i + 1) first g h, scan-wraps r ss (i + 1) first' g h)

-- A region that reaches to the very end of both 64-bit address spaces, so that its two ends wrap to
-- zero, is never refused for an overlap, whatever regions are there.
pub create-wraps :
    (m : RegionManager) (c : RegionConfig)
    → c.guest_base + size_bytes (configured c) ≡ 2 ^ 64
    → c.host_base + size_bytes (configured c) ≡ 2 ^ 64
    → (create m c).1 ≢ err memory_overlap
unfolding create
create-wraps m c g h = ground (arith, scan-wraps (configured c) m.regions 0 none g h)
