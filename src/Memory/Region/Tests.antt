-- ===== src/Memory/Region/Tests.antt =====
-- Tests of crates/rvm-memory/src/region.rs. Regions of two partitions, and a region at the end
-- of the address space.
use rvm.Prelude.{ℕ, ◌≡◌, ◌≢◌, refl, some, ok, err, arith}
use rvm.Types.{memory_overlap}
use rvm.Memory.Region.{
  RegionConfig, RegionManager, warm, read_only, new, scan, create, transfer, translate,
  contains_guest,
}
use rvm.Memory.Region.Isolation.{IsIsolated}
use rvm.Memory.Region.Changes.{new-IsIsolated, create-IsIsolated, transfer-IsIsolated}
use rvm.Memory.Region.History.{Reach, here, next, creates, translate-injective}
use rvm.Memory.Region.Wrap.{create-wraps}

abbrev first_config : RegionConfig
first_config = record {
  id = 1;
  owner = 7;
  guest_base = 0;
  host_base = 8192;
  page_count = 2;
  tier = warm;
  permissions = read_only;
}

abbrev second_config : RegionConfig
second_config = record {
  id = 2;
  owner = 8;
  guest_base = 0;
  host_base = 16384;
  page_count = 1;
  tier = warm;
  permissions = read_only;
}

abbrev top_config : RegionConfig
top_config = record {
  id = 3;
  owner = 9;
  guest_base = 18446744073709547520;
  host_base = 18446744073709547520;
  page_count = 1;
  tier = warm;
  permissions = read_only;
}

abbrev one_region : RegionManager
one_region = (create (new 3) first_config).0

abbrev two_regions : RegionManager
two_regions = (create one_region second_config).0

one_region-IsIsolated : IsIsolated one_region.regions
one_region-IsIsolated = create-IsIsolated (new 3) first_config (new-IsIsolated 3) (omega arith)

create-IsIsolated_example : IsIsolated (create one_region second_config).0.regions
create-IsIsolated_example =
    create-IsIsolated one_region second_config one_region-IsIsolated (omega arith)

second_is_created : (create one_region second_config).1 ≡ ok 2
unfolding create new scan
second_is_created = refl

overlap_is_refused :
    (create two_regions (record first_config { id = 4; owner = 8; guest_base = 4096 })).1
    ≡ err memory_overlap
unfolding create new scan
overlap_is_refused = refl

transfer-IsIsolated_example : IsIsolated (transfer two_regions 1 9).0.regions
transfer-IsIsolated_example = transfer-IsIsolated two_regions 1 9 create-IsIsolated_example

mapped :
    translate two_regions 7 5000
    ≡ some (record { guest = 5000; host = 13192; permissions = read_only })
unfolding create new scan translate contains_guest
mapped = refl

two_regions_reached : Reach (new 3) two_regions
two_regions_reached =
    next (next here (creates first_config (omega arith))) (creates second_config (omega arith))

translate-injective_example : (◌≡◌ {A = ℕ} 7 7) × (◌≡◌ {A = ℕ} 5000 5000)
translate-injective_example =
    translate-injective 3 two_regions 7 7 5000 5000 _ _ two_regions_reached mapped mapped refl

create-wraps_example : (create (create (new 3) top_config).0 top_config).1 ≢ err memory_overlap
create-wraps_example =
    create-wraps (create (new 3) top_config).0 top_config (omega arith) (omega arith)

-- The two identical regions at the top are both created.
top_is_created_twice : (create (create (new 3) top_config).0 top_config).1 ≡ ok 3
unfolding create new scan
top_is_created_twice = refl
