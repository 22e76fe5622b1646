-- ===== src/Memory/Region/History.antt =====
-- Proofs about crates/rvm-memory/src/region.rs: histories of calls.
use rvm.Prelude.{ℕ, ◌≡◌, some, wrapping_add64}
use rvm.Types.{PartitionId}
use rvm.Memory.Region.{
  MemoryPermissions, RegionConfig, RegionManager, AddressMapping, Tier, configured, new, create,
  create_auto_id, destroy, transfer, translate,
}
use rvm.Memory.Region.Isolation.{Bounded, IsIsolated}
use rvm.Memory.Region.Changes.{
  new-IsIsolated, create-IsIsolated, destroy-IsIsolated, transfer-IsIsolated,
}
use rvm.Memory.Region.Translation.{translate-separate}

-- The region that `create_auto_id` makes.
abbrev auto_config :
    RegionManager → PartitionId → ℕ → ℕ → ℕ → Tier → MemoryPermissions → RegionConfig
auto_config m owner guest_base host_base page_count tier permissions = record {
  id = m.next_id;
  owner = owner;
  guest_base = guest_base;
  host_base = host_base;
  page_count = page_count;
  tier = tier;
  permissions = permissions;
}

-- The calls of the manager. A region that is created ends below 2⁶⁴, among the guest addresses and
-- among those of the host.
pub data Step (m : RegionManager) : RegionManager → Type 0 where
  creates : (c : RegionConfig) → Bounded (configured c) → Step m (create m c).0
  creates_auto :
      (owner : PartitionId) (guest_base host_base page_count : ℕ) (tier : Tier)
      (permissions : MemoryPermissions)
      → Bounded (configured (auto_config m owner guest_base host_base page_count tier permissions))
      → Step m (create_auto_id m owner guest_base host_base page_count tier permissions).0
  destroys : (id : ℕ) → Step m (destroy m id).0
  transfers : (id : ℕ) (new_owner : PartitionId) → Step m (transfer m id new_owner).0

pub data Reach (m : RegionManager) : RegionManager → Type 0 where
  here : Reach m m
  next : {p q : RegionManager} → Reach m p → Step p q → Reach m q

Step-IsIsolated : {m m' : RegionManager} → Step m m' → IsIsolated m.regions → IsIsolated m'.regions
unfolding create_auto_id
Step-IsIsolated {m} (creates c b) h = create-IsIsolated m c h b
Step-IsIsolated {m} (creates_auto owner guest_base host_base page_count tier permissions b) h =
    create-IsIsolated (record m { next_id = wrapping_add64 m.next_id 1 })
      (auto_config m owner guest_base host_base page_count tier permissions) h b
Step-IsIsolated {m} (destroys id) h = destroy-IsIsolated m id h
Step-IsIsolated {m} (transfers id new_owner) h = transfer-IsIsolated m id new_owner h

Reach-new-IsIsolated : (max : ℕ) {m : RegionManager} → Reach (new max) m → IsIsolated m.regions
Reach-new-IsIsolated max here = new-IsIsolated max
Reach-new-IsIsolated max (next r s) = Step-IsIsolated s (Reach-new-IsIsolated max r)

-- After any history of creations, removals and transfers from a new manager, in which every region
-- that is created ends below 2⁶⁴ among the guest addresses and among those of the host, no two guest
-- addresses share host memory: two translations that give one host address are of one partition and
-- of one guest address.
pub translate-injective :
    (max : ℕ) (m : RegionManager) (owner owner' : PartitionId) (guest guest' : ℕ)
    (a a' : AddressMapping)
    → Reach (new max) m
    → translate m owner guest ≡ some a
    → translate m owner' guest' ≡ some a'
    → a.host ≡ a'.host
    → (owner ≡ owner') × (guest ≡ guest')
translate-injective max m owner owner' guest guest' a a' r =
    translate-separate m owner owner' guest guest' a a' (Reach-new-IsIsolated max r)
