-- ===== src/Memory/Region.antt =====
-- crates/rvm-memory/src/region.rs: the regions that partitions own, and address translation. The
-- array of `MAX` slots is a list of that length; addresses wrap as `u64` in a release build.
pub mod Isolation
pub mod Changes
pub mod Translation
pub mod History
pub mod Wrap
pub mod Tests
use rvm.Prelude.{
  ℕ, zero, suc, ◌+◌, ◌-◌, ◌*◌, ◌%◌, Bool, true, false, ◌&&◌, ◌||◌, not, Option, none, some, List,
  [], ◌∷◌, ltb, leb, ◌==◌, if◌then◌else◌, ok, err, wrapping_add64, wrapping_pred64, length, get_or,
  set, replicate, count_where,
}
use mathlib.Core.Option
use rvm.Types.{
  PartitionId, RvmError, RvmResult, alignment_error, resource_limit_exceeded, memory_overlap,
  partition_not_found,
}

abbrev pub page_size : ℕ
page_size = 4096

-- `is_page_aligned`: at least twelve trailing zeros.
abbrev pub is_page_aligned : ℕ → Bool
is_page_aligned addr = addr % page_size == 0

-- `enum Tier`.
pub data Tier : Type 0 where
  hot warm dormant cold : Tier

-- `struct MemoryPermissions`.
pub record MemoryPermissions : Type 0 where
  pub read : Bool
  pub write : Bool
  pub execute : Bool

abbrev pub read_only : MemoryPermissions
read_only = record { read = true; write = false; execute = false }

-- `struct OwnedRegion`.
pub record OwnedRegion : Type 0 where
  pub id : ℕ
  pub owner : PartitionId
  pub guest_base : ℕ
  pub host_base : ℕ
  pub page_count : ℕ
  pub tier : Tier
  pub permissions : MemoryPermissions
  pub occupied : Bool

abbrev pub empty_region : OwnedRegion
empty_region = record {
  id = 0;
  owner = 0;
  guest_base = 0;
  host_base = 0;
  page_count = 0;
  tier = warm;
  permissions = read_only;
  occupied = false;
}

-- A `u32` of pages is less than 2⁶⁴ bytes.
abbrev pub size_bytes : OwnedRegion → ℕ
size_bytes r = r.page_count * page_size

abbrev pub guest_end : OwnedRegion → ℕ
guest_end r = wrapping_add64 r.guest_base (size_bytes r)

abbrev pub host_end : OwnedRegion → ℕ
host_end r = wrapping_add64 r.host_base (size_bytes r)

pub contains_guest : OwnedRegion → ℕ → Bool
contains_guest r addr = leb r.guest_base addr && ltb addr (guest_end r)

-- `struct RegionConfig`.
pub record RegionConfig : Type 0 where
  pub id : ℕ
  pub owner : PartitionId
  pub guest_base : ℕ
  pub host_base : ℕ
  pub page_count : ℕ
  pub tier : Tier
  pub permissions : MemoryPermissions

-- `struct AddressMapping`.
pub record AddressMapping : Type 0 where
  pub guest : ℕ
  pub host : ℕ
  pub permissions : MemoryPermissions

-- `struct RegionManager<MAX>`.
pub record RegionManager : Type 0 where
  pub regions : List OwnedRegion
  pub count : ℕ
  pub next_id : ℕ

pub new : ℕ → RegionManager
new max = record { regions = replicate max empty_region; count = 0; next_id = 1 }

abbrev pub region : RegionManager → ℕ → OwnedRegion
region m i = get_or m.regions i empty_region

-- `a < d && c < b`: the ranges from `a` to `b` and from `c` to `d` meet.
abbrev pub meets : ℕ → ℕ → ℕ → ℕ → Bool
meets a b c d = ltb a d && ltb c b

-- The region that a configuration describes.
abbrev pub configured : RegionConfig → OwnedRegion
configured c = record {
  id = c.id;
  owner = c.owner;
  guest_base = c.guest_base;
  host_base = c.host_base;
  page_count = c.page_count;
  tier = c.tier;
  permissions = c.permissions;
  occupied = true;
}

-- The tests of a new region `r` against one that is there.
abbrev pub guest_conflict : OwnedRegion → OwnedRegion → Bool
guest_conflict r s =
    s.owner == r.owner && meets r.guest_base (guest_end r) s.guest_base (guest_end s)

abbrev pub host_conflict : OwnedRegion → OwnedRegion → Bool
host_conflict r s = meets r.host_base (host_end r) s.host_base (host_end s)

-- The loop of `create` over the slots from `i` on: the first free slot, or an overlap.
pub scan : OwnedRegion → List OwnedRegion → ℕ → Option ℕ → RvmResult (Option ℕ)
scan r [] i first_free = ok first_free
scan r (s ∷ ss) i first_free =
    let first_free' : Option ℕ = elim first_free [ none ↦ some i | some j ↦ some j ] in
    let skip = scan r ss (i + 1) first_free' in
    let next = scan r ss (i + 1) first_free in
    if not s.occupied
    then skip
    else if guest_conflict r s || host_conflict r s
    then err memory_overlap
    else next

pub create : RegionManager → RegionConfig → RegionManager × RvmResult ℕ
create m c =
    if not (is_page_aligned c.guest_base)
    then (m, err alignment_error)
    else if not (is_page_aligned c.host_base)
    then (m, err alignment_error)
    else if c.page_count == 0
    then (m, err resource_limit_exceeded)
    else if leb (length m.regions) m.count
    then (m, err resource_limit_exceeded)
    else elim (scan (configured c) m.regions 0 none) [
      | err e ↦ (m, err e)
      | ok none ↦ (m, err resource_limit_exceeded)
      | ok (some i) ↦
          (record m { regions = set m.regions i (configured c); count = m.count + 1 }, ok c.id)
    ]

pub create_auto_id :
    RegionManager → PartitionId → ℕ → ℕ → ℕ → Tier → MemoryPermissions → RegionManager × RvmResult ℕ
unfolding create
create_auto_id m owner guest_base host_base page_count tier permissions =
    create (record m { next_id = wrapping_add64 m.next_id 1 })
      (record {
        id = m.next_id;
        owner = owner;
        guest_base = guest_base;
        host_base = host_base;
        page_count = page_count;
        tier = tier;
        permissions = permissions;
      })

-- `position` of the occupied region with this id, from the slot `i` on.
pub position : List OwnedRegion → ℕ → ℕ → Option ℕ
position [] id i = none
position (r ∷ rs) id i =
    let rest = position rs id (i + 1) in if r.occupied && r.id == id then some i else rest

pub find_slot : RegionManager → ℕ → Option ℕ
unfolding position
find_slot m id = position m.regions id 0

pub destroy : RegionManager → ℕ → RegionManager × RvmResult OwnedRegion
destroy m id = elim (find_slot m id) [
  | none ↦ (m, err partition_not_found)
  | some i ↦ (
    record m { regions = set m.regions i empty_region; count = wrapping_pred64 m.count },
    ok (region m i),
  )
]

-- The loop of `transfer` over the slots from `i` on, the slot `at` passed over.
pub transfer_conflict : OwnedRegion → PartitionId → ℕ → List OwnedRegion → ℕ → Bool
transfer_conflict r new_owner at [] i = false
transfer_conflict r new_owner at (s ∷ ss) i =
    let rest = transfer_conflict r new_owner at ss (i + 1) in
    if i == at || (not s.occupied || not (s.owner == new_owner))
    then rest
    else if meets r.guest_base (guest_end r) s.guest_base (guest_end s)
    then true
    else rest

pub transfer : RegionManager → ℕ → PartitionId → RegionManager × RvmResult (Unit {0})
transfer m id new_owner = elim (find_slot m id) [
  | none ↦ (m, err partition_not_found)
  | some i ↦
      let r : OwnedRegion = region m i in
      if transfer_conflict r new_owner i m.regions 0
      then (m, err memory_overlap)
      else (record m { regions = set m.regions i (record r { owner = new_owner }) }, ok tt)
]

pub get : RegionManager → ℕ → Option OwnedRegion
get m id = Option.map (region m) (find_slot m id)

-- The loop of `translate`.
pub translate_in : List OwnedRegion → PartitionId → ℕ → Option AddressMapping
translate_in [] owner guest = none
translate_in (r ∷ rs) owner guest =
    let rest = translate_in rs owner guest in
    if not r.occupied || not (r.owner == owner)
    then rest
    else if contains_guest r guest
    then some (record {
      guest = guest;
      host = wrapping_add64 r.host_base (guest - r.guest_base);
      permissions = r.permissions;
    })
    else rest

pub translate : RegionManager → PartitionId → ℕ → Option AddressMapping
unfolding translate_in
translate m owner guest = translate_in m.regions owner guest

pub count_for_partition : RegionManager → PartitionId → ℕ
count_for_partition m owner = count_where (λ r. r.occupied && r.owner == owner) m.regions
