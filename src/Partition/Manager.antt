-- ===== src/Partition/Manager.antt =====
-- crates/rvm-partition/src/manager.rs and partition.rs: `PartitionManager`, with the index by id. The
-- reference that `get_mut` gives is a slot, and a change through it is `update`.
pub mod Slots
pub mod Moves
pub mod Directory
pub mod Refinement
mod Tests
use rvm.Prelude.{
  ℕ, ◌+◌, ◌%◌, ◌^◌, Bool, Option, none, some, List, ltb, leb, ◌==◌, if◌then◌else◌, ok, err, u8_max,
  u64_max, wrapping_add32, wrapping_pred64, is_none, is_some_and, get_or, set, replicate,
  first_where, find_some,
}
use rvm.Types.{
  PartitionId, RvmResult, partition_limit_exceeded, partition_not_found, internal_error,
}

abbrev pub max_partitions : ℕ
max_partitions = 256

abbrev pub id_index_size : ℕ
id_index_size = 4096

-- `enum PartitionState`.
pub data PartitionState : Type 0 where
  created running suspended destroyed hibernated : PartitionState

-- `enum PartitionType`.
pub data PartitionType : Type 0 where
  agent infrastructure root : PartitionType

-- `struct Partition`; a score and a pressure are their numbers.
pub record Partition : Type 0 where
  pub id : PartitionId
  pub state : PartitionState
  pub partition_type : PartitionType
  pub coherence : ℕ
  pub cut_pressure : ℕ
  pub vcpu_count : ℕ
  pub cpu_affinity : ℕ
  pub epoch : ℕ

-- `Partition::new`.
abbrev pub new_partition : PartitionId → PartitionType → ℕ → ℕ → Partition
new_partition id partition_type vcpu_count epoch = record {
  id = id;
  state = created;
  partition_type = partition_type;
  coherence = 5000;
  cut_pressure = 0;
  vcpu_count = vcpu_count;
  cpu_affinity = u64_max;
  epoch = epoch;
}

-- `struct PartitionManager`.
pub record PartitionManager : Type 0 where
  pub partitions : List (Option Partition)
  pub id_to_slot : List (Option ℕ)
  pub count : ℕ
  pub next_id : ℕ

unfoldable pub new : PartitionManager
new = record {
  partitions = replicate max_partitions none;
  id_to_slot = replicate id_index_size none;
  count = 0;
  next_id = 1;
}

abbrev pub has_id : PartitionId → Option Partition → Bool
has_id id s = is_some_and s (λ p. p.id == id)

-- The writes of `create` for the empty slot `i`; `u8::try_from(i).unwrap_or(u8::MAX)` is the entry of
-- the index.
abbrev pub fill : PartitionManager → ℕ → Partition → PartitionManager
fill m i p = record {
  partitions = set m.partitions i (some p);
  id_to_slot =
      if ltb p.id id_index_size
      then set m.id_to_slot p.id (some (if leb i u8_max then i else u8_max))
      else m.id_to_slot;
  count = m.count + 1;
  next_id = wrapping_add32 m.next_id 1;
}

unfoldable pub create :
    PartitionManager → PartitionType → ℕ → ℕ → PartitionManager × RvmResult PartitionId
create m partition_type vcpu_count epoch =
    let p = new_partition m.next_id partition_type vcpu_count epoch in
    if leb max_partitions m.count
    then (m, err partition_limit_exceeded)
    else elim (first_where is_none m.partitions 0) [
      | none ↦ (m, err internal_error)
      | some i ↦ (fill m i p, ok m.next_id)
    ]

unfoldable pub get : PartitionManager → PartitionId → Option Partition
get m id =
    let slow = find_some (λ p. p.id == id) m.partitions in
    if ltb id id_index_size
    then elim (get_or m.id_to_slot id none) [
      | none ↦ slow
      | some i ↦ if has_id id (get_or m.partitions i none) then get_or m.partitions i none else slow
    ]
    else slow

-- The slot whose partition `get_mut` gives.
unfoldable pub get_mut : PartitionManager → PartitionId → Option ℕ
get_mut m id =
    let slow = first_where (has_id id) m.partitions 0 in
    if ltb id id_index_size
    then elim (get_or m.id_to_slot id none) [
      | none ↦ slow
      | some i ↦ if has_id id (get_or m.partitions i none) then some i else slow
    ]
    else slow

-- A change through the reference.
unfoldable pub update : PartitionManager → PartitionId → (Partition → Partition) → PartitionManager
update m id change = elim (get_mut m id) [
  | none ↦ m
  | some i ↦ elim (get_or m.partitions i none) [
    | none ↦ m
    | some p ↦ record m { partitions = set m.partitions i (some (change p)) }
  ]
]

unfoldable pub remove : PartitionManager → PartitionId → PartitionManager × RvmResult (Unit {0})
remove m id = elim (first_where (has_id id) m.partitions 0) [
  | none ↦ (m, err partition_not_found)
  | some i ↦ (
    record m {
      partitions = set m.partitions i none;
      count = wrapping_pred64 m.count;
      id_to_slot = if ltb id id_index_size then set m.id_to_slot id none else m.id_to_slot;
    },
    ok tt,
  )
]
