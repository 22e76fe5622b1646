-- ===== src/Cap/Table.antt =====
-- crates/rvm-cap/src/table.rs: the table of capability slots, with generation counters against
-- stale handles. The array `[CapSlot; N]` is a list of `N` slots.
pub mod Free
pub mod Invariant
pub mod Handles
pub mod Retired
mod Tests
use rvm.Prelude.{
  ℕ, zero, suc, ◌+◌, ◌-◌, ◌%◌, ◌^◌, Bool, not, ◌&&◌, Option, none, some, List, ltb, leb, ◌==◌,
  if◌then◌else◌, ok, err, u32_max, wrapping_add32, wrapping_pred64, length, get_or, set, replicate,
  count_where,
}
use rvm.Types.{PartitionId}
use rvm.Types.Capability.{CapToken, region}
use rvm.Cap.Error.{CapError, CapResult, invalid_handle, stale_handle, table_full}

-- `struct CapSlot`.
pub record CapSlot : Type 0 where
  pub token : CapToken
  pub generation : ℕ
  pub owner : PartitionId
  pub depth : ℕ
  pub parent_index : ℕ
  pub badge : ℕ

-- `CapSlot::empty`.
abbrev pub empty_slot : CapSlot
empty_slot = record {
  token = record { id = 0; cap_type = region; rights = 0; epoch = 0 };
  generation = 0;
  owner = 0;
  depth = 0;
  parent_index = u32_max;
  badge = 0;
}

-- `CapSlot::is_valid`.
abbrev pub is_valid : CapSlot → Bool
is_valid s = not (s.generation == 0)

-- `CapSlot::matches`.
unfoldable pub matches : CapSlot → ℕ → Bool
matches s generation = is_valid s && s.generation == generation

-- The next generation of a freed slot is kept in `parent_index`.
unfoldable pub invalidate : CapSlot → CapSlot
invalidate s =
    let next_gen = wrapping_add32 s.generation 1 in
    let safe_gen = if next_gen == 0 then 1 else next_gen in
    record s { parent_index = safe_gen; generation = 0 }

unfoldable pub next_generation : CapSlot → ℕ
next_generation s =
    if not (s.generation == 0)
    then s.generation
    else if s.parent_index == u32_max
    then 1
    else s.parent_index

-- `struct CapabilityTable<N>`.
pub record CapabilityTable : Type 0 where
  pub slots : List CapSlot
  pub count : ℕ
  pub free_hint : ℕ

-- The constant `N`.
abbrev pub capacity : CapabilityTable → ℕ
capacity t = length t.slots

unfoldable pub new : ℕ → CapabilityTable
new n = record { slots = replicate n empty_slot; count = 0; free_hint = 0 }

pub is_full : CapabilityTable → Bool
is_full t = leb (capacity t) t.count

abbrev pub slot : CapabilityTable → ℕ → CapSlot
slot t i = get_or t.slots i empty_slot

-- The first invalid slot among the `n` slots from `i` on: one of the two loops of `find_free_slot`.
unfoldable pub first_free : List CapSlot → ℕ → ℕ → Option ℕ
first_free slots zero i = none
first_free slots (suc n) i =
    let rest = first_free slots n (i + 1) in
    if is_valid (get_or slots i empty_slot) then rest else some i

unfoldable pub find_free_slot : CapabilityTable → CapabilityTable × CapResult ℕ
find_free_slot t = elim (first_free t.slots (capacity t - t.free_hint) t.free_hint) [
  | some i ↦ (record t { free_hint = i + 1 }, ok i)
  | none ↦ elim (first_free t.slots t.free_hint 0) [
    | some i ↦ (record t { free_hint = i + 1 }, ok i)
    | none ↦ (t, err table_full)
  ]
]

abbrev pub new_slot : CapToken → ℕ → PartitionId → ℕ → ℕ → ℕ → CapSlot
new_slot token generation owner depth parent badge = record {
  token = token;
  generation = generation;
  owner = owner;
  depth = depth;
  parent_index = parent;
  badge = badge;
}

-- The common body of the two insertions, over the slot that each writes.
unfoldable pub insert_slot :
    CapabilityTable → CapToken → PartitionId → ℕ → ℕ → ℕ → CapabilityTable × CapResult (ℕ × ℕ)
insert_slot t token owner depth parent badge =
    let (t', found) = find_free_slot t in
    elim found [
      | err e ↦ (t', err e)
      | ok index ↦
          let generation = next_generation (slot t' index) in
          let s = new_slot token generation owner depth parent badge in
          (
            record t' { slots = set t'.slots index s; count = t'.count + 1 },
            ok (index % 2 ^ 32, generation),
          )
    ]

unfoldable pub insert_root :
    CapabilityTable → CapToken → PartitionId → ℕ → CapabilityTable × CapResult (ℕ × ℕ)
unfolding insert_slot
insert_root t token owner badge = insert_slot t token owner 0 u32_max badge

unfoldable pub insert_derived :
    CapabilityTable → CapToken → PartitionId → ℕ → ℕ → ℕ → CapabilityTable × CapResult (ℕ × ℕ)
unfolding insert_slot
insert_derived t token owner depth parent badge = insert_slot t token owner depth parent badge

unfoldable pub lookup : CapabilityTable → ℕ → ℕ → CapResult CapSlot
lookup t index generation =
    if leb (capacity t) index
    then err invalid_handle
    else if not (is_valid (slot t index))
    then err invalid_handle
    else if not ((slot t index).generation == generation)
    then err stale_handle
    else ok (slot t index)

-- `lookup_mut` and the write through the reference that it returns.
unfoldable pub lookup_mut :
    CapabilityTable → ℕ → ℕ → (CapSlot → CapSlot) → CapabilityTable × CapResult (Unit {0})
lookup_mut t index generation change =
    if leb (capacity t) index
    then (t, err invalid_handle)
    else if not (is_valid (slot t index))
    then (t, err invalid_handle)
    else if not ((slot t index).generation == generation)
    then (t, err stale_handle)
    else (record t { slots = set t.slots index (change (slot t index)) }, ok tt)

-- The slot is freed, and the search for a free slot starts no later than there.
unfoldable pub release_slot : CapabilityTable → ℕ → CapabilityTable
unfolding invalidate
release_slot t index = record t {
  slots = set t.slots index (invalidate (slot t index));
  count = wrapping_pred64 t.count;
  free_hint = if ltb index t.free_hint then index else t.free_hint;
}

unfoldable pub remove : CapabilityTable → ℕ → ℕ → CapabilityTable × CapResult (Unit {0})
unfolding release_slot
remove t index generation =
    if leb (capacity t) index
    then (t, err invalid_handle)
    else if not (is_valid (slot t index))
    then (t, err invalid_handle)
    else if not ((slot t index).generation == generation)
    then (t, err stale_handle)
    else (release_slot t index, ok tt)

unfoldable pub force_invalidate : CapabilityTable → ℕ → CapabilityTable
unfolding release_slot
force_invalidate t index =
    if ltb index (capacity t) && is_valid (slot t index) then release_slot t index else t
