-- ===== src/Cap/Table/Handles.antt =====
-- Proofs about crates/rvm-cap/src/table.rs: what handles read after an insertion or a removal.
use rvm.Prelude.{
  ℕ, ◌≤◌, ◌<◌, ◌≡◌, ◌≢◌, ◌%◌, ◌^◌, sym, subst, inl, inr, true, false, ok, u32_max, arith,
  length-set, get_or-set_self, get_or-set_ne, All-get_or,
}
use rvm.Types.{PartitionId}
use rvm.Types.Capability.{CapToken}
use rvm.Cap.Table.{
  CapSlot, CapabilityTable, new_slot, empty_slot, is_valid, slot, invalidate, next_generation,
  insert_slot, insert_derived, lookup, lookup_mut, release_slot, remove,
}
use rvm.Cap.Table.Invariant.{IsTable, Issues, filled, insert_slot-cases}

abbrev Inserted :
    ℕ → CapabilityTable → CapabilityTable → CapToken → PartitionId → ℕ → ℕ → ℕ → ℕ → ℕ → Type 0
Inserted n t t' token owner depth parent badge i g =
    (i < n)
    × (is_valid (slot t i) ≡ false)
    × (g ≡ next_generation (slot t i))
    × (t' ≡ filled t i token owner depth parent badge)

-- What a successful insertion did.
pub insert_slot-inv :
    {n : ℕ} (t t' : CapabilityTable) (token : CapToken) (owner : PartitionId)
    (depth parent badge i g : ℕ)
    → IsTable n t
    → n ≤ u32_max
    → insert_slot t token owner depth parent badge ≡ (t', ok (i, g))
    → Inserted n t t' token owner depth parent badge i g
insert_slot-inv {n} t t' token owner depth parent badge i g h le e =
    elim (insert_slot-cases t token owner depth parent badge h) [
      | inl (j, lt, free, f) ↦
          let at : j % 2 ^ 32 ≡ j = omega arith in
          let same : j ≡ i = ground arith in
          subst (λ k. Inserted n t t' token owner depth parent badge k g) same
            (lt, free, ground arith, ground arith)
      | inr (f, full) ↦ absurd (cc)
    ]

-- Removing a capability frees its slot.
pub remove-inv :
    {n : ℕ} (t t' : CapabilityTable) (i g : ℕ)
    → IsTable n t
    → remove t i g ≡ (t', ok tt)
    → (i < n) × (is_valid (slot t i) ≡ true) × ((slot t i).generation ≡ g) × (t' ≡ release_slot t i)
unfolding remove
remove-inv t t' i g h e = ground arith

pub freed_generation :
    (s : CapSlot)
    → s.generation ≤ u32_max
    → is_valid s ≡ true
    → next_generation (invalidate s) ≢ s.generation
unfolding next_generation invalidate
freed_generation s le v = ground arith

pub slot-release_slot :
    {n : ℕ} (t : CapabilityTable) (i : ℕ)
    → IsTable n t
    → i < n
    → slot (release_slot t i) i ≡ invalidate (slot t i)
unfolding release_slot
slot-release_slot t i h lt = get_or-set_self t.slots i _ empty_slot (omega arith)

pub slot-filled :
    {n : ℕ} (t : CapabilityTable) (i : ℕ) (token : CapToken) (owner : PartitionId)
    (depth parent badge : ℕ)
    → IsTable n t
    → i < n
    → slot (filled t i token owner depth parent badge) i
      ≡ new_slot token (next_generation (slot t i)) owner depth parent badge
slot-filled t i token owner depth parent badge h lt =
    get_or-set_self t.slots i _ empty_slot (omega arith)

-- A derived capability that was inserted is read back, whole, through the handle returned, and
-- every handle into another slot reads as before. The table has at most 2³² - 1 slots.
pub lookup-insert_derived :
    {n : ℕ} (t t' : CapabilityTable) (token : CapToken) (owner : PartitionId)
    (depth parent badge i g : ℕ)
    → IsTable n t
    → n ≤ u32_max
    → insert_derived t token owner depth parent badge ≡ (t', ok (i, g))
    → (lookup t' i g ≡ ok (new_slot token g owner depth parent badge))
      × ((j k : ℕ) → j ≢ i → lookup t' j k ≡ lookup t j k)
unfolding insert_derived lookup
lookup-insert_derived t t' token owner depth parent badge i g h le e =
    let (lt, free, gen, eq) = insert_slot-inv t t' token owner depth parent badge i g h le e in
    let issues = All-get_or Issues t.slots i empty_slot h.issued (omega arith) in
    let s = new_slot token (next_generation (slot t i)) owner depth parent badge in
    rw eq (
      ground (arith, slot-filled t i token owner depth parent badge h lt, length-set t.slots i s),
      λ j k ne. ground (arith, get_or-set_ne t.slots i j s empty_slot, length-set t.slots i s),
    )

-- A write through `lookup_mut` is read back through the same handle, if it keeps the generation.
pub lookup-lookup_mut_self :
    (t : CapabilityTable) (i g : ℕ) (f : CapSlot → CapSlot) (s : CapSlot)
    → (f s).generation ≡ s.generation
    → lookup t i g ≡ ok s
    → lookup (lookup_mut t i g f).0 i g ≡ ok (f s)
unfolding lookup lookup_mut
lookup-lookup_mut_self t i g f s keep e = ground (
  arith,
  get_or-set_self t.slots i (f (slot t i)) empty_slot,
  length-set t.slots i (f (slot t i)),
)

pub lookup-lookup_mut_ne :
    (t : CapabilityTable) (i g : ℕ) (f : CapSlot → CapSlot) (j h : ℕ)
    → i ≢ j
    → lookup (lookup_mut t i g f).0 j h ≡ lookup t j h
unfolding lookup lookup_mut
lookup-lookup_mut_ne t i g f j h ne = ground (
  arith,
  get_or-set_ne t.slots i j (f (slot t i)) empty_slot ne,
  length-set t.slots i (f (slot t i)),
)

-- An insertion takes a slot that no handle reads.
pub insert_derived-apart :
    {n : ℕ} (t t' : CapabilityTable) (token : CapToken) (owner : PartitionId)
    (depth parent badge i g j h : ℕ) (s : CapSlot)
    → IsTable n t
    → n ≤ u32_max
    → insert_derived t token owner depth parent badge ≡ (t', ok (i, g))
    → lookup t j h ≡ ok s
    → j ≢ i
unfolding insert_derived lookup
insert_derived-apart t t' token owner depth parent badge i g j h s v le e r same =
    let free = (insert_slot-inv t t' token owner depth parent badge i g v le e).1 in
    let free' = subst (λ k. is_valid (slot t k) ≡ false) (sym same) free in ground arith
