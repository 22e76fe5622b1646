-- ===== src/Cap/Table/Invariant.antt =====
-- The invariant of the table of crates/rvm-cap/src/table.rs: its count, its hint and its
-- generations.
use rvm.Prelude.{
  ℕ, ◌+◌, ◌≤◌, ◌<◌, ◌≡◌, ◌⊎◌, ◌%◌, ◌^◌, ok, err, All, All-set, All-get_or, All-replicate, ◌∙◌, refl,
  sym, inl, inr, true, false, arith, length, set, count_where, count_where-set,
  count_where-replicate, length-set, length-replicate,
}
use rvm.Cap.Error.{table_full}
use rvm.Types.{PartitionId}
use rvm.Types.Capability.{CapToken}
use rvm.Cap.Table.{
  CapSlot, CapabilityTable, new_slot, empty_slot, is_valid, slot, new, invalidate, next_generation,
  insert_slot, lookup_mut, release_slot, remove, force_invalidate,
}
use rvm.Cap.Table.Free.{find_free_slot-cases}

-- The next capability in the slot gets a generation that marks it valid.
abbrev pub Issues : CapSlot → Type 0
Issues s = 0 < next_generation s

-- A table of `n` slots.
pub record IsTable (n : ℕ) (t : CapabilityTable) : Type 0 where
  pub sized : length t.slots ≡ n
  pub counted : t.count ≡ count_where is_valid t.slots
  pub hinted : t.free_hint ≤ n
  pub issued : All Issues t.slots

pub invalidate-invalid : (s : CapSlot) → is_valid (invalidate s) ≡ false
unfolding invalidate
invalidate-invalid s = refl

invalidate-Issues : (s : CapSlot) → Issues (invalidate s)
unfolding invalidate next_generation
invalidate-Issues s = ground arith

pub next_generation-pos : (s : CapSlot) → is_valid s ≡ true → Issues s
unfolding next_generation
next_generation-pos s v = ground arith

-- A change that keeps the generation and the parent keeps what the slot issues.
Issues-kept :
    (s s' : CapSlot)
    → s'.generation ≡ s.generation
    → s'.parent_index ≡ s.parent_index
    → Issues s
    → Issues s'
unfolding next_generation
Issues-kept s s' g p h = ground arith

pub new-IsTable : (n : ℕ) → IsTable n (new n)
unfolding new next_generation
new-IsTable n = record {
  sized = length-replicate n empty_slot;
  counted = sym (count_where-replicate is_valid n empty_slot refl);
  hinted = omega arith;
  issued = All-replicate Issues n empty_slot (omega arith);
}

-- A write that leaves the validity of the slot as it was keeps the invariant.
write-IsTable :
    {n : ℕ} (t : CapabilityTable) (i : ℕ) (s : CapSlot)
    → IsTable n t
    → i < n
    → is_valid s ≡ is_valid (slot t i)
    → Issues s
    → IsTable n (record t { slots = set t.slots i s })
write-IsTable t i s h lt e g = record {
  sized = length-set t.slots i s ∙ h.sized;
  counted = ground (arith, count_where-set is_valid t.slots i s empty_slot);
  hinted = h.hinted;
  issued = All-set Issues t.slots i s h.issued g;
}

fill-IsTable :
    {n : ℕ} (t : CapabilityTable) (i hint : ℕ) (s : CapSlot)
    → IsTable n t
    → i < n
    → hint ≤ n
    → is_valid (slot t i) ≡ false
    → is_valid s ≡ true
    → IsTable n (record t { slots = set t.slots i s; count = t.count + 1; free_hint = hint })
fill-IsTable t i hint s h lt le e v = record {
  sized = length-set t.slots i s ∙ h.sized;
  counted = ground (arith, count_where-set is_valid t.slots i s empty_slot);
  hinted = le;
  issued = All-set Issues t.slots i s h.issued (next_generation-pos s v);
}

release_slot-IsTable :
    {n : ℕ} (t : CapabilityTable) (i : ℕ)
    → IsTable n t
    → i < n
    → is_valid (slot t i) ≡ true
    → IsTable n (release_slot t i)
unfolding release_slot
release_slot-IsTable t i h lt e = record {
  sized = length-set t.slots i _ ∙ h.sized;
  counted = ground (
    arith,
    count_where-set is_valid t.slots i (invalidate (slot t i)) empty_slot,
    invalidate-invalid (slot t i),
  );
  hinted = ground arith;
  issued = All-set Issues t.slots i (invalidate (slot t i)) h.issued (invalidate-Issues (slot t i));
}

pub remove-IsTable :
    {n : ℕ} (t : CapabilityTable) (i g : ℕ) → IsTable n t → IsTable n (remove t i g).0
unfolding remove
remove-IsTable t i g h = ground (arith, release_slot-IsTable t i h)

pub force_invalidate-IsTable :
    {n : ℕ} (t : CapabilityTable) (i : ℕ) → IsTable n t → IsTable n (force_invalidate t i)
unfolding force_invalidate
force_invalidate-IsTable t i h = ground (arith, release_slot-IsTable t i h)

pub lookup_mut-IsTable :
    {n : ℕ} (t : CapabilityTable) (i g : ℕ) (f : CapSlot → CapSlot)
    → ((s : CapSlot) → (f s).generation ≡ s.generation)
    → ((s : CapSlot) → (f s).parent_index ≡ s.parent_index)
    → IsTable n t
    → IsTable n (lookup_mut t i g f).0
unfolding lookup_mut
lookup_mut-IsTable t i g f keep kept h = ground (
  arith,
  keep (slot t i),
  kept (slot t i),
  next_generation-pos (f (slot t i)),
  write-IsTable t i (f (slot t i)) h,
)

-- What an insertion into the free slot `i` leaves.
abbrev pub filled : CapabilityTable → ℕ → CapToken → PartitionId → ℕ → ℕ → ℕ → CapabilityTable
filled t i token owner depth parent badge = record t {
  slots = set t.slots i (new_slot token (next_generation (slot t i)) owner depth parent badge);
  count = t.count + 1;
  free_hint = i + 1;
}

-- An insertion fills a free slot, or fails with `TableFull` on a full table, unchanged.
pub insert_slot-cases :
    {n : ℕ} (t : CapabilityTable) (token : CapToken) (owner : PartitionId) (depth parent badge : ℕ)
    → IsTable n t
    → ((i : ℕ) × (i < n)
        × (is_valid (slot t i) ≡ false)
        × (insert_slot t token owner depth parent badge ≡ (
          filled t i token owner depth parent badge,
          ok (i % 2 ^ 32, next_generation (slot t i)),
        )))
      ⊎ ((insert_slot t token owner depth parent badge ≡ (t, err table_full))
          × ((j : ℕ) → j < n → is_valid (slot t j) ≡ true))
unfolding insert_slot
insert_slot-cases t token owner depth parent badge h = elim (find_free_slot-cases t (omega arith)) [
  | inl (i, lt, free, e) ↦ inl (i, omega arith, free, rw (e, insert_slot) (rw e))
  | inr (e, full) ↦ inr (rw (e, insert_slot) (rw e), λ j l. full j (omega arith))
]

pub filled-IsTable :
    {n : ℕ} (t : CapabilityTable) (i : ℕ) (token : CapToken) (owner : PartitionId)
    (depth parent badge : ℕ)
    → IsTable n t
    → i < n
    → is_valid (slot t i) ≡ false
    → IsTable n (filled t i token owner depth parent badge)
filled-IsTable t i token owner depth parent badge h lt free =
    let g = All-get_or Issues t.slots i empty_slot h.issued (omega arith) in
    fill-IsTable t i (i + 1) _ h lt (omega arith) free (ground arith)

pub insert_slot-IsTable :
    {n : ℕ} (t : CapabilityTable) (token : CapToken) (owner : PartitionId) (depth parent badge : ℕ)
    → IsTable n t
    → IsTable n (insert_slot t token owner depth parent badge).0
insert_slot-IsTable t token owner depth parent badge h =
    elim (insert_slot-cases t token owner depth parent badge h) [
      | inl (i, lt, free, e) ↦ rw e (filled-IsTable t i token owner depth parent badge h lt free)
      | inr (e, full) ↦ rw e h
    ]
