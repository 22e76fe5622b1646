-- ===== src/Cap/Table/Retired.antt =====
-- Proofs about crates/rvm-cap/src/table.rs: the handle of a capability that was removed.
use rvm.Prelude.{
  ℕ, ◌≤◌, ◌<◌, ◌≡◌, ◌≢◌, ◌⊎◌, ap, subst, Bool-cases, leb, length, get_or, set, All-get_or, ◌==◌,
  ℕ_discrete, inl, inr, true, false, ok, err, sym, u32_max, arith, get_or-set_self, get_or-set_ne,
  if◌then◌else◌,
}
use rvm.Cap.Error.{invalid_handle, stale_handle}
use rvm.Types.{PartitionId}
use rvm.Types.Capability.{CapToken}
use rvm.Cap.Table.{
  CapSlot, CapabilityTable, capacity, new_slot, empty_slot, is_valid, slot, invalidate,
  next_generation, insert_slot, insert_root, insert_derived, lookup, lookup_mut, release_slot,
  remove, force_invalidate,
}
use rvm.Cap.Table.Invariant.{
  IsTable, Issues, filled, insert_slot-cases, insert_slot-IsTable, remove-IsTable,
  lookup_mut-IsTable, force_invalidate-IsTable, invalidate-invalid,
}
use rvm.Cap.Table.Handles.{remove-inv, freed_generation, slot-release_slot, slot-filled}

-- The calls that may follow a removal from the slot `i`: insertions into any slot, removals from the
-- other slots, and writes through handles that keep the generation and the parent.
pub data Step (i : ℕ) (t : CapabilityTable) : CapabilityTable → Type 0 where
  inserts_root :
      (token : CapToken) (owner : PartitionId) (badge : ℕ)
      → Step i t (insert_root t token owner badge).0
  inserts_derived :
      (token : CapToken) (owner : PartitionId) (depth parent badge : ℕ)
      → Step i t (insert_derived t token owner depth parent badge).0
  removes : (j g : ℕ) → i ≢ j → Step i t (remove t j g).0
  invalidates : (j : ℕ) → i ≢ j → Step i t (force_invalidate t j)
  writes :
      (j g : ℕ) (f : CapSlot → CapSlot)
      → ((s : CapSlot) → (f s).generation ≡ s.generation)
      → ((s : CapSlot) → (f s).parent_index ≡ s.parent_index)
      → Step i t (lookup_mut t j g f).0

pub data Reach (i : ℕ) (t : CapabilityTable) : CapabilityTable → Type 0 where
  here : Reach i t t
  next : {p q : CapabilityTable} → Reach i t p → Step i p q → Reach i t q

Step-IsTable : {n i : ℕ} {t t' : CapabilityTable} → Step i t t' → IsTable n t → IsTable n t'
unfolding insert_root insert_derived
Step-IsTable {t = t} (inserts_root token owner badge) h =
    insert_slot-IsTable t token owner 0 u32_max badge h
Step-IsTable {t = t} (inserts_derived token owner depth parent badge) h =
    insert_slot-IsTable t token owner depth parent badge h
Step-IsTable {t = t} (removes j g ne) h = remove-IsTable t j g h
Step-IsTable {t = t} (invalidates j ne) h = force_invalidate-IsTable t j h
Step-IsTable {t = t} (writes j g f keep kept) h = lookup_mut-IsTable t j g f keep kept h

-- No handle of the generation `g` reads the slot, nor what is put into it next.
abbrev Retired : ℕ → CapSlot → Type 0
Retired g s =
    ((is_valid s ≡ false) × (next_generation s ≢ g)) ⊎ ((is_valid s ≡ true) × (s.generation ≢ g))

release_slot-ne : (t : CapabilityTable) (i j : ℕ) → i ≢ j → slot (release_slot t j) i ≡ slot t i
unfolding release_slot
release_slot-ne t i j ne =
    get_or-set_ne t.slots j i (invalidate (slot t j)) empty_slot (λ e. ne (sym e))

remove-ne : (t : CapabilityTable) (i j g : ℕ) → i ≢ j → slot (remove t j g).0 i ≡ slot t i
unfolding remove
remove-ne t i j g ne = ground (arith, release_slot-ne t i j ne)

force_invalidate-ne :
    (t : CapabilityTable) (i j : ℕ) → i ≢ j → slot (force_invalidate t j) i ≡ slot t i
unfolding force_invalidate
force_invalidate-ne t i j ne = ground (arith, release_slot-ne t i j ne)

fill-Retired :
    {n : ℕ} (t : CapabilityTable) (i j g : ℕ) (token : CapToken) (owner : PartitionId)
    (depth parent badge : ℕ)
    → IsTable n t
    → j < n
    → is_valid (slot t j) ≡ false
    → Retired g (slot t i)
    → Retired g (slot (filled t j token owner depth parent badge) i)
fill-Retired t i j g token owner depth parent badge h lt free r = elim (ℕ_discrete i j) [
  | no ne ↦
      rw
        (get_or-set_ne t.slots j i
          (new_slot token (next_generation (slot t j)) owner depth parent badge) empty_slot
          (λ e. ne (sym e)))
        r
  | yes same ↦
      let issues = All-get_or Issues t.slots j empty_slot h.issued (omega (arith, h.sized)) in
      subst (λ k. Retired g (slot (filled t j token owner depth parent badge) k)) (sym same)
        (rw (slot-filled t j token owner depth parent badge h lt)
          (elim (subst (λ k. Retired g (slot t k)) same r) [
            | inl (_, fresh) ↦ inr (ground (arith, issues), fresh)
            | inr (valid, _) ↦ absurd (ground (arith, valid, free))
          ]))
]

insert_slot-Retired :
    {n : ℕ} (t : CapabilityTable) (i g : ℕ) (token : CapToken) (owner : PartitionId)
    (depth parent badge : ℕ)
    → IsTable n t
    → Retired g (slot t i)
    → Retired g (slot (insert_slot t token owner depth parent badge).0 i)
insert_slot-Retired t i g token owner depth parent badge h r =
    elim (insert_slot-cases t token owner depth parent badge h) [
      | inr (e, full) ↦ rw e r
      | inl (j, lt, free, e) ↦
          rw e (fill-Retired t i j g token owner depth parent badge h lt free r)
    ]

write-Retired :
    (t : CapabilityTable) (i g j : ℕ) (s : CapSlot)
    → is_valid (slot t j) ≡ true
    → j < length t.slots
    → s.generation ≡ (slot t j).generation
    → Retired g (slot t i)
    → Retired g (get_or (set t.slots j s) i empty_slot)
write-Retired t i g j s valid lt keep r = elim (ℕ_discrete i j) [
  | no ne ↦ rw (get_or-set_ne t.slots j i s empty_slot (λ e. ne (sym e))) r
  | yes same ↦
      subst (λ k. Retired g (get_or (set t.slots j s) k empty_slot)) (sym same)
        (rw (get_or-set_self t.slots j s empty_slot lt)
          (elim (subst (λ k. Retired g (slot t k)) same r) [
            | inl (free, _) ↦ absurd (ground (arith, valid, free))
            | inr (_, other) ↦ inr (rw keep valid, rw keep other)
          ]))
]

lookup_mut-Retired :
    (t : CapabilityTable) (i g j k : ℕ) (f : CapSlot → CapSlot)
    → ((s : CapSlot) → (f s).generation ≡ s.generation)
    → Retired g (slot t i)
    → Retired g (slot (lookup_mut t j k f).0 i)
unfolding lookup_mut
lookup_mut-Retired t i g j k f keep r = elim (Bool-cases (leb (capacity t) j)) [
  | inl outside ↦ rw outside r
  | inr inside ↦ elim (Bool-cases (is_valid (slot t j))) [
    | inr free ↦ rw inside (rw free r)
    | inl valid ↦ elim (Bool-cases ((slot t j).generation == k)) [
      | inr stale ↦ rw inside (rw valid (rw stale r))
      | inl current ↦ rw inside (
          rw valid (
            rw current (
              write-Retired t i g j (f (slot t j)) valid (ground (arith, inside)) (keep (slot t j))
                r)))
    ]
  ]
]

Step-Retired :
    {n i : ℕ} {t t' : CapabilityTable} (g : ℕ)
    → Step i t t'
    → IsTable n t
    → Retired g (slot t i)
    → Retired g (slot t' i)
unfolding insert_root insert_derived
Step-Retired {i = i} {t = t} g (inserts_root token owner badge) h r =
    insert_slot-Retired t i g token owner 0 u32_max badge h r
Step-Retired {i = i} {t = t} g (inserts_derived token owner depth parent badge) h r =
    insert_slot-Retired t i g token owner depth parent badge h r
Step-Retired {i = i} {t = t} g (removes j k ne) h r = rw (remove-ne t i j k ne) r
Step-Retired {i = i} {t = t} g (invalidates j ne) h r = rw (force_invalidate-ne t i j ne) r
Step-Retired {i = i} {t = t} g (writes j k f keep kept) h r = lookup_mut-Retired t i g j k f keep r

Reach-Retired :
    {n i : ℕ} {t t' : CapabilityTable} (g : ℕ)
    → Reach i t t'
    → IsTable n t
    → Retired g (slot t i)
    → IsTable n t' × Retired g (slot t' i)
Reach-Retired g here h r = (h, r)
Reach-Retired g (next s st) h r =
    let (h', r') = Reach-Retired g s h r in (Step-IsTable st h', Step-Retired g st h' r')

-- The handle of a capability that was removed is refused from then on, as stale while its slot is in
-- use again and as invalid while it is not: after any history of insertions, of removals from other
-- slots, and of writes that keep the generation and the parent of a slot. The slot itself is not
-- freed again meanwhile, the generation of the handle is a `u32`, and the table has its invariant
-- when the capability is removed.
pub lookup-remove_dead :
    {n : ℕ} (t t' t'' : CapabilityTable) (i g : ℕ)
    → IsTable n t
    → g ≤ u32_max
    → remove t i g ≡ (t', ok tt)
    → Reach i t' t''
    → lookup t'' i g ≡ err (if is_valid (slot t'' i) then stale_handle else invalid_handle)
unfolding lookup
lookup-remove_dead t t' t'' i g h le e later =
    let (lt, valid, gen, eq) = remove-inv t t' i g h e in
    let h' = subst (IsTable _) (ap (λ p. p.0) e) (remove-IsTable t i g h) in
    let freed : slot t' i ≡ invalidate (slot t i) = rw eq (slot-release_slot t i h lt) in
    let fresh = freed_generation (slot t i) (omega (arith, gen)) valid in
    let retired : Retired g (slot t' i) =
      rw freed (inl (invalidate-invalid (slot t i), rw (sym gen) fresh)) in
    let (h'', r) = Reach-Retired g later h' retired in
    elim r [
      | inl (free, _) ↦ ground (arith, free, lt, h''.sized)
      | inr (used, other) ↦ ground (arith, used, other, lt, h''.sized)
    ]
