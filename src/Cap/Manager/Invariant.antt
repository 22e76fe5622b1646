-- ===== src/Cap/Manager/Invariant.antt =====
-- The invariant of the manager of crates/rvm-cap/src/manager.rs: the count of the table, the
-- depths of its slots, and their ids.
use rvm.Prelude.{
  ℕ, ◌≤◌, ◌<◌, ◌≡◌, refl, List, [], ◌∷◌, arith, All, All-set, All-get_or, All-replicate, inl, inr,
}
use rvm.Types.{PartitionId}
use rvm.Types.Capability.{CapToken, Bitflags}
use rvm.Cap.Table.{
  CapSlot, CapabilityTable, empty_slot, slot, lookup_mut, release_slot, force_invalidate,
  invalidate, insert_slot, insert_root, insert_derived, new_slot,
}
use rvm.Cap.Table
use rvm.Cap.Table.Invariant.{
  IsTable, new-IsTable, insert_slot-IsTable, insert_slot-cases, lookup_mut-IsTable,
  force_invalidate-IsTable,
}
use rvm.Cap.Derivation.{force_all}
use rvm.Cap.Manager.{CapabilityManager, CapManagerConfig, new, spend}

-- A slot within the depth limit, with an id below `next`.
abbrev pub Fits : ℕ → ℕ → CapSlot → Type 0
Fits limit next s = (s.depth ≤ limit) × (s.token.id < next)

pub record IsManager (n limit : ℕ) (m : CapabilityManager) : Type 0 where
  pub table_valid : IsTable n m.table
  pub limited : m.grant_policy.max_depth ≡ limit
  pub fits : All (Fits limit m.next_id) m.table.slots

-- The part of the invariant that is about the table.
abbrev pub Holds : ℕ → ℕ → ℕ → CapabilityTable → Type 0
Holds n limit next t = IsTable n t × All (Fits limit next) t.slots

pub Fits-later :
    (limit next next' : ℕ) (slots : List CapSlot)
    → next ≤ next'
    → All (Fits limit next) slots
    → All (Fits limit next') slots
Fits-later limit next next' [] h a = tt
Fits-later limit next next' (s ∷ slots) h a =
    ((a.0.0, omega (arith, a.0.1)), Fits-later limit next next' slots h a.1)

pub insert_slot-Holds :
    {n : ℕ} (limit next : ℕ) (t : CapabilityTable) (token : CapToken) (owner : PartitionId)
    (depth parent badge : ℕ)
    → Holds n limit next t
    → depth ≤ limit
    → token.id < next
    → Holds n limit next (insert_slot t token owner depth parent badge).0
insert_slot-Holds limit next t token owner depth parent badge h le lt = (
  insert_slot-IsTable t token owner depth parent badge h.0,
  elim (insert_slot-cases t token owner depth parent badge h.0) [
    | inl (i, inside, free, e) ↦ rw e (
        All-set (Fits limit next) t.slots i (new_slot token _ owner depth parent badge) h.1
          (le, lt))
    | inr (e, full) ↦ rw e h.1
  ],
)

invalidate-Fits :
    (limit next : ℕ) (s : CapSlot) → Fits limit next s → Fits limit next (invalidate s)
unfolding invalidate
invalidate-Fits limit next s h = h

pub force_invalidate-Holds :
    {n : ℕ} (limit next : ℕ) (t : CapabilityTable) (i : ℕ)
    → Holds n limit next t
    → Holds n limit next (force_invalidate t i)
unfolding force_invalidate release_slot
force_invalidate-Holds limit next t i h = (
  force_invalidate-IsTable t i h.0,
  ground (
    arith,
    h.1,
    All-set (Fits limit next) t.slots i (invalidate (slot t i)) h.1,
    invalidate-Fits limit next (slot t i),
    All-get_or (Fits limit next) t.slots i empty_slot h.1,
  ),
)

pub lookup_mut-Holds :
    ⦃f : Bitflags⦄ {n : ℕ} (limit next : ℕ) (t : CapabilityTable) (i g : ℕ)
    → Holds n limit next t
    → Holds n limit next (lookup_mut t i g spend).0
unfolding lookup_mut
lookup_mut-Holds limit next t i g h = (
  lookup_mut-IsTable t i g spend (λ s. refl) (λ s. refl) h.0,
  ground (
    arith,
    h.1,
    All-set (Fits limit next) t.slots i (spend (slot t i)) h.1,
    All-get_or (Fits limit next) t.slots i empty_slot h.1,
  ),
)

pub force_all-Holds :
    {n : ℕ} (limit next : ℕ) (t : CapabilityTable) (is : List ℕ)
    → Holds n limit next t
    → Holds n limit next (force_all t is)
unfolding force_all
force_all-Holds limit next t [] h = h
force_all-Holds limit next t (i ∷ is) h =
    force_all-Holds limit next (force_invalidate t i) is (force_invalidate-Holds limit next t i h)

pub new-IsManager : (n : ℕ) (c : CapManagerConfig) → IsManager n c.max_delegation_depth (new n c)
unfolding new Table.new
new-IsManager n c = record {
  table_valid = new-IsTable n;
  limited = refl;
  fits = All-replicate (Fits c.max_delegation_depth 1) n empty_slot (omega arith);
}
