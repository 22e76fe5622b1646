-- ===== src/Memory/Region/Isolation.antt =====
-- The invariant of the region manager of crates/rvm-memory/src/region.rs: which regions may
-- share addresses. The loops of the manager, as statements over every slot.
use rvm.Prelude.{
  ℕ, zero, suc, ◌+◌, ◌≤◌, ◌<◌, ◌≡◌, ◌≢◌, ◌⊎◌, inl, inr, true, false, ◌&&◌, ◌||◌, Option, none, some,
  List, [], ◌∷◌, wrapping_add64, Bool-cases, ◌==◌, ok, arith, u64_max, length, get_or,
}
use rvm.Types.{PartitionId}
use rvm.Memory.Region.{
  OwnedRegion, empty_region, size_bytes, guest_end, meets, guest_conflict, host_conflict, scan,
  position, transfer_conflict,
}

-- The ends of the region are `u64`s, so that they do not wrap.
abbrev pub Bounded : OwnedRegion → Type 0
Bounded r = (r.guest_base + size_bytes r ≤ u64_max) × (r.host_base + size_bytes r ≤ u64_max)

-- Two ranges from a base, of a size.
abbrev pub Disjoint : ℕ → ℕ → ℕ → ℕ → Type 0
Disjoint a n b k = (a + n ≤ b) ⊎ (b + k ≤ a)

abbrev pub Apart : OwnedRegion → OwnedRegion → Type 0
Apart r s =
    r.occupied ≡ true
    → s.occupied ≡ true
    → Disjoint r.host_base (size_bytes r) s.host_base (size_bytes s)
      × (r.owner ≡ s.owner → Disjoint r.guest_base (size_bytes r) s.guest_base (size_bytes s))

abbrev pub at_slot : List OwnedRegion → ℕ → OwnedRegion
at_slot rs i = get_or rs i empty_region

pub record IsIsolated (rs : List OwnedRegion) : Type 0 where
  pub bounded : (i : ℕ) → (at_slot rs i).occupied ≡ true → Bounded (at_slot rs i)
  pub apart : (i j : ℕ) → i ≢ j → Apart (at_slot rs i) (at_slot rs j)

-- Ranges that do not wrap and do not meet are disjoint.
pub Disjoint-of_meets :
    (a n b k : ℕ)
    → a + n ≤ u64_max
    → b + k ≤ u64_max
    → meets a (wrapping_add64 a n) b (wrapping_add64 b k) ≡ false
    → Disjoint a n b k
Disjoint-of_meets a n b k p q h = ground (arith, no_wrap a n p, no_wrap b k q)
  where
    no_wrap : (x y : ℕ) → x + y ≤ u64_max → wrapping_add64 x y ≡ x + y
    no_wrap x y l = omega arith

-- A scan that does not fail has met no occupied region in conflict,
pub scan-clear :
    (r : OwnedRegion) (ss : List OwnedRegion) (i j : ℕ) (first found : Option ℕ)
    → scan r ss i first ≡ ok found
    → (get_or ss j empty_region).occupied ≡ true
    → (guest_conflict r (get_or ss j empty_region) || host_conflict r (get_or ss j empty_region))
      ≡ false
unfolding scan
scan-clear r [] i j first found e o = absurd (cc)
scan-clear r (s ∷ ss) i zero first found e o = ground arith
scan-clear r (s ∷ ss) i (suc j) first found e o =
    let first' : Option ℕ = elim first [ none ↦ some i | some k ↦ some k ] in
    ground (arith, scan-clear r ss (i + 1) j first found, scan-clear r ss (i + 1) j first' found)

-- and the slot that it returns is a free one.
pub scan-free :
    (r : OwnedRegion) (ss : List OwnedRegion) (i at : ℕ) (first : Option ℕ)
    → scan r ss i first ≡ ok (some at)
    → (first ≡ some at)
      ⊎ ((j : ℕ) × (at ≡ i + j) × (j < length ss) × ((get_or ss j empty_region).occupied ≡ false))
unfolding scan
scan-free r [] i at first e = inl (ground arith)
scan-free r (s ∷ ss) i at none e = elim (Bool-cases s.occupied) [
  | inl o ↦ elim (scan-free r ss (i + 1) at none (ground arith)) [
    | inl f ↦ inl f
    | inr (j, p, q, free) ↦ inr (suc j, omega arith, omega arith, free)
  ]
  | inr o ↦ elim (scan-free r ss (i + 1) at (some i) (ground arith)) [
    | inl f ↦ inr (0, ground arith, omega arith, o)
    | inr (j, p, q, free) ↦ inr (suc j, omega arith, omega arith, free)
  ]
]
scan-free r (s ∷ ss) i at (some k) e = elim (scan-free r ss (i + 1) at (some k) (ground arith)) [
  | inl f ↦ inl f
  | inr (j, p, q, free) ↦ inr (suc j, omega arith, omega arith, free)
]

-- The position of an id is that of an occupied region.
pub position-some :
    (rs : List OwnedRegion) (id i at : ℕ)
    → position rs id i ≡ some at
    → (j : ℕ) × (at ≡ i + j)
      × (j < length rs)
      × ((get_or rs j empty_region).occupied ≡ true)
      × ((get_or rs j empty_region).id ≡ id)
unfolding position
position-some [] id i at e = absurd (cc)
position-some (r ∷ rs) id i at e = elim (Bool-cases (r.occupied && r.id == id)) [
  | inl hit ↦ (0, ground arith, omega arith, ground arith, ground arith)
  | inr miss ↦
      let (j, p, q, o, same) = position-some rs id (i + 1) at (ground arith) in
      (suc j, omega arith, omega arith, o, same)
]

-- A transfer without conflict meets no region of the new owner, the moved one apart.
pub transfer_conflict-clear :
    (r : OwnedRegion) (owner : PartitionId) (at : ℕ) (ss : List OwnedRegion) (i j : ℕ)
    → transfer_conflict r owner at ss i ≡ false
    → i + j ≢ at
    → (get_or ss j empty_region).occupied ≡ true
    → (get_or ss j empty_region).owner ≡ owner
    → let s = get_or ss j empty_region in
      meets r.guest_base (guest_end r) s.guest_base (guest_end s) ≡ false
unfolding transfer_conflict
transfer_conflict-clear r owner at [] i j e ne o w = absurd (cc)
transfer_conflict-clear r owner at (s ∷ ss) i zero e ne o w =
    let away : i ≢ at = λ q. ne (omega arith) in ground (arith, away)
transfer_conflict-clear r owner at (s ∷ ss) i (suc j) e ne o w =
    let away : (i + 1) + j ≢ at = λ q. ne (omega arith) in
    transfer_conflict-clear r owner at ss (i + 1) j (ground arith) away o w
