-- ===== src/Partition/Manager/Slots.antt =====
-- Proofs about crates/rvm-partition/src/manager.rs: the partition that an id has, whatever the index
-- says.
use rvm.Prelude.{
  ℕ, zero, suc, ◌<◌, ◌≡◌, ◌≢◌, ◌∙◌, refl, sym, subst, arith, true, false, inl, inr, Bool-cases,
  Option-cases, Option, none, some, List, [], ◌∷◌, ltb, ◌==◌, length, get_or, first_where,
  first_where-some, first_where-none, find_some, find_some-at, find_some-nowhere,
}
use rvm.Types.{PartitionId}
use rvm.Partition.Manager.{Partition, PartitionManager, id_index_size, has_id, get, get_mut}

-- No two slots have partitions of one id.
abbrev pub IsApart : List (Option Partition) → Type 0
IsApart xs =
    (i j : ℕ) (p q : Partition)
    → get_or xs i none ≡ some p
    → get_or xs j none ≡ some q
    → p.id ≡ q.id
    → i ≡ j

abbrev pub lookup : PartitionId → List (Option Partition) → Option Partition
lookup id xs = find_some (λ p. p.id == id) xs

pub inside_of_some :
    (xs : List (Option Partition)) (i : ℕ) (p : Partition)
    → get_or xs i none ≡ some p
    → i < length xs
inside_of_some [] i p e = absurd (ground (arith, e))
inside_of_some (x ∷ xs) zero p e = omega arith
inside_of_some (x ∷ xs) (suc i) p e = omega (arith, inside_of_some xs i p e)

-- A test by id on a slot.
has_id-cases :
    (id : PartitionId) (s : Option Partition)
    → has_id id s ≡ true
    → (p : Partition) × (s ≡ some p) × (p.id ≡ id)
has_id-cases id none e = absurd (ground (arith, e))
has_id-cases id (some p) e = (p, refl, ground arith)

has_no_id :
    (id : PartitionId) (s : Option Partition)
    → ((p : Partition) → s ≡ some p → p.id ≢ id)
    → has_id id s ≡ false
has_no_id id none h = refl
has_no_id id (some p) h = ground (arith, h p refl)

pub lookup-held :
    (xs : List (Option Partition)) (i : ℕ) (p : Partition)
    → IsApart xs
    → get_or xs i none ≡ some p
    → lookup p.id xs ≡ some p
lookup-held xs i p v e =
    find_some-at (λ q. q.id == p.id) xs i (inside_of_some xs i p e) (rw e (ground arith))
      (λ j lt.
        has_no_id p.id (get_or xs j none)
          (λ q at same. absurd (omega (arith, lt, v j i q p at e same))))
    ∙ e

pub lookup-at :
    (xs : List (Option Partition)) (i : ℕ) (p : Partition) (id : PartitionId)
    → IsApart xs
    → p.id ≡ id
    → get_or xs i none ≡ some p
    → lookup id xs ≡ some p
lookup-at xs i p id v same e = subst (λ x. lookup x xs ≡ some p) same (lookup-held xs i p v e)

pub lookup-absent :
    (xs : List (Option Partition)) (id : PartitionId)
    → ((i : ℕ) (p : Partition) → get_or xs i none ≡ some p → p.id ≢ id)
    → lookup id xs ≡ none
lookup-absent xs id h =
    find_some-nowhere (λ q. q.id == id) xs (λ j lt. has_no_id id (get_or xs j none) (h j))

pub lookup-inv :
    (xs : List (Option Partition)) (id : PartitionId) (p : Partition)
    → lookup id xs ≡ some p
    → (i : ℕ) × (get_or xs i none ≡ some p) × (p.id ≡ id)
lookup-inv [] id p e = absurd (ground (arith, e))
lookup-inv (none ∷ xs) id p e = let (i, at, same) = lookup-inv xs id p e in (suc i, at, same)
lookup-inv (some y ∷ xs) id p e = elim (Bool-cases (y.id == id)) [
  | inl t ↦
      let here : some y ≡ some p = ground (arith, e, t) in
      let found : has_id id (some p) ≡ true = subst (λ s. has_id id s ≡ true) here t in
      (0, here, ground (arith, found))
  | inr f ↦ let (i, at, same) = lookup-inv xs id p (ground (arith, e, f)) in (suc i, at, same)
]

-- The slot that a search by id finds.
pub first-has_id :
    (xs : List (Option Partition)) (id : PartitionId) (i : ℕ)
    → first_where (has_id id) xs 0 ≡ some i
    → (p : Partition) × (get_or xs i none ≡ some p) × (p.id ≡ id)
first-has_id xs id i e =
    let (j, at, lt, t) = first_where-some (has_id id) xs 0 i none e in
    let same : j ≡ i = omega (arith, at) in has_id-cases id (get_or xs i none) (rw (sym same) t)

pub nowhere-has_id :
    (xs : List (Option Partition)) (id : PartitionId)
    → first_where (has_id id) xs 0 ≡ none
    → lookup id xs ≡ none
nowhere-has_id xs id e =
    find_some-nowhere (λ q. q.id == id) xs (first_where-none (has_id id) xs 0 none e)

-- The index gives what a search would.
pub get-lookup :
    (m : PartitionManager) (id : PartitionId)
    → IsApart m.partitions
    → get m id ≡ lookup id m.partitions
unfolding get
get-lookup m id v = elim (Bool-cases (ltb id id_index_size)) [
  | inr far ↦ rw (get, far) refl
  | inl near ↦ elim (Option-cases (get_or m.id_to_slot id none)) [
    | inl e ↦ rw (get, near, e) refl
    | inr (i, e) ↦ elim (Bool-cases (has_id id (get_or m.partitions i none))) [
      | inr stale ↦ rw (get, near, e, stale) refl
      | inl hit ↦
          let (p, at, same) = has_id-cases id (get_or m.partitions i none) hit in
          rw (get, near, e, hit) (rw (at, sym same) (sym (lookup-held m.partitions i p v at)))
    ]
  ]
]

-- `get_mut` gives a slot that has the id, if one has.
pub get_mut-some :
    (m : PartitionManager) (id : PartitionId) (i : ℕ)
    → get_mut m id ≡ some i
    → (p : Partition) × (get_or m.partitions i none ≡ some p) × (p.id ≡ id)
unfolding get_mut
get_mut-some m id i e = elim (Bool-cases (ltb id id_index_size)) [
  | inr far ↦ first-has_id m.partitions id i (ground (arith, e, far))
  | inl near ↦ elim (Option-cases (get_or m.id_to_slot id none)) [
    | inl empty ↦ first-has_id m.partitions id i (ground (arith, e, near, empty))
    | inr (k, entry) ↦ elim (Bool-cases (has_id id (get_or m.partitions k none))) [
      | inr stale ↦ first-has_id m.partitions id i (ground (arith, e, near, entry, stale))
      | inl hit ↦
          let same : k ≡ i = ground (arith, e, near, entry, hit) in
          has_id-cases id (get_or m.partitions i none)
            (subst (λ j. has_id id (get_or m.partitions j none) ≡ true) same hit)
    ]
  ]
]

pub get_mut-none :
    (m : PartitionManager) (id : PartitionId) → get_mut m id ≡ none → lookup id m.partitions ≡ none
unfolding get_mut
get_mut-none m id e = nowhere-has_id m.partitions id (ground (arith, e))
