-- ===== src/Partition/Manager/Moves.antt =====
-- Proofs about crates/rvm-partition/src/manager.rs: the search by id after a write to a slot.
use rvm.Prelude.{
  ℕ, ◌<◌, ◌≡◌, ◌≢◌, ◌⊎◌, ◌∙◌, sym, subst, ap, arith, true, false, inl, inr, Option-cases, Option,
  none, some, List, ◌==◌, if◌then◌else◌, length, get_or, set, get_or-set_self, get_or-set_ne,
  ℕ_discrete,
}
use rvm.Types.{PartitionId}
use rvm.Partition.Manager.{Partition}
use rvm.Partition.Manager.Slots.{IsApart, lookup, lookup-held, lookup-at, lookup-absent, lookup-inv}

id_of : Option Partition → ℕ
id_of none = 0
id_of (some p) = p.id

pub ids_agree : {p q : Partition} → some p ≡ some q → p.id ≡ q.id
unfolding id_of
ids_agree e = ap id_of e

-- What a slot holds after a partition was put into the slot `i`.
pub put-read :
    (xs : List (Option Partition)) (i j : ℕ) (p q : Partition)
    → i < length xs
    → get_or (set xs i (some p)) j none ≡ some q
    → ((i ≡ j) × (p.id ≡ q.id)) ⊎ ((i ≢ j) × (get_or xs j none ≡ some q))
put-read xs i j p q inside at = elim (ℕ_discrete i j) [
  | yes e ↦ inl (
    e,
    ids_agree (
        sym (get_or-set_self xs i (some p) none inside)
        ∙ subst (λ k. get_or (set xs i (some p)) k none ≡ some q) (sym e) at),
  )
  | no ne ↦ inr (ne, sym (get_or-set_ne xs i j (some p) none ne) ∙ at)
]

pub clear-read :
    (xs : List (Option Partition)) (i j : ℕ) (q : Partition)
    → i < length xs
    → get_or (set xs i none) j none ≡ some q
    → (i ≢ j) × (get_or xs j none ≡ some q)
clear-read xs i j q inside at = elim (ℕ_discrete i j) [
  | yes e ↦ absurd (
      ground (
        arith,
        get_or-set_self xs i none none inside,
        subst (λ k. get_or (set xs i none) k none ≡ some q) (sym e) at,
      ))
  | no ne ↦ (ne, sym (get_or-set_ne xs i j none none ne) ∙ at)
]

-- Where two arrays have the same partitions of an id, a search finds the same.
lookup-agree :
    (xs ys : List (Option Partition)) (id : PartitionId)
    → IsApart xs
    → IsApart ys
    → ((k : ℕ) (q : Partition) → q.id ≡ id → get_or xs k none ≡ some q → get_or ys k none ≡ some q)
    → ((k : ℕ) (q : Partition) → q.id ≡ id → get_or ys k none ≡ some q → get_or xs k none ≡ some q)
    → lookup id xs ≡ lookup id ys
lookup-agree xs ys id v w f g = elim (Option-cases (lookup id xs)) [
  | inr (q, e) ↦
      let (k, at, same) = lookup-inv xs id q e in
      e ∙ sym (lookup-at ys k q id w same (f k q same at))
  | inl e ↦
      e
      ∙ sym (
          lookup-absent ys id
            (λ k q at same. absurd (ground (arith, e, lookup-at xs k q id v same (g k q same at)))))
]

-- A partition `p` is put into a slot that has none, or one of the same id.
pub put-IsApart :
    (xs : List (Option Partition)) (i : ℕ) (p : Partition)
    → IsApart xs
    → i < length xs
    → ((j : ℕ) (q : Partition) → get_or xs j none ≡ some q → p.id ≡ q.id → i ≡ j)
    → IsApart (set xs i (some p))
put-IsApart xs i p v inside h j k q r at at' e = elim (put-read xs i j p q inside at) [
  | inl (ij, eq) ↦ elim (put-read xs i k p r inside at') [
    | inl (ik, er) ↦ omega (arith, ij, ik)
    | inr (ik, there) ↦ omega (arith, ij, h k r there (eq ∙ e))
  ]
  | inr (ij, here) ↦ elim (put-read xs i k p r inside at') [
    | inl (ik, er) ↦ omega (arith, ik, h j q here (er ∙ sym e))
    | inr (ik, there) ↦ v j k q r here there e
  ]
]

pub put-lookup :
    (xs : List (Option Partition)) (i : ℕ) (p : Partition)
    → IsApart xs
    → i < length xs
    → ((j : ℕ) (q : Partition) → get_or xs j none ≡ some q → p.id ≡ q.id → i ≡ j)
    → ((q : Partition) → get_or xs i none ≡ some q → q.id ≡ p.id)
    → (id : PartitionId)
    → lookup id (set xs i (some p)) ≡ (if id == p.id then some p else lookup id xs)
put-lookup xs i p v inside h old id =
    let w = put-IsApart xs i p v inside h in
    elim (ℕ_discrete id p.id) [
      | yes e ↦
          let hit : id == p.id ≡ true = ground (arith, e) in
          rw hit (
            rw e
              (lookup-held (set xs i (some p)) i p w (get_or-set_self xs i (some p) none inside)))
      | no ne ↦
          let miss : id == p.id ≡ false = ground (arith, ne) in
          rw miss (
            lookup-agree (set xs i (some p)) xs id w v
              (λ k q same at. elim (put-read xs i k p q inside at) [
                | inl (_, e) ↦ absurd (ne (sym (e ∙ same)))
                | inr (_, there) ↦ there
              ])
              (λ k q same at.
                get_or-set_ne xs i k (some p) none
                  (λ e. ne (sym same ∙ old q (subst (λ j. get_or xs j none ≡ some q) (sym e) at)))
                ∙ at))
    ]

-- A slot is emptied.
pub clear-IsApart :
    (xs : List (Option Partition)) (i : ℕ) → IsApart xs → i < length xs → IsApart (set xs i none)
clear-IsApart xs i v inside j k q r at at' e =
    v j k q r (clear-read xs i j q inside at).1 (clear-read xs i k r inside at').1 e

pub clear-lookup :
    (xs : List (Option Partition)) (i : ℕ) (p : Partition)
    → IsApart xs
    → i < length xs
    → get_or xs i none ≡ some p
    → (id : PartitionId) → lookup id (set xs i none) ≡ (if id == p.id then none else lookup id xs)
clear-lookup xs i p v inside at id =
    let w = clear-IsApart xs i v inside in
    elim (ℕ_discrete id p.id) [
      | yes e ↦
          let hit : id == p.id ≡ true = ground (arith, e) in
          rw hit (
            lookup-absent (set xs i none) id (λ k q there same.
              let (ik, before) = clear-read xs i k q inside there in
              ik (v i k p q at before (sym e ∙ sym same))))
      | no ne ↦
          let miss : id == p.id ≡ false = ground (arith, ne) in
          rw miss (
            lookup-agree (set xs i none) xs id w v
              (λ k q same there. (clear-read xs i k q inside there).1)
              (λ k q same there.
                get_or-set_ne xs i k none none (λ e.
                  ne (
                    sym same ∙ ids_agree (sym there ∙ subst (λ j. get_or xs j none ≡ some p) e at)))
                ∙ there))
    ]
