-- ===== src/Memory/Region/Changes.antt =====
-- Proofs about `create`, `destroy` and `transfer` of crates/rvm-memory/src/region.rs.
use rvm.Prelude.{
  ℕ, ◌<◌, ◌≡◌, ◌≢◌, sym, subst, ◌⊎◌, inl, inr, true, false, ◌||◌, none, some, List, ok, arith,
  length, set, get_or-set_self, get_or-set_ne, get_or-replicate, ℕ_discrete, Bool-cases,
  Result-cases, Option-cases,
}
use rvm.Types.{PartitionId}
use rvm.Memory.Region.{
  OwnedRegion, RegionConfig, RegionManager, empty_region, configured, region, size_bytes,
  guest_conflict, host_conflict, new, create, destroy, transfer, transfer_conflict, scan, find_slot,
}
use rvm.Memory.Region.Isolation.{
  Bounded, Disjoint, Apart, IsIsolated, at_slot, Disjoint-of_meets, scan-clear, scan-free,
  position-some, transfer_conflict-clear,
}

Disjoint-symm : (a n b k : ℕ) → Disjoint a n b k → Disjoint b k a n
Disjoint-symm a n b k (inl h) = inr h
Disjoint-symm a n b k (inr h) = inl h

Apart-symm : (r s : OwnedRegion) → Apart r s → Apart s r
Apart-symm r s h os or =
    let (host, guest) = h or os in
    (Disjoint-symm _ _ _ _ host, λ e. Disjoint-symm _ _ _ _ (guest (sym e)))

-- A region that is apart from all others may be put into a slot.
set-IsIsolated :
    (rs : List OwnedRegion) (i : ℕ) (v : OwnedRegion)
    → IsIsolated rs
    → i < length rs
    → (v.occupied ≡ true → Bounded v)
    → ((j : ℕ) → i ≢ j → Apart v (at_slot rs j))
    → IsIsolated (set rs i v)
set-IsIsolated rs i v h lt b a = record {
  bounded = λ j. elim (ℕ_discrete i j) [
    | yes e ↦
        subst (λ k. (at_slot (set rs i v) k).occupied ≡ true → Bounded (at_slot (set rs i v) k)) e
          (subst (λ (r : OwnedRegion). r.occupied ≡ true → Bounded r) (sym here) b)
    | no ne ↦
        subst (λ (r : OwnedRegion). r.occupied ≡ true → Bounded r) (sym (there j ne)) (h.bounded j)
  ];
  apart = λ j k ne. elim (ℕ_discrete i j) [
    | yes e ↦
        let ne' : i ≢ k = subst (λ x. x ≢ k) (sym e) ne in
        subst (λ x. Apart (at_slot (set rs i v) x) (at_slot (set rs i v) k)) e
          (rw (here, there k ne') (a k ne'))
    | no nj ↦ elim (ℕ_discrete i k) [
      | yes e ↦
          subst (λ x. Apart (at_slot (set rs i v) j) (at_slot (set rs i v) x)) e
            (rw (here, there j nj) (Apart-symm v (at_slot rs j) (a j nj)))
      | no nk ↦ rw (there j nj, there k nk) (h.apart j k ne)
    ]
  ];
}
  where
    here : at_slot (set rs i v) i ≡ v
    here = get_or-set_self rs i v empty_region lt

    there : (j : ℕ) → i ≢ j → at_slot (set rs i v) j ≡ at_slot rs j
    there j ne = get_or-set_ne rs i j v empty_region ne

pub new-IsIsolated : (max : ℕ) → IsIsolated (new max).regions
unfolding new
new-IsIsolated max = record {
  bounded = λ i o. absurd (vacant i o);
  apart = λ i j ne o p. absurd (vacant i o);
}
  where
    vacant : (i : ℕ) → (at_slot (new max).regions i).occupied ≡ true → ⊥
    vacant i o = ground (arith, get_or-replicate max i empty_region)

configured-Apart :
    (r s : OwnedRegion)
    → Bounded r
    → (s.occupied ≡ true → Bounded s)
    → (s.occupied ≡ true → (guest_conflict r s || host_conflict r s) ≡ false)
    → Apart r s
configured-Apart r s b bs clear or os = (
  Disjoint-of_meets r.host_base (size_bytes r) s.host_base (size_bytes s) b.1 (bs os).1
      (ground (arith, clear os)),
  λ same.
      Disjoint-of_meets r.guest_base (size_bytes r) s.guest_base (size_bytes s) b.0 (bs os).0
        (ground (arith, clear os)),
)

create-regions :
    (m : RegionManager) (c : RegionConfig)
    → ((create m c).0.regions ≡ m.regions)
      ⊎ ((i : ℕ) × (scan (configured c) m.regions 0 none ≡ ok (some i))
          × ((create m c).0.regions ≡ set m.regions i (configured c)))
unfolding create
create-regions m c = elim (Result-cases (scan (configured c) m.regions 0 none)) [
  | inr (x, e) ↦ inl (ground arith)
  | inl (found, e) ↦ elim (Option-cases found) [
    | inl no_slot ↦ inl (ground arith)
    | inr (i, slot) ↦ elim (Result-cases (create m c).1) [
      | inl (id, f) ↦ inr (i, ground arith, ground arith)
      | inr (x, f) ↦ inl (ground arith)
    ]
  ]
]

-- Creating a region, whether it succeeds or is refused, keeps all regions isolated: no two share
-- host memory, and no two of one partition share guest addresses. The ends of the new region are
-- `u64`s.
pub create-IsIsolated :
    (m : RegionManager) (c : RegionConfig)
    → IsIsolated m.regions
    → Bounded (configured c)
    → IsIsolated (create m c).0.regions
create-IsIsolated m c h b = elim (create-regions m c) [
  | inl same ↦ rw same h
  | inr (i, e, eq) ↦ elim (scan-free (configured c) m.regions 0 i none e) [
    | inl f ↦ absurd (cc)
    | inr (j, at, lt, free) ↦ rw eq (
        set-IsIsolated m.regions i (configured c) h (omega arith) (λ o. b)
          (λ k ne.
            configured-Apart (configured c) (at_slot m.regions k) b (h.bounded k)
              (scan-clear (configured c) m.regions 0 k none (some i) e)))
  ]
]

find_slot-some :
    (m : RegionManager) (id i : ℕ)
    → find_slot m id ≡ some i
    → (i < length m.regions) × ((region m i).occupied ≡ true) × ((region m i).id ≡ id)
unfolding find_slot
find_slot-some m id i e =
    let (j, p, q, o, same) = position-some m.regions id 0 i e in
    let at : j ≡ i = omega arith in
    subst (λ k. (k < length m.regions) × ((region m k).occupied ≡ true) × ((region m k).id ≡ id)) at
      (q, o, same)

-- Destroying a region keeps the others isolated.
pub destroy-IsIsolated :
    (m : RegionManager) (id : ℕ) → IsIsolated m.regions → IsIsolated (destroy m id).0.regions
unfolding destroy
destroy-IsIsolated m id h = elim (Option-cases (find_slot m id)) [
  | inl e ↦ rw (e, destroy) h
  | inr (i, e) ↦
      rw (e, destroy)
        (set-IsIsolated m.regions i empty_region h (find_slot-some m id i e).0 (λ o. absurd (cc))
          (λ j ne o. absurd (cc)))
]

-- Handing a region to another partition, whether it succeeds or is refused, keeps all regions
-- isolated, among the regions of the new owner too.
pub transfer-IsIsolated :
    (m : RegionManager) (id : ℕ) (new_owner : PartitionId)
    → IsIsolated m.regions
    → IsIsolated (transfer m id new_owner).0.regions
unfolding transfer
transfer-IsIsolated m id new_owner h = elim (Option-cases (find_slot m id)) [
  | inl e ↦ rw (e, transfer) h
  | inr (i, e) ↦
      let r : OwnedRegion = region m i in
      let (lt, o, same) = find_slot-some m id i e in
      elim (Bool-cases (transfer_conflict r new_owner i m.regions 0)) [
        | inl c ↦ rw (e, transfer) (rw c h)
        | inr c ↦
            rw (e, transfer)
              (rw c (
                set-IsIsolated m.regions i (record r { owner = new_owner }) h lt
                  (λ _. h.bounded i o)
                  (λ j ne or os. (
                    (h.apart i j ne o os).0,
                    λ owners.
                        Disjoint-of_meets r.guest_base (size_bytes r) _ _ (h.bounded i o).0
                          (h.bounded j os).0
                          (transfer_conflict-clear r new_owner i m.regions 0 j c
                            (λ q. ne (omega arith)) os (sym owners)),
                  ))))
      ]
]
