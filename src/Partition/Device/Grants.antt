-- ===== src/Partition/Device/Grants.antt =====
-- Proofs about crates/rvm-partition/src/device.rs: leases that are granted again.
use rvm.Prelude.{
  vacant_slot, ℕ, zero, suc, ◌^◌, ◌≤◌, ◌<◌, ◌≡◌, ◌∙◌, refl, arith, Bool, true, false, Option, none,
  some, List, [], ◌∷◌, leb, ◌==◌, if◌then◌else◌, ok, is_some, length, get_or, set, count_where,
  wrapping_pred64, length-set, get_or-set_self, get_or-set_ne, count_where-le-length, find_some,
  find_some-at, dec_lt,
}
use rvm.Types.{PartitionId}
use rvm.Partition.Device.{
  ActiveLease, DeviceLeaseManager, new, grant_lease, expire_slots, expire_leases,
  is_device_available, get_lease_holder, lease_for, place_lease, is_expired,
}
use rvm.Partition.Device.Books.{free, find-registered}
use rvm.Partition.Device.Leases.{IsLeased, leased_on}
use rvm.Partition.Device.Expiry.{expire_slots-held, expire_leases-IsLeased}
use rvm.Partition.Device.History.{Reach, Reach-new-IsLeased, available-free}

-- A count of zero has no element.
count_zero :
    (p : Option ActiveLease → Bool) (xs : List (Option ActiveLease))
    → count_where p xs ≡ 0
    → (i : ℕ) → i < length xs
    → p (get_or xs i none) ≡ false
count_zero p [] h i lt = absurd (omega arith)
count_zero p (x ∷ xs) h zero lt = ground arith
count_zero p (x ∷ xs) h (suc i) lt = count_zero p xs (ground arith) i (omega arith)

count_gap :
    (xs : List (Option ActiveLease)) (j : ℕ)
    → j < length xs
    → get_or xs j none ≡ none
    → count_where is_some xs < length xs
count_gap [] j lt e = absurd (omega arith)
count_gap (x ∷ xs) zero lt e = ground (arith, count_where-le-length is_some xs)
count_gap (x ∷ xs) (suc j) lt e = ground (arith, count_gap xs j)

-- The slot of an expired lease is emptied, and its device is noted.
expire_slots-slot :
    (epoch c j : ℕ) (ss : List (Option ActiveLease)) (l : ActiveLease)
    → get_or ss j none ≡ some l
    → l.expiry_epoch ≤ epoch
    → (j < length (expire_slots epoch ss c).0)
      × (get_or (expire_slots epoch ss c).0 j none ≡ none)
      × (0 < count_where (λ id. id == l.device_id) (expire_slots epoch ss c).1)
unfolding expire_slots
expire_slots-slot epoch c j [] l at due = ground arith
expire_slots-slot epoch c zero (s ∷ ss) l at due = ground (arith, at)
expire_slots-slot epoch c (suc j) (s ∷ ss) l at due =
    let c' = if is_expired epoch s then wrapping_pred64 c else c in
    let rest = expire_slots-slot epoch c' j ss l at due in ground (arith, rest)

placed_before :
    (xs : List (Option ActiveLease)) (i j : ℕ) (l : ActiveLease)
    → i < j
    → j < length xs
    → ((k : ℕ) → k < length xs → leased_on l.device_id (get_or xs k none) ≡ false)
    → leased_on l.device_id (get_or (set xs j (some l)) i none) ≡ false
placed_before xs i j l lt inside h =
    rw (get_or-set_ne xs j i (some l) none (omega arith)) (h i (omega arith))

found_placed :
    (xs : List (Option ActiveLease)) (j : ℕ) (l : ActiveLease)
    → j < length xs
    → ((i : ℕ) → i < length xs → leased_on l.device_id (get_or xs i none) ≡ false)
    → find_some (λ x. x.device_id == l.device_id) (set xs j (some l)) ≡ some l
found_placed xs j l inside h =
    let at = get_or-set_self xs j (some l) none inside in
    find_some-at (λ x. x.device_id == l.device_id) (set xs j (some l)) j
      (omega (arith, inside, length-set xs j (some l))) (rw at (ground arith))
      (λ i lt. placed_before xs i j l lt inside h)
    ∙ at

-- An available device is leased where a slot is empty, and the new lease is the one found.
grant_lease-free :
    (m : DeviceLeaseManager) (device_id : ℕ) (partition : PartitionId) (duration epoch hash : ℕ)
    → IsLeased m
    → free m.devices device_id ≡ true
    → count_where is_some m.leases < length m.leases
    → ((grant_lease m device_id partition duration epoch hash).1 ≡ ok m.next_lease_id)
      × (get_lease_holder (grant_lease m device_id partition duration epoch hash).0 device_id
          ≡ some partition)
unfolding grant_lease get_lease_holder
grant_lease-free m device_id partition duration epoch hash v is_free room =
    elim (dec_lt device_id m.device_count) [
      | no g ↦ absurd (ground (arith, v.dense.empty device_id (omega (arith, g))))
      | yes known ↦
          let (d, at, id) = v.dense.filled device_id known in
          let found = find-registered m.devices m.device_count v.dense device_id known in
          let open_ : d.available ≡ true = ground (arith, at) in
          let some_room : leb (length m.leases) m.lease_count ≡ false = ground (arith, v.counted) in
          let (j, e, inside, vacant) = vacant_slot m.leases room in
          let lease = lease_for m device_id partition duration epoch hash in
          let unleased =
            count_zero (leased_on device_id) m.leases (ground (arith, v.held device_id)) in
          let holder = found_placed m.leases j lease inside unleased in
          rw (grant_lease, found, at, open_, some_room)
            (rw (place_lease, e) (refl, rw (get_lease_holder, holder) refl))
    ]

-- After any history of calls, and once a lease is due, `expire_leases` makes its device available,
-- and any partition can have it: the next `grant_lease` succeeds, and the partition is its holder.
-- The manager has at most 2³² devices.
pub expire_leases-regrants :
    (n k j : ℕ) (m : DeviceLeaseManager) (l : ActiveLease) (partition : PartitionId)
    (epoch duration hash : ℕ)
    → n ≤ 2 ^ 32
    → Reach (new n k) m
    → get_or m.leases j none ≡ some l
    → l.expiry_epoch ≤ epoch
    → let m' = (expire_leases m epoch).0 in
      (is_device_available m' l.device_id ≡ true)
      × ((grant_lease m' l.device_id partition duration epoch hash).1 ≡ ok m'.next_lease_id)
      × (get_lease_holder (grant_lease m' l.device_id partition duration epoch hash).0 l.device_id
          ≡ some partition)
unfolding expire_leases
expire_leases-regrants n k j m l partition epoch duration hash b r at due =
    let v = Reach-new-IsLeased n k b r in
    let m' = (expire_leases m epoch).0 in
    let v' = expire_leases-IsLeased m epoch v in
    let (inside, gone, noted) = expire_slots-slot epoch m.lease_count j m.leases l at due in
    let is_free : free m'.devices l.device_id ≡ true = ground (
      arith,
      v.held l.device_id,
      v'.held l.device_id,
      expire_slots-held epoch m.lease_count l.device_id m.leases,
      noted,
    ) in
    let (granted, holder) =
      grant_lease-free m' l.device_id partition duration epoch hash v' is_free
        (count_gap m'.leases j inside gone) in
    (available-free m' l.device_id v' ∙ is_free, granted, holder)
