-- ===== src/Partition/Device/Expiry.antt =====
-- Proofs about crates/rvm-partition/src/device.rs: the leases that expire.
use rvm.Prelude.{
  ℕ, zero, suc, ◌+◌, ◌≤◌, ◌≡◌, refl, ap, arith, Option, none, some, List, [], ◌∷◌, leb, ◌==◌,
  if◌then◌else◌, is_some, length, take, count_where, wrapping_pred64,
}
use rvm.Partition.Device.{ActiveLease, DeviceLeaseManager, expire_slots, expire_leases}
use rvm.Partition.Device.Books.{release_all-IsDense, release_all-free}
use rvm.Partition.Device.Leases.{IsLeased, leased_on}

-- What the loop over the slots does to the counts.
pub expire_slots-held :
    (epoch c i : ℕ) (ss : List (Option ActiveLease))
    → count_where (leased_on i) (expire_slots epoch ss c).0
        + count_where (λ id. id == i) (expire_slots epoch ss c).1
      ≡ count_where (leased_on i) ss
unfolding expire_slots
expire_slots-held epoch c i [] = refl
expire_slots-held epoch c i (none ∷ ss) = ground (arith, expire_slots-held epoch c i ss)
expire_slots-held epoch c i (some l ∷ ss) =
    let c' = if leb l.expiry_epoch epoch then wrapping_pred64 c else c in
    ground (arith, expire_slots-held epoch c' i ss)

pub expire_slots-counted :
    (epoch c : ℕ) (ss : List (Option ActiveLease))
    → count_where is_some ss ≤ c
    → ((expire_slots epoch ss c).2 + count_where is_some ss
        ≡ c + count_where is_some (expire_slots epoch ss c).0)
      × (length (expire_slots epoch ss c).1 ≤ length ss)
unfolding expire_slots
expire_slots-counted epoch c [] le = (omega arith, omega arith)
expire_slots-counted epoch c (none ∷ ss) le = ground (arith, expire_slots-counted epoch c ss)
expire_slots-counted epoch c (some l ∷ ss) le =
    let c' = if leb l.expiry_epoch epoch then wrapping_pred64 c else c in
    let rest = expire_slots-counted epoch c' ss (ground arith) in ground (arith, rest)

take_all : (xs : List ℕ) (n : ℕ) → length xs ≤ n → take n xs ≡ xs
take_all [] zero h = refl
take_all [] (suc n) h = refl
take_all (x ∷ xs) zero h = absurd (omega arith)
take_all (x ∷ xs) (suc n) h = ap (λ ys. x ∷ ys) (take_all xs n (omega arith))

pub expire_leases-IsLeased :
    (m : DeviceLeaseManager) (epoch : ℕ) → IsLeased m → IsLeased (expire_leases m epoch).0
unfolding expire_leases
expire_leases-IsLeased m epoch v =
    let ids = (expire_slots epoch m.leases m.lease_count).1 in
    let (sum, few) = expire_slots-counted epoch m.lease_count m.leases (omega (arith, v.counted)) in
    rw (take_all ids (length m.leases) few) (record {
      dense = release_all-IsDense ids m.devices m.device_count v.dense;
      counted = omega (arith, sum, v.counted);
      held = λ i. ground (
        arith,
        v.held i,
        expire_slots-held epoch m.lease_count i m.leases,
        release_all-free ids m.devices m.device_count i v.dense,
      );
    })
