-- ===== src/Partition/Device/History.antt =====
-- Proofs about crates/rvm-partition/src/device.rs: histories of calls.
use rvm.Prelude.{
  ℕ, ◌^◌, ◌≤◌, ◌≡◌, refl, arith, false, not, ◌&&◌, ltb, if◌then◌else◌, is_some, count_where, dec_lt,
}
use rvm.Types.{PartitionId}
use rvm.Partition.Device.{
  DeviceInfo, DeviceLeaseManager, DeviceLeaseId, new, register_device, grant_lease, revoke_lease,
  expire_leases, is_device_available,
}
use rvm.Partition.Device.Books.{free, find_device-at}
use rvm.Partition.Device.Leases.{
  IsLeased, leased_on, new-IsLeased, register_device-IsLeased, grant_lease-IsLeased,
  revoke_lease-IsLeased,
}
use rvm.Partition.Device.Expiry.{expire_leases-IsLeased}

-- The calls of the manager.
pub data Step (m m' : DeviceLeaseManager) : Type 0 where
  registers : (info : DeviceInfo) → m' ≡ (register_device m info).0 → Step m m'
  grants :
      (device_id : ℕ) (partition : PartitionId) (duration epoch hash : ℕ)
      → m' ≡ (grant_lease m device_id partition duration epoch hash).0
      → Step m m'
  revokes : (id : DeviceLeaseId) → m' ≡ (revoke_lease m id).0 → Step m m'
  expires : (epoch : ℕ) → m' ≡ (expire_leases m epoch).0 → Step m m'

pub data Reach (m : DeviceLeaseManager) : DeviceLeaseManager → Type 0 where
  here : Reach m m
  next : {p q : DeviceLeaseManager} → Reach m p → Step p q → Reach m q

Step-IsLeased : {m m' : DeviceLeaseManager} → Step m m' → IsLeased m → IsLeased m'
Step-IsLeased {m = m} (registers info e) v = rw e (register_device-IsLeased m info v)
Step-IsLeased {m = m} (grants device_id partition duration epoch hash e) v =
    rw e (grant_lease-IsLeased m device_id partition duration epoch hash v)
Step-IsLeased {m = m} (revokes id e) v = rw e (revoke_lease-IsLeased m id v)
Step-IsLeased {m = m} (expires epoch e) v = rw e (expire_leases-IsLeased m epoch v)

pub Reach-new-IsLeased :
    (n k : ℕ) {m : DeviceLeaseManager} → n ≤ 2 ^ 32 → Reach (new n k) m → IsLeased m
Reach-new-IsLeased n k b here = new-IsLeased n k b
Reach-new-IsLeased n k b (next r st) = Step-IsLeased st (Reach-new-IsLeased n k b r)

pub available-free :
    (m : DeviceLeaseManager) (i : ℕ) → IsLeased m → is_device_available m i ≡ free m.devices i
unfolding is_device_available
available-free m i v = rw (find_device-at m.devices m.device_count v.dense i) refl

unknown-taken :
    (m : DeviceLeaseManager) (i : ℕ)
    → IsLeased m
    → (free m.devices i && not (ltb i m.device_count)) ≡ false
unknown-taken m i v = elim (dec_lt i m.device_count) [
  | yes l ↦ ground arith
  | no g ↦ ground (arith, v.dense.empty i (omega (arith, g)))
]

-- After any history of calls from a new manager with at most 2³² slots for devices, a device that is
-- registered is available or has exactly one lease, never both and never two; no other device is
-- available or leased. `lease_count` counts the leases.
pub leases-exclusive :
    (n k i : ℕ) (m : DeviceLeaseManager)
    → n ≤ 2 ^ 32
    → Reach (new n k) m
    → (count_where (leased_on i) m.leases
        ≡ (if is_device_available m i then 0 else if ltb i m.device_count then 1 else 0))
      × ((is_device_available m i && not (ltb i m.device_count)) ≡ false)
      × (m.lease_count ≡ count_where is_some m.leases)
leases-exclusive n k i m b r =
    let v = Reach-new-IsLeased n k b r in
    rw (available-free m i v) (v.held i, unknown-taken m i v, v.counted)
