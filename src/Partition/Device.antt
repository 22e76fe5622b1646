-- ===== src/Partition/Device.antt =====
-- crates/rvm-partition/src/device.rs: `DeviceLeaseManager`, the devices and their leases. The constants
-- `MAX_DEVICES` and `MAX_LEASES` are the lengths of the arrays. `DeviceClass` is in
-- crates/rvm-types/src/device.rs.
pub mod Books
pub mod Leases
pub mod Expiry
pub mod History
pub mod Grants
mod Tests
use rvm.Prelude.{
  ℕ, ◌+◌, ◌%◌, ◌^◌, Bool, true, false, not, Option, none, some, List, [], ◌∷◌, leb, ◌==◌,
  if◌then◌else◌, ok, err, u64_max, wrapping_add64, wrapping_pred64, saturating_add, is_none,
  is_some_and, length, get_or, set, take, replicate, first_where, find_some,
}
use rvm.Types.{
  PartitionId, RvmResult, device_lease_not_found, device_lease_conflict, device_lease_expired,
  resource_limit_exceeded, internal_error,
}

-- `struct DeviceLeaseId(u64)`.
abbrev pub DeviceLeaseId : Type 0
DeviceLeaseId = ℕ

-- `enum DeviceClass`.
pub data DeviceClass : Type 0 where
  network storage graphics serial timer interrupt_controller generic : DeviceClass

-- `struct DeviceInfo`.
pub record DeviceInfo : Type 0 where
  pub id : ℕ
  pub class : DeviceClass
  pub mmio_base : ℕ
  pub mmio_size : ℕ
  pub irq : Option ℕ
  pub available : Bool

-- `struct ActiveLease`.
pub record ActiveLease : Type 0 where
  pub lease_id : DeviceLeaseId
  pub device_id : ℕ
  pub partition_id : PartitionId
  pub granted_epoch : ℕ
  pub expiry_epoch : ℕ
  pub capability_hash : ℕ

-- `struct DeviceLeaseManager<MAX_DEVICES, MAX_LEASES>`.
pub record DeviceLeaseManager : Type 0 where
  pub devices : List (Option DeviceInfo)
  pub leases : List (Option ActiveLease)
  pub device_count : ℕ
  pub lease_count : ℕ
  pub next_lease_id : ℕ

unfoldable pub new : ℕ → ℕ → DeviceLeaseManager
new max_devices max_leases = record {
  devices = replicate max_devices none;
  leases = replicate max_leases none;
  device_count = 0;
  lease_count = 0;
  next_lease_id = 1;
}

unfoldable pub register_device : DeviceLeaseManager → DeviceInfo → DeviceLeaseManager × RvmResult ℕ
register_device m info =
    let id = m.device_count % 2 ^ 32 in
    if leb (length m.devices) m.device_count
    then (m, err resource_limit_exceeded)
    else elim (first_where is_none m.devices 0) [
      | none ↦ (m, err internal_error)
      | some i ↦ (
        record m {
          devices = set m.devices i (some (record info { id = id; available = true }));
          device_count = m.device_count + 1;
        },
        ok id,
      )
    ]

abbrev pub find_device_index : List (Option DeviceInfo) → ℕ → Option ℕ
find_device_index devices device_id =
    first_where (λ s. is_some_and s (λ d. d.id == device_id)) devices 0

abbrev pub find_device : List (Option DeviceInfo) → ℕ → Option DeviceInfo
find_device devices device_id = find_some (λ d. d.id == device_id) devices

-- `dev.available = available` for the device of a slot, if there is one.
abbrev pub set_available : List (Option DeviceInfo) → ℕ → Bool → List (Option DeviceInfo)
set_available devices i available = elim (get_or devices i none) [
  | none ↦ devices
  | some d ↦ set devices i (some (record d { available = available }))
]

-- The lease that `grant_lease` makes.
abbrev pub lease_for : DeviceLeaseManager → ℕ → PartitionId → ℕ → ℕ → ℕ → ActiveLease
lease_for m device_id partition duration_epochs current_epoch cap_hash = record {
  lease_id = m.next_lease_id;
  device_id = device_id;
  partition_id = partition;
  granted_epoch = current_epoch;
  expiry_epoch = saturating_add u64_max current_epoch duration_epochs;
  capability_hash = cap_hash;
}

-- The writes of `grant_lease` for the device of the slot `i`.
abbrev pub place_lease :
    DeviceLeaseManager → ℕ → ActiveLease → DeviceLeaseManager × RvmResult DeviceLeaseId
place_lease m i lease =
    let m' = record m {
      devices = set_available m.devices i false;
      next_lease_id = wrapping_add64 m.next_lease_id 1;
    } in
    elim (first_where is_none m.leases 0) [
      | none ↦ (m', err internal_error)
      | some j ↦ (
        record m' { leases = set m.leases j (some lease); lease_count = m.lease_count + 1 },
        ok m.next_lease_id,
      )
    ]

unfoldable pub grant_lease :
    DeviceLeaseManager
    → ℕ
    → PartitionId
    → (duration_epochs current_epoch cap_hash : ℕ) → DeviceLeaseManager × RvmResult DeviceLeaseId
grant_lease m device_id partition duration_epochs current_epoch cap_hash =
    let lease = lease_for m device_id partition duration_epochs current_epoch cap_hash in
    elim (find_device_index m.devices device_id) [
      | none ↦ (m, err device_lease_not_found)
      | some i ↦ elim (get_or m.devices i none) [
        | none ↦ (m, err internal_error)
        | some device ↦
            if not device.available
            then (m, err device_lease_conflict)
            else if leb (length m.leases) m.lease_count
            then (m, err resource_limit_exceeded)
            else place_lease m i lease
      ]
    ]

-- The device is available again, if it is there.
abbrev pub release : List (Option DeviceInfo) → ℕ → List (Option DeviceInfo)
release devices device_id = elim (find_device_index devices device_id) [
  | none ↦ devices
  | some i ↦ set_available devices i true
]

-- The slot that the loop of `revoke_lease` finds has a lease.
unfoldable pub revoke_lease :
    DeviceLeaseManager → DeviceLeaseId → DeviceLeaseManager × RvmResult (Unit {0})
revoke_lease m lease_id =
    elim (first_where (λ s. is_some_and s (λ l. l.lease_id == lease_id)) m.leases 0) [
      | none ↦ (m, err device_lease_not_found)
      | some j ↦ elim (get_or m.leases j none) [
        | none ↦ (m, err device_lease_not_found)
        | some lease ↦ (
          record m {
            leases = set m.leases j none;
            lease_count = wrapping_pred64 m.lease_count;
            devices = release m.devices lease.device_id;
          },
          ok tt,
        )
      ]
    ]

unfoldable pub check_lease : DeviceLeaseManager → DeviceLeaseId → ℕ → RvmResult ActiveLease
check_lease m lease_id current_epoch = elim (find_some (λ l. l.lease_id == lease_id) m.leases) [
  | none ↦ err device_lease_not_found
  | some lease ↦ if leb lease.expiry_epoch current_epoch then err device_lease_expired else ok lease
]

abbrev pub is_expired : ℕ → Option ActiveLease → Bool
is_expired epoch s = is_some_and s (λ l. leb l.expiry_epoch epoch)

abbrev pub device_of : Option ActiveLease → ℕ
device_of none = 0
device_of (some l) = l.device_id

-- The loop of `expire_leases` over the slots: the slots, the devices of the expired leases, and
-- `lease_count`.
unfoldable pub expire_slots :
    ℕ → List (Option ActiveLease) → ℕ → List (Option ActiveLease) × List ℕ × ℕ
expire_slots epoch [] count = ([], [], count)
expire_slots epoch (s ∷ ss) count =
    let (slots, ids, c) =
      expire_slots epoch ss (if is_expired epoch s then wrapping_pred64 count else count) in
    if is_expired epoch s then (none ∷ slots, device_of s ∷ ids, c) else (s ∷ slots, ids, c)

abbrev pub release_all : List (Option DeviceInfo) → List ℕ → List (Option DeviceInfo)
release_all devices [] = devices
release_all devices (id ∷ ids) = release_all (release devices id) ids

-- The buffer of the ids has as many places as there are leases.
unfoldable pub expire_leases : DeviceLeaseManager → ℕ → DeviceLeaseManager × ℕ
expire_leases m current_epoch =
    let (slots, ids, c) = expire_slots current_epoch m.leases m.lease_count in
    (
      record m {
        leases = slots;
        lease_count = c;
        devices = release_all m.devices (take (length m.leases) ids);
      },
      length ids % 2 ^ 32,
    )

unfoldable pub get_lease_holder : DeviceLeaseManager → ℕ → Option PartitionId
get_lease_holder m device_id = elim (find_some (λ l. l.device_id == device_id) m.leases) [
  | none ↦ none
  | some lease ↦ some lease.partition_id
]

unfoldable pub is_device_available : DeviceLeaseManager → ℕ → Bool
is_device_available m device_id = is_some_and (find_device m.devices device_id) (λ d. d.available)
