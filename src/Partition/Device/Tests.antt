-- ===== src/Partition/Device/Tests.antt =====
-- Tests of crates/rvm-partition/src/device.rs: two devices, of which one is leased.
use rvm.Prelude.{
  ◌≡◌, refl, arith, true, false, ◌&&◌, not, none, some, ltb, if◌then◌else◌, ok, err, is_some,
  get_or, count_where,
}
use rvm.Types.{device_lease_conflict, device_lease_expired}
use rvm.Partition.Device.{
  DeviceInfo, ActiveLease, DeviceLeaseManager, network, storage, new, register_device, grant_lease,
  revoke_lease, check_lease, expire_slots, expire_leases, get_lease_holder, is_device_available,
}
use rvm.Partition.Device.Leases.{leased_on}
use rvm.Partition.Device.History.{Reach, here, next, registers, grants, leases-exclusive}
use rvm.Partition.Device.Grants.{expire_leases-regrants}

abbrev card : DeviceInfo
card = record {
  id = 0;
  class = network;
  mmio_base = 0x1000;
  mmio_size = 0x100;
  irq = some 32;
  available = false;
}

abbrev disk : DeviceInfo
disk = record {
  id = 0;
  class = storage;
  mmio_base = 0x2000;
  mmio_size = 0x100;
  irq = none;
  available = false;
}

abbrev leased : DeviceLeaseManager
leased = (grant_lease (register_device (register_device (new 4 2) card).0 disk).0 1 7 10 100 9).0

leased_reached : Reach (new 4 2) leased
leased_reached =
    next (next (next here (registers card refl)) (registers disk refl)) (grants 1 7 10 100 9 refl)

abbrev lease : ActiveLease
lease = record {
  lease_id = 1;
  device_id = 1;
  partition_id = 7;
  granted_epoch = 100;
  expiry_epoch = 110;
  capability_hash = 9;
}

runs :
    (get_or leased.leases 0 none ≡ some lease)
    × (get_lease_holder leased 1 ≡ some 7)
    × ((grant_lease leased 1 8 10 100 9).1 ≡ err device_lease_conflict)
    × (check_lease leased 1 109 ≡ ok lease)
    × (check_lease leased 1 110 ≡ err device_lease_expired)
    × (is_device_available (revoke_lease leased 1).0 1 ≡ true)
    × ((expire_leases leased 110).1 ≡ 1)
unfolding new register_device grant_lease get_lease_holder check_lease revoke_lease expire_leases
    expire_slots is_device_available
runs = (refl, refl, refl, refl, refl, refl, refl)

leases-exclusive_example :
    (count_where (leased_on 1) leased.leases
      ≡ (if is_device_available leased 1 then 0 else if ltb 1 leased.device_count then 1 else 0))
    × ((is_device_available leased 1 && not (ltb 1 leased.device_count)) ≡ false)
    × (leased.lease_count ≡ count_where is_some leased.leases)
leases-exclusive_example = leases-exclusive 4 2 1 leased (omega arith) leased_reached

expire_leases-regrants_example :
    let m' = (expire_leases leased 110).0 in
    (is_device_available m' 1 ≡ true)
    × ((grant_lease m' 1 8 10 110 9).1 ≡ ok m'.next_lease_id)
    × (get_lease_holder (grant_lease m' 1 8 10 110 9).0 1 ≡ some 8)
expire_leases-regrants_example =
    expire_leases-regrants 4 2 0 leased lease 8 110 10 9 (omega arith) leased_reached runs.0
      (omega arith)
