-- ===== src/Partition/Device/Leases.antt =====
-- Proofs about crates/rvm-partition/src/device.rs: the leases of each device.
use native.Mathlib.Nat.{mod-eq_of_lt}
use rvm.Prelude.{
  vacant_slot, ℕ, ◌+◌, ◌%◌, ◌^◌, ◌≤◌, ◌<◌, ◌≡◌, ◌∙◌, refl, sym, arith, Bool, true, false, inl, inr,
  Bool-cases, Option, none, some, Option-cases, List, ltb, leb, ◌==◌, if◌then◌else◌, is_some,
  is_none, is_some_and, length, get_or, set, count_where, wrapping_pred64, wrapping_add64,
  length-set, get_or-replicate, get_or-set, get_or-set_self, get_or-set_ne, count_where-set,
  count_where-replicate, first_where, first_where-at, first_where-some, dec_lt, ℕ_discrete,
}
use rvm.Types.{PartitionId}
use rvm.Partition.Device.{
  DeviceInfo, ActiveLease, DeviceLeaseManager, DeviceLeaseId, new, register_device, grant_lease,
  revoke_lease, lease_for, place_lease, release, set_available,
}
use rvm.Partition.Device.Books.{
  free, IsDense, find-registered, find-unknown, set_available-IsDense, set_available-free,
  release-IsDense, release-free, new-IsDense,
}

abbrev pub leased_on : ℕ → Option ActiveLease → Bool
leased_on i s = is_some_and s (λ l. l.device_id == i)

-- A registered device is available, or has one lease.
pub record IsLeased (m : DeviceLeaseManager) : Type 0 where
  pub dense : IsDense m.devices m.device_count
  pub counted : m.lease_count ≡ count_where is_some m.leases
  pub held :
      (i : ℕ)
      → count_where (leased_on i) m.leases
        ≡ (if free m.devices i then 0 else if ltb i m.device_count then 1 else 0)

pub new-IsLeased : (n k : ℕ) → n ≤ 2 ^ 32 → IsLeased (new n k)
unfolding new
new-IsLeased n k b = record {
  dense = new-IsDense n k b;
  counted = sym (count_where-replicate {A = Option ActiveLease} is_some k none refl);
  held = λ i.
      count_where-replicate {A = Option ActiveLease} (leased_on i) k none refl
      ∙ ground (arith, get_or-replicate {A = Option DeviceInfo} n i none);
}

-- A lease is put into an empty slot, and its device is taken.
placed-IsLeased :
    (m : DeviceLeaseManager) (j next : ℕ) (l : ActiveLease)
    → IsLeased m
    → l.device_id < m.device_count
    → free m.devices l.device_id ≡ true
    → j < length m.leases
    → get_or m.leases j none ≡ none
    → IsLeased (record m {
      devices = set_available m.devices l.device_id false;
      next_lease_id = next;
      leases = set m.leases j (some l);
      lease_count = m.lease_count + 1;
    })
placed-IsLeased m j next l v known free_before inside vacant = record {
  dense = set_available-IsDense m.devices m.device_count v.dense l.device_id false known;
  counted =
      ground (arith, vacant, v.counted, count_where-set is_some m.leases j (some l) none inside);
  held = λ i. ground (
    arith,
    vacant,
    v.held i,
    free_before,
    set_available-free m.devices m.device_count v.dense l.device_id i false known,
    count_where-set (leased_on i) m.leases j (some l) none inside,
  );
}

-- The lease of a slot is taken away, and its device is released.
cleared-IsLeased :
    (m : DeviceLeaseManager) (j : ℕ) (l : ActiveLease)
    → IsLeased m
    → j < length m.leases
    → get_or m.leases j none ≡ some l
    → IsLeased (record m {
      leases = set m.leases j none;
      lease_count = wrapping_pred64 m.lease_count;
      devices = release m.devices l.device_id;
    })
cleared-IsLeased m j l v inside at = record {
  dense = release-IsDense m.devices m.device_count v.dense l.device_id;
  counted = ground (arith, at, v.counted, count_where-set is_some m.leases j none none inside);
  held = λ i. ground (
    arith,
    at,
    v.held i,
    release-free m.devices m.device_count v.dense l.device_id i,
    count_where-set (leased_on i) m.leases j none none inside,
  );
}

pub revoke_lease-IsLeased :
    (m : DeviceLeaseManager) (id : DeviceLeaseId) → IsLeased m → IsLeased (revoke_lease m id).0
unfolding revoke_lease
revoke_lease-IsLeased m id v =
    elim (Option-cases (first_where (λ s. is_some_and s (λ l. l.lease_id == id)) m.leases 0)) [
      | inl e ↦ rw (revoke_lease, e) v
      | inr (j, e) ↦ elim (Option-cases (get_or m.leases j none)) [
        | inl vacant ↦ rw (revoke_lease, e, vacant) v
        | inr (l, at) ↦
            let (k, eq, lt, t) =
              first_where-some (λ s. is_some_and s (λ l. l.lease_id == id)) m.leases 0 j none e in
            rw (revoke_lease, e, at) (cleared-IsLeased m j l v (omega (arith, eq, lt)) at)
      ]
    ]

pub grant_lease-IsLeased :
    (m : DeviceLeaseManager) (device_id : ℕ) (partition : PartitionId) (duration epoch hash : ℕ)
    → IsLeased m
    → IsLeased (grant_lease m device_id partition duration epoch hash).0
unfolding grant_lease
grant_lease-IsLeased m device_id partition duration epoch hash v =
    elim (dec_lt device_id m.device_count) [
      | no g ↦
          rw
            (
              grant_lease,
              find-unknown m.devices m.device_count v.dense device_id (omega (arith, g)),
            )
            v
      | yes known ↦
          let (d, at, id) = v.dense.filled device_id known in
          let found = find-registered m.devices m.device_count v.dense device_id known in
          elim (Bool-cases d.available) [
            | inr taken ↦ rw (grant_lease, found, at, taken) v
            | inl open_ ↦ elim (Bool-cases (leb (length m.leases) m.lease_count)) [
              | inl full ↦ rw (grant_lease, found, at, open_, full) v
              | inr room ↦
                  let (j, e, inside, vacant) = vacant_slot m.leases (ground (arith, v.counted)) in
                  rw (grant_lease, found, at, open_, room)
                    (rw (place_lease, e)
                      (placed-IsLeased m j (wrapping_add64 m.next_lease_id 1)
                        (lease_for m device_id partition duration epoch hash) v known
                        (ground (arith, at)) inside vacant))
            ]
          ]
    ]

added-IsDense :
    (devices : List (Option DeviceInfo)) (n : ℕ) (d : DeviceInfo)
    → IsDense devices n
    → n < length devices
    → d.id ≡ n
    → IsDense (set devices n (some d)) (n + 1)
added-IsDense devices n d v inside id = record {
  sized = omega (arith, inside, length-set devices n (some d));
  narrow = omega (arith, v.narrow, length-set devices n (some d));
  filled = λ i h. elim (ℕ_discrete n i) [
    | yes e ↦ rw (sym e) (d, get_or-set_self devices n (some d) none inside, id)
    | no ne ↦
        let (d', at, id') = v.filled i (omega (arith, h, ne)) in
        (d', get_or-set_ne devices n i (some d) none ne ∙ at, id')
  ];
  empty = λ i h. get_or-set_ne devices n i (some d) none (omega arith) ∙ v.empty i (omega arith);
}

pub register_device-IsLeased :
    (m : DeviceLeaseManager) (info : DeviceInfo) → IsLeased m → IsLeased (register_device m info).0
unfolding register_device
register_device-IsLeased m info v = elim (Bool-cases (leb (length m.devices) m.device_count)) [
  | inl full ↦ rw full v
  | inr room ↦
      let n = m.device_count in
      let inside : n < length m.devices = ground arith in
      let e =
        first_where-at is_none m.devices 0 n none inside (rw (v.dense.empty n (omega arith)) refl)
          (λ j h. let (d, at, id) = v.dense.filled j h in rw at refl) in
      let same : 0 + n ≡ n = omega arith in
      let info' : DeviceInfo = record info { id = n % 2 ^ 32; available = true } in
      rw (register_device, room, e, same)
        (record {
          dense =
              added-IsDense m.devices n info' v.dense inside
                (mod-eq_of_lt (omega (arith, inside, v.dense.narrow)));
          counted = v.counted;
          held = λ i. ground (
            arith,
            v.held i,
            v.dense.empty n (omega arith),
            get_or-set m.devices n i (some info') none inside,
          );
        })
]
