-- ===== src/Partition/Device/Books.antt =====
-- Proofs about crates/rvm-partition/src/device.rs: the slots of the devices.
use rvm.Prelude.{
  ℕ, ◌^◌, ◌≤◌, ◌<◌, ◌≡◌, ◌∙◌, sym, ap, arith, Bool, true, false, ◌&&◌, Option, none, some, List, [],
  ◌∷◌, ltb, ◌==◌, if◌then◌else◌, is_some_and, length, get_or, count_where, length-set,
  length-replicate, get_or-replicate, get_or-set, get_or-set_self, get_or-set_ne, first_where-at,
  first_where-nowhere, find_some-at, find_some-nowhere, dec_lt, ℕ_discrete,
}
use rvm.Partition.Device.{
  DeviceInfo, new, find_device_index, find_device, set_available, release, release_all,
}

-- The device of the slot is there and available.
abbrev pub free : List (Option DeviceInfo) → ℕ → Bool
free devices i = is_some_and (get_or devices i none) (λ d. d.available)

-- The devices fill the first slots, each with its slot as its id.
pub record IsDense (devices : List (Option DeviceInfo)) (count : ℕ) : Type 0 where
  pub sized : count ≤ length devices
  pub narrow : length devices ≤ 2 ^ 32
  pub filled :
      (i : ℕ) → i < count → (d : DeviceInfo) × (get_or devices i none ≡ some d) × (d.id ≡ i)
  pub empty : (i : ℕ) → count ≤ i → get_or devices i none ≡ none

module _ (devices : List (Option DeviceInfo)) (count : ℕ) (v : IsDense devices count) where
  id_test :
      (i j : ℕ)
      → is_some_and (get_or devices j none) (λ d. d.id == i)
        ≡ (if ltb j count then j == i else false)
  id_test i j = elim (dec_lt j count) [
    | yes l ↦ let (d, at, id) = v.filled j l in ground (arith, at, id)
    | no g ↦ rw (v.empty j (omega (arith, g))) (ground arith)
  ]

  pub find-registered : (i : ℕ) → i < count → find_device_index devices i ≡ some i
  find-registered i l =
      first_where-at (λ s. is_some_and s (λ d. d.id == i)) devices 0 i none (omega (arith, v.sized))
        (ground (arith, id_test i i)) (λ j h. ground (arith, id_test i j))
      ∙ ap some (omega arith)

  pub find-unknown : (i : ℕ) → count ≤ i → find_device_index devices i ≡ none
  find-unknown i g =
      first_where-nowhere (λ s. is_some_and s (λ d. d.id == i)) devices 0 none
        (λ j h. ground (arith, id_test i j))

  pub find_device-at : (i : ℕ) → find_device devices i ≡ get_or devices i none
  find_device-at i = elim (dec_lt i count) [
    | yes l ↦
        find_some-at (λ d. d.id == i) devices i (omega (arith, v.sized))
          (ground (arith, id_test i i)) (λ j h. ground (arith, id_test i j))
    | no g ↦
        rw (v.empty i (omega (arith, g)))
          (find_some-nowhere (λ d. d.id == i) devices (λ j h. ground (arith, id_test i j)))
  ]

  -- A device that is there is made available or not.
  pub set_available-IsDense :
      (i : ℕ) (b : Bool) → i < count → IsDense (set_available devices i b) count
  set_available-IsDense i b l =
      let (d, at, id) = v.filled i l in
      let inside : i < length devices = omega (arith, v.sized) in
      rw (set_available, at)
        (record {
          sized = omega (arith, v.sized, length-set devices i (some (record d { available = b })));
          narrow =
              omega (arith, v.narrow, length-set devices i (some (record d { available = b })));
          filled = λ j h. elim (ℕ_discrete i j) [
            | yes e ↦ rw (sym e) (
              record d { available = b },
              get_or-set_self devices i (some (record d { available = b })) none inside,
              id,
            )
            | no ne ↦
                let (d', at', id') = v.filled j h in
                (
                  d',
                  get_or-set_ne devices i j (some (record d { available = b })) none ne ∙ at',
                  id',
                )
          ];
          empty = λ j h.
              get_or-set_ne devices i j (some (record d { available = b })) none (omega arith)
              ∙ v.empty j h;
        })

  pub set_available-free :
      (i j : ℕ) (b : Bool)
      → i < count
      → free (set_available devices i b) j ≡ (if i == j then b else free devices j)
  set_available-free i j b l =
      let (d, at, id) = v.filled i l in
      let inside : i < length devices = omega (arith, v.sized) in
      rw (set_available, at)
        (ground (arith, at, get_or-set devices i j (some (record d { available = b })) none inside))

  pub release-IsDense : (id : ℕ) → IsDense (release devices id) count
  release-IsDense id = elim (dec_lt id count) [
    | yes l ↦ rw (release, find-registered id l) (set_available-IsDense id true l)
    | no g ↦ rw (release, find-unknown id (omega (arith, g))) v
  ]

  pub release-free :
      (id i : ℕ)
      → free (release devices id) i ≡ (if ltb i count && (id == i) then true else free devices i)
  release-free id i = elim (dec_lt id count) [
    | yes l ↦ rw (release, find-registered id l) (set_available-free id i true l ∙ ground arith)
    | no g ↦ rw (release, find-unknown id (omega (arith, g))) (ground arith)
  ]

pub release_all-IsDense :
    (ids : List ℕ) (devices : List (Option DeviceInfo)) (count : ℕ)
    → IsDense devices count
    → IsDense (release_all devices ids) count
release_all-IsDense [] devices count v = v
release_all-IsDense (id ∷ ids) devices count v =
    release_all-IsDense ids (release devices id) count (release-IsDense devices count v id)

pub release_all-free :
    (ids : List ℕ) (devices : List (Option DeviceInfo)) (count i : ℕ)
    → IsDense devices count
    → free (release_all devices ids) i
      ≡ (if ltb i count && ltb 0 (count_where (λ id. id == i) ids) then true else free devices i)
release_all-free [] devices count i v = ground arith
release_all-free (id ∷ ids) devices count i v =
    release_all-free ids (release devices id) count i (release-IsDense devices count v id)
    ∙ ground (arith, release-free devices count v id i)

pub new-IsDense : (n k : ℕ) → n ≤ 2 ^ 32 → IsDense (new n k).devices 0
unfolding new
new-IsDense n k b = record {
  sized = omega arith;
  narrow = omega (arith, b, length-replicate {A = Option DeviceInfo} n none);
  filled = λ i h. absurd (omega arith);
  empty = λ i h. get_or-replicate {A = Option DeviceInfo} n i none;
}
