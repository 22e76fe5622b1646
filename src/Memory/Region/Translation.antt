-- ===== src/Memory/Region/Translation.antt =====
-- Proofs about `translate` of crates/rvm-memory/src/region.rs.
use rvm.Prelude.{
  ℕ, suc, ◌+◌, ◌-◌, ◌≤◌, ◌<◌, ◌≡◌, sym, subst, inl, inr, true, ◌&&◌, some, List, [], ◌∷◌, arith,
  ◌==◌, wrapping_add64, ℕ_discrete, Bool-cases,
}
use rvm.Types.{PartitionId}
use rvm.Memory.Region.{
  OwnedRegion, RegionManager, AddressMapping, size_bytes, contains_guest, translate, translate_in,
}
use rvm.Memory.Region.Isolation.{Bounded, IsIsolated, at_slot}

-- The region `r` of `owner` maps `guest` to `host`.
abbrev Maps : OwnedRegion → PartitionId → ℕ → ℕ → Type 0
Maps r owner guest host =
    (r.occupied ≡ true)
    × (r.owner ≡ owner)
    × (contains_guest r guest ≡ true)
    × (host ≡ wrapping_add64 r.host_base (guest - r.guest_base))

translate_in-Maps :
    (rs : List OwnedRegion) (owner : PartitionId) (guest : ℕ) (a : AddressMapping)
    → translate_in rs owner guest ≡ some a
    → (j : ℕ) × Maps (at_slot rs j) owner guest a.host
unfolding translate_in
translate_in-Maps [] owner guest a e = absurd (cc)
translate_in-Maps (r ∷ rs) owner guest a e =
    elim (Bool-cases ((r.occupied && r.owner == owner) && contains_guest r guest)) [
      | inl hit ↦ (0, (ground arith, ground arith, ground arith, ground arith))
      | inr miss ↦
          let (j, rest) = translate_in-Maps rs owner guest a (ground arith) in (suc j, rest)
    ]

-- A guest address that a bounded region maps lies in it, and so does the host address.
Maps-within :
    (r : OwnedRegion) (owner : PartitionId) (guest host : ℕ)
    → Bounded r
    → Maps r owner guest host
    → (r.guest_base ≤ guest)
      × (guest < r.guest_base + size_bytes r)
      × (host + r.guest_base ≡ r.host_base + guest)
unfolding contains_guest
Maps-within r owner guest host b m =
    let top : wrapping_add64 r.guest_base (size_bytes r) ≡ r.guest_base + size_bytes r =
      omega arith in
    let lo : r.guest_base ≤ guest = ground (arith, m.2) in
    let hi : guest < r.guest_base + size_bytes r = ground (arith, m.2, top) in
    (lo, hi, omega (arith, m.3))

-- While the regions are isolated, two translations that give one host address are of one partition
-- and of one guest address.
pub translate-separate :
    (m : RegionManager) (owner owner' : PartitionId) (guest guest' : ℕ) (a a' : AddressMapping)
    → IsIsolated m.regions
    → translate m owner guest ≡ some a
    → translate m owner' guest' ≡ some a'
    → a.host ≡ a'.host
    → (owner ≡ owner') × (guest ≡ guest')
unfolding translate
translate-separate m owner owner' guest guest' a a' h e e' same =
    let (j, p) = translate_in-Maps m.regions owner guest a e in
    let (k, q) = translate_in-Maps m.regions owner' guest' a' e' in
    let wp = Maps-within (at_slot m.regions j) owner guest a.host (h.bounded j p.0) p in
    let wq = Maps-within (at_slot m.regions k) owner' guest' a'.host (h.bounded k q.0) q in
    elim (ℕ_discrete j k) [
      | yes jk ↦
          let q' = subst (λ x. Maps (at_slot m.regions x) owner' guest' a'.host) (sym jk) q in
          let wq' = Maps-within (at_slot m.regions j) owner' guest' a'.host (h.bounded j p.0) q' in
          (omega (arith, p.1, q'.1), omega (arith, wp.0, wp.2, wq'.0, wq'.2))
      | no ne ↦
          let host = (h.apart j k ne p.0 q.0).0 in
          absurd (omega (arith, wp.0, wp.1, wp.2, wq.0, wq.1, wq.2, host))
    ]
