-- ===== src/Types/Capability.antt =====
-- crates/rvm-types/src/capability.rs: capability types, rights and tokens. The set operations of the
-- crate `bitflags` on a `u8` of rights are a parameter, with the documented laws that are used.
pub mod Digits
use rvm.Prelude.{ℕ, ◌≡◌, Bool, true, false}

-- `enum CapType`.
pub data CapType : Type 0 where
  partition region comm_edge device scheduler witness_log proof vcpu coherence context : CapType

-- The discriminants, by which `==` compares.
abbrev pub cap_type_number : CapType → ℕ
cap_type_number partition = 0
cap_type_number region = 1
cap_type_number comm_edge = 2
cap_type_number device = 3
cap_type_number scheduler = 4
cap_type_number witness_log = 5
cap_type_number proof = 6
cap_type_number vcpu = 7
cap_type_number coherence = 8
cap_type_number context = 9

-- The constants of `struct CapRights: u8`.
abbrev pub CapRights : Type 0
CapRights = ℕ

abbrev pub read : CapRights
read = 0x01

abbrev pub write : CapRights
write = 0x02

abbrev pub grant_right : CapRights
grant_right = 0x04

abbrev pub revoke_right : CapRights
revoke_right = 0x08

abbrev pub execute : CapRights
execute = 0x10

abbrev pub prove : CapRights
prove = 0x20

abbrev pub grant_once : CapRights
grant_once = 0x40

-- What the source calls of `bitflags`.
pub record Bitflags : Type 0 where
  pub contains : CapRights → CapRights → Bool
  pub difference : CapRights → CapRights → CapRights

-- What `bitflags` documents: `a.contains(b)` says that every flag of `b` is in `a`, and
-- `a.difference(b)` takes the flags of `b` out of `a`.
pub record IsLawful (b : Bitflags) : Type 0 where
  pub contains_refl : (r : CapRights) → b.contains r r ≡ true
  pub contains_trans :
      (r s t : CapRights) → b.contains r s ≡ true → b.contains s t ≡ true → b.contains r t ≡ true
  pub contains_difference : (r s : CapRights) → b.contains r (b.difference r s) ≡ true
  pub difference_once : (r : CapRights) → b.contains (b.difference r grant_once) grant_once ≡ false

-- `struct CapToken`.
pub record CapToken : Type 0 where
  pub id : ℕ
  pub cap_type : CapType
  pub rights : CapRights
  pub epoch : ℕ
