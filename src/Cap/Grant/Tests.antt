-- ===== src/Cap/Grant/Tests.antt =====
-- Tests of crates/rvm-cap/src/grant.rs. A grant of one right out of two, by a source that may
-- delegate once.
use rvm.Prelude.{◌+◌, ◌≤◌, ◌≡◌, refl, true, not, ◌&&◌, ◌||◌, ok}
use rvm.Types.Capability.{CapToken, region, read, grant_right, grant_once}
use rvm.Types.Capability.Digits.{byte_flags, contains_digits}
use rvm.Cap.Table.{CapSlot}
use rvm.Cap.Grant.{new, validate_grant}
use rvm.Cap.Grant.Attenuation.{validate_grant_attenuates}

abbrev source_slot : CapSlot
source_slot = record {
  token = record { id = 1; cap_type = region; rights = 0x41; epoch = 0 };
  generation = 1;
  owner = 7;
  depth = 3;
  parent_index = 0;
  badge = 0;
}

abbrev derived_token : CapToken
derived_token = record { id = 2; cap_type = region; rights = read; epoch = 0 }

is_allowed : validate_grant source_slot read 2 5 0 new ≡ ok (derived_token, 4, true)
unfolding validate_grant new contains_digits
is_allowed = refl

validate_grant_attenuates_example :
    (derived_token.rights ≡ read)
    × (derived_token.cap_type ≡ source_slot.token.cap_type)
    × (derived_token.id ≡ 2)
    × (derived_token.epoch ≡ 0)
    × (byte_flags.contains source_slot.token.rights read ≡ true)
    × (4 ≡ source_slot.depth + 1)
    × (4 ≤ new.max_depth)
    × (byte_flags.contains source_slot.token.rights grant_right
          || (new.allow_grant_once && byte_flags.contains source_slot.token.rights grant_once)
        ≡ true)
    × (true ≡ not (byte_flags.contains source_slot.token.rights grant_right))
validate_grant_attenuates_example =
    validate_grant_attenuates source_slot read 2 5 0 new derived_token 4 true is_allowed
