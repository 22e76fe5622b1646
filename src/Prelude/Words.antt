-- ===== src/Prelude/Words.antt =====
-- The ranges of Rust's machine integers, and their saturating, wrapping and checked operations.
use Prim.Native.Nat.{ℕ, ◌+◌, ◌-◌, ◌%◌, ◌^◌}
use mathlib.Core.Option.{Option, none, some}
use rvm.Prelude.Tests.{leb, ◌==◌, if◌then◌else◌}

abbrev pub u8_max : ℕ
u8_max = 255

abbrev pub u16_max : ℕ
u16_max = 65535

abbrev pub u32_max : ℕ
u32_max = 4294967295

abbrev pub u64_max : ℕ
u64_max = 18446744073709551615

-- `wrapping_add`, and `+` as a release build computes it.
abbrev pub wrapping_add8 : ℕ → ℕ → ℕ
wrapping_add8 a b = (a + b) % 2 ^ 8

abbrev pub wrapping_add32 : ℕ → ℕ → ℕ
wrapping_add32 a b = (a + b) % 2 ^ 32

abbrev pub wrapping_add64 : ℕ → ℕ → ℕ
wrapping_add64 a b = (a + b) % 2 ^ 64

-- `n -= 1` on a `usize` of 64 bits, as a release build computes it.
abbrev pub wrapping_pred64 : ℕ → ℕ
wrapping_pred64 n = if n == 0 then u64_max else n - 1

-- `saturating_add` at the largest value `m`.
abbrev pub saturating_add : ℕ → ℕ → ℕ → ℕ
saturating_add m a b = if leb (a + b) m then a + b else m

-- `checked_add` at the largest value `m`.
abbrev pub checked_add : ℕ → ℕ → ℕ → Option ℕ
checked_add m a b = if leb (a + b) m then some (a + b) else none
