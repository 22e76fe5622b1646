-- ===== src/Witness/Hash.antt =====
-- crates/rvm-witness/src/hash.rs, with the feature `crypto-sha256`, and `fold_u64_to_u32` of log.rs.
-- The digest of the crate `sha2` is an argument: a function from the bytes to the bytes of the digest.
use Prim.Native.Nat.{bit_xor}
use rvm.Prelude.{ℕ, zero, suc, ◌+◌, ◌*◌, ◌/◌, ◌%◌, ◌^◌, List, [], ◌∷◌, ◌++◌, take, drop}

-- `to_le_bytes` of an integer of `width` bytes.
abbrev pub to_le_bytes : ℕ → ℕ → List ℕ
to_le_bytes zero x = []
to_le_bytes (suc width) x = x % 256 ∷ to_le_bytes width (x / 256)

abbrev pub from_le_bytes : List ℕ → ℕ
from_le_bytes [] = 0
from_le_bytes (b ∷ bs) = b + 256 * from_le_bytes bs

unfoldable pub xor_fold_256_to_u64 : List ℕ → ℕ
xor_fold_256_to_u64 digest =
    let w0 = from_le_bytes (take 8 digest) in
    let w1 = from_le_bytes (take 8 (drop 8 digest)) in
    let w2 = from_le_bytes (take 8 (drop 16 digest)) in
    let w3 = from_le_bytes (take 8 (drop 24 digest)) in bit_xor (bit_xor (bit_xor w0 w1) w2) w3

unfoldable pub compute_chain_hash : (List ℕ → List ℕ) → ℕ → ℕ → ℕ
compute_chain_hash digest prev_hash sequence =
    xor_fold_256_to_u64 (digest (to_le_bytes 8 prev_hash ++ to_le_bytes 8 sequence))

unfoldable pub fold_u64_to_u32 : ℕ → ℕ
fold_u64_to_u32 h = bit_xor (h / 2 ^ 32) h % 2 ^ 32
