-- ===== src/Partition/Queue/Mask.antt =====
-- Proofs about the mask of `MessageQueue` of crates/rvm-partition/src/ipc.rs.
use rvm.Prelude.{
  ℕ, zero, suc, ◌+◌, ◌-◌, ◌/◌, ◌%◌, ◌≤◌, ◌<◌, ◌≡◌, refl, arith, ltb, inl, inr, Bool-cases,
  if◌then◌else◌,
}
use rvm.Partition.Queue.{bit_and, next_index}

unfoldable pub pow2 : ℕ → ℕ
pow2 zero = 1
pow2 (suc k) = pow2 k + pow2 k

pub pow2_pos : (k : ℕ) → 0 < pow2 k
unfolding pow2
pow2_pos zero = omega arith
pow2_pos (suc k) = omega (arith, pow2_pos k)

-- The halves of a mask, and its last digit.
mask_half : (p : ℕ) → 0 < p → ((p + p - 1) / 2 ≡ p - 1) × ((p + p - 1) % 2 ≡ 1)
mask_half p h = omega arith

double_half : (p : ℕ) → ((p + p) / 2 ≡ p) × ((p + p) % 2 ≡ 0)
double_half p = omega arith

bit_and_zero : (width a : ℕ) → bit_and width a 0 ≡ 0
unfolding bit_and
bit_and_zero zero a = refl
bit_and_zero (suc width) a = ground (arith, bit_and_zero width (a / 2))

bit_and_inside : (width k x : ℕ) → k ≤ width → x < pow2 k → bit_and width x (pow2 k - 1) ≡ x
unfolding bit_and pow2
bit_and_inside zero zero x le lt = omega arith
bit_and_inside (suc width) zero x le lt = ground (arith, bit_and_zero width (x / 2))
bit_and_inside zero (suc k) x le lt = absurd (omega arith)
bit_and_inside (suc width) (suc k) x le lt =
    let p = pow2_pos k in
    let (half, digit) = mask_half (pow2 k) p in
    rw (half, digit) (ground (arith, bit_and_inside width k (x / 2) (omega arith) (omega arith)))

bit_and_end : (width k : ℕ) → k ≤ width → bit_and width (pow2 k) (pow2 k - 1) ≡ 0
unfolding bit_and pow2
bit_and_end zero zero le = refl
bit_and_end (suc width) zero le = ground (arith, bit_and_zero width 0)
bit_and_end zero (suc k) le = absurd (omega arith)
bit_and_end (suc width) (suc k) le =
    let (half, digit) = mask_half (pow2 k) (pow2_pos k) in
    let (even, none) = double_half (pow2 k) in
    rw (half, digit, even, none) (ground (arith, bit_and_end width k (omega arith)))

-- For an index of the ring the mask is the step around it.
pub next_index_wraps :
    (k i : ℕ)
    → k ≤ 64
    → i < pow2 k
    → next_index (pow2 k) i ≡ (if ltb (i + 1) (pow2 k) then i + 1 else 0)
unfolding next_index
next_index_wraps k i le lt = elim (Bool-cases (ltb (i + 1) (pow2 k))) [
  | inl e ↦ rw e (bit_and_inside 64 k (i + 1) le (ground arith))
  | inr e ↦ let last : i + 1 ≡ pow2 k = ground arith in rw (e, last) (bit_and_end 64 k le)
]
