-- ===== src/Types/Capability/Digits.antt =====
-- The set operations of `bitflags` on the eight binary digits of a `u8`, and their laws: a concrete
-- instance of the parameter.
use rvm.Prelude.{
  ℕ, zero, suc, ◌+◌, ◌*◌, ◌/◌, ◌%◌, ◌≤◌, ◌≡◌, refl, Bool, true, false, ◌&&◌, ◌||◌, not, ◌==◌,
  if◌then◌else◌, arith,
}
use rvm.Types.Capability.{Bitflags, IsLawful, grant_once}

abbrev odd : ℕ → Bool
odd n = n % 2 == 1

unfoldable pub contains_digits : ℕ → ℕ → ℕ → Bool
contains_digits zero a b = true
contains_digits (suc n) a b = (not (odd b) || odd a) && contains_digits n (a / 2) (b / 2)

unfoldable pub difference_digits : ℕ → ℕ → ℕ → ℕ
difference_digits zero a b = 0
difference_digits (suc n) a b =
    2 * difference_digits n (a / 2) (b / 2) + (if odd b then 0 else a % 2)

contains_digits_refl : (n a : ℕ) → contains_digits n a a ≡ true
unfolding contains_digits
contains_digits_refl zero a = refl
contains_digits_refl (suc n) a = ground (arith, contains_digits_refl n (a / 2))

contains_digits_trans :
    (n a b c : ℕ)
    → contains_digits n a b ≡ true
    → contains_digits n b c ≡ true
    → contains_digits n a c ≡ true
unfolding contains_digits
contains_digits_trans zero a b c p q = refl
contains_digits_trans (suc n) a b c p q =
    ground (arith, contains_digits_trans n (a / 2) (b / 2) (c / 2))

half_digit : (x d : ℕ) → d ≤ 1 → ((2 * x + d) / 2 ≡ x) × ((2 * x + d) % 2 ≡ d)
half_digit x d h = omega arith

contains-difference_digits : (n a b : ℕ) → contains_digits n a (difference_digits n a b) ≡ true
unfolding contains_digits difference_digits
contains-difference_digits zero a b = refl
contains-difference_digits (suc n) a b = ground (
  arith,
  contains-difference_digits n (a / 2) (b / 2),
  half_digit (difference_digits n (a / 2) (b / 2)) (if odd b then 0 else a % 2),
)

contains-difference_once :
    (a : ℕ) → contains_digits 8 (difference_digits 8 a grant_once) grant_once ≡ false
unfolding contains_digits difference_digits
contains-difference_once a = ground arith

instance abbrev pub byte_flags : Bitflags
byte_flags = record { contains = contains_digits 8; difference = difference_digits 8 }

pub byte_flags-IsLawful : IsLawful byte_flags
byte_flags-IsLawful = record {
  contains_refl = contains_digits_refl 8;
  contains_trans = contains_digits_trans 8;
  contains_difference = contains-difference_digits 8;
  difference_once = contains-difference_once;
}
