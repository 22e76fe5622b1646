-- ===== src/Prelude/Slots.antt =====
-- Arrays `[Option<T>; N]` as slots: the first one that holds what is looked for, and empty ones.
use Prim.Native.Nat.{ℕ, zero, suc, ◌<◌}
use mathlib.Core.Path.{◌≡◌, refl, sym}
use mathlib.Core.Logic.{inl, inr}
use mathlib.Core.Bool.{Bool, true, false}
use mathlib.Core.List.{List, [], ◌∷◌}
use mathlib.Core.Option.{Option, none, some}
use native.Mathlib.Omega.{arith}
use rvm.Prelude.Tests.{if◌then◌else◌, is_some, is_none, is_some_and, Option-cases}
use rvm.Prelude.Lists.{length, get_or, count_where, first_where, first_where-some, first_where-none}

-- The first element of an array of options that is there and passes a test.
abbrev pub find_some {ℓ} : {A : Type ℓ} → (A → Bool) → List (Option A) → Option A
find_some p [] = none
find_some p (o ∷ os) = let rest = find_some p os in if is_some_and o p then o else rest

pub find_some-at {ℓ} :
    {A : Type ℓ} (p : A → Bool) (xs : List (Option A)) (i : ℕ)
    → i < length xs
    → is_some_and (get_or xs i none) p ≡ true
    → ((j : ℕ) → j < i → is_some_and (get_or xs j none) p ≡ false)
    → find_some p xs ≡ get_or xs i none
find_some-at p [] i lt e before = absurd (omega arith)
find_some-at p (o ∷ os) zero lt e before = rw e refl
find_some-at p (o ∷ os) (suc i) lt e before =
    rw (before 0 (omega arith))
      (find_some-at p os i (omega arith) e (λ j h. before (suc j) (omega arith)))

pub find_some-nowhere {ℓ} :
    {A : Type ℓ} (p : A → Bool) (xs : List (Option A))
    → ((j : ℕ) → j < length xs → is_some_and (get_or xs j none) p ≡ false)
    → find_some p xs ≡ none
find_some-nowhere p [] h = refl
find_some-nowhere p (o ∷ os) h =
    rw (h 0 (omega arith)) (find_some-nowhere p os (λ j l. h (suc j) (omega arith)))

none_of_is_none {ℓ} : {A : Type ℓ} (o : Option A) → is_none o ≡ true → o ≡ none
none_of_is_none none h = refl
none_of_is_none (some l) h = ground (arith, h)

full_count {ℓ} :
    {A : Type ℓ} (xs : List (Option A))
    → ((i : ℕ) → i < length xs → is_none (get_or xs i none) ≡ false)
    → count_where is_some xs ≡ length xs
full_count [] h = refl
full_count (none ∷ xs) h = ground (arith, h 0 (omega arith))
full_count (some l ∷ xs) h = omega (arith, full_count xs (λ i lt. h (suc i) (omega (arith, lt))))

-- With fewer elements than slots, a slot is empty.
pub vacant_slot {ℓ} :
    {A : Type ℓ} (xs : List (Option A))
    → count_where is_some xs < length xs
    → (j : ℕ) × (first_where is_none xs 0 ≡ some j) × (j < length xs) × (get_or xs j none ≡ none)
vacant_slot xs h = elim (Option-cases (first_where is_none xs 0)) [
  | inl e ↦ absurd (omega (arith, h, full_count xs (first_where-none is_none xs 0 none e)))
  | inr (j, e) ↦
      let (k, eq, lt, t) = first_where-some is_none xs 0 j none e in
      let same : k ≡ j = omega (arith, eq) in
      (j, e, omega (arith, eq, lt), none_of_is_none (get_or xs j none) (rw (sym same) t))
]
