-- ===== src/Prelude/Lists.antt =====
-- Arrays `[T; N]` as lists of length `N`: reads, writes, and predicates over every element.
use Prim.Native.Nat.{ℕ, zero, suc, ◌+◌, ◌-◌, ◌≤◌, ◌<◌}
use mathlib.Core.Path.{◌≡◌, refl, ap, ◌∙◌}
use mathlib.Core.Logic.{◌≢◌, inl, inr}
use mathlib.Core.Bool.{Bool, true, false}
use mathlib.Core.List.{List, [], ◌∷◌, ◌++◌}
use mathlib.Core.Option.{Option, none, some}
use native.Mathlib.Omega.{arith}
use rvm.Prelude.Tests.{◌==◌, if◌then◌else◌, Bool-cases}

module _ {ℓ} {A : Type ℓ} where
  abbrev pub length : List A → ℕ
  length [] = 0
  length (x ∷ xs) = suc (length xs)

  abbrev pub get_elem? : List A → ℕ → Option A
  get_elem? [] i = none
  get_elem? (x ∷ xs) zero = some x
  get_elem? (x ∷ xs) (suc i) = get_elem? xs i

  abbrev pub get_or : List A → ℕ → A → A
  get_or [] i d = d
  get_or (x ∷ xs) zero d = x
  get_or (x ∷ xs) (suc i) d = get_or xs i d

  abbrev pub set : List A → ℕ → A → List A
  set [] i v = []
  set (x ∷ xs) zero v = v ∷ xs
  set (x ∷ xs) (suc i) v = x ∷ set xs i v

  abbrev pub replicate : ℕ → A → List A
  replicate zero a = []
  replicate (suc n) a = a ∷ replicate n a

  abbrev pub take : ℕ → List A → List A
  take zero xs = []
  take (suc n) [] = []
  take (suc n) (x ∷ xs) = x ∷ take n xs

  abbrev pub drop : ℕ → List A → List A
  drop zero xs = xs
  drop (suc n) [] = []
  drop (suc n) (x ∷ xs) = drop n xs

  abbrev pub filter : (A → Bool) → List A → List A
  filter p [] = []
  filter p (x ∷ xs) = let rest = filter p xs in if p x then x ∷ rest else rest

  -- `position`: the first element that passes a test, where the list starts at place `i`.
  abbrev pub first_where : (A → Bool) → List A → ℕ → Option ℕ
  first_where p [] i = none
  first_where p (x ∷ xs) i = let rest = first_where p xs (i + 1) in if p x then some i else rest

  -- The elements that pass a test, counted.
  abbrev pub count_where : (A → Bool) → List A → ℕ
  count_where p [] = 0
  count_where p (x ∷ xs) = (if p x then 1 else 0) + count_where p xs

  pub length-append : (xs ys : List A) → length (xs ++ ys) ≡ length xs + length ys
  length-append [] ys = omega arith
  length-append (x ∷ xs) ys = omega (arith, length-append xs ys)

  pub append-take : (n : ℕ) (xs : List A) → take n xs ++ drop n xs ≡ xs
  append-take zero xs = refl
  append-take (suc n) [] = refl
  append-take (suc n) (x ∷ xs) = ap (λ ys. x ∷ ys) (append-take n xs)

  pub length-take : (n : ℕ) (xs : List A) → n ≤ length xs → length (take n xs) ≡ n
  length-take zero xs h = refl
  length-take (suc n) [] h = absurd (omega arith)
  length-take (suc n) (x ∷ xs) h = ap suc (length-take n xs (omega arith))

  pub length-drop : (n : ℕ) (xs : List A) → length (drop n xs) ≡ length xs - n
  length-drop zero xs = omega arith
  length-drop (suc n) [] = omega arith
  length-drop (suc n) (x ∷ xs) = omega (arith, length-drop n xs)

  pub length-set : (xs : List A) (i : ℕ) (v : A) → length (set xs i v) ≡ length xs
  length-set [] i v = refl
  length-set (x ∷ xs) zero v = refl
  length-set (x ∷ xs) (suc i) v = ap suc (length-set xs i v)

  pub length-replicate : (n : ℕ) (a : A) → length (replicate n a) ≡ n
  length-replicate zero a = refl
  length-replicate (suc n) a = ap suc (length-replicate n a)

  pub get_or-set_self :
      (xs : List A) (i : ℕ) (v d : A) → i < length xs → get_or (set xs i v) i d ≡ v
  get_or-set_self [] i v d h = elim h [ ]
  get_or-set_self (x ∷ xs) zero v d h = refl
  get_or-set_self (x ∷ xs) (suc i) v d h = get_or-set_self xs i v d (omega arith)

  pub get_or-set_ne :
      (xs : List A) (i j : ℕ) (v d : A) → i ≢ j → get_or (set xs i v) j d ≡ get_or xs j d
  get_or-set_ne [] i j v d h = refl
  get_or-set_ne (x ∷ xs) zero zero v d h = absurd (h refl)
  get_or-set_ne (x ∷ xs) zero (suc j) v d h = refl
  get_or-set_ne (x ∷ xs) (suc i) zero v d h = refl
  get_or-set_ne (x ∷ xs) (suc i) (suc j) v d h = get_or-set_ne xs i j v d (λ e. h (ap suc e))

  pub get_or-set :
      (xs : List A) (i j : ℕ) (v d : A)
      → i < length xs
      → get_or (set xs i v) j d ≡ (if i == j then v else get_or xs j d)
  get_or-set [] i j v d h = absurd (omega arith)
  get_or-set (x ∷ xs) zero zero v d h = refl
  get_or-set (x ∷ xs) zero (suc j) v d h = ground arith
  get_or-set (x ∷ xs) (suc i) zero v d h = ground arith
  get_or-set (x ∷ xs) (suc i) (suc j) v d h = ground (arith, get_or-set xs i j v d)

  -- Reads outside the array are never made by the source; the default stands for them.
  pub get_or_default : (xs : List A) (i : ℕ) (d : A) → length xs ≤ i → get_or xs i d ≡ d
  get_or_default [] i d h = refl
  get_or_default (x ∷ xs) zero d h = elim h [ ]
  get_or_default (x ∷ xs) (suc i) d h = get_or_default xs i d (omega arith)

  pub get_or-replicate : (n i : ℕ) (a : A) → get_or (replicate n a) i a ≡ a
  get_or-replicate zero i a = refl
  get_or-replicate (suc n) zero a = refl
  get_or-replicate (suc n) (suc i) a = get_or-replicate n i a

  pub get_or-replicate_in : (n i : ℕ) (a d : A) → i < n → get_or (replicate n a) i d ≡ a
  get_or-replicate_in zero i a d h = absurd (omega arith)
  get_or-replicate_in (suc n) zero a d h = refl
  get_or-replicate_in (suc n) (suc i) a d h = get_or-replicate_in n i a d (omega arith)

  pub count_where-le-length : (p : A → Bool) (xs : List A) → count_where p xs ≤ length xs
  count_where-le-length p [] = omega arith
  count_where-le-length p (x ∷ xs) = ground (arith, count_where-le-length p xs)

  -- A write changes the count by the difference at the place written.
  pub count_where-set :
      (p : A → Bool) (xs : List A) (i : ℕ) (v d : A)
      → i < length xs
      → count_where p (set xs i v) + (if p (get_or xs i d) then 1 else 0)
        ≡ count_where p xs + (if p v then 1 else 0)
  count_where-set p [] i v d h = elim h [ ]
  count_where-set p (x ∷ xs) zero v d h = omega arith
  count_where-set p (x ∷ xs) (suc i) v d h = omega (arith, count_where-set p xs i v d (omega arith))

  pub count_where-replicate :
      (p : A → Bool) (n : ℕ) (a : A) → p a ≡ false → count_where p (replicate n a) ≡ 0
  count_where-replicate p zero a h = refl
  count_where-replicate p (suc n) a h = ground (arith, count_where-replicate p n a h)

  abbrev pub All {κ} : (A → Type κ) → List A → Type κ
  All P [] = Unit
  All P (x ∷ xs) = P x × All P xs

  pub All-set {κ} :
      (P : A → Type κ) (xs : List A) (i : ℕ) (v : A) → All P xs → P v → All P (set xs i v)
  All-set P [] i v h hv = tt
  All-set P (x ∷ xs) zero v h hv = (hv, h.1)
  All-set P (x ∷ xs) (suc i) v h hv = (h.0, All-set P xs i v h.1 hv)

  pub All-get_or {κ} :
      (P : A → Type κ) (xs : List A) (i : ℕ) (d : A) → All P xs → i < length xs → P (get_or xs i d)
  All-get_or P [] i d h lt = elim lt [ ]
  All-get_or P (x ∷ xs) zero d h lt = h.0
  All-get_or P (x ∷ xs) (suc i) d h lt = All-get_or P xs i d h.1 (omega arith)

  pub All-replicate {κ} : (P : A → Type κ) (n : ℕ) (a : A) → P a → All P (replicate n a)
  All-replicate P zero a h = tt
  All-replicate P (suc n) a h = (h, All-replicate P n a h)

  pub first_where-some :
      (p : A → Bool) (xs : List A) (k i : ℕ) (d : A)
      → first_where p xs k ≡ some i
      → (j : ℕ) × (i ≡ k + j) × (j < length xs) × (p (get_or xs j d) ≡ true)
  first_where-some p [] k i d e = ground arith
  first_where-some p (x ∷ xs) k i d e = elim (Bool-cases (p x)) [
    | inl t ↦ (0, ground (arith, e, t), omega arith, t)
    | inr f ↦
        let (j, at, lt, t) = first_where-some p xs (k + 1) i d (ground (arith, e, f)) in
        (suc j, omega (arith, at), omega (arith, lt), t)
  ]

  pub first_where-none :
      (p : A → Bool) (xs : List A) (k : ℕ) (d : A)
      → first_where p xs k ≡ none
      → (i : ℕ) → i < length xs
      → p (get_or xs i d) ≡ false
  first_where-none p [] k d e i lt = absurd (omega arith)
  first_where-none p (x ∷ xs) k d e zero lt = ground arith
  first_where-none p (x ∷ xs) k d e (suc i) lt =
      first_where-none p xs (k + 1) d (ground arith) i (omega arith)

  pub first_where-at :
      (p : A → Bool) (xs : List A) (k i : ℕ) (d : A)
      → i < length xs
      → p (get_or xs i d) ≡ true
      → ((j : ℕ) → j < i → p (get_or xs j d) ≡ false)
      → first_where p xs k ≡ some (k + i)
  first_where-at p [] k i d lt e before = absurd (omega arith)
  first_where-at p (x ∷ xs) k zero d lt e before = rw e (ap some (omega arith))
  first_where-at p (x ∷ xs) k (suc i) d lt e before = rw (before 0 (omega arith)) (
      first_where-at p xs (k + 1) i d (omega arith) e (λ j h. before (suc j) (omega arith))
      ∙ ap some (omega arith))

  pub first_where-nowhere :
      (p : A → Bool) (xs : List A) (k : ℕ) (d : A)
      → ((j : ℕ) → j < length xs → p (get_or xs j d) ≡ false)
      → first_where p xs k ≡ none
  first_where-nowhere p [] k d h = refl
  first_where-nowhere p (x ∷ xs) k d h =
      rw (h 0 (omega arith)) (first_where-nowhere p xs (k + 1) d (λ j l. h (suc j) (omega arith)))
