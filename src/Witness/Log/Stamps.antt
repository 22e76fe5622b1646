-- ===== src/Witness/Log/Stamps.antt =====
-- Proofs about `append` of crates/rvm-witness/src/log.rs: the slots that a run of records is
-- written to.
use native.Mathlib.Nat.{mod-eq_of_lt, mod-add-mod, mod-eq-sub-mod, mod-lt, zero-mod}
use rvm.Prelude.{
  ℕ, zero, suc, ◌+◌, ◌-◌, ◌%◌, ◌^◌, ◌≤◌, ◌<◌, ◌≡◌, ◌≢◌, ◌∙◌, refl, sym, ap, arith, List, [], ◌∷◌,
  map, wrapping_add64, length, get_or, length-set, length-replicate, dec_lt, replicate,
  get_or-set_self, get_or-set_ne,
}
use rvm.Witness.Record.{WitnessRecord, zeroed}
use rvm.Witness.Hash.{compute_chain_hash}
use rvm.Witness.Log.{WitnessLog, capacity, new, stamp, append}
use rvm.Witness.Replay.Links.{Linked}

-- The next slot is that of the next number.
pub record IsRing (l : WitnessLog) : Type 0 where
  pub room : 0 < capacity l
  pub at : l.write_pos ≡ l.sequence % capacity l

-- The record without what `append` fills in.
abbrev pub content : WitnessRecord → WitnessRecord
content r = record r { sequence = 0; prev_hash = 0; record_hash = 0 }

-- Two numbers less than `n` apart have different slots.
mod_apart_fuel : (fuel a b n : ℕ) → a ≤ fuel → a < b → b < a + n → a % n ≢ b % n
mod_apart_fuel zero a b n f lt near e = elim (dec_lt b n) [
  | yes below ↦
      omega (arith, e, mod-eq_of_lt {n = a} {m = n} (omega (arith, f, below)), mod-eq_of_lt below)
  | no above ↦ absurd (omega (arith, f, lt, near, above))
]
mod_apart_fuel (suc fuel) a b n f lt near e = elim (dec_lt a n) [
  | yes low ↦ elim (dec_lt b n) [
    | yes below ↦ omega (arith, e, mod-eq_of_lt low, mod-eq_of_lt below)
    | no above ↦
        let down = mod-eq-sub-mod {n = b} {m = n} (omega (arith, above)) in
        let small = mod-eq_of_lt {n = b - n} {m = n} (omega (arith, low)) in
        omega (arith, e, mod-eq_of_lt low, down, small)
  ]
  | no high ↦
      mod_apart_fuel fuel (a - n) (b - n) n (omega (arith, f, lt, near, high))
        (omega (arith, high, lt)) (omega (arith, near, high))
        (sym (mod-eq-sub-mod {n = a} {m = n} (omega (arith, high)))
          ∙ e
          ∙ mod-eq-sub-mod {n = b} {m = n} (omega (arith, high, lt)))
]

pub mod_apart : (a b n : ℕ) → a < b → b < a + n → a % n ≢ b % n
mod_apart a b n = mod_apart_fuel a a b n (omega arith)

pub new-IsRing : (n : ℕ) → 0 < n → IsRing (new n)
unfolding new
new-IsRing n pos = record {
  room = omega (arith, pos, length-replicate n zeroed);
  at = sym (zero-mod (length (replicate n zeroed)));
}

module _ (digest : List ℕ → List ℕ) where
  -- The records as they are written, from number `s` on, where the hash of the chain is `h`.
  abbrev pub stamps : ℕ → ℕ → List WitnessRecord → List WitnessRecord
  stamps h s [] = []
  stamps h s (r ∷ rs) =
      stamp digest h s r ∷ stamps (compute_chain_hash digest h s) (wrapping_add64 s 1) rs

  abbrev pub append_all : WitnessLog → List WitnessRecord → WitnessLog
  append_all l [] = l
  append_all l (r ∷ rs) = append_all (append digest l r).0 rs

  pub length-stamps : (h s : ℕ) (rs : List WitnessRecord) → length (stamps h s rs) ≡ length rs
  length-stamps h s [] = refl
  length-stamps h s (r ∷ rs) =
      ap suc (length-stamps (compute_chain_hash digest h s) (wrapping_add64 s 1) rs)

  pub stamps-content :
      (h s : ℕ) (rs : List WitnessRecord) → map content (stamps h s rs) ≡ map content rs
  stamps-content h s [] = refl
  stamps-content h s (r ∷ rs) =
      ap (λ xs. content r ∷ xs)
        (stamps-content (compute_chain_hash digest h s) (wrapping_add64 s 1) rs)

  pub stamps-Linked : (h s : ℕ) (rs : List WitnessRecord) → Linked digest h s (stamps h s rs)
  stamps-Linked h s [] = tt
  stamps-Linked h s (r ∷ rs) =
      (refl, refl, refl, stamps-Linked (compute_chain_hash digest h s) (wrapping_add64 s 1) rs)

  pub append-capacity :
      (l : WitnessLog) (r : WitnessRecord) → capacity (append digest l r).0 ≡ capacity l
  unfolding append
  append-capacity l r = length-set l.records l.write_pos (stamp digest l.chain_hash l.sequence r)

  pub append-sequence :
      (l : WitnessLog) (r : WitnessRecord)
      → l.sequence + 1 < 2 ^ 64
      → (append digest l r).0.sequence ≡ l.sequence + 1
  unfolding append
  append-sequence l r b = mod-eq_of_lt b

  pub append-IsRing :
      (l : WitnessLog) (r : WitnessRecord)
      → l.sequence + 1 < 2 ^ 64
      → IsRing l
      → IsRing (append digest l r).0
  unfolding append
  append-IsRing l r b v = record {
    room = omega (arith, v.room, append-capacity l r);
    at =
        rw
          (
            v.at,
            mod-eq_of_lt b,
            length-set l.records (l.sequence % capacity l) (stamp digest l.chain_hash l.sequence r),
          )
          (mod-add-mod l.sequence (capacity l) 1);
  }

  append-place :
      (l : WitnessLog) (r : WitnessRecord) (j : ℕ)
      → l.sequence + 1 < 2 ^ 64
      → ((append digest l r).0.sequence + j) % capacity (append digest l r).0
        ≡ (l.sequence + suc j) % capacity l
  append-place l r j b =
      rw (append-sequence l r b, append-capacity l r) (ap (λ x. x % capacity l) (omega arith))

  pub append-stamps :
      (l : WitnessLog) (r : WitnessRecord) (rs : List WitnessRecord)
      → stamps (append digest l r).0.chain_hash (append digest l r).0.sequence rs
        ≡ stamps
            (compute_chain_hash digest l.chain_hash l.sequence)
            (wrapping_add64 l.sequence 1)
            rs
  unfolding append
  append-stamps l r rs = refl

  append-slot :
      (l : WitnessLog) (r : WitnessRecord)
      → IsRing l
      → get_or (append digest l r).0.records (l.sequence % capacity l) zeroed
        ≡ stamp digest l.chain_hash l.sequence r
  unfolding append
  append-slot l r v = rw v.at (
      get_or-set_self l.records (l.sequence % capacity l) (stamp digest l.chain_hash l.sequence r)
        zeroed (mod-lt l.sequence v.room))

  pub append_all-capacity :
      (rs : List WitnessRecord) (l : WitnessLog) → capacity (append_all l rs) ≡ capacity l
  append_all-capacity [] l = refl
  append_all-capacity (r ∷ rs) l =
      append_all-capacity rs (append digest l r).0 ∙ append-capacity l r

  pub append_all-sequence :
      (rs : List WitnessRecord) (l : WitnessLog)
      → l.sequence + length rs < 2 ^ 64
      → (append_all l rs).sequence ≡ l.sequence + length rs
  append_all-sequence [] l b = omega arith
  append_all-sequence (r ∷ rs) l b =
      let one = append-sequence l r (omega (arith, b)) in
      let rest = append_all-sequence rs (append digest l r).0 (omega (arith, b, one)) in
      omega (arith, rest, one)

  pub append_all-IsRing :
      (rs : List WitnessRecord) (l : WitnessLog)
      → l.sequence + length rs < 2 ^ 64
      → IsRing l
      → IsRing (append_all l rs)
  append_all-IsRing [] l b v = v
  append_all-IsRing (r ∷ rs) l b v =
      append_all-IsRing rs (append digest l r).0
        (omega (arith, b, append-sequence l r (omega (arith, b))))
        (append-IsRing l r (omega (arith, b)) v)

  get_or-append_other :
      (l : WitnessLog) (r : WitnessRecord) (p : ℕ)
      → l.write_pos ≢ p
      → get_or (append digest l r).0.records p zeroed ≡ get_or l.records p zeroed
  unfolding append
  get_or-append_other l r p ne =
      get_or-set_ne l.records l.write_pos p (stamp digest l.chain_hash l.sequence r) zeroed ne

  -- A slot that no number of the run has is left alone.
  append_all-other :
      (rs : List WitnessRecord) (l : WitnessLog) (p : ℕ)
      → IsRing l
      → l.sequence + length rs < 2 ^ 64
      → ((j : ℕ) → j < length rs → (l.sequence + j) % capacity l ≢ p)
      → get_or (append_all l rs).records p zeroed ≡ get_or l.records p zeroed
  append_all-other [] l p v b ne = refl
  append_all-other (r ∷ rs) l p v b ne =
      let one = append-sequence l r (omega (arith, b)) in
      append_all-other rs (append digest l r).0 p (append-IsRing l r (omega (arith, b)) v)
        (omega (arith, b, one))
        (λ j lt e. ne (suc j) (omega (arith, lt)) (sym (append-place l r j (omega (arith, b))) ∙ e))
      ∙ get_or-append_other l r p
          (λ e. ne 0 (omega arith) (ap (λ x. x % capacity l) (omega arith) ∙ sym v.at ∙ e))

  -- A run that fits into the ring is there when it ends.
  pub append_all-slot :
      (rs : List WitnessRecord) (l : WitnessLog) (i : ℕ)
      → IsRing l
      → l.sequence + length rs < 2 ^ 64
      → length rs ≤ capacity l
      → i < length rs
      → get_or (append_all l rs).records ((l.sequence + i) % capacity l) zeroed
        ≡ get_or (stamps l.chain_hash l.sequence rs) i zeroed
  append_all-slot [] l i v b fits lt = absurd (omega arith)
  append_all-slot (r ∷ rs) l zero v b fits lt =
      let tight : l.sequence + 1 < 2 ^ 64 = omega (arith, b) in
      let one = append-sequence l r tight in
      let here : l.sequence % capacity l ≡ (l.sequence + 0) % capacity l =
        ap (λ x. x % capacity l) (omega arith) in
      append_all-other rs (append digest l r).0 ((l.sequence + 0) % capacity l)
        (append-IsRing l r tight v) (omega (arith, b, one))
        (λ j lt e.
          mod_apart l.sequence (l.sequence + suc j) (capacity l) (omega arith)
            (omega (arith, fits, lt)) (here ∙ sym e ∙ append-place l r j tight))
      ∙ ap (λ x. get_or (append digest l r).0.records x zeroed) (sym here)
      ∙ append-slot l r v
  append_all-slot (r ∷ rs) l (suc i) v b fits lt =
      let tight : l.sequence + 1 < 2 ^ 64 = omega (arith, b) in
      ap (λ x. get_or (append_all (append digest l r).0 rs).records x zeroed)
        (sym (append-place l r i tight))
      ∙ append_all-slot rs (append digest l r).0 i (append-IsRing l r tight v)
          (omega (arith, b, append-sequence l r tight)) (omega (arith, fits, append-capacity l r))
          (omega (arith, lt))
      ∙ ap (λ xs. get_or xs i zeroed) (append-stamps l r rs)
