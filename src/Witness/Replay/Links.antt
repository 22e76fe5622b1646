-- ===== src/Witness/Replay/Links.antt =====
-- Proofs about crates/rvm-witness/src/replay.rs: the links that `verify_chain_from` checks.
use rvm.Prelude.{
  ℕ, zero, suc, ◌+◌, ◌%◌, ◌^◌, ◌<◌, ◌≡◌, ◌↔◌, ◌∙◌, refl, sym, arith, List, [], ◌∷◌, ok,
  wrapping_add64, length, get_or,
}
use rvm.Witness.Record.{WitnessRecord, zeroed}
use rvm.Witness.Hash.{compute_chain_hash, fold_u64_to_u32}
use rvm.Witness.Replay.{verify_records, verify_chain_from}

module _ (digest : List ℕ → List ℕ) where
  -- The full hash of the chain after `i` records from number `s` on, where it was `h` before.
  abbrev pub chain_at : ℕ → ℕ → ℕ → ℕ
  chain_at h s zero = h
  chain_at h s (suc i) = chain_at (compute_chain_hash digest h s) (wrapping_add64 s 1) i

  -- The record stands `i` places behind the start of the chain.
  abbrev pub IsLink : ℕ → ℕ → ℕ → WitnessRecord → Type 0
  IsLink h s i r =
      (r.sequence ≡ (s + i) % 2 ^ 64)
      × (r.prev_hash ≡ fold_u64_to_u32 (chain_at h s i))
      × (r.record_hash ≡ fold_u64_to_u32 (chain_at h s (suc i)))

  -- The same of all records, in the order of the loop.
  abbrev pub Linked : ℕ → ℕ → List WitnessRecord → Type 0
  Linked h s [] = Unit
  Linked h s (r ∷ rs) =
      (r.sequence ≡ s)
      × (r.prev_hash ≡ fold_u64_to_u32 h)
      × (r.record_hash ≡ fold_u64_to_u32 (compute_chain_hash digest h s))
      × Linked (compute_chain_hash digest h s) (wrapping_add64 s 1) rs

  pub verify_records-Linked :
      (n h s : ℕ) (rs : List WitnessRecord) → Linked h s rs → verify_records digest n h s rs ≡ ok n
  unfolding verify_records
  verify_records-Linked n h s [] l = refl
  verify_records-Linked n h s (r ∷ rs) (e, p, c, l) = ground (
    arith,
    e,
    p,
    c,
    verify_records-Linked n (compute_chain_hash digest h s) (wrapping_add64 s 1) rs l,
  )

  pub verify_chain_from-Linked :
      (h s : ℕ) (rs : List WitnessRecord)
      → 0 < length rs
      → Linked h s rs
      → verify_chain_from digest rs h s ≡ ok (length rs)
  unfolding verify_chain_from
  verify_chain_from-Linked h s [] pos l = absurd (omega arith)
  verify_chain_from-Linked h s (r ∷ rs) pos l =
      verify_records-Linked (length (r ∷ rs)) h s (r ∷ rs) l

  verify_records-inv :
      (n m h s : ℕ) (rs : List WitnessRecord)
      → verify_records digest n h s rs ≡ ok m
      → (m ≡ n) × Linked h s rs
  unfolding verify_records
  verify_records-inv n m h s [] e = ground arith
  verify_records-inv n m h s (r ∷ rs) e =
      ground (arith, verify_records-inv n m (compute_chain_hash digest h s) (wrapping_add64 s 1) rs)

  step-mod : (s i : ℕ) → (wrapping_add64 s 1 + i) % 2 ^ 64 ≡ (s + suc i) % 2 ^ 64
  step-mod s i = omega arith

  Linked-IsLink :
      (h s : ℕ) (rs : List WitnessRecord)
      → s < 2 ^ 64
      → Linked h s rs
      → (i : ℕ) → i < length rs
      → IsLink h s i (get_or rs i zeroed)
  Linked-IsLink h s [] b l i lt = absurd (omega arith)
  Linked-IsLink h s (r ∷ rs) b (e, p, c, l) zero lt = (omega (arith, e), p, c)
  Linked-IsLink h s (r ∷ rs) b (e, p, c, l) (suc i) lt =
      let (e', p', c') =
        Linked-IsLink (compute_chain_hash digest h s) (wrapping_add64 s 1) rs (omega arith) l i
          (omega arith) in
      (e' ∙ step-mod s i, p', c')

  IsLink-Linked :
      (h s : ℕ) (rs : List WitnessRecord)
      → s < 2 ^ 64
      → ((i : ℕ) → i < length rs → IsLink h s i (get_or rs i zeroed))
      → Linked h s rs
  IsLink-Linked h s [] b f = tt
  IsLink-Linked h s (r ∷ rs) b f =
      let (e, p, c) = f 0 (omega arith) in
      (
        omega (arith, e),
        p,
        c,
        IsLink-Linked (compute_chain_hash digest h s) (wrapping_add64 s 1) rs (omega arith) (λ i lt.
            let (e', p', c') = f (suc i) (omega arith) in (e' ∙ sym (step-mod s i), p', c')),
      )

  -- The check of a chain from number `s`, a `u64`, on accepts exactly a list that is not empty and
  -- in which every record has the number of its place and the hashes of the chain at its place; it
  -- then returns how many records there are. The other fields of the records have no part in it.
  pub verify_chain_from_iff :
      (rs : List WitnessRecord) (h s n : ℕ)
      → s < 2 ^ 64
      → (verify_chain_from digest rs h s ≡ ok n) ↔ (
          (0 < length rs)
          × (n ≡ length rs)
          × ((i : ℕ) → i < length rs → IsLink h s i (get_or rs i zeroed)))
  unfolding verify_chain_from
  verify_chain_from_iff [] h s n b = ((λ e. ground arith), (λ p. absurd (omega (arith, p.0))))
  verify_chain_from_iff (r ∷ rs) h s n b = (
    (λ e.
        let (m, l) = verify_records-inv (length (r ∷ rs)) n h s (r ∷ rs) e in
        (omega arith, m, Linked-IsLink h s (r ∷ rs) b l)),
    (λ p.
        let (pos, m, f) = p in
        rw m
          (verify_records-Linked (length (r ∷ rs)) h s (r ∷ rs) (IsLink-Linked h s (r ∷ rs) b f))),
  )
