-- ===== src/Witness/Log/Epochs.antt =====
-- Proofs about `snapshot_since` of crates/rvm-witness/src/log.rs: what it returns for the records that
-- were appended after a checkpoint.
use rvm.Prelude.{
  ℕ, zero, suc, ◌+◌, ◌-◌, ◌%◌, ◌^◌, ◌≤◌, ◌<◌, ◌≡◌, ◌∙◌, refl, sym, ap, arith, false, List, [], ◌∷◌,
  ◌++◌, map, ltb, ◌==◌, if◌then◌else◌, ok, err, wrapping_add64, length, length-replicate, get_or,
  drop,
}
use rvm.Witness.Record.{WitnessRecord, zeroed}
use rvm.Witness.Hash.{compute_chain_hash}
use rvm.Witness.Log.{WitnessLog, capacity, new, checkpoint, copy_since, finish, snapshot_since}
use rvm.Witness.Log.Stamps.{
  IsRing, content, new-IsRing, stamps, append_all, length-stamps, stamps-content, stamps-Linked,
  append_all-capacity, append_all-sequence, append_all-IsRing, append_all-slot,
}
use rvm.Witness.Replay.{empty_log, verify_chain_from}
use rvm.Witness.Replay.Links.{verify_chain_from-Linked}

-- The slots hold the records `xs`, from number `first + offset` on.
record IsHeld (l : WitnessLog) (first offset : ℕ) (xs : List WitnessRecord) : Type 0 where
  slots :
      (i : ℕ)
      → i < length xs
      → get_or l.records ((first + (offset + i)) % capacity l) zeroed ≡ get_or xs i zeroed
  numbers : (i : ℕ) → i < length xs → (get_or xs i zeroed).sequence ≡ first + (offset + i)
  bounded : first + (offset + length xs) < 2 ^ 64

copy_since-held :
    (l : WitnessLog) (xs : List WitnessRecord) (first offset : ℕ) (out : List WitnessRecord)
    → IsHeld l first offset xs
    → length xs ≤ length out
    → copy_since l first offset (length xs) out ≡ (xs ++ drop (length xs) out, ok tt)
unfolding copy_since
copy_since-held l [] first offset out h fits = refl
copy_since-held l (x ∷ xs) first offset [] h fits = absurd (omega arith)
copy_since-held l (x ∷ xs) first offset (slot ∷ out) h fits =
    let at : get_or l.records ((first + offset) % capacity l) zeroed ≡ x =
      ap (λ j. get_or l.records ((first + j) % capacity l) zeroed) (omega arith)
      ∙ h.slots 0 (omega arith) in
    let number : x.sequence ≡ first + offset = omega (arith, h.numbers 0 (omega arith)) in
    let rest =
      copy_since-held l xs first (offset + 1) out
        (record {
          slots = λ i lt.
              ap (λ j. get_or l.records ((first + j) % capacity l) zeroed) (omega arith)
              ∙ h.slots (suc i) (omega (arith, lt));
          numbers = λ i lt. omega (arith, h.numbers (suc i) (omega (arith, lt)));
          bounded = omega (arith, h.bounded);
        })
        (omega (arith, fits)) in
    ground (arith, at, number, rest, h.bounded)

-- Every record of a run has the number of its place.
stamps-sequence :
    (digest : List ℕ → List ℕ) (h s : ℕ) (rs : List WitnessRecord)
    → s + length rs < 2 ^ 64
    → (i : ℕ) → i < length rs
    → (get_or (stamps digest h s rs) i zeroed).sequence ≡ s + i
stamps-sequence digest h s [] b i lt = absurd (omega arith)
stamps-sequence digest h s (r ∷ rs) b zero lt = omega arith
stamps-sequence digest h s (r ∷ rs) b (suc i) lt = omega (
  arith,
  b,
  stamps-sequence digest (compute_chain_hash digest h s) (wrapping_add64 s 1) rs (omega (arith, b))
      i (omega (arith, lt)),
)

pub new-numbers : (n : ℕ) → ((new n).sequence ≡ 0) × (capacity (new n) ≡ n)
unfolding new
new-numbers n = (refl, length-replicate n zeroed)

module _ (digest : List ℕ → List ℕ) where
  -- From a log that has room for the run, the run is copied.
  pub snapshot_since-run :
      (l : WitnessLog) (after out : List WitnessRecord)
      → IsRing l
      → l.sequence + length after < 2 ^ 64
      → length after ≤ capacity l
      → length after ≤ length out
      → snapshot_since (append_all digest l after) (checkpoint l) out ≡ (
        stamps digest l.chain_hash l.sequence after ++ drop (length after) out,
        ok (record {
          count = length after;
          end_checkpoint = checkpoint (append_all digest l after);
        }),
      )
  unfolding snapshot_since finish
  snapshot_since-run l after out v b fits room =
      let xs = stamps digest l.chain_hash l.sequence after in
      let l' = append_all digest l after in
      let size = length-stamps digest l.chain_hash l.sequence after in
      let cap = append_all-capacity digest after l in
      let now = append_all-sequence digest after l b in
      let required : l'.sequence - l.sequence ≡ length after = omega (arith, now) in
      let copied =
        copy_since-held l' xs l.sequence 0 out
          (record {
            slots = λ i lt. rw cap (
                ap (λ j. get_or l'.records ((l.sequence + j) % capacity l) zeroed) (omega arith)
                ∙ append_all-slot digest after l i v b fits (omega (arith, lt, size)));
            numbers = λ i lt. omega (
              arith,
              stamps-sequence digest l.chain_hash l.sequence after b i (omega (arith, lt, size)),
            );
            bounded = omega (arith, b, size);
          })
          (omega (arith, room, size)) in
      let future : ltb l'.sequence l.sequence ≡ false = ground (arith, now) in
      let kept : ltb l.sequence (l'.sequence - capacity l') ≡ false = ground (arith, now, cap) in
      let wide : ltb (length out) (l'.sequence - l.sequence) ≡ false = ground (arith, now) in
      rw (future, kept, wide) (rw (required, sym size) (rw copied refl))

  verify_chain_from-stamps :
      (h s : ℕ) (rs : List WitnessRecord)
      → verify_chain_from digest (stamps digest h s rs) h s
        ≡ (if length rs == 0 then err empty_log else ok (length rs))
  unfolding verify_chain_from
  verify_chain_from-stamps h s [] = refl
  verify_chain_from-stamps h s (r ∷ rs) =
      let xs = stamps digest h s (r ∷ rs) in
      let size = length-stamps digest h s (r ∷ rs) in
      let full : length (r ∷ rs) == 0 ≡ false = ground arith in
      rw full (
        verify_chain_from-Linked digest h s xs (omega arith) (stamps-Linked digest h s (r ∷ rs))
        ∙ ap ok size)

  -- A checkpoint of a log that was used before, records that are then appended, at most as many as
  -- the ring has slots, and an output with room for them: `snapshot_since` copies exactly these
  -- records into the front of the output, with their content, returns their number and the
  -- checkpoint of now, and `verify_chain_from` accepts the copy from the old checkpoint on (it
  -- refuses an empty one). No more than 2⁶⁴ - 1 records were ever appended.
  pub snapshot_since-append_all :
      (n : ℕ) (before after out : List WitnessRecord)
      → 0 < n
      → length before + length after < 2 ^ 64
      → length after ≤ n
      → length after ≤ length out
      → let l = append_all digest (new n) before in
        let l' = append_all digest l after in
        (copied : List WitnessRecord) × (snapshot_since l' (checkpoint l) out ≡ (
          copied ++ drop (length after) out,
          ok (record { count = length after; end_checkpoint = checkpoint l' }),
        ))
        × (map content copied ≡ map content after)
        × (verify_chain_from digest copied l.chain_hash l.sequence
            ≡ (if length after == 0 then err empty_log else ok (length after)))
  snapshot_since-append_all n before after out pos b fits room =
      let l = append_all digest (new n) before in
      let start = new-numbers n in
      let cap = append_all-capacity digest before (new n) in
      let now = append_all-sequence digest before (new n) (omega (arith, b, start.0)) in
      let v =
        append_all-IsRing digest before (new n) (omega (arith, b, start.0)) (new-IsRing n pos) in
      (
        stamps digest l.chain_hash l.sequence after,
        snapshot_since-run l after out v (omega (arith, b, now, start.0))
            (omega (arith, fits, cap, start.1)) room,
        stamps-content digest l.chain_hash l.sequence after,
        verify_chain_from-stamps l.chain_hash l.sequence after,
      )
