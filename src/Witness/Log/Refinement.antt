-- ===== src/Witness/Log/Refinement.antt =====
-- Proofs about `snapshot_since` of crates/rvm-witness/src/log.rs: the list of records that a ring
-- stands for.
use rvm.Prelude.{
  ℕ, ◌+◌, ◌-◌, ◌^◌, ◌≤◌, ◌<◌, ◌≡◌, ◌∙◌, refl, sym, subst, ap, arith, List, [], ◌∷◌, ◌++◌, ltb,
  if◌then◌else◌, Result, ok, err, length, take, drop, append-take, length-take, length-drop,
  Bool-cases, inl, inr,
}
use rvm.Witness.Record.{WitnessRecord}
use rvm.Witness.Log.{
  WitnessLog, WitnessCheckpoint, WitnessSnapshot, SnapshotSinceError, future_checkpoint,
  records_overwritten, output_too_small, capacity, new, append, checkpoint, snapshot_since,
}
use rvm.Witness.Log.Stamps.{
  new-IsRing, stamps, append_all, append-stamps, append_all-capacity, append_all-sequence,
  append_all-IsRing,
}
use rvm.Witness.Log.Epochs.{new-numbers, snapshot_since-run}

module _ (digest : List ℕ → List ℕ) where
  append_all-append :
      (xs ys : List WitnessRecord) (l : WitnessLog)
      → append_all digest l (xs ++ ys) ≡ append_all digest (append_all digest l xs) ys
  append_all-append [] ys l = refl
  append_all-append (x ∷ xs) ys l = append_all-append xs ys (append digest l x).0

  drop-stamps :
      (xs ys : List WitnessRecord) (l : WitnessLog)
      → drop (length xs) (stamps digest l.chain_hash l.sequence (xs ++ ys))
        ≡ stamps digest (append_all digest l xs).chain_hash (append_all digest l xs).sequence ys
  drop-stamps [] ys l = refl
  drop-stamps (x ∷ xs) ys l =
      ap (drop (length xs)) (sym (append-stamps digest l x (xs ++ ys)))
      ∙ drop-stamps xs ys (append digest l x).0

  -- Only the number of the checkpoint is read.
  snapshot_since-next :
      (l : WitnessLog) (c c' : WitnessCheckpoint) (out : List WitnessRecord)
      → c.next_sequence ≡ c'.next_sequence
      → snapshot_since l c out ≡ snapshot_since l c' out
  unfolding snapshot_since
  snapshot_since-next l c c' out e = rw e refl

  -- Of the records `xs`, those from the `m`-th on are copied, `j` of them.
  abbrev Copies : ℕ → WitnessCheckpoint → (out xs : List WitnessRecord) → (m j : ℕ) → Type 0
  Copies n c out xs m j = snapshot_since (append_all digest (new n) xs) c out ≡ (
    drop m (stamps digest 0 0 xs) ++ drop j out,
    ok (record { count = j; end_checkpoint = checkpoint (append_all digest (new n) xs) }),
  )

  retained :
      (n : ℕ) (before after out : List WitnessRecord) (c : WitnessCheckpoint)
      → 0 < n
      → length before + length after < 2 ^ 64
      → c.next_sequence ≡ length before
      → length after ≤ n
      → length after ≤ length out
      → Copies n c out (before ++ after) (length before) (length after)
  unfolding new
  retained n before after out c pos b e near room =
      let l = append_all digest (new n) before in
      let l' = append_all digest l after in
      let start = new-numbers n in
      let cap = append_all-capacity digest before (new n) in
      let now = append_all-sequence digest before (new n) (omega (arith, b, start.0)) in
      let v =
        append_all-IsRing digest before (new n) (omega (arith, b, start.0)) (new-IsRing n pos) in
      rw (append_all-append before after (new n), drop-stamps before after (new n))
        (snapshot_since-next l' c (checkpoint l) out (omega (arith, e, now, start.0))
          ∙ snapshot_since-run digest l after out v (omega (arith, b, now, start.0))
              (omega (arith, near, cap, start.1)) room)

  -- The guards of `snapshot_since` on a log with `total` records in a ring of `n` slots.
  snapshot_since-guards :
      (l : WitnessLog) (c : WitnessCheckpoint) (n total : ℕ) (out : List WitnessRecord)
      (r : List WitnessRecord × Result SnapshotSinceError WitnessSnapshot)
      → l.sequence ≡ total
      → capacity l ≡ n
      → (c.next_sequence ≤ total
          → total ≤ c.next_sequence + n
          → total - c.next_sequence ≤ length out
          → snapshot_since l c out ≡ r)
      → snapshot_since l c out ≡ (
          if ltb total c.next_sequence
          then (out, err future_checkpoint)
          else if ltb (c.next_sequence + n) total
          then (out, err records_overwritten)
          else if ltb (length out) (total - c.next_sequence)
          then (out, err (output_too_small (total - c.next_sequence)))
          else r)
  unfolding snapshot_since
  snapshot_since-guards l c n total out r now cap h =
      elim (Bool-cases (ltb total c.next_sequence)) [
        | inl e ↦ ground (arith, now, cap, e)
        | inr e1 ↦ elim (Bool-cases (ltb (c.next_sequence + n) total)) [
          | inl e ↦ ground (arith, now, cap, e1, e)
          | inr e2 ↦ elim (Bool-cases (ltb (length out) (total - c.next_sequence))) [
            | inl e ↦ ground (arith, now, cap, e1, e2, e)
            | inr e3 ↦ h (ground arith) (ground arith) (ground arith) ∙ rw (e1, e2, e3) refl
          ]
        ]
      ]

  -- The ring stands for the list of all records that were ever appended, each with its number and
  -- its hashes: from a checkpoint, `snapshot_since` copies the rest of that list. It refuses a
  -- checkpoint past the end, one whose first record is no longer in the ring, and an output that is
  -- too small, in this order, and then leaves the output alone; it never finds a wrong number in
  -- a slot. No more than 2⁶⁴ - 1 records were ever appended.
  pub snapshot_since_refines :
      (n : ℕ) (rs out : List WitnessRecord) (c : WitnessCheckpoint)
      → 0 < n
      → length rs < 2 ^ 64
      → let required = length rs - c.next_sequence in
        snapshot_since (append_all digest (new n) rs) c out ≡ (
          if ltb (length rs) c.next_sequence
          then (out, err future_checkpoint)
          else if ltb (c.next_sequence + n) (length rs)
          then (out, err records_overwritten)
          else if ltb (length out) required
          then (out, err (output_too_small required))
          else (
            drop c.next_sequence (stamps digest 0 0 rs) ++ drop required out,
            ok (record {
              count = required;
              end_checkpoint = checkpoint (append_all digest (new n) rs);
            }),
          ))
  snapshot_since_refines n rs out c pos b =
      let start = new-numbers n in
      let k = c.next_sequence in
      let l = append_all digest (new n) rs in
      let now = append_all-sequence digest rs (new n) (omega (arith, b, start.0)) in
      snapshot_since-guards l c n (length rs) out _ (omega (arith, now, start.0))
        (append_all-capacity digest rs (new n) ∙ start.1)
        (λ le near room.
          let lb = length-take k rs le in
          let la = length-drop k rs in
          let t =
            retained n (take k rs) (drop k rs) out c pos (omega (arith, b, lb, la, le)) (sym lb)
              (omega (arith, la, near)) (omega (arith, la, room)) in
          subst (λ j. Copies n c out rs k j) la
            (subst (λ m. Copies n c out rs m (length (drop k rs))) lb
              (subst (λ xs. Copies n c out xs (length (take k rs)) (length (drop k rs)))
                (append-take k rs) t)))
