-- ===== src/Witness/Log.antt =====
-- crates/rvm-witness/src/log.rs: `WitnessLog`, a ring of `N` records behind a lock. `N`, which is not
-- zero, is the length of the array. Every call holds the lock from its first read to its end, so it
-- is one step. The digest and the signer are arguments.
pub mod Stamps
pub mod Epochs
pub mod Refinement
mod Tests
use rvm.Prelude.{
  ℕ, zero, suc, ◌+◌, ◌-◌, ◌%◌, Bool, ◌&&◌, Option, none, some, List, [], ◌∷◌, ltb, leb, ◌==◌,
  if◌then◌else◌, Result, ok, err, u64_max, wrapping_add64, get_or, set, replicate, length,
}
use rvm.Witness.Record.{WitnessRecord, zeroed}
use rvm.Witness.Hash.{compute_chain_hash, fold_u64_to_u32}

-- `struct WitnessLogInner<N>`.
pub record WitnessLog : Type 0 where
  pub records : List WitnessRecord
  pub write_pos : ℕ
  pub chain_hash : ℕ
  pub sequence : ℕ
  pub total_emitted : ℕ

-- `struct WitnessCheckpoint`.
pub record WitnessCheckpoint : Type 0 where
  pub next_sequence : ℕ
  pub chain_hash : ℕ

-- `struct WitnessSnapshot`.
pub record WitnessSnapshot : Type 0 where
  pub count : ℕ
  pub end_checkpoint : WitnessCheckpoint

-- `enum SnapshotSinceError`.
pub data SnapshotSinceError : Type 0 where
  future_checkpoint records_overwritten : SnapshotSinceError
  output_too_small : ℕ → SnapshotSinceError
  sequence_mismatch : SnapshotSinceError

abbrev pub capacity : WitnessLog → ℕ
capacity l = length l.records

unfoldable pub new : ℕ → WitnessLog
new n = record {
  records = replicate n zeroed;
  write_pos = 0;
  chain_hash = 0;
  sequence = 0;
  total_emitted = 0;
}

module _ (digest : List ℕ → List ℕ) where
  -- The record with its sequence number and its hashes.
  abbrev pub stamp : ℕ → ℕ → WitnessRecord → WitnessRecord
  stamp prev_hash seq r = record r {
    sequence = seq;
    prev_hash = fold_u64_to_u32 prev_hash;
    record_hash = fold_u64_to_u32 (compute_chain_hash digest prev_hash seq);
  }

  -- The writes of `append`, with the record as it is stored.
  abbrev pub store : WitnessLog → WitnessRecord → WitnessLog
  store l r = record {
    records = set l.records l.write_pos r;
    write_pos = (l.write_pos + 1) % capacity l;
    chain_hash = compute_chain_hash digest l.chain_hash l.sequence;
    sequence = wrapping_add64 l.sequence 1;
    total_emitted = wrapping_add64 l.total_emitted 1;
  }

  unfoldable pub append : WitnessLog → WitnessRecord → WitnessLog × ℕ
  append l r = (store l (stamp l.chain_hash l.sequence r), l.sequence)

  unfoldable pub signed_append :
      (sign : WitnessRecord → List ℕ) → WitnessLog → WitnessRecord → WitnessLog × ℕ
  signed_append sign l r =
      let stamped = stamp l.chain_hash l.sequence r in
      (store l (record stamped { aux = sign stamped }), l.sequence)

abbrev pub checkpoint : WitnessLog → WitnessCheckpoint
checkpoint l = record { next_sequence = l.sequence; chain_hash = l.chain_hash }

-- The loop of `snapshot_since`, from `offset` on, for the next `k` slots of the output.
pub copy_since :
    WitnessLog
    → (first offset k : ℕ) → List WitnessRecord
    → List WitnessRecord × Result SnapshotSinceError (Unit {0})
copy_since l first offset zero out = (out, ok tt)
copy_since l first offset (suc k) [] = ([], ok tt)
copy_since l first offset (suc k) (slot ∷ out) =
    let sequence = first + offset in
    let r : WitnessRecord = get_or l.records (sequence % capacity l) zeroed in
    let (rest, result) = copy_since l first (offset + 1) k out in
    if leb sequence u64_max && r.sequence == sequence
    then (r ∷ rest, result)
    else (slot ∷ out, err sequence_mismatch)

-- What `snapshot_since` returns after the loop.
pub finish :
    WitnessLog
    → ℕ
    → Result SnapshotSinceError (Unit {0})
    → Result SnapshotSinceError WitnessSnapshot
finish l required (ok u) = ok (record { count = required; end_checkpoint = checkpoint l })
finish l required (err e) = err e

-- The conversions between `usize` and `u64` do not fail on 64 bits.
unfoldable pub snapshot_since :
    WitnessLog
    → WitnessCheckpoint
    → List WitnessRecord
    → List WitnessRecord × Result SnapshotSinceError WitnessSnapshot
snapshot_since l c out =
    let required = l.sequence - c.next_sequence in
    let (copied, result) = copy_since l c.next_sequence 0 required out in
    if ltb l.sequence c.next_sequence
    then (out, err future_checkpoint)
    else if ltb c.next_sequence (l.sequence - capacity l)
    then (out, err records_overwritten)
    else if ltb (length out) required
    then (out, err (output_too_small required))
    else (copied, finish l required result)

pub len : WitnessLog → ℕ
len l = if leb (capacity l) l.total_emitted then capacity l else l.total_emitted

pub is_empty : WitnessLog → Bool
is_empty l = l.total_emitted == 0

pub get : WitnessLog → ℕ → Option WitnessRecord
get l ring_index =
    if leb (capacity l) ring_index
    then none
    else if l.total_emitted == 0
    then none
    else some (get_or l.records ring_index zeroed)

-- The loop of `snapshot`, from index `i` on, for the next `k` slots of the buffer.
copy_recent : WitnessLog → (base i k : ℕ) → List WitnessRecord → List WitnessRecord
copy_recent l base i zero buf = buf
copy_recent l base i (suc k) [] = []
copy_recent l base i (suc k) (slot ∷ buf) =
    get_or l.records ((base + i) % capacity l) zeroed ∷ copy_recent l base (i + 1) k buf

pub snapshot : WitnessLog → List WitnessRecord → List WitnessRecord × ℕ
unfolding len copy_recent
snapshot l buf =
    let available = len l in
    let to_copy = if leb (length buf) available then length buf else available in
    let start = if leb (capacity l) l.total_emitted then l.write_pos else 0 in
    if to_copy == 0
    then (buf, 0)
    else (copy_recent l (start + (available - to_copy)) 0 to_copy buf, to_copy)
