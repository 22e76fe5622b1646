-- ===== src/Witness/Replay.antt =====
-- crates/rvm-witness/src/replay.rs: the check of a chain of records, and the queries.
pub mod Links
use rvm.Prelude.{
  ℕ, ◌+◌, Bool, ◌&&◌, not, List, [], ◌∷◌, leb, ◌==◌, if◌then◌else◌, Result, ok, err, wrapping_add64,
  length, filter,
}
use rvm.Witness.Record.{WitnessRecord}
use rvm.Witness.Hash.{compute_chain_hash, fold_u64_to_u32}

-- `enum ChainIntegrityError`.
pub data ChainIntegrityError : Type 0 where
  chain_break record_corrupted : ℕ → ChainIntegrityError
  empty_log : ChainIntegrityError

module _ (digest : List ℕ → List ℕ) where
  -- The loop of `verify_chain_from`; `n` is the length of the whole slice.
  unfoldable pub verify_records :
      (n prev_hash expected : ℕ) → List WitnessRecord → Result ChainIntegrityError ℕ
  verify_records n prev_hash expected [] = ok n
  verify_records n prev_hash expected (r ∷ rs) =
      let chain = compute_chain_hash digest prev_hash r.sequence in
      let rest = verify_records n chain (wrapping_add64 expected 1) rs in
      if not (r.sequence == expected)
      then err (chain_break r.sequence)
      else if not (r.prev_hash == fold_u64_to_u32 prev_hash)
      then err (chain_break r.sequence)
      else if not (r.record_hash == fold_u64_to_u32 chain)
      then err (record_corrupted r.sequence)
      else rest

  unfoldable pub verify_chain_from : List WitnessRecord → ℕ → ℕ → Result ChainIntegrityError ℕ
  verify_chain_from [] initial first = err empty_log
  verify_chain_from (r ∷ rs) initial first = verify_records (length (r ∷ rs)) initial first (r ∷ rs)

  pub verify_chain : List WitnessRecord → Result ChainIntegrityError ℕ
  verify_chain rs = verify_chain_from rs 0 0

pub query_by_partition : List WitnessRecord → ℕ → List WitnessRecord
query_by_partition rs partition_id = filter (λ r. r.actor_partition_id == partition_id) rs

pub query_by_action_kind : List WitnessRecord → ℕ → List WitnessRecord
query_by_action_kind rs kind = filter (λ r. r.action_kind == kind) rs

pub query_by_time_range : List WitnessRecord → ℕ → ℕ → List WitnessRecord
query_by_time_range rs start_ns end_ns =
    filter (λ r. leb start_ns r.timestamp_ns && leb r.timestamp_ns end_ns) rs
