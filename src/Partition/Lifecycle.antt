-- ===== src/Partition/Lifecycle.antt =====
-- crates/rvm-partition/src/lifecycle.rs, merge.rs and split.rs: the transitions of a partition's state,
-- the conditions of a merge, and the side that a region goes to in a split. A coherence score, of
-- crates/rvm-types/src/coherence.rs, is its number of basis points.
use rvm.Prelude.{
  ℕ, ◌-◌, Bool, true, false, ◌||◌, not, leb, if◌then◌else◌, Result, ok, err, guard, ◌>>◌,
}
use rvm.Partition.Manager.{PartitionState, created, running, suspended, destroyed, hibernated}

pub valid_transition : PartitionState → PartitionState → Bool
valid_transition created running = true
valid_transition created destroyed = true
valid_transition created _ = false
valid_transition suspended running = true
valid_transition suspended destroyed = true
valid_transition suspended hibernated = true
valid_transition suspended _ = false
valid_transition running suspended = true
valid_transition running destroyed = true
valid_transition running hibernated = true
valid_transition running _ = false
valid_transition hibernated destroyed = true
valid_transition hibernated created = true
valid_transition hibernated _ = false
valid_transition destroyed _ = false

-- `enum MergePreconditionError`.
pub data MergePreconditionError : Type 0 where
  insufficient_coherence not_adjacent resource_limit_exceeded : MergePreconditionError

abbrev pub default_merge_threshold : ℕ
default_merge_threshold = 7000

abbrev pub meets_threshold : ℕ → ℕ → Bool
meets_threshold score threshold = leb threshold score

pub merge_preconditions_met : ℕ → ℕ → Result MergePreconditionError (Unit {0})
merge_preconditions_met coherence_a coherence_b =
    if not (meets_threshold coherence_a default_merge_threshold)
      || not (meets_threshold coherence_b default_merge_threshold)
    then err insufficient_coherence
    else ok tt

pub merge_preconditions_full :
    (coherence_a coherence_b : ℕ) (are_adjacent : Bool)
    (combined_cap_count max_caps_per_partition : ℕ)
    → Result MergePreconditionError (Unit {0})
merge_preconditions_full coherence_a coherence_b are_adjacent combined_cap_count
      max_caps_per_partition =
    do
      merge_preconditions_met coherence_a coherence_b
      guard are_adjacent not_adjacent
      guard (leb combined_cap_count max_caps_per_partition) resource_limit_exceeded

-- The distance of two scores.
abbrev pub score_diff : ℕ → ℕ → ℕ
score_diff a b = if leb b a then a - b else b - a

pub scored_region_assignment : ℕ → ℕ → ℕ → ℕ
scored_region_assignment region_coherence left_coherence right_coherence =
    if leb (score_diff region_coherence left_coherence)
      (score_diff region_coherence right_coherence)
    then 7500
    else 2500
