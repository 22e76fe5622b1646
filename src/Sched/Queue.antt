-- ===== src/Sched/Queue.antt =====
-- crates/rvm-sched/src/scheduler.rs, priority.rs: the entries of a run queue and the binary max-heap
-- that `enqueue` and `switch_next` keep in the array of a processor. The loops take fuel: each swap
-- moves the entry one level.
pub mod Swaps
pub mod Up
pub mod Down
pub mod Order
use rvm.Prelude.{
  ◌==◌, ℕ, zero, suc, ◌+◌, ◌-◌, ◌*◌, ◌/◌, ◌^◌, Bool, ◌&&◌, List, ltb, leb, if◌then◌else◌, get_or,
  set, replicate,
}
use rvm.Types.{PartitionId, hypervisor, is_hypervisor}

abbrev pub max_run_queue : ℕ
max_run_queue = 32

-- `struct RunQueueEntry`; a `CutPressure(u32)` is its number.
pub record RunQueueEntry : Type 0 where
  pub partition_id : PartitionId
  pub deadline_urgency : ℕ
  pub cut_pressure : ℕ
  pub priority : ℕ

-- `RunQueueEntry::EMPTY`.
abbrev pub empty_entry : RunQueueEntry
empty_entry = record {
  partition_id = hypervisor;
  deadline_urgency = 0;
  cut_pressure = 0;
  priority = 0;
}

-- `Scheduler::EMPTY_QUEUE`.
unfoldable pub empty_queue : List RunQueueEntry
empty_queue = replicate max_run_queue empty_entry

abbrev pub is_empty : RunQueueEntry → Bool
is_empty e = is_hypervisor e.partition_id

-- `compute_priority`; `min(u16::MAX)` and the casts keep the boost a `u16`.
unfoldable pub compute_priority : ℕ → ℕ → ℕ
compute_priority deadline_urgency cut_pressure =
    let boost = cut_pressure / 2 ^ 16 in
    deadline_urgency + (if ltb boost 65535 then boost else 65535)

abbrev pub entry : List RunQueueEntry → ℕ → RunQueueEntry
entry queue i = get_or queue i empty_entry

abbrev pub key : List RunQueueEntry → ℕ → ℕ
key queue i = (entry queue i).priority

-- `queue.swap(i, j)`.
unfoldable pub swap : List RunQueueEntry → ℕ → ℕ → List RunQueueEntry
swap queue i j = set (set queue i (entry queue j)) j (entry queue i)

abbrev pub parent_pos : ℕ → ℕ
parent_pos pos = (pos - 1) / 2

-- `while pos > 0`.
unfoldable pub sift_up : ℕ → List RunQueueEntry → ℕ → List RunQueueEntry
sift_up zero queue pos = queue
sift_up (suc fuel) queue pos =
    let rest = sift_up fuel (swap queue pos (parent_pos pos)) (parent_pos pos) in
    if ltb 0 pos && ltb (key queue (parent_pos pos)) (key queue pos) then rest else queue

-- `largest` among the entry at `pos` and its children.
unfoldable pub largest_of : List RunQueueEntry → ℕ → ℕ → ℕ
largest_of queue len pos =
    let left = 2 * pos + 1 in
    let right = 2 * pos + 2 in
    let best = if ltb left len && ltb (key queue pos) (key queue left) then left else pos in
    if ltb right len && ltb (key queue best) (key queue right) then right else best

-- `loop`, over the first `len` entries.
unfoldable pub sift_down : ℕ → List RunQueueEntry → ℕ → ℕ → List RunQueueEntry
unfolding largest_of
sift_down zero queue len pos = queue
sift_down (suc fuel) queue len pos =
    let largest = largest_of queue len pos in
    let rest = sift_down fuel (swap queue pos largest) len largest in
    if largest == pos then queue else rest

-- The heap part of `enqueue`, on a queue of `len` entries.
unfoldable pub push : List RunQueueEntry → ℕ → RunQueueEntry → List RunQueueEntry
push queue len e = sift_up (len + 1) (set queue len e) len

-- The last entry in the place of the root, and its slot cleared.
abbrev pub uprooted : List RunQueueEntry → ℕ → List RunQueueEntry
uprooted queue len =
    set (if ltb 1 len then set queue 0 (entry queue (len - 1)) else queue) (len - 1) empty_entry

-- The heap part of `switch_next`, on a queue of `len` entries, `len` not zero.
unfoldable pub pop : List RunQueueEntry → ℕ → List RunQueueEntry
pop queue len = sift_down len (uprooted queue len) (len - 1) 0
