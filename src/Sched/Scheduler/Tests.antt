-- ===== src/Sched/Scheduler/Tests.antt =====
-- Tests of crates/rvm-sched/src/scheduler.rs. Three partitions on one processor of two, and the
-- hypervisor on the other.
use rvm.Prelude.{
  ℕ, ◌+◌, ◌≤◌, ◌<◌, ◌≡◌, ◌≢◌, refl, arith, Bool, true, Option, none, some, count_where,
  if◌then◌else◌,
}
use rvm.Types.{PartitionId, hypervisor}
use rvm.Sched.Queue.{
  RunQueueEntry, empty_entry, empty_queue, key, compute_priority, push, pop, sift_up, sift_down,
  largest_of, swap,
}
use rvm.Sched.Epoch.{record_switch}
use rvm.Sched.Scheduler.{Scheduler, new, queue, queue_len, enqueue, switch_next}
use rvm.Sched.Scheduler.History.{Reach, here, next, enqueues}
use rvm.Sched.Scheduler.Picks.{switch_next-greatest, enqueue-hypervisor_blocks}
use rvm.Sched.Scheduler.Progress.{Guest, switch_next-progress}

abbrev three : Scheduler
three = (enqueue (enqueue (enqueue (new 2) 0 1 50 0).0 0 2 100 0).0 0 3 75 0).0

three_reached : Reach Guest (new 2) three
three_reached =
    next
      (next (next here (enqueues 0 1 50 0 (omega arith) refl))
        (enqueues 0 2 100 0 (omega arith) refl))
      (enqueues 0 3 75 0 (omega arith) refl)

abbrev picked : Scheduler
picked = (switch_next three 0).0

runs :
    (switch_next three 0 ≡ (picked, some (none, 2)))
    × ((switch_next picked 0).1 ≡ some (some 2, 3))
    × (queue_len three 0 ≡ 3)
    × (queue_len three 1 ≡ 0)
unfolding new empty_queue enqueue switch_next push pop sift_up sift_down largest_of swap
    compute_priority record_switch
runs = (refl, refl, refl, refl)

switch_next-greatest_example :
    (e : RunQueueEntry) × (e.partition_id ≡ 2)
    × ((i : ℕ) → i < queue_len three 0 → key (queue three 0) i ≤ e.priority)
    × ((p : RunQueueEntry → Bool)
        → count_where p (queue picked 0) + (if p e then 1 else 0)
          ≡ count_where p (queue three 0) + (if p empty_entry then 1 else 0))
    × (queue_len picked 0 + 1 ≡ queue_len three 0)
    × ((c : ℕ) → c ≢ 0 → queue picked c ≡ queue three c)
switch_next-greatest_example = switch_next-greatest 2 three picked 0 none 2 three_reached runs.0

switch_next-progress_example :
    (r : Option PartitionId × PartitionId) × ((switch_next three 0).1 ≡ some r)
switch_next-progress_example =
    switch_next-progress 2 three 0 three_reached (omega arith) (omega (arith, runs.2))

enqueue-hypervisor_blocks_example :
    (s' : Scheduler) × (enqueue three 1 hypervisor 9 0 ≡ (s', true))
    × (queue_len s' 1 ≡ 1)
    × (switch_next s' 1 ≡ (s', none))
enqueue-hypervisor_blocks_example =
    enqueue-hypervisor_blocks 2 three 1 9 0 three_reached (omega arith) runs.3
