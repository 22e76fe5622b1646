-- ===== src/Sched/Scheduler/Picks.antt =====
-- Proofs about `switch_next` of crates/rvm-sched/src/scheduler.rs: the entry that is taken.
use rvm.Prelude.{
  ap, ℕ, ◌+◌, ◌-◌, ◌≤◌, ◌<◌, ◌≡◌, ◌≢◌, ◌∙◌, refl, sym, arith, Bool, true, if◌then◌else◌, Option,
  none, some, List, [], length, set, count_where, get_or-set_self, get_or-set_ne,
}
use rvm.Types.{PartitionId, hypervisor}
use rvm.Sched.Queue.{
  RunQueueEntry, empty_entry, entry, key, is_empty, max_run_queue, push, pop, sift_up,
}
use rvm.Sched.Queue.Order.{root_greatest, count_where-pop}
use rvm.Sched.Scheduler.{Scheduler, new, queue, queue_len, enqueue, entry_for, switch_next}
use rvm.Sched.Scheduler.History.{IsScheduler, Reach, Reach-new-IsScheduler}

-- The guards that a switch has passed, and the writes.
pub switch_next-inv :
    (s s' : Scheduler) (cpu : ℕ) (old : Option PartitionId) (id : PartitionId)
    → switch_next s cpu ≡ (s', some (old, id))
    → (cpu < length s.queue_lens)
      × (0 < queue_len s cpu)
      × ((entry (queue s cpu) 0).partition_id ≡ id)
      × (s'.run_queues ≡ set s.run_queues cpu (pop (queue s cpu) (queue_len s cpu)))
      × (s'.queue_lens ≡ set s.queue_lens cpu (queue_len s cpu - 1))
unfolding switch_next
switch_next-inv s s' cpu old id e = ground arith

-- After any history of calls from a new scheduler, a switch takes an entry of the partition that it
-- returns, and no entry of the processor's queue has a greater priority. Of the entries that pass
-- any given test, the queue then has as many as before without the one taken, the empty entry of
-- the slot that is cleared counted; it is shorter by one, and the queues of the other processors
-- are as before.
pub switch_next-greatest :
    {Allows : PartitionId → Type 0} (n : ℕ) (s s' : Scheduler) (cpu : ℕ) (old : Option PartitionId)
    (id : PartitionId)
    → Reach Allows (new n) s
    → switch_next s cpu ≡ (s', some (old, id))
    → (e : RunQueueEntry) × (e.partition_id ≡ id)
      × ((i : ℕ) → i < queue_len s cpu → key (queue s cpu) i ≤ e.priority)
      × ((p : RunQueueEntry → Bool)
          → count_where p (queue s' cpu) + (if p e then 1 else 0)
            ≡ count_where p (queue s cpu) + (if p empty_entry then 1 else 0))
      × (queue_len s' cpu + 1 ≡ queue_len s cpu)
      × ((c : ℕ) → c ≢ cpu → queue s' c ≡ queue s c)
switch_next-greatest n s s' cpu old id r e =
    let v = Reach-new-IsScheduler r in
    let (inside, full, eq, queues, lens) = switch_next-inv s s' cpu old id e in
    let w = v.valid cpu (omega (arith, v.lens)) in
    let q = queue s cpu in
    let len = queue_len s cpu in
    let at : queue s' cpu ≡ pop q len =
      rw queues
        (get_or-set_self s.run_queues cpu (pop q len) [] (omega (arith, v.queues, v.lens))) in
    let shorter : queue_len s' cpu ≡ len - 1 =
      rw lens (get_or-set_self s.queue_lens cpu (len - 1) 0 inside) in
    (
      entry q 0,
      eq,
      root_greatest max_run_queue q len w,
      λ p. rw at (count_where-pop max_run_queue q len w full p),
      omega (arith, shorter),
      λ c ne. rw queues (get_or-set_ne s.run_queues cpu c (pop q len) [] (λ x. ne (sym x))),
    )

-- The guards that a partition has passed into a queue, and the writes.
enqueue-inv :
    (s s' : Scheduler) (cpu : ℕ) (id : PartitionId) (urgency pressure : ℕ)
    → enqueue s cpu id urgency pressure ≡ (s', true)
    → (cpu < length s.queue_lens)
      × (s'.run_queues
          ≡ set s.run_queues cpu
              (push (queue s cpu) (queue_len s cpu) (entry_for s id urgency pressure)))
      × (s'.queue_lens ≡ set s.queue_lens cpu (queue_len s cpu + 1))
unfolding enqueue
enqueue-inv s s' cpu id urgency pressure e = ground arith

push_first : (q : List RunQueueEntry) (e : RunQueueEntry) → 0 < length q → entry (push q 0 e) 0 ≡ e
unfolding push sift_up
push_first q e h = get_or-set_self q 0 e empty_entry h

switch_next_blocked :
    (s : Scheduler) (cpu : ℕ)
    → is_empty (entry (queue s cpu) 0) ≡ true
    → switch_next s cpu ≡ (s, none)
unfolding switch_next
switch_next_blocked s cpu e = ground arith

-- An empty queue of a processor that there is takes every partition.
enqueue_accepted :
    {n : ℕ} (s : Scheduler) (cpu : ℕ) (id : PartitionId) (urgency pressure : ℕ)
    → IsScheduler n s
    → cpu < n
    → queue_len s cpu ≡ 0
    → (enqueue s cpu id urgency pressure).1 ≡ true
unfolding enqueue
enqueue_accepted s cpu id urgency pressure v lt empty = ground (arith, v.lens, empty)

-- After any history of calls, the hypervisor is let into the empty queue of any processor, and
-- blocks it: the queue then has one entry, and a switch returns nothing and changes nothing.
pub enqueue-hypervisor_blocks :
    {Allows : PartitionId → Type 0} (n : ℕ) (s : Scheduler) (cpu urgency pressure : ℕ)
    → Reach Allows (new n) s
    → cpu < n
    → queue_len s cpu ≡ 0
    → (s' : Scheduler) × (enqueue s cpu hypervisor urgency pressure ≡ (s', true))
      × (queue_len s' cpu ≡ 1)
      × (switch_next s' cpu ≡ (s', none))
enqueue-hypervisor_blocks n s cpu urgency pressure r lt empty =
    let v = Reach-new-IsScheduler r in
    let s' : Scheduler = (enqueue s cpu hypervisor urgency pressure).0 in
    let e : enqueue s cpu hypervisor urgency pressure ≡ (s', true) =
      ap (λ b. (s', b)) (enqueue_accepted s cpu hypervisor urgency pressure v lt empty) in
    let (inside, queues, lens) = enqueue-inv s s' cpu hypervisor urgency pressure e in
    let w = v.valid cpu lt in
    let put = entry_for s hypervisor urgency pressure in
    let at : queue s' cpu ≡ push (queue s cpu) (queue_len s cpu) put =
      rw queues (get_or-set_self s.run_queues cpu _ [] (omega (arith, v.queues, v.lens))) in
    let first : entry (queue s' cpu) 0 ≡ put =
      rw (at, empty) (push_first (queue s cpu) put (omega (arith, w.sized))) in
    (
      s',
      e,
      rw lens
          (get_or-set_self s.queue_lens cpu (queue_len s cpu + 1) 0 inside ∙ omega (arith, empty)),
      switch_next_blocked s' cpu (rw first refl),
    )
