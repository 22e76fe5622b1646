-- ===== src/Sched/Scheduler/History.antt =====
-- Proofs about crates/rvm-sched/src/scheduler.rs: histories of calls of the scheduler.
use rvm.Prelude.{
  ℕ, ◌+◌, ◌-◌, ◌<◌, ◌≡◌, ◌∙◌, refl, sym, arith, Bool, inl, inr, Bool-cases, ◌||◌, ◌==◌, leb, List,
  length, set, length-set, length-replicate, get_or-replicate_in, [], ℕ_discrete, get_or-set_self,
  get_or-set_ne,
}
use rvm.Types.{PartitionId}
use rvm.Sched.Queue.{RunQueueEntry, empty_queue, entry, is_empty, max_run_queue, push, pop}
use rvm.Sched.Queue.Order.{IsRunQueue, empty_queue-IsRunQueue, push-IsRunQueue, pop-IsRunQueue}
use rvm.Sched.Epoch.{SchedulerMode}
use rvm.Sched.Scheduler.{
  Scheduler, new, queue, queue_len, set_mode, set_degraded, tick_epoch, enqueue, entry_for,
  switch_next,
}

-- Every processor has a run queue of its length.
pub record IsScheduler (n : ℕ) (s : Scheduler) : Type 0 where
  pub queues : length s.run_queues ≡ n
  pub lens : length s.queue_lens ≡ n
  pub valid : (cpu : ℕ) → cpu < n → IsRunQueue max_run_queue (queue s cpu) (queue_len s cpu)

new-IsScheduler : (n : ℕ) → IsScheduler n (new n)
unfolding new
new-IsScheduler n = record {
  queues = length-replicate n empty_queue;
  lens = length-replicate {A = ℕ} n 0;
  valid = λ cpu h.
      rw (get_or-replicate_in n cpu empty_queue [] h, get_or-replicate_in {A = ℕ} n cpu 0 0 h)
        empty_queue-IsRunQueue;
}

-- The queue of one processor is replaced.
replaced-IsScheduler :
    {n : ℕ} (s s' : Scheduler) (cpu len : ℕ) (q : List RunQueueEntry)
    → IsScheduler n s
    → s'.run_queues ≡ set s.run_queues cpu q
    → s'.queue_lens ≡ set s.queue_lens cpu len
    → IsRunQueue max_run_queue q len
    → IsScheduler n s'
replaced-IsScheduler {n} s s' cpu len q v eq el w = record {
  queues = rw eq (length-set s.run_queues cpu q ∙ v.queues);
  lens = rw el (length-set s.queue_lens cpu len ∙ v.lens);
  valid = λ c h. elim (ℕ_discrete cpu c) [
    | yes e ↦
        rw (eq, el, sym e)
          (rw
            (
              get_or-set_self s.run_queues cpu q [] (omega (arith, v.queues, e)),
              get_or-set_self s.queue_lens cpu len 0 (omega (arith, v.lens, e)),
            )
            w)
    | no ne ↦
        rw (eq, el)
          (rw (get_or-set_ne s.run_queues cpu c q [] ne, get_or-set_ne s.queue_lens cpu c len 0 ne)
            (v.valid c h))
  ];
}

kept-IsScheduler :
    {n : ℕ} (s s' : Scheduler)
    → s'.run_queues ≡ s.run_queues
    → s'.queue_lens ≡ s.queue_lens
    → IsScheduler n s
    → IsScheduler n s'
kept-IsScheduler s s' eq el v = record {
  queues = rw eq v.queues;
  lens = rw el v.lens;
  valid = rw (eq, el) v.valid;
}

pub enqueue-IsScheduler :
    {n : ℕ} (s : Scheduler) (cpu : ℕ) (id : PartitionId) (urgency pressure : ℕ)
    → IsScheduler n s
    → IsScheduler n (enqueue s cpu id urgency pressure).0
unfolding enqueue
enqueue-IsScheduler {n} s cpu id urgency pressure v =
    elim (Bool-cases (leb (length s.queue_lens) cpu || leb max_run_queue (queue_len s cpu))) [
      | inl refused ↦ rw refused v
      | inr room ↦ rw room (
          replaced-IsScheduler s _ cpu (queue_len s cpu + 1)
            (push (queue s cpu) (queue_len s cpu) (entry_for s id urgency pressure)) v refl refl
            (push-IsRunQueue max_run_queue (queue s cpu) (queue_len s cpu)
              (v.valid cpu (ground (arith, v.lens, room))) (entry_for s id urgency pressure)
              (ground (arith, room))))
    ]

pub switch_next-IsScheduler :
    {n : ℕ} (s : Scheduler) (cpu : ℕ) → IsScheduler n s → IsScheduler n (switch_next s cpu).0
unfolding switch_next
switch_next-IsScheduler {n} s cpu v =
    elim (Bool-cases (leb (length s.queue_lens) cpu || queue_len s cpu == 0)) [
      | inl refused ↦ rw refused v
      | inr full ↦ elim (Bool-cases (is_empty (entry (queue s cpu) 0))) [
        | inl blocked ↦ rw full (rw blocked v)
        | inr ready ↦ rw full (
            rw ready (
              replaced-IsScheduler s _ cpu (queue_len s cpu - 1)
                (pop (queue s cpu) (queue_len s cpu)) v refl refl
                (pop-IsRunQueue max_run_queue (queue s cpu) (queue_len s cpu)
                  (v.valid cpu (ground (arith, v.lens, full))) (ground (arith, full)))))
      ]
    ]

-- The calls of the scheduler. `Allows` says which partitions are put into a queue.
pub data Step (Allows : PartitionId → Type 0) (s s' : Scheduler) : Type 0 where
  enqueues :
      (cpu : ℕ) (id : PartitionId) (urgency pressure : ℕ)
      → Allows id
      → s' ≡ (enqueue s cpu id urgency pressure).0
      → Step Allows s s'
  switches : (cpu : ℕ) → s' ≡ (switch_next s cpu).0 → Step Allows s s'
  ticks : s' ≡ (tick_epoch s).0 → Step Allows s s'
  degrades : (degraded : Bool) → s' ≡ set_degraded s degraded → Step Allows s s'
  sets_mode : (mode : SchedulerMode) → s' ≡ set_mode s mode → Step Allows s s'

pub data Reach (Allows : PartitionId → Type 0) (s : Scheduler) : Scheduler → Type 0 where
  here : Reach Allows s s
  next : {p q : Scheduler} → Reach Allows s p → Step Allows p q → Reach Allows s q

Step-IsScheduler :
    {n : ℕ} {Allows : PartitionId → Type 0} {s s' : Scheduler}
    → Step Allows s s'
    → IsScheduler n s
    → IsScheduler n s'
unfolding tick_epoch set_degraded set_mode
Step-IsScheduler {s = s} (enqueues cpu id urgency pressure _ e) v =
    rw e (enqueue-IsScheduler s cpu id urgency pressure v)
Step-IsScheduler {s = s} (switches cpu e) v = rw e (switch_next-IsScheduler s cpu v)
Step-IsScheduler {s = s} (ticks e) v = rw e (kept-IsScheduler s _ refl refl v)
Step-IsScheduler {s = s} (degrades degraded e) v = rw e (kept-IsScheduler s _ refl refl v)
Step-IsScheduler {s = s} (sets_mode mode e) v = rw e (kept-IsScheduler s _ refl refl v)

pub Reach-new-IsScheduler :
    {n : ℕ} {Allows : PartitionId → Type 0} {s : Scheduler}
    → Reach Allows (new n) s
    → IsScheduler n s
Reach-new-IsScheduler {n} here = new-IsScheduler n
Reach-new-IsScheduler (next r st) = Step-IsScheduler st (Reach-new-IsScheduler r)
