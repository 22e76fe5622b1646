-- ===== src/Sched/Scheduler/Progress.antt =====
-- Proofs about `switch_next` of crates/rvm-sched/src/scheduler.rs: where it switches.
use rvm.Prelude.{
  ℕ, zero, suc, ◌+◌, ◌-◌, ◌≤◌, ◌<◌, ◌≡◌, ◌≢◌, refl, sym, arith, Bool, false, not, inl, inr,
  Bool-cases, ◌||◌, ◌==◌, leb, Option, some, List, [], ◌∷◌, length, set, count_where, ℕ_discrete,
  some_of_ne_none, get_or-set_self, get_or-set_ne, get_or-replicate_in, count_where-replicate,
}
use rvm.Types.{PartitionId, hypervisor}
use rvm.Sched.Queue.{
  RunQueueEntry, empty_entry, empty_queue, entry, is_empty, max_run_queue, push, pop,
}
use rvm.Sched.Queue.Order.{count_where-push, count_where-pop}
use rvm.Sched.Scheduler.{
  Scheduler, new, queue, queue_len, enqueue, entry_for, switch_next, set_mode, set_degraded,
  tick_epoch,
}
use rvm.Sched.Scheduler.History.{
  IsScheduler, Reach, here, next, Step, enqueues, switches, ticks, degrades, sets_mode,
  Reach-new-IsScheduler,
}

abbrev occupied : RunQueueEntry → Bool
occupied e = not (is_empty e)

-- Every queue has as many occupied slots as its length says.
record IsPopulated (n : ℕ) (s : Scheduler) : Type 0 where
  filled : (cpu : ℕ) → cpu < n → count_where occupied (queue s cpu) ≡ queue_len s cpu

count_bound :
    (q : List RunQueueEntry) (len : ℕ)
    → ((c : ℕ) → len ≤ c → entry q c ≡ empty_entry)
    → count_where occupied q ≤ len
count_bound [] len h = omega arith
count_bound (e ∷ q) zero h =
    ground (arith, h 0, count_bound q zero (λ c l. h (suc c) (omega arith)))
count_bound (e ∷ q) (suc len) h = ground (arith, count_bound q len (λ c l. h (suc c) (omega arith)))

root_occupied :
    (q : List RunQueueEntry) (len : ℕ)
    → ((c : ℕ) → len ≤ c → entry q c ≡ empty_entry)
    → count_where occupied q ≡ len
    → 0 < len
    → is_empty (entry q 0) ≡ false
root_occupied [] len h e pos = absurd (omega arith)
root_occupied (x ∷ q) zero h e pos = absurd (omega arith)
root_occupied (x ∷ q) (suc len) h e pos =
    ground (arith, e, count_bound q len (λ c l. h (suc c) (omega arith)))

new-IsPopulated : (n : ℕ) → IsPopulated n (new n)
unfolding new empty_queue
new-IsPopulated n = record {
  filled = λ cpu h.
      rw (get_or-replicate_in n cpu empty_queue [] h, get_or-replicate_in {A = ℕ} n cpu 0 0 h)
        (count_where-replicate occupied max_run_queue empty_entry refl);
}

replaced-IsPopulated :
    {n : ℕ} (s s' : Scheduler) (cpu len : ℕ) (q : List RunQueueEntry)
    → IsScheduler n s
    → IsPopulated n s
    → s'.run_queues ≡ set s.run_queues cpu q
    → s'.queue_lens ≡ set s.queue_lens cpu len
    → count_where occupied q ≡ len
    → IsPopulated n s'
replaced-IsPopulated {n} s s' cpu len q v w eq el full = record {
  filled = λ c h. elim (ℕ_discrete cpu c) [
    | yes e ↦
        rw (eq, el, sym e)
          (rw
            (
              get_or-set_self s.run_queues cpu q [] (omega (arith, v.queues, e)),
              get_or-set_self s.queue_lens cpu len 0 (omega (arith, v.lens, e)),
            )
            full)
    | no ne ↦
        rw (eq, el)
          (rw (get_or-set_ne s.run_queues cpu c q [] ne, get_or-set_ne s.queue_lens cpu c len 0 ne)
            (w.filled c h))
  ];
}

enqueue-IsPopulated :
    {n : ℕ} (s : Scheduler) (cpu : ℕ) (id : PartitionId) (urgency pressure : ℕ)
    → id ≢ hypervisor
    → IsScheduler n s
    → IsPopulated n s
    → IsPopulated n (enqueue s cpu id urgency pressure).0
unfolding enqueue
enqueue-IsPopulated {n} s cpu id urgency pressure ne v w =
    elim (Bool-cases (leb (length s.queue_lens) cpu || leb max_run_queue (queue_len s cpu))) [
      | inl refused ↦ rw refused w
      | inr room ↦
          let inside : cpu < n = ground (arith, v.lens, room) in
          let q = push (queue s cpu) (queue_len s cpu) (entry_for s id urgency pressure) in
          let put =
            count_where-push max_run_queue (queue s cpu) (queue_len s cpu) (v.valid cpu inside)
              (entry_for s id urgency pressure) (ground (arith, room)) occupied in
          rw room (
            replaced-IsPopulated s _ cpu (queue_len s cpu + 1) q v w refl refl
              (ground (arith, put, w.filled cpu inside, ne)))
    ]

switch_next-IsPopulated :
    {n : ℕ} (s : Scheduler) (cpu : ℕ)
    → IsScheduler n s
    → IsPopulated n s
    → IsPopulated n (switch_next s cpu).0
unfolding switch_next
switch_next-IsPopulated {n} s cpu v w =
    elim (Bool-cases (leb (length s.queue_lens) cpu || queue_len s cpu == 0)) [
      | inl refused ↦ rw refused w
      | inr full ↦ elim (Bool-cases (is_empty (entry (queue s cpu) 0))) [
        | inl blocked ↦ rw full (rw blocked w)
        | inr ready ↦
            let inside : cpu < n = ground (arith, v.lens, full) in
            let taken =
              count_where-pop max_run_queue (queue s cpu) (queue_len s cpu) (v.valid cpu inside)
                (ground (arith, full)) occupied in
            rw full (
              rw ready (
                replaced-IsPopulated s _ cpu (queue_len s cpu - 1)
                  (pop (queue s cpu) (queue_len s cpu)) v w refl refl
                  (ground (arith, taken, ready, w.filled cpu inside))))
      ]
    ]

abbrev pub Guest : PartitionId → Type 0
Guest id = id ≢ hypervisor

Step-IsPopulated :
    {n : ℕ} {s s' : Scheduler}
    → Step Guest s s'
    → IsScheduler n s
    → IsPopulated n s
    → IsPopulated n s'
unfolding tick_epoch set_degraded set_mode
Step-IsPopulated {s = s} (enqueues cpu id urgency pressure ne e) v w =
    rw e (enqueue-IsPopulated s cpu id urgency pressure ne v w)
Step-IsPopulated {s = s} (switches cpu e) v w = rw e (switch_next-IsPopulated s cpu v w)
Step-IsPopulated {s = s} (ticks e) v w = rw e (record { filled = w.filled })
Step-IsPopulated {s = s} (degrades degraded e) v w = rw e (record { filled = w.filled })
Step-IsPopulated {s = s} (sets_mode mode e) v w = rw e (record { filled = w.filled })

Reach-IsPopulated : {n : ℕ} {s : Scheduler} → Reach Guest (new n) s → IsPopulated n s
Reach-IsPopulated {n} here = new-IsPopulated n
Reach-IsPopulated (next r st) = Step-IsPopulated st (Reach-new-IsScheduler r) (Reach-IsPopulated r)

-- After any history of calls from a new scheduler in which the hypervisor was never put into a
-- queue, a processor whose queue has an entry switches: the call returns a partition.
pub switch_next-progress :
    (n : ℕ) (s : Scheduler) (cpu : ℕ)
    → Reach Guest (new n) s
    → cpu < n
    → 0 < queue_len s cpu
    → (r : Option PartitionId × PartitionId) × ((switch_next s cpu).1 ≡ some r)
unfolding switch_next
switch_next-progress n s cpu r inside full =
    let v = Reach-new-IsScheduler r in
    let ready =
      root_occupied (queue s cpu) (queue_len s cpu) (v.valid cpu inside).cleared
        ((Reach-IsPopulated r).filled cpu inside) full in
    let open_ : (leb (length s.queue_lens) cpu || queue_len s cpu == 0) ≡ false =
      ground (arith, v.lens) in
    some_of_ne_none (switch_next s cpu).1 (ground (arith, open_, ready))
