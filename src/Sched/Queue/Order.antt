-- ===== src/Sched/Queue/Order.antt =====
-- Proofs about the heap of crates/rvm-sched/src/scheduler.rs: what `enqueue` puts in and what
-- `switch_next` takes out.
use rvm.Prelude.{
  ℕ, zero, suc, ◌+◌, ◌-◌, ◌≤◌, ◌<◌, ◌≡◌, ◌∙◌, arith, Bool, inl, inr, Bool-cases, ltb, if◌then◌else◌,
  ◌==◌, List, length, set, count_where, length-set, length-replicate, get_or-replicate,
  count_where-set, get_or-set,
}
use rvm.Sched.Queue.{
  RunQueueEntry, empty_entry, empty_queue, max_run_queue, key, entry, parent_pos, push, pop,
  uprooted,
}
use rvm.Sched.Queue.Up.{IsHeap, UpInv, Sifted, sift_up-Sifted}
use rvm.Sched.Queue.Down.{DownInv, sift_down-Sifted}

-- A queue of `len` entries in an array of `n`: a heap, and cleared slots behind it.
pub record IsRunQueue (n : ℕ) (q : List RunQueueEntry) (len : ℕ) : Type 0 where
  pub sized : length q ≡ n
  pub inside : len ≤ n
  pub heap : IsHeap q len
  pub cleared : (c : ℕ) → len ≤ c → entry q c ≡ empty_entry

-- `1` if the entry passes the test.
abbrev pub one : (RunQueueEntry → Bool) → RunQueueEntry → ℕ
one p e = if p e then 1 else 0

pub empty_queue-IsRunQueue : IsRunQueue max_run_queue empty_queue 0
unfolding empty_queue
empty_queue-IsRunQueue = record {
  sized = length-replicate max_run_queue empty_entry;
  inside = omega arith;
  heap = λ c p l. absurd (omega arith);
  cleared = λ c l. get_or-replicate max_run_queue c empty_entry;
}

module _ (n : ℕ) (q : List RunQueueEntry) (len : ℕ) (v : IsRunQueue n q len) where
  module _ (e : RunQueueEntry) (room : len < n) where
    put-UpInv : UpInv (set q len e) (len + 1) len
    put-UpInv =
        let at = λ (c : ℕ). get_or-set q len c e empty_entry (omega (arith, v.sized)) in
        record {
          inside = omega arith;
          room = omega (arith, length-set q len e, v.sized);
          edges = λ c p l ne. ground (arith, at c, at (parent_pos c), v.heap c p);
          bridged = λ c p l f z. absurd (ground (arith, f, l, z));
        }

    push-Sifted : Sifted (len + 1) (set q len e) (push q len e)
    unfolding push
    push-Sifted = sift_up-Sifted (len + 1) (set q len e) (len + 1) len (omega arith) put-UpInv

    pub push-IsRunQueue : IsRunQueue n (push q len e) (len + 1)
    push-IsRunQueue = record {
      sized = push-Sifted.sized ∙ length-set q len e ∙ v.sized;
      inside = omega arith;
      heap = push-Sifted.heap;
      cleared = λ c l.
          push-Sifted.kept c l
          ∙ ground (arith, get_or-set q len c e empty_entry (omega (arith, v.sized)), v.cleared c);
    }

    -- A push puts the entry in, in the place of a cleared slot.
    pub count_where-push :
        (p : RunQueueEntry → Bool)
        → count_where p (push q len e) + one p empty_entry ≡ count_where p q + one p e
    count_where-push p = ground (
      arith,
      push-Sifted.same p,
      count_where-set p q len e empty_entry (omega (arith, v.sized)),
      v.cleared len (omega arith),
    )

  root_greatest_below : (k i : ℕ) → i < k → i < len → key q i ≤ key q 0
  root_greatest_below zero i f l = absurd (omega arith)
  root_greatest_below (suc k) i f l = ground (arith, v.heap i, root_greatest_below k (parent_pos i))

  -- The root has the greatest priority.
  pub root_greatest : (i : ℕ) → i < len → key q i ≤ key q 0
  root_greatest i l = root_greatest_below (suc i) i (omega arith) l

  module _ (full : 0 < len) where
    uprooted-entry :
        (c : ℕ)
        → entry (uprooted q len) c
          ≡ (if len - 1 == c then empty_entry else if c == 0 then entry q (len - 1) else entry q c)
    uprooted-entry c = elim (Bool-cases (ltb 1 len)) [
      | inl more ↦ rw more (
          ground (
            arith,
            get_or-set (set q 0 (entry q (len - 1))) (len - 1) c empty_entry empty_entry
                (omega (arith, length-set q 0 (entry q (len - 1)), v.sized, v.inside)),
            get_or-set q 0 c (entry q (len - 1)) empty_entry (omega (arith, v.sized, v.inside)),
          ))
      | inr last ↦ rw last (
          ground (
            arith,
            get_or-set q (len - 1) c empty_entry empty_entry (omega (arith, v.sized, v.inside)),
          ))
    ]

    length-uprooted : length (uprooted q len) ≡ n
    length-uprooted = ground (
      arith,
      length-set (set q 0 (entry q (len - 1))) (len - 1) empty_entry,
      length-set q 0 (entry q (len - 1)),
      length-set q (len - 1) empty_entry,
      v.sized,
    )

    uprooted-DownInv : DownInv (uprooted q len) (len - 1) 0
    uprooted-DownInv = record {
      room = omega (arith, length-uprooted, v.inside);
      edges =
          λ c p l ne. ground (arith, uprooted-entry c, uprooted-entry (parent_pos c), v.heap c p);
      bridged = λ c p l f z. absurd (omega arith);
    }

    pop-Sifted : Sifted (len - 1) (uprooted q len) (pop q len)
    unfolding pop
    pop-Sifted = sift_down-Sifted len (uprooted q len) (len - 1) 0 (omega arith) uprooted-DownInv

    pub pop-IsRunQueue : IsRunQueue n (pop q len) (len - 1)
    pop-IsRunQueue = record {
      sized = pop-Sifted.sized ∙ length-uprooted;
      inside = omega (arith, v.inside);
      heap = pop-Sifted.heap;
      cleared = λ c l. pop-Sifted.kept c l ∙ ground (arith, uprooted-entry c, v.cleared c);
    }

    count_where-uprooted :
        (p : RunQueueEntry → Bool)
        → count_where p (uprooted q len) + one p (entry q 0) ≡ count_where p q + one p empty_entry
    count_where-uprooted p = elim (Bool-cases (ltb 1 len)) [
      | inl more ↦
          let lifted = set q 0 (entry q (len - 1)) in
          rw more (
            ground (
              arith,
              count_where-set p lifted (len - 1) empty_entry empty_entry
                  (omega (arith, length-set q 0 (entry q (len - 1)), v.sized, v.inside)),
              count_where-set p q 0 (entry q (len - 1)) empty_entry
                  (omega (arith, v.sized, v.inside)),
              get_or-set q 0 (len - 1) (entry q (len - 1)) empty_entry
                  (omega (arith, v.sized, v.inside)),
            ))
      | inr last ↦
          let first : len - 1 ≡ 0 = ground (arith, last) in
          rw (last, first)
            (count_where-set p q 0 empty_entry empty_entry (omega (arith, v.sized, v.inside)))
    ]

    -- A pop takes the root out, and leaves a cleared slot.
    pub count_where-pop :
        (p : RunQueueEntry → Bool)
        → count_where p (pop q len) + one p (entry q 0) ≡ count_where p q + one p empty_entry
    count_where-pop p = rw (pop-Sifted.same p) (count_where-uprooted p)
