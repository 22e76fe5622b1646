-- ===== src/Sched/Queue/Swaps.antt =====
-- Proofs about the swaps of the heap of crates/rvm-sched/src/scheduler.rs: what a swap leaves, and
-- the entries that a queue holds.
use rvm.Prelude.{
  ℕ, ◌<◌, ◌≡◌, refl, arith, Bool, List, ◌==◌, if◌then◌else◌, length, set, length-set, count_where,
  count_where-set, get_or-set,
}
use rvm.Sched.Queue.{RunQueueEntry, empty_entry, entry, swap}

pub length-swap : (q : List RunQueueEntry) (i j : ℕ) → length (swap q i j) ≡ length q
unfolding swap
length-swap q i j = simp length-set

pub entry-swap :
    (q : List RunQueueEntry) (i j : ℕ)
    → i < length q
    → j < length q
    → (c : ℕ)
    → entry (swap q i j) c ≡ (if j == c then entry q i else if i == c then entry q j else entry q c)
unfolding swap
entry-swap q i j hi hj c =
    rw
      (
        get_or-set (set q i (entry q j)) j c (entry q i) empty_entry (rw length-set hj),
        get_or-set q i c (entry q j) empty_entry hi,
      )
      refl

-- A swap keeps how many entries pass a test.
pub count_where-swap :
    (p : RunQueueEntry → Bool) (q : List RunQueueEntry) (i j : ℕ)
    → i < length q
    → j < length q
    → count_where p (swap q i j) ≡ count_where p q
unfolding swap
count_where-swap p q i j hi hj = ground (
  arith,
  get_or-set q i j (entry q j) empty_entry hi,
  count_where-set p q i (entry q j) empty_entry hi,
  count_where-set p (set q i (entry q j)) j (entry q i) empty_entry,
  length-set q i (entry q j),
)
