-- ===== src/Sched/Queue/Up.antt =====
-- Proofs about the loop of `enqueue` of crates/rvm-sched/src/scheduler.rs, which moves an entry
-- towards the root.
use rvm.Prelude.{
  ℕ, zero, suc, ◌≤◌, ◌<◌, ◌≡◌, ◌≢◌, ◌∙◌, refl, arith, Bool, inl, inr, Bool-cases, ◌&&◌, ltb, List,
  length, count_where,
}
use rvm.Sched.Queue.{RunQueueEntry, key, entry, swap, parent_pos, sift_up}
use rvm.Sched.Queue.Swaps.{length-swap, entry-swap, count_where-swap}

-- Every edge of the first `len` entries is in order.
abbrev pub IsHeap : List RunQueueEntry → ℕ → Type 0
IsHeap q len = (c : ℕ) → 0 < c → c < len → key q c ≤ key q (parent_pos c)

-- The entries past `i`, from its parent to its children, are in order.
abbrev pub IsBridged : List RunQueueEntry → ℕ → ℕ → Type 0
IsBridged q len i =
    (c : ℕ) → 0 < c → c < len → parent_pos c ≡ i → 0 < i → key q c ≤ key q (parent_pos i)

-- Only the edge above `i` may be out of order.
pub record UpInv (q : List RunQueueEntry) (len i : ℕ) : Type 0 where
  pub inside : i < len
  pub room : len ≤ length q
  pub edges : (c : ℕ) → 0 < c → c < len → c ≢ i → key q c ≤ key q (parent_pos c)
  pub bridged : IsBridged q len i

-- What a loop leaves: a heap of the same entries, with the rest of the array as it was.
pub record Sifted (len : ℕ) (q r : List RunQueueEntry) : Type 0 where
  pub heap : IsHeap r len
  pub same : (p : RunQueueEntry → Bool) → count_where p r ≡ count_where p q
  pub sized : length r ≡ length q
  pub kept : (c : ℕ) → len ≤ c → entry r c ≡ entry q c

swap-UpInv :
    (q : List RunQueueEntry) (len i : ℕ)
    → UpInv q len i
    → 0 < i
    → key q (parent_pos i) < key q i
    → UpInv (swap q i (parent_pos i)) len (parent_pos i)
swap-UpInv q len i v pos below =
    let at =
      entry-swap q i (parent_pos i) (omega (arith, v.inside, v.room))
        (omega (arith, v.inside, v.room)) in
    record {
      inside = omega (arith, v.inside);
      room = omega (arith, v.room, length-swap q i (parent_pos i));
      edges = λ c p l ne. ground (arith, at c, at (parent_pos c), v.edges c p l, v.bridged c p l);
      bridged = λ c p l e z. ground (
        arith,
        at c,
        at (parent_pos (parent_pos i)),
        at (parent_pos i),
        v.edges c p l,
        v.edges (parent_pos i) z,
      );
    }

pub Sifted-swap :
    {len : ℕ} {q r : List RunQueueEntry} (i j : ℕ)
    → len ≤ length q
    → i < len
    → j < len
    → Sifted len (swap q i j) r
    → Sifted len q r
Sifted-swap {len} {q} {r} i j room hi hj s =
    let hi' : i < length q = omega arith in
    let hj' : j < length q = omega arith in
    record {
      heap = s.heap;
      same = λ p. s.same p ∙ count_where-swap p q i j hi' hj';
      sized = s.sized ∙ length-swap q i j;
      kept = λ c l. s.kept c l ∙ ground (arith, entry-swap q i j hi' hj' c);
    }

pub sift_up-Sifted :
    (fuel : ℕ) (q : List RunQueueEntry) (len i : ℕ)
    → i < fuel
    → UpInv q len i
    → Sifted len q (sift_up fuel q i)
unfolding sift_up
sift_up-Sifted zero q len i f v = absurd (omega arith)
sift_up-Sifted (suc fuel) q len i f v =
    elim (Bool-cases (ltb 0 i && ltb (key q (parent_pos i)) (key q i))) [
      | inl rise ↦
          let rest =
            sift_up-Sifted fuel (swap q i (parent_pos i)) len (parent_pos i) (ground arith)
              (swap-UpInv q len i v (ground arith) (ground arith)) in
          rw rise (Sifted-swap i (parent_pos i) v.room v.inside (omega (arith, v.inside)) rest)
      | inr settled ↦ rw settled (record {
        heap = λ c p l. ground (arith, v.edges c p l);
        same = λ p. refl;
        sized = refl;
        kept = λ c l. refl;
      })
    ]
