-- ===== src/Sched/Queue/Down.antt =====
-- Proofs about the loop of `switch_next` of crates/rvm-sched/src/scheduler.rs, which moves an entry
-- away from the root.
use rvm.Prelude.{
  ℕ, zero, suc, ◌+◌, ◌-◌, ◌*◌, ◌≤◌, ◌<◌, ◌≡◌, ◌≢◌, ◌⊎◌, refl, arith, true, false, inl, inr, ◌==◌,
  List, length,
}
use rvm.Sched.Queue.{RunQueueEntry, key, swap, parent_pos, largest_of, sift_down}
use rvm.Sched.Queue.Swaps.{length-swap, entry-swap}
use rvm.Sched.Queue.Up.{IsBridged, Sifted, Sifted-swap}

-- Only the edges below `i` may be out of order.
pub record DownInv (q : List RunQueueEntry) (len i : ℕ) : Type 0 where
  pub room : len ≤ length q
  pub edges : (c : ℕ) → 0 < c → c < len → parent_pos c ≢ i → key q c ≤ key q (parent_pos c)
  pub bridged : IsBridged q len i

-- The greatest among the entry at `i` and its children.
record IsLargest (q : List RunQueueEntry) (len i m : ℕ) : Type 0 where
  place : (m ≡ i) ⊎ ((m < len) × (0 < m) × (parent_pos m ≡ i) × (key q i < key q m))
  greatest : (c : ℕ) → 0 < c → c < len → parent_pos c ≡ i → key q c ≤ key q m
  beyond : i ≤ m

largest_of-IsLargest : (q : List RunQueueEntry) (len i : ℕ) → IsLargest q len i (largest_of q len i)
unfolding largest_of
largest_of-IsLargest q len i = record {
  place = ground arith;
  greatest = λ c p l e. elim (children c i p e) [
    | inl left ↦ ground (arith, left)
    | inr right ↦ ground (arith, right)
  ];
  beyond = ground arith;
}
  where
    children : (c i : ℕ) → 0 < c → parent_pos c ≡ i → (c ≡ 2 * i + 1) ⊎ (c ≡ 2 * i + 2)
    children c i p e = ground arith

swap-DownInv :
    (q : List RunQueueEntry) (len i m : ℕ)
    → DownInv q len i
    → IsLargest q len i m
    → m < len
    → 0 < m
    → parent_pos m ≡ i
    → key q i < key q m
    → DownInv (swap q i m) len m
swap-DownInv q len i m v s inside pos e below =
    let at = entry-swap q i m (omega (arith, inside, v.room)) (omega (arith, inside, v.room)) in
    record {
      room = omega (arith, v.room, length-swap q i m);
      edges = λ c p l ne. ground (
        arith,
        at c,
        at (parent_pos c),
        v.edges c p l,
        v.bridged m pos inside e,
        s.greatest c p l,
      );
      bridged = λ c p l f z. ground (arith, at c, at (parent_pos m), v.edges c p l);
    }

pub sift_down-Sifted :
    (fuel : ℕ) (q : List RunQueueEntry) (len i : ℕ)
    → len - i < fuel
    → DownInv q len i
    → Sifted len q (sift_down fuel q len i)
unfolding sift_down
sift_down-Sifted zero q len i f v = absurd (omega arith)
sift_down-Sifted (suc fuel) q len i f v =
    let m = largest_of q len i in
    let s = largest_of-IsLargest q len i in
    elim s.place [
      | inl settled ↦
          let stop : (largest_of q len i == i) ≡ true = ground (arith, settled) in
          rw stop (record {
            heap = λ c p l. ground (arith, settled, v.edges c p l, s.greatest c p l);
            same = λ p. refl;
            sized = refl;
            kept = λ c l. refl;
          })
      | inr (inside, pos, e, below) ↦
          let go : (largest_of q len i == i) ≡ false = ground (arith, e, pos) in
          let rest =
            sift_down-Sifted fuel (swap q i m) len m (omega (arith, e, pos, inside))
              (swap-DownInv q len i m v s inside pos e below) in
          rw go (Sifted-swap i m v.room (omega (arith, inside, e, pos)) inside rest)
    ]
