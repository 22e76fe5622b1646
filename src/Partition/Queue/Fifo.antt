-- ===== src/Partition/Queue/Fifo.antt =====
-- Proofs about `MessageQueue` of crates/rvm-partition/src/ipc.rs: the messages that a ring
-- stands for.
use rvm.Prelude.{
  ℕ, zero, suc, ◌+◌, ◌-◌, ◌≤◌, ◌<◌, ◌≡◌, ◌≢◌, ◌∙◌, subst, refl, sym, arith, none, some, List, [],
  ◌∷◌, ◌++◌, ltb, leb, ◌==◌, false, ℕ_discrete, if◌then◌else◌, ok, length, get_elem?, get_or, set,
  length-append, length-set, length-replicate, get_or-set_self, get_or-set_ne,
}
use rvm.Partition.Queue.{IpcMessage, MessageQueue, new, next_index, send, receive}
use rvm.Partition.Queue.Mask.{pow2, pow2_pos, next_index_wraps}

-- The slot `i` places behind the head, around a ring of `n`.
abbrev place : ℕ → ℕ → ℕ → ℕ
place n head i = if ltb (head + i) n then head + i else head + i - n

-- One step around a ring of `n`.
abbrev step : ℕ → ℕ → ℕ
step n i = if ltb (i + 1) n then i + 1 else 0

place_lt : (n head i : ℕ) → head < n → i < n → place n head i < n
place_lt n head i h lt = ground arith

place_apart : (n head i j : ℕ) → head < n → i < n → j < n → j ≢ i → place n head j ≢ place n head i
place_apart n head i j h li lj ne = ground arith

step_lt : (n i : ℕ) → i < n → step n i < n
step_lt n i h = ground arith

step-place : (n head i : ℕ) → head < n → i < n → step n (place n head i) ≡ place n head (i + 1)
step-place n head i h lt = ground arith

place-step : (n head i : ℕ) → head < n → i < n → place n (step n head) i ≡ place n head (suc i)
place-step n head i h lt = ground arith

place_zero : (n head : ℕ) → head < n → place n head 0 ≡ head
place_zero n head h = ground arith

-- The queue holds the messages `ms`, the oldest first.
pub record Represents (k : ℕ) (q : MessageQueue) (ms : List IpcMessage) : Type 0 where
  pub sized : length q.buffer ≡ pow2 k
  pub counted : q.count ≡ length ms
  pub bounded : length ms ≤ pow2 k
  pub inside : q.head < pow2 k
  pub ended : q.tail ≡ place (pow2 k) q.head (length ms)
  pub held :
      (i : ℕ) → i < length ms → get_or q.buffer (place (pow2 k) q.head i) none ≡ get_elem? ms i

get_elem?-append_left :
    (ms : List IpcMessage) (m : IpcMessage) (i : ℕ)
    → i < length ms
    → get_elem? (ms ++ m ∷ []) i ≡ get_elem? ms i
get_elem?-append_left [] m i h = elim h [ ]
get_elem?-append_left (x ∷ ms) m zero h = refl
get_elem?-append_left (x ∷ ms) m (suc i) h = get_elem?-append_left ms m i (omega arith)

get_elem?-append_last :
    (ms : List IpcMessage) (m : IpcMessage) → get_elem? (ms ++ m ∷ []) (length ms) ≡ some m
get_elem?-append_last [] m = refl
get_elem?-append_last (x ∷ ms) m = get_elem?-append_last ms m

pub new-Represents : (k : ℕ) → Represents k (new (pow2 k)) []
unfolding new
new-Represents k = record {
  sized = length-replicate (pow2 k) none;
  counted = refl;
  bounded = omega arith;
  inside = pow2_pos k;
  ended = ground (arith, pow2_pos k);
  held = λ i h. absurd (omega arith);
}

send_held :
    (k : ℕ) (q : MessageQueue) (ms : List IpcMessage) (m : IpcMessage)
    → Represents k q ms
    → length ms < pow2 k
    → (i : ℕ) → i < length ms + 1
    → get_or (set q.buffer q.tail (some m)) (place (pow2 k) q.head i) none
      ≡ get_elem? (ms ++ m ∷ []) i
send_held k q ms m r room i h =
    let n = pow2 k in
    let last = place_lt n q.head (length ms) r.inside room in
    let at_end = r.ended in
    elim (ℕ_discrete i (length ms)) [
      | yes e ↦
          rw (e, at_end)
            (get_or-set_self q.buffer (place n q.head (length ms)) (some m) none
                (subst (λ x. place n q.head (length ms) < x) (sym r.sized) last)
              ∙ sym (get_elem?-append_last ms m))
      | no ne ↦ rw at_end (
          get_or-set_ne q.buffer (place n q.head (length ms)) (place n q.head i) (some m) none
            (place_apart n q.head i (length ms) r.inside (omega arith) room (λ e. ne (sym e)))
          ∙ r.held i (omega arith)
          ∙ sym (get_elem?-append_left ms m i (omega arith)))
    ]

abbrev sent : ℕ → MessageQueue → IpcMessage → MessageQueue
sent n q m = record q {
  buffer = set q.buffer q.tail (some m);
  tail = next_index n q.tail;
  count = q.count + 1;
}

sent-Represents :
    (k : ℕ) (q : MessageQueue) (ms : List IpcMessage) (m : IpcMessage)
    → k ≤ 64
    → Represents k q ms
    → length ms < pow2 k
    → Represents k (sent (pow2 k) q m) (ms ++ m ∷ [])
sent-Represents k q ms m le r room =
    let n = pow2 k in
    let last = place_lt n q.head (length ms) r.inside room in
    let grown = length-append ms (m ∷ []) in
    let around = next_index_wraps k (place n q.head (length ms)) le last in
    record {
      sized = length-set q.buffer q.tail (some m) ∙ r.sized;
      counted = omega (arith, grown, r.counted);
      bounded = omega (arith, grown);
      inside = r.inside;
      ended = rw (r.ended, around, grown) (step-place n q.head (length ms) r.inside room);
      held = λ i h. send_held k q ms m r room i (omega (arith, grown));
    }

pub send-Represents :
    (k : ℕ) (q : MessageQueue) (ms : List IpcMessage) (m : IpcMessage)
    → k ≤ 64
    → Represents k q ms
    → length ms < pow2 k
    → Represents k (send (pow2 k) q m).0 (ms ++ m ∷ []) × ((send (pow2 k) q m).1 ≡ ok tt)
unfolding send
send-Represents k q ms m le r room =
    let open_ : leb (pow2 k) q.count ≡ false = ground (arith, r.counted) in
    rw open_ (sent-Represents k q ms m le r room, refl)

abbrev received : ℕ → MessageQueue → MessageQueue
received n q = record q {
  buffer = set q.buffer q.head none;
  head = next_index n q.head;
  count = q.count - 1;
}

receive_held :
    (k : ℕ) (q : MessageQueue) (ms : List IpcMessage) (m : IpcMessage)
    → Represents k q (m ∷ ms)
    → (i : ℕ) → i < length ms
    → get_or (set q.buffer q.head none) (place (pow2 k) (step (pow2 k) q.head) i) none
      ≡ get_elem? ms i
receive_held k q ms m r i h =
    let n = pow2 k in
    let first = place_zero n q.head r.inside in
    let apart =
      place_apart n q.head 0 (suc i) r.inside (omega arith) (omega (arith, r.bounded))
        (λ e. ground arith) in
    rw (place-step n q.head i r.inside (omega (arith, r.bounded))) (
      get_or-set_ne q.buffer q.head (place n q.head (suc i)) none none
        (λ e. apart (sym e ∙ sym first))
      ∙ r.held (suc i) (omega arith))

received-Represents :
    (k : ℕ) (q : MessageQueue) (ms : List IpcMessage) (m : IpcMessage)
    → k ≤ 64
    → Represents k q (m ∷ ms)
    → Represents k (received (pow2 k) q) ms
received-Represents k q ms m le r =
    let n = pow2 k in
    let around = next_index_wraps k q.head le r.inside in
    record {
      sized = length-set q.buffer q.head none ∙ r.sized;
      counted = omega (arith, r.counted);
      bounded = omega (arith, r.bounded);
      inside = rw around (step_lt n q.head r.inside);
      ended =
          rw (around, place-step n q.head (length ms) r.inside (omega (arith, r.bounded))) r.ended;
      held = rw around (receive_held k q ms m r);
    }

pub receive-Represents :
    (k : ℕ) (q : MessageQueue) (ms : List IpcMessage) (m : IpcMessage)
    → k ≤ 64
    → Represents k q (m ∷ ms)
    → Represents k (receive (pow2 k) q).0 ms × ((receive (pow2 k) q).1 ≡ some m)
unfolding receive
receive-Represents k q ms m le r =
    let some_left : q.count == 0 ≡ false = ground (arith, r.counted) in
    rw some_left (
      received-Represents k q ms m le r,
      subst (λ j. get_or q.buffer j none ≡ some m) (place_zero (pow2 k) q.head r.inside)
          (r.held 0 (omega arith)),
    )
