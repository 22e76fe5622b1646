-- ===== src/Partition/Queue/Refinement.antt =====
-- Sequences of calls of `MessageQueue` of crates/rvm-partition/src/ipc.rs, and of a bounded
-- list.
use rvm.Prelude.{
  ℕ, ◌≤◌, ◌≡◌, refl, ap, arith, Option, none, some, List, [], ◌∷◌, ◌++◌, ltb, leb, true, false, inl,
  inr, Bool-cases, if◌then◌else◌, ok, err, length,
}
use rvm.Types.{RvmResult, resource_limit_exceeded}
use rvm.Partition.Queue.{IpcMessage, MessageQueue, new, send, receive}
use rvm.Partition.Queue.Mask.{pow2}
use rvm.Partition.Queue.Fifo.{Represents, new-Represents, send-Represents, receive-Represents}

pub data Call : Type 0 where
  sends : IpcMessage → Call
  receives : Call

pub data Answer : Type 0 where
  sent : RvmResult (Unit {0}) → Answer
  received : Option IpcMessage → Answer

-- The answers of a queue of the capacity `n` to a sequence of calls.
unfoldable pub answers : ℕ → MessageQueue → List Call → List Answer
answers n q [] = []
answers n q (sends m ∷ calls) = sent (send n q m).1 ∷ answers n (send n q m).0 calls
answers n q (receives ∷ calls) = received (receive n q).1 ∷ answers n (receive n q).0 calls

-- What a list of at most `n` messages answers: a message is put at its end, or refused if there are
-- `n` of them, and taken from its front.
unfoldable pub list_answers : ℕ → List IpcMessage → List Call → List Answer
list_answers n ms [] = []
list_answers n ms (sends m ∷ calls) =
    let put = list_answers n (ms ++ m ∷ []) calls in
    let full = list_answers n ms calls in
    if ltb (length ms) n then sent (ok tt) ∷ put else sent (err resource_limit_exceeded) ∷ full
list_answers n [] (receives ∷ calls) = received none ∷ list_answers n [] calls
list_answers n (m ∷ ms) (receives ∷ calls) = received (some m) ∷ list_answers n ms calls

send_full :
    (k : ℕ) (q : MessageQueue) (ms : List IpcMessage) (m : IpcMessage)
    → Represents k q ms
    → ltb (length ms) (pow2 k) ≡ false
    → send (pow2 k) q m ≡ (q, err resource_limit_exceeded)
unfolding send
send_full k q ms m r e =
    let full : leb (pow2 k) q.count ≡ true = ground (arith, r.counted, r.bounded) in rw full refl

receive_empty : (k : ℕ) (q : MessageQueue) → Represents k q [] → receive (pow2 k) q ≡ (q, none)
unfolding receive
receive_empty k q r = rw r.counted refl

pub answers_refine :
    (k : ℕ) (calls : List Call) (q : MessageQueue) (ms : List IpcMessage)
    → k ≤ 64
    → Represents k q ms
    → answers (pow2 k) q calls ≡ list_answers (pow2 k) ms calls
unfolding answers list_answers
answers_refine k [] q ms le r = refl
answers_refine k (sends m ∷ calls) q ms le r = elim (Bool-cases (ltb (length ms) (pow2 k))) [
  | inl e ↦
      let (next, good) = send-Represents k q ms m le r (ground arith) in
      rw (e, good)
        (ap (λ rest. sent (ok tt) ∷ rest)
          (answers_refine k calls (send (pow2 k) q m).0 (ms ++ m ∷ []) le next))
  | inr e ↦
      rw (e, send_full k q ms m r e)
        (ap (λ rest. sent (err resource_limit_exceeded) ∷ rest) (answers_refine k calls q ms le r))
]
answers_refine k (receives ∷ calls) q [] le r =
    rw (receive_empty k q r) (ap (λ rest. received none ∷ rest) (answers_refine k calls q [] le r))
answers_refine k (receives ∷ calls) q (m ∷ ms) le r =
    let (next, good) = receive-Represents k q ms m le r in
    rw good (
      ap (λ rest. received (some m) ∷ rest)
        (answers_refine k calls (receive (pow2 k) q).0 ms le next))

-- A new message queue of a power of two of slots, up to 2⁶³, answers any sequence of calls as a list
-- of at most that many messages does: first in, first out, none lost, none twice, and a message is
-- refused exactly when the queue is full.
pub answers-new :
    (k : ℕ) (calls : List Call)
    → k ≤ 63
    → answers (pow2 k) (new (pow2 k)) calls ≡ list_answers (pow2 k) [] calls
answers-new k calls le = answers_refine k calls (new (pow2 k)) [] (omega arith) (new-Represents k)
