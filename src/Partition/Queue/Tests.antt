-- ===== src/Partition/Queue/Tests.antt =====
-- Tests of `MessageQueue` of crates/rvm-partition/src/ipc.rs. A queue of two slots: the third
-- message is refused, and the order is kept around the ring.
use rvm.Prelude.{ℕ, ◌≡◌, refl, arith, none, some, List, [], ◌∷◌, ok, err}
use rvm.Types.{resource_limit_exceeded}
use rvm.Partition.Queue.{IpcMessage, new, send, receive, next_index, bit_and}
use rvm.Partition.Queue.Mask.{pow2}
use rvm.Partition.Queue.Refinement.{
  Call, sends, receives, sent, received, answers, list_answers, answers-new,
}

abbrev message : ℕ → IpcMessage
message i = record {
  sender = 1;
  receiver = 2;
  edge_id = 1;
  payload_len = 0;
  msg_type = 1;
  sequence = i;
  capability_hash = 0;
}

abbrev calls : List Call
calls =
    sends (message 1)
    ∷ sends (message 2)
    ∷ sends (message 3)
    ∷ receives
    ∷ sends (message 4)
    ∷ receives
    ∷ receives
    ∷ receives
    ∷ []

answers-new_example : answers (pow2 1) (new (pow2 1)) calls ≡ list_answers (pow2 1) [] calls
answers-new_example = answers-new 1 calls (omega arith)

answered :
    answers (pow2 1) (new (pow2 1)) calls
    ≡ sent (ok tt)
      ∷ sent (ok tt)
      ∷ sent (err resource_limit_exceeded)
      ∷ received (some (message 1))
      ∷ sent (ok tt)
      ∷ received (some (message 2))
      ∷ received (some (message 4))
      ∷ received none
      ∷ []
unfolding answers new send receive next_index bit_and pow2
answered = refl
