-- ===== src/Partition/Queue.antt =====
-- crates/rvm-partition/src/ipc.rs: the messages and `MessageQueue`, a ring buffer. The constant
-- `CAPACITY`, which the source asserts to be a power of two, is an argument.
pub mod Mask
pub mod Fifo
pub mod Refinement
mod Tests
use rvm.Prelude.{
  ℕ, zero, suc, ◌+◌, ◌*◌, ◌-◌, ◌/◌, ◌%◌, Bool, ◌&&◌, Option, none, some, List, leb, ◌==◌,
  if◌then◌else◌, ok, err, wrapping_pred64, get_or, set, replicate,
}
use rvm.Types.{PartitionId, RvmResult, resource_limit_exceeded}

-- `struct CommEdgeId(u64)`.
abbrev pub CommEdgeId : Type 0
CommEdgeId = ℕ

-- `struct IpcMessage`.
pub record IpcMessage : Type 0 where
  pub sender : PartitionId
  pub receiver : PartitionId
  pub edge_id : CommEdgeId
  pub payload_len : ℕ
  pub msg_type : ℕ
  pub sequence : ℕ
  pub capability_hash : ℕ

-- `struct MessageQueue<CAPACITY>`.
pub record MessageQueue : Type 0 where
  pub buffer : List (Option IpcMessage)
  pub head : ℕ
  pub tail : ℕ
  pub count : ℕ

unfoldable pub new : ℕ → MessageQueue
new capacity = record { buffer = replicate capacity none; head = 0; tail = 0; count = 0 }

-- `a & b` on integers of `width` bits.
unfoldable pub bit_and : ℕ → ℕ → ℕ → ℕ
bit_and zero a b = 0
bit_and (suc width) a b =
    2 * bit_and width (a / 2) (b / 2) + (if a % 2 == 1 && b % 2 == 1 then 1 else 0)

-- `(i + 1) & (CAPACITY - 1)` on a `usize`.
unfoldable pub next_index : ℕ → ℕ → ℕ
next_index capacity i = bit_and 64 (i + 1) (capacity - 1)

unfoldable pub send : ℕ → MessageQueue → IpcMessage → MessageQueue × RvmResult (Unit {0})
send capacity q msg = if leb capacity q.count then (q, err resource_limit_exceeded) else (
  record q {
    buffer = set q.buffer q.tail (some msg);
    tail = next_index capacity q.tail;
    count = q.count + 1;
  },
  ok tt,
)

-- `take` leaves `None` in the slot that it reads.
unfoldable pub receive : ℕ → MessageQueue → MessageQueue × Option IpcMessage
receive capacity q = if q.count == 0 then (q, none) else (
  record q {
    buffer = set q.buffer q.head none;
    head = next_index capacity q.head;
    count = wrapping_pred64 q.count;
  },
  get_or q.buffer q.head none,
)

pub is_full : ℕ → MessageQueue → Bool
is_full capacity q = leb capacity q.count

pub is_empty : MessageQueue → Bool
is_empty q = q.count == 0

pub len : MessageQueue → ℕ
len q = q.count
