-- ===== src/Partition/Ipc/Tests.antt =====
-- Tests of `IpcManager` of crates/rvm-partition/src/ipc.rs. Two slots: the ids 1 and 3 collide
-- in the index, and a message goes to the first channel.
use rvm.Prelude.{
  ℕ, ◌+◌, ◌<◌, ◌≡◌, ◌≢◌, refl, arith, none, some, ok, err, u64_max, leb, if◌then◌else◌,
}
use rvm.Types.{partition_not_found}
use rvm.Partition.Queue.{IpcMessage, bit_and, next_index}
use rvm.Partition.Queue
use rvm.Partition.Ipc.{
  ChannelMeta, IpcManager, channel, new, create_channel, send, destroy_channel, find, scan,
  first_empty, enqueue,
}
use rvm.Partition.Ipc.History.{Reach, here, next, creates, destroys, Reach-IsIpc, find-scan_reached}
use rvm.Partition.Ipc.Changes.{new-IsIpc}
use rvm.Partition.Ipc.Sends.{send-authentic}
use rvm.Partition.Ipc.Life.{create_channel-find}
use rvm.Partition.Ipc.Retired.{destroy_channel-find}

abbrev one : IpcManager
one = (create_channel 2 (new 2) 7 8).0

abbrev two : IpcManager
two = (create_channel 2 one 8 7).0

-- The channel 2 is destroyed, and the channel 3 takes its slot.
abbrev holed : IpcManager
holed = (destroy_channel two 2).0

abbrev collided : IpcManager
collided = (create_channel 2 holed 9 7).0

abbrev message : IpcMessage
message = record {
  sender = 7;
  receiver = 8;
  edge_id = 1;
  payload_len = 0;
  msg_type = 1;
  sequence = 1;
  capability_hash = 0;
}

abbrev after_send : IpcManager
after_send = (send 2 collided 1 message 7).0

history :
    (create_channel 2 holed 9 7 ≡ (collided, ok 3))
    × (destroy_channel two 2 ≡ (holed, ok tt))
    × (send 2 collided 1 message 7 ≡ (after_send, ok tt))
    × (find collided 1 ≡ ok 0)
    × (one.next_edge_id ≡ 2)
    × (holed.next_edge_id ≡ 3)
unfolding new create_channel first_empty destroy_channel scan send enqueue find Queue.new Queue.send
    next_index bit_and
history = (refl, refl, refl, refl, refl, refl)

first_room : (new 2).next_edge_id < u64_max
unfolding new
first_room = omega arith

holed_reached : Reach 2 (new 2) holed
holed_reached =
    next (next (next here (creates 7 8 first_room)) (creates 8 7 (omega (arith, history.4))))
      (destroys 2)

collided_reached : Reach 2 (new 2) collided
collided_reached = next holed_reached (creates 9 7 (omega (arith, history.5)))

find-scan_reached_example :
    find collided 1
    ≡ elim (scan 1 collided.queues 0) [ none ↦ err partition_not_found | some i ↦ ok i ]
find-scan_reached_example = find-scan_reached 2 2 collided 1 collided_reached

create_channel-find_example :
    (i : ℕ) × (find collided 3 ≡ ok i)
    × (channel collided.queues i
        ≡ some (record { edge_id = 3; source = 9; dest = 7; queue = Queue.new 2; weight = 0 }))
create_channel-find_example =
    create_channel-find 2 holed collided 9 7 3 (Reach-IsIpc (new-IsIpc 2) holed_reached)
      (omega (arith, history.5)) history.0

-- The slot of the channel 2 is used again, by the channel 3.
destroy_channel-find_example : find collided 2 ≡ err partition_not_found
destroy_channel-find_example =
    destroy_channel-find 2 2 two holed collided 2
      (next (next here (creates 7 8 first_room)) (creates 8 7 (omega (arith, history.4)))) history.1
      (next here (creates 9 7 (omega (arith, history.5))))

send-authentic_example :
    (i : ℕ) × (ch : ChannelMeta) × (channel collided.queues i ≡ some ch)
    × (ch.edge_id ≡ 1)
    × (ch.source ≡ 7)
    × (message.sender ≡ 7)
    × ((Queue.send 2 ch.queue message).1 ≡ ok tt)
    × (channel after_send.queues i
        ≡ some (record ch {
          queue = (Queue.send 2 ch.queue message).0;
          weight = if leb (ch.weight + 1) u64_max then ch.weight + 1 else u64_max;
        }))
    × ((j : ℕ) → j ≢ i → channel after_send.queues j ≡ channel collided.queues j)
send-authentic_example = send-authentic 2 collided after_send 1 message 7 history.2
