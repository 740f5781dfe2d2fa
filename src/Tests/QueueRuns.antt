-- ===== src/Tests/QueueRuns.antt =====
-- The queues of packets and the clocks of src/zk/zookeeper.c.
use ext_zookeeper.Prelude.{refl, true, false, none, some, [], ◌∷◌, arith, ◌==◌, if◌then◌else◌}
use ext_zookeeper.Frames.{Packet, sent, poll_ready, FlushEvent, flush_send_queue}
use ext_zookeeper.Frames.Emptying.{Empties, IsWilling, flush_send_queue-Empties}
use ext_zookeeper.Frames.Pointers.{BufferHead, Store, queue_buffer_node, dequeue_buffer_node}
use ext_zookeeper.Frames.Linked.{Represents}
use ext_zookeeper.Frames.Refining.{
  Enqueues, Dequeues, queue_buffer_node-Enqueues, dequeue_buffer_node-Dequeues,
}
use ext_zookeeper.Timeouts.{Timeval, Clocks, calculate_interval, interest}
use ext_zookeeper.Timeouts.Intervals.{IsClose, calculate_interval-IsClose}
use ext_zookeeper.Timeouts.Waits.{IsClocks, Patience, interest-Patience}

abbrev one_byte : Packet
one_byte = record { buffer = 7 ∷ []; len = 1; curr_offset = 0 }

-- A list of one packet at 8, and another packet at 16.
abbrev store : Store Packet
store p =
    if p == 8
    then some (record { value = one_byte; next = 0 })
    else if p == 16
    then some (record { value = one_byte; next = 5 })
    else none

abbrev queue : BufferHead
queue = record { head = 8; last = 8 }

queue-Represents : Represents store queue ((8, one_byte) ∷ [])
queue-Represents = record {
  chain = (refl, (λ e. absurd (omega arith), (0, (refl, refl))));
  last = refl;
  distinct = (tt, tt);
}

queue_buffer_node-Enqueues_example :
    Enqueues ((8, one_byte) ∷ []) (16, one_byte) false (queue_buffer_node store queue 16 false)
queue_buffer_node-Enqueues_example =
    queue_buffer_node-Enqueues store queue ((8, one_byte) ∷ []) 16 one_byte 5 false queue-Represents
      (λ e. absurd (omega arith)) (λ e. absurd (omega arith), tt) refl

dequeue_buffer_node-Dequeues_example :
    Dequeues store ((8, one_byte) ∷ []) (dequeue_buffer_node store queue)
dequeue_buffer_node-Dequeues_example =
    dequeue_buffer_node-Dequeues store queue ((8, one_byte) ∷ []) queue-Represents

-- The socket takes a byte at a time.
abbrev slow : FlushEvent
slow = record { elapsed = 1; poll = poll_ready; first = sent 1; second = sent 1 }

slow-IsWilling : IsWilling 10 slow
slow-IsWilling = record {
  early = omega arith;
  ready = refl;
  first = omega arith;
  second = omega arith;
}

flush_send_queue-Empties_example :
    Empties
      (one_byte ∷ [])
      (flush_send_queue 10 true (slow ∷ slow ∷ slow ∷ slow ∷ slow ∷ slow ∷ []) (one_byte ∷ []))
flush_send_queue-Empties_example =
    flush_send_queue-Empties 10 (slow ∷ slow ∷ slow ∷ slow ∷ slow ∷ slow ∷ []) (one_byte ∷ [])
      (omega arith)
      (
        slow-IsWilling,
        (
          slow-IsWilling,
          (slow-IsWilling, (slow-IsWilling, (slow-IsWilling, (slow-IsWilling, tt)))),
        ),
      )
      (record { full = refl; within = omega arith }, tt) (omega arith)

abbrev noon : Timeval
noon = record { tv_sec = 43200; tv_usec = 999000 }

abbrev later : Timeval
later = record { tv_sec = 43202; tv_usec = 1500 }

calculate_interval-IsClose_example : IsClose 1002500 (calculate_interval noon later)
calculate_interval-IsClose_example =
    calculate_interval-IsClose noon later (record { sec = omega arith; usec = omega arith })
      (record { sec = omega arith; usec = omega arith }) (omega arith) (omega arith)

abbrev clocks : Clocks
clocks = record { recv_timeout = 10000; last_recv = noon; last_send = noon }

clocks-IsClocks : IsClocks clocks later
unfolding calculate_interval
clocks-IsClocks = record { timeout = omega arith; received = omega arith; sent = omega arith }

interest-Patience_example : Patience true true 0 clocks later (interest true true 0 clocks later)
interest-Patience_example = interest-Patience true true 0 clocks later clocks-IsClocks
