-- ===== src/Tests/FrameRuns.antt =====
-- Packets on the socket of src/zk/zookeeper.c, and the handshake.
use ext_zookeeper.Prelude.{refl, true, some, [], ◌∷◌, arith}
use ext_zookeeper.Frames.{
  Packet, sent, received, recv_again, FlushEvent, Flushed, poll_ready, send_buffer,
  flush_send_queue, flush_loop, send_payload,
}
use ext_zookeeper.Frames.Sending.{IsPacket, Sends, send_buffer-Sends}
use ext_zookeeper.Frames.Flushing.{Flushes, flush_send_queue-Delivers}
use ext_zookeeper.Frames.Receiving.{
  Incoming, allocate_input, recv_buffer, recv_payload, payload_received, length_received,
  length_known,
}
use ext_zookeeper.Frames.Payloads.{Receives}
use ext_zookeeper.Frames.Reassembly.{recv_buffer-Receives, allocate_input-IsReceiving}
use ext_zookeeper.Frames.Delivery.{Delivered, recv_buffer-Delivered}
use ext_zookeeper.Recordio.{store}
use ext_zookeeper.Tests.Heaps.{sample_heap, sample_heap-Allocates, sample_heap-Refuses}

abbrev two_bytes : Packet
two_bytes = record { buffer = 7 ∷ 8 ∷ []; len = 2; curr_offset = 0 }

two_bytes-IsPacket : IsPacket two_bytes
two_bytes-IsPacket = record { full = refl; within = omega arith }

abbrev got_two_bytes : Incoming
got_two_bytes = record { buffer = some (7 ∷ 8 ∷ []); len = 2; curr_offset = 6 }

recv_buffer-Delivered_example : Delivered two_bytes got_two_bytes (9 ∷ []) (9 ∷ [])
unfolding recv_buffer allocate_input length_received length_known recv_payload payload_received
    store
recv_buffer-Delivered_example =
    recv_buffer-Delivered sample_heap (received (0 ∷ 0 ∷ 0 ∷ 2 ∷ [])) (received (7 ∷ 8 ∷ []))
      allocate_input got_two_bytes [] (0 ∷ 0 ∷ 0 ∷ 2 ∷ 7 ∷ 8 ∷ []) (9 ∷ []) (9 ∷ []) two_bytes
      sample_heap-Allocates sample_heap-Refuses
      (omega arith, (omega arith, (omega arith, (omega arith, tt)))) allocate_input-IsReceiving refl
      two_bytes-IsPacket (omega arith) refl

recv_buffer-Receives_example :
    Receives [] (recv_buffer sample_heap (received (0 ∷ 0 ∷ [])) recv_again allocate_input)
recv_buffer-Receives_example =
    recv_buffer-Receives sample_heap sample_heap-Allocates sample_heap-Refuses
      (received (0 ∷ 0 ∷ [])) recv_again allocate_input [] (omega arith, (omega arith, tt))
      allocate_input-IsReceiving

send_buffer-Sends_example : Sends two_bytes (send_buffer (sent 4) (sent 1) two_bytes)
send_buffer-Sends_example = send_buffer-Sends (sent 4) (sent 1) two_bytes two_bytes-IsPacket

abbrev all_out : FlushEvent
all_out = record { elapsed = 0; poll = poll_ready; first = sent 4; second = sent 2 }

abbrev all_flushed : Flushed
all_flushed = record { rc = 0; to_send = []; out = 0 ∷ 0 ∷ 0 ∷ 2 ∷ 7 ∷ 8 ∷ []; stamped = true }

flush_send_queue-Delivers_example : Flushes (two_bytes ∷ []) all_flushed
unfolding flush_send_queue flush_loop send_buffer send_payload
flush_send_queue-Delivers_example =
    flush_send_queue-Delivers 0 true (all_out ∷ []) (two_bytes ∷ []) all_flushed
      (two_bytes-IsPacket, tt) refl
