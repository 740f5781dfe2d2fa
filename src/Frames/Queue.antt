-- ===== src/Frames/Queue.antt =====
-- The queues of packets of src/zk/zookeeper.c: a buffer_head_t is the list from its head to its last
-- packet.
use ext_zookeeper.Prelude.{Bool, true, false, Option, none, some, List, [], ◌∷◌}
use ext_zookeeper.Frames.Defs.{Packet}

-- `add_to_front` is a Boolean.
unfoldable pub queue_buffer : List Packet → Packet → Bool → List Packet
queue_buffer [] b add_to_front = b ∷ []
queue_buffer (p ∷ rest) b true = b ∷ p ∷ rest
queue_buffer (p ∷ rest) b false = p ∷ queue_buffer rest b false

unfoldable pub dequeue_buffer : List Packet → Option Packet × List Packet
dequeue_buffer [] = (none, [])
dequeue_buffer (b ∷ next) = (some b, next)
