-- ===== src/Frames/Defs.antt =====
-- send_buffer and recv_buffer of zookeeper.c, and struct _buffer_list.
use ext_zookeeper.Prelude.{
  ℕ, ◌+◌, ◌-◌, Bool, true, false, Option, none, some, List, [], ◌∷◌, ◌++◌, length, take, drop, ltb,
  leb, ◌==◌, if◌then◌else◌,
}
use ext_zookeeper.Prelude.Bytes.{be}
use ext_zookeeper.Codes.{zok, zsystemerror, zconnectionloss, zoperationtimeout}

-- The answers of send: some bytes are taken, EAGAIN, or another error.
pub data SendResult : Type 0 where
  sent : ℕ → SendResult
  send_again : SendResult
  send_failed : SendResult

-- The answers of recv: bytes, the end of the stream, EAGAIN, or another error.
pub data RecvResult : Type 0 where
  received : List ℕ → RecvResult
  recv_again : RecvResult
  recv_failed : RecvResult

-- buffer_list_t; `next` is the place in a list.
pub record Packet : Type 0 where
  pub buffer : List ℕ
  pub len : ℕ
  pub curr_offset : ℕ

-- What send_buffer and recv_buffer return: -1, 0 and 1.
pub data Progress : Type 0 where
  failed blocked complete : Progress

-- allocate_buffer: a length 0 becomes the size of the struct.
abbrev pub sizeof_buffer_list : ℕ
sizeof_buffer_list = 24

unfoldable pub allocate_buffer : List ℕ → ℕ → Packet
allocate_buffer buff len = record {
  buffer = buff;
  len = if len == 0 then sizeof_buffer_list else len;
  curr_offset = 0;
}

-- A call of send on `bytes`: what goes out. send takes no more than it is given.
abbrev pub taken : SendResult → List ℕ → List ℕ
taken (sent k) bytes = take k bytes
taken send_again bytes = []
taken send_failed bytes = []

-- `buff->curr_offset == len + sizeof(buff->len)`
abbrev pub progress : ℕ → ℕ → Progress
progress off len = if off == len + 4 then complete else blocked

abbrev pub payload_sent : SendResult → List ℕ → Packet → Progress × Packet × List ℕ
payload_sent (sent k) out p = (
  progress (p.curr_offset + length out) p.len,
  record p { curr_offset = p.curr_offset + length out },
  out,
)
payload_sent send_again out p = (progress p.curr_offset p.len, p, [])
payload_sent send_failed out p = (failed, p, [])

-- The second half of send_buffer: the payload, once the length is out.
unfoldable pub send_payload : SendResult → Packet → Progress × Packet × List ℕ
send_payload r p = payload_sent r (taken r (drop (p.curr_offset - 4) p.buffer)) p

-- The bytes of one call of send in front of those of the next.
abbrev pub behind : List ℕ → Progress × Packet × List ℕ → Progress × Packet × List ℕ
behind out (rc, q, more) = (rc, q, out ++ more)

abbrev pub length_sent : SendResult → SendResult → List ℕ → Packet → Progress × Packet × List ℕ
length_sent (sent k) r2 out p =
    let q = record p { curr_offset = p.curr_offset + length out } in
    if leb 4 q.curr_offset
    then behind out (send_payload r2 q)
    else (progress q.curr_offset q.len, q, out)
length_sent send_again r2 out p = (blocked, p, [])
length_sent send_failed r2 out p = (failed, p, [])

-- The first half: the length. Then the payload, if the length is out. `r1` and `r2` answer the two
-- calls of send.
unfoldable pub send_buffer : SendResult → SendResult → Packet → Progress × Packet × List ℕ
send_buffer r1 r2 p =
    if ltb p.curr_offset 4
    then length_sent r1 r2 (taken r1 (drop p.curr_offset (be 4 p.len))) p
    else send_payload r2 p

-- The answers of poll for a socket that is to be written to.
pub data PollResult : Type 0 where
  poll_ready poll_timeout poll_failed : PollResult

-- One round of flush_send_queue: the milliseconds since its start, and what poll and send answer.
pub record FlushEvent : Type 0 where
  pub elapsed : ℕ
  pub poll : PollResult
  pub first : SendResult
  pub second : SendResult

-- What flush_send_queue leaves: its code, the queue, the bytes that went out, and whether
-- `last_send` was set.
pub record Flushed : Type 0 where
  pub rc : ℕ
  pub to_send : List Packet
  pub out : List ℕ
  pub stamped : Bool

abbrev pub then_flushed : List ℕ → Option Flushed → Option Flushed
then_flushed out none = none
then_flushed out (some f) = some (record f { out = out ++ f.out; stamped = true })

-- Why a round does not come to send_buffer, when there is a timeout.
abbrev pub poll_code : ℕ → FlushEvent → Option ℕ
poll_code timeout e =
    if timeout == 0
    then none
    else if ltb timeout e.elapsed
    then some zoperationtimeout
    else elim e.poll [
      | poll_ready ↦ none
      | poll_timeout ↦ some zoperationtimeout
      | poll_failed ↦ some zsystemerror
    ]

abbrev pub stop_flush : ℕ → List Packet → List ℕ → Option Flushed
stop_flush rc queue out = some (record { rc = rc; to_send = queue; out = out; stamped = false })

-- `while (zh->to_send.head != 0 && zh->state == ZOO_CONNECTED_STATE) { … }`, a round for each event.
-- `none`: the loop has not ended when the events are over.
unfoldable pub flush_loop : ℕ → List FlushEvent → List Packet → Option Flushed
flush_loop timeout events [] = stop_flush zok [] []
flush_loop timeout [] (p ∷ ps) = none
flush_loop timeout (e ∷ events) (p ∷ ps) =
    let run = send_buffer e.first e.second p in
    elim (poll_code timeout e) [
      | some rc ↦ stop_flush rc (p ∷ ps) []
      | none ↦ elim (run.0) [
        | failed ↦ stop_flush zconnectionloss (run.1 ∷ ps) run.2
        | complete ↦ then_flushed run.2 (flush_loop timeout events ps)
        | blocked ↦
            if timeout == 0
            then stop_flush zok (run.1 ∷ ps) run.2
            else then_flushed run.2 (flush_loop timeout events (run.1 ∷ ps))
      ]
    ]

unfoldable pub flush_send_queue : ℕ → Bool → List FlushEvent → List Packet → Option Flushed
flush_send_queue timeout connected events queue =
    if connected then flush_loop timeout events queue else stop_flush zok queue []
