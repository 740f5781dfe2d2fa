-- ===== src/Frames/Emptying.antt =====
-- That flush_send_queue comes to the end of its queue when the socket takes bytes.
use ext_zookeeper.Prelude.{
  ℕ, ◌+◌, ◌-◌, ◌≤◌, ◌<◌, ◌≡◌, ◌≢◌, refl, true, false, Option, none, some, List, [], ◌∷◌, ◌++◌,
  length, take, drop, leb, ltb, ◌==◌, length-append, length-take, length-drop, All, arith,
  Bool-cases, inl, inr, ap, ◌∙◌, sym,
}
use ext_zookeeper.Prelude.Bytes.{be}
use ext_zookeeper.Codes.{zok}
use ext_zookeeper.Frames.Defs.{
  Packet, Progress, failed, blocked, SendResult, sent, send_again, send_failed, taken, behind,
  length_sent, FlushEvent, Flushed, poll_ready, then_flushed, poll_code, send_payload, send_buffer,
  flush_loop, flush_send_queue,
}
use ext_zookeeper.Frames.Sending.{IsPacket, send_buffer-Sends, Sends-IsPacket}
use ext_zookeeper.Frames.Flushing.{pending, Progress-cases, round-wire, spent}

-- send takes at least a byte.
abbrev pub Takes : SendResult → Type 0
Takes (sent k) = 1 ≤ k
Takes send_again = ⊥
Takes send_failed = ⊥

-- A round in which the socket can be written to, before the time is out.
pub record IsWilling (timeout : ℕ) (e : FlushEvent) : Type 0 where
  pub early : e.elapsed ≤ timeout
  pub ready : e.poll ≡ poll_ready
  pub first : Takes e.first
  pub second : Takes e.second

-- A run of send_buffer that fails not, and has moved unless it is at the end.
pub record Moves (run : Progress × Packet × List ℕ) : Type 0 where
  pub good : run.0 ≢ failed
  pub moved : run.0 ≡ blocked → 1 ≤ length run.2

send_payload-Moves :
    (r : SendResult) (p : Packet)
    → IsPacket p
    → 4 ≤ p.curr_offset
    → Takes r
    → Moves (send_payload r p)
unfolding send_payload
send_payload-Moves (sent k) p v h t = record {
  good = ground arith;
  moved = ground (arith, facts, cut);
}
  where
    facts : length (drop (p.curr_offset - 4) p.buffer) ≡ p.len - (p.curr_offset - 4)
    facts = length-drop (p.curr_offset - 4) p.buffer ∙ ap (λ n. n - (p.curr_offset - 4)) v.full

    cut : (length (take k (drop (p.curr_offset - 4) p.buffer)) ≡ 0) → p.curr_offset ≡ p.len + 4
    cut e = omega (arith, facts, v.within, length-take k (drop (p.curr_offset - 4) p.buffer))
send_payload-Moves send_again p v h t = elim t [ ]
send_payload-Moves send_failed p v h t = elim t [ ]

behind-Moves :
    (out : List ℕ) (run : Progress × Packet × List ℕ)
    → 1 ≤ length out
    → Moves run
    → Moves (behind out run)
behind-Moves out (rc, q, more) h m = record {
  good = m.good;
  moved = λ e. omega (arith, length-append out more);
}

length_sent-Moves :
    (r1 r2 : SendResult) (p : Packet)
    → IsPacket p
    → p.curr_offset < 4
    → Takes r1
    → Takes r2
    → Moves (length_sent r1 r2 (taken r1 (drop p.curr_offset (be 4 p.len))) p)
length_sent-Moves (sent k) r2 p v h t1 t2 =
    elim (Bool-cases (leb 4 (p.curr_offset + length (take k (drop p.curr_offset (be 4 p.len)))))) [
      | inl all ↦ rw all (
          behind-Moves _ _ (omega (arith, some_out)) (
            send_payload-Moves r2 _ (record { full = v.full; within = omega (arith, some_out) })
              (ground arith) t2))
      | inr part ↦ rw part (record { good = ground arith; moved = λ e. omega (arith, some_out) })
    ]
  where
    some_out :
        (1 ≤ length (take k (drop p.curr_offset (be 4 p.len))))
        × (p.curr_offset + length (take k (drop p.curr_offset (be 4 p.len))) ≤ 4)
    some_out =
        let taken_length = length-take k (drop p.curr_offset (be 4 p.len)) in
        let left_length = length-drop p.curr_offset (be 4 p.len) in
        (omega (arith, taken_length, left_length), omega (arith, taken_length, left_length))
length_sent-Moves send_again r2 p v h t1 t2 = elim t1 [ ]
length_sent-Moves send_failed r2 p v h t1 t2 = elim t1 [ ]

send_buffer-Moves :
    (r1 r2 : SendResult) (p : Packet)
    → IsPacket p
    → Takes r1
    → Takes r2
    → Moves (send_buffer r1 r2 p)
unfolding send_buffer
send_buffer-Moves r1 r2 p v t1 t2 = elim (Bool-cases (ltb p.curr_offset 4)) [
  | inl e ↦ rw e (length_sent-Moves r1 r2 p v (ground arith) t1 t2)
  | inr e ↦ rw e (send_payload-Moves r2 p v (ground arith) t2)
]

-- The end of a flush that has come through.
pub data Empties (queue : List Packet) : Option Flushed → Type 0 where
  emptied :
      {f : Flushed} → f.rc ≡ zok → f.to_send ≡ [] → f.out ≡ pending queue → Empties queue (some f)

then-Empties :
    (queue rest : List Packet) (out : List ℕ) (o : Option Flushed)
    → pending queue ≡ out ++ pending rest
    → Empties rest o
    → Empties queue (then_flushed out o)
then-Empties queue rest out (some f) e (emptied rc to_send wire) =
    emptied rc to_send (ap (λ l. out ++ l) wire ∙ sym e)
then-Empties queue rest out none e h = elim h [ ]

poll_code-none : (timeout : ℕ) (e : FlushEvent) → IsWilling timeout e → poll_code timeout e ≡ none
poll_code-none timeout e w = rw w.ready (ground (arith, w.early))

not_zero : (t : ℕ) → 1 ≤ t → (t == 0) ≡ false
not_zero t h = ground arith

-- The rounds that a queue needs.
abbrev pub rounds : List Packet → ℕ
rounds queue = length (pending queue) + length queue

flush_loop-Empties :
    (timeout : ℕ) (events : List FlushEvent) (queue : List Packet)
    → 1 ≤ timeout
    → All (IsWilling timeout) events
    → All IsPacket queue
    → rounds queue ≤ length events
    → Empties queue (flush_loop timeout events queue)
unfolding flush_loop
flush_loop-Empties timeout events [] t ws vs enough = emptied refl refl refl
flush_loop-Empties timeout [] (p ∷ ps) t ws vs enough = absurd (omega arith)
flush_loop-Empties timeout (e ∷ events) (p ∷ ps) t (w, ws) (v, vs) enough =
    let run = send_buffer e.first e.second p in
    let s = send_buffer-Sends e.first e.second p v in
    let m = send_buffer-Moves e.first e.second p v w.first w.second in
    let wire = round-wire p ps run s in
    let go = poll_code-none timeout e w in
    let nonzero = not_zero timeout t in
    elim (Progress-cases run.0) [
      | inl x ↦ absurd (m.good x)
      | inr (inl x) ↦
          rw (go, x, nonzero, flush_loop)
            (then-Empties (p ∷ ps) (run.1 ∷ ps) run.2 _ wire (
              flush_loop-Empties timeout events (run.1 ∷ ps) t ws (Sends-IsPacket s v, vs)
                (omega (
                  arith,
                  m.moved x,
                  enough,
                  ap length wire,
                  length-append run.2 (pending (run.1 ∷ ps)),
                ))))
      | inr (inr x) ↦
          let whole = wire ∙ ap (λ l. run.2 ++ l) (spent p ps run s x v) in
          rw (go, x, flush_loop)
            (then-Empties (p ∷ ps) ps run.2 _ whole (
              flush_loop-Empties timeout events ps t ws vs
                (omega (arith, enough, ap length whole, length-append run.2 (pending ps)))))
    ]

-- With a timeout other than 0, on a connected handle, flush_send_queue returns ZOK with an empty
-- queue and has put every byte of it on the wire, when in each round poll says in time that the
-- socket can be written to, and send takes at least one byte. As many rounds as there are bytes
-- and packets are enough.
pub flush_send_queue-Empties :
    (timeout : ℕ) (events : List FlushEvent) (queue : List Packet)
    → 1 ≤ timeout
    → All (IsWilling timeout) events
    → All IsPacket queue
    → length (pending queue) + length queue ≤ length events
    → Empties queue (flush_send_queue timeout true events queue)
unfolding flush_send_queue
flush_send_queue-Empties timeout events queue t ws vs enough =
    flush_loop-Empties timeout events queue t ws vs enough
