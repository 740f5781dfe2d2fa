-- ===== src/Frames/Flushing.antt =====
-- What flush_send_queue puts on the wire, and that it ends.
use ext_zookeeper.Prelude.{
  ℕ, ◌≤◌, ◌≡◌, ◌≢◌, ◌⊎◌, refl, Bool, true, false, Option, none, some, List, [], ◌∷◌, ◌++◌, length,
  length-append, drop, drop_all, All, ◌==◌, arith, Bool-cases, Option-cases, inl, inr, ap, ◌∙◌, sym,
  subst,
}
use ext_zookeeper.Prelude.Bytes.{be}
use ext_zookeeper.Codes.{zok, zconnectionloss}
use ext_zookeeper.Frames.Defs.{
  Packet, Progress, failed, blocked, complete, FlushEvent, Flushed, then_flushed, poll_code,
  stop_flush, send_buffer, flush_loop, flush_send_queue,
}
use ext_zookeeper.Frames.Sending.{
  IsPacket, frame, Sends, send_buffer-Sends, Sends-IsPacket, Sends-frame,
}
use mathlib.Core.List.{append_assoc}

-- The bytes that a queue has still to put on the wire.
abbrev pub pending : List Packet → List ℕ
pending [] = []
pending (p ∷ ps) = drop p.curr_offset (frame p) ++ pending ps

-- What a flush promises about the queue that it was given.
pub record Flushes (queue : List Packet) (f : Flushed) : Type 0 where
  pub wire : pending queue ≡ f.out ++ pending f.to_send
  pub packets : All IsPacket f.to_send

abbrev pub Delivers : List Packet → Option Flushed → Type 0
Delivers queue none = Unit {0}
Delivers queue (some f) = Flushes queue f

pub Progress-cases : (c : Progress) → (c ≡ failed) ⊎ ((c ≡ blocked) ⊎ (c ≡ complete))
Progress-cases failed = inl refl
Progress-cases blocked = inr (inl refl)
Progress-cases complete = inr (inr refl)

module _ (p : Packet) (ps : List Packet) (run : Progress × Packet × List ℕ) (s : Sends p run) where
  -- The bytes of one round in front of those of the rest of the queue.
  pub round-wire : pending (p ∷ ps) ≡ run.2 ++ pending (run.1 ∷ ps)
  round-wire =
      ap (λ l. l ++ pending ps)
        (s.wire ∙ ap (λ l. run.2 ++ drop run.1.curr_offset l) (sym (Sends-frame s)))
      ∙ append_assoc run.2 (drop run.1.curr_offset (frame run.1)) (pending ps)

  pub spent : run.0 ≡ complete → IsPacket p → pending (run.1 ∷ ps) ≡ pending ps
  spent e v =
      ap (λ l. l ++ pending ps)
        (drop_all (frame run.1) run.1.curr_offset (
          omega (
            arith,
            length-append (be 4 run.1.len) run.1.buffer,
            s.ends e,
            s.len,
            (Sends-IsPacket s v).full,
          )))

  stop-Delivers :
      (rc : ℕ) → IsPacket p → All IsPacket ps → Delivers (p ∷ ps) (stop_flush rc (run.1 ∷ ps) run.2)
  stop-Delivers rc v vs = record { wire = round-wire; packets = (Sends-IsPacket s v, vs) }

  then-Delivers :
      (o : Option Flushed) → Delivers (run.1 ∷ ps) o → Delivers (p ∷ ps) (then_flushed run.2 o)
  then-Delivers none d = tt
  then-Delivers (some f) d = record {
    wire =
        round-wire
        ∙ ap (λ l. run.2 ++ l) d.wire
        ∙ sym (append_assoc run.2 f.out (pending f.to_send));
    packets = d.packets;
  }

Delivers-same :
    (queue rest : List Packet)
    → pending queue ≡ pending rest
    → (o : Option Flushed) → Delivers rest o
    → Delivers queue o
Delivers-same queue rest e none d = tt
Delivers-same queue rest e (some f) d = record { wire = e ∙ d.wire; packets = d.packets }

poll-Delivers :
    (rc : ℕ) (p : Packet) (ps : List Packet)
    → IsPacket p
    → All IsPacket ps
    → Delivers (p ∷ ps) (stop_flush rc (p ∷ ps) [])
poll-Delivers rc p ps v vs = record { wire = refl; packets = (v, vs) }

flush_loop-Delivers :
    (timeout : ℕ) (events : List FlushEvent) (queue : List Packet)
    → All IsPacket queue
    → Delivers queue (flush_loop timeout events queue)
unfolding flush_loop
flush_loop-Delivers timeout events [] h = record { wire = refl; packets = tt }
flush_loop-Delivers timeout [] (p ∷ ps) h = tt
flush_loop-Delivers timeout (e ∷ events) (p ∷ ps) (v, vs) =
    let run = send_buffer e.first e.second p in
    let s = send_buffer-Sends e.first e.second p v in
    elim (Option-cases (poll_code timeout e)) [
      | inr (rc, stop) ↦ rw (stop, flush_loop) (poll-Delivers rc p ps v vs)
      | inl go ↦ elim (Progress-cases run.0) [
        | inl x ↦ rw (go, x, flush_loop) (stop-Delivers p ps run s zconnectionloss v vs)
        | inr (inr x) ↦
            rw (go, x, flush_loop)
              (then-Delivers p ps run s _ (
                Delivers-same (run.1 ∷ ps) ps (spent p ps run s x v) _
                  (flush_loop-Delivers timeout events ps vs)))
        | inr (inl x) ↦ elim (Bool-cases (timeout == 0)) [
          | inl z ↦ rw (go, x, z, flush_loop) (stop-Delivers p ps run s zok v vs)
          | inr z ↦
              rw (go, x, z, flush_loop)
                (then-Delivers p ps run s _
                  (flush_loop-Delivers timeout events (run.1 ∷ ps) (Sends-IsPacket s v, vs)))
        ]
      ]
    ]

-- Whatever the socket does and whatever the timeout is, when flush_send_queue returns, the bytes
-- that it has put on the wire and the bytes that its queue has still to send are together those
-- that the queue had to send, in order. The lengths of the packets are those of their buffers.
pub flush_send_queue-Delivers :
    (timeout : ℕ) (connected : Bool) (events : List FlushEvent) (queue : List Packet) (f : Flushed)
    → All IsPacket queue
    → flush_send_queue timeout connected events queue ≡ some f
    → Flushes queue f
unfolding flush_send_queue
flush_send_queue-Delivers timeout true events queue f h e =
    subst (Delivers queue) e (flush_loop-Delivers timeout events queue h)
flush_send_queue-Delivers timeout false events queue f h e =
    subst (Delivers queue) e (record { wire = refl; packets = h })

then_flushed-ne-none : (out : List ℕ) (o : Option Flushed) → o ≢ none → then_flushed out o ≢ none
then_flushed-ne-none out none h = h
then_flushed-ne-none out (some f) h = λ e. cc

flush_loop-ne-none :
    (events : List FlushEvent) (queue : List Packet)
    → length queue ≤ length events
    → flush_loop 0 events queue ≢ none
unfolding flush_loop
flush_loop-ne-none events [] h = λ e. cc
flush_loop-ne-none [] (p ∷ ps) h = absurd (omega arith)
flush_loop-ne-none (e ∷ events) (p ∷ ps) h =
    let run = send_buffer e.first e.second p in
    elim (Progress-cases run.0) [
      | inl x ↦ rw (x, flush_loop) (λ y. cc)
      | inr (inl x) ↦ rw (x, flush_loop) (λ y. cc)
      | inr (inr x) ↦
          rw (x, flush_loop)
            (then_flushed-ne-none run.2 _ (flush_loop-ne-none events ps (omega arith)))
    ]

-- With timeout 0, flush_send_queue ends after one round for each packet at most.
pub flush_send_queue-ne-none :
    (connected : Bool) (events : List FlushEvent) (queue : List Packet)
    → length queue ≤ length events
    → flush_send_queue 0 connected events queue ≢ none
unfolding flush_send_queue
flush_send_queue-ne-none true events queue h = flush_loop-ne-none events queue h
flush_send_queue-ne-none false events queue h = λ e. cc
