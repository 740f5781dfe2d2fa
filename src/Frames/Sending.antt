-- ===== src/Frames/Sending.antt =====
-- What send_buffer puts on the wire.
use ext_zookeeper.Prelude.{
  ℕ, ◌+◌, ◌-◌, ◌≤◌, ◌<◌, ◌≡◌, refl, List, [], ◌++◌, length, take, drop, ltb, leb, if◌then◌else◌,
  arith, length-append, length-take, length-drop, Bool-cases, drop_past, drop_within, drop_onward,
  inl, inr, ◌∙◌, sym,
}
use ext_zookeeper.Prelude.Bytes.{be}
use ext_zookeeper.Frames.Defs.{
  Packet, Progress, blocked, complete, SendResult, sent, send_again, send_failed, taken,
  send_payload, send_buffer, behind, length_sent, progress,
}
use mathlib.Core.List.{append-nil, append_assoc}

-- The bytes of a packet on the wire.
abbrev pub frame : Packet → List ℕ
frame p = be 4 p.len ++ p.buffer

-- A packet whose length is that of its buffer, and of which no more than all is sent.
pub record IsPacket (p : Packet) : Type 0 where
  pub full : length p.buffer ≡ p.len
  pub within : p.curr_offset ≤ p.len + 4

-- A run of send_buffer: what is out and what is left make up what was left.
pub record Sends (p : Packet) (run : Progress × Packet × List ℕ) : Type 0 where
  pub buffer : run.1.buffer ≡ p.buffer
  pub len : run.1.len ≡ p.len
  pub within : run.1.curr_offset ≤ p.len + 4
  pub moves : run.1.curr_offset ≡ p.curr_offset + length run.2
  pub wire : drop p.curr_offset (frame p) ≡ run.2 ++ drop run.1.curr_offset (frame p)
  pub ends : run.0 ≡ complete → run.1.curr_offset ≡ p.len + 4
  pub waits : run.0 ≡ blocked → run.1.curr_offset < p.len + 4

payload_left :
    (p : Packet)
    → 4 ≤ p.curr_offset
    → drop p.curr_offset (frame p) ≡ drop (p.curr_offset - 4) p.buffer ++ []
payload_left p h = drop_past p.curr_offset (be 4 p.len) p.buffer (omega arith) ∙ sym (append-nil _)

length_left :
    (p : Packet)
    → p.curr_offset < 4
    → drop p.curr_offset (frame p) ≡ drop p.curr_offset (be 4 p.len) ++ p.buffer
length_left p h = drop_within p.curr_offset (be 4 p.len) p.buffer (omega arith)

length_taken : (k : ℕ) (xs : List ℕ) (n : ℕ) → length xs ≤ n → length (take k xs) ≤ n
length_taken k xs n h = omega (arith, length-take k xs)

nothing_out :
    (rc : Progress) (p : Packet)
    → IsPacket p
    → (rc ≡ complete → p.curr_offset ≡ p.len + 4)
    → (rc ≡ blocked → p.curr_offset < p.len + 4)
    → Sends p (rc, p, [])
nothing_out rc p v ends waits = record {
  buffer = refl;
  len = refl;
  within = v.within;
  moves = omega arith;
  wire = refl;
  ends = ends;
  waits = waits;
}

send_payload-Sends :
    (r : SendResult) (p : Packet) → IsPacket p → 4 ≤ p.curr_offset → Sends p (send_payload r p)
unfolding send_payload
send_payload-Sends (sent k) p v h = record {
  buffer = refl;
  len = refl;
  within = room;
  moves = refl;
  wire =
      drop_onward (frame p) (drop (p.curr_offset - 4) p.buffer) [] p.curr_offset k
        (payload_left p h);
  ends = ground arith;
  waits = ground (arith, room);
}
  where
    room : p.curr_offset + length (take k (drop (p.curr_offset - 4) p.buffer)) ≤ p.len + 4
    room = omega (
      arith,
      length-take k (drop (p.curr_offset - 4) p.buffer),
      length-drop (p.curr_offset - 4) p.buffer,
      v.full,
      v.within,
    )
send_payload-Sends send_again p v h = nothing_out _ p v (ground arith) (ground (arith, v.within))
send_payload-Sends send_failed p v h = nothing_out _ p v (λ e. cc) (λ e. cc)

-- Bytes that are out already go in front of a run.
behind-Sends :
    (p : Packet) (m : ℕ) (out : List ℕ) (run : Progress × Packet × List ℕ)
    → m ≡ p.curr_offset + length out
    → drop p.curr_offset (frame p) ≡ out ++ drop m (frame p)
    → Sends (record p { curr_offset = m }) run
    → Sends p (behind out run)
behind-Sends p m out (rc, q, more) e w s = record {
  buffer = s.buffer;
  len = s.len;
  within = s.within;
  moves = omega (arith, s.moves, length-append out more);
  wire = rw (w, s.wire, append_assoc);
  ends = s.ends;
  waits = s.waits;
}

-- After some bytes of the length: on to the payload, or the call ends early.
after_length :
    (r2 : SendResult) (p : Packet) (m : ℕ) (out : List ℕ)
    → IsPacket p
    → m ≡ p.curr_offset + length out
    → m ≤ 4
    → drop p.curr_offset (frame p) ≡ out ++ drop m (frame p)
    → Sends p (
        if leb 4 m
        then behind out (send_payload r2 (record p { curr_offset = m }))
        else (progress m p.len, record p { curr_offset = m }, out))
after_length r2 p m out v e h w = elim (Bool-cases (leb 4 m)) [
  | inl all ↦ rw all (
      behind-Sends p m out _ e w (
        send_payload-Sends r2 (record p { curr_offset = m })
          (record { full = v.full; within = omega arith }) (ground arith)))
  | inr part ↦ rw part (record {
    buffer = refl;
    len = refl;
    within = omega arith;
    moves = e;
    wire = w;
    ends = ground arith;
    waits = ground arith;
  })
]

length_sent-Sends :
    (r1 r2 : SendResult) (p : Packet)
    → IsPacket p
    → p.curr_offset < 4
    → Sends p (length_sent r1 r2 (taken r1 (drop p.curr_offset (be 4 p.len))) p)
length_sent-Sends (sent k) r2 p v h =
    let out = take k (drop p.curr_offset (be 4 p.len)) in
    after_length r2 p (p.curr_offset + length out) out v refl short (
      drop_onward (frame p) (drop p.curr_offset (be 4 p.len)) p.buffer p.curr_offset k
        (length_left p h))
  where
    short : p.curr_offset + length (take k (drop p.curr_offset (be 4 p.len))) ≤ 4
    short = omega (
      arith,
      length-take k (drop p.curr_offset (be 4 p.len)),
      length-drop p.curr_offset (be 4 p.len),
    )
length_sent-Sends send_again r2 p v h = nothing_out _ p v (λ e. cc) (λ e. omega arith)
length_sent-Sends send_failed r2 p v h = nothing_out _ p v (λ e. cc) (λ e. cc)

-- For a packet whose length is that of its buffer and of which no more than all is out, a call of
-- send_buffer puts the next bytes of the frame on the wire, in order, none twice and none left
-- out. When it returns 1 the last one is out, and when it returns 0 some are left.
pub send_buffer-Sends :
    (r1 r2 : SendResult) (p : Packet) → IsPacket p → Sends p (send_buffer r1 r2 p)
unfolding send_buffer
send_buffer-Sends r1 r2 p v = elim (Bool-cases (ltb p.curr_offset 4)) [
  | inl e ↦ rw e (length_sent-Sends r1 r2 p v (ground arith))
  | inr e ↦ rw e (send_payload-Sends r2 p v (ground arith))
]

pub Sends-IsPacket :
    {p : Packet} {run : Progress × Packet × List ℕ} → Sends p run → IsPacket p → IsPacket run.1
Sends-IsPacket s v = record { full = rw s.buffer (v.full ∙ sym s.len); within = rw s.len s.within }

pub Sends-frame :
    {p : Packet} {run : Progress × Packet × List ℕ} → Sends p run → frame run.1 ≡ frame p
Sends-frame s = rw (s.len, s.buffer)
