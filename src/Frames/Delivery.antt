-- ===== src/Frames/Delivery.antt =====
-- From send_buffer to recv_buffer: the frame that was sent is the frame that is received.
use ext_zookeeper.Prelude.{
  ℕ, ◌+◌, ◌-◌, ◌^◌, ◌<◌, ◌≡◌, refl, sym, ◌∙◌, ap, none, some, List, ◌++◌, take, drop, reverse,
  arith, subst, take-append_left, drop-append_left, take_all,
}
use ext_zookeeper.Prelude.Bytes.{be, of_le, of_be-be}
use ext_zookeeper.Recordio.{Heap}
use ext_zookeeper.Recordio.Spec.{Allocates}
use ext_zookeeper.Recordio.Safety.{Refuses}
use ext_zookeeper.Frames.Defs.{RecvResult, complete, Packet}
use ext_zookeeper.Frames.Sending.{IsPacket, frame}
use ext_zookeeper.Frames.Receiving.{Incoming, Receipt, recv_buffer}
use ext_zookeeper.Frames.Payloads.{IsAnswer, IsReceiving, InPayload}
use ext_zookeeper.Frames.Reassembly.{recv_buffer-Receives}

-- Frames in front of equal streams are equal, and so is what follows them.
module _ (m n : ℕ) (xs ys rest rest' : List ℕ) where
  frames_same_length :
      m < 2 ^ 32 → n < 2 ^ 32 → (be 4 m ++ xs) ++ rest ≡ (be 4 n ++ ys) ++ rest' → m ≡ n
  frames_same_length hm hn e =
      sym (of_be-be 4 m hm) ∙ ap (λ l. of_le (reverse l)) heads ∙ of_be-be 4 n hn
    where
      heads : be 4 m ≡ be 4 n
      heads = ap (take 4) e

  frames_same_rest :
      m ≡ n → (be 4 m ++ xs) ++ rest ≡ (be 4 n ++ ys) ++ rest' → xs ++ rest ≡ ys ++ rest'
  frames_same_rest h e = ap (drop 4) e

-- What one call finished, when the bytes that have come are in front of the stream of a packet.
pub record Delivered (p : Packet) (b : Incoming) (rest rest' : List ℕ) : Type 0 where
  pub held : b.buffer ≡ some p.buffer
  pub len : b.len ≡ p.len
  pub follows : rest ≡ rest'

delivered_lem :
    (b : Incoming) (seen rest rest' : List ℕ) (p : Packet)
    → InPayload b seen
    → b.curr_offset ≡ b.len + 4
    → IsPacket p
    → p.len < 2 ^ 32
    → seen ++ rest ≡ frame p ++ rest'
    → Delivered p b rest rest'
delivered_lem b seen rest rest' p v e k h w = record {
  held = v.held ∙ ap some same_block;
  len = same_len;
  follows =
      sym (drop-append_left v.block rest b.len (sym v.full))
      ∙ ap (drop b.len) tails
      ∙ drop-append_left p.buffer rest' b.len (same_len ∙ sym k.full);
}
  where
    whole : (be 4 b.len ++ v.block) ++ rest ≡ (be 4 p.len ++ p.buffer) ++ rest'
    whole =
        ap (λ l. (be 4 b.len ++ l) ++ rest)
          (sym (take_all v.block (b.curr_offset - 4) (omega (arith, v.full, e))))
        ∙ ap (λ l. l ++ rest) (sym v.front)
        ∙ w

    same_len : b.len ≡ p.len
    same_len =
        frames_same_length b.len p.len v.block p.buffer rest rest' (omega (arith, v.fits)) h whole

    tails : v.block ++ rest ≡ p.buffer ++ rest'
    tails = frames_same_rest b.len p.len v.block p.buffer rest rest' same_len whole

    same_block : v.block ≡ p.buffer
    same_block =
        sym (take-append_left v.block rest b.len (sym v.full))
        ∙ ap (take b.len) tails
        ∙ take-append_left p.buffer rest' b.len (same_len ∙ sym k.full)

-- What a call that returns 1 has put together.
abbrev Whole : List ℕ → Receipt → Type 0
Whole seen none = Unit {0}
Whole seen (some (rc, c, got)) =
    rc ≡ complete → InPayload c (seen ++ got) × (c.curr_offset ≡ c.len + 4)

-- However the frame of a packet was cut up on its way, when recv_buffer returns 1 it has the
-- packet's payload and length, and has left on the socket what follows the frame. This holds for
-- a packet whose length is that of its buffer and fits 32 bits, when the allocator gives every
-- block whose size fits an int and none of 2 ^ 63 bytes or more, and from a buffer that is what
-- the bytes before have made it.
pub recv_buffer-Delivered :
    (heap : Heap) (r1 r2 : RecvResult) (b b' : Incoming) (seen more rest rest' : List ℕ)
    (p : Packet)
    → Allocates heap
    → Refuses heap
    → IsAnswer r1
    → IsReceiving b seen
    → recv_buffer heap r1 r2 b ≡ some (complete, b', more)
    → IsPacket p
    → p.len < 2 ^ 32
    → (seen ++ more) ++ rest ≡ frame p ++ rest'
    → Delivered p b' rest rest'
recv_buffer-Delivered heap r1 r2 b b' seen more rest rest' p allocates refuses a v e k h w =
    let r = recv_buffer-Receives heap allocates refuses r1 r2 b seen a v in
    let whole : Whole seen (some (complete, b', more)) =
      subst (Whole seen) (sym r.runs ∙ e) r.ends in
    delivered_lem b' (seen ++ more) rest rest' p (whole refl).0 (whole refl).1 k h w
