-- ===== src/Frames/Reassembly.antt =====
-- What recv_buffer of zookeeper.c puts together.
use ext_zookeeper.Prelude.{
  ℕ, ◌+◌, ◌-◌, ◌^◌, ◌≤◌, ◌≡◌, inl, inr, refl, sym, ◌∙◌, ap, List, [], ◌∷◌, ◌++◌, length, take,
  replicate, All, lt→ltb, le→not_ltb, All-take, subst, leb, ◌==◌, arith, Bool-cases, length-append,
  length-take, length-replicate,
}
use mathlib.Core.List.{append-nil, append_assoc}
use ext_zookeeper.Frames.LengthWord.{
  htonl_fits, overwritten, le-overwritten, overwritten_fits, overwritten_top, be-overwritten,
}
use ext_zookeeper.Prelude.Bytes.{IsByte, le, of_le, be}
use ext_zookeeper.Recordio.{htonl, Heap, store}
use ext_zookeeper.Recordio.Spec.{Allocates}
use ext_zookeeper.Recordio.Safety.{Refuses}
use ext_zookeeper.Frames.Defs.{RecvResult, received, recv_again, recv_failed, failed, blocked}
use ext_zookeeper.Frames.Receiving.{
  allocate_input, Incoming, Receipt, given, recv_payload, before, length_known, length_put,
  length_received, recv_buffer,
}
use ext_zookeeper.Frames.Payloads.{
  InLength, IsReceiving, Receives, IsAnswer, nothing, List-cases, payload-Receives, stuck-Receives,
  short-Receives,
}

before-Receives :
    (seen xs : List ℕ) (o : Receipt) → Receives (seen ++ xs) o → Receives seen (before xs o)
before-Receives seen xs o v = rw v.runs (record {
  rc = v.rc;
  result = v.result;
  more = xs ++ v.more;
  runs = refl;
  state = rw (← append_assoc seen xs v.more) v.state;
  ends = rw (← append_assoc seen xs v.more) v.ends;
  waits = rw (← append_assoc seen xs v.more) v.waits;
})

module _ (heap : Heap) (allocates : Allocates heap) (refuses : Refuses heap) where
  -- The length is there: a block is asked for.
  known-Receives :
      (r2 : RecvResult) (b : Incoming) (seen : List ℕ)
      → b.curr_offset ≡ 4
      → be 4 (htonl b.len) ≡ seen
      → Receives seen (recv_payload r2 (length_known heap b))
  unfolding length_known
  known-Receives r2 b seen e w = elim (Bool-cases (leb (2 ^ 31) (htonl b.len))) [
    | inl huge ↦
        rw (huge, length_known, refuses (htonl b.len + (2 ^ 64 - 2 ^ 32)) (ground arith))
          (stuck-Receives r2 _ seen (record {
            empty = refl;
            huge = ground arith;
            word = htonl_fits b.len;
            at_payload = e;
            front = sym w;
          }))
    | inr fits ↦
        rw (fits, length_known, allocates (htonl b.len) (ground arith))
          (payload-Receives r2 _ seen (record {
            block = replicate (htonl b.len) 0;
            held = refl;
            full = length-replicate (htonl b.len) 0;
            fits = ground arith;
            least = omega arith;
            within = omega arith;
            front =
                sym w
                ∙ sym (append-nil (be 4 (htonl b.len)))
                ∙ ap (λ k. be 4 (htonl b.len) ++ take k (replicate (htonl b.len) 0)) {x = 0}
                    {y = b.curr_offset - 4} (omega arith);
          }))
  ]

  -- Some bytes of the length have come.
  put-Receives :
      (r2 : RecvResult) (x : ℕ) (xs : List ℕ) (b : Incoming) (seen : List ℕ)
      → All IsByte (x ∷ xs)
      → InLength b seen
      → b.curr_offset + length (x ∷ xs) ≤ 4
      → Receives seen (length_put heap r2 (x ∷ xs) b (store b.curr_offset (x ∷ xs) (le 4 b.len)))
  put-Receives r2 x xs b seen bytes v h =
      let new = overwritten b.len b.curr_offset (x ∷ xs) bytes h in
      elim (Bool-cases (b.curr_offset + length (x ∷ xs) == 4)) [
        | inl all ↦
            rw (new.runs, all)
              (before-Receives seen (x ∷ xs) _ (
                known-Receives r2
                  (record b {
                    len = of_le new.result;
                    curr_offset = b.curr_offset + length (x ∷ xs);
                  })
                  (seen ++ (x ∷ xs)) (ground arith)
                  (be-overwritten b.len b.curr_offset (x ∷ xs) bytes h (ground arith)
                    ∙ ap (λ l. l ++ (x ∷ xs)) v.front)))
        | inr part ↦
            rw (new.runs, part)
              (before-Receives seen (x ∷ xs) _ (
                short-Receives r2 _ (seen ++ (x ∷ xs)) (record {
                  short = ground (arith, h);
                  empty = v.empty;
                  count = omega (arith, length-append seen (x ∷ xs), v.count);
                  word = overwritten_fits b.len b.curr_offset (x ∷ xs) bytes h;
                  top =
                      overwritten_top b.len b.curr_offset (x ∷ xs) bytes h (ground (arith, h))
                      ∙ v.top;
                  front =
                      ap (take (b.curr_offset + length (x ∷ xs)))
                        (le-overwritten b.len b.curr_offset (x ∷ xs) bytes h)
                      ∙ new.front
                      ∙ ap (λ l. l ++ (x ∷ xs)) v.front;
                })))
      ]

  length-Receives :
      (r1 r2 : RecvResult) (b : Incoming) (seen : List ℕ)
      → IsAnswer r1
      → InLength b seen
      → Receives seen (length_received heap (given r1 (4 - b.curr_offset)) r2 b)
  unfolding length_received
  length-Receives (received bytes) r2 b seen a v =
      elim (List-cases (take (4 - b.curr_offset) bytes)) [
        | inl e ↦ rw e (nothing seen failed b (inl v) (λ x. cc) (λ x. cc))
        | inr (x, (xs, e)) ↦ rw e (
            put-Receives r2 x xs b seen
              (subst (All IsByte) e (All-take IsByte (4 - b.curr_offset) bytes a)) v
              (omega (arith, ap length (sym e), length-take (4 - b.curr_offset) bytes, v.short)))
      ]
  length-Receives recv_again r2 b seen a v =
      nothing seen blocked b (inl v) (λ x. cc) (λ e w. absurd (omega (arith, w.least, v.short)))
  length-Receives recv_failed r2 b seen a v = nothing seen failed b (inl v) (λ x. cc) (λ x. cc)

  pub recv_buffer-Receives :
      (r1 r2 : RecvResult) (b : Incoming) (seen : List ℕ)
      → IsAnswer r1
      → IsReceiving b seen
      → Receives seen (recv_buffer heap r1 r2 b)
  unfolding recv_buffer
  recv_buffer-Receives r1 r2 b seen a (inl v) =
      rw (lt→ltb _ _ v.short) (length-Receives r1 r2 b seen a v)
  recv_buffer-Receives r1 r2 b seen a (inr (inl v)) =
      rw (le→not_ltb _ _ v.least) (payload-Receives r2 b seen v)
  recv_buffer-Receives r1 r2 b seen a (inr (inr v)) =
      rw (le→not_ltb b.curr_offset 4 (omega (arith, v.at_payload))) (stuck-Receives r2 b seen v)

-- The buffer that check_events starts with has received nothing.
pub allocate_input-IsReceiving : IsReceiving allocate_input []
unfolding allocate_input
allocate_input-IsReceiving = inl (record {
  short = omega arith;
  empty = refl;
  count = refl;
  word = omega arith;
  top = refl;
  front = refl;
})
