-- ===== src/Frames/Payloads.antt =====
-- The payload of a frame, as recv_buffer of zookeeper.c puts it together.
use ext_zookeeper.Prelude.{
  ℕ, ◌+◌, ◌-◌, ◌%◌, ◌^◌, ◌≤◌, ◌<◌, ◌≡◌, ◌⊎◌, inl, inr, refl, sym, ◌∙◌, ap, none, some, List, [],
  ◌∷◌, ◌++◌, length, take, get_or, All, arith, length-take,
}
use mathlib.Core.List.{append-nil, append_assoc}
use ext_zookeeper.Frames.LengthWord.{store-Stored}
use ext_zookeeper.Prelude.Bytes.{IsByte, le, be}
use ext_zookeeper.Recordio.{malloc_size, store}
use ext_zookeeper.Frames.Defs.{
  RecvResult, received, recv_again, recv_failed, Progress, failed, blocked, complete,
}
use ext_zookeeper.Frames.Receiving.{
  Incoming, Receipt, recv_progress, given, put_payload, payload_received, recv_payload,
}

-- The length is not all there: its first bytes stand in front of `len`.
pub record InLength (b : Incoming) (seen : List ℕ) : Type 0 where
  pub short : b.curr_offset < 4
  pub empty : b.buffer ≡ none
  pub count : length seen ≡ b.curr_offset
  pub word : b.len < 2 ^ 32
  pub top : get_or (le 4 b.len) 3 0 ≡ 0
  pub front : take b.curr_offset (le 4 b.len) ≡ seen

-- The length is there, and the first bytes of the payload stand in front of the block.
pub record InPayload (b : Incoming) (seen : List ℕ) : Type 0 where
  pub block : List ℕ
  pub held : b.buffer ≡ some block
  pub full : length block ≡ b.len
  pub fits : b.len < 2 ^ 31
  pub least : 4 ≤ b.curr_offset
  pub within : b.curr_offset ≤ b.len + 4
  pub front : seen ≡ be 4 b.len ++ take (b.curr_offset - 4) block

-- The length says 2 ^ 31 or more, and there is no block: nothing more is read.
pub record IsStuck (b : Incoming) (seen : List ℕ) : Type 0 where
  pub empty : b.buffer ≡ none
  pub huge : 2 ^ 31 ≤ b.len
  pub word : b.len < 2 ^ 32
  pub at_payload : b.curr_offset ≡ 4
  pub front : seen ≡ be 4 b.len

abbrev pub IsReceiving : Incoming → List ℕ → Type 0
IsReceiving b seen = InLength b seen ⊎ (InPayload b seen ⊎ IsStuck b seen)

-- A call that was made when `seen` had come: it is defined, it leaves a buffer of what has come by
-- then, and it returns 1 just with a whole frame.
pub record Receives (seen : List ℕ) (o : Receipt) : Type 0 where
  pub rc : Progress
  pub result : Incoming
  pub more : List ℕ
  pub runs : o ≡ some (rc, result, more)
  pub state : IsReceiving result (seen ++ more)
  pub ends : rc ≡ complete → InPayload result (seen ++ more) × (result.curr_offset ≡ result.len + 4)
  pub waits : rc ≡ blocked → InPayload result (seen ++ more) → result.curr_offset < result.len + 4

-- A result of recv holds bytes.
abbrev pub IsAnswer : RecvResult → Type 0
IsAnswer (received bytes) = All IsByte bytes
IsAnswer recv_again = Unit {0}
IsAnswer recv_failed = Unit {0}

pub nothing :
    (seen : List ℕ) (rc : Progress) (b : Incoming)
    → IsReceiving b seen
    → (rc ≡ complete → InPayload b seen × (b.curr_offset ≡ b.len + 4))
    → (rc ≡ blocked → InPayload b seen → b.curr_offset < b.len + 4)
    → Receives seen (some (rc, b, []))
nothing seen rc b v ends waits = record {
  rc = rc;
  result = b;
  more = [];
  runs = refl;
  state = rw (append-nil seen) v;
  ends = rw (append-nil seen) ends;
  waits = rw (append-nil seen) waits;
}

progress-ends :
    (b : Incoming) → b.len < 2 ^ 31 → recv_progress b ≡ complete → b.curr_offset ≡ b.len + 4
progress-ends b h e = ground arith

progress-waits :
    (b : Incoming) (seen : List ℕ)
    → recv_progress b ≡ blocked
    → InPayload b seen
    → b.curr_offset < b.len + 4
progress-waits b seen e v = ground (arith, v.within, v.fits)

payload_room :
    (len off : ℕ)
    → len < 2 ^ 31
    → 4 ≤ off
    → off ≤ len + 4
    → malloc_size ((len + 2 ^ 32 - (off - 4)) % 2 ^ 32) ≡ len - (off - 4)
payload_room len off h l w = ground arith

payload_put :
    (xs : List ℕ) (b : Incoming) (seen : List ℕ) (v : InPayload b seen)
    → b.curr_offset + length xs ≤ b.len + 4
    → Receives seen (put_payload xs b (store (b.curr_offset - 4) xs v.block))
payload_put xs b seen v h =
    let s = store-Stored (b.curr_offset - 4) xs v.block (omega (arith, v.full, v.least, h)) in
    let b' : Incoming = record b {
      buffer = some s.result;
      curr_offset = b.curr_offset + length xs;
    } in
    let inside : InPayload b' (seen ++ xs) = record {
      block = s.result;
      held = refl;
      full = s.full ∙ v.full;
      fits = v.fits;
      least = omega (arith, v.least);
      within = h;
      front =
          ap (λ l. l ++ xs) v.front
          ∙ append_assoc (be 4 b.len) (take (b.curr_offset - 4) v.block) xs
          ∙ ap (λ l. be 4 b.len ++ l)
              (sym s.front ∙ ap (λ k. take k s.result) (omega (arith, v.least)));
    } in
    record {
      rc = recv_progress b';
      result = b';
      more = xs;
      runs = rw s.runs;
      state = inr (inl inside);
      ends = λ e. (inside, progress-ends b' v.fits e);
      waits = progress-waits b' (seen ++ xs);
    }

pub List-cases : (xs : List ℕ) → (xs ≡ []) ⊎ ((y : ℕ) × ((ys : List ℕ) × (xs ≡ y ∷ ys)))
List-cases [] = inl refl
List-cases (y ∷ ys) = inr (y, (ys, refl))

pub payload-Receives :
    (r : RecvResult) (b : Incoming) (seen : List ℕ)
    → InPayload b seen
    → Receives seen (recv_payload r b)
unfolding recv_payload payload_received
payload-Receives r b seen v =
    rw (v.held, recv_payload, payload_room b.len b.curr_offset v.fits v.least v.within) (answered r)
  where
    answered :
        (r : RecvResult)
        → Receives seen (payload_received (given r (b.len - (b.curr_offset - 4))) v.block b)
    answered (received bytes) = elim (List-cases (take (b.len - (b.curr_offset - 4)) bytes)) [
      | inl e ↦ rw e (nothing seen failed b (inr (inl v)) (λ x. cc) (λ x. cc))
      | inr (x, (xs, e)) ↦ rw e (
          payload_put (x ∷ xs) b seen v (
            omega (
              arith,
              ap length (sym e),
              length-take (b.len - (b.curr_offset - 4)) bytes,
              v.within,
              v.least,
            )))
    ]
    answered recv_again =
        nothing seen (recv_progress b) b (inr (inl v)) (λ e. (v, progress-ends b v.fits e))
          (progress-waits b seen)
    answered recv_failed = nothing seen failed b (inr (inl v)) (λ x. cc) (λ x. cc)

pub stuck-Receives :
    (r : RecvResult) (b : Incoming) (seen : List ℕ)
    → IsStuck b seen
    → Receives seen (recv_payload r b)
unfolding recv_payload
stuck-Receives r b seen v =
    rw (v.empty, recv_payload)
      (nothing seen (recv_progress b) b (inr (inr v)) (λ e. absurd (not_whole e))
        (λ e x. absurd (omega (arith, x.fits, v.huge))))
  where
    not_whole : ¬ (recv_progress b ≡ complete)
    not_whole e = ground (arith, v.huge, v.word, v.at_payload)

pub short-Receives :
    (r : RecvResult) (b : Incoming) (seen : List ℕ)
    → InLength b seen
    → Receives seen (recv_payload r b)
unfolding recv_payload
short-Receives r b seen v =
    rw (v.empty, recv_payload)
      (nothing seen (recv_progress b) b (inl v) (λ e. absurd (not_whole e))
        (λ e x. absurd (omega (arith, x.least, v.short))))
  where
    small : b.len < 2 ^ 24
    small = omega (arith, v.top, v.word)

    not_whole : ¬ (recv_progress b ≡ complete)
    not_whole e = ground (arith, small, v.short)
