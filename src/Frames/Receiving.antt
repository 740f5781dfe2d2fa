-- ===== src/Frames/Receiving.antt =====
-- recv_buffer of zookeeper.c: a frame is put together from what the socket has, call by call.
use ext_zookeeper.Prelude.{
  ℕ, ◌+◌, ◌-◌, ◌%◌, ◌^◌, Option, none, some, List, [], ◌∷◌, ◌++◌, length, take, replicate, ltb,
  ◌==◌, if◌then◌else◌,
}
use ext_zookeeper.Prelude.Bytes.{le, of_le}
use ext_zookeeper.Recordio.{htonl, malloc_size, Heap, store}
use ext_zookeeper.Frames.Defs.{
  RecvResult, received, recv_again, recv_failed, Progress, failed, blocked, complete,
  sizeof_buffer_list,
}

-- A buffer_list_t that a frame is read into. `len` is a word in memory.
pub record Incoming : Type 0 where
  pub buffer : Option (List ℕ)
  pub len : ℕ
  pub curr_offset : ℕ

-- allocate_buffer(0, 0)
unfoldable pub allocate_input : Incoming
allocate_input = record { buffer = none; len = sizeof_buffer_list; curr_offset = 0 }

-- What a call hands back: its code, the buffer, and the bytes that it took off the socket. `none`
-- is undefined behaviour.
abbrev pub Receipt : Type 0
Receipt = Option (Progress × Incoming × List ℕ)

-- `buff->curr_offset == buff->len + sizeof(buff->len)`, of size_t
abbrev pub recv_progress : Incoming → Progress
recv_progress b = if b.curr_offset == (malloc_size b.len + 4) % 2 ^ 64 then complete else blocked

-- What recv gives when it is asked for `n` bytes: no more. 0 bytes are the end of the stream.
abbrev pub given : RecvResult → ℕ → RecvResult
given (received bytes) n = received (take n bytes)
given recv_again n = recv_again
given recv_failed n = recv_failed

abbrev pub put_payload : List ℕ → Incoming → Option (List ℕ) → Receipt
put_payload bytes b none = none
put_payload bytes b (some block) =
    let b' = record b { buffer = some block; curr_offset = b.curr_offset + length bytes } in
    some (recv_progress b', b', bytes)

unfoldable pub payload_received : RecvResult → List ℕ → Incoming → Receipt
payload_received (received []) block b = some (failed, b, [])
payload_received (received (x ∷ xs)) block b =
    put_payload (x ∷ xs) b (store (b.curr_offset - 4) (x ∷ xs) block)
payload_received recv_again block b = some (recv_progress b, b, [])
payload_received recv_failed block b = some (failed, b, [])

-- The second half: `if (buff->buffer) { … }`.
unfoldable pub recv_payload : RecvResult → Incoming → Receipt
recv_payload r b = elim b.buffer [
  | none ↦ some (recv_progress b, b, [])
  | some block ↦
      payload_received (given r (malloc_size ((b.len + 2 ^ 32 - (b.curr_offset - 4)) % 2 ^ 32)))
        block b
]

-- The bytes of one call of recv in front of those of the next.
abbrev pub before : List ℕ → Receipt → Receipt
before bytes none = none
before bytes (some (rc, b, more)) = some (rc, b, bytes ++ more)

module _ (heap : Heap) where
  open heap use {can_alloc}

  -- `buff->len = ntohl(buff->len); buff->buffer = calloc(1, buff->len);`
  unfoldable pub length_known : Incoming → Incoming
  length_known b =
      let n = htonl b.len in
      record b {
        len = n;
        buffer = if can_alloc (malloc_size n) then some (replicate (malloc_size n) 0) else none;
      }

  -- After some bytes of the length.
  abbrev pub length_put : RecvResult → List ℕ → Incoming → Option (List ℕ) → Receipt
  length_put r2 bytes b none = none
  length_put r2 bytes b (some word) =
      let b' = record b { len = of_le word; curr_offset = b.curr_offset + length bytes } in
      before bytes (recv_payload r2 (if b'.curr_offset == 4 then length_known b' else b'))

  unfoldable pub length_received : RecvResult → RecvResult → Incoming → Receipt
  length_received (received []) r2 b = some (failed, b, [])
  length_received (received (x ∷ xs)) r2 b =
      length_put r2 (x ∷ xs) b (store b.curr_offset (x ∷ xs) (le 4 b.len))
  length_received recv_again r2 b = some (blocked, b, [])
  length_received recv_failed r2 b = some (failed, b, [])

  -- `r1` and `r2` answer the two calls of recv.
  unfoldable pub recv_buffer : RecvResult → RecvResult → Incoming → Receipt
  recv_buffer r1 r2 b =
      if ltb b.curr_offset 4
      then length_received (given r1 (4 - b.curr_offset)) r2 b
      else recv_payload r2 b
