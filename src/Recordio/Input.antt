-- ===== src/Recordio/Input.antt =====
-- What the deserializers of recordio.c read, and that they are strict on short input.
use ext_zookeeper.Prelude.{
  ℕ, suc, ◌+◌, ◌^◌, ◌≤◌, ◌<◌, ◌≡◌, refl, Bool, true, false, Option, none, some, List, [], ◌∷◌, ◌++◌,
  length, ltb, ◌==◌, if◌then◌else◌, length-append, arith, inl, inr, le→not_ltb, le→leb, lt→not_leb,
  take-append_left, drop-append_left,
}
use ext_zookeeper.Prelude.Bytes.{IsInt32, IsInt64, of_le, be}
use ext_zookeeper.Recordio.Defs.{good, fail, enomem, e2big, einval, Archive, next, pure, fetch}
use ext_zookeeper.Recordio.Words.{htonl, zoo_htonll, swap_loop, is_neg, negone}
use ext_zookeeper.Recordio.Ops.{
  Heap, Buffer, CString, read, room_lt_size, room_lt_int, ia_deserialize_int, ia_deserialize_long,
  ia_deserialize_bool, ia_deserialize_buffer, ia_deserialize_string, of_char, malloc_size,
}
use ext_zookeeper.Recordio.Spec.{Allocates, Reads, Reads-seq, at}
use ext_zookeeper.Recordio.Output.{block_bytes, buffer_bytes, IsBuffer, bool_byte}
use mathlib.Core.List.{append-nil, append_assoc}

fetch-at :
    (front bs rest spare : List ℕ)
    → fetch (length front) (length bs) (front ++ (bs ++ rest ++ spare)) ≡ some bs
unfolding fetch
fetch-at front bs rest spare = rw (
  append_assoc bs rest spare,
  le→leb (length front + length bs) (length (front ++ (bs ++ (rest ++ spare)))) (
      omega (arith, length-append front (bs ++ (rest ++ spare)), length-append bs (rest ++ spare))),
  drop-append_left front (bs ++ (rest ++ spare)) (length front) refl,
  take-append_left bs (rest ++ spare) (length bs) refl,
)

pub read-Reads : (bs : List ℕ) → Reads (read (length bs)) bs bs
unfolding read
read-Reads bs front rest spare h = ground (
  arith,
  fetch-at front bs rest spare,
  length-append front bs,
  length-append bs rest,
  append_assoc front bs (rest ++ spare),
  append_assoc bs rest spare,
)

-- The room that is left is what has not been read.
size_room :
    (n : ℕ) (front rest spare : List ℕ)
    → n ≤ 8
    → length front + length rest < 2 ^ 31
    → room_lt_size (at front rest spare) n ≡ ltb (length rest) n
size_room n front rest spare hn h = ground arith

int_room :
    (n : ℕ) (front rest spare : List ℕ)
    → n < 2 ^ 31
    → room_lt_int (at front rest spare) n ≡ ltb (length rest) n
int_room n front rest spare hn = rw (lt→not_leb (2 ^ 31) n hn) (ground arith)

pub zoo_htonll-be : (v : ℕ) → IsInt64 v → zoo_htonll (of_le (be 8 v)) ≡ v
unfolding zoo_htonll swap_loop
zoo_htonll-be v h = omega arith

pub htonl-be : (v : ℕ) → IsInt32 v → htonl (of_le (be 4 v)) ≡ v
htonl-be v h = omega arith

pub ia_deserialize_int-Reads : (v : ℕ) → IsInt32 v → Reads ia_deserialize_int (be 4 v) v
unfolding ia_deserialize_int
ia_deserialize_int-Reads v hv front rest spare h = rw (
  size_room 4 front (be 4 v ++ rest) spare (omega arith) h,
  le→not_ltb (length (be 4 v ++ rest)) 4 (omega arith),
  read-Reads (be 4 v) front rest spare h,
  htonl-be v hv,
)

pub ia_deserialize_long-Reads : (v : ℕ) → IsInt64 v → Reads ia_deserialize_long (be 8 v) v
unfolding ia_deserialize_long
ia_deserialize_long-Reads v hv front rest spare h = rw (
  size_room 8 front (be 8 v ++ rest) spare (omega arith) h,
  le→not_ltb (length (be 8 v ++ rest)) 8 (omega arith),
  read-Reads (be 8 v) front rest spare h,
  zoo_htonll-be v hv,
)

of_char-bool : (c : Bool) → of_char ((if c then 0 else 1) ∷ []) ≡ (if c then 0 else 1)
of_char-bool true = refl
of_char-bool false = refl

-- No archive has less than -1 bytes left.
negone_room : (front rest spare : List ℕ) → room_lt_int (at front rest spare) negone ≡ false
negone_room front rest spare =
    le→not_ltb (length front + length rest + 1) (length front) (omega arith)

-- A bool comes back as 0 or 1.
pub ia_deserialize_bool-Reads : (i : ℕ) → Reads ia_deserialize_bool (bool_byte i ∷ []) (bool_byte i)
unfolding ia_deserialize_bool
ia_deserialize_bool-Reads i front rest spare h = rw (
  int_room 1 front (bool_byte i ∷ rest) spare (omega arith),
  le→not_ltb (suc (length rest)) 1 (omega arith),
  read-Reads (bool_byte i ∷ []) front rest spare h,
  of_char-bool (i == 0),
)

-- A null buffer comes back as null, and any other as its bytes; an empty buffer with a null
-- pointer comes back as an empty block.
abbrev pub received : Buffer → Buffer
received b = elim b.buff [
  | none ↦ if b.len == negone then b else record { len = 0; buff = some [] }
  | some bs ↦ b
]

module _ (heap : Heap) (allocates : Allocates heap) where
  abbrev string_body : ℕ → Archive CString
  string_body len s =
      if room_lt_int s len
      then some (fail e2big, s)
      else if is_neg len
      then some (fail einval, s)
      else if heap.can_alloc (len + 1)
      then next (λ bs. pure (some bs)) (read len s)
      else some (fail enomem, s)

  string_body-Reads :
      (bs : List ℕ) → length bs < 2 ^ 28 → Reads (string_body (length bs)) bs (some bs)
  string_body-Reads bs short front rest spare h = rw (
    int_room (length bs) front (bs ++ rest) spare (omega arith),
    le→not_ltb (length (bs ++ rest)) (length bs) (omega (arith, length-append bs rest)),
    lt→not_leb (2 ^ 31) (length bs) (omega arith),
    allocates (length bs + 1) (omega arith),
    read-Reads bs front rest spare h,
  )

  -- ia_deserialize_string reads the length and the bytes of a string shorter than 2 ^ 28,
  -- whatever stands in front and behind in an archive shorter than 2 ^ 31, and moves past just
  -- those, when the allocator gives every block whose size fits an int.
  pub ia_deserialize_string-Reads :
      (bs : List ℕ)
      → length bs < 2 ^ 28
      → Reads (ia_deserialize_string heap) (block_bytes bs) (some bs)
  unfolding ia_deserialize_string
  ia_deserialize_string-Reads bs short =
      Reads-seq ia_deserialize_int string_body (be 4 (length bs)) bs (length bs) (some bs)
        (ia_deserialize_int-Reads (length bs) (omega arith)) (string_body-Reads bs short)

  -- The null string that oa_serialize_string writes as the length -1 is refused by
  -- ia_deserialize_string with EINVAL, wherever it stands in an archive shorter than 2 ^ 31, when
  -- the allocator gives every block whose size fits an int.
  pub ia_deserialize_string_null :
      (front rest spare : List ℕ)
      → length front + length (be 4 negone ++ rest) < 2 ^ 31
      → ia_deserialize_string heap (at front (be 4 negone ++ rest) spare)
        ≡ some (fail einval, at (front ++ be 4 negone) rest spare)
  unfolding ia_deserialize_string
  ia_deserialize_string_null front rest spare h = rw (
    ia_deserialize_int-Reads negone (omega arith) front rest spare h,
    negone_room (front ++ be 4 negone) rest spare,
  )

  abbrev buffer_body : ℕ → Archive Buffer
  buffer_body len s =
      if room_lt_int s len
      then some (fail e2big, s)
      else if len == negone
      then some (good (record { len = len; buff = none }), s)
      else if heap.can_alloc (malloc_size len)
      then next (λ bs. pure (record { len = len; buff = some bs })) (read (malloc_size len) s)
      else some (fail enomem, s)

  buffer_body-Reads :
      (bs : List ℕ)
      → length bs < 2 ^ 28
      → Reads (buffer_body (length bs)) bs (record { len = length bs; buff = some bs })
  buffer_body-Reads bs short front rest spare h = rw (
    int_room (length bs) front (bs ++ rest) spare (omega arith),
    le→not_ltb (length (bs ++ rest)) (length bs) (omega (arith, length-append bs rest)),
    ne_negone (length bs) (omega arith),
    lt→not_leb (2 ^ 31) (length bs) (omega arith),
    allocates (length bs) (omega arith),
    read-Reads bs front rest spare h,
  )
    where
      ne_negone : (n : ℕ) → n < negone → (n == negone) ≡ false
      ne_negone n k = ground arith

  buffer_null-Reads : Reads (buffer_body negone) [] (record { len = negone; buff = none })
  buffer_null-Reads front rest spare h = rw (negone_room front rest spare, append-nil)

  deserialize_buffer-Reads :
      (len : ℕ) (buff : Option (List ℕ))
      → IsBuffer (record { len = len; buff = buff })
      → Reads
          (ia_deserialize_buffer heap)
          (buffer_bytes (record { len = len; buff = buff }))
          (received (record { len = len; buff = buff }))
  unfolding ia_deserialize_buffer
  deserialize_buffer-Reads len none (inl null) = rw null (
      Reads-seq ia_deserialize_int buffer_body (be 4 negone) [] negone
        (record { len = negone; buff = none }) (ia_deserialize_int-Reads negone (omega arith))
        buffer_null-Reads)
  deserialize_buffer-Reads len none (inr empty) = rw empty (
      Reads-seq ia_deserialize_int buffer_body (be 4 0) [] 0 (record { len = 0; buff = some [] })
        (ia_deserialize_int-Reads 0 (omega arith)) (buffer_body-Reads [] (omega arith)))
  deserialize_buffer-Reads len (some bs) (e, short, bytes) = rw e (
      Reads-seq ia_deserialize_int buffer_body (be 4 (length bs)) bs (length bs)
        (record { len = length bs; buff = some bs })
        (ia_deserialize_int-Reads (length bs) (omega arith)) (buffer_body-Reads bs short))

  -- ia_deserialize_buffer reads what oa_serialize_buffer writes for a buffer whose length is that
  -- of its block, or a null one with length -1 or 0, whatever stands in front and behind in an
  -- archive shorter than 2 ^ 31; a null one with length 0 is read as an empty block. This holds
  -- when the allocator gives every block whose size fits an int.
  pub ia_deserialize_buffer-Reads :
      (b : Buffer) → IsBuffer b → Reads (ia_deserialize_buffer heap) (buffer_bytes b) (received b)
  ia_deserialize_buffer-Reads b h = deserialize_buffer-Reads b.len b.buff h
