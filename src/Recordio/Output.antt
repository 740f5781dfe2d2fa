-- ===== src/Recordio/Output.antt =====
-- What the serializers of recordio.c write.
use ext_zookeeper.Prelude.{
  ℕ, zero, suc, ◌+◌, ◌^◌, ◌≤◌, ◌<◌, ◌≡◌, ◌⊎◌, fun_ext, refl, false, Option, none, some, List, [],
  ◌∷◌, ◌++◌, length, ltb, ◌==◌, if◌then◌else◌, arith, ap, inl, inr, le→leb, lt→not_leb, take_all,
  All,
}
use ext_zookeeper.Prelude.Bytes.{IsByte, le, be}
use ext_zookeeper.Recordio.Defs.{BuffStruct, Archive, ◌>>◌, pure, fetch}
use ext_zookeeper.Recordio.Words.{htonl, zoo_htonll, le-htonl, le-zoo_htonll, negone}
use ext_zookeeper.Recordio.Ops.{
  Heap, Buffer, CString, c_str, write, room_lt_size, room_lt_int, oa_serialize_int,
  oa_serialize_long, oa_serialize_bool, oa_serialize_buffer, oa_serialize_string, serialize_block,
  write_block, source_bytes, drop_rc,
}
use ext_zookeeper.Recordio.Spec.{IsOpen, Allocates, Written, Writes, Writes-seq, Writes-pure}
use ext_zookeeper.Recordio.Growth.{reserve-Writes}
use native.Mathlib.Nat.{mod-eq_of_lt}

-- A C string has no zero byte inside.
abbrev pub IsText : List ℕ → Type 0
IsText = All λ b. (0 < b) × (b < 256)

pub c_str-IsText : (bs : List ℕ) → IsText bs → c_str bs ≡ bs
c_str-IsText [] h = refl
c_str-IsText (zero ∷ bs) h = absurd (omega arith)
c_str-IsText (suc b ∷ bs) h = ap (◌∷◌ (suc b)) (c_str-IsText bs h.1)

-- The wire forms: an int and a long in network order, a bool in one byte, and a length in front of
-- the bytes of a buffer or string.
abbrev pub bool_byte : ℕ → ℕ
bool_byte i = if i == 0 then 0 else 1

abbrev pub block_bytes : List ℕ → List ℕ
block_bytes bs = be 4 (length bs) ++ bs

abbrev pub string_bytes : CString → List ℕ
string_bytes none = be 4 negone
string_bytes (some bs) = block_bytes bs

abbrev pub buffer_bytes : Buffer → List ℕ
buffer_bytes b = elim b.buff [ none ↦ be 4 b.len | some bs ↦ block_bytes bs ]

-- A buffer that a program may hand over: null with length -1 or 0, or a block of its length.
abbrev pub IsBuffer : Buffer → Type 0
IsBuffer b = elim b.buff [
  | none ↦ (b.len ≡ negone) ⊎ (b.len ≡ 0)
  | some bs ↦ (b.len ≡ length bs) × (length bs < 2 ^ 28) × All IsByte bs
]

module _ (heap : Heap) (allocates : Allocates heap) where
  size_test :
      (n : ℕ) (s : BuffStruct)
      → n ≤ 2 ^ 28
      → IsOpen s
      → s.off + n ≤ 2 ^ 28
      → room_lt_size s n ≡ ltb s.len (s.off + n)
  size_test n s hn o h = ground (arith, o.within, o.slack)

  int_test : (n : ℕ) (s : BuffStruct) → n < 2 ^ 31 → room_lt_int s n ≡ ltb s.len (s.off + n)
  int_test n s hn = rw (lt→not_leb (2 ^ 31) n hn)

  pub oa_serialize_int-Writes : (d : ℕ) → Writes (oa_serialize_int heap d) (be 4 d)
  unfolding oa_serialize_int
  oa_serialize_int-Writes d =
      rw (← le-htonl d) (
        reserve-Writes heap allocates _ (le 4 (htonl d)) (λ s o h. size_test 4 s (omega arith) o h))

  pub oa_serialize_long-Writes : (d : ℕ) → Writes (oa_serialize_long heap d) (be 8 d)
  unfolding oa_serialize_long
  oa_serialize_long-Writes d = rw (← le-zoo_htonll d) (
      reserve-Writes heap allocates _ (le 8 (zoo_htonll d))
        (λ s o h. size_test 8 s (omega arith) o h))

  pub oa_serialize_bool-Writes : (i : ℕ) → Writes (oa_serialize_bool heap i) (bool_byte i ∷ [])
  unfolding oa_serialize_bool
  oa_serialize_bool-Writes i =
      reserve-Writes heap allocates _ (bool_byte i ∷ []) (λ s o h. int_test 1 s (omega arith))

  source_bytes_self :
      (bs : List ℕ) → length bs < 2 ^ 31 → source_bytes (length bs) (some bs) ≡ some bs
  unfolding source_bytes fetch
  source_bytes_self [] h = refl
  source_bytes_self (x ∷ xs) h =
      rw
        (
          lt→not_leb (2 ^ 31) (suc (length xs)) h,
          le→leb (0 + suc (length xs)) (suc (length xs)) (omega arith),
        )
        (ap some (ap (◌∷◌ x) (take_all xs (length xs) (omega arith))))

  write_block-some :
      (bs : List ℕ) → length bs < 2 ^ 31 → write_block (length bs) (some bs) ≡ write bs
  unfolding write_block
  write_block-some bs h = fun_ext λ s. rw (source_bytes_self bs h, write_block)

  serialize_block-Writes :
      (bs : List ℕ) → length bs < 2 ^ 31 → Writes (serialize_block heap (length bs) (some bs)) bs
  unfolding serialize_block
  serialize_block-Writes bs h =
      rw (write_block-some bs h)
        (reserve-Writes heap allocates _ bs (λ s o k. int_test (length bs) s h))

  serialize_block_empty : Writes (serialize_block heap 0 none) []
  unfolding serialize_block write_block source_bytes
  serialize_block_empty = reserve-Writes heap allocates _ [] (λ s o k. int_test 0 s (omega arith))

  abbrev after_len : ℕ → Option (List ℕ) → Archive (Unit {0})
  after_len len buff s = if len == negone then pure tt s else serialize_block heap len buff s

  after_len-null : (len : ℕ) (buff : Option (List ℕ)) → len ≡ negone → after_len len buff ≡ pure tt
  after_len-null len buff h = fun_ext λ s. rw h

  after_len-copies :
      (len : ℕ) (buff : Option (List ℕ))
      → len < negone
      → after_len len buff ≡ serialize_block heap len buff
  after_len-copies len buff h = fun_ext λ s. rw (other len h)
    where
      other : (n : ℕ) → n < negone → (n == negone) ≡ false
      other n k = ground arith

  serialize_buffer-Writes :
      (len : ℕ) (buff : Option (List ℕ))
      → IsBuffer (record { len = len; buff = buff })
      → Writes
          (oa_serialize_buffer heap (some (record { len = len; buff = buff })))
          (buffer_bytes (record { len = len; buff = buff }))
  unfolding oa_serialize_buffer
  serialize_buffer-Writes len none (inl null) =
      Writes-seq (oa_serialize_int heap len) (after_len len none) (be 4 len) []
        (oa_serialize_int-Writes len) (rw (after_len-null len none null) Writes-pure)
  serialize_buffer-Writes len none (inr empty) =
      Writes-seq (oa_serialize_int heap len) (after_len len none) (be 4 len) []
        (oa_serialize_int-Writes len)
        (rw (after_len-copies len none (omega arith), empty) serialize_block_empty)
  serialize_buffer-Writes len (some bs) (e, short, bytes) = rw e (
      Writes-seq (oa_serialize_int heap (length bs)) (after_len (length bs) (some bs))
        (be 4 (length bs)) bs (oa_serialize_int-Writes (length bs))
        (rw (after_len-copies (length bs) (some bs) (omega arith))
          (serialize_block-Writes bs (omega arith))))

  -- oa_serialize_buffer succeeds on every open archive with room below 2 ^ 28 bytes, and appends
  -- the length and the bytes of a buffer whose length is that of its block, or just the length -1
  -- or 0 of a null one, when the allocator gives every block whose size fits an int.
  pub oa_serialize_buffer-Writes :
      (b : Buffer) → IsBuffer b → Writes (oa_serialize_buffer heap (some b)) (buffer_bytes b)
  oa_serialize_buffer-Writes b h = serialize_buffer-Writes b.len b.buff h

  string_body :
      (bs : List ℕ)
      → IsText bs
      → length bs < 2 ^ 28
      → oa_serialize_string heap (some bs)
        ≡ (oa_serialize_int heap (length bs) >> serialize_block heap (length bs) (some bs))
  unfolding oa_serialize_string
  string_body bs text short =
      fun_ext
        λ s. rw (c_str-IsText bs text, mod-eq_of_lt {n = length bs} {m = 2 ^ 32} (omega arith))

  -- oa_serialize_string succeeds on every open archive with room below 2 ^ 28 bytes, and appends
  -- the length and the bytes of a text shorter than 2 ^ 28, and no more, however often the block
  -- grows, when the allocator gives every block whose size fits an int.
  pub oa_serialize_string-Writes :
      (bs : List ℕ)
      → IsText bs
      → length bs < 2 ^ 28
      → Writes (oa_serialize_string heap (some bs)) (block_bytes bs)
  oa_serialize_string-Writes bs text short = rw (string_body bs text short) (
      Writes-seq (oa_serialize_int heap (length bs)) (serialize_block heap (length bs) (some bs))
        (be 4 (length bs)) bs (oa_serialize_int-Writes (length bs))
        (serialize_block-Writes bs (omega arith)))

  -- A null string is written as the length -1.
  pub oa_serialize_string-Writes_null : Writes (oa_serialize_string heap none) (be 4 negone)
  unfolding oa_serialize_string drop_rc
  oa_serialize_string-Writes_null s o h =
      let w : Written (oa_serialize_int heap negone) (be 4 negone) s =
        oa_serialize_int-Writes negone s o h in
      record {
        result = w.result;
        runs = rw w.runs;
        keeps = w.keeps;
        appends = w.appends;
        moves = w.moves;
      }
