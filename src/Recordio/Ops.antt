-- ===== src/Recordio/Ops.antt =====
-- The serializers and deserializers of recordio.c, statement by statement.
use ext_zookeeper.Prelude.{
  ℕ, zero, suc, ◌+◌, ◌-◌, ◌*◌, ◌%◌, ◌^◌, ◌≡◌, Bool, Option, none, some, List, [], ◌∷◌, ◌++◌, length,
  take, drop, leb, ltb, ◌==◌, if◌then◌else◌, ◌&&◌,
}
use ext_zookeeper.Prelude.Bytes.{le, of_le}
use ext_zookeeper.Recordio.Defs.{
  BuffStruct, enomem, e2big, einval, Rc, good, fail, Archive, next, ◌>>=◌, ◌>>◌, pure, store, fetch,
}
use ext_zookeeper.Recordio.Words.{htonl, zoo_htonll, is_neg, negone}

-- The C library's allocator: whether malloc or realloc gives a block of a size, and what stands in
-- a block that nothing has been written to.
pub record Heap : Type 0 where
  pub can_alloc : ℕ → Bool
  pub blank : ℕ → List ℕ
  pub length-blank : (n : ℕ) → length (blank n) ≡ n

-- struct buffer
pub record Buffer : Type 0 where
  pub len : ℕ
  pub buff : Option (List ℕ)

-- A `char *` is the block of bytes in front of its end; as a C string it stops at the first zero.
abbrev pub CString : Type 0
CString = Option (List ℕ)

abbrev pub c_str : List ℕ → List ℕ
c_str [] = []
c_str (zero ∷ bs) = []
c_str (suc b ∷ bs) = suc b ∷ c_str bs

-- `(priv->len - priv->off) < sizeof(i)`, a comparison of size_t.
abbrev pub room_lt_size : BuffStruct → ℕ → Bool
room_lt_size s n = ltb ((s.len + 2 ^ 64 - s.off) % 2 ^ 64) n

-- `(priv->len - priv->off) < w`, a comparison of int.
abbrev pub room_lt_int : BuffStruct → ℕ → Bool
room_lt_int s w = if is_neg w then ltb (s.len + (2 ^ 32 - w)) s.off else ltb s.len (s.off + w)

-- `while (s->len < newlen) s->len *= 2;` in at most `fuel` rounds. `none`: the product overflows,
-- or the loop does not end, as at length 0.
unfoldable pub grow : ℕ → ℕ → ℕ → Option ℕ
grow zero len newlen = none
grow (suc fuel) len newlen =
    let rest = grow fuel (len * 2) newlen in
    if ltb len newlen then if ltb len (2 ^ 30) then rest else none else some len

-- The next `n` bytes are read, and `off` moves past them.
unfoldable pub read : ℕ → Archive (List ℕ)
read n s = elim s.buffer [
  | none ↦ none
  | some block ↦ elim (fetch s.off n block) [
    | none ↦ none
    | some bytes ↦ some (good bytes, record s { off = s.off + n })
  ]
]

-- `memcpy(priv->buffer + priv->off, src, n); priv->off += n`
unfoldable pub write : List ℕ → Archive (Unit {0})
write src s = elim s.buffer [
  | none ↦ none
  | some block ↦ elim (store s.off src block) [
    | none ↦ none
    | some block' ↦ some (good tt, record s { off = s.off + length src; buffer = some block' })
  ]
]

-- The source of `memcpy(dst, block, w)` for an int `w`: a negative one is a huge size_t.
unfoldable pub source_bytes : ℕ → Option (List ℕ) → Option (List ℕ)
source_bytes zero block = some []
source_bytes (suc w) none = none
source_bytes (suc w) (some block) = if is_neg (suc w) then none else fetch 0 (suc w) block

unfoldable pub write_block : ℕ → Option (List ℕ) → Archive (Unit {0})
write_block w block s = elim (source_bytes w block) [ none ↦ none | some src ↦ write src s ]

unfoldable pub oa_start_record : Archive (Unit {0})
oa_start_record = pure tt

unfoldable pub oa_end_record : Archive (Unit {0})
oa_end_record = pure tt

unfoldable pub oa_end_vector : Archive (Unit {0})
oa_end_vector = pure tt

unfoldable pub ia_start_record : Archive (Unit {0})
ia_start_record = pure tt

unfoldable pub ia_end_record : Archive (Unit {0})
ia_end_record = pure tt

unfoldable pub ia_deserialize_int : Archive ℕ
ia_deserialize_int s =
    if room_lt_size s 4
    then some (fail e2big, s)
    else next (λ bs. pure (htonl (of_le bs))) (read 4 s)

unfoldable pub ia_deserialize_long : Archive ℕ
ia_deserialize_long s =
    if room_lt_size s 8
    then some (fail e2big, s)
    else next (λ bs. pure (zoo_htonll (of_le bs))) (read 8 s)

unfoldable pub ia_start_vector : Archive ℕ
ia_start_vector = ia_deserialize_int

unfoldable pub ia_end_vector : Archive (Unit {0})
ia_end_vector = pure tt

-- A `char` is signed.
abbrev pub of_char : List ℕ → ℕ
of_char [] = 0
of_char (b ∷ bs) = if leb 128 b then b + (2 ^ 32 - 256) else b

unfoldable pub ia_deserialize_bool : Archive ℕ
ia_deserialize_bool s =
    if room_lt_int s 1 then some (fail e2big, s) else next (λ bs. pure (of_char bs)) (read 1 s)

-- The argument of malloc for an int.
abbrev pub malloc_size : ℕ → ℕ
malloc_size w = if is_neg w then w + (2 ^ 64 - 2 ^ 32) else w

-- The sizes of struct oarchive, struct iarchive and struct buff_struct on a 64-bit host.
abbrev pub sizeof_archive : ℕ
sizeof_archive = 80

abbrev pub sizeof_buff_struct : ℕ
sizeof_buff_struct = 16

module _ (heap : Heap) where
  open heap use {can_alloc, blank}

  abbrev pub realloc : Option (List ℕ) → ℕ → List ℕ
  realloc none n = blank n
  realloc (some old) n = take n old ++ drop (length old) (blank n)

  -- `newlen` is an int; a sum that does not fit one is no result.
  unfoldable pub resize_buffer : ℕ → Archive (Unit {0})
  resize_buffer newlen s = elim (if ltb newlen (2 ^ 31) then grow 32 s.len newlen else none) [
    | none ↦ none
    | some n ↦
        if can_alloc n
        then some (good tt, record s { len = n; buffer = some (realloc s.buffer n) })
        else some (fail enomem, record s { len = n; buffer = none })
  ]

  -- `if ((priv->len - priv->off) < n) { rc = resize_buffer(priv, priv->len + n); … }`
  abbrev pub reserve : (BuffStruct → Bool) → ℕ → Archive (Unit {0})
  reserve test n s = if test s then resize_buffer (s.len + n) s else pure tt s

  unfoldable pub oa_serialize_int : ℕ → Archive (Unit {0})
  oa_serialize_int d = do reserve (λ s. room_lt_size s 4) 4; write (le 4 (htonl d))

  unfoldable pub oa_serialize_long : ℕ → Archive (Unit {0})
  oa_serialize_long d = do reserve (λ s. room_lt_size s 8) 8; write (le 8 (zoo_htonll d))

  unfoldable pub oa_start_vector : ℕ → Archive (Unit {0})
  oa_start_vector = oa_serialize_int

  unfoldable pub oa_serialize_bool : ℕ → Archive (Unit {0})
  oa_serialize_bool i = do reserve (λ s. room_lt_int s 1) 1; write ((if i == 0 then 0 else 1) ∷ [])

  -- The part of oa_serialize_buffer and oa_serialize_string that copies `w` bytes of a block.
  unfoldable pub serialize_block : ℕ → Option (List ℕ) → Archive (Unit {0})
  serialize_block w block = do reserve (λ s. room_lt_int s w) w; write_block w block

  unfoldable pub oa_serialize_buffer : Option Buffer → Archive (Unit {0})
  oa_serialize_buffer none = oa_serialize_int negone
  oa_serialize_buffer (some b) = do
    oa_serialize_int b.len
    (λ s. if b.len == negone then pure tt s else serialize_block b.len b.buff s)

  -- `oa_serialize_int(oa, "len", &negone); return 0;`: the code of the call is dropped.
  unfoldable pub drop_rc : Option (Rc (Unit {0}) × BuffStruct) → Option (Rc (Unit {0}) × BuffStruct)
  drop_rc none = none
  drop_rc (some (rc, s)) = some (good tt, s)

  -- strlen gives a size_t, and `len` is an int32_t.
  unfoldable pub oa_serialize_string : CString → Archive (Unit {0})
  oa_serialize_string none s = drop_rc (oa_serialize_int negone s)
  oa_serialize_string (some str) s =
      let len = length (c_str str) % 2 ^ 32 in
      (do oa_serialize_int len; serialize_block len (some (c_str str))) s

  unfoldable pub ia_deserialize_buffer : Archive Buffer
  ia_deserialize_buffer = do
    len ← ia_deserialize_int
    (λ s.
        if room_lt_int s len
        then some (fail e2big, s)
        else if len == negone
        then some (good (record { len = len; buff = none }), s)
        else if can_alloc (malloc_size len)
        then next (λ bs. pure (record { len = len; buff = some bs })) (read (malloc_size len) s)
        else some (fail enomem, s))

  unfoldable pub ia_deserialize_string : Archive CString
  ia_deserialize_string = do
    len ← ia_deserialize_int
    (λ s.
        if room_lt_int s len
        then some (fail e2big, s)
        else if is_neg len
        then some (fail einval, s)
        else if can_alloc (len + 1)
        then next (λ bs. pure (some bs)) (read len s)
        else some (fail enomem, s))

  -- `none` is a null archive. Whether malloc(128) gave a block is not tested.
  unfoldable pub create_buffer_oarchive : Option BuffStruct
  create_buffer_oarchive =
      if can_alloc sizeof_archive && can_alloc sizeof_buff_struct
      then some
          (record { len = 128; off = 0; buffer = if can_alloc 128 then some (blank 128) else none })
      else none

  unfoldable pub create_buffer_iarchive : Option (List ℕ) → ℕ → Option BuffStruct
  create_buffer_iarchive buffer len =
      if can_alloc sizeof_archive && can_alloc sizeof_buff_struct
      then some (record { len = len; off = 0; buffer = buffer })
      else none

unfoldable pub get_buffer : BuffStruct → Option (List ℕ)
get_buffer s = s.buffer

unfoldable pub get_buffer_len : BuffStruct → ℕ
get_buffer_len s = s.off
