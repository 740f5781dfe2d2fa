-- ===== src/Jute/StringVectors.antt =====
-- src/zk/zookeeper.jute.c and include/zookeeper.jute.h: vectors of strings.
use ext_zookeeper.Prelude.{
  ℕ, ◌||◌, ◌==◌, Bool-cases, inl, inr, zero, suc, ◌+◌, ◌^◌, ◌≤◌, ◌<◌, ◌≡◌, ◌≢◌, refl, Option, none,
  some, List, [], ◌∷◌, ◌++◌, length, arith, All, ◌*◌, ◌-◌, replicate, length-append, if◌then◌else◌,
}
use ext_zookeeper.Recordio.{
  BuffStruct, Rc, good, fail, Errno, Archive, ◌>>◌, pure, Heap, CString, is_neg,
  oa_serialize_string, ia_deserialize_string, oa_start_vector, oa_end_vector, ia_start_vector,
}
use ext_zookeeper.Recordio.Spec.{Allocates, Reads, at}
use ext_zookeeper.Recordio.Transfer.{transfer}
use ext_zookeeper.Recordio.Rules.{
  Output, Input, IsString, Output-seq, Output-nothing, Output-end_vector, int_bytes, string_bytes,
  int-Output, string-Output, int-Input, string-Input, transfer-Output-Input, rounds,
}
use mathlib.Core.List.{append-nil, append_assoc}

-- struct String_vector
pub record StringVector : Type 0 where
  pub count : ℕ
  pub items : List CString

-- `for(i=0;i<v->count;i++) rc = rc ? rc : out->serialize_String(out, "data", &v->data[i]);` in `k`
-- rounds. An index past the array is undefined.
unfoldable pub serialize_strings : Heap → ℕ → List CString → Archive (Unit {0})
serialize_strings heap zero items = pure tt
serialize_strings heap (suc k) [] = λ s. none
serialize_strings heap (suc k) (a ∷ items) =
    oa_serialize_string heap a >> serialize_strings heap k items

unfoldable pub serialize_string_vector : Heap → StringVector → Archive (Unit {0})
serialize_string_vector heap v = do
  oa_start_vector heap v.count
  serialize_strings heap (if is_neg v.count then 0 else v.count) v.items
  oa_end_vector

-- The loop of deserialize_String_vector: after a failure the other strings stay null, as calloc
-- left them, and the code of the failure is dropped.
unfoldable pub deserialize_strings : Heap → ℕ → BuffStruct → Option (List CString × BuffStruct)
deserialize_strings heap zero s = some ([], s)
deserialize_strings heap (suc k) s = elim (ia_deserialize_string heap s) [
  | none ↦ none
  | some (fail e, s') ↦ some (replicate (suc k) none, s')
  | some (good a, s') ↦ elim (deserialize_strings heap k s') [
    | none ↦ none
    | some (items, t) ↦ some (a ∷ items, t)
  ]
]

-- The argument of `calloc(v->count, sizeof(*v->data))` for an int and pointers of eight bytes.
abbrev pub calloc_size : ℕ → ℕ
calloc_size count = if is_neg count then 8 * (count + (2 ^ 64 - 2 ^ 32)) else 8 * count

abbrev pub string_array :
    ℕ → Option (List CString × BuffStruct) → Option (Rc StringVector × BuffStruct)
string_array count none = none
string_array count (some (items, s)) = some (good (record { count = count; items = items }), s)

-- `i<v->count`: how many rounds there are.
abbrev pub count_of : ℕ → ℕ
count_of count = if is_neg count then 0 else count

-- An array that calloc does not give is null, and nothing is read or written through it only when it
-- has no elements: else `none`.
abbrev pub with_count : Heap → Option (Rc ℕ × BuffStruct) → Option (Rc StringVector × BuffStruct)
with_count heap none = none
with_count heap (some (fail e, s)) = none
with_count heap (some (good count, s)) =
    if heap.can_alloc (calloc_size count) || (count_of count == 0)
    then string_array count (deserialize_strings heap (count_of count) s)
    else none

-- `none` when the count cannot be read: the code goes on with what stood in `v->count` before.
unfoldable pub deserialize_string_vector : Heap → Archive StringVector
deserialize_string_vector heap s = with_count heap (ia_start_vector s)

pub record IsStringVector (v : StringVector) : Type 0 where
  pub count : v.count ≡ length v.items
  pub short : length v.items < 2 ^ 27
  pub items : All IsString v.items

unfoldable pub strings_bytes : List CString → List ℕ
strings_bytes [] = []
strings_bytes (a ∷ items) = string_bytes a ++ strings_bytes items

unfoldable pub string_vector_bytes : StringVector → List ℕ
string_vector_bytes v = int_bytes v.count ++ strings_bytes v.items

strings-Output :
    (heap : Heap)
    → Allocates heap
    → (items : List CString) → All IsString items
    → Output (serialize_strings heap (length items) items) (strings_bytes items)
unfolding serialize_strings strings_bytes
strings-Output heap allocates [] h = Output-nothing
strings-Output heap allocates (a ∷ items) h =
    Output-seq (string-Output heap allocates a h.0) (strings-Output heap allocates items h.1)

pub string_vector-Output :
    (heap : Heap)
    → Allocates heap
    → (v : StringVector) → IsStringVector v
    → Output (serialize_string_vector heap v) (string_vector_bytes v)
unfolding serialize_string_vector string_vector_bytes oa_start_vector
string_vector-Output heap allocates v h = Output-seq (int-Output heap allocates v.count) (
    rw (rounds v.count (length v.items) h.count h.short)
      (Output-end_vector (strings-Output heap allocates v.items h.items)))

module _ (heap : Heap) (allocates : Allocates heap) where
  strings_step :
      (a : CString) (items : List CString) (s s' t : BuffStruct)
      → ia_deserialize_string heap s ≡ some (good a, s')
      → deserialize_strings heap (length items) s' ≡ some (items, t)
      → deserialize_strings heap (suc (length items)) s ≡ some (a ∷ items, t)
  unfolding deserialize_strings
  strings_step a items s s' t e f = rw (e, deserialize_strings, f)

  strings-Reads :
      (items : List CString)
      → All IsString items
      → (front rest spare : List ℕ) → length front + length (strings_bytes items ++ rest) < 2 ^ 31
      → deserialize_strings heap (length items) (at front (strings_bytes items ++ rest) spare)
        ≡ some (items, at (front ++ strings_bytes items) rest spare)
  unfolding strings_bytes
  strings-Reads [] h front rest spare fits = rw append-nil (unfold deserialize_strings in refl)
  strings-Reads (a ∷ items) h front rest spare fits =
      rw
        (
          append_assoc (string_bytes a) (strings_bytes items) rest,
          ← append_assoc front (string_bytes a) (strings_bytes items),
        )
        (strings_step a items _ _ _
          ((string-Input heap allocates a h.0).apply front (strings_bytes items ++ rest) spare
            fits')
          (strings-Reads items h.1 (front ++ string_bytes a) rest spare (
            omega (
              arith,
              fits',
              length-append front (string_bytes a),
              length-append (string_bytes a) (strings_bytes items ++ rest),
            ))))
    where
      fits' : length front + length (string_bytes a ++ (strings_bytes items ++ rest)) < 2 ^ 31
      fits' = rw (append_assoc (string_bytes a) (strings_bytes items) rest) at fits

  with_count_lem :
      (v : StringVector) (s t : BuffStruct)
      → IsStringVector v
      → deserialize_strings heap (length v.items) s ≡ some (v.items, t)
      → with_count heap (some (good v.count, s)) ≡ some (good v, t)
  with_count_lem v s t h e =
      rw (rounds v.count (length v.items) h.count h.short, allocates (calloc_size v.count) small, e)
    where
      small : calloc_size v.count < 2 ^ 31
      small = ground (arith, h.count, h.short)

  pub string_vector-Input :
      (v : StringVector)
      → IsStringVector v
      → Input (deserialize_string_vector heap) (string_vector_bytes v) v
  unfolding deserialize_string_vector string_vector_bytes ia_start_vector
  string_vector-Input v h = record { apply = reads }
    where
      reads : Reads (deserialize_string_vector heap) (int_bytes v.count ++ strings_bytes v.items) v
      reads front rest spare fits =
          rw
            (
              append_assoc (int_bytes v.count) (strings_bytes v.items) rest,
              (int-Input v.count (ground (arith, h.count, h.short))).apply front
                  (strings_bytes v.items ++ rest) spare fits',
              ← append_assoc front (int_bytes v.count) (strings_bytes v.items),
            )
            (with_count_lem v _ _ h (
              strings-Reads v.items h.items (front ++ int_bytes v.count) rest spare (
                omega (
                  arith,
                  fits',
                  length-append front (int_bytes v.count),
                  length-append (int_bytes v.count) (strings_bytes v.items ++ rest),
                ))))
        where
          fits' :
              length front + length (int_bytes v.count ++ (strings_bytes v.items ++ rest)) < 2 ^ 31
          fits' = rw (append_assoc (int_bytes v.count) (strings_bytes v.items) rest) at fits

-- A String_vector whose count is that of its strings, all of them text, and which takes at most 2
-- ^ 28 bytes, is read back as it was, when the allocator gives every block whose size fits an
-- int.
pub transfer-string_vector :
    (heap : Heap)
    → Allocates heap
    → (v : StringVector) → IsStringVector v
    → length (string_vector_bytes v) ≤ 2 ^ 28
    → transfer heap (serialize_string_vector heap v) (deserialize_string_vector heap)
      ≡ some (good v)
transfer-string_vector heap allocates v h fits =
    transfer-Output-Input heap allocates (string_vector-Output heap allocates v h)
      (string_vector-Input heap allocates v h) fits

string_array-ne-fail :
    (count : ℕ) (o : Option (List CString × BuffStruct)) (e : Errno) (t : BuffStruct)
    → string_array count o ≢ some (fail e, t)
string_array-ne-fail count none e t = λ p. cc
string_array-ne-fail count (some (items, s)) e t = λ p. cc

with_count-ne-fail :
    (heap : Heap) (r : Option (Rc ℕ × BuffStruct)) (e : Errno) (t : BuffStruct)
    → with_count heap r ≢ some (fail e, t)
with_count-ne-fail heap none e t = λ p. cc
with_count-ne-fail heap (some (fail x, s)) e t = λ p. cc
with_count-ne-fail heap (some (good count, s)) e t =
    elim (Bool-cases (heap.can_alloc (calloc_size count) || (count_of count == 0))) [
      | inl given ↦ rw given (string_array-ne-fail count _ e t)
      | inr not_given ↦ rw not_given (λ p. cc)
    ]

-- On no archive does deserialize_String_vector report an error.
pub deserialize_string_vector-ne-fail :
    (heap : Heap) (s t : BuffStruct) (e : Errno)
    → deserialize_string_vector heap s ≢ some (fail e, t)
unfolding deserialize_string_vector
deserialize_string_vector-ne-fail heap s t e = with_count-ne-fail heap (ia_start_vector s) e t
