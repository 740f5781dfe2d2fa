-- ===== src/Jute/Responses.antt =====
-- src/zk/zookeeper.jute.c and include/zookeeper.jute.h: the responses with data or children.
use ext_zookeeper.Prelude.{ℕ, ◌^◌, ◌≤◌, ◌≡◌, some, List, ◌++◌, length}
use ext_zookeeper.Recordio.{
  good, Archive, ◌>>=◌, ◌>>◌, pure, Heap, Buffer, oa_start_record, oa_end_record, ia_start_record,
  ia_end_record, oa_serialize_buffer, ia_deserialize_buffer,
}
use ext_zookeeper.Recordio.Spec.{Allocates}
use ext_zookeeper.Recordio.Safety.{Refuses}
use ext_zookeeper.Recordio.Output.{IsBuffer}
use ext_zookeeper.Recordio.Input.{received}
use ext_zookeeper.Recordio.Transfer.{transfer}
use ext_zookeeper.Recordio.Rules.{
  Output, Input, Guarded, Output-seq, Output-start, Output-last, Input-seq, Input-start, Input-last,
  Guarded-bind, Guarded-start, Guarded-last, Guarded-buffer, buffer_bytes, buffer-Output,
  buffer-Input, transfer-Output-Input,
}
use ext_zookeeper.Jute.Stats.{
  Stat, serialize_stat, deserialize_stat, IsStat, stat_bytes, stat-Output, stat-Input, Guarded-stat,
}
use ext_zookeeper.Jute.StringVectors.{
  StringVector, serialize_string_vector, deserialize_string_vector, IsStringVector,
  string_vector_bytes, string_vector-Output, string_vector-Input,
}

-- struct GetDataResponse
pub record GetDataResponse : Type 0 where
  pub contents : Buffer
  pub stat : Stat

unfoldable pub serialize_get_data_response : Heap → GetDataResponse → Archive (Unit {0})
serialize_get_data_response heap v = do
  oa_start_record
  oa_serialize_buffer heap (some v.contents)
  serialize_stat heap v.stat
  oa_end_record

unfoldable pub deserialize_get_data_response : Heap → Archive GetDataResponse
deserialize_get_data_response heap = do
  ia_start_record
  contents ← ia_deserialize_buffer heap
  stat ← deserialize_stat
  ia_end_record
  pure (record { contents = contents; stat = stat })

pub record IsGetDataResponse (v : GetDataResponse) : Type 0 where
  pub contents : IsBuffer v.contents
  pub stat : IsStat v.stat

unfoldable pub get_data_response_bytes : GetDataResponse → List ℕ
get_data_response_bytes v = buffer_bytes v.contents ++ (stat_bytes v.stat)

pub get_data_response-Output :
    (heap : Heap)
    → Allocates heap
    → (v : GetDataResponse) → IsGetDataResponse v
    → Output (serialize_get_data_response heap v) (get_data_response_bytes v)
unfolding serialize_get_data_response get_data_response_bytes
get_data_response-Output heap allocates v h = Output-start (
    Output-seq (buffer-Output heap allocates v.contents h.contents)
      (Output-last (stat-Output heap allocates v.stat h.stat)))

-- The value as it comes back.
abbrev pub received_get_data_response : GetDataResponse → GetDataResponse
received_get_data_response v = record v { contents = received v.contents }

pub get_data_response-Input :
    (heap : Heap)
    → Allocates heap
    → (v : GetDataResponse) → IsGetDataResponse v
    → Input
        (deserialize_get_data_response heap)
        (get_data_response_bytes v)
        (received_get_data_response v)
unfolding deserialize_get_data_response get_data_response_bytes
get_data_response-Input heap allocates v h = Input-start (
    Input-seq _ (buffer-Input heap allocates v.contents h.contents)
      (Input-last _ (stat-Input v.stat h.stat)))

-- On any input, deserialize_GetDataResponse reads inside the block only and leaves the archive as
-- sound as it was, when the allocator refuses 2 ^ 63 bytes and more.
pub Guarded-get_data_response :
    (heap : Heap) → Refuses heap → Guarded (deserialize_get_data_response heap)
unfolding deserialize_get_data_response
Guarded-get_data_response heap refuses = Guarded-bind Guarded-start λ start.
    Guarded-bind (Guarded-buffer heap refuses)
      λ contents. Guarded-bind Guarded-stat λ stat. Guarded-last _

-- A GetDataResponse whose numbers fit their words, whose data is a buffer that a program may hand
-- over, and which takes at most 2 ^ 28 bytes, is read back as it was, but for a null buffer of
-- length 0, which comes back as an empty block, when the allocator gives every block whose size
-- fits an int.
pub transfer-get_data_response :
    (heap : Heap)
    → Allocates heap
    → (v : GetDataResponse) → IsGetDataResponse v
    → length (get_data_response_bytes v) ≤ 2 ^ 28
    → transfer heap (serialize_get_data_response heap v) (deserialize_get_data_response heap)
      ≡ some (good (received_get_data_response v))
transfer-get_data_response heap allocates v h fits =
    transfer-Output-Input heap allocates (get_data_response-Output heap allocates v h)
      (get_data_response-Input heap allocates v h) fits

-- struct GetChildrenResponse
pub record GetChildrenResponse : Type 0 where
  pub children : StringVector

unfoldable pub serialize_get_children_response : Heap → GetChildrenResponse → Archive (Unit {0})
serialize_get_children_response heap v = do
  oa_start_record
  serialize_string_vector heap v.children
  oa_end_record

unfoldable pub deserialize_get_children_response : Heap → Archive GetChildrenResponse
deserialize_get_children_response heap = do
  ia_start_record
  children ← deserialize_string_vector heap
  ia_end_record
  pure (record { children = children })

pub record IsGetChildrenResponse (v : GetChildrenResponse) : Type 0 where
  pub children : IsStringVector v.children

unfoldable pub get_children_response_bytes : GetChildrenResponse → List ℕ
get_children_response_bytes v = string_vector_bytes v.children

pub get_children_response-Output :
    (heap : Heap)
    → Allocates heap
    → (v : GetChildrenResponse) → IsGetChildrenResponse v
    → Output (serialize_get_children_response heap v) (get_children_response_bytes v)
unfolding serialize_get_children_response get_children_response_bytes
get_children_response-Output heap allocates v h =
    Output-start (Output-last (string_vector-Output heap allocates v.children h.children))

pub get_children_response-Input :
    (heap : Heap)
    → Allocates heap
    → (v : GetChildrenResponse) → IsGetChildrenResponse v
    → Input (deserialize_get_children_response heap) (get_children_response_bytes v) v
unfolding deserialize_get_children_response get_children_response_bytes
get_children_response-Input heap allocates v h =
    Input-start (Input-last _ (string_vector-Input heap allocates v.children h.children))

-- A GetChildrenResponse written by the one side is read back by the other.
pub transfer-get_children_response :
    (heap : Heap)
    → Allocates heap
    → (v : GetChildrenResponse) → IsGetChildrenResponse v
    → length (get_children_response_bytes v) ≤ 2 ^ 28
    → transfer heap
        (serialize_get_children_response heap v)
        (deserialize_get_children_response heap)
      ≡ some (good v)
transfer-get_children_response heap allocates v h fits =
    transfer-Output-Input heap allocates (get_children_response-Output heap allocates v h)
      (get_children_response-Input heap allocates v h) fits

-- struct GetChildren2Response
pub record GetChildren2Response : Type 0 where
  pub children : StringVector
  pub stat : Stat

unfoldable pub serialize_get_children2_response : Heap → GetChildren2Response → Archive (Unit {0})
serialize_get_children2_response heap v = do
  oa_start_record
  serialize_string_vector heap v.children
  serialize_stat heap v.stat
  oa_end_record

unfoldable pub deserialize_get_children2_response : Heap → Archive GetChildren2Response
deserialize_get_children2_response heap = do
  ia_start_record
  children ← deserialize_string_vector heap
  stat ← deserialize_stat
  ia_end_record
  pure (record { children = children; stat = stat })

pub record IsGetChildren2Response (v : GetChildren2Response) : Type 0 where
  pub children : IsStringVector v.children
  pub stat : IsStat v.stat

unfoldable pub get_children2_response_bytes : GetChildren2Response → List ℕ
get_children2_response_bytes v = string_vector_bytes v.children ++ (stat_bytes v.stat)

pub get_children2_response-Output :
    (heap : Heap)
    → Allocates heap
    → (v : GetChildren2Response) → IsGetChildren2Response v
    → Output (serialize_get_children2_response heap v) (get_children2_response_bytes v)
unfolding serialize_get_children2_response get_children2_response_bytes
get_children2_response-Output heap allocates v h = Output-start (
    Output-seq (string_vector-Output heap allocates v.children h.children)
      (Output-last (stat-Output heap allocates v.stat h.stat)))

pub get_children2_response-Input :
    (heap : Heap)
    → Allocates heap
    → (v : GetChildren2Response) → IsGetChildren2Response v
    → Input (deserialize_get_children2_response heap) (get_children2_response_bytes v) v
unfolding deserialize_get_children2_response get_children2_response_bytes
get_children2_response-Input heap allocates v h = Input-start (
    Input-seq _ (string_vector-Input heap allocates v.children h.children)
      (Input-last _ (stat-Input v.stat h.stat)))

-- A GetChildren2Response whose fields fit their words, whose names are text, and which takes at
-- most 2 ^ 28 bytes, is read by deserialize_GetChildren2Response as it was when
-- serialize_GetChildren2Response has written it to a fresh archive, when the allocator gives
-- every block whose size fits an int.
pub transfer-get_children2_response :
    (heap : Heap)
    → Allocates heap
    → (v : GetChildren2Response) → IsGetChildren2Response v
    → length (get_children2_response_bytes v) ≤ 2 ^ 28
    → transfer heap
        (serialize_get_children2_response heap v)
        (deserialize_get_children2_response heap)
      ≡ some (good v)
transfer-get_children2_response heap allocates v h fits =
    transfer-Output-Input heap allocates (get_children2_response-Output heap allocates v h)
      (get_children2_response-Input heap allocates v h) fits
