-- ===== src/Jute/Reads.antt =====
-- src/zk/zookeeper.jute.c and include/zookeeper.jute.h: the requests that read one node.
use ext_zookeeper.Prelude.{ℕ, ◌^◌, ◌≤◌, ◌≡◌, some, List, ◌++◌, length}
use ext_zookeeper.Recordio.{
  good, Archive, ◌>>=◌, ◌>>◌, pure, Heap, CString, oa_start_record, oa_end_record, ia_start_record,
  ia_end_record, oa_serialize_bool, oa_serialize_string, ia_deserialize_bool, ia_deserialize_string,
}
use ext_zookeeper.Recordio.Spec.{Allocates}
use ext_zookeeper.Recordio.Safety.{Refuses}
use ext_zookeeper.Recordio.Transfer.{transfer}
use ext_zookeeper.Recordio.Rules.{
  Output, Input, Guarded, IsString, IsFlag, Output-seq, Output-start, Output-last, Input-seq,
  Input-start, Input-last, Guarded-bind, Guarded-start, Guarded-last, Guarded-bool, Guarded-string,
  bool_bytes, string_bytes, bool-Output, string-Output, bool-Input, string-Input,
  transfer-Output-Input,
}

-- struct GetDataRequest
pub record GetDataRequest : Type 0 where
  pub path : CString
  pub watch : ℕ

unfoldable pub serialize_get_data_request : Heap → GetDataRequest → Archive (Unit {0})
serialize_get_data_request heap v = do
  oa_start_record
  oa_serialize_string heap v.path
  oa_serialize_bool heap v.watch
  oa_end_record

unfoldable pub deserialize_get_data_request : Heap → Archive GetDataRequest
deserialize_get_data_request heap = do
  ia_start_record
  path ← ia_deserialize_string heap
  watch ← ia_deserialize_bool
  ia_end_record
  pure (record { path = path; watch = watch })

pub record IsGetDataRequest (v : GetDataRequest) : Type 0 where
  pub path : IsString v.path
  pub watch : IsFlag v.watch

unfoldable pub get_data_request_bytes : GetDataRequest → List ℕ
get_data_request_bytes v = string_bytes v.path ++ (bool_bytes v.watch)

pub get_data_request-Output :
    (heap : Heap)
    → Allocates heap
    → (v : GetDataRequest) → IsGetDataRequest v
    → Output (serialize_get_data_request heap v) (get_data_request_bytes v)
unfolding serialize_get_data_request get_data_request_bytes
get_data_request-Output heap allocates v h = Output-start (
    Output-seq (string-Output heap allocates v.path h.path)
      (Output-last (bool-Output heap allocates v.watch)))

pub get_data_request-Input :
    (heap : Heap)
    → Allocates heap
    → (v : GetDataRequest) → IsGetDataRequest v
    → Input (deserialize_get_data_request heap) (get_data_request_bytes v) v
unfolding deserialize_get_data_request get_data_request_bytes
get_data_request-Input heap allocates v h = Input-start (
    Input-seq _ (string-Input heap allocates v.path h.path)
      (Input-last _ (bool-Input v.watch h.watch)))

pub Guarded-get_data_request :
    (heap : Heap) → Refuses heap → Guarded (deserialize_get_data_request heap)
unfolding deserialize_get_data_request
Guarded-get_data_request heap refuses = Guarded-bind Guarded-start λ start.
    Guarded-bind (Guarded-string heap refuses)
      λ path. Guarded-bind Guarded-bool λ watch. Guarded-last _

-- A GetDataRequest written by the one side is read back by the other.
pub transfer-get_data_request :
    (heap : Heap)
    → Allocates heap
    → (v : GetDataRequest) → IsGetDataRequest v
    → length (get_data_request_bytes v) ≤ 2 ^ 28
    → transfer heap (serialize_get_data_request heap v) (deserialize_get_data_request heap)
      ≡ some (good v)
transfer-get_data_request heap allocates v h fits =
    transfer-Output-Input heap allocates (get_data_request-Output heap allocates v h)
      (get_data_request-Input heap allocates v h) fits

-- struct ExistsRequest
pub record ExistsRequest : Type 0 where
  pub path : CString
  pub watch : ℕ

unfoldable pub serialize_exists_request : Heap → ExistsRequest → Archive (Unit {0})
serialize_exists_request heap v = do
  oa_start_record
  oa_serialize_string heap v.path
  oa_serialize_bool heap v.watch
  oa_end_record

unfoldable pub deserialize_exists_request : Heap → Archive ExistsRequest
deserialize_exists_request heap = do
  ia_start_record
  path ← ia_deserialize_string heap
  watch ← ia_deserialize_bool
  ia_end_record
  pure (record { path = path; watch = watch })

pub record IsExistsRequest (v : ExistsRequest) : Type 0 where
  pub path : IsString v.path
  pub watch : IsFlag v.watch

unfoldable pub exists_request_bytes : ExistsRequest → List ℕ
exists_request_bytes v = string_bytes v.path ++ (bool_bytes v.watch)

pub exists_request-Output :
    (heap : Heap)
    → Allocates heap
    → (v : ExistsRequest) → IsExistsRequest v
    → Output (serialize_exists_request heap v) (exists_request_bytes v)
unfolding serialize_exists_request exists_request_bytes
exists_request-Output heap allocates v h = Output-start (
    Output-seq (string-Output heap allocates v.path h.path)
      (Output-last (bool-Output heap allocates v.watch)))

pub exists_request-Input :
    (heap : Heap)
    → Allocates heap
    → (v : ExistsRequest) → IsExistsRequest v
    → Input (deserialize_exists_request heap) (exists_request_bytes v) v
unfolding deserialize_exists_request exists_request_bytes
exists_request-Input heap allocates v h = Input-start (
    Input-seq _ (string-Input heap allocates v.path h.path)
      (Input-last _ (bool-Input v.watch h.watch)))

pub Guarded-exists_request :
    (heap : Heap) → Refuses heap → Guarded (deserialize_exists_request heap)
unfolding deserialize_exists_request
Guarded-exists_request heap refuses = Guarded-bind Guarded-start λ start.
    Guarded-bind (Guarded-string heap refuses)
      λ path. Guarded-bind Guarded-bool λ watch. Guarded-last _

-- A ExistsRequest written by the one side is read back by the other.
pub transfer-exists_request :
    (heap : Heap)
    → Allocates heap
    → (v : ExistsRequest) → IsExistsRequest v
    → length (exists_request_bytes v) ≤ 2 ^ 28
    → transfer heap (serialize_exists_request heap v) (deserialize_exists_request heap)
      ≡ some (good v)
transfer-exists_request heap allocates v h fits =
    transfer-Output-Input heap allocates (exists_request-Output heap allocates v h)
      (exists_request-Input heap allocates v h) fits

-- struct GetChildrenRequest
pub record GetChildrenRequest : Type 0 where
  pub path : CString
  pub watch : ℕ

unfoldable pub serialize_get_children_request : Heap → GetChildrenRequest → Archive (Unit {0})
serialize_get_children_request heap v = do
  oa_start_record
  oa_serialize_string heap v.path
  oa_serialize_bool heap v.watch
  oa_end_record

unfoldable pub deserialize_get_children_request : Heap → Archive GetChildrenRequest
deserialize_get_children_request heap = do
  ia_start_record
  path ← ia_deserialize_string heap
  watch ← ia_deserialize_bool
  ia_end_record
  pure (record { path = path; watch = watch })

pub record IsGetChildrenRequest (v : GetChildrenRequest) : Type 0 where
  pub path : IsString v.path
  pub watch : IsFlag v.watch

unfoldable pub get_children_request_bytes : GetChildrenRequest → List ℕ
get_children_request_bytes v = string_bytes v.path ++ (bool_bytes v.watch)

pub get_children_request-Output :
    (heap : Heap)
    → Allocates heap
    → (v : GetChildrenRequest) → IsGetChildrenRequest v
    → Output (serialize_get_children_request heap v) (get_children_request_bytes v)
unfolding serialize_get_children_request get_children_request_bytes
get_children_request-Output heap allocates v h = Output-start (
    Output-seq (string-Output heap allocates v.path h.path)
      (Output-last (bool-Output heap allocates v.watch)))

pub get_children_request-Input :
    (heap : Heap)
    → Allocates heap
    → (v : GetChildrenRequest) → IsGetChildrenRequest v
    → Input (deserialize_get_children_request heap) (get_children_request_bytes v) v
unfolding deserialize_get_children_request get_children_request_bytes
get_children_request-Input heap allocates v h = Input-start (
    Input-seq _ (string-Input heap allocates v.path h.path)
      (Input-last _ (bool-Input v.watch h.watch)))

pub Guarded-get_children_request :
    (heap : Heap) → Refuses heap → Guarded (deserialize_get_children_request heap)
unfolding deserialize_get_children_request
Guarded-get_children_request heap refuses = Guarded-bind Guarded-start λ start.
    Guarded-bind (Guarded-string heap refuses)
      λ path. Guarded-bind Guarded-bool λ watch. Guarded-last _

-- A GetChildrenRequest written by the one side is read back by the other.
pub transfer-get_children_request :
    (heap : Heap)
    → Allocates heap
    → (v : GetChildrenRequest) → IsGetChildrenRequest v
    → length (get_children_request_bytes v) ≤ 2 ^ 28
    → transfer heap (serialize_get_children_request heap v) (deserialize_get_children_request heap)
      ≡ some (good v)
transfer-get_children_request heap allocates v h fits =
    transfer-Output-Input heap allocates (get_children_request-Output heap allocates v h)
      (get_children_request-Input heap allocates v h) fits
