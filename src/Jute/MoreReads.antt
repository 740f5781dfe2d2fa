-- ===== src/Jute/MoreReads.antt =====
-- src/zk/zookeeper.jute.c and include/zookeeper.jute.h: the other requests that name one node.
use ext_zookeeper.Prelude.{ℕ, ◌^◌, ◌≤◌, ◌≡◌, some, List, ◌++◌, length}
use ext_zookeeper.Prelude.Bytes.{IsInt32}
use ext_zookeeper.Recordio.{
  good, Archive, ◌>>=◌, ◌>>◌, pure, Heap, CString, oa_start_record, oa_end_record, ia_start_record,
  ia_end_record, oa_serialize_int, oa_serialize_bool, oa_serialize_string, ia_deserialize_int,
  ia_deserialize_bool, ia_deserialize_string,
}
use ext_zookeeper.Recordio.Spec.{Allocates}
use ext_zookeeper.Recordio.Safety.{Refuses}
use ext_zookeeper.Recordio.Transfer.{transfer}
use ext_zookeeper.Recordio.Rules.{
  Output, Input, Guarded, IsString, IsFlag, Output-seq, Output-start, Output-last, Input-seq,
  Input-start, Input-last, Guarded-bind, Guarded-start, Guarded-last, Guarded-int, Guarded-bool,
  Guarded-string, int_bytes, bool_bytes, string_bytes, int-Output, bool-Output, string-Output,
  int-Input, bool-Input, string-Input, transfer-Output-Input,
}

-- struct GetChildren2Request
pub record GetChildren2Request : Type 0 where
  pub path : CString
  pub watch : ℕ

unfoldable pub serialize_get_children2_request : Heap → GetChildren2Request → Archive (Unit {0})
serialize_get_children2_request heap v = do
  oa_start_record
  oa_serialize_string heap v.path
  oa_serialize_bool heap v.watch
  oa_end_record

unfoldable pub deserialize_get_children2_request : Heap → Archive GetChildren2Request
deserialize_get_children2_request heap = do
  ia_start_record
  path ← ia_deserialize_string heap
  watch ← ia_deserialize_bool
  ia_end_record
  pure (record { path = path; watch = watch })

pub record IsGetChildren2Request (v : GetChildren2Request) : Type 0 where
  pub path : IsString v.path
  pub watch : IsFlag v.watch

unfoldable pub get_children2_request_bytes : GetChildren2Request → List ℕ
get_children2_request_bytes v = string_bytes v.path ++ (bool_bytes v.watch)

pub get_children2_request-Output :
    (heap : Heap)
    → Allocates heap
    → (v : GetChildren2Request) → IsGetChildren2Request v
    → Output (serialize_get_children2_request heap v) (get_children2_request_bytes v)
unfolding serialize_get_children2_request get_children2_request_bytes
get_children2_request-Output heap allocates v h = Output-start (
    Output-seq (string-Output heap allocates v.path h.path)
      (Output-last (bool-Output heap allocates v.watch)))

pub get_children2_request-Input :
    (heap : Heap)
    → Allocates heap
    → (v : GetChildren2Request) → IsGetChildren2Request v
    → Input (deserialize_get_children2_request heap) (get_children2_request_bytes v) v
unfolding deserialize_get_children2_request get_children2_request_bytes
get_children2_request-Input heap allocates v h = Input-start (
    Input-seq _ (string-Input heap allocates v.path h.path)
      (Input-last _ (bool-Input v.watch h.watch)))

pub Guarded-get_children2_request :
    (heap : Heap) → Refuses heap → Guarded (deserialize_get_children2_request heap)
unfolding deserialize_get_children2_request
Guarded-get_children2_request heap refuses = Guarded-bind Guarded-start λ start.
    Guarded-bind (Guarded-string heap refuses)
      λ path. Guarded-bind Guarded-bool λ watch. Guarded-last _

-- A GetChildren2Request written by the one side is read back by the other.
pub transfer-get_children2_request :
    (heap : Heap)
    → Allocates heap
    → (v : GetChildren2Request) → IsGetChildren2Request v
    → length (get_children2_request_bytes v) ≤ 2 ^ 28
    → transfer heap
        (serialize_get_children2_request heap v)
        (deserialize_get_children2_request heap)
      ≡ some (good v)
transfer-get_children2_request heap allocates v h fits =
    transfer-Output-Input heap allocates (get_children2_request-Output heap allocates v h)
      (get_children2_request-Input heap allocates v h) fits

-- struct SyncRequest
pub record SyncRequest : Type 0 where
  pub path : CString

unfoldable pub serialize_sync_request : Heap → SyncRequest → Archive (Unit {0})
serialize_sync_request heap v = do oa_start_record; oa_serialize_string heap v.path; oa_end_record

unfoldable pub deserialize_sync_request : Heap → Archive SyncRequest
deserialize_sync_request heap = do
  ia_start_record
  path ← ia_deserialize_string heap
  ia_end_record
  pure (record { path = path })

pub record IsSyncRequest (v : SyncRequest) : Type 0 where
  pub path : IsString v.path

unfoldable pub sync_request_bytes : SyncRequest → List ℕ
sync_request_bytes v = string_bytes v.path

pub sync_request-Output :
    (heap : Heap)
    → Allocates heap
    → (v : SyncRequest) → IsSyncRequest v
    → Output (serialize_sync_request heap v) (sync_request_bytes v)
unfolding serialize_sync_request sync_request_bytes
sync_request-Output heap allocates v h =
    Output-start (Output-last (string-Output heap allocates v.path h.path))

pub sync_request-Input :
    (heap : Heap)
    → Allocates heap
    → (v : SyncRequest) → IsSyncRequest v
    → Input (deserialize_sync_request heap) (sync_request_bytes v) v
unfolding deserialize_sync_request sync_request_bytes
sync_request-Input heap allocates v h =
    Input-start (Input-last _ (string-Input heap allocates v.path h.path))

pub Guarded-sync_request : (heap : Heap) → Refuses heap → Guarded (deserialize_sync_request heap)
unfolding deserialize_sync_request
Guarded-sync_request heap refuses =
    Guarded-bind Guarded-start
      λ start. Guarded-bind (Guarded-string heap refuses) λ path. Guarded-last _

-- A SyncRequest written by the one side is read back by the other.
pub transfer-sync_request :
    (heap : Heap)
    → Allocates heap
    → (v : SyncRequest) → IsSyncRequest v
    → length (sync_request_bytes v) ≤ 2 ^ 28
    → transfer heap (serialize_sync_request heap v) (deserialize_sync_request heap) ≡ some (good v)
transfer-sync_request heap allocates v h fits =
    transfer-Output-Input heap allocates (sync_request-Output heap allocates v h)
      (sync_request-Input heap allocates v h) fits

-- struct GetAclRequest
pub record GetAclRequest : Type 0 where
  pub path : CString

unfoldable pub serialize_get_acl_request : Heap → GetAclRequest → Archive (Unit {0})
serialize_get_acl_request heap v = do
  oa_start_record
  oa_serialize_string heap v.path
  oa_end_record

unfoldable pub deserialize_get_acl_request : Heap → Archive GetAclRequest
deserialize_get_acl_request heap = do
  ia_start_record
  path ← ia_deserialize_string heap
  ia_end_record
  pure (record { path = path })

pub record IsGetAclRequest (v : GetAclRequest) : Type 0 where
  pub path : IsString v.path

unfoldable pub get_acl_request_bytes : GetAclRequest → List ℕ
get_acl_request_bytes v = string_bytes v.path

pub get_acl_request-Output :
    (heap : Heap)
    → Allocates heap
    → (v : GetAclRequest) → IsGetAclRequest v
    → Output (serialize_get_acl_request heap v) (get_acl_request_bytes v)
unfolding serialize_get_acl_request get_acl_request_bytes
get_acl_request-Output heap allocates v h =
    Output-start (Output-last (string-Output heap allocates v.path h.path))

pub get_acl_request-Input :
    (heap : Heap)
    → Allocates heap
    → (v : GetAclRequest) → IsGetAclRequest v
    → Input (deserialize_get_acl_request heap) (get_acl_request_bytes v) v
unfolding deserialize_get_acl_request get_acl_request_bytes
get_acl_request-Input heap allocates v h =
    Input-start (Input-last _ (string-Input heap allocates v.path h.path))

pub Guarded-get_acl_request :
    (heap : Heap) → Refuses heap → Guarded (deserialize_get_acl_request heap)
unfolding deserialize_get_acl_request
Guarded-get_acl_request heap refuses =
    Guarded-bind Guarded-start
      λ start. Guarded-bind (Guarded-string heap refuses) λ path. Guarded-last _

-- A GetAclRequest written by the one side is read back by the other.
pub transfer-get_acl_request :
    (heap : Heap)
    → Allocates heap
    → (v : GetAclRequest) → IsGetAclRequest v
    → length (get_acl_request_bytes v) ≤ 2 ^ 28
    → transfer heap (serialize_get_acl_request heap v) (deserialize_get_acl_request heap)
      ≡ some (good v)
transfer-get_acl_request heap allocates v h fits =
    transfer-Output-Input heap allocates (get_acl_request-Output heap allocates v h)
      (get_acl_request-Input heap allocates v h) fits

-- struct DeleteRequest
pub record DeleteRequest : Type 0 where
  pub path : CString
  pub version : ℕ

unfoldable pub serialize_delete_request : Heap → DeleteRequest → Archive (Unit {0})
serialize_delete_request heap v = do
  oa_start_record
  oa_serialize_string heap v.path
  oa_serialize_int heap v.version
  oa_end_record

unfoldable pub deserialize_delete_request : Heap → Archive DeleteRequest
deserialize_delete_request heap = do
  ia_start_record
  path ← ia_deserialize_string heap
  version ← ia_deserialize_int
  ia_end_record
  pure (record { path = path; version = version })

pub record IsDeleteRequest (v : DeleteRequest) : Type 0 where
  pub path : IsString v.path
  pub version : IsInt32 v.version

unfoldable pub delete_request_bytes : DeleteRequest → List ℕ
delete_request_bytes v = string_bytes v.path ++ (int_bytes v.version)

pub delete_request-Output :
    (heap : Heap)
    → Allocates heap
    → (v : DeleteRequest) → IsDeleteRequest v
    → Output (serialize_delete_request heap v) (delete_request_bytes v)
unfolding serialize_delete_request delete_request_bytes
delete_request-Output heap allocates v h = Output-start (
    Output-seq (string-Output heap allocates v.path h.path)
      (Output-last (int-Output heap allocates v.version)))

pub delete_request-Input :
    (heap : Heap)
    → Allocates heap
    → (v : DeleteRequest) → IsDeleteRequest v
    → Input (deserialize_delete_request heap) (delete_request_bytes v) v
unfolding deserialize_delete_request delete_request_bytes
delete_request-Input heap allocates v h = Input-start (
    Input-seq _ (string-Input heap allocates v.path h.path)
      (Input-last _ (int-Input v.version h.version)))

pub Guarded-delete_request :
    (heap : Heap) → Refuses heap → Guarded (deserialize_delete_request heap)
unfolding deserialize_delete_request
Guarded-delete_request heap refuses = Guarded-bind Guarded-start λ start.
    Guarded-bind (Guarded-string heap refuses)
      λ path. Guarded-bind Guarded-int λ version. Guarded-last _

-- A DeleteRequest written by the one side is read back by the other.
pub transfer-delete_request :
    (heap : Heap)
    → Allocates heap
    → (v : DeleteRequest) → IsDeleteRequest v
    → length (delete_request_bytes v) ≤ 2 ^ 28
    → transfer heap (serialize_delete_request heap v) (deserialize_delete_request heap)
      ≡ some (good v)
transfer-delete_request heap allocates v h fits =
    transfer-Output-Input heap allocates (delete_request-Output heap allocates v h)
      (delete_request-Input heap allocates v h) fits
