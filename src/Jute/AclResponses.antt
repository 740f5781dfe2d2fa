-- ===== src/Jute/AclResponses.antt =====
-- src/zk/zookeeper.jute.c and include/zookeeper.jute.h: the records with an access control list as
-- they are read, and struct GetACLResponse.
use ext_zookeeper.Prelude.{ℕ, ◌^◌, ◌≤◌, ◌<◌, ◌≡◌, some, List, ◌++◌, length}
use ext_zookeeper.Recordio.{
  good, Archive, ◌>>=◌, ◌>>◌, pure, Heap, oa_start_record, oa_end_record, ia_start_record,
  ia_end_record, ia_deserialize_int, ia_deserialize_buffer, ia_deserialize_string,
}
use ext_zookeeper.Recordio.Spec.{Allocates}
use ext_zookeeper.Recordio.Input.{received}
use ext_zookeeper.Recordio.Transfer.{transfer}
use ext_zookeeper.Recordio.Rules.{
  Output, Input, Output-seq, Output-start, Output-last, Input-seq, Input-start, Input-last,
  int-Input, string-Input, buffer-Input, transfer-Output-Input,
}
use ext_zookeeper.Jute.Acl.{
  AclVector, serialize_acl_vector, IsAclVector, acl_vector_bytes, acl_vector-Output,
}
use ext_zookeeper.Jute.AclVectors.{deserialize_acl_vector, acl_vector-Input}
use ext_zookeeper.Jute.AclUpdates.{
  CreateRequest, serialize_create_request, IsCreateRequest, create_request_bytes,
  create_request-Output, SetAclRequest, serialize_set_acl_request, IsSetAclRequest,
  set_acl_request_bytes, set_acl_request-Output,
}
use ext_zookeeper.Jute.Stats.{
  Stat, serialize_stat, deserialize_stat, IsStat, stat_bytes, stat-Output, stat-Input,
}

unfoldable pub deserialize_create_request : Heap → Archive CreateRequest
deserialize_create_request heap = do
  ia_start_record
  path ← ia_deserialize_string heap
  contents ← ia_deserialize_buffer heap
  acl ← deserialize_acl_vector heap
  flags ← ia_deserialize_int
  ia_end_record
  pure (record { path = path; contents = contents; acl = acl; flags = flags })

abbrev pub received_create_request : CreateRequest → CreateRequest
received_create_request v = record v { contents = received v.contents }

pub create_request-Input :
    (heap : Heap)
    → Allocates heap
    → (v : CreateRequest) → IsCreateRequest v
    → length v.acl.items < 2 ^ 26
    → Input (deserialize_create_request heap) (create_request_bytes v) (received_create_request v)
unfolding deserialize_create_request create_request_bytes
create_request-Input heap allocates v h few = Input-start (
    Input-seq _ (string-Input heap allocates v.path h.path) (
      Input-seq _ (buffer-Input heap allocates v.contents h.contents) (
        Input-seq _ (acl_vector-Input heap allocates v.acl h.acl few)
          (Input-last _ (int-Input v.flags h.flags)))))

-- A CreateRequest is read back.
pub transfer-create_request :
    (heap : Heap)
    → Allocates heap
    → (v : CreateRequest) → IsCreateRequest v
    → length v.acl.items < 2 ^ 26
    → length (create_request_bytes v) ≤ 2 ^ 28
    → transfer heap (serialize_create_request heap v) (deserialize_create_request heap)
      ≡ some (good (received_create_request v))
transfer-create_request heap allocates v h few fits =
    transfer-Output-Input heap allocates (create_request-Output heap allocates v h)
      (create_request-Input heap allocates v h few) fits

unfoldable pub deserialize_set_acl_request : Heap → Archive SetAclRequest
deserialize_set_acl_request heap = do
  ia_start_record
  path ← ia_deserialize_string heap
  acl ← deserialize_acl_vector heap
  version ← ia_deserialize_int
  ia_end_record
  pure (record { path = path; acl = acl; version = version })

pub set_acl_request-Input :
    (heap : Heap)
    → Allocates heap
    → (v : SetAclRequest) → IsSetAclRequest v
    → length v.acl.items < 2 ^ 26
    → Input (deserialize_set_acl_request heap) (set_acl_request_bytes v) v
unfolding deserialize_set_acl_request set_acl_request_bytes
set_acl_request-Input heap allocates v h few = Input-start (
    Input-seq _ (string-Input heap allocates v.path h.path) (
      Input-seq _ (acl_vector-Input heap allocates v.acl h.acl few)
        (Input-last _ (int-Input v.version h.version))))

-- A SetACLRequest is read back.
pub transfer-set_acl_request :
    (heap : Heap)
    → Allocates heap
    → (v : SetAclRequest) → IsSetAclRequest v
    → length v.acl.items < 2 ^ 26
    → length (set_acl_request_bytes v) ≤ 2 ^ 28
    → transfer heap (serialize_set_acl_request heap v) (deserialize_set_acl_request heap)
      ≡ some (good v)
transfer-set_acl_request heap allocates v h few fits =
    transfer-Output-Input heap allocates (set_acl_request-Output heap allocates v h)
      (set_acl_request-Input heap allocates v h few) fits

-- struct GetACLResponse
pub record GetAclResponse : Type 0 where
  pub acl : AclVector
  pub stat : Stat

unfoldable pub serialize_get_acl_response : Heap → GetAclResponse → Archive (Unit {0})
serialize_get_acl_response heap v = do
  oa_start_record
  serialize_acl_vector heap v.acl
  serialize_stat heap v.stat
  oa_end_record

unfoldable pub deserialize_get_acl_response : Heap → Archive GetAclResponse
deserialize_get_acl_response heap = do
  ia_start_record
  acl ← deserialize_acl_vector heap
  stat ← deserialize_stat
  ia_end_record
  pure (record { acl = acl; stat = stat })

pub record IsGetAclResponse (v : GetAclResponse) : Type 0 where
  pub acl : IsAclVector v.acl
  pub few : length v.acl.items < 2 ^ 26
  pub stat : IsStat v.stat

unfoldable pub get_acl_response_bytes : GetAclResponse → List ℕ
get_acl_response_bytes v = acl_vector_bytes v.acl ++ (stat_bytes v.stat)

pub get_acl_response-Output :
    (heap : Heap)
    → Allocates heap
    → (v : GetAclResponse) → IsGetAclResponse v
    → Output (serialize_get_acl_response heap v) (get_acl_response_bytes v)
unfolding serialize_get_acl_response get_acl_response_bytes
get_acl_response-Output heap allocates v h = Output-start (
    Output-seq (acl_vector-Output heap allocates v.acl h.acl)
      (Output-last (stat-Output heap allocates v.stat h.stat)))

pub get_acl_response-Input :
    (heap : Heap)
    → Allocates heap
    → (v : GetAclResponse) → IsGetAclResponse v
    → Input (deserialize_get_acl_response heap) (get_acl_response_bytes v) v
unfolding deserialize_get_acl_response get_acl_response_bytes
get_acl_response-Input heap allocates v h = Input-start (
    Input-seq _ (acl_vector-Input heap allocates v.acl h.acl h.few)
      (Input-last _ (stat-Input v.stat h.stat)))

-- A GetACLResponse whose numbers fit their words, whose count is that of its entries, fewer than
-- 2 ^ 26, whose schemes and ids are text, and which takes at most 2 ^ 28 bytes, is read back as
-- it was, when the allocator gives every block whose size fits an int.
pub transfer-get_acl_response :
    (heap : Heap)
    → Allocates heap
    → (v : GetAclResponse) → IsGetAclResponse v
    → length (get_acl_response_bytes v) ≤ 2 ^ 28
    → transfer heap (serialize_get_acl_response heap v) (deserialize_get_acl_response heap)
      ≡ some (good v)
transfer-get_acl_response heap allocates v h fits =
    transfer-Output-Input heap allocates (get_acl_response-Output heap allocates v h)
      (get_acl_response-Input heap allocates v h) fits
