-- ===== src/Jute/AclUpdates.antt =====
-- src/zk/zookeeper.jute.c and include/zookeeper.jute.h: the requests that carry an access control list.
use ext_zookeeper.Prelude.{ℕ, some, List, ◌++◌}
use ext_zookeeper.Prelude.Bytes.{IsInt32}
use ext_zookeeper.Recordio.{
  Archive, ◌>>◌, Heap, Buffer, CString, oa_start_record, oa_end_record, oa_serialize_int,
  oa_serialize_buffer, oa_serialize_string,
}
use ext_zookeeper.Recordio.Spec.{Allocates}
use ext_zookeeper.Recordio.Output.{IsBuffer}
use ext_zookeeper.Recordio.Rules.{
  Output, IsString, Output-seq, Output-start, Output-last, int_bytes, string_bytes, buffer_bytes,
  int-Output, string-Output, buffer-Output,
}
use ext_zookeeper.Jute.Acl.{
  AclVector, serialize_acl_vector, IsAclVector, acl_vector_bytes, acl_vector-Output,
}

-- struct CreateRequest
pub record CreateRequest : Type 0 where
  pub path : CString
  pub contents : Buffer
  pub acl : AclVector
  pub flags : ℕ

unfoldable pub serialize_create_request : Heap → CreateRequest → Archive (Unit {0})
serialize_create_request heap v = do
  oa_start_record
  oa_serialize_string heap v.path
  oa_serialize_buffer heap (some v.contents)
  serialize_acl_vector heap v.acl
  oa_serialize_int heap v.flags
  oa_end_record

pub record IsCreateRequest (v : CreateRequest) : Type 0 where
  pub path : IsString v.path
  pub contents : IsBuffer v.contents
  pub acl : IsAclVector v.acl
  pub flags : IsInt32 v.flags

unfoldable pub create_request_bytes : CreateRequest → List ℕ
create_request_bytes v =
    string_bytes v.path
    ++ (buffer_bytes v.contents ++ (acl_vector_bytes v.acl ++ (int_bytes v.flags)))

pub create_request-Output :
    (heap : Heap)
    → Allocates heap
    → (v : CreateRequest) → IsCreateRequest v
    → Output (serialize_create_request heap v) (create_request_bytes v)
unfolding serialize_create_request create_request_bytes
create_request-Output heap allocates v h = Output-start (
    Output-seq (string-Output heap allocates v.path h.path) (
      Output-seq (buffer-Output heap allocates v.contents h.contents) (
        Output-seq (acl_vector-Output heap allocates v.acl h.acl)
          (Output-last (int-Output heap allocates v.flags)))))

-- struct SetAclRequest
pub record SetAclRequest : Type 0 where
  pub path : CString
  pub acl : AclVector
  pub version : ℕ

unfoldable pub serialize_set_acl_request : Heap → SetAclRequest → Archive (Unit {0})
serialize_set_acl_request heap v = do
  oa_start_record
  oa_serialize_string heap v.path
  serialize_acl_vector heap v.acl
  oa_serialize_int heap v.version
  oa_end_record

pub record IsSetAclRequest (v : SetAclRequest) : Type 0 where
  pub path : IsString v.path
  pub acl : IsAclVector v.acl
  pub version : IsInt32 v.version

unfoldable pub set_acl_request_bytes : SetAclRequest → List ℕ
set_acl_request_bytes v = string_bytes v.path ++ (acl_vector_bytes v.acl ++ (int_bytes v.version))

pub set_acl_request-Output :
    (heap : Heap)
    → Allocates heap
    → (v : SetAclRequest) → IsSetAclRequest v
    → Output (serialize_set_acl_request heap v) (set_acl_request_bytes v)
unfolding serialize_set_acl_request set_acl_request_bytes
set_acl_request-Output heap allocates v h = Output-start (
    Output-seq (string-Output heap allocates v.path h.path) (
      Output-seq (acl_vector-Output heap allocates v.acl h.acl)
        (Output-last (int-Output heap allocates v.version))))
