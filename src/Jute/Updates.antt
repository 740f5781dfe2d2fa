-- ===== src/Jute/Updates.antt =====
-- src/zk/zookeeper.jute.c and include/zookeeper.jute.h: the requests that carry data.
use ext_zookeeper.Prelude.{ℕ, ◌^◌, ◌≤◌, ◌≡◌, some, List, ◌++◌, length}
use ext_zookeeper.Prelude.Bytes.{IsInt32}
use ext_zookeeper.Recordio.{
  good, Archive, ◌>>=◌, ◌>>◌, pure, Heap, Buffer, CString, oa_start_record, oa_end_record,
  ia_start_record, ia_end_record, oa_serialize_int, oa_serialize_buffer, oa_serialize_string,
  ia_deserialize_int, ia_deserialize_buffer, ia_deserialize_string,
}
use ext_zookeeper.Recordio.Spec.{Allocates}
use ext_zookeeper.Recordio.Safety.{Refuses}
use ext_zookeeper.Recordio.Output.{IsBuffer}
use ext_zookeeper.Recordio.Input.{received}
use ext_zookeeper.Recordio.Transfer.{transfer}
use ext_zookeeper.Recordio.Rules.{
  Output, Input, Guarded, IsString, Output-seq, Output-start, Output-last, Input-seq, Input-start,
  Input-last, Guarded-bind, Guarded-start, Guarded-last, Guarded-int, Guarded-string,
  Guarded-buffer, int_bytes, string_bytes, buffer_bytes, int-Output, string-Output, buffer-Output,
  int-Input, string-Input, buffer-Input, transfer-Output-Input,
}

-- struct SetDataRequest
pub record SetDataRequest : Type 0 where
  pub path : CString
  pub contents : Buffer
  pub version : ℕ

unfoldable pub serialize_set_data_request : Heap → SetDataRequest → Archive (Unit {0})
serialize_set_data_request heap v = do
  oa_start_record
  oa_serialize_string heap v.path
  oa_serialize_buffer heap (some v.contents)
  oa_serialize_int heap v.version
  oa_end_record

unfoldable pub deserialize_set_data_request : Heap → Archive SetDataRequest
deserialize_set_data_request heap = do
  ia_start_record
  path ← ia_deserialize_string heap
  contents ← ia_deserialize_buffer heap
  version ← ia_deserialize_int
  ia_end_record
  pure (record { path = path; contents = contents; version = version })

pub record IsSetDataRequest (v : SetDataRequest) : Type 0 where
  pub path : IsString v.path
  pub contents : IsBuffer v.contents
  pub version : IsInt32 v.version

unfoldable pub set_data_request_bytes : SetDataRequest → List ℕ
set_data_request_bytes v = string_bytes v.path ++ (buffer_bytes v.contents ++ (int_bytes v.version))

pub set_data_request-Output :
    (heap : Heap)
    → Allocates heap
    → (v : SetDataRequest) → IsSetDataRequest v
    → Output (serialize_set_data_request heap v) (set_data_request_bytes v)
unfolding serialize_set_data_request set_data_request_bytes
set_data_request-Output heap allocates v h = Output-start (
    Output-seq (string-Output heap allocates v.path h.path) (
      Output-seq (buffer-Output heap allocates v.contents h.contents)
        (Output-last (int-Output heap allocates v.version))))

-- The value as it comes back.
abbrev pub received_set_data_request : SetDataRequest → SetDataRequest
received_set_data_request v = record v { contents = received v.contents }

pub set_data_request-Input :
    (heap : Heap)
    → Allocates heap
    → (v : SetDataRequest) → IsSetDataRequest v
    → Input
        (deserialize_set_data_request heap)
        (set_data_request_bytes v)
        (received_set_data_request v)
unfolding deserialize_set_data_request set_data_request_bytes
set_data_request-Input heap allocates v h = Input-start (
    Input-seq _ (string-Input heap allocates v.path h.path) (
      Input-seq _ (buffer-Input heap allocates v.contents h.contents)
        (Input-last _ (int-Input v.version h.version))))

pub Guarded-set_data_request :
    (heap : Heap) → Refuses heap → Guarded (deserialize_set_data_request heap)
unfolding deserialize_set_data_request
Guarded-set_data_request heap refuses = Guarded-bind Guarded-start λ start.
    Guarded-bind (Guarded-string heap refuses) λ path.
      Guarded-bind (Guarded-buffer heap refuses)
        λ contents. Guarded-bind Guarded-int λ version. Guarded-last _

-- A SetDataRequest whose version fits 32 bits, whose path is text, whose data is a buffer that a
-- program may hand over, and which takes at most 2 ^ 28 bytes, is read back as it was, but for a
-- null buffer of length 0, which comes back as an empty block, when the allocator gives every
-- block whose size fits an int.
pub transfer-set_data_request :
    (heap : Heap)
    → Allocates heap
    → (v : SetDataRequest) → IsSetDataRequest v
    → length (set_data_request_bytes v) ≤ 2 ^ 28
    → transfer heap (serialize_set_data_request heap v) (deserialize_set_data_request heap)
      ≡ some (good (received_set_data_request v))
transfer-set_data_request heap allocates v h fits =
    transfer-Output-Input heap allocates (set_data_request-Output heap allocates v h)
      (set_data_request-Input heap allocates v h) fits

-- struct AuthPacket
pub record AuthPacket : Type 0 where
  pub type : ℕ
  pub scheme : CString
  pub auth : Buffer

unfoldable pub serialize_auth_packet : Heap → AuthPacket → Archive (Unit {0})
serialize_auth_packet heap v = do
  oa_start_record
  oa_serialize_int heap v.type
  oa_serialize_string heap v.scheme
  oa_serialize_buffer heap (some v.auth)
  oa_end_record

unfoldable pub deserialize_auth_packet : Heap → Archive AuthPacket
deserialize_auth_packet heap = do
  ia_start_record
  type ← ia_deserialize_int
  scheme ← ia_deserialize_string heap
  auth ← ia_deserialize_buffer heap
  ia_end_record
  pure (record { type = type; scheme = scheme; auth = auth })

pub record IsAuthPacket (v : AuthPacket) : Type 0 where
  pub type : IsInt32 v.type
  pub scheme : IsString v.scheme
  pub auth : IsBuffer v.auth

unfoldable pub auth_packet_bytes : AuthPacket → List ℕ
auth_packet_bytes v = int_bytes v.type ++ (string_bytes v.scheme ++ (buffer_bytes v.auth))

pub auth_packet-Output :
    (heap : Heap)
    → Allocates heap
    → (v : AuthPacket) → IsAuthPacket v
    → Output (serialize_auth_packet heap v) (auth_packet_bytes v)
unfolding serialize_auth_packet auth_packet_bytes
auth_packet-Output heap allocates v h = Output-start (
    Output-seq (int-Output heap allocates v.type) (
      Output-seq (string-Output heap allocates v.scheme h.scheme)
        (Output-last (buffer-Output heap allocates v.auth h.auth))))

-- The value as it comes back.
abbrev pub received_auth_packet : AuthPacket → AuthPacket
received_auth_packet v = record v { auth = received v.auth }

pub auth_packet-Input :
    (heap : Heap)
    → Allocates heap
    → (v : AuthPacket) → IsAuthPacket v
    → Input (deserialize_auth_packet heap) (auth_packet_bytes v) (received_auth_packet v)
unfolding deserialize_auth_packet auth_packet_bytes
auth_packet-Input heap allocates v h = Input-start (
    Input-seq _ (int-Input v.type h.type) (
      Input-seq _ (string-Input heap allocates v.scheme h.scheme)
        (Input-last _ (buffer-Input heap allocates v.auth h.auth))))

pub Guarded-auth_packet : (heap : Heap) → Refuses heap → Guarded (deserialize_auth_packet heap)
unfolding deserialize_auth_packet
Guarded-auth_packet heap refuses = Guarded-bind Guarded-start λ start.
    Guarded-bind Guarded-int λ type.
      Guarded-bind (Guarded-string heap refuses)
        λ scheme. Guarded-bind (Guarded-buffer heap refuses) λ auth. Guarded-last _

-- An AuthPacket whose type fits 32 bits, whose scheme is text, whose credentials are a buffer
-- that a program may hand over, and which takes at most 2 ^ 28 bytes, is read back as it was, but
-- for a null buffer of length 0, which comes back as an empty block, when the allocator gives
-- every block whose size fits an int.
pub transfer-auth_packet :
    (heap : Heap)
    → Allocates heap
    → (v : AuthPacket) → IsAuthPacket v
    → length (auth_packet_bytes v) ≤ 2 ^ 28
    → transfer heap (serialize_auth_packet heap v) (deserialize_auth_packet heap)
      ≡ some (good (received_auth_packet v))
transfer-auth_packet heap allocates v h fits =
    transfer-Output-Input heap allocates (auth_packet-Output heap allocates v h)
      (auth_packet-Input heap allocates v h) fits
