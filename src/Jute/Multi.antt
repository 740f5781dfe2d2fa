-- ===== src/Jute/Multi.antt =====
-- src/zk/zookeeper.jute.c and include/zookeeper.jute.h: the records inside a multi request and its response.
use ext_zookeeper.Prelude.{ℕ, ◌^◌, ◌≤◌, ◌≡◌, some, List, ◌++◌, length, arith}
use ext_zookeeper.Prelude.Bytes.{IsInt32}
use ext_zookeeper.Recordio.{
  good, Archive, ◌>>=◌, ◌>>◌, pure, Heap, CString, oa_start_record, oa_end_record, ia_start_record,
  ia_end_record, oa_serialize_int, oa_serialize_bool, oa_serialize_string, ia_deserialize_int,
  ia_deserialize_bool, ia_deserialize_string,
}
use ext_zookeeper.Recordio.Spec.{Allocates}
use ext_zookeeper.Recordio.Safety.{Refuses}
use ext_zookeeper.Recordio.Transfer.{transfer}
use ext_zookeeper.Recordio.Rules.{
  Output, Input, Guarded, IsString, IsFlag, Output-seq, Output-start, Output-last, Input-seq,
  Input-start, Input-last, Guarded-bind, Guarded-start, Guarded-last, Guarded-int, Guarded-bool,
  Guarded-string, int_bytes, long_bytes, bool_bytes, string_bytes, int-Output, bool-Output,
  string-Output, int-Input, bool-Input, string-Input, transfer-Output-Input,
}

-- struct MultiHeader
pub record MultiHeader : Type 0 where
  pub type : ℕ
  pub done : ℕ
  pub err : ℕ

unfoldable pub serialize_multi_header : Heap → MultiHeader → Archive (Unit {0})
serialize_multi_header heap v = do
  oa_start_record
  oa_serialize_int heap v.type
  oa_serialize_bool heap v.done
  oa_serialize_int heap v.err
  oa_end_record

unfoldable pub deserialize_multi_header : Archive MultiHeader
deserialize_multi_header = do
  ia_start_record
  type ← ia_deserialize_int
  done ← ia_deserialize_bool
  err ← ia_deserialize_int
  ia_end_record
  pure (record { type = type; done = done; err = err })

pub record IsMultiHeader (v : MultiHeader) : Type 0 where
  pub type : IsInt32 v.type
  pub done : IsFlag v.done
  pub err : IsInt32 v.err

unfoldable pub multi_header_bytes : MultiHeader → List ℕ
multi_header_bytes v = int_bytes v.type ++ (bool_bytes v.done ++ (int_bytes v.err))

pub multi_header-Output :
    (heap : Heap)
    → Allocates heap
    → (v : MultiHeader) → IsMultiHeader v
    → Output (serialize_multi_header heap v) (multi_header_bytes v)
unfolding serialize_multi_header multi_header_bytes
multi_header-Output heap allocates v h = Output-start (
    Output-seq (int-Output heap allocates v.type) (
      Output-seq (bool-Output heap allocates v.done)
        (Output-last (int-Output heap allocates v.err))))

pub multi_header-Input :
    (v : MultiHeader) → IsMultiHeader v → Input deserialize_multi_header (multi_header_bytes v) v
unfolding deserialize_multi_header multi_header_bytes
multi_header-Input v h = Input-start (
    Input-seq _ (int-Input v.type h.type)
      (Input-seq _ (bool-Input v.done h.done) (Input-last _ (int-Input v.err h.err))))

pub Guarded-multi_header : Guarded deserialize_multi_header
unfolding deserialize_multi_header
Guarded-multi_header = Guarded-bind Guarded-start λ start.
    Guarded-bind Guarded-int
      λ type. Guarded-bind Guarded-bool λ done. Guarded-bind Guarded-int λ err. Guarded-last _

-- A MultiHeader whose numbers fit 32 bits and whose flag is 0 or 1 is read back as it was, when
-- the allocator gives every block whose size fits an int.
pub transfer-multi_header :
    (heap : Heap)
    → Allocates heap
    → (v : MultiHeader) → IsMultiHeader v
    → transfer heap (serialize_multi_header heap v) deserialize_multi_header ≡ some (good v)
unfolding multi_header_bytes int_bytes long_bytes bool_bytes
transfer-multi_header heap allocates v h =
    transfer-Output-Input heap allocates (multi_header-Output heap allocates v h)
      (multi_header-Input v h) (omega arith)

-- struct ErrorResponse
pub record ErrorResponse : Type 0 where
  pub err : ℕ

unfoldable pub serialize_error_response : Heap → ErrorResponse → Archive (Unit {0})
serialize_error_response heap v = do oa_start_record; oa_serialize_int heap v.err; oa_end_record

unfoldable pub deserialize_error_response : Archive ErrorResponse
deserialize_error_response = do
  ia_start_record
  err ← ia_deserialize_int
  ia_end_record
  pure (record { err = err })

pub record IsErrorResponse (v : ErrorResponse) : Type 0 where
  pub err : IsInt32 v.err

unfoldable pub error_response_bytes : ErrorResponse → List ℕ
error_response_bytes v = int_bytes v.err

pub error_response-Output :
    (heap : Heap)
    → Allocates heap
    → (v : ErrorResponse) → IsErrorResponse v
    → Output (serialize_error_response heap v) (error_response_bytes v)
unfolding serialize_error_response error_response_bytes
error_response-Output heap allocates v h =
    Output-start (Output-last (int-Output heap allocates v.err))

pub error_response-Input :
    (v : ErrorResponse)
    → IsErrorResponse v
    → Input deserialize_error_response (error_response_bytes v) v
unfolding deserialize_error_response error_response_bytes
error_response-Input v h = Input-start (Input-last _ (int-Input v.err h.err))

pub Guarded-error_response : Guarded deserialize_error_response
unfolding deserialize_error_response
Guarded-error_response =
    Guarded-bind Guarded-start λ start. Guarded-bind Guarded-int λ err. Guarded-last _

-- A ErrorResponse written by the one side is read back by the other.
pub transfer-error_response :
    (heap : Heap)
    → Allocates heap
    → (v : ErrorResponse) → IsErrorResponse v
    → transfer heap (serialize_error_response heap v) deserialize_error_response ≡ some (good v)
unfolding error_response_bytes int_bytes long_bytes bool_bytes
transfer-error_response heap allocates v h =
    transfer-Output-Input heap allocates (error_response-Output heap allocates v h)
      (error_response-Input v h) (omega arith)

-- struct CheckVersionRequest
pub record CheckVersionRequest : Type 0 where
  pub path : CString
  pub version : ℕ

unfoldable pub serialize_check_version_request : Heap → CheckVersionRequest → Archive (Unit {0})
serialize_check_version_request heap v = do
  oa_start_record
  oa_serialize_string heap v.path
  oa_serialize_int heap v.version
  oa_end_record

unfoldable pub deserialize_check_version_request : Heap → Archive CheckVersionRequest
deserialize_check_version_request heap = do
  ia_start_record
  path ← ia_deserialize_string heap
  version ← ia_deserialize_int
  ia_end_record
  pure (record { path = path; version = version })

pub record IsCheckVersionRequest (v : CheckVersionRequest) : Type 0 where
  pub path : IsString v.path
  pub version : IsInt32 v.version

unfoldable pub check_version_request_bytes : CheckVersionRequest → List ℕ
check_version_request_bytes v = string_bytes v.path ++ (int_bytes v.version)

pub check_version_request-Output :
    (heap : Heap)
    → Allocates heap
    → (v : CheckVersionRequest) → IsCheckVersionRequest v
    → Output (serialize_check_version_request heap v) (check_version_request_bytes v)
unfolding serialize_check_version_request check_version_request_bytes
check_version_request-Output heap allocates v h = Output-start (
    Output-seq (string-Output heap allocates v.path h.path)
      (Output-last (int-Output heap allocates v.version)))

pub check_version_request-Input :
    (heap : Heap)
    → Allocates heap
    → (v : CheckVersionRequest) → IsCheckVersionRequest v
    → Input (deserialize_check_version_request heap) (check_version_request_bytes v) v
unfolding deserialize_check_version_request check_version_request_bytes
check_version_request-Input heap allocates v h = Input-start (
    Input-seq _ (string-Input heap allocates v.path h.path)
      (Input-last _ (int-Input v.version h.version)))

pub Guarded-check_version_request :
    (heap : Heap) → Refuses heap → Guarded (deserialize_check_version_request heap)
unfolding deserialize_check_version_request
Guarded-check_version_request heap refuses = Guarded-bind Guarded-start λ start.
    Guarded-bind (Guarded-string heap refuses)
      λ path. Guarded-bind Guarded-int λ version. Guarded-last _

-- A CheckVersionRequest written by the one side is read back by the other.
pub transfer-check_version_request :
    (heap : Heap)
    → Allocates heap
    → (v : CheckVersionRequest) → IsCheckVersionRequest v
    → length (check_version_request_bytes v) ≤ 2 ^ 28
    → transfer heap
        (serialize_check_version_request heap v)
        (deserialize_check_version_request heap)
      ≡ some (good v)
transfer-check_version_request heap allocates v h fits =
    transfer-Output-Input heap allocates (check_version_request-Output heap allocates v h)
      (check_version_request-Input heap allocates v h) fits
