-- ===== src/Jute/Headers.antt =====
-- src/zk/zookeeper.jute.c and include/zookeeper.jute.h: the headers of requests and replies.
use ext_zookeeper.Prelude.{ℕ, ◌≡◌, some, List, ◌++◌, arith}
use ext_zookeeper.Prelude.Bytes.{IsInt32, IsInt64}
use ext_zookeeper.Recordio.{
  good, Archive, ◌>>=◌, ◌>>◌, pure, Heap, oa_start_record, oa_end_record, ia_start_record,
  ia_end_record, oa_serialize_int, oa_serialize_long, ia_deserialize_int, ia_deserialize_long,
}
use ext_zookeeper.Recordio.Spec.{Allocates}
use ext_zookeeper.Recordio.Transfer.{transfer}
use ext_zookeeper.Recordio.Rules.{
  Output, Input, Guarded, Output-seq, Output-start, Output-last, Input-seq, Input-start, Input-last,
  Guarded-bind, Guarded-start, Guarded-last, Guarded-int, Guarded-long, int_bytes, long_bytes,
  bool_bytes, int-Output, long-Output, int-Input, long-Input, transfer-Output-Input,
}

-- struct RequestHeader
pub record RequestHeader : Type 0 where
  pub xid : ℕ
  pub type : ℕ

unfoldable pub serialize_request_header : Heap → RequestHeader → Archive (Unit {0})
serialize_request_header heap v = do
  oa_start_record
  oa_serialize_int heap v.xid
  oa_serialize_int heap v.type
  oa_end_record

unfoldable pub deserialize_request_header : Archive RequestHeader
deserialize_request_header = do
  ia_start_record
  xid ← ia_deserialize_int
  type ← ia_deserialize_int
  ia_end_record
  pure (record { xid = xid; type = type })

pub record IsRequestHeader (v : RequestHeader) : Type 0 where
  pub xid : IsInt32 v.xid
  pub type : IsInt32 v.type

unfoldable pub request_header_bytes : RequestHeader → List ℕ
request_header_bytes v = int_bytes v.xid ++ (int_bytes v.type)

pub request_header-Output :
    (heap : Heap)
    → Allocates heap
    → (v : RequestHeader) → IsRequestHeader v
    → Output (serialize_request_header heap v) (request_header_bytes v)
unfolding serialize_request_header request_header_bytes
request_header-Output heap allocates v h =
    Output-start (
      Output-seq (int-Output heap allocates v.xid) (Output-last (int-Output heap allocates v.type)))

pub request_header-Input :
    (v : RequestHeader)
    → IsRequestHeader v
    → Input deserialize_request_header (request_header_bytes v) v
unfolding deserialize_request_header request_header_bytes
request_header-Input v h =
    Input-start (Input-seq _ (int-Input v.xid h.xid) (Input-last _ (int-Input v.type h.type)))

pub Guarded-request_header : Guarded deserialize_request_header
unfolding deserialize_request_header
Guarded-request_header =
    Guarded-bind Guarded-start
      λ start. Guarded-bind Guarded-int λ xid. Guarded-bind Guarded-int λ type. Guarded-last _

-- A RequestHeader whose fields fit 32 bits is read back as it was, when the allocator gives every
-- block whose size fits an int.
pub transfer-request_header :
    (heap : Heap)
    → Allocates heap
    → (v : RequestHeader) → IsRequestHeader v
    → transfer heap (serialize_request_header heap v) deserialize_request_header ≡ some (good v)
unfolding request_header_bytes int_bytes long_bytes bool_bytes
transfer-request_header heap allocates v h =
    transfer-Output-Input heap allocates (request_header-Output heap allocates v h)
      (request_header-Input v h) (omega arith)

-- struct ReplyHeader
pub record ReplyHeader : Type 0 where
  pub xid : ℕ
  pub zxid : ℕ
  pub err : ℕ

unfoldable pub serialize_reply_header : Heap → ReplyHeader → Archive (Unit {0})
serialize_reply_header heap v = do
  oa_start_record
  oa_serialize_int heap v.xid
  oa_serialize_long heap v.zxid
  oa_serialize_int heap v.err
  oa_end_record

unfoldable pub deserialize_reply_header : Archive ReplyHeader
deserialize_reply_header = do
  ia_start_record
  xid ← ia_deserialize_int
  zxid ← ia_deserialize_long
  err ← ia_deserialize_int
  ia_end_record
  pure (record { xid = xid; zxid = zxid; err = err })

pub record IsReplyHeader (v : ReplyHeader) : Type 0 where
  pub xid : IsInt32 v.xid
  pub zxid : IsInt64 v.zxid
  pub err : IsInt32 v.err

unfoldable pub reply_header_bytes : ReplyHeader → List ℕ
reply_header_bytes v = int_bytes v.xid ++ (long_bytes v.zxid ++ (int_bytes v.err))

pub reply_header-Output :
    (heap : Heap)
    → Allocates heap
    → (v : ReplyHeader) → IsReplyHeader v
    → Output (serialize_reply_header heap v) (reply_header_bytes v)
unfolding serialize_reply_header reply_header_bytes
reply_header-Output heap allocates v h = Output-start (
    Output-seq (int-Output heap allocates v.xid) (
      Output-seq (long-Output heap allocates v.zxid)
        (Output-last (int-Output heap allocates v.err))))

pub reply_header-Input :
    (v : ReplyHeader) → IsReplyHeader v → Input deserialize_reply_header (reply_header_bytes v) v
unfolding deserialize_reply_header reply_header_bytes
reply_header-Input v h = Input-start (
    Input-seq _ (int-Input v.xid h.xid)
      (Input-seq _ (long-Input v.zxid h.zxid) (Input-last _ (int-Input v.err h.err))))

pub Guarded-reply_header : Guarded deserialize_reply_header
unfolding deserialize_reply_header
Guarded-reply_header = Guarded-bind Guarded-start λ start.
    Guarded-bind Guarded-int
      λ xid. Guarded-bind Guarded-long λ zxid. Guarded-bind Guarded-int λ err. Guarded-last _

-- A ReplyHeader whose fields fit their words is read back as it was, when the allocator gives
-- every block whose size fits an int.
pub transfer-reply_header :
    (heap : Heap)
    → Allocates heap
    → (v : ReplyHeader) → IsReplyHeader v
    → transfer heap (serialize_reply_header heap v) deserialize_reply_header ≡ some (good v)
unfolding reply_header_bytes int_bytes long_bytes bool_bytes
transfer-reply_header heap allocates v h =
    transfer-Output-Input heap allocates (reply_header-Output heap allocates v h)
      (reply_header-Input v h) (omega arith)
