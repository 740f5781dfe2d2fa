-- ===== src/Jute/Stats.antt =====
-- src/zk/zookeeper.jute.c and include/zookeeper.jute.h: the state of a node.
use ext_zookeeper.Prelude.{ℕ, ◌^◌, ◌≤◌, ◌≡◌, some, List, ◌++◌, length, arith}
use ext_zookeeper.Prelude.Bytes.{IsInt32, IsInt64}
use ext_zookeeper.Recordio.{
  good, Archive, ◌>>=◌, ◌>>◌, pure, Heap, oa_start_record, oa_end_record, ia_start_record,
  ia_end_record, oa_serialize_int, oa_serialize_long, ia_deserialize_int, ia_deserialize_long,
}
use ext_zookeeper.Recordio.Spec.{Allocates}
use ext_zookeeper.Recordio.Transfer.{transfer}
use ext_zookeeper.Recordio.Rules.{
  Output, Input, Guarded, Output-seq, Output-start, Output-last, Input-seq, Input-start, Input-last,
  Guarded-bind, Guarded-start, Guarded-last, Guarded-int, Guarded-long, int_bytes, long_bytes,
  bool_bytes, int-Output, long-Output, int-Input, long-Input, transfer-Output-Input,
}

-- struct Stat
pub record Stat : Type 0 where
  pub czxid : ℕ
  pub mzxid : ℕ
  pub ctime : ℕ
  pub mtime : ℕ
  pub version : ℕ
  pub cversion : ℕ
  pub aversion : ℕ
  pub ephemeral_owner : ℕ
  pub data_length : ℕ
  pub num_children : ℕ
  pub pzxid : ℕ

unfoldable pub serialize_stat : Heap → Stat → Archive (Unit {0})
serialize_stat heap v = do
  oa_start_record
  oa_serialize_long heap v.czxid
  oa_serialize_long heap v.mzxid
  oa_serialize_long heap v.ctime
  oa_serialize_long heap v.mtime
  oa_serialize_int heap v.version
  oa_serialize_int heap v.cversion
  oa_serialize_int heap v.aversion
  oa_serialize_long heap v.ephemeral_owner
  oa_serialize_int heap v.data_length
  oa_serialize_int heap v.num_children
  oa_serialize_long heap v.pzxid
  oa_end_record

unfoldable pub deserialize_stat : Archive Stat
deserialize_stat = do
  ia_start_record
  czxid ← ia_deserialize_long
  mzxid ← ia_deserialize_long
  ctime ← ia_deserialize_long
  mtime ← ia_deserialize_long
  version ← ia_deserialize_int
  cversion ← ia_deserialize_int
  aversion ← ia_deserialize_int
  ephemeral_owner ← ia_deserialize_long
  data_length ← ia_deserialize_int
  num_children ← ia_deserialize_int
  pzxid ← ia_deserialize_long
  ia_end_record
  pure (record {
    czxid = czxid;
    mzxid = mzxid;
    ctime = ctime;
    mtime = mtime;
    version = version;
    cversion = cversion;
    aversion = aversion;
    ephemeral_owner = ephemeral_owner;
    data_length = data_length;
    num_children = num_children;
    pzxid = pzxid;
  })

pub record IsStat (v : Stat) : Type 0 where
  pub czxid : IsInt64 v.czxid
  pub mzxid : IsInt64 v.mzxid
  pub ctime : IsInt64 v.ctime
  pub mtime : IsInt64 v.mtime
  pub version : IsInt32 v.version
  pub cversion : IsInt32 v.cversion
  pub aversion : IsInt32 v.aversion
  pub ephemeral_owner : IsInt64 v.ephemeral_owner
  pub data_length : IsInt32 v.data_length
  pub num_children : IsInt32 v.num_children
  pub pzxid : IsInt64 v.pzxid

unfoldable pub stat_bytes : Stat → List ℕ
stat_bytes v =
    long_bytes v.czxid
    ++ (long_bytes v.mzxid
        ++ (long_bytes v.ctime
            ++ (long_bytes v.mtime
                ++ (int_bytes v.version
                    ++ (int_bytes v.cversion
                        ++ (int_bytes v.aversion
                            ++ (long_bytes v.ephemeral_owner
                                ++ (int_bytes v.data_length
                                    ++ (int_bytes v.num_children ++ (long_bytes v.pzxid))))))))))

pub stat-Output :
    (heap : Heap)
    → Allocates heap
    → (v : Stat) → IsStat v
    → Output (serialize_stat heap v) (stat_bytes v)
unfolding serialize_stat stat_bytes
stat-Output heap allocates v h = Output-start (
    Output-seq (long-Output heap allocates v.czxid) (
      Output-seq (long-Output heap allocates v.mzxid) (
        Output-seq (long-Output heap allocates v.ctime) (
          Output-seq (long-Output heap allocates v.mtime) (
            Output-seq (int-Output heap allocates v.version) (
              Output-seq (int-Output heap allocates v.cversion) (
                Output-seq (int-Output heap allocates v.aversion) (
                  Output-seq (long-Output heap allocates v.ephemeral_owner) (
                    Output-seq (int-Output heap allocates v.data_length) (
                      Output-seq (int-Output heap allocates v.num_children)
                        (Output-last (long-Output heap allocates v.pzxid))))))))))))

pub stat-Input : (v : Stat) → IsStat v → Input deserialize_stat (stat_bytes v) v
unfolding deserialize_stat stat_bytes
stat-Input v h = Input-start (
    Input-seq _ (long-Input v.czxid h.czxid) (
      Input-seq _ (long-Input v.mzxid h.mzxid) (
        Input-seq _ (long-Input v.ctime h.ctime) (
          Input-seq _ (long-Input v.mtime h.mtime) (
            Input-seq _ (int-Input v.version h.version) (
              Input-seq _ (int-Input v.cversion h.cversion) (
                Input-seq _ (int-Input v.aversion h.aversion) (
                  Input-seq _ (long-Input v.ephemeral_owner h.ephemeral_owner) (
                    Input-seq _ (int-Input v.data_length h.data_length) (
                      Input-seq _ (int-Input v.num_children h.num_children)
                        (Input-last _ (long-Input v.pzxid h.pzxid))))))))))))

pub Guarded-stat : Guarded deserialize_stat
unfolding deserialize_stat
Guarded-stat = Guarded-bind Guarded-start λ start. Guarded-bind Guarded-long λ czxid.
    Guarded-bind Guarded-long λ mzxid. Guarded-bind Guarded-long λ ctime.
      Guarded-bind Guarded-long λ mtime. Guarded-bind Guarded-int λ version.
        Guarded-bind Guarded-int λ cversion. Guarded-bind Guarded-int λ aversion.
          Guarded-bind Guarded-long λ ephemeral_owner. Guarded-bind Guarded-int λ data_length.
            Guarded-bind Guarded-int
              λ num_children. Guarded-bind Guarded-long λ pzxid. Guarded-last _

-- A Stat whose fields fit their words is read back as it was, when the allocator gives every
-- block whose size fits an int.
pub transfer-stat :
    (heap : Heap)
    → Allocates heap
    → (v : Stat) → IsStat v
    → transfer heap (serialize_stat heap v) deserialize_stat ≡ some (good v)
unfolding stat_bytes int_bytes long_bytes bool_bytes
transfer-stat heap allocates v h =
    transfer-Output-Input heap allocates (stat-Output heap allocates v h) (stat-Input v h)
      (omega arith)

-- struct SetDataResponse
pub record SetDataResponse : Type 0 where
  pub stat : Stat

unfoldable pub serialize_set_data_response : Heap → SetDataResponse → Archive (Unit {0})
serialize_set_data_response heap v = do oa_start_record; serialize_stat heap v.stat; oa_end_record

unfoldable pub deserialize_set_data_response : Archive SetDataResponse
deserialize_set_data_response = do
  ia_start_record
  stat ← deserialize_stat
  ia_end_record
  pure (record { stat = stat })

pub record IsSetDataResponse (v : SetDataResponse) : Type 0 where
  pub stat : IsStat v.stat

unfoldable pub set_data_response_bytes : SetDataResponse → List ℕ
set_data_response_bytes v = stat_bytes v.stat

pub set_data_response-Output :
    (heap : Heap)
    → Allocates heap
    → (v : SetDataResponse) → IsSetDataResponse v
    → Output (serialize_set_data_response heap v) (set_data_response_bytes v)
unfolding serialize_set_data_response set_data_response_bytes
set_data_response-Output heap allocates v h =
    Output-start (Output-last (stat-Output heap allocates v.stat h.stat))

pub set_data_response-Input :
    (v : SetDataResponse)
    → IsSetDataResponse v
    → Input deserialize_set_data_response (set_data_response_bytes v) v
unfolding deserialize_set_data_response set_data_response_bytes
set_data_response-Input v h = Input-start (Input-last _ (stat-Input v.stat h.stat))

pub Guarded-set_data_response : Guarded deserialize_set_data_response
unfolding deserialize_set_data_response
Guarded-set_data_response =
    Guarded-bind Guarded-start λ start. Guarded-bind Guarded-stat λ stat. Guarded-last _

-- A SetDataResponse written by the one side is read back by the other.
pub transfer-set_data_response :
    (heap : Heap)
    → Allocates heap
    → (v : SetDataResponse) → IsSetDataResponse v
    → length (set_data_response_bytes v) ≤ 2 ^ 28
    → transfer heap (serialize_set_data_response heap v) deserialize_set_data_response
      ≡ some (good v)
transfer-set_data_response heap allocates v h fits =
    transfer-Output-Input heap allocates (set_data_response-Output heap allocates v h)
      (set_data_response-Input v h) fits
