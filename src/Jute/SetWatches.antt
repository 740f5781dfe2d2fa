-- ===== src/Jute/SetWatches.antt =====
-- src/zk/zookeeper.jute.c and include/zookeeper.jute.h: the request that sets watches again.
use ext_zookeeper.Prelude.{ℕ, ◌^◌, ◌≤◌, ◌≡◌, some, List, ◌++◌, length}
use ext_zookeeper.Prelude.Bytes.{IsInt64}
use ext_zookeeper.Recordio.{
  good, Archive, ◌>>=◌, ◌>>◌, pure, Heap, oa_start_record, oa_end_record, ia_start_record,
  ia_end_record, oa_serialize_long, ia_deserialize_long,
}
use ext_zookeeper.Recordio.Spec.{Allocates}
use ext_zookeeper.Recordio.Transfer.{transfer}
use ext_zookeeper.Recordio.Rules.{
  Output, Input, Output-seq, Output-start, Output-last, Input-seq, Input-start, Input-last,
  long_bytes, long-Output, long-Input, transfer-Output-Input,
}
use ext_zookeeper.Jute.StringVectors.{
  StringVector, serialize_string_vector, deserialize_string_vector, IsStringVector,
  string_vector_bytes, string_vector-Output, string_vector-Input,
}

-- struct SetWatches
pub record SetWatches : Type 0 where
  pub relative_zxid : ℕ
  pub data_watches : StringVector
  pub exist_watches : StringVector
  pub child_watches : StringVector

unfoldable pub serialize_set_watches : Heap → SetWatches → Archive (Unit {0})
serialize_set_watches heap v = do
  oa_start_record
  oa_serialize_long heap v.relative_zxid
  serialize_string_vector heap v.data_watches
  serialize_string_vector heap v.exist_watches
  serialize_string_vector heap v.child_watches
  oa_end_record

unfoldable pub deserialize_set_watches : Heap → Archive SetWatches
deserialize_set_watches heap = do
  ia_start_record
  relative_zxid ← ia_deserialize_long
  data_watches ← deserialize_string_vector heap
  exist_watches ← deserialize_string_vector heap
  child_watches ← deserialize_string_vector heap
  ia_end_record
  pure (record {
    relative_zxid = relative_zxid;
    data_watches = data_watches;
    exist_watches = exist_watches;
    child_watches = child_watches;
  })

pub record IsSetWatches (v : SetWatches) : Type 0 where
  pub relative_zxid : IsInt64 v.relative_zxid
  pub data_watches : IsStringVector v.data_watches
  pub exist_watches : IsStringVector v.exist_watches
  pub child_watches : IsStringVector v.child_watches

unfoldable pub set_watches_bytes : SetWatches → List ℕ
set_watches_bytes v =
    long_bytes v.relative_zxid
    ++ (string_vector_bytes v.data_watches
        ++ (string_vector_bytes v.exist_watches ++ (string_vector_bytes v.child_watches)))

pub set_watches-Output :
    (heap : Heap)
    → Allocates heap
    → (v : SetWatches) → IsSetWatches v
    → Output (serialize_set_watches heap v) (set_watches_bytes v)
unfolding serialize_set_watches set_watches_bytes
set_watches-Output heap allocates v h = Output-start (
    Output-seq (long-Output heap allocates v.relative_zxid) (
      Output-seq (string_vector-Output heap allocates v.data_watches h.data_watches) (
        Output-seq (string_vector-Output heap allocates v.exist_watches h.exist_watches)
          (Output-last (string_vector-Output heap allocates v.child_watches h.child_watches)))))

pub set_watches-Input :
    (heap : Heap)
    → Allocates heap
    → (v : SetWatches) → IsSetWatches v
    → Input (deserialize_set_watches heap) (set_watches_bytes v) v
unfolding deserialize_set_watches set_watches_bytes
set_watches-Input heap allocates v h = Input-start (
    Input-seq _ (long-Input v.relative_zxid h.relative_zxid) (
      Input-seq _ (string_vector-Input heap allocates v.data_watches h.data_watches) (
        Input-seq _ (string_vector-Input heap allocates v.exist_watches h.exist_watches)
          (Input-last _ (string_vector-Input heap allocates v.child_watches h.child_watches)))))

-- A SetWatches whose zxid fits 64 bits, whose paths are text, and which takes at most 2 ^ 28
-- bytes, is read back as it was, when the allocator gives every block whose size fits an int.
pub transfer-set_watches :
    (heap : Heap)
    → Allocates heap
    → (v : SetWatches) → IsSetWatches v
    → length (set_watches_bytes v) ≤ 2 ^ 28
    → transfer heap (serialize_set_watches heap v) (deserialize_set_watches heap) ≡ some (good v)
transfer-set_watches heap allocates v h fits =
    transfer-Output-Input heap allocates (set_watches-Output heap allocates v h)
      (set_watches-Input heap allocates v h) fits
