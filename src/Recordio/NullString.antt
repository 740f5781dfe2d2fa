-- ===== src/Recordio/NullString.antt =====
-- The null string in src/zk/recordio.c: what oa_serialize_string writes for it, and what
-- ia_deserialize_string makes of that.
use ext_zookeeper.Prelude.{◌≡◌, refl, none, some, [], arith}
use ext_zookeeper.Prelude.Bytes.{be}
use ext_zookeeper.Recordio.Defs.{fail, einval}
use ext_zookeeper.Recordio.Words.{negone}
use ext_zookeeper.Recordio.Ops.{Heap, drop_rc, oa_serialize_string, ia_deserialize_string}
use ext_zookeeper.Recordio.Spec.{Allocates, Writes, at}
use ext_zookeeper.Recordio.Output.{oa_serialize_int-Writes}
use ext_zookeeper.Recordio.Input.{ia_deserialize_string_null}
use ext_zookeeper.Recordio.Transfer.{transfer, transfer-Writes}

module _ (heap : Heap) (allocates : Allocates heap) where
  null_string-Writes : Writes (oa_serialize_string heap none) (be 4 negone)
  unfolding oa_serialize_string drop_rc
  null_string-Writes s o fits =
      let w = oa_serialize_int-Writes heap allocates negone s o fits in
      record {
        result = w.result;
        runs = rw (w.runs, drop_rc) refl;
        keeps = w.keeps;
        moves = w.moves;
        appends = w.appends;
      }

  -- A null string that oa_serialize_string has written to a fresh archive, with the code 0, is
  -- refused by ia_deserialize_string with EINVAL when the archive is read back, when the
  -- allocator gives every block whose size fits an int.
  pub transfer-null_string :
      transfer heap (oa_serialize_string heap none) (ia_deserialize_string heap)
      ≡ some (fail einval)
  transfer-null_string =
      transfer-Writes heap allocates (oa_serialize_string heap none) (ia_deserialize_string heap)
        (be 4 negone) (fail einval) null_string-Writes
        (λ spare. (
          at (be 4 negone) [] spare,
          ia_deserialize_string_null heap allocates [] [] spare (omega arith),
        ))
        (omega arith)
