-- ===== src/Tests/ArchiveRuns.antt =====
-- The archives of src/zk/recordio.c.
use ext_zookeeper.Prelude.{ℕ, ◌≡◌, ◌≤◌, ◌<◌, ◌*◌, refl, none, some, [], ◌∷◌, replicate, arith}
use ext_zookeeper.Prelude.Bytes.{le, be}
use ext_zookeeper.Recordio.{
  BuffStruct, Buffer, fail, einval, grow, oa_serialize_string, ia_deserialize_string,
  ia_deserialize_buffer, zoo_htonll, le-zoo_htonll,
}
use ext_zookeeper.Recordio.Spec.{IsOpen}
use ext_zookeeper.Recordio.Growth.{grow_total}
use ext_zookeeper.Recordio.Transfer.{transfer}
use ext_zookeeper.Recordio.NullString.{transfer-null_string}
use ext_zookeeper.Recordio.Safety.{IsBounded, Contained, ia_deserialize_buffer-IsContained}
use ext_zookeeper.Tests.Heaps.{sample_heap, sample_heap-Allocates, sample_heap-Refuses}

-- A fresh output archive.
abbrev fresh : BuffStruct
fresh = record { len = 128; off = 0; buffer = some (replicate 128 0) }

fresh-IsOpen : IsOpen fresh
fresh-IsOpen = record {
  bytes = replicate 128 0;
  held = refl;
  full = refl;
  within = omega arith;
  least = omega arith;
  slack = omega arith;
}

-- A length that its bytes do not reach.
abbrev cut_short : BuffStruct
cut_short = record { len = 5; off = 0; buffer = some (0 ∷ 0 ∷ 0 ∷ 9 ∷ 1 ∷ []) }

cut_short-IsBounded : IsBounded cut_short
cut_short-IsBounded = record {
  block = 0 ∷ 0 ∷ 0 ∷ 9 ∷ 1 ∷ [];
  held = refl;
  inside = omega arith;
  within = omega arith;
  fits = omega arith;
}

abbrev two_chars : Buffer
two_chars = record { len = 2; buff = some (104 ∷ 105 ∷ []) }

grow_total_example :
    (r : ℕ) × (grow 4 128 300 ≡ some r)
    × (300 ≤ r)
    × (128 ≤ r)
    × (128 < 300 → r < 2 * 300)
    × (300 ≤ 128 → r ≡ 128)
grow_total_example = grow_total 3 128 300 (omega arith) (omega arith) (omega arith)

transfer-null_string_example :
    transfer sample_heap (oa_serialize_string sample_heap none) (ia_deserialize_string sample_heap)
    ≡ some (fail einval)
transfer-null_string_example = transfer-null_string sample_heap sample_heap-Allocates

ia_deserialize_buffer-IsContained_example : Contained (ia_deserialize_buffer sample_heap) cut_short
ia_deserialize_buffer-IsContained_example =
    ia_deserialize_buffer-IsContained sample_heap sample_heap-Refuses cut_short cut_short-IsBounded

le-zoo_htonll_example : le 8 (zoo_htonll 258) ≡ be 8 258
le-zoo_htonll_example = le-zoo_htonll 258
