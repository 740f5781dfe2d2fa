-- ===== src/Tests/Heaps.antt =====
-- An allocator for the tests of src/zk/recordio.c and src/zk/zookeeper.c.
use ext_zookeeper.Prelude.{ltb, replicate, length-replicate, ◌^◌, arith}
use ext_zookeeper.Recordio.{Heap}
use ext_zookeeper.Recordio.Spec.{Allocates}
use ext_zookeeper.Recordio.Safety.{Refuses}

abbrev pub sample_heap : Heap
sample_heap = record {
  can_alloc = λ n. ltb n (2 ^ 63);
  blank = λ n. replicate n 0;
  length-blank = λ n. length-replicate n 0;
}

pub sample_heap-Allocates : Allocates sample_heap
sample_heap-Allocates n h = ground arith

pub sample_heap-Refuses : Refuses sample_heap
sample_heap-Refuses n h = ground arith
