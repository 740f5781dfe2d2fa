-- ===== src/Jute/Events.antt =====
-- src/zk/zookeeper.jute.c and include/zookeeper.jute.h: the responses with a path and the event.
use ext_zookeeper.Prelude.{ℕ, ◌^◌, ◌≤◌, ◌≡◌, some, List, ◌++◌, length}
use ext_zookeeper.Prelude.Bytes.{IsInt32}
use ext_zookeeper.Recordio.{
  good, Archive, ◌>>=◌, ◌>>◌, pure, Heap, CString, oa_start_record, oa_end_record, ia_start_record,
  ia_end_record, oa_serialize_int, oa_serialize_string, ia_deserialize_int, ia_deserialize_string,
}
use ext_zookeeper.Recordio.Spec.{Allocates}
use ext_zookeeper.Recordio.Safety.{Refuses}
use ext_zookeeper.Recordio.Transfer.{transfer}
use ext_zookeeper.Recordio.Rules.{
  Output, Input, Guarded, IsString, Output-seq, Output-start, Output-last, Input-seq, Input-start,
  Input-last, Guarded-bind, Guarded-start, Guarded-last, Guarded-int, Guarded-string, int_bytes,
  string_bytes, int-Output, string-Output, int-Input, string-Input, transfer-Output-Input,
}

-- struct CreateResponse
pub record CreateResponse : Type 0 where
  pub path : CString

unfoldable pub serialize_create_response : Heap → CreateResponse → Archive (Unit {0})
serialize_create_response heap v = do
  oa_start_record
  oa_serialize_string heap v.path
  oa_end_record

unfoldable pub deserialize_create_response : Heap → Archive CreateResponse
deserialize_create_response heap = do
  ia_start_record
  path ← ia_deserialize_string heap
  ia_end_record
  pure (record { path = path })

pub record IsCreateResponse (v : CreateResponse) : Type 0 where
  pub path : IsString v.path

unfoldable pub create_response_bytes : CreateResponse → List ℕ
create_response_bytes v = string_bytes v.path

pub create_response-Output :
    (heap : Heap)
    → Allocates heap
    → (v : CreateResponse) → IsCreateResponse v
    → Output (serialize_create_response heap v) (create_response_bytes v)
unfolding serialize_create_response create_response_bytes
create_response-Output heap allocates v h =
    Output-start (Output-last (string-Output heap allocates v.path h.path))

pub create_response-Input :
    (heap : Heap)
    → Allocates heap
    → (v : CreateResponse) → IsCreateResponse v
    → Input (deserialize_create_response heap) (create_response_bytes v) v
unfolding deserialize_create_response create_response_bytes
create_response-Input heap allocates v h =
    Input-start (Input-last _ (string-Input heap allocates v.path h.path))

pub Guarded-create_response :
    (heap : Heap) → Refuses heap → Guarded (deserialize_create_response heap)
unfolding deserialize_create_response
Guarded-create_response heap refuses =
    Guarded-bind Guarded-start
      λ start. Guarded-bind (Guarded-string heap refuses) λ path. Guarded-last _

-- A CreateResponse written by the one side is read back by the other.
pub transfer-create_response :
    (heap : Heap)
    → Allocates heap
    → (v : CreateResponse) → IsCreateResponse v
    → length (create_response_bytes v) ≤ 2 ^ 28
    → transfer heap (serialize_create_response heap v) (deserialize_create_response heap)
      ≡ some (good v)
transfer-create_response heap allocates v h fits =
    transfer-Output-Input heap allocates (create_response-Output heap allocates v h)
      (create_response-Input heap allocates v h) fits

-- struct WatcherEvent
pub record WatcherEvent : Type 0 where
  pub type : ℕ
  pub state : ℕ
  pub path : CString

unfoldable pub serialize_watcher_event : Heap → WatcherEvent → Archive (Unit {0})
serialize_watcher_event heap v = do
  oa_start_record
  oa_serialize_int heap v.type
  oa_serialize_int heap v.state
  oa_serialize_string heap v.path
  oa_end_record

unfoldable pub deserialize_watcher_event : Heap → Archive WatcherEvent
deserialize_watcher_event heap = do
  ia_start_record
  type ← ia_deserialize_int
  state ← ia_deserialize_int
  path ← ia_deserialize_string heap
  ia_end_record
  pure (record { type = type; state = state; path = path })

pub record IsWatcherEvent (v : WatcherEvent) : Type 0 where
  pub type : IsInt32 v.type
  pub state : IsInt32 v.state
  pub path : IsString v.path

unfoldable pub watcher_event_bytes : WatcherEvent → List ℕ
watcher_event_bytes v = int_bytes v.type ++ (int_bytes v.state ++ (string_bytes v.path))

pub watcher_event-Output :
    (heap : Heap)
    → Allocates heap
    → (v : WatcherEvent) → IsWatcherEvent v
    → Output (serialize_watcher_event heap v) (watcher_event_bytes v)
unfolding serialize_watcher_event watcher_event_bytes
watcher_event-Output heap allocates v h = Output-start (
    Output-seq (int-Output heap allocates v.type) (
      Output-seq (int-Output heap allocates v.state)
        (Output-last (string-Output heap allocates v.path h.path))))

pub watcher_event-Input :
    (heap : Heap)
    → Allocates heap
    → (v : WatcherEvent) → IsWatcherEvent v
    → Input (deserialize_watcher_event heap) (watcher_event_bytes v) v
unfolding deserialize_watcher_event watcher_event_bytes
watcher_event-Input heap allocates v h = Input-start (
    Input-seq _ (int-Input v.type h.type) (
      Input-seq _ (int-Input v.state h.state)
        (Input-last _ (string-Input heap allocates v.path h.path))))

-- On any input, deserialize_WatcherEvent reads inside the block only and leaves the archive as
-- sound as it was, when the allocator refuses 2 ^ 63 bytes and more.
pub Guarded-watcher_event : (heap : Heap) → Refuses heap → Guarded (deserialize_watcher_event heap)
unfolding deserialize_watcher_event
Guarded-watcher_event heap refuses = Guarded-bind Guarded-start λ start.
    Guarded-bind Guarded-int λ type.
      Guarded-bind Guarded-int
        λ state. Guarded-bind (Guarded-string heap refuses) λ path. Guarded-last _

-- A WatcherEvent whose numbers fit 32 bits, whose path is text, and which takes at most 2 ^ 28
-- bytes, is read back as it was, when the allocator gives every block whose size fits an int.
pub transfer-watcher_event :
    (heap : Heap)
    → Allocates heap
    → (v : WatcherEvent) → IsWatcherEvent v
    → length (watcher_event_bytes v) ≤ 2 ^ 28
    → transfer heap (serialize_watcher_event heap v) (deserialize_watcher_event heap)
      ≡ some (good v)
transfer-watcher_event heap allocates v h fits =
    transfer-Output-Input heap allocates (watcher_event-Output heap allocates v h)
      (watcher_event-Input heap allocates v h) fits
