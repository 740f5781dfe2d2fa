-- ===== src/Replies/Completing.antt =====
-- process_completions and queue_session_event of src/zk/zookeeper.c.
use ext_zookeeper.Prelude.{
  ℕ, ◌-◌, ◌^◌, Bool, false, Option, none, some, List, [], ◌∷◌, ◌==◌, not, length, map,
  if◌then◌else◌, take,
}
use ext_zookeeper.Codes.{zok, zsystemerror, session_event}
use ext_zookeeper.Recordio.{
  Heap, Rc, good, fail, BuffStruct, Archive, CString, create_buffer_iarchive,
  create_buffer_oarchive, get_buffer, get_buffer_len,
}
use ext_zookeeper.Recordio
use ext_zookeeper.Jute.Headers.{ReplyHeader, serialize_reply_header, deserialize_reply_header}
use ext_zookeeper.Jute.Events.{WatcherEvent, serialize_watcher_event, deserialize_watcher_event}
use ext_zookeeper.Watchers.{Hashtable, Call, deliver_watchers, collect_watchers}
use ext_zookeeper.Paths.{sub_string}
use ext_zookeeper.Session.{
  CompletionEntry, create_completion_entry, no_memory, aborted, created, Requests,
  queue_completion_nolock,
}
use ext_zookeeper.Client.{ZHandle, Surroundings, Parts, path_handle}
use ext_zookeeper.Replies.Defs.{
  Effect, tells, delivers, Step, pure, ◌>>=◌, ◌>>◌, get, modify, emit, demand, read_record,
}
use ext_zookeeper.Replies.Answers.{Tellings, deserialize_response}

-- WATCHER_EVENT_XID, PING_XID, AUTH_XID and SET_WATCHES_XID
abbrev pub watcher_event_xid : ℕ
watcher_event_xid = 2 ^ 32 - 1

abbrev pub ping_xid : ℕ
ping_xid = 2 ^ 32 - 2

abbrev pub auth_xid : ℕ
auth_xid = 2 ^ 32 - 4

abbrev pub set_watches_xid : ℕ
set_watches_xid = 2 ^ 32 - 8

-- process_async of src/zk/st_adaptor.c
unfoldable pub process_async : ℕ → Bool
process_async outstanding_sync = outstanding_sync == 0

-- The header and the event that queue_session_event makes up.
unfoldable pub serialize_session_event : Heap → ℕ → Archive (Unit {0})
serialize_session_event heap state =
    Recordio.◌>>◌
      (serialize_reply_header heap (record { xid = watcher_event_xid; zxid = 0; err = 0 }))
      (serialize_watcher_event heap
        (record { type = session_event; state = state; path = some [] }))

abbrev pub told : Tellings → Option (List Effect)
told none = none
told (some (calls, ia)) = some (map tells calls)

-- The bytes of the event that queue_session_event makes up: `none` when that fails.
abbrev pub event_bytes : Option (Rc (Unit {0}) × BuffStruct) → Option (Option (List ℕ))
event_bytes none = none
event_bytes (some (fail e, oa)) = some none
event_bytes (some (good u, oa)) = elim (get_buffer oa) [
  | none ↦ none
  | some block ↦ some (some (take (get_buffer_len oa) block))
]

abbrev pub session_bytes : Heap → ℕ → Option BuffStruct → Option (Option (List ℕ))
session_bytes heap state none = some none
session_bytes heap state (some oa) = event_bytes (serialize_session_event heap state oa)

module _ {ht : Hashtable} where
  abbrev pub with_requests : (Requests Parts → Requests Parts) → ZHandle ht → ZHandle ht
  with_requests f zh = record zh { requests = f zh.requests }

  -- dequeue_completion on `completions_to_process`, when it is not empty: what is left.
  abbrev pub with_waiting : List (CompletionEntry Parts) → ZHandle ht → ZHandle ht
  with_waiting next = with_requests λ r. record r { completions_to_process = next }

  -- deliverWatchers on an event. A null path is not stripped.
  abbrev pub deliver_event : WatcherEvent → CompletionEntry Parts → ZHandle ht → Option (List Call)
  deliver_event evt cptr zh = elim evt.path [
    | none ↦ none
    | some path ↦ some (
        deliver_watchers (sub_string (path_handle zh)) evt.type evt.state path
          (some cptr.watcher_result))
  ]

  -- Behind the header of an answer.
  abbrev pub complete_with :
      Heap
      → CompletionEntry Parts
      → ZHandle ht
      → Option (ReplyHeader × BuffStruct)
      → Option (List Effect)
  complete_with heap cptr zh none = none
  complete_with heap cptr zh (some (hdr, ia)) =
      if hdr.xid == watcher_event_xid
      then elim (read_record (deserialize_watcher_event heap) ia) [
        | none ↦ none
        | some (evt, ia') ↦ elim (deliver_event evt cptr zh) [
          | none ↦ none
          | some calls ↦ some (map delivers calls)
        ]
      ]
      else told (deserialize_response heap cptr.type (not (hdr.err == 0)) hdr.err cptr ia)

  -- The body of the loop of process_completions: what the program sees.
  unfoldable pub complete_one : Heap → CompletionEntry Parts → ZHandle ht → Option (List Effect)
  complete_one heap cptr zh = elim cptr.buffer [
    | none ↦ none
    | some bytes ↦ elim (create_buffer_iarchive heap (some bytes) (length bytes)) [
      | none ↦ none
      | some ia ↦ complete_with heap cptr zh (read_record deserialize_reply_header ia)
    ]
  ]

  -- `while ((cptr = dequeue_completion(&zh->completions_to_process)) != 0) { … }`
  unfoldable pub completions_loop : Heap → List (CompletionEntry Parts) → Step ht (Unit {0})
  completions_loop heap [] = modify (with_waiting [])
  completions_loop heap (cptr ∷ queue) = do
    modify (with_waiting queue)
    zh ← get
    es ← demand (complete_one heap cptr zh)
    emit es
    completions_loop heap queue

  unfoldable pub process_completions : Heap → Step ht (Unit {0})
  process_completions heap zh = completions_loop heap zh.requests.completions_to_process zh

  -- `if (process_async(zh->outstanding_sync)) process_completions(zh);`
  abbrev pub process_if_async : Heap → Step ht (Unit {0})
  process_if_async heap zh =
      if process_async zh.requests.outstanding_sync then process_completions heap zh else pure tt zh

  -- An entry for a notification. A block that is not there is written to.
  abbrev pub notification : Bool → List ℕ → ZHandle ht → ℕ → List ℕ → Option (CompletionEntry Parts)
  notification given bytes zh type path =
      elim (create_completion_entry {C = Parts} given watcher_event_xid (2 ^ 32 - 1) 0 0 none
        none) [
          | no_memory ↦ none
          | aborted ↦ none
          | created c ↦ some (record c {
            buffer = some bytes;
            watcher_result = (collect_watchers ht zh.watchers type path).1;
          })
        ]

  abbrev pub queue_notification : CompletionEntry Parts → ZHandle ht → ZHandle ht
  queue_notification c = with_requests λ r. record r {
    completions_to_process = queue_completion_nolock r.completions_to_process c false;
  }

  unfoldable pub queue_session_event : Surroundings → ℕ → Step ht ℕ
  queue_session_event env state = do
    bytes ← demand (session_bytes env.heap state (create_buffer_oarchive env.heap))
    (elim bytes [
      | none ↦ pure zsystemerror
      | some bytes ↦ do
        zh ← get
        c ← demand (
            if env.packet_given
            then notification env.entry_given bytes zh session_event []
            else none)
        modify (queue_notification c)
        process_if_async env.heap
        pure zok
    ])
