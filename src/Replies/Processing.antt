-- ===== src/Replies/Processing.antt =====
-- The loop of zookeeper_process of src/zk/zookeeper.c over the frames that have come in.
use ext_zookeeper.Prelude.{
  ℕ, ◌+◌, ◌-◌, ◌%◌, ◌^◌, Bool, true, false, Option, none, some, List, [], ◌∷◌, ◌==◌, ◌&&◌, not, ltb,
  map, if◌then◌else◌,
}
use ext_zookeeper.Codes.{zok, zinvalidstate, zauthfailed, zruntimeinconsistency}
use ext_zookeeper.Recordio.{Heap, BuffStruct, create_buffer_iarchive}
use ext_zookeeper.Jute.Headers.{ReplyHeader, deserialize_reply_header}
use ext_zookeeper.Jute.Events.{WatcherEvent, deserialize_watcher_event}
use ext_zookeeper.Frames.{Packet}
use ext_zookeeper.Watchers.{Hashtable, activate_watcher, collect_watchers}
use ext_zookeeper.Auth.{AuthHandle, auth_completion_func}
use ext_zookeeper.Session.{CompletionEntry, dequeue_completion, queue_completion_nolock}
use ext_zookeeper.Client.{ZHandle, Surroundings, Parts, path_handle}
use ext_zookeeper.Replies.Defs.{
  tells, wakes, answers_auth, Step, pure, undefined, ◌>>=◌, ◌>>◌, get, modify, emit, demand,
  read_record,
}
use ext_zookeeper.Replies.Completing.{
  watcher_event_xid, ping_xid, auth_xid, set_watches_xid, with_requests, notification,
  queue_notification, process_if_async,
}
use ext_zookeeper.Replies.Sync.{process_sync_completion}
use ext_zookeeper.Replies.Errors.{unrecoverable, handle_error}

-- `zxid > 0` for a word of 64 bits
abbrev pub is_positive : ℕ → Bool
is_positive zxid = ltb 0 zxid && ltb zxid (2 ^ 63)

-- The header of a frame, and the archive behind it. The archive is as long as `curr_offset` says,
-- which counts the four bytes of the length too.
unfoldable pub open_frame : Heap → Packet → Option (ReplyHeader × BuffStruct)
open_frame heap bptr = elim (create_buffer_iarchive heap (some bptr.buffer) bptr.curr_offset) [
  | none ↦ none
  | some ia ↦ read_record deserialize_reply_header ia
]

module _ {ht : Hashtable} where
  abbrev pub with_sent : List (CompletionEntry Parts) → ZHandle ht → ZHandle ht
  with_sent sent = with_requests λ r. record r { sent_requests = sent }

  abbrev pub with_auth : Option AuthHandle → ZHandle ht → ZHandle ht
  with_auth none zh = zh
  with_auth (some auth) zh = record zh { requests = record zh.requests { auth = auth } }

  -- `if (hdr.zxid > 0) zh->last_zxid = hdr.zxid;`
  abbrev pub note_zxid : ℕ → ZHandle ht → ZHandle ht
  note_zxid zxid zh = if is_positive zxid then record zh { last_zxid = zxid } else zh

  -- A notification. Its path is not null when it can be read.
  unfoldable pub process_event :
      Surroundings → Packet → Option (WatcherEvent × BuffStruct) → Step ht (Option ℕ)
  process_event env bptr none = undefined
  process_event env bptr (some (evt, ia)) = elim evt.path [
    | none ↦ undefined
    | some path ↦ do
      zh ← get
      c ← demand (notification env.entry_given bptr.buffer zh evt.type path)
      modify (λ zh. record zh { watchers = (collect_watchers ht zh.watchers evt.type path).0 })
      modify (queue_notification c)
      pure none
  ]

  -- The answer to credentials.
  unfoldable pub process_auth : Surroundings → ℕ → Step ht (Option ℕ)
  process_auth env err = do
    zh ← get
    told ← demand (auth_completion_func err (some zh.requests.auth))
    modify (with_auth told.0)
    emit (map answers_auth told.1)
    zh' ← get
    (if unrecoverable zh'
        then (do handle_error env zauthfailed; pure (some zauthfailed))
        else pure none)

  -- The answer to a synchronous request.
  unfoldable pub answer_sync :
      Surroundings → CompletionEntry Parts → ℕ → BuffStruct → Step ht (Option ℕ)
  answer_sync env cptr rc ia = do
    zh ← get
    run ←
        demand
          (process_sync_completion env.heap (env.room cptr.contents) cptr rc (path_handle zh) ia)
    emit (map tells run.2)
    emit (wakes cptr.contents run.0 run.1 ∷ [])
    modify (
        with_requests
          λ r. record r { outstanding_sync = (r.outstanding_sync + (2 ^ 32 - 1)) % 2 ^ 32 })
    pure none

  -- The answer to an asynchronous request waits for its completion.
  abbrev pub queue_answer : Packet → CompletionEntry Parts → ZHandle ht → ZHandle ht
  queue_answer bptr cptr = with_requests λ r. record r {
    completions_to_process =
        queue_completion_nolock r.completions_to_process (record cptr { buffer = some bptr.buffer })
          false;
  }

  abbrev pub put_back : CompletionEntry Parts → ZHandle ht → ZHandle ht
  put_back cptr =
      with_requests
        λ r. record r { sent_requests = queue_completion_nolock r.sent_requests cptr true }

  -- Once the request of an answer is off the queue.
  unfoldable pub match_answer :
      Surroundings → Packet → ReplyHeader → BuffStruct → CompletionEntry Parts → Step ht (Option ℕ)
  match_answer env bptr hdr ia cptr =
      if not (cptr.xid == hdr.xid)
      then (do
        modify (put_back cptr)
        handle_error env zruntimeinconsistency
        pure (some zruntimeinconsistency))
      else (do
        modify (λ zh. record zh { watchers = activate_watcher ht zh.watchers cptr.watcher hdr.err })
        (if cptr.result == env.sync_marker
            then answer_sync env cptr hdr.err ia
            else (do modify (queue_answer bptr cptr); pure none)))

  -- The request at the head of the queue is the one that is answered. Without one the handle must be
  -- closing.
  unfoldable pub process_answer :
      Surroundings → Packet → ReplyHeader → BuffStruct → Step ht (Option ℕ)
  process_answer env bptr hdr ia = do
    zh ← get
    modify (with_sent (dequeue_completion zh.requests.sent_requests).1)
    (elim (dequeue_completion zh.requests.sent_requests).0 [
      | none ↦ if zh.requests.close_requested then pure (some zinvalidstate) else undefined
      | some cptr ↦ match_answer env bptr hdr ia cptr
    ])

  -- A frame behind its header: `none` when the loop goes on, or what zookeeper_process returns.
  unfoldable pub dispatch : Surroundings → Packet → ReplyHeader → BuffStruct → Step ht (Option ℕ)
  dispatch env bptr hdr ia =
      if hdr.xid == ping_xid
      then pure none
      else if hdr.xid == watcher_event_xid
      then process_event env bptr (read_record (deserialize_watcher_event env.heap) ia)
      else if hdr.xid == set_watches_xid
      then pure none
      else if hdr.xid == auth_xid
      then process_auth env hdr.err
      else process_answer env bptr hdr ia

  unfoldable pub process_frame : Surroundings → Packet → Step ht (Option ℕ)
  process_frame env bptr = do
    opened ← demand (open_frame env.heap bptr)
    modify (note_zxid opened.0.zxid)
    dispatch env bptr opened.0 opened.1

  -- `while (rc >= 0 && (bptr=dequeue_buffer(&zh->to_process))) { … }`, and the end of
  -- zookeeper_process.
  unfoldable pub frames_loop : Surroundings → List Packet → Step ht ℕ
  frames_loop env [] = do process_if_async env.heap; pure zok
  frames_loop env (bptr ∷ queue) = do
    modify (λ zh. record zh { to_process = queue })
    ended ← process_frame env bptr
    (elim ended [ none ↦ frames_loop env queue | some rc ↦ pure rc ])

  -- zookeeper_process behind check_events. The count of calls in progress is not part of the handle
  -- here.
  unfoldable pub process_received : Surroundings → Step ht ℕ
  process_received env zh = frames_loop env zh.to_process zh
