-- ===== src/Replies/Notices.antt =====
-- The frame that queue_session_event of src/zk/zookeeper.c makes up, and what process_completions
-- reads from it.
use ext_zookeeper.Prelude.{
  ℕ, ◌+◌, ◌^◌, ◌<◌, ◌≡◌, refl, ap, ap₂, subst, some, List, [], ◌++◌, length, length-append, map,
  arith,
}
use mathlib.Core.List.{append-nil}
use ext_zookeeper.Codes.{session_event}
use ext_zookeeper.Recordio.{
  Heap, BuffStruct, good, Archive, create_buffer_oarchive, create_buffer_iarchive,
}
use ext_zookeeper.Recordio.Spec.{Allocates, at}
use ext_zookeeper.Recordio.Rules.{Input, Output-seq, int_bytes, string_bytes, text_bytes}
use ext_zookeeper.Recordio.Transfer.{create-Filled}
use ext_zookeeper.Jute.Headers.{
  ReplyHeader, deserialize_reply_header, reply_header_bytes, reply_header-Output,
  reply_header-Input, IsReplyHeader,
}
use ext_zookeeper.Jute.Events.{
  WatcherEvent, IsWatcherEvent, deserialize_watcher_event, watcher_event_bytes,
  watcher_event-Output, watcher_event-Input,
}
use ext_zookeeper.Watchers.{Hashtable, foreach_watcher, deliver_watchers}
use ext_zookeeper.Session.{CompletionEntry}
use ext_zookeeper.Client.{ZHandle, Parts}
use ext_zookeeper.Replies.Defs.{delivers, read_record}
use ext_zookeeper.Replies.Completing.{
  watcher_event_xid, serialize_session_event, session_bytes, event_bytes, complete_with,
  complete_one,
}
use ext_zookeeper.Replies.Failing.{length-reply_header}

-- The header and the event.
abbrev pub event_header : ReplyHeader
event_header = record { xid = watcher_event_xid; zxid = 0; err = 0 }

abbrev pub session_event_of : ℕ → WatcherEvent
session_event_of state = record { type = session_event; state = state; path = some [] }

event_header-IsReplyHeader : IsReplyHeader event_header
event_header-IsReplyHeader = record { xid = omega arith; zxid = omega arith; err = omega arith }

session_event-IsWatcherEvent :
    (state : ℕ) → state < 2 ^ 32 → IsWatcherEvent (session_event_of state)
session_event-IsWatcherEvent state h = record {
  type = omega arith;
  state = h;
  path = (tt, omega arith);
}

abbrev pub frame_of : ℕ → List ℕ
frame_of state = reply_header_bytes event_header ++ watcher_event_bytes (session_event_of state)

short : (state : ℕ) → length (watcher_event_bytes (session_event_of state)) ≡ 12
unfolding watcher_event_bytes int_bytes string_bytes text_bytes
short state = refl

read_good :
    {A : Type 0} (g : Archive A) (s s' : BuffStruct) (a : A)
    → g s ≡ some (good a, s')
    → read_record g s ≡ some (a, s')
read_good g s s' a e = rw (e, read_record) refl

-- A record at the start of an archive is read, and the rest is left.
read_first :
    {A : Type 0} {g : Archive A} {bs : List ℕ} {a : A}
    → Input g bs a
    → (rest : List ℕ) → length (bs ++ rest) < 2 ^ 31
    → read_record g (record { len = length (bs ++ rest); off = 0; buffer = some (bs ++ rest) })
      ≡ some (a, at bs rest [])
read_first {g} {bs} {a} h rest fits = read_good g _ _ a (
    subst (λ s. g s ≡ some (good a, at bs rest []))
      (ap₂ (λ n b. record { len = n; off = 0; buffer = some b }) {x = 0 + length (bs ++ rest)}
        {y = length (bs ++ rest)} (omega arith) (append-nil (bs ++ rest)))
      (h.apply [] rest [] (omega (arith, fits))))

-- One at the end is read, and nothing is left.
read_last :
    {A : Type 0} {g : Archive A} {bs : List ℕ} {a : A}
    → Input g bs a
    → (front : List ℕ) → length front + length bs < 2 ^ 31
    → read_record g (at front bs []) ≡ some (a, at (front ++ bs) [] [])
read_last {g} {bs} {a} h front fits = read_good g _ _ a (
    subst (λ l. g (at front l []) ≡ some (good a, at (front ++ bs) [] [])) (append-nil bs)
      (h.apply front [] [] (omega (arith, fits, ap length (append-nil bs)))))

module _ (heap : Heap) (allocates : Allocates heap) (state : ℕ) (word : state < 2 ^ 32) where
  pub session_bytes_lem :
      session_bytes heap state (create_buffer_oarchive heap) ≡ some (some (frame_of state))
  unfolding serialize_session_event
  session_bytes_lem =
      let f =
        create-Filled heap allocates (serialize_session_event heap state) (frame_of state)
          (Output-seq (reply_header-Output heap allocates event_header event_header-IsReplyHeader) (
            watcher_event-Output heap allocates (session_event_of state)
              (session_event-IsWatcherEvent state word))).apply
          (omega (
            arith,
            length-append (reply_header_bytes event_header)
                (watcher_event_bytes (session_event_of state)),
            length-reply_header event_header,
            short state,
          )) in
      rw (f.made, session_bytes)
        (rw (f.runs, event_bytes) (rw (f.held, event_bytes) (ap (λ b. some (some b)) f.bytes)))

  read_event :
      read_record deserialize_reply_header
        (record { len = length (frame_of state); off = 0; buffer = some (frame_of state) })
      ≡ some (
        event_header,
        at (reply_header_bytes event_header) (watcher_event_bytes (session_event_of state)) [],
      )
  read_event =
      read_first (reply_header-Input event_header event_header-IsReplyHeader)
        (watcher_event_bytes (session_event_of state))
        (omega (
          arith,
          length-append (reply_header_bytes event_header)
              (watcher_event_bytes (session_event_of state)),
          length-reply_header event_header,
          short state,
        ))

  read_rest :
      read_record
        (deserialize_watcher_event heap)
        (at (reply_header_bytes event_header) (watcher_event_bytes (session_event_of state)) [])
      ≡ some (session_event_of state, at (frame_of state) [] [])
  read_rest =
      read_last
        (watcher_event-Input heap allocates (session_event_of state)
          (session_event-IsWatcherEvent state word))
        (reply_header_bytes event_header)
        (omega (arith, length-reply_header event_header, short state))

  open_event :
      create_buffer_iarchive heap (some (frame_of state)) (length (frame_of state))
      ≡ some (record { len = length (frame_of state); off = 0; buffer = some (frame_of state) })
  unfolding create_buffer_iarchive
  open_event = rw (allocates 80 (omega arith), allocates 16 (omega arith)) refl

  -- A notification of the session event calls its watchers.
  pub complete_one-event :
      {ht : Hashtable} (c : CompletionEntry Parts) (zh : ZHandle ht)
      → c.buffer ≡ some (frame_of state)
      → complete_one heap c zh
        ≡ some (map delivers (foreach_watcher c.watcher_result session_event state []))
  unfolding complete_one deliver_watchers
  complete_one-event c zh e =
      rw (e, complete_one)
        (rw (open_event, complete_one)
          (rw (read_event, complete_one) (rw (read_rest, complete_with) refl)))
