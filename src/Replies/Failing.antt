-- ===== src/Replies/Failing.antt =====
-- How the completions of src/zk/zookeeper.c are told that a connection is lost.
use ext_zookeeper.Prelude.{
  ℕ, ◌-◌, ◌^◌, ◌<◌, ◌≡◌, ◌≢◌, refl, ap, ap₂, subst, ◌∙◌, true, false, some, List, [], ◌∷◌, ◌++◌,
  ◌==◌, not, length, arith, All,
}
use mathlib.Core.List.{append-nil}
use ext_zookeeper.Recordio.{good, Heap, BuffStruct, create_buffer_iarchive}
use ext_zookeeper.Recordio.Spec.{Allocates, at}
use ext_zookeeper.Recordio.Rules.{int_bytes, long_bytes}
use ext_zookeeper.Jute.Headers.{
  ReplyHeader, deserialize_reply_header, reply_header_bytes, reply_header-Input, IsReplyHeader,
}
use ext_zookeeper.Watchers.{Hashtable}
use ext_zookeeper.Session.{CompletionEntry, completion_multi}
use ext_zookeeper.Session.Completions.{response}
use ext_zookeeper.Client.{ZHandle, Parts}
use ext_zookeeper.Replies.Defs.{
  Effect, tells, no_value, read_record, ◌>>=◌, ◌>>◌, get, modify, emit, demand,
}
use ext_zookeeper.Replies.Answers.{tell, deserialize_simple, deserialize_response}
use ext_zookeeper.Replies.Completing.{
  watcher_event_xid, complete_one, completions_loop, with_waiting, told,
}

-- The call that tells a request an error.
abbrev pub failure : ℕ → CompletionEntry Parts → Effect
failure reason e =
    tells (record { function = e.result; rc = reason; value = no_value; context = e.contents })

-- A request that has a completion to call, and is not a multi request.
pub record IsTellable (e : CompletionEntry Parts) : Type 0 where
  pub xid : e.xid < watcher_event_xid
  pub type : e.type < completion_multi
  pub function : e.result ≢ 0

deserialize_simple_fails :
    (heap : Heap) {C : Type 0} (type rc : ℕ) (cptr : CompletionEntry C) (ia : BuffStruct)
    → type < completion_multi
    → deserialize_simple heap type true rc cptr ia ≡ tell cptr rc no_value ia
unfolding deserialize_simple
deserialize_simple_fails heap type rc cptr ia h = ground arith

-- The responses of some requests, and the calls that tell them the error.
abbrev pub lost : ℕ → List (CompletionEntry Parts) → List (CompletionEntry Parts)
lost reason [] = []
lost reason (e ∷ list) = response reason e ∷ lost reason list

abbrev pub failures : ℕ → List (CompletionEntry Parts) → List Effect
failures reason [] = []
failures reason (e ∷ list) = failure reason e ∷ failures reason list

pub length-reply_header : (v : ReplyHeader) → length (reply_header_bytes v) ≡ 16
unfolding reply_header_bytes int_bytes long_bytes
length-reply_header v = refl

-- The header of a response is read back, and then nothing is left.
pub read_response :
    (v : ReplyHeader)
    → IsReplyHeader v
    → read_record deserialize_reply_header
        (record { len = 16; off = 0; buffer = some (reply_header_bytes v) })
      ≡ some (v, at (reply_header_bytes v) [] [])
unfolding reply_header_bytes int_bytes long_bytes
read_response v h = rw (reads, read_record) refl
  where
    reads :
        deserialize_reply_header
          (record { len = 16; off = 0; buffer = some (reply_header_bytes v) })
        ≡ some (good v, at (reply_header_bytes v) [] [])
    reads =
        subst (λ s. deserialize_reply_header s ≡ some (good v, at (reply_header_bytes v) [] []))
          (ap₂ (λ n b. record { len = n; off = 0; buffer = some b })
            (ap length (append-nil (reply_header_bytes v)) ∙ length-reply_header v)
            (append-nil (reply_header_bytes v ++ []) ∙ append-nil (reply_header_bytes v)))
          ((reply_header-Input v h).apply [] [] []
            (omega (arith, length-reply_header v, ap length (append-nil (reply_header_bytes v)))))

pub open_response :
    (heap : Heap) (bytes : List ℕ)
    → Allocates heap
    → length bytes ≡ 16
    → create_buffer_iarchive heap (some bytes) (length bytes)
      ≡ some (record { len = 16; off = 0; buffer = some bytes })
unfolding create_buffer_iarchive
open_response heap bytes allocates e =
    rw (e, allocates 80 (omega arith), allocates 16 (omega arith)) refl

fails :
    (heap : Heap) (reason : ℕ)
    → reason ≢ 0
    → (cptr : CompletionEntry Parts) (ia : BuffStruct) → cptr.type < completion_multi
    → cptr.result ≢ 0
    → told (deserialize_response heap cptr.type (not (reason == 0)) reason cptr ia)
      ≡ some (failure reason cptr ∷ [])
unfolding deserialize_response tell
fails heap reason error cptr ia type function =
    rw (simple, failed, deserialize_simple_fails heap cptr.type reason cptr ia type, callable, tell)
      refl
  where
    simple : (cptr.type == completion_multi) ≡ false
    simple = ground arith

    failed : (reason == 0) ≡ false
    failed = ground arith

    callable : (cptr.result == 0) ≡ false
    callable = ground arith

module _ {ht : Hashtable} (heap : Heap) (allocates : Allocates heap) (reason : ℕ)
    (word : reason < 2 ^ 32) (error : reason ≢ 0) where
  -- A response that free_completions has made up tells its completion the error, once.
  complete_one-response :
      (e : CompletionEntry Parts) (zh : ZHandle ht)
      → IsTellable e
      → complete_one heap (response reason e) zh ≡ some (failure reason e ∷ [])
  unfolding complete_one
  complete_one-response e zh t =
      let hdr : ReplyHeader = record { xid = e.xid; zxid = 2 ^ 64 - 1; err = reason } in
      rw
        (
          open_response heap (reply_header_bytes hdr) allocates (length-reply_header hdr),
          complete_one,
        )
        (rw
          (
            read_response hdr
                (record { xid = omega (arith, t.xid); zxid = omega arith; err = word }),
            complete_one,
          )
          (rw (not_event, told_failure) refl))
    where
      not_event : (e.xid == watcher_event_xid) ≡ false
      not_event = ground (arith, t.xid)

      told_failure :
          told (
            deserialize_response heap e.type (not (reason == 0)) reason (response reason e) (
              at
                (reply_header_bytes (record { xid = e.xid; zxid = 2 ^ 64 - 1; err = reason }))
                []
                []))
          ≡ some (failure reason e ∷ [])
      told_failure = fails heap reason error (response reason e) _ t.type t.function

  -- The loop of process_completions tells each of them once, in order, and leaves none.
  pub completions_loop-lost :
      (list : List (CompletionEntry Parts)) (zh : ZHandle ht)
      → All IsTellable list
      → completions_loop heap (lost reason list) zh
        ≡ some (tt, with_waiting [] zh, failures reason list)
  unfolding completions_loop ◌>>=◌ ◌>>◌ get modify emit demand
  completions_loop-lost [] zh h = refl
  completions_loop-lost (e ∷ list) zh (t, h) =
      rw (complete_one-response e (with_waiting (lost reason list) zh) t, completions_loop)
        (rw (completions_loop-lost list (with_waiting (lost reason list) zh) h, completions_loop)
          refl)
