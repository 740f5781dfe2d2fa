-- ===== src/Replies/Counting.antt =====
-- The counter of synchronous requests stays their number, whatever frames come in.
use ext_zookeeper.Prelude.{
  ℕ, ◌+◌, ◌-◌, ◌%◌, ◌^◌, ◌≡◌, refl, sym, subst, ap, ◌∙◌, inl, inr, true, Option, none, some, List,
  [], ◌∷◌, ◌==◌, not, arith, if◌then◌else◌, Bool-cases,
}
use ext_zookeeper.Codes.{zauthfailed, zruntimeinconsistency, zinvalidstate}
use ext_zookeeper.Recordio.{BuffStruct, CString}
use ext_zookeeper.Recordio.Spec.{Allocates}
use ext_zookeeper.Frames.{Packet}
use ext_zookeeper.Jute.Headers.{ReplyHeader}
use ext_zookeeper.Jute.Events.{WatcherEvent}
use ext_zookeeper.Watchers.{Hashtable, collect_watchers}
use ext_zookeeper.Auth.{AuthHandle}
use ext_zookeeper.Session.{CompletionEntry, Requests, dequeue_completion}
use ext_zookeeper.Session.Completions.{IsRequests, queue_completion_nolock_front}
use ext_zookeeper.Client.{ZHandle, Surroundings, Parts}
use ext_zookeeper.Replies.Defs.{Effect, Step, pure, undefined, ◌>>=◌, ◌>>◌, get, modify, demand}
use ext_zookeeper.Replies.Completing.{
  queue_notification, notification, ping_xid, watcher_event_xid, auth_xid, set_watches_xid,
}
use ext_zookeeper.Replies.Errors.{unrecoverable}
use ext_zookeeper.Replies.Processing.{
  note_zxid, process_event, process_auth, answer_sync, match_answer, process_answer, dispatch,
  with_sent, process_frame, frames_loop, process_received, with_auth, is_positive,
}
use ext_zookeeper.Replies.Triples.{
  Ends, Triple, Keeps, Triple-bind, Triple-seq, Triple-modify, Triple-pure, Triple-undefined,
  Triple-get, Keeps-get, Keeps-emit, Keeps-demand, Triple-if, Triple-split,
}
use ext_zookeeper.Replies.Keeping.{
  same_counts, Counted, keep, process_if_async-Keeps, handle_error-Keeps,
}

module _ {ht : Hashtable} (env : Surroundings) (allocates : Allocates env.heap) where
  process_event-Keeps :
      (bptr : Packet) (o : Option (WatcherEvent × BuffStruct))
      → Keeps (Counted {ht = ht} env) (process_event env bptr o)
  unfolding process_event
  process_event-Keeps bptr none = Triple-undefined
  process_event-Keeps bptr (some (evt, ia)) = event evt.path
    where
      event :
          (path : CString)
          → Keeps {A = Option ℕ} (Counted {ht = ht} env) (elim path as (λ p. Step ht (Option ℕ)) [
            | none ↦ undefined
            | some path ↦ do
              zh ← get
              c ← demand (notification env.entry_given bptr.buffer zh evt.type path)
              modify
                  (λ zh. record zh { watchers = (collect_watchers ht zh.watchers evt.type path).0 })
              modify (queue_notification c)
              pure none
          ])
      event none = Triple-undefined
      event (some path) = Triple-bind Keeps-get λ zh. Triple-bind (Keeps-demand _) λ c.
          Triple-seq (keep env allocates _ (λ r. refl) (λ r. refl))
            (Triple-seq (keep env allocates _ (λ r. refl) (λ r. refl)) (Triple-pure _ (λ zh v. v)))

  process_auth-Keeps : (err : ℕ) → Keeps (Counted {ht = ht} env) (process_auth env err)
  unfolding process_auth
  process_auth-Keeps err = Triple-bind Keeps-get λ zh. Triple-bind (Keeps-demand _) λ told.
      Triple-seq (auth-Keeps told.0) (
        Triple-seq (Keeps-emit _) (
          Triple-bind Keeps-get λ zh'.
            Triple-if (unrecoverable zh')
              (Triple-seq (handle_error-Keeps env allocates zauthfailed (omega arith))
                (Triple-pure _ (λ zh v. v)))
              (Triple-pure _ (λ zh v. v))))
    where
      auth-Keeps : (o : Option AuthHandle) → Keeps (Counted {ht = ht} env) (modify (with_auth o))
      auth-Keeps none = Triple-modify _ (λ zh v. v)
      auth-Keeps (some auth) = keep env allocates _ (λ r. refl) (λ r. refl)

  -- The counter would be right with one more request in front.
  abbrev Owing : CompletionEntry Parts → ZHandle ht → Type 0
  Owing cptr zh =
      IsRequests env.sync_marker
        (record zh.requests { sent_requests = cptr ∷ zh.requests.sent_requests })

  answer_sync-Counted :
      (cptr : CompletionEntry Parts) (rc : ℕ) (ia : BuffStruct)
      → (cptr.result == env.sync_marker) ≡ true
      → Triple (Owing cptr) (answer_sync env cptr rc ia) (λ a. (Counted {ht = ht} env))
  unfolding answer_sync
  answer_sync-Counted cptr rc ia sync = Triple-bind Keeps-get λ zh.
      Triple-bind (Keeps-demand _) λ run. Triple-seq (Keeps-emit _) (
        Triple-seq (Keeps-emit _) (
          Triple-seq {Q = λ u. (Counted {ht = ht} env)}
            (Triple-modify _ (λ zh v. paid zh.requests v)) (Triple-pure _ (λ zh v. v))))
    where
      paid :
          (r : Requests Parts)
          → IsRequests env.sync_marker (record r { sent_requests = cptr ∷ r.sent_requests })
          → IsRequests env.sync_marker
              (record r { outstanding_sync = (r.outstanding_sync + (2 ^ 32 - 1)) % 2 ^ 32 })
      paid r v = record {
        counts = (let e = rw sync at v.counts in omega (arith, e, v.word));
        word = omega arith;
        xids = v.xids.1;
      }

  match_answer-Counted :
      (bptr : Packet) (hdr : ReplyHeader) (ia : BuffStruct) (cptr : CompletionEntry Parts)
      → Triple (Owing cptr) (match_answer env bptr hdr ia cptr) (λ a. (Counted {ht = ht} env))
  unfolding match_answer
  match_answer-Counted bptr hdr ia cptr =
      Triple-if (not (cptr.xid == hdr.xid))
        (Triple-seq {Q = λ u. (Counted {ht = ht} env)}
          (Triple-modify _ λ zh v.
            same_counts env.sync_marker _ _
              (queue_completion_nolock_front zh.requests.sent_requests cptr) refl v)
          (Triple-seq (handle_error-Keeps env allocates zruntimeinconsistency (omega arith))
            (Triple-pure _ (λ zh v. v))))
        (Triple-seq {Q = λ u. Owing cptr} (Triple-modify _ (λ zh v. v)) (
          Triple-split (cptr.result == env.sync_marker) (answer_sync-Counted cptr hdr.err ia)
            (λ async.
              Triple-seq {Q = λ u. (Counted {ht = ht} env)}
                (Triple-modify _ (λ zh v. record {
                  counts = rw async at v.counts;
                  word = v.word;
                  xids = v.xids.1;
                }))
                (Triple-pure _ (λ zh v. v)))))

  process_answer-Keeps :
      (bptr : Packet) (hdr : ReplyHeader) (ia : BuffStruct)
      → Keeps (Counted {ht = ht} env) (process_answer env bptr hdr ia)
  unfolding process_answer dequeue_completion
  process_answer-Keeps bptr hdr ia =
      Triple-bind Triple-get λ zh. first zh zh.requests.sent_requests refl
    where
      first :
          (a : ZHandle ht) (sent : List (CompletionEntry Parts))
          → a.requests.sent_requests ≡ sent
          → Triple
              (λ zh. (a ≡ zh) × (Counted {ht = ht} env) zh)
              (do
                modify (with_sent (dequeue_completion sent).1)
                (elim (dequeue_completion sent).0 [
                  | none ↦
                      if a.requests.close_requested then pure (some zinvalidstate) else undefined
                  | some cptr ↦ match_answer env bptr hdr ia cptr
                ]))
              (λ r. (Counted {ht = ht} env))
      first a [] e =
          Triple-seq {Q = λ u. (Counted {ht = ht} env)}
            (Triple-modify _ λ zh p.
              same_counts env.sync_marker zh.requests _
                (sym (ap (λ z. z.requests.sent_requests) (sym p.0) ∙ e)) refl p.1)
            (Triple-if a.requests.close_requested (Triple-pure _ (λ zh v. v)) Triple-undefined)
      first a (c ∷ rest) e =
          Triple-seq {Q = λ u. Owing c}
            (Triple-modify _ λ zh p.
              same_counts env.sync_marker zh.requests _
                (sym (ap (λ z. z.requests.sent_requests) (sym p.0) ∙ e)) refl p.1)
            (match_answer-Counted bptr hdr ia c)

  dispatch-Keeps :
      (bptr : Packet) (hdr : ReplyHeader) (ia : BuffStruct)
      → Keeps (Counted {ht = ht} env) (dispatch env bptr hdr ia)
  unfolding dispatch
  dispatch-Keeps bptr hdr ia = Triple-if (hdr.xid == ping_xid) (Triple-pure _ (λ zh v. v)) (
      Triple-if (hdr.xid == watcher_event_xid) (process_event-Keeps bptr _) (
        Triple-if (hdr.xid == set_watches_xid) (Triple-pure _ (λ zh v. v)) (
          Triple-if (hdr.xid == auth_xid) (process_auth-Keeps hdr.err)
            (process_answer-Keeps bptr hdr ia))))

  process_frame-Keeps : (bptr : Packet) → Keeps (Counted {ht = ht} env) (process_frame env bptr)
  unfolding process_frame
  process_frame-Keeps bptr =
      Triple-bind (Keeps-demand _)
        λ opened. Triple-seq (noted opened.0.zxid) (dispatch-Keeps bptr opened.0 opened.1)
    where
      noted : (zxid : ℕ) → Keeps (Counted {ht = ht} env) (modify (note_zxid zxid))
      noted zxid = Triple-modify _ λ zh v. elim (Bool-cases (is_positive zxid)) [
        | inl e ↦ rw e (same_counts env.sync_marker zh.requests _ refl refl v)
        | inr e ↦ rw e v
      ]

  ended-Keeps :
      (k : Step ht ℕ) (o : Option ℕ)
      → Keeps (Counted {ht = ht} env) k
      → Keeps {A = ℕ}
          (Counted {ht = ht} env)
          (elim o as (λ x. Step ht ℕ) [ none ↦ k | some rc ↦ pure rc ])
  ended-Keeps k none h = h
  ended-Keeps k (some rc) h = Triple-pure rc (λ zh v. v)

  frames_loop-Keeps : (queue : List Packet) → Keeps (Counted {ht = ht} env) (frames_loop env queue)
  unfolding frames_loop
  frames_loop-Keeps [] =
      Triple-seq (process_if_async-Keeps env allocates) (Triple-pure _ (λ zh v. v))
  frames_loop-Keeps (bptr ∷ queue) = Triple-seq (keep env allocates _ (λ r. refl) (λ r. refl)) (
      Triple-bind (process_frame-Keeps bptr)
        (λ o. ended-Keeps (frames_loop env queue) o (frames_loop-Keeps queue)))

  -- Whatever frames have come, when zookeeper_process returns from them, the counter of
  -- synchronous requests is still their number, and the xids still fit their words. The allocator
  -- gives every block whose size fits an int.
  pub process_received-IsRequests :
      (zh zh' : ZHandle ht) (rc : ℕ) (es : List Effect)
      → IsRequests env.sync_marker zh.requests
      → process_received env zh ≡ some (rc, zh', es)
      → IsRequests env.sync_marker zh'.requests
  unfolding process_received
  process_received-IsRequests zh zh' rc es v e =
      subst (Ends (λ a. (Counted {ht = ht} env))) e ((frames_loop-Keeps zh.to_process).apply zh v)
