-- ===== src/Replies/Matching.antt =====
-- The answers of src/zk/zookeeper.c go to the requests in order.
use ext_zookeeper.Prelude.{
  ℕ, ◌^◌, ◌<◌, ◌≡◌, ◌≢◌, refl, sym, ap, subst, ◌∙◌, inl, inr, true, false, Option, none, some, List,
  [], ◌∷◌, ◌++◌, ◌==◌, arith, All, if◌then◌else◌, Bool-cases,
}
use mathlib.Core.List.{append-nil, append_assoc}
use ext_zookeeper.Codes.{zruntimeinconsistency, zinvalidstate}
use ext_zookeeper.Recordio.{BuffStruct}
use ext_zookeeper.Recordio.Spec.{Allocates}
use ext_zookeeper.Jute.Headers.{ReplyHeader}
use ext_zookeeper.Frames.{Packet}
use ext_zookeeper.Watchers.{Hashtable, activate_watcher}
use ext_zookeeper.Session.{CompletionEntry, dequeue_completion}
use ext_zookeeper.Session.Completions.{
  queue_completion_nolock_back, queue_completion_nolock_front, IsRequests,
}
use ext_zookeeper.Client.{ZHandle, Surroundings, Parts, state_of}
use ext_zookeeper.Replies.Defs.{
  Effect, Step, pure, undefined, after, ◌>>=◌, ◌>>◌, get, modify, demand,
}
use ext_zookeeper.Replies.Completing.{ping_xid, watcher_event_xid, auth_xid, set_watches_xid}
use ext_zookeeper.Replies.Errors.{handle_error}
use ext_zookeeper.Replies.Failing.{IsTellable}
use ext_zookeeper.Replies.Losing.{Loses, handle_error-Loses, told_effects}
use ext_zookeeper.Replies.Processing.{
  open_frame, with_sent, note_zxid, is_positive, queue_answer, put_back, match_answer,
  process_answer, dispatch, process_frame, frames_loop,
}

-- `bptr` answers `c`, an asynchronous request whose xid is none of those that the client keeps for
-- itself.
pub record Answers (env : Surroundings) (bptr : Packet) (c : CompletionEntry Parts) : Type 0 where
  pub hdr : ReplyHeader
  pub ia : BuffStruct
  pub opens : open_frame env.heap bptr ≡ some (hdr, ia)
  pub xid : c.xid ≡ hdr.xid
  pub ordinary : hdr.xid < set_watches_xid
  pub async : (c.result == env.sync_marker) ≡ false

abbrev pub AnswersAll : Surroundings → List Packet → List (CompletionEntry Parts) → Type 0
AnswersAll env [] [] = Unit {0}
AnswersAll env [] (c ∷ cs) = ⊥
AnswersAll env (b ∷ bs) [] = ⊥
AnswersAll env (b ∷ bs) (c ∷ cs) = Answers env b c × AnswersAll env bs cs

-- The requests with their answers.
abbrev pub answered : List Packet → List (CompletionEntry Parts) → List (CompletionEntry Parts)
answered [] cs = []
answered (b ∷ bs) [] = []
answered (b ∷ bs) (c ∷ cs) = record c { buffer = some b.buffer } ∷ answered bs cs

module _ {ht : Hashtable} (env : Surroundings) where
  note_zxid-requests : (zxid : ℕ) (zh : ZHandle ht) → (note_zxid zxid zh).requests ≡ zh.requests
  note_zxid-requests zxid zh = elim (Bool-cases (is_positive zxid)) [
    | inl e ↦ rw e refl
    | inr e ↦ rw e refl
  ]

  -- What one answer leaves.
  abbrev matched :
      Packet
      → ReplyHeader
      → CompletionEntry Parts
      → List (CompletionEntry Parts)
      → ZHandle ht
      → ZHandle ht
  matched b hdr c rest zh =
      queue_answer b c (record (with_sent rest zh) {
        watchers = activate_watcher ht zh.watchers c.watcher hdr.err;
      })

  dispatch_match :
      (b : Packet) (hdr : ReplyHeader) (ia : BuffStruct) (c : CompletionEntry Parts)
      (rest : List (CompletionEntry Parts)) (zh : ZHandle ht)
      → zh.requests.sent_requests ≡ c ∷ rest
      → c.xid ≡ hdr.xid
      → hdr.xid < set_watches_xid
      → (c.result == env.sync_marker) ≡ false
      → dispatch env b hdr ia zh ≡ some (none, matched b hdr c rest zh, [])
  unfolding dispatch process_answer match_answer dequeue_completion ◌>>=◌ ◌>>◌ get modify pure
  dispatch_match b hdr ia c rest zh e same small async =
      rw (not_ping, not_event, not_set, not_auth) (rw e (rw (found, match_answer) (rw async refl)))
    where
      not_ping : (hdr.xid == ping_xid) ≡ false
      not_ping = ground (arith, small)

      not_event : (hdr.xid == watcher_event_xid) ≡ false
      not_event = ground (arith, small)

      not_set : (hdr.xid == set_watches_xid) ≡ false
      not_set = ground (arith, small)

      not_auth : (hdr.xid == auth_xid) ≡ false
      not_auth = ground (arith, small)

      found : (c.xid == hdr.xid) ≡ true
      found = ground (arith, same)

  -- The handle behind some answers: the requests that they answer wait for their completions.
  pub record Matched (zh : ZHandle ht) (bs : List Packet) (cs more : List (CompletionEntry Parts))
      (o : Option (ℕ × ZHandle ht × List Effect)) : Type 0 where
    pub result : ZHandle ht
    pub goes_on : o ≡ frames_loop env [] result
    pub sent : result.requests.sent_requests ≡ more
    pub waiting :
        result.requests.completions_to_process
        ≡ zh.requests.completions_to_process ++ answered bs cs
    pub counter : result.requests.outstanding_sync ≡ zh.requests.outstanding_sync

  process_frame_match :
      (b : Packet) (c : CompletionEntry Parts) (rest : List (CompletionEntry Parts))
      (zh : ZHandle ht) (a : Answers env b c)
      → zh.requests.sent_requests ≡ c ∷ rest
      → process_frame env b zh ≡ some (none, matched b a.hdr c rest (note_zxid a.hdr.zxid zh), [])
  unfolding process_frame ◌>>=◌ ◌>>◌ modify demand
  process_frame_match b c rest zh a e =
      rw (a.opens, process_frame)
        (rw
          (
            dispatch_match b a.hdr a.ia c rest (note_zxid a.hdr.zxid zh)
                (ap (λ r. r.sent_requests) (note_zxid-requests a.hdr.zxid zh) ∙ e) a.xid a.ordinary
                a.async,
            process_frame,
          )
          refl)

  loop_step :
      (b : Packet) (bs : List Packet) (zh zh' : ZHandle ht)
      → process_frame env b (record zh { to_process = bs }) ≡ some (none, zh', [])
      → frames_loop env (b ∷ bs) zh ≡ frames_loop env bs zh'
  unfolding frames_loop ◌>>=◌ ◌>>◌ modify
  loop_step b bs zh zh' e = rw (e, frames_loop) (nothing (frames_loop env bs zh'))
    where
      nothing : (o : Option (ℕ × ZHandle ht × List Effect)) → after [] (after [] o) ≡ o
      nothing none = refl
      nothing (some (rc, z, es)) = refl

  -- When the frames that have come answer the requests at the front of sent_requests one by one,
  -- each an asynchronous request whose xid is the frame's and none that the client keeps for
  -- itself, the loop of zookeeper_process takes just these requests off, in order, queues each
  -- for its completion with the bytes of its own frame, and goes on with what is left. The
  -- requests behind them and the counter of synchronous ones stay.
  pub frames_loop-Matched :
      (bs : List Packet) (cs more : List (CompletionEntry Parts)) (zh : ZHandle ht)
      → AnswersAll env bs cs
      → zh.requests.sent_requests ≡ cs ++ more
      → Matched zh bs cs more (frames_loop env bs zh)
  frames_loop-Matched [] [] more zh h e = record {
    result = zh;
    goes_on = refl;
    sent = e;
    waiting = sym (append-nil _);
    counter = refl;
  }
  frames_loop-Matched [] (c ∷ cs) more zh h e = elim h [ ]
  frames_loop-Matched (b ∷ bs) [] more zh h e = elim h [ ]
  frames_loop-Matched (b ∷ bs) (c ∷ cs) more zh (a, h) e =
      let zh' =
        matched b a.hdr c (cs ++ more) (note_zxid a.hdr.zxid (record zh { to_process = bs })) in
      let noted = note_zxid-requests a.hdr.zxid (record zh { to_process = bs }) in
      let r = frames_loop-Matched bs cs more zh' h refl in
      record {
        result = r.result;
        goes_on =
            loop_step b bs zh zh'
              (process_frame_match b c (cs ++ more) (record zh { to_process = bs }) a e)
            ∙ r.goes_on;
        sent = r.sent;
        waiting =
            r.waiting
            ∙ ap (λ l. l ++ answered bs cs)
                (queue_completion_nolock_back _ (record c { buffer = some b.buffer })
                  ∙ ap (λ q. q.completions_to_process ++ (record c { buffer = some b.buffer } ∷ []))
                      noted)
            ∙ append_assoc zh.requests.completions_to_process
                (record c { buffer = some b.buffer } ∷ []) (answered bs cs);
        counter = r.counter ∙ ap (λ q. q.outstanding_sync) noted;
      }

  -- The request that is put back stands where it stood.
  put_back_lem :
      (c : CompletionEntry Parts) (rest : List (CompletionEntry Parts)) (zh : ZHandle ht)
      → zh.requests.sent_requests ≡ c ∷ rest
      → put_back c (with_sent rest zh) ≡ zh
  put_back_lem c rest zh e = ap (λ l. with_sent l zh) (queue_completion_nolock_front rest c ∙ sym e)

  mismatch :
      (bptr : Packet) (hdr : ReplyHeader) (ia : BuffStruct) (c : CompletionEntry Parts)
      (rest : List (CompletionEntry Parts)) (zh z : ZHandle ht) (es : List Effect)
      → zh.requests.sent_requests ≡ c ∷ rest
      → c.xid ≢ hdr.xid
      → handle_error env zruntimeinconsistency zh ≡ some (tt, z, es)
      → match_answer env bptr hdr ia c (with_sent rest zh)
        ≡ some (some zruntimeinconsistency, z, es ++ [])
  unfolding match_answer ◌>>=◌ ◌>>◌ modify pure
  mismatch bptr hdr ia c rest zh z es e apart runs =
      rw (other, match_answer)
        (rw
          (
            ap (handle_error env zruntimeinconsistency) (put_back_lem c rest zh e) ∙ runs,
            match_answer,
          )
          refl)
    where
      other : (c.xid == hdr.xid) ≡ false
      other = ground (arith, apart)

  process_answer_first :
      (bptr : Packet) (hdr : ReplyHeader) (ia : BuffStruct) (c : CompletionEntry Parts)
      (rest : List (CompletionEntry Parts)) (zh z : ZHandle ht) (code : Option ℕ) (es : List Effect)
      → zh.requests.sent_requests ≡ c ∷ rest
      → match_answer env bptr hdr ia c (with_sent rest zh) ≡ some (code, z, es)
      → process_answer env bptr hdr ia zh ≡ some (code, z, es)
  unfolding process_answer dequeue_completion ◌>>=◌ ◌>>◌ get modify
  process_answer_first bptr hdr ia c rest zh z code es e runs =
      subst
        (λ p.
          after [] (
            after [] (
              (elim p.0 as (λ x. Step ht (Option ℕ)) [
                | none ↦
                    if zh.requests.close_requested then pure (some zinvalidstate) else undefined
                | some cptr ↦ match_answer env bptr hdr ia cptr
              ])
                (with_sent p.1 zh)))
          ≡ some (code, z, es))
        (sym (ap dequeue_completion e)) (ap (λ o. after [] (after [] o)) runs)

  -- An answer whose xid is not that of the first request that waits is ZRUNTIMEINCONSISTENCY: the
  -- request is put back where it stood, and the connection is lost with this reason, so that
  -- every request is told. This holds under the conditions under which handle_error tells
  -- everybody.
  pub process_answer-Loses :
      (bptr : Packet) (hdr : ReplyHeader) (ia : BuffStruct) (c : CompletionEntry Parts)
      (rest : List (CompletionEntry Parts)) (zh : ZHandle ht)
      → Allocates env.heap
      → env.entry_given ≡ true
      → env.packet_given ≡ true
      → state_of zh < 2 ^ 32
      → zh.requests.outstanding_sync ≡ 0
      → zh.requests.completions_to_process ≡ []
      → IsRequests env.sync_marker zh.requests
      → All IsTellable zh.requests.sent_requests
      → zh.requests.sent_requests ≡ c ∷ rest
      → c.xid ≢ hdr.xid
      → (l : Loses zh zruntimeinconsistency (handle_error env zruntimeinconsistency zh))
        × (process_answer env bptr hdr ia zh
            ≡ some
                (some zruntimeinconsistency, l.result, told_effects zh zruntimeinconsistency ++ []))
  process_answer-Loses bptr hdr ia c rest zh allocates entry packet word idle empty v t e apart =
      let l =
        handle_error-Loses env allocates entry packet zh word idle empty zruntimeinconsistency
          (omega arith) (λ x. omega arith) v t in
      (
        l,
        process_answer_first bptr hdr ia c rest zh l.result _ _ e (
            mismatch bptr hdr ia c rest zh l.result (told_effects zh zruntimeinconsistency) e apart
              l.runs),
      )
