-- ===== src/Replies/Keeping.antt =====
-- Errors and callbacks of src/zk/zookeeper.c keep the counter of synchronous requests right.
use ext_zookeeper.Prelude.{
  ℕ, ◌^◌, ◌<◌, ◌≡◌, refl, sym, subst, ap, ◌∙◌, Bool, true, false, Option, none, some, List, [], ◌∷◌,
  ◌==◌, arith, All, if◌then◌else◌,
}
use ext_zookeeper.Codes.{zok, zsystemerror, connected_state, connecting_state, session_event}
use ext_zookeeper.Recordio.Spec.{Allocates}
use ext_zookeeper.Watchers.{Hashtable}
use ext_zookeeper.Auth.{AuthCall}
use ext_zookeeper.Session.{CompletionEntry, Requests, Notified, free_completions}
use ext_zookeeper.Session.Completions.{count_sync, IsRequests, free_completions-FreesAll, FreesAll}
use ext_zookeeper.Client.{ZHandle, Surroundings, Parts, state_of}
use ext_zookeeper.Replies.Defs.{Step, pure, ◌>>=◌, ◌>>◌, get, modify, demand}
use ext_zookeeper.Replies.Completing.{
  completions_loop, process_completions, process_if_async, process_async, queue_session_event,
  queue_notification, notification,
}
use ext_zookeeper.Replies.Errors.{
  unrecoverable, cleanup_bufs, ignored, announce, reset_state, handle_error,
}
use ext_zookeeper.Replies.Triples.{
  Keeps, Triple-bind, Triple-seq, Triple-modify, Triple-pure, Triple-get, Keeps-get, Keeps-emit,
  Triple-demand, Keeps-demand, Triple-if, Triple-test,
}

-- The counter is right; this depends on the requests that were sent, and on the counter.
pub same_counts :
    (marker : ℕ) (r r' : Requests Parts)
    → r'.sent_requests ≡ r.sent_requests
    → r'.outstanding_sync ≡ r.outstanding_sync
    → IsRequests marker r
    → IsRequests marker r'
same_counts marker r r' e f v = record {
  counts = f ∙ v.counts ∙ ap (count_sync marker) (sym e);
  word = rw f v.word;
  xids = subst (All (λ c. c.xid < 2 ^ 32)) (sym e) v.xids;
}

-- What free_completions may give.
abbrev FreedCounts : ℕ → Option (Requests Parts × List Notified × List AuthCall) → Type 0
FreedCounts marker none = Unit {0}
FreedCounts marker (some freed) = IsRequests marker freed.0

-- free_completions leaves no request, and the counter 0.
freed_counts :
    (marker : ℕ) (zh : Requests Parts) (reason : ℕ)
    (o : Option (Requests Parts × List Notified × List AuthCall))
    → FreesAll marker zh reason o
    → FreedCounts marker o
freed_counts marker zh reason o f = subst (FreedCounts marker) (sym f.runs) (record {
  counts = f.none_left ∙ ap (count_sync marker) (sym f.empty);
  word = rw f.none_left (omega arith);
  xids = subst (All (λ c. c.xid < 2 ^ 32)) (sym f.empty) tt;
})

-- The counter of a handle is right.
abbrev pub Counted : {ht : Hashtable} → Surroundings → ZHandle ht → Type 0
Counted env zh = IsRequests env.sync_marker zh.requests

module _ {ht : Hashtable} (env : Surroundings) (allocates : Allocates env.heap) where
  -- A change of other fields keeps it.
  pub keep :
      (f : ZHandle ht → ZHandle ht)
      → ((zh : ZHandle ht) → (f zh).requests.sent_requests ≡ zh.requests.sent_requests)
      → ((zh : ZHandle ht) → (f zh).requests.outstanding_sync ≡ zh.requests.outstanding_sync)
      → Keeps (Counted {ht = ht} env) (modify f)
  keep f e g =
      Triple-modify f
        λ zh v. same_counts env.sync_marker zh.requests (f zh).requests (e zh) (g zh) v

  completions_loop-Keeps :
      (queue : List (CompletionEntry Parts))
      → Keeps (Counted {ht = ht} env) (completions_loop env.heap queue)
  unfolding completions_loop
  completions_loop-Keeps [] = keep _ (λ r. refl) (λ r. refl)
  completions_loop-Keeps (cptr ∷ queue) = Triple-seq (keep _ (λ r. refl) (λ r. refl)) (
      Triple-bind Keeps-get λ zh.
        Triple-bind (Keeps-demand _) λ es. Triple-seq (Keeps-emit _) (completions_loop-Keeps queue))

  process_completions-Keeps : Keeps (Counted {ht = ht} env) (process_completions env.heap)
  unfolding process_completions
  process_completions-Keeps = record {
    apply = λ zh v. (completions_loop-Keeps zh.requests.completions_to_process).apply zh v;
  }

  pub process_if_async-Keeps : Keeps (Counted {ht = ht} env) (process_if_async env.heap)
  process_if_async-Keeps =
      Triple-test (λ zh. process_async zh.requests.outstanding_sync) process_completions-Keeps
        (Triple-pure tt (λ zh v. v))

  queue_session_event-Keeps :
      (state : ℕ) → Keeps (Counted {ht = ht} env) (queue_session_event env state)
  unfolding queue_session_event
  queue_session_event-Keeps state = Triple-bind (Keeps-demand _) queue
    where
      queue :
          (bytes : Option (List ℕ))
          → Keeps (Counted {ht = ht} env) (elim bytes [
            | none ↦ pure zsystemerror
            | some bytes ↦ do
              zh ← get
              c ← demand (
                  if env.packet_given
                  then notification env.entry_given bytes zh session_event []
                  else none)
              modify (queue_notification c)
              process_if_async env.heap
              pure zok
          ])
      queue none = Triple-pure _ (λ zh v. v)
      queue (some bytes) = Triple-bind Keeps-get λ zh. Triple-bind (Keeps-demand _) λ c.
          Triple-seq (keep _ (λ r. refl) (λ r. refl))
            (Triple-seq process_if_async-Keeps (Triple-pure _ (λ zh v. v)))

  cleanup_bufs-Keeps :
      (reason : ℕ) → reason < 2 ^ 32 → Keeps (Counted {ht = ht} env) (cleanup_bufs env true reason)
  unfolding cleanup_bufs
  cleanup_bufs-Keeps reason word = Triple-seq (keep _ (λ r. refl) (λ r. refl)) (
      Triple-bind Triple-get λ zh.
        Triple-bind
          (Triple-demand {o = free_completions env.heap env.sync_marker zh.requests true reason})
          λ freed.
            Triple-seq {Q = λ u. (Counted {ht = ht} env)}
              (Triple-modify _ λ zh' p. subst (FreedCounts env.sync_marker) p.0 (
                freed_counts env.sync_marker zh.requests reason _ (
                  free_completions-FreesAll env.sync_marker env.heap zh.requests reason allocates
                    word (subst (Counted {ht = ht} env) (sym p.1.0) p.1.1))))
              (Triple-seq (Keeps-emit _) (Keeps-emit _)))

  announce-Keeps : (zh : ZHandle ht) → Keeps (Counted {ht = ht} env) (announce env zh)
  announce-Keeps zh =
      Triple-if (unrecoverable zh) (ignored-Keeps _ (queue_session_event-Keeps (state_of zh))) (
        Triple-if (state_of zh == connected_state)
          (ignored-Keeps _ (queue_session_event-Keeps connecting_state))
          (Triple-pure _ (λ zh v. v)))
    where
      ignored-Keeps :
          (m : Step ht ℕ)
          → Keeps (Counted {ht = ht} env) m
          → Keeps (Counted {ht = ht} env) (ignored m)
      ignored-Keeps m h = Triple-bind h λ rc. Triple-pure _ (λ zh v. v)

  reset_state-Keeps : Keeps (Counted {ht = ht} env) (modify reset_state)
  reset_state-Keeps = Triple-modify _ λ zh v. kept (unrecoverable zh) zh v
    where
      kept :
          (b : Bool) (zh : ZHandle ht)
          → (Counted {ht = ht} env) zh
          → (Counted {ht = ht} env) (
              if b then zh else record zh {
                requests = record zh.requests { auth = record zh.requests.auth { state = 0 } };
              })
      kept true zh v = v
      kept false zh v = same_counts env.sync_marker zh.requests _ refl refl v

  pub handle_error-Keeps :
      (rc : ℕ) → rc < 2 ^ 32 → Keeps (Counted {ht = ht} env) (handle_error env rc)
  unfolding handle_error
  handle_error-Keeps rc word = Triple-bind Keeps-get λ zh. Triple-seq (announce-Keeps zh) (
      Triple-seq (cleanup_bufs-Keeps rc word) (Triple-seq reset_state-Keeps process_if_async-Keeps))
