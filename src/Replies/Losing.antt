-- ===== src/Replies/Losing.antt =====
-- handle_error of src/zk/zookeeper.c: who is told that the connection is lost.
use ext_zookeeper.Prelude.{
  ℕ, ◌^◌, ◌<◌, ◌≡◌, ◌≢◌, refl, sym, ap, ◌∙◌, inl, inr, Bool, true, false, Option, some, List, [],
  ◌∷◌, ◌++◌, ◌==◌, map, arith, All, if◌then◌else◌, Bool-cases,
}
use mathlib.Core.List.{append-nil}
use ext_zookeeper.Codes.{connected_state, connecting_state}
use ext_zookeeper.Recordio.Spec.{Allocates}
use ext_zookeeper.Watchers.{Hashtable}
use ext_zookeeper.Auth.Completions.{awaited}
use ext_zookeeper.Session.{CompletionEntry, Requests, free_completions}
use ext_zookeeper.Session.Completions.{
  count_sync, sync_calls, response, responses, IsRequests, FreesAll, free_completions-FreesAll,
}
use ext_zookeeper.Client.{ZHandle, Surroundings, Parts, state_of}
use ext_zookeeper.Replies.Defs.{Effect, answers_auth, pure, ◌>>=◌, ◌>>◌, get, modify, emit, demand}
use ext_zookeeper.Replies.Completing.{
  process_if_async, completions_loop, with_waiting, queue_session_event,
}
use ext_zookeeper.Replies.Errors.{
  unrecoverable, cleanup_bufs, announce, ignored, reset_state, handle_error,
}
use ext_zookeeper.Replies.Failing.{IsTellable, failures, lost, completions_loop-lost}
use ext_zookeeper.Replies.Announcing.{
  announced, AnnouncedTo, announced-AnnouncedTo, process_idle, queue_session_event_lem,
}

-- Without a synchronous request, every request gets a response, and nobody is wakened.
responses-lost :
    (marker reason : ℕ) (list : List (CompletionEntry Parts))
    → count_sync marker list ≡ 0
    → responses marker reason list ≡ lost reason list
responses-lost marker reason [] h = refl
responses-lost marker reason (e ∷ list) h = elim (Bool-cases (e.result == marker)) [
  | inl s ↦ absurd (let f = rw s at h in omega (arith, f))
  | inr a ↦ rw a (ap (◌∷◌ (response reason e)) (responses-lost marker reason list (rw a at h)))
]

sync_calls-nil :
    (marker reason : ℕ) (list : List (CompletionEntry Parts))
    → count_sync marker list ≡ 0
    → sync_calls marker reason list ≡ []
sync_calls-nil marker reason [] h = refl
sync_calls-nil marker reason (e ∷ list) h = elim (Bool-cases (e.result == marker)) [
  | inl s ↦ absurd (let f = rw s at h in omega (arith, f))
  | inr a ↦ rw a (sync_calls-nil marker reason list (rw a at h))
]

-- What the watchers are told of a connection that is lost.
abbrev pub announcements : {ht : Hashtable} → ZHandle ht → List Effect
announcements zh =
    if unrecoverable zh
    then announced (state_of zh) zh
    else if state_of zh == connected_state
    then announced connecting_state zh
    else []

-- What the program sees.
abbrev pub told_effects : {ht : Hashtable} → ZHandle ht → ℕ → List Effect
told_effects zh reason =
    announcements zh
    ++ (map answers_auth (awaited reason zh.requests.auth.auth_h)
        ++ failures reason zh.requests.sent_requests)

-- handle_error has told everybody: the watchers of the lost connection, then the completions of
-- credentials, then every request, in order and once. No request, completion or frame is left.
pub record Loses {ht : Hashtable} (zh : ZHandle ht) (reason : ℕ)
    (o : Option (Unit {0} × ZHandle ht × List Effect)) : Type 0 where
  pub result : ZHandle ht
  pub runs : o ≡ some (tt, result, told_effects zh reason)
  pub watchers : (state : ℕ) → AnnouncedTo state zh (announced state zh)
  pub sent : result.requests.sent_requests ≡ []
  pub waiting : result.requests.completions_to_process ≡ []
  pub counter : result.requests.outstanding_sync ≡ 0
  pub to_send : result.to_send ≡ []
  pub to_process : result.to_process ≡ []

-- reset_state changes the state only.
record Resets {ht : Hashtable} (zh zh' : ZHandle ht) : Type 0 where
  sent : zh'.requests.sent_requests ≡ zh.requests.sent_requests
  waiting : zh'.requests.completions_to_process ≡ zh.requests.completions_to_process
  counter : zh'.requests.outstanding_sync ≡ zh.requests.outstanding_sync
  to_send : zh'.to_send ≡ zh.to_send
  to_process : zh'.to_process ≡ zh.to_process

reset_state-Resets : {ht : Hashtable} (zh : ZHandle ht) → Resets zh (reset_state zh)
reset_state-Resets zh = reset (unrecoverable zh)
  where
    reset :
        (b : Bool)
        → Resets zh (
            if b then zh else record zh {
              requests = record zh.requests { auth = record zh.requests.auth { state = 0 } };
            })
    reset true = record {
      sent = refl;
      waiting = refl;
      counter = refl;
      to_send = refl;
      to_process = refl;
    }
    reset false = record {
      sent = refl;
      waiting = refl;
      counter = refl;
      to_send = refl;
      to_process = refl;
    }

module _ {ht : Hashtable} (env : Surroundings) (allocates : Allocates env.heap)
    (entry : env.entry_given ≡ true) (packet : env.packet_given ≡ true) (zh : ZHandle ht)
    (word : state_of zh < 2 ^ 32) (idle : zh.requests.outstanding_sync ≡ 0)
    (empty : zh.requests.completions_to_process ≡ []) where
  ignored_announces :
      (state : ℕ)
      → state < 2 ^ 32
      → ignored (queue_session_event env state) zh
        ≡ some (tt, with_waiting [] zh, announced state zh)
  unfolding ◌>>=◌ pure
  ignored_announces state h =
      rw (queue_session_event_lem env allocates entry packet state zh h idle empty)
        (ap (λ es. some (tt, with_waiting [] zh, es)) (append-nil (announced state zh)))

  announce_lem : announce env zh zh ≡ some (tt, with_waiting [] zh, announcements zh)
  unfolding pure
  announce_lem = elim (Bool-cases (unrecoverable zh)) [
    | inl u ↦ rw u (ignored_announces (state_of zh) word)
    | inr r ↦ elim (Bool-cases (state_of zh == connected_state)) [
      | inl c ↦ rw (r, c) (ignored_announces connecting_state (omega arith))
      | inr d ↦ rw (r, d) (ap (λ l. some (tt, with_waiting l zh, [])) empty)
    ]
  ]

  -- The handle once free_completions has given `r`.
  abbrev emptied : Requests Parts → ZHandle ht
  emptied r = record zh { requests = r; to_send = []; to_process = [] }

  module _ (reason : ℕ) (small : reason < 2 ^ 32) (error : reason ≢ 0)
      (v : IsRequests env.sync_marker zh.requests)
      (tellable : All IsTellable zh.requests.sent_requests) where
    none_sync : count_sync env.sync_marker zh.requests.sent_requests ≡ 0
    none_sync = sym v.counts ∙ idle

    idle_requests : Requests Parts
    idle_requests = record zh.requests { completions_to_process = [] }

    freed :
        FreesAll env.sync_marker idle_requests reason
          (free_completions env.heap env.sync_marker idle_requests true reason)
    unfolding idle_requests
    freed =
        free_completions-FreesAll env.sync_marker env.heap idle_requests reason allocates small
          (record { counts = v.counts; word = v.word; xids = v.xids })

    auth_effects : List Effect
    auth_effects = map answers_auth (awaited reason zh.requests.auth.auth_h)

    cleanup_lem :
        cleanup_bufs env true reason (with_waiting [] zh)
        ≡ some (tt, emptied freed.result, auth_effects)
    unfolding cleanup_bufs ◌>>=◌ ◌>>◌ get modify emit demand idle_requests auth_effects
    cleanup_lem =
        rw (freed.runs, cleanup_bufs)
          (rw (sync_calls-nil env.sync_marker reason zh.requests.sent_requests none_sync) refl)

    left : ZHandle ht
    left = reset_state (emptied freed.result)

    told_all :
        process_if_async env.heap left
        ≡ some (tt, with_waiting [] left, failures reason zh.requests.sent_requests)
    unfolding left idle_requests
    told_all =
        let r = reset_state-Resets (emptied freed.result) in
        process_idle env.heap left (r.counter ∙ freed.none_left)
        ∙ ap (λ l. completions_loop env.heap l left)
            (r.waiting
              ∙ freed.answers
              ∙ responses-lost env.sync_marker reason zh.requests.sent_requests none_sync)
        ∙ completions_loop-lost env.heap allocates reason small error zh.requests.sent_requests left
            tellable

    -- When the connection is lost with a reason other than 0 and no synchronous request waits,
    -- handle_error tells everybody once, in this order: if the handle was connected or is
    -- unrecoverable, the watchers that are found in its tables and its own watcher, each once and
    -- no other; the completions that wait for credentials; and every request that waits for an
    -- answer, in order, with the reason and no value. No request, completion or packet is left.
    -- The state and the reason fit their words, memory is given, no completion was queued, the
    -- counter is right, and no request is a multi request, lacks its function, or has an xid that
    -- the client keeps for itself.
    pub handle_error-Loses : Loses zh reason (handle_error env reason zh)
    unfolding handle_error ◌>>=◌ ◌>>◌ get modify left auth_effects
    handle_error-Loses =
        let r = reset_state-Resets (emptied freed.result) in
        record {
          result = with_waiting [] left;
          runs =
              rw (announce_lem, handle_error)
                (rw (cleanup_lem, handle_error) (rw (told_all, handle_error) refl));
          watchers = λ state. announced-AnnouncedTo state zh;
          sent = r.sent ∙ freed.empty;
          waiting = refl;
          counter = r.counter ∙ freed.none_left;
          to_send = r.to_send;
          to_process = r.to_process;
        }
