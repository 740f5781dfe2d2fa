-- ===== src/Replies/Announcing.antt =====
-- queue_session_event of src/zk/zookeeper.c: from the event to the calls of the watchers.
use ext_zookeeper.Prelude.{
  ◌∷◌, ℕ, ◌-◌, ◌^◌, ◌<◌, ◌≡◌, ◌↔◌, Option, refl, sym, ap, ◌∙◌, true, false, none, some, List, [],
  map, arith, if◌then◌else◌,
}
use mathlib.Core.List.{append-nil}
use ext_zookeeper.Codes.{zok, session_event}
use ext_zookeeper.Recordio.{Heap}
use ext_zookeeper.Recordio.Spec.{Allocates}
use ext_zookeeper.Watchers.{
  Hashtable, WatcherObject, WatcherObjectList, Listed, foreach_watcher, collect_watchers,
}
use ext_zookeeper.Watchers.Lists.{Distinct}
use ext_zookeeper.Watchers.Sessions.{Told, collect_watchers-CollectsSession}
use ext_zookeeper.Session.{CompletionEntry, queue_completion_nolock, create_completion_entry}
use ext_zookeeper.Client.{ZHandle, Parts, Surroundings}
use ext_zookeeper.Replies.Defs.{Effect, delivers, pure, ◌>>=◌, ◌>>◌, get, modify, emit, demand}
use ext_zookeeper.Replies.Completing.{
  watcher_event_xid, completions_loop, process_completions, process_async, process_if_async,
  notification, queue_notification, queue_session_event, with_waiting,
}
use ext_zookeeper.Replies.Notices.{frame_of, session_bytes_lem, complete_one-event}

-- With no synchronous request outstanding, the completions are processed.
pub process_idle :
    {ht : Hashtable} (heap : Heap) (zh : ZHandle ht)
    → zh.requests.outstanding_sync ≡ 0
    → process_if_async heap zh ≡ completions_loop heap zh.requests.completions_to_process zh
unfolding process_completions process_async
process_idle heap zh idle = ap (λ b. if b then process_completions heap zh else pure tt zh) async
  where
    async : process_async zh.requests.outstanding_sync ≡ true
    async = ground arith

-- The watchers that are called when the session goes into a state.
abbrev pub announced : {ht : Hashtable} → ℕ → ZHandle ht → List Effect
announced {ht} state zh =
    map delivers
      (foreach_watcher (collect_watchers ht zh.watchers session_event []).1 session_event state [])

event_calls :
    (state : ℕ) (l : WatcherObjectList)
    → map delivers (foreach_watcher l session_event state [])
      ≡ map
          (λ w. delivers (record {
            watcher = w.watcher;
            type = session_event;
            state = state;
            path = [];
            context = w.context;
          }))
          l
unfolding foreach_watcher
event_calls state [] = refl
event_calls state (w ∷ l) =
    ap
      (◌∷◌ (
        delivers (record {
          watcher = w.watcher;
          type = session_event;
          state = state;
          path = [];
          context = w.context;
        })))
      (event_calls state l)

module _ {ht : Hashtable} where
  -- Some effects are the calls of the watchers of a handle, each once, with the session event and a
  -- state.
  pub record AnnouncedTo (state : ℕ) (zh : ZHandle ht) (effects : List Effect) : Type 0 where
    pub told : List WatcherObject
    pub calls :
        effects
        ≡ map
            (λ w. delivers (record {
              watcher = w.watcher;
              type = session_event;
              state = state;
              path = [];
              context = w.context;
            }))
            told
    pub everyone : (w : WatcherObject) → Listed w told ↔ Told ht zh.watchers w
    pub once : Distinct told

  -- What queue_session_event leaves: the handle as it was, and everybody told.
  pub record Announces (state : ℕ) (zh : ZHandle ht) (run : Option (ℕ × ZHandle ht × List Effect))
      : Type 0 where
    pub effects : List Effect
    pub result : run ≡ some (zok, zh, effects)
    pub told : AnnouncedTo state zh effects

  pub announced-AnnouncedTo :
      (state : ℕ) (zh : ZHandle ht) → AnnouncedTo state zh (announced state zh)
  announced-AnnouncedTo state zh =
      let c = collect_watchers-CollectsSession ht zh.watchers [] in
      record {
        told = (collect_watchers ht zh.watchers session_event []).1;
        calls = event_calls state (collect_watchers ht zh.watchers session_event []).1;
        everyone = c.listed;
        once = c.distinct;
      }

  unqueued : (zh : ZHandle ht) → zh.requests.completions_to_process ≡ [] → with_waiting [] zh ≡ zh
  unqueued zh e =
      ap (λ l. record zh { requests = record zh.requests { completions_to_process = l } }) (sym e)

module _ {ht : Hashtable} (env : Surroundings) (allocates : Allocates env.heap)
    (entry : env.entry_given ≡ true) (packet : env.packet_given ≡ true) where
  abbrev notice : ℕ → ZHandle ht → CompletionEntry Parts
  notice state zh = record {
    xid = watcher_event_xid;
    type = 2 ^ 32 - 1;
    result = 0;
    clist = none;
    contents = 0;
    buffer = some (frame_of state);
    watcher = none;
    watcher_result = (collect_watchers ht zh.watchers session_event []).1;
  }

  notification_lem :
      (state : ℕ) (zh : ZHandle ht)
      → (if env.packet_given
          then notification env.entry_given (frame_of state) zh session_event []
          else none)
        ≡ some (notice state zh)
  unfolding create_completion_entry
  notification_lem state zh = rw (packet, entry) refl

  process_notice :
      (state : ℕ) (zh : ZHandle ht)
      → state < 2 ^ 32
      → zh.requests.outstanding_sync ≡ 0
      → zh.requests.completions_to_process ≡ []
      → process_if_async env.heap (queue_notification (notice state zh) zh)
        ≡ some (tt, with_waiting [] zh, announced state zh)
  unfolding completions_loop ◌>>=◌ ◌>>◌ get modify emit demand queue_completion_nolock
  process_notice state zh word idle empty =
      process_idle env.heap (queue_notification (notice state zh) zh) idle
      ∙ ap (λ l. completions_loop env.heap l (queue_notification (notice state zh) zh))
          (ap (λ l. queue_completion_nolock l (notice state zh) false) empty)
      ∙ rw
          (
            complete_one-event env.heap allocates state word (notice state zh) (with_waiting [] zh)
                refl,
            completions_loop,
          )
          (ap (λ es. some (tt, with_waiting [] zh, es)) (append-nil (announced state zh)))

  pub queue_session_event_lem :
      (state : ℕ) (zh : ZHandle ht)
      → state < 2 ^ 32
      → zh.requests.outstanding_sync ≡ 0
      → zh.requests.completions_to_process ≡ []
      → queue_session_event env state zh ≡ some (zok, with_waiting [] zh, announced state zh)
  unfolding queue_session_event ◌>>=◌ ◌>>◌ get modify demand pure
  queue_session_event_lem state zh word idle empty =
      rw (session_bytes_lem env.heap allocates state word, queue_session_event)
        (rw (notification_lem state zh, queue_session_event)
          (rw (process_notice state zh word idle empty, queue_session_event)
            (ap (λ es. some (zok, with_waiting [] zh, es)) (append-nil (announced state zh)))))

  -- When no synchronous request waits and no completion is queued, queue_session_event returns
  -- ZOK, leaves the handle as it was, and calls every watcher that is found under some path in
  -- one of the three tables and the handle's own watcher, each once and no other, with its
  -- context, the session event, the state and an empty path. Memory is given, and the state fits
  -- its word.
  pub queue_session_event-Announces :
      (state : ℕ) (zh : ZHandle ht)
      → state < 2 ^ 32
      → zh.requests.outstanding_sync ≡ 0
      → zh.requests.completions_to_process ≡ []
      → Announces state zh (queue_session_event env state zh)
  queue_session_event-Announces state zh word idle empty = record {
    effects = announced state zh;
    result =
        queue_session_event_lem state zh word idle empty
        ∙ ap (λ r. some (zok, r, announced state zh)) (unqueued zh empty);
    told = announced-AnnouncedTo state zh;
  }
