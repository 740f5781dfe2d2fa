-- ===== src/Replies/Closing.antt =====
-- zookeeper_close and destroy of src/zk/zookeeper.c, with the single-threaded adaptor. What is freed
-- is not looked at any more.
use ext_zookeeper.Prelude.{
  ℕ, ◌≡◌, refl, ap, subst, ◌∙◌, true, Option, none, some, List, [], ◌++◌, map, leb, ◌==◌,
  if◌then◌else◌, arith, Bool-cases, inl, inr,
}
use mathlib.Core.List.{append-nil}
use ext_zookeeper.Codes.{zok, zmarshallingerror, zclosing, connected_state, zoo_close_op}
use ext_zookeeper.Recordio.{
  Rc, good, fail, BuffStruct, is_neg, create_buffer_oarchive, get_buffer, get_buffer_len,
}
use ext_zookeeper.Recordio.Spec.{Allocates}
use ext_zookeeper.Jute.Headers.{serialize_request_header}
use ext_zookeeper.Frames.{Packet, Flushed, flush_send_queue}
use ext_zookeeper.Watchers.{Hashtable}
use ext_zookeeper.Session.{free_completions}
use ext_zookeeper.Session.Completions.{
  IsRequests, FreesAll, free_completions-FreesAll, sync_calls, responses,
}
use ext_zookeeper.Auth.Completions.{awaited}
use ext_zookeeper.Client.{
  ZHandle, Surroundings, Run, header, state_of, queue_buffer_bytes, adaptor_send_queue,
}
use ext_zookeeper.Replies.Defs.{
  Effect, answers_auth, Step, pure, after, next, ◌>>=◌, ◌>>◌, get, modify, emit, demand,
}
use ext_zookeeper.Replies.Errors.{woken, cleanup_bufs}

module _ {ht : Hashtable} (env : Surroundings) where
  -- Once the request is serialized with a code: what is returned, and what went out.
  abbrev pub flush_close : ZHandle ht → Option (ℕ × List Packet) → Run ht
  flush_close zh none = none
  flush_close zh (some (rc, queue)) =
      if is_neg rc
      then some (zmarshallingerror, zh, [])
      else adaptor_send_queue env.events 3000 (record zh { to_send = queue })

  abbrev pub queue_close : ZHandle ht → Option (Rc (Unit {0}) × BuffStruct) → Run ht
  queue_close zh none = none
  queue_close zh (some (fail e, oa)) = some (zmarshallingerror, zh, [])
  queue_close zh (some (good u, oa)) =
      flush_close zh
        (queue_buffer_bytes env.packet_given zh.to_send (get_buffer oa) (get_buffer_len oa))

  -- `if(zh->state==ZOO_CONNECTED_STATE){ … }else{ … }`
  unfoldable pub send_close : ℕ → ZHandle ht → Run ht
  send_close xid zh =
      if state_of zh == connected_state
      then elim (create_buffer_oarchive env.heap) [
        | none ↦ none
        | some oa ↦ queue_close zh (serialize_request_header env.heap (header xid zoo_close_op) oa)
      ]
      else some (zok, zh, [])

  abbrev pub as_step : Run ht → Option ((ℕ × List ℕ) × ZHandle ht × List Effect)
  as_step none = none
  as_step (some (rc, zh, out)) = some ((rc, out), zh, [])

  -- free_completions as a step.
  unfoldable pub free_step : ℕ → Step ht (Unit {0})
  free_step reason = do
    zh ← get
    freed ← demand (free_completions env.heap env.sync_marker zh.requests true reason)
    modify (λ zh. record zh { requests = freed.0 })
    emit (map woken freed.1)
    emit (map answers_auth freed.2)

  abbrev pub request_close : ZHandle ht → ZHandle ht
  request_close zh = record zh { requests = record zh.requests { close_requested = true } }

  -- The code and the bytes that went out. `calls` is ref_counter: the calls in progress.
  unfoldable pub zookeeper_close : ℕ → ℕ → Step ht (ℕ × List ℕ)
  zookeeper_close xid calls = do
    modify request_close
    (if leb 1 calls then (do free_step zclosing; pure (zok, [])) else (do
      sent ← (λ zh. as_step (send_close xid zh))
      cleanup_bufs env true zclosing
      pure sent))

  -- What closing tells: synchronous callers are wakened, and the completions of credentials called.
  -- The other requests are left in the queue, with an answer that nobody processes.
  pub record Closes (zh zh' : ZHandle ht) (es : List Effect) : Type 0 where
    pub told :
        es
        ≡ map woken (sync_calls env.sync_marker zclosing zh.requests.sent_requests)
          ++ map answers_auth (awaited zclosing zh.requests.auth.auth_h)
    pub sent : zh'.requests.sent_requests ≡ []
    pub dropped :
        zh'.requests.completions_to_process
        ≡ zh.requests.completions_to_process
          ++ responses env.sync_marker zclosing zh.requests.sent_requests

  abbrev ClosesIf : ZHandle ht → Option ((ℕ × List ℕ) × ZHandle ht × List Effect) → Type 0
  ClosesIf zh none = Unit {0}
  ClosesIf zh (some (r, zh', es)) = Closes zh zh' es

  -- A run that leaves the requests alone.
  abbrev Spares : ZHandle ht → Run ht → Type 0
  Spares zh none = Unit {0}
  Spares zh (some (rc, zh', out)) = zh'.requests ≡ zh.requests

  module _ (allocates : Allocates env.heap) (zh : ZHandle ht)
      (v : IsRequests env.sync_marker zh.requests) where
    abbrev freed :
        FreesAll env.sync_marker
          (request_close zh).requests
          zclosing
          (free_completions env.heap env.sync_marker (request_close zh).requests true zclosing)
    freed =
        free_completions-FreesAll env.sync_marker env.heap (request_close zh).requests zclosing
          allocates (omega arith) (record { counts = v.counts; word = v.word; xids = v.xids })

    abbrev closing_effects : List Effect
    closing_effects =
        map woken (sync_calls env.sync_marker zclosing zh.requests.sent_requests)
        ++ map answers_auth (awaited zclosing zh.requests.auth.auth_h)

    freed-Closes :
        (z : ZHandle ht) → z.requests ≡ freed.result → Closes zh z (closing_effects ++ [])
    freed-Closes z e = record {
      told = append-nil closing_effects;
      sent = ap (λ q. q.sent_requests) e ∙ freed.empty;
      dropped = ap (λ q. q.completions_to_process) e ∙ freed.answers;
    }

    Spares-close : (xid : ℕ) → Spares (request_close zh) (send_close xid (request_close zh))
    unfolding send_close adaptor_send_queue
    Spares-close xid = elim (Bool-cases (state_of zh == connected_state)) [
      | inr other ↦ rw other refl
      | inl connected ↦ rw connected (archived (create_buffer_oarchive env.heap))
    ]
      where
        flushed :
            (o : Option Flushed)
            → Spares (request_close zh) (elim o as (λ x. Run ht) [
              | none ↦ none
              | some f ↦ some (f.rc, record (request_close zh) { to_send = f.to_send }, f.out)
            ])
        flushed none = tt
        flushed (some f) = refl

        queued :
            (o : Option (ℕ × List Packet))
            → Spares (request_close zh) (flush_close (request_close zh) o)
        queued none = tt
        queued (some (rc, q)) = elim (Bool-cases (is_neg rc)) [
          | inl e ↦ rw e refl
          | inr e ↦
              rw e (flushed (flush_send_queue 3000 (state_of zh == connected_state) env.events q))
        ]

        serialized :
            (o : Option (Rc (Unit {0}) × BuffStruct))
            → Spares (request_close zh) (queue_close (request_close zh) o)
        serialized none = tt
        serialized (some (fail e, oa)) = refl
        serialized (some (good u, oa)) =
            queued
              (queue_buffer_bytes env.packet_given zh.to_send (get_buffer oa) (get_buffer_len oa))

        archived :
            (o : Option BuffStruct)
            → Spares (request_close zh) (elim o as (λ x. Run ht) [
              | none ↦ none
              | some oa ↦
                  queue_close
                    (request_close zh)
                    (serialize_request_header env.heap (header xid zoo_close_op) oa)
            ])
        archived none = tt
        archived (some oa) =
            serialized (serialize_request_header env.heap (header xid zoo_close_op) oa)

    last_close :
        (run : Run ht)
        → Spares (request_close zh) run
        → ClosesIf zh
            (next (λ sent. cleanup_bufs env true zclosing >>= λ u. pure sent) (as_step run))
    unfolding cleanup_bufs ◌>>=◌ ◌>>◌ get modify emit demand pure
    last_close none h = tt
    last_close (some (rc, z, out)) h = rw h (rw (freed.runs, cleanup_bufs) (freed-Closes _ refl))

    after_nothing :
        (o : Option ((ℕ × List ℕ) × ZHandle ht × List Effect))
        → ClosesIf zh o
        → ClosesIf zh (after [] o)
    after_nothing none h = tt
    after_nothing (some (r, z, es)) h = h

    closes : (xid calls : ℕ) → ClosesIf zh (zookeeper_close xid calls zh)
    unfolding zookeeper_close free_step ◌>>=◌ ◌>>◌ get modify emit demand pure
    closes xid calls = elim (Bool-cases (leb 1 calls)) [
      | inl busy ↦ rw busy (rw (freed.runs, zookeeper_close) (freed-Closes _ refl))
      | inr idle ↦
          rw idle
            (after_nothing _ (last_close (send_close xid (request_close zh)) (Spares-close xid)))
    ]

    pub zookeeper_close-Closes :
        (xid calls : ℕ) (r : ℕ × List ℕ) (zh' : ZHandle ht) (es : List Effect)
        → zookeeper_close xid calls zh ≡ some (r, zh', es)
        → Closes zh zh' es
    zookeeper_close-Closes xid calls r zh' es e = subst (ClosesIf zh) e (closes xid calls)
