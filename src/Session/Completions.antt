-- ===== src/Session/Completions.antt =====
-- Every request that waits is told once.
use ext_zookeeper.Prelude.{
  ℕ, suc, ◌+◌, ◌-◌, ◌%◌, ◌^◌, ◌<◌, ◌≡◌, refl, sym, ◌∙◌, ap, All, Bool, true, false, Option, some,
  List, [], ◌∷◌, ◌++◌, ◌==◌, if◌then◌else◌, arith, Bool-cases, inl, inr,
}
use mathlib.Core.List.{append-nil, append_assoc}
use ext_zookeeper.Recordio.{Heap}
use ext_zookeeper.Recordio.Spec.{Allocates}
use ext_zookeeper.Recordio.Transfer.{create-Filled}
use ext_zookeeper.Recordio.Rules.{int_bytes, long_bytes}
use ext_zookeeper.Jute.Headers.{serialize_reply_header, reply_header_bytes, reply_header-Output}
use ext_zookeeper.Auth.{AuthCall, free_auth_completions}
use ext_zookeeper.Auth.Completions.{awaited, told, free_auth_completions-Tells}
use ext_zookeeper.Session.Defs.{
  CompletionEntry, Requests, Notified, Freed, queue_completion_nolock, queue_response, faked,
  fake_response, free_loop, free_completions,
}

module _ {C : Type 0} where
  pub queue_completion_nolock_back :
      (list : List (CompletionEntry C)) (c : CompletionEntry C)
      → queue_completion_nolock list c false ≡ list ++ (c ∷ [])
  unfolding queue_completion_nolock
  queue_completion_nolock_back [] c = refl
  queue_completion_nolock_back (e ∷ rest) c = ap (◌∷◌ e) (queue_completion_nolock_back rest c)

  pub queue_completion_nolock_front :
      (list : List (CompletionEntry C)) (c : CompletionEntry C)
      → queue_completion_nolock list c true ≡ c ∷ list
  unfolding queue_completion_nolock
  queue_completion_nolock_front [] c = refl
  queue_completion_nolock_front (e ∷ rest) c = refl

module _ {C : Type 0} (sync_marker : ℕ) where
  -- How many of some requests are synchronous.
  abbrev pub count_sync : List (CompletionEntry C) → ℕ
  count_sync [] = 0
  count_sync (e ∷ rest) = if e.result == sync_marker then suc (count_sync rest) else count_sync rest

  -- The synchronous callers among some requests, told `reason`.
  abbrev pub sync_calls : ℕ → List (CompletionEntry C) → List Notified
  sync_calls reason [] = []
  sync_calls reason (e ∷ rest) =
      if e.result == sync_marker
      then record { sc = e.contents; rc = reason } ∷ sync_calls reason rest
      else sync_calls reason rest

-- The answer that is made up for a request.
abbrev pub response : {C : Type 0} → ℕ → CompletionEntry C → CompletionEntry C
response reason e = record e {
  buffer = some (reply_header_bytes (record { xid = e.xid; zxid = 2 ^ 64 - 1; err = reason }));
}

fake_response_lem :
    (heap : Heap)
    → Allocates heap
    → (xid reason : ℕ) → xid < 2 ^ 32
    → reason < 2 ^ 32
    → fake_response heap xid reason
      ≡ some (reply_header_bytes (record { xid = xid; zxid = 2 ^ 64 - 1; err = reason }))
unfolding fake_response reply_header_bytes int_bytes long_bytes
fake_response_lem heap allocates xid reason hx hr =
    let f =
      create-Filled heap allocates
        (serialize_reply_header heap (record { xid = xid; zxid = 2 ^ 64 - 1; err = reason }))
        (reply_header_bytes (record { xid = xid; zxid = 2 ^ 64 - 1; err = reason }))
        (reply_header-Output heap allocates (record { xid = xid; zxid = 2 ^ 64 - 1; err = reason })
          (record { xid = hx; zxid = omega arith; err = hr })).apply
        (omega arith) in
    rw (f.made, fake_response) (rw (f.runs, faked) (rw (f.held, faked) (ap some f.bytes)))

-- One request of free_loop.
abbrev freed_one :
    {C : Type 0} → Heap → ℕ → CompletionEntry C → Bool → ℕ → Requests C → Option (Requests C)
freed_one heap sync_marker cptr call reason zh =
    if cptr.result == sync_marker
    then some (record zh { outstanding_sync = (zh.outstanding_sync + (2 ^ 32 - 1)) % 2 ^ 32 })
    else if call
    then queue_response cptr (fake_response heap cptr.xid reason) zh
    else some zh

module _ {C : Type 0} (sync_marker : ℕ) where
  -- The answers that are made up for the other requests.
  abbrev pub responses : ℕ → List (CompletionEntry C) → List (CompletionEntry C)
  responses reason [] = []
  responses reason (e ∷ rest) =
      if e.result == sync_marker
      then responses reason rest
      else response reason e ∷ responses reason rest

  -- What the loop of free_completions does with some requests.
  pub record Frees (list : List (CompletionEntry C)) (zh : Requests C) (reason : ℕ)
      (o : Option (Freed C)) : Type 0 where
    pub result : Requests C
    pub runs : o ≡ some (result, sync_calls sync_marker reason list)
    pub answers : result.completions_to_process ≡ zh.completions_to_process ++ responses reason list
    pub sent : result.sent_requests ≡ zh.sent_requests
    pub auth : result.auth ≡ zh.auth
    pub balance :
        (result.outstanding_sync + count_sync sync_marker list) % 2 ^ 32
        ≡ zh.outstanding_sync % 2 ^ 32
    pub word : zh.outstanding_sync < 2 ^ 32 → result.outstanding_sync < 2 ^ 32

  module _ (heap : Heap) (allocates : Allocates heap) (reason : ℕ) (word : reason < 2 ^ 32) where
    free_loop-Frees :
        (list : List (CompletionEntry C)) (zh : Requests C)
        → All (λ e. e.xid < 2 ^ 32) list
        → Frees list zh reason (free_loop heap sync_marker list true reason zh)
    unfolding free_loop
    free_loop-Frees [] zh h = record {
      result = zh;
      runs = refl;
      answers = sym (append-nil _);
      sent = refl;
      auth = refl;
      balance = ap (λ n. n % 2 ^ 32) (omega arith);
      word = λ x. x;
    }
    free_loop-Frees (e ∷ next) zh (h, hs) = elim (Bool-cases (e.result == sync_marker)) [
      | inl sync ↦
          let zh' : Requests C = record zh {
            outstanding_sync = (zh.outstanding_sync + (2 ^ 32 - 1)) % 2 ^ 32;
          } in
          let r = free_loop-Frees next zh' hs in
          rw (sync, free_loop)
            (rw r.runs (record {
              result = r.result;
              runs = rw sync;
              answers = rw sync r.answers;
              sent = r.sent;
              auth = r.auth;
              balance = rw sync (omega (arith, r.balance));
              word = λ x. r.word (omega arith);
            }))
      | inr async ↦
          let zh' : Requests C = record zh {
            completions_to_process =
                queue_completion_nolock zh.completions_to_process (response reason e) false;
          } in
          let r = free_loop-Frees next zh' hs in
          rw (async, free_loop)
            (rw (fake_response_lem heap allocates e.xid reason h word, free_loop)
              (record {
                result = r.result;
                runs = rw async r.runs;
                answers = rw async (
                    r.answers
                    ∙ ap (λ l. l ++ responses reason next)
                        (queue_completion_nolock_back zh.completions_to_process (response reason e))
                    ∙ append_assoc zh.completions_to_process (response reason e ∷ [])
                        (responses reason next));
                sent = r.sent;
                auth = r.auth;
                balance = rw async r.balance;
                word = r.word;
              }))
    ]

  -- What free_completions leaves.
  pub record FreesAll (zh : Requests C) (reason : ℕ)
      (o : Option (Requests C × List Notified × List AuthCall)) : Type 0 where
    pub result : Requests C
    pub runs :
        o
        ≡ some
            (result, sync_calls sync_marker reason zh.sent_requests, awaited reason zh.auth.auth_h)
    pub empty : result.sent_requests ≡ []
    pub answers :
        result.completions_to_process
        ≡ zh.completions_to_process ++ responses reason zh.sent_requests
    pub none_left : result.outstanding_sync ≡ 0
    pub told_auth : result.auth.auth_h ≡ told zh.auth.auth_h

  -- A handle whose counter says how many of its requests are synchronous.
  pub record IsRequests (zh : Requests C) : Type 0 where
    pub counts : zh.outstanding_sync ≡ count_sync sync_marker zh.sent_requests
    pub word : zh.outstanding_sync < 2 ^ 32
    pub xids : All (λ e. e.xid < 2 ^ 32) zh.sent_requests

  -- When completions are to be called, free_completions tells every request that waits once: a
  -- synchronous caller is wakened with the reason, and any other request is queued for its
  -- completion, in order, with the bytes of a ReplyHeader that has its xid, the zxid -1 and the
  -- reason. No request is left, the counter of synchronous ones is 0, and the completions of
  -- credentials are called once with the reason. Before, the counter is the number of synchronous
  -- requests, and xids, counter and reason fit 32 bits; the allocator gives every block whose
  -- size fits an int.
  pub free_completions-FreesAll :
      (heap : Heap) (zh : Requests C) (reason : ℕ)
      → Allocates heap
      → reason < 2 ^ 32
      → IsRequests zh
      → FreesAll zh reason (free_completions heap sync_marker zh true reason)
  unfolding free_completions
  free_completions-FreesAll heap zh reason allocates word v =
      let f =
        free_loop-Frees heap allocates reason word zh.sent_requests
          (record zh { sent_requests = [] }) v.xids in
      let t = free_auth_completions-Tells f.result.auth reason in
      let a = free_auth_completions f.result.auth reason in
      rw (f.runs, free_completions)
        (record {
          result = record f.result { auth = a.0 };
          runs =
              ap
                (λ c. some (
                  record f.result { auth = a.0 },
                  sync_calls sync_marker reason zh.sent_requests,
                  c,
                ))
                (t.calls ∙ ap (λ x. awaited reason x.auth_h) f.auth);
          empty = f.sent;
          answers = f.answers;
          none_left = omega (arith, f.balance, v.counts, v.word, f.word v.word);
          told_auth = t.rest ∙ ap (λ x. told x.auth_h) f.auth;
        })
