-- ===== src/Handshake/Finishing.antt =====
-- The end of a handshake in check_events of src/zk/zookeeper.c: what becomes of the session.
use ext_zookeeper.Prelude.{
  ◌+◌, ◌^◌, ◌≤◌, ◌≡◌, ◌≢◌, ◌⊎◌, inl, inr, refl, true, false, ap, some, List, [], ◌∷◌, ◌++◌, map,
  All, length, arith,
}
use mathlib.Core.List.{append-nil}
use ext_zookeeper.Codes.{zok, zsessionexpired, expired_session_state, connected_state}
use ext_zookeeper.Recordio.{CString}
use ext_zookeeper.Recordio.Spec.{Allocates}
use ext_zookeeper.Jute.SetWatches.{IsSetWatches, set_watches_bytes}
use ext_zookeeper.Watchers.{Hashtable, NodePath, WatcherObjectList, Listed, Kind, table_of}
use ext_zookeeper.Session.Completions.{IsRequests}
use ext_zookeeper.Client.{ZHandle, Surroundings}
use ext_zookeeper.Client.Submitting.{fresh}
use ext_zookeeper.Replies.{Effect, ◌>>=◌, ◌>>◌, get, modify, demand, pure, handle_error}
use ext_zookeeper.Replies.Failing.{IsTellable}
use ext_zookeeper.Replies.Announcing.{AnnouncedTo, queue_session_event-Announces}
use ext_zookeeper.Replies.Losing.{Loses, handle_error-Loses, told_effects}
use ext_zookeeper.Credentials.Sending.{FitsPacket, reversed, auth_frame}
use ext_zookeeper.Credentials.Watches.{set_watches_of, watches_of, watches_payload, resume_renews}
use ext_zookeeper.Handshake.Defs.{
  PrimeStruct, SessionHandle, with_state, expires, renewed_session, expire_session, renew_session,
  finish_handshake,
}

expires_lem :
    (session : SessionHandle) (prime : PrimeStruct)
    → session.client_id ≢ 0
    → session.client_id ≢ prime.session_id
    → expires session prime ≡ true
expires_lem session prime n m = ground (arith, n, m)

lives_lem :
    (session : SessionHandle) (prime : PrimeStruct)
    → (session.client_id ≡ 0) ⊎ (session.client_id ≡ prime.session_id)
    → expires session prime ≡ false
lives_lem session prime (inl e) = ground (arith, e)
lives_lem session prime (inr e) = ground (arith, e)

module _ {ht : Hashtable} where
  -- The handle that is connected again.
  abbrev pub resumed : ZHandle ht → ZHandle ht
  resumed zh = record (with_state connected_state zh) {
    to_send =
        reversed (map auth_frame zh.requests.auth.auth_h)
        ++ (fresh (watches_payload zh) ∷ zh.to_send);
  }

  -- What a renewed session sends and tells.
  pub record Renews (env : Surroundings) (session : SessionHandle) (prime : PrimeStruct)
      (zh : ZHandle ht) (k : Kind) (p : NodePath) : Type 0 where
    pub effects : List Effect
    pub runs :
        finish_handshake env session prime zh
        ≡ some (
          (
            zok,
            record {
              client_id = prime.session_id;
              passwd = prime.passwd;
              recv_timeout = prime.time_out;
            },
          ),
          resumed zh,
          effects,
        )
    pub announces : AnnouncedTo connected_state (resumed zh) effects
    pub names : Listed {A = CString} (some p) (watches_of (set_watches_of zh) k).items

module _ {ht : Hashtable} (env : Surroundings) (allocates : Allocates env.heap)
    (entry : env.entry_given ≡ true) (packet : env.packet_given ≡ true) (session : SessionHandle)
    (prime : PrimeStruct) (zh : ZHandle ht) (idle : zh.requests.outstanding_sync ≡ 0)
    (empty : zh.requests.completions_to_process ≡ []) where
  pub finish_handshake-Loses :
      session.client_id ≢ 0
      → session.client_id ≢ prime.session_id
      → IsRequests env.sync_marker zh.requests
      → All IsTellable zh.requests.sent_requests
      → (l : Loses
          (with_state expired_session_state zh)
          zsessionexpired
          (handle_error env zsessionexpired (with_state expired_session_state zh)))
        × (finish_handshake env session prime zh
            ≡ some (
              (zsessionexpired, session),
              l.result,
              told_effects (with_state expired_session_state zh) zsessionexpired ++ [],
            ))
  unfolding finish_handshake expire_session ◌>>=◌ ◌>>◌ modify pure
  finish_handshake-Loses some_session other v tellable =
      let l =
        handle_error-Loses env allocates entry packet (with_state expired_session_state zh)
          (omega arith) idle empty zsessionexpired (omega arith) (λ e. absurd (omega arith))
          (record { counts = v.counts; word = v.word; xids = v.xids }) tellable in
      (l, rw (expires_lem session prime some_session other) (rw (l.runs, expire_session) refl))

  -- An answer to a client that had no session, or with the session that it had, ends the
  -- handshake with ZOK: the session, the password and the timeout are those of the answer, and
  -- the handle is connected. In front of all that was queued stand the packets of the
  -- credentials, the last one first, and then one SetWatches, which names each path that a
  -- watcher waits for, in the table where it waits; and every watcher in the tables and the
  -- handle's own are told once that the session is connected. Some watcher waits, no synchronous
  -- request waits and no completion is queued, the credentials and the SetWatches fit their
  -- packets, and memory is given.
  pub finish_handshake-Renews :
      (k : Kind) (p : NodePath) (l : WatcherObjectList)
      → (session.client_id ≡ 0) ⊎ (session.client_id ≡ prime.session_id)
      → IsSetWatches (set_watches_of zh)
      → 8 + length (set_watches_bytes (set_watches_of zh)) ≤ 2 ^ 28
      → ht.search (table_of ht zh.watchers k) p ≡ some l
      → All FitsPacket zh.requests.auth.auth_h
      → Renews env session prime zh k p
  unfolding finish_handshake renew_session ◌>>=◌ ◌>>◌ get modify demand pure set_watches_of
  finish_handshake-Renews k p l lives v fits found credentials =
      let r =
        resume_renews env allocates packet (with_state connected_state zh) v fits k p l found
          credentials in
      let a =
        queue_session_event-Announces env allocates entry packet connected_state (resumed zh)
          (omega arith) idle empty in
      record {
        effects = a.effects;
        runs = rw (lives_lem session prime lives) (
            rw (r.0, renew_session)
              (rw (a.result, renew_session)
                (ap (λ es. some ((zok, renewed_session prime), resumed zh, es))
                  (append-nil a.effects))));
        announces = a.told;
        names = r.1;
      }
