-- ===== src/Credentials/Watches.antt =====
-- collect_keys of src/zk/zk_hashtable.c and send_set_watches of src/zk/zookeeper.c: on a new
-- connection, the paths that watchers wait for.
use ext_zookeeper.Prelude.{
  ℕ, ◌+◌, ◌%◌, ◌^◌, ◌≤◌, ◌≡◌, refl, ap, inl, inr, Bool, true, false, Option, none, some, List, [],
  ◌∷◌, ◌++◌, map, All, length, length-append, ◌==◌, ◌&&◌, arith, if◌then◌else◌,
}
use ext_zookeeper.Codes.{zok, zoo_setwatches_op}
use ext_zookeeper.Recordio.{CString, ◌>>◌, create_buffer_oarchive, get_buffer_len}
use ext_zookeeper.Recordio.Spec.{Allocates}
use ext_zookeeper.Recordio.Rules.{Output-seq}
use ext_zookeeper.Recordio.Transfer.{create-Filled}
use ext_zookeeper.Jute.Headers.{
  serialize_request_header, request_header_bytes, request_header-Output,
}
use ext_zookeeper.Jute.StringVectors.{StringVector}
use ext_zookeeper.Jute.SetWatches.{
  SetWatches, serialize_set_watches, IsSetWatches, set_watches_bytes, set_watches-Output,
}
use ext_zookeeper.Watchers.{
  Hashtable, NodePath, WatcherObjectList, Listed, Kind, node, exist, child, table_of,
}
use ext_zookeeper.Client.{ZHandle, Surroundings, header}
use ext_zookeeper.Client.Submitting.{fresh, length-header}
use ext_zookeeper.Replies.{set_watches_xid}
use ext_zookeeper.Credentials.Defs.{queue_info, marshalled, with_queue, send_auth_info}
use ext_zookeeper.Credentials.Sending.{
  queue_front_buffer_bytes_lem, FitsPacket, reversed, auth_frame, send_auth_info_lem,
}

-- The keys, and their count as an int.
unfoldable pub collect_keys : (ht : Hashtable) → ht.Table → StringVector
collect_keys ht t = record { count = length (ht.keys t) % 2 ^ 32; items = map some (ht.keys t) }

-- `!req.dataWatches.count && !req.existWatches.count && !req.childWatches.count`
abbrev pub no_watches : SetWatches → Bool
no_watches req =
    (req.data_watches.count == 0)
    && ((req.exist_watches.count == 0) && (req.child_watches.count == 0))

-- The paths of the watches of a kind.
abbrev pub watches_of : SetWatches → Kind → StringVector
watches_of req node = req.data_watches
watches_of req exist = req.exist_watches
watches_of req child = req.child_watches

Listed-map :
    (p : NodePath) (l : List NodePath) → Listed p l → Listed {A = CString} (some p) (map some l)
Listed-map p [] h = elim h [ ]
Listed-map p (q ∷ l) (inl e) = inl (ap some e)
Listed-map p (q ∷ l) (inr h) = inr (Listed-map p l h)

Listed-length : {A : Type 0} (x : A) (l : List A) → Listed x l → 1 ≤ length l
Listed-length x [] h = elim h [ ]
Listed-length x (y ∷ l) h = omega arith

some_watches :
    (req : SetWatches) (k : Kind)
    → IsSetWatches req
    → 1 ≤ length (watches_of req k).items
    → no_watches req ≡ false
some_watches req node v h = ground (arith, v.data_watches.count)
some_watches req exist v h = ground (arith, v.exist_watches.count)
some_watches req child v h = ground (arith, v.child_watches.count)

module _ {ht : Hashtable} where
  unfoldable pub set_watches_of : ZHandle ht → SetWatches
  set_watches_of zh = record {
    relative_zxid = zh.last_zxid;
    data_watches = collect_keys ht zh.watchers.active_node_watchers;
    exist_watches = collect_keys ht zh.watchers.active_exist_watchers;
    child_watches = collect_keys ht zh.watchers.active_child_watchers;
  }

  unfoldable pub send_set_watches : Surroundings → ZHandle ht → Option (ℕ × ZHandle ht)
  send_set_watches env zh =
      if no_watches (set_watches_of zh)
      then some (zok, zh)
      else with_queue zh (
          marshalled (elim (create_buffer_oarchive env.heap) [
            | none ↦ none
            | some oa ↦ queue_info env zh.to_send (
                (serialize_request_header env.heap (header set_watches_xid zoo_setwatches_op)
                    >> serialize_set_watches env.heap (set_watches_of zh))
                  oa)
          ]))

  -- What a connection that is made sends: the codes are not looked at.
  unfoldable pub resume : Surroundings → ZHandle ht → Option (ℕ × ZHandle ht)
  resume env zh = elim (send_set_watches env zh) [
    | none ↦ none
    | some (rc, zh') ↦ send_auth_info env zh'
  ]

  named :
      (zh : ZHandle ht) (k : Kind) (p : NodePath) (l : WatcherObjectList)
      → ht.search (table_of ht zh.watchers k) p ≡ some l
      → Listed {A = CString} (some p) (watches_of (set_watches_of zh) k).items
  unfolding set_watches_of collect_keys
  named zh node p l h = Listed-map p _ (ht.keys-search zh.watchers.active_node_watchers p l h)
  named zh exist p l h = Listed-map p _ (ht.keys-search zh.watchers.active_exist_watchers p l h)
  named zh child p l h = Listed-map p _ (ht.keys-search zh.watchers.active_child_watchers p l h)

  abbrev pub watches_payload : ZHandle ht → List ℕ
  watches_payload zh =
      request_header_bytes (header set_watches_xid zoo_setwatches_op)
      ++ set_watches_bytes (set_watches_of zh)

  module _ (env : Surroundings) (allocates : Allocates env.heap) (given : env.packet_given ≡ true)
      (zh : ZHandle ht) (v : IsSetWatches (set_watches_of zh))
      (fits : 8 + length (set_watches_bytes (set_watches_of zh)) ≤ 2 ^ 28) where
    send_set_watches_lem :
        no_watches (set_watches_of zh) ≡ false
        → send_set_watches env zh
          ≡ some (zok, record zh { to_send = fresh (watches_payload zh) ∷ zh.to_send })
    unfolding send_set_watches
    send_set_watches_lem some_watch =
        let h = header set_watches_xid zoo_setwatches_op in
        let hm =
          Output-seq
            (request_header-Output env.heap allocates h
              (record { xid = omega arith; type = omega arith }))
            (set_watches-Output env.heap allocates (set_watches_of zh) v) in
        let long = length-append (request_header_bytes h) (set_watches_bytes (set_watches_of zh)) in
        let f =
          create-Filled env.heap allocates
            (serialize_request_header env.heap h
              >> serialize_set_watches env.heap (set_watches_of zh))
            (watches_payload zh) hm.apply (omega (arith, fits, long, length-header h)) in
        rw some_watch (
          rw (f.made, send_set_watches)
            (rw (f.runs, send_set_watches)
              (rw (given, f.held)
                (rw
                  (queue_front_buffer_bytes_lem zh.to_send f.block (watches_payload zh)
                    (get_buffer_len f.result) f.size (omega (arith, long, length-header h)) f.bytes)
                  refl))))

    -- A client that is connected again sends its credentials and its watches in front of all that
    -- is queued: at the front of to_send stand the packets of its credentials, the last one
    -- first, and then one SetWatches, which names every path that a watcher waits for, among the
    -- paths of the table where it waits. Some watcher waits, the credentials and the SetWatches
    -- fit their packets, and memory is given.
    pub resume_renews :
        (k : Kind) (p : NodePath) (l : WatcherObjectList)
        → ht.search (table_of ht zh.watchers k) p ≡ some l
        → All FitsPacket zh.requests.auth.auth_h
        → (resume env zh
            ≡ some (
              zok,
              record zh {
                to_send =
                    reversed (map auth_frame zh.requests.auth.auth_h)
                    ++ (fresh (watches_payload zh) ∷ zh.to_send);
              },
            ))
          × Listed {A = CString} (some p) (watches_of (set_watches_of zh) k).items
    unfolding resume
    resume_renews k p l found credentials =
        let here = named zh k p l found in
        let some_watch = some_watches (set_watches_of zh) k v (Listed-length _ _ here) in
        (
          rw (send_set_watches_lem some_watch, resume)
              (send_auth_info_lem env allocates given
                (record zh { to_send = fresh (watches_payload zh) ∷ zh.to_send }) credentials),
          here,
        )
