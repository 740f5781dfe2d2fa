-- ===== src/Credentials/Defs.antt =====
-- queue_front_buffer_bytes, send_info_packet, send_auth_info, send_last_auth_info and zoo_add_auth of
-- src/zk/zookeeper.c.
use ext_zookeeper.Prelude.{
  ℕ, Bool, true, false, Option, none, some, List, [], ◌∷◌, take, ◌==◌, ◌||◌, if◌then◌else◌,
}
use ext_zookeeper.Codes.{
  zok, zbadarguments, zinvalidstate, zsystemerror, zmarshallingerror, connected_state,
  associating_state, zoo_setauth_op,
}
use ext_zookeeper.Recordio.{
  Rc, good, fail, BuffStruct, Buffer, CString, ◌>>◌, is_neg, fetch, malloc_size,
  create_buffer_oarchive, get_buffer, get_buffer_len,
}
use ext_zookeeper.Jute.Headers.{serialize_request_header}
use ext_zookeeper.Jute.Updates.{AuthPacket, serialize_auth_packet}
use ext_zookeeper.Frames.{Packet, allocate_buffer, queue_buffer}
use ext_zookeeper.Auth.{AuthInfo, get_last_auth, add_last_auth}
use ext_zookeeper.Watchers.{Hashtable}
use ext_zookeeper.Client.{ZHandle, Surroundings, header, state_of, error_code}
use ext_zookeeper.Replies.{auth_xid}

-- What queue_front_buffer_bytes returns, and the queue. A null buffer is not looked at: `none`.
unfoldable pub queue_front_buffer_bytes :
    Bool → List Packet → Option (List ℕ) → ℕ → Option (ℕ × List Packet)
queue_front_buffer_bytes given list none len = none
queue_front_buffer_bytes false list (some buff) len = some (zsystemerror, list)
queue_front_buffer_bytes true list (some buff) len =
    some (zok, queue_buffer list (allocate_buffer (take len buff) len) true)

-- The packet of some credentials.
abbrev pub auth_packet : AuthInfo → AuthPacket
auth_packet auth = record { type = 0; scheme = auth.scheme; auth = auth.auth }

-- Once the packet is serialized with a code.
abbrev pub queue_info :
    Surroundings → List Packet → Option (Rc (Unit {0}) × BuffStruct) → Option (ℕ × List Packet)
queue_info env queue none = none
queue_info env queue (some (fail e, oa)) = some (error_code e, queue)
queue_info env queue (some (good u, oa)) =
    queue_front_buffer_bytes env.packet_given queue (get_buffer oa) (get_buffer_len oa)

-- The code, and the queue `to_send`.
unfoldable pub send_info_packet : Surroundings → List Packet → AuthInfo → Option (ℕ × List Packet)
send_info_packet env queue auth = elim (create_buffer_oarchive env.heap) [
  | none ↦ none
  | some oa ↦ queue_info env queue (
      (serialize_request_header env.heap (header auth_xid zoo_setauth_op)
          >> serialize_auth_packet env.heap (auth_packet auth))
        oa)
]

-- `while (auth != NULL) { rc = send_info_packet(zh, auth); auth = auth->next; }`
unfoldable pub info_loop : Surroundings → ℕ → List AuthInfo → List Packet → Option (ℕ × List Packet)
info_loop env rc [] queue = some (rc, queue)
info_loop env rc (auth ∷ next) queue = elim (send_info_packet env queue auth) [
  | none ↦ none
  | some (rc', queue') ↦ info_loop env rc' next queue'
]

-- `(rc < 0) ? ZMARSHALLINGERROR : ZOK`
abbrev pub marshalled : Option (ℕ × List Packet) → Option (ℕ × List Packet)
marshalled none = none
marshalled (some (rc, queue)) = some (if is_neg rc then zmarshallingerror else zok, queue)

abbrev pub sent_last : Surroundings → List Packet → Option AuthInfo → Option (ℕ × List Packet)
sent_last env queue none = some (zok, queue)
sent_last env queue (some auth) = marshalled (send_info_packet env queue auth)

-- `if(cert!=NULL && certLen!=0) { … } else { … }`: the buffer, or `none` when there is no memory for
-- it; the outer `none` is an access outside `cert`.
unfoldable pub auth_buffer : (ℕ → Bool) → Option (List ℕ) → ℕ → Option (Option Buffer)
auth_buffer can_alloc none cert_len = some (some (record { len = 0; buff = none }))
auth_buffer can_alloc (some cert) cert_len =
    if cert_len == 0
    then some (some (record { len = 0; buff = none }))
    else if can_alloc (malloc_size cert_len)
    then elim (fetch 0 (malloc_size cert_len) cert) [
      | none ↦ none
      | some bytes ↦ some (some (record { len = cert_len; buff = some bytes }))
    ]
    else some none

module _ {ht : Hashtable} where
  abbrev pub with_queue : ZHandle ht → Option (ℕ × List Packet) → Option (ℕ × ZHandle ht)
  with_queue zh none = none
  with_queue zh (some (rc, queue)) = some (rc, record zh { to_send = queue })

  abbrev pub with_credentials : AuthInfo → ZHandle ht → ZHandle ht
  with_credentials info zh = record zh {
    requests = record zh.requests {
      auth = record zh.requests.auth { auth_h = add_last_auth zh.requests.auth.auth_h info };
    };
  }

module _ {ht : Hashtable} (env : Surroundings) where
  -- Without credentials the code is ZOK too.
  unfoldable pub send_auth_info : ZHandle ht → Option (ℕ × ZHandle ht)
  send_auth_info zh =
      with_queue zh (marshalled (info_loop env zok zh.requests.auth.auth_h zh.to_send))

  unfoldable pub send_last_auth_info : ZHandle ht → Option (ℕ × ZHandle ht)
  send_last_auth_info zh =
      with_queue zh (sent_last env zh.to_send (get_last_auth zh.requests.auth.auth_h))

  -- Behind the buffer: the credentials are kept and, on a connection, sent. A block that malloc does
  -- not give is written to: `none`.
  unfoldable pub keep_auth :
      ZHandle ht → List ℕ → Option (Option Buffer) → Option ℕ → ℕ → Option (ℕ × ZHandle ht)
  keep_auth zh scheme none completion contents = none
  keep_auth zh scheme (some none) completion contents = some (zsystemerror, zh)
  keep_auth zh scheme (some (some auth)) completion contents =
      let info : AuthInfo = record {
        state = 0;
        scheme = some scheme;
        auth = auth;
        completion = completion;
        contents = contents;
      } in
      if env.entry_given
      then if (state_of zh == connected_state) || (state_of zh == associating_state)
        then send_last_auth_info (with_credentials info zh)
        else some (zok, with_credentials info zh)
      else none

  -- A null handle is answered in the same way as a null scheme. `state` of new credentials is not
  -- set by the source; it is 0 here.
  unfoldable pub zoo_add_auth :
      ZHandle ht → CString → Option (List ℕ) → ℕ → Option ℕ → ℕ → Option (ℕ × ZHandle ht)
  zoo_add_auth zh none cert cert_len completion contents = some (zbadarguments, zh)
  zoo_add_auth zh (some scheme) cert cert_len completion contents =
      if is_neg (state_of zh) || (state_of zh == 0)
      then some (zinvalidstate, zh)
      else keep_auth zh scheme (auth_buffer env.heap.can_alloc cert cert_len) completion contents
