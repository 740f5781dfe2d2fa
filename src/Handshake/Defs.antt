-- ===== src/Handshake/Defs.antt =====
-- serialize_prime_connect and deserialize_prime_response of zookeeper.c, and the part of
-- check_events that ends the handshake.
use ext_zookeeper.Prelude.{
  ℕ, ◌+◌, Bool, Option, none, some, List, [], ◌∷◌, length, ◌==◌, ◌&&◌, not, if◌then◌else◌,
}
use ext_zookeeper.Prelude.Bytes.{le, of_le}
use ext_zookeeper.Recordio.{htonl, zoo_htonll, store, fetch}
use ext_zookeeper.Watchers.{Hashtable}
use ext_zookeeper.Client.{ZHandle, Surroundings}
use ext_zookeeper.Replies.{
  Step, pure, ◌>>=◌, ◌>>◌, get, modify, demand, handle_error, queue_session_event,
}
use ext_zookeeper.Credentials.Watches.{resume}
use ext_zookeeper.Codes.{zok, zsessionexpired, expired_session_state, connected_state}

-- struct connect_req; `passwd` is an array of 16.
pub record ConnectReq : Type 0 where
  pub protocol_version : ℕ
  pub last_zxid_seen : ℕ
  pub time_out : ℕ
  pub session_id : ℕ
  pub passwd_len : ℕ
  pub passwd : List ℕ

-- struct prime_struct
pub record PrimeStruct : Type 0 where
  pub len : ℕ
  pub protocol_version : ℕ
  pub time_out : ℕ
  pub session_id : ℕ
  pub passwd_len : ℕ
  pub passwd : List ℕ

abbrev pub handshake_req_size : ℕ
handshake_req_size = 44

-- `memcpy(buffer + offset, piece, size); offset = offset + size;` for each piece. `none` is a write
-- outside the buffer.
unfoldable pub put_pieces : List (List ℕ) → ℕ → List ℕ → Option (List ℕ)
put_pieces [] offset buffer = some buffer
put_pieces (piece ∷ pieces) offset buffer = elim (store offset piece buffer) [
  | none ↦ none
  | some buffer' ↦ put_pieces pieces (offset + length piece) buffer'
]

unfoldable pub serialize_prime_connect : ConnectReq → List ℕ → Option (List ℕ)
serialize_prime_connect req buffer =
    put_pieces
      (le 4 (htonl req.protocol_version)
        ∷ le 8 (zoo_htonll req.last_zxid_seen)
        ∷ le 4 (htonl req.time_out)
        ∷ le 8 (zoo_htonll req.session_id)
        ∷ le 4 (htonl req.passwd_len)
        ∷ req.passwd
        ∷ [])
      0 buffer

-- `memcpy(&field, buffer + offset, n)`, and then the rest.
unfoldable pub with_piece : {A : Type 0} → ℕ → ℕ → List ℕ → (List ℕ → Option A) → Option A
with_piece offset n buffer rest = elim (fetch offset n buffer) [
  | none ↦ none
  | some bytes ↦ rest bytes
]

unfoldable pub deserialize_prime_response : List ℕ → Option PrimeStruct
deserialize_prime_response buffer = with_piece 0 4 buffer λ len. with_piece 4 4 buffer λ version.
    with_piece 8 4 buffer λ time_out. with_piece 12 8 buffer λ session.
      with_piece 20 4 buffer λ passwd_len. with_piece 24 16 buffer λ passwd. some (record {
        len = htonl (of_le len);
        protocol_version = htonl (of_le version);
        time_out = htonl (of_le time_out);
        session_id = zoo_htonll (of_le session);
        passwd_len = htonl (of_le passwd_len);
        passwd = passwd;
      })

-- The part of zhandle_t that only a handshake sets.
pub record SessionHandle : Type 0 where
  pub client_id : ℕ
  pub passwd : List ℕ
  pub recv_timeout : ℕ

-- The request of prime_connection; the other argument is `zh->last_zxid`.
unfoldable pub connect_req : SessionHandle → ℕ → ConnectReq
connect_req zh last_zxid = record {
  protocol_version = 0;
  last_zxid_seen = last_zxid;
  time_out = zh.recv_timeout;
  session_id = zh.client_id;
  passwd_len = 16;
  passwd = zh.passwd;
}

-- `oldid != 0 && oldid != newid`
abbrev pub expires : SessionHandle → PrimeStruct → Bool
expires session prime = not (session.client_id == 0) && not (session.client_id == prime.session_id)

-- `zh->recv_timeout = …; zh->client_id.client_id = newid; memcpy(zh->client_id.passwd, …);`
abbrev pub renewed_session : PrimeStruct → SessionHandle
renewed_session prime = record {
  client_id = prime.session_id;
  passwd = prime.passwd;
  recv_timeout = prime.time_out;
}

module _ {ht : Hashtable} where
  abbrev pub with_state : ℕ → ZHandle ht → ZHandle ht
  with_state state zh = record zh {
    requests = record zh.requests { auth = record zh.requests.auth { state = state } };
  }

  -- `zh->state = ZOO_EXPIRED_SESSION_STATE; return handle_socket_error_msg(zh, …);`
  unfoldable pub expire_session : Surroundings → SessionHandle → Step ht (ℕ × SessionHandle)
  expire_session env session = do
    modify (with_state expired_session_state)
    handle_error env zsessionexpired
    pure (zsessionexpired, session)

  -- Behind the new fields: what waited is sent again, and the watchers are told. The codes are not
  -- looked at.
  unfoldable pub renew_session : Surroundings → PrimeStruct → Step ht (ℕ × SessionHandle)
  renew_session env prime = do
    modify (with_state connected_state)
    zh ← get
    resumed ← demand (resume env zh)
    modify (λ zh. resumed.1)
    told ← queue_session_event env connected_state
    pure (zok, renewed_session prime)

  -- The end of the handshake in check_events, once the answer is read: the code, and the session.
  -- `input_buffer` is not part of the handle here.
  unfoldable pub finish_handshake :
      Surroundings → SessionHandle → PrimeStruct → Step ht (ℕ × SessionHandle)
  finish_handshake env session prime =
      if expires session prime then expire_session env session else renew_session env prime
