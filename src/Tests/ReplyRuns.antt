-- ===== src/Tests/ReplyRuns.antt =====
-- Answers in src/zk/zookeeper.c, and records with access lists.
use ext_zookeeper.Prelude.{List, true, ◌≡◌, ◌<◌, ◌++◌, refl, inl, none, some, [], ◌∷◌, arith, ℕ}
use ext_zookeeper.Codes.{
  zok, zconnectionloss, zruntimeinconsistency, connecting_state, zsessionexpired,
  expired_session_state,
}
use ext_zookeeper.Recordio.{
  create_buffer_oarchive, oa_start_record, oa_serialize_int, write, store, oa_serialize_long,
  oa_end_record, get_buffer, get_buffer_len,
}
use ext_zookeeper.Auth.{free_auth_completions, get_auth_completions, call_completions}
use ext_zookeeper.Jute.Headers.{serialize_reply_header}
use ext_zookeeper.Session.{free_completions, free_loop, fake_response}
use ext_zookeeper.Recordio.{
  good, create_buffer_iarchive, ia_deserialize_int, ia_deserialize_long, read, fetch,
  ia_start_record, ia_end_record, zoo_htonll, swap_loop,
}
use ext_zookeeper.Recordio.Transfer.{transfer}
use ext_zookeeper.Recordio.Rules.{string_bytes, long_bytes}
use ext_zookeeper.Jute.Acl.{
  AclVector, IsAclVector, acl_vector_bytes, acls_bytes, acl_bytes, acl_id_bytes,
}
use ext_zookeeper.Jute.AclResponses.{
  GetAclResponse, get_acl_response_bytes, serialize_get_acl_response, deserialize_get_acl_response,
  transfer-get_acl_response,
}
use ext_zookeeper.Jute.Stats.{stat_bytes}
use ext_zookeeper.Jute.Headers.{deserialize_reply_header}
use ext_zookeeper.Frames.{Packet}
use ext_zookeeper.Session.{CompletionEntry, dequeue_completion, queue_completion_nolock}
use ext_zookeeper.Watchers.{activate_watcher}
use ext_zookeeper.Session.Completions.{IsRequests}
use ext_zookeeper.Client.{ZHandle, Parts}
use ext_zookeeper.Replies.{queue_session_event}
use ext_zookeeper.Replies.{◌>>=◌, ◌>>◌, get, modify, pure, demand}
use ext_zookeeper.Replies.Announcing.{Announces, queue_session_event-Announces}
use ext_zookeeper.Replies.{handle_error, cleanup_bufs, emit}
use ext_zookeeper.Replies.Losing.{Loses, handle_error-Loses, told_effects}
use ext_zookeeper.Replies.Failing.{IsTellable}
use ext_zookeeper.Replies.Closing.{zookeeper_close, send_close, Closes, zookeeper_close-Closes}
use ext_zookeeper.Replies.Stranding.{Strands, complete_one-Strands}
use ext_zookeeper.Replies.Counting.{process_received-IsRequests}
use ext_zookeeper.Replies.Matching.{Answers, Matched, frames_loop-Matched, process_answer-Loses}
use ext_zookeeper.Replies.{
  open_frame, frames_loop, process_answer, process_received, process_frame, dispatch, match_answer,
  process_async,
}
use ext_zookeeper.Handshake.{with_state, finish_handshake}
use ext_zookeeper.Handshake.Finishing.{finish_handshake-Loses}
use ext_zookeeper.Tests.HandshakeRuns.{old_session, answer}
use ext_zookeeper.Tests.AssocTable.{assoc_table}
use ext_zookeeper.Tests.Heaps.{sample_heap, sample_heap-Allocates}
use ext_zookeeper.Tests.Clients.{given, client}
use ext_zookeeper.Tests.RecordRuns.{small_stat, small_stat-IsStat}

abbrev request : ℕ → CompletionEntry Parts
request xid = record {
  xid = xid;
  type = 0;
  result = 1000;
  clist = none;
  contents = 5;
  buffer = none;
  watcher = none;
  watcher_result = [];
}

-- Two deletes wait for their answers.
abbrev waiting_client : ZHandle assoc_table
waiting_client = record client {
  requests = record client.requests { sent_requests = request 7 ∷ request 8 ∷ [] };
}

waiting-IsRequests : IsRequests 2000 waiting_client.requests
waiting-IsRequests = record {
  counts = refl;
  word = omega arith;
  xids = (omega arith, (omega arith, tt));
}

request-IsTellable : (xid : ℕ) → xid < 10 → IsTellable (request xid)
request-IsTellable xid small = record {
  xid = omega arith;
  type = omega arith;
  function = λ x. absurd (omega arith);
}

-- The answer to the first one: xid 7, zxid 9 and no error.
abbrev reply_7 : Packet
reply_7 = record {
  buffer = 0 ∷ 0 ∷ 0 ∷ 7 ∷ 0 ∷ 0 ∷ 0 ∷ 0 ∷ 0 ∷ 0 ∷ 0 ∷ 9 ∷ 0 ∷ 0 ∷ 0 ∷ 0 ∷ [];
  len = 16;
  curr_offset = 20;
}

reply_7-Answers : Answers given reply_7 (request 7)
unfolding open_frame deserialize_reply_header create_buffer_iarchive ia_deserialize_int
    ia_deserialize_long read fetch ia_start_record ia_end_record zoo_htonll swap_loop
reply_7-Answers = record {
  hdr = record { xid = 7; zxid = 9; err = 0 };
  ia = record { len = 20; off = 16; buffer = some reply_7.buffer };
  opens = refl;
  xid = refl;
  ordinary = omega arith;
  async = refl;
}

frames_loop-Matched_example :
    Matched given waiting_client
      (reply_7 ∷ [])
      (request 7 ∷ [])
      (request 8 ∷ [])
      (frames_loop given (reply_7 ∷ []) waiting_client)
frames_loop-Matched_example =
    frames_loop-Matched given (reply_7 ∷ []) (request 7 ∷ []) (request 8 ∷ []) waiting_client
      (reply_7-Answers, tt) refl

handle_error-Loses_example :
    Loses waiting_client zconnectionloss (handle_error given zconnectionloss waiting_client)
handle_error-Loses_example =
    handle_error-Loses given sample_heap-Allocates refl refl waiting_client (omega arith) refl refl
      zconnectionloss (omega arith) (λ e. absurd (omega arith)) waiting-IsRequests
      (request-IsTellable 7 (omega arith), (request-IsTellable 8 (omega arith), tt))

finish_handshake-Loses_example :
    (l : Loses
      (with_state expired_session_state waiting_client)
      zsessionexpired
      (handle_error given zsessionexpired (with_state expired_session_state waiting_client)))
    × (finish_handshake given old_session answer waiting_client
        ≡ some (
          (zsessionexpired, old_session),
          l.result,
          told_effects (with_state expired_session_state waiting_client) zsessionexpired ++ [],
        ))
finish_handshake-Loses_example =
    finish_handshake-Loses given sample_heap-Allocates refl refl old_session answer waiting_client
      refl refl (λ e. absurd (omega arith)) (λ e. absurd (omega arith)) waiting-IsRequests
      (request-IsTellable 7 (omega arith), (request-IsTellable 8 (omega arith), tt))

queue_session_event-Announces_example :
    Announces connecting_state client (queue_session_event given connecting_state client)
queue_session_event-Announces_example =
    queue_session_event-Announces given sample_heap-Allocates refl refl connecting_state client
      (omega arith) refl refl

-- A multi request of one delete that the connection was lost for.
abbrev multi_request : CompletionEntry Parts
multi_request = record (request 7) {
  type = 7;
  clist = some (
      record {
        xid = 7;
        type = 0;
        result = 1001;
        clist = none;
        contents = 800;
        buffer = none;
        watcher = none;
        watcher_result = [];
      }
      ∷ []);
}

complete_one-Strands_example : Strands sample_heap multi_request zconnectionloss client
complete_one-Strands_example =
    complete_one-Strands sample_heap multi_request zconnectionloss client sample_heap-Allocates refl
      (omega arith) (omega arith) (record { type = inl refl; function = omega arith }, tt)

-- An asynchronous delete waits, and a synchronous one behind it.
abbrev sync_request : CompletionEntry Parts
sync_request = record (request 8) { result = 2000 }

abbrev receiving : ZHandle assoc_table
receiving = record client {
  requests = record client.requests {
    sent_requests = request 7 ∷ sync_request ∷ [];
    outstanding_sync = 1;
  };
  to_process = reply_7 ∷ [];
}

receiving-IsRequests : IsRequests 2000 receiving.requests
receiving-IsRequests = record {
  counts = refl;
  word = omega arith;
  xids = (omega arith, (omega arith, tt));
}

abbrev received_7 : ZHandle assoc_table
received_7 = record client {
  last_zxid = 9;
  requests = record client.requests {
    sent_requests = sync_request ∷ [];
    completions_to_process = record (request 7) { buffer = some reply_7.buffer } ∷ [];
    outstanding_sync = 1;
  };
}

process_received-IsRequests_example : IsRequests 2000 received_7.requests
unfolding process_received frames_loop process_frame dispatch process_answer match_answer
    process_async dequeue_completion queue_completion_nolock activate_watcher ◌>>=◌ ◌>>◌ get modify
    pure demand open_frame deserialize_reply_header create_buffer_iarchive ia_deserialize_int
    ia_deserialize_long read fetch ia_start_record ia_end_record zoo_htonll swap_loop
process_received-IsRequests_example =
    process_received-IsRequests given sample_heap-Allocates receiving received_7 zok []
      receiving-IsRequests refl

process_answer-Loses_example :
    (l : Loses waiting_client zruntimeinconsistency
      (handle_error given zruntimeinconsistency waiting_client))
    × (process_answer given reply_7
          (record { xid = 8; zxid = 9; err = 0 })
          (record { len = 20; off = 16; buffer = none })
          waiting_client
        ≡ some (
          some zruntimeinconsistency,
          l.result,
          told_effects waiting_client zruntimeinconsistency ++ [],
        ))
process_answer-Loses_example =
    process_answer-Loses given reply_7 (record { xid = 8; zxid = 9; err = 0 })
      (record { len = 20; off = 16; buffer = none }) (request 7) (request 8 ∷ []) waiting_client
      sample_heap-Allocates refl refl (omega arith) refl refl waiting-IsRequests
      (request-IsTellable 7 (omega arith), (request-IsTellable 8 (omega arith), tt)) refl
      (λ e. absurd (omega arith))

abbrev anyone : AclVector
anyone = record {
  count = 1;
  items = record { perms = 31; id = record { scheme = some (119 ∷ []); id = some (97 ∷ []) } } ∷ [];
}

anyone-IsAclVector : IsAclVector anyone
anyone-IsAclVector = record {
  count = refl;
  short = omega arith;
  items = (
    record {
      perms = omega arith;
      id = record {
        scheme = (((omega arith, omega arith), tt), omega arith);
        id = (((omega arith, omega arith), tt), omega arith);
      };
    },
    tt,
  );
}

abbrev acl_answer : GetAclResponse
acl_answer = record { acl = anyone; stat = small_stat }

transfer-get_acl_response_example :
    transfer sample_heap
      (serialize_get_acl_response sample_heap acl_answer)
      (deserialize_get_acl_response sample_heap)
    ≡ some (good acl_answer)
unfolding get_acl_response_bytes acl_vector_bytes acls_bytes acl_bytes acl_id_bytes stat_bytes
    string_bytes long_bytes
transfer-get_acl_response_example =
    transfer-get_acl_response sample_heap sample_heap-Allocates acl_answer
      (record { acl = anyone-IsAclVector; few = omega arith; stat = small_stat-IsStat })
      (omega arith)

-- A delete waits for its answer when the handle is closed before it is connected.
abbrev connecting : ZHandle assoc_table
connecting = record client {
  requests = record client.requests {
    sent_requests = request 7 ∷ [];
    auth = record { auth_h = []; state = 1 };
  };
}

-- The header with the xid 7, the zxid -1 and ZCLOSING.
abbrev closing_response : List ℕ
closing_response =
    0 ∷ 0 ∷ 0 ∷ 7 ∷ 255 ∷ 255 ∷ 255 ∷ 255 ∷ 255 ∷ 255 ∷ 255 ∷ 255 ∷ 255 ∷ 255 ∷ 255 ∷ 140 ∷ []

abbrev closed : ZHandle assoc_table
closed = record connecting {
  requests = record connecting.requests {
    sent_requests = [];
    completions_to_process = record (request 7) { buffer = some closing_response } ∷ [];
    close_requested = true;
  };
}

connecting-IsRequests : IsRequests 2000 connecting.requests
connecting-IsRequests = record { counts = refl; word = omega arith; xids = (omega arith, tt) }

zookeeper_close-Closes_example : Closes given connecting closed []
unfolding zookeeper_close send_close cleanup_bufs ◌>>=◌ ◌>>◌ get modify emit demand pure
    free_completions free_loop fake_response create_buffer_oarchive serialize_reply_header
    oa_start_record oa_serialize_int write store oa_serialize_long oa_end_record get_buffer
    queue_completion_nolock free_auth_completions get_buffer_len get_auth_completions
    call_completions zoo_htonll swap_loop
zookeeper_close-Closes_example =
    zookeeper_close-Closes given sample_heap-Allocates connecting connecting-IsRequests 9 0
      (zok, []) closed [] refl
