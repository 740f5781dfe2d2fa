-- ===== src/Tests/CredentialRuns.antt =====
-- Multi requests, credentials and watches of src/zk/zookeeper.c.
use ext_zookeeper.Prelude.{ℕ, ◌≡◌, refl, inl, some, List, [], ◌∷◌, arith}
use ext_zookeeper.Codes.{zok}
use ext_zookeeper.Recordio.{Buffer, CString}
use ext_zookeeper.Recordio.Rules.{string_bytes, long_bytes, buffer_bytes, bool_bytes}
use ext_zookeeper.Jute.Multi.{multi_header_bytes, check_version_request_bytes}
use ext_zookeeper.Jute.MoreReads.{delete_request_bytes}
use ext_zookeeper.Jute.Updates.{auth_packet_bytes}
use ext_zookeeper.Jute.SetWatches.{IsSetWatches, set_watches_bytes}
use ext_zookeeper.Jute.StringVectors.{strings_bytes, string_vector_bytes}
use ext_zookeeper.Paths.{is_valid_path, check_chars, prepend_string}
use ext_zookeeper.Paths.Checks.{IsPath, is_valid_path_iff}
use ext_zookeeper.Auth.{AuthInfo, add_last_auth}
use ext_zookeeper.Watchers.{Listed, node}
use ext_zookeeper.Client.{
  ZHandle, ZooOp, delete_op, check_op, OpFunctions, check_version_request_init, delete_request_init,
}
use ext_zookeeper.Client.Submitting.{IsReady, fresh}
use ext_zookeeper.Client.MultiLoop.{AcceptsOp}
use ext_zookeeper.Client.MultiSending.{MultiSubmitted, zoo_amulti-MultiSubmitted}
use ext_zookeeper.Credentials.{zoo_add_auth, with_credentials}
use ext_zookeeper.Credentials.Sending.{FitsPacket, auth_frame, zoo_add_auth_lem}
use ext_zookeeper.Credentials.Watches.{
  resume, resume_renews, set_watches_of, watches_of, watches_payload, collect_keys,
}
use ext_zookeeper.Handshake.Finishing.{Renews, finish_handshake-Renews}
use ext_zookeeper.Tests.HandshakeRuns.{no_session, answer}
use ext_zookeeper.Tests.AssocTable.{assoc_table}
use ext_zookeeper.Tests.Heaps.{sample_heap-Allocates}
use ext_zookeeper.Tests.Clients.{given, client}

abbrev path_a : List ℕ
path_a = 47 ∷ 97 ∷ []

abbrev functions : OpFunctions
functions = record { op_result_string = 501; op_result_void = 502; op_result_stat = 503 }

abbrev delete_and_check : List ZooOp
delete_and_check = delete_op path_a 3 ∷ check_op path_a 4 ∷ []

ready : IsReady given client
ready = record {
  allocates = sample_heap-Allocates;
  entry = refl;
  packet = refl;
  usable = refl;
  packets = tt;
  enough = omega arith;
}

path_a-IsPath : IsPath path_a 0
unfolding is_valid_path check_chars
path_a-IsPath = (is_valid_path_iff path_a 0).0 refl

delete-AcceptsOp : AcceptsOp given client (delete_op path_a 3)
unfolding prepend_string delete_request_init
delete-AcceptsOp = record {
  path = record { valid = path_a-IsPath; usable = refl };
  fits = record {
    path = (((omega arith, omega arith), ((omega arith, omega arith), tt)), omega arith);
    version = omega arith;
  };
}

check-AcceptsOp : AcceptsOp given client (check_op path_a 4)
unfolding prepend_string check_version_request_init
check-AcceptsOp = record {
  path = record { valid = path_a-IsPath; usable = refl };
  fits = record {
    path = (((omega arith, omega arith), ((omega arith, omega arith), tt)), omega arith);
    version = omega arith;
  };
}

zoo_amulti-MultiSubmitted_example :
    MultiSubmitted given client functions 7 delete_and_check 800 1000 5
unfolding prepend_string delete_request_bytes check_version_request_bytes multi_header_bytes
    string_bytes bool_bytes
zoo_amulti-MultiSubmitted_example =
    zoo_amulti-MultiSubmitted given client ready functions 7 delete_and_check 800 1000 5
      (omega arith) (delete-AcceptsOp, (check-AcceptsOp, tt)) (omega arith)

-- The scheme "d" with one byte.
abbrev one_byte : Buffer
one_byte = record { len = 1; buff = some (9 ∷ []) }

abbrev scheme_d : List ℕ
scheme_d = 100 ∷ []

abbrev info : AuthInfo
info = record {
  state = 0;
  scheme = some scheme_d;
  auth = one_byte;
  completion = some 5;
  contents = 6;
}

info-FitsPacket : FitsPacket info
unfolding auth_packet_bytes string_bytes buffer_bytes
info-FitsPacket = record {
  fields = record {
    type = omega arith;
    scheme = (((omega arith, omega arith), tt), omega arith);
    auth = (refl, omega arith, (omega arith, tt));
  };
  size = omega arith;
}

zoo_add_auth_lem_example :
    zoo_add_auth given client (some scheme_d) (some (9 ∷ [])) 1 (some 5) 6
    ≡ some (zok, record (with_credentials info client) { to_send = auth_frame info ∷ [] })
unfolding add_last_auth
zoo_add_auth_lem_example =
    zoo_add_auth_lem given sample_heap-Allocates refl client scheme_d (some (9 ∷ [])) 1 (some 5) 6
      refl (refl, omega arith) info-FitsPacket (inl refl)

-- A watcher waits for the data of "/a".
abbrev watching : ZHandle assoc_table
watching = record client {
  watchers = record client.watchers {
    active_node_watchers = (path_a, record { watcher = 1; context = 10 } ∷ []) ∷ [];
  };
  requests = record client.requests { auth = record client.requests.auth { auth_h = info ∷ [] } };
}

watching-IsSetWatches : IsSetWatches (set_watches_of watching)
unfolding set_watches_of collect_keys
watching-IsSetWatches = record {
  relative_zxid = omega arith;
  data_watches = record {
    count = refl;
    short = omega arith;
    items = ((((omega arith, omega arith), ((omega arith, omega arith), tt)), omega arith), tt);
  };
  exist_watches = record { count = refl; short = omega arith; items = tt };
  child_watches = record { count = refl; short = omega arith; items = tt };
}

resume_renews_example :
    (resume given watching
      ≡ some (
        zok,
        record watching { to_send = auth_frame info ∷ fresh (watches_payload watching) ∷ [] },
      ))
    × Listed {A = CString} (some path_a) (watches_of (set_watches_of watching) node).items
unfolding set_watches_of collect_keys set_watches_bytes string_vector_bytes strings_bytes
    string_bytes long_bytes
resume_renews_example =
    resume_renews given sample_heap-Allocates refl watching watching-IsSetWatches (omega arith) node
      path_a (record { watcher = 1; context = 10 } ∷ []) refl (info-FitsPacket, tt)

finish_handshake-Renews_example : Renews given no_session answer watching node path_a
unfolding set_watches_of collect_keys set_watches_bytes string_vector_bytes strings_bytes
    string_bytes long_bytes
finish_handshake-Renews_example =
    finish_handshake-Renews given sample_heap-Allocates refl refl no_session answer watching refl
      refl node path_a (record { watcher = 1; context = 10 } ∷ []) (inl refl) watching-IsSetWatches
      (omega arith) refl (info-FitsPacket, tt)
