-- ===== src/Tests/ClientRuns.antt =====
-- Request functions of src/zk/zookeeper.c.
use ext_zookeeper.Prelude.{◌++◌, refl, true, false, none, some, List, [], ◌∷◌, arith, ℕ}
use ext_zookeeper.Codes.{zoo_sync_op}
use ext_zookeeper.Paths.{is_valid_path, check_chars, prepend_string}
use ext_zookeeper.Recordio.Rules.{string_bytes}
use ext_zookeeper.Paths.Checks.{IsPath, is_valid_path_iff}
use ext_zookeeper.Jute.Headers.{request_header_bytes}
use ext_zookeeper.Jute.MoreReads.{
  serialize_sync_request, sync_request_bytes, sync_request-Output, IsSyncRequest,
}
use ext_zookeeper.Client.{
  ZHandle, Surroundings, Completion, submit, header, completion, completion_string,
}
use ext_zookeeper.Client.Operations.{perform, async, Operation, completion_of, body_of}
use ext_zookeeper.Client.Submitting.{IsReady, IsCompletion, waiting}
use ext_zookeeper.Client.Sending.{Accepts, Requested, perform-Requested}
use ext_zookeeper.Client.Refusing.{Fails, submit_strands}
use ext_zookeeper.Tests.AssocTable.{assoc_table}
use ext_zookeeper.Tests.Heaps.{sample_heap, sample_heap-Allocates}
use ext_zookeeper.Tests.Clients.{given, client}

-- "/a"
abbrev path_a : List ℕ
path_a = 47 ∷ 97 ∷ []

abbrev sync_a : Operation
sync_a = async path_a

client-IsReady : IsReady given client
client-IsReady = record {
  allocates = sample_heap-Allocates;
  entry = refl;
  packet = refl;
  usable = refl;
  packets = tt;
  enough = omega arith;
}

path_a-IsPath : IsPath path_a 0
unfolding is_valid_path check_chars
path_a-IsPath = (is_valid_path_iff path_a 0).0 refl

client-Accepts : Accepts client 0 path_a
unfolding prepend_string
client-Accepts = record { valid = path_a-IsPath; usable = refl }

path_a-IsSyncRequest : IsSyncRequest (record { path = some path_a })
path_a-IsSyncRequest = record {
  path = (((omega arith, omega arith), ((omega arith, omega arith), tt)), omega arith);
}

perform-Requested_example :
    Requested given client 7
      (completion_of path_a sync_a 1000 5)
      (request_header_bytes (header 7 zoo_sync_op) ++ body_of path_a sync_a)
      (perform given 7 (some client) sync_a 1000 5)
unfolding prepend_string sync_request_bytes string_bytes
perform-Requested_example =
    perform-Requested given client 7 1000 5 client-IsReady (omega arith) sync_a refl client-Accepts
      path_a-IsSyncRequest (omega arith)

abbrev answer_to_sync : Completion
answer_to_sync = completion completion_string 1000 5 none

answer_to_sync-IsCompletion : IsCompletion answer_to_sync
answer_to_sync-IsCompletion = record { type = omega arith; parts = λ e. absurd (omega arith) }

abbrev closing : ZHandle assoc_table
closing = record client { requests = record client.requests { close_requested = true } }

abbrev without_packets : Surroundings
without_packets = record given { packet_given = false }

submit_strands_example : Fails client (waiting 2000 client.requests 7 answer_to_sync) (
    submit without_packets client
      (header 7 zoo_sync_op)
      (serialize_sync_request sample_heap (record { path = some path_a }))
      answer_to_sync)
unfolding sync_request_bytes string_bytes
submit_strands_example =
    submit_strands without_packets client (header 7 zoo_sync_op)
      (serialize_sync_request sample_heap (record { path = some path_a })) answer_to_sync
      (sync_request_bytes (record { path = some path_a })) sample_heap-Allocates tt (omega arith)
      answer_to_sync-IsCompletion (record { xid = omega arith; type = omega arith })
      (sync_request-Output sample_heap sample_heap-Allocates _ path_a-IsSyncRequest) (omega arith)
      refl refl refl
