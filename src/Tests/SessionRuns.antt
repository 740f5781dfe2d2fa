-- ===== src/Tests/SessionRuns.antt =====
-- Completions and credentials of src/zk/zookeeper.c.
use ext_zookeeper.Prelude.{ℕ, refl, true, false, none, some, [], ◌∷◌, arith}
use ext_zookeeper.Codes.{zok}
use ext_zookeeper.Auth.{AuthInfo, AuthHandle, auth_completion_func}
use ext_zookeeper.Auth.Completions.{Answered, auth_completion_func-Answered}
use ext_zookeeper.Session.{
  CompletionEntry, Requests, add_completion, create_completion_entry, add_entry,
  queue_completion_nolock, free_completions,
}
use ext_zookeeper.Session.Completions.{FreesAll, IsRequests, free_completions-FreesAll}
use ext_zookeeper.Session.Adding.{Adds, entry_of, add_completion-Adds}
use ext_zookeeper.Tests.Heaps.{sample_heap, sample_heap-Allocates}

abbrev credentials : AuthInfo
credentials = record {
  state = 0;
  scheme = some (100 ∷ []);
  auth = record { len = 1; buff = some (1 ∷ []) };
  completion = some 5;
  contents = 6;
}

abbrev handle : AuthHandle
handle = record { auth_h = credentials ∷ []; state = 3 }

-- A request for a function at 1000, and a synchronous one: the marker is 2000.
abbrev async_get : CompletionEntry ℕ
async_get = record {
  xid = 1;
  type = 2;
  result = 1000;
  clist = none;
  contents = 7;
  buffer = none;
  watcher = none;
  watcher_result = [];
}

abbrev sync_get : CompletionEntry ℕ
sync_get = record {
  xid = 2;
  type = 2;
  result = 2000;
  clist = none;
  contents = 8;
  buffer = none;
  watcher = none;
  watcher_result = [];
}

abbrev busy : Requests ℕ
busy = record {
  sent_requests = async_get ∷ sync_get ∷ [];
  completions_to_process = [];
  outstanding_sync = 1;
  close_requested = false;
  auth = handle;
}

busy-IsRequests : IsRequests 2000 busy
busy-IsRequests = record {
  counts = refl;
  word = omega arith;
  xids = (omega arith, (omega arith, tt));
}

abbrev busier : Requests ℕ
busier = record busy { sent_requests = async_get ∷ sync_get ∷ sync_get ∷ []; outstanding_sync = 2 }

auth_completion_func-Answered_example : Answered 9 handle (auth_completion_func 9 (some handle))
auth_completion_func-Answered_example = auth_completion_func-Answered 9 handle

free_completions-FreesAll_example :
    FreesAll 2000 busy 9 (free_completions sample_heap 2000 busy true 9)
free_completions-FreesAll_example =
    free_completions-FreesAll 2000 sample_heap busy 9 sample_heap-Allocates (omega arith)
      busy-IsRequests

add_completion-Adds_example :
    Adds 2000 busy (entry_of 2000 2 2 2000 8 none none) false (zok, busier)
unfolding add_completion create_completion_entry add_entry queue_completion_nolock
add_completion-Adds_example =
    add_completion-Adds 2000 true busy 2 2 2000 8 false none none (zok, busier) (omega arith)
      (omega arith) (omega arith) busy-IsRequests refl
