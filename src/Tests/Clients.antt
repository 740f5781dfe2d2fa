-- ===== src/Tests/Clients.antt =====
-- A connected client without requests, for the tests of src/zk/zookeeper.c.
use ext_zookeeper.Prelude.{true, false, none, [], ◌∷◌}
use ext_zookeeper.Frames.{poll_ready, sent, FlushEvent}
use ext_zookeeper.Client.{ZHandle, Surroundings}
use ext_zookeeper.Tests.AssocTable.{assoc_table}
use ext_zookeeper.Tests.Heaps.{sample_heap}

abbrev pub all_out : FlushEvent
all_out = record { elapsed = 0; poll = poll_ready; first = sent 4; second = sent 100 }

-- The marker of synchronous callers is 2000.
abbrev pub given : Surroundings
given = record {
  heap = sample_heap;
  sync_marker = 2000;
  entry_given = true;
  registration_given = true;
  packet_given = true;
  events = all_out ∷ all_out ∷ [];
  room = λ a. 8;
}

-- It has a watcher for the events of the session, 3 with the context 30.
abbrev pub client : ZHandle assoc_table
client = record {
  chroot = none;
  last_zxid = 0;
  watchers = record {
    active_node_watchers = [];
    active_exist_watchers = [];
    active_child_watchers = [];
    watcher = 3;
    context = 30;
  };
  requests = record {
    sent_requests = [];
    completions_to_process = [];
    outstanding_sync = 0;
    close_requested = false;
    auth = record { auth_h = []; state = 3 };
  };
  to_send = [];
  to_process = [];
}
