-- ===== src/Tests/WatcherRuns.antt =====
-- Watchers of src/zk/zk_hashtable.c, with an association list for the table.
use ext_zookeeper.Prelude.{◌≡◌, refl, some, [], ◌∷◌, arith}
use ext_zookeeper.Codes.{zok, created_event, session_event}
use ext_zookeeper.Watchers.{
  Handle, NodePath, WatcherRegistration, data_result, node, exist, child, Kind, kinds_of, table_of,
  WatcherObjectList, collect_watchers, activate_watcher, check_result,
}
use ext_zookeeper.Watchers.Lists.{Distinct}
use ext_zookeeper.Watchers.Events.{Collects, collect_watchers-Collects}
use ext_zookeeper.Watchers.Registering.{
  Activates, IsHandle, activate_watcher-Activates, activate_watcher-IsHandle,
}
use ext_zookeeper.Watchers.Sessions.{CollectsSession, collect_watchers-CollectsSession}
use ext_zookeeper.Tests.AssocTable.{assoc_table, find-Distinct}

abbrev some_path : NodePath
some_path = 47 ∷ 97 ∷ []

-- One watcher waits for the data of "/a", and another for "/a" to exist.
abbrev watching : Handle assoc_table
watching = record {
  active_node_watchers = (some_path, record { watcher = 1; context = 10 } ∷ []) ∷ [];
  active_exist_watchers = (some_path, record { watcher = 2; context = 20 } ∷ []) ∷ [];
  active_child_watchers = [];
  watcher = 3;
  context = 30;
}

watching-IsHandle : IsHandle assoc_table watching
watching-IsHandle = record { tables = λ k. record { distinct = λ p l h. lists k p l h } }
  where
    lists :
        (k : Kind) (p : NodePath) (l : WatcherObjectList)
        → assoc_table.search (table_of assoc_table watching k) p ≡ some l
        → Distinct l
    lists node p l h = find-Distinct watching.active_node_watchers p l ((λ x. x, tt), tt) h
    lists exist p l h = find-Distinct watching.active_exist_watchers p l ((λ x. x, tt), tt) h
    lists child p l h = find-Distinct watching.active_child_watchers p l tt h

abbrev data_watch : WatcherRegistration
data_watch = record { watcher = 4; context = 40; checker = data_result; path = some_path }

collect_watchers-Collects_example :
    Collects assoc_table
      (kinds_of assoc_table created_event)
      watching
      some_path
      []
      (collect_watchers assoc_table watching created_event some_path)
collect_watchers-Collects_example =
    collect_watchers-Collects assoc_table watching created_event some_path (omega arith)

collect_watchers-CollectsSession_example :
    CollectsSession assoc_table watching (collect_watchers assoc_table watching session_event [])
collect_watchers-CollectsSession_example = collect_watchers-CollectsSession assoc_table watching []

activate_watcher-Activates_example :
    Activates assoc_table watching data_watch node
      (activate_watcher assoc_table watching (some data_watch) zok)
unfolding check_result
activate_watcher-Activates_example =
    activate_watcher-Activates assoc_table watching data_watch zok node refl

activate_watcher-IsHandle_example :
    IsHandle assoc_table (activate_watcher assoc_table watching (some data_watch) zok)
activate_watcher-IsHandle_example =
    activate_watcher-IsHandle assoc_table watching (some data_watch) zok watching-IsHandle
