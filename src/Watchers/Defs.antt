-- ===== src/Watchers/Defs.antt =====
-- src/zk/zk_hashtable.c, and the result checkers of src/zk/zookeeper.c. The table of
-- src/zk/hashtable is a library: `Hashtable` is what zk_hashtable.c relies on.
use ext_zookeeper.Prelude.{
  ℕ, ◌≡◌, ◌≢◌, Bool, true, false, Option, none, some, List, [], ◌∷◌, ◌==◌, ◌&&◌, ◌⊎◌, if◌then◌else◌,
}
use ext_zookeeper.Codes.{
  zok, znonode, created_event, deleted_event, changed_event, child_event, session_event,
}

abbrev pub NodePath : Type 0
NodePath = List ℕ

-- watcher_object_t; `next` is the place in a list. A function or a context is its address.
pub record WatcherObject : Type 0 where
  pub watcher : ℕ
  pub context : ℕ

-- watcher_object_list_t
abbrev pub WatcherObjectList : Type 0
WatcherObjectList = List WatcherObject

-- `x` stands in the list.
abbrev pub Listed : {A : Type 0} → A → List A → Type 0
Listed x [] = ⊥
Listed x (y ∷ ys) = (x ≡ y) ⊎ Listed x ys

-- A table that maps strings to lists of watchers. `assign` is a write through the pointer that
-- hashtable_search has returned; `values` and `keys` are what an iterator passes.
pub record Hashtable : Type 1 where
  pub Table : Type 0
  pub search : Table → NodePath → Option WatcherObjectList
  pub insert : Table → NodePath → WatcherObjectList → Table
  pub assign : Table → NodePath → WatcherObjectList → Table
  pub remove : Table → NodePath → Table
  pub values : Table → List WatcherObjectList
  pub keys : Table → List NodePath
  pub search-insert :
      (t : Table) (k : NodePath) (v : WatcherObjectList)
      → search t k ≡ none
      → search (insert t k v) k ≡ some v
  pub search-insert_other :
      (t : Table) (k k' : NodePath) (v : WatcherObjectList)
      → k ≢ k'
      → search (insert t k v) k' ≡ search t k'
  pub search-assign :
      (t : Table) (k : NodePath) (v w : WatcherObjectList)
      → search t k ≡ some v
      → search (assign t k w) k ≡ some w
  pub search-assign_other :
      (t : Table) (k k' : NodePath) (v : WatcherObjectList)
      → k ≢ k'
      → search (assign t k v) k' ≡ search t k'
  pub search-remove : (t : Table) (k : NodePath) → search (remove t k) k ≡ none
  pub search-remove_other :
      (t : Table) (k k' : NodePath) → k ≢ k' → search (remove t k) k' ≡ search t k'
  pub values-search :
      (t : Table) (k : NodePath) (v : WatcherObjectList) → search t k ≡ some v → Listed v (values t)
  pub keys-search :
      (t : Table) (k : NodePath) (v : WatcherObjectList) → search t k ≡ some v → Listed k (keys t)
  pub search-values :
      (t : Table) (v : WatcherObjectList)
      → Listed v (values t)
      → (k : NodePath) × (search t k ≡ some v)
  pub search-keys :
      (t : Table) (k : NodePath)
      → Listed k (keys t)
      → (v : WatcherObjectList) × (search t k ≡ some v)

-- `wobj->watcher==wo->watcher && wobj->context==wo->context`
abbrev pub same : WatcherObject → WatcherObject → Bool
same wobj wo = (wobj.watcher == wo.watcher) && (wobj.context == wo.context)

unfoldable pub search_watcher : WatcherObjectList → WatcherObject → Option WatcherObject
search_watcher [] wo = none
search_watcher (wobj ∷ rest) wo = if same wobj wo then some wobj else search_watcher rest wo

unfoldable pub create_watcher_object : ℕ → ℕ → WatcherObject
create_watcher_object watcher ctx = record { watcher = watcher; context = ctx }

unfoldable pub clone_watcher_object : WatcherObject → WatcherObject
clone_watcher_object wo = record { watcher = wo.watcher; context = wo.context }

-- What add_to_list leaves: its result, the list, and whether `wo` was freed.
pub record Added : Type 0 where
  pub res : ℕ
  pub head : WatcherObjectList
  pub freed : Bool

unfoldable pub add_to_list : WatcherObjectList → WatcherObject → Bool → Added
add_to_list wl wo clone = elim (search_watcher wl wo) [
  | none ↦ record {
    res = 1;
    head = (if clone then clone_watcher_object wo else wo) ∷ wl;
    freed = false;
  }
  | some found ↦ record { res = 0; head = wl; freed = if clone then false else true }
]

-- The list that is copied to.
unfoldable pub copy_watchers : WatcherObjectList → WatcherObjectList → Bool → WatcherObjectList
copy_watchers [] to clone = to
copy_watchers (wo ∷ next) to clone = copy_watchers next (add_to_list to wo clone).head clone

-- The loop of copy_table, over what the iterator passes.
unfoldable pub copy_lists : List WatcherObjectList → WatcherObjectList → WatcherObjectList
copy_lists [] to = to
copy_lists (w ∷ more) to = copy_lists more (copy_watchers w to true)

-- The functions that a registration may carry.
pub data Checker : Type 0 where
  exists_result data_result child_result : Checker

-- watcher_registration_t
pub record WatcherRegistration : Type 0 where
  pub watcher : ℕ
  pub context : ℕ
  pub checker : Checker
  pub path : NodePath

-- One of the three tables of a handle.
pub data Kind : Type 0 where
  node exist child : Kind

-- exists_result_checker, data_result_checker and child_result_checker
unfoldable pub check_result : Checker → ℕ → Option Kind
check_result exists_result rc =
    if rc == zok then some node else if rc == znonode then some exist else none
check_result data_result rc = if rc == zok then some node else none
check_result child_result rc = if rc == zok then some child else none

-- A call of a watcher: `wo->watcher(zh,type,state,client_path,wo->context)`.
pub record Call : Type 0 where
  pub watcher : ℕ
  pub type : ℕ
  pub state : ℕ
  pub path : NodePath
  pub context : ℕ

module _ (ht : Hashtable) where
  open ht use {Table, search, insert, assign, remove, values}

  -- The part of zhandle_t that watchers are kept in.
  pub record Handle : Type 0 where
    pub active_node_watchers : Table
    pub active_exist_watchers : Table
    pub active_child_watchers : Table
    pub watcher : ℕ
    pub context : ℕ

  abbrev pub table_of : Handle → Kind → Table
  table_of zh node = zh.active_node_watchers
  table_of zh exist = zh.active_exist_watchers
  table_of zh child = zh.active_child_watchers

  abbrev pub with_table : Handle → Kind → Table → Handle
  with_table zh node t = record zh { active_node_watchers = t }
  with_table zh exist t = record zh { active_exist_watchers = t }
  with_table zh child t = record zh { active_child_watchers = t }

  unfoldable pub do_insert_watcher_object : Table → NodePath → WatcherObject → ℕ × Table
  do_insert_watcher_object t path wo = elim (search t path) [
    | none ↦ (1, insert t path (wo ∷ []))
    | some wl ↦ let added = add_to_list wl wo false in (added.res, assign t path added.head)
  ]

  unfoldable pub add_for_event : Table → NodePath → WatcherObjectList → Table × WatcherObjectList
  add_for_event t path list = elim (search t path) [
    | none ↦ (remove t path, list)
    | some wl ↦ (remove t path, copy_watchers wl list false)
  ]

  unfoldable pub copy_table : Table → WatcherObjectList → WatcherObjectList
  copy_table from to = copy_lists (values from) to

  unfoldable pub collect_session_watchers : Handle → WatcherObjectList → WatcherObjectList
  collect_session_watchers zh list =
      copy_table zh.active_child_watchers
        (copy_table zh.active_exist_watchers (copy_table zh.active_node_watchers list))

  -- The tables that an event of a type empties, in order.
  abbrev pub kinds_of : ℕ → List Kind
  kinds_of type =
      if (type == created_event)
      then node ∷ exist ∷ []
      else if (type == changed_event)
      then node ∷ exist ∷ []
      else if (type == child_event)
      then child ∷ []
      else if (type == deleted_event)
      then node ∷ exist ∷ child ∷ []
      else []

  unfoldable pub add_for_kinds :
      List Kind → Handle → NodePath → WatcherObjectList → Handle × WatcherObjectList
  add_for_kinds [] zh path list = (zh, list)
  add_for_kinds (k ∷ ks) zh path list =
      let moved = add_for_event (table_of zh k) path list in
      add_for_kinds ks (with_table zh k moved.0) path moved.1

  unfoldable pub collect_watchers : Handle → ℕ → NodePath → Handle × WatcherObjectList
  collect_watchers zh type path =
      if type == session_event
      then (
        zh,
        collect_session_watchers zh
            (add_to_list [] (create_watcher_object zh.watcher zh.context) true).head,
      )
      else add_for_kinds (kinds_of type) zh path []

  unfoldable pub activate_watcher : Handle → Option WatcherRegistration → ℕ → Handle
  activate_watcher zh none rc = zh
  activate_watcher zh (some reg) rc = elim (check_result reg.checker rc) [
    | none ↦ zh
    | some k ↦
        let inserted =
          do_insert_watcher_object (table_of zh k) reg.path
            (create_watcher_object reg.watcher reg.context) in
        with_table zh k inserted.1
  ]

-- The calls that deliverWatchers makes, in order. `sub_string` strips the chroot.
unfoldable pub foreach_watcher : WatcherObjectList → ℕ → ℕ → NodePath → List Call
foreach_watcher [] type state path = []
foreach_watcher (wo ∷ next) type state path =
    record { watcher = wo.watcher; type = type; state = state; path = path; context = wo.context }
    ∷ foreach_watcher next type state path

unfoldable pub deliver_watchers :
    (NodePath → NodePath) → ℕ → ℕ → NodePath → Option WatcherObjectList → List Call
deliver_watchers sub_string type state path none = []
deliver_watchers sub_string type state path (some list) =
    foreach_watcher list type state (if type == session_event then path else sub_string path)
