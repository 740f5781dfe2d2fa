-- ===== src/Watchers/Sessions.antt =====
-- collectWatchers for session events, which every watcher is told.
use ext_zookeeper.Prelude.{◌≡◌, ◌↔◌, ◌⊎◌, inl, inr, refl, sym, subst, true, [], Option-cases}
use ext_zookeeper.Codes.{session_event}
use ext_zookeeper.Watchers.Defs.{
  WatcherObject, WatcherObjectList, NodePath, Listed, Hashtable, Kind, node, exist, child, Handle,
  table_of, add_to_list, collect_watchers, create_watcher_object, copy_table,
  collect_session_watchers,
}
use ext_zookeeper.Watchers.Lists.{
  Distinct, add_to_list-Listed, add_to_list-Distinct, InSome, InSome-of, InSome-one,
  copy_lists-Listed, copy_lists-Distinct,
}
use ext_zookeeper.Watchers.Events.{Holds}

module _ (ht : Hashtable) where
  open ht use {Table, search, values, values-search, search-values}

  -- Who is told of a session event: a watcher that is found under some path in some table, and the
  -- handle's own.
  abbrev pub Told : Handle ht → WatcherObject → Type 0
  Told zh w =
      ((k : Kind) × ((p : NodePath) × Holds (search (table_of ht zh k) p) w))
      ⊎ (w ≡ create_watcher_object zh.watcher zh.context)

  pub record CollectsSession (zh : Handle ht) (run : Handle ht × WatcherObjectList) : Type 0 where
    pub same : run.0 ≡ zh
    pub listed : (w : WatcherObject) → Listed w run.1 ↔ Told zh w
    pub distinct : Distinct run.1

  -- The same by what iterators pass.
  abbrev Passed : Handle ht → WatcherObject → Type 0
  Passed zh w =
      InSome w (values zh.active_child_watchers)
      ⊎ (InSome w (values zh.active_exist_watchers)
          ⊎ (InSome w (values zh.active_node_watchers)
              ⊎ (w ≡ create_watcher_object zh.watcher zh.context)))

  -- What is found under some path is what an iterator passes.
  found_InSome :
      (t : Table) (w : WatcherObject)
      → ((p : NodePath) × Holds (search t p) w) ↔ InSome w (values t)
  found_InSome t w = (
    λ found. elim (Option-cases (search t found.0)) [
      | inl e ↦ absurd (rw e at found.1)
      | inr (l, e) ↦ InSome-of w (values t) l (values-search t found.0 l e) (rw e at found.1)
    ],
    λ h.
        let one = InSome-one w (values t) h in
        let key = search-values t one.0 one.1.0 in
        (key.0, subst (λ o. Holds o w) (sym key.1) one.1.1),
  )

  Passed-Told : (zh : Handle ht) (w : WatcherObject) → Passed zh w ↔ Told zh w
  Passed-Told zh w = (passed, told)
    where
      passed : Passed zh w → Told zh w
      passed (inl h) = inl (child, (found_InSome zh.active_child_watchers w).1 h)
      passed (inr (inl h)) = inl (exist, (found_InSome zh.active_exist_watchers w).1 h)
      passed (inr (inr (inl h))) = inl (node, (found_InSome zh.active_node_watchers w).1 h)
      passed (inr (inr (inr e))) = inr e

      told : Told zh w → Passed zh w
      told (inl (child, h)) = inl ((found_InSome zh.active_child_watchers w).0 h)
      told (inl (exist, h)) = inr (inl ((found_InSome zh.active_exist_watchers w).0 h))
      told (inl (node, h)) = inr (inr (inl ((found_InSome zh.active_node_watchers w).0 h)))
      told (inr e) = inr (inr (inr e))

  copy_table-Listed :
      (t : Table) (to : WatcherObjectList) (w : WatcherObject)
      → Listed w (copy_table ht t to) ↔ (InSome w (values t) ⊎ Listed w to)
  unfolding copy_table
  copy_table-Listed t to w = copy_lists-Listed (values t) to w

  copy_table-Distinct :
      (t : Table) (to : WatcherObjectList) → Distinct to → Distinct (copy_table ht t to)
  unfolding copy_table
  copy_table-Distinct t to d = copy_lists-Distinct (values t) to d

  session-Listed :
      (zh : Handle ht) (to : WatcherObjectList) (w : WatcherObject)
      → Listed w (collect_session_watchers ht zh to) ↔ (
          InSome w (values zh.active_child_watchers)
          ⊎ (InSome w (values zh.active_exist_watchers)
              ⊎ (InSome w (values zh.active_node_watchers) ⊎ Listed w to)))
  unfolding collect_session_watchers
  session-Listed zh to w =
      let a = copy_table-Listed zh.active_node_watchers to w in
      let b =
        copy_table-Listed zh.active_exist_watchers (copy_table ht zh.active_node_watchers to) w in
      let c =
        copy_table-Listed zh.active_child_watchers
          (copy_table ht zh.active_exist_watchers (copy_table ht zh.active_node_watchers to)) w in
      (
        λ h. elim (c.0 h) [
          | inl m ↦ inl m
          | inr m ↦ elim (b.0 m) [ inl n ↦ inr (inl n) | inr n ↦ inr (inr (a.0 n)) ]
        ],
        λ h. elim h [
          | inl m ↦ c.1 (inl m)
          | inr (inl m) ↦ c.1 (inr (b.1 (inl m)))
          | inr (inr m) ↦ c.1 (inr (b.1 (inr (a.1 m))))
        ],
      )

  session-Distinct :
      (zh : Handle ht) (to : WatcherObjectList)
      → Distinct to
      → Distinct (collect_session_watchers ht zh to)
  unfolding collect_session_watchers
  session-Distinct zh to d =
      copy_table-Distinct _ _ (copy_table-Distinct _ _ (copy_table-Distinct _ _ d))

  -- A session event is told to every watcher that is found under some path in one of the three
  -- tables and to the handle's own watcher, to each once and to no other, and all of them go on
  -- waiting.
  pub collect_watchers-CollectsSession :
      (zh : Handle ht) (path : NodePath)
      → CollectsSession zh (collect_watchers ht zh session_event path)
  unfolding collect_watchers
  collect_watchers-CollectsSession zh path =
      let own = create_watcher_object zh.watcher zh.context in
      let first = (add_to_list [] own true).head in
      let one = add_to_list-Listed [] own true in
      let listed_in : (w : WatcherObject)
          → Listed w (collect_session_watchers ht zh first) ↔ Passed zh w =
        λ w.
          let all = session-Listed zh first w in
          (
            λ h. elim (all.0 h) [
              | inl m ↦ inl m
              | inr (inl m) ↦ inr (inl m)
              | inr (inr (inl m)) ↦ inr (inr (inl m))
              | inr (inr (inr m)) ↦ elim ((one w).0 m) [
                | inl e ↦ inr (inr (inr e))
                | inr x ↦ absurd x
              ]
            ],
            λ h. elim h [
              | inl m ↦ all.1 (inl m)
              | inr (inl m) ↦ all.1 (inr (inl m))
              | inr (inr (inl m)) ↦ all.1 (inr (inr (inl m)))
              | inr (inr (inr m)) ↦ all.1 (inr (inr (inr ((one w).1 (inl m)))))
            ],
          ) in
      record {
        same = refl;
        listed = λ w. (
          λ m. (Passed-Told zh w).0 ((listed_in w).0 m),
          λ h. (listed_in w).1 ((Passed-Told zh w).1 h),
        );
        distinct = session-Distinct zh first (add_to_list-Distinct [] own true tt);
      }
