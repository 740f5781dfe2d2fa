-- ===== src/Watchers/Registering.antt =====
-- activateWatcher: a watcher that the server has accepted comes to wait for its path.
use ext_zookeeper.Prelude.{
  ℕ, ◌≡◌, ◌≢◌, ◌↔◌, ◌⊎◌, inl, inr, refl, sym, ◌∙◌, ap₂, subst, false, Option, none, some, [], ◌∷◌,
  ◌==◌, arith, Bool-cases, Option-cases,
}
use ext_zookeeper.Watchers.Defs.{
  WatcherObject, WatcherObjectList, WatcherRegistration, NodePath, Hashtable, Kind, Handle,
  table_of, with_table, do_insert_watcher_object, add_to_list, check_result, activate_watcher,
  create_watcher_object,
}
use ext_zookeeper.Watchers.Lists.{Distinct, add_to_list-Listed, add_to_list-Distinct}
use ext_zookeeper.Watchers.Events.{
  Holds, Kind-cases, table_of-with_table, table_of-with_table_other,
}

some_eq : {x y : WatcherObjectList} → some x ≡ some y → x ≡ y
some_eq h = cc

path-cases : (p q : NodePath) → (p ≡ q) ⊎ (p ≢ q)
path-cases [] [] = inl refl
path-cases [] (y ∷ ys) = inr (λ e. cc)
path-cases (x ∷ xs) [] = inr (λ e. cc)
path-cases (x ∷ xs) (y ∷ ys) = elim (Bool-cases (x == y)) [
  | inr e ↦ inr (λ h. let q : x ≡ y = cc in ground arith)
  | inl e ↦ elim (path-cases xs ys) [
    | inl t ↦ inl (ap₂ ◌∷◌ (ground arith) t)
    | inr n ↦ inr (λ h. n (cc))
  ]
]

module _ (ht : Hashtable) where
  open ht use {
    Table, search, values, search-insert, search-insert_other, search-assign, search-assign_other,
    values-search,
  }

  -- What inserting `wo` under `path` does to a table.
  pub record Inserts (t : Table) (path : NodePath) (wo : WatcherObject) (t' : Table) : Type 0 where
    pub holds :
        (w : WatcherObject) → Holds (search t' path) w ↔ ((w ≡ wo) ⊎ Holds (search t path) w)
    pub others : (p : NodePath) → path ≢ p → search t' p ≡ search t p

  -- No list of a table holds a watcher twice.
  pub record IsTable (t : Table) : Type 0 where
    pub distinct : (p : NodePath) (l : WatcherObjectList) → search t p ≡ some l → Distinct l

  do_insert-Inserts :
      (t : Table) (path : NodePath) (wo : WatcherObject)
      → Inserts t path wo (do_insert_watcher_object ht t path wo).1
  unfolding do_insert_watcher_object
  do_insert-Inserts t path wo = elim (Option-cases (search t path)) [
    | inl e ↦
        rw (e, do_insert_watcher_object)
          (record {
            holds = λ w. rw (e, search-insert t path (wo ∷ []) e) (λ h. h, λ h. h);
            others = λ p h. search-insert_other t path p (wo ∷ []) h;
          })
    | inr (wl, e) ↦
        rw (e, do_insert_watcher_object)
          (record {
            holds = λ w.
                rw (e, search-assign t path wl (add_to_list wl wo false).head e)
                  (add_to_list-Listed wl wo false w);
            others = λ p h. search-assign_other t path p (add_to_list wl wo false).head h;
          })
  ]

  do_insert-IsTable :
      (t : Table) (path : NodePath) (wo : WatcherObject)
      → IsTable t
      → IsTable (do_insert_watcher_object ht t path wo).1
  unfolding do_insert_watcher_object
  do_insert-IsTable t path wo v = record {
    distinct = λ p l h. elim (path-cases path p) [
      | inr n ↦ v.distinct p l (sym ((do_insert-Inserts t path wo).others p n) ∙ h)
      | inl same ↦
          at_path l
            (subst (λ q. search (do_insert_watcher_object ht t path wo).1 q ≡ some l) (sym same) h)
    ];
  }
    where
      at_path :
          (l : WatcherObjectList)
          → search (do_insert_watcher_object ht t path wo).1 path ≡ some l
          → Distinct l
      at_path l h = elim (Option-cases (search t path)) [
        | inl e ↦
            subst Distinct
              (some_eq
                (sym (search-insert t path (wo ∷ []) e) ∙ (rw (e, do_insert_watcher_object) at h)))
              (λ x. x, tt)
        | inr (wl, e) ↦
            subst Distinct
              (some_eq (
                sym (search-assign t path wl (add_to_list wl wo false).head e)
                ∙ (rw (e, do_insert_watcher_object) at h)))
              (add_to_list-Distinct wl wo false (v.distinct path wl e))
      ]

  -- A handle of which no list holds a watcher twice.
  pub record IsHandle (zh : Handle ht) : Type 0 where
    pub tables : (k : Kind) → IsTable (table_of ht zh k)

  abbrev registered : WatcherRegistration → WatcherObject
  registered reg = create_watcher_object reg.watcher reg.context

  -- What activateWatcher does when the checker names a table: the watcher waits there for its path,
  -- with those that did, and all else stays.
  pub record Activates (zh : Handle ht) (reg : WatcherRegistration) (k : Kind) (zh' : Handle ht)
      : Type 0 where
    pub inserts : Inserts (table_of ht zh k) reg.path (registered reg) (table_of ht zh' k)
    pub untouched : (k' : Kind) → k ≢ k' → table_of ht zh' k' ≡ table_of ht zh k'

  -- When the checker of a registration names a table for the result, activateWatcher makes the
  -- watcher wait there for its path, next to those that did, and changes nothing for other paths
  -- or in the other tables.
  pub activate_watcher-Activates :
      (zh : Handle ht) (reg : WatcherRegistration) (rc : ℕ) (k : Kind)
      → check_result reg.checker rc ≡ some k
      → Activates zh reg k (activate_watcher ht zh (some reg) rc)
  unfolding activate_watcher
  activate_watcher-Activates zh reg rc k e =
      let t = (do_insert_watcher_object ht (table_of ht zh k) reg.path (registered reg)).1 in
      rw (e, activate_watcher)
        (record {
          inserts =
              rw (table_of-with_table ht zh k t)
                (do_insert-Inserts (table_of ht zh k) reg.path (registered reg));
          untouched = λ k' n. table_of-with_table_other ht zh k k' t n;
        })

  activate_watcher-none :
      (zh : Handle ht) (reg : WatcherRegistration) (rc : ℕ)
      → check_result reg.checker rc ≡ none
      → activate_watcher ht zh (some reg) rc ≡ zh
  unfolding activate_watcher
  activate_watcher-none zh reg rc e = rw (e, activate_watcher)

  -- activateWatcher keeps it so that no list of a handle's tables holds a watcher twice.
  pub activate_watcher-IsHandle :
      (zh : Handle ht) (reg : Option WatcherRegistration) (rc : ℕ)
      → IsHandle zh
      → IsHandle (activate_watcher ht zh reg rc)
  unfolding activate_watcher
  activate_watcher-IsHandle zh none rc v = v
  activate_watcher-IsHandle zh (some reg) rc v = elim (Option-cases (check_result reg.checker rc)) [
    | inl e ↦ rw (e, activate_watcher) v
    | inr (k, e) ↦
        rw (e, activate_watcher)
          (record {
            tables = λ k'.
                let t =
                  (do_insert_watcher_object ht (table_of ht zh k) reg.path (registered reg)).1 in
                elim (Kind-cases ht k k') [
                  | inl same ↦
                      subst (λ q. IsTable (table_of ht (with_table ht zh k t) q)) same
                        (rw (table_of-with_table ht zh k t) (
                          do_insert-IsTable (table_of ht zh k) reg.path (registered reg)
                            (v.tables k)))
                  | inr n ↦ rw (table_of-with_table_other ht zh k k' t n) (v.tables k')
                ];
          })
  ]
