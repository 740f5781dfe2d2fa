-- ===== src/Watchers/Events.antt =====
-- collectWatchers for the events of a path: which watchers it takes, and that it takes them out.
use ext_zookeeper.Prelude.{
  ℕ, ◌≡◌, ◌≢◌, ◌↔◌, ◌⊎◌, inl, inr, refl, sym, ◌∙◌, Bool, true, false, Option, none, some, List, [],
  ◌∷◌, ◌==◌, if◌then◌else◌, arith, Bool-cases, Option-cases,
}
use ext_zookeeper.Codes.{created_event, changed_event, child_event, deleted_event, session_event}
use ext_zookeeper.Watchers.Defs.{
  WatcherObject, WatcherObjectList, NodePath, Listed, Hashtable, Kind, node, exist, child, Handle,
  table_of, with_table, add_for_event, kinds_of, add_for_kinds, collect_watchers,
}
use ext_zookeeper.Watchers.Lists.{Distinct, copy_watchers-Listed, copy_watchers-Distinct}

-- The list that a search finds holds `w`.
abbrev pub Holds : Option WatcherObjectList → WatcherObject → Type 0
Holds none w = ⊥
Holds (some l) w = Listed w l

module _ (ht : Hashtable) where
  open ht use {Table, search, remove, search-remove, search-remove_other}

  -- `w` waits for a path in one of some tables of a handle.
  abbrev pub Awaits : Handle ht → NodePath → WatcherObject → List Kind → Type 0
  Awaits zh path w [] = ⊥
  Awaits zh path w (k ∷ ks) = Holds (search (table_of ht zh k) path) w ⊎ Awaits zh path w ks

  -- What is moved out of one table.
  pub record Moves (t : Table) (path : NodePath) (list : WatcherObjectList)
      (run : Table × WatcherObjectList) : Type 0 where
    pub table : run.0 ≡ remove t path
    pub listed : (w : WatcherObject) → Listed w run.1 ↔ (Holds (search t path) w ⊎ Listed w list)
    pub distinct : Distinct list → Distinct run.1

  add_for_event-Moves :
      (t : Table) (path : NodePath) (list : WatcherObjectList)
      → Moves t path list (add_for_event ht t path list)
  unfolding add_for_event
  add_for_event-Moves t path list = elim (Option-cases (search t path)) [
    | inl e ↦
        rw (e, add_for_event)
          (record {
            table = refl;
            listed = λ w. rw e (inr, λ h. elim h [ inl x ↦ absurd x | inr m ↦ m ]);
            distinct = λ d. d;
          })
    | inr (wl, e) ↦
        rw (e, add_for_event)
          (record {
            table = refl;
            listed = λ w. rw e (copy_watchers-Listed wl list false w);
            distinct = copy_watchers-Distinct wl list false;
          })
  ]

  pub table_of-with_table :
      (zh : Handle ht) (k : Kind) (t : Table) → table_of ht (with_table ht zh k t) k ≡ t
  table_of-with_table zh node t = refl
  table_of-with_table zh exist t = refl
  table_of-with_table zh child t = refl

  pub table_of-with_table_other :
      (zh : Handle ht) (k k' : Kind) (t : Table)
      → k ≢ k'
      → table_of ht (with_table ht zh k t) k' ≡ table_of ht zh k'
  table_of-with_table_other zh node node t h = absurd (h refl)
  table_of-with_table_other zh node exist t h = refl
  table_of-with_table_other zh node child t h = refl
  table_of-with_table_other zh exist node t h = refl
  table_of-with_table_other zh exist exist t h = absurd (h refl)
  table_of-with_table_other zh exist child t h = refl
  table_of-with_table_other zh child node t h = refl
  table_of-with_table_other zh child exist t h = refl
  table_of-with_table_other zh child child t h = absurd (h refl)

  Awaits-with_table :
      (zh : Handle ht) (k : Kind) (t : Table) (path : NodePath) (w : WatcherObject) (ks : List Kind)
      → ¬ Listed k ks
      → Awaits (with_table ht zh k t) path w ks ↔ Awaits zh path w ks
  Awaits-with_table zh k t path w [] h = (λ x. x, λ x. x)
  Awaits-with_table zh k t path w (k' ∷ ks) h =
      let e = table_of-with_table_other zh k k' t (λ x. h (inl x)) in
      let rest = Awaits-with_table zh k t path w ks (λ x. h (inr x)) in
      (
        λ x. elim x [ inl a ↦ inl (rw e at a) | inr b ↦ inr (rest.0 b) ],
        λ x. elim x [ inl a ↦ inl (rw e a) | inr b ↦ inr (rest.1 b) ],
      )

  -- What collectWatchers does with an event of a path, when the tables of some kinds are emptied.
  pub record Collects (ks : List Kind) (zh : Handle ht) (path : NodePath) (list : WatcherObjectList)
      (run : Handle ht × WatcherObjectList) : Type 0 where
    pub listed : (w : WatcherObject) → Listed w run.1 ↔ (Awaits zh path w ks ⊎ Listed w list)
    pub distinct : Distinct list → Distinct run.1
    pub taken : (k : Kind) → Listed k ks → search (table_of ht run.0 k) path ≡ none
    pub others :
        (k : Kind) (p : NodePath)
        → path ≢ p
        → search (table_of ht run.0 k) p ≡ search (table_of ht zh k) p
    pub untouched : (k : Kind) → ¬ Listed k ks → table_of ht run.0 k ≡ table_of ht zh k

  pub Kind-cases : (k k' : Kind) → (k ≡ k') ⊎ (k ≢ k')
  Kind-cases node node = inl refl
  Kind-cases exist exist = inl refl
  Kind-cases child child = inl refl
  Kind-cases node exist = inr (λ e. cc)
  Kind-cases node child = inr (λ e. cc)
  Kind-cases exist node = inr (λ e. cc)
  Kind-cases exist child = inr (λ e. cc)
  Kind-cases child node = inr (λ e. cc)
  Kind-cases child exist = inr (λ e. cc)

  add_for_kinds-Collects :
      (ks : List Kind) (zh : Handle ht) (path : NodePath) (list : WatcherObjectList)
      → Distinct ks
      → Collects ks zh path list (add_for_kinds ht ks zh path list)
  unfolding add_for_kinds
  add_for_kinds-Collects [] zh path list d = record {
    listed = λ w. (inr, λ h. elim h [ inl x ↦ absurd x | inr m ↦ m ]);
    distinct = λ x. x;
    taken = λ k h. absurd h;
    others = λ k p h. refl;
    untouched = λ k h. refl;
  }
  add_for_kinds-Collects (k ∷ ks) zh path list d =
      let run = add_for_event ht (table_of ht zh k) path list in
      let one = add_for_event-Moves (table_of ht zh k) path list in
      let all = add_for_kinds-Collects ks (with_table ht zh k run.0) path run.1 d.1 in
      let emptied : table_of ht (with_table ht zh k run.0) k ≡ remove (table_of ht zh k) path =
        table_of-with_table zh k run.0 ∙ one.table in
      record {
        listed = λ w.
            let same_rest = Awaits-with_table zh k run.0 path w ks d.0 in
            (
              λ h. elim ((all.listed w).0 h) [
                | inl m ↦ inl (inr (same_rest.0 m))
                | inr m ↦ elim ((one.listed w).0 m) [ inl a ↦ inl (inl a) | inr b ↦ inr b ]
              ],
              λ h. elim h [
                | inl (inl m) ↦ (all.listed w).1 (inr ((one.listed w).1 (inl m)))
                | inl (inr m) ↦ (all.listed w).1 (inl (same_rest.1 m))
                | inr m ↦ (all.listed w).1 (inr ((one.listed w).1 (inr m)))
              ],
            );
        distinct = λ x. all.distinct (one.distinct x);
        taken = λ k' h. elim h [
          | inr m ↦ all.taken k' m
          | inl e ↦ rw (e, all.untouched k d.0, emptied) (search-remove (table_of ht zh k) path)
        ];
        others = λ k' p h. elim (Kind-cases k k') [
          | inl e ↦
              all.others k' p h
              ∙ rw (← e, emptied) (search-remove_other (table_of ht zh k) path p h)
          | inr e ↦ all.others k' p h ∙ rw (table_of-with_table_other zh k k' run.0 e)
        ];
        untouched = λ k' h.
            all.untouched k' (λ m. h (inr m))
            ∙ table_of-with_table_other zh k k' run.0 (λ e. h (inl (sym e)));
      }

  if-Distinct :
      (b : Bool) (ks ls : List Kind) → Distinct ks → Distinct ls → Distinct (if b then ks else ls)
  if-Distinct true ks ls hk hl = hk
  if-Distinct false ks ls hk hl = hl

  abbrev last : ℕ → List Kind
  last type = if (type == deleted_event) then (node ∷ exist ∷ child ∷ []) else []

  kinds_of-Distinct : (type : ℕ) → Distinct (kinds_of ht type)
  kinds_of-Distinct type = elim (Bool-cases (type == created_event)) [
    | inl e ↦ rw e node_exist
    | inr e ↦ rw e (elim (Bool-cases (type == changed_event)) [
      | inl e' ↦ rw e' node_exist
      | inr e' ↦ rw e' (
          if-Distinct (type == child_event) (child ∷ []) (last type) alone
            (if-Distinct (type == deleted_event) (node ∷ exist ∷ child ∷ []) [] every tt))
    ])
  ]
    where
      alone : Distinct (child ∷ [])
      alone = (λ x. x, tt)

      node_exist : Distinct (node ∷ exist ∷ [])
      node_exist = (λ h. elim h [ inl e ↦ cc | inr x ↦ x ], (λ x. x, tt))

      every : Distinct (node ∷ exist ∷ child ∷ [])
      every = (
        λ h. elim h [ inl e ↦ cc | inr (inl e) ↦ cc | inr (inr x) ↦ x ],
        (λ h. elim h [ inl e ↦ cc | inr x ↦ x ], (λ x. x, tt)),
      )

  -- An event of a path, any but a session event, takes just the watchers that wait for that path
  -- in the tables of the event's type, each once, and leaves none of them behind. All that waits
  -- for another path or in another table stays.
  pub collect_watchers-Collects :
      (zh : Handle ht) (type : ℕ) (path : NodePath)
      → type ≢ session_event
      → Collects (kinds_of ht type) zh path [] (collect_watchers ht zh type path)
  unfolding collect_watchers
  collect_watchers-Collects zh type path h = elim (Bool-cases (type == session_event)) [
    | inl e ↦ absurd (h (ground arith))
    | inr e ↦ rw e (add_for_kinds-Collects (kinds_of ht type) zh path [] (kinds_of-Distinct type))
  ]
