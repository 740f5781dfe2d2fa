-- ===== src/Tests/AssocTable.antt =====
-- An association list in place of the table of src/zk/hashtable.
use ext_zookeeper.Prelude.{
  ℕ, ◌≡◌, ◌≢◌, refl, sym, ◌∙◌, ap, ap₂, inl, inr, true, false, Option, none, some, List, [], ◌∷◌,
  arith, Bool-cases, subst, if◌then◌else◌,
}
use ext_zookeeper.Paths.{same_string}
use ext_zookeeper.Watchers.Lists.{Distinct}
use ext_zookeeper.Watchers.{NodePath, WatcherObjectList, Listed, Hashtable}

abbrev Entries : Type 0
Entries = List (NodePath × WatcherObjectList)

abbrev find : Entries → NodePath → Option WatcherObjectList
find [] k = none
find ((k', v) ∷ t) k = if same_string k' k then some v else find t k

abbrev drop_key : Entries → NodePath → Entries
drop_key [] k = []
drop_key ((k', v) ∷ t) k = if same_string k' k then drop_key t k else ((k', v) ∷ drop_key t k)

abbrev put : Entries → NodePath → WatcherObjectList → Entries
put t k v = (k, v) ∷ drop_key t k

-- Each key once, with what is found under it.
abbrev clean : Entries → Entries
clean [] = []
clean ((k, v) ∷ t) = (k, v) ∷ drop_key (clean t) k

abbrev lists_of : Entries → List WatcherObjectList
lists_of [] = []
lists_of ((k, v) ∷ t) = v ∷ lists_of t

abbrev keys_of : Entries → List NodePath
keys_of [] = []
keys_of ((k, v) ∷ t) = k ∷ keys_of t

same_self : (s : List ℕ) → same_string s s ≡ true
same_self [] = refl
same_self (c ∷ s) = ground (arith, same_self s)

same_equal : (s t : List ℕ) → same_string s t ≡ true → s ≡ t
same_equal [] [] h = refl
same_equal [] (d ∷ t) h = cc
same_equal (c ∷ s) [] h = cc
same_equal (c ∷ s) (d ∷ t) h = ap₂ ◌∷◌ (ground arith) (same_equal s t (ground arith))

not_same : (s t : List ℕ) → s ≢ t → same_string s t ≡ false
not_same s t n = elim (Bool-cases (same_string s t)) [
  | inl e ↦ absurd (n (same_equal s t e))
  | inr e ↦ e
]

pub find-drop_key : (t : Entries) (k : NodePath) → find (drop_key t k) k ≡ none
find-drop_key [] k = refl
find-drop_key ((k', v) ∷ t) k = elim (Bool-cases (same_string k' k)) [
  | inl e ↦ rw e (find-drop_key t k)
  | inr e ↦ rw (e, e) (find-drop_key t k)
]

pub find-drop_key_other :
    (t : Entries) (k k' : NodePath) → k ≢ k' → find (drop_key t k) k' ≡ find t k'
find-drop_key_other [] k k' n = refl
find-drop_key_other ((k₀, v) ∷ t) k k' n = elim (Bool-cases (same_string k₀ k)) [
  | inl e ↦
      rw (e, not_same k₀ k' (λ x. n (sym (same_equal k₀ k e) ∙ x))) (find-drop_key_other t k k' n)
  | inr e ↦ rw e (ap (λ r. if same_string k₀ k' then some v else r) (find-drop_key_other t k k' n))
]

pub find-put : (t : Entries) (k : NodePath) (v : WatcherObjectList) → find (put t k v) k ≡ some v
find-put t k v = rw (same_self k)

pub find-put_other :
    (t : Entries) (k k' : NodePath) (v : WatcherObjectList)
    → k ≢ k'
    → find (put t k v) k' ≡ find t k'
find-put_other t k k' v n = rw (not_same k k' n) (find-drop_key_other t k k' n)

pub find-clean : (t : Entries) (k : NodePath) → find (clean t) k ≡ find t k
find-clean [] k = refl
find-clean ((k', v) ∷ t) k = elim (Bool-cases (same_string k' k)) [
  | inl e ↦ rw e refl
  | inr e ↦ rw e (
      find-drop_key_other (clean t) k' k (λ x.
        let f : true ≡ false =
          sym (same_self k') ∙ subst (λ q. same_string k' q ≡ false) (sym x) e in
        cc)
      ∙ find-clean t k)
]

pub lists_of-find :
    (t : Entries) (k : NodePath) (v : WatcherObjectList) → find t k ≡ some v → Listed v (lists_of t)
lists_of-find [] k v h = cc
lists_of-find ((k', v') ∷ t) k v h = elim (Bool-cases (same_string k' k)) [
  | inl e ↦ inl (let q : some v' ≡ some v = rw e at h in cc)
  | inr e ↦ inr (lists_of-find t k v (rw e at h))
]

pub keys_of-find :
    (t : Entries) (k : NodePath) (v : WatcherObjectList) → find t k ≡ some v → Listed k (keys_of t)
keys_of-find [] k v h = cc
keys_of-find ((k', v') ∷ t) k v h = elim (Bool-cases (same_string k' k)) [
  | inl e ↦ inl (sym (same_equal k' k e))
  | inr e ↦ inr (keys_of-find t k v (rw e at h))
]

-- An entry that is left when a key is dropped was there, under another key.
drop_key-Listed :
    (t : Entries) (k : NodePath) (x : NodePath × WatcherObjectList)
    → Listed x (drop_key t k)
    → Listed x t × (same_string x.0 k ≡ false)
drop_key-Listed [] k x h = absurd h
drop_key-Listed ((k', v) ∷ t) k x h = elim (Bool-cases (same_string k' k)) [
  | inl e ↦ let more = drop_key-Listed t k x (rw e at h) in (inr more.0, more.1)
  | inr e ↦ kept e (drop_key-Listed t k x) (rw e at h)
]
  where
    kept :
        same_string k' k ≡ false
        → (Listed x (drop_key t k) → Listed x t × (same_string x.0 k ≡ false))
        → Listed x ((k', v) ∷ drop_key t k)
        → Listed x ((k', v) ∷ t) × (same_string x.0 k ≡ false)
    kept e rest (inl q) = (inl q, ap (λ y. same_string y.0 k) q ∙ e)
    kept e rest (inr m) = let more = rest m in (inr more.0, more.1)

pub clean-find :
    (t : Entries) (x : NodePath × WatcherObjectList) → Listed x (clean t) → find t x.0 ≡ some x.1
clean-find [] x h = absurd h
clean-find ((k, v) ∷ t) x (inl q) =
    subst (λ y. find ((k, v) ∷ t) y.0 ≡ some y.1) (sym q) (rw (same_self k) refl)
clean-find ((k, v) ∷ t) x (inr m) =
    let old = drop_key-Listed (clean t) k x m in rw (apart old.1) (clean-find t x old.0)
  where
    apart : same_string x.0 k ≡ false → same_string k x.0 ≡ false
    apart e = not_same k x.0 λ q.
        let f : true ≡ false = sym (same_self k) ∙ subst (λ y. same_string y k ≡ false) (sym q) e in
        cc

pub lists_of-entry :
    (t : Entries) (v : WatcherObjectList) → Listed v (lists_of t) → (k : NodePath) × Listed (k, v) t
lists_of-entry [] v h = absurd h
lists_of-entry ((k, v') ∷ t) v (inl q) = (k, inl (ap (λ w. (k, w)) q))
lists_of-entry ((k, v') ∷ t) v (inr m) = let more = lists_of-entry t v m in (more.0, inr more.1)

pub keys_of-entry :
    (t : Entries) (k : NodePath) → Listed k (keys_of t) → (v : WatcherObjectList) × Listed (k, v) t
keys_of-entry [] k h = absurd h
keys_of-entry ((k', v) ∷ t) k (inl q) = (v, inl (ap (λ w. (w, v)) q))
keys_of-entry ((k', v) ∷ t) k (inr m) = let more = keys_of-entry t k m in (more.0, inr more.1)

abbrev pub assoc_table : Hashtable
assoc_table = record {
  Table = Entries;
  search = find;
  insert = put;
  assign = put;
  remove = drop_key;
  values = λ t. lists_of (clean t);
  keys = λ t. keys_of (clean t);
  search-insert = λ t k v h. find-put t k v;
  search-insert_other = find-put_other;
  search-assign = λ t k v w h. find-put t k w;
  search-assign_other = find-put_other;
  search-remove = find-drop_key;
  search-remove_other = find-drop_key_other;
  values-search = λ t k v h. lists_of-find (clean t) k v (find-clean t k ∙ h);
  keys-search = λ t k v h. keys_of-find (clean t) k v (find-clean t k ∙ h);
  search-values = λ t v h.
      let entry = lists_of-entry (clean t) v h in (entry.0, clean-find t (entry.0, v) entry.1);
  search-keys = λ t k h.
      let entry = keys_of-entry (clean t) k h in (entry.0, clean-find t (k, entry.0) entry.1);
}

-- No list of the table holds a watcher twice.
abbrev pub AllDistinct : Entries → Type 0
AllDistinct [] = Unit {0}
AllDistinct ((k, v) ∷ t) = Distinct v × AllDistinct t

pub find-Distinct :
    (t : Entries) (k : NodePath) (v : WatcherObjectList)
    → AllDistinct t
    → find t k ≡ some v
    → Distinct v
find-Distinct [] k v d h = cc
find-Distinct ((k', v') ∷ t) k v d h = elim (Bool-cases (same_string k' k)) [
  | inl e ↦ let q : some v' ≡ some v = rw e at h in subst Distinct {x = v'} {y = v} (cc) d.0
  | inr e ↦ find-Distinct t k v d.1 (rw e at h)
]
