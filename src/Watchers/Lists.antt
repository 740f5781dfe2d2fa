-- ===== src/Watchers/Lists.antt =====
-- The lists of watchers of zk_hashtable.c: which watchers they hold, and that none stands twice.
use ext_zookeeper.Prelude.{
  ◌≡◌, ◌↔◌, ◌⊎◌, inl, inr, refl, sym, ◌∙◌, ap₂, subst, Bool, true, false, none, some, List, [], ◌∷◌,
  if◌then◌else◌, arith, Bool-cases, Option-cases,
}
use mathlib.Core.Option.{some-ne-none}
use ext_zookeeper.Watchers.Defs.{
  WatcherObject, WatcherObjectList, Listed, same, search_watcher, clone_watcher_object, add_to_list,
  copy_watchers, copy_lists,
}

-- No element stands twice.
abbrev pub Distinct : {A : Type 0} → List A → Type 0
Distinct [] = Unit {0}
Distinct (x ∷ xs) = (¬ Listed x xs) × Distinct xs

same→≡ : (a b : WatcherObject) → same a b ≡ true → a ≡ b
same→≡ a b h = ap₂ (λ w c. record { watcher = w; context = c }) (ground arith) (ground arith)

same_refl : (a : WatcherObject) → same a a ≡ true
same_refl a = ground arith

search-none :
    (wl : WatcherObjectList) (wo : WatcherObject) → search_watcher wl wo ≡ none → ¬ Listed wo wl
unfolding search_watcher
search-none [] wo h l = l
search-none (wobj ∷ rest) wo h l = elim (Bool-cases (same wobj wo)) [
  | inl e ↦ some-ne-none wobj (rw e at h)
  | inr e ↦ elim l [
    | inl x ↦ (let f : false ≡ true = sym e ∙ subst (λ w. same w wo ≡ true) x (same_refl wo) in cc)
    | inr m ↦ search-none rest wo (rw e at h) m
  ]
]

search-some :
    (wl : WatcherObjectList) (wo found : WatcherObject)
    → search_watcher wl wo ≡ some found
    → Listed wo wl
unfolding search_watcher
search-some [] wo found h = cc
search-some (wobj ∷ rest) wo found h = elim (Bool-cases (same wobj wo)) [
  | inl e ↦ inl (sym (same→≡ wobj wo e))
  | inr e ↦ inr (search-some rest wo found (rw e at h))
]

clone_watcher_object_lem : (wo : WatcherObject) → clone_watcher_object wo ≡ wo
unfolding clone_watcher_object
clone_watcher_object_lem wo = refl

-- What add_to_list leaves holds the watchers that were there, and the new one.
module _ (wl : WatcherObjectList) (wo : WatcherObject) (clone : Bool) where
  added_head : (if clone then clone_watcher_object wo else wo) ≡ wo
  added_head = elim (Bool-cases clone) [ inl e ↦ rw e (clone_watcher_object_lem wo) | inr e ↦ rw e ]

  pub add_to_list-Listed :
      (w : WatcherObject) → Listed w (add_to_list wl wo clone).head ↔ ((w ≡ wo) ⊎ Listed w wl)
  unfolding add_to_list
  add_to_list-Listed w = elim (Option-cases (search_watcher wl wo)) [
    | inl e ↦ rw (e, add_to_list, added_head) (λ h. h, λ h. h)
    | inr (found, e) ↦
        rw (e, add_to_list)
          (
            inr,
            λ h. elim h [
              | inl x ↦ subst (λ v. Listed v wl) (sym x) (search-some wl wo found e)
              | inr m ↦ m
            ],
          )
  ]

  pub add_to_list-Distinct : Distinct wl → Distinct (add_to_list wl wo clone).head
  unfolding add_to_list
  add_to_list-Distinct d = elim (Option-cases (search_watcher wl wo)) [
    | inl e ↦ rw (e, add_to_list, added_head) (search-none wl wo e, d)
    | inr (found, e) ↦ rw (e, add_to_list) d
  ]

-- copy_watchers and the loop of copy_table make a union.
pub copy_watchers-Listed :
    (from to : WatcherObjectList) (clone : Bool) (w : WatcherObject)
    → Listed w (copy_watchers from to clone) ↔ (Listed w from ⊎ Listed w to)
unfolding copy_watchers
copy_watchers-Listed [] to clone w = (inr, λ h. elim h [ inl x ↦ absurd x | inr m ↦ m ])
copy_watchers-Listed (wo ∷ next) to clone w =
    let all = copy_watchers-Listed next (add_to_list to wo clone).head clone w in
    let one = add_to_list-Listed to wo clone w in
    (
      λ h. elim (all.0 h) [
        | inl m ↦ inl (inr m)
        | inr m ↦ elim (one.0 m) [ inl e ↦ inl (inl e) | inr m' ↦ inr m' ]
      ],
      λ h. elim h [
        | inl (inl e) ↦ all.1 (inr (one.1 (inl e)))
        | inl (inr m) ↦ all.1 (inl m)
        | inr m ↦ all.1 (inr (one.1 (inr m)))
      ],
    )

pub copy_watchers-Distinct :
    (from to : WatcherObjectList) (clone : Bool)
    → Distinct to
    → Distinct (copy_watchers from to clone)
unfolding copy_watchers
copy_watchers-Distinct [] to clone d = d
copy_watchers-Distinct (wo ∷ next) to clone d =
    copy_watchers-Distinct next (add_to_list to wo clone).head clone
      (add_to_list-Distinct to wo clone d)

-- `w` stands in one of the lists.
abbrev pub InSome : WatcherObject → List WatcherObjectList → Type 0
InSome w [] = ⊥
InSome w (l ∷ ls) = Listed w l ⊎ InSome w ls

pub InSome-of :
    (w : WatcherObject) (ls : List WatcherObjectList) (l : WatcherObjectList)
    → Listed l ls
    → Listed w l
    → InSome w ls
InSome-of w [] l h m = absurd h
InSome-of w (x ∷ ls) l (inl e) m = inl (subst (λ v. Listed w v) e m)
InSome-of w (x ∷ ls) l (inr h) m = inr (InSome-of w ls l h m)

pub InSome-one :
    (w : WatcherObject) (ls : List WatcherObjectList)
    → InSome w ls
    → (l : WatcherObjectList) × (Listed l ls × Listed w l)
InSome-one w [] h = absurd h
InSome-one w (l ∷ ls) (inl m) = (l, (inl refl, m))
InSome-one w (l ∷ ls) (inr h) = let more = InSome-one w ls h in (more.0, (inr more.1.0, more.1.1))

pub copy_lists-Listed :
    (ls : List WatcherObjectList) (to : WatcherObjectList) (w : WatcherObject)
    → Listed w (copy_lists ls to) ↔ (InSome w ls ⊎ Listed w to)
unfolding copy_lists
copy_lists-Listed [] to w = (inr, λ h. elim h [ inl x ↦ absurd x | inr m ↦ m ])
copy_lists-Listed (l ∷ ls) to w =
    let all = copy_lists-Listed ls (copy_watchers l to true) w in
    let one = copy_watchers-Listed l to true w in
    (
      λ h. elim (all.0 h) [
        | inl m ↦ inl (inr m)
        | inr m ↦ elim (one.0 m) [ inl e ↦ inl (inl e) | inr m' ↦ inr m' ]
      ],
      λ h. elim h [
        | inl (inl e) ↦ all.1 (inr (one.1 (inl e)))
        | inl (inr m) ↦ all.1 (inl m)
        | inr m ↦ all.1 (inr (one.1 (inr m)))
      ],
    )

pub copy_lists-Distinct :
    (ls : List WatcherObjectList) (to : WatcherObjectList)
    → Distinct to
    → Distinct (copy_lists ls to)
unfolding copy_lists
copy_lists-Distinct [] to d = d
copy_lists-Distinct (l ∷ ls) to d =
    copy_lists-Distinct ls (copy_watchers l to true) (copy_watchers-Distinct l to true d)
