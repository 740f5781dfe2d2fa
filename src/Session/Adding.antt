-- ===== src/Session/Adding.antt =====
-- add_completion keeps count of the synchronous requests.
use ext_zookeeper.Prelude.{
  ℕ, ◌+◌, ◌%◌, ◌^◌, ◌≤◌, ◌<◌, ◌≡◌, inl, inr, refl, sym, ◌∙◌, ap, subst, All, All-append, Bool, true,
  false, Option, none, some, List, [], ◌∷◌, ◌++◌, ◌==◌, if◌then◌else◌, leb, le→leb, arith,
  Bool-cases,
}
use ext_zookeeper.Codes.{zok, zinvalidstate}
use ext_zookeeper.Watchers.{WatcherRegistration}
use ext_zookeeper.Session.Defs.{
  CompletionEntry, Requests, completion_multi, create_completion_entry, queue_completion_nolock,
  add_entry, add_completion,
}
use ext_zookeeper.Session.Completions.{
  count_sync, IsRequests, queue_completion_nolock_back, queue_completion_nolock_front,
}

module _ {C : Type 0} (sync_marker : ℕ) where
  count_sync-append :
      (list : List (CompletionEntry C)) (c : CompletionEntry C)
      → count_sync sync_marker (list ++ (c ∷ []))
        ≡ count_sync sync_marker list + (if c.result == sync_marker then 1 else 0)
  count_sync-append [] c = ground arith
  count_sync-append (e ∷ list) c = ground (arith, count_sync-append list c)

  -- A queued entry counts once, wherever it stands.
  count_sync-queue :
      (list : List (CompletionEntry C)) (c : CompletionEntry C) (front : Bool)
      → count_sync sync_marker (queue_completion_nolock list c front)
        ≡ count_sync sync_marker list + (if c.result == sync_marker then 1 else 0)
  count_sync-queue list c true =
      ap (count_sync sync_marker) (queue_completion_nolock_front list c) ∙ ground arith
  count_sync-queue list c false =
      ap (count_sync sync_marker) (queue_completion_nolock_back list c) ∙ count_sync-append list c

  xids-queue :
      (list : List (CompletionEntry C)) (c : CompletionEntry C) (front : Bool)
      → c.xid < 2 ^ 32
      → All (λ e. e.xid < 2 ^ 32) list
      → All (λ e. e.xid < 2 ^ 32) (queue_completion_nolock list c front)
  xids-queue list c true h hs =
      subst (All (λ e. e.xid < 2 ^ 32)) (sym (queue_completion_nolock_front list c)) (h, hs)
  xids-queue list c false h hs =
      subst (All (λ e. e.xid < 2 ^ 32)) (sym (queue_completion_nolock_back list c))
        (All-append (λ e. e.xid < 2 ^ 32) list (c ∷ []) hs (h, tt))

  -- The code of add_completion for an entry, and what it leaves: the entry is there only with ZOK.
  pub record Adds (zh : Requests C) (c : CompletionEntry C) (front : Bool) (run : ℕ × Requests C)
      : Type 0 where
    pub keeps : IsRequests sync_marker run.1
    pub refused : (run.0 ≡ zok → ⊥) → run.1 ≡ zh
    pub queued :
        run.0 ≡ zok
        → run.1 ≡ record zh {
          sent_requests = if front then c ∷ zh.sent_requests else zh.sent_requests ++ (c ∷ []);
          outstanding_sync = run.1.outstanding_sync;
        }
    pub closing : zh.close_requested ≡ true → run.0 ≡ zok → ⊥

  queue_either :
      (list : List (CompletionEntry C)) (c : CompletionEntry C) (front : Bool)
      → queue_completion_nolock list c front ≡ (if front then c ∷ list else list ++ (c ∷ []))
  queue_either list c true = queue_completion_nolock_front list c
  queue_either list c false = queue_completion_nolock_back list c

  add_entry-Adds :
      (zh : Requests C) (c : CompletionEntry C) (dc : ℕ) (front : Bool)
      → c.result ≡ dc
      → c.xid < 2 ^ 32
      → zh.outstanding_sync + 1 < 2 ^ 32
      → IsRequests sync_marker zh
      → Adds zh c front (add_entry sync_marker zh c dc front)
  unfolding add_entry
  add_entry-Adds zh c dc front e h room v =
      let queued : Requests C = record zh {
        sent_requests = queue_completion_nolock zh.sent_requests c front;
        outstanding_sync = (zh.outstanding_sync + (if dc == sync_marker then 1 else 0)) % 2 ^ 32;
      } in
      let ends : Bool → Type 0 =
        λ b. Adds zh c front (if b then (zinvalidstate, zh) else (zok, queued)) in
      elim (Bool-cases zh.close_requested) [
        | inl closed ↦ subst ends (sym closed) (record {
          keeps = v;
          refused = λ n. refl;
          queued = λ x. absurd (omega arith);
          closing = λ x y. omega arith;
        })
        | inr usable ↦ subst ends (sym usable) (record {
          keeps = record {
            counts =
                subst
                  (λ r.
                    (zh.outstanding_sync + (if r == sync_marker then 1 else 0)) % 2 ^ 32
                    ≡ count_sync sync_marker (queue_completion_nolock zh.sent_requests c front))
                  e counted;
            word = omega arith;
            xids = xids-queue zh.sent_requests c front h v.xids;
          };
          refused = λ n. absurd (n refl);
          queued = λ x.
              ap (λ l. record queued { sent_requests = l }) (queue_either zh.sent_requests c front);
          closing = λ x y. (let f : true ≡ false = sym x ∙ usable in cc);
        })
      ]
    where
      counted :
          (zh.outstanding_sync + (if c.result == sync_marker then 1 else 0)) % 2 ^ 32
          ≡ count_sync sync_marker (queue_completion_nolock zh.sent_requests c front)
      counted = ground (arith, count_sync-queue zh.sent_requests c front, v.counts, room)

  -- The entry that is asked for: the parts are kept with a multi request only.
  abbrev pub entry_of : ℕ → ℕ → ℕ → ℕ → Option WatcherRegistration → Option C → CompletionEntry C
  entry_of xid type dc contents wo clist = record {
    xid = xid;
    type = type;
    result = dc;
    clist = if type == completion_multi then clist else none;
    contents = contents;
    buffer = none;
    watcher = wo;
    watcher_result = [];
  }

  abbrev Ends : Requests C → CompletionEntry C → Bool → Option (ℕ × Requests C) → Type 0
  Ends zh c front none = Unit {0}
  Ends zh c front (some run) = Adds zh c front run

  module _ (zh : Requests C) (xid type dc contents : ℕ) (front : Bool)
      (wo : Option WatcherRegistration) (ht : type ≤ completion_multi) (hx : xid < 2 ^ 32)
      (room : zh.outstanding_sync + 1 < 2 ^ 32) (v : IsRequests sync_marker zh) where
    entry-Adds :
        (parts : Option C)
        → Adds zh
            (record {
              xid = xid;
              type = type;
              result = dc;
              clist = parts;
              contents = contents;
              buffer = none;
              watcher = wo;
              watcher_result = [];
            })
            front
            (add_entry sync_marker zh
              (record {
                xid = xid;
                type = type;
                result = if leb type completion_multi then dc else 0;
                clist = parts;
                contents = contents;
                buffer = none;
                watcher = wo;
                watcher_result = [];
              })
              dc
              front)
    entry-Adds parts =
        rw (le→leb type completion_multi ht) (add_entry-Adds zh _ dc front refl hx room v)

    ends_lem :
        (given : Bool) (clist : Option C)
        → Ends zh
            (entry_of xid type dc contents wo clist)
            front
            (add_completion sync_marker given zh xid type dc contents front wo clist)
    unfolding add_completion create_completion_entry
    ends_lem false clist = record {
      keeps = v;
      refused = λ n. refl;
      queued = λ x. absurd (omega arith);
      closing = λ x y. omega arith;
    }
    ends_lem true none = elim (Bool-cases (type == completion_multi)) [
      | inl e ↦ rw (e, add_completion) tt
      | inr e ↦ rw (e, add_completion) (entry-Adds none)
    ]
    ends_lem true (some parts) = elim (Bool-cases (type == completion_multi)) [
      | inl e ↦ rw (e, add_completion) (entry-Adds (some parts))
      | inr e ↦ rw (e, add_completion) (entry-Adds none)
    ]

  -- When add_completion returns, the counter of synchronous requests is their number, as it was
  -- before. With ZOK the entry with the xid, the type, the function, the data, the watcher and,
  -- for a multi request, the parts is in front of or behind all others, as was asked for, and
  -- nothing but the counter changes besides; with any other code the handle is as it was, and a
  -- handle that is closing never gets ZOK. The type is one from 0 to 7, and xid and counter fit
  -- 32 bits.
  pub add_completion-Adds :
      (given : Bool) (zh : Requests C) (xid type dc contents : ℕ) (front : Bool)
      (wo : Option WatcherRegistration) (clist : Option C) (run : ℕ × Requests C)
      → type ≤ completion_multi
      → xid < 2 ^ 32
      → zh.outstanding_sync + 1 < 2 ^ 32
      → IsRequests sync_marker zh
      → add_completion sync_marker given zh xid type dc contents front wo clist ≡ some run
      → Adds zh (entry_of xid type dc contents wo clist) front run
  add_completion-Adds given zh xid type dc contents front wo clist run ht hx room v e =
      subst (Ends zh (entry_of xid type dc contents wo clist) front) e
        (ends_lem zh xid type dc contents front wo ht hx room v given clist)
