-- ===== src/Auth/Completions.antt =====
-- Every completion is told once.
use ext_zookeeper.Prelude.{
  ℕ, ◌≡◌, ◌≢◌, refl, sym, ◌∙◌, ap, Option, none, some, List, [], ◌∷◌, ◌++◌, ◌==◌, arith, Bool-cases,
  Option-cases, inl, inr,
}
use mathlib.Core.List.{append-nil, append_assoc}
use ext_zookeeper.Codes.{auth_failed_state}
use ext_zookeeper.Auth.Defs.{
  AuthInfo, AuthCompletion, AuthCompletionList, AuthCall, AuthHandle, get_last_auth, add_last_auth,
  append_completion, add_auth_completion, add_pending, get_auth_completions, mark_active_auth,
  call_rest, call_completions, empty_list, free_auth_completions, answered, told_to,
  auth_completion_func,
}

-- The calls that the elements of a list wait for, in order.
abbrev pub awaited : ℕ → List AuthInfo → List AuthCall
awaited rc [] = []
awaited rc (element ∷ rest) = elim element.completion [
  | none ↦ awaited rc rest
  | some c ↦ record { completion = c; rc = rc; auth_data = element.contents } ∷ awaited rc rest
]

-- The list with no completion left.
abbrev pub told : List AuthInfo → List AuthInfo
told [] = []
told (element ∷ rest) = record element { completion = none } ∷ told rest

call_rest-append_completion :
    (rc : ℕ) (next : List AuthCompletion) (a : AuthCompletion)
    → call_rest rc (append_completion next a)
      ≡ call_rest rc next
        ++ (record { completion = a.completion; rc = rc; auth_data = a.auth_data } ∷ [])
unfolding call_rest append_completion
call_rest-append_completion rc [] a = refl
call_rest-append_completion rc (b ∷ next) a =
    ap (◌∷◌ (record { completion = b.completion; rc = rc; auth_data = b.auth_data }))
      (call_rest-append_completion rc next a)

-- A completion is called behind those that are in the list already.
call_behind :
    (rc : ℕ) (first : Option ℕ) (data' : ℕ) (next : List AuthCompletion) (c d : ℕ)
    → call_completions rc
        (add_auth_completion (record { completion = first; auth_data = data'; next = next }) c d)
      ≡ call_completions rc (record { completion = first; auth_data = data'; next = next })
        ++ (record { completion = c; rc = rc; auth_data = d } ∷ [])
unfolding call_completions add_auth_completion call_rest
call_behind rc none data' next c d = refl
call_behind rc (some first) data' next c d =
    ap (◌∷◌ (record { completion = first; rc = rc; auth_data = data' }))
      (call_rest-append_completion rc next (record { completion = c; auth_data = d }))

get_auth_completions_calls :
    (rc : ℕ) (infos : List AuthInfo) (a_list : AuthCompletionList)
    → call_completions rc (get_auth_completions infos a_list).1
      ≡ call_completions rc a_list ++ awaited rc infos
unfolding get_auth_completions
get_auth_completions_calls rc [] a_list = sym (append-nil _)
get_auth_completions_calls rc (element ∷ rest) a_list = elim (Option-cases element.completion) [
  | inl e ↦ rw e (get_auth_completions_calls rc rest a_list)
  | inr (c, e) ↦ rw e (
      get_auth_completions_calls rc rest (add_auth_completion a_list c element.contents)
      ∙ ap (λ l. l ++ awaited rc rest)
          (call_behind rc a_list.completion a_list.auth_data a_list.next c element.contents)
      ∙ append_assoc (call_completions rc a_list) _ (awaited rc rest))
]

get_auth_completions_rest :
    (infos : List AuthInfo) (a_list : AuthCompletionList)
    → (get_auth_completions infos a_list).0 ≡ told infos
unfolding get_auth_completions
get_auth_completions_rest [] a_list = refl
get_auth_completions_rest (element ∷ rest) a_list =
    ap (◌∷◌ (record element { completion = none }))
      (get_auth_completions_rest rest (add_pending a_list element))

awaited-told : (rc : ℕ) (infos : List AuthInfo) → awaited rc (told infos) ≡ []
awaited-told rc [] = refl
awaited-told rc (element ∷ rest) = awaited-told rc rest

awaited-mark_active_auth :
    (rc : ℕ) (infos : List AuthInfo) → awaited rc (mark_active_auth infos) ≡ awaited rc infos
unfolding mark_active_auth
awaited-mark_active_auth rc [] = refl
awaited-mark_active_auth rc (element ∷ rest) =
    ap (next_calls element.completion) (awaited-mark_active_auth rc rest)
  where
    next_calls : Option ℕ → List AuthCall → List AuthCall
    next_calls o more = elim o [
      | none ↦ more
      | some c ↦ record { completion = c; rc = rc; auth_data = element.contents } ∷ more
    ]

-- What happens when the completions of a handle are told a result.
pub record Tells (rc : ℕ) (infos : List AuthInfo) (run : AuthHandle × List AuthCall) : Type 0 where
  pub calls : run.1 ≡ awaited rc infos
  pub rest : run.0.auth_h ≡ told infos
  pub once : (reason : ℕ) → (free_auth_completions run.0 reason).1 ≡ []

-- The completions are told once, in order.
pub free_auth_completions-Tells :
    (zh : AuthHandle) (reason : ℕ) → Tells reason zh.auth_h (free_auth_completions zh reason)
unfolding free_auth_completions call_completions
free_auth_completions-Tells zh reason = record {
  calls = get_auth_completions_calls reason zh.auth_h empty_list;
  rest = get_auth_completions_rest zh.auth_h empty_list;
  once = λ again.
      get_auth_completions_calls again (get_auth_completions zh.auth_h empty_list).0 empty_list
      ∙ ap (awaited again) (get_auth_completions_rest zh.auth_h empty_list)
      ∙ awaited-told again zh.auth_h;
}

same_state : (zh : AuthHandle) (reason : ℕ) → (free_auth_completions zh reason).0.state ≡ zh.state
unfolding free_auth_completions
same_state zh reason = refl

-- What the answer of the server to the credentials does.
pub record Answers (rc : ℕ) (zh : AuthHandle) (run : Option AuthHandle × List AuthCall)
    : Type 0 where
  pub after : AuthHandle
  pub here : run.0 ≡ some after
  pub calls : run.1 ≡ awaited rc zh.auth_h
  pub once : (reason : ℕ) → (free_auth_completions after reason).1 ≡ []
  pub fails : rc ≢ 0 → (after.state ≡ auth_failed_state) × (after.auth_h ≡ told zh.auth_h)
  pub succeeds :
      rc ≡ 0 → (after.state ≡ zh.state) × (after.auth_h ≡ told (mark_active_auth zh.auth_h))

answered-Answers :
    (rc : ℕ) (zh : AuthHandle)
    → Answers rc zh (
      some (free_auth_completions (answered rc zh) rc).0,
      (free_auth_completions (answered rc zh) rc).1,
    )
unfolding answered
answered-Answers rc zh = elim (Bool-cases (rc == 0)) [
  | inl e ↦
      let marked : AuthHandle = record zh { auth_h = mark_active_auth zh.auth_h } in
      let t = free_auth_completions-Tells marked rc in
      rw e (record {
        after = (free_auth_completions marked rc).0;
        here = refl;
        calls = t.calls ∙ awaited-mark_active_auth rc zh.auth_h;
        once = t.once;
        fails = λ n. absurd (n (ground arith));
        succeeds = λ z. (same_state marked rc, t.rest);
      })
  | inr e ↦
      let failed : AuthHandle = record zh { state = auth_failed_state } in
      let t = free_auth_completions-Tells failed rc in
      rw e (record {
        after = (free_auth_completions failed rc).0;
        here = refl;
        calls = t.calls;
        once = t.once;
        fails = λ n. (same_state failed rc, t.rest);
        succeeds = λ z. absurd (ground arith);
      })
]

-- It faults just without credentials.
pub data Answered (rc : ℕ) (zh : AuthHandle)
    : Option (Option AuthHandle × List AuthCall) → Type 0 where
  faults : zh.auth_h ≡ [] → Answered rc zh none
  answers :
      {run : Option AuthHandle × List AuthCall}
      → (zh.auth_h ≢ [])
      → Answers rc zh run
      → Answered rc zh (some run)

told_to-Answered :
    (rc : ℕ) (zh : AuthHandle) (infos : List AuthInfo)
    → zh.auth_h ≡ infos
    → Answered rc zh (told_to rc zh infos)
told_to-Answered rc zh [] e = faults e
told_to-Answered rc zh (auth ∷ rest) e =
    answers (λ n. let f = sym e ∙ n in cc) (answered-Answers rc zh)

-- At the default level of the log, auth_completion_func reads through a null pointer just when
-- the handle has no credentials. Else it calls every completion that waits with the credentials
-- once, in order, with the code of the answer, and none of them is called again. With a code
-- other than 0 the handle's state is ZOO_AUTH_FAILED_STATE; with 0 the state stays and all
-- credentials are marked as active.
pub auth_completion_func-Answered :
    (rc : ℕ) (zh : AuthHandle) → Answered rc zh (auth_completion_func rc (some zh))
unfolding auth_completion_func
auth_completion_func-Answered rc zh = told_to-Answered rc zh zh.auth_h refl

-- add_last_auth puts credentials behind all that the handle has, and get_last_auth finds them.
pub get_last_auth-add_last_auth :
    (infos : List AuthInfo) (add_el : AuthInfo)
    → (add_last_auth infos add_el ≡ infos ++ (add_el ∷ []))
      × (get_last_auth (add_last_auth infos add_el) ≡ some add_el)
unfolding add_last_auth get_last_auth
get_last_auth-add_last_auth [] add_el = (refl, refl)
get_last_auth-add_last_auth (element ∷ []) add_el = (refl, refl)
get_last_auth-add_last_auth (element ∷ next ∷ rest) add_el =
    let more = get_last_auth-add_last_auth (next ∷ rest) add_el in (ap (◌∷◌ element) more.0, more.1)
