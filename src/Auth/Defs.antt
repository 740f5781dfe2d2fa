-- ===== src/Auth/Defs.antt =====
-- The list of credentials of a handle, and auth_completion_func, of zookeeper.c.
use ext_zookeeper.Prelude.{ℕ, Option, none, some, List, [], ◌∷◌, ◌==◌, if◌then◌else◌}
use ext_zookeeper.Recordio.{Buffer, CString}
use ext_zookeeper.Codes.{auth_failed_state}

-- auth_info; `next` is the place in a list. A completion or its data is its address, and a null
-- completion is `none`.
pub record AuthInfo : Type 0 where
  pub state : ℕ
  pub scheme : CString
  pub auth : Buffer
  pub completion : Option ℕ
  pub contents : ℕ

-- An element of an auth_completion_list_t behind the first.
pub record AuthCompletion : Type 0 where
  pub completion : ℕ
  pub auth_data : ℕ

-- auth_completion_list_t: the first element is on the caller's stack, and its completion may be null.
pub record AuthCompletionList : Type 0 where
  pub completion : Option ℕ
  pub auth_data : ℕ
  pub next : List AuthCompletion

-- A call of a completion: `auth_completion(rc, auth_data)`.
pub record AuthCall : Type 0 where
  pub completion : ℕ
  pub rc : ℕ
  pub auth_data : ℕ

-- The part of zhandle_t that credentials are kept in: auth_h and state.
pub record AuthHandle : Type 0 where
  pub auth_h : List AuthInfo
  pub state : ℕ

-- `none` is NULL.
unfoldable pub get_last_auth : List AuthInfo → Option AuthInfo
get_last_auth [] = none
get_last_auth (element ∷ []) = some element
get_last_auth (element ∷ next ∷ rest) = get_last_auth (next ∷ rest)

-- `while (element->next != NULL) element = element->next; element->next = add_el;`
unfoldable pub add_last_auth : List AuthInfo → AuthInfo → List AuthInfo
add_last_auth [] add_el = add_el ∷ []
add_last_auth (element ∷ rest) add_el = element ∷ add_last_auth rest add_el

unfoldable pub append_completion : List AuthCompletion → AuthCompletion → List AuthCompletion
append_completion [] n_element = n_element ∷ []
append_completion (element ∷ rest) n_element = element ∷ append_completion rest n_element

unfoldable pub add_auth_completion : AuthCompletionList → ℕ → ℕ → AuthCompletionList
add_auth_completion a_list completion data' = elim a_list.completion [
  | none ↦ record { completion = some completion; auth_data = data'; next = [] }
  | some first ↦ record a_list {
    next = append_completion a_list.next (record { completion = completion; auth_data = data' });
  }
]

abbrev pub add_pending : AuthCompletionList → AuthInfo → AuthCompletionList
add_pending a_list element = elim element.completion [
  | none ↦ a_list
  | some c ↦ add_auth_completion a_list c element.contents
]

-- The loop over the elements: what is left of them, and the completions.
unfoldable pub get_auth_completions :
    List AuthInfo → AuthCompletionList → List AuthInfo × AuthCompletionList
get_auth_completions [] a_list = ([], a_list)
get_auth_completions (element ∷ rest) a_list =
    let more = get_auth_completions rest (add_pending a_list element) in
    (record element { completion = none } ∷ more.0, more.1)

unfoldable pub mark_active_auth : List AuthInfo → List AuthInfo
mark_active_auth [] = []
mark_active_auth (element ∷ rest) = record element { state = 1 } ∷ mark_active_auth rest

unfoldable pub call_rest : ℕ → List AuthCompletion → List AuthCall
call_rest rc [] = []
call_rest rc (a ∷ next) =
    record { completion = a.completion; rc = rc; auth_data = a.auth_data } ∷ call_rest rc next

-- `while (a_tmp->completion != NULL) { … }`: the calls, in order.
unfoldable pub call_completions : ℕ → AuthCompletionList → List AuthCall
call_completions rc a_list = elim a_list.completion [
  | none ↦ []
  | some c ↦
      record { completion = c; rc = rc; auth_data = a_list.auth_data } ∷ call_rest rc a_list.next
]

-- `a_list.completion = NULL; a_list.next = NULL;`
abbrev pub empty_list : AuthCompletionList
empty_list = record { completion = none; auth_data = 0; next = [] }

-- The second half of free_completions: the completions are told `reason`.
unfoldable pub free_auth_completions : AuthHandle → ℕ → AuthHandle × List AuthCall
free_auth_completions zh reason =
    let taken = get_auth_completions zh.auth_h empty_list in
    (record zh { auth_h = taken.0 }, call_completions reason taken.1)

-- The handle that the answer of the server leaves, before the completions are taken out.
unfoldable pub answered : ℕ → AuthHandle → AuthHandle
answered rc zh =
    if rc == 0
    then record zh { auth_h = mark_active_auth zh.auth_h }
    else record zh { state = auth_failed_state }

-- From the message on, whose argument is `zh->auth_h.auth->scheme`: at the default level of the log it
-- is read, and without credentials it is read through null: `none`.
abbrev pub told_to : ℕ → AuthHandle → List AuthInfo → Option (Option AuthHandle × List AuthCall)
told_to rc zh [] = none
told_to rc zh (auth ∷ rest) =
    let told = free_auth_completions (answered rc zh) rc in some (some told.0, told.1)

-- `zh` may be null.
unfoldable pub auth_completion_func :
    ℕ → Option AuthHandle → Option (Option AuthHandle × List AuthCall)
auth_completion_func rc none = some (none, [])
auth_completion_func rc (some zh) = told_to rc zh zh.auth_h
