-- ===== src/Session/Defs.antt =====
-- The completions of the requests that wait for an answer, of zookeeper.c: they are queued, taken and
-- told an error. `C` is the type of the list of a multi request's parts.
use ext_zookeeper.Prelude.{
  ℕ, ◌+◌, ◌-◌, ◌%◌, ◌^◌, Bool, true, false, Option, none, some, List, [], ◌∷◌, ◌==◌, if◌then◌else◌,
  leb, take,
}
use ext_zookeeper.Recordio.{
  Heap, Rc, BuffStruct, create_buffer_oarchive, get_buffer, get_buffer_len,
}
use ext_zookeeper.Jute.Headers.{serialize_reply_header}
use ext_zookeeper.Codes.{zok, zsystemerror, zinvalidstate}
use ext_zookeeper.Auth.{AuthHandle, AuthCall, free_auth_completions}
use ext_zookeeper.Watchers.{WatcherRegistration, WatcherObjectList}

abbrev pub completion_multi : ℕ
completion_multi = 7

-- completion_list_t; `next` is the place in a list. `result` is the function of the union, an
-- address, and `sync_marker` is that of a synchronous call. `buffer` is the answer, and
-- `watcher_result` the watchers of a notification, which are in the union too.
pub record CompletionEntry (C : Type 0) : Type 0 where
  pub xid : ℕ
  pub type : ℕ
  pub result : ℕ
  pub clist : Option C
  pub contents : ℕ
  pub buffer : Option (List ℕ)
  pub watcher : Option WatcherRegistration
  pub watcher_result : WatcherObjectList

-- The part of zhandle_t that completions are kept in. A completion_head_t is the list from its head
-- to its last entry.
pub record Requests (C : Type 0) : Type 0 where
  pub sent_requests : List (CompletionEntry C)
  pub completions_to_process : List (CompletionEntry C)
  pub outstanding_sync : ℕ
  pub close_requested : Bool
  pub auth : AuthHandle

-- The wakening of a synchronous caller: its sync_completion, and the code that it gets.
pub record Notified : Type 0 where
  pub sc : ℕ
  pub rc : ℕ

-- What create_completion_entry comes to: no memory, a failed assertion, or an entry.
pub data Created (C : Type 0) : Type 0 where
  no_memory aborted : Created C
  created : CompletionEntry C → Created C

module _ {C : Type 0} where
  -- `given`: calloc gives a block. The function is kept for the types from 0 to 7 only, and a multi
  -- request must have a list.
  unfoldable pub create_completion_entry :
      Bool → ℕ → ℕ → ℕ → ℕ → Option WatcherRegistration → Option C → Created C
  create_completion_entry given xid type dc contents wo clist =
      let entry : Option C → CompletionEntry C = λ parts. record {
        xid = xid;
        type = type;
        result = if leb type completion_multi then dc else 0;
        clist = parts;
        contents = contents;
        buffer = none;
        watcher = wo;
        watcher_result = [];
      } in
      if given
      then if type == completion_multi
        then elim clist [ none ↦ aborted | some parts ↦ created (entry (some parts)) ]
        else created (entry none)
      else no_memory

  -- `add_to_front` is a Boolean.
  unfoldable pub queue_completion_nolock :
      List (CompletionEntry C) → CompletionEntry C → Bool → List (CompletionEntry C)
  queue_completion_nolock [] c add_to_front = c ∷ []
  queue_completion_nolock (e ∷ rest) c true = c ∷ e ∷ rest
  queue_completion_nolock (e ∷ rest) c false = e ∷ queue_completion_nolock rest c false

  unfoldable pub dequeue_completion :
      List (CompletionEntry C) → Option (CompletionEntry C) × List (CompletionEntry C)
  dequeue_completion [] = (none, [])
  dequeue_completion (cptr ∷ next) = (some cptr, next)

  -- The part of add_completion under the lock.
  unfoldable pub add_entry : ℕ → Requests C → CompletionEntry C → ℕ → Bool → ℕ × Requests C
  add_entry sync_marker zh c dc add_to_front = if zh.close_requested then (zinvalidstate, zh) else (
    zok,
    record zh {
      sent_requests = queue_completion_nolock zh.sent_requests c add_to_front;
      outstanding_sync = (zh.outstanding_sync + (if dc == sync_marker then 1 else 0)) % 2 ^ 32;
    },
  )

  -- `none` is a failed assertion.
  unfoldable pub add_completion :
      ℕ
      → Bool
      → Requests C
      → ℕ
      → ℕ
      → ℕ
      → ℕ
      → Bool
      → Option WatcherRegistration
      → Option C
      → Option (ℕ × Requests C)
  add_completion sync_marker given zh xid type dc contents add_to_front wo clist =
      elim (create_completion_entry given xid type dc contents wo clist) [
        | no_memory ↦ some (zsystemerror, zh)
        | aborted ↦ none
        | created c ↦ some (add_entry sync_marker zh c dc add_to_front)
      ]

-- The bytes behind a serialized ReplyHeader; its code is not looked at. `none` is undefined behaviour.
abbrev pub faked : Option (Rc (Unit {0}) × BuffStruct) → Option (List ℕ)
faked none = none
faked (some (rc, oa)) = elim (get_buffer oa) [
  | none ↦ none
  | some block ↦ some (take (get_buffer_len oa) block)
]

-- The answer that free_completions makes up for a request.
unfoldable pub fake_response : Heap → ℕ → ℕ → Option (List ℕ)
fake_response heap xid reason = elim (create_buffer_oarchive heap) [
  | none ↦ none
  | some oa ↦
      faked (serialize_reply_header heap (record { xid = xid; zxid = 2 ^ 64 - 1; err = reason }) oa)
]

-- What free_completions has done so far: the handle, and who was wakened.
abbrev pub Freed : Type 0 → Type 0
Freed C = Requests C × List Notified

abbrev pub wakened : {C : Type 0} → Notified → Option (Freed C) → Option (Freed C)
wakened n none = none
wakened n (some (zh, ns)) = some (zh, n ∷ ns)

abbrev pub queue_response :
    {C : Type 0} → CompletionEntry C → Option (List ℕ) → Requests C → Option (Requests C)
queue_response cptr none zh = none
queue_response cptr (some bytes) zh = some (record zh {
  completions_to_process =
      queue_completion_nolock zh.completions_to_process (record cptr { buffer = some bytes }) false;
})

module _ {C : Type 0} (heap : Heap) (sync_marker : ℕ) where
  -- `while (tmp_list.head) { … }`
  unfoldable pub free_loop : List (CompletionEntry C) → Bool → ℕ → Requests C → Option (Freed C)
  free_loop [] call reason zh = some (zh, [])
  free_loop (cptr ∷ next) call reason zh =
      let after : Option (Requests C) =
        if cptr.result == sync_marker
        then some (record zh { outstanding_sync = (zh.outstanding_sync + (2 ^ 32 - 1)) % 2 ^ 32 })
        else if call
        then queue_response cptr (fake_response heap cptr.xid reason) zh
        else some zh in
      elim after [
        | none ↦ none
        | some zh' ↦
            let rest = free_loop next call reason zh' in
            if cptr.result == sync_marker
            then wakened (record { sc = cptr.contents; rc = reason }) rest
            else rest
      ]

  -- What free_completions leaves: the handle, who was wakened, and the completions of credentials
  -- that were called.
  unfoldable pub free_completions :
      Requests C → Bool → ℕ → Option (Requests C × List Notified × List AuthCall)
  free_completions zh call reason =
      elim (free_loop zh.sent_requests call reason (record zh { sent_requests = [] })) [
        | none ↦ none
        | some (zh', ns) ↦
            let told = free_auth_completions zh'.auth reason in
            some (record zh' { auth = told.0 }, ns, told.1)
      ]
