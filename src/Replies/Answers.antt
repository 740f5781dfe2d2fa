-- ===== src/Replies/Answers.antt =====
-- deserialize_response and deserialize_multi of src/zk/zookeeper.c.
use ext_zookeeper.Prelude.{
  ℕ, ◌-◌, ◌^◌, Bool, true, false, Option, none, some, List, [], ◌∷◌, ◌++◌, ◌==◌, not, ◌&&◌,
  if◌then◌else◌,
}
use ext_zookeeper.Codes.{zruntimeinconsistency}
use ext_zookeeper.Recordio.{
  Heap, BuffStruct, good, fail, CString, ia_deserialize_int, ia_deserialize_bool,
}
use ext_zookeeper.Jute.Multi.{MultiHeader, deserialize_error_response}
use ext_zookeeper.Jute.Stats.{deserialize_set_data_response}
use ext_zookeeper.Jute.Events.{deserialize_create_response}
use ext_zookeeper.Jute.Responses.{
  deserialize_get_data_response, deserialize_get_children_response,
  deserialize_get_children2_response,
}
use ext_zookeeper.Jute.AclResponses.{deserialize_get_acl_response}
use ext_zookeeper.Session.{CompletionEntry, completion_multi}
use ext_zookeeper.Client.{
  Parts, completion_void, completion_stat, completion_data, completion_stringlist,
  completion_stringlist_stat, completion_acllist, completion_string,
}
use ext_zookeeper.Replies.Defs.{
  Value, no_value, data_value, stat_value, strings_value, strings_stat_value, string_value,
  acl_value, Told, read_record,
}

-- The calls of completions, and the archive. `none`: undefined behaviour, or a failed assertion.
abbrev pub Tellings : Type 0
Tellings = Option (List Told × BuffStruct)

-- A call of the function of a completion. A null one cannot be called.
unfoldable pub tell : {C : Type 0} → CompletionEntry C → ℕ → Value → BuffStruct → Tellings
tell cptr rc value ia =
    if cptr.result == 0
    then none
    else some (
      record { function = cptr.result; rc = rc; value = value; context = cptr.contents } ∷ [],
      ia,
    )

-- A call with what a record holds.
abbrev pub tell_read :
    {A C : Type 0} → CompletionEntry C → ℕ → (A → Value) → Option (A × BuffStruct) → Tellings
tell_read cptr rc value none = none
tell_read cptr rc value (some (a, ia)) = tell cptr rc (value a) ia

-- `struct CreateResponse res; memset(&res, 0, sizeof(res)); deserialize_CreateResponse(…)`: the path
-- is null when it cannot be read.
abbrev pub read_path : Heap → BuffStruct → Option (CString × BuffStruct)
read_path heap ia = elim (deserialize_create_response heap ia) [
  | none ↦ none
  | some (fail e, ia') ↦ some (none, ia')
  | some (good res, ia') ↦ some (res.path, ia')
]

-- `struct MultiHeader mhdr = { 0, 0, 0 };`
abbrev pub no_header : MultiHeader
no_header = record { type = 0; done = 0; err = 0 }

-- What deserialize_MultiHeader leaves in a header, whatever its code: the fields behind one that
-- cannot be read stay as they were.
unfoldable pub fill_multi_header : MultiHeader → BuffStruct → Option (MultiHeader × BuffStruct)
fill_multi_header mhdr ia = elim (ia_deserialize_int ia) [
  | none ↦ none
  | some (fail e, s) ↦ some (mhdr, s)
  | some (good type, s) ↦ elim (ia_deserialize_bool s) [
    | none ↦ none
    | some (fail e, t) ↦ some (record mhdr { type = type }, t)
    | some (good done, t) ↦ elim (ia_deserialize_int t) [
      | none ↦ none
      | some (fail e, u) ↦ some (record mhdr { type = type; done = done }, u)
      | some (good err, u) ↦ some (record { type = type; done = done; err = err }, u)
    ]
  ]
]

-- The code of a multi request, the calls for its parts, and the archive.
abbrev pub MultiRun : Type 0
MultiRun = Option (ℕ × List Told × BuffStruct)

abbrev pub part_error : ℕ → MultiHeader → BuffStruct → Option (ℕ × MultiHeader × BuffStruct)
part_error rc mhdr ia =
    if mhdr.type == 2 ^ 32 - 1
    then elim (read_record deserialize_error_response ia) [
      | none ↦ none
      | some (er, ia') ↦ some (
        if (rc == 0) && (not (er.err == 0) && not (er.err == zruntimeinconsistency))
            then er.err
            else rc,
        record mhdr { err = er.err },
        ia',
      )
    ]
    else some (rc, mhdr, ia)

abbrev pub told_first : List Told → MultiRun → MultiRun
told_first calls none = none
told_first calls (some (rc, more, ia)) = some (rc, calls ++ more, ia)

-- The parts of a completion that calloc has left without any are none.
abbrev pub parts_of : CompletionEntry Parts → Parts
parts_of cptr = elim cptr.clist [ none ↦ [] | some clist ↦ clist ]

-- The calls of the parts, and then that of the whole.
abbrev pub told_last : CompletionEntry Parts → MultiRun → Tellings
told_last cptr none = none
told_last cptr (some (rc, calls, ia)) = elim (tell cptr rc no_value ia) [
  | none ↦ none
  | some (last, ia') ↦ some (calls ++ last, ia')
]

module _ (heap : Heap) where
  -- deserialize_response for a completion that has no parts.
  unfoldable pub deserialize_simple :
      {C : Type 0} → ℕ → Bool → ℕ → CompletionEntry C → BuffStruct → Tellings
  deserialize_simple type failed rc cptr ia =
      if type == completion_data
      then if failed
        then tell cptr rc no_value ia
        else tell_read cptr rc (λ res. data_value res.contents res.stat)
            (read_record (deserialize_get_data_response heap) ia)
      else if type == completion_stat
      then if failed
        then tell cptr rc no_value ia
        else tell_read cptr rc (λ res. stat_value res.stat)
            (read_record deserialize_set_data_response ia)
      else if type == completion_stringlist
      then if failed
        then tell cptr rc no_value ia
        else tell_read cptr rc (λ res. strings_value res.children)
            (read_record (deserialize_get_children_response heap) ia)
      else if type == completion_stringlist_stat
      then if failed
        then tell cptr rc no_value ia
        else tell_read cptr rc (λ res. strings_stat_value res.children res.stat)
            (read_record (deserialize_get_children2_response heap) ia)
      else if type == completion_string
      then if failed
        then tell cptr rc no_value ia
        else tell_read cptr rc string_value (read_path heap ia)
      else if type == completion_acllist
      then if failed
        then tell cptr rc no_value ia
        else tell_read cptr rc (λ res. acl_value res.acl res.stat)
            (read_record (deserialize_get_acl_response heap) ia)
      else if type == completion_void
      then tell cptr rc no_value ia
      else some ([], ia)

  -- The loop of deserialize_multi. Each round takes an entry off the list, and must find one. A part
  -- has no parts of its own, so that its response is a simple one.
  unfoldable pub multi_loop : Parts → ℕ → MultiHeader → BuffStruct → MultiRun
  multi_loop [] rc mhdr ia = if mhdr.done == 0 then none else some (rc, [], ia)
  multi_loop (entry ∷ clist) rc mhdr ia = elim (mhdr.done == 0) [
    | false ↦ some (rc, [], ia)
    | true ↦ elim (part_error rc mhdr ia) [
      | none ↦ none
      | some (rc', mhdr', ia') ↦
          elim (deserialize_simple entry.type (mhdr'.type == 2 ^ 32 - 1) mhdr'.err entry ia') [
            | none ↦ none
            | some (calls, u) ↦ elim (fill_multi_header mhdr' u) [
              | none ↦ none
              | some (mhdr'', t) ↦ told_first calls (multi_loop clist rc' mhdr'' t)
            ]
          ]
    ]
  ]

  unfoldable pub deserialize_multi : CompletionEntry Parts → BuffStruct → MultiRun
  deserialize_multi cptr ia = elim (fill_multi_header no_header ia) [
    | none ↦ none
    | some (mhdr, ia') ↦ multi_loop (parts_of cptr) 0 mhdr ia'
  ]

  unfoldable pub deserialize_response : ℕ → Bool → ℕ → CompletionEntry Parts → BuffStruct → Tellings
  deserialize_response type failed rc cptr ia =
      if type == completion_multi
      then told_last cptr (deserialize_multi cptr ia)
      else deserialize_simple type failed rc cptr ia
