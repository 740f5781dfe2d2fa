-- ===== src/Replies/Sync.antt =====
-- process_sync_completion of src/zk/zookeeper.c: what a synchronous caller finds.
use ext_zookeeper.Prelude.{
  ℕ, ◌+◌, ◌-◌, ◌^◌, Bool, true, false, Option, none, some, List, [], ◌==◌, leb, ltb, length, take,
  if◌then◌else◌,
}
use ext_zookeeper.Recordio.{Heap, BuffStruct, is_neg}
use ext_zookeeper.Jute.Stats.{deserialize_set_data_response}
use ext_zookeeper.Jute.Events.{CreateResponse, deserialize_create_response}
use ext_zookeeper.Jute.Responses.{
  GetDataResponse, deserialize_get_data_response, deserialize_get_children_response,
  deserialize_get_children2_response,
}
use ext_zookeeper.Jute.AclResponses.{deserialize_get_acl_response}
use ext_zookeeper.Paths.{PathHandle, sub_string}
use ext_zookeeper.Session.{CompletionEntry, completion_multi}
use ext_zookeeper.Client.{
  Parts, completion_stat, completion_data, completion_stringlist, completion_stringlist_stat,
  completion_acllist, completion_string,
}
use ext_zookeeper.Replies.Defs.{
  Value, no_value, data_value, stat_value, strings_value, strings_stat_value, string_value,
  acl_value, Told, read_record,
}
use ext_zookeeper.Replies.Answers.{deserialize_multi}

-- `a <= b` for ints
abbrev pub le_int : ℕ → ℕ → Bool
le_int a b =
    if is_neg a then if is_neg b then leb a b else true else if is_neg b then false else leb a b

-- `memcpy(sc->u.data.buffer, res.data.buff, len)`: the bytes that are copied. A length below 0 is no
-- size, and a null block holds no byte.
abbrev pub copied : ℕ → Option (List ℕ) → Option (List ℕ)
copied len none = if len == 0 then some [] else none
copied len (some bytes) = if is_neg len then none else some (take len bytes)

-- What is left of the data in a buffer of `buff_len` bytes.
unfoldable pub sync_data : ℕ → GetDataResponse → Option Value
sync_data buff_len res =
    let len = if le_int res.contents.len buff_len then res.contents.len else buff_len in
    if len == 2 ^ 32 - 1
    then some (data_value (record { len = len; buff = none }) res.stat)
    else elim (copied len res.contents.buff) [
      | none ↦ none
      | some bytes ↦ some (data_value (record { len = len; buff = some bytes }) res.stat)
    ]

-- What is left of a path in a string of `str_len` bytes, its terminating 0 left out.
unfoldable pub sync_string : PathHandle → ℕ → CreateResponse → Option Value
sync_string zh str_len res = elim res.path [
  | none ↦ none
  | some path ↦
      let client_path = sub_string zh path in
      let full = length client_path + 1 in
      let len = if le_int full str_len then full else str_len in
      some (
        if (if is_neg len then false else ltb 0 len)
        then string_value (some (take (len - 1) client_path))
        else no_value)
]

-- The code and the values that the caller finds, and the calls for the parts of a multi request.
abbrev pub SyncRun : Type 0
SyncRun = Option (ℕ × Value × List Told)

abbrev pub found : {A : Type 0} → ℕ → (A → Option Value) → Option (A × BuffStruct) → SyncRun
found rc value none = none
found rc value (some (a, ia)) = elim (value a) [ none ↦ none | some v ↦ some (rc, v, []) ]

-- `room` is buff_len or str_len.
unfoldable pub process_sync_completion :
    Heap → ℕ → CompletionEntry Parts → ℕ → PathHandle → BuffStruct → SyncRun
process_sync_completion heap room cptr rc zh ia =
    if cptr.type == completion_multi
    then elim (deserialize_multi heap cptr ia) [
      | none ↦ none
      | some (rc', calls, ia') ↦ some (rc', no_value, calls)
    ]
    else if rc == 0
    then if cptr.type == completion_data
      then found rc (sync_data room) (read_record (deserialize_get_data_response heap) ia)
      else if cptr.type == completion_stat
      then found rc (λ res. some (stat_value res.stat))
          (read_record deserialize_set_data_response ia)
      else if cptr.type == completion_stringlist
      then found rc (λ res. some (strings_value res.children))
          (read_record (deserialize_get_children_response heap) ia)
      else if cptr.type == completion_stringlist_stat
      then found rc (λ res. some (strings_stat_value res.children res.stat))
          (read_record (deserialize_get_children2_response heap) ia)
      else if cptr.type == completion_string
      then found rc (sync_string zh room) (read_record (deserialize_create_response heap) ia)
      else if cptr.type == completion_acllist
      then found rc (λ res. some (acl_value res.acl res.stat))
          (read_record (deserialize_get_acl_response heap) ia)
      else some (rc, no_value, [])
    else some (rc, no_value, [])
