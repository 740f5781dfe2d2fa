-- ===== src/Client/Multi.antt =====
-- zoo_amulti of src/zk/zookeeper.c, and the completions of its parts. The results are an array at an
-- address: the part at an index is told to the element at that index.
use ext_zookeeper.Prelude.{
  ℕ, ◌+◌, ◌-◌, ◌^◌, Bool, true, false, Option, none, some, List, [], ◌∷◌, length, take, leb, ◌==◌,
  not, if◌then◌else◌,
}
use ext_zookeeper.Codes.{
  zok, zmarshallingerror, zunimplemented, zoo_create_op, zoo_delete_op, zoo_setdata_op,
  zoo_check_op, zoo_multi_op,
}
use ext_zookeeper.Recordio.{
  Heap, Rc, good, fail, BuffStruct, Archive, is_neg, create_buffer_oarchive,
}
use ext_zookeeper.Jute.Headers.{serialize_request_header}
use ext_zookeeper.Jute.Acl.{AclVector}
use ext_zookeeper.Jute.Stats.{Stat}
use ext_zookeeper.Jute.Multi.{
  MultiHeader, serialize_multi_header, CheckVersionRequest, serialize_check_version_request,
}
use ext_zookeeper.Jute.MoreReads.{serialize_delete_request}
use ext_zookeeper.Jute.Updates.{serialize_set_data_request}
use ext_zookeeper.Jute.AclUpdates.{serialize_create_request}
use ext_zookeeper.Watchers.{Hashtable}
use ext_zookeeper.Paths.{request_path_init}
use ext_zookeeper.Session.{completion_multi}
use ext_zookeeper.Client.Defs.{
  ZHandle, Surroundings, Completion, Part, Parts, Run, path_handle, complete_request,
  finish_request,
}
use ext_zookeeper.Client.Calls.{
  header, set_data_request_init, create_request_init, delete_request_init, completion_string,
  completion_void, completion_stat,
}

-- zoo_op_t; the places for a result are the blocks they point to, which may be null. An operation of
-- another type has no fields.
pub data ZooOp : Type 0 where
  create_op : List ℕ → Option (List ℕ) → ℕ → Option AclVector → ℕ → Option (List ℕ) → ℕ → ZooOp
  delete_op : List ℕ → ℕ → ZooOp
  set_op : List ℕ → Option (List ℕ) → ℕ → ℕ → Option Stat → ZooOp
  check_op : List ℕ → ℕ → ZooOp
  other_op : ℕ → ZooOp

-- The addresses of op_result_string_completion, op_result_void_completion and
-- op_result_stat_completion.
pub record OpFunctions : Type 0 where
  pub op_result_string : ℕ
  pub op_result_void : ℕ
  pub op_result_stat : ℕ

-- zoo_op_result_t; its size is 32. `value` is a block of `valuelen` bytes that may be null.
pub record OpResult : Type 0 where
  pub err : ℕ
  pub value : Option (List ℕ)
  pub valuelen : ℕ
  pub stat : Option Stat

abbrev pub sizeof_op_result : ℕ
sizeof_op_result = 32

-- `value` is the path without its terminating 0. What is behind the copy is left out.
unfoldable pub op_result_string_completion : OpResult → ℕ → Option (List ℕ) → OpResult
op_result_string_completion result err none = record result { err = err; value = none }
op_result_string_completion result err (some value) = elim result.value [
  | none ↦ record result { err = err; value = none }
  | some block ↦
      let room = if is_neg result.valuelen then 0 else result.valuelen in
      let len = if leb (length value + 1) room then length value + 1 else room in
      record result { err = err; value = some (if leb 1 len then take (len - 1) value else block) }
]

unfoldable pub op_result_void_completion : OpResult → ℕ → OpResult
op_result_void_completion result err = record result { err = err }

unfoldable pub op_result_stat_completion : OpResult → ℕ → Option Stat → OpResult
op_result_stat_completion result err none = record result { err = err; stat = none }
op_result_stat_completion result err (some stat) = elim result.stat [
  | none ↦ record result { err = err; stat = none }
  | some old ↦ record result { err = err; stat = if err == 0 then some stat else none }
]

-- `result->value = op->create_op.buf; result->valuelen = op->create_op.buflen;` and
-- `result->stat = op->set_op.stat;`
unfoldable pub prepare_result : ZooOp → OpResult → OpResult
prepare_result (create_op path value valuelen acl flags buf buflen) result = record result {
  value = buf;
  valuelen = buflen;
}
prepare_result (set_op path value valuelen version stat) result = record result { stat = stat }
prepare_result (delete_op path version) result = result
prepare_result (check_op path version) result = result
prepare_result (other_op type) result = result

-- CheckVersionRequest_init, after its path.
unfoldable pub check_version_request_init : List ℕ → ℕ → CheckVersionRequest
check_version_request_init server_path version = record {
  path = some server_path;
  version = version;
}

abbrev pub op_type : ZooOp → ℕ
op_type (create_op path value valuelen acl flags buf buflen) = zoo_create_op
op_type (delete_op path version) = zoo_delete_op
op_type (set_op path value valuelen version stat) = zoo_setdata_op
op_type (check_op path version) = zoo_check_op
op_type (other_op type) = type

abbrev pub op_path : ZooOp → List ℕ
op_path (create_op path value valuelen acl flags buf buflen) = path
op_path (delete_op path version) = path
op_path (set_op path value valuelen version stat) = path
op_path (check_op path version) = path
op_path (other_op type) = []

abbrev pub op_flags : ZooOp → ℕ
op_flags (create_op path value valuelen acl flags buf buflen) = flags
op_flags (delete_op path version) = 0
op_flags (set_op path value valuelen version stat) = 0
op_flags (check_op path version) = 0
op_flags (other_op type) = 0

-- The record of an operation with the path of the server.
unfoldable pub serialize_op : Heap → List ℕ → ZooOp → Archive (Unit {0})
serialize_op heap s (create_op path value valuelen acl flags buf buflen) =
    serialize_create_request heap (create_request_init s value valuelen acl flags)
serialize_op heap s (delete_op path version) =
    serialize_delete_request heap (delete_request_init s version)
serialize_op heap s (set_op path value valuelen version stat) =
    serialize_set_data_request heap (set_data_request_init s value valuelen version)
serialize_op heap s (check_op path version) =
    serialize_check_version_request heap (check_version_request_init s version)
serialize_op heap s (other_op type) = λ oa. some (good tt, oa)

abbrev pub part : ℕ → ℕ → ℕ → ℕ → Part
part xid type function result = record {
  xid = xid;
  type = type;
  result = function;
  clist = none;
  contents = result;
  buffer = none;
  watcher = none;
  watcher_result = [];
}

-- The completion of an operation.
unfoldable pub part_of : OpFunctions → ℕ → ℕ → ZooOp → Part
part_of fs xid result (create_op path value valuelen acl flags buf buflen) =
    part xid completion_string fs.op_result_string result
part_of fs xid result (delete_op path version) = part xid completion_void fs.op_result_void result
part_of fs xid result (set_op path value valuelen version stat) =
    part xid completion_stat fs.op_result_stat result
part_of fs xid result (check_op path version) = part xid completion_void fs.op_result_void result
part_of fs xid result (other_op type) = part xid completion_void 0 result

-- `clist` in the end.
unfoldable pub parts_of_ops : OpFunctions → ℕ → ℕ → List ZooOp → Parts
parts_of_ops fs xid results [] = []
parts_of_ops fs xid results (op ∷ ops) =
    part_of fs xid results op ∷ parts_of_ops fs xid (results + sizeof_op_result) ops

-- The header in front of an operation, and the one behind the last.
abbrev pub op_header : ZooOp → MultiHeader
op_header op = record { type = op_type op; done = 0; err = 2 ^ 32 - 1 }

abbrev pub last_header : MultiHeader
last_header = record { type = 2 ^ 32 - 1; done = 1; err = 2 ^ 32 - 1 }

-- The end of the loop over the operations: ZUNIMPLEMENTED, or whether `rc` is not below 0.
pub data OpsEnd : Type 0 where
  unimplemented : OpsEnd
  looped : Bool → BuffStruct → OpsEnd

abbrev pub is_other : ZooOp → Bool
is_other (other_op type) = true
is_other (create_op path value valuelen acl flags buf buflen) = false
is_other (delete_op path version) = false
is_other (set_op path value valuelen version stat) = false
is_other (check_op path version) = false

-- What a call of zoo_amulti that returns has written into the array of results: those of the operations
-- up to one of another type. An array that is too short is written behind its end: `none`.
unfoldable pub prepare_results : List ZooOp → List OpResult → Option (List OpResult)
prepare_results [] results = some results
prepare_results (op ∷ ops) [] = if is_other op then some [] else none
prepare_results (op ∷ ops) (result ∷ results) =
    if is_other op then some (result ∷ results) else elim (prepare_results ops results) [
      | none ↦ none
      | some more ↦ some (prepare_result op result ∷ more)
    ]

abbrev pub ended : Option (Rc (Unit {0}) × BuffStruct) → Option (Bool × BuffStruct)
ended none = none
ended (some (good u, oa)) = some (true, oa)
ended (some (fail e, oa)) = some (false, oa)

abbrev pub multi_completion : ℕ → ℕ → Parts → Completion
multi_completion dc contents clist = record {
  type = completion_multi;
  dc = dc;
  contents = contents;
  watcher = none;
  clist = some clist;
}

module _ {ht : Hashtable} (env : Surroundings) where
  -- The path and the record of an operation, behind its header. A path that is refused has been
  -- freed by Request_path_init if there is a chroot, and is freed again.
  unfoldable pub op_record : ZHandle ht → ZooOp → BuffStruct → Option (Bool × BuffStruct)
  op_record zh op oa =
      let init = request_path_init (some (path_handle zh)) (op_flags op) (op_path op) in
      if init.0 == zok
      then ended (serialize_op env.heap init.1 op oa)
      else elim zh.chroot [ none ↦ some (false, oa) | some chroot ↦ none ]

  -- Behind the header: without it the request is not filled in, and its path is freed all the same.
  -- A completion that is not there is queued all the same.
  abbrev pub op_behind :
      ZHandle ht → ZooOp → Option (Rc (Unit {0}) × BuffStruct) → Option (Bool × BuffStruct)
  op_behind zh op none = none
  op_behind zh op (some (fail e, oa)) = none
  op_behind zh op (some (good u, oa)) = if env.entry_given then op_record zh op oa else none

  -- `for (index=0; index < count; index++) { … }`. With `rc` below 0 an operation is not filled in.
  unfoldable pub op_loop : ZHandle ht → Bool → List ZooOp → BuffStruct → Option OpsEnd
  op_loop zh ok [] oa = some (looped ok oa)
  op_loop zh ok (op ∷ ops) oa =
      if is_other op
      then some unimplemented
      else if not ok
      then none
      else elim (op_behind zh op (serialize_multi_header env.heap (op_header op) oa)) [
        | none ↦ none
        | some (ok', oa') ↦ op_loop zh ok' ops oa'
      ]

  -- Behind the loop.
  abbrev pub amulti_end : ZHandle ht → ℕ → Completion → Option OpsEnd → Run ht
  amulti_end zh xid c none = none
  amulti_end zh xid c (some unimplemented) = some (zunimplemented, zh, [])
  amulti_end zh xid c (some (looped false oa)) = finish_request env zmarshallingerror zh
  amulti_end zh xid c (some (looped true oa)) =
      complete_request env zh xid c (serialize_multi_header env.heap last_header oa)

  abbrev pub op_loop_from :
      ZHandle ht → List ZooOp → Option (Rc (Unit {0}) × BuffStruct) → Option OpsEnd
  op_loop_from zh ops none = none
  op_loop_from zh ops (some (fail e, oa)) = op_loop zh false ops oa
  op_loop_from zh ops (some (good u, oa)) = op_loop zh true ops oa

  -- A null handle is not modelled.
  unfoldable pub zoo_amulti : OpFunctions → ℕ → ZHandle ht → List ZooOp → ℕ → ℕ → ℕ → Run ht
  zoo_amulti fs xid zh ops results dc contents = elim (create_buffer_oarchive env.heap) [
    | none ↦ none
    | some oa ↦
        amulti_end zh xid (multi_completion dc contents (parts_of_ops fs xid results ops))
          (op_loop_from zh ops (serialize_request_header env.heap (header xid zoo_multi_op) oa))
  ]
