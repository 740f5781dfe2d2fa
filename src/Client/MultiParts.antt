-- ===== src/Client/MultiParts.antt =====
-- What a multi request of src/zk/zookeeper.c is to carry: the bytes of its operations, and its parts.
use ext_zookeeper.Prelude.{ℕ, ◌+◌, ◌-◌, ◌^◌, Option, none, some, List, [], ◌∷◌}
use ext_zookeeper.Jute.Acl.{AclVector}
use ext_zookeeper.Jute.Stats.{Stat}
use ext_zookeeper.Jute.Multi.{
  multi_header_bytes, check_version_request_bytes, IsCheckVersionRequest,
}
use ext_zookeeper.Jute.MoreReads.{IsDeleteRequest, delete_request_bytes}
use ext_zookeeper.Jute.Updates.{SetDataRequest, IsSetDataRequest, set_data_request_bytes}
use ext_zookeeper.Jute.AclUpdates.{CreateRequest, IsCreateRequest, create_request_bytes}
use ext_zookeeper.Client.Defs.{Part, Parts}
use ext_zookeeper.Client.Multi.{
  ZooOp, create_op, delete_op, set_op, check_op, other_op, OpFunctions,
}

-- The requests of the protocol with the path `s` of the server.
abbrev pub created : List ℕ → Option (List ℕ) → ℕ → Option AclVector → ℕ → CreateRequest
created s value valuelen acl flags = record {
  path = some s;
  contents = record { len = valuelen; buff = value };
  acl = elim acl [ none ↦ record { count = 0; items = [] } | some acl ↦ acl ];
  flags = flags;
}

abbrev pub updated : List ℕ → Option (List ℕ) → ℕ → ℕ → SetDataRequest
updated s value valuelen version = record {
  path = some s;
  contents = record { len = valuelen; buff = value };
  version = version;
}

-- The number of an operation's type in the protocol.
abbrev pub op_number : ZooOp → ℕ
op_number (create_op path value valuelen acl flags buf buflen) = 1
op_number (delete_op path version) = 2
op_number (set_op path value valuelen version stat) = 5
op_number (check_op path version) = 13
op_number (other_op type) = type

-- The bytes of an operation's record.
abbrev pub op_bytes : List ℕ → ZooOp → List ℕ
op_bytes s (create_op path value valuelen acl flags buf buflen) =
    create_request_bytes (created s value valuelen acl flags)
op_bytes s (delete_op path version) =
    delete_request_bytes (record { path = some s; version = version })
op_bytes s (set_op path value valuelen version stat) =
    set_data_request_bytes (updated s value valuelen version)
op_bytes s (check_op path version) =
    check_version_request_bytes (record { path = some s; version = version })
op_bytes s (other_op type) = []

-- A multi header in front of an operation, with the operation's number, and the one at the end.
abbrev pub number_bytes : ℕ → List ℕ
number_bytes n = multi_header_bytes (record { type = n; done = 0; err = 2 ^ 32 - 1 })

abbrev pub done_bytes : List ℕ
done_bytes = multi_header_bytes (record { type = 2 ^ 32 - 1; done = 1; err = 2 ^ 32 - 1 })

-- A part of a multi request: its type, its function, and the address of its result.
abbrev pub one_part : ℕ → ℕ → ℕ → ℕ → Part
one_part xid type function result = record {
  xid = xid;
  type = type;
  result = function;
  clist = none;
  contents = result;
  buffer = none;
  watcher = none;
  watcher_result = [];
}

-- The parts for some operations, whose results stand 32 bytes apart: 6 is COMPLETION_STRING, 1
-- COMPLETION_STAT and 0 COMPLETION_VOID.
pub data ArePartsOf (fs : OpFunctions) (xid : ℕ) : ℕ → List ZooOp → Parts → Type 0 where
  all_told : {result : ℕ} → ArePartsOf fs xid result [] []
  told_path :
      {result : ℕ} {path : List ℕ} {value : Option (List ℕ)} {valuelen : ℕ} {acl : Option AclVector}
      {flags : ℕ} {buf : Option (List ℕ)} {buflen : ℕ} {ops : List ZooOp} {parts : Parts}
      → ArePartsOf fs xid (result + 32) ops parts
      → ArePartsOf fs xid result
          (create_op path value valuelen acl flags buf buflen ∷ ops)
          (one_part xid 6 fs.op_result_string result ∷ parts)
  told_stat :
      {result : ℕ} {path : List ℕ} {value : Option (List ℕ)} {valuelen version : ℕ}
      {stat : Option Stat} {ops : List ZooOp} {parts : Parts}
      → ArePartsOf fs xid (result + 32) ops parts
      → ArePartsOf fs xid result
          (set_op path value valuelen version stat ∷ ops)
          (one_part xid 1 fs.op_result_stat result ∷ parts)
  told_delete :
      {result : ℕ} {path : List ℕ} {version : ℕ} {ops : List ZooOp} {parts : Parts}
      → ArePartsOf fs xid (result + 32) ops parts
      → ArePartsOf fs xid result
          (delete_op path version ∷ ops)
          (one_part xid 0 fs.op_result_void result ∷ parts)
  told_check :
      {result : ℕ} {path : List ℕ} {version : ℕ} {ops : List ZooOp} {parts : Parts}
      → ArePartsOf fs xid (result + 32) ops parts
      → ArePartsOf fs xid result
          (check_op path version ∷ ops)
          (one_part xid 0 fs.op_result_void result ∷ parts)

-- The fields of an operation fit their places on the wire, and its type is one of the four.
abbrev pub FitsOp : List ℕ → ZooOp → Type 0
FitsOp s (create_op path value valuelen acl flags buf buflen) =
    IsCreateRequest (created s value valuelen acl flags)
FitsOp s (delete_op path version) = IsDeleteRequest (record { path = some s; version = version })
FitsOp s (set_op path value valuelen version stat) =
    IsSetDataRequest (updated s value valuelen version)
FitsOp s (check_op path version) =
    IsCheckVersionRequest (record { path = some s; version = version })
FitsOp s (other_op type) = ⊥
