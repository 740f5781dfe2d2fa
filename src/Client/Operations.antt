-- ===== src/Client/Operations.antt =====
-- The request functions of src/zk/zookeeper.c as the values of one type, and what each of them sends.
use ext_zookeeper.Prelude.{ℕ, Option, none, some, List, ◌==◌, if◌then◌else◌}
use ext_zookeeper.Codes.{
  zoo_create_op, zoo_delete_op, zoo_exists_op, zoo_getdata_op, zoo_setdata_op, zoo_getacl_op,
  zoo_setacl_op, zoo_getchildren_op, zoo_getchildren2_op, zoo_sync_op,
}
use ext_zookeeper.Jute.Acl.{AclVector}
use ext_zookeeper.Jute.Reads.{
  IsGetDataRequest, get_data_request_bytes, IsExistsRequest, exists_request_bytes,
  IsGetChildrenRequest, get_children_request_bytes,
}
use ext_zookeeper.Jute.MoreReads.{
  IsGetChildren2Request, get_children2_request_bytes, IsSyncRequest, sync_request_bytes,
  IsGetAclRequest, get_acl_request_bytes, IsDeleteRequest, delete_request_bytes,
}
use ext_zookeeper.Jute.Updates.{IsSetDataRequest, set_data_request_bytes}
use ext_zookeeper.Jute.AclUpdates.{
  IsCreateRequest, create_request_bytes, IsSetAclRequest, set_acl_request_bytes,
}
use ext_zookeeper.Watchers.{
  Hashtable, Checker, exists_result, data_result, child_result, WatcherRegistration,
}
use ext_zookeeper.Client.Defs.{ZHandle, Surroundings, Completion, Answer}
use ext_zookeeper.Client.Calls.{
  completion, completion_void, completion_stat, completion_data, completion_stringlist,
  completion_stringlist_stat, completion_acllist, completion_string, truth, set_data_request_init,
  create_request_init, delete_request_init, zoo_awget, zoo_aset, zoo_acreate, zoo_adelete,
  zoo_awexists, zoo_awget_children, zoo_awget_children2, zoo_async, zoo_aget_acl, zoo_aset_acl,
}

-- A call of a request function, with its arguments but for the completion.
pub data Operation : Type 0 where
  awget : List ℕ → ℕ → ℕ → Operation
  aset : List ℕ → Option (List ℕ) → ℕ → ℕ → Operation
  acreate : List ℕ → Option (List ℕ) → ℕ → Option AclVector → ℕ → Operation
  adelete : List ℕ → ℕ → Operation
  awexists : List ℕ → ℕ → ℕ → Operation
  awget_children : List ℕ → ℕ → ℕ → Operation
  awget_children2 : List ℕ → ℕ → ℕ → Operation
  async : List ℕ → Operation
  aget_acl : List ℕ → Operation
  aset_acl : List ℕ → ℕ → AclVector → Operation

module _ {ht : Hashtable} (env : Surroundings) (xid : ℕ) where
  -- The call with the completion `dc` and its context.
  abbrev pub perform : Option (ZHandle ht) → Operation → ℕ → ℕ → Answer ht
  perform zh (awget path watcher ctx) dc contents =
      zoo_awget env xid zh path watcher ctx dc contents
  perform zh (aset path buffer buflen version) dc contents =
      zoo_aset env xid zh path buffer buflen version dc contents
  perform zh (acreate path value valuelen acl flags) dc contents =
      zoo_acreate env xid zh path value valuelen acl flags dc contents
  perform zh (adelete path version) dc contents = zoo_adelete env xid zh path version dc contents
  perform zh (awexists path watcher ctx) dc contents =
      zoo_awexists env xid zh path watcher ctx dc contents
  perform zh (awget_children path watcher ctx) dc contents =
      zoo_awget_children env xid zh path watcher ctx dc contents
  perform zh (awget_children2 path watcher ctx) dc contents =
      zoo_awget_children2 env xid zh path watcher ctx dc contents
  perform zh (async path) dc contents = zoo_async env xid zh path dc contents
  perform zh (aget_acl path) dc contents = zoo_aget_acl env xid zh path dc contents
  perform zh (aset_acl path version acl) dc contents =
      zoo_aset_acl env xid zh path version acl dc contents

-- The path that the caller gives.
abbrev pub path_of : Operation → List ℕ
path_of (awget path watcher ctx) = path
path_of (aset path buffer buflen version) = path
path_of (acreate path value valuelen acl flags) = path
path_of (adelete path version) = path
path_of (awexists path watcher ctx) = path
path_of (awget_children path watcher ctx) = path
path_of (awget_children2 path watcher ctx) = path
path_of (async path) = path
path_of (aget_acl path) = path
path_of (aset_acl path version acl) = path

-- The flags that the path is checked with: only a node that is created has some.
abbrev pub flags_of : Operation → ℕ
flags_of (acreate path value valuelen acl flags) = flags
flags_of (awget path watcher ctx) = 0
flags_of (aset path buffer buflen version) = 0
flags_of (adelete path version) = 0
flags_of (awexists path watcher ctx) = 0
flags_of (awget_children path watcher ctx) = 0
flags_of (awget_children2 path watcher ctx) = 0
flags_of (async path) = 0
flags_of (aget_acl path) = 0
flags_of (aset_acl path version acl) = 0

-- The type in the header of the request.
abbrev pub type_of : Operation → ℕ
type_of (awget path watcher ctx) = zoo_getdata_op
type_of (aset path buffer buflen version) = zoo_setdata_op
type_of (acreate path value valuelen acl flags) = zoo_create_op
type_of (adelete path version) = zoo_delete_op
type_of (awexists path watcher ctx) = zoo_exists_op
type_of (awget_children path watcher ctx) = zoo_getchildren_op
type_of (awget_children2 path watcher ctx) = zoo_getchildren2_op
type_of (async path) = zoo_sync_op
type_of (aget_acl path) = zoo_getacl_op
type_of (aset_acl path version acl) = zoo_setacl_op

-- The bytes of the record behind the header, for the path of the server.
abbrev pub body_of : List ℕ → Operation → List ℕ
body_of s (awget path watcher ctx) =
    get_data_request_bytes (record { path = some s; watch = truth watcher })
body_of s (aset path buffer buflen version) =
    set_data_request_bytes (set_data_request_init s buffer buflen version)
body_of s (acreate path value valuelen acl flags) =
    create_request_bytes (create_request_init s value valuelen acl flags)
body_of s (adelete path version) = delete_request_bytes (delete_request_init s version)
body_of s (awexists path watcher ctx) =
    exists_request_bytes (record { path = some s; watch = truth watcher })
body_of s (awget_children path watcher ctx) =
    get_children_request_bytes (record { path = some s; watch = truth watcher })
body_of s (awget_children2 path watcher ctx) =
    get_children2_request_bytes (record { path = some s; watch = truth watcher })
body_of s (async path) = sync_request_bytes (record { path = some s })
body_of s (aget_acl path) = get_acl_request_bytes (record { path = some s })
body_of s (aset_acl path version acl) =
    set_acl_request_bytes (record { path = some s; acl = acl; version = version })

-- The fields of the record fit their places on the wire.
abbrev pub Fits : List ℕ → Operation → Type 0
Fits s (awget path watcher ctx) = IsGetDataRequest (record { path = some s; watch = truth watcher })
Fits s (aset path buffer buflen version) =
    IsSetDataRequest (set_data_request_init s buffer buflen version)
Fits s (acreate path value valuelen acl flags) =
    IsCreateRequest (create_request_init s value valuelen acl flags)
Fits s (adelete path version) = IsDeleteRequest (delete_request_init s version)
Fits s (awexists path watcher ctx) =
    IsExistsRequest (record { path = some s; watch = truth watcher })
Fits s (awget_children path watcher ctx) =
    IsGetChildrenRequest (record { path = some s; watch = truth watcher })
Fits s (awget_children2 path watcher ctx) =
    IsGetChildren2Request (record { path = some s; watch = truth watcher })
Fits s (async path) = IsSyncRequest (record { path = some s })
Fits s (aget_acl path) = IsGetAclRequest (record { path = some s })
Fits s (aset_acl path version acl) =
    IsSetAclRequest (record { path = some s; acl = acl; version = version })

-- The registration of a watcher that is not null.
abbrev pub registration : List ℕ → Checker → ℕ → ℕ → Option WatcherRegistration
registration s checker watcher ctx =
    if watcher == 0
    then none
    else some (record { watcher = watcher; context = ctx; checker = checker; path = s })

-- The completion that waits for the answer.
abbrev pub completion_of : List ℕ → Operation → ℕ → ℕ → Completion
completion_of s (awget path watcher ctx) dc contents =
    completion completion_data dc contents (registration s data_result watcher ctx)
completion_of s (aset path buffer buflen version) dc contents =
    completion completion_stat dc contents none
completion_of s (acreate path value valuelen acl flags) dc contents =
    completion completion_string dc contents none
completion_of s (adelete path version) dc contents = completion completion_void dc contents none
completion_of s (awexists path watcher ctx) dc contents =
    completion completion_stat dc contents (registration s exists_result watcher ctx)
completion_of s (awget_children path watcher ctx) dc contents =
    completion completion_stringlist dc contents (registration s child_result watcher ctx)
completion_of s (awget_children2 path watcher ctx) dc contents =
    completion completion_stringlist_stat dc contents (registration s child_result watcher ctx)
completion_of s (async path) dc contents = completion completion_string dc contents none
completion_of s (aget_acl path) dc contents = completion completion_acllist dc contents none
completion_of s (aset_acl path version acl) dc contents =
    completion completion_void dc contents none
