-- ===== src/Client/Calls.antt =====
-- The request functions of src/zk/zookeeper.c. A path, a value, a completion and its context are
-- arguments as in the source; `xid` is what get_xid returns.
use ext_zookeeper.Prelude.{ℕ, Option, none, some, List, [], ◌==◌, if◌then◌else◌}
use ext_zookeeper.Codes.{
  zoo_create_op, zoo_delete_op, zoo_exists_op, zoo_getdata_op, zoo_setdata_op, zoo_getacl_op,
  zoo_setacl_op, zoo_getchildren_op, zoo_getchildren2_op, zoo_sync_op,
}
use ext_zookeeper.Jute.Headers.{RequestHeader}
use ext_zookeeper.Jute.Acl.{AclVector}
use ext_zookeeper.Jute.Reads.{
  serialize_get_data_request, serialize_exists_request, serialize_get_children_request,
}
use ext_zookeeper.Jute.MoreReads.{
  serialize_get_children2_request, serialize_sync_request, serialize_get_acl_request, DeleteRequest,
  serialize_delete_request,
}
use ext_zookeeper.Jute.Updates.{SetDataRequest, serialize_set_data_request}
use ext_zookeeper.Jute.AclUpdates.{
  CreateRequest, serialize_create_request, serialize_set_acl_request,
}
use ext_zookeeper.Watchers.{
  Hashtable, exists_result, data_result, child_result, WatcherRegistration,
}
use ext_zookeeper.Client.Defs.{
  ZHandle, Surroundings, Completion, Run, Answer, create_watcher_registration, submit, with_path,
}

-- The values of COMPLETION_VOID to COMPLETION_STRING.
abbrev pub completion_void : ℕ
completion_void = 0

abbrev pub completion_stat : ℕ
completion_stat = 1

abbrev pub completion_data : ℕ
completion_data = 2

abbrev pub completion_stringlist : ℕ
completion_stringlist = 3

abbrev pub completion_stringlist_stat : ℕ
completion_stringlist_stat = 4

abbrev pub completion_acllist : ℕ
completion_acllist = 5

abbrev pub completion_string : ℕ
completion_string = 6

abbrev pub header : ℕ → ℕ → RequestHeader
header xid type = record { xid = xid; type = type }

-- add_data_completion, add_stat_completion and the like: a completion of a type without parts.
abbrev pub completion : ℕ → ℕ → ℕ → Option WatcherRegistration → Completion
completion type dc contents wo = record {
  type = type;
  dc = dc;
  contents = contents;
  watcher = wo;
  clist = none;
}

-- `watcher != 0` as an int
abbrev pub truth : ℕ → ℕ
truth watcher = if watcher == 0 then 0 else 1

-- SetDataRequest_init, after its path.
unfoldable pub set_data_request_init : List ℕ → Option (List ℕ) → ℕ → ℕ → SetDataRequest
set_data_request_init server_path buffer buflen version = record {
  path = some server_path;
  contents = record { len = buflen; buff = buffer };
  version = version;
}

-- CreateRequest_init, after its path. A null list of entries is empty.
unfoldable pub create_request_init :
    List ℕ → Option (List ℕ) → ℕ → Option AclVector → ℕ → CreateRequest
create_request_init server_path value valuelen acl_entries flags = record {
  path = some server_path;
  contents = record { len = valuelen; buff = value };
  acl = elim acl_entries [ none ↦ record { count = 0; items = [] } | some acl ↦ acl ];
  flags = flags;
}

-- DeleteRequest_init, after its path.
unfoldable pub delete_request_init : List ℕ → ℕ → DeleteRequest
delete_request_init server_path version = record { path = some server_path; version = version }

module _ {ht : Hashtable} (env : Surroundings) (xid : ℕ) where
  open env use {heap, registration_given}

  -- A request with a registration.
  abbrev pub watched :
      Option (Option WatcherRegistration) → (Option WatcherRegistration → Run ht) → Run ht
  watched none request = none
  watched (some wo) request = request wo

  -- Its checks are those of Request_path_init.
  unfoldable pub zoo_awget : Option (ZHandle ht) → List ℕ → ℕ → ℕ → ℕ → ℕ → Answer ht
  zoo_awget zh path watcher ctx dc contents = with_path 0 zh path λ zh server_path.
      watched (create_watcher_registration registration_given server_path data_result watcher ctx)
        λ wo.
          submit env zh (header xid zoo_getdata_op)
            (serialize_get_data_request heap
              (record { path = some server_path; watch = truth watcher }))
            (completion completion_data dc contents wo)

  -- The handle is read before it is checked: `none` when it is null.
  unfoldable pub zoo_aget : Option (ZHandle ht) → List ℕ → ℕ → ℕ → ℕ → Answer ht
  zoo_aget none path watch dc contents = none
  zoo_aget (some zh) path watch dc contents =
      zoo_awget (some zh) path (if watch == 0 then 0 else zh.watchers.watcher) zh.watchers.context
        dc contents

  unfoldable pub zoo_aset :
      Option (ZHandle ht) → List ℕ → Option (List ℕ) → ℕ → ℕ → ℕ → ℕ → Answer ht
  zoo_aset zh path buffer buflen version dc contents = with_path 0 zh path λ zh server_path.
      submit env zh (header xid zoo_setdata_op)
        (serialize_set_data_request heap (set_data_request_init server_path buffer buflen version))
        (completion completion_stat dc contents none)

  unfoldable pub zoo_acreate :
      Option (ZHandle ht) → List ℕ → Option (List ℕ) → ℕ → Option AclVector → ℕ → ℕ → ℕ → Answer ht
  zoo_acreate zh path value valuelen acl_entries flags dc contents =
      with_path flags zh path λ zh server_path.
        submit env zh (header xid zoo_create_op)
          (serialize_create_request heap
            (create_request_init server_path value valuelen acl_entries flags))
          (completion completion_string dc contents none)

  unfoldable pub zoo_adelete : Option (ZHandle ht) → List ℕ → ℕ → ℕ → ℕ → Answer ht
  zoo_adelete zh path version dc contents = with_path 0 zh path λ zh server_path.
      submit env zh (header xid zoo_delete_op)
        (serialize_delete_request heap (delete_request_init server_path version))
        (completion completion_void dc contents none)

  unfoldable pub zoo_awexists : Option (ZHandle ht) → List ℕ → ℕ → ℕ → ℕ → ℕ → Answer ht
  zoo_awexists zh path watcher ctx dc contents = with_path 0 zh path λ zh server_path.
      watched (create_watcher_registration registration_given server_path exists_result watcher ctx)
        λ wo.
          submit env zh (header xid zoo_exists_op)
            (serialize_exists_request heap
              (record { path = some server_path; watch = truth watcher }))
            (completion completion_stat dc contents wo)

  unfoldable pub zoo_aexists : Option (ZHandle ht) → List ℕ → ℕ → ℕ → ℕ → Answer ht
  zoo_aexists none path watch dc contents = none
  zoo_aexists (some zh) path watch dc contents =
      zoo_awexists (some zh) path (if watch == 0 then 0 else zh.watchers.watcher)
        zh.watchers.context dc contents

  -- zoo_awget_children_
  unfoldable pub zoo_awget_children : Option (ZHandle ht) → List ℕ → ℕ → ℕ → ℕ → ℕ → Answer ht
  zoo_awget_children zh path watcher ctx dc contents = with_path 0 zh path λ zh server_path.
      watched (create_watcher_registration registration_given server_path child_result watcher ctx)
        λ wo.
          submit env zh (header xid zoo_getchildren_op)
            (serialize_get_children_request heap
              (record { path = some server_path; watch = truth watcher }))
            (completion completion_stringlist dc contents wo)

  unfoldable pub zoo_aget_children : Option (ZHandle ht) → List ℕ → ℕ → ℕ → ℕ → Answer ht
  zoo_aget_children none path watch dc contents = none
  zoo_aget_children (some zh) path watch dc contents =
      zoo_awget_children (some zh) path (if watch == 0 then 0 else zh.watchers.watcher)
        zh.watchers.context dc contents

  -- zoo_awget_children2_
  unfoldable pub zoo_awget_children2 : Option (ZHandle ht) → List ℕ → ℕ → ℕ → ℕ → ℕ → Answer ht
  zoo_awget_children2 zh path watcher ctx dc contents = with_path 0 zh path λ zh server_path.
      watched (create_watcher_registration registration_given server_path child_result watcher ctx)
        λ wo.
          submit env zh (header xid zoo_getchildren2_op)
            (serialize_get_children2_request heap
              (record { path = some server_path; watch = truth watcher }))
            (completion completion_stringlist_stat dc contents wo)

  unfoldable pub zoo_aget_children2 : Option (ZHandle ht) → List ℕ → ℕ → ℕ → ℕ → Answer ht
  zoo_aget_children2 none path watch dc contents = none
  zoo_aget_children2 (some zh) path watch dc contents =
      zoo_awget_children2 (some zh) path (if watch == 0 then 0 else zh.watchers.watcher)
        zh.watchers.context dc contents

  unfoldable pub zoo_async : Option (ZHandle ht) → List ℕ → ℕ → ℕ → Answer ht
  zoo_async zh path dc contents = with_path 0 zh path λ zh server_path.
      submit env zh (header xid zoo_sync_op)
        (serialize_sync_request heap (record { path = some server_path }))
        (completion completion_string dc contents none)

  unfoldable pub zoo_aget_acl : Option (ZHandle ht) → List ℕ → ℕ → ℕ → Answer ht
  zoo_aget_acl zh path dc contents = with_path 0 zh path λ zh server_path.
      submit env zh (header xid zoo_getacl_op)
        (serialize_get_acl_request heap (record { path = some server_path }))
        (completion completion_acllist dc contents none)

  unfoldable pub zoo_aset_acl : Option (ZHandle ht) → List ℕ → ℕ → AclVector → ℕ → ℕ → Answer ht
  zoo_aset_acl zh path version acl dc contents = with_path 0 zh path λ zh server_path.
      submit env zh (header xid zoo_setacl_op)
        (serialize_set_acl_request heap
          (record { path = some server_path; acl = acl; version = version }))
        (completion completion_void dc contents none)
