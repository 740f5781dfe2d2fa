-- ===== src/Client/MultiSending.antt =====
-- What zoo_amulti leaves when it succeeds.
use ext_zookeeper.Prelude.{
  ℕ, ◌+◌, ◌^◌, ◌≤◌, ◌<◌, ◌≡◌, refl, sym, ap, subst, ◌∙◌, none, some, List, ◌++◌, length,
  length-append, All, arith,
}
use ext_zookeeper.Codes.{zoo_multi_op}
use ext_zookeeper.Recordio.{good, BuffStruct, Archive, ◌>>◌, create_buffer_oarchive}
use ext_zookeeper.Recordio.Rules.{Output, Output-seq}
use ext_zookeeper.Recordio.Transfer.{create-Filled}
use ext_zookeeper.Jute.Headers.{
  serialize_request_header, request_header_bytes, request_header-Output, IsRequestHeader,
}
use ext_zookeeper.Jute.Multi.{serialize_multi_header, multi_header-Output}
use ext_zookeeper.Watchers.{Hashtable}
use ext_zookeeper.Client.Defs.{ZHandle, Surroundings, Completion, Parts, submit, complete_request}
use ext_zookeeper.Client.Calls.{header}
use ext_zookeeper.Client.Multi.{
  ZooOp, OpFunctions, parts_of_ops, last_header, multi_completion, zoo_amulti,
}
use ext_zookeeper.Client.MultiParts.{done_bytes, ArePartsOf}
use ext_zookeeper.Client.Submitting.{IsReady, Submitted, submit-Submitted, length-header}
use ext_zookeeper.Client.MultiLoop.{
  splits, AcceptsOp, ops_archive, ops_bytes, ops-Output, op_loop_lem, made_parts,
}

module _ {ht : Hashtable} (env : Surroundings) (zh : ZHandle ht) where
  -- What zoo_amulti leaves: 7 is COMPLETION_MULTI and 14 ZOO_MULTI_OP.
  pub record MultiSubmitted (fs : OpFunctions) (xid : ℕ) (ops : List ZooOp)
      (results dc contents : ℕ) : Type 0 where
    pub parts : Parts
    pub told : ArePartsOf fs xid results ops parts
    pub submitted :
        Submitted env zh xid
          (record { type = 7; dc = dc; contents = contents; watcher = none; clist = some parts })
          (request_header_bytes (record { xid = xid; type = 14 })
            ++ (ops_bytes env zh ops ++ done_bytes))
          (zoo_amulti env fs xid zh ops results dc contents)

  module _ (r : IsReady env zh) (fs : OpFunctions) (xid : ℕ) (ops : List ZooOp)
      (results dc contents : ℕ) (hx : xid < 2 ^ 32) (v : All (AcceptsOp env zh) ops)
      (fits : 8 + length (ops_bytes env zh ops ++ done_bytes) ≤ 2 ^ 28) where
    -- What the request writes behind its header.
    abbrev multi_archive : Archive (Unit {0})
    multi_archive = ops_archive env zh ops >> serialize_multi_header env.heap last_header

    abbrev multi_bytes : List ℕ
    multi_bytes = ops_bytes env zh ops ++ done_bytes

    multi-Output : Output multi_archive multi_bytes
    multi-Output = Output-seq (ops-Output env zh ops r.allocates v) (
        multi_header-Output env.heap r.allocates last_header
          (record { type = omega arith; done = omega arith; err = omega arith }))

    abbrev completion_of_ops : Completion
    completion_of_ops = multi_completion dc contents (parts_of_ops fs xid results ops)

    header-IsRequestHeader : IsRequestHeader (header xid zoo_multi_op)
    header-IsRequestHeader = record { xid = hx; type = omega arith }

    multi_request : Archive (Unit {0})
    multi_request = serialize_request_header env.heap (header xid zoo_multi_op) >> multi_archive

    submit_lem :
        (oa result : BuffStruct)
        → create_buffer_oarchive env.heap ≡ some oa
        → multi_request oa ≡ some (good tt, result)
        → submit env zh (header xid zoo_multi_op) multi_archive completion_of_ops
          ≡ complete_request env zh xid completion_of_ops (some (good tt, result))
    unfolding submit multi_request
    submit_lem oa result made runs =
        rw (made, submit) (ap (complete_request env zh xid completion_of_ops) runs)

    zoo_amulti_lem :
        (oa result : BuffStruct)
        → create_buffer_oarchive env.heap ≡ some oa
        → multi_request oa ≡ some (good tt, result)
        → zoo_amulti env fs xid zh ops results dc contents
          ≡ complete_request env zh xid completion_of_ops (some (good tt, result))
    unfolding zoo_amulti multi_request
    zoo_amulti_lem oa result made runs =
        let a =
          splits (serialize_request_header env.heap (header xid zoo_multi_op)) multi_archive oa
            result runs in
        let b = splits (ops_archive env zh ops) _ a.middle result a.second in
        rw (made, a.first, zoo_amulti)
          (rw (op_loop_lem env zh ops a.middle b.middle r.entry v b.first)
            (ap (complete_request env zh xid completion_of_ops) b.second))

    -- It is what every request function does, with another record.
    zoo_amulti-submit :
        zoo_amulti env fs xid zh ops results dc contents
        ≡ submit env zh (header xid zoo_multi_op) multi_archive completion_of_ops
    unfolding multi_request
    zoo_amulti-submit =
        let hm =
          Output-seq
            (request_header-Output env.heap r.allocates (header xid zoo_multi_op)
              header-IsRequestHeader)
            multi-Output in
        let f =
          create-Filled env.heap r.allocates multi_request
            (request_header_bytes (header xid zoo_multi_op) ++ multi_bytes) hm.apply
            (omega (
              arith,
              fits,
              length-append (request_header_bytes (header xid zoo_multi_op)) multi_bytes,
              length-header (header xid zoo_multi_op),
            )) in
        zoo_amulti_lem f.oa f.result f.made f.runs ∙ sym (submit_lem f.oa f.result f.made f.runs)

    -- zoo_amulti returns ZOK and leaves one completion more, of the type COMPLETION_MULTI, behind
    -- the others; else nothing but the queue of packets changes. Its parts are one for each
    -- operation, in order: of the type COMPLETION_STRING for a create, COMPLETION_STAT for a set
    -- and COMPLETION_VOID for a delete or check, with the function for that type and the address
    -- of the operation's own result, 32 bytes behind the one before. The bytes that went out and
    -- those still queued are those that were queued and then one frame: the length, the header
    -- with the xid and the type 14, for each operation a MultiHeader with its number (1 create, 2
    -- delete, 5 set, 13 check), not done and -1, and its record with the path behind the chroot,
    -- and a last MultiHeader with -1, done and -1. This holds when every operation is a create,
    -- delete, set or check whose path is one behind the chroot and whose fields fit, with an xid
    -- that fits its word, on a handle whose state is not below 0 and that is not closing, when
    -- memory is given, the records take at most 2 ^ 28 - 8 bytes, and the socket answers once for
    -- each packet and once more.
    pub zoo_amulti-MultiSubmitted : MultiSubmitted fs xid ops results dc contents
    zoo_amulti-MultiSubmitted = record {
      parts = parts_of_ops fs xid results ops;
      told = made_parts env zh fs xid results ops v;
      submitted =
          subst
            (Submitted env zh xid completion_of_ops
              (request_header_bytes (header xid zoo_multi_op) ++ multi_bytes))
            (sym zoo_amulti-submit)
            (submit-Submitted env zh (header xid zoo_multi_op) multi_archive completion_of_ops
              multi_bytes r
              (record { type = omega arith; parts = λ e. (parts_of_ops fs xid results ops, refl) })
              header-IsRequestHeader multi-Output fits);
    }
