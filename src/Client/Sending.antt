-- ===== src/Client/Sending.antt =====
-- Every request function sends one frame and leaves one completion, or answers an error at once.
use ext_zookeeper.Prelude.{
  ℕ, ◌+◌, ◌^◌, ◌≤◌, ◌<◌, ◌≡◌, refl, inl, inr, true, false, Option, none, some, List, ◌++◌, length,
  ◌==◌, arith, Bool-cases,
}
use ext_zookeeper.Codes.{zok}
use ext_zookeeper.Recordio.{Archive, is_neg}
use ext_zookeeper.Recordio.Rules.{Output}
use ext_zookeeper.Jute.Headers.{request_header_bytes}
use ext_zookeeper.Jute.Reads.{
  get_data_request-Output, exists_request-Output, get_children_request-Output,
}
use ext_zookeeper.Jute.MoreReads.{
  get_children2_request-Output, sync_request-Output, get_acl_request-Output, delete_request-Output,
}
use ext_zookeeper.Jute.Updates.{set_data_request-Output}
use ext_zookeeper.Jute.AclUpdates.{create_request-Output, set_acl_request-Output}
use ext_zookeeper.Watchers.{Hashtable, Checker, WatcherRegistration}
use ext_zookeeper.Paths.{prepend_string, request_path_init, is_unrecoverable}
use ext_zookeeper.Paths.Checks.{IsPath, is_valid_path_iff}
use ext_zookeeper.Client.Defs.{
  ZHandle, Surroundings, Completion, Run, Answer, answer, path_handle, state_of,
  create_watcher_registration, submit, with_path,
}
use ext_zookeeper.Client.Calls.{
  header, completion, watched, zoo_awget, zoo_aset, zoo_acreate, zoo_adelete, zoo_awexists,
  zoo_awget_children, zoo_awget_children2, zoo_async, zoo_aget_acl, zoo_aset_acl,
}
use ext_zookeeper.Client.Operations.{
  Operation, awget, aset, acreate, adelete, awexists, awget_children, awget_children2, async,
  aget_acl, aset_acl, perform, path_of, flags_of, type_of, body_of, Fits, registration,
  completion_of,
}
use ext_zookeeper.Client.Submitting.{IsReady, Submitted, submit-Submitted}

module _ {ht : Hashtable} where
  abbrev pub server_path : ZHandle ht → List ℕ → List ℕ
  server_path zh path = prepend_string (some (path_handle zh)) path

  -- The path is one behind the chroot, and the state is not below 0.
  pub record Accepts (zh : ZHandle ht) (flags : ℕ) (path : List ℕ) : Type 0 where
    pub valid : IsPath (server_path zh path) flags
    pub usable : is_neg (state_of zh) ≡ false

  -- The answer is that of a request that was sent.
  pub record Requested (env : Surroundings) (zh : ZHandle ht) (xid : ℕ) (c : Completion)
      (bytes : List ℕ) (a : Answer ht) : Type 0 where
    pub run : Run ht
    pub answers : a ≡ answer run
    pub submitted : Submitted env zh xid c bytes run

  pub accepted :
      (zh : ZHandle ht) (flags : ℕ) (path : List ℕ)
      → Accepts zh flags path
      → request_path_init (some (path_handle zh)) flags path ≡ (zok, server_path zh path)
  unfolding request_path_init is_unrecoverable
  accepted zh flags path a =
      rw ((is_valid_path_iff (server_path zh path) flags).1 a.valid, a.usable) refl

  with_path-Requested :
      (env : Surroundings) (zh : ZHandle ht) (xid flags : ℕ) (c : Completion) (path bytes : List ℕ)
      (request : ZHandle ht → List ℕ → Run ht)
      → Accepts zh flags path
      → Submitted env zh xid c bytes (request zh (server_path zh path))
      → Requested env zh xid c bytes (with_path flags (some zh) path request)
  unfolding with_path
  with_path-Requested env zh xid flags c path bytes request a s = record {
    run = request zh (server_path zh path);
    answers = rw (accepted zh flags path a) refl;
    submitted = s;
  }

  -- A registration is made as asked for.
  watched-Submitted :
      (env : Surroundings) (zh : ZHandle ht) (xid : ℕ) (bytes s : List ℕ) (checker : Checker)
      (watcher ctx : ℕ) (c : Option WatcherRegistration → Completion)
      (request : Option WatcherRegistration → Run ht)
      → env.registration_given ≡ true
      → ((wo : Option WatcherRegistration) → Submitted env zh xid (c wo) bytes (request wo))
      → Submitted env zh xid (c (registration s checker watcher ctx)) bytes (
          watched env xid
            (create_watcher_registration env.registration_given s checker watcher ctx)
            request)
  unfolding create_watcher_registration
  watched-Submitted env zh xid bytes s checker watcher ctx c request given h =
      elim (Bool-cases (watcher == 0)) [ inl e ↦ rw e (h none) | inr e ↦ rw e (simp given (h _)) ]

  module _ (env : Surroundings) (zh : ZHandle ht) (xid : ℕ) (dc contents : ℕ) (r : IsReady env zh)
      (hx : xid < 2 ^ 32) where
    sent_one :
        (type op : ℕ) (wo : Option WatcherRegistration) (req : Archive (Unit {0})) (bytes : List ℕ)
        → type < 7
        → op < 2 ^ 32
        → Output req bytes
        → 8 + length bytes ≤ 2 ^ 28
        → Submitted env zh xid
            (completion type dc contents wo)
            (request_header_bytes (header xid op) ++ bytes)
            (submit env zh (header xid op) req (completion type dc contents wo))
    sent_one type op wo req bytes small ho o fits =
        submit-Submitted env zh (header xid op) req (completion type dc contents wo) bytes r
          (record { type = omega arith; parts = λ e. absurd (omega arith) })
          (record { xid = hx; type = ho }) o fits

    -- A call of zoo_awget, zoo_aset, zoo_acreate, zoo_adelete, zoo_awexists, zoo_awget_children,
    -- zoo_awget_children2, zoo_async, zoo_aget_acl or zoo_aset_acl returns ZOK and leaves one
    -- completion more, behind the others, with its xid and the registration of its watcher, and
    -- else nothing but the queue of packets changes. The bytes that went out and those still
    -- queued are those that were queued and then one frame: the length, the header with the xid
    -- and the operation's type, and the record, with the path behind the chroot. This holds for a
    -- path that is one behind the chroot, on a handle whose state is not below 0 and that is not
    -- closing, when memory is given, the xid and the fields fit their words, the record takes at
    -- most 2 ^ 28 - 8 bytes, and the socket answers once for each packet and once more.
    pub perform-Requested :
        (o : Operation)
        → env.registration_given ≡ true
        → Accepts zh (flags_of o) (path_of o)
        → Fits (server_path zh (path_of o)) o
        → 8 + length (body_of (server_path zh (path_of o)) o) ≤ 2 ^ 28
        → Requested env zh xid
            (completion_of (server_path zh (path_of o)) o dc contents)
            (request_header_bytes (header xid (type_of o))
              ++ body_of (server_path zh (path_of o)) o)
            (perform env xid (some zh) o dc contents)
    unfolding zoo_awget zoo_aset zoo_acreate zoo_adelete zoo_awexists zoo_awget_children
        zoo_awget_children2 zoo_async zoo_aget_acl zoo_aset_acl
    perform-Requested (awget path watcher ctx) given a f fits =
        with_path-Requested env zh xid 0 _ path _ _ a (
          watched-Submitted env zh xid _ _ _ watcher ctx _ _ given (λ wo.
            sent_one _ _ wo _ _ (omega arith) (omega arith)
              (get_data_request-Output env.heap r.allocates _ f) fits))
    perform-Requested (aset path buffer buflen version) given a f fits =
        with_path-Requested env zh xid 0 _ path _ _ a (
          sent_one _ _ none _ _ (omega arith) (omega arith)
            (set_data_request-Output env.heap r.allocates _ f) fits)
    perform-Requested (acreate path value valuelen acl flags) given a f fits =
        with_path-Requested env zh xid flags _ path _ _ a (
          sent_one _ _ none _ _ (omega arith) (omega arith)
            (create_request-Output env.heap r.allocates _ f) fits)
    perform-Requested (adelete path version) given a f fits =
        with_path-Requested env zh xid 0 _ path _ _ a (
          sent_one _ _ none _ _ (omega arith) (omega arith)
            (delete_request-Output env.heap r.allocates _ f) fits)
    perform-Requested (awexists path watcher ctx) given a f fits =
        with_path-Requested env zh xid 0 _ path _ _ a (
          watched-Submitted env zh xid _ _ _ watcher ctx _ _ given (λ wo.
            sent_one _ _ wo _ _ (omega arith) (omega arith)
              (exists_request-Output env.heap r.allocates _ f) fits))
    perform-Requested (awget_children path watcher ctx) given a f fits =
        with_path-Requested env zh xid 0 _ path _ _ a (
          watched-Submitted env zh xid _ _ _ watcher ctx _ _ given (λ wo.
            sent_one _ _ wo _ _ (omega arith) (omega arith)
              (get_children_request-Output env.heap r.allocates _ f) fits))
    perform-Requested (awget_children2 path watcher ctx) given a f fits =
        with_path-Requested env zh xid 0 _ path _ _ a (
          watched-Submitted env zh xid _ _ _ watcher ctx _ _ given (λ wo.
            sent_one _ _ wo _ _ (omega arith) (omega arith)
              (get_children2_request-Output env.heap r.allocates _ f) fits))
    perform-Requested (async path) given a f fits = with_path-Requested env zh xid 0 _ path _ _ a (
        sent_one _ _ none _ _ (omega arith) (omega arith)
          (sync_request-Output env.heap r.allocates _ f) fits)
    perform-Requested (aget_acl path) given a f fits =
        with_path-Requested env zh xid 0 _ path _ _ a (
          sent_one _ _ none _ _ (omega arith) (omega arith)
            (get_acl_request-Output env.heap r.allocates _ f) fits)
    perform-Requested (aset_acl path version acl) given a f fits =
        with_path-Requested env zh xid 0 _ path _ _ a (
          sent_one _ _ none _ _ (omega arith) (omega arith)
            (set_acl_request-Output env.heap r.allocates _ f) fits)
