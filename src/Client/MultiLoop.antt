-- ===== src/Client/MultiLoop.antt =====
-- The loop of zoo_amulti in src/zk/zookeeper.c over operations that it can carry: what it writes.
use ext_zookeeper.Prelude.{
  ℕ, ◌+◌, ◌≡◌, refl, ap, subst, true, false, Option, none, some, List, [], ◌∷◌, ◌++◌, All, arith,
}
use ext_zookeeper.Recordio.{Rc, good, fail, BuffStruct, Archive, ◌>>◌, pure}
use ext_zookeeper.Recordio.Spec.{Allocates}
use ext_zookeeper.Recordio.Rules.{Output, Output-seq, Output-nothing}
use ext_zookeeper.Jute.Multi.{
  serialize_multi_header, IsMultiHeader, multi_header-Output, check_version_request-Output,
}
use ext_zookeeper.Jute.MoreReads.{delete_request-Output}
use ext_zookeeper.Jute.Updates.{set_data_request-Output}
use ext_zookeeper.Jute.AclUpdates.{create_request-Output}
use ext_zookeeper.Watchers.{Hashtable}
use ext_zookeeper.Client.Defs.{ZHandle, Surroundings}
use ext_zookeeper.Client.Calls.{set_data_request_init, create_request_init, delete_request_init}
use ext_zookeeper.Client.Multi.{
  ZooOp, create_op, delete_op, set_op, check_op, other_op, OpFunctions, check_version_request_init,
  op_type, part_of, op_path, op_flags, serialize_op, parts_of_ops, op_header, OpsEnd, looped,
  is_other, op_record, op_loop,
}
use ext_zookeeper.Client.MultiParts.{
  op_number, op_bytes, number_bytes, FitsOp, ArePartsOf, all_told, told_path, told_stat,
  told_delete, told_check,
}
use ext_zookeeper.Client.Sending.{Accepts, server_path, accepted}

-- An archive that has come to its end has come to the end of its first part.
pub record Splits (m k : Archive (Unit {0})) (s s' : BuffStruct) : Type 0 where
  pub middle : BuffStruct
  pub first : m s ≡ some (good tt, middle)
  pub second : k middle ≡ some (good tt, s')

pub splits :
    (m k : Archive (Unit {0})) (s s' : BuffStruct)
    → (m >> k) s ≡ some (good tt, s')
    → Splits m k s s'
splits m k s s' e = go (m s) refl
  where
    go : (o : Option (Rc (Unit {0}) × BuffStruct)) → m s ≡ o → Splits m k s s'
    go none x = absurd (let f = rw x at e in cc)
    go (some (fail c, t)) x = absurd (let f = rw x at e in cc)
    go (some (good u, t)) x = record { middle = t; first = x; second = rw x at e }

module _ {ht : Hashtable} (env : Surroundings) (zh : ZHandle ht) where
  abbrev pub path_of_op : ZooOp → List ℕ
  path_of_op op = server_path zh (op_path op)

  -- An operation that a multi request can carry.
  pub record AcceptsOp (op : ZooOp) : Type 0 where
    pub path : Accepts zh (op_flags op) (op_path op)
    pub fits : FitsOp (path_of_op op) op

  -- What the loop writes.
  abbrev pub ops_archive : List ZooOp → Archive (Unit {0})
  ops_archive [] = pure tt
  ops_archive (op ∷ ops) =
      serialize_multi_header env.heap (op_header op)
      >> (serialize_op env.heap (path_of_op op) op >> ops_archive ops)

  abbrev pub ops_bytes : List ZooOp → List ℕ
  ops_bytes [] = []
  ops_bytes (op ∷ ops) =
      number_bytes (op_number op) ++ (op_bytes (path_of_op op) op ++ ops_bytes ops)

  op-Output :
      (s : List ℕ) (op : ZooOp)
      → Allocates env.heap
      → FitsOp s op
      → Output (serialize_op env.heap s op) (op_bytes s op)
  unfolding serialize_op create_request_init delete_request_init set_data_request_init
      check_version_request_init
  op-Output s (create_op path value valuelen acl flags buf buflen) a f =
      create_request-Output env.heap a _ f
  op-Output s (delete_op path version) a f = delete_request-Output env.heap a _ f
  op-Output s (set_op path value valuelen version stat) a f = set_data_request-Output env.heap a _ f
  op-Output s (check_op path version) a f = check_version_request-Output env.heap a _ f
  op-Output s (other_op type) a f = elim f [ ]

  header-IsMultiHeader : (s : List ℕ) (op : ZooOp) → FitsOp s op → IsMultiHeader (op_header op)
  header-IsMultiHeader s (create_op path value valuelen acl flags buf buflen) f = record {
    type = omega arith;
    done = omega arith;
    err = omega arith;
  }
  header-IsMultiHeader s (delete_op path version) f = record {
    type = omega arith;
    done = omega arith;
    err = omega arith;
  }
  header-IsMultiHeader s (set_op path value valuelen version stat) f = record {
    type = omega arith;
    done = omega arith;
    err = omega arith;
  }
  header-IsMultiHeader s (check_op path version) f = record {
    type = omega arith;
    done = omega arith;
    err = omega arith;
  }
  header-IsMultiHeader s (other_op type) f = elim f [ ]

  numbered : (op : ZooOp) → op_type op ≡ op_number op
  numbered (create_op path value valuelen acl flags buf buflen) = refl
  numbered (delete_op path version) = refl
  numbered (set_op path value valuelen version stat) = refl
  numbered (check_op path version) = refl
  numbered (other_op type) = refl

  op_header-Output :
      (s : List ℕ) (op : ZooOp)
      → Allocates env.heap
      → FitsOp s op
      → Output (serialize_multi_header env.heap (op_header op)) (number_bytes (op_number op))
  op_header-Output s op a f =
      subst (λ n. Output (serialize_multi_header env.heap (op_header op)) (number_bytes n))
        (numbered op) (multi_header-Output env.heap a (op_header op) (header-IsMultiHeader s op f))

  known : (s : List ℕ) (op : ZooOp) → FitsOp s op → is_other op ≡ false
  known s (create_op path value valuelen acl flags buf buflen) f = refl
  known s (delete_op path version) f = refl
  known s (set_op path value valuelen version stat) f = refl
  known s (check_op path version) f = refl
  known s (other_op type) f = elim f [ ]

  pub ops-Output :
      (ops : List ZooOp)
      → Allocates env.heap
      → All AcceptsOp ops
      → Output (ops_archive ops) (ops_bytes ops)
  ops-Output [] a h = Output-nothing
  ops-Output (op ∷ ops) a (v, h) =
      Output-seq (op_header-Output (path_of_op op) op a v.fits)
        (Output-seq (op-Output (path_of_op op) op a v.fits) (ops-Output ops a h))

  -- The loop writes it.
  pub op_loop_lem :
      (ops : List ZooOp) (s s' : BuffStruct)
      → env.entry_given ≡ true
      → All AcceptsOp ops
      → ops_archive ops s ≡ some (good tt, s')
      → op_loop env zh true ops s ≡ some (looped true s')
  unfolding op_loop op_record
  op_loop_lem [] s s' given h e =
      ap (λ o. elim o as (λ x. Option OpsEnd) [ none ↦ none | some p ↦ some (looped true p.1) ]) e
  op_loop_lem (op ∷ ops) s s' given (v, h) e =
      let a = splits (serialize_multi_header env.heap (op_header op)) _ s s' e in
      let b = splits (serialize_op env.heap (path_of_op op) op) _ a.middle s' a.second in
      rw (known (path_of_op op) op v.fits, a.first, op_loop)
        (rw (given, op_loop)
          (rw (accepted zh (op_flags op) (op_path op) v.path, op_loop)
            (rw (b.first, op_loop) (op_loop_lem ops b.middle s' given h b.second))))

  pub made_parts :
      (fs : OpFunctions) (xid result : ℕ) (ops : List ZooOp)
      → All AcceptsOp ops
      → ArePartsOf fs xid result ops (parts_of_ops fs xid result ops)
  unfolding parts_of_ops part_of
  made_parts fs xid result [] h = all_told
  made_parts fs xid result (create_op path value valuelen acl flags buf buflen ∷ ops) (v, h) =
      told_path (made_parts fs xid (result + 32) ops h)
  made_parts fs xid result (delete_op path version ∷ ops) (v, h) =
      told_delete (made_parts fs xid (result + 32) ops h)
  made_parts fs xid result (set_op path value valuelen version stat ∷ ops) (v, h) =
      told_stat (made_parts fs xid (result + 32) ops h)
  made_parts fs xid result (check_op path version ∷ ops) (v, h) =
      told_check (made_parts fs xid (result + 32) ops h)
  made_parts fs xid result (other_op type ∷ ops) (v, h) = absurd v.fits
