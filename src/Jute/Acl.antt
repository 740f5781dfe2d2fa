-- ===== src/Jute/Acl.antt =====
-- src/zk/zookeeper.jute.c and include/zookeeper.jute.h: access control lists. A vector is written only.
use ext_zookeeper.Prelude.{
  ℕ, zero, suc, ◌^◌, ◌≤◌, ◌<◌, ◌≡◌, none, some, List, [], ◌∷◌, ◌++◌, length, All, if◌then◌else◌,
}
use ext_zookeeper.Prelude.Bytes.{IsInt32}
use ext_zookeeper.Recordio.{
  good, Archive, ◌>>=◌, ◌>>◌, pure, Heap, CString, is_neg, oa_start_record, oa_end_record,
  ia_start_record, ia_end_record, oa_serialize_int, oa_serialize_string, ia_deserialize_int,
  ia_deserialize_string, oa_start_vector, oa_end_vector,
}
use ext_zookeeper.Recordio.Spec.{Allocates}
use ext_zookeeper.Recordio.Safety.{Refuses}
use ext_zookeeper.Recordio.Transfer.{transfer}
use ext_zookeeper.Recordio.Rules.{
  Output, Input, Guarded, IsString, Output-seq, Output-start, Output-last, Input-seq, Input-start,
  Input-last, Output-nothing, Output-end_vector, Guarded-bind, Guarded-start, Guarded-last,
  Guarded-int, Guarded-string, int_bytes, string_bytes, int-Output, string-Output, int-Input,
  string-Input, transfer-Output-Input, rounds,
}

-- struct Id
pub record AclId : Type 0 where
  pub scheme : CString
  pub id : CString

unfoldable pub serialize_acl_id : Heap → AclId → Archive (Unit {0})
serialize_acl_id heap v = do
  oa_start_record
  oa_serialize_string heap v.scheme
  oa_serialize_string heap v.id
  oa_end_record

unfoldable pub deserialize_acl_id : Heap → Archive AclId
deserialize_acl_id heap = do
  ia_start_record
  scheme ← ia_deserialize_string heap
  id ← ia_deserialize_string heap
  ia_end_record
  pure (record { scheme = scheme; id = id })

pub record IsAclId (v : AclId) : Type 0 where
  pub scheme : IsString v.scheme
  pub id : IsString v.id

unfoldable pub acl_id_bytes : AclId → List ℕ
acl_id_bytes v = string_bytes v.scheme ++ (string_bytes v.id)

pub acl_id-Output :
    (heap : Heap)
    → Allocates heap
    → (v : AclId) → IsAclId v
    → Output (serialize_acl_id heap v) (acl_id_bytes v)
unfolding serialize_acl_id acl_id_bytes
acl_id-Output heap allocates v h = Output-start (
    Output-seq (string-Output heap allocates v.scheme h.scheme)
      (Output-last (string-Output heap allocates v.id h.id)))

pub acl_id-Input :
    (heap : Heap)
    → Allocates heap
    → (v : AclId) → IsAclId v
    → Input (deserialize_acl_id heap) (acl_id_bytes v) v
unfolding deserialize_acl_id acl_id_bytes
acl_id-Input heap allocates v h = Input-start (
    Input-seq _ (string-Input heap allocates v.scheme h.scheme)
      (Input-last _ (string-Input heap allocates v.id h.id)))

pub Guarded-acl_id : (heap : Heap) → Refuses heap → Guarded (deserialize_acl_id heap)
unfolding deserialize_acl_id
Guarded-acl_id heap refuses = Guarded-bind Guarded-start λ start.
    Guarded-bind (Guarded-string heap refuses)
      λ scheme. Guarded-bind (Guarded-string heap refuses) λ id. Guarded-last _

-- A AclId written by the one side is read back by the other.
pub transfer-acl_id :
    (heap : Heap)
    → Allocates heap
    → (v : AclId) → IsAclId v
    → length (acl_id_bytes v) ≤ 2 ^ 28
    → transfer heap (serialize_acl_id heap v) (deserialize_acl_id heap) ≡ some (good v)
transfer-acl_id heap allocates v h fits =
    transfer-Output-Input heap allocates (acl_id-Output heap allocates v h)
      (acl_id-Input heap allocates v h) fits

-- struct ACL
pub record Acl : Type 0 where
  pub perms : ℕ
  pub id : AclId

unfoldable pub serialize_acl : Heap → Acl → Archive (Unit {0})
serialize_acl heap v = do
  oa_start_record
  oa_serialize_int heap v.perms
  serialize_acl_id heap v.id
  oa_end_record

unfoldable pub deserialize_acl : Heap → Archive Acl
deserialize_acl heap = do
  ia_start_record
  perms ← ia_deserialize_int
  id ← deserialize_acl_id heap
  ia_end_record
  pure (record { perms = perms; id = id })

pub record IsAcl (v : Acl) : Type 0 where
  pub perms : IsInt32 v.perms
  pub id : IsAclId v.id

unfoldable pub acl_bytes : Acl → List ℕ
acl_bytes v = int_bytes v.perms ++ (acl_id_bytes v.id)

pub acl-Output :
    (heap : Heap)
    → Allocates heap
    → (v : Acl) → IsAcl v
    → Output (serialize_acl heap v) (acl_bytes v)
unfolding serialize_acl acl_bytes
acl-Output heap allocates v h = Output-start (
    Output-seq (int-Output heap allocates v.perms)
      (Output-last (acl_id-Output heap allocates v.id h.id)))

pub acl-Input :
    (heap : Heap)
    → Allocates heap
    → (v : Acl) → IsAcl v
    → Input (deserialize_acl heap) (acl_bytes v) v
unfolding deserialize_acl acl_bytes
acl-Input heap allocates v h =
    Input-start (
      Input-seq _ (int-Input v.perms h.perms)
        (Input-last _ (acl_id-Input heap allocates v.id h.id)))

pub Guarded-acl : (heap : Heap) → Refuses heap → Guarded (deserialize_acl heap)
unfolding deserialize_acl
Guarded-acl heap refuses = Guarded-bind Guarded-start λ start.
    Guarded-bind Guarded-int
      λ perms. Guarded-bind (Guarded-acl_id heap refuses) λ id. Guarded-last _

-- A Acl written by the one side is read back by the other.
pub transfer-acl :
    (heap : Heap)
    → Allocates heap
    → (v : Acl) → IsAcl v
    → length (acl_bytes v) ≤ 2 ^ 28
    → transfer heap (serialize_acl heap v) (deserialize_acl heap) ≡ some (good v)
transfer-acl heap allocates v h fits =
    transfer-Output-Input heap allocates (acl-Output heap allocates v h)
      (acl-Input heap allocates v h) fits

-- struct ACL_vector
pub record AclVector : Type 0 where
  pub count : ℕ
  pub items : List Acl

-- `for(i=0;i<v->count;i++) rc = rc ? rc : serialize_ACL(out, "data", &v->data[i]);` in `k` rounds.
-- An index past the array is undefined.
unfoldable pub serialize_acls : Heap → ℕ → List Acl → Archive (Unit {0})
serialize_acls heap zero items = pure tt
serialize_acls heap (suc k) [] = λ s. none
serialize_acls heap (suc k) (a ∷ items) = serialize_acl heap a >> serialize_acls heap k items

unfoldable pub serialize_acl_vector : Heap → AclVector → Archive (Unit {0})
serialize_acl_vector heap v = do
  oa_start_vector heap v.count
  serialize_acls heap (if is_neg v.count then 0 else v.count) v.items
  oa_end_vector

pub record IsAclVector (v : AclVector) : Type 0 where
  pub count : v.count ≡ length v.items
  pub short : length v.items < 2 ^ 27
  pub items : All IsAcl v.items

unfoldable pub acls_bytes : List Acl → List ℕ
acls_bytes [] = []
acls_bytes (a ∷ items) = acl_bytes a ++ acls_bytes items

unfoldable pub acl_vector_bytes : AclVector → List ℕ
acl_vector_bytes v = int_bytes v.count ++ acls_bytes v.items

acls-Output :
    (heap : Heap)
    → Allocates heap
    → (items : List Acl) → All IsAcl items
    → Output (serialize_acls heap (length items) items) (acls_bytes items)
unfolding serialize_acls acls_bytes
acls-Output heap allocates [] h = Output-nothing
acls-Output heap allocates (a ∷ items) h =
    Output-seq (acl-Output heap allocates a h.0) (acls-Output heap allocates items h.1)

pub acl_vector-Output :
    (heap : Heap)
    → Allocates heap
    → (v : AclVector) → IsAclVector v
    → Output (serialize_acl_vector heap v) (acl_vector_bytes v)
unfolding serialize_acl_vector acl_vector_bytes oa_start_vector
acl_vector-Output heap allocates v h = Output-seq (int-Output heap allocates v.count) (
    rw (rounds v.count (length v.items) h.count h.short)
      (Output-end_vector (acls-Output heap allocates v.items h.items)))
