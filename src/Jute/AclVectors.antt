-- ===== src/Jute/AclVectors.antt =====
-- src/zk/zookeeper.jute.c: access control lists as they are read.
use ext_zookeeper.Prelude.{
  ℕ, ◌||◌, ◌==◌, zero, suc, ◌+◌, ◌*◌, ◌^◌, ◌≤◌, ◌<◌, ◌≡◌, ap, ◌⊎◌, inl, inr, refl, Bool, true,
  false, Option, none, some, List, [], ◌∷◌, ◌++◌, length, arith, All, replicate, length-append,
  if◌then◌else◌,
}
use ext_zookeeper.Recordio.{
  BuffStruct, Rc, good, fail, Errno, Archive, Heap, is_neg, ia_start_record, ia_end_record,
  ia_start_vector, ia_deserialize_int, ia_deserialize_string,
}
use ext_zookeeper.Recordio.Spec.{Allocates, Reads, at}
use ext_zookeeper.Recordio.Transfer.{transfer}
use ext_zookeeper.Recordio.Rules.{Input, int_bytes, int-Input, transfer-Output-Input, rounds}
use ext_zookeeper.Jute.Acl.{
  Acl, deserialize_acl_id, deserialize_acl, IsAcl, acl_bytes, acl-Input, AclVector,
  serialize_acl_vector, IsAclVector, acls_bytes, acl_vector_bytes, acl_vector-Output,
}
use mathlib.Core.List.{append-nil, append_assoc}

-- An element as calloc leaves it.
abbrev pub zero_acl : Acl
zero_acl = record { perms = 0; id = record { scheme = none; id = none } }

-- What deserialize_ACL leaves in an element that was 0, whether it succeeds, and the archive. The
-- fields behind one that cannot be read stay 0.
unfoldable pub fill_acl : Heap → BuffStruct → Option (Bool × Acl × BuffStruct)
fill_acl heap s = elim (ia_deserialize_int s) [
  | none ↦ none
  | some (fail e, s') ↦ some (false, zero_acl, s')
  | some (good perms, s') ↦ elim (ia_deserialize_string heap s') [
    | none ↦ none
    | some (fail e, t) ↦ some (false, record zero_acl { perms = perms }, t)
    | some (good scheme, t) ↦ elim (ia_deserialize_string heap t) [
      | none ↦ none
      | some (fail e, u) ↦
          some (false, record { perms = perms; id = record { scheme = scheme; id = none } }, u)
      | some (good id, u) ↦
          some (true, record { perms = perms; id = record { scheme = scheme; id = id } }, u)
    ]
  ]
]

-- The loop of deserialize_ACL_vector: after a failure the other elements stay 0, and the code of
-- the failure is dropped.
unfoldable pub deserialize_acls : Heap → ℕ → BuffStruct → Option (List Acl × BuffStruct)
deserialize_acls heap zero s = some ([], s)
deserialize_acls heap (suc k) s = elim (fill_acl heap s) [
  | none ↦ none
  | some (false, a, s') ↦ some (a ∷ replicate k zero_acl, s')
  | some (true, a, s') ↦ elim (deserialize_acls heap k s') [
    | none ↦ none
    | some (items, t) ↦ some (a ∷ items, t)
  ]
]

-- The argument of `calloc(v->count, sizeof(*v->data))` for an int and elements of 24 bytes.
abbrev pub calloc_acls : ℕ → ℕ
calloc_acls count = if is_neg count then 0 else 24 * count

abbrev pub acl_array : ℕ → Option (List Acl × BuffStruct) → Option (Rc AclVector × BuffStruct)
acl_array count none = none
acl_array count (some (items, s)) = some (good (record { count = count; items = items }), s)

-- A null array is written to, unless it is to have no element: `none`. A count below 0 gives no
-- round.
abbrev pub with_acl_count : Heap → Option (Rc ℕ × BuffStruct) → Option (Rc AclVector × BuffStruct)
with_acl_count heap none = none
with_acl_count heap (some (fail e, s)) = none
with_acl_count heap (some (good count, s)) =
    if heap.can_alloc (calloc_acls count) || ((if is_neg count then 0 else count) == 0)
    then acl_array count (deserialize_acls heap (if is_neg count then 0 else count) s)
    else none

-- `none` when the count cannot be read: the code goes on with what stood in `v->count` before.
unfoldable pub deserialize_acl_vector : Heap → Archive AclVector
deserialize_acl_vector heap s = with_acl_count heap (ia_start_vector s)

Archive-cases :
    {A : Type 0} (o : Option (Rc A × BuffStruct))
    → (o ≡ none)
      ⊎ (((e : Errno) × (s : BuffStruct) × (o ≡ some (fail e, s)))
          ⊎ ((a : A) × (s : BuffStruct) × (o ≡ some (good a, s))))
Archive-cases none = inl refl
Archive-cases (some (fail e, s)) = inr (inl (e, s, refl))
Archive-cases (some (good a, s)) = inr (inr (a, s, refl))

abbrev marked : Option (Rc Acl × BuffStruct) → Option (Bool × Acl × BuffStruct)
marked none = none
marked (some (fail e, s)) = none
marked (some (good a, s)) = some (true, a, s)

-- On success an element is what deserialize_ACL gives.
fill_acl_lem :
    (heap : Heap) (a : Acl) (s s' : BuffStruct)
    → deserialize_acl heap s ≡ some (good a, s')
    → fill_acl heap s ≡ some (true, a, s')
unfolding fill_acl deserialize_acl deserialize_acl_id ia_start_record ia_end_record
fill_acl_lem heap a s s' e = elim (Archive-cases (ia_deserialize_int s)) [
  | inl x ↦ absurd (let f = rw x at e in cc)
  | inr (inl (err, u, x)) ↦ absurd (let f = rw x at e in cc)
  | inr (inr (perms, u, x)) ↦ elim (Archive-cases (ia_deserialize_string heap u)) [
    | inl y ↦ absurd (let f = rw (x, y) at e in cc)
    | inr (inl (err, t, y)) ↦ absurd (let f = rw (x, y) at e in cc)
    | inr (inr (scheme, t, y)) ↦ elim (Archive-cases (ia_deserialize_string heap t)) [
      | inl z ↦ absurd (let f = rw (x, y, z) at e in cc)
      | inr (inl (err, w, z)) ↦ absurd (let f = rw (x, y, z) at e in cc)
      | inr (inr (id, w, z)) ↦
          rw (x, fill_acl) (rw (y, fill_acl) (rw (z, fill_acl) (ap marked (rw (x, y, z) at e))))
    ]
  ]
]

module _ (heap : Heap) (allocates : Allocates heap) where
  acls_step :
      (a : Acl) (items : List Acl) (s s' t : BuffStruct)
      → deserialize_acl heap s ≡ some (good a, s')
      → deserialize_acls heap (length items) s' ≡ some (items, t)
      → deserialize_acls heap (suc (length items)) s ≡ some (a ∷ items, t)
  unfolding deserialize_acls
  acls_step a items s s' t e f = rw (fill_acl_lem heap a s s' e, deserialize_acls, f)

  acls-Reads :
      (items : List Acl)
      → All IsAcl items
      → (front rest spare : List ℕ) → length front + length (acls_bytes items ++ rest) < 2 ^ 31
      → deserialize_acls heap (length items) (at front (acls_bytes items ++ rest) spare)
        ≡ some (items, at (front ++ acls_bytes items) rest spare)
  unfolding acls_bytes
  acls-Reads [] h front rest spare fits = rw append-nil (unfold deserialize_acls in refl)
  acls-Reads (a ∷ items) h front rest spare fits =
      rw
        (
          append_assoc (acl_bytes a) (acls_bytes items) rest,
          ← append_assoc front (acl_bytes a) (acls_bytes items),
        )
        (acls_step a items _ _ _
          ((acl-Input heap allocates a h.0).apply front (acls_bytes items ++ rest) spare fits')
          (acls-Reads items h.1 (front ++ acl_bytes a) rest spare (
            omega (
              arith,
              fits',
              length-append front (acl_bytes a),
              length-append (acl_bytes a) (acls_bytes items ++ rest),
            ))))
    where
      fits' : length front + length (acl_bytes a ++ (acls_bytes items ++ rest)) < 2 ^ 31
      fits' = rw (append_assoc (acl_bytes a) (acls_bytes items) rest) at fits

  with_acl_count_lem :
      (v : AclVector) (s t : BuffStruct)
      → IsAclVector v
      → length v.items < 2 ^ 26
      → deserialize_acls heap (length v.items) s ≡ some (v.items, t)
      → with_acl_count heap (some (good v.count, s)) ≡ some (good v, t)
  with_acl_count_lem v s t h few e =
      rw (rounds v.count (length v.items) h.count h.short, allocates (calloc_acls v.count) small, e)
    where
      small : calloc_acls v.count < 2 ^ 31
      small = ground (arith, h.count, few)

  pub acl_vector-Input :
      (v : AclVector)
      → IsAclVector v
      → length v.items < 2 ^ 26
      → Input (deserialize_acl_vector heap) (acl_vector_bytes v) v
  unfolding deserialize_acl_vector acl_vector_bytes ia_start_vector
  acl_vector-Input v h few = record { apply = reads }
    where
      reads : Reads (deserialize_acl_vector heap) (int_bytes v.count ++ acls_bytes v.items) v
      reads front rest spare fits =
          rw
            (
              append_assoc (int_bytes v.count) (acls_bytes v.items) rest,
              (int-Input v.count (ground (arith, h.count, h.short))).apply front
                  (acls_bytes v.items ++ rest) spare fits',
              ← append_assoc front (int_bytes v.count) (acls_bytes v.items),
            )
            (with_acl_count_lem v _ _ h few (
              acls-Reads v.items h.items (front ++ int_bytes v.count) rest spare (
                omega (
                  arith,
                  fits',
                  length-append front (int_bytes v.count),
                  length-append (int_bytes v.count) (acls_bytes v.items ++ rest),
                ))))
        where
          fits' : length front + length (int_bytes v.count ++ (acls_bytes v.items ++ rest)) < 2 ^ 31
          fits' = rw (append_assoc (int_bytes v.count) (acls_bytes v.items) rest) at fits

-- A ACL_vector is read back as it was.
pub transfer-acl_vector :
    (heap : Heap)
    → Allocates heap
    → (v : AclVector) → IsAclVector v
    → length v.items < 2 ^ 26
    → length (acl_vector_bytes v) ≤ 2 ^ 28
    → transfer heap (serialize_acl_vector heap v) (deserialize_acl_vector heap) ≡ some (good v)
transfer-acl_vector heap allocates v h few fits =
    transfer-Output-Input heap allocates (acl_vector-Output heap allocates v h)
      (acl_vector-Input heap allocates v h few) fits
