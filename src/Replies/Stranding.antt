-- ===== src/Replies/Stranding.antt =====
-- A multi request of src/zk/zookeeper.c whose connection is lost: its made-up answer ends behind the
-- header, where deserialize_multi looks for parts.
use ext_zookeeper.Prelude.{
  ℕ, ◌-◌, ◌≢◌, ◌⊎◌, List, All, ◌^◌, ◌<◌, ◌≡◌, refl, subst, inl, inr, Bool, true, false, none, some,
  [], ◌∷◌, ◌==◌, arith, if◌then◌else◌, Bool-cases, Option-cases,
}
use ext_zookeeper.Recordio.{
  Heap, BuffStruct, fail, e2big, ia_start_record, ia_start_vector, ia_deserialize_int,
  ia_deserialize_long, ia_deserialize_string, ia_deserialize_buffer, room_lt_size,
}
use ext_zookeeper.Recordio.Spec.{Allocates, at}
use ext_zookeeper.Jute.Headers.{ReplyHeader, reply_header_bytes}
use ext_zookeeper.Jute.Stats.{deserialize_stat, deserialize_set_data_response}
use ext_zookeeper.Jute.StringVectors.{deserialize_string_vector}
use ext_zookeeper.Jute.AclVectors.{deserialize_acl_vector}
use ext_zookeeper.Jute.Events.{deserialize_create_response}
use ext_zookeeper.Jute.Responses.{
  deserialize_get_data_response, deserialize_get_children_response,
  deserialize_get_children2_response,
}
use ext_zookeeper.Jute.AclResponses.{deserialize_get_acl_response}
use ext_zookeeper.Session.{CompletionEntry, completion_multi}
use ext_zookeeper.Session.Completions.{response}
use ext_zookeeper.Client.{
  ZHandle, Part, Parts, completion_void, completion_stat, completion_data, completion_stringlist,
  completion_stringlist_stat, completion_acllist, completion_string,
}
use ext_zookeeper.Watchers.{Hashtable}
use ext_zookeeper.Replies.Defs.{Told, Value, read_record, no_value, string_value}
use ext_zookeeper.Replies.Answers.{
  Tellings, tell, tell_read, read_path, deserialize_simple, deserialize_multi, deserialize_response,
  multi_loop, told_first, told_last, fill_multi_header, no_header, parts_of,
}
use ext_zookeeper.Replies.Completing.{watcher_event_xid, complete_one}
use ext_zookeeper.Replies.Failing.{length-reply_header, open_response, read_response}

-- An archive of 16 bytes that are all read.
record IsSpent (s : BuffStruct) : Type 0 where
  len : s.len ≡ 16
  off : s.off ≡ 16

module _ (heap : Heap) (s : BuffStruct) (v : IsSpent s) where
  int_spent : ia_deserialize_int s ≡ some (fail e2big, s)
  unfolding ia_deserialize_int
  int_spent = rw test refl
    where
      test : room_lt_size s 4 ≡ true
      test = ground (arith, v.len, v.off)

  long_spent : ia_deserialize_long s ≡ some (fail e2big, s)
  unfolding ia_deserialize_long
  long_spent = rw test refl
    where
      test : room_lt_size s 8 ≡ true
      test = ground (arith, v.len, v.off)

  get_data_spent : read_record (deserialize_get_data_response heap) s ≡ none
  unfolding deserialize_get_data_response ia_start_record ia_deserialize_buffer
  get_data_spent = rw (int_spent, read_record) refl

  set_data_spent : read_record deserialize_set_data_response s ≡ none
  unfolding deserialize_set_data_response deserialize_stat ia_start_record
  set_data_spent = rw (long_spent, read_record) refl

  get_children_spent : read_record (deserialize_get_children_response heap) s ≡ none
  unfolding deserialize_get_children_response deserialize_string_vector ia_start_record
      ia_start_vector
  get_children_spent = rw (int_spent, read_record) refl

  get_children2_spent : read_record (deserialize_get_children2_response heap) s ≡ none
  unfolding deserialize_get_children2_response deserialize_string_vector ia_start_record
      ia_start_vector
  get_children2_spent = rw (int_spent, read_record) refl

  get_acl_spent : read_record (deserialize_get_acl_response heap) s ≡ none
  unfolding deserialize_get_acl_response deserialize_acl_vector ia_start_record ia_start_vector
  get_acl_spent = rw (int_spent, read_record) refl

  path_spent : read_path heap s ≡ some (none, s)
  unfolding deserialize_create_response ia_start_record ia_deserialize_string
  path_spent = rw (int_spent, read_path) refl

  header_spent : fill_multi_header no_header s ≡ some (no_header, s)
  unfolding fill_multi_header
  header_spent = rw (int_spent, fill_multi_header) refl

  -- Whatever a call of a completion comes to, the archive stays as it was.
  abbrev Stays : Tellings → Type 0
  Stays none = Unit {0}
  Stays (some (calls, s')) = s' ≡ s

  tell-Stays :
      {C : Type 0} (c : CompletionEntry C) (rc : ℕ) (value : Value) → Stays (tell c rc value s)
  unfolding tell
  tell-Stays c rc value = elim (Bool-cases (c.result == 0)) [ inl e ↦ rw e tt | inr e ↦ rw e refl ]

  if-Stays : (b : Bool) (m k : Tellings) → Stays m → Stays k → Stays (if b then m else k)
  if-Stays true m k x y = x
  if-Stays false m k x y = y

  simple-Stays : (type rc : ℕ) (c : Part) → Stays (deserialize_simple heap type false rc c s)
  unfolding deserialize_simple
  simple-Stays type rc c =
      if-Stays (type == completion_data) _ _ (rw (get_data_spent, tell_read) tt) (
        if-Stays (type == completion_stat) _ _ (rw (set_data_spent, tell_read) tt) (
          if-Stays (type == completion_stringlist) _ _ (rw (get_children_spent, tell_read) tt) (
            if-Stays (type == completion_stringlist_stat) _ _
              (rw (get_children2_spent, tell_read) tt)
              (if-Stays (type == completion_string) _ _
                (rw (path_spent, tell_read) (tell-Stays c rc (string_value none)))
                (if-Stays (type == completion_acllist) _ _ (rw (get_acl_spent, tell_read) tt)
                  (if-Stays (type == completion_void) _ _ (tell-Stays c rc no_value) refl))))))

  -- There is no part for the last round.
  multi_loop_spent : (clist : Parts) (rc : ℕ) → multi_loop heap clist rc no_header s ≡ none
  unfolding multi_loop
  multi_loop_spent [] rc = refl
  multi_loop_spent (entry ∷ clist) rc =
      elim (Option-cases (deserialize_simple heap entry.type false 0 entry s)) [
        | inl e ↦ rw (e, multi_loop) refl
        | inr ((calls, s'), e) ↦
            rw (e, multi_loop)
              (rw (subst Stays e (simple-Stays entry.type 0 entry))
                (rw (header_spent, multi_loop) (rw (multi_loop_spent clist rc, told_first) refl)))
      ]

  multi_spent : (cptr : CompletionEntry Parts) → deserialize_multi heap cptr s ≡ none
  unfolding deserialize_multi
  multi_spent cptr = rw (header_spent, deserialize_multi) (multi_loop_spent (parts_of cptr) 0)

-- The end of a reply that is a header only.
abbrev pub behind_header : ℕ → ℕ → BuffStruct
behind_header xid reason =
    at (reply_header_bytes (record { xid = xid; zxid = 2 ^ 64 - 1; err = reason })) [] []

-- The call of a part, with the code 0 and no path.
abbrev pub plain_calls : Part → List Told
plain_calls c =
    record {
      function = c.result;
      rc = 0;
      value = if c.type == completion_void then no_value else string_value none;
      context = c.contents;
    }
    ∷ []

-- A part whose answer is only its code or a path, with a function to tell it to: that of a create,
-- delete or check operation.
pub record IsPlain (c : Part) : Type 0 where
  pub type : (c.type ≡ completion_void) ⊎ (c.type ≡ completion_string)
  pub function : c.result ≢ 0

plain_told :
    (heap : Heap) (s : BuffStruct) (c : Part)
    → IsSpent s
    → IsPlain c
    → deserialize_simple heap c.type false 0 c s ≡ some (plain_calls c, s)
unfolding deserialize_simple tell
plain_told heap s c v p = elim p.type [
  | inl e ↦ rw (e, function) refl
  | inr e ↦ rw (e, path_spent heap s v, function) refl
]
  where
    function : (c.result == 0) ≡ false
    function = ground (arith, p.function)

-- What becomes of a made-up answer: all its parts can be told from it, and yet the whole is not.
pub record Strands {ht : Hashtable} (heap : Heap) (e : CompletionEntry Parts) (reason : ℕ)
    (zh : ZHandle ht) : Type 0 where
  pub parts :
      All
        (λ c.
          deserialize_simple heap c.type false 0 c (behind_header e.xid reason)
          ≡ some (plain_calls c, behind_header e.xid reason))
        (parts_of e)
  pub header :
      fill_multi_header no_header (behind_header e.xid reason)
      ≡ some (no_header, behind_header e.xid reason)
  pub aborts : complete_one heap (response reason e) zh ≡ none

-- The completion of a multi request that free_completions has made up for a lost connection is
-- not called: complete_one has no result. Behind the ReplyHeader a MultiHeader is read as not
-- done, and each part is told with the code 0 and no path, so that the loop goes on until no part
-- is left. All parts are of the type COMPLETION_VOID or COMPLETION_STRING and have a function,
-- the allocator gives every block whose size fits an int, the reason fits its word, and the xid
-- is none that the client keeps for itself.
pub complete_one-Strands :
    {ht : Hashtable} (heap : Heap) (e : CompletionEntry Parts) (reason : ℕ) (zh : ZHandle ht)
    → Allocates heap
    → e.type ≡ completion_multi
    → e.xid < watcher_event_xid
    → reason < 2 ^ 32
    → All IsPlain (parts_of e)
    → Strands heap e reason zh
unfolding complete_one deserialize_response
complete_one-Strands heap e reason zh allocates multi small word plain =
    let hdr : ReplyHeader = record { xid = e.xid; zxid = 2 ^ 64 - 1; err = reason } in
    let v : IsSpent (at (reply_header_bytes hdr) [] []) = record {
      len = omega (arith, length-reply_header hdr);
      off = length-reply_header hdr;
    } in
    record {
      parts = told v (parts_of e) plain;
      header = header_spent heap (behind_header e.xid reason) v;
      aborts =
          rw
            (
              open_response heap (reply_header_bytes hdr) allocates (length-reply_header hdr),
              complete_one,
            )
            (rw
              (
                read_response hdr
                    (record { xid = omega (arith, small); zxid = omega arith; err = word }),
                complete_one,
              )
              (rw (not_event, is_multi, multi_spent heap _ v (response reason e), told_last) refl));
    }
  where
    told :
        IsSpent (behind_header e.xid reason)
        → (clist : Parts) → All IsPlain clist
        → All
            (λ c.
              deserialize_simple heap c.type false 0 c (behind_header e.xid reason)
              ≡ some (plain_calls c, behind_header e.xid reason))
            clist
    told v [] h = tt
    told v (c ∷ clist) (p, h) = (plain_told heap (behind_header e.xid reason) c v p, told v clist h)

    not_event : (e.xid == watcher_event_xid) ≡ false
    not_event = ground (arith, small)

    is_multi : (e.type == completion_multi) ≡ true
    is_multi = ground (arith, multi)
