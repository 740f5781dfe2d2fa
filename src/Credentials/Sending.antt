-- ===== src/Credentials/Sending.antt =====
-- What credentials put on the queue of packets.
use ext_zookeeper.Prelude.{
  ℕ, ◌+◌, ◌^◌, ◌≤◌, ◌<◌, ◌≡◌, ◌⊎◌, refl, sym, ap, ap₂, ◌∙◌, inl, inr, true, false, Option, none,
  some, List, [], ◌∷◌, ◌++◌, map, length, length-append, take, take-append_left, le→leb, lt→not_leb,
  subst, All, ◌==◌, ◌||◌, arith,
}
use mathlib.Core.List.{append-nil, append_assoc}
use ext_zookeeper.Codes.{zok, zoo_setauth_op, connected_state, associating_state}
use ext_zookeeper.Recordio.{Buffer, ◌>>◌, is_neg, fetch, malloc_size, get_buffer_len}
use ext_zookeeper.Recordio.Spec.{Allocates}
use ext_zookeeper.Recordio.Rules.{Output-seq}
use ext_zookeeper.Recordio.Transfer.{create-Filled}
use ext_zookeeper.Jute.Headers.{
  serialize_request_header, request_header_bytes, request_header-Output,
}
use ext_zookeeper.Jute.Updates.{
  IsAuthPacket, auth_packet_bytes, serialize_auth_packet, auth_packet-Output,
}
use ext_zookeeper.Frames.{Packet, allocate_buffer, queue_buffer}
use ext_zookeeper.Auth.{AuthInfo}
use ext_zookeeper.Auth.Completions.{get_last_auth-add_last_auth}
use ext_zookeeper.Watchers.{Hashtable}
use ext_zookeeper.Client.{ZHandle, Surroundings, header, state_of}
use ext_zookeeper.Client.Submitting.{fresh, length-header}
use ext_zookeeper.Replies.{auth_xid}
use ext_zookeeper.Credentials.Defs.{
  queue_front_buffer_bytes, auth_packet, send_info_packet, info_loop, auth_buffer, send_auth_info,
  send_last_auth_info, keep_auth, zoo_add_auth,
}

queue_buffer_front : (list : List Packet) (b : Packet) → queue_buffer list b true ≡ b ∷ list
unfolding queue_buffer
queue_buffer_front [] b = refl
queue_buffer_front (p ∷ rest) b = refl

pub queue_front_buffer_bytes_lem :
    (list : List Packet) (block bytes : List ℕ) (n : ℕ)
    → n ≡ length bytes
    → 0 < length bytes
    → take n block ≡ bytes
    → queue_front_buffer_bytes true list (some block) n ≡ some (zok, fresh bytes ∷ list)
unfolding queue_front_buffer_bytes allocate_buffer
queue_front_buffer_bytes_lem list block bytes n e pos t =
    ap (λ l. some (zok, l))
      (queue_buffer_front list _
        ∙ ap (λ p. p ∷ list)
            (ap₂ (λ b m. record { buffer = b; len = m; curr_offset = 0 }) t (rw (not_zero) e)))
  where
    not_zero : (n == 0) ≡ false
    not_zero = ground arith

fetch_all : (bytes : List ℕ) → fetch 0 (length bytes) bytes ≡ some bytes
unfolding fetch
fetch_all bytes = rw (le→leb (0 + length bytes) (length bytes) (omega arith)) (
    ap some (
      ap (take (length bytes)) (sym (append-nil bytes))
      ∙ take-append_left bytes [] (length bytes) refl))

-- The payload of the frame of some credentials.
abbrev pub auth_payload : AuthInfo → List ℕ
auth_payload auth =
    request_header_bytes (header auth_xid zoo_setauth_op) ++ auth_packet_bytes (auth_packet auth)

-- Credentials that fit a packet.
pub record FitsPacket (auth : AuthInfo) : Type 0 where
  pub fields : IsAuthPacket (auth_packet auth)
  pub size : 8 + length (auth_packet_bytes (auth_packet auth)) ≤ 2 ^ 28

-- A list from its end.
abbrev pub reversed : {A : Type 0} → List A → List A
reversed [] = []
reversed (x ∷ xs) = reversed xs ++ (x ∷ [])

-- The frames of some credentials.
abbrev pub auth_frame : AuthInfo → Packet
auth_frame auth = fresh (auth_payload auth)

module _ (env : Surroundings) (allocates : Allocates env.heap)
    (given : env.packet_given ≡ true) where
  send_info_packet_lem :
      (queue : List Packet) (auth : AuthInfo)
      → FitsPacket auth
      → send_info_packet env queue auth ≡ some (zok, auth_frame auth ∷ queue)
  unfolding send_info_packet
  send_info_packet_lem queue auth v =
      let h = header auth_xid zoo_setauth_op in
      let hm =
        Output-seq
          (request_header-Output env.heap allocates h
            (record { xid = omega arith; type = omega arith }))
          (auth_packet-Output env.heap allocates (auth_packet auth) v.fields) in
      let long = length-append (request_header_bytes h) (auth_packet_bytes (auth_packet auth)) in
      let f =
        create-Filled env.heap allocates
          (serialize_request_header env.heap h >> serialize_auth_packet env.heap (auth_packet auth))
          (auth_payload auth) hm.apply (omega (arith, v.size, long, length-header h)) in
      rw (f.made, send_info_packet)
        (rw (f.runs, send_info_packet)
          (rw (given, f.held)
            (queue_front_buffer_bytes_lem queue f.block (auth_payload auth)
              (get_buffer_len f.result) f.size (omega (arith, long, length-header h)) f.bytes)))

  info_loop_lem :
      (auths : List AuthInfo) (queue : List Packet)
      → All FitsPacket auths
      → info_loop env zok auths queue ≡ some (zok, reversed (map auth_frame auths) ++ queue)
  unfolding info_loop
  info_loop_lem [] queue h = refl
  info_loop_lem (auth ∷ auths) queue (v, h) =
      rw (send_info_packet_lem queue auth v, info_loop)
        (info_loop_lem auths (auth_frame auth ∷ queue) h
          ∙ ap (λ l. some (zok, l))
              (sym (append_assoc (reversed (map auth_frame auths)) (auth_frame auth ∷ []) queue)))

  -- A certificate that is null, or as long as it says.
  abbrev pub IsCert : Option (List ℕ) → ℕ → Type 0
  IsCert none cert_len = Unit {0}
  IsCert (some cert) cert_len = (length cert ≡ cert_len) × (cert_len < 2 ^ 31)

  -- What is kept of a certificate: all of it, or a null buffer if it is null or empty.
  abbrev pub kept : Option (List ℕ) → ℕ → Buffer
  kept none cert_len = record { len = 0; buff = none }
  kept (some []) cert_len = record { len = 0; buff = none }
  kept (some (b ∷ cert)) cert_len = record { len = cert_len; buff = some (b ∷ cert) }

  auth_buffer-kept :
      (cert : Option (List ℕ)) (cert_len : ℕ)
      → IsCert cert cert_len
      → auth_buffer env.heap.can_alloc cert cert_len ≡ some (some (kept cert cert_len))
  unfolding auth_buffer
  auth_buffer-kept none cert_len c = refl
  auth_buffer-kept (some []) cert_len (e, word) = rw (sym e) refl
  auth_buffer-kept (some (b ∷ cert)) cert_len (e, word) =
      rw (not_empty, size)
        (rw (allocates cert_len word)
          (rw (subst (λ n. fetch 0 n (b ∷ cert) ≡ some (b ∷ cert)) e (fetch_all (b ∷ cert))) refl))
    where
      not_empty : (cert_len == 0) ≡ false
      not_empty = ground (arith, e)

      size : malloc_size cert_len ≡ cert_len
      size = rw (lt→not_leb (2 ^ 31) cert_len word) refl

  module _ {ht : Hashtable} (zh : ZHandle ht) where
    -- The packets of all credentials stand in front of what is queued, the last one first.
    pub send_auth_info_lem :
        All FitsPacket zh.requests.auth.auth_h
        → send_auth_info env zh
          ≡ some (
            zok,
            record zh { to_send = reversed (map auth_frame zh.requests.auth.auth_h) ++ zh.to_send },
          )
    unfolding send_auth_info
    send_auth_info_lem h = rw (info_loop_lem zh.requests.auth.auth_h zh.to_send h) refl

    abbrev pub info_of : List ℕ → Buffer → Option ℕ → ℕ → AuthInfo
    info_of scheme auth completion contents = record {
      state = 0;
      scheme = some scheme;
      auth = auth;
      completion = completion;
      contents = contents;
    }

    -- On a handle that is connected or associating, zoo_add_auth returns ZOK and puts credentials
    -- behind all others, with the scheme, the completion and its data, and all bytes of the
    -- certificate, or a null buffer if that is null or empty; their packet stands in front of all
    -- that is queued, and nothing else changes. The scheme is not null, the certificate is null
    -- or as long as it says, below 2 ^ 31, the packet fits, and memory is given.
    pub zoo_add_auth_lem :
        (scheme : List ℕ) (cert : Option (List ℕ)) (cert_len : ℕ) (completion : Option ℕ)
        (contents : ℕ)
        → env.entry_given ≡ true
        → IsCert cert cert_len
        → FitsPacket (info_of scheme (kept cert cert_len) completion contents)
        → (state_of zh ≡ connected_state) ⊎ (state_of zh ≡ associating_state)
        → zoo_add_auth env zh (some scheme) cert cert_len completion contents
          ≡ some (
            zok,
            record zh {
              requests = record zh.requests {
                auth = record zh.requests.auth {
                  auth_h =
                      zh.requests.auth.auth_h
                      ++ (info_of scheme (kept cert cert_len) completion contents ∷ []);
                };
              };
              to_send =
                  auth_frame (info_of scheme (kept cert cert_len) completion contents) ∷ zh.to_send;
            },
          )
    unfolding zoo_add_auth keep_auth send_last_auth_info
    zoo_add_auth_lem scheme cert cert_len completion contents entry c v state =
        let info = info_of scheme (kept cert cert_len) completion contents in
        rw (usable state) (
          rw (auth_buffer-kept cert cert_len c, keep_auth)
            (simp entry (
              rw (sends state) (
                rw (get_last_auth-add_last_auth zh.requests.auth.auth_h info).1 (
                  rw (send_info_packet_lem zh.to_send info v) (
                    ap
                      (λ l. some (
                        zok,
                        record zh {
                          requests = record zh.requests {
                            auth = record zh.requests.auth { auth_h = l };
                          };
                          to_send = auth_frame info ∷ zh.to_send;
                        },
                      ))
                      (get_last_auth-add_last_auth zh.requests.auth.auth_h info).0))))))
      where
        usable :
            (state_of zh ≡ connected_state) ⊎ (state_of zh ≡ associating_state)
            → (is_neg (state_of zh) || (state_of zh == 0)) ≡ false
        usable (inl x) = ground arith
        usable (inr x) = ground arith

        sends :
            (state_of zh ≡ connected_state) ⊎ (state_of zh ≡ associating_state)
            → ((state_of zh == connected_state) || (state_of zh == associating_state)) ≡ true
        sends (inl x) = ground arith
        sends (inr x) = ground arith
