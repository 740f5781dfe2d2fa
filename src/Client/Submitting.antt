-- ===== src/Client/Submitting.antt =====
-- What a request function leaves when it succeeds: one completion, and one frame.
use ext_zookeeper.Prelude.{
  ℕ, ◌+◌, ◌%◌, ◌^◌, ◌≤◌, ◌<◌, ◌≡◌, refl, sym, ap, ap₂, ◌∙◌, inl, inr, true, false, none, some, List,
  [], ◌∷◌, ◌++◌, length, length-append, take, drop, All, All-append, ◌==◌, if◌then◌else◌, leb,
  le→leb, arith, Bool-cases, Option-cases,
}
use mathlib.Core.List.{append-nil, append_assoc}
use ext_zookeeper.Prelude.Bytes.{be}
use ext_zookeeper.Codes.{zok, zmarshallingerror, connected_state}
use ext_zookeeper.Recordio.{is_neg, BuffStruct, Archive, ◌>>◌, get_buffer, get_buffer_len}
use ext_zookeeper.Recordio.Spec.{Allocates}
use ext_zookeeper.Recordio.Rules.{Output, Output-seq, int_bytes}
use ext_zookeeper.Recordio.Transfer.{create-Filled}
use ext_zookeeper.Jute.Headers.{
  RequestHeader, serialize_request_header, IsRequestHeader, request_header_bytes,
  request_header-Output,
}
use ext_zookeeper.Frames.{Packet, allocate_buffer, Flushed, flush_send_queue, queue_buffer}
use ext_zookeeper.Frames.Sending.{IsPacket, frame}
use ext_zookeeper.Frames.Flushing.{
  pending, Flushes, flush_send_queue-Delivers, flush_send_queue-ne-none,
}
use ext_zookeeper.Watchers.{Hashtable}
use ext_zookeeper.Session.{
  CompletionEntry, Requests, completion_multi, add_completion, create_completion_entry, add_entry,
  queue_completion_nolock,
}
use ext_zookeeper.Session.Completions.{queue_completion_nolock_back}
use ext_zookeeper.Client.Defs.{
  ZHandle, Surroundings, Completion, Parts, Run, state_of, queue_buffer_bytes, adaptor_send_queue,
  finish_request, queue_request, complete_request, submit,
}

pub queue_buffer_back :
    (list : List Packet) (b : Packet) → queue_buffer list b false ≡ list ++ (b ∷ [])
unfolding queue_buffer
queue_buffer_back [] b = refl
queue_buffer_back (p ∷ rest) b = ap (◌∷◌ p) (queue_buffer_back rest b)

pub pending-append : (xs ys : List Packet) → pending (xs ++ ys) ≡ pending xs ++ pending ys
pending-append [] ys = refl
pending-append (p ∷ xs) ys =
    ap (λ l. drop p.curr_offset (frame p) ++ l) (pending-append xs ys)
    ∙ sym (append_assoc (drop p.curr_offset (frame p)) (pending xs) (pending ys))

-- The completion that a request leaves in the queue.
abbrev pub entry_of : ℕ → Completion → CompletionEntry Parts
entry_of xid c = record {
  xid = xid;
  type = c.type;
  result = c.dc;
  clist = if c.type == completion_multi then c.clist else none;
  contents = c.contents;
  buffer = none;
  watcher = c.watcher;
  watcher_result = [];
}

-- The requests of a handle with one more.
abbrev pub waiting : ℕ → Requests Parts → ℕ → Completion → Requests Parts
waiting sync_marker zh xid c = record zh {
  sent_requests = zh.sent_requests ++ (entry_of xid c ∷ []);
  outstanding_sync = (zh.outstanding_sync + (if c.dc == sync_marker then 1 else 0)) % 2 ^ 32;
}

-- A completion that can be kept: a multi request has its parts.
pub record IsCompletion (c : Completion) : Type 0 where
  pub type : c.type ≤ completion_multi
  pub parts : c.type ≡ completion_multi → (l : Parts) × (c.clist ≡ some l)

abbrev pub fresh : List ℕ → Packet
fresh bytes = record { buffer = bytes; len = length bytes; curr_offset = 0 }

fresh-IsPacket : (bytes : List ℕ) → IsPacket (fresh bytes)
fresh-IsPacket bytes = record { full = refl; within = omega arith }

pending-fresh :
    (list : List Packet) (bytes : List ℕ)
    → pending (list ++ (fresh bytes ∷ [])) ≡ pending list ++ (be 4 (length bytes) ++ bytes)
pending-fresh list bytes =
    pending-append list (fresh bytes ∷ [])
    ∙ ap (λ l. pending list ++ l) (append-nil (be 4 (length bytes) ++ bytes))

pub length-header : (h : RequestHeader) → length (request_header_bytes h) ≡ 8
unfolding request_header_bytes int_bytes
length-header h = refl

queue_buffer_bytes_lem :
    (list : List Packet) (block bytes : List ℕ) (n : ℕ)
    → n ≡ length bytes
    → 0 < length bytes
    → take n block ≡ bytes
    → queue_buffer_bytes true list (some block) n ≡ some (zok, list ++ (fresh bytes ∷ []))
unfolding queue_buffer_bytes allocate_buffer
queue_buffer_bytes_lem list block bytes n e pos t =
    ap (λ l. some (zok, l))
      (queue_buffer_back list _
        ∙ ap (λ p. list ++ (p ∷ []))
            (ap₂ (λ b m. record { buffer = b; len = m; curr_offset = 0 }) t (rw (not_zero) e)))
  where
    not_zero : (n == 0) ≡ false
    not_zero = ground arith

pub add_completion_lem :
    (env : Surroundings) (zh : Requests Parts) (xid : ℕ) (c : Completion)
    → env.entry_given ≡ true
    → zh.close_requested ≡ false
    → IsCompletion c
    → add_completion env.sync_marker env.entry_given zh xid c.type c.dc c.contents false c.watcher
        c.clist
      ≡ some (zok, waiting env.sync_marker zh xid c)
unfolding add_completion create_completion_entry add_entry
add_completion_lem env zh xid c given usable v =
    ends ∙ ap (λ l. some (zok, queued l)) (queue_completion_nolock_back zh.sent_requests _)
  where
    queued : List (CompletionEntry Parts) → Requests Parts
    queued l = record zh {
      sent_requests = l;
      outstanding_sync =
          (zh.outstanding_sync + (if c.dc == env.sync_marker then 1 else 0)) % 2 ^ 32;
    }

    small : leb c.type completion_multi ≡ true
    small = le→leb c.type completion_multi v.type

    ends :
        add_completion env.sync_marker env.entry_given zh xid c.type c.dc c.contents false c.watcher
          c.clist
        ≡ some (zok, queued (queue_completion_nolock zh.sent_requests (entry_of xid c) false))
    ends = elim (Bool-cases (c.type == completion_multi)) [
      | inl e ↦
          let parts = v.parts (ground arith) in
          rw (given, add_completion) (rw (e, parts.1, add_completion) (rw (usable, small) refl))
      | inr e ↦ rw (given, add_completion) (rw (e, add_completion) (rw (usable, small) refl))
    ]

module _ {ht : Hashtable} where
  -- Memory is given, the handle is not closing, and the socket answers once for each packet.
  pub record IsReady (env : Surroundings) (zh : ZHandle ht) : Type 0 where
    pub allocates : Allocates env.heap
    pub entry : env.entry_given ≡ true
    pub packet : env.packet_given ≡ true
    pub usable : zh.requests.close_requested ≡ false
    pub packets : All IsPacket zh.to_send
    pub enough : length zh.to_send < length env.events

  -- A request was sent: its completion waits behind the others, and the bytes that went out and
  -- those still to go are the bytes of the queue and then one frame.
  pub record Submitted (env : Surroundings) (zh : ZHandle ht) (xid : ℕ) (c : Completion)
      (bytes : List ℕ) (run : Run ht) : Type 0 where
    pub result : ZHandle ht
    pub out : List ℕ
    pub runs : run ≡ some (zok, result, out)
    pub keeps : result ≡ record zh {
      requests = waiting env.sync_marker zh.requests xid c;
      to_send = result.to_send;
    }
    pub wire : pending zh.to_send ++ (be 4 (length bytes) ++ bytes) ≡ out ++ pending result.to_send
    pub packets : All IsPacket result.to_send

  -- A last, non-blocking flush.
  pub record Finishes (env : Surroundings) (rc : ℕ) (zh : ZHandle ht) : Type 0 where
    pub flushed : Flushed
    pub runs :
        finish_request env rc zh
        ≡ some (
          if is_neg rc then zmarshallingerror else zok,
          record zh { to_send = flushed.to_send },
          flushed.out,
        )
    pub flushes : Flushes zh.to_send flushed

  pub finish_request-Finishes :
      (env : Surroundings) (rc : ℕ) (zh : ZHandle ht)
      → All IsPacket zh.to_send
      → length zh.to_send ≤ length env.events
      → Finishes env rc zh
  unfolding finish_request adaptor_send_queue
  finish_request-Finishes env rc zh ps enough =
      let connected = state_of zh == connected_state in
      elim (Option-cases (flush_send_queue 0 connected env.events zh.to_send)) [
        | inl e ↦ absurd (flush_send_queue-ne-none connected env.events zh.to_send enough e)
        | inr (f, e) ↦ record {
          flushed = f;
          runs = rw (e, finish_request);
          flushes = flush_send_queue-Delivers 0 connected env.events zh.to_send f ps e;
        }
      ]

  queue_request-Submitted :
      (env : Surroundings) (zh : ZHandle ht) (xid : ℕ) (c : Completion) (oa : BuffStruct)
      (bytes : List ℕ)
      → IsReady env zh
      → queue_buffer_bytes env.packet_given zh.to_send (get_buffer oa) (get_buffer_len oa)
        ≡ some (zok, zh.to_send ++ (fresh bytes ∷ []))
      → Submitted env zh xid c bytes (
          queue_request env zok
            (record zh { requests = waiting env.sync_marker zh.requests xid c })
            oa)
  unfolding queue_request
  queue_request-Submitted env zh xid c oa bytes r e =
      let requests = waiting env.sync_marker zh.requests xid c in
      let queue = zh.to_send ++ (fresh bytes ∷ []) in
      let fin =
        finish_request-Finishes env zok (record zh { requests = requests; to_send = queue })
          (All-append IsPacket zh.to_send (fresh bytes ∷ []) r.packets (fresh-IsPacket bytes, tt))
          (omega (arith, r.enough, length-append zh.to_send (fresh bytes ∷ []))) in
      record {
        result = record zh { requests = requests; to_send = fin.flushed.to_send };
        out = fin.flushed.out;
        runs = rw (e, queue_request) fin.runs;
        keeps = refl;
        wire = sym (pending-fresh zh.to_send bytes) ∙ fin.flushes.wire;
        packets = fin.flushes.packets;
      }

  pub submit-Submitted :
      (env : Surroundings) (zh : ZHandle ht) (h : RequestHeader) (req : Archive (Unit {0}))
      (c : Completion) (bytes : List ℕ)
      → IsReady env zh
      → IsCompletion c
      → IsRequestHeader h
      → Output req bytes
      → 8 + length bytes ≤ 2 ^ 28
      → Submitted env zh h.xid c (request_header_bytes h ++ bytes) (submit env zh h req c)
  unfolding submit complete_request
  submit-Submitted env zh h req c bytes r v w o fits =
      let hm = Output-seq (request_header-Output env.heap r.allocates h w) o in
      let f =
        create-Filled env.heap r.allocates (serialize_request_header env.heap h >> req)
          (request_header_bytes h ++ bytes) hm.apply
          (omega (arith, fits, length-append (request_header_bytes h) bytes, length-header h)) in
      rw (f.made, submit)
        (rw (f.runs, complete_request)
          (rw (add_completion_lem env zh.requests h.xid c r.entry r.usable v, complete_request)
            (queue_request-Submitted env zh h.xid c f.result (request_header_bytes h ++ bytes) r (
              rw (r.packet, f.held)
                (queue_buffer_bytes_lem zh.to_send f.block (request_header_bytes h ++ bytes)
                  (get_buffer_len f.result) f.size
                  (omega (arith, length-append (request_header_bytes h) bytes, length-header h))
                  f.bytes)))))
