-- ===== src/Client/Refusing.antt =====
-- What a request function leaves when it does not succeed.
use ext_zookeeper.Prelude.{
  ℕ, ◌+◌, ◌^◌, ◌≤◌, ◌≡◌, refl, sym, subst, ◌∙◌, inl, inr, true, false, some, List, ◌++◌, length,
  length-append, ◌==◌, if◌then◌else◌, arith, Bool-cases, All,
}
use ext_zookeeper.Codes.{zok, zsystemerror, zinvalidstate, zmarshallingerror}
use ext_zookeeper.Recordio.{BuffStruct, Archive, ◌>>◌, is_neg, get_buffer}
use ext_zookeeper.Recordio.Rules.{Output, Output-seq}
use ext_zookeeper.Recordio.Transfer.{create-Filled}
use ext_zookeeper.Recordio.Spec.{Allocates}
use ext_zookeeper.Jute.Headers.{
  RequestHeader, serialize_request_header, IsRequestHeader, request_header_bytes,
  request_header-Output,
}
use ext_zookeeper.Frames.Sending.{IsPacket}
use ext_zookeeper.Frames.Flushing.{pending}
use ext_zookeeper.Watchers.{Hashtable}
use ext_zookeeper.Session.{
  Requests, add_completion, create_completion_entry, add_entry, completion_multi,
}
use ext_zookeeper.Client.Defs.{
  ZHandle, Surroundings, Completion, Parts, Run, queue_buffer_bytes, queue_request,
  complete_request, submit, finish_request,
}
use ext_zookeeper.Client.Submitting.{
  IsCompletion, waiting, Finishes, finish_request-Finishes, add_completion_lem, length-header,
}

add_completion_closing :
    (env : Surroundings) (zh : Requests Parts) (xid : ℕ) (c : Completion)
    → env.entry_given ≡ true
    → zh.close_requested ≡ true
    → IsCompletion c
    → add_completion env.sync_marker env.entry_given zh xid c.type c.dc c.contents false c.watcher
        c.clist
      ≡ some (zinvalidstate, zh)
unfolding add_completion create_completion_entry add_entry
add_completion_closing env zh xid c given closing v =
    elim (Bool-cases (c.type == completion_multi)) [
      | inl e ↦
          let parts = v.parts (ground arith) in
          rw (given, add_completion) (rw (e, parts.1, add_completion) (rw closing refl))
      | inr e ↦ rw (given, add_completion) (rw (e, add_completion) (rw closing refl))
    ]

module _ {ht : Hashtable} where
  -- The request is not sent: ZMARSHALLINGERROR, with some requests waiting and the rest of the
  -- handle as it was but for what a flush takes off the queue.
  pub record Fails (zh : ZHandle ht) (requests : Requests Parts) (run : Run ht) : Type 0 where
    pub result : ZHandle ht
    pub out : List ℕ
    pub runs : run ≡ some (zmarshallingerror, result, out)
    pub keeps : result ≡ record zh { requests = requests; to_send = result.to_send }
    pub wire : pending zh.to_send ≡ out ++ pending result.to_send

  Finishes-Fails :
      (env : Surroundings) (zh : ZHandle ht) (rc : ℕ) (requests : Requests Parts)
      → is_neg rc ≡ true
      → Finishes env rc (record zh { requests = requests })
      → Fails zh requests (finish_request env rc (record zh { requests = requests }))
  Finishes-Fails env zh rc requests neg f = record {
    result = record zh { requests = requests; to_send = f.flushed.to_send };
    out = f.flushed.out;
    runs =
        subst
          (λ b.
            finish_request env rc (record zh { requests = requests })
            ≡ some (
              if b then zmarshallingerror else zok,
              record zh { requests = requests; to_send = f.flushed.to_send },
              f.flushed.out,
            ))
          neg f.runs;
    keeps = refl;
    wire = f.flushes.wire;
  }

  module _ (env : Surroundings) (zh : ZHandle ht) (h : RequestHeader) (req : Archive (Unit {0}))
      (c : Completion) (bytes : List ℕ) (allocates : Allocates env.heap)
      (packets : All IsPacket zh.to_send) (enough : length zh.to_send ≤ length env.events)
      (v : IsCompletion c) (w : IsRequestHeader h) (o : Output req bytes)
      (fits : 8 + length bytes ≤ 2 ^ 28) where
    -- submit up to add_completion.
    record Serialized (rc : ℕ) (requests : Requests Parts) : Type 0 where
      oa : BuffStruct
      block : List ℕ
      held : get_buffer oa ≡ some block
      runs : submit env zh h req c ≡ queue_request env rc (record zh { requests = requests }) oa

    serialized :
        (rc : ℕ) (requests : Requests Parts)
        → add_completion env.sync_marker env.entry_given zh.requests h.xid c.type c.dc c.contents
            false c.watcher c.clist
          ≡ some (rc, requests)
        → Serialized rc requests
    unfolding submit complete_request
    serialized rc requests e =
        let hm = Output-seq (request_header-Output env.heap allocates h w) o in
        let f =
          create-Filled env.heap allocates (serialize_request_header env.heap h >> req)
            (request_header_bytes h ++ bytes) hm.apply
            (omega (arith, fits, length-append (request_header_bytes h) bytes, length-header h)) in
        record {
          oa = f.result;
          block = f.block;
          held = f.held;
          runs =
              rw (f.made, submit) (rw (f.runs, complete_request) (rw (e, complete_request) refl));
        }

    fails :
        (rc : ℕ) (requests : Requests Parts)
        → is_neg rc ≡ true
        → Serialized rc requests
        → Fails zh requests (submit env zh h req c)
    unfolding queue_request
    fails rc requests neg s = subst (Fails zh requests) (sym (s.runs ∙ rw neg refl)) (
        Finishes-Fails env zh rc requests neg
          (finish_request-Finishes env rc (record zh { requests = requests }) packets enough))

    -- On a handle that is closing, a request that could be serialized is answered
    -- ZMARSHALLINGERROR and not sent: no completion is added to the handle. The bytes that go out
    -- are those that were queued.
    pub submit_closing :
        env.entry_given ≡ true
        → zh.requests.close_requested ≡ true
        → Fails zh zh.requests (submit env zh h req c)
    submit_closing given closing = fails zinvalidstate zh.requests refl (
        serialized zinvalidstate zh.requests
          (add_completion_closing env zh.requests h.xid c given closing v))

    -- When there is no memory for the packet, a request that was serialized on a handle that is
    -- not closing is answered ZMARSHALLINGERROR and not sent, and its completion waits all the
    -- same behind the other requests. The bytes that go out are those that were queued. Memory is
    -- given for the rest, the header and the record fit, and the socket answers once for each
    -- packet.
    pub submit_strands :
        env.entry_given ≡ true
        → zh.requests.close_requested ≡ false
        → env.packet_given ≡ false
        → Fails zh (waiting env.sync_marker zh.requests h.xid c) (submit env zh h req c)
    unfolding queue_request queue_buffer_bytes finish_request
    submit_strands given usable full =
        let requests = waiting env.sync_marker zh.requests h.xid c in
        let s =
          serialized zok requests (add_completion_lem env zh.requests h.xid c given usable v) in
        subst (Fails zh requests) (sym (s.runs ∙ rw (s.held, full, queue_request) refl)) (
          Finishes-Fails env zh zsystemerror requests refl (
            finish_request-Finishes env zsystemerror (record zh { requests = requests }) packets
              enough))
