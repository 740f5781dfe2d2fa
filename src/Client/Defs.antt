-- ===== src/Client/Defs.antt =====
-- The handle of src/zk/zk_adaptor.h as the requests and the processing of answers share it, and
-- what every request function of src/zk/zookeeper.c does with it.
use ext_zookeeper.Prelude.{
  ℕ, ◌+◌, ◌-◌, ◌%◌, ◌^◌, Bool, true, false, Option, none, some, List, [], take, ◌==◌, if◌then◌else◌,
}
use ext_zookeeper.Codes.{zok, zsystemerror, zmarshallingerror, connected_state}
use ext_zookeeper.Recordio.{
  Heap, Errno, enomem, e2big, einval, Rc, good, fail, BuffStruct, Archive, ◌>>◌, is_neg,
  create_buffer_oarchive, get_buffer, get_buffer_len,
}
use ext_zookeeper.Jute.Headers.{RequestHeader, serialize_request_header}
use ext_zookeeper.Frames.{Packet, allocate_buffer, FlushEvent, flush_send_queue, queue_buffer}
use ext_zookeeper.Watchers.{Hashtable, Checker, WatcherRegistration, Handle}
use ext_zookeeper.Paths.{PathHandle, request_path_init}
use ext_zookeeper.Session.{CompletionEntry, Requests, add_completion}

-- A part of a multi request: its completion. A part has no parts.
abbrev pub Part : Type 0
Part = CompletionEntry (Unit {0})

abbrev pub Parts : Type 0
Parts = List Part

-- The part of zhandle_t that requests and their answers use. `requests.auth.state` is its state, and
-- `watchers` has its tables, its watcher and its context.
pub record ZHandle (ht : Hashtable) : Type 0 where
  pub chroot : Option (List ℕ)
  pub last_zxid : ℕ
  pub watchers : Handle ht
  pub requests : Requests Parts
  pub to_send : List Packet
  pub to_process : List Packet

-- What a call meets: the allocator, whether a block is given for a completion, a registration and
-- a packet, what the socket answers, and the bytes that a synchronous caller has room for
-- (`buff_len` or `str_len` of the sync_completion at an address).
pub record Surroundings : Type 0 where
  pub heap : Heap
  pub sync_marker : ℕ
  pub entry_given : Bool
  pub registration_given : Bool
  pub packet_given : Bool
  pub events : List FlushEvent
  pub room : ℕ → ℕ

-- `static int32_t xid`: what get_xid returns, and what it leaves. It starts with -1.
unfoldable pub get_xid : ℕ → ℕ → ℕ × ℕ
get_xid now xid = let x = if xid == 2 ^ 32 - 1 then now % 2 ^ 32 else xid in (x, (x + 1) % 2 ^ 32)

-- What queue_buffer_bytes returns, and the queue. A null buffer is not looked at: `none`.
unfoldable pub queue_buffer_bytes :
    Bool → List Packet → Option (List ℕ) → ℕ → Option (ℕ × List Packet)
queue_buffer_bytes given list none len = none
queue_buffer_bytes false list (some buff) len = some (zsystemerror, list)
queue_buffer_bytes true list (some buff) len =
    some (zok, queue_buffer list (allocate_buffer (take len buff) len) false)

-- `watcher` 0 is null. A registration that calloc does not give is written to: `none`.
unfoldable pub create_watcher_registration :
    Bool → List ℕ → Checker → ℕ → ℕ → Option (Option WatcherRegistration)
create_watcher_registration given path checker watcher ctx =
    if watcher == 0
    then some none
    else if given
    then some (some (record { watcher = watcher; context = ctx; checker = checker; path = path }))
    else none

-- `-ENOMEM`, `-E2BIG` and `-EINVAL` of Linux, as words.
abbrev pub error_code : Errno → ℕ
error_code enomem = 2 ^ 32 - 12
error_code e2big = 2 ^ 32 - 7
error_code einval = 2 ^ 32 - 22

-- What a request function returns, the handle, and the bytes that went out. `none` is undefined
-- behaviour, or too few answers of the socket.
abbrev pub Run : Hashtable → Type 0
Run ht = Option (ℕ × ZHandle ht × List ℕ)

-- The same when `zh` may be null.
abbrev pub Answer : Hashtable → Type 0
Answer ht = Option (ℕ × Option (ZHandle ht) × List ℕ)

-- What the request functions pass to add_completion.
pub record Completion : Type 0 where
  pub type : ℕ
  pub dc : ℕ
  pub contents : ℕ
  pub watcher : Option WatcherRegistration
  pub clist : Option Parts

module _ {ht : Hashtable} where
  abbrev pub state_of : ZHandle ht → ℕ
  state_of zh = zh.requests.auth.state

  abbrev pub path_handle : ZHandle ht → PathHandle
  path_handle zh = record { chroot = zh.chroot; state = state_of zh }

  -- adaptor_send_queue of src/zk/st_adaptor.c: its result, the handle, and the bytes that went out.
  unfoldable pub adaptor_send_queue : List FlushEvent → ℕ → ZHandle ht → Run ht
  adaptor_send_queue events timeout zh =
      elim (flush_send_queue timeout (state_of zh == connected_state) events zh.to_send) [
        | none ↦ none
        | some f ↦ some (f.rc, record zh { to_send = f.to_send }, f.out)
      ]

  -- `adaptor_send_queue(zh, 0); return (rc < 0)?ZMARSHALLINGERROR:ZOK;`
  unfoldable pub finish_request : Surroundings → ℕ → ZHandle ht → Run ht
  finish_request env rc zh = elim (adaptor_send_queue env.events 0 zh) [
    | none ↦ none
    | some (ignored, zh', out) ↦ some (if is_neg rc then zmarshallingerror else zok, zh', out)
  ]

  -- `rc = rc < 0 ? rc : queue_buffer_bytes(&zh->to_send, get_buffer(oa), get_buffer_len(oa));`
  unfoldable pub queue_request : Surroundings → ℕ → ZHandle ht → BuffStruct → Run ht
  queue_request env rc zh oa =
      if is_neg rc
      then finish_request env rc zh
      else elim (queue_buffer_bytes env.packet_given zh.to_send (get_buffer oa)
          (get_buffer_len oa)) [
            | none ↦ none
            | some (rc', queue) ↦ finish_request env rc' (record zh { to_send = queue })
          ]

  -- Once the request is serialized with a code: `rc = rc < 0 ? rc : add_completion(…)`. The errors
  -- of the archive are below 0.
  unfoldable pub complete_request :
      Surroundings → ZHandle ht → ℕ → Completion → Option (Rc (Unit {0}) × BuffStruct) → Run ht
  complete_request env zh xid c none = none
  complete_request env zh xid c (some (fail e, oa)) = finish_request env zmarshallingerror zh
  complete_request env zh xid c (some (good u, oa)) =
      elim (add_completion env.sync_marker env.entry_given zh.requests xid c.type c.dc c.contents
        false c.watcher c.clist) [
          | none ↦ none
          | some (rc, requests) ↦ queue_request env rc (record zh { requests = requests }) oa
        ]

  -- The part that the request functions have in common: from create_buffer_oarchive to the end.
  -- `req` serializes the record behind the header.
  unfoldable pub submit :
      Surroundings → ZHandle ht → RequestHeader → Archive (Unit {0}) → Completion → Run ht
  submit env zh h req c = elim (create_buffer_oarchive env.heap) [
    | none ↦ none
    | some oa ↦ complete_request env zh h.xid c ((serialize_request_header env.heap h >> req) oa)
  ]

  abbrev pub answer : Run ht → Answer ht
  answer none = none
  answer (some (rc, zh, out)) = some (rc, some zh, out)

  -- `int rc = Request_path_init(zh, flags, &req.path, path); if (rc != ZOK) return rc;`
  unfoldable pub with_path :
      ℕ → Option (ZHandle ht) → List ℕ → (ZHandle ht → List ℕ → Run ht) → Answer ht
  with_path flags none path request = some ((request_path_init none flags path).0, none, [])
  with_path flags (some zh) path request =
      let init = request_path_init (some (path_handle zh)) flags path in
      if init.0 == zok then answer (request zh init.1) else some (init.0, some zh, [])
