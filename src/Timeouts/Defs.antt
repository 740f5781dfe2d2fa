-- ===== src/Timeouts/Defs.antt =====
-- calculate_interval, get_timeval, send_ping, and zookeeper_interest on a socket that is open, of
-- src/zk/zookeeper.c. An int is a word of 32 bits and a time_t one of 64; an int product that
-- overflows wraps.
use ext_zookeeper.Prelude.{
  ℕ, ◌+◌, ◌-◌, ◌*◌, ◌/◌, ◌%◌, ◌^◌, Bool, Option, none, some, [], ◌&&◌, leb, ltb, if◌then◌else◌,
}
use ext_zookeeper.Codes.{zoo_ping_op}
use ext_zookeeper.Recordio.{
  is_neg, Rc, good, fail, BuffStruct, create_buffer_oarchive, get_buffer, get_buffer_len,
}
use ext_zookeeper.Jute.Headers.{serialize_request_header}
use ext_zookeeper.Watchers.{Hashtable}
use ext_zookeeper.Client.{
  ZHandle, Surroundings, Run, queue_buffer_bytes, adaptor_send_queue, header, error_code,
}
use ext_zookeeper.Replies.{ping_xid, le_int}

-- struct timeval
pub record Timeval : Type 0 where
  pub tv_sec : ℕ
  pub tv_usec : ℕ

-- The part of zhandle_t that deadlines depend on.
pub record Clocks : Type 0 where
  pub recv_timeout : ℕ
  pub last_recv : Timeval
  pub last_send : Timeval

-- `i.tv_usec/1000` for a difference that may be below 0, as a word of 64 bits
abbrev pub milliseconds : ℕ → ℕ → ℕ
milliseconds end_usec start_usec =
    if leb start_usec end_usec
    then (end_usec - start_usec) / 1000
    else 2 ^ 64 - (start_usec - end_usec) / 1000

unfoldable pub calculate_interval : Timeval → Timeval → ℕ
calculate_interval start end' =
    ((end'.tv_sec + (2 ^ 64 - start.tv_sec)) * 1000 + milliseconds end'.tv_usec start.tv_usec)
    % 2 ^ 32

unfoldable pub get_timeval : ℕ → Timeval
get_timeval interval =
    let n = if is_neg interval then 0 else interval in
    record { tv_sec = n / 1000; tv_usec = (n % 1000) * 1000 }

-- `a / 3` for an int: towards 0
abbrev pub third : ℕ → ℕ
third a = if is_neg a then (2 ^ 32 - (2 ^ 32 - a) / 3) % 2 ^ 32 else a / 3

-- `a - b` for ints
abbrev pub minus : ℕ → ℕ → ℕ
minus a b = (a + (2 ^ 32 - b)) % 2 ^ 32

-- `int recv_to = zh->recv_timeout*2/3 - idle_recv;`
unfoldable pub recv_to : Clocks → Timeval → ℕ
recv_to zh now =
    minus (third ((zh.recv_timeout * 2) % 2 ^ 32)) (calculate_interval zh.last_recv now)

-- `send_to = zh->recv_timeout/3 - idle_send;`
unfoldable pub ping_due : Clocks → Timeval → ℕ
ping_due zh now = minus (third zh.recv_timeout) (calculate_interval zh.last_send now)

-- The value of `send_to` in the end.
unfoldable pub send_to : Bool → Clocks → Timeval → ℕ
send_to connected zh now =
    if connected
    then if le_int (ping_due zh now) 0 then third zh.recv_timeout else ping_due zh now
    else third zh.recv_timeout

-- What zookeeper_interest comes to on an open socket: the connection has timed out, or a ping has
-- failed with a code, or the time to wait, whether a ping is sent first, and the next deadline.
pub data Interest : Type 0 where
  times_out : Interest
  ping_fails : ℕ → Interest
  waits : Timeval → Bool → Timeval → Interest

-- `next_deadline`; a sum of just 1000000 microseconds stays as it is.
unfoldable pub deadline : Timeval → Timeval → Timeval
deadline now tv =
    let usec = now.tv_usec + tv.tv_usec in
    if ltb 1000000 usec
    then record { tv_sec = now.tv_sec + tv.tv_sec + usec / 1000000; tv_usec = usec % 1000000 }
    else record { tv_sec = now.tv_sec + tv.tv_sec; tv_usec = usec }

-- `recv_to < send_to? recv_to:send_to`
abbrev pub lesser : ℕ → ℕ → ℕ
lesser a b = if le_int b a then b else a

-- `send_to <= 0` on a connected handle where no request waits for an answer (`idle`): a ping is sent.
abbrev pub pings : Bool → Bool → Clocks → Timeval → Bool
pings connected idle zh now = connected && (le_int (ping_due zh now) 0 && idle)

-- `ping_rc`: what send_ping returns, if it is called.
unfoldable pub interest : Bool → Bool → ℕ → Clocks → Timeval → Interest
interest connected idle ping_rc zh now =
    if le_int (recv_to zh now) 0
    then times_out
    else if pings connected idle zh now && is_neg ping_rc
    then ping_fails ping_rc
    else (let tv = get_timeval (lesser (recv_to zh now) (send_to connected zh now)) in
        waits tv (pings connected idle zh now) (deadline now tv))

module _ {ht : Hashtable} where
  -- `return rc<0 ? rc : adaptor_send_queue(zh, 0);` after queue_buffer_bytes.
  abbrev pub flush_ping : Surroundings → ZHandle ht → BuffStruct → Run ht
  flush_ping env zh oa =
      elim (queue_buffer_bytes env.packet_given zh.to_send (get_buffer oa) (get_buffer_len oa)) [
        | none ↦ none
        | some (rc, queue) ↦
            if is_neg rc
            then some (rc, zh, [])
            else adaptor_send_queue env.events 0 (record zh { to_send = queue })
      ]

  abbrev pub queue_ping : Surroundings → ZHandle ht → Option (Rc (Unit {0}) × BuffStruct) → Run ht
  queue_ping env zh none = none
  queue_ping env zh (some (fail e, oa)) = some (error_code e, zh, [])
  queue_ping env zh (some (good u, oa)) = flush_ping env zh oa

  -- The time of the last ping is not part of the handle here.
  unfoldable pub send_ping : Surroundings → ZHandle ht → Run ht
  send_ping env zh = elim (create_buffer_oarchive env.heap) [
    | none ↦ none
    | some oa ↦
        queue_ping env zh (serialize_request_header env.heap (header ping_xid zoo_ping_op) oa)
  ]
