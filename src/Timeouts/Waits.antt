-- ===== src/Timeouts/Waits.antt =====
-- How long zookeeper_interest lets a client wait.
use ext_zookeeper.Prelude.{
  ℕ, ◌+◌, ◌-◌, ◌*◌, ◌/◌, ◌%◌, ◌^◌, ◌≤◌, ◌<◌, ◌≡◌, ◌⊎◌, refl, subst, arith, if◌then◌else◌, Bool,
  true, false, ltb, inl, inr, ◌&&◌, Bool-cases, lt→not_leb,
}
use ext_zookeeper.Recordio.{is_neg}
use ext_zookeeper.Replies.{le_int}
use ext_zookeeper.Timeouts.Defs.{
  Timeval, Clocks, Interest, times_out, waits, third, minus, get_timeval, deadline, lesser, recv_to,
  ping_due, send_to, interest, calculate_interval, pings, ping_fails,
}
use ext_zookeeper.Timeouts.Intervals.{micros}

-- Ints that are not below 0.
minus_pos :
    (a b : ℕ)
    → a < 2 ^ 31
    → b < 2 ^ 31
    → le_int (minus a b) 0 ≡ false
    → (minus a b ≡ a - b) × (b < a)
minus_pos a b ha hb pos = ground arith

minus_late : (a b : ℕ) → a < 2 ^ 31 → b < 2 ^ 31 → le_int (minus a b) 0 ≡ true → a ≤ b
minus_late a b ha hb late = ground arith

third_pos : (a : ℕ) → a < 2 ^ 31 → third a ≡ a / 3
third_pos a ha = ground arith

lesser_le : (a b : ℕ) → a < 2 ^ 31 → b < 2 ^ 31 → (lesser a b ≤ a) × (lesser a b ≤ b)
lesser_le a b ha hb = ground arith

get_timeval_pos :
    (i : ℕ) → i < 2 ^ 31 → get_timeval i ≡ record { tv_sec = i / 1000; tv_usec = (i % 1000) * 1000 }
unfolding get_timeval
get_timeval_pos i hi = rw (lt→not_leb (2 ^ 31) i hi) refl

deadline-micros : (now tv : Timeval) → micros (deadline now tv) ≡ micros now + micros tv
unfolding deadline
deadline-micros now tv = elim (Bool-cases (ltb 1000000 (now.tv_usec + tv.tv_usec))) [
  | inl over ↦ rw over (omega arith)
  | inr within ↦ rw within (omega arith)
]

-- The milliseconds of a time.
abbrev pub millis : Timeval → ℕ
millis t = t.tv_sec * 1000 + t.tv_usec / 1000

-- Clocks of which none is ahead of the time, nor 2 ^ 31 milliseconds behind.
pub record IsClocks (zh : Clocks) (now : Timeval) : Type 0 where
  pub timeout : zh.recv_timeout < 2 ^ 30
  pub received : calculate_interval zh.last_recv now < 2 ^ 31
  pub sent : calculate_interval zh.last_send now < 2 ^ 31

-- A time to wait that ends before the connection times out and before a ping is due.
pub record IsPatient (zh : Clocks) (now tv end' : Timeval) : Type 0 where
  pub usec : tv.tv_usec < 1000000
  pub timeout : millis tv + calculate_interval zh.last_recv now ≤ zh.recv_timeout * 2 / 3
  pub ping : millis tv ≤ zh.recv_timeout / 3
  pub deadline_exact : micros end' ≡ micros now + micros tv

-- A ping is sent just on a connected handle without requests, when nothing was sent for one third of
-- the receive timeout.
pub record Pinging (connected idle : Bool) (zh : Clocks) (now : Timeval) (ping : Bool)
    : Type 0 where
  pub sent :
      ping ≡ true
      → (connected ≡ true)
        × ((idle ≡ true) × (zh.recv_timeout / 3 ≤ calculate_interval zh.last_send now))
  pub unsent :
      ping ≡ false
      → (connected ≡ false)
        ⊎ ((idle ≡ false) ⊎ (calculate_interval zh.last_send now < zh.recv_timeout / 3))

pub data Patience (connected idle : Bool) (ping_rc : ℕ) (zh : Clocks) (now : Timeval)
    : Interest → Type 0 where
  late :
      zh.recv_timeout * 2 / 3 ≤ calculate_interval zh.last_recv now
      → Patience connected idle ping_rc zh now times_out
  pingless :
      connected ≡ true
      → idle ≡ true
      → 2 ^ 31 ≤ ping_rc
      → calculate_interval zh.last_recv now < zh.recv_timeout * 2 / 3
      → zh.recv_timeout / 3 ≤ calculate_interval zh.last_send now
      → Patience connected idle ping_rc zh now (ping_fails ping_rc)
  early :
      {tv next : Timeval} {ping : Bool}
      → calculate_interval zh.last_recv now < zh.recv_timeout * 2 / 3
      → IsPatient zh now tv next
      → Pinging connected idle zh now ping
      → Patience connected idle ping_rc zh now (waits tv ping next)

ping_wait_le :
    (t d : ℕ)
    → t < 2 ^ 30
    → d < 2 ^ 31
    → (if le_int (minus (t / 3) d) 0 then t / 3 else minus (t / 3) d) ≤ t / 3
ping_wait_le t d ht hd = ground arith

send_to_le :
    (connected : Bool) (zh : Clocks) (now : Timeval)
    → IsClocks zh now
    → send_to connected zh now ≤ zh.recv_timeout / 3
unfolding send_to ping_due
send_to_le true zh now c =
    rw (third_pos zh.recv_timeout (omega (arith, c.timeout)))
      (ping_wait_le zh.recv_timeout (calculate_interval zh.last_send now) c.timeout c.sent)
send_to_le false zh now c = rw (third_pos zh.recv_timeout (omega (arith, c.timeout))) (omega arith)

twice_mod : (t : ℕ) → t < 2 ^ 30 → (t * 2) % 2 ^ 32 ≡ t * 2
twice_mod t ht = omega arith

recv_to_pos :
    (zh : Clocks) (now : Timeval)
    → IsClocks zh now
    → recv_to zh now ≡ minus (zh.recv_timeout * 2 / 3) (calculate_interval zh.last_recv now)
unfolding recv_to
recv_to_pos zh now c =
    rw (twice_mod zh.recv_timeout c.timeout)
      (rw (third_pos (zh.recv_timeout * 2) (omega (arith, c.timeout))) refl)

-- A wait of `i` milliseconds.
timeval_IsPatient :
    (zh : Clocks) (now : Timeval) (i : ℕ)
    → IsClocks zh now
    → i + calculate_interval zh.last_recv now ≤ zh.recv_timeout * 2 / 3
    → i ≤ zh.recv_timeout / 3
    → IsPatient zh now (get_timeval i) (deadline now (get_timeval i))
timeval_IsPatient zh now i c recv send = rw (get_timeval_pos i (omega (arith, c.timeout))) (record {
  usec = omega arith;
  timeout = omega arith;
  ping = omega arith;
  deadline_exact = deadline-micros now (record { tv_sec = i / 1000; tv_usec = (i % 1000) * 1000 });
})

-- What is left to wait, when it is not late.
recv_left :
    (zh : Clocks) (now : Timeval)
    → IsClocks zh now
    → le_int (recv_to zh now) 0 ≡ false
    → (recv_to zh now ≡ zh.recv_timeout * 2 / 3 - calculate_interval zh.last_recv now)
      × (calculate_interval zh.last_recv now < zh.recv_timeout * 2 / 3)
recv_left zh now c = rw (recv_to_pos zh now c) (
    minus_pos (zh.recv_timeout * 2 / 3) (calculate_interval zh.last_recv now)
      (omega (arith, c.timeout)) c.received)

waiting :
    (zh : Clocks) (now : Timeval) (r send : ℕ)
    → IsClocks zh now
    → send ≤ zh.recv_timeout / 3
    → (r ≡ zh.recv_timeout * 2 / 3 - calculate_interval zh.last_recv now)
      × (calculate_interval zh.last_recv now < zh.recv_timeout * 2 / 3)
    → IsPatient zh now (get_timeval (lesser r send)) (deadline now (get_timeval (lesser r send)))
waiting zh now r send c send_le (left, lt) =
    let both = lesser_le r send (omega (arith, c.timeout)) (omega (arith, c.timeout)) in
    timeval_IsPatient zh now (lesser r send) c (omega (arith, both)) (omega (arith, both))

ping_due_pos :
    (zh : Clocks) (now : Timeval)
    → IsClocks zh now
    → ping_due zh now ≡ minus (zh.recv_timeout / 3) (calculate_interval zh.last_send now)
unfolding ping_due
ping_due_pos zh now c = rw (third_pos zh.recv_timeout (omega (arith, c.timeout))) refl

due_iff :
    (zh : Clocks) (now : Timeval)
    → IsClocks zh now
    → (le_int (ping_due zh now) 0 ≡ true)
        × (zh.recv_timeout / 3 ≤ calculate_interval zh.last_send now)
      ⊎ (le_int (ping_due zh now) 0 ≡ false)
        × (calculate_interval zh.last_send now < zh.recv_timeout / 3)
due_iff zh now c = rw (ping_due_pos zh now c) (
    due (zh.recv_timeout / 3) (calculate_interval zh.last_send now) (omega (arith, c.timeout))
      c.sent)
  where
    due :
        (a b : ℕ)
        → a < 2 ^ 31
        → b < 2 ^ 31
        → (le_int (minus a b) 0 ≡ true) × (a ≤ b) ⊎ (le_int (minus a b) 0 ≡ false) × (b < a)
    due a b ha hb = elim (Bool-cases (le_int (minus a b) 0)) [
      | inl e ↦ inl (e, minus_late a b ha hb e)
      | inr e ↦ inr (e, (minus_pos a b ha hb e).1)
    ]

pings-Pinging :
    (connected idle : Bool) (zh : Clocks) (now : Timeval)
    → IsClocks zh now
    → Pinging connected idle zh now (pings connected idle zh now)
pings-Pinging false idle zh now c = record { sent = λ e. absurd cc; unsent = λ e. inl refl }
pings-Pinging true false zh now c = elim (due_iff zh now c) [
  | inl (e, h) ↦ rw e (record { sent = λ x. absurd cc; unsent = λ x. inr (inl refl) })
  | inr (e, h) ↦ rw e (record { sent = λ x. absurd cc; unsent = λ x. inr (inl refl) })
]
pings-Pinging true true zh now c = elim (due_iff zh now c) [
  | inl (e, h) ↦ rw e (record { sent = λ x. (refl, (refl, h)); unsent = λ x. absurd cc })
  | inr (e, h) ↦ rw e (record { sent = λ x. absurd cc; unsent = λ x. inr (inr h) })
]

-- On an open socket, zookeeper_interest says that the connection has timed out only when two
-- thirds of the receive timeout have gone by since the last packet. It ends with the code of
-- send_ping only when that is below 0 and a ping was due: on a connected handle without requests
-- that has sent nothing for one third of the receive timeout. Else it asks for a wait that,
-- together with the time since the last packet, is at most two thirds of the receive timeout, and
-- that is at most one third of it, with less than 1000000 microseconds; the next deadline is the
-- time and this wait, and a ping has been sent just when it was due. The receive timeout is below
-- 2 ^ 30, and no clock is ahead of the time or 2 ^ 31 milliseconds behind.
pub interest-Patience :
    (connected idle : Bool) (ping_rc : ℕ) (zh : Clocks) (now : Timeval)
    → IsClocks zh now
    → Patience connected idle ping_rc zh now (interest connected idle ping_rc zh now)
unfolding interest
interest-Patience connected idle ping_rc zh now c = elim (Bool-cases (le_int (recv_to zh now) 0)) [
  | inl over ↦ rw over (
      late (
        minus_late (zh.recv_timeout * 2 / 3) (calculate_interval zh.last_recv now)
          (omega (arith, c.timeout)) c.received
          (subst (λ r. le_int r 0 ≡ true) (recv_to_pos zh now c) over)))
  | inr pos ↦ rw pos (
      on_time (recv_left zh now c pos) (pings connected idle zh now)
        (pings-Pinging connected idle zh now c) (Bool-cases (is_neg ping_rc)))
]
  where
    on_time :
        (recv_to zh now ≡ zh.recv_timeout * 2 / 3 - calculate_interval zh.last_recv now)
          × (calculate_interval zh.last_recv now < zh.recv_timeout * 2 / 3)
        → (ping : Bool) → Pinging connected idle zh now ping
        → (is_neg ping_rc ≡ true) ⊎ (is_neg ping_rc ≡ false)
        → Patience connected idle ping_rc zh now (
            if ping && is_neg ping_rc
            then ping_fails ping_rc
            else waits
                (get_timeval (lesser (recv_to zh now) (send_to connected zh now)))
                ping
                (deadline now (get_timeval (lesser (recv_to zh now) (send_to connected zh now)))))
    on_time left true p (inl neg) =
        rw neg (pingless (p.sent refl).0 (p.sent refl).1.0 (ground arith) left.1 (p.sent refl).1.1)
    on_time left true p (inr pos) = rw pos (
        early left.1
          (waiting zh now (recv_to zh now) (send_to connected zh now) c
            (send_to_le connected zh now c) left)
          p)
    on_time left false p either =
        early left.1
          (waiting zh now (recv_to zh now) (send_to connected zh now) c
            (send_to_le connected zh now c) left)
          p
