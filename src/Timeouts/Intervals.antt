-- ===== src/Timeouts/Intervals.antt =====
-- How exact an interval is.
use ext_zookeeper.Prelude.{
  ℕ, ◌+◌, ◌-◌, ◌*◌, ◌/◌, ◌%◌, ◌^◌, ◌≤◌, ◌<◌, ◌≡◌, arith, le→leb, lt→not_leb, ◌⊎◌, inl, inr,
}
use ext_zookeeper.Timeouts.Defs.{Timeval, calculate_interval}

-- Microseconds since the epoch.
abbrev pub micros : Timeval → ℕ
micros t = t.tv_sec * 1000000 + t.tv_usec

-- A time as gettimeofday gives it.
pub record IsTime (t : Timeval) : Type 0 where
  pub sec : t.tv_sec < 2 ^ 40
  pub usec : t.tv_usec < 1000000

-- An interval is an int that is not below 0, and right to less than a millisecond.
pub record IsClose (exact interval : ℕ) : Type 0 where
  pub int : interval < 2 ^ 31
  pub below : exact < interval * 1000 + 1000
  pub above : interval * 1000 < exact + 1000

le_or_lt : (a b : ℕ) → (a ≤ b) ⊎ (b < a)
le_or_lt a b = ground arith

-- The sum of the fields, where the microseconds do not go down.
interval_up :
    (s v e u : ℕ)
    → s < 2 ^ 40
    → v ≤ u
    → u < 1000000
    → s * 1000000 + v ≤ e * 1000000 + u
    → (e * 1000000 + u) - (s * 1000000 + v) < (2 ^ 31 - 1) * 1000
    → ((e + (2 ^ 64 - s)) * 1000 + (u - v) / 1000) % 2 ^ 32 ≡ (e - s) * 1000 + (u - v) / 1000
interval_up s v e u hs up hu order small = omega arith

-- The sum of the fields, where the microseconds go down.
interval_down :
    (s v e u : ℕ)
    → s < 2 ^ 40
    → u < v
    → v < 1000000
    → s * 1000000 + v ≤ e * 1000000 + u
    → (e * 1000000 + u) - (s * 1000000 + v) < (2 ^ 31 - 1) * 1000
    → ((e + (2 ^ 64 - s)) * 1000 + (2 ^ 64 - (v - u) / 1000)) % 2 ^ 32
      ≡ (e - s) * 1000 - (v - u) / 1000
interval_down s v e u hs down hv order small = omega arith

-- Such a sum is as close as it should be.
IsClose-up :
    (s v e u : ℕ)
    → v ≤ u
    → s * 1000000 + v ≤ e * 1000000 + u
    → u < 1000000
    → (e * 1000000 + u) - (s * 1000000 + v) < (2 ^ 31 - 1) * 1000
    → IsClose ((e * 1000000 + u) - (s * 1000000 + v)) ((e - s) * 1000 + (u - v) / 1000)
IsClose-up s v e u up order hu small = record {
  int = omega arith;
  below = omega arith;
  above = omega arith;
}

IsClose-down :
    (s v e u : ℕ)
    → u < v
    → s * 1000000 + v ≤ e * 1000000 + u
    → v < 1000000
    → (e * 1000000 + u) - (s * 1000000 + v) < (2 ^ 31 - 1) * 1000
    → IsClose ((e * 1000000 + u) - (s * 1000000 + v)) ((e - s) * 1000 - (v - u) / 1000)
IsClose-down s v e u down order hv small = record {
  int = omega arith;
  below = omega arith;
  above = omega arith;
}

-- calculate_interval is the time between two times of gettimeofday to less than a millisecond,
-- also where the microseconds go down, and is an int that is not below 0, when the second is not
-- before the first and less than 2 ^ 31 - 1 milliseconds after it.
pub calculate_interval-IsClose :
    (start end' : Timeval)
    → IsTime start
    → IsTime end'
    → micros start ≤ micros end'
    → micros end' - micros start < (2 ^ 31 - 1) * 1000
    → IsClose (micros end' - micros start) (calculate_interval start end')
unfolding calculate_interval
calculate_interval-IsClose start end' s e order small = elim (le_or_lt start.tv_usec end'.tv_usec) [
  | inl up ↦ rw (le→leb start.tv_usec end'.tv_usec up) (
      rw
        (interval_up start.tv_sec start.tv_usec end'.tv_sec end'.tv_usec s.sec up e.usec order
          small)
        (IsClose-up start.tv_sec start.tv_usec end'.tv_sec end'.tv_usec up order e.usec small))
  | inr down ↦ rw (lt→not_leb start.tv_usec end'.tv_usec down) (
      rw
        (interval_down start.tv_sec start.tv_usec end'.tv_sec end'.tv_usec s.sec down s.usec order
          small)
        (IsClose-down start.tv_sec start.tv_usec end'.tv_sec end'.tv_usec down order s.usec small))
]
