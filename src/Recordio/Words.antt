-- ===== src/Recordio/Words.antt =====
-- Byte order: htonl and ntohl of the C library, and zoo_htonll of recordio.c, on a little-endian
-- host. `le n v` are the bytes of the word `v` in memory.
use ext_zookeeper.Prelude.{
  ℕ, zero, suc, ◌+◌, ◌-◌, ◌^◌, ◌≡◌, refl, Bool, List, reverse, get_or, set, leb,
}
use ext_zookeeper.Prelude.Bytes.{le, of_le, be, length-be, be-IsByte, le-injective}

-- The C library's htonl, the same as its ntohl: the four bytes in memory the other way round.
abbrev pub htonl : ℕ → ℕ
htonl v = of_le (reverse (le 4 v))

-- The loop of zoo_htonll on the bytes `s` of the word; `k` rounds are left, and `i` is 4 - k.
unfoldable pub swap_loop : ℕ → ℕ → List ℕ → List ℕ
swap_loop zero i s = s
swap_loop (suc k) i s =
    let tmp = get_or s i 0 in
    swap_loop k (i + 1) (set (set s i (get_or s (8 - i - 1) 0)) (8 - i - 1) tmp)

unfoldable pub zoo_htonll : ℕ → ℕ
zoo_htonll v = of_le (swap_loop 4 0 (le 8 v))

-- A signed 32-bit word is negative.
abbrev pub is_neg : ℕ → Bool
is_neg w = leb (2 ^ 31) w

-- The word of -1.
abbrev pub negone : ℕ
negone = 2 ^ 32 - 1

swap_loop-reverse : (v : ℕ) → swap_loop 4 0 (le 8 v) ≡ reverse (le 8 v)
unfolding swap_loop
swap_loop-reverse v = refl

-- What a program that stores `htonl v` or `zoo_htonll v` leaves in memory.
pub le-htonl : (v : ℕ) → le 4 (htonl v) ≡ be 4 v
le-htonl v = le-injective 4 (be 4 v) (be-IsByte 4 v) (length-be 4 v)

pub le-zoo_htonll : (v : ℕ) → le 8 (zoo_htonll v) ≡ be 8 v
unfolding zoo_htonll
le-zoo_htonll v = rw (swap_loop-reverse v) (le-injective 8 (be 8 v) (be-IsByte 8 v) (length-be 8 v))
