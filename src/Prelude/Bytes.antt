-- ===== src/Prelude/Bytes.antt =====
-- Numbers as bytes in memory: `le` is the layout of a machine word on a little-endian host.
use ext_zookeeper.Prelude.{
  ℕ, zero, suc, ◌+◌, ◌*◌, ◌/◌, ◌%◌, ◌^◌, ◌<◌, ◌≡◌, refl, ap, ap₂, ◌∙◌, arith,
}
use ext_zookeeper.Prelude.{List, [], ◌∷◌, reverse, length, length-reverse, All, All-reverse}
use mathlib.Core.List.{reverse-reverse}
use native.Mathlib.Nat.{pow-suc}

abbrev pub IsByte : ℕ → Type 0
IsByte b = b < 256

abbrev pub IsInt32 : ℕ → Type 0
IsInt32 v = v < 2 ^ 32

abbrev pub IsInt64 : ℕ → Type 0
IsInt64 v = v < 2 ^ 64

-- The `n` lowest bytes of `v`, lowest first.
abbrev pub le : ℕ → ℕ → List ℕ
le zero v = []
le (suc n) v = (v % 256) ∷ le n (v / 256)

abbrev pub of_le : List ℕ → ℕ
of_le [] = 0
of_le (b ∷ bs) = b + 256 * of_le bs

-- The `n` lowest bytes of `v`, highest first: network order.
abbrev pub be : ℕ → ℕ → List ℕ
be n v = reverse (le n v)

pub length-le : (n v : ℕ) → length (le n v) ≡ n
length-le zero v = refl
length-le (suc n) v = ap suc (length-le n (v / 256))

pub length-be : (n v : ℕ) → length (be n v) ≡ n
length-be n v = length-reverse (le n v) ∙ length-le n v

pub le-IsByte : (n v : ℕ) → All IsByte (le n v)
le-IsByte zero v = tt
le-IsByte (suc n) v = (omega arith, le-IsByte n (v / 256))

pub be-IsByte : (n v : ℕ) → All IsByte (be n v)
be-IsByte n v = All-reverse IsByte (le n v) (le-IsByte n v)

pub le-of_le : (bs : List ℕ) → All IsByte bs → le (length bs) (of_le bs) ≡ bs
le-of_le [] h = refl
le-of_le (b ∷ bs) h = ap₂ ◌∷◌ (omega arith) (rw next (le-of_le bs h.1))
  where
    next : (b + 256 * of_le bs) / 256 ≡ of_le bs
    next = omega arith

pub of_le-le : (n v : ℕ) → v < 256 ^ n → of_le (le n v) ≡ v
of_le-le zero v h = omega arith
of_le-le (suc n) v h = omega (arith, of_le-le n (v / 256) (omega (arith, pow-suc 256 n)))

-- Network order read back.
pub of_be-be : (n v : ℕ) → v < 256 ^ n → of_le (reverse (be n v)) ≡ v
of_be-be n v h = rw (reverse-reverse (le n v)) (of_le-le n v h)

pub le-injective : (n : ℕ) (bs : List ℕ) → All IsByte bs → length bs ≡ n → le n (of_le bs) ≡ bs
le-injective n bs h e = rw (← e) (le-of_le bs h)

pub of_le_fits : (bs : List ℕ) → All IsByte bs → of_le bs < 256 ^ length bs
of_le_fits [] h = omega arith
of_le_fits (b ∷ bs) h = omega (arith, of_le_fits bs h.1, pow-suc 256 (length bs))
