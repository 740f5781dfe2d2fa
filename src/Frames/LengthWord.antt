-- ===== src/Frames/LengthWord.antt =====
-- The word of a length that recv_buffer overwrites byte by byte.
use ext_zookeeper.Prelude.{
  ℕ, ◌+◌, ◌^◌, ◌≤◌, ◌<◌, ◌≡◌, refl, sym, ◌∙◌, ap, some, List, ◌++◌, length, take, drop, get_or, All,
  le→leb, arith, length-take, All-append, All-take, All-drop, get_or-drop, get_or_past, take_all,
  reverse, subst,
}
use mathlib.Core.List.{reverse-reverse}
use ext_zookeeper.Recordio.Growth.{length-stored, take-stored}
use ext_zookeeper.Prelude.Bytes.{
  IsByte, le, of_le, be, length-le, le-IsByte, le-injective, of_le_fits, length-be, be-IsByte,
}
use ext_zookeeper.Recordio.{htonl, store, le-htonl}

pub htonl_fits : (v : ℕ) → htonl v < 2 ^ 32
htonl_fits v = subst (λ n. htonl v < 256 ^ n) (length-be 4 v) (of_le_fits (be 4 v) (be-IsByte 4 v))

-- The bytes `src` stored in a block.
pub record Stored (at : ℕ) (src block : List ℕ) : Type 0 where
  pub result : List ℕ
  pub runs : store at src block ≡ some result
  pub shape : result ≡ take at block ++ (src ++ drop (at + length src) block)
  pub full : length result ≡ length block
  pub front : take (at + length src) result ≡ take at block ++ src

pub store-Stored :
    (at : ℕ) (src block : List ℕ) → at + length src ≤ length block → Stored at src block
unfolding store
store-Stored at src block h = record {
  result = take at block ++ (src ++ drop (at + length src) block);
  runs = rw (store, le→leb _ _ h);
  shape = refl;
  full = length-stored block src at h;
  front = take-stored block src at h;
}

module _ (v at : ℕ) (src : List ℕ) (bytes : All IsByte src) (h : at + length src ≤ 4) where
  -- The word `v` with some of its bytes overwritten.
  pub overwritten : Stored at src (le 4 v)
  overwritten = store-Stored at src (le 4 v) (omega (arith, length-le 4 v, h))

  overwritten-IsByte : All IsByte overwritten.result
  overwritten-IsByte = rw overwritten.shape (
      All-append IsByte (take at (le 4 v)) _ (All-take IsByte at (le 4 v) (le-IsByte 4 v)) (
        All-append IsByte src _ bytes (All-drop IsByte (at + length src) (le 4 v) (le-IsByte 4 v))))

  length-overwritten : length overwritten.result ≡ 4
  length-overwritten = overwritten.full ∙ length-le 4 v

  pub le-overwritten : le 4 (of_le overwritten.result) ≡ overwritten.result
  le-overwritten = le-injective 4 overwritten.result overwritten-IsByte length-overwritten

  pub overwritten_fits : of_le overwritten.result < 2 ^ 32
  overwritten_fits =
      subst (λ n. of_le overwritten.result < 256 ^ n) length-overwritten
        (of_le_fits overwritten.result overwritten-IsByte)

  -- The last byte is there until all of the word is written.
  pub overwritten_top :
      at + length src < 4 → get_or (le 4 (of_le overwritten.result)) 3 0 ≡ get_or (le 4 v) 3 0
  overwritten_top short =
      ap (λ l. get_or l 3 0) (le-overwritten ∙ overwritten.shape)
      ∙ (get_or_past (take at (le 4 v)) _ 3 0 (omega (arith, length-take at (le 4 v), h))
          ∙ get_or_past src _ _ 0 (omega (arith, length-take at (le 4 v), length-le 4 v, h))
          ∙ get_or-drop (at + length src) _ (le 4 v) 0
          ∙ ap (λ k. get_or (le 4 v) k 0) {y = 3}
              (omega (arith, length-take at (le 4 v), length-le 4 v)))

  -- All of it is written: what stands there is the length in network order.
  pub be-overwritten :
      at + length src ≡ 4 → be 4 (htonl (of_le overwritten.result)) ≡ take at (le 4 v) ++ src
  be-overwritten e =
      ap reverse (le-htonl (of_le overwritten.result))
      ∙ reverse-reverse (le 4 (of_le overwritten.result))
      ∙ le-overwritten
      ∙ (sym (take_all overwritten.result 4 (omega (arith, length-overwritten)))
          ∙ subst (λ n. take n overwritten.result ≡ take at (le 4 v) ++ src) e overwritten.front)
