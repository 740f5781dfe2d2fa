-- ===== src/Recordio/Growth.antt =====
-- resize_buffer: the doubling loop ends, the block grows in place, and writes stay inside it.
use ext_zookeeper.Prelude.{
  ℕ, zero, suc, ◌+◌, ◌*◌, ◌^◌, ◌≤◌, ◌<◌, ◌≡◌, refl, Bool, true, some, List, ◌++◌, length, take,
  drop, ltb, length-append, length-take, length-drop, arith, ap, ◌∙◌, take_short, take-append_left,
  take_all, Bool-cases, inl, inr,
}
use ext_zookeeper.Recordio.Defs.{BuffStruct, good, ◌>>◌, store}
use ext_zookeeper.Recordio.Ops.{Heap, grow, resize_buffer, write, realloc, reserve}
use ext_zookeeper.Recordio.Spec.{IsOpen, written, Allocates, Writes}
use mathlib.Core.List.{append_assoc}
use native.Mathlib.Nat.{pow-suc}

-- From a positive length the loop of resize_buffer ends within the rounds that the fuel allows,
-- without overflow, when the new length is at most 2 ^ 30 and at most that many doublings away.
-- The length that it finds is enough and at least the old one, it is less than twice the new
-- length if the old one was too small, and the old one if that was enough.
pub grow_total :
    (fuel len newlen : ℕ)
    → 1 ≤ len
    → newlen ≤ 2 ^ 30
    → newlen ≤ len * 2 ^ fuel
    → (r : ℕ) × (grow (suc fuel) len newlen ≡ some r)
      × (newlen ≤ r)
      × (len ≤ r)
      × (len < newlen → r < 2 * newlen)
      × (newlen ≤ len → r ≡ len)
unfolding grow
grow_total zero len newlen h1 h2 h3 =
    (len, ground arith, omega arith, omega arith, omega arith, λ h. refl)
grow_total (suc fuel) len newlen h1 h2 h3 = elim (Bool-cases (ltb len newlen)) [
  | inl more ↦
      let (r, e, a, b, c, d) =
        grow_total fuel (len * 2) newlen (omega arith) h2
          (omega (arith, ap (λ (t : ℕ). len * t) (pow-suc 2 fuel))) in
      (r, ground (arith, e), a, omega arith, ground (arith, c, d), ground arith)
  | inr enough ↦ (len, ground arith, ground arith, omega arith, ground arith, λ h. refl)
]

-- A `write` inside the block.
pub write_lem :
    (s : BuffStruct) (block src : List ℕ)
    → s.buffer ≡ some block
    → s.off + length src ≤ length block
    → write src s
      ≡ some (
        good tt,
        record s {
          off = s.off + length src;
          buffer = some (take s.off block ++ (src ++ drop (s.off + length src) block));
        },
      )
unfolding write store
write_lem s block src e h = ground arith

module _ (block src : List ℕ) (k : ℕ) (h : k + length src ≤ length block) where
  pub length-stored : length (take k block ++ (src ++ drop (k + length src) block)) ≡ length block
  length-stored = omega (
    arith,
    length-append (take k block) (src ++ drop (k + length src) block),
    length-append src (drop (k + length src) block),
    length-take k block,
    length-drop (k + length src) block,
  )

  pub take-stored :
      take (k + length src) (take k block ++ (src ++ drop (k + length src) block))
      ≡ take k block ++ src
  take-stored = rw (← append_assoc (take k block) src (drop (k + length src) block)) (
      take-append_left (take k block ++ src) _ (k + length src)
        (omega (arith, length-append (take k block) src, length-take k block)))

module _ (heap : Heap) (allocates : Allocates heap) where
  length-realloc :
      (block : List ℕ) (n : ℕ) → length block ≤ n → length (realloc heap (some block) n) ≡ n
  length-realloc block n h = omega (
    arith,
    length-append (take n block) (drop (length block) (heap.blank n)),
    length-take n block,
    length-drop (length block) (heap.blank n),
    heap.length-blank n,
  )

  take-realloc :
      (block : List ℕ) (n k : ℕ)
      → length block ≤ n
      → k ≤ length block
      → take k (realloc heap (some block) n) ≡ take k block
  take-realloc block n k h hk = rw (take_all block n h) (take_short block _ k hk)

  resize_buffer_run :
      (s : BuffStruct) (block : List ℕ) (newlen r : ℕ)
      → s.buffer ≡ some block
      → newlen < 2 ^ 31
      → grow 32 s.len newlen ≡ some r
      → heap.can_alloc r ≡ true
      → resize_buffer heap newlen s
        ≡ some (good tt, record s { len = r; buffer = some (realloc heap (some block) r) })
  unfolding resize_buffer
  resize_buffer_run s block newlen r held h e a = ground arith

  -- A successful resize: the block is longer, and what is written stays.
  resize_buffer_lem :
      (s : BuffStruct) (newlen : ℕ)
      → IsOpen s
      → s.len < newlen
      → newlen ≤ 2 ^ 29
      → (r : ℕ) × (block : List ℕ) × (resize_buffer heap newlen s
          ≡ some (good tt, record s { len = r; buffer = some block }))
        × (length block ≡ r)
        × (take s.off block ≡ written s)
        × (newlen ≤ r)
        × (r < 2 * newlen)
  resize_buffer_lem s newlen o h1 h2 =
      let (r, e, a, b, c, d) =
        grow_total 31 s.len newlen (omega (arith, o.least)) (omega arith)
          (omega (arith, o.least)) in
      (
        r,
        realloc heap (some o.bytes) r,
        resize_buffer_run s o.bytes newlen r o.held (omega arith) e
            (allocates r (omega (arith, c h1))),
        length-realloc o.bytes r (omega (arith, o.full, b)),
        rw o.held (
            take-realloc o.bytes r s.off (omega (arith, o.full, b))
              (omega (arith, o.full, o.within))),
        a,
        c h1,
      )

  -- The archive after a write of `src` into the block.
  stored_IsOpen :
      (s : BuffStruct) (block src : List ℕ) (r : ℕ)
      → length block ≡ r
      → s.off + length src ≤ r
      → 128 ≤ r
      → r ≤ 4 * (s.off + length src) + 128
      → IsOpen (record {
        len = r;
        off = s.off + length src;
        buffer = some (take s.off block ++ (src ++ drop (s.off + length src) block));
      })
  stored_IsOpen s block src r e h l b = record {
    bytes = take s.off block ++ (src ++ drop (s.off + length src) block);
    held = refl;
    full = length-stored block src s.off (omega arith) ∙ e;
    within = h;
    least = l;
    slack = b;
  }

  -- The common pattern of the serializers: make room for `src`, then copy it.
  pub reserve-Writes :
      (test : BuffStruct → Bool) (src : List ℕ)
      → ((s : BuffStruct)
          → IsOpen s
          → s.off + length src ≤ 2 ^ 28
          → test s ≡ ltb s.len (s.off + length src))
      → Writes (reserve heap test (length src) >> write src) src
  reserve-Writes test src reads s o h = elim (Bool-cases (ltb s.len (s.off + length src))) [
    | inl short ↦
        let (r, block, e, full, kept, a, b) =
          resize_buffer_lem s (s.len + length src) o (ground arith) (ground arith) in
        record {
          result = record {
            len = r;
            off = s.off + length src;
            buffer = some (take s.off block ++ (src ++ drop (s.off + length src) block));
          };
          runs =
              rw (reads s o h, short, e)
                (write_lem (record s { len = r; buffer = some block }) block src refl
                  (ground (arith, o.within)));
          keeps =
              stored_IsOpen s block src r full (ground (arith, o.within)) (omega (arith, o.least))
                (ground arith);
          appends =
              take-stored block src s.off (ground (arith, o.within)) ∙ ap (λ w. w ++ src) kept;
          moves = refl;
        }
    | inr room ↦ record {
      result = record s {
        off = s.off + length src;
        buffer = some (take s.off o.bytes ++ (src ++ drop (s.off + length src) o.bytes));
      };
      runs = rw (reads s o h, room) (write_lem s o.bytes src o.held (ground (arith, o.full)));
      keeps =
          stored_IsOpen s o.bytes src s.len o.full (ground arith) o.least (omega (arith, o.slack));
      appends = rw o.held (take-stored o.bytes src s.off (ground (arith, o.full)));
      moves = refl;
    }
  ]
