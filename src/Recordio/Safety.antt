-- ===== src/Recordio/Safety.antt =====
-- The deserializers on any bytes at all: they stay inside the block that they were given.
use ext_zookeeper.Prelude.{
  ℕ, ◌+◌, ◌^◌, ◌≤◌, ◌<◌, ◌≡◌, refl, Bool, true, false, none, some, List, length, take, drop, ltb,
  ◌==◌, if◌then◌else◌, arith, Bool-cases, inl, inr,
}
use ext_zookeeper.Recordio.Defs.{
  BuffStruct, Rc, good, fail, enomem, e2big, einval, Archive, next, ◌>>=◌, pure, fetch,
}
use ext_zookeeper.Recordio.Words.{is_neg, negone}
use ext_zookeeper.Recordio.Ops.{
  Heap, read, room_lt_size, room_lt_int, ia_deserialize_int, ia_deserialize_long,
  ia_deserialize_bool, ia_deserialize_buffer, ia_deserialize_string, malloc_size,
}

-- An input archive whose block holds the `len` bytes that it speaks of.
pub record IsBounded (s : BuffStruct) : Type 0 where
  pub block : List ℕ
  pub held : s.buffer ≡ some block
  pub inside : s.len ≤ length block
  pub within : s.off ≤ s.len
  pub fits : s.len < 2 ^ 31

-- A run that ends, with a value or an error, and leaves the archive in bounds.
pub record Contained {A : Type 0} (g : Archive A) (s : BuffStruct) : Type 0 where
  pub rc : Rc A
  pub result : BuffStruct
  pub runs : g s ≡ some (rc, result)
  pub keeps : IsBounded result

abbrev pub IsContained : {A : Type 0} → Archive A → Type 0
IsContained g = (s : BuffStruct) → IsBounded s → Contained g s

-- The allocator refuses what no address space holds.
abbrev pub Refuses : Heap → Type 0
Refuses heap = (n : ℕ) → 2 ^ 63 ≤ n → heap.can_alloc n ≡ false

module _ {A B : Type 0} (g : Archive A) (f : A → Archive B) where
  resume :
      (hf : (a : A) → IsContained (f a)) (s : BuffStruct) (rc : Rc A) (s' : BuffStruct)
      → g s ≡ some (rc, s')
      → IsBounded s'
      → Contained (g >>= f) s
  resume hf s (good a) s' e b =
      let w : Contained (f a) s' = hf a s' b in
      record { rc = w.rc; result = w.result; runs = rw e w.runs; keeps = w.keeps }
  resume hf s (fail x) s' e b = record { rc = fail x; result = s'; runs = rw e; keeps = b }

  pub IsContained-bind : IsContained g → ((a : A) → IsContained (f a)) → IsContained (g >>= f)
  IsContained-bind hg hf s b =
      let w : Contained g s = hg s b in resume hf s w.rc w.result w.runs w.keeps

pub IsContained-pure : {A : Type 0} (a : A) → IsContained (pure a)
IsContained-pure a s b = record { rc = good a; result = s; runs = refl; keeps = b }

read_lem :
    (n : ℕ) (s : BuffStruct) (b : IsBounded s)
    → s.off + n ≤ s.len
    → read n s ≡ some (good (take n (drop s.off b.block)), record s { off = s.off + n })
unfolding read fetch
read_lem n s b h = ground (arith, b.held, b.inside)

-- A test for room, a read, and a value made of what was read.
checked-IsContained :
    {A : Type 0} (test : BuffStruct → Bool) (n : ℕ) (f : List ℕ → A)
    → ((s : BuffStruct) → IsBounded s → test s ≡ ltb s.len (s.off + n))
    → IsContained
        (λ s. if test s then some (fail e2big, s) else next (λ bs. pure (f bs)) (read n s))
checked-IsContained test n f reads s b = elim (Bool-cases (ltb s.len (s.off + n))) [
  | inl short ↦ record { rc = fail e2big; result = s; runs = rw (reads s b, short); keeps = b }
  | inr room ↦ record {
    rc = good (f (take n (drop s.off b.block)));
    result = record s { off = s.off + n };
    runs = rw (reads s b, room, read_lem n s b (ground arith));
    keeps = record {
      block = b.block;
      held = b.held;
      inside = b.inside;
      within = ground arith;
      fits = b.fits;
    };
  }
]

size_test :
    (n : ℕ) (s : BuffStruct) → n ≤ 8 → IsBounded s → room_lt_size s n ≡ ltb s.len (s.off + n)
size_test n s hn b = ground (arith, b.within, b.fits)

pub ia_deserialize_int-IsContained : IsContained ia_deserialize_int
unfolding ia_deserialize_int
ia_deserialize_int-IsContained = checked-IsContained _ 4 _ (λ s b. size_test 4 s (omega arith) b)

pub ia_deserialize_long-IsContained : IsContained ia_deserialize_long
unfolding ia_deserialize_long
ia_deserialize_long-IsContained = checked-IsContained _ 8 _ (λ s b. size_test 8 s (omega arith) b)

pub ia_deserialize_bool-IsContained : IsContained ia_deserialize_bool
unfolding ia_deserialize_bool
ia_deserialize_bool-IsContained = checked-IsContained _ 1 _ (λ s b. refl)

module _ {A : Type 0} (test : BuffStruct → Bool) (m k : Archive A) where
  Contained-if :
      (s : BuffStruct)
      → (test s ≡ true → Contained m s)
      → (test s ≡ false → Contained k s)
      → Contained (λ x. if test x then m x else k x) s
  Contained-if s ht hf = elim (Bool-cases (test s)) [
    | inl e ↦
        let w : Contained m s = ht e in
        record { rc = w.rc; result = w.result; runs = rw e w.runs; keeps = w.keeps }
    | inr e ↦
        let w : Contained k s = hf e in
        record { rc = w.rc; result = w.result; runs = rw e w.runs; keeps = w.keeps }
  ]

stop_lem : {A : Type 0} (rc : Rc A) (s : BuffStruct) → IsBounded s → Contained (λ x. some (rc, x)) s
stop_lem rc s b = record { rc = rc; result = s; runs = refl; keeps = b }

-- A block of a length that is not negative and that the archive still has.
take_block :
    {A : Type 0} (f : List ℕ → A) (n len : ℕ) (s : BuffStruct)
    → IsBounded s
    → room_lt_int s len ≡ false
    → is_neg len ≡ false
    → n ≡ len
    → Contained (λ x. next (λ bs. pure (f bs)) (read n x)) s
take_block f n len s b room sign e = record {
  rc = good (f (take n (drop s.off b.block)));
  result = record s { off = s.off + n };
  runs = rw (read_lem n s b (ground arith));
  keeps = record {
    block = b.block;
    held = b.held;
    inside = b.inside;
    within = ground arith;
    fits = b.fits;
  };
}

module _ (heap : Heap) (refuses : Refuses heap) where
  -- On any input, ia_deserialize_string reads inside the block only and leaves the archive as
  -- sound as it was: when the archive's length is at most that of its block and below 2 ^ 31, its
  -- offset within it, and the allocator refuses 2 ^ 63 bytes and more.
  pub ia_deserialize_string-IsContained : IsContained (ia_deserialize_string heap)
  unfolding ia_deserialize_string
  ia_deserialize_string-IsContained =
      IsContained-bind ia_deserialize_int _ ia_deserialize_int-IsContained λ len s b.
        Contained-if (λ x. room_lt_int x len) _ _ s (λ short. stop_lem (fail e2big) s b)
          λ room.
            Contained-if (λ x. is_neg len) _ _ s (λ neg. stop_lem (fail einval) s b)
              λ sign.
                Contained-if (λ x. heap.can_alloc (len + 1)) _ _ s
                  (λ given. take_block some len len s b room sign refl)
                  (λ refused. stop_lem (fail enomem) s b)

  -- On any input, ia_deserialize_buffer reads inside the block only and leaves the archive as
  -- sound as it was: when the archive's length is at most that of its block and below 2 ^ 31, its
  -- offset within it, and the allocator refuses 2 ^ 63 bytes and more.
  pub ia_deserialize_buffer-IsContained : IsContained (ia_deserialize_buffer heap)
  unfolding ia_deserialize_buffer
  ia_deserialize_buffer-IsContained =
      IsContained-bind ia_deserialize_int _ ia_deserialize_int-IsContained λ len s b.
        Contained-if (λ x. room_lt_int x len) _ _ s (λ short. stop_lem (fail e2big) s b)
          λ room.
            Contained-if (λ x. len == negone) _ _ s
              (λ null. stop_lem (good (record { len = len; buff = none })) s b)
              λ block.
                Contained-if (λ x. heap.can_alloc (malloc_size len)) _ _ s
                  (λ given. elim (Bool-cases (is_neg len)) [
                    | inl neg ↦ absurd (huge len neg given)
                    | inr sign ↦
                        take_block (λ bs. record { len = len; buff = some bs }) (malloc_size len)
                          len s b room sign (rw sign)
                  ])
                  (λ refused. stop_lem (fail enomem) s b)
    where
      huge : (len : ℕ) → is_neg len ≡ true → heap.can_alloc (malloc_size len) ≡ true → ⊥
      huge len neg given = ground (arith, refuses (malloc_size len))
