-- ===== src/Recordio/Spec.antt =====
-- What it means that a function of recordio.c or zookeeper.jute.c writes or reads some bytes.
use ext_zookeeper.Prelude.{
  ℕ, ◌+◌, ◌*◌, ◌^◌, ◌≤◌, ◌<◌, ◌≡◌, refl, true, none, some, List, [], ◌++◌, length, take,
  length-append, arith,
}
use ext_zookeeper.Recordio.Defs.{BuffStruct, good, Archive, ◌>>=◌, ◌>>◌, pure}
use ext_zookeeper.Recordio.Ops.{Heap}
use mathlib.Core.List.{append-nil, append_assoc}

-- An output archive that can be written to: its block is as long as `len` says, and `len` has not
-- run away from what is written.
pub record IsOpen (s : BuffStruct) : Type 0 where
  pub bytes : List ℕ
  pub held : s.buffer ≡ some bytes
  pub full : length bytes ≡ s.len
  pub within : s.off ≤ s.len
  pub least : 128 ≤ s.len
  pub slack : s.len ≤ 4 * s.off + 128

-- The bytes in front of `off`.
abbrev pub written : BuffStruct → List ℕ
written s = elim s.buffer [ none ↦ [] | some block ↦ take s.off block ]

-- The allocator gives every block whose size fits an int.
abbrev pub Allocates : Heap → Type 0
Allocates heap = (n : ℕ) → n < 2 ^ 31 → heap.can_alloc n ≡ true

-- `m` succeeds on every open archive with room below 2 ^ 28, and appends just `bs`.
pub record Written (m : Archive (Unit {0})) (bs : List ℕ) (s : BuffStruct) : Type 0 where
  pub result : BuffStruct
  pub runs : m s ≡ some (good tt, result)
  pub keeps : IsOpen result
  pub appends : written result ≡ written s ++ bs
  pub moves : result.off ≡ s.off + length bs

abbrev pub Writes : Archive (Unit {0}) → List ℕ → Type 0
Writes m bs = (s : BuffStruct) → IsOpen s → s.off + length bs ≤ 2 ^ 28 → Written m bs s

-- An input archive of the bytes `front ++ rest` that has come to `rest`. The block may go on
-- behind them, by `spare`.
abbrev pub at : List ℕ → List ℕ → List ℕ → BuffStruct
at front rest spare = record {
  len = length front + length rest;
  off = length front;
  buffer = some (front ++ (rest ++ spare));
}

-- `g` reads `bs` as `a`, whatever stands around it.
abbrev pub Reads : {A : Type 0} → Archive A → List ℕ → A → Type 0
Reads g bs a =
    (front rest spare : List ℕ)
    → length front + length (bs ++ rest) < 2 ^ 31
    → g (at front (bs ++ rest) spare) ≡ some (good a, at (front ++ bs) rest spare)

pub Writes-seq :
    (m k : Archive (Unit {0})) (bs cs : List ℕ)
    → Writes m bs
    → Writes k cs
    → Writes (m >> k) (bs ++ cs)
Writes-seq m k bs cs hm hk s o h =
    let first : Written m bs s = hm s o (omega (arith, length-append bs cs)) in
    let second : Written k cs first.result =
      hk first.result first.keeps (omega (arith, length-append bs cs, first.moves)) in
    record {
      result = second.result;
      runs = rw first.runs second.runs;
      keeps = second.keeps;
      appends = rw (second.appends, first.appends, append_assoc);
      moves = omega (arith, length-append bs cs, first.moves, second.moves);
    }

pub Writes-pure : Writes (pure tt) []
Writes-pure s o h = record {
  result = s;
  runs = refl;
  keeps = o;
  appends = rw append-nil;
  moves = omega arith;
}

pub Reads-seq :
    {A B : Type 0} (g : Archive A) (f : A → Archive B) (bs cs : List ℕ) (a : A) (b : B)
    → Reads g bs a
    → Reads (f a) cs b
    → Reads (g >>= f) (bs ++ cs) b
Reads-seq g f bs cs a b hg hf front rest spare h =
    rw (append_assoc bs cs rest, hg front (cs ++ rest) spare fits)
      (rw (← append_assoc front bs cs)
        (hf (front ++ bs) rest spare (omega (arith, length-append front bs, lengths, fits))))
  where
    lengths : length (bs ++ (cs ++ rest)) ≡ length bs + length (cs ++ rest)
    lengths = length-append bs (cs ++ rest)

    fits : length front + length (bs ++ (cs ++ rest)) < 2 ^ 31
    fits = rw (append_assoc bs cs rest) at h

pub Reads-pure : {A : Type 0} (a : A) → Reads (pure a) [] a
Reads-pure a front rest spare h = rw append-nil
