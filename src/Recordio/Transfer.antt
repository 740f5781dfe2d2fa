-- ===== src/Recordio/Transfer.antt =====
-- A record on its way: written into a fresh output archive, queued as the bytes in front of its
-- offset, and read back from an input archive over them, as queue_session_event and
-- process_completions of zookeeper.c do it.
use ext_zookeeper.Prelude.{
  ℕ, ◌≤◌, ◌≡◌, ◌^◌, refl, Option, none, some, List, [], ◌++◌, length, take, drop, take-append-drop,
  arith, ap,
}
use ext_zookeeper.Recordio.Defs.{BuffStruct, Rc, good, fail, Archive}
use ext_zookeeper.Recordio.Ops.{
  Heap, create_buffer_oarchive, create_buffer_iarchive, get_buffer, get_buffer_len,
}
use ext_zookeeper.Recordio.Spec.{IsOpen, Allocates, Written, Writes, Reads, at}
use mathlib.Core.List.{append-nil}

module _ (heap : Heap) where
  read_back : {A : Type 0} → Archive A → Option BuffStruct → Option (Rc A)
  read_back g none = none
  read_back g (some s) = elim (g s) [ none ↦ none | some (rc, s') ↦ some rc ]

  read_back_lem :
      {A : Type 0} (g : Archive A) (s s' : BuffStruct) (rc : Rc A)
      → g s ≡ some (rc, s')
      → read_back g (some s) ≡ some rc
  unfolding read_back
  read_back_lem g s s' rc e = rw (e, read_back)

  hand_over : {A : Type 0} → Archive A → Option (Rc (Unit {0}) × BuffStruct) → Option (Rc A)
  unfolding read_back
  hand_over g none = none
  hand_over g (some (fail e, s)) = some (fail e)
  hand_over g (some (good u, s)) =
      read_back g (create_buffer_iarchive heap (get_buffer s) (get_buffer_len s))

  fill : Archive (Unit {0}) → Option BuffStruct → Option (Rc (Unit {0}) × BuffStruct)
  fill m none = none
  fill m (some s) = m s

  unfoldable pub transfer : {A : Type 0} → Archive (Unit {0}) → Archive A → Option (Rc A)
  unfolding read_back hand_over fill
  transfer m g = hand_over g (fill m (create_buffer_oarchive heap))

  module _ (allocates : Allocates heap) where
    opened : BuffStruct
    opened = record { len = 128; off = 0; buffer = some (heap.blank 128) }

    create_buffer_oarchive_lem : create_buffer_oarchive heap ≡ some opened
    unfolding create_buffer_oarchive opened
    create_buffer_oarchive_lem =
        rw (allocates 80 (omega arith), allocates 16 (omega arith), allocates 128 (omega arith))

    opened-IsOpen : IsOpen opened
    unfolding opened
    opened-IsOpen = record {
      bytes = heap.blank 128;
      held = refl;
      full = heap.length-blank 128;
      within = omega arith;
      least = omega arith;
      slack = omega arith;
    }

    -- The input archive over what a run has written to the fresh archive.
    input_lem :
        (m : Archive (Unit {0})) (bs : List ℕ) (w : Written m bs opened)
        → create_buffer_iarchive heap (get_buffer w.result) (get_buffer_len w.result)
          ≡ some (at [] (bs ++ []) (drop w.result.off w.keeps.bytes))
    unfolding create_buffer_iarchive get_buffer get_buffer_len opened
    input_lem m bs w =
        rw
          (
            allocates 80 (omega arith),
            allocates 16 (omega arith),
            append-nil bs,
            w.keeps.held,
            offset,
          )
          (ground (arith, whole))
      where
        offset : w.result.off ≡ length bs
        offset = omega (arith, w.moves)

        front : take (length bs) w.keeps.bytes ≡ bs
        front = rw (w.keeps.held, offset) at w.appends

        whole : bs ++ drop (length bs) w.keeps.bytes ≡ w.keeps.bytes
        whole = rw front at (take-append-drop (length bs) w.keeps.bytes)

    -- What `m` wrote is what `g` is given.
    pub transfer-Writes-Reads :
        {A : Type 0} (m : Archive (Unit {0})) (g : Archive A) (bs : List ℕ) (a : A)
        → Writes m bs
        → Reads g bs a
        → length bs ≤ 2 ^ 28
        → transfer m g ≡ some (good a)
    unfolding transfer
    transfer-Writes-Reads m g bs a hm hg h =
        rw (create_buffer_oarchive_lem, w.runs, input_lem m bs w)
          (read_back_lem g _ _ (good a)
            (hg [] [] (drop w.result.off w.keeps.bytes) (omega (arith, ap length (append-nil bs)))))
      where
        w : Written m bs opened
        w = hm opened opened-IsOpen (unfold opened in omega arith)

    -- What `g` makes of what `m` wrote, where it fails.
    pub transfer-Writes :
        {A : Type 0} (m : Archive (Unit {0})) (g : Archive A) (bs : List ℕ) (rc : Rc A)
        → Writes m bs
        → ((spare : List ℕ) → (s' : BuffStruct) × (g (at [] (bs ++ []) spare) ≡ some (rc, s')))
        → length bs ≤ 2 ^ 28
        → transfer m g ≡ some rc
    unfolding transfer
    transfer-Writes m g bs rc hm hg h =
        let w : Written m bs opened = hm opened opened-IsOpen (unfold opened in omega arith) in
        let read = hg (drop w.result.off w.keeps.bytes) in
        rw (create_buffer_oarchive_lem, w.runs, input_lem m bs w) (read_back_lem g _ _ rc read.1)

    -- What `m` leaves of a fresh archive: its block starts with the bytes that it has written.
    pub record Filled (m : Archive (Unit {0})) (bs : List ℕ) : Type 0 where
      pub oa : BuffStruct
      pub result : BuffStruct
      pub block : List ℕ
      pub made : create_buffer_oarchive heap ≡ some oa
      pub runs : m oa ≡ some (good tt, result)
      pub held : get_buffer result ≡ some block
      pub bytes : take (get_buffer_len result) block ≡ bs
      pub size : get_buffer_len result ≡ length bs

    Written-Filled : (m : Archive (Unit {0})) (bs : List ℕ) → Written m bs opened → Filled m bs
    unfolding get_buffer get_buffer_len opened
    Written-Filled m bs w = record {
      oa = opened;
      result = w.result;
      block = w.keeps.bytes;
      made = create_buffer_oarchive_lem;
      runs = w.runs;
      held = w.keeps.held;
      bytes = rw w.keeps.held at w.appends;
      size = omega (arith, w.moves);
    }

    pub create-Filled :
        (m : Archive (Unit {0})) (bs : List ℕ) → Writes m bs → length bs ≤ 2 ^ 28 → Filled m bs
    create-Filled m bs hm h =
        Written-Filled m bs (hm opened opened-IsOpen (unfold opened in omega arith))
