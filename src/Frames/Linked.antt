-- ===== src/Frames/Linked.antt =====
-- The nodes of a buffer_head_t of src/zk/zookeeper.c stand for a list, and queue_buffer adds to it.
use ext_zookeeper.Prelude.{
  ◌≡◌, ◌≢◌, refl, sym, ap, subst, ◌∙◌, Bool, true, false, Option, some, List, [], ◌∷◌, ◌++◌, ◌==◌,
  All, arith,
}
use ext_zookeeper.Frames.Pointers.{
  Ptr, Node, BufferHead, Store, write, set_next, with_store, link_buffer, queue_buffer_node,
}

-- An address and what is there.
abbrev pub Entry : Type 0 → Type 0
Entry A = Ptr × A

module _ {A : Type 0} where
  -- From `p` the nodes are those of the entries, in order, and the last one has no next.
  abbrev pub Chain : Store A → Ptr → List (Entry A) → Type 0
  Chain st p [] = p ≡ 0
  Chain st p ((q, v) ∷ es) =
      (p ≡ q)
      × ((q ≢ 0) × ((n : Ptr) × ((st q ≡ some (record { value = v; next = n })) × Chain st n es)))

  abbrev pub Apart : Ptr → List (Entry A) → Type 0
  Apart b es = All (λ e. e.0 ≢ b) es

  abbrev pub Distinct : List (Entry A) → Type 0
  Distinct [] = Unit {0}
  Distinct ((q, v) ∷ es) = Apart q es × Distinct es

  abbrev pub last_entry : Entry A → List (Entry A) → Entry A
  last_entry e [] = e
  last_entry e (f ∷ es) = last_entry f es

  abbrev pub last_ptr : List (Entry A) → Ptr
  last_ptr [] = 0
  last_ptr (e ∷ es) = (last_entry e es).0

  -- A list in memory: its entries, no two at one address, and the pointers to its ends.
  pub record Represents (st : Store A) (list : BufferHead) (es : List (Entry A)) : Type 0 where
    pub chain : Chain st list.head es
    pub last : list.last ≡ last_ptr es
    pub distinct : Distinct es

  last-Apart :
      (b : Ptr) (e : Entry A) (es : List (Entry A)) → Apart b (e ∷ es) → (last_entry e es).0 ≢ b
  last-Apart b e [] h = h.0
  last-Apart b e (f ∷ es) h = last-Apart b f es h.1

  pub last_reads :
      (st : Store A) (p : Ptr) (e : Entry A) (es : List (Entry A))
      → Chain st p (e ∷ es)
      → st (last_entry e es).0 ≡ some (record { value = (last_entry e es).1; next = 0 })
  last_reads st p e [] (x, (y, (n, (r, z)))) =
      r ∙ ap (λ k. some (record { value = e.1; next = k })) z
  last_reads st p e (f ∷ es) (x, (y, (n, (r, c)))) = last_reads st n f es c

  -- A write elsewhere.
  Chain-write :
      (st : Store A) (b : Ptr) (c : Node A) (p : Ptr) (es : List (Entry A))
      → Apart b es
      → Chain st p es
      → Chain (write st b c) p es
  Chain-write st b c p [] h x = x
  Chain-write st b c p ((q, v) ∷ es) (d, h) (x, (y, (n, (r, z)))) =
      (x, (y, (n, (skip, Chain-write st b c n es h z))))
    where
      skip : write st b c q ≡ some (record { value = v; next = n })
      skip = ground (arith, r, d)

  -- `b` behind the last node.
  Chain-append :
      (st : Store A) (b : Ptr) (a : A) (p : Ptr) (e : Entry A) (es : List (Entry A))
      → b ≢ 0
      → Apart b (e ∷ es)
      → Distinct (e ∷ es)
      → Chain st p (e ∷ es)
      → Chain
          (write
            (write st b (record { value = a; next = 0 }))
            (last_entry e es).0
            (record { value = (last_entry e es).1; next = b }))
          p
          ((e ∷ es) ++ ((b, a) ∷ []))
  Chain-append st b a p (q, v) [] nz h d (x, (y, (n, (r, z)))) =
      (x, (y, (b, (here, (refl, (nz, (0, (there, refl))))))))
    where
      here :
          write (write st b (record { value = a; next = 0 })) q (record { value = v; next = b }) q
          ≡ some (record { value = v; next = b })
      here = ground arith

      there :
          write (write st b (record { value = a; next = 0 })) q (record { value = v; next = b }) b
          ≡ some (record { value = a; next = 0 })
      there = ground (arith, h.0)
  Chain-append st b a p (q, v) (f ∷ es) nz h d (x, (y, (n, (r, z)))) =
      (x, (y, (n, (skip, Chain-append st b a n f es nz h.1 d.1 z))))
    where
      far : (last_entry f es).0 ≢ q
      far = last-Apart q f es d.0

      skip :
          write
            (write st b (record { value = a; next = 0 }))
            (last_entry f es).0
            (record { value = (last_entry f es).1; next = b })
            q
          ≡ some (record { value = v; next = n })
      skip = ground (arith, r, far, h.0)

  last_nonzero :
      (st : Store A) (p : Ptr) (e : Entry A) (es : List (Entry A))
      → Chain st p (e ∷ es)
      → (last_entry e es).0 ≢ 0
  last_nonzero st p e [] (x, (nz, z)) = nz
  last_nonzero st p e (f ∷ es) (x, (nz, (n, (r, c)))) = last_nonzero st n f es c

  last_ptr-append :
      (e : Entry A) (es : List (Entry A)) (b : Entry A) → (last_entry e (es ++ (b ∷ []))).0 ≡ b.0
  last_ptr-append e [] b = refl
  last_ptr-append e (f ∷ es) b = last_ptr-append f es b

  Apart-append :
      (q : Ptr) (es : List (Entry A)) (b : Entry A)
      → Apart q es
      → b.0 ≢ q
      → Apart q (es ++ (b ∷ []))
  Apart-append q [] b h n = (n, tt)
  Apart-append q (e ∷ es) b (h, hs) n = (h, Apart-append q es b hs n)

  Distinct-append :
      (es : List (Entry A)) (b : Ptr) (a : A)
      → Distinct es
      → Apart b es
      → Distinct (es ++ ((b, a) ∷ []))
  Distinct-append [] b a d h = (tt, tt)
  Distinct-append ((q, v) ∷ es) b a (d, ds) (h, hs) =
      (Apart-append q es (b, a) d (λ x. h (sym x)), Distinct-append es b a ds hs)

  pub filled :
      (st : Store A) (list : BufferHead) (e : Entry A) (es : List (Entry A))
      → Represents st list (e ∷ es)
      → (list.head == 0) ≡ false
  filled st list (q, v) es r = ground (arith, r.chain.0, r.chain.1.0)

  ends :
      (st : Store A) (list : BufferHead) (e : Entry A) (es : List (Entry A))
      → Represents st list (e ∷ es)
      → (list.last == 0) ≡ false
  ends st list e es r = ground (arith, r.last, last_nonzero st list.head e es r.chain)

  -- The entries behind a node that is queued.
  abbrev pub queued : List (Entry A) → Entry A → Bool → List (Entry A)
  queued es b true = b ∷ es
  queued es b false = es ++ (b ∷ [])

  pub record Queues (es : List (Entry A)) (b : Entry A) (front : Bool)
      (o : Option (Store A × BufferHead)) : Type 0 where
    pub st : Store A
    pub list : BufferHead
    pub runs : o ≡ some (st, list)
    pub represents : Represents st list (queued es b front)

  module _ (st : Store A) (b : Ptr) (a : A) (old : Ptr) (nz : b ≢ 0)
      (held : st b ≡ some (record { value = a; next = old })) where
    abbrev cleared : Store A
    cleared = write st b (record { value = a; next = 0 })

    set_next_lem : set_next st b 0 ≡ some cleared
    unfolding set_next
    set_next_lem = rw (held, set_next) refl

    queue_empty :
        (list : BufferHead) (front : Bool)
        → list.head ≡ 0
        → link_buffer list b front (some cleared) ≡ some (cleared, record { head = b; last = b })
    unfolding link_buffer
    queue_empty list front e = rw e refl

    single : Represents cleared (record { head = b; last = b }) ((b, a) ∷ [])
    single = record {
      chain = (refl, (nz, (0, ((ground arith), refl))));
      last = refl;
      distinct = (tt, tt);
    }

    linked :
        (p : Ptr) → set_next cleared b p ≡ some (write cleared b (record { value = a; next = p }))
    unfolding set_next
    linked p = rw (own, set_next) refl
      where
        own : cleared b ≡ some (record { value = a; next = 0 })
        own = ground arith

    queue_front :
        (list : BufferHead) (e : Entry A) (es : List (Entry A))
        → Represents st list (e ∷ es)
        → Apart b (e ∷ es)
        → Queues (e ∷ es) (b, a) true (link_buffer list b true (some cleared))
    unfolding link_buffer set_next
    queue_front list (q, v) es r h = record {
      st = write cleared b (record { value = a; next = list.head });
      list = record list { head = b };
      runs =
          rw (filled st list (q, v) es r, ends st list (q, v) es r)
            (rw (linked list.head, with_store) refl);
      represents = record {
        chain = (
          refl,
          (
            nz,
            (
              list.head,
              (
                ground arith,
                Chain-write cleared b _ list.head ((q, v) ∷ es) h
                    (Chain-write st b _ list.head ((q, v) ∷ es) h r.chain),
              ),
            ),
          ),
        );
        last = r.last;
        distinct = (h, r.distinct);
      };
    }

    queue_back :
        (list : BufferHead) (e : Entry A) (es : List (Entry A))
        → Represents st list (e ∷ es)
        → Apart b (e ∷ es)
        → Queues (e ∷ es) (b, a) false (link_buffer list b false (some cleared))
    unfolding link_buffer set_next
    queue_back list (q, v) es r h = record {
      st =
          write cleared (last_entry (q, v) es).0
            (record { value = (last_entry (q, v) es).1; next = b });
      list = record list { last = b };
      runs =
          rw (filled st list (q, v) es r, ends st list (q, v) es r)
            (rw (read, with_store)
              (ap
                (λ l. some (
                  write cleared l (record { value = (last_entry (q, v) es).1; next = b }),
                  record list { last = b },
                ))
                r.last));
      represents = record {
        chain = Chain-append st b a list.head (q, v) es nz h r.distinct r.chain;
        last = sym (last_ptr-append (q, v) es (b, a));
        distinct = Distinct-append ((q, v) ∷ es) b a r.distinct h;
      };
    }
      where
        other : (last_entry (q, v) es).0 ≢ b
        other = last-Apart b (q, v) es h

        read : cleared list.last ≡ some (record { value = (last_entry (q, v) es).1; next = 0 })
        read =
            subst (λ l. cleared l ≡ some (record { value = (last_entry (q, v) es).1; next = 0 }))
              (sym r.last) (ground (arith, other, last_reads st list.head (q, v) es r.chain))

    queue-Queues :
        (list : BufferHead) (es : List (Entry A)) (front : Bool)
        → Represents st list es
        → Apart b es
        → Queues es (b, a) front (link_buffer list b front (some cleared))
    queue-Queues list [] true r h = record {
      st = cleared;
      list = record { head = b; last = b };
      runs = queue_empty list true r.chain;
      represents = single;
    }
    queue-Queues list [] false r h = record {
      st = cleared;
      list = record { head = b; last = b };
      runs = queue_empty list false r.chain;
      represents = single;
    }
    queue-Queues list (e ∷ es) true r h = queue_front list e es r h
    queue-Queues list (e ∷ es) false r h = queue_back list e es r h

    pub queue_buffer_node-Queues :
        (list : BufferHead) (es : List (Entry A)) (front : Bool)
        → Represents st list es
        → Apart b es
        → Queues es (b, a) front (queue_buffer_node st list b front)
    unfolding queue_buffer_node
    queue_buffer_node-Queues list es front r h =
        subst (λ o. Queues es (b, a) front (link_buffer list b front o)) (sym set_next_lem)
          (queue-Queues list es front r h)
