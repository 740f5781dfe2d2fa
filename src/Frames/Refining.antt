-- ===== src/Frames/Refining.antt =====
-- queue_buffer and dequeue_buffer of src/zk/zookeeper.c on the nodes in memory do to the packets what
-- they do on the list.
use ext_zookeeper.Prelude.{
  ◌≡◌, ◌≢◌, refl, sym, ap, subst, ◌∙◌, Bool, true, false, Option, none, some, List, [], ◌∷◌, ◌==◌,
  arith,
}
use ext_zookeeper.Frames.Defs.{Packet}
use ext_zookeeper.Frames.Queue.{queue_buffer, dequeue_buffer}
use ext_zookeeper.Frames.Pointers.{Ptr, BufferHead, Store, queue_buffer_node, dequeue_buffer_node}
use ext_zookeeper.Frames.Linked.{
  Entry, Apart, Represents, queued, queue_buffer_node-Queues, filled, last_reads,
}

-- The packets of some entries.
abbrev pub packets : List (Entry Packet) → List Packet
packets [] = []
packets (e ∷ es) = e.1 ∷ packets es

packets-queued :
    (es : List (Entry Packet)) (b : Entry Packet) (front : Bool)
    → packets (queued es b front) ≡ queue_buffer (packets es) b.1 front
unfolding queue_buffer
packets-queued [] b true = refl
packets-queued [] b false = refl
packets-queued (e ∷ es) b true = refl
packets-queued (e ∷ es) b false = ap (◌∷◌ e.1) (packets-queued es b false)

-- What queue_buffer leaves in memory stands for what it leaves of the list.
pub record Enqueues (es : List (Entry Packet)) (b : Entry Packet) (front : Bool)
    (o : Option (Store Packet × BufferHead)) : Type 0 where
  pub entries : List (Entry Packet)
  pub st : Store Packet
  pub list : BufferHead
  pub runs : o ≡ some (st, list)
  pub represents : Represents st list entries
  pub refines : packets entries ≡ queue_buffer (packets es) b.1 front

-- On nodes in memory, queue_buffer ends without a fault, and leaves a list with head and last
-- pointer that stands for what queue_buffer leaves of the sequence of packets, at the front or at
-- the back. The packet's node is not null and none of the list's, whose nodes are all apart.
pub queue_buffer_node-Enqueues :
    (st : Store Packet) (list : BufferHead) (es : List (Entry Packet)) (b : Ptr) (p : Packet)
    (old : Ptr) (front : Bool)
    → Represents st list es
    → b ≢ 0
    → Apart b es
    → st b ≡ some (record { value = p; next = old })
    → Enqueues es (b, p) front (queue_buffer_node st list b front)
queue_buffer_node-Enqueues st list es b p old front r nz h held =
    let q = queue_buffer_node-Queues st b p old nz held list es front r h in
    record {
      entries = queued es (b, p) front;
      st = q.st;
      list = q.list;
      runs = q.runs;
      represents = q.represents;
      refines = packets-queued es (b, p) front;
    }

abbrev some_or : Packet → Option Packet → Packet
some_or p none = p
some_or p (some q) = q

-- What dequeue_buffer takes off, and what is left.
pub record Dequeues (st : Store Packet) (es : List (Entry Packet)) (o : Option (Ptr × BufferHead))
    : Type 0 where
  pub entries : List (Entry Packet)
  pub taken : Ptr
  pub list : BufferHead
  pub runs : o ≡ some (taken, list)
  pub represents : Represents st list entries
  pub rest : packets entries ≡ (dequeue_buffer (packets es)).1
  pub first :
      (p : Packet)
      → (dequeue_buffer (packets es)).0 ≡ some p
      → (n : Ptr) × (st taken ≡ some (record { value = p; next = n }))
  pub empty : (dequeue_buffer (packets es)).0 ≡ none → taken ≡ 0

-- On nodes in memory, dequeue_buffer ends without a fault. It takes the node of the first packet
-- off, or null when there is none, and leaves a list with head and last pointer that stands for
-- the rest of the sequence of packets.
pub dequeue_buffer_node-Dequeues :
    (st : Store Packet) (list : BufferHead) (es : List (Entry Packet))
    → Represents st list es
    → Dequeues st es (dequeue_buffer_node st list)
unfolding dequeue_buffer_node dequeue_buffer
dequeue_buffer_node-Dequeues st list [] r = record {
  entries = [];
  taken = 0;
  list = list;
  runs = (let e : (list.head == 0) ≡ true = ground (arith, r.chain) in rw e refl);
  represents = r;
  rest = refl;
  first = λ p e. absurd cc;
  empty = λ e. refl;
}
dequeue_buffer_node-Dequeues st list ((q, v) ∷ []) r = record {
  entries = [];
  taken = list.head;
  list = record { head = 0; last = 0 };
  runs = rw (filled st list (q, v) [] r, only) (rw both refl);
  represents = record { chain = refl; last = refl; distinct = tt };
  rest = refl;
  first = λ p e. (0, only ∙ ap (λ x. some (record { value = some_or v x; next = 0 })) e);
  empty = λ e. absurd cc;
}
  where
    only : st list.head ≡ some (record { value = v; next = 0 })
    only =
        subst (λ l. st l ≡ some (record { value = v; next = 0 })) (sym r.chain.0)
          (last_reads st list.head (q, v) [] r.chain)

    both : (list.head == list.last) ≡ true
    both = ground (arith, r.last, r.chain.0)
dequeue_buffer_node-Dequeues st list ((q, v) ∷ (f, w) ∷ es) r =
    let n = r.chain.1.1.0 in
    record {
      entries = (f, w) ∷ es;
      taken = list.head;
      list = record list { head = n };
      runs = rw (filled st list (q, v) ((f, w) ∷ es) r, here) (rw more refl);
      represents = record { chain = r.chain.1.1.1.1; last = r.last; distinct = r.distinct.1 };
      rest = refl;
      first = λ p e. (n, here ∙ ap (λ x. some (record { value = some_or v x; next = n })) e);
      empty = λ e. absurd cc;
    }
  where
    here : st list.head ≡ some (record { value = v; next = r.chain.1.1.0 })
    here =
        subst (λ l. st l ≡ some (record { value = v; next = r.chain.1.1.0 })) (sym r.chain.0)
          r.chain.1.1.1.0

    more : (r.chain.1.1.0 == 0) ≡ false
    more = ground (arith, r.chain.1.1.1.1.0, r.chain.1.1.1.1.1.0)
