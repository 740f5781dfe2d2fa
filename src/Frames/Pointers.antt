-- ===== src/Frames/Pointers.antt =====
-- queue_buffer and dequeue_buffer of src/zk/zookeeper.c on the nodes in memory. A buffer_head_t holds
-- the addresses of the first node and of the last one; `A` is what a node holds besides its `next`.
use ext_zookeeper.Prelude.{ℕ, Bool, Option, none, some, ◌==◌, not, if◌then◌else◌}

abbrev pub Ptr : Type 0
Ptr = ℕ

-- An element of a list: `next` is the address of the one behind it, or 0.
pub record Node (A : Type 0) : Type 0 where
  pub value : A
  pub next : Ptr

-- struct _buffer_head
pub record BufferHead : Type 0 where
  pub head : Ptr
  pub last : Ptr

abbrev pub Store : Type 0 → Type 0
Store A = Ptr → Option (Node A)

module _ {A : Type 0} where
  abbrev pub write : Store A → Ptr → Node A → Store A
  write st p n q = if q == p then some n else st q

  -- `p->next = next`. `none` is a fault.
  unfoldable pub set_next : Store A → Ptr → Ptr → Option (Store A)
  set_next st p next = elim (st p) [
    | none ↦ none
    | some n ↦ some (write st p (record n { next = next }))
  ]

  abbrev pub with_store : BufferHead → Option (Store A) → Option (Store A × BufferHead)
  with_store list none = none
  with_store list (some st) = some (st, list)

  -- Behind `b->next = 0`.
  unfoldable pub link_buffer :
      BufferHead → Ptr → Bool → Option (Store A) → Option (Store A × BufferHead)
  link_buffer list b add_to_front none = none
  link_buffer list b add_to_front (some st) =
      if not (list.head == 0)
      then if list.last == 0
        then none
        else if add_to_front
        then with_store (record list { head = b }) (set_next st b list.head)
        else with_store (record list { last = b }) (set_next st list.last b)
      else some (st, record { head = b; last = b })

  -- `none` is a fault or a failed assertion.
  unfoldable pub queue_buffer_node :
      Store A → BufferHead → Ptr → Bool → Option (Store A × BufferHead)
  queue_buffer_node st list b add_to_front = link_buffer list b add_to_front (set_next st b 0)

  -- The address that is taken off, or 0, and the list.
  unfoldable pub dequeue_buffer_node : Store A → BufferHead → Option (Ptr × BufferHead)
  dequeue_buffer_node st list = if list.head == 0 then some (0, list) else elim (st list.head) [
    | none ↦ none
    | some b ↦
        if b.next == 0
        then if list.head == list.last
          then some (list.head, record { head = 0; last = 0 })
          else none
        else some (list.head, record list { head = b.next })
  ]
