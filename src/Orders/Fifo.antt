-- ===== src/Orders/Fifo.antt =====
-- `IntrusiveList` of include/lob/intrusive_list.hpp: a doubly-linked list whose links live in the
-- orders. Each operation returns the new list header and the new storage.
pub mod Links
pub mod Push
pub mod Unlink
use orderbook_engine.Base.{none, some, ℕ}
use orderbook_engine.Orders.{Ptr, Heap, set_prev, set_next}

pub record Fifo : Type 0 where
  pub head : Ptr
  pub tail : Ptr

abbrev pub empty_fifo : Fifo
empty_fifo = record { head = none; tail = none }

unfoldable pub push_back : Heap → Fifo → ℕ → Heap × Fifo
unfolding set_prev set_next
push_back h l node =
    let h' = set_next (set_prev h node l.tail) node none in
    elim l.tail [
      | none ↦ (h', record { head = some node; tail = some node })
      | some t ↦ (set_next h' t (some node), record { head = l.head; tail = some node })
    ]

-- `if (p) p->next = n; else head_ = n;` and the mirror image
unlink_prev : Heap → Fifo → (p n : Ptr) → Heap × Fifo
unlink_prev h l none n = (h, record l { head = n })
unlink_prev h l (some p) n = (set_next h p n, l)

unlink_next : Heap → Fifo → (p n : Ptr) → Heap × Fifo
unlink_next h l p none = (h, record l { tail = p })
unlink_next h l p (some n) = (set_prev h n p, l)

unfoldable pub unlink : Heap → Fifo → ℕ → Heap × Fifo
unfolding set_prev set_next unlink_prev unlink_next
unlink h l node =
    let p = (h node).prev in
    let n = (h node).next in let (h', l') = unlink_prev h l p n in unlink_next h' l' p n
