-- ===== src/Orders.antt =====
-- The order objects of include/lob/order.hpp in the storage of the slab. A pointer is an index
-- into the storage, and `none` is the null pointer. A free slot keeps its link in the bytes of the
-- leading pointer of an order (the union of include/lob/slab_allocator.hpp), which is `prev`.
pub mod Fifo
pub mod Slab
use orderbook_engine.Base.{ℕ, Option, update}
use orderbook_engine.Types.{OrderId, Quantity, Price, Side}

abbrev pub Ptr : Type 0
Ptr = Option ℕ

pub record Order : Type 0 where
  pub prev : Ptr
  pub next : Ptr
  pub order_id : OrderId
  pub quantity : Quantity
  pub price : Price
  pub level_idx : ℕ
  pub side : Side

abbrev pub Heap : Type 0
Heap = ℕ → Order

-- `p->prev = q`, `p->next = q`, `p->quantity = q`, and the assignment of a whole order
unfoldable pub set_prev : Heap → ℕ → Ptr → Heap
unfolding update
set_prev h p q = update h p (record (h p) { prev = q })

unfoldable pub set_next : Heap → ℕ → Ptr → Heap
unfolding update
set_next h p q = update h p (record (h p) { next = q })

unfoldable pub set_quantity : Heap → ℕ → Quantity → Heap
unfolding update
set_quantity h p q = update h p (record (h p) { quantity = q })
