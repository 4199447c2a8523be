-- ===== src/Orders/Slab.antt =====
-- `SlabAllocator` of include/lob/slab_allocator.hpp: a free list threaded through the storage.
-- `s->next` of a free slot is the leading pointer of the bytes, that is the field `prev`.
pub mod FreeList
use orderbook_engine.Base.{ℕ, zero, suc, ◌+◌, ◌-◌, ◌%◌, ◌^◌, none, some}
use orderbook_engine.Orders.{Ptr, Order, Heap, set_prev}

pub record Slab : Type 0 where
  pub capacity : ℕ
  pub storage : Heap
  pub free_head : Ptr
  pub in_use : ℕ

-- The constructor's loop runs `i` from `capacity - 1` down to 0.
thread : ℕ → Heap → Ptr → Heap × Ptr
thread zero h free_head = (h, free_head)
thread (suc i) h free_head = thread i (set_prev h i free_head) (some i)

-- `raw` is the content of the storage as `operator new[]` returns it.
unfoldable pub new : (raw : Heap) (capacity : ℕ) → Slab
unfolding thread set_prev
new raw capacity =
    let (h, free_head) = thread capacity raw none in
    record { capacity = capacity; storage = h; free_head = free_head; in_use = 0 }

unfoldable pub allocate : Slab → Ptr × Slab
allocate s = elim s.free_head [
  | none ↦ (none, s)
  | some p ↦ (some p, record s { free_head = (s.storage p).prev; in_use = (s.in_use + 1) % 2 ^ 64 })
]

unfoldable pub deallocate : Slab → ℕ → Slab
unfolding set_prev
deallocate s p = record s {
  storage = set_prev s.storage p s.free_head;
  free_head = some p;
  in_use = (s.in_use + 2 ^ 64 - 1) % 2 ^ 64;
}
