-- ===== src/Book/Best/Flow.antt =====
-- The best indices and the bitmaps when an order enters its level, and when it leaves it.
use orderbook_engine.Base.{
  ℕ, ◌+◌, ◌^◌, ◌≤◌, ◌<◌, ◌≡◌, refl, ◌∙◌, sym, ap, false, arith, Bool-cases, inl, inr, update,
}
use orderbook_engine.Book.Best.Levels.{
  IsShelved, set_storage-IsShelved, keep-IsShelved, occupy_level-IsShelved, vacate_level-IsShelved,
}
use orderbook_engine.Book.Rest.{enter_level, remove_from_book, set_storage, add32, sub32}
use orderbook_engine.Book.State.{Book, PriceLevel, is_empty, level}
use orderbook_engine.Orders.{Heap, Order}
use orderbook_engine.Orders.Fifo.{push_back, unlink}
use orderbook_engine.Orders.Fifo.Unlink.{unlink-payload}
use orderbook_engine.Types.{Side}

level-set_storage :
    (b : Book) (h : Heap) (s : Side) (i : ℕ) → level (set_storage b h) s i ≡ level b s i
unfolding level
level-set_storage b h Side.buy i = refl
level-set_storage b h Side.sell i = refl

-- An order that enters a level of a shelved book leaves the book shelved, where its level is in range
-- and the level's count does not wrap.
pub enter_level-IsShelved :
    (b : Book) (o : ℕ) (order : Order)
    → order.level_idx < b.cfg.num_levels
    → (level b order.side order.level_idx).count + 1 < 2 ^ 32
    → IsShelved b
    → IsShelved (enter_level b o order)
unfolding enter_level
enter_level-IsShelved b o order lt fits x =
    let side = order.side in
    let i = order.level_idx in
    let lvl = level b side i in
    let q = push_back (update b.slab.storage o order) lvl.orders o in
    let l : PriceLevel = record {
      orders = q.1;
      total_qty = add32 lvl.total_qty order.quantity;
      count = add32 lvl.count 1;
    } in
    let full : is_empty l ≡ false = ground arith in
    let x' = set_storage-IsShelved b q.0 x in
    elim (Bool-cases (is_empty lvl)) [
      | inl was ↦ rw was (occupy_level-IsShelved (set_storage b q.0) side i l lt full x')
      | inr was ↦ rw was (
          keep-IsShelved (set_storage b q.0) side i l
            (rw (level-set_storage b q.0 side i) (full ∙ sym was)) x')
    ]

-- An order that leaves its level leaves a shelved book shelved, where the level counts an order
-- and the count is below 2 ^ 32.
pub remove_from_book-IsShelved :
    (b : Book) (o : ℕ)
    → 1 ≤ (level b (b.slab.storage o).side (b.slab.storage o).level_idx).count
    → (level b (b.slab.storage o).side (b.slab.storage o).level_idx).count < 2 ^ 32
    → IsShelved b
    → IsShelved (remove_from_book b o)
unfolding remove_from_book
remove_from_book-IsShelved b o pos fits x =
    let order = b.slab.storage o in
    let side = order.side in
    let i = order.level_idx in
    let lvl = level b side i in
    let q = unlink b.slab.storage lvl.orders o in
    let l : PriceLevel = record {
      orders = q.1;
      total_qty = sub32 lvl.total_qty (q.0 o).quantity;
      count = sub32 lvl.count 1;
    } in
    let same = unlink-payload b.slab.storage lvl.orders o o in
    let x' = set_storage-IsShelved b q.0 x in
    elim (Bool-cases (is_empty l)) [
      | inl gone ↦
          rw (gone, ap (λ (z : Order). z.side) same, ap (λ (z : Order). z.level_idx) same)
            (vacate_level-IsShelved (set_storage b q.0) side i l gone x')
      | inr left ↦ rw left (
          keep-IsShelved (set_storage b q.0) side i l
            (rw (level-set_storage b q.0 side i) (left ∙ (ground arith))) x')
    ]
