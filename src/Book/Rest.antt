-- ===== src/Book/Rest.antt =====
-- Orders entering and leaving their level: `insert_resting_`, `remove_from_book_`, `cancel` and
-- `reduce` of include/lob/order_book.hpp.
use orderbook_engine.Base.{
  ℕ, ◌+◌, ◌-◌, ◌%◌, ◌^◌, Bool, true, false, Option, none, some, ltb, leb, ◌==◌, if◌then◌else◌,
  update,
}
use orderbook_engine.Base.Steps.{◌>>=◌}
use orderbook_engine.Bitmap
use orderbook_engine.Book.State.{
  Book, PriceLevel, is_empty, price_to_idx, level, set_level, next_level, find,
}
use orderbook_engine.IdMap
use orderbook_engine.Orders.{Order, Heap, set_quantity}
use orderbook_engine.Orders.Fifo.{push_back, unlink}
use orderbook_engine.Orders.Slab.{allocate, deallocate}
use orderbook_engine.Types.{Price, Quantity, OrderId, Side}

-- Arithmetic on `Quantity` and on the count of a level.
abbrev pub add32 : ℕ → ℕ → ℕ
add32 a b = (a + b) % 2 ^ 32

abbrev pub sub32 : ℕ → ℕ → ℕ
sub32 a b = (a + 2 ^ 32 - b) % 2 ^ 32

abbrev pub set_storage : Book → Heap → Book
set_storage b h = record b { slab = record (b.slab) { storage = h } }

-- `best == kNoBest || idx > best` and `best == kNoBest || idx < best`
abbrev pub improves : Side → Option ℕ → ℕ → Bool
improves side none idx = true
improves Side.buy (some best) idx = ltb best idx
improves Side.sell (some best) idx = ltb idx best

-- The level at `idx` has become occupied.
unfoldable pub occupy_level : Book → Side → ℕ → Book
occupy_level b Side.buy idx = record b {
  bid_bitmap = Bitmap.set b.bid_bitmap idx;
  best_bid_idx = if improves Side.buy b.best_bid_idx idx then some idx else b.best_bid_idx;
}
occupy_level b Side.sell idx = record b {
  ask_bitmap = Bitmap.set b.ask_bitmap idx;
  best_ask_idx = if improves Side.sell b.best_ask_idx idx then some idx else b.best_ask_idx;
}

unfoldable pub best_idx : Book → Side → Option ℕ
best_idx b Side.buy = b.best_bid_idx
best_idx b Side.sell = b.best_ask_idx

unfoldable pub set_best_idx : Book → Side → Option ℕ → Book
set_best_idx b Side.buy i = record b { best_bid_idx = i }
set_best_idx b Side.sell i = record b { best_ask_idx = i }

unfoldable pub clear_bit : Book → Side → ℕ → Book
clear_bit b Side.buy idx = record b { bid_bitmap = Bitmap.clear b.bid_bitmap idx }
clear_bit b Side.sell idx = record b { ask_bitmap = Bitmap.clear b.ask_bitmap idx }

abbrev pub is_at : Option ℕ → ℕ → Bool
is_at none idx = false
is_at (some i) idx = i == idx

-- The level at `idx` has become empty; the best index moves only if it was there.
unfoldable pub vacate_level : Book → Side → ℕ → Book
vacate_level b side idx =
    let b' = clear_bit b side idx in
    if is_at (best_idx b side) idx then set_best_idx b' side (next_level b' side idx) else b'

-- The order is written whole, put behind its level and counted.
unfoldable pub enter_level : Book → (o : ℕ) → Order → Book
enter_level b o order =
    let lvl = level b order.side order.level_idx in
    let (h, fifo) = push_back (update b.slab.storage o order) lvl.orders o in
    let b' = set_level (set_storage b h) order.side order.level_idx (record {
      orders = fifo;
      total_qty = add32 lvl.total_qty order.quantity;
      count = add32 lvl.count 1;
    }) in
    if is_empty lvl then occupy_level b' order.side order.level_idx else b'

-- `none` if the slab is exhausted, where the assertion fails. The result of `insert` is ignored.
unfoldable pub insert_resting : Book → OrderId → Side → Price → Quantity → Option Book
insert_resting b id side price qty =
    let (p, slab) = allocate b.slab in
    p >>= λ o.
    let order : Order = record {
      prev = none;
      next = none;
      order_id = id;
      quantity = qty;
      price = price;
      level_idx = price_to_idx b price;
      side = side;
    } in
    let b' = enter_level (record b { slab = slab }) o order in
    IdMap.insert b'.id_map id (some o) >>= λ r. some (record b' { id_map = r.1 })

unfoldable pub remove_from_book : Book → (o : ℕ) → Book
remove_from_book b o =
    let side = (b.slab.storage o).side in
    let idx = (b.slab.storage o).level_idx in
    let lvl = level b side idx in
    let (h, fifo) = unlink b.slab.storage lvl.orders o in
    let lvl' : PriceLevel = record {
      orders = fifo;
      total_qty = sub32 lvl.total_qty (h o).quantity;
      count = sub32 lvl.count 1;
    } in
    let b' = set_level (set_storage b h) side idx lvl' in
    if is_empty lvl' then vacate_level b' (h o).side (h o).level_idx else b'

-- `remove_from_book_(o); id_map_.erase(id); slab_.deallocate(o);`
unfoldable pub remove_order : Book → OrderId → (o : ℕ) → Option Book
remove_order b id o =
    let b' = remove_from_book b o in
    IdMap.erase b'.id_map id >>= λ r. some (record b' { id_map = r.1; slab = deallocate b'.slab o })

unfoldable pub cancel_at : Book → OrderId → Option ℕ → Option (Bool × Book)
cancel_at b id none = some (false, b)
cancel_at b id (some o) = remove_order b id o >>= λ b'. some (true, b')

unfoldable pub cancel : Book → OrderId → Option (Bool × Book)
cancel b id = find b id >>= cancel_at b id

-- `o->quantity -= by; level_(...).total_qty -= by;` for a `by` below the quantity
unfoldable pub shrink_order : Book → (o : ℕ) → (by : Quantity) → Book
shrink_order b o by =
    let order = b.slab.storage o in
    let lvl = level b order.side order.level_idx in
    set_level (set_storage b (set_quantity b.slab.storage o (order.quantity - by))) order.side
      order.level_idx (record lvl { total_qty = sub32 lvl.total_qty by })

unfoldable pub reduce_at : Book → OrderId → Quantity → Option ℕ → Option (Bool × Book)
reduce_at b id by none = some (false, b)
reduce_at b id by (some o) =
    if leb (b.slab.storage o).quantity by
    then remove_order b id o >>= (λ b'. some (true, b'))
    else some (true, shrink_order b o by)

unfoldable pub reduce : Book → OrderId → Quantity → Option (Bool × Book)
reduce b id by = find b id >>= reduce_at b id by
