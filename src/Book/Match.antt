-- ===== src/Book/Match.antt =====
-- The matching loop `match_` of include/lob/order_book.hpp, the walk of `can_fully_fill` and the
-- test `would_cross`. The trades handed to the sink are returned as a list, the first one first.
pub mod Volume
use Prim.Native.Nat.{min}
use orderbook_engine.Base.{
  ℕ, zero, suc, ◌+◌, ◌-◌, ◌*◌, ◌%◌, ◌^◌, Bool, true, false, Option, none, some, List, [], ◌∷◌, ◌++◌,
  ltb, leb, ◌==◌, if◌then◌else◌, update,
}
use orderbook_engine.Base.Int.{eqb_ℤ}
use orderbook_engine.Base.Steps.{◌>>=◌}
use orderbook_engine.Book.State.{
  Book, PriceLevel, is_empty, price_to_idx, price_offset, idx_to_price, level, set_level,
  next_level,
}
use orderbook_engine.Book.Rest.{add32, sub32, set_storage, best_idx, set_best_idx, clear_bit}
use orderbook_engine.IdMap
use orderbook_engine.IdMap.{IdMap}
use orderbook_engine.Orders.{Order, Heap, set_quantity}
use orderbook_engine.Orders.Fifo.{unlink}
use orderbook_engine.Orders.Slab.{Slab, deallocate}
use orderbook_engine.Types.{
  Price, Quantity, OrderId, Timestamp, Side, opposite, Trade, invalid_price,
}

-- What a walk leaves: the book, the aggressor's unfilled quantity and the trades made.
pub record Matched : Type 0 where
  pub book : Book
  pub remaining : Quantity
  pub trades : List Trade

abbrev pub done : Book → Quantity → Matched
done b remaining = record { book = b; remaining = remaining; trades = [] }

-- The head leaves its level, which counts one order less.
unfoldable pub unlink_head : Book → Side → (i head : ℕ) → Book
unlink_head b side i head =
    let lvl = level b side i in
    let (h, fifo) = unlink b.slab.storage lvl.orders head in
    set_level (set_storage b h) side i (record lvl { orders = fifo; count = sub32 lvl.count 1 })

unfoldable pub release : Book → (o : ℕ) → Bool × IdMap → Option Book
release b o r = some (record b { id_map = r.1; slab = deallocate b.slab o })

-- The head has no quantity left: it leaves its level, the map and the slab.
unfoldable pub retire_head : Book → Side → (i head : ℕ) → Option Book
retire_head b side i head =
    let b' = unlink_head b side i head in
    IdMap.erase b'.id_map (b'.slab.storage head).order_id >>= release b' head

-- `head->quantity -= fill; lvl.total_qty -= fill;`, where `fill` is at most the quantity
unfoldable pub take_fill : Book → Side → (i head : ℕ) → (fill : Quantity) → Book
take_fill b side i head fill =
    let lvl = level b side i in
    set_level
      (set_storage b (set_quantity b.slab.storage head ((b.slab.storage head).quantity - fill)))
      side i (record lvl { total_qty = sub32 lvl.total_qty fill })

-- One fill against the head of the level at `i`.
unfoldable pub fill_head : Book → Side → (i head : ℕ) → (fill : Quantity) → Option Book
fill_head b side i head fill =
    let b' = take_fill b side i head fill in
    if (b'.slab.storage head).quantity == 0 then retire_head b' side i head else some b'

-- An aggressor: its side, id and time.
pub record Aggressor : Type 0 where
  pub side : Side
  pub id : OrderId
  pub ts : Timestamp

abbrev pub trade : Book → Aggressor → (i head : ℕ) → Quantity → Trade
trade b a i head fill = record {
  resting_id = (b.slab.storage head).order_id;
  aggressor_id = a.id;
  price = idx_to_price b i;
  quantity = fill;
  ts = a.ts;
  aggressor_side = a.side;
}

-- `std::min(remaining, head->quantity)`
abbrev pub fill_of : Book → (head : ℕ) → (remaining : Quantity) → Quantity
fill_of b head remaining = min remaining (b.slab.storage head).quantity

abbrev pub put_trade : Trade → Matched → Option Matched
put_trade t m = some (record m { trades = t ∷ m.trades })

-- A round of the inner loop at the head of the level; `next` is the rest of the loop.
unfoldable pub fill_round :
    (next : Book → Quantity → Option Matched)
    → Book
    → Aggressor
    → (i : ℕ) → Quantity
    → Option ℕ
    → Option Matched
fill_round next b a i remaining none = some (done b remaining)
fill_round next b a i remaining (some head) =
    fill_head b (opposite a.side) i head (fill_of b head remaining) >>= λ b'.
    next b' (remaining - fill_of b head remaining)
    >>= put_trade (trade b a i head (fill_of b head remaining))

-- `while (remaining > 0 && !lvl.orders.empty())`, with `k` rounds at most
unfoldable pub fill_loop : (k : ℕ) → Book → Aggressor → (i : ℕ) → Quantity → Option Matched
fill_loop zero b a i remaining = none
fill_loop (suc k) b a i remaining =
    let round =
      fill_round (λ b' r. fill_loop k b' a i r) b a i remaining
        (level b (opposite a.side) i).orders.head in
    if remaining == 0 then some (done b remaining) else round

-- `limit != kNoBest && i > limit` for a buyer and `limit != kNoBest && i < limit` for a seller
unfoldable pub is_breached : Side → (limit : Option ℕ) → ℕ → Bool
is_breached side none i = false
is_breached Side.buy (some limit) i = ltb limit i
is_breached Side.sell (some limit) i = ltb i limit

-- The level at `i` has been emptied: the best index is taken anew.
unfoldable pub leave_level : Book → Side → ℕ → Book
leave_level b side i = let b' = clear_bit b side i in set_best_idx b' side (next_level b' side i)

-- Enough rounds for a level: each but the last two retires an order.
abbrev pub level_rounds : Book → ℕ
level_rounds b = b.slab.capacity + 2

abbrev pub put_trades : List Trade → Matched → Option Matched
put_trades ts m = some (record m { trades = ts ++ m.trades })

-- What follows the inner loop at the level `i`; `next` is the rest of the outer loop.
unfoldable pub after_level :
    (next : Book → Option ℕ → Quantity → Option Matched) → Side → (i : ℕ) → Matched → Option Matched
after_level next side i m =
    let b' = leave_level m.book side i in
    let rest = next b' (best_idx b' side) m.remaining >>= put_trades m.trades in
    if is_empty (level m.book side i) then rest else some m

-- `while (i != kNoBest && remaining > 0)`, with `k` rounds at most
unfoldable pub match_loop :
    (k : ℕ) → Book → Aggressor → (limit i : Option ℕ) → Quantity → Option Matched
match_loop zero b a limit i remaining = none
match_loop (suc k) b a limit none remaining = some (done b remaining)
match_loop (suc k) b a limit (some i) remaining =
    let round =
      fill_loop (level_rounds b) b a i remaining
      >>= after_level (λ b' j r. match_loop k b' a limit j r) (opposite a.side) i in
    if remaining == 0
    then some (done b remaining)
    else if is_breached a.side limit i
    then some (done b remaining)
    else round

-- Enough rounds for a side: each but the last leaves a level behind.
abbrev pub side_rounds : Book → ℕ
side_rounds b = b.cfg.num_levels + 2

unfoldable pub match_side : Book → Aggressor → (limit : Option ℕ) → Quantity → Option Matched
match_side b a limit remaining =
    match_loop (side_rounds b) b a limit (best_idx b (opposite a.side)) remaining

unfoldable pub would_cross : Book → Side → Price → Bool
would_cross b Side.buy p = elim (b.best_ask_idx) [
  | none ↦ false
  | some best ↦ leb best (price_offset b p)
]
would_cross b Side.sell p = elim (b.best_bid_idx) [
  | none ↦ false
  | some best ↦ leb (price_offset b p) best
]

-- `i <= limit` for a buyer and `i >= limit` for a seller
unfoldable pub is_within : Side → (limit i : ℕ) → Bool
is_within Side.buy limit i = leb i limit
is_within Side.sell limit i = leb limit i

-- The loop of `can_fully_fill` for an aggressor of the given side, with `k` rounds at most.
unfoldable pub absorb_loop :
    (k : ℕ) → Book → Side → (limit : ℕ) → Option ℕ → (acc qty : Quantity) → Option Bool
absorb_loop zero b side limit i acc qty = none
absorb_loop (suc k) b side limit none acc qty = some false
absorb_loop (suc k) b side limit (some i) acc qty =
    let acc' = add32 acc (level b (opposite side) i).total_qty in
    let rest = absorb_loop k b side limit (next_level b (opposite side) i) acc' qty in
    if is_within side limit i then (if leb qty acc' then some true else rest) else some false

-- The last index that a walk may reach: without a limit, the far end of the side.
unfoldable pub walk_limit : Book → Side → Price → ℕ
walk_limit b side p =
    if eqb_ℤ p invalid_price
    then elim side [ Side.buy ↦ (b.cfg.num_levels + 2 ^ 64 - 1) % 2 ^ 64 | Side.sell ↦ 0 ]
    else price_to_idx b p

unfoldable pub can_fully_fill : Book → Side → Price → Quantity → Option Bool
can_fully_fill b side limit_price qty =
    absorb_loop (side_rounds b) b side (walk_limit b side limit_price) (best_idx b (opposite side))
      0 qty
