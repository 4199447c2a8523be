-- ===== src/Book/Submit.antt =====
-- `submit` and `modify` of include/lob/order_book.hpp.
use orderbook_engine.Base.{
  ℕ, ◌-◌, not, ◌&&◌, ◌||◌, Option, none, some, List, [], ltb, leb, ◌==◌, if◌then◌else◌,
}
use orderbook_engine.Base.Int.{eqb_ℤ}
use orderbook_engine.Base.Steps.{◌>>=◌}
use orderbook_engine.Book.Match.{Matched, done, Aggressor, match_side, would_cross, can_fully_fill}
use orderbook_engine.Book.Rest.{cancel, insert_resting, shrink_order}
use orderbook_engine.Book.State.{Book, find, in_range, price_to_idx}
use orderbook_engine.Types.{
  Price, Quantity, OrderId, Timestamp, Side, OrderType, TimeInForce, OrderStatus, SubmitResult,
  Trade, invalid_price, invalid_order_id, is_market_type, is_ioc, is_fok, is_post_only,
}

-- The arguments of `submit`, less the sink.
pub record Request : Type 0 where
  pub id : OrderId
  pub side : Side
  pub type : OrderType
  pub tif : TimeInForce
  pub price : Price
  pub qty : Quantity
  pub ts : Timestamp

pub record Outcome : Type 0 where
  pub result : SubmitResult
  pub trades : List Trade
  pub book : Book

abbrev pub answer : OrderStatus → (filled remaining : Quantity) → SubmitResult
answer s filled remaining = record { status = s; filled_qty = filled; remaining_qty = remaining }

-- An early return before anything has happened.
abbrev pub refuse : Book → OrderStatus → (remaining : Quantity) → Outcome
refuse b s remaining = record { result = answer s 0 remaining; trades = []; book = b }

-- What follows the aggressive phase.
unfoldable pub settle : Request → Matched → Option Outcome
settle r m =
    let filled = r.qty - m.remaining in
    let drop : Outcome = record {
      result =
          answer (if ltb 0 filled then OrderStatus.partially_filled else OrderStatus.cancelled)
            filled m.remaining;
      trades = m.trades;
      book = m.book;
    } in
    let rest : Option Outcome = insert_resting m.book r.id r.side r.price m.remaining >>= λ b'.
    some (record {
      result =
          answer
            (if r.qty == m.remaining then OrderStatus.accepted else OrderStatus.partially_filled)
            filled m.remaining;
      trades = m.trades;
      book = b';
    }) in
    if m.remaining == 0
    then some (record {
      result = answer OrderStatus.fully_filled r.qty 0;
      trades = m.trades;
      book = m.book;
    })
    else if is_ioc r.tif || is_market_type r.type
    then some drop
    else rest

abbrev pub aggressor : Request → Aggressor
aggressor r = record { side = r.side; id = r.id; ts = r.ts }

abbrev pub match_limit : Book → Request → Option ℕ
match_limit b r = if is_market_type r.type then none else some (price_to_idx b r.price)

-- The aggressive phase, unless it is skipped, and what follows it.
unfoldable pub execute : Book → Request → Option Outcome
execute b r =
    let walk = match_side b (aggressor r) (match_limit b r) r.qty in
    (if not (is_post_only r.tif) && (is_market_type r.type || would_cross b r.side r.price)
      then walk
      else some (done b r.qty))
    >>= settle r

-- The check of POST_ONLY.
unfoldable pub post_only_check : Book → Request → Option Outcome
post_only_check b r =
    if is_post_only r.tif && would_cross b r.side r.price
    then some (refuse b OrderStatus.cancelled r.qty)
    else execute b r

-- The check of FOK.
unfoldable pub fok_check : Book → Request → Option Outcome
fok_check b r =
    let limit_price = if is_market_type r.type then invalid_price else r.price in
    let check = can_fully_fill b r.side limit_price r.qty >>= λ absorbed.
    if absorbed then post_only_check b r else some (refuse b OrderStatus.cancelled r.qty) in
    if is_fok r.tif then check else post_only_check b r

unfoldable pub range_check : Book → Request → Option Outcome
range_check b r =
    if not (is_market_type r.type) && not (in_range b r.price)
    then some (refuse b OrderStatus.rejected 0)
    else fok_check b r

unfoldable pub duplicate_check : Book → Request → Option ℕ → Option Outcome
duplicate_check b r none = range_check b r
duplicate_check b r (some o) = some (refuse b OrderStatus.rejected 0)

unfoldable pub submit : Book → Request → Option Outcome
submit b r =
    if (r.qty == 0) || (r.id == invalid_order_id)
    then some (refuse b OrderStatus.rejected 0)
    else find b r.id >>= duplicate_check b r

-- `cancel(id)`, whose result is ignored, and a new limit order.
unfoldable pub resubmit : Book → OrderId → Side → Quantity → Price → Timestamp → Option Outcome
resubmit b id side new_qty new_price ts = cancel b id >>= λ c. submit c.1 (record {
  id = id;
  side = side;
  type = OrderType.limit;
  tif = TimeInForce.gtc;
  price = new_price;
  qty = new_qty;
  ts = ts;
})

unfoldable pub modify_at : Book → OrderId → Quantity → Price → Timestamp → Option ℕ → Option Outcome
modify_at b id new_qty new_price ts none = some (refuse b OrderStatus.rejected 0)
modify_at b id new_qty new_price ts (some o) =
    let order = b.slab.storage o in
    if eqb_ℤ new_price order.price && (ltb 0 new_qty && leb new_qty order.quantity)
    then some (record {
      result = answer OrderStatus.accepted 0 new_qty;
      trades = [];
      book = shrink_order b o (order.quantity - new_qty);
    })
    else resubmit b id order.side new_qty new_price ts

unfoldable pub modify : Book → OrderId → Quantity → Price → Timestamp → Option Outcome
modify b id new_qty new_price ts = find b id >>= modify_at b id new_qty new_price ts
