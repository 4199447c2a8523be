-- ===== src/Types.antt =====
-- The vocabulary of include/lob/types.hpp: sides, order types, times in force, trades and the
-- result of a submission. `Quantity`, `OrderId` and `Timestamp` are natural numbers, whose wrap
-- is written out where the code computes with them; `Price` is a signed integer.
use orderbook_engine.Base.{ℕ, Bool, true, false}
use orderbook_engine.Base.Int.{ℤ, negsuc}

abbrev pub Price : Type 0
Price = ℤ

abbrev pub Quantity : Type 0
Quantity = ℕ

abbrev pub OrderId : Type 0
OrderId = ℕ

abbrev pub Timestamp : Type 0
Timestamp = ℕ

abbrev pub invalid_price : Price
invalid_price = negsuc 0

abbrev pub invalid_order_id : OrderId
invalid_order_id = 0

pub data Side : Type 0 where
  buy sell : Side

-- The exclusive or with 1 swaps the two values of the enumeration.
abbrev pub opposite : Side → Side
opposite Side.buy = Side.sell
opposite Side.sell = Side.buy

pub data OrderType : Type 0 where
  limit market : OrderType

pub data TimeInForce : Type 0 where
  gtc day ioc fok post_only : TimeInForce

pub record Trade : Type 0 where
  pub resting_id : OrderId
  pub aggressor_id : OrderId
  pub price : Price
  pub quantity : Quantity
  pub ts : Timestamp
  pub aggressor_side : Side

pub data OrderStatus : Type 0 where
  accepted fully_filled partially_filled cancelled rejected : OrderStatus

pub record SubmitResult : Type 0 where
  pub status : OrderStatus
  pub filled_qty : Quantity
  pub remaining_qty : Quantity

-- The tests of equality that the code makes on enumerations.
abbrev pub is_buy : Side → Bool
is_buy Side.buy = true
is_buy Side.sell = false

abbrev pub is_market_type : OrderType → Bool
is_market_type OrderType.limit = false
is_market_type OrderType.market = true

abbrev pub is_ioc : TimeInForce → Bool
is_ioc TimeInForce.ioc = true
is_ioc _ = false

abbrev pub is_fok : TimeInForce → Bool
is_fok TimeInForce.fok = true
is_fok _ = false

abbrev pub is_post_only : TimeInForce → Bool
is_post_only TimeInForce.post_only = true
is_post_only _ = false
