-- ===== src/Itch.antt =====
-- The parser of include/lob/itch.hpp and src/itch_parser.cpp. The stream is a function from positions
-- to bytes, which is read past its end where the code reads there. A call of the handler is an event,
-- and the parser returns the events in the order of the calls.
pub mod Frames
pub mod Numbers
pub mod Wire
pub mod Messages
pub mod RoundTrip
use Prim.Native.Nat.{bit_or}
use orderbook_engine.Base.{
  ℕ, zero, suc, ◌+◌, ◌*◌, ◌%◌, ◌^◌, Bool, true, false, Option, none, some, List, [], ◌∷◌, leb, ltb,
  ◌==◌, if◌then◌else◌,
}
use orderbook_engine.Base.Steps.{◌>>=◌}
use orderbook_engine.Types.{Side}

abbrev pub Bytes : Type 0
Bytes = ℕ → ℕ

pub record AddOrder : Type 0 where
  pub stock_locate : ℕ
  pub tracking_number : ℕ
  pub ts_ns : ℕ
  pub order_ref : ℕ
  pub side : Side
  pub shares : ℕ
  pub stock : List ℕ
  pub price : ℕ

pub record OrderExecuted : Type 0 where
  pub stock_locate : ℕ
  pub ts_ns : ℕ
  pub order_ref : ℕ
  pub executed_shares : ℕ
  pub match_number : ℕ

pub record OrderExecutedWithPrice : Type 0 where
  pub stock_locate : ℕ
  pub ts_ns : ℕ
  pub order_ref : ℕ
  pub executed_shares : ℕ
  pub match_number : ℕ
  pub printable : Bool
  pub execution_price : ℕ

pub record OrderCancel : Type 0 where
  pub stock_locate : ℕ
  pub ts_ns : ℕ
  pub order_ref : ℕ
  pub cancelled_shares : ℕ

pub record OrderDelete : Type 0 where
  pub stock_locate : ℕ
  pub ts_ns : ℕ
  pub order_ref : ℕ

pub record OrderReplace : Type 0 where
  pub stock_locate : ℕ
  pub ts_ns : ℕ
  pub original_order_ref : ℕ
  pub new_order_ref : ℕ
  pub shares : ℕ
  pub price : ℕ

pub record SystemEvent : Type 0 where
  pub ts_ns : ℕ
  pub event_code : ℕ

pub record StockDirectory : Type 0 where
  pub stock_locate : ℕ
  pub ts_ns : ℕ
  pub stock : List ℕ
  pub market_category : ℕ

-- The calls of the handler.
pub data Event : Type 0 where
  on_system_event : SystemEvent → Event
  on_stock_directory : StockDirectory → Event
  on_add_order : AddOrder → Event
  on_order_executed : OrderExecuted → Event
  on_order_executed_with_price : OrderExecutedWithPrice → Event
  on_order_cancel : OrderCancel → Event
  on_order_delete : OrderDelete → Event
  on_order_replace : OrderReplace → Event
  on_unhandled : (type length : ℕ) → Event

-- Big-endian numbers at a position.
unfoldable pub be16 : Bytes → ℕ → ℕ
be16 d p = bit_or (d p * 2 ^ 8) (d (p + 1)) % 2 ^ 16

unfoldable pub be32 : Bytes → ℕ → ℕ
be32 d p =
    bit_or
      (bit_or (bit_or (d p * 2 ^ 24 % 2 ^ 32) (d (p + 1) * 2 ^ 16 % 2 ^ 32))
        (d (p + 2) * 2 ^ 8 % 2 ^ 32))
      (d (p + 3))

unfoldable pub be48 : Bytes → ℕ → ℕ
be48 d p =
    bit_or
      (bit_or
        (bit_or
          (bit_or (bit_or (d p * 2 ^ 40 % 2 ^ 64) (d (p + 1) * 2 ^ 32 % 2 ^ 64))
            (d (p + 2) * 2 ^ 24 % 2 ^ 64))
          (d (p + 3) * 2 ^ 16 % 2 ^ 64))
        (d (p + 4) * 2 ^ 8 % 2 ^ 64))
      (d (p + 5))

unfoldable pub be64 : Bytes → ℕ → ℕ
be64 d p = bit_or (be32 d p * 2 ^ 32 % 2 ^ 64) (be32 d (p + 4))

unfoldable pub read_symbol : Bytes → ℕ → List ℕ
read_symbol d p =
    d p ∷ d (p + 1) ∷ d (p + 2) ∷ d (p + 3) ∷ d (p + 4) ∷ d (p + 5) ∷ d (p + 6) ∷ d (p + 7) ∷ []

-- The cases of the `switch`, with the message at the position `m`.
unfoldable pub read_system_event : Bytes → ℕ → SystemEvent
read_system_event d m = record { ts_ns = be48 d (m + 5); event_code = d (m + 11) }

unfoldable pub read_stock_directory : Bytes → ℕ → StockDirectory
read_stock_directory d m = record {
  stock_locate = be16 d (m + 1);
  ts_ns = be48 d (m + 5);
  stock = read_symbol d (m + 11);
  market_category = d (m + 19);
}

-- `B` is 66.
unfoldable pub read_add_order : Bytes → ℕ → AddOrder
read_add_order d m = record {
  stock_locate = be16 d (m + 1);
  tracking_number = be16 d (m + 3);
  ts_ns = be48 d (m + 5);
  order_ref = be64 d (m + 11);
  side = if d (m + 19) == 66 then Side.buy else Side.sell;
  shares = be32 d (m + 20);
  stock = read_symbol d (m + 24);
  price = be32 d (m + 32);
}

unfoldable pub read_order_executed : Bytes → ℕ → OrderExecuted
read_order_executed d m = record {
  stock_locate = be16 d (m + 1);
  ts_ns = be48 d (m + 5);
  order_ref = be64 d (m + 11);
  executed_shares = be32 d (m + 19);
  match_number = be64 d (m + 23);
}

-- `Y` is 89.
unfoldable pub read_order_executed_with_price : Bytes → ℕ → OrderExecutedWithPrice
read_order_executed_with_price d m = record {
  stock_locate = be16 d (m + 1);
  ts_ns = be48 d (m + 5);
  order_ref = be64 d (m + 11);
  executed_shares = be32 d (m + 19);
  match_number = be64 d (m + 23);
  printable = d (m + 31) == 89;
  execution_price = be32 d (m + 32);
}

unfoldable pub read_order_cancel : Bytes → ℕ → OrderCancel
read_order_cancel d m = record {
  stock_locate = be16 d (m + 1);
  ts_ns = be48 d (m + 5);
  order_ref = be64 d (m + 11);
  cancelled_shares = be32 d (m + 19);
}

unfoldable pub read_order_delete : Bytes → ℕ → OrderDelete
read_order_delete d m = record {
  stock_locate = be16 d (m + 1);
  ts_ns = be48 d (m + 5);
  order_ref = be64 d (m + 11);
}

unfoldable pub read_order_replace : Bytes → ℕ → OrderReplace
read_order_replace d m = record {
  stock_locate = be16 d (m + 1);
  ts_ns = be48 d (m + 5);
  original_order_ref = be64 d (m + 11);
  new_order_ref = be64 d (m + 19);
  shares = be32 d (m + 27);
  price = be32 d (m + 31);
}

-- The `switch` on the type: `S`, `R`, `A`, `F`, `E`, `C`, `X`, `D` and `U`.
unfoldable pub dispatch : Bytes → (m msg_len : ℕ) → Event
dispatch d m msg_len =
    let t = d m in
    if t == 83
    then Event.on_system_event (read_system_event d m)
    else if t == 82
    then Event.on_stock_directory (read_stock_directory d m)
    else if t == 65
    then Event.on_add_order (read_add_order d m)
    else if t == 70
    then Event.on_add_order (read_add_order d m)
    else if t == 69
    then Event.on_order_executed (read_order_executed d m)
    else if t == 67
    then Event.on_order_executed_with_price (read_order_executed_with_price d m)
    else if t == 88
    then Event.on_order_cancel (read_order_cancel d m)
    else if t == 68
    then Event.on_order_delete (read_order_delete d m)
    else if t == 85
    then Event.on_order_replace (read_order_replace d m)
    else Event.on_unhandled t msg_len

-- The call of the handler, as an event in front of those that follow.
abbrev pub emit : Event → List Event → Option (List Event)
emit e es = some (e ∷ es)

-- `while (pos + kFrameLengthBytes <= len)`, with `k` rounds at most
unfoldable pub parse_loop : (k : ℕ) → Bytes → (len pos : ℕ) → Option (List Event)
parse_loop zero d len pos = none
parse_loop (suc k) d len pos =
    let msg_len = be16 d pos in
    let m = pos + 2 in
    let rest = parse_loop k d len (m + msg_len) >>= emit (dispatch d m msg_len) in
    if leb m len then (if ltb len (m + msg_len) then some [] else rest) else some []

-- Each round takes two bytes at least. The count that the code returns is the number of events.
unfoldable pub parse : Bytes → (len : ℕ) → Option (List Event)
parse d len = parse_loop (len + 1) d len 0
