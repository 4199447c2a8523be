-- ===== src/Replay.antt =====
-- The replay program, src/replay.cpp: the handler that drives the book from the parsed messages, the rows of
-- the snapshot, and the run of the whole. The clock is a function from the number of its readings so far to
-- the reading; the program's text output is not modelled.
pub mod CommandLine
pub mod Tally
pub mod Reports
pub mod Adds
pub mod Replaces
pub mod Days
pub mod Whole
use Prim.Native.Char.{code}
use Prim.Native.String as Text
use Prim.Native.String.{String}
use orderbook_engine.Base.{
  ℕ, zero, suc, ◌+◌, ◌-◌, ◌/◌, ◌%◌, ◌^◌, Bool, true, false, ◌&&◌, Option, none, some, List, [], ◌∷◌,
  ◌++◌, length, ◌==◌, if◌then◌else◌,
}
use orderbook_engine.Base.Int.{ℤ, to_unsigned, to_signed32}
use orderbook_engine.Base.Steps.{◌>>=◌}
use orderbook_engine.Book.Rest.{cancel, reduce}
use orderbook_engine.Book.State.{
  Book, Config, LevelSnapshot, new, find, top_n, best_bid, best_ask, open_orders,
}
use orderbook_engine.Book.Submit.{Request, Outcome, submit}
use orderbook_engine.Histogram
use orderbook_engine.Histogram.{LatencyHistogram, record_ns}
use orderbook_engine.Itch.{
  Bytes, Event, StockDirectory, AddOrder, OrderExecuted, OrderExecutedWithPrice, OrderCancel,
  OrderDelete, OrderReplace, parse,
}
use orderbook_engine.Orders.{Heap}
use orderbook_engine.Replay.CommandLine.{Args}
use orderbook_engine.Types.{OrderId, Price, Quantity, Timestamp, Side, OrderType, TimeInForce}

-- The loop of `symbol_matches` with `k` characters to go; a symbol that has ended goes on with blanks.
unfoldable pub symbol_loop : (k : ℕ) → (wire : List ℕ) → (want : String) → Bool
symbol_loop zero wire want = true
symbol_loop (suc k) [] want = false
symbol_loop (suc k) (x ∷ xs) Text.[] =
    let rest = symbol_loop k xs Text.[] in if x == 32 then rest else false
symbol_loop (suc k) (x ∷ xs) (Text.◌∷◌ c cs) =
    let rest = symbol_loop k xs cs in if x == code c then rest else false

unfoldable pub symbol_matches : (wire : List ℕ) → (want : String) → Bool
symbol_matches wire want = symbol_loop 8 wire want

-- `ReplayHandler`, with what it refers to: the book and the histograms. `readings` counts those of the clock.
pub record ReplayHandler : Type 0 where
  pub book : Book
  pub symbol : String
  pub itch_tick : ℤ
  pub target_locate : ℕ
  pub hist_submit : LatencyHistogram
  pub hist_cancel : LatencyHistogram
  pub hist_reduce : LatencyHistogram
  pub adds : ℕ
  pub execs : ℕ
  pub cancels : ℕ
  pub deletes : ℕ
  pub replaces : ℕ
  pub replaces_skipped : ℕ
  pub readings : ℕ

-- `++` of a 64-bit counter
abbrev pub inc64 : ℕ → ℕ
inc64 n = (n + 1) % 2 ^ 64

-- A price in ticks of the engine; there is none if the tick is 0, by which the code divides.
unfoldable pub engine_price : (itch_tick : ℤ) → (price : ℕ) → Option Price
engine_price itch_tick price =
    let t = to_unsigned 32 itch_tick in if t == 0 then none else some (to_signed32 (price / t))

-- The request of an add or a replace: a limit order, good till cancelled.
abbrev pub resting_order : OrderId → Side → Price → Quantity → Timestamp → Request
resting_order id side price shares ts = record {
  id = id;
  side = side;
  type = OrderType.limit;
  tif = TimeInForce.gtc;
  price = price;
  qty = shares;
  ts = ts;
}

module _ (now : ℕ → ℕ) where
  -- `time_`: the two readings around the call, and the entry of their difference.
  unfoldable pub time : LatencyHistogram → (readings : ℕ) → LatencyHistogram
  time hist readings = record_ns hist ((now (readings + 1) + 2 ^ 64 - now readings) % 2 ^ 64)

  unfoldable pub timed_submit : Request → ReplayHandler → Option ReplayHandler
  timed_submit r h = submit h.book r >>= λ o. some (record h {
    book = o.book;
    hist_submit = time h.hist_submit h.readings;
    readings = h.readings + 2;
  })

  unfoldable pub timed_cancel : OrderId → ReplayHandler → Option ReplayHandler
  timed_cancel id h = cancel h.book id >>= λ c. some (record h {
    book = c.1;
    hist_cancel = time h.hist_cancel h.readings;
    readings = h.readings + 2;
  })

  unfoldable pub timed_reduce : OrderId → Quantity → ReplayHandler → Option ReplayHandler
  timed_reduce id by h = reduce h.book id by >>= λ c. some (record h {
    book = c.1;
    hist_reduce = time h.hist_reduce h.readings;
    readings = h.readings + 2;
  })

  unfoldable pub on_stock_directory : StockDirectory → ReplayHandler → ReplayHandler
  on_stock_directory d h =
      if h.target_locate == 0 && symbol_matches d.stock h.symbol
      then record h { target_locate = d.stock_locate }
      else h

  -- `if (locate != target_locate_) return;` before a handler's body
  abbrev pub if_target :
      (locate : ℕ) → ReplayHandler → (body : Option ReplayHandler) → Option ReplayHandler
  if_target locate h body = if locate == h.target_locate then body else some h

  unfoldable pub on_add_order : AddOrder → ReplayHandler → Option ReplayHandler
  on_add_order a h = if_target a.stock_locate h (
      engine_price h.itch_tick a.price >>= λ p.
      timed_submit (resting_order a.order_ref a.side p a.shares a.ts_ns) h >>= λ h'.
      some (record h' { adds = inc64 h'.adds }))

  unfoldable pub on_order_executed : OrderExecuted → ReplayHandler → Option ReplayHandler
  on_order_executed e h = if_target e.stock_locate h (
      timed_reduce e.order_ref e.executed_shares h >>= λ h'.
      some (record h' { execs = inc64 h'.execs }))

  unfoldable pub on_order_executed_with_price :
      OrderExecutedWithPrice → ReplayHandler → Option ReplayHandler
  on_order_executed_with_price e h = if_target e.stock_locate h (
      timed_reduce e.order_ref e.executed_shares h >>= λ h'.
      some (record h' { execs = inc64 h'.execs }))

  unfoldable pub on_order_cancel : OrderCancel → ReplayHandler → Option ReplayHandler
  on_order_cancel c h = if_target c.stock_locate h (
      timed_reduce c.order_ref c.cancelled_shares h >>= λ h'.
      some (record h' { cancels = inc64 h'.cancels }))

  unfoldable pub on_order_delete : OrderDelete → ReplayHandler → Option ReplayHandler
  on_order_delete d h =
      if_target d.stock_locate h
        (timed_cancel d.order_ref h >>= λ h'. some (record h' { deletes = inc64 h'.deletes }))

  -- The original order, if it is found, gives the side; it is cancelled and the new order submitted.
  unfoldable pub replace_found : OrderReplace → ReplayHandler → Option ℕ → Option ReplayHandler
  replace_found r h none = some (record h { replaces_skipped = inc64 h.replaces_skipped })
  replace_found r h (some o) = engine_price h.itch_tick r.price >>= λ p.
      timed_cancel r.original_order_ref h >>= λ h'.
      timed_submit (resting_order r.new_order_ref (h.book.slab.storage o).side p r.shares r.ts_ns)
        h'
      >>= λ h''. some (record h'' { replaces = inc64 h''.replaces })

  unfoldable pub on_order_replace : OrderReplace → ReplayHandler → Option ReplayHandler
  on_order_replace r h =
      if_target r.stock_locate h (find h.book r.original_order_ref >>= replace_found r h)

  -- The call of the handler; the calls that it does not override do nothing.
  unfoldable pub handle : Event → ReplayHandler → Option ReplayHandler
  handle (Event.on_system_event e) h = some h
  handle (Event.on_stock_directory d) h = some (on_stock_directory d h)
  handle (Event.on_add_order a) h = on_add_order a h
  handle (Event.on_order_executed e) h = on_order_executed e h
  handle (Event.on_order_executed_with_price e) h = on_order_executed_with_price e h
  handle (Event.on_order_cancel c) h = on_order_cancel c h
  handle (Event.on_order_delete d) h = on_order_delete d h
  handle (Event.on_order_replace r) h = on_order_replace r h
  handle (Event.on_unhandled type length) h = some h

  unfoldable pub handle_all : List Event → ReplayHandler → Option ReplayHandler
  handle_all [] h = some h
  handle_all (e ∷ es) h = handle e h >>= handle_all es

-- The constructor.
unfoldable pub new_handler : Book → (symbol : String) → (itch_tick : ℤ) → ReplayHandler
new_handler book symbol itch_tick = record {
  book = book;
  symbol = symbol;
  itch_tick = itch_tick;
  target_locate = 0;
  hist_submit = Histogram.new;
  hist_cancel = Histogram.new;
  hist_reduce = Histogram.new;
  adds = 0;
  execs = 0;
  cancels = 0;
  deletes = 0;
  replaces = 0;
  replaces_skipped = 0;
  readings = 0;
}

-- A row of the snapshot: the side's letter `B` or `A`, the level's number, its price, quantity and count.
pub record Row : Type 0 where
  pub side : ℕ
  pub number : ℕ
  pub level : LevelSnapshot

unfoldable pub snapshot_rows : (side number : ℕ) → List LevelSnapshot → List Row
snapshot_rows side number [] = []
snapshot_rows side number (l ∷ ls) =
    record { side = side; number = number; level = l } ∷ snapshot_rows side (number + 1) ls

-- The rows of `write_snapshot`, without its first line.
unfoldable pub write_snapshot : Book → (n : ℕ) → List Row
write_snapshot book n =
    snapshot_rows 66 0 (top_n book Side.buy n) ++ snapshot_rows 65 0 (top_n book Side.sell n)

-- What `main` has once the messages are parsed, the number of them and the handler, and the rows of the snapshot that it
-- then writes.
pub record Report : Type 0 where
  pub n_msgs : ℕ
  pub handler : ReplayHandler
  pub snapshot : List Row

-- `main` after the arguments, with the file's content and length.
unfoldable pub replay : (now : ℕ → ℕ) → (raw : Heap) → Args → Bytes → (len : ℕ) → Option Report
replay now raw args bytes len =
    new raw (record {
      base_price = args.base_price;
      num_levels = args.num_levels;
      max_orders = args.max_orders;
    })
    >>= λ book. parse bytes len >>= λ es.
        handle_all now es (new_handler book args.symbol args.itch_tick) >>= λ h.
        some
          (record { n_msgs = length es; handler = h; snapshot = write_snapshot h.book args.top_n })
