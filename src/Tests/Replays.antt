-- ===== src/Tests/Replays.antt =====
-- The replay of single messages into the books of the module on stocks.
use orderbook_engine.Base.{ℕ, ◌*◌, ◌≡◌, refl, inr, arith, some, List, [], ◌∷◌}
use orderbook_engine.Base.Int.{pos}
use orderbook_engine.Book.Live.{without_id, lower_id}
use orderbook_engine.Book.Live.Append.{IsPassive, IsAdded, submit-append}
use orderbook_engine.Book.Live.Insert.{HasRoom}
use orderbook_engine.Book.Live.Contract.{IsGone, IsStep, cancel-without_id, reduce-lower_id}
use orderbook_engine.Book.Rest.{cancel, reduce}
use orderbook_engine.Book.State.{Book}
use orderbook_engine.Book.Submit.{Request, submit}
use orderbook_engine.Histogram
use orderbook_engine.Itch.{Event, AddOrder}
use orderbook_engine.Replay.{ReplayHandler, engine_price, resting_order, handle_all, on_add_order}
use orderbook_engine.Replay.CommandLine.{Parsed, OptionName, Kind, kind, parse_args}
use orderbook_engine.Replay.CommandLine.Options.{
  Setting, typed, fields, documented, parse_args-typed,
}
use orderbook_engine.Replay.Adds.{IsReplayedAdd, on_add_order-IsReplayedAdd}
use orderbook_engine.Replay.Days.{CanAdd, AreTaken, IsPlayed, outcomes, handle_all-IsPlayed}
use orderbook_engine.Book.Fill.Sweep.{view}
use orderbook_engine.Book.Live.Ids.{view-Lacks}
use orderbook_engine.Replay.Tally.{IsTallied, handle_all-IsTallied}
use orderbook_engine.Tests.Setup.{program}
use orderbook_engine.Tests.Stocks.{
  bare, bare-IsStocked, bare-IsShelved, free, spot, spot-Fits, spare, price_in_range, quoted,
  queued, quoted-IsStocked, quoted-IsShelved,
}
use orderbook_engine.Book.Stock.Fresh.{no_queues}
use orderbook_engine.Types.{Side}

cancel-without_id_example : IsStep 3 quoted queued (without_id 3) (cancel quoted 3)
cancel-without_id_example =
    cancel-without_id 3 quoted queued free quoted-IsStocked quoted-IsShelved 3 (omega arith)

reduce-lower_id_example : IsStep 3 quoted queued (lower_id 3 2) (reduce quoted 3 2)
reduce-lower_id_example =
    reduce-lower_id 3 quoted queued free quoted-IsStocked quoted-IsShelved 3 2 (omega arith)

-- A bid for 5 at the price 102.
abbrev bid : Request
bid = resting_order 3 Side.buy (pos 102) 5 0

bid-IsPassive : IsPassive bare bid
unfolding program
bid-IsPassive = record {
  limit = refl;
  no_ioc = refl;
  no_fok = refl;
  no_cross = refl;
  within = refl;
  level_within = price_in_range;
  pos = omega arith;
  word = omega arith;
  ne_zero = omega arith;
}

bid-IsGone : IsGone 3 bare no_queues (0 ∷ free) bare-IsStocked bare-IsShelved 3
bid-IsGone y w = absurd (let m = w.member in cc)

bid-HasRoom : HasRoom 3 bare 3 0
bid-HasRoom = record {
  distance = 0;
  place = 0;
  other = 5;
  first = spot;
  fits = spot-Fits;
  vacant = spare;
  apart = omega arith;
}

submit-append_example : IsAdded 3 bare no_queues bid (submit bare bid)
submit-append_example =
    submit-append 3 bare no_queues 0 free bare-IsStocked bare-IsShelved bid bid-IsPassive bid-IsGone
      bid-HasRoom

-- A clock that goes on by 7 between any two readings.
abbrev pub clock : ℕ → ℕ
clock n = n * 7

-- The handler at a book, with the target 9 and a hundred wire ticks to an engine tick.
abbrev pub at_target : Book → ReplayHandler
at_target b = record {
  book = b;
  symbol = "AAPL";
  itch_tick = pos 100;
  target_locate = 9;
  hist_submit = Histogram.new;
  hist_cancel = Histogram.new;
  hist_reduce = Histogram.new;
  adds = 0;
  execs = 0;
  cancels = 0;
  deletes = 0;
  replaces = 0;
  replaces_skipped = 0;
  readings = 0;
}

-- `AAPL` and four blanks
abbrev pub apple : List ℕ
apple = 65 ∷ 65 ∷ 80 ∷ 76 ∷ 32 ∷ 32 ∷ 32 ∷ 32 ∷ []

abbrev addition : AddOrder
addition = record {
  stock_locate = 9;
  tracking_number = 0;
  ts_ns = 0;
  order_ref = 3;
  side = Side.buy;
  shares = 5;
  stock = apple;
  price = 10200;
}

price_102 : engine_price (pos 100) 10200 ≡ some (pos 102)
unfolding engine_price program
price_102 = refl

on_add_order-IsReplayedAdd_example :
    IsReplayedAdd 3 (at_target bare) no_queues bid (on_add_order clock addition (at_target bare))
on_add_order-IsReplayedAdd_example =
    on_add_order-IsReplayedAdd clock 3 (at_target bare) no_queues 0 free bare-IsStocked
      bare-IsShelved addition (pos 102) refl price_102 bid-IsPassive bid-IsGone bid-HasRoom

-- An execution of 2 of the bid, an execution for another symbol, and the bid's deletion.
abbrev reports : List Event
reports =
    Event.on_order_executed
      (record { stock_locate = 9; ts_ns = 1; order_ref = 3; executed_shares = 2; match_number = 1 })
    ∷ Event.on_order_executed (record {
      stock_locate = 8;
      ts_ns = 2;
      order_ref = 3;
      executed_shares = 2;
      match_number = 2;
    })
    ∷ Event.on_order_delete (record { stock_locate = 9; ts_ns = 3; order_ref = 3 })
    ∷ []

start-IsTallied : IsTallied (at_target quoted)
unfolding Histogram.new
start-IsTallied = record { submits = refl; cancels = refl; reduces = refl }

handle_all-IsTallied_example :
    (h : ReplayHandler) × (handle_all clock reports (at_target quoted) ≡ some h) × IsTallied h
handle_all-IsTallied_example =
    handle_all-IsTallied clock 3 reports (at_target quoted) queued free (omega arith)
      quoted-IsStocked quoted-IsShelved (omega arith, (omega arith, (omega arith, tt)))
      start-IsTallied

-- A command line with a symbol and a tick.
abbrev settings : List Setting
settings =
    Setting.option OptionName.symbol "MSFT"
    ∷ Setting.option OptionName.tick "--help"
    ∷ Setting.only_snapshot
    ∷ []

day_file : kind "day.itch" ≡ Kind.plain
unfolding kind
day_file = refl

parse_args-typed_example :
    parse_args (λ s. pos 7) (λ s. pos 7) (typed settings "day.itch")
    ≡ Parsed.parsed (fields (λ s. pos 7) (λ s. pos 7) settings (documented "day.itch"))
parse_args-typed_example =
    parse_args-typed (λ s. pos 7) (λ s. pos 7) settings "day.itch" day_file refl

-- The bid is added, and then reports come.
abbrev pub day : List Event
day = Event.on_add_order addition ∷ reports

bare_head : bare.slab.free_head ≡ some 0
unfolding program
bare_head = refl

addition-CanAdd : CanAdd 3 (at_target bare) (view bare no_queues) addition
addition-CanAdd = record {
  price = pos 102;
  slot = 0;
  in_ticks = price_102;
  passive = bid-IsPassive;
  new_id = view-Lacks bare no_queues 3 bid-IsGone;
  head = bare_head;
  room = bid-HasRoom;
}

pub day-AreTaken : AreTaken clock 3 (at_target bare) (at_target bare) (view bare no_queues) day
day-AreTaken = (
  inr addition-CanAdd,
  λ h₁ e₁. (omega arith, λ h₂ e₂. (omega arith, λ h₃ e₃. (omega arith, λ h₄ e₄. tt))),
)

handle_all-IsPlayed_example :
    IsPlayed 3
      (at_target bare)
      (outcomes (at_target bare) day (view bare no_queues))
      (handle_all clock day (at_target bare))
handle_all-IsPlayed_example =
    handle_all-IsPlayed clock 3 day (at_target bare) no_queues (0 ∷ free) (omega arith)
      bare-IsStocked bare-IsShelved day-AreTaken
