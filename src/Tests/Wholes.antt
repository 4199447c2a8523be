-- ===== src/Tests/Wholes.antt =====
-- The program on a file of a directory message, an addition and reports.
use orderbook_engine.Base.{◌%◌, ◌≡◌, refl, arith, true, false, ◌∷◌, length}
use orderbook_engine.Base.Int.{pos}
use orderbook_engine.Itch.{Bytes, Event, StockDirectory}
use orderbook_engine.Itch.Messages.{IsSymbol}
use orderbook_engine.Itch.RoundTrip.{AreMessages}
use orderbook_engine.Itch.Wire.{stream, Spells}
use orderbook_engine.Replay.{symbol_matches, symbol_loop, new_handler, replay}
use orderbook_engine.Replay.CommandLine.{Args}
use orderbook_engine.Replay.Whole.{IsReported, replay-IsReported}
use orderbook_engine.Tests.Replays.{apple, clock, day, day-AreTaken}
use orderbook_engine.Tests.Setup.{raw}
use orderbook_engine.Tests.Stocks.{bare, bare_run, bare-IsStocked, free}
use orderbook_engine.Tests.Streams.{byte, Spells-test}

abbrev args : Args
args = record {
  file = "day.itch";
  symbol = "AAPL";
  out_dir = ".";
  base_price = pos 100;
  num_levels = 4;
  max_orders = 4;
  itch_tick = pos 100;
  top_n = 10;
  snapshot_only = false;
}

abbrev directory : StockDirectory
directory = record { stock_locate = 9; ts_ns = 0; stock = apple; market_category = 81 }

apple-IsSymbol : IsSymbol apple
apple-IsSymbol = record {
  a = 65;
  b = 65;
  c = 80;
  d = 76;
  e = 32;
  f = 32;
  g = 32;
  h = 32;
  eight = refl;
}

apple_matches : symbol_matches apple "AAPL" ≡ true
unfolding symbol_matches symbol_loop
apple_matches = refl

abbrev content : Bytes
content p = byte (stream (Event.on_stock_directory directory ∷ day)) p % 256

content-Spells : Spells content 0 (stream (Event.on_stock_directory directory ∷ day))
content-Spells = Spells-test content 0 (stream (Event.on_stock_directory directory ∷ day)) refl

day-AreMessages : AreMessages (Event.on_stock_directory directory ∷ day)
day-AreMessages = (
  (omega arith, omega arith, apple-IsSymbol),
  (
    (omega arith, omega arith, omega arith, omega arith, omega arith, apple-IsSymbol, omega arith),
    (
      (omega arith, omega arith, omega arith, omega arith, omega arith),
      (
        (omega arith, omega arith, omega arith, omega arith, omega arith),
        ((omega arith, omega arith, omega arith), tt),
      ),
    ),
  ),
)

replay-IsReported_example :
    IsReported 3 bare args directory day
      (replay clock raw args content (length (stream (Event.on_stock_directory directory ∷ day))))
unfolding new_handler
replay-IsReported_example =
    replay-IsReported clock 3 raw bare args directory day apple_matches (omega arith) (0 ∷ free)
      content bare_run bare-IsStocked day-AreTaken (λ p. omega arith) day-AreMessages content-Spells
