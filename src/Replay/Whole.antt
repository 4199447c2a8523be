-- ===== src/Replay/Whole.antt =====
-- The run of the whole program on the messages of a day, from their bytes to the book.
use orderbook_engine.Base.{
  ℕ, ◌+◌, ◌≡◌, ◌≢◌, refl, ◌∙◌, true, Option, some, List, ◌∷◌, length, arith,
}
use orderbook_engine.Base.Steps.{>>=-some}
use orderbook_engine.Book.Best.Levels.{new-IsShelved}
use orderbook_engine.Book.Fill.Sweep.{view}
use orderbook_engine.Book.State.{Book, Config, new}
use orderbook_engine.Book.Stock.{IsStockedBook}
use orderbook_engine.Book.Stock.Fresh.{no_queues}
use orderbook_engine.Itch.{Bytes, Event, StockDirectory, parse}
use orderbook_engine.Itch.Numbers.{IsBytes}
use orderbook_engine.Itch.RoundTrip.{AreMessages, parse-stream}
use orderbook_engine.Itch.Wire.{stream, Spells}
use orderbook_engine.Orders.{Heap}
use orderbook_engine.Replay.{
  ReplayHandler, Report, symbol_matches, on_stock_directory, handle, handle_all, new_handler,
  write_snapshot, replay,
}
use orderbook_engine.Replay.CommandLine.{Args}
use orderbook_engine.Replay.Days.{AreTaken, IsPlayed, outcomes, handle_all-IsPlayed}

abbrev pub config_of : Args → Config
config_of args = record {
  base_price = args.base_price;
  num_levels = args.num_levels;
  max_orders = args.max_orders;
}

-- The handler once the target is known.
abbrev pub targeted : Book → Args → (locate : ℕ) → ReplayHandler
targeted book args locate = record (new_handler book args.symbol args.itch_tick) {
  target_locate = locate;
}

-- The run returns a report of as many messages as the list has and of a handler that has taken them, with the snapshot
-- of its book.
pub record IsReported (k : ℕ) (book : Book) (args : Args) (d : StockDirectory) (es : List Event)
    (run : Option Report) : Type 0 where
  pub report : Report
  pub returns : run ≡ some report
  pub counted : report.n_msgs ≡ length es + 1
  pub played :
      IsPlayed k
        (targeted book args d.stock_locate)
        (outcomes (targeted book args d.stock_locate) es (view book no_queues))
        (some report.handler)
  pub snapshot : report.snapshot ≡ write_snapshot report.handler.book args.top_n

module _ (now : ℕ → ℕ) (k : ℕ) (raw : Heap) (book : Book) (args : Args) (d : StockDirectory)
    (es : List Event) (matches : symbol_matches d.stock args.symbol ≡ true)
    (known : d.stock_locate ≢ 0) where
  abbrev h₀ : ReplayHandler
  h₀ = new_handler book args.symbol args.itch_tick

  abbrev h₁ : ReplayHandler
  h₁ = targeted book args d.stock_locate

  directory-targeted : handle now (Event.on_stock_directory d) h₀ ≡ some h₁
  unfolding handle on_stock_directory new_handler
  directory-targeted = rw matches refl

  -- Let the file be a directory message that gives the program's symbol a locate code other than 0, and then
  -- messages that can be taken when their turn comes by a handler that knows that code and has the new book,
  -- which the constructor returns and which is stocked. The program returns: it reports their number, a stocked
  -- and shelved book with the queues that the messages make, and its snapshot.
  pub replay-IsReported :
      (free : List ℕ) (bytes : Bytes)
      → new raw (config_of args) ≡ some book
      → IsStockedBook k book no_queues free
      → AreTaken now k h₁ h₁ (view book no_queues) es
      → IsBytes bytes
      → AreMessages (Event.on_stock_directory d ∷ es)
      → Spells bytes 0 (stream (Event.on_stock_directory d ∷ es))
      → IsReported k book args d es
          (replay now raw args bytes (length (stream (Event.on_stock_directory d ∷ es))))
  unfolding replay handle_all new_handler
  replay-IsReported free bytes made st taken is_bytes fit spelled =
      let all = Event.on_stock_directory d ∷ es in
      let p =
        handle_all-IsPlayed now k es h₁ no_queues free known st
          (new-IsShelved raw (config_of args) book made) taken in
      let run : handle_all now all h₀ ≡ some p.handler =
        >>=-some (handle now (Event.on_stock_directory d) h₀) (handle_all now es) directory-targeted
        ∙ p.returns in
      record {
        report = record {
          n_msgs = length all;
          handler = p.handler;
          snapshot = write_snapshot p.handler.book args.top_n;
        };
        returns =
            >>=-some (new raw (config_of args)) _ made
            ∙ >>=-some (parse bytes (length (stream all))) _
                (parse-stream bytes all is_bytes fit spelled)
            ∙ >>=-some (handle_all now all h₀) _ run;
        counted = omega arith;
        played = record {
          handler = p.handler;
          queues = p.queues;
          free = p.free;
          returns = refl;
          target = p.target;
          tick = p.tick;
          cfg = p.cfg;
          stocked = p.stocked;
          shelved = p.shelved;
          views = p.views;
        };
        snapshot = refl;
      }
