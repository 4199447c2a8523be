-- ===== src/Replay/Adds.antt =====
-- The replay of a message that adds an order.
use orderbook_engine.Base.{ℕ, ◌+◌, ◌≡◌, refl, Option, some, List, ◌∷◌, ==_refl}
use orderbook_engine.Book.Best.Levels.{IsShelved}
use orderbook_engine.Book.Fill.Sweep.{view}
use orderbook_engine.Book.Live.Append.{IsPassive, submit-append}
use orderbook_engine.Book.Live.Insert.{HasRoom, append_at}
use orderbook_engine.Book.Live.Contract.{IsGone}
use orderbook_engine.Book.State.{price_to_idx}
use orderbook_engine.Book.Stock.{Queues, IsStockedBook}
use orderbook_engine.Book.Submit.{Request}
use orderbook_engine.Itch.{AddOrder}
use orderbook_engine.Replay.{
  ReplayHandler, inc64, resting_order, engine_price, time, timed_submit, on_add_order,
}
use orderbook_engine.Types.{Side, Price}

-- The run returns the handler with one order more counted as added, the same target, and a stocked and shelved book, in
-- which the message's order stands behind the others at its price.
pub record IsReplayedAdd (k : ℕ) (h : ReplayHandler) (q : Queues) (r : Request)
    (run : Option ReplayHandler) : Type 0 where
  pub handler : ReplayHandler
  pub queues : Queues
  pub free : List ℕ
  pub returns : run ≡ some handler
  pub counted : handler.adds ≡ inc64 h.adds
  pub target : handler.target_locate ≡ h.target_locate
  pub tick : handler.itch_tick ≡ h.itch_tick
  pub cfg : handler.book.cfg ≡ h.book.cfg
  pub stocked : IsStockedBook k handler.book queues free
  pub shelved : IsShelved handler.book
  pub views :
      (s : Side) (i : ℕ)
      → view handler.book queues s i
        ≡ append_at
            (view h.book q)
            r.side
            (price_to_idx h.book r.price)
            (record { id = r.id; quantity = r.qty })
            s
            i

-- A message for the target adds its order behind the others at its price in a stocked and shelved book, where
-- the tick is not 0, the order has a new id other than 0, a positive quantity and a price in range, also as a
-- 32-bit level index, and does not cross, and there are a free slot and room in the table.
pub on_add_order-IsReplayedAdd :
    (now : ℕ → ℕ) (k : ℕ) (h : ReplayHandler) (q : Queues) (o : ℕ) (free : List ℕ)
    (st : IsStockedBook k h.book q (o ∷ free)) (shelved : IsShelved h.book) (a : AddOrder)
    (p : Price)
    → a.stock_locate ≡ h.target_locate
    → engine_price h.itch_tick a.price ≡ some p
    → IsPassive h.book (resting_order a.order_ref a.side p a.shares a.ts_ns)
    → IsGone k h.book q (o ∷ free) st shelved a.order_ref
    → HasRoom k h.book a.order_ref o
    → IsReplayedAdd k h q
        (resting_order a.order_ref a.side p a.shares a.ts_ns)
        (on_add_order now a h)
unfolding on_add_order timed_submit
on_add_order-IsReplayedAdd now k h q o free st shelved a p at price passive gone room =
    let r = resting_order a.order_ref a.side p a.shares a.ts_ns in
    let s = submit-append k h.book q o free st shelved r passive gone room in
    record {
      handler = record h {
        book = s.book;
        hist_submit = time now h.hist_submit h.readings;
        readings = h.readings + 2;
        adds = inc64 h.adds;
      };
      queues = s.queues;
      free = s.free;
      returns = rw (at, ==_refl h.target_locate, price, s.returns) refl;
      counted = refl;
      target = refl;
      tick = refl;
      cfg = s.cfg;
      stocked = s.stocked;
      shelved = s.shelved;
      views = s.views;
    }
