-- ===== src/Tests/Books.antt =====
-- Runs of whole books.
use orderbook_engine.Base.{ℕ, ◌≡◌, refl, some, Option, true, Bool}
use orderbook_engine.Base.Int.{pos}
use orderbook_engine.Base.Steps.{◌>>=◌}
use orderbook_engine.Book.State.{Book, best_bid, open_orders}
use orderbook_engine.Book.Rest.{cancel}
use orderbook_engine.Book.Submit.{submit}
use orderbook_engine.Tests.Setup.{program, start, limit_order}
use orderbook_engine.Types.{Side, TimeInForce, Price, OrderStatus, SubmitResult}

abbrev two_bids : Option Book
two_bids = do
  a ← submit start (limit_order 1 Side.buy TimeInForce.gtc 110 5)
  b ← submit a.book (limit_order 2 Side.buy TimeInForce.gtc 112 7)
  some b.book

-- The best bid is the higher one, and its cancellation uncovers the other.
best_after_cancel : (two_bids >>= λ b. some (best_bid b)) ≡ some (pos 112)
unfolding program start
best_after_cancel = refl

uncovered :
    ◌>>=◌ {B = Bool × Price × ℕ}
      (two_bids >>= λ b. cancel b 2)
      (λ r. some (r.0, best_bid r.1, open_orders r.1))
    ≡ some (true, pos 110, 1)
unfolding program start
uncovered = refl

abbrev deep_asks : Option Book
deep_asks = do
  a ← submit start (limit_order 1 Side.sell TimeInForce.gtc 110 2147483648)
  b ← submit a.book (limit_order 2 Side.sell TimeInForce.gtc 111 2147483648)
  some b.book

-- Two asks of 2 ^ 31 each: a FOK bid of that and one more is cancelled, as the sum wraps to 0.
fok_wraps :
    ◌>>=◌ {B = SubmitResult} deep_asks
      (λ b. submit b (limit_order 3 Side.buy TimeInForce.fok 120 2147483649) >>= λ o. some o.result)
    ≡ some (record { status = OrderStatus.cancelled; filled_qty = 0; remaining_qty = 2147483649 })
unfolding program start
fok_wraps = refl
