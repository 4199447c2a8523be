-- ===== src/Tests/Stocks.antt =====
-- A book for four orders, first empty and then with a bid for 5 at the price 102.
use mathlib.Core.Path.{subst}
use orderbook_engine.Base.{
  ◌||◌, none, ℕ, ◌*◌, ◌^◌, ◌≤◌, ◌<◌, ◌≡◌, ◌≢◌, refl, sym, arith, some, true, List, [], ◌∷◌,
}
use orderbook_engine.Base.Int.{pos}
use orderbook_engine.Book.Best.Levels.{IsShelved, new_with_table-IsShelved}
use orderbook_engine.Book.Rest.{insert_resting}
use orderbook_engine.Book.Fill.Match.{match_side-IsMatched}
use orderbook_engine.Book.Fill.Round.{IsMatched}
use orderbook_engine.Book.Fill.Take.{taker_result, submit-IsMatched}
use orderbook_engine.Book.Submit.{Request, aggressor, match_limit, submit}
use orderbook_engine.Book.Match.{Matched, Aggressor, match_side}
use orderbook_engine.Book.State.{Book, Config, find, in_range, new, new_with_table, price_to_idx}
use orderbook_engine.Book.Stock.{set_at, Queues, IsStockedBook}
use orderbook_engine.Book.Stock.Fresh.{no_queues, empty-IsStockedBook, new-IsStockedBook}
use orderbook_engine.Book.Stock.Insert.{
  inserted, order, inserted-IsStocked, inserted-IsShelved, insert_resting_lem,
}
use orderbook_engine.IdMap.{ideal_slot}
use orderbook_engine.IdMap.Insert.{IsFirst, Fits}
use orderbook_engine.IdMap.Ordered.{IsOrdered, Absent, IsVacant}
use orderbook_engine.Orders.{Order}
use orderbook_engine.Orders.Fifo.Links.{payload}
use orderbook_engine.Orders.Slab.FreeList.{slots_from}
use orderbook_engine.Tests.Setup.{program, raw, limit_order}
use orderbook_engine.Tests.Tables.{
  table, table-IsOrdered, table-IsVacant, table-Absent, IsFirst-slot, first-Fits,
}
use orderbook_engine.Types.{Side, TimeInForce, is_market_type}

abbrev pub shop : Config
shop = record { base_price = pos 100; num_levels = 4; max_orders = 4 }

abbrev pub bare : Book
bare = new_with_table raw shop 8

pub bare_run : new raw shop ≡ some bare
unfolding program
bare_run = refl

new-IsStockedBook_example :
    (k : ℕ) × (b : Book) × (new raw shop ≡ some b)
    × IsStockedBook k b no_queues (slots_from 0 shop.max_orders)
    × (2 * shop.max_orders ≤ 2 ^ k)
new-IsStockedBook_example = new-IsStockedBook raw shop (omega arith) (omega arith)

bare_table : bare.id_map ≡ table
unfolding program
bare_table = refl

pub bare-IsStocked : IsStockedBook 3 bare no_queues (0 ∷ 1 ∷ 2 ∷ 3 ∷ [])
bare-IsStocked =
    empty-IsStockedBook 3 raw shop 8 (omega arith) (omega arith)
      (subst (IsOrdered 3) (sym bare_table) table-IsOrdered)
      (λ p lt. subst (λ z. IsVacant 3 z p) (sym bare_table) (table-IsVacant p lt))

place : price_to_idx bare (pos 102) ≡ 2
unfolding program
place = refl

pub price_in_range : price_to_idx bare (pos 102) < bare.cfg.num_levels
unfolding new_with_table
price_in_range = rw place (omega arith)

pub new_id : Absent 3 bare.id_map 3
new_id = subst (λ z. Absent 3 z 3) (sym bare_table) (table-Absent 3 (omega arith))

pub spot : IsFirst 3 bare.id_map (ideal_slot bare.id_map 3) 0 0
spot = subst (λ z. IsFirst 3 z (ideal_slot z 3) 0 0) (sym bare_table) IsFirst-slot

pub spot-Fits : Fits 3 bare.id_map 3 (some 0) 0
spot-Fits = subst (λ z. Fits 3 z 3 (some 0) 0) (sym bare_table) first-Fits

pub spare : IsVacant 3 bare.id_map 5
spare = subst (λ z. IsVacant 3 z 5) (sym bare_table) (table-IsVacant 5 (omega arith))

abbrev pub free : List ℕ
free = 1 ∷ 2 ∷ 3 ∷ []

pub bare-IsShelved : IsShelved bare
bare-IsShelved = new_with_table-IsShelved raw shop 8

abbrev bid_order : Order
bid_order =
    order 3 bare no_queues 0 free bare-IsStocked 3 Side.buy (pos 102) 5 price_in_range (omega arith)
      (omega arith)

insert_resting_lem_example :
    (b' : Book) × (insert_resting bare 3 Side.buy (pos 102) 5 ≡ some b')
    × IsStockedBook 3 b' (set_at no_queues Side.buy (price_to_idx bare (pos 102)) (0 ∷ [])) free
    × IsShelved b'
    × (payload (b'.slab.storage 0) ≡ payload bid_order)
    × ((y : ℕ) → y ≢ 0 → payload (b'.slab.storage y) ≡ payload (bare.slab.storage y))
    × (b'.cfg ≡ bare.cfg)
insert_resting_lem_example =
    insert_resting_lem 3 bare no_queues 0 free bare-IsStocked 3 Side.buy (pos 102) 5 price_in_range
      (omega arith) (omega arith) 0 0 5 (omega arith) new_id spot spot-Fits spare (omega arith)
      bare-IsShelved

-- The book with the bid.
abbrev pub quoted : Book
quoted =
    inserted 3 bare no_queues 0 free bare-IsStocked 3 Side.buy (pos 102) 5 price_in_range
      (omega arith) (omega arith) 0 0 5 (omega arith) new_id spot spot-Fits spare (omega arith)

abbrev pub queued : Queues
queued = set_at no_queues Side.buy 2 (0 ∷ [])

pub quoted-IsStocked : IsStockedBook 3 quoted queued free
quoted-IsStocked =
    subst (λ z. IsStockedBook 3 quoted (set_at no_queues Side.buy z (0 ∷ [])) free) place
      (inserted-IsStocked 3 bare no_queues 0 free bare-IsStocked 3 Side.buy (pos 102) 5
        price_in_range (omega arith) (omega arith) 0 0 5 (omega arith) new_id spot spot-Fits spare
        (omega arith))

pub quoted-IsShelved : IsShelved quoted
quoted-IsShelved =
    inserted-IsShelved 3 bare no_queues 0 free bare-IsStocked 3 Side.buy (pos 102) 5 price_in_range
      (omega arith) (omega arith) 0 0 5 (omega arith) new_id spot spot-Fits spare (omega arith)
      bare-IsShelved

quoted_levels : 2 < quoted.cfg.num_levels
unfolding program
quoted_levels = omega arith

quoted_quantity : (quoted.slab.storage 0).quantity ≡ 5
unfolding program
quoted_quantity = refl

-- A sale of 3 down to the price of the bid.
abbrev seller : Aggressor
seller = record { side = Side.sell; id = 9; ts = 0 }

match_side-IsMatched_example :
    IsMatched 3 quoted seller (some 2) queued 3 (match_side quoted seller (some 2) 3)
match_side-IsMatched_example =
    match_side-IsMatched 3 seller (some 2) quoted queued free 3 quoted-IsStocked quoted-IsShelved

abbrev sale : Request
sale = limit_order 9 Side.sell TimeInForce.ioc 102 3

fresh_id : find quoted sale.id ≡ some none
unfolding program
fresh_id = refl

valid_price : (is_market_type sale.type || in_range quoted sale.price) ≡ true
unfolding program
valid_price = refl

pub few_levels : quoted.cfg.num_levels ≤ 2 ^ 32
unfolding program
few_levels = omega arith

submit-IsMatched_example :
    (m : Matched) × IsMatched 3 quoted
      (aggressor sale)
      (match_limit quoted sale)
      queued
      sale.qty
      (some m)
    × (submit quoted sale
        ≡ some (record {
          result = taker_result sale.qty m.remaining;
          trades = m.trades;
          book = m.book;
        }))
submit-IsMatched_example =
    submit-IsMatched quoted sale refl refl fresh_id refl refl valid_price 3 queued free
      quoted-IsStocked quoted-IsShelved few_levels refl
