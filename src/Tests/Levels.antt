-- ===== src/Tests/Levels.antt =====
-- The levels of a book of four prices from 100 up.
use orderbook_engine.Base.{ℕ, ◌+◌, ◌<◌, ◌^◌, ◌≡◌, refl, arith, none, some, true, List, leb}
use orderbook_engine.Base.Int.{pos}
use orderbook_engine.Book.Best.{always}
use orderbook_engine.Book.Best.Depth.{depth, can_fully_fill-depth}
use orderbook_engine.Book.Best.Flow.{enter_level-IsShelved, remove_from_book-IsShelved}
use orderbook_engine.Book.Best.Levels.{IsShelved, new_with_table-IsShelved}
use orderbook_engine.Book.Best.TopN.{IsTop, snapshots, occupied, top_n-IsTop}
use orderbook_engine.Book.Match.{walk_limit, can_fully_fill}
use orderbook_engine.Book.Rest.{enter_level, remove_from_book, best_idx}
use orderbook_engine.Book.State.{Book, Config, new_with_table, level, is_empty, top_n}
use orderbook_engine.Orders.{Order}
use orderbook_engine.Tests.Setup.{program, raw}
use orderbook_engine.Types.{Side, opposite}

abbrev four : Config
four = record { base_price = pos 100; num_levels = 4; max_orders = 2 }

abbrev fresh : Book
fresh = new_with_table raw four 4

abbrev bid : Order
bid = record {
  prev = none;
  next = none;
  order_id = 1;
  quantity = 5;
  price = pos 102;
  level_idx = 2;
  side = Side.buy;
}

-- The book with the bid in slot 0.
abbrev quoted : Book
quoted = enter_level fresh 0 bid

in_range_bid : bid.level_idx < fresh.cfg.num_levels
unfolding program
in_range_bid = omega arith

count_fits : (level fresh bid.side bid.level_idx).count + 1 < 2 ^ 32
unfolding program
count_fits = omega arith

quoted-IsShelved : IsShelved quoted
quoted-IsShelved =
    enter_level-IsShelved fresh 0 bid in_range_bid count_fits (new_with_table-IsShelved raw four 4)

one_order : (level quoted (quoted.slab.storage 0).side (quoted.slab.storage 0).level_idx).count ≡ 1
unfolding program
one_order = refl

remove_from_book-IsShelved_example : IsShelved (remove_from_book quoted 0)
remove_from_book-IsShelved_example =
    remove_from_book-IsShelved quoted 0 (omega (arith, one_order)) (omega (arith, one_order))
      quoted-IsShelved

best_quoted : best_idx quoted Side.buy ≡ some 2
unfolding program
best_quoted = refl

top_n-IsTop_example :
    (is : List ℕ) × (top_n quoted Side.buy 3 ≡ snapshots quoted Side.buy is)
    × IsTop 3 Side.buy quoted.cfg.num_levels (occupied quoted Side.buy) is
top_n-IsTop_example = top_n-IsTop quoted Side.buy 3 quoted-IsShelved

bare_levels :
    (j : ℕ)
    → j < quoted.cfg.num_levels
    → is_empty (level quoted (opposite Side.sell) j) ≡ true
    → (level quoted (opposite Side.sell) j).total_qty ≡ 0
unfolding program
bare_levels j lt e = ground arith

volume : depth quoted Side.sell (walk_limit quoted Side.sell (pos 101)) always ≡ 5
unfolding program
volume = refl

can_fully_fill-depth_example :
    can_fully_fill quoted Side.sell (pos 101) 3
    ≡ some (leb 3 (depth quoted Side.sell (walk_limit quoted Side.sell (pos 101)) always))
can_fully_fill-depth_example =
    can_fully_fill-depth quoted Side.sell (pos 101) 3 quoted-IsShelved bare_levels (omega arith)
      (omega (arith, volume))
