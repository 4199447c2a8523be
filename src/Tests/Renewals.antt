-- ===== src/Tests/Renewals.antt =====
-- Orders that match in part, modifications and replacements in the books of the module on stocks.
use mathlib.Core.Path.{subst}
use orderbook_engine.Base.{
  ℕ, ◌^◌, ◌≤◌, ◌⊎◌, ◌<◌, ◌≡◌, ◌≢◌, refl, sym, arith, Option, none, some, true, false, ◌&&◌, ◌∈◌,
  Bool-cases, inl, inr, ◌==◌, [], ◌∷◌, ltb, leb,
}
use orderbook_engine.Base.Int.{pos, eqb_ℤ}
use orderbook_engine.Book.Fill.Aggress.{aggressive}
use orderbook_engine.Book.Live.{without_id}
use orderbook_engine.Book.Live.Append.{IsPassive}
use orderbook_engine.Book.Live.Contract.{IsGone, IsStep}
use orderbook_engine.Book.Live.Insert.{HasRoom}
use orderbook_engine.Book.Live.Modify.{
  IsRequoted, renewal, modify-requote_id, modify-IsRenewed, modify-without_id,
}
use orderbook_engine.Book.Fill.Round.{IsMatched}
use orderbook_engine.Book.Live.Kill.{IsKill, available, submit-available}
use orderbook_engine.Book.Live.Renew.{IsRenewed, book_of}
use orderbook_engine.Book.Live.Rest.{IsOrder, IsRested, submit-IsRested}
use orderbook_engine.Book.Match.{Matched, done, is_breached}
use orderbook_engine.Book.Rest.{cancel}
use orderbook_engine.Book.State.{Book, find}
use orderbook_engine.Book.Stock.{same_side}
use orderbook_engine.Book.Submit.{Request, answer, aggressor, match_limit, refuse, submit, modify}
use orderbook_engine.IdMap.{ideal_slot}
use orderbook_engine.IdMap.Circle.{gap, walk}
use orderbook_engine.IdMap.Ordered.{Follows, home, profile}
use orderbook_engine.Itch.{OrderReplace}
use orderbook_engine.Replay.{resting_order, engine_price, on_order_replace}
use orderbook_engine.Replay.Replaces.{IsReplayedReplace, on_order_replace-IsReplayedReplace}
use orderbook_engine.Tests.Replays.{at_target, clock}
use orderbook_engine.Tests.Setup.{program, limit_order}
use orderbook_engine.Tests.Stocks.{
  quoted, queued, free, quoted-IsStocked, quoted-IsShelved, few_levels,
}
use orderbook_engine.Types.{Side, TimeInForce, OrderId, OrderStatus}

Follows-zero : (a : Option ℕ) → Follows a (some 0)
Follows-zero none = refl
Follows-zero (some c) = omega arith

-- There is room for an id whose ideal slot is empty, beside another empty slot.
ideal-HasRoom :
    (b : Book) (id : OrderId) (o place other : ℕ)
    → ideal_slot b.id_map id ≡ place
    → gap (2 ^ 3) (home 3 id) place ≡ 0
    → place < 2 ^ 3
    → (b.id_map.slots place).id ≡ 0
    → other < 2 ^ 3
    → (b.id_map.slots other).id ≡ 0
    → other ≢ place
    → HasRoom 3 b id o
unfolding walk
ideal-HasRoom b id o place other at near lt empty lt' empty' apart = record {
  distance = 0;
  place = place;
  other = other;
  first = record {
    vacant = record { in_table = lt; empty = empty };
    arrives = at;
    full = λ e lt. absurd (omega arith);
    short = omega arith;
  };
  fits = λ p lt e.
      subst (λ g. Follows (profile 3 b.id_map.slots p) (some g)) (sym near)
        (Follows-zero (profile 3 b.id_map.slots p));
  vacant = record { in_table = lt'; empty = empty' };
  apart = apart;
}

in_queued : (s : Side) (i y : ℕ) → y ∈ queued s i → y ≡ 0
in_queued s i y m = elim (Bool-cases (same_side Side.buy s && i == 2)) [
  | inl e ↦ (let z : y ∈ 0 ∷ [] = rw e at m in ground arith)
  | inr ne ↦ (let z : y ∈ [] = rw ne at m in absurd (ground arith))
]

bid_id : (quoted.slab.storage 0).order_id ≡ 3
unfolding program
bid_id = refl

quoted-IsGone :
    (id : OrderId) → 3 ≢ id → IsGone 3 quoted queued free quoted-IsStocked quoted-IsShelved id
quoted-IsGone id ne y w =
    subst (λ z. (quoted.slab.storage z).order_id ≢ id) (sym (in_queued w.s w.i y w.member))
      (rw bid_id ne)

-- A sale of 8 down to the price of the bid, of which 3 are left.
abbrev sale : Request
sale = limit_order 9 Side.sell TimeInForce.gtc 102 8

abbrev matched_of : Option Matched → Matched
matched_of none = done quoted 0
matched_of (some m) = m

abbrev sold : Matched
sold = matched_of (aggressive quoted sale)

sold_run : aggressive quoted sale ≡ some sold
unfolding program
sold_run = refl

sold_head : sold.book.slab.free_head ≡ some 0
unfolding program
sold_head = refl

sold_room : HasRoom 3 sold.book 9 0
unfolding program home gap
sold_room =
    ideal-HasRoom sold.book 9 0 7 5 refl refl (omega arith) refl (omega arith) refl (omega arith)

sold_left : 0 < sold.remaining
unfolding program
sold_left = omega arith

sale-IsOrder : IsOrder quoted sale
unfolding program
sale-IsOrder = record {
  limit = refl;
  no_ioc = refl;
  no_fok = refl;
  no_post = refl;
  within = refl;
  pos = omega arith;
  word = omega arith;
  ne_zero = omega arith;
}

submit-IsRested_example : IsRested 3 quoted queued sale sold (submit quoted sale)
submit-IsRested_example =
    submit-IsRested 3 quoted queued free quoted-IsStocked quoted-IsShelved few_levels sale
      sale-IsOrder (quoted-IsGone 9 (omega arith)) sold 0 sold_run sold_left sold_head sold_room

bid_found : find quoted 3 ≡ some (some 0)
unfolding program
bid_found = refl

bid_price : eqb_ℤ (pos 102) (quoted.slab.storage 0).price ≡ true
unfolding program
bid_price = refl

bid_quantity : (quoted.slab.storage 0).quantity ≡ 5
unfolding program
bid_quantity = refl

modify-requote_id_example : IsRequoted 3 quoted queued 3 2 (modify quoted 3 2 (pos 102) 0)
modify-requote_id_example =
    modify-requote_id 3 quoted queued free quoted-IsStocked quoted-IsShelved 3 (omega arith) 0
      bid_found 2 (pos 102) 0 bid_price (omega arith) (omega (arith, bid_quantity))

-- The book without the bid.
abbrev cleared : Book
cleared = book_of quoted (cancel quoted 3)

cleared_run : cancel quoted 3 ≡ some (true, cleared)
unfolding program
cleared_run = refl

cleared_head : cleared.slab.free_head ≡ some 0
unfolding program
cleared_head = refl

cleared_room : HasRoom 3 cleared 3 0
unfolding program home gap
cleared_room =
    ideal-HasRoom cleared 3 0 0 5 refl refl (omega arith) refl (omega arith) refl (omega arith)

-- The bid at the price 101.
abbrev lowered : Request
lowered = renewal quoted 0 3 5 (pos 101) 0

lowered-IsPassive : IsPassive cleared lowered
unfolding program
lowered-IsPassive = record {
  limit = refl;
  no_ioc = refl;
  no_fok = refl;
  no_cross = refl;
  within = refl;
  level_within = omega arith;
  pos = omega arith;
  word = omega arith;
  ne_zero = omega arith;
}

lowered_moved :
    (eqb_ℤ (pos 101) (quoted.slab.storage 0).price
      && (ltb 0 5 && leb 5 (quoted.slab.storage 0).quantity))
    ≡ false
unfolding program
lowered_moved = refl

modify-IsRenewed_example : IsRenewed 3 quoted queued 3 lowered (modify quoted 3 5 (pos 101) 0)
modify-IsRenewed_example =
    modify-IsRenewed 3 quoted queued free quoted-IsStocked quoted-IsShelved 3 (omega arith) 0
      bid_found 5 (pos 101) 0 lowered_moved cleared true 0 cleared_run lowered-IsPassive
      cleared_head cleared_room

nothing_moved :
    (eqb_ℤ (pos 102) (quoted.slab.storage 0).price
      && (ltb 0 0 && leb 0 (quoted.slab.storage 0).quantity))
    ≡ false
unfolding program
nothing_moved = refl

modify-without_id_example :
    (s : IsStep 3 quoted queued (without_id 3) (cancel quoted 3)) × (modify quoted 3 0 (pos 102) 0
      ≡ some (refuse s.book OrderStatus.rejected 0))
modify-without_id_example =
    modify-without_id 3 quoted queued free quoted-IsStocked quoted-IsShelved 3 (omega arith) 0
      bid_found 0 (pos 102) 0 nothing_moved refl

-- A replacement of the bid by an order for 5 at the price 101.
abbrev replacement : OrderReplace
replacement = record {
  stock_locate = 9;
  ts_ns = 0;
  original_order_ref = 3;
  new_order_ref = 4;
  shares = 5;
  price = 10100;
}

replacement_price : engine_price (pos 100) 10100 ≡ some (pos 101)
unfolding engine_price program
replacement_price = refl

replaced_room : HasRoom 3 cleared 4 0
unfolding program home gap
replaced_room =
    ideal-HasRoom cleared 4 0 4 5 refl refl (omega arith) refl (omega arith) refl (omega arith)

abbrev replaced : Request
replaced = resting_order 4 (quoted.slab.storage 0).side (pos 101) 5 0

replaced-IsPassive : IsPassive cleared replaced
unfolding program
replaced-IsPassive = record {
  limit = refl;
  no_ioc = refl;
  no_fok = refl;
  no_cross = refl;
  within = refl;
  level_within = omega arith;
  pos = omega arith;
  word = omega arith;
  ne_zero = omega arith;
}

on_order_replace-IsReplayedReplace_example :
    IsReplayedReplace 3
      (at_target quoted)
      queued
      3
      replaced
      (on_order_replace clock replacement (at_target quoted))
on_order_replace-IsReplayedReplace_example =
    on_order_replace-IsReplayedReplace clock 3 (at_target quoted) queued free quoted-IsStocked
      quoted-IsShelved replacement 0 (pos 101) cleared true 0 refl (omega arith) bid_found
      replacement_price cleared_run (quoted-IsGone 4 (omega arith)) replaced-IsPassive cleared_head
      replaced_room

-- A fill-or-kill sale of 3 down to the price of the bid.
abbrev kill : Request
kill = limit_order 9 Side.sell TimeInForce.fok 102 3

kill-IsKill : IsKill quoted kill
unfolding program
kill-IsKill = record {
  limit = refl;
  fok = refl;
  within = refl;
  real = refl;
  pos = omega arith;
  ne_zero = omega arith;
}

bid_available : available quoted queued kill < 2 ^ 32
unfolding program is_breached
bid_available = omega arith

submit-available_example :
    ((kill.qty ≤ available quoted queued kill)
      × (m : Matched) × IsMatched 3 quoted
          (aggressor kill)
          (match_limit quoted kill)
          queued
          kill.qty
          (some m)
      × (m.remaining ≡ 0)
      × (submit quoted kill
          ≡ some (record {
            result = answer OrderStatus.fully_filled kill.qty 0;
            trades = m.trades;
            book = m.book;
          })))
    ⊎ ((available quoted queued kill < kill.qty)
        × (submit quoted kill ≡ some (refuse quoted OrderStatus.cancelled kill.qty)))
submit-available_example =
    submit-available 3 quoted queued free quoted-IsStocked quoted-IsShelved few_levels kill
      kill-IsKill (quoted-IsGone 9 (omega arith)) bid_available
