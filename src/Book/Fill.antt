-- ===== src/Book/Fill.antt =====
-- What the matching loop owes a level, said of its queue alone: an aggressor takes the orders in their
-- order in the queue, each whole as long as its quantity lasts.
pub mod Walk
pub mod Head
pub mod Level
pub mod Sweep
pub mod Next
pub mod Views
pub mod Rank
pub mod Round
pub mod After
pub mod Match
pub mod Volume
pub mod Aggress
pub mod Take
use orderbook_engine.Base.{ℕ, ◌-◌, Bool, Option, List, [], ◌∷◌, leb, ◌==◌, if◌then◌else◌}
use orderbook_engine.Book.Match.{Aggressor}
use orderbook_engine.Orders.{Heap}
use orderbook_engine.Types.{OrderId, Price, Quantity, Trade}

-- An order as its queue sees it, and also a fill of it.
pub record Entry : Type 0 where
  pub id : OrderId
  pub quantity : Quantity

abbrev pub entries : Heap → List ℕ → List Entry
entries h [] = []
entries h (x ∷ xs) = record { id = (h x).order_id; quantity = (h x).quantity } ∷ entries h xs

-- The fills that are made, the entries that are left and the quantity that is left.
pub record Consumed : Type 0 where
  pub fills : List Entry
  pub left : List Entry
  pub remaining : Quantity

abbrev pub consume : (remaining : Quantity) → List Entry → Consumed
consume r [] = record { fills = []; left = []; remaining = r }
consume r (e ∷ es) =
    let rest = consume (r - e.quantity) es in
    if r == 0
    then record { fills = []; left = e ∷ es; remaining = r }
    else if leb e.quantity r
    then record rest { fills = e ∷ rest.fills }
    else record {
      fills = record e { quantity = r } ∷ [];
      left = record e { quantity = e.quantity - r } ∷ es;
      remaining = 0;
    }

abbrev pub fill_trade : Aggressor → Price → Entry → Trade
fill_trade a price f = record {
  resting_id = f.id;
  aggressor_id = a.id;
  price = price;
  quantity = f.quantity;
  ts = a.ts;
  aggressor_side = a.side;
}

abbrev pub trades_at : Aggressor → Price → List Entry → List Trade
trades_at a price [] = []
trades_at a price (f ∷ fs) = fill_trade a price f ∷ trades_at a price fs
