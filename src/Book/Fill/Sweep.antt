-- ===== src/Book/Fill/Sweep.antt =====
-- What the matching loop owes a side: price-time priority, as a relation on the queues of its levels.
use orderbook_engine.Base.{
  ℕ, ◌≡◌, ◌≢◌, true, false, Option, List, [], ◌++◌, ◌==◌, if◌then◌else◌, ltb,
}
use orderbook_engine.Book.Best.{better}
use orderbook_engine.Book.Fill.{Entry, entries, consume, trades_at}
use orderbook_engine.Book.Match.{Aggressor, is_breached}
use orderbook_engine.Book.State.{Book}
use orderbook_engine.Book.Stock.{Queues}
use orderbook_engine.Types.{Side, Price, Quantity, Trade, opposite}

-- The queues of a side, each as its entries.
abbrev pub view : Book → Queues → Side → ℕ → List Entry
view b q s j = if ltb j b.cfg.num_levels then entries b.slab.storage (q s j) else []

-- The level `i` has an order, and no better level has.
pub record IsBestLevel (s : Side) (e : ℕ → List Entry) (i : ℕ) : Type 0 where
  pub occupied : e i ≢ []
  pub no_better : (j : ℕ) → better s j i ≡ true → e j ≡ []

-- The queues differ at the level `i` only, where the second ones have the given entries.
abbrev pub IsChange : (e e' : ℕ → List Entry) → (i : ℕ) → List Entry → Type 0
IsChange e e' i es = (j : ℕ) → e' j ≡ (if j == i then es else e j)

-- From the queues `e` and a quantity to the trades, the queues and the quantity that are left: as long
-- as there is a quantity, the best level is within the limit and its queue is consumed whole, the next
-- level follows. `price` gives the prices of the levels.
pub data IsSwept (price : ℕ → Price) (a : Aggressor) (limit : Option ℕ)
    : (e : ℕ → List Entry) (r : Quantity) (ts : List Trade) (e' : ℕ → List Entry) (r' : Quantity)
      → Type 0 where
  filled : {e : ℕ → List Entry} → IsSwept price a limit e 0 [] e 0
  bare :
      {e : ℕ → List Entry} {r : Quantity} → ((j : ℕ) → e j ≡ []) → IsSwept price a limit e r [] e r
  beyond :
      {e : ℕ → List Entry} {r : Quantity} (i : ℕ)
      → IsBestLevel (opposite a.side) e i
      → is_breached a.side limit i ≡ true
      → IsSwept price a limit e r [] e r
  last :
      {e e' : ℕ → List Entry} {r : Quantity} (i : ℕ)
      → IsBestLevel (opposite a.side) e i
      → is_breached a.side limit i ≡ false
      → (consume r (e i)).left ≢ []
      → IsChange e e' i (consume r (e i)).left
      → IsSwept price a limit e r
          (trades_at a (price i) (consume r (e i)).fills)
          e'
          (consume r (e i)).remaining
  next :
      {e e₁ e' : ℕ → List Entry} {r r' : Quantity} {ts : List Trade} (i : ℕ)
      → IsBestLevel (opposite a.side) e i
      → is_breached a.side limit i ≡ false
      → (consume r (e i)).left ≡ []
      → IsChange e e₁ i []
      → IsSwept price a limit e₁ (consume r (e i)).remaining ts e' r'
      → IsSwept price a limit e r (trades_at a (price i) (consume r (e i)).fills ++ ts) e' r'
