-- ===== src/Book/Stock.antt =====
-- The resting orders of a book: which slots stand in the queue of each level, and how the levels, the
-- storage, the free list and the table of ids agree on them.
pub mod Queues
pub mod Remove
pub mod Same
pub mod Cancel
pub mod Amount
pub mod Reduce
pub mod Enter
pub mod Insert
pub mod Fresh
use orderbook_engine.Base.{
  ℕ, zero, suc, ◌+◌, ◌%◌, ◌^◌, ◌≤◌, ◌<◌, ◌≡◌, ◌≢◌, refl, sym, ap, ◌∙◌, Bool, true, false, ◌&&◌,
  Option, none, some, ◌==◌, if◌then◌else◌, List, [], ◌∷◌, ◌++◌, length, has, ◌∈◌, ◌∉◌, Distinct,
  arith,
}
use orderbook_engine.Book.State.{Book, PriceLevel, level}
use orderbook_engine.IdMap.{IdMap}
use orderbook_engine.IdMap.Ordered.{IsOrdered, Stored, IsVacant}
use orderbook_engine.Orders.{Ptr, Heap, Order}
use orderbook_engine.Orders.Fifo.Links.{IsFifo}
use orderbook_engine.Orders.Slab.{Slab}
use orderbook_engine.Orders.Slab.FreeList.{HasFree}
use orderbook_engine.Types.{Side, OrderId, Quantity}

abbrev pub same_side : Side → Side → Bool
same_side Side.buy Side.buy = true
same_side Side.sell Side.sell = true
same_side _ _ = false

-- A family over sides and levels, changed at one place.
abbrev pub set_at {ℓ} : {A : Type ℓ} → (Side → ℕ → A) → Side → ℕ → A → Side → ℕ → A
set_at f s i a s' i' = if same_side s s' && i' == i then a else f s' i'

abbrev pub quantities : Heap → List ℕ → ℕ
quantities h [] = 0
quantities h (x ∷ xs) = (h x).quantity + quantities h xs

-- The order rests at the level `i` of the side, with something left.
pub record IsResting (s : Side) (i : ℕ) (o : Order) : Type 0 where
  pub side : o.side ≡ s
  pub level_idx : o.level_idx ≡ i
  pub some_left : 0 < o.quantity
  pub word : o.quantity < 2 ^ 32

-- The level holds the orders in the slots of the list, the oldest first.
pub record IsLevel (s : Side) (i : ℕ) (h : Heap) (l : PriceLevel) (xs : List ℕ) : Type 0 where
  pub fifo : IsFifo h l.orders xs
  pub distinct : Distinct xs
  pub count : l.count ≡ length xs
  pub total : l.total_qty ≡ quantities h xs % 2 ^ 32
  pub members : (x : ℕ) → x ∈ xs → IsResting s i (h x)

abbrev pub Queues : Type 0
Queues = Side → ℕ → List ℕ

-- The slot `x` stands in a queue.
pub record IsQueued (n : ℕ) (q : Queues) (x : ℕ) : Type 0 where
  pub s : Side
  pub i : ℕ
  pub below : i < n
  pub member : x ∈ q s i

-- The levels hold the orders of the queues. Their slots are in use, and the table has exactly their ids,
-- each with its slot. The table is ordered and has an empty slot.
pub record IsStocked (k n : ℕ) (lv : Side → ℕ → PriceLevel) (slab : Slab) (m : IdMap) (q : Queues)
    (free : List ℕ) : Type 0 where
  pub levels : (s : Side) (i : ℕ) → i < n → IsLevel s i slab.storage (lv s i) (q s i)
  pub slots : HasFree slab free
  pub small : slab.capacity < 2 ^ 32
  pub used : (x : ℕ) → IsQueued n q x → (x < slab.capacity) × (x ∉ free)
  pub listed : (x : ℕ) → IsQueued n q x → (j : ℕ) × Stored k m (slab.storage x).order_id (some x) j
  pub only :
      (id : OrderId) (v : Ptr) (j : ℕ)
      → Stored k m id v j
      → (x : ℕ) × IsQueued n q x × (v ≡ some x) × ((slab.storage x).order_id ≡ id)
  pub table : IsOrdered k m
  pub vacancy : ℕ
  pub vacant : IsVacant k m vacancy

-- The book is stocked with the queues.
abbrev pub IsStockedBook : (k : ℕ) → Book → Queues → List ℕ → Type 0
IsStockedBook k b q free = IsStocked k b.cfg.num_levels (level b) b.slab b.id_map q free
