-- ===== src/Book/State.antt =====
-- The state of the book, its prices and its queries.
use orderbook_engine.Base.{
  ℕ, zero, suc, ◌+◌, ◌*◌, ◌%◌, ◌^◌, Bool, Option, none, some, ltb, ◌==◌, ◌&&◌, List, [], ◌∷◌,
  if◌then◌else◌, update,
}
use orderbook_engine.Base.Int.{◌+ℤ◌, ◌-ℤ◌, leb_ℤ, to_unsigned, to_signed32}
use orderbook_engine.Base.Steps.{◌>>=◌}
use orderbook_engine.Bitmap
use orderbook_engine.Bitmap.{Bitmap}
use orderbook_engine.IdMap
use orderbook_engine.IdMap.{IdMap}
use orderbook_engine.Orders.{Ptr, Heap}
use orderbook_engine.Orders.Fifo.{Fifo, empty_fifo}
use orderbook_engine.Orders.Slab
use orderbook_engine.Orders.Slab.{Slab}
use orderbook_engine.Types.{Price, Quantity, OrderId, Side, invalid_price}

pub record PriceLevel : Type 0 where
  pub orders : Fifo
  pub total_qty : Quantity
  pub count : ℕ

abbrev pub empty_level : PriceLevel
empty_level = record { orders = empty_fifo; total_qty = 0; count = 0 }

-- `PriceLevel::empty`
abbrev pub is_empty : PriceLevel → Bool
is_empty l = l.count == 0

pub record Config : Type 0 where
  pub base_price : Price
  pub num_levels : ℕ
  pub max_orders : ℕ

pub record Book : Type 0 where
  pub cfg : Config
  pub slab : Slab
  pub id_map : IdMap
  pub bid_levels : ℕ → PriceLevel
  pub ask_levels : ℕ → PriceLevel
  pub bid_bitmap : Bitmap
  pub ask_bitmap : Bitmap
  pub best_bid_idx : Option ℕ
  pub best_ask_idx : Option ℕ

-- `while (p < n) p <<= 1;` with fewer than `k` rounds
unfoldable pub pow2_loop : (k p n : ℕ) → Option ℕ
pow2_loop zero p n = none
pow2_loop (suc k) p n =
    let rest = pow2_loop k (p * 2 % 2 ^ 64) n in if ltb p n then rest else some p

-- In 65 tests `p` goes through all powers of two and to 0, where it stays: the loop has ended by then, or never does,
-- which is so for a size above 2 ^ 63.
unfoldable pub next_pow2 : ℕ → Option ℕ
next_pow2 n = pow2_loop 65 1 n

-- The members, for the size that the table is asked for.
unfoldable pub new_with_table : (raw : Heap) → Config → (table_size : ℕ) → Book
new_with_table raw cfg table_size = record {
  cfg = cfg;
  slab = Slab.new raw cfg.max_orders;
  id_map = IdMap.new table_size;
  bid_levels = λ i. empty_level;
  ask_levels = λ i. empty_level;
  bid_bitmap = Bitmap.new cfg.num_levels;
  ask_bitmap = Bitmap.new cfg.num_levels;
  best_bid_idx = none;
  best_ask_idx = none;
}

-- The constructor, which does not return if `next_pow2` does not.
unfoldable pub new : (raw : Heap) → Config → Option Book
new raw cfg = next_pow2 (cfg.max_orders * 2 % 2 ^ 64) >>= λ table_size.
    some (new_with_table raw cfg table_size)

-- A difference of prices is an `int`, cast to 32 or to 64 bits without a sign.
unfoldable pub price_to_idx : Book → Price → ℕ
price_to_idx b p = to_unsigned 32 (p -ℤ b.cfg.base_price)

unfoldable pub price_offset : Book → Price → ℕ
price_offset b p = to_unsigned 64 (p -ℤ b.cfg.base_price)

unfoldable pub idx_to_price : Book → ℕ → Price
idx_to_price b i = b.cfg.base_price +ℤ to_signed32 i

unfoldable pub in_range : Book → Price → Bool
in_range b p = leb_ℤ b.cfg.base_price p && ltb (price_offset b p) b.cfg.num_levels

unfoldable pub level : Book → Side → ℕ → PriceLevel
level b Side.buy idx = b.bid_levels idx
level b Side.sell idx = b.ask_levels idx

-- A write through the reference that `level_` returns.
unfoldable pub set_level : Book → Side → ℕ → PriceLevel → Book
set_level b Side.buy idx l = record b { bid_levels = update b.bid_levels idx l }
set_level b Side.sell idx l = record b { ask_levels = update b.ask_levels idx l }

unfoldable pub best_price : Book → Option ℕ → Price
best_price b none = invalid_price
best_price b (some i) = idx_to_price b i

unfoldable pub best_bid : Book → Price
best_bid b = best_price b b.best_bid_idx

unfoldable pub best_ask : Book → Price
best_ask b = best_price b b.best_ask_idx

unfoldable pub total_at : Book → Side → Price → Quantity
total_at b side p = if in_range b p then (level b side (price_to_idx b p)).total_qty else 0

unfoldable pub open_orders : Book → ℕ
open_orders b = b.slab.in_use

unfoldable pub find : Book → OrderId → Option Ptr
find b id = IdMap.find b.id_map id

pub record LevelSnapshot : Type 0 where
  pub price : Price
  pub qty : Quantity
  pub count : ℕ

abbrev pub snapshot : Book → Side → ℕ → LevelSnapshot
snapshot b side i =
    let l = level b side i in
    record { price = idx_to_price b i; qty = l.total_qty; count = l.count }

-- The level after `i` on a side, further from the best one.
unfoldable pub next_level : Book → Side → ℕ → Option ℕ
next_level b Side.buy zero = none
next_level b Side.buy (suc i) = Bitmap.find_prev_set b.bid_bitmap i
next_level b Side.sell i = Bitmap.find_next_set b.ask_bitmap (i + 1)

-- The loops of `top_n`; `n` levels remain to be written.
unfoldable pub top_loop : (n : ℕ) → Book → Side → Option ℕ → List LevelSnapshot
top_loop zero b side i = []
top_loop (suc n) b side none = []
top_loop (suc n) b side (some i) = snapshot b side i ∷ top_loop n b side (next_level b side i)

unfoldable pub top_n : Book → Side → ℕ → List LevelSnapshot
top_n b Side.buy n = top_loop n b Side.buy b.best_bid_idx
top_n b Side.sell n = top_loop n b Side.sell b.best_ask_idx
