-- ===== src/Book/Best/Levels.antt =====
-- The levels of the book, their bitmaps and the best indices, under the operations that let an order
-- into a level or out of it.
use mathlib.Core.Path.{subst}
use orderbook_engine.Base.{
  ℕ, zero, suc, ◌%◌, ◌*◌, ◌^◌, ◌<◌, ◌≡◌, refl, ap, true, false, not, Option, none, some, ==→eq,
  arith, if◌then◌else◌, Bool-cases, inl, inr, update,
}
use orderbook_engine.Base.Steps.{Holds-bind, Holds-of}
use orderbook_engine.Base.Bits.{nth_bit-zero}
use orderbook_engine.Bitmap
use orderbook_engine.Bitmap.{Bitmap}
use orderbook_engine.Bitmap.Bit.{bit_at, bit_at-set, bit_at-clear}
use orderbook_engine.Book.Best.{
  IsIndex, IsBestOf, always, search, search-IsBestOf, new-IsIndex, set-IsIndex, clear-IsIndex,
  set-IsBestOf, clear_other-IsBestOf, clear_best-IsBestOf,
}
use orderbook_engine.Book.Rest.{
  improves, is_at, occupy_level, vacate_level, best_idx, set_best_idx, clear_bit, set_storage,
}
use orderbook_engine.Book.Match.{leave_level}
use orderbook_engine.Book.State.{
  Book, Config, PriceLevel, is_empty, level, set_level, next_level, next_pow2, new_with_table, new,
  empty_level,
}
use orderbook_engine.Orders.{Heap}
use orderbook_engine.Types.{Side}

-- On one side: the bitmap marks exactly the occupied ones of the `n` levels, and the best index is
-- that of the best occupied level.
pub record IsShelf (n : ℕ) (side : Side) (levels : ℕ → PriceLevel) (m : Bitmap) (r : Option ℕ)
    : Type 0 where
  pub index : IsIndex n m
  pub marks : (j : ℕ) → j < n → bit_at m j ≡ not (is_empty (levels j))
  pub best : IsBestOf side n m always r

abbrev pub bitmap : Book → Side → Bitmap
bitmap b Side.buy = b.bid_bitmap
bitmap b Side.sell = b.ask_bitmap

-- Both sides of the book are so.
abbrev pub IsShelved : Book → Type 0
IsShelved b = (s : Side) → IsShelf b.cfg.num_levels s (level b s) (bitmap b s) (best_idx b s)

module _ (n : ℕ) (side : Side) (ls : ℕ → PriceLevel) (m : Bitmap) (r : Option ℕ) (i : ℕ)
    (l : PriceLevel) (h : IsShelf n side ls m r) where
  IsShelf-filled :
      i < n
      → is_empty l ≡ false
      → IsShelf n side (update ls i l) (Bitmap.set m i) (if improves side r i then some i else r)
  unfolding update
  IsShelf-filled lt full = record {
    index = set-IsIndex n m i lt h.index;
    marks = λ j lj. rw (bit_at-set m i j) (ground (arith, h.marks j));
    best = set-IsBestOf side n m r i lt h.best;
  }

  IsShelf-kept : is_empty l ≡ is_empty (ls i) → IsShelf n side (update ls i l) m r
  unfolding update
  IsShelf-kept same = record {
    index = h.index;
    marks = λ j lj. ground (arith, h.marks j lj);
    best = h.best;
  }

  marks_cleared :
      is_empty l ≡ true
      → (j : ℕ) → j < n
      → bit_at (Bitmap.clear m i) j ≡ not (is_empty (update ls i l j))
  unfolding update
  marks_cleared gone j lj = rw (bit_at-clear m i j) (ground (arith, h.marks j))

  IsShelf-cleared :
      is_empty l ≡ true → is_at r i ≡ false → IsShelf n side (update ls i l) (Bitmap.clear m i) r
  IsShelf-cleared gone away = record {
    index = clear-IsIndex n m i h.index;
    marks = marks_cleared gone;
    best = clear_other-IsBestOf side n m r i away h.best;
  }

  IsShelf-best_cleared :
      is_empty l ≡ true
      → r ≡ some i
      → IsShelf n side (update ls i l) (Bitmap.clear m i) (search side (Bitmap.clear m i) i)
  IsShelf-best_cleared gone at =
      let x = clear-IsIndex n m i h.index in
      record {
        index = x;
        marks = marks_cleared gone;
        best =
            clear_best-IsBestOf side n m i _ (subst (IsBestOf side n m always) at h.best)
              (search-IsBestOf side n (Bitmap.clear m i) i x);
      }

IsShelf-empty : (n : ℕ) (side : Side) → IsShelf n side (λ i. empty_level) (Bitmap.new n) none
IsShelf-empty n side = record {
  index = new-IsIndex n;
  marks = λ j lj. (unfold Bitmap.new in nth_bit-zero (j % 64));
  best = λ j lj q. (unfold Bitmap.new in nth_bit-zero (j % 64));
}

pub new_with_table-IsShelved :
    (raw : Heap) (cfg : Config) (size : ℕ) → IsShelved (new_with_table raw cfg size)
unfolding new_with_table level best_idx
new_with_table-IsShelved raw cfg size Side.buy = IsShelf-empty cfg.num_levels Side.buy
new_with_table-IsShelved raw cfg size Side.sell = IsShelf-empty cfg.num_levels Side.sell

-- A new book is shelved: no level is occupied, and there is no best index.
pub new-IsShelved : (raw : Heap) (cfg : Config) (b : Book) → new raw cfg ≡ some b → IsShelved b
unfolding new
new-IsShelved raw cfg b = Holds-of IsShelved (new raw cfg) b (
    Holds-bind IsShelved (next_pow2 (cfg.max_orders * 2 % 2 ^ 64)) _
      (λ size _. new_with_table-IsShelved raw cfg size))

pub set_storage-IsShelved : (b : Book) (h : Heap) → IsShelved b → IsShelved (set_storage b h)
unfolding level best_idx
set_storage-IsShelved b h x Side.buy = x Side.buy
set_storage-IsShelved b h x Side.sell = x Side.sell

-- A level changes and is as empty as it was.
pub keep-IsShelved :
    (b : Book) (side : Side) (i : ℕ) (l : PriceLevel)
    → is_empty l ≡ is_empty (level b side i)
    → IsShelved b
    → IsShelved (set_level b side i l)
unfolding level best_idx set_level
keep-IsShelved b Side.buy i l same x Side.buy = IsShelf-kept _ Side.buy _ _ _ i l (x Side.buy) same
keep-IsShelved b Side.buy i l same x Side.sell = x Side.sell
keep-IsShelved b Side.sell i l same x Side.buy = x Side.buy
keep-IsShelved b Side.sell i l same x Side.sell =
    IsShelf-kept _ Side.sell _ _ _ i l (x Side.sell) same

-- A level becomes occupied.
pub occupy_level-IsShelved :
    (b : Book) (side : Side) (i : ℕ) (l : PriceLevel)
    → i < b.cfg.num_levels
    → is_empty l ≡ false
    → IsShelved b
    → IsShelved (occupy_level (set_level b side i l) side i)
unfolding level best_idx set_level occupy_level
occupy_level-IsShelved b Side.buy i l lt full x Side.buy =
    IsShelf-filled _ Side.buy _ _ _ i l (x Side.buy) lt full
occupy_level-IsShelved b Side.buy i l lt full x Side.sell = x Side.sell
occupy_level-IsShelved b Side.sell i l lt full x Side.buy = x Side.buy
occupy_level-IsShelved b Side.sell i l lt full x Side.sell =
    IsShelf-filled _ Side.sell _ _ _ i l (x Side.sell) lt full

is_at-some : (r : Option ℕ) (i : ℕ) → is_at r i ≡ true → r ≡ some i
is_at-some none i e = absurd (ground arith)
is_at-some (some k) i e = ap (λ (z : ℕ). some z) (==→eq k i e)

pub next_level-search :
    (b : Book) (side : Side) (i : ℕ) → next_level b side i ≡ search side (bitmap b side) i
unfolding next_level
next_level-search b Side.buy zero = refl
next_level-search b Side.buy (suc i) = refl
next_level-search b Side.sell i = refl

-- When the best level of a side of a shelved book has been emptied, the matching loop's step to the next level leaves
-- the book shelved.
pub leave_level-IsShelved :
    (b : Book) (side : Side) (i : ℕ) (l : PriceLevel)
    → is_empty l ≡ true
    → best_idx b side ≡ some i
    → IsShelved b
    → IsShelved (leave_level (set_level b side i l) side i)
unfolding level best_idx set_level leave_level clear_bit set_best_idx
leave_level-IsShelved b Side.buy i l gone at x Side.buy =
    rw
      (next_level-search
        (record b {
          bid_bitmap = Bitmap.clear b.bid_bitmap i;
          bid_levels = update b.bid_levels i l;
        })
        Side.buy i)
      (IsShelf-best_cleared _ Side.buy _ _ _ i l (x Side.buy) gone at)
leave_level-IsShelved b Side.buy i l gone at x Side.sell = x Side.sell
leave_level-IsShelved b Side.sell i l gone at x Side.buy = x Side.buy
leave_level-IsShelved b Side.sell i l gone at x Side.sell =
    rw
      (next_level-search
        (record b {
          ask_bitmap = Bitmap.clear b.ask_bitmap i;
          ask_levels = update b.ask_levels i l;
        })
        Side.sell i)
      (IsShelf-best_cleared _ Side.sell _ _ _ i l (x Side.sell) gone at)

best_idx-set_level :
    (b : Book) (side : Side) (i : ℕ) (l : PriceLevel)
    → best_idx (set_level b side i l) side ≡ best_idx b side
unfolding best_idx set_level
best_idx-set_level b Side.buy i l = refl
best_idx-set_level b Side.sell i l = refl

clear_bit-IsShelved :
    (b : Book) (side : Side) (i : ℕ) (l : PriceLevel)
    → is_empty l ≡ true
    → is_at (best_idx b side) i ≡ false
    → IsShelved b
    → IsShelved (clear_bit (set_level b side i l) side i)
unfolding level best_idx set_level clear_bit
clear_bit-IsShelved b Side.buy i l gone away x Side.buy =
    IsShelf-cleared _ Side.buy _ _ _ i l (x Side.buy) gone away
clear_bit-IsShelved b Side.buy i l gone away x Side.sell = x Side.sell
clear_bit-IsShelved b Side.sell i l gone away x Side.buy = x Side.buy
clear_bit-IsShelved b Side.sell i l gone away x Side.sell =
    IsShelf-cleared _ Side.sell _ _ _ i l (x Side.sell) gone away

-- A level becomes empty.
pub vacate_level-IsShelved :
    (b : Book) (side : Side) (i : ℕ) (l : PriceLevel)
    → is_empty l ≡ true
    → IsShelved b
    → IsShelved (vacate_level (set_level b side i l) side i)
unfolding vacate_level leave_level
vacate_level-IsShelved b side i l gone x = elim (Bool-cases (is_at (best_idx b side) i)) [
  | inl at ↦
      rw (best_idx-set_level b side i l, at)
        (leave_level-IsShelved b side i l gone (is_at-some _ i at) x)
  | inr away ↦ rw (best_idx-set_level b side i l, away) (clear_bit-IsShelved b side i l gone away x)
]
