-- ===== src/Book/Stock/Same.antt =====
-- Changes of a book that its stock or its shelves do not notice.
use mathlib.Core.Path.{subst}
use orderbook_engine.Base.{
  ℕ, ◌≡◌, refl, sym, ap, ◌∙◌, ◌&&◌, ◌==◌, Bool-cases, inl, inr, if◌then◌else◌, List, Option,
}
use orderbook_engine.Book.Best.Levels.{IsShelved}
use orderbook_engine.Book.Rest.{
  set_storage, vacate_level, occupy_level, clear_bit, set_best_idx, best_idx, is_at,
}
use orderbook_engine.Book.Match.{leave_level}
use orderbook_engine.Book.State.{Book, Config, PriceLevel, level, set_level}
use orderbook_engine.Book.Stock.{same_side, set_at, IsLevel, IsStocked, IsStockedBook, Queues}
use orderbook_engine.Book.Stock.Queues.{level-set_level}
use orderbook_engine.Orders.{Heap}
use orderbook_engine.IdMap.{IdMap}
use orderbook_engine.Orders.Slab.{Slab}
use orderbook_engine.Types.{Side}

-- The stock looks at the levels one by one.
pub IsStocked-levels :
    (k n : ℕ) (lv lv' : Side → ℕ → PriceLevel) (slab : Slab) (m : IdMap) (q : Queues)
    (free : List ℕ)
    → ((s : Side) (i : ℕ) → lv' s i ≡ lv s i)
    → IsStocked k n lv slab m q free
    → IsStocked k n lv' slab m q free
IsStocked-levels k n lv lv' slab m q free same st = record {
  levels =
      λ s i lt. subst (λ l. IsLevel s i slab.storage l (q s i)) (sym (same s i)) (st.levels s i lt);
  slots = st.slots;
  small = st.small;
  used = st.used;
  listed = st.listed;
  only = st.only;
  table = st.table;
  vacancy = st.vacancy;
  vacant = st.vacant;
}

-- The two books differ at most in their bitmaps and best indices.
pub record IsSame (b c : Book) : Type 0 where
  pub cfg : c.cfg ≡ b.cfg
  pub slab : c.slab ≡ b.slab
  pub id_map : c.id_map ≡ b.id_map
  pub levels : (s : Side) (i : ℕ) → level c s i ≡ level b s i

pub IsSame-refl : (b : Book) → IsSame b b
IsSame-refl b = record { cfg = refl; slab = refl; id_map = refl; levels = λ s i. refl }

IsSame-clear_bit : (b : Book) (s : Side) (i : ℕ) → IsSame b (clear_bit b s i)
unfolding clear_bit level
IsSame-clear_bit b Side.buy i = record {
  cfg = refl;
  slab = refl;
  id_map = refl;
  levels = λ s j. elim s [ Side.buy ↦ refl | Side.sell ↦ refl ];
}
IsSame-clear_bit b Side.sell i = record {
  cfg = refl;
  slab = refl;
  id_map = refl;
  levels = λ s j. elim s [ Side.buy ↦ refl | Side.sell ↦ refl ];
}

IsSame-set_best_idx : (b : Book) (s : Side) (r : Option ℕ) → IsSame b (set_best_idx b s r)
unfolding set_best_idx level
IsSame-set_best_idx b Side.buy r = record {
  cfg = refl;
  slab = refl;
  id_map = refl;
  levels = λ s j. elim s [ Side.buy ↦ refl | Side.sell ↦ refl ];
}
IsSame-set_best_idx b Side.sell r = record {
  cfg = refl;
  slab = refl;
  id_map = refl;
  levels = λ s j. elim s [ Side.buy ↦ refl | Side.sell ↦ refl ];
}

IsSame-trans : (b c d : Book) → IsSame b c → IsSame c d → IsSame b d
IsSame-trans b c d e f = record {
  cfg = f.cfg ∙ e.cfg;
  slab = f.slab ∙ e.slab;
  id_map = f.id_map ∙ e.id_map;
  levels = λ s i. f.levels s i ∙ e.levels s i;
}

pub IsSame-leave_level : (b : Book) (s : Side) (i : ℕ) → IsSame b (leave_level b s i)
unfolding leave_level
IsSame-leave_level b s i =
    IsSame-trans b (clear_bit b s i) _ (IsSame-clear_bit b s i)
      (IsSame-set_best_idx (clear_bit b s i) s _)

pub IsSame-vacate_level : (b : Book) (s : Side) (i : ℕ) → IsSame b (vacate_level b s i)
unfolding vacate_level leave_level
IsSame-vacate_level b s i = elim (Bool-cases (is_at (best_idx b s) i)) [
  | inl e ↦ rw e (IsSame-leave_level b s i)
  | inr e ↦ rw e (IsSame-clear_bit b s i)
]

-- The levels of a book do not change with its slab and its table.
pub level-slab :
    (b : Book) (slab : Slab) (m : IdMap) (s : Side) (i : ℕ)
    → level (record b { slab = slab; id_map = m }) s i ≡ level b s i
unfolding level
level-slab b slab m Side.buy i = refl
level-slab b slab m Side.sell i = refl

pub slab-IsShelved :
    (b : Book) (slab : Slab) (m : IdMap)
    → IsShelved b
    → IsShelved (record b { slab = slab; id_map = m })
unfolding level best_idx
slab-IsShelved b slab m x Side.buy = x Side.buy
slab-IsShelved b slab m x Side.sell = x Side.sell

-- A stock with the slab and the table changed as well.
pub IsStockedBook-with :
    (k : ℕ) (b c : Book) (lv : Side → ℕ → PriceLevel) (slab : Slab) (m : IdMap) (q : Queues)
    (free : List ℕ)
    → c.cfg ≡ b.cfg
    → ((s : Side) (i : ℕ) → level c s i ≡ lv s i)
    → IsStocked k b.cfg.num_levels lv slab m q free
    → IsStockedBook k (record c { slab = slab; id_map = m }) q free
IsStockedBook-with k b c lv slab m q free e same st =
    subst
      (λ (z : Config).
        IsStocked k z.num_levels (level (record c { slab = slab; id_map = m })) slab m q free)
      (sym e)
      (IsStocked-levels k b.cfg.num_levels lv _ slab m q free
        (λ s i. level-slab c slab m s i ∙ same s i) st)

pub set_at-same :
    {A : Type 0} (f g : Side → ℕ → A) (s : Side) (i : ℕ) (a : A) (s' : Side) (i' : ℕ)
    → f s' i' ≡ g s' i'
    → set_at f s i a s' i' ≡ set_at g s i a s' i'
set_at-same f g s i a s' i' e = ap (λ z. if same_side s s' && i' == i then a else z) e

-- A write to a level, after a change of the storage.
pub level-set_level_storage :
    (b : Book) (h : Heap) (s : Side) (i : ℕ) (l : PriceLevel) (s' : Side) (i' : ℕ)
    → level (set_level (set_storage b h) s i l) s' i' ≡ set_at (level b) s i l s' i'
level-set_level_storage b h s i l s' i' =
    level-set_level (set_storage b h) s i l s' i'
    ∙ set_at-same (level (set_storage b h)) (level b) s i l s' i'
        (level-slab b (record (b.slab) { storage = h }) b.id_map s' i')

pub set_level_storage-rest :
    (b : Book) (h : Heap) (s : Side) (i : ℕ) (l : PriceLevel)
    → ((set_level (set_storage b h) s i l).cfg ≡ b.cfg)
      × ((set_level (set_storage b h) s i l).id_map ≡ b.id_map)
      × ((set_level (set_storage b h) s i l).slab ≡ record (b.slab) { storage = h })
unfolding set_level
set_level_storage-rest b h Side.buy i l = (refl, refl, refl)
set_level_storage-rest b h Side.sell i l = (refl, refl, refl)

pub IsSame-occupy_level : (b : Book) (s : Side) (i : ℕ) → IsSame b (occupy_level b s i)
unfolding occupy_level level
IsSame-occupy_level b Side.buy i = record {
  cfg = refl;
  slab = refl;
  id_map = refl;
  levels = λ s j. elim s [ Side.buy ↦ refl | Side.sell ↦ refl ];
}
IsSame-occupy_level b Side.sell i = record {
  cfg = refl;
  slab = refl;
  id_map = refl;
  levels = λ s j. elim s [ Side.buy ↦ refl | Side.sell ↦ refl ];
}
