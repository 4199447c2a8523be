-- ===== src/Book/Fill/Next.antt =====
-- The book after the inner loop at a level, and after the step to the next level.
use mathlib.Core.Path.{subst}
use orderbook_engine.Base.{ℕ, zero, suc, ◌≡◌, refl, sym, ap, true, some, List, update_same}
use orderbook_engine.Book.Best.Levels.{IsShelved, keep-IsShelved, leave_level-IsShelved}
use orderbook_engine.Book.Fill.Walk.{with_level}
use orderbook_engine.Book.Match.{leave_level}
use orderbook_engine.Book.Rest.{best_idx, clear_bit, set_best_idx}
use orderbook_engine.Book.State.{Book, Config, PriceLevel, is_empty, level, set_level, next_level}
use orderbook_engine.Book.Stock.{set_at, Queues, IsStocked, IsStockedBook}
use orderbook_engine.Book.Stock.Queues.{level-set_level}
use orderbook_engine.Book.Stock.Same.{
  IsSame, IsSame-leave_level, IsStocked-levels, IsStockedBook-with, slab-IsShelved,
}
use orderbook_engine.IdMap.{IdMap}
use orderbook_engine.Orders.Slab.{Slab}
use orderbook_engine.Types.{Side}

set_level-cfg : (b : Book) (s : Side) (i : ℕ) (l : PriceLevel) → (set_level b s i l).cfg ≡ b.cfg
unfolding set_level
set_level-cfg b Side.buy i l = refl
set_level-cfg b Side.sell i l = refl

pub with_level-cfg :
    (b : Book) (s : Side) (i : ℕ) (l : PriceLevel) (slab : Slab) (m : IdMap)
    → (with_level b s i l slab m).cfg ≡ b.cfg
with_level-cfg b s i l slab m = set_level-cfg b s i l

pub with_level_self :
    (b : Book) (s : Side) (i : ℕ) → with_level b s i (level b s i) b.slab b.id_map ≡ b
unfolding set_level level
with_level_self b Side.buy i =
    ap (λ (z : ℕ → PriceLevel). record b { bid_levels = z })
      (update_same b.bid_levels i (b.bid_levels i) refl)
with_level_self b Side.sell i =
    ap (λ (z : ℕ → PriceLevel). record b { ask_levels = z })
      (update_same b.ask_levels i (b.ask_levels i) refl)

pub with_level-IsStocked :
    (k : ℕ) (b : Book) (s : Side) (i : ℕ) (l : PriceLevel) (slab : Slab) (m : IdMap) (q : Queues)
    (free : List ℕ)
    → IsStocked k b.cfg.num_levels (set_at (level b) s i l) slab m q free
    → IsStockedBook k (with_level b s i l slab m) q free
with_level-IsStocked k b s i l slab m q free st =
    IsStockedBook-with k b (set_level b s i l) (set_at (level b) s i l) slab m q free
      (set_level-cfg b s i l) (level-set_level b s i l) st

IsStocked-same :
    (k : ℕ) (b c : Book) (q : Queues) (free : List ℕ)
    → IsSame b c
    → IsStockedBook k b q free
    → IsStockedBook k c q free
IsStocked-same k b c q free e st =
    let st₁ =
      IsStocked-levels k b.cfg.num_levels (level b) (level c) b.slab b.id_map q free e.levels st in
    subst (λ (z : Config). IsStocked k z.num_levels (level c) c.slab c.id_map q free) (sym e.cfg)
      (subst (λ z. IsStocked k b.cfg.num_levels (level c) z c.id_map q free) (sym e.slab)
        (subst (λ z. IsStocked k b.cfg.num_levels (level c) b.slab z q free) (sym e.id_map) st₁))

pub leave_level-IsStocked :
    (k : ℕ) (b : Book) (s : Side) (i : ℕ) (q : Queues) (free : List ℕ)
    → IsStockedBook k b q free
    → IsStockedBook k (leave_level b s i) q free
leave_level-IsStocked k b s i q free =
    IsStocked-same k b (leave_level b s i) q free (IsSame-leave_level b s i)

leave_level-with_level :
    (b : Book) (s : Side) (i : ℕ) (l : PriceLevel) (slab : Slab) (m : IdMap)
    → leave_level (with_level b s i l slab m) s i
      ≡ record (leave_level (set_level b s i l) s i) { slab = slab; id_map = m }
unfolding leave_level set_level clear_bit set_best_idx next_level
leave_level-with_level b Side.buy zero l slab m = refl
leave_level-with_level b Side.buy (suc i) l slab m = refl
leave_level-with_level b Side.sell i l slab m = refl

-- The best level has been emptied, and the loop has left it.
pub left-IsShelved :
    (b : Book) (s : Side) (i : ℕ) (l : PriceLevel) (slab : Slab) (m : IdMap)
    → is_empty l ≡ true
    → best_idx b s ≡ some i
    → IsShelved b
    → IsShelved (leave_level (with_level b s i l slab m) s i)
left-IsShelved b s i l slab m gone at x =
    subst IsShelved (sym (leave_level-with_level b s i l slab m)) (
      slab-IsShelved (leave_level (set_level b s i l) s i) slab m
        (leave_level-IsShelved b s i l gone at x))

-- The level has kept an order.
pub kept-IsShelved :
    (b : Book) (s : Side) (i : ℕ) (l : PriceLevel) (slab : Slab) (m : IdMap)
    → is_empty l ≡ is_empty (level b s i)
    → IsShelved b
    → IsShelved (with_level b s i l slab m)
kept-IsShelved b s i l slab m same x =
    slab-IsShelved (set_level b s i l) slab m (keep-IsShelved b s i l same x)
