-- ===== src/Book/Fill/Round.antt =====
-- One round of the outer loop of the match: the inner loop at the best level.
use mathlib.Core.Path.{subst}
use orderbook_engine.Base.{ℕ, ◌<◌, ◌≡◌, refl, sym, ap, ◌∙◌, false, Option, some, List, [], arith}
use orderbook_engine.Base.Int.{◌+ℤ◌, to_signed32}
use orderbook_engine.Base.Steps.{◌>>=◌, >>=-some}
use orderbook_engine.Book.Best.Levels.{IsShelved}
use orderbook_engine.Book.Fill.{Consumed, consume, trades_at}
use orderbook_engine.Book.Fill.Level.{IsFilled, fill_loop-IsFilled, head-IsLevel}
use orderbook_engine.Book.Fill.Next.{
  with_level-cfg, with_level_self, with_level-IsStocked, kept-IsShelved,
}
use orderbook_engine.Book.Fill.Sweep.{view, IsSwept}
use orderbook_engine.Book.Fill.Views.{
  IsLevel-occupied, view-in, view-IsBestLevel, filled_book, filled_queues, view-filled, view-aside,
}
use orderbook_engine.Book.Fill.Walk.{with_level, level-with_level, set_at_self, set_at-keep}
use orderbook_engine.Book.Match.{
  Matched, done, Aggressor, is_breached, fill_loop, level_rounds, after_level,
}
use orderbook_engine.Book.Rest.{best_idx}
use orderbook_engine.Book.State.{Book, Config, is_empty, level, idx_to_price}
use orderbook_engine.Book.Stock.{set_at, IsLevel, Queues, IsStocked, IsStockedBook}
use orderbook_engine.Book.Stock.Queues.{length-queue}
use orderbook_engine.Types.{Side, Quantity, Trade, opposite}

-- The run returns a stocked and shelved book, swept from the book `b`.
pub record IsMatched (k : ℕ) (b : Book) (a : Aggressor) (limit : Option ℕ) (q : Queues)
    (r : Quantity) (run : Option Matched) : Type 0 where
  pub book : Book
  pub queues : Queues
  pub free : List ℕ
  pub trades : List Trade
  pub remaining : Quantity
  pub returns : run ≡ some (record { book = book; remaining = remaining; trades = trades })
  pub stocked : IsStockedBook k book queues free
  pub shelved : IsShelved book
  pub cfg : book.cfg ≡ b.cfg
  pub swept :
      IsSwept
        (idx_to_price b)
        a
        limit
        (view b q (opposite a.side))
        r
        trades
        (view book queues (opposite a.side))
        remaining
  pub aside : (j : ℕ) → view book queues a.side j ≡ view b q a.side j

pub idx_to_price-cfg : (b c : Book) → c.cfg ≡ b.cfg → idx_to_price c ≡ idx_to_price b
unfolding idx_to_price
idx_to_price-cfg b c e = ap (λ (z : Config). λ (i : ℕ). z.base_price +ℤ to_signed32 i) e

module _ (k : ℕ) (a : Aggressor) (limit : Option ℕ) where
  abbrev s : Side
  s = opposite a.side

  pub stay :
      (b : Book) (q : Queues) (free : List ℕ) (r : Quantity) (run : Option Matched)
      → IsStockedBook k b q free
      → IsShelved b
      → run ≡ some (done b r)
      → IsSwept (idx_to_price b) a limit (view b q s) r [] (view b q s) r
      → IsMatched k b a limit q r run
  stay b q free r run st shelved e sw = record {
    book = b;
    queues = q;
    free = free;
    trades = [];
    remaining = r;
    returns = e;
    stocked = st;
    shelved = shelved;
    cfg = refl;
    swept = sw;
    aside = λ j. refl;
  }

  module _ (b : Book) (q : Queues) (free : List ℕ) (st : IsStockedBook k b q free)
      (shelved : IsShelved b) (i : ℕ) (at : best_idx b s ≡ some i) (r : Quantity) where
    abbrev pub t : Consumed
    t = consume r (view b q s i)

    pub li : i < b.cfg.num_levels
    li = (view-IsBestLevel k b q free st shelved s i at).0

    -- The inner loop at the best level.
    pub filled : IsFilled k b a i q b.slab.storage (q s i) t (fill_loop (level_rounds b) b a i r)
    filled =
        let st' : IsStocked k b.cfg.num_levels (set_at (level b) s i (level b s i)) b.slab b.id_map
            q free =
          subst (λ z. IsStocked k b.cfg.num_levels z b.slab b.id_map q free)
            (sym (set_at-keep (level b) s i (level b s i) refl)) st in
        let bound = length-queue k b.cfg.num_levels (level b) b.slab b.id_map q free st s i li in
        let f =
          fill_loop-IsFilled k b a i li (level_rounds b) (level b s i) b.slab b.id_map q free
            (q s i) r st' refl (omega (arith, bound)) in
        subst
          (λ z. IsFilled k b a i q b.slab.storage (q s i) t (fill_loop (level_rounds b) z a i r))
          (with_level_self b s i)
          (subst
            (λ z.
              IsFilled k b a i q b.slab.storage (q s i) (consume r z)
                (fill_loop (level_rounds b) (with_level b s i (level b s i) b.slab b.id_map) a i r))
            (sym (view-in b q s i li)) f)

    abbrev pub c : Book
    c = filled_book k b a q free st i li t _ filled

    abbrev pub q' : Queues
    q' = filled_queues k b a q free st i li t _ filled

    pub left-IsLevel : IsLevel s i filled.slab.storage filled.lvl filled.rest
    left-IsLevel =
        head-IsLevel k b a i li filled.lvl filled.slab filled.id_map q' filled.free filled.rest
          filled.stocked (set_at_self q s i filled.rest)

    pub c-IsStocked : IsStockedBook k c q' filled.free
    c-IsStocked =
        with_level-IsStocked k b s i filled.lvl filled.slab filled.id_map q' filled.free
          filled.stocked

    pub level-c : level c s i ≡ filled.lvl
    level-c = level-with_level b s i filled.lvl filled.slab filled.id_map

    -- The level has kept an order, and the match ends.
    pub matched_last :
        (run : Option Matched)
        → is_breached a.side limit i ≡ false
        → is_empty filled.lvl ≡ false
        → run
          ≡ some (record {
            book = c;
            remaining = t.remaining;
            trades = trades_at a (idx_to_price b i) t.fills;
          })
        → IsMatched k b a limit q r run
    matched_last run near full e =
        let (_, was, best) = view-IsBestLevel k b q free st shelved s i at in
        record {
          book = c;
          queues = q';
          free = filled.free;
          trades = trades_at a (idx_to_price b i) t.fills;
          remaining = t.remaining;
          returns = e;
          stocked = c-IsStocked;
          shelved =
              kept-IsShelved b s i filled.lvl filled.slab filled.id_map (full ∙ sym was) shelved;
          cfg = with_level-cfg b s i filled.lvl filled.slab filled.id_map;
          swept =
              IsSwept.last i best near
                (λ z.
                  IsLevel-occupied s i filled.slab.storage filled.lvl filled.rest left-IsLevel full
                    (filled.left ∙ z))
                (view-filled k b a q free st i li t _ filled);
          aside = view-aside k b a q free st i li t _ filled;
        }

    pub loop_last :
        (next : Book → Option ℕ → Quantity → Option Matched)
        → is_empty filled.lvl ≡ false
        → (fill_loop (level_rounds b) b a i r >>= after_level next s i)
          ≡ some (record {
            book = c;
            remaining = t.remaining;
            trades = trades_at a (idx_to_price b i) t.fills;
          })
    unfolding after_level
    loop_last next full =
        >>=-some (fill_loop (level_rounds b) b a i r) (after_level next s i) filled.returns
        ∙ rw (level-c, full) refl
