-- ===== src/Book/Fill/After.antt =====
-- The step of the outer loop to the next level.
use mathlib.Core.Path.{subst}
use orderbook_engine.Base.{
  ℕ, suc, ◌<◌, ◌≡◌, ◌≢◌, refl, sym, ap, ◌∙◌, true, false, ◌==◌, Option, none, some, Bool-cases, inl,
  inr, if◌then◌else◌, List, [], ◌++◌, arith,
}
use orderbook_engine.Base.Steps.{◌>>=◌, >>=-some}
use orderbook_engine.Book.Best.{better}
use orderbook_engine.Book.Best.Levels.{IsShelved}
use orderbook_engine.Book.Fill.{entries, Consumed, trades_at}
use orderbook_engine.Book.Fill.Level.{IsFilled}
use orderbook_engine.Book.Fill.Next.{with_level-cfg, leave_level-IsStocked, left-IsShelved}
use orderbook_engine.Book.Fill.Sweep.{view, IsChange, IsSwept}
use orderbook_engine.Book.Fill.Views.{
  IsLevel-is_empty, view-same, view-IsBestLevel, view-filled, view-aside,
}
use orderbook_engine.Book.Match.{
  Matched, Aggressor, is_breached, leave_level, fill_loop, level_rounds, put_trades, after_level,
}
use orderbook_engine.Book.Rest.{best_idx}
use orderbook_engine.Book.State.{Book, Config, is_empty, idx_to_price}
use orderbook_engine.Book.Stock.{Queues, IsStockedBook}
use orderbook_engine.Book.Stock.Same.{IsSame-leave_level}
use orderbook_engine.Types.{Side, Quantity, opposite}
use orderbook_engine.Book.Fill.Rank.{rank, rank_pos, rank-lt}
use orderbook_engine.Book.Fill.Round
use orderbook_engine.Book.Fill.Round.{IsMatched, idx_to_price-cfg}

module _ (k : ℕ) (a : Aggressor) (limit : Option ℕ) where
  abbrev s : Side
  s = opposite a.side

  module _ (b : Book) (q : Queues) (free : List ℕ) (st : IsStockedBook k b q free)
      (shelved : IsShelved b) (i : ℕ) (at : best_idx b s ≡ some i) (r : Quantity) where
    abbrev t : Consumed
    t = Round.t k a limit b q free st shelved i at r

    li : i < b.cfg.num_levels
    li = Round.li k a limit b q free st shelved i at r

    abbrev f : IsFilled k b a i q b.slab.storage (q s i) t (fill_loop (level_rounds b) b a i r)
    f = Round.filled k a limit b q free st shelved i at r

    abbrev c : Book
    c = Round.c k a limit b q free st shelved i at r

    abbrev q' : Queues
    q' = Round.q' k a limit b q free st shelved i at r

    abbrev pub c' : Book
    c' = leave_level c s i

    module _ (gone : is_empty f.lvl ≡ true) where
      nothing_left : t.left ≡ []
      nothing_left =
          sym f.left
          ∙ ap (entries f.slab.storage) (
              IsLevel-is_empty s i f.slab.storage f.lvl f.rest
                (Round.left-IsLevel k a limit b q free st shelved i at r) gone)

      pub c'-IsStocked : IsStockedBook k c' q' f.free
      c'-IsStocked =
          leave_level-IsStocked k c s i q' f.free
            (Round.c-IsStocked k a limit b q free st shelved i at r)

      pub c'-IsShelved : IsShelved c'
      c'-IsShelved = left-IsShelved b s i f.lvl f.slab f.id_map gone at shelved

      cfg-c' : c'.cfg ≡ b.cfg
      cfg-c' = (IsSame-leave_level c s i).cfg ∙ with_level-cfg b s i f.lvl f.slab f.id_map

      view-c' : IsChange (view b q s) (view c' q' s) i []
      view-c' j =
          view-same c c' q' s j (IsSame-leave_level c s i)
          ∙ view-filled k b a q free st i li t _ f j
          ∙ ap (λ z. if j == i then z else view b q s j) nothing_left

      -- The next best level is further from the limit's side than the one left.
      pub rank-next :
          (n : ℕ)
          → rank s b.cfg.num_levels (some i) < suc n
          → rank s c'.cfg.num_levels (best_idx c' s) < n
      rank-next n lt = next (best_idx c' s) refl
        where
          next : (best : Option ℕ) → best_idx c' s ≡ best → rank s c'.cfg.num_levels best < n
          next none e = omega (arith, lt, rank_pos s b.cfg.num_levels i li)
          next (some j) e =
              let (lj, _, top) = view-IsBestLevel k c' q' f.free c'-IsStocked c'-IsShelved s j e in
              let lj' : j < b.cfg.num_levels = subst (λ (z : Config). j < z.num_levels) cfg-c' lj in
              let ne : j ≢ i = (λ z. top.occupied (
                view-c' j
                ∙ ap (λ w. if w then [] else view b q s j)
                    (let f : (j == i) ≡ true = ground arith in f))) in
              let old : view b q s j ≢ [] = (λ z. top.occupied (
                view-c' j
                ∙ ap (λ w. if w then [] else view b q s j)
                    (let f : (j == i) ≡ false = ground arith in f)
                ∙ z)) in
              let worse : better s j i ≡ false = elim (Bool-cases (better s j i)) [
                | inr f ↦ f
                | inl f ↦
                    absurd (old ((view-IsBestLevel k b q free st shelved s i at).2.no_better j f))
              ] in
              let step = rank-lt s b.cfg.num_levels i j lj' worse ne in
              subst (λ (z : Config). rank s z.num_levels (some j) < n) (sym cfg-c')
                (omega (arith, step, lt))

      -- The level has been emptied, and the match goes on from the next one.
      pub matched_next :
          (run rest : Option Matched)
          → is_breached a.side limit i ≡ false
          → IsMatched k c' a limit q' t.remaining rest
          → run ≡ (rest >>= put_trades (trades_at a (idx_to_price b i) t.fills))
          → IsMatched k b a limit q r run
      matched_next run rest near g e =
          let (_, _, best) = view-IsBestLevel k b q free st shelved s i at in
          record {
            book = g.book;
            queues = g.queues;
            free = g.free;
            trades = trades_at a (idx_to_price b i) t.fills ++ g.trades;
            remaining = g.remaining;
            returns =
                e ∙ >>=-some rest (put_trades (trades_at a (idx_to_price b i) t.fills)) g.returns;
            stocked = g.stocked;
            shelved = g.shelved;
            cfg = g.cfg ∙ cfg-c';
            swept = IsSwept.next i best near nothing_left view-c' (
                subst
                  (λ z.
                    IsSwept z a limit (view c' q' s) t.remaining g.trades (view g.book g.queues s)
                      g.remaining)
                  (idx_to_price-cfg b c' cfg-c') g.swept);
            aside = λ j.
                g.aside j
                ∙ view-same c c' q' a.side j (IsSame-leave_level c s i)
                ∙ view-aside k b a q free st i li t _ f j;
          }

    pub loop_next :
        (next : Book → Option ℕ → Quantity → Option Matched)
        → is_empty f.lvl ≡ true
        → (fill_loop (level_rounds b) b a i r >>= after_level next s i) ≡ (
            next c' (best_idx c' s) t.remaining
            >>= put_trades (trades_at a (idx_to_price b i) t.fills))
    unfolding after_level
    loop_next next gone =
        >>=-some (fill_loop (level_rounds b) b a i r) (after_level next s i) f.returns
        ∙ rw (Round.level-c k a limit b q free st shelved i at r, gone) refl
