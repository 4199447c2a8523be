-- ===== src/Book/Fill/Match.antt =====
-- The outer loop of the match: it sweeps the levels of the other side, the best first.
use mathlib.Core.Path.{subst}
use orderbook_engine.Base.{
  ℕ, zero, suc, ◌+◌, ◌<◌, ◌≡◌, refl, sym, ◌∙◌, true, false, ◌==◌, ==→eq, Option, none, some,
  Bool-cases, inl, inr, List, [], arith,
}
use orderbook_engine.Base.Steps.{◌>>=◌}
use orderbook_engine.Book.Best.Levels.{IsShelved}
use orderbook_engine.Book.Fill.Sweep.{view, IsSwept}
use orderbook_engine.Book.Fill.Views.{view-bare, view-IsBestLevel}
use orderbook_engine.Book.Match.{
  done, Aggressor, is_breached, fill_loop, level_rounds, after_level, match_loop, side_rounds,
  match_side,
}
use orderbook_engine.Book.Rest.{best_idx}
use orderbook_engine.Book.State.{Book, is_empty, idx_to_price}
use orderbook_engine.Book.Stock.{Queues, IsStockedBook}
use orderbook_engine.Types.{Side, Quantity, opposite}
use orderbook_engine.Book.Fill.Rank.{rank, rank_small}
use orderbook_engine.Book.Fill.Round.{IsMatched, stay, filled, matched_last, loop_last, t, q'}
use orderbook_engine.Book.Fill.After.{
  c', c'-IsStocked, c'-IsShelved, rank-next, matched_next, loop_next,
}

module _ (k : ℕ) (a : Aggressor) (limit : Option ℕ) where
  abbrev s : Side
  s = opposite a.side

  match_loop-round :
      (n : ℕ) (b : Book) (i : ℕ) (r : Quantity)
      → (r == 0) ≡ false
      → is_breached a.side limit i ≡ false
      → match_loop (suc n) b a limit (some i) r ≡ (
          fill_loop (level_rounds b) b a i r
          >>= after_level (λ b' j r'. match_loop n b' a limit j r') s i)
  unfolding match_loop
  match_loop-round n b i r ne near = rw (ne, near) refl

  match_loop_beyond :
      (n : ℕ) (b : Book) (i : ℕ) (r : Quantity)
      → (r == 0) ≡ false
      → is_breached a.side limit i ≡ true
      → match_loop (suc n) b a limit (some i) r ≡ some (done b r)
  unfolding match_loop
  match_loop_beyond n b i r ne far = rw (ne, far) refl

  match_loop_filled :
      (n : ℕ) (b : Book) (i : ℕ) (r : Quantity)
      → (r == 0) ≡ true
      → match_loop (suc n) b a limit (some i) r ≡ some (done b r)
  unfolding match_loop
  match_loop_filled n b i r e = rw e refl

  -- With more rounds than the rank of the best index, the loop returns a swept book.
  match_loop-IsMatched :
      (n : ℕ) (b : Book) (q : Queues) (free : List ℕ) (r : Quantity) (best : Option ℕ)
      → IsStockedBook k b q free
      → IsShelved b
      → best_idx b s ≡ best
      → rank s b.cfg.num_levels best < n
      → IsMatched k b a limit q r (match_loop n b a limit best r)
  match_loop-IsMatched zero b q free r best st shelved at lt = absurd (omega arith)
  match_loop-IsMatched (suc n) b q free r none st shelved at lt =
      stay k a limit b q free r _ st shelved (unfold match_loop in refl)
        (IsSwept.bare (view-bare k b q free st shelved s at))
  match_loop-IsMatched (suc n) b q free r (some i) st shelved at lt = elim (Bool-cases (r == 0)) [
    | inl z ↦ stay k a limit b q free r _ st shelved (match_loop_filled n b i r z) (
        subst (λ w. IsSwept (idx_to_price b) a limit (view b q s) w [] (view b q s) w)
          (sym (==→eq r 0 z)) IsSwept.filled)
    | inr ne ↦ elim (Bool-cases (is_breached a.side limit i)) [
      | inl far ↦
          stay k a limit b q free r _ st shelved (match_loop_beyond n b i r ne far)
            (IsSwept.beyond i (view-IsBestLevel k b q free st shelved s i at).2 far)
      | inr near ↦ elim (Bool-cases (is_empty (filled k a limit b q free st shelved i at r).lvl)) [
        | inr full ↦ matched_last k a limit b q free st shelved i at r _ near full (
            match_loop-round n b i r ne near
            ∙ loop_last k a limit b q free st shelved i at r _ full)
        | inl gone ↦
            let next = c' k a limit b q free st shelved i at r in
            let g =
              match_loop-IsMatched n next (q' k a limit b q free st shelved i at r)
                (filled k a limit b q free st shelved i at r).free
                (t k a limit b q free st shelved i at r).remaining (best_idx next s)
                (c'-IsStocked k a limit b q free st shelved i at r gone)
                (c'-IsShelved k a limit b q free st shelved i at r gone) refl
                (rank-next k a limit b q free st shelved i at r gone n lt) in
            matched_next k a limit b q free st shelved i at r gone _ _ near g (
              match_loop-round n b i r ne near
              ∙ loop_next k a limit b q free st shelved i at r _ gone)
      ]
    ]
  ]

  -- In a stocked and shelved book the match returns. It leaves a stocked and shelved book, the trades and the
  -- quantity that price-time priority asks for: the levels of the other side are swept from the best one on
  -- up to the limit, each from its oldest order on, and the aggressor's side stays as it is.
  pub match_side-IsMatched :
      (b : Book) (q : Queues) (free : List ℕ) (r : Quantity)
      → IsStockedBook k b q free
      → IsShelved b
      → IsMatched k b a limit q r (match_side b a limit r)
  unfolding match_side
  match_side-IsMatched b q free r st shelved =
      match_loop-IsMatched (side_rounds b) b q free r (best_idx b s) st shelved refl
        (enough (best_idx b s) refl)
    where
      enough :
          (best : Option ℕ)
          → best_idx b s ≡ best
          → rank s b.cfg.num_levels best < b.cfg.num_levels + 2
      enough none e = omega arith
      enough (some i) e =
          rank_small s b.cfg.num_levels i (view-IsBestLevel k b q free st shelved s i e).0
