-- ===== src/Book/Fill/Take.antt =====
-- `submit` of an order that does not rest: it is matched, and what is left of it is dropped.
use mathlib.Core.Path.{subst}
use orderbook_engine.Base.{
  ℕ, ◌-◌, ◌^◌, ◌≤◌, ◌≡◌, refl, ◌∙◌, true, false, not, ◌&&◌, ◌||◌, ◌==◌, none, some, Bool-cases, inl,
  inr, if◌then◌else◌, List, ltb, arith,
}
use orderbook_engine.Base.Steps.{>>=-some}
use orderbook_engine.Book.Best.Levels.{IsShelved}
use orderbook_engine.Book.Fill.Aggress.{aggressive, aggressive-IsMatched, execute-aggressive}
use orderbook_engine.Book.Fill.Round.{IsMatched}
use orderbook_engine.Book.Match.{Matched}
use orderbook_engine.Book.State.{Book, find, in_range}
use orderbook_engine.Book.Stock.{Queues, IsStockedBook}
use orderbook_engine.Book.Submit.{
  Request, answer, settle, aggressor, match_limit, execute, post_only_check, fok_check, range_check,
  duplicate_check, submit,
}
use orderbook_engine.Types.{
  Quantity, OrderStatus, SubmitResult, is_market_type, is_ioc, is_fok, is_post_only,
}

abbrev pub taker_result : (qty remaining : Quantity) → SubmitResult
taker_result qty remaining =
    if remaining == 0
    then answer OrderStatus.fully_filled qty 0
    else answer
        (if ltb 0 (qty - remaining) then OrderStatus.partially_filled else OrderStatus.cancelled)
        (qty - remaining) remaining

module _ (b : Book) (r : Request) (some_qty : (r.qty == 0) ≡ false) (id : (r.id == 0) ≡ false)
    (fresh : find b r.id ≡ some none) (no_fok : is_fok r.tif ≡ false)
    (no_post : is_post_only r.tif ≡ false)
    (valid : (is_market_type r.type || in_range b r.price) ≡ true) where
  -- The checks let the order through.
  pub submit-execute : submit b r ≡ execute b r
  unfolding submit duplicate_check range_check fok_check post_only_check
  submit-execute =
      let v : (not (is_market_type r.type) && not (in_range b r.price)) ≡ false = ground arith in
      rw (some_qty, id)
        (>>=-some (find b r.id) (duplicate_check b r) fresh ∙ rw (v, no_fok, no_post) refl)

  module _ (k : ℕ) (q : Queues) (free : List ℕ) (st : IsStockedBook k b q free)
      (shelved : IsShelved b) (small : b.cfg.num_levels ≤ 2 ^ 32) where
    -- `submit` of an order with a quantity and a new id, immediate-or-cancel, or at the market and
    -- neither fill-or-kill nor post-only, with a price in range unless it is at the market, returns what the match returns in a stocked and shelved book of at most
    -- 2 ^ 32 levels: its trades, its book, and whether all of the order, a part or nothing was filled.
    pub submit-IsMatched :
        (is_ioc r.tif || is_market_type r.type) ≡ true
        → (m : Matched) × IsMatched k b (aggressor r) (match_limit b r) q r.qty (some m)
          × (submit b r
              ≡ some (record {
                result = taker_result r.qty m.remaining;
                trades = m.trades;
                book = m.book;
              }))
    unfolding settle
    submit-IsMatched taker =
        let f = aggressive-IsMatched b r valid k q free st shelved small in
        let m : Matched = record { book = f.book; remaining = f.remaining; trades = f.trades } in
        (
          m,
          subst (IsMatched k b (aggressor r) (match_limit b r) q r.qty) f.returns f,
          submit-execute
              ∙ execute-aggressive b r no_post
              ∙ >>=-some (aggressive b r) (settle r) f.returns
              ∙ elim (Bool-cases (m.remaining == 0)) [
                | inl z ↦ rw z refl
                | inr ne ↦ rw (ne, taker) refl
              ],
        )
