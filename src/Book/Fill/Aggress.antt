-- ===== src/Book/Fill/Aggress.antt =====
-- The aggressive phase of `submit`: the match, or nothing for an order that does not cross.
use orderbook_engine.Base.{
  ℕ, ◌^◌, ◌≤◌, ◌<◌, ◌≡◌, refl, ap, ◌∙◌, true, false, ◌||◌, Option, none, some, Bool-cases, inl, inr,
  if◌then◌else◌, List, [], leb, arith,
}
use orderbook_engine.Base.Int.{ℤ, ◌-ℤ◌, pos, negsuc, to_unsigned}
use orderbook_engine.Base.Steps.{◌>>=◌}
use orderbook_engine.Book.Best.Levels.{IsShelved}
use orderbook_engine.Book.Fill.Match.{match_side-IsMatched}
use orderbook_engine.Book.Fill.Round.{IsMatched, stay}
use orderbook_engine.Book.Fill.Sweep.{IsSwept, view}
use orderbook_engine.Book.Fill.Views.{view-bare, view-IsBestLevel}
use orderbook_engine.Book.Match.{Matched, done, is_breached, match_side, would_cross}
use orderbook_engine.Book.Rest.{best_idx}
use orderbook_engine.Book.State.{Book, in_range, price_to_idx, price_offset, idx_to_price}
use orderbook_engine.Book.Stock.{Queues, IsStockedBook}
use orderbook_engine.Book.Submit.{Request, settle, aggressor, match_limit, execute}
use orderbook_engine.Types.{Side, Price, opposite, is_market_type, is_post_only}

unsigned_small : (z : ℤ) → to_unsigned 64 z < 2 ^ 32 → to_unsigned 32 z ≡ to_unsigned 64 z
unfolding to_unsigned
unsigned_small (pos n) lt = omega (arith, lt)
unsigned_small (negsuc n) lt = omega (arith, lt)

-- Where the prices' offsets fit into 32 bits, an order that does not cross meets no level within its limit.
is_breached-would_cross :
    (b : Book) (s : Side) (p : Price) (i : ℕ)
    → b.cfg.num_levels ≤ 2 ^ 32
    → in_range b p ≡ true
    → best_idx b (opposite s) ≡ some i
    → would_cross b s p ≡ false
    → is_breached s (some (price_to_idx b p)) i ≡ true
unfolding in_range would_cross best_idx is_breached price_to_idx price_offset
is_breached-would_cross b Side.buy p i small within at no_cross =
    let e = unsigned_small (p -ℤ b.cfg.base_price) (ground arith) in
    let c : leb i (to_unsigned 64 (p -ℤ b.cfg.base_price)) ≡ false = rw at at no_cross in
    ground (arith, e, c)
is_breached-would_cross b Side.sell p i small within at no_cross =
    let e = unsigned_small (p -ℤ b.cfg.base_price) (ground arith) in
    let c : leb (to_unsigned 64 (p -ℤ b.cfg.base_price)) i ≡ false = rw at at no_cross in
    ground (arith, e, c)

-- A price in range has a level.
pub in_range-price_to_idx :
    (b : Book) (p : Price)
    → b.cfg.num_levels ≤ 2 ^ 32
    → in_range b p ≡ true
    → price_to_idx b p < b.cfg.num_levels
unfolding in_range price_to_idx price_offset
in_range-price_to_idx b p small within =
    let e = unsigned_small (p -ℤ b.cfg.base_price) (ground arith) in ground (arith, e)

-- The aggressive phase of an order that is not post-only.
abbrev pub aggressive : Book → Request → Option Matched
aggressive b r =
    if is_market_type r.type || would_cross b r.side r.price
    then match_side b (aggressor r) (match_limit b r) r.qty
    else some (done b r.qty)

pub execute-aggressive :
    (b : Book) (r : Request)
    → is_post_only r.tif ≡ false
    → execute b r ≡ (aggressive b r >>= settle r)
unfolding execute
execute-aggressive b r no_post = rw no_post refl

module _ (b : Book) (r : Request) (valid : (is_market_type r.type || in_range b r.price) ≡ true)
    (k : ℕ) (q : Queues) (free : List ℕ) (st : IsStockedBook k b q free) (shelved : IsShelved b)
    (small : b.cfg.num_levels ≤ 2 ^ 32) where
  abbrev s : Side
  s = opposite r.side

  -- An order that does not cross sweeps nothing.
  swept_none :
      is_market_type r.type ≡ false
      → would_cross b r.side r.price ≡ false
      → (best : Option ℕ) → best_idx b s ≡ best
      → IsSwept
          (idx_to_price b)
          (aggressor r)
          (match_limit b r)
          (view b q s)
          r.qty
          []
          (view b q s)
          r.qty
  swept_none market cross none at = IsSwept.bare (view-bare k b q free st shelved s at)
  swept_none market cross (some i) at =
      let within : in_range b r.price ≡ true = ground (arith, valid) in
      let far = is_breached-would_cross b r.side r.price i small within at cross in
      let limit : match_limit b r ≡ some (price_to_idx b r.price) = rw market refl in
      IsSwept.beyond i (view-IsBestLevel k b q free st shelved s i at).2
        (ap (λ z. is_breached r.side z i) limit ∙ far)

  pub aggressive-IsMatched : IsMatched k b (aggressor r) (match_limit b r) q r.qty (aggressive b r)
  aggressive-IsMatched = elim (Bool-cases (is_market_type r.type || would_cross b r.side r.price)) [
    | inl go ↦
        rw go (match_side-IsMatched k (aggressor r) (match_limit b r) b q free r.qty st shelved)
    | inr no_go ↦ rw no_go (
        stay k (aggressor r) (match_limit b r) b q free r.qty (some (done b r.qty)) st shelved refl
          (swept_none (ground arith) (ground arith) (best_idx b s) refl))
  ]
