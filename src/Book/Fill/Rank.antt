-- ===== src/Book/Fill/Rank.antt =====
-- How far a level is from the end of its side.
use orderbook_engine.Base.{ℕ, suc, ◌+◌, ◌-◌, ◌<◌, ◌≡◌, ◌≢◌, false, Option, none, some, arith}
use orderbook_engine.Book.Best.{better}
use orderbook_engine.Types.{Side}

-- How far a best index is from the end of its side.
abbrev pub rank : Side → (n : ℕ) → Option ℕ → ℕ
rank s n none = 0
rank Side.buy n (some i) = suc i
rank Side.sell n (some i) = n - i

pub rank_pos : (s : Side) (n i : ℕ) → i < n → 0 < rank s n (some i)
rank_pos Side.buy n i lt = omega arith
rank_pos Side.sell n i lt = omega arith

pub rank-lt :
    (s : Side) (n i j : ℕ)
    → j < n
    → better s j i ≡ false
    → j ≢ i
    → rank s n (some j) < rank s n (some i)
rank-lt Side.buy n i j lt b ne = ground arith
rank-lt Side.sell n i j lt b ne = ground arith

pub rank_small : (s : Side) (n : ℕ) (i : ℕ) → i < n → rank s n (some i) < n + 2
rank_small Side.buy n i lt = omega arith
rank_small Side.sell n i lt = omega arith
