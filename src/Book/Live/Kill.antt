-- ===== src/Book/Live/Kill.antt =====
-- `submit` of a fill-or-kill order: all of it or nothing.
use mathlib.Core.Path.{subst}
use orderbook_engine.Base.{
  ℕ, ◌+◌, ◌%◌, ◌^◌, ◌≤◌, ◌<◌, ◌≡◌, ◌≢◌, refl, ap, ◌∙◌, Bool, true, false, not, ◌&&◌, ◌||◌, ◌==◌,
  none, some, Bool-cases, inl, inr, ◌⊎◌, if◌then◌else◌, List, [], ◌∷◌, leb, arith,
}
use orderbook_engine.Base.Int.{eqb_ℤ}
use orderbook_engine.Base.Steps.{>>=-some}
use orderbook_engine.Base.Sums.{sum-same, part-sum}
use orderbook_engine.Book.Best.{always}
use orderbook_engine.Book.Best.Depth.{depth, tally, can_fully_fill-depth}
use orderbook_engine.Book.Best.Levels.{IsShelved}
use orderbook_engine.Book.Fill.{entries}
use orderbook_engine.Book.Fill.Aggress.{aggressive, aggressive-IsMatched, execute-aggressive}
use orderbook_engine.Book.Fill.Round.{IsMatched}
use orderbook_engine.Book.Fill.Sweep.{view, IsSwept}
use orderbook_engine.Book.Fill.Views.{IsLevel-is_empty, view-in, view-out}
use orderbook_engine.Book.Fill.Volume.{total, reach, volume, IsSwept-volume}
use orderbook_engine.Book.Live.Contract.{IsGone, IsGone-Absent}
use orderbook_engine.Book.Match.{Matched, is_breached, is_within, walk_limit, can_fully_fill}
use orderbook_engine.Book.State.{Book, find, idx_to_price, in_range, is_empty, level, price_to_idx}
use orderbook_engine.Book.Stock.{quantities, Queues, IsStockedBook}
use orderbook_engine.Book.Submit.{
  Request, answer, refuse, settle, aggressor, match_limit, execute, post_only_check, fok_check,
  range_check, duplicate_check, submit,
}
use orderbook_engine.Orders.{Heap}
use orderbook_engine.Types.{
  Side, TimeInForce, OrderStatus, invalid_price, opposite, is_market_type, is_fok, is_post_only,
}

total-entries : (h : Heap) (xs : List ℕ) → total (entries h xs) ≡ quantities h xs
total-entries h [] = refl
total-entries h (x ∷ xs) = ap (λ z. (h x).quantity + z) (total-entries h xs)

is_within-breached :
    (side : Side) (limit j : ℕ) → is_within side limit j ≡ not (is_breached side (some limit) j)
unfolding is_within is_breached
is_within-breached Side.buy limit j = ground arith
is_within-breached Side.sell limit j = ground arith

fok-post_only : (t : TimeInForce) → is_fok t ≡ true → is_post_only t ≡ false
fok-post_only TimeInForce.gtc e = refl
fok-post_only TimeInForce.ioc e = refl
fok-post_only TimeInForce.day e = refl
fok-post_only TimeInForce.fok e = refl
fok-post_only TimeInForce.post_only e = absurd (cc)

-- The request is a fill-or-kill limit order with a quantity, an id and a price in range other than the one that stands
-- for no price.
pub record IsKill (b : Book) (r : Request) : Type 0 where
  pub limit : is_market_type r.type ≡ false
  pub fok : is_fok r.tif ≡ true
  pub within : in_range b r.price ≡ true
  pub real : eqb_ℤ r.price invalid_price ≡ false
  pub pos : 0 < r.qty
  pub ne_zero : r.id ≢ 0

-- The volume that the request can take.
abbrev pub available : Book → Queues → Request → ℕ
available b q r =
    volume r.side (some (price_to_idx b r.price)) b.cfg.num_levels (view b q (opposite r.side))

module _ (k : ℕ) (b : Book) (q : Queues) (free : List ℕ) (st : IsStockedBook k b q free)
    (shelved : IsShelved b) (small : b.cfg.num_levels ≤ 2 ^ 32) (r : Request) (order : IsKill b r)
    (gone : IsGone k b q free st shelved r.id) where
  abbrev s : Side
  s = opposite r.side

  abbrev n : ℕ
  n = b.cfg.num_levels

  abbrev limit : ℕ
  limit = price_to_idx b r.price

  walk_limit-price : walk_limit b r.side r.price ≡ limit
  unfolding walk_limit
  walk_limit-price = (let e = order.real in rw e refl)

  bare_total : (j : ℕ) → j < n → is_empty (level b s j) ≡ true → (level b s j).total_qty ≡ 0
  bare_total j lt e =
      let v = st.levels s j lt in
      v.total
      ∙ ap (λ z. quantities b.slab.storage z % 2 ^ 32)
          (IsLevel-is_empty s j b.slab.storage (level b s j) (q s j) v e)

  some_qty : (r.qty == 0) ≡ false
  some_qty = (let z = order.pos in ground arith)

  some_id : (r.id == 0) ≡ false
  some_id = (let z = order.ne_zero in ground arith)

  valid : (is_market_type r.type || in_range b r.price) ≡ true
  valid = (let w = order.within in ground arith)

  fresh : find b r.id ≡ some none
  fresh = (IsGone-Absent k b q free st shelved r.id order.ne_zero gone).0

  no_post : is_post_only r.tif ≡ false
  no_post = fok-post_only r.tif order.fok

  phase : IsMatched k b (aggressor r) (match_limit b r) q r.qty (aggressive b r)
  phase = aggressive-IsMatched b r valid k q free st shelved small

  abbrev m₀ : Matched
  m₀ = record { book = phase.book; remaining = phase.remaining; trades = phase.trades }

  match_limit-price : match_limit b r ≡ some limit
  match_limit-price = (let e = order.limit in rw e refl)

  -- Where the volume is enough, nothing is left of the order.
  none_left : r.qty ≤ available b q r → phase.remaining ≡ 0
  none_left le =
      let swept =
        subst
          (λ z.
            IsSwept (idx_to_price b) (aggressor r) z (view b q s) r.qty phase.trades
              (view phase.book phase.queues s) phase.remaining)
          match_limit-price phase.swept in
      elim (IsSwept-volume (idx_to_price b) (aggressor r) (some limit) n swept
        (λ j far. view-out b q s j (ground arith))) [ inl z ↦ z | inr e ↦ omega (arith, e, le) ]

  submit-absorbed :
      (a : Bool)
      → can_fully_fill b r.side r.price r.qty ≡ some a
      → submit b r ≡ (if a then execute b r else some (refuse b OrderStatus.cancelled r.qty))
  unfolding submit duplicate_check range_check fok_check post_only_check
  submit-absorbed a run =
      let v : (not (is_market_type r.type) && not (in_range b r.price)) ≡ false =
        ground (arith, valid) in
      rw (some_qty, some_id)
        (>>=-some (find b r.id) (duplicate_check b r) fresh
          ∙ rw (v, order.fok, order.limit, run, no_post) refl)

  module _ (fits : available b q r < 2 ^ 32) where
    reach-tally :
        (j : ℕ) → j < n → tally b r.side limit always j ≡ reach r.side (some limit) (view b q s) j
    reach-tally j lt =
        let all = part-sum (reach r.side (some limit) (view b q s)) n j lt in
        let l = (st.levels s j lt).total in
        let t : total (view b q s j) ≡ quantities b.slab.storage (q s j) =
          ap total (view-in b q s j lt) ∙ total-entries b.slab.storage (q s j) in
        let w = is_within-breached r.side limit j in
        elim (Bool-cases (is_breached r.side (some limit) j)) [
          | inl out ↦
              (let w' : is_within r.side limit j ≡ false = w ∙ rw out refl in rw (w', out) refl)
          | inr inside ↦
              let w' : is_within r.side limit j ≡ true = w ∙ rw inside refl in
              let at : reach r.side (some limit) (view b q s) j ≡ total (view b q s j) =
                rw inside refl in
              rw (w', inside)
                (l
                  ∙ (let e : quantities b.slab.storage (q s j) % 2 ^ 32 ≡ total (view b q s j) =
                        omega (arith, t, all, at, fits) in
                      e))
        ]

    absorbs : can_fully_fill b r.side r.price r.qty ≡ some (leb r.qty (available b q r))
    absorbs =
        let at = walk_limit-price in
        let d : depth b r.side (walk_limit b r.side r.price) always ≡ available b q r =
          ap (λ z. depth b r.side z always) at ∙ sum-same _ _ n reach-tally in
        can_fully_fill-depth b r.side r.price r.qty shelved bare_total order.pos
          (omega (arith, d, fits))
        ∙ ap (λ z. some (leb r.qty z)) d

    -- In a stocked and shelved book of at most 2 ^ 32 levels, a fill-or-kill limit order with a positive quantity,
    -- a new id other than 0 and a price in range other than -1 is filled whole by the trades of the match, if its
    -- quantity is at most the volume within its limit, and is cancelled without a change to the book if it is
    -- more, where that volume is below 2 ^ 32.
    pub submit-available :
        ((r.qty ≤ available b q r)
          × (m : Matched) × IsMatched k b (aggressor r) (match_limit b r) q r.qty (some m)
          × (m.remaining ≡ 0)
          × (submit b r
              ≡ some (record {
                result = answer OrderStatus.fully_filled r.qty 0;
                trades = m.trades;
                book = m.book;
              })))
        ⊎ ((available b q r < r.qty) × (submit b r ≡ some (refuse b OrderStatus.cancelled r.qty)))
    unfolding settle
    submit-available = elim (Bool-cases (leb r.qty (available b q r))) [
      | inr less ↦ inr (ground arith, submit-absorbed false (absorbs ∙ ap (λ z. some z) less))
      | inl enough ↦
          let le : r.qty ≤ available b q r = ground arith in
          let z = none_left le in
          let filled : (m₀.remaining == 0) ≡ true = ground (arith, z) in
          inl (
            le,
            m₀,
            subst (IsMatched k b (aggressor r) (match_limit b r) q r.qty) phase.returns phase,
            z,
            submit-absorbed true (absorbs ∙ ap (λ z. some z) enough)
                ∙ execute-aggressive b r no_post
                ∙ >>=-some (aggressive b r) (settle r) phase.returns
                ∙ rw filled refl,
          )
    ]
