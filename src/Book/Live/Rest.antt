-- ===== src/Book/Live/Rest.antt =====
-- `submit` of a limit order of which something is left after the match: the rest goes behind the others at its price.
use mathlib.Core.Path.{subst}
use orderbook_engine.Base.{
  ℕ, ◌-◌, ◌^◌, ◌≤◌, ◌<◌, ◌≡◌, ◌≢◌, refl, sym, ap, ◌∙◌, true, false, ◌||◌, ◌==◌, Option, none, some,
  Bool-cases, inl, inr, if◌then◌else◌, List, [], ◌∷◌, leb, arith,
}
use orderbook_engine.Base.Int.{◌-ℤ◌, to_unsigned}
use orderbook_engine.Base.Steps.{>>=-some}
use orderbook_engine.Book.Best.Levels.{IsShelved}
use orderbook_engine.Book.Fill.{Entry, consume}
use orderbook_engine.Book.Fill.Round.{IsMatched}
use orderbook_engine.Book.Fill.Sweep.{view, IsSwept}
use orderbook_engine.Book.Fill.Aggress.{
  aggressive, aggressive-IsMatched, execute-aggressive, in_range-price_to_idx,
}
use orderbook_engine.Book.Fill.Take.{submit-execute}
use orderbook_engine.Book.Live.Contract.{IsGone, IsGone-Absent}
use orderbook_engine.Book.Live.Ids.{Lacks, view-Lacks, Lacks-view, IsSwept-Lacks}
use orderbook_engine.Book.Live.Insert.{HasRoom, IsInserted, insert_resting-append}
use orderbook_engine.Book.Match.{Matched, Aggressor}
use orderbook_engine.Book.Rest.{insert_resting}
use orderbook_engine.Book.State.{Book, Config, find, in_range, price_to_idx}
use orderbook_engine.Book.Stock.{same_side, Queues, IsStockedBook, IsQueued}
use orderbook_engine.Book.Stock.Queues.{same_side→eq}
use orderbook_engine.Book.Submit.{Request, Outcome, answer, settle, aggressor, match_limit, submit}
use orderbook_engine.Orders.{Heap, Ptr}
use orderbook_engine.Orders.Slab.FreeList.{Linked}
use orderbook_engine.Types.{
  Side, OrderStatus, Price, Quantity, Trade, opposite, is_market_type, is_ioc, is_fok, is_post_only,
}

consume-remaining : (r : Quantity) (es : List Entry) → (consume r es).remaining ≤ r
consume-remaining r [] = omega arith
consume-remaining r (e ∷ es) = elim (Bool-cases (r == 0)) [
  | inl z ↦ rw z (omega arith)
  | inr nz ↦ elim (Bool-cases (leb e.quantity r)) [
    | inl whole ↦ rw (nz, whole) (omega (arith, consume-remaining (r - e.quantity) es))
    | inr part ↦ rw (nz, part) (omega arith)
  ]
]

-- A sweep leaves at most the quantity.
IsSwept-remaining :
    (price : ℕ → Price) (a : Aggressor) (limit : Option ℕ) {e e' : ℕ → List Entry} {r r' : Quantity}
    {ts : List Trade}
    → IsSwept price a limit e r ts e' r'
    → r' ≤ r
IsSwept-remaining price a limit IsSwept.filled = omega arith
IsSwept-remaining price a limit (IsSwept.bare empty) = omega arith
IsSwept-remaining price a limit (IsSwept.beyond i best far) = omega arith
IsSwept-remaining price a limit {e} {e'} {r} (IsSwept.last i best near full change) =
    consume-remaining r (e i)
IsSwept-remaining price a limit {e} {e'} {r} (IsSwept.next i best near clear change more) =
    omega (arith, consume-remaining r (e i), IsSwept-remaining price a limit more)

-- The first free slot is the head of the free list.
pub free_head-first :
    (h : Heap) (p : Ptr) (xs : List ℕ) (o : ℕ)
    → Linked h p xs
    → p ≡ some o
    → (rest : List ℕ) × (xs ≡ o ∷ rest)
free_head-first h p [] o l e = absurd (cc)
free_head-first h p (x ∷ xs) o (at, l) e = (xs, let i : x ≡ o = cc in ap (λ z. z ∷ xs) i)

pub price_to_idx-cfg :
    (b c : Book) (p : Price) → c.cfg ≡ b.cfg → price_to_idx c p ≡ price_to_idx b p
unfolding price_to_idx
price_to_idx-cfg b c p e = ap (λ (z : Config). to_unsigned 32 (p -ℤ z.base_price)) e

other_side : (s t : Side) → same_side s t ≡ false → opposite s ≡ t
other_side Side.buy Side.buy e = absurd (cc)
other_side Side.buy Side.sell e = refl
other_side Side.sell Side.buy e = refl
other_side Side.sell Side.sell e = absurd (cc)

-- The match has made `m`, and the run returns its trades and its book with the rest of the order put behind the others
-- at its price.
pub record IsRested (k : ℕ) (b : Book) (q : Queues) (r : Request) (m : Matched)
    (run : Option Outcome) : Type 0 where
  pub matched : IsMatched k b (aggressor r) (match_limit b r) q r.qty (some m)
  pub added :
      IsInserted k m.book matched.queues r.side
        (price_to_idx b r.price)
        (record { id = r.id; quantity = m.remaining })
        (insert_resting m.book r.id r.side r.price m.remaining)
  pub returns :
      run
      ≡ some (record {
        result =
            answer
              (if r.qty == m.remaining then OrderStatus.accepted else OrderStatus.partially_filled)
              (r.qty - m.remaining)
              m.remaining;
        trades = m.trades;
        book = added.book;
      })

-- The request is a limit order with a quantity, an id and a price in range, which may match and rest.
pub record IsOrder (b : Book) (r : Request) : Type 0 where
  pub limit : is_market_type r.type ≡ false
  pub no_ioc : is_ioc r.tif ≡ false
  pub no_fok : is_fok r.tif ≡ false
  pub no_post : is_post_only r.tif ≡ false
  pub within : in_range b r.price ≡ true
  pub pos : 0 < r.qty
  pub word : r.qty < 2 ^ 32
  pub ne_zero : r.id ≢ 0

module _ (k : ℕ) (b : Book) (q : Queues) (free : List ℕ) (st : IsStockedBook k b q free)
    (shelved : IsShelved b) (small : b.cfg.num_levels ≤ 2 ^ 32) (r : Request) (order : IsOrder b r)
    (gone : IsGone k b q free st shelved r.id) where
  abbrev s : Side
  s = opposite r.side

  some_qty : (r.qty == 0) ≡ false
  some_qty = (let z = order.pos in ground arith)

  some_id : (r.id == 0) ≡ false
  some_id = (let z = order.ne_zero in ground arith)

  valid : (is_market_type r.type || in_range b r.price) ≡ true
  valid = (let w = order.within in ground arith)

  fresh : find b r.id ≡ some none
  fresh = (IsGone-Absent k b q free st shelved r.id order.ne_zero gone).0

  phase : IsMatched k b (aggressor r) (match_limit b r) q r.qty (aggressive b r)
  phase = aggressive-IsMatched b r valid k q free st shelved small

  -- The match leaves no order with the id.
  gone_after :
      (y : ℕ)
      → IsQueued phase.book.cfg.num_levels phase.queues y
      → (phase.book.slab.storage y).order_id ≢ r.id
  gone_after = Lacks-view phase.book phase.queues r.id (λ side j.
      let before = view-Lacks b q r.id gone in
      elim (Bool-cases (same_side r.side side)) [
        | inl e ↦
            let own : r.side ≡ side = same_side→eq r.side side e in
            subst (λ z. Lacks r.id (view phase.book phase.queues z j)) own
              (subst (Lacks r.id) (sym (phase.aside j)) (before r.side j))
        | inr ne ↦
            let other : s ≡ side = other_side r.side side ne in
            subst (λ z. Lacks r.id (view phase.book phase.queues z j)) other
              (IsSwept-Lacks _ _ _ r.id phase.swept (before s) j)
      ])

  submit-settle : (m : Matched) → aggressive b r ≡ some m → submit b r ≡ settle r m
  submit-settle m ran =
      submit-execute b r some_qty some_id fresh order.no_fok order.no_post valid
      ∙ execute-aggressive b r order.no_post
      ∙ >>=-some (aggressive b r) (settle r) ran

  settle-insert :
      (m : Matched) (b' : Book)
      → 0 < m.remaining
      → insert_resting m.book r.id r.side r.price m.remaining ≡ some b'
      → settle r m
        ≡ some (record {
          result =
              answer
                (if r.qty == m.remaining
                  then OrderStatus.accepted
                  else OrderStatus.partially_filled)
                (r.qty - m.remaining)
                m.remaining;
          trades = m.trades;
          book = b';
        })
  unfolding settle
  settle-insert m b' left run =
      let nz : (m.remaining == 0) ≡ false = ground arith in
      rw (nz, order.no_ioc, order.limit, run) refl

  abbrev Rests : (o : ℕ) → Matched → Type 0
  Rests o m =
      0 < m.remaining
      → m.book.slab.free_head ≡ some o
      → HasRoom k m.book r.id o
      → IsRested k b q r m (submit b r)

  abbrev m₀ : Matched
  m₀ = record { book = phase.book; remaining = phase.remaining; trades = phase.trades }

  -- What is left goes into the book that the match leaves.
  rest_of_order :
      (o : ℕ)
      → 0 < phase.remaining
      → phase.book.slab.free_head ≡ some o
      → HasRoom k phase.book r.id o
      → IsInserted k phase.book phase.queues r.side
          (price_to_idx b r.price)
          (record { id = r.id; quantity = phase.remaining })
          (insert_resting phase.book r.id r.side r.price phase.remaining)
  rest_of_order o left head room =
      let (free', at) =
        free_head-first phase.book.slab.storage phase.book.slab.free_head phase.free o
          phase.stocked.slots.linked head in
      let st' : IsStockedBook k phase.book phase.queues (o ∷ free') =
        subst (IsStockedBook k phase.book phase.queues) at phase.stocked in
      let place = price_to_idx-cfg b phase.book r.price phase.cfg in
      let levels : phase.book.cfg.num_levels ≡ b.cfg.num_levels =
        ap (λ (z : Config). z.num_levels) phase.cfg in
      let inside = in_range-price_to_idx b r.price small order.within in
      let le = IsSwept-remaining _ _ _ phase.swept in
      let word = order.word in
      let a =
        insert_resting-append k phase.book phase.queues o free' st' phase.shelved r.id r.side
          r.price phase.remaining (omega (arith, place, levels, inside)) left
          (omega (arith, le, word)) order.ne_zero gone_after room in
      subst
        (λ z.
          IsInserted k phase.book phase.queues r.side z
            (record { id = r.id; quantity = phase.remaining })
            (insert_resting phase.book r.id r.side r.price phase.remaining))
        place a

  Rests-after : (o : ℕ) → Rests o m₀
  Rests-after o left head room =
      let a = rest_of_order o left head room in
      record {
        matched = record {
          book = phase.book;
          queues = phase.queues;
          free = phase.free;
          trades = phase.trades;
          remaining = phase.remaining;
          returns = refl;
          stocked = phase.stocked;
          shelved = phase.shelved;
          cfg = phase.cfg;
          swept = phase.swept;
          aside = phase.aside;
        };
        added = a;
        returns = submit-settle m₀ phase.returns ∙ settle-insert m₀ a.book left a.returns;
      }

  -- In a stocked and shelved book of at most 2 ^ 32 levels, let a limit order with a new id and a price in range, not
  -- immediate-or-cancel, fill-or-kill or post-only, be left with a quantity by the match, with a free slot and room for
  -- its id in the book that the match leaves. `submit` then returns the trades of the match and puts the rest of the
  -- order behind the others at its price; the order is accepted, or partially filled if the match filled any of it.
  pub submit-IsRested :
      (m : Matched) (o : ℕ)
      → aggressive b r ≡ some m
      → 0 < m.remaining
      → m.book.slab.free_head ≡ some o
      → HasRoom k m.book r.id o
      → IsRested k b q r m (submit b r)
  submit-IsRested m o ran =
      let same : some m₀ ≡ some m = sym phase.returns ∙ ran in
      let e : m₀ ≡ m = cc in subst (Rests o) e (Rests-after o)
