-- ===== src/Book/Live/Append.antt =====
-- `submit` of a limit order that rests whole: it goes behind the others at its price.
use orderbook_engine.Base.{
  ℕ, ◌-◌, ◌^◌, ◌<◌, ◌≡◌, ◌≢◌, refl, ◌∙◌, true, false, not, ◌&&◌, ◌==◌, Option, some, List, [], ◌∷◌,
  arith,
}
use orderbook_engine.Base.Steps.{>>=-some}
use orderbook_engine.Book.Best.Levels.{IsShelved}
use orderbook_engine.Book.Fill.Sweep.{view}
use orderbook_engine.Book.Live.Contract.{IsGone, IsGone-Absent}
use orderbook_engine.Book.Live.Insert.{HasRoom, append_at, insert_resting-append}
use orderbook_engine.Book.Match.{done, would_cross}
use orderbook_engine.Book.Rest.{insert_resting}
use orderbook_engine.Book.State.{Book, find, in_range, price_to_idx}
use orderbook_engine.Book.Stock.{Queues, IsStockedBook}
use orderbook_engine.Book.Submit.{
  Request, Outcome, answer, settle, execute, post_only_check, fok_check, range_check,
  duplicate_check, submit,
}
use orderbook_engine.Types.{Side, OrderStatus, is_market_type, is_ioc, is_fok, is_post_only}

-- The request is a limit order, neither immediate-or-cancel nor fill-or-kill, that does not cross, with a positive
-- quantity, an id other than 0 and a price in range, also as a 32-bit level index.
pub record IsPassive (b : Book) (r : Request) : Type 0 where
  pub limit : is_market_type r.type ≡ false
  pub no_ioc : is_ioc r.tif ≡ false
  pub no_fok : is_fok r.tif ≡ false
  pub no_cross : would_cross b r.side r.price ≡ false
  pub within : in_range b r.price ≡ true
  pub level_within : price_to_idx b r.price < b.cfg.num_levels
  pub pos : 0 < r.qty
  pub word : r.qty < 2 ^ 32
  pub ne_zero : r.id ≢ 0

-- The run returns the result and no trades, and a stocked and shelved book with the entry added to the queues.
pub record IsAdded (k : ℕ) (b : Book) (q : Queues) (r : Request) (run : Option Outcome)
    : Type 0 where
  pub book : Book
  pub queues : Queues
  pub free : List ℕ
  pub returns :
      run ≡ some (record { result = answer OrderStatus.accepted 0 r.qty; trades = []; book = book })
  pub stocked : IsStockedBook k book queues free
  pub shelved : IsShelved book
  pub cfg : book.cfg ≡ b.cfg
  pub views :
      (s : Side) (i : ℕ)
      → view book queues s i
        ≡ append_at
            (view b q)
            r.side
            (price_to_idx b r.price)
            (record { id = r.id; quantity = r.qty })
            s
            i

module _ (k : ℕ) (b : Book) (q : Queues) (o : ℕ) (free : List ℕ)
    (st : IsStockedBook k b q (o ∷ free)) (shelved : IsShelved b) (r : Request)
    (passive : IsPassive b r) (gone : IsGone k b q (o ∷ free) st shelved r.id)
    (room : HasRoom k b r.id o) where
  abbrev i₀ : ℕ
  i₀ = price_to_idx b r.price

  settle-insert :
      (b' : Book)
      → insert_resting b r.id r.side r.price r.qty ≡ some b'
      → settle r (done b r.qty)
        ≡ some (record { result = answer OrderStatus.accepted 0 r.qty; trades = []; book = b' })
  unfolding settle
  settle-insert b' run =
      let some_qty : (r.qty == 0) ≡ false = (let z = passive.pos in ground arith) in
      let same : (r.qty == r.qty) ≡ true = ground arith in
      let none_filled : r.qty - r.qty ≡ 0 = omega arith in
      rw (some_qty, passive.no_ioc, passive.limit, run, same, none_filled) refl

  submit-insert :
      (b' : Book)
      → insert_resting b r.id r.side r.price r.qty ≡ some b'
      → submit b r
        ≡ some (record { result = answer OrderStatus.accepted 0 r.qty; trades = []; book = b' })
  unfolding submit duplicate_check range_check fok_check post_only_check execute
  submit-insert b' run =
      let some_qty : (r.qty == 0) ≡ false = (let z = passive.pos in ground arith) in
      let some_id : (r.id == 0) ≡ false = (let z = passive.ne_zero in ground arith) in
      let fresh = (IsGone-Absent k b q (o ∷ free) st shelved r.id passive.ne_zero gone).0 in
      let p₁ : (is_post_only r.tif && false) ≡ false = ground arith in
      let p₂ : (not (is_post_only r.tif) && false) ≡ false = ground arith in
      rw (some_qty, some_id)
        (>>=-some (find b r.id) (duplicate_check b r) fresh
          ∙ rw (passive.limit, passive.within, passive.no_fok, passive.no_cross, p₁, p₂)
              (settle-insert b' run))

  -- In a stocked and shelved book with a free slot, let a limit order have a positive quantity, a new id other
  -- than 0 and a price in range, also as a 32-bit level index, be neither immediate-or-cancel nor fill-or-kill,
  -- and not cross. `submit` accepts it whole: it makes no trades and puts the order behind the others at its
  -- price, where the table of ids has room for it.
  pub submit-append : IsAdded k b q r (submit b r)
  submit-append =
      let added =
        insert_resting-append k b q o free st shelved r.id r.side r.price r.qty passive.level_within
          passive.pos passive.word passive.ne_zero gone room in
      record {
        book = added.book;
        queues = added.queues;
        free = added.free;
        returns = submit-insert added.book added.returns;
        stocked = added.stocked;
        shelved = added.shelved;
        cfg = added.cfg;
        views = added.views;
      }
