-- ===== src/Book/Live/Renew.antt =====
-- `cancel` of an order and `submit` of another in its stead, which `modify` and the replay of a replacement do.
use mathlib.Core.Path.{subst}
use orderbook_engine.Base.{
  ℕ, ◌≡◌, ◌≢◌, refl, sym, ap, ◌∙◌, Bool, Option, none, some, inl, inr, List, [], ◌∷◌,
}
use orderbook_engine.Book.Best.Levels.{IsShelved}
use orderbook_engine.Book.Fill.{Entry}
use orderbook_engine.Book.Fill.Sweep.{view}
use orderbook_engine.Book.Live.{without_id}
use orderbook_engine.Book.Live.Append.{IsPassive, submit-append}
use orderbook_engine.Book.Live.Contract.{IsStep, found_or_not, queued-find, cancel-without_id}
use orderbook_engine.Book.Live.Ids.{Lacks, Lacks-view}
use orderbook_engine.Book.Live.Insert.{HasRoom, append_at}
use orderbook_engine.Book.Live.Rest.{free_head-first, price_to_idx-cfg}
use orderbook_engine.Book.Rest.{cancel}
use orderbook_engine.Book.State.{Book, find, price_to_idx}
use orderbook_engine.Book.Stock.{Queues, IsQueued, IsStockedBook}
use orderbook_engine.Book.Submit.{Request, Outcome, answer, submit}
use orderbook_engine.Types.{Side, OrderId, OrderStatus}

-- The run accepts the request and makes no trades; in its stocked and shelved book the queues are those before without
-- the id's entry and then with the request's behind the others at its price.
pub record IsRenewed (k : ℕ) (b : Book) (q : Queues) (id : OrderId) (r : Request)
    (run : Option Outcome) : Type 0 where
  pub book : Book
  pub queues : Queues
  pub free : List ℕ
  pub returns :
      run ≡ some (record { result = answer OrderStatus.accepted 0 r.qty; trades = []; book = book })
  pub stocked : IsStockedBook k book queues free
  pub shelved : IsShelved book
  pub cfg : book.cfg ≡ b.cfg
  pub views :
      (s : Side) (i : ℕ)
      → view book queues s i
        ≡ append_at
            (λ s' i'. without_id id (view b q s' i'))
            r.side
            (price_to_idx b r.price)
            (record { id = r.id; quantity = r.qty })
            s
            i

-- The book of a run that has returned.
abbrev pub book_of : Book → Option (Bool × Book) → Book
book_of b none = b
book_of b (some (_, c)) = c

pub append_at-cong :
    (v w : Side → ℕ → List Entry) (side : Side) (place place' : ℕ) (e : Entry)
    → ((s : Side) (i : ℕ) → v s i ≡ w s i)
    → place ≡ place'
    → (s : Side) (i : ℕ) → append_at v side place e s i ≡ append_at w side place' e s i
append_at-cong v w side place place' e same at s i = rw (at, same s i) refl

module _ (k : ℕ) (b : Book) (q : Queues) (free : List ℕ) (st : IsStockedBook k b q free)
    (shelved : IsShelved b) where
  -- A pointer that `find` answers is that of a queued order with the id.
  pub find-IsQueued :
      (id : OrderId) (x : ℕ)
      → id ≢ 0
      → find b id ≡ some (some x)
      → IsQueued b.cfg.num_levels q x × ((b.slab.storage x).order_id ≡ id)
  find-IsQueued id x nz e = elim (found_or_not k b q free st shelved id nz) [
    | inr (no_order, _) ↦ absurd (cc)
    | inl (y, w, at) ↦
        let f : find b id ≡ some (some y) =
          subst (λ z. find b z ≡ some (some y)) at (queued-find k b q free st shelved y w) in
        let same : some (some y) ≡ some (some x) = sym f ∙ e in
        let i : y ≡ x = cc in
        subst (λ z. IsQueued b.cfg.num_levels q z × ((b.slab.storage z).order_id ≡ id)) i (w, at)
  ]

  module _ (id : OrderId) (nz : id ≢ 0) (r : Request) where
    abbrev step : IsStep k b q (without_id id) (cancel b id)
    step = cancel-without_id k b q free st shelved id nz

    abbrev Renews : (o : ℕ) → Book → Type 0
    Renews o c =
        IsPassive c r
        → c.slab.free_head ≡ some o
        → HasRoom k c r.id o
        → IsRenewed k b q id r (submit c r)

    Renews-after :
        ((s : Side) (i : ℕ) → Lacks r.id (without_id id (view b q s i)))
        → (o : ℕ) → Renews o step.book
    Renews-after lacks o passive head room =
        let (free', at) =
          free_head-first step.book.slab.storage step.book.slab.free_head step.free o
            step.stocked.slots.linked head in
        let st' : IsStockedBook k step.book step.queues (o ∷ free') =
          subst (IsStockedBook k step.book step.queues) at step.stocked in
        let gone =
          Lacks-view step.book step.queues r.id
            (λ s i. subst (Lacks r.id) (sym (step.views s i)) (lacks s i)) in
        let a =
          submit-append k step.book step.queues o free' st' step.shelved r passive gone room in
        record {
          book = a.book;
          queues = a.queues;
          free = a.free;
          returns = a.returns;
          stocked = a.stocked;
          shelved = a.shelved;
          cfg = a.cfg ∙ step.cfg;
          views = λ s i.
              a.views s i
              ∙ append_at-cong (view step.book step.queues)
                  (λ s' i'. without_id id (view b q s' i')) r.side (price_to_idx step.book r.price)
                  (price_to_idx b r.price) (record { id = r.id; quantity = r.qty }) step.views
                  (price_to_idx-cfg b step.book r.price step.cfg) s i;
        }

    -- After `cancel`, a passive order whose id no other entry has is accepted and goes behind the others at its price,
    -- where there are a free slot and room in the table.
    pub cancel-submit :
        (c : Book) (found : Bool) (o : ℕ)
        → cancel b id ≡ some (found, c)
        → ((s : Side) (i : ℕ) → Lacks r.id (without_id id (view b q s i)))
        → IsPassive c r
        → c.slab.free_head ≡ some o
        → HasRoom k c r.id o
        → IsRenewed k b q id r (submit c r)
    cancel-submit c found o ran lacks =
        let e : step.book ≡ c = ap (book_of b) (sym step.returns ∙ ran) in
        subst (Renews o) e (Renews-after lacks o)
