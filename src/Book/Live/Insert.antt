-- ===== src/Book/Live/Insert.antt =====
-- `insert_resting_` in a stocked and shelved book, as what it makes of the queues.
use orderbook_engine.Base.{
  ℕ, ◌^◌, ◌<◌, ◌≡◌, ◌≢◌, refl, sym, ap, ◌∙◌, false, ◌&&◌, ◌==◌, Option, none, some, Bool-cases, inl,
  inr, if◌then◌else◌, List, [], ◌∷◌, ◌++◌, ltb, arith,
}
use orderbook_engine.Book.Best.Levels.{IsShelved}
use orderbook_engine.Book.Fill.{Entry, entries}
use orderbook_engine.Book.Fill.Level.{entries-payload}
use orderbook_engine.Book.Fill.Sweep.{view}
use orderbook_engine.Book.Live.Contract.{IsGone, IsGone-Absent}
use orderbook_engine.Book.Rest.{insert_resting}
use orderbook_engine.Book.State.{Book, Config, price_to_idx}
use orderbook_engine.Book.Stock.{same_side, set_at, Queues, IsStockedBook}
use orderbook_engine.Book.Stock.Queues.{same_side→eq}
use orderbook_engine.Book.Stock.Insert.{insert_resting_lem}
use orderbook_engine.IdMap.{ideal_slot}
use orderbook_engine.IdMap.Insert.{IsFirst, Fits}
use orderbook_engine.IdMap.Ordered.{IsVacant}
use orderbook_engine.Orders.{Heap, Order}
use orderbook_engine.Orders.Fifo.Links.{payload}
use orderbook_engine.Types.{Side, OrderId, Price, Quantity}

-- The table takes the id with the slot `o`: the entry fits the first empty slot from its ideal one, and there is
-- another empty slot.
pub record HasRoom (k : ℕ) (b : Book) (id : OrderId) (o : ℕ) : Type 0 where
  pub distance : ℕ
  pub place : ℕ
  pub other : ℕ
  pub first : IsFirst k b.id_map (ideal_slot b.id_map id) distance place
  pub fits : Fits k b.id_map id (some o) place
  pub vacant : IsVacant k b.id_map other
  pub apart : other ≢ place

-- The queues with the entry behind the others at its place.
abbrev pub append_at : (Side → ℕ → List Entry) → Side → ℕ → Entry → Side → ℕ → List Entry
append_at v s i e s' i' = if same_side s s' && i' == i then v s' i' ++ e ∷ [] else v s' i'

entries-append : (h : Heap) (xs ys : List ℕ) → entries h (xs ++ ys) ≡ entries h xs ++ entries h ys
entries-append h [] ys = refl
entries-append h (x ∷ xs) ys =
    ap (λ z. record { id = (h x).order_id; quantity = (h x).quantity } ∷ z) (entries-append h xs ys)

-- The run returns a stocked and shelved book with the same configuration and with the entry added to the queues.
pub record IsInserted (k : ℕ) (b : Book) (q : Queues) (side : Side) (i : ℕ) (e : Entry)
    (run : Option Book) : Type 0 where
  pub book : Book
  pub queues : Queues
  pub free : List ℕ
  pub returns : run ≡ some book
  pub stocked : IsStockedBook k book queues free
  pub shelved : IsShelved book
  pub cfg : book.cfg ≡ b.cfg
  pub views : (s : Side) (j : ℕ) → view book queues s j ≡ append_at (view b q) side i e s j

module _ (k : ℕ) (b : Book) (q : Queues) (o : ℕ) (free : List ℕ)
    (st : IsStockedBook k b q (o ∷ free)) (shelved : IsShelved b) (id : OrderId) (side : Side)
    (price : Price) (qty : Quantity) (within : price_to_idx b price < b.cfg.num_levels)
    (pos : 0 < qty) (word : qty < 2 ^ 32) (ne_zero : id ≢ 0)
    (gone : IsGone k b q (o ∷ free) st shelved id) (room : HasRoom k b id o) where
  abbrev i₀ : ℕ
  i₀ = price_to_idx b price

  abbrev e : Entry
  e = record { id = id; quantity = qty }

  -- The order that is left in the slot.
  abbrev order : Order
  order = record {
    prev = none;
    next = none;
    order_id = id;
    quantity = qty;
    price = price;
    level_idx = i₀;
    side = side;
  }

  module _ (b' : Book) (own : payload (b'.slab.storage o) ≡ payload order)
      (rest : (y : ℕ) → y ≢ o → payload (b'.slab.storage y) ≡ payload (b.slab.storage y))
      (cfg : b'.cfg ≡ b.cfg) where
    abbrev h : Heap
    h = b.slab.storage

    abbrev h' : Heap
    h' = b'.slab.storage

    kept : (s : Side) (i : ℕ) → i < b.cfg.num_levels → entries h' (q s i) ≡ entries h (q s i)
    kept s i lt = entries-payload h h' (q s i) (λ y mem.
        rest y (
          let u = (st.used y (record { s = s; i = i; below = lt; member = mem })).1 in
          ground arith))

    newest : entries h' (o ∷ []) ≡ e ∷ []
    newest = rw (ap (λ (z : Order). z.order_id) own, ap (λ (z : Order). z.quantity) own) refl

    added : entries h' (q side i₀ ++ o ∷ []) ≡ entries h (q side i₀) ++ e ∷ []
    added =
        entries-append h' (q side i₀) (o ∷ [])
        ∙ ap (λ z. z ++ entries h' (o ∷ [])) (kept side i₀ within)
        ∙ ap (λ z. entries h (q side i₀) ++ z) newest

    appended_view :
        (s : Side) (i : ℕ)
        → view b' (set_at q side i₀ (q side i₀ ++ o ∷ [])) s i ≡ append_at (view b q) side i₀ e s i
    appended_view s i =
        ap
          (λ (z : Config).
            if ltb i z.num_levels
            then entries h' (set_at q side i₀ (q side i₀ ++ o ∷ []) s i)
            else [])
          cfg
        ∙ elim (Bool-cases (ltb i b.cfg.num_levels)) [
          | inr out ↦
              let no_place : (same_side side s && i == i₀) ≡ false =
                (let w = within in ground arith) in
              rw (out, no_place) refl
          | inl lt ↦ elim (Bool-cases (same_side side s && i == i₀)) [
            | inr ne ↦ rw (lt, ne) (kept s i (ground arith))
            | inl here ↦
                let es : side ≡ s = same_side→eq side s (ground arith) in
                let ei : i ≡ i₀ = ground arith in
                let at : q side i₀ ≡ q s i = ap (λ z. q z i₀) es ∙ ap (q s) (sym ei) in
                rw (lt, here) (added ∙ ap (λ z. entries h z ++ e ∷ []) at)
          ]
        ]

  pub insert_resting-append : IsInserted k b q side i₀ e (insert_resting b id side price qty)
  insert_resting-append =
      let absent = (IsGone-Absent k b q (o ∷ free) st shelved id ne_zero gone).1 in
      let (b', run, st', shelved', own, rest, cfg) =
        insert_resting_lem k b q o free st id side price qty within pos word room.distance
          room.place room.other ne_zero absent room.first room.fits room.vacant room.apart
          shelved in
      record {
        book = b';
        queues = set_at q side i₀ (q side i₀ ++ o ∷ []);
        free = free;
        returns = run;
        stocked = st';
        shelved = shelved';
        cfg = cfg;
        views = appended_view b' own rest cfg;
      }
