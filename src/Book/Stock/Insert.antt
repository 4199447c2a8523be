-- ===== src/Book/Stock/Insert.antt =====
-- `insert_resting_` in a stocked and shelved book.
use mathlib.Core.Path.{subst}
use orderbook_engine.Base.{
  ℕ, ◌+◌, ◌%◌, ◌^◌, ◌<◌, ◌≡◌, ◌≢◌, refl, sym, ap, ◌∙◌, true, none, some, Bool-cases, inl, inr, List,
  [], ◌∷◌, ◌++◌, arith, update,
}
use orderbook_engine.Base.Steps.{>>=-some}
use orderbook_engine.Book.Best.Levels.{IsShelved}
use orderbook_engine.Book.Best.Flow.{enter_level-IsShelved}
use orderbook_engine.Book.Rest.{add32, set_storage, enter_level, insert_resting}
use orderbook_engine.Book.State.{Book, PriceLevel, is_empty, level, set_level, price_to_idx}
use orderbook_engine.Book.Stock.{set_at, IsResting, Queues, IsStocked, IsStockedBook}
use orderbook_engine.Book.Stock.Enter
use orderbook_engine.Book.Stock.Same.{
  IsSame, IsSame-refl, IsSame-occupy_level, IsStocked-levels, IsStockedBook-with, level-slab,
  slab-IsShelved, level-set_level_storage, set_level_storage-rest,
}
use orderbook_engine.IdMap
use orderbook_engine.IdMap.{IdMap, ideal_slot, fill_slot}
use orderbook_engine.IdMap.Insert.{IsFirst, insert-first, Fits}
use orderbook_engine.IdMap.Ordered.{Absent, IsVacant}
use orderbook_engine.Orders.{Heap, Order}
use orderbook_engine.Orders.Fifo.{push_back}
use orderbook_engine.Orders.Fifo.Links.{payload}
use orderbook_engine.Orders.Slab.{Slab, allocate}
use orderbook_engine.Types.{Side, OrderId, Price, Quantity}

allocate-some :
    (slab : Slab) (o : ℕ)
    → slab.free_head ≡ some o
    → allocate slab ≡ (
      some o,
      record slab { free_head = (slab.storage o).prev; in_use = (slab.in_use + 1) % 2 ^ 64 },
    )
unfolding allocate
allocate-some slab o e = rw e refl

module _ (k : ℕ) (b : Book) (q : Queues) (o : ℕ) (free : List ℕ)
    (st : IsStockedBook k b q (o ∷ free)) (id : OrderId) (side : Side) (price : Price)
    (qty : Quantity) (li : price_to_idx b price < b.cfg.num_levels) (pos : 0 < qty)
    (word : qty < 2 ^ 32) where
  abbrev i : ℕ
  i = price_to_idx b price

  abbrev pub order : Order
  order = record {
    prev = none;
    next = none;
    order_id = id;
    quantity = qty;
    price = price;
    level_idx = i;
    side = side;
  }

  order-IsResting : IsResting side i order
  order-IsResting = record { side = refl; level_idx = refl; some_left = pos; word = word }

  abbrev slab₁ : Slab
  slab₁ = record (b.slab) {
    free_head = (b.slab.storage o).prev;
    in_use = (b.slab.in_use + 1) % 2 ^ 64;
  }

  abbrev b₁ : Book
  b₁ = record b { slab = slab₁ }

  abbrev c : Book
  c = enter_level b₁ o order

  stock₁ : IsStocked k b.cfg.num_levels (level b₁) b.slab b.id_map q (o ∷ free)
  stock₁ =
      IsStocked-levels k b.cfg.num_levels (level b) (level b₁) b.slab b.id_map q (o ∷ free)
        (level-slab b slab₁ b.id_map) st

  abbrev h : Heap
  h = (push_back (update b.slab.storage o order) (level b₁ side i).orders o).0

  abbrev l : PriceLevel
  l = record {
    orders = (push_back (update b.slab.storage o order) (level b₁ side i).orders o).1;
    total_qty = add32 (level b₁ side i).total_qty qty;
    count = add32 (level b₁ side i).count 1;
  }

  count_fits : (level b₁ side i).count + 1 < 2 ^ 32
  count_fits =
      let room =
        Enter.room k b.cfg.num_levels (level b₁) b.slab b.id_map q o free stock₁ side i li order
          order-IsResting in
      omega (arith, (stock₁.levels side i li).count, room, st.small)

  enter_level-IsSame : IsSame (set_level (set_storage b₁ h) side i l) c
  unfolding enter_level
  enter_level-IsSame = elim (Bool-cases (is_empty (level b₁ side i))) [
    | inl e ↦ rw e (IsSame-occupy_level (set_level (set_storage b₁ h) side i l) side i)
    | inr e ↦ rw e (IsSame-refl _)
  ]

  module _ (e p p' : ℕ) (nz : id ≢ 0) (out : Absent k b.id_map id)
      (first : IsFirst k b.id_map (ideal_slot b.id_map id) e p)
      (fits : Fits k b.id_map id (some o) p) (other : IsVacant k b.id_map p') (apart : p' ≢ p) where
    abbrev m' : IdMap
    m' = fill_slot b.id_map p (record { id = id; value = some o })

    abbrev pub inserted : Book
    inserted = record c { id_map = m' }

    insert_resting-run : insert_resting b id side price qty ≡ some inserted
    unfolding insert_resting
    insert_resting-run =
        let (cfg, map, slab) = set_level_storage-rest b₁ h side i l in
        let run : IdMap.insert c.id_map id (some o) ≡ some (true, m') =
          ap (λ (z : IdMap). IdMap.insert z id (some o)) (enter_level-IsSame.id_map ∙ map)
          ∙ insert-first k b.id_map id (some o) e p st.table.width nz out first in
        rw (allocate-some b.slab o st.slots.linked.0)
          (>>=-some (IdMap.insert c.id_map id (some o)) (λ r. some (record c { id_map = r.1 })) run)

    slab-inserted : c.slab ≡ record slab₁ { storage = h }
    slab-inserted = enter_level-IsSame.slab ∙ (set_level_storage-rest b₁ h side i l).2

    pub inserted-IsStocked : IsStockedBook k inserted (set_at q side i (q side i ++ o ∷ [])) free
    inserted-IsStocked =
        let (cfg, map, slab) = set_level_storage-rest b₁ h side i l in
        let stock =
          Enter.entered-IsStocked k b.cfg.num_levels (level b₁) b.slab b.id_map q o free stock₁ side
            i li order order-IsResting p p' nz out first.vacant fits other apart in
        let stock' =
          subst
            (λ z.
              IsStocked k b.cfg.num_levels (set_at (level b₁) side i l)
                (record (z.1) { storage = h }) m' (set_at q side i (q side i ++ o ∷ [])) free)
            (allocate-some b.slab o st.slots.linked.0) stock in
        let all =
          IsStockedBook-with k b₁ c (set_at (level b₁) side i l) (record slab₁ { storage = h }) m'
            (set_at q side i (q side i ++ o ∷ [])) free (enter_level-IsSame.cfg ∙ cfg)
            (λ s' i'. enter_level-IsSame.levels s' i' ∙ level-set_level_storage b₁ h side i l s' i')
            stock' in
        subst
          (λ z.
            IsStockedBook k (record c { slab = z; id_map = m' })
              (set_at q side i (q side i ++ o ∷ [])) free)
          (sym slab-inserted) all

    pub inserted-IsShelved : IsShelved b → IsShelved inserted
    inserted-IsShelved shelved =
        slab-IsShelved c c.slab m'
          (enter_level-IsShelved b₁ o order li count_fits (slab-IsShelved b slab₁ b.id_map shelved))

    -- In a stocked and shelved book with a free slot, `insert_resting_` of an order with an id that is not
    -- in the book, a price in range and a quantity returns a stocked and shelved book, in which the order
    -- is the last in the queue of its price, where its entry fits the first empty slot of the table from
    -- its ideal one and that is not the last empty slot. The other orders change at most in their links,
    -- and the configuration stays.
    pub insert_resting_lem :
        IsShelved b
        → (b' : Book) × (insert_resting b id side price qty ≡ some b')
          × IsStockedBook k b' (set_at q side i (q side i ++ o ∷ [])) free
          × IsShelved b'
          × (payload (b'.slab.storage o) ≡ payload order)
          × ((y : ℕ) → y ≢ o → payload (b'.slab.storage y) ≡ payload (b.slab.storage y))
          × (b'.cfg ≡ b.cfg)
    insert_resting_lem shelved =
        let at : (y : ℕ) → payload (c.slab.storage y) ≡ payload (h y) =
          λ y. ap (λ (z : Slab). payload (z.storage y)) slab-inserted in
        (
          inserted,
          insert_resting-run,
          inserted-IsStocked,
          inserted-IsShelved shelved,
          at o
              ∙ Enter.entered_order k b.cfg.num_levels (level b₁) b.slab b.id_map q o free stock₁
                  side i li order order-IsResting,
          λ y ne.
              at y
              ∙ Enter.entered_payload k b.cfg.num_levels (level b₁) b.slab b.id_map q o free stock₁
                  side i li order order-IsResting y ne,
          enter_level-IsSame.cfg ∙ (set_level_storage-rest b₁ h side i l).0,
        )
