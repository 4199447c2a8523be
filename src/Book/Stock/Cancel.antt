-- ===== src/Book/Stock/Cancel.antt =====
-- `cancel` in a stocked and shelved book.
use mathlib.Core.Path.{subst}
use orderbook_engine.Base.{
  ℕ, ◌%◌, ◌^◌, ◌<◌, ◌≡◌, sym, ap, ◌∙◌, true, some, Bool-cases, inl, inr, List, ◌∷◌, ◌++◌, length,
  length-append, has-append, ◌∈◌, ◌∉◌, arith,
}
use orderbook_engine.Base.Steps.{>>=-some}
use orderbook_engine.Book.Best.Levels.{IsShelved}
use orderbook_engine.Book.Best.Flow.{remove_from_book-IsShelved}
use orderbook_engine.Book.Rest.{
  remove_from_book, remove_order, cancel_at, cancel, set_storage, sub32,
}
use orderbook_engine.Book.State.{Book, PriceLevel, is_empty, level, set_level, find}
use orderbook_engine.Book.Stock.{set_at, quantities, IsResting, IsLevel, Queues, IsStockedBook}
use orderbook_engine.Book.Stock.Queues.{quantities-append, unlink-IsLevel, length-queue}
use orderbook_engine.Book.Stock.Remove.{removed-IsStocked}
use orderbook_engine.Book.Stock.Same.{
  IsSame, IsSame-refl, IsSame-vacate_level, IsStockedBook-with, slab-IsShelved,
  level-set_level_storage, set_level_storage-rest,
}
use orderbook_engine.IdMap
use orderbook_engine.IdMap.{IdMap}
use orderbook_engine.IdMap.Lookup.{find-Stored}
use orderbook_engine.Orders.{Heap, Order, set_prev}
use orderbook_engine.Orders.Fifo.{unlink}
use orderbook_engine.Orders.Fifo.Links.{payload}
use orderbook_engine.Orders.Fifo.Unlink.{unlink_lem, unlink-payload}
use orderbook_engine.Orders.Slab.{Slab, deallocate}
use orderbook_engine.Types.{Side}

-- The level that `remove_from_book` leaves, before its bitmap is seen to.
abbrev pub left_level : Heap → PriceLevel → ℕ → PriceLevel
left_level h l x =
    let u = unlink h l.orders x in
    record { orders = u.1; total_qty = sub32 l.total_qty (u.0 x).quantity; count = sub32 l.count 1 }

pub deallocate-payload :
    (slab : Slab) (x y : ℕ) → payload ((deallocate slab x).storage y) ≡ payload (slab.storage y)
unfolding deallocate set_prev
deallocate-payload slab x y = ground arith

module _ (k : ℕ) (b : Book) (q : Queues) (free : List ℕ) (st : IsStockedBook k b q free) (s : Side)
    (i x : ℕ) (xs ys : List ℕ) (li : i < b.cfg.num_levels) (here : q s i ≡ xs ++ x ∷ ys) where
  abbrev l : PriceLevel
  l = level b s i

  abbrev h : Heap
  h = b.slab.storage

  here-IsLevel : IsLevel s i h l (xs ++ x ∷ ys)
  here-IsLevel = subst (IsLevel s i h l) here (st.levels s i li)

  pub resting : IsResting s i (h x)
  resting = here-IsLevel.members x (ground (arith, has-append x xs (x ∷ ys)))

  count_small : (l.count ≡ length (xs ++ x ∷ ys)) × (l.count < 2 ^ 32)
  count_small =
      let bound = length-queue k b.cfg.num_levels (level b) b.slab b.id_map q free st s i li in
      let e : length (q s i) ≡ length (xs ++ x ∷ ys) = ap (λ (z : List ℕ). length z) here in
      (here-IsLevel.count, omega (arith, here-IsLevel.count, e, bound, st.small))

  abbrev h' : Heap
  h' = (unlink h l.orders x).0

  total_left : sub32 l.total_qty (h' x).quantity ≡ quantities h (xs ++ ys) % 2 ^ 32
  total_left =
      let e = ap (λ (o : Order). o.quantity) (unlink-payload h l.orders x x) in
      omega (
        arith,
        e,
        here-IsLevel.total,
        resting.word,
        quantities-append h xs (x ∷ ys),
        quantities-append h xs ys,
      )

  left-IsLevel : IsLevel s i h' (left_level h l x) (xs ++ ys)
  left-IsLevel =
      unlink-IsLevel s i h l x xs ys _ here-IsLevel.fifo here-IsLevel.distinct here-IsLevel.count
        count_small.1
        (λ y mem.
          here-IsLevel.members y (ground (arith, has-append y xs (x ∷ ys), has-append y xs ys)))
        total_left

  spared : (y : ℕ) → y ∉ q s i → h' y ≡ h y
  spared y out =
      (unlink_lem h l.orders x xs ys here-IsLevel.fifo here-IsLevel.distinct).1.outside y (
        let o : y ∉ xs ++ x ∷ ys = rw here at out in
        ground (arith, has-append y xs (x ∷ ys), has-append y xs ys))

  remove_from_book-IsSame :
      IsSame (set_level (set_storage b h') s i (left_level h l x)) (remove_from_book b x)
  unfolding remove_from_book
  remove_from_book-IsSame =
      let e = resting.side in
      let f = resting.level_idx in
      rw (e, f)
        (elim (Bool-cases (is_empty (left_level h l x))) [
          | inl gone ↦
              rw gone
                (IsSame-vacate_level (set_level (set_storage b h') s i (left_level h l x)) _ _)
          | inr left ↦ rw left (IsSame-refl _)
        ])

  -- `remove_order` returns a book without the order, stocked and shelved, that has the same orders
  -- otherwise.
  pub remove_order_lem :
      IsShelved b
      → (b' : Book) × (remove_order b (h x).order_id x ≡ some b')
        × IsStockedBook k b' (set_at q s i (xs ++ ys)) (x ∷ free)
        × IsShelved b'
        × ((y : ℕ) → payload (b'.slab.storage y) ≡ payload (h y))
        × (b'.cfg ≡ b.cfg)
  unfolding remove_order
  remove_order_lem shelved =
      let b₁ = remove_from_book b x in
      let same = remove_from_book-IsSame in
      let (cfg, map, slab) = set_level_storage-rest b h' s i (left_level h l x) in
      let (m', run, st') =
        removed-IsStocked k b.cfg.num_levels (level b) b.slab b.id_map q free st s i x xs ys li here
          h' (left_level h l x) spared
          (λ y. ap (λ (o : Order). o.order_id) (unlink-payload h l.orders x y)) left-IsLevel in
      let run' : IdMap.erase b₁.id_map (h x).order_id ≡ some (true, m') =
        ap (λ (z : IdMap). IdMap.erase z (h x).order_id) (same.id_map ∙ map) ∙ run in
      let slab₁ : b₁.slab ≡ record (b.slab) { storage = h' } = same.slab ∙ slab in
      let freed : deallocate b₁.slab x ≡ deallocate (record (b.slab) { storage = h' }) x =
        ap (λ (z : Slab). deallocate z x) slab₁ in
      let stocked =
        IsStockedBook-with k b b₁ (set_at (level b) s i (left_level h l x)) _ m'
          (set_at q s i (xs ++ ys)) (x ∷ free) (same.cfg ∙ cfg)
          (λ s' i'. same.levels s' i' ∙ level-set_level_storage b h' s i (left_level h l x) s' i')
          st' in
      (
        record b₁ { id_map = m'; slab = deallocate b₁.slab x },
        >>=-some _ _ run',
        subst
            (λ z.
              IsStockedBook k (record b₁ { slab = z; id_map = m' }) (set_at q s i (xs ++ ys))
                (x ∷ free))
            (sym freed) stocked,
        slab-IsShelved b₁ (deallocate b₁.slab x) m' (
            remove_from_book-IsShelved b x
              (rw (resting.side, resting.level_idx)
                (omega (arith, count_small.0, length-append xs (x ∷ ys))))
              (rw (resting.side, resting.level_idx) count_small.1) shelved),
        λ y.
            ap (λ (z : Slab). payload (z.storage y)) freed
            ∙ deallocate-payload (record (b.slab) { storage = h' }) x y
            ∙ unlink-payload h l.orders x y,
        same.cfg ∙ cfg,
      )

  -- In a stocked and shelved book, `cancel` of a resting order's id returns true and a stocked and
  -- shelved book, in which the order has left its queue and the slot is free. The other orders have
  -- their places, no order changes but in its links, and the configuration stays.
  pub cancel_lem :
      IsShelved b
      → (b' : Book) × (cancel b (h x).order_id ≡ some (true, b'))
        × IsStockedBook k b' (set_at q s i (xs ++ ys)) (x ∷ free)
        × IsShelved b'
        × ((y : ℕ) → payload (b'.slab.storage y) ≡ payload (h y))
        × (b'.cfg ≡ b.cfg)
  unfolding cancel cancel_at find
  cancel_lem shelved =
      let mem : x ∈ q s i = rw here (ground (arith, has-append x xs (x ∷ ys))) in
      let (j, stored) = st.listed x (record { s = s; i = i; below = li; member = mem }) in
      let found = find-Stored k b.id_map (h x).order_id (some x) j st.table stored in
      let (b', run, stocked, shelved', rest, cfg) = remove_order_lem shelved in
      (
        b',
        >>=-some _ (cancel_at b (h x).order_id) found
            ∙ >>=-some (remove_order b (h x).order_id x) (λ b'. some (true, b')) run,
        stocked,
        shelved',
        rest,
        cfg,
      )
