-- ===== src/Book/Stock/Reduce.antt =====
-- `reduce` in a stocked and shelved book.
use mathlib.Core.Path.{subst}
use orderbook_engine.Base.{
  ℕ, ◌-◌, ◌≤◌, ◌<◌, ◌≡◌, ◌≢◌, refl, sym, ap, ◌∙◌, true, false, some, leb, List, ◌∈◌, arith,
}
use orderbook_engine.Base.Steps.{>>=-some}
use orderbook_engine.Book.Best.Levels.{IsShelved, keep-IsShelved, set_storage-IsShelved}
use orderbook_engine.Book.Rest.{
  set_storage, sub32, shrink_order, cancel_at, cancel, reduce_at, reduce,
}
use orderbook_engine.Book.State.{Book, PriceLevel, level, set_level, find}
use orderbook_engine.Book.Stock.{set_at, Queues, IsResting, IsStocked, IsStockedBook}
use orderbook_engine.Book.Stock.Amount.{set_quantity-IsStocked, set_quantity_self, set_quantity_ne}
use orderbook_engine.Book.Stock.Same.{
  IsStockedBook-with, level-slab, level-set_level_storage, set_level_storage-rest,
}
use orderbook_engine.IdMap.Lookup.{find-Stored}
use orderbook_engine.Orders.{Heap, set_quantity}
use orderbook_engine.Orders.Slab.{Slab}
use orderbook_engine.Types.{Side, Quantity}

module _ (k : ℕ) (b : Book) (q : Queues) (free : List ℕ) (st : IsStockedBook k b q free) (s : Side)
    (i x : ℕ) (li : i < b.cfg.num_levels) (mem : x ∈ q s i) where
  found : find b (b.slab.storage x).order_id ≡ some (some x)
  unfolding find
  found =
      let (j, stored) = st.listed x (record { s = s; i = i; below = li; member = mem }) in
      find-Stored k b.id_map (b.slab.storage x).order_id (some x) j st.table stored

  -- In a stocked book, reducing a resting order by its quantity or more is cancelling it.
  pub reduce-cancel :
      (by : Quantity)
      → (b.slab.storage x).quantity ≤ by
      → reduce b (b.slab.storage x).order_id by ≡ cancel b (b.slab.storage x).order_id
  unfolding reduce reduce_at cancel cancel_at
  reduce-cancel by le =
      let id = (b.slab.storage x).order_id in
      let all : leb (b.slab.storage x).quantity by ≡ true = ground arith in
      >>=-some _ (reduce_at b id by) found ∙ (rw all refl) ∙ sym (>>=-some _ (cancel_at b id) found)

  module _ (by : Quantity) (less : by < (b.slab.storage x).quantity) where
    abbrev quantity_left : Quantity
    quantity_left = (b.slab.storage x).quantity - by

    abbrev shrunk_level : PriceLevel
    shrunk_level = record (level b s i) { total_qty = sub32 (level b s i).total_qty by }

    abbrev shrunk_heap : Heap
    shrunk_heap = set_quantity b.slab.storage x quantity_left

    abbrev shrunk : Book
    shrunk = set_level (set_storage b shrunk_heap) s i shrunk_level

    here-IsResting : IsResting s i (b.slab.storage x)
    here-IsResting = (st.levels s i li).members x mem

    shrink_order-shrunk : shrink_order b x by ≡ shrunk
    unfolding shrink_order
    shrink_order-shrunk = rw (here-IsResting.side, here-IsResting.level_idx) refl

    shrunk-IsStocked : IsStockedBook k shrunk q free
    shrunk-IsStocked =
        let (cfg, map, slab) = set_level_storage-rest b shrunk_heap s i shrunk_level in
        let e : (b.slab.storage x).quantity - quantity_left ≡ by = omega (arith, less) in
        let stock =
          set_quantity-IsStocked k b.cfg.num_levels (level b) b.slab b.id_map q free st s i x
            quantity_left li mem (omega (arith, less)) (omega arith) in
        let lowered =
          subst
            (λ z.
              IsStocked k b.cfg.num_levels
                (set_at (level b) s i
                  (record (level b s i) { total_qty = sub32 (level b s i).total_qty z }))
                (record (b.slab) { storage = shrunk_heap }) b.id_map q free)
            e stock in
        let all =
          IsStockedBook-with k b shrunk (set_at (level b) s i shrunk_level)
            (record (b.slab) { storage = shrunk_heap }) b.id_map q free cfg
            (level-set_level_storage b shrunk_heap s i shrunk_level) lowered in
        subst (λ z. IsStockedBook k (record shrunk { slab = z; id_map = shrunk.id_map }) q free)
          (sym slab)
          (subst
            (λ z.
              IsStockedBook k
                (record shrunk { slab = record (b.slab) { storage = shrunk_heap }; id_map = z }) q
                free)
            (sym map) all)

    -- In a stocked and shelved book, reducing a resting order by less than its quantity returns true and
    -- a stocked and shelved book with the same queues, in which the order has the rest of its quantity
    -- and every other order and the configuration are what they were.
    pub reduce_lem :
        IsShelved b
        → (b' : Book) × (reduce b (b.slab.storage x).order_id by ≡ some (true, b'))
          × IsStockedBook k b' q free
          × IsShelved b'
          × (b'.slab.storage x
              ≡ record (b.slab.storage x) { quantity = (b.slab.storage x).quantity - by })
          × ((y : ℕ) → y ≢ x → b'.slab.storage y ≡ b.slab.storage y)
          × (b'.cfg ≡ b.cfg)
    unfolding reduce reduce_at
    reduce_lem shelved =
        let part : leb (b.slab.storage x).quantity by ≡ false = ground arith in
        let slab = (set_level_storage-rest b shrunk_heap s i shrunk_level).2 in
        (
          shrunk,
          >>=-some _ (reduce_at b (b.slab.storage x).order_id by) found
              ∙ rw part (ap (λ (z : Book). some (true, z)) shrink_order-shrunk),
          shrunk-IsStocked,
          keep-IsShelved (set_storage b shrunk_heap) s i shrunk_level
              (rw (level-slab b (record (b.slab) { storage = shrunk_heap }) b.id_map s i) refl)
              (set_storage-IsShelved b shrunk_heap shelved),
          ap (λ (z : Slab). z.storage x) slab ∙ set_quantity_self b.slab.storage x quantity_left,
          λ y ne.
              ap (λ (z : Slab). z.storage y) slab
              ∙ set_quantity_ne b.slab.storage x quantity_left y ne,
          (set_level_storage-rest b shrunk_heap s i shrunk_level).0,
        )
