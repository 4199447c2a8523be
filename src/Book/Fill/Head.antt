-- ===== src/Book/Fill/Head.antt =====
-- A fill of the head of a level: in part, or whole.
use mathlib.Core.Path.{subst}
use orderbook_engine.Base.{
  ℕ, ◌-◌, ◌<◌, ◌≡◌, ◌≢◌, refl, sym, ap, ◌∙◌, true, false, none, some, ◌==◌, List, [], ◌∷◌, length,
  ◌∈◌, ◌∉◌, arith,
}
use orderbook_engine.Base.Steps.{>>=-some}
use orderbook_engine.Book.Fill.Walk.{
  with_level, level-with_level, set_level-with_level, set_at_self, IsStocked-twice,
}
use orderbook_engine.Book.Match.{take_fill, unlink_head, retire_head, release, fill_head}
use orderbook_engine.Book.Rest.{sub32}
use orderbook_engine.Book.State.{Book, PriceLevel, level}
use orderbook_engine.Book.Stock.{set_at, IsResting, IsLevel, Queues, IsStocked}
use orderbook_engine.Book.Stock.Amount.{
  Seg-links, set_quantity_links, set_quantity_ne, set_quantity_self, set_quantity_id,
  set_quantity-IsStocked,
}
use orderbook_engine.Book.Stock.Cancel.{deallocate-payload}
use orderbook_engine.Book.Stock.Queues.{unlink-IsLevel, quantities-same, length-queue}
use orderbook_engine.Book.Stock.Remove.{removed-IsStocked}
use orderbook_engine.IdMap
use orderbook_engine.IdMap.{IdMap}
use orderbook_engine.Orders.{Heap, Order, set_quantity}
use orderbook_engine.Orders.Fifo.{unlink}
use orderbook_engine.Orders.Fifo.Links.{IsFifo, payload}
use orderbook_engine.Orders.Fifo.Unlink.{unlink_lem, unlink-payload}
use orderbook_engine.Orders.Slab.{Slab, deallocate}
use orderbook_engine.Types.{Side, Quantity}

module _ (k : ℕ) (b : Book) (s : Side) (i : ℕ) (li : i < b.cfg.num_levels) (l : PriceLevel)
    (slab : Slab) (m : IdMap) (q : Queues) (free : List ℕ)
    (st : IsStocked k b.cfg.num_levels (set_at (level b) s i l) slab m q free) (x : ℕ) where
  abbrev c : Book
  c = with_level b s i l slab m

  abbrev own : Quantity
  own = (slab.storage x).quantity

  here-IsLevel : IsLevel s i slab.storage l (q s i)
  here-IsLevel =
      subst (λ z. IsLevel s i slab.storage z (q s i)) (set_at_self (level b) s i l)
        (st.levels s i li)

  abbrev after_fill : Quantity → Slab
  after_fill f = record slab { storage = set_quantity slab.storage x (own - f) }

  take_fill-with_level :
      (f : Quantity)
      → take_fill c s i x f
        ≡ with_level b s i (record l { total_qty = sub32 l.total_qty f }) (after_fill f) m
  unfolding take_fill
  take_fill-with_level f = rw (level-with_level b s i l slab m) (
      set_level-with_level b s i l (record l { total_qty = sub32 l.total_qty f }) slab m
        (after_fill f).storage)

  -- A fill of less than the head's quantity leaves the head in its place with the rest.
  pub fill_head_part :
      (f : Quantity)
      → x ∈ q s i
      → f < own
      → (l' : PriceLevel) × (fill_head c s i x f ≡ some (with_level b s i l' (after_fill f) m))
        × IsStocked k b.cfg.num_levels (set_at (level b) s i l') (after_fill f) m q free
  unfolding fill_head
  fill_head_part f mem lt =
      let l' : PriceLevel = record l { total_qty = sub32 l.total_qty f } in
      let left : (set_quantity slab.storage x (own - f) x).quantity ≡ own - f =
        ap (λ (z : Order). z.quantity) (set_quantity_self slab.storage x (own - f)) in
      let part : ((set_quantity slab.storage x (own - f) x).quantity == 0) ≡ false =
        ground (arith, left) in
      let e : own - (own - f) ≡ f = omega (arith, lt) in
      let stock =
        set_quantity-IsStocked k b.cfg.num_levels (set_at (level b) s i l) slab m q free st s i x
          (own - f) li mem (omega (arith, lt)) (omega arith) in
      let stock' =
        subst
          (λ z.
            IsStocked k b.cfg.num_levels
              (set_at (set_at (level b) s i l) s i
                (record z { total_qty = sub32 z.total_qty (own - (own - f)) }))
              (after_fill f) m q free)
          (set_at_self (level b) s i l) stock in
      (
        l',
        rw (take_fill-with_level f, part) refl,
        IsStocked-twice k b.cfg.num_levels (level b) (after_fill f) m q free s i l l' (
            subst
              (λ z.
                IsStocked k b.cfg.num_levels
                  (set_at (set_at (level b) s i l) s i
                    (record l { total_qty = sub32 l.total_qty z }))
                  (after_fill f) m q free)
              e stock'),
      )

  module _ (ys : List ℕ) (here : q s i ≡ x ∷ ys) where
    abbrev h₁ : Heap
    h₁ = (after_fill own).storage

    abbrev h₂ : Heap
    h₂ = (unlink h₁ l.orders x).0

    abbrev left_level : PriceLevel
    left_level = record {
      orders = (unlink h₁ l.orders x).1;
      total_qty = sub32 l.total_qty own;
      count = sub32 l.count 1;
    }

    was-IsLevel : IsLevel s i slab.storage l (x ∷ ys)
    was-IsLevel = subst (IsLevel s i slab.storage l) here here-IsLevel

    apart : (y : ℕ) → y ∈ ys → y ≢ x
    apart y mem e = (let out = was-IsLevel.distinct.0 in let z = subst (λ t. t ∈ ys) e mem in cc)

    linked : IsFifo h₁ l.orders (x ∷ ys)
    linked =
        Seg-links slab.storage h₁ none _ (x ∷ ys) _ none
          (set_quantity_links slab.storage x (own - own)) was-IsLevel.fifo

    spared : (y : ℕ) → y ∉ q s i → h₂ y ≡ slab.storage y
    spared y out =
        let o : y ∉ x ∷ ys = subst (λ z. y ∉ z) here out in
        (unlink_lem h₁ l.orders x [] ys linked was-IsLevel.distinct).1.outside y (ground arith)
        ∙ set_quantity_ne slab.storage x (own - own) y (ground arith)

    kept_id : (y : ℕ) → (h₂ y).order_id ≡ (slab.storage y).order_id
    kept_id y =
        ap (λ (z : Order). z.order_id) (unlink-payload h₁ l.orders x y)
        ∙ set_quantity_id slab.storage x (own - own) y

    kept : (y : ℕ) → y ≢ x → payload (h₂ y) ≡ payload (slab.storage y)
    kept y ne =
        unlink-payload h₁ l.orders x y
        ∙ ap payload (set_quantity_ne slab.storage x (own - own) y ne)

    left-IsLevel : IsLevel s i h₂ left_level ys
    left-IsLevel =
        let v = was-IsLevel in
        let sum = quantities-same slab.storage h₁ ys (λ y mem.
          ap (λ (z : Order). z.quantity)
            (set_quantity_ne slab.storage x (own - own) y (apart y mem))) in
        let bound =
          length-queue k b.cfg.num_levels (set_at (level b) s i l) slab m q free st s i li in
        let e : length (q s i) ≡ length (x ∷ ys) = ap (λ (z : List ℕ). length z) here in
        let first = v.members x (ground arith) in
        unlink-IsLevel s i h₁ l x [] ys (sub32 l.total_qty own) linked v.distinct v.count
          (omega (arith, v.count, e, bound, st.small))
          (λ y mem.
            subst (IsResting s i) (sym (set_quantity_ne slab.storage x (own - own) y (apart y mem)))
              (v.members y (ground arith)))
          (omega (arith, v.total, first.word, sum))

    unlink_head-with_level :
        unlink_head
          (with_level b s i (record l { total_qty = sub32 l.total_qty own }) (after_fill own) m)
          s
          i
          x
        ≡ with_level b s i left_level (record slab { storage = h₂ }) m
    unfolding unlink_head
    unlink_head-with_level =
        let l₁ : PriceLevel = record l { total_qty = sub32 l.total_qty own } in
        rw (level-with_level b s i l₁ (after_fill own) m)
          (set_level-with_level b s i l₁ left_level (after_fill own) m h₂)

    -- A fill of the head's quantity takes it from its level, the table and the storage.
    pub fill_head_whole :
        (l' : PriceLevel) × (slab' : Slab) × (m' : IdMap) × (fill_head c s i x own
          ≡ some (with_level b s i l' slab' m'))
        × IsStocked k b.cfg.num_levels
            (set_at (level b) s i l')
            slab'
            m'
            (set_at q s i ys)
            (x ∷ free)
        × ((y : ℕ) → y ≢ x → payload (slab'.storage y) ≡ payload (slab.storage y))
    unfolding fill_head retire_head release
    fill_head_whole =
        let slab₂ : Slab = record slab { storage = h₂ } in
        let (m', run, st') =
          removed-IsStocked k b.cfg.num_levels (set_at (level b) s i l) slab m q free st s i x [] ys
            li here h₂ left_level spared kept_id left-IsLevel in
        let left : (h₁ x).quantity ≡ own - own =
          ap (λ (z : Order). z.quantity) (set_quantity_self slab.storage x (own - own)) in
        let whole : ((h₁ x).quantity == 0) ≡ true = ground (arith, left) in
        let run' : IdMap.erase m (h₂ x).order_id ≡ some (true, m') =
          ap (IdMap.erase m) (kept_id x) ∙ run in
        (
          left_level,
          deallocate slab₂ x,
          m',
          rw (take_fill-with_level own, whole, unlink_head-with_level)
              (>>=-some (IdMap.erase m (h₂ x).order_id)
                (release (with_level b s i left_level slab₂ m) x) run'),
          IsStocked-twice k b.cfg.num_levels (level b) (deallocate slab₂ x) m' (set_at q s i ys)
              (x ∷ free) s i l left_level st',
          λ y ne. deallocate-payload slab₂ x y ∙ kept y ne,
        )
