-- ===== src/Book/Stock/Amount.antt =====
-- The quantity of a resting order goes down, and the total of its level with it.
use mathlib.Core.Path.{subst}
use orderbook_engine.Base.{
  ℕ, ◌+◌, ◌-◌, ◌^◌, ◌≤◌, ◌<◌, ◌≡◌, ◌≢◌, sym, ap, ◌∙◌, ◌&&◌, none, some, ◌==◌, ==→eq, ==→ne,
  Bool-cases, inl, inr, List, [], ◌∷◌, ◌∈◌, ◌∉◌, Distinct, arith,
}
use orderbook_engine.Book.Rest.{sub32}
use orderbook_engine.Book.State.{PriceLevel}
use orderbook_engine.Book.Stock.{
  same_side, set_at, quantities, IsResting, IsLevel, Queues, IsStocked,
}
use orderbook_engine.Book.Stock.Queues.{same_side→eq, quantities-same, IsLevel-frame}
use orderbook_engine.Book.Stock.Remove.{other_queue}
use orderbook_engine.IdMap.{IdMap}
use orderbook_engine.IdMap.Ordered.{Stored}
use orderbook_engine.Orders.{Ptr, Heap, Order, set_quantity}
use orderbook_engine.Orders.Fifo.Links.{Seg}
use orderbook_engine.Orders.Slab.{Slab}
use orderbook_engine.Orders.Slab.FreeList.{Linked-frame}
use orderbook_engine.Types.{Side, Quantity}

-- A segment looks at the links of its orders.
pub Seg-links :
    (h g : Heap) (b f : Ptr) (xs : List ℕ) (l a : Ptr)
    → ((x : ℕ) → ((g x).prev ≡ (h x).prev) × ((g x).next ≡ (h x).next))
    → Seg h b f xs l a
    → Seg g b f xs l a
Seg-links h g b f [] l a same s = s
Seg-links h g b f (x ∷ xs) l a same (e, p, s) =
    (e, (same x).0 ∙ p, rw (same x).1 (Seg-links h g (some x) (h x).next xs l a same s))

pub set_quantity_links :
    (h : Heap) (x : ℕ) (v : Quantity) (y : ℕ)
    → ((set_quantity h x v y).prev ≡ (h y).prev) × ((set_quantity h x v y).next ≡ (h y).next)
unfolding set_quantity
set_quantity_links h x v y = (ground arith, ground arith)

pub set_quantity_ne : (h : Heap) (x : ℕ) (v : Quantity) (y : ℕ) → y ≢ x → set_quantity h x v y ≡ h y
unfolding set_quantity
set_quantity_ne h x v y ne = ground arith

pub set_quantity_self :
    (h : Heap) (x : ℕ) (v : Quantity) → set_quantity h x v x ≡ record (h x) { quantity = v }
unfolding set_quantity
set_quantity_self h x v = ground arith

pub set_quantity_id :
    (h : Heap) (x : ℕ) (v : Quantity) (y : ℕ) → (set_quantity h x v y).order_id ≡ (h y).order_id
unfolding set_quantity
set_quantity_id h x v y = ground arith

pub quantities-set_quantity :
    (h : Heap) (x : ℕ) (v : Quantity) (xs : List ℕ)
    → x ∈ xs
    → Distinct xs
    → quantities (set_quantity h x v) xs + (h x).quantity ≡ quantities h xs + v
quantities-set_quantity h x v [] m d = absurd (ground arith)
quantities-set_quantity h x v (y ∷ xs) m (o, d) = elim (Bool-cases (x == y)) [
  | inl e ↦
      let f = ==→eq x y e in
      let new : (set_quantity h x v y).quantity ≡ v =
        subst (λ z. (set_quantity h x v z).quantity ≡ v) f
          (ap (λ (z : Order). z.quantity) (set_quantity_self h x v)) in
      let old : (h y).quantity ≡ (h x).quantity = ap (λ (z : ℕ). (h z).quantity) (sym f) in
      let rest = quantities-same h (set_quantity h x v) xs (λ z mem.
        ap (λ (w : Order). w.quantity)
          (set_quantity_ne h x v z (λ q. (let c = subst (λ t. t ∈ xs) (q ∙ f) mem in cc)))) in
      omega (arith, new, old, rest)
  | inr ne ↦
      let same =
        ap (λ (w : Order). w.quantity) (set_quantity_ne h x v y (λ q. ==→ne x y ne (sym q))) in
      let rest = quantities-set_quantity h x v xs (ground arith) d in omega (arith, same, rest)
]

set_quantity-IsResting :
    (s : Side) (i : ℕ) (h : Heap) (x : ℕ) (v : Quantity) (y : ℕ)
    → 0 < v
    → v < 2 ^ 32
    → IsResting s i (h y)
    → IsResting s i (set_quantity h x v y)
unfolding set_quantity
set_quantity-IsResting s i h x v y pos small r = record {
  side = ground (arith, r.side);
  level_idx = ground (arith, r.level_idx);
  some_left = ground (arith, r.some_left);
  word = ground (arith, r.word);
}

module _ (k n : ℕ) (lv : Side → ℕ → PriceLevel) (slab : Slab) (m : IdMap) (q : Queues)
    (free : List ℕ) (st : IsStocked k n lv slab m q free) (s : Side) (i x : ℕ) (v : Quantity)
    (li : i < n) (mem : x ∈ q s i) (pos : 0 < v) (le : v ≤ (slab.storage x).quantity) where
  abbrev lower : PriceLevel
  lower = record (lv s i) { total_qty = sub32 (lv s i).total_qty ((slab.storage x).quantity - v) }

  abbrev slab' : Slab
  slab' = record slab { storage = set_quantity slab.storage x v }

  lower-IsLevel : IsLevel s i slab'.storage lower (q s i)
  lower-IsLevel =
      let o = st.levels s i li in
      let r = o.members x mem in
      let e = quantities-set_quantity slab.storage x v (q s i) mem o.distinct in
      record {
        fifo =
            Seg-links slab.storage slab'.storage none _ (q s i) _ none
              (set_quantity_links slab.storage x v) o.fifo;
        distinct = o.distinct;
        count = o.count;
        total = omega (arith, o.total, e, r.word);
        members = λ y w.
            set_quantity-IsResting s i slab.storage x v y pos (omega (arith, r.word))
              (o.members y w);
      }

  lower_levels :
      (s' : Side) (i' : ℕ)
      → i' < n
      → IsLevel s' i' slab'.storage (set_at lv s i lower s' i') (q s' i')
  lower_levels s' i' li' = elim (Bool-cases (same_side s s' && i' == i)) [
    | inl e ↦
        let es : s ≡ s' = same_side→eq s s' (ground arith) in
        let ei : i ≡ i' = ground arith in
        rw e (
          subst (λ t. IsLevel t i' slab'.storage lower (q t i')) es
            (subst (λ t. IsLevel s t slab'.storage lower (q s t)) ei lower-IsLevel))
    | inr ne ↦ rw ne (
        IsLevel-frame s' i' slab.storage slab'.storage (lv s' i') (q s' i')
          (λ y w.
            let out = other_queue k n lv slab m q free st s s' i i' y li li' ne w in
            set_quantity_ne slab.storage x v y (λ f. (let c = subst (λ t. t ∉ q s i) f out in cc)))
          (st.levels s' i' li'))
  ]

  -- The stock with the order at `v` and its level's total lower by as much.
  pub set_quantity-IsStocked : IsStocked k n (set_at lv s i lower) slab' m q free
  set_quantity-IsStocked =
      let f = st.slots in
      record {
        levels = lower_levels;
        slots = record {
          linked =
              Linked-frame slab.storage slab'.storage slab.free_head free
                (λ y w. (set_quantity_links slab.storage x v y).0) f.linked;
          distinct = f.distinct;
          below = f.below;
          counted = f.counted;
          fits = f.fits;
        };
        small = st.small;
        used = st.used;
        listed = λ y w.
            (let (j, sy) = st.listed y w in
              (
                j,
                subst (λ t. Stored k m t (some y) j) (sym (set_quantity_id slab.storage x v y)) sy,
              ));
        only = λ id u j su.
            (let (y, w, e, f) = st.only id u j su in
              (y, w, e, set_quantity_id slab.storage x v y ∙ f));
        table = st.table;
        vacancy = st.vacancy;
        vacant = st.vacant;
      }
