-- ===== src/Orders/Fifo/Unlink.antt =====
-- `unlink` takes the order out of the list.
use mathlib.Core.Path.{subst}
use orderbook_engine.Base.{
  ℕ, ◌≡◌, ◌∙◌, refl, sym, none, some, List, [], ◌∷◌, ◌++◌, arith, inl, inr, Distinct, has-append,
}
use orderbook_engine.Orders.{Ptr, Heap}
use orderbook_engine.Orders.Fifo.{Fifo, unlink, unlink_prev, unlink_next}
use orderbook_engine.Orders.Fifo.Links.{payload}
use orderbook_engine.Orders.{set_prev, set_next}
use orderbook_engine.Orders.Fifo.Links.{
  Seg, IsFifo, Relinks, Seg-append, Seg-split, Seg-frame, Seg-last, Seg-set_next, Seg-set_prev,
  snoc_cases, Distinct-append, Relinks-refl, Relinks-trans, Relinks-set_next, Relinks-set_prev,
}

-- The part before the order is made to lead to `n`.
unlink_prev-Seg :
    (h : Heap) (l : Fifo) (p a n : Ptr) (xs : List ℕ)
    → Distinct xs
    → Seg h none l.head xs p a
    → Seg (unlink_prev h l p n).0 none (unlink_prev h l p n).1.head xs p n
      × Relinks xs h (unlink_prev h l p n).0
      × ((unlink_prev h l p n).1.tail ≡ l.tail)
unfolding unlink_prev
unlink_prev-Seg h l p a n xs d s = elim (snoc_cases xs) [
  | inl e ↦
      let (_, q) = subst (λ z. Seg h none l.head z p a) e s in
      rw (q, e) ((refl, refl), Relinks-refl h [], refl)
  | inr (ys, t, e) ↦
      let s' = subst (λ z. Seg h none l.head z p a) e s in
      let last = Seg-last h none l.head ys t p a s' in
      let apart = (Distinct-append ys (t ∷ []) (subst Distinct e d)).2 in
      rw (last, e)
        (
          Seg-set_next h none l.head ys t (some t) a n (ground (arith, apart t))
              (subst (λ z. Seg h none l.head (ys ++ t ∷ []) z a) last s'),
          Relinks-set_next h t n (ys ++ t ∷ []) (ground (arith, has-append t ys (t ∷ []))),
          refl,
        )
]

-- The part behind the order is entered from `p`.
abbrev EnteredFrom : Heap → Fifo → (p : Ptr) → List ℕ → (n : Ptr) → Type 0
EnteredFrom h l p ys n =
    Seg (unlink_next h l p n).0 p n ys (unlink_next h l p n).1.tail none
    × Relinks ys h (unlink_next h l p n).0
    × ((unlink_next h l p n).1.head ≡ l.head)

unlink_next-Seg :
    (h : Heap) (l : Fifo) (b p n : Ptr) (ys : List ℕ)
    → Distinct ys
    → Seg h b n ys l.tail none
    → EnteredFrom h l p ys n
unfolding unlink_next
unlink_next-Seg h l b p n [] d (e, q) = rw e ((refl, refl), Relinks-refl h [], refl)
unlink_next-Seg h l b p n (y ∷ ys) d (e, q, s) = subst (EnteredFrom h l p (y ∷ ys)) (sym e) (
  Seg-set_prev h b (some y) y ys l.tail none p d.0 (refl, q, s),
  Relinks-set_prev h y p (y ∷ ys) (ground arith),
  refl,
)

-- Taking an order that stands in the list out of it leaves the others, linked both ways in their
-- order, and changes no order but in the links, and none outside the list.
pub unlink_lem :
    (h : Heap) (l : Fifo) (node : ℕ) (xs ys : List ℕ)
    → IsFifo h l (xs ++ node ∷ ys)
    → Distinct (xs ++ node ∷ ys)
    → IsFifo (unlink h l node).0 (unlink h l node).1 (xs ++ ys)
      × Relinks (xs ++ ys) h (unlink h l node).0
unfolding unlink
unlink_lem h l node xs ys s d =
    let (m, f, left, (e, q, right)) = Seg-split h none l.head xs (node ∷ ys) l.tail none s in
    let (dx, (out, dy), apart) = Distinct-append xs (node ∷ ys) d in
    let p = (h node).prev in
    let n = (h node).next in
    let (left₁, r₁, tail₁) = unlink_prev-Seg h l p f n xs dx (rw q left) in
    let g = (unlink_prev h l p n).0 in
    let k = (unlink_prev h l p n).1 in
    let right₁ : Seg g (some node) n ys k.tail none = rw tail₁ (
      Seg-frame h g (some node) n ys l.tail none (λ x i. r₁.outside x (ground (arith, apart x)))
        right) in
    let (right₂, r₂, head₂) = unlink_next-Seg g k (some node) p n ys dy right₁ in
    let left₂ =
      Seg-frame g (unlink_next g k p n).0 none k.head xs p n
        (λ x i. r₂.outside x (ground (arith, apart x))) left₁ in
    (
      Seg-append (unlink_next g k p n).0 none (unlink_next g k p n).1.head xs p n ys
          (unlink_next g k p n).1.tail none (rw head₂ left₂) right₂,
      Relinks-trans xs ys (xs ++ ys) h g (unlink_next g k p n).0
          (λ x o. ground (arith, has-append x xs ys)) r₁ r₂,
    )

unlink_next-payload :
    (h : Heap) (l : Fifo) (p n : Ptr) (x : ℕ) → payload ((unlink_next h l p n).0 x) ≡ payload (h x)
unfolding unlink_next set_prev
unlink_next-payload h l p none x = refl
unlink_next-payload h l p (some n) x = ground arith

unlink_prev-payload :
    (h : Heap) (l : Fifo) (p n : Ptr) (x : ℕ) → payload ((unlink_prev h l p n).0 x) ≡ payload (h x)
unfolding unlink_prev set_next
unlink_prev-payload h l none n x = refl
unlink_prev-payload h l (some p) n x = ground arith

-- Whatever the links are, `unlink` changes no order but in its links.
pub unlink-payload :
    (h : Heap) (l : Fifo) (node x : ℕ) → payload ((unlink h l node).0 x) ≡ payload (h x)
unfolding unlink
unlink-payload h l node x =
    let p = (h node).prev in
    let n = (h node).next in
    unlink_next-payload (unlink_prev h l p n).0 (unlink_prev h l p n).1 p n x
    ∙ unlink_prev-payload h l p n x
