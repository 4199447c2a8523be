-- ===== src/Orders/Fifo/Push.antt =====
-- `push_back` puts the order behind those of the list.
use mathlib.Core.Path.{subst}
use orderbook_engine.Base.{
  ℕ, ◌≡◌, refl, ◌≢◌, none, some, List, [], ◌∷◌, ◌++◌, arith, inl, inr, ◌∈◌, ◌∉◌, Distinct,
  has-append,
}
use orderbook_engine.Orders.{Heap, set_prev, set_next}
use orderbook_engine.Orders.Fifo.{Fifo, push_back}
use orderbook_engine.Orders.Fifo.Links.{
  Seg, IsFifo, Relinks, Seg-append, Seg-frame, Seg-last, Seg-set_next, snoc_cases, Distinct-append,
}

push_back-Seg_empty :
    (h : Heap) (l : Fifo) (node : ℕ)
    → IsFifo h l []
    → IsFifo (push_back h l node).0 (push_back h l node).1 (node ∷ [])
unfolding push_back
push_back-Seg_empty h l node (e, p) = rw p (refl, ground arith, (ground arith, refl))

push_back-Seg_snoc :
    (h : Heap) (l : Fifo) (node t : ℕ) (ys : List ℕ)
    → t ∉ ys
    → node ∉ ys ++ t ∷ []
    → l.tail ≡ some t
    → IsFifo h l (ys ++ t ∷ [])
    → IsFifo (push_back h l node).0 (push_back h l node).1 ((ys ++ t ∷ []) ++ node ∷ [])
unfolding push_back
push_back-Seg_snoc h l node t ys out new e s =
    let g = set_next (set_prev h node (some t)) node none in
    let ne : t ≢ node = ground (arith, has-append node ys (t ∷ [])) in
    let s₁ : Seg g none l.head (ys ++ t ∷ []) l.tail none =
      Seg-frame h g none l.head (ys ++ t ∷ []) l.tail none
        (λ x i. (let k : x ≢ node = cc in ground arith)) s in
    let s₂ = Seg-set_next g none l.head ys t l.tail none (some node) out s₁ in
    rw e (
      Seg-append (set_next g t (some node)) none l.head (ys ++ t ∷ []) (some t) (some node)
        (node ∷ []) (some node) none
        (subst (λ z. Seg (set_next g t (some node)) none l.head (ys ++ t ∷ []) z (some node)) e s₂)
        (refl, ground arith, (ground arith, refl)))

-- Only the links of the list's orders and of the new one change.
push_back-Relinks :
    (h : Heap) (l : Fifo) (node : ℕ) (xs : List ℕ)
    → ((t : ℕ) → l.tail ≡ some t → t ∈ xs)
    → Relinks (xs ++ node ∷ []) h (push_back h l node).0
unfolding push_back
push_back-Relinks h l node xs end = record {
  outside = λ x o. ground (arith, has-append x xs (node ∷ []), end x);
  payloads = λ x. ground arith;
}

-- `push_back` of an order that is not in the list puts it behind the others, in both directions,
-- and changes no order but in the links, and none outside the list.
pub push_back_lem :
    (h : Heap) (l : Fifo) (node : ℕ) (xs : List ℕ)
    → IsFifo h l xs
    → Distinct xs
    → node ∉ xs
    → IsFifo (push_back h l node).0 (push_back h l node).1 (xs ++ node ∷ [])
      × Relinks (xs ++ node ∷ []) h (push_back h l node).0
push_back_lem h l node xs s d new = elim (snoc_cases xs) [
  | inl e ↦ (
    rw e (push_back-Seg_empty h l node (subst (λ z. IsFifo h l z) e s)),
    push_back-Relinks h l node xs (λ t q. (let p = (subst (λ z. IsFifo h l z) e s).1 in cc)),
  )
  | inr (ys, t, e) ↦
      let s' = subst (λ z. IsFifo h l z) e s in
      let last = Seg-last h none l.head ys t l.tail none s' in
      let apart = (Distinct-append ys (t ∷ []) (subst Distinct e d)).2 in
      (
        rw e (
            push_back-Seg_snoc h l node t ys (ground (arith, apart t)) (subst (λ z. node ∉ z) e new)
              last s'),
        push_back-Relinks h l node xs
            (λ u q. rw e (ground (arith, last, has-append u ys (t ∷ [])))),
      )
]
