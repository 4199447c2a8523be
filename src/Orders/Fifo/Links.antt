-- ===== src/Orders/Fifo/Links.antt =====
-- What the links of a list stand for, and how segments are joined, split and relinked.
use orderbook_engine.Base.{
  ℕ, ◌≡◌, refl, ◌≢◌, none, some, List, [], ◌∷◌, ◌++◌, arith, ap, ◌∙◌, ◌⊎◌, inl, inr, ==→eq, ◌∈◌,
  ◌∉◌, Distinct, has-append,
}
use orderbook_engine.Orders.{Ptr, Order, Heap, set_prev, set_next}
use orderbook_engine.Orders.Fifo.{Fifo}

-- From `first`, entered from `before`, the links lead both ways through the orders of the list;
-- `last` is the order before `after`.
abbrev pub Seg : Heap → (before first : Ptr) → List ℕ → (last after : Ptr) → Type 0
Seg h before first [] last after = (first ≡ after) × (last ≡ before)
Seg h before first (x ∷ xs) last after =
    (first ≡ some x) × ((h x).prev ≡ before) × Seg h (some x) (h x).next xs last after

-- The header `l` heads and ends the list of the orders `xs`.
abbrev pub IsFifo : Heap → Fifo → List ℕ → Type 0
IsFifo h l xs = Seg h none l.head xs l.tail none

-- All of an order but its links.
abbrev pub payload : Order → Order
payload o = record o { prev = none; next = none }

-- `g` differs from `h` at most in the links of the orders of `xs`.
pub record Relinks (xs : List ℕ) (h g : Heap) : Type 0 where
  pub outside : (x : ℕ) → x ∉ xs → g x ≡ h x
  pub payloads : (x : ℕ) → payload (g x) ≡ payload (h x)

pub Seg-frame :
    (h g : Heap) (b f : Ptr) (xs : List ℕ) (l a : Ptr)
    → ((x : ℕ) → x ∈ xs → g x ≡ h x)
    → Seg h b f xs l a
    → Seg g b f xs l a
Seg-frame h g b f [] l a same s = s
Seg-frame h g b f (x ∷ xs) l a same (e, p, s) = (
  e,
  rw (same x (ground arith)) p,
  rw (same x (ground arith))
      (Seg-frame h g (some x) (h x).next xs l a (λ y i. same y (ground arith)) s),
)

pub Seg-append :
    (h : Heap) (b f : Ptr) (xs : List ℕ) (m n : Ptr) (ys : List ℕ) (l a : Ptr)
    → Seg h b f xs m n
    → Seg h m n ys l a
    → Seg h b f (xs ++ ys) l a
Seg-append h b f [] m n ys l a (e, p) t = rw (e, ← p) t
Seg-append h b f (x ∷ xs) m n ys l a (e, p, s) t =
    (e, p, Seg-append h (some x) (h x).next xs m n ys l a s t)

pub Seg-split :
    (h : Heap) (b f : Ptr) (xs ys : List ℕ) (l a : Ptr)
    → Seg h b f (xs ++ ys) l a
    → (m : Ptr) × (n : Ptr) × Seg h b f xs m n × Seg h m n ys l a
Seg-split h b f [] ys l a s = (b, f, (refl, refl), s)
Seg-split h b f (x ∷ xs) ys l a (e, p, s) =
    let (m, n, t, u) = Seg-split h (some x) (h x).next xs ys l a s in (m, n, (e, p, t), u)

pub Seg-last :
    (h : Heap) (b f : Ptr) (xs : List ℕ) (t : ℕ) (l a : Ptr)
    → Seg h b f (xs ++ t ∷ []) l a
    → l ≡ some t
Seg-last h b f [] t l a (e, p, s) = s.1
Seg-last h b f (x ∷ xs) t l a (e, p, s) = Seg-last h (some x) (h x).next xs t l a s

-- The last link of a segment is made to lead to `n`.
pub Seg-set_next :
    (h : Heap) (b f : Ptr) (xs : List ℕ) (t : ℕ) (l a n : Ptr)
    → t ∉ xs
    → Seg h b f (xs ++ t ∷ []) l a
    → Seg (set_next h t n) b f (xs ++ t ∷ []) l n
unfolding set_next
Seg-set_next h b f [] t l a n out (e, p, s) = (e, ground arith, (ground arith, s.1))
Seg-set_next h b f (x ∷ xs) t l a n out (e, p, s) =
    let same : set_next h t n x ≡ h x = ground arith in
    (e, rw same p, rw same (Seg-set_next h (some x) (h x).next xs t l a n (ground arith) s))

-- A segment is entered from `p`.
pub Seg-set_prev :
    (h : Heap) (b f : Ptr) (y : ℕ) (ys : List ℕ) (l a p : Ptr)
    → y ∉ ys
    → Seg h b f (y ∷ ys) l a
    → Seg (set_prev h y p) p f (y ∷ ys) l a
unfolding set_prev
Seg-set_prev h b f y ys l a p out (e, q, s) =
    let same : (set_prev h y p y).next ≡ (h y).next = ground arith in
    (
      e,
      ground arith,
      rw same (
          Seg-frame h (set_prev h y p) (some y) (h y).next ys l a
            (λ x i. (let ne : x ≢ y = cc in ground arith)) s),
    )

pub Relinks-set_next :
    (h : Heap) (t : ℕ) (n : Ptr) (xs : List ℕ) → t ∈ xs → Relinks xs h (set_next h t n)
unfolding set_next
Relinks-set_next h t n xs i = record {
  outside = λ x o. (let ne : x ≢ t = cc in ground arith);
  payloads = λ x. ground arith;
}

pub Relinks-set_prev :
    (h : Heap) (t : ℕ) (n : Ptr) (xs : List ℕ) → t ∈ xs → Relinks xs h (set_prev h t n)
unfolding set_prev
Relinks-set_prev h t n xs i = record {
  outside = λ x o. (let ne : x ≢ t = cc in ground arith);
  payloads = λ x. ground arith;
}

pub Relinks-refl : (h : Heap) (xs : List ℕ) → Relinks xs h h
Relinks-refl h xs = record { outside = λ x o. refl; payloads = λ x. refl }

pub Relinks-trans :
    (xs ys zs : List ℕ) (h g k : Heap)
    → ((x : ℕ) → x ∉ zs → (x ∉ xs) × (x ∉ ys))
    → Relinks xs h g
    → Relinks ys g k
    → Relinks zs h k
Relinks-trans xs ys zs h g k incl r s = record {
  outside = λ x o. s.outside x (incl x o).1 ∙ r.outside x (incl x o).0;
  payloads = λ x. s.payloads x ∙ r.payloads x;
}

pub snoc_cases : (xs : List ℕ) → (xs ≡ []) ⊎ ((ys : List ℕ) × (t : ℕ) × (xs ≡ ys ++ t ∷ []))
snoc_cases [] = inl refl
snoc_cases (x ∷ xs) = elim (snoc_cases xs) [
  | inl e ↦ inr ([], x, ap (λ l. x ∷ l) e)
  | inr (ys, t, e) ↦ inr (x ∷ ys, t, ap (λ l. x ∷ l) e)
]

pub Distinct-append :
    (xs ys : List ℕ) → Distinct (xs ++ ys) → Distinct xs × Distinct ys × ((x : ℕ) → x ∈ xs → x ∉ ys)
Distinct-append [] ys d = (tt, d, λ x i. cc)
Distinct-append (x ∷ xs) ys (o, d) =
    let (dx, dy, apart) = Distinct-append xs ys d in
    (
      (ground (arith, has-append x xs ys), dx),
      dy,
      λ y i. ground (arith, has-append x xs ys, apart y, ==→eq y x),
    )
