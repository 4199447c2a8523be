-- ===== src/Book/Live.antt =====
-- The operations on a resting order in terms of its id: what they make of the queues, for every id but 0.
pub mod Ids
pub mod Contract
pub mod Insert
pub mod Append
pub mod Rest
pub mod Renew
pub mod Modify
pub mod Kill
use mathlib.Core.Path.{subst}
use orderbook_engine.Base.{
  ℕ, zero, suc, ◌-◌, ◌≤◌, ◌<◌, ◌≡◌, ◌≢◌, refl, sym, ap, ◌∙◌, Bool, true, false, ◌||◌, ◌&&◌, ◌==◌,
  ==→eq, ==→ne, Option, none, some, Bool-cases, inl, inr, ◌⊎◌, if◌then◌else◌, List, [], ◌∷◌, ◌++◌,
  has, ◌∈◌, ◌∉◌, Distinct, leb, arith,
}
use orderbook_engine.Book.Fill.{Entry, entries}
use orderbook_engine.Orders.{Heap, Order}
use orderbook_engine.Orders.Fifo.Links.{payload}
use orderbook_engine.Types.{OrderId, Quantity}

-- The entries without that of the id.
abbrev pub without_id : OrderId → List Entry → List Entry
without_id id [] = []
without_id id (e ∷ es) = let rest = without_id id es in if e.id == id then rest else e ∷ rest

-- The entries with the quantity of the id's lowered; it goes if nothing is left of it.
abbrev pub lower_id : OrderId → (by : Quantity) → List Entry → List Entry
lower_id id by [] = []
lower_id id by (e ∷ es) =
    let rest = lower_id id by es in
    if e.id == id
    then (if leb e.quantity by then rest else record e { quantity = e.quantity - by } ∷ rest)
    else e ∷ rest

pub split_at : (x : ℕ) (zs : List ℕ) → x ∈ zs → (xs : List ℕ) × (ys : List ℕ) × (zs ≡ xs ++ x ∷ ys)
split_at x [] mem = absurd (ground arith)
split_at x (z ∷ zs) mem = elim (Bool-cases (x == z)) [
  | inl e ↦ ([], zs, ap (λ w. w ∷ zs) (sym (==→eq x z e)))
  | inr ne ↦ (let (xs, ys, f) = split_at x zs (ground arith) in (z ∷ xs, ys, ap (λ w. z ∷ w) f))
]

module _ (h g : Heap) (id : OrderId) where
  -- Orders with other ids, and the same in both storages, keep their entries.
  pub without-entries_other :
      (xs : List ℕ)
      → ((y : ℕ) → y ∈ xs → ((h y).order_id ≢ id) × (payload (g y) ≡ payload (h y)))
      → without_id id (entries h xs) ≡ entries g xs
  without-entries_other [] c = refl
  without-entries_other (y ∷ xs) c =
      let (ne, same) = c y (ground arith) in
      let rest = without-entries_other xs (λ z m. c z (ground arith)) in
      let no_id : ((h y).order_id == id) ≡ false = ground arith in
      rw (no_id, ap (λ (o : Order). o.order_id) same, ap (λ (o : Order). o.quantity) same)
        (ap (λ z. record { id = (h y).order_id; quantity = (h y).quantity } ∷ z) rest)

  pub without-entries :
      (xs : List ℕ) (x : ℕ) (ys : List ℕ)
      → (h x).order_id ≡ id
      → ((y : ℕ) → y ∈ xs ++ ys → ((h y).order_id ≢ id) × (payload (g y) ≡ payload (h y)))
      → without_id id (entries h (xs ++ x ∷ ys)) ≡ entries g (xs ++ ys)
  without-entries [] x ys e c =
      let is_id : ((h x).order_id == id) ≡ true = ground arith in
      rw is_id (without-entries_other ys c)
  without-entries (y ∷ xs) x ys e c =
      let (ne, same) = c y (ground arith) in
      let rest = without-entries xs x ys e (λ z m. c z (ground arith)) in
      let no_id : ((h y).order_id == id) ≡ false = ground arith in
      rw (no_id, ap (λ (o : Order). o.order_id) same, ap (λ (o : Order). o.quantity) same)
        (ap (λ z. record { id = (h y).order_id; quantity = (h y).quantity } ∷ z) rest)

-- An id that no entry has is not lowered, and one that is lowered by all it has is taken out.
pub lower-entries_all :
    (h : Heap) (id : OrderId) (by : Quantity) (xs : List ℕ)
    → ((y : ℕ) → y ∈ xs → (h y).order_id ≡ id → (h y).quantity ≤ by)
    → lower_id id by (entries h xs) ≡ without_id id (entries h xs)
lower-entries_all h id by [] c = refl
lower-entries_all h id by (y ∷ xs) c =
    let rest = lower-entries_all h id by xs (λ z m. c z (ground arith)) in
    elim (Bool-cases ((h y).order_id == id)) [
      | inr ne ↦
          rw ne (ap (λ z. record { id = (h y).order_id; quantity = (h y).quantity } ∷ z) rest)
      | inl e ↦
          let all : leb (h y).quantity by ≡ true =
            (let le = c y (ground arith) (==→eq _ _ e) in ground arith) in
          rw (e, all) rest
    ]

-- An order that keeps some of its quantity keeps its place.
pub lower-entries_part :
    (h g : Heap) (id : OrderId) (by : Quantity) (x : ℕ) (xs : List ℕ)
    → ((y : ℕ) → y ∈ xs → (h y).order_id ≡ id → y ≡ x)
    → (h x).order_id ≡ id
    → by < (h x).quantity
    → g x ≡ record (h x) { quantity = (h x).quantity - by }
    → ((y : ℕ) → y ≢ x → g y ≡ h y)
    → lower_id id by (entries h xs) ≡ entries g xs
lower-entries_part h g id by x [] one e less at off = refl
lower-entries_part h g id by x (y ∷ xs) one e less at off =
    let rest = lower-entries_part h g id by x xs (λ z m. one z (ground arith)) e less at off in
    elim (Bool-cases ((h y).order_id == id)) [
      | inr ne ↦
          let same = off y (λ f. ==→ne _ _ ne (ap (λ (z : ℕ). (h z).order_id) f ∙ e)) in
          rw (ne, same)
            (ap (λ z. record { id = (h y).order_id; quantity = (h y).quantity } ∷ z) rest)
      | inl i ↦
          let f = one y (ground arith) (==→eq _ _ i) in
          let at' : g y ≡ record (h y) { quantity = (h y).quantity - by } =
            subst (λ z. g z ≡ record (h z) { quantity = (h z).quantity - by }) (sym f) at in
          let less' : by < (h y).quantity = subst (λ z. by < (h z).quantity) (sym f) less in
          let part : leb (h y).quantity by ≡ false = ground arith in
          rw (i, part, at')
            (ap (λ z. record { id = (h y).order_id; quantity = (h y).quantity - by } ∷ z) rest)
    ]
