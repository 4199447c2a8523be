-- ===== src/Book/Live/Ids.antt =====
-- The ids of the queued orders, read off the queues.
use mathlib.Core.Path.{subst}
use orderbook_engine.Base.{
  ℕ, ◌-◌, ◌≡◌, ◌≢◌, refl, sym, true, ◌==◌, ==→ne, Option, Bool-cases, inl, inr, List, [], ◌∷◌, ◌∈◌,
  ltb, leb, arith,
}
use orderbook_engine.Book.Fill.{Entry, entries, consume}
use orderbook_engine.Book.Fill.Sweep.{view, IsSwept}
use orderbook_engine.Book.Live.{without_id}
use orderbook_engine.Book.Match.{Aggressor}
use orderbook_engine.Book.State.{Book}
use orderbook_engine.Book.Stock.{Queues, IsQueued}
use orderbook_engine.Orders.{Heap}
use orderbook_engine.Types.{Side, OrderId, Price, Quantity, Trade}

-- No entry has the id.
abbrev pub Lacks : OrderId → List Entry → Type 0
Lacks id [] = Unit {0}
Lacks id (e ∷ es) = (e.id ≢ id) × Lacks id es

pub Lacks-without_id : (id : OrderId) (es : List Entry) → Lacks id (without_id id es)
Lacks-without_id id [] = tt
Lacks-without_id id (e ∷ es) = elim (Bool-cases (e.id == id)) [
  | inl y ↦ rw y (Lacks-without_id id es)
  | inr ne ↦ rw ne (==→ne e.id id ne, Lacks-without_id id es)
]

pub without_id-Lacks :
    (id other : OrderId) (es : List Entry) → Lacks id es → Lacks id (without_id other es)
without_id-Lacks id other [] c = tt
without_id-Lacks id other (e ∷ es) (ne, c) = elim (Bool-cases (e.id == other)) [
  | inl y ↦ rw y (without_id-Lacks id other es c)
  | inr n ↦ rw n (ne, without_id-Lacks id other es c)
]

Lacks-consume :
    (id : OrderId) (r : Quantity) (es : List Entry) → Lacks id es → Lacks id (consume r es).left
Lacks-consume id r [] c = tt
Lacks-consume id r (e ∷ es) (ne, c) = elim (Bool-cases (r == 0)) [
  | inl z ↦ rw z (ne, c)
  | inr nz ↦ elim (Bool-cases (leb e.quantity r)) [
    | inl whole ↦ rw (nz, whole) (Lacks-consume id (r - e.quantity) es c)
    | inr part ↦ rw (nz, part) (ne, c)
  ]
]

Lacks-entries :
    (h : Heap) (id : OrderId) (xs : List ℕ)
    → ((y : ℕ) → y ∈ xs → (h y).order_id ≢ id)
    → Lacks id (entries h xs)
Lacks-entries h id [] c = tt
Lacks-entries h id (x ∷ xs) c =
    (c x (ground arith), Lacks-entries h id xs (λ y m. c y (ground arith)))

entries-Lacks :
    (h : Heap) (id : OrderId) (xs : List ℕ)
    → Lacks id (entries h xs)
    → (y : ℕ) → y ∈ xs
    → (h y).order_id ≢ id
entries-Lacks h id [] c y m = absurd (ground arith)
entries-Lacks h id (x ∷ xs) (ne, c) y m = elim (Bool-cases (y == x)) [
  | inl e ↦ (let f : y ≡ x = ground arith in subst (λ z. (h z).order_id ≢ id) (sym f) ne)
  | inr n ↦ entries-Lacks h id xs c y (ground arith)
]

module _ (b : Book) (q : Queues) (id : OrderId) where
  pub view-Lacks :
      ((y : ℕ) → IsQueued b.cfg.num_levels q y → (b.slab.storage y).order_id ≢ id)
      → (s : Side) (i : ℕ) → Lacks id (view b q s i)
  view-Lacks gone s i = elim (Bool-cases (ltb i b.cfg.num_levels)) [
    | inr out ↦ rw out tt
    | inl lt ↦ rw lt (
        Lacks-entries b.slab.storage id (q s i)
          (λ y m. gone y (record { s = s; i = i; below = ground arith; member = m })))
  ]

  pub Lacks-view :
      ((s : Side) (i : ℕ) → Lacks id (view b q s i))
      → (y : ℕ) → IsQueued b.cfg.num_levels q y
      → (b.slab.storage y).order_id ≢ id
  Lacks-view lacks y w =
      let lt : ltb w.i b.cfg.num_levels ≡ true = (let below = w.below in ground arith) in
      let at : view b q w.s w.i ≡ entries b.slab.storage (q w.s w.i) = rw lt refl in
      entries-Lacks b.slab.storage id (q w.s w.i) (subst (Lacks id) at (lacks w.s w.i)) y w.member

-- A sweep adds no entry.
pub IsSwept-Lacks :
    (price : ℕ → Price) (a : Aggressor) (limit : Option ℕ) (id : OrderId) {e e' : ℕ → List Entry}
    {r r' : Quantity} {ts : List Trade}
    → IsSwept price a limit e r ts e' r'
    → ((j : ℕ) → Lacks id (e j))
    → (j : ℕ) → Lacks id (e' j)
IsSwept-Lacks price a limit id IsSwept.filled c j = c j
IsSwept-Lacks price a limit id (IsSwept.bare empty) c j = c j
IsSwept-Lacks price a limit id (IsSwept.beyond i best far) c j = c j
IsSwept-Lacks price a limit id {e} {e'} {r} (IsSwept.last i best near full change) c j =
    subst (Lacks id) (sym (change j)) (elim (Bool-cases (j == i)) [
      | inl y ↦ rw y (Lacks-consume id r (e i) (c i))
      | inr n ↦ rw n (c j)
    ])
IsSwept-Lacks price a limit id (IsSwept.next i best near clear change more) c j =
    IsSwept-Lacks price a limit id more
      (λ j'.
        subst (Lacks id) (sym (change j'))
          (elim (Bool-cases (j' == i)) [ inl y ↦ rw y tt | inr n ↦ rw n (c j') ]))
      j
