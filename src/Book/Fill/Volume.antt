-- ===== src/Book/Fill/Volume.antt =====
-- The volume that an aggressor can take, and what a sweep leaves of its quantity.
use orderbook_engine.Base.{
  ℕ, ◌+◌, ◌-◌, ◌≤◌, ◌<◌, ◌≡◌, ◌≢◌, refl, ◌∙◌, true, false, ◌==◌, Option, none, some, Bool-cases,
  inl, inr, ◌⊎◌, if◌then◌else◌, List, [], ◌∷◌, ltb, leb, arith,
}
use orderbook_engine.Base.Sums.{sum, sum-zero, sum-split}
use orderbook_engine.Book.Best.{better}
use orderbook_engine.Book.Fill.{Entry, consume}
use orderbook_engine.Book.Fill.Sweep.{IsSwept, IsBestLevel}
use orderbook_engine.Book.Match.{Aggressor, is_breached}
use orderbook_engine.Types.{Side, Price, Quantity, Trade, opposite}

-- The quantity of a queue.
abbrev pub total : List Entry → ℕ
total [] = 0
total (e ∷ es) = e.quantity + total es

-- The quantity of the queues within the limit.
abbrev pub reach : Side → (limit : Option ℕ) → (ℕ → List Entry) → ℕ → ℕ
reach side limit e j = if is_breached side limit j then 0 else total (e j)

abbrev pub volume : Side → (limit : Option ℕ) → (n : ℕ) → (ℕ → List Entry) → ℕ
volume side limit n e = sum (reach side limit e) n

-- A queue that is taken whole takes its quantity; if something is left of it, nothing is left of the aggressor.
consume-total :
    (r : Quantity) (es : List Entry)
    → (consume r es).left ≡ []
    → (consume r es).remaining + total es ≡ r
consume-total r [] e = omega arith
consume-total r (x ∷ es) e = elim (Bool-cases (r == 0)) [
  | inl z ↦ absurd (let f : x ∷ es ≡ [] = rw z at e in cc)
  | inr nz ↦ elim (Bool-cases (leb x.quantity r)) [
    | inl whole ↦
        rw (nz, whole)
          (let rest = consume-total (r - x.quantity) es (rw (nz, whole) at e) in
            ground (arith, rest))
    | inr part ↦
        absurd (let f : record x { quantity = x.quantity - r } ∷ es ≡ [] = rw (nz, part) at e in cc)
  ]
]

consume-used :
    (r : Quantity) (es : List Entry) → (consume r es).left ≢ [] → (consume r es).remaining ≡ 0
consume-used r [] full = absurd (full refl)
consume-used r (x ∷ es) full = elim (Bool-cases (r == 0)) [
  | inl z ↦ rw z (ground arith)
  | inr nz ↦ elim (Bool-cases (leb x.quantity r)) [
    | inl whole ↦ rw (nz, whole) (consume-used (r - x.quantity) es (rw (nz, whole) at full))
    | inr part ↦ rw (nz, part) refl
  ]
]

is_breached-worse :
    (side : Side) (limit : Option ℕ) (i j : ℕ)
    → is_breached side limit i ≡ true
    → better (opposite side) j i ≡ false
    → is_breached side limit j ≡ true
unfolding is_breached
is_breached-worse Side.buy none i j far worse = absurd (cc)
is_breached-worse Side.buy (some l) i j far worse = ground arith
is_breached-worse Side.sell none i j far worse = absurd (cc)
is_breached-worse Side.sell (some l) i j far worse = ground arith

module _ (price : ℕ → Price) (a : Aggressor) (limit : Option ℕ) (n : ℕ) where
  volume_beyond :
      (e : ℕ → List Entry) (i : ℕ)
      → IsBestLevel (opposite a.side) e i
      → is_breached a.side limit i ≡ true
      → volume a.side limit n e ≡ 0
  volume_beyond e i best far = sum-zero (reach a.side limit e) n (λ j lt.
      elim (Bool-cases (better (opposite a.side) j i)) [
        | inl up ↦
            let nothing : total (e j) ≡ 0 = rw (best.no_better j up) refl in
            elim (Bool-cases (is_breached a.side limit j)) [
              | inl out ↦ rw out refl
              | inr inside ↦ rw inside nothing
            ]
        | inr worse ↦ rw (is_breached-worse a.side limit i j far worse) refl
      ])

  -- A sweep that leaves a quantity has taken the whole volume within the limit.
  pub IsSwept-volume :
      {e e' : ℕ → List Entry} {r r' : Quantity} {ts : List Trade}
      → IsSwept price a limit e r ts e' r'
      → ((j : ℕ) → n ≤ j → e j ≡ [])
      → (r' ≡ 0) ⊎ (r' + volume a.side limit n e ≡ r)
  IsSwept-volume IsSwept.filled out = inl refl
  IsSwept-volume {e} (IsSwept.bare empty) out =
      let v = sum-zero (reach a.side limit e) n (λ j lt.
        elim (Bool-cases (is_breached a.side limit j)) [
          | inl y ↦ rw y refl
          | inr ne ↦ rw (ne, empty j) refl
        ]) in
      inr (omega (arith, v))
  IsSwept-volume {e} (IsSwept.beyond i best far) out =
      inr (omega (arith, volume_beyond e i best far))
  IsSwept-volume {e} {e'} {r} (IsSwept.last i best near full change) out =
      inl (consume-used r (e i) full)
  IsSwept-volume {e} {e'} {r} (IsSwept.next {e₁ = e₁} i best near clear change more) out =
      let lt : i < n = elim (Bool-cases (ltb i n)) [
        | inl y ↦ ground arith
        | inr far ↦ absurd (best.occupied (out i (ground arith)))
      ] in
      let at : reach a.side limit e i ≡ total (e i) = rw near refl in
      let gone : reach a.side limit e₁ i ≡ 0 =
        (let here : (i == i) ≡ true = ground arith in rw (near, change i, here) refl) in
      let split =
        sum-split (reach a.side limit e) (reach a.side limit e₁) n i lt gone (λ j below ne.
          (let other : (j == i) ≡ false = ground arith in rw (change j, other) refl)) in
      let whole = consume-total r (e i) clear in
      elim (IsSwept-volume more (λ j beyond.
        (let other : (j == i) ≡ false = ground arith in change j ∙ rw other (out j beyond)))) [
          | inl z ↦ inl z
          | inr some_left ↦ inr (omega (arith, some_left, split, whole, at))
        ]
