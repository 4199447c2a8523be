-- ===== src/IdMap/Hole.antt =====
-- A table with a hole, and the end of the backshift, which leaves the hole empty.
use orderbook_engine.Base.{
  ℕ, ◌+◌, ◌-◌, ◌%◌, ◌^◌, ◌<◌, ◌≡◌, ◌≢◌, refl, ◌∙◌, sym, ap, arith, none, some, ◌==◌, if◌then◌else◌,
  Bool-cases, inl, inr, ==→eq, ==→ne, update, update_self, update_ne,
}
use orderbook_engine.IdMap.{IdMap, Slot, vacate}
use orderbook_engine.IdMap.Circle.{step}
use orderbook_engine.IdMap.Shape.{HasWidth}
use orderbook_engine.IdMap.Ordered.{
  profile, Follows, Chained, HasUnique, IsOrdered, Stored, IsVacant,
}
use orderbook_engine.Orders.{Ptr}

-- The table `m'` holds what `m` holds outside of the slot `hole`.
pub record Without (k : ℕ) (m : IdMap) (hole : ℕ) (m' : IdMap) : Type 0 where
  pub ordered : IsOrdered k m'
  pub kept : (x : ℕ) (u : Ptr) (j : ℕ) → j ≢ hole → Stored k m x u j → (j' : ℕ) × Stored k m' x u j'
  pub only :
      (x : ℕ) (u : Ptr) (j' : ℕ) → Stored k m' x u j' → (j : ℕ) × (j ≢ hole) × Stored k m x u j
  pub vacancies : (q : ℕ) → q ≢ hole → IsVacant k m q → IsVacant k m' q
  pub counted : m'.size ≡ (m.size + 2 ^ 64 - 1) % 2 ^ 64

-- The table with the slot `hole` given up: the entry that was there was `d` from its ideal slot.
pub record HasHole (k : ℕ) (m : IdMap) (hole d : ℕ) : Type 0 where
  pub width : HasWidth k m
  pub in_table : hole < 2 ^ k
  pub chained : Chained k (update (profile k m.slots) hole (some d))
  pub unique :
      (i j : ℕ)
      → i ≢ hole
      → j ≢ hole
      → i < 2 ^ k
      → j < 2 ^ k
      → (m.slots i).id ≢ 0
      → (m.slots i).id ≡ (m.slots j).id
      → i ≡ j

module _ (k : ℕ) (m : IdMap) (hole : ℕ) where
  profile-vacate :
      (i : ℕ)
      → profile k (vacate m hole).slots i ≡ (if i == hole then none else profile k m.slots i)
  unfolding profile update
  profile-vacate i = elim (Bool-cases (i == hole)) [ inl e ↦ rw e | inr ne ↦ rw ne ]

  Chained-vacate :
      (d : ℕ)
      → HasHole k m hole d
      → Follows none (profile k m.slots (step (2 ^ k) hole))
      → Chained k (profile k (vacate m hole).slots)
  Chained-vacate d h stop i lt =
      let n = 2 ^ k in
      let p = profile k m.slots in
      let c = h.chained i lt in
      rw (profile-vacate i, profile-vacate (step n i))
        (elim (Bool-cases (step n i == hole)) [
          | inl e ↦ rw e tt
          | inr ne ↦ elim (Bool-cases (i == hole)) [
            | inl e ↦ rw (ne, e) (rw (==→eq i hole e) stop)
            | inr ne' ↦
                rw (ne, ne')
                  (rw
                    (
                      update_ne p hole (some d) i (==→ne i hole ne'),
                      update_ne p hole (some d) (step n i) (==→ne _ _ ne),
                    )
                    at c)
          ]
        ])

  Stored-vacate :
      (x : ℕ) (u : Ptr) (j : ℕ) → j ≢ hole → Stored k m x u j → Stored k (vacate m hole) x u j
  Stored-vacate x u j ne s =
      let e = update_ne m.slots hole (record (m.slots hole) { id = 0 }) j ne in
      record {
        in_table = s.in_table;
        ne_zero = s.ne_zero;
        holds_id = ap (λ (y : Slot). y.id) e ∙ s.holds_id;
        holds_value = ap (λ (y : Slot). y.value) e ∙ s.holds_value;
      }

  Stored-of_vacate :
      (x : ℕ) (u : Ptr) (j : ℕ)
      → Stored k (vacate m hole) x u j
      → (j' : ℕ) × (j' ≢ hole) × Stored k m x u j'
  Stored-of_vacate x u j s =
      let ne : j ≢ hole = (λ e. s.ne_zero (
        sym s.holds_id
        ∙ ap (λ (i : ℕ). ((vacate m hole).slots i).id) e
        ∙ ap (λ (y : Slot). y.id) (update_self m.slots hole (record (m.slots hole) { id = 0 })))) in
      let e = update_ne m.slots hole (record (m.slots hole) { id = 0 }) j ne in
      (
        j,
        ne,
        record {
          in_table = s.in_table;
          ne_zero = s.ne_zero;
          holds_id = ap (λ (y : Slot). y.id) (sym e) ∙ s.holds_id;
          holds_value = ap (λ (y : Slot). y.value) (sym e) ∙ s.holds_value;
        },
      )

  HasUnique-vacate : (d : ℕ) → HasHole k m hole d → HasUnique k (vacate m hole).slots
  unfolding update
  HasUnique-vacate d h i j li lj ne e = ground (arith, h.unique i j)

  -- The loop stops where the next slot is empty or holds an entry in its ideal slot.
  pub Without-vacate :
      (d : ℕ)
      → HasHole k m hole d
      → Follows none (profile k m.slots (step (2 ^ k) hole))
      → Without k m hole (vacate m hole)
  Without-vacate d h stop = record {
    ordered = record {
      width = record { width = h.width.width; pos = h.width.pos; bound = h.width.bound };
      chained = Chained-vacate d h stop;
      unique = HasUnique-vacate d h;
    };
    kept = λ x u j ne s. (j, Stored-vacate x u j ne s);
    only = Stored-of_vacate;
    vacancies = λ q ne vac. record {
      in_table = vac.in_table;
      empty =
          ap (λ (y : Slot). y.id) (update_ne m.slots hole (record (m.slots hole) { id = 0 }) q ne)
          ∙ vac.empty;
    };
    counted = refl;
  }
