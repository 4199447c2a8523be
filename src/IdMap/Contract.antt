-- ===== src/IdMap/Contract.antt =====
-- The contract of the map in terms of `find`.
use orderbook_engine.Base.{
  true, ℕ, zero, suc, ◌+◌, ◌-◌, ◌%◌, ◌^◌, ◌≤◌, ◌<◌, ◌≡◌, ◌≢◌, refl, ◌∙◌, sym, ap, arith, none, some,
  ◌==◌, Bool-cases, inl, inr, ◌⊎◌, ==→eq, ==→ne, update, update_ne,
}
use orderbook_engine.IdMap.{IdMap, Slot, ideal_slot, find, erase}
use orderbook_engine.IdMap.Ordered.{IsOrdered, Stored, Absent, IsVacant}
use orderbook_engine.IdMap.Lookup.{find-Stored, find-Absent}
use orderbook_engine.IdMap.Hole.{Without}
use orderbook_engine.Orders.{Ptr}
use orderbook_engine.IdMap.Erase.{erase-Stored}
use orderbook_engine.IdMap.Insert.{
  IsFirst, insert-first, Fits, IsOrdered-fill, Stored-fill, Stored-fill_ne,
}
use orderbook_engine.IdMap.{insert, fill_slot}

-- Every nonzero id is stored somewhere in the slots below a bound, or in none of them.
Stored-below :
    (k : ℕ) (m : IdMap) (x b : ℕ)
    → x ≢ 0
    → b ≤ 2 ^ k
    → ((v : Ptr) × (j : ℕ) × Stored k m x v j) ⊎ ((j : ℕ) → j < b → (m.slots j).id ≢ x)
Stored-below k m x zero nz le = inr (λ j lt. absurd (omega arith))
Stored-below k m x (suc b) nz le = elim (Bool-cases ((m.slots b).id == x)) [
  | inl e ↦ inl (
    (m.slots b).value,
    b,
    record { in_table = le; ne_zero = nz; holds_id = ==→eq _ _ e; holds_value = refl },
  )
  | inr ne ↦ elim (Stored-below k m x b nz (omega arith)) [
    | inl s ↦ inl s
    | inr out ↦ inr (λ j lt. elim (Bool-cases (j == b)) [
      | inl e ↦ rw (==→eq j b e) (==→ne _ _ ne)
      | inr ne' ↦ out j (ground arith)
    ])
  ]
]

pub Stored-or_Absent :
    (k : ℕ) (m : IdMap) (x : ℕ) → x ≢ 0 → ((v : Ptr) × (j : ℕ) × Stored k m x v j) ⊎ Absent k m x
Stored-or_Absent k m x nz = Stored-below k m x (2 ^ k) nz (omega arith)

module _ (k : ℕ) (m : IdMap) (x : ℕ) (v : Ptr) (j q : ℕ) (o : IsOrdered k m) (s : Stored k m x v j)
    (vac : IsVacant k m q) where
  q-ne : q ≢ j
  q-ne e = s.ne_zero (sym s.holds_id ∙ ap (λ (t : ℕ). (m.slots t).id) (sym e) ∙ vac.empty)

  erased-Absent : (m' : IdMap) → Without k m j m' → Absent k m' x
  erased-Absent m' w i lt e =
      let (j', ne, s') =
        w.only x (m'.slots i).value i
          (record { in_table = lt; ne_zero = s.ne_zero; holds_id = e; holds_value = refl }) in
      ne (
        o.unique j' j s'.in_table s.in_table (λ z. s.ne_zero (sym s'.holds_id ∙ z))
          (s'.holds_id ∙ sym s.holds_id))

  find-erase_ne : (m' : IdMap) → Without k m j m' → (y : ℕ) → y ≢ 0 → y ≢ x → find m' y ≡ find m y
  find-erase_ne m' w y nz ne =
      let vac' = w.vacancies q q-ne vac in
      elim (Stored-or_Absent k m y nz) [
        | inl (u, i, t) ↦
            let apart : i ≢ j =
              (λ e. ne (sym t.holds_id ∙ ap (λ (z : ℕ). (m.slots z).id) e ∙ s.holds_id)) in
            let (i', t') = w.kept y u i apart t in
            find-Stored k m' y u i' w.ordered t' ∙ sym (find-Stored k m y u i o t)
        | inr out ↦
            find-Absent k m' y q w.ordered.width vac' nz (λ i lt e.
              let (i', _, t) =
                w.only y (m'.slots i).value i
                  (record { in_table = lt; ne_zero = nz; holds_id = e; holds_value = refl }) in
              out i' t.in_table t.holds_id)
            ∙ sym (find-Absent k m y q o.width vac nz out)
      ]

  -- In an ordered table that has an empty slot, `erase` of a stored id returns true and an ordered
  -- table with one entry less, in which `find` of that id is null and `find` of every other id but
  -- 0 is what it was.
  pub find-erase :
      (m' : IdMap) × (erase m x ≡ some (true, m'))
      × IsOrdered k m'
      × (m'.size ≡ (m.size + 2 ^ 64 - 1) % 2 ^ 64)
      × (find m' x ≡ some none)
      × ((y : ℕ) → y ≢ 0 → y ≢ x → find m' y ≡ find m y)
  find-erase =
      let (m', run, w) = erase-Stored k m x v j q o s vac in
      (
        m',
        run,
        w.ordered,
        w.counted,
        find-Absent k m' x q w.ordered.width (w.vacancies q q-ne vac) s.ne_zero
            (erased-Absent m' w),
        find-erase_ne m' w,
      )

module _ (k : ℕ) (m : IdMap) (x : ℕ) (v : Ptr) (e q q' : ℕ) (o : IsOrdered k m) (nz : x ≢ 0)
    (out : Absent k m x) (first : IsFirst k m (ideal_slot m x) e q) (fits : Fits k m x v q)
    (vac : IsVacant k m q') (apart : q' ≢ q) where
  abbrev filled : IdMap
  filled = fill_slot m q (record { id = x; value = v })

  filled-IsVacant : IsVacant k filled q'
  filled-IsVacant = record {
    in_table = vac.in_table;
    empty =
        ap (λ (y : Slot). y.id) (update_ne m.slots q (record { id = x; value = v }) q' apart)
        ∙ vac.empty;
  }

  filled-Absent : (y : ℕ) → y ≢ x → Absent k m y → Absent k filled y
  unfolding update
  filled-Absent y ne out' j lt = ground (arith, out' j)

  find-insert_ne : (y : ℕ) → y ≢ 0 → y ≢ x → find filled y ≡ find m y
  find-insert_ne y ny ne =
      let o' = IsOrdered-fill k m x v q o nz out first.vacant fits in
      elim (Stored-or_Absent k m y ny) [
        | inl (u, i, t) ↦
            find-Stored k filled y u i o' (Stored-fill_ne k m x v q i y u first.vacant t)
            ∙ sym (find-Stored k m y u i o t)
        | inr out' ↦
            find-Absent k filled y q' o'.width filled-IsVacant ny (filled-Absent y ne out')
            ∙ sym (find-Absent k m y q' o.width vac ny out')
      ]

  -- In an ordered table, let an id other than 0 not be there, its entry fit the first empty slot from its ideal
  -- one, and another slot be empty. `insert` of the id then returns true and an ordered table with one entry
  -- more, in which `find` of the id is the new pointer, and `find` of every other id but 0 is what it was.
  pub find-insert :
      (insert m x v ≡ some (true, filled))
      × IsOrdered k filled
      × (filled.size ≡ (m.size + 1) % 2 ^ 64)
      × (find filled x ≡ some v)
      × ((y : ℕ) → y ≢ 0 → y ≢ x → find filled y ≡ find m y)
  find-insert =
      let o' = IsOrdered-fill k m x v q o nz out first.vacant fits in
      (
        insert-first k m x v e q o.width nz out first,
        o',
        refl,
        find-Stored k filled x v q o' (Stored-fill k m x v q nz first.vacant),
        find-insert_ne,
      )
