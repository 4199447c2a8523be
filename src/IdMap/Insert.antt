-- ===== src/IdMap/Insert.antt =====
-- `insert` in an ordered table.
use mathlib.Core.Path.{subst}
use orderbook_engine.Base.{
  true, false, ℕ, zero, suc, ◌^◌, ◌≤◌, ◌<◌, ◌≡◌, ◌≢◌, refl, ◌∙◌, sym, ap, arith, Option, none, some,
  ◌==◌, if◌then◌else◌, Bool-cases, inl, inr, ==→eq, ==→ne, update, update_self, update_ne,
}
use orderbook_engine.IdMap.{IdMap, Slot, ideal_slot, capacity, insert, insert_loop, fill_slot}
use orderbook_engine.IdMap.Circle.{step, walk, gap, step-lt}
use orderbook_engine.IdMap.Shape.{HasWidth, capacity-HasWidth, ideal_slot-lt, next_slot-step}
use orderbook_engine.IdMap.Ordered.{
  home, wide, profile, Follows, Chained, HasUnique, IsOrdered, Stored, Absent, IsVacant,
  profile-none,
}
use orderbook_engine.Orders.{Ptr}

-- The slot `q` is the first empty one, `e` steps on from `i`.
pub record IsFirst (k : ℕ) (m : IdMap) (i e q : ℕ) : Type 0 where
  pub vacant : IsVacant k m q
  pub arrives : walk (2 ^ k) i e ≡ q
  pub full : (e' : ℕ) → e' < e → (m.slots (walk (2 ^ k) i e')).id ≢ 0
  pub short : e < 2 ^ k

-- There is a first empty slot if there is an empty one.
IsFirst-vacancy :
    (k : ℕ) (m : IdMap) (e i q : ℕ)
    → i < 2 ^ k
    → e < 2 ^ k
    → walk (2 ^ k) i e ≡ q
    → IsVacant k m q
    → (e' : ℕ) × (q' : ℕ) × (e' ≤ e) × IsFirst k m i e' q'
unfolding walk
IsFirst-vacancy k m zero i q lt small arrives vac = (
  0,
  q,
  omega arith,
  record { vacant = vac; arrives = arrives; full = λ e' l. absurd (omega arith); short = small },
)
IsFirst-vacancy k m (suc e) i q lt small arrives vac = elim (Bool-cases ((m.slots i).id == 0)) [
  | inl z ↦ (
    0,
    i,
    omega arith,
    record {
      vacant = record { in_table = lt; empty = ==→eq _ _ z };
      arrives = refl;
      full = λ e' l. absurd (omega arith);
      short = omega arith;
    },
  )
  | inr ne ↦
      let (e', q', le, first) =
        IsFirst-vacancy k m e (step (2 ^ k) i) q (step-lt (2 ^ k) i lt) (omega arith) arrives vac in
      (
        suc e',
        q',
        omega arith,
        record {
          vacant = first.vacant;
          arrives = first.arrives;
          full = full_suc e' (==→ne _ _ ne) first.full;
          short = omega arith;
        },
      )
]
  where
    full_suc :
        (b : ℕ)
        → (m.slots i).id ≢ 0
        → ((e' : ℕ) → e' < b → (m.slots (walk (2 ^ k) (step (2 ^ k) i) e')).id ≢ 0)
        → (e' : ℕ) → e' < suc b
        → (m.slots (walk (2 ^ k) i e')).id ≢ 0
    full_suc b here h zero l = here
    full_suc b here h (suc e') l = h e' (omega arith)

module _ (k : ℕ) (m : IdMap) (id : ℕ) (v : Ptr) where
  abbrev entry : Slot
  entry = record { id = id; value = v }

  insert_loop-first :
      (e f i q : ℕ)
      → HasWidth k m
      → i < 2 ^ k
      → IsFirst k m i e q
      → Absent k m id
      → e < f
      → insert_loop f m id v i ≡ some (true, fill_slot m q entry)
  unfolding insert_loop walk
  insert_loop-first e zero i q w lt first out fuel = absurd (omega arith)
  insert_loop-first zero (suc f) i q w lt first out fuel =
      let b : ((m.slots q).id == 0) ≡ true = (let z = first.vacant.empty in ground arith) in
      rw (first.arrives, b)
  insert_loop-first (suc e) (suc f) i q w lt first out fuel =
      let a : ((m.slots i).id == id) ≡ false = (let x = out i lt in ground arith) in
      let b : ((m.slots i).id == 0) ≡ false =
        (let x = first.full 0 (omega arith) in ground arith) in
      let rest =
        insert_loop-first e f (step (2 ^ k) i) q w (step-lt (2 ^ k) i lt)
          (record {
            vacant = first.vacant;
            arrives = first.arrives;
            full = λ e' l. first.full (suc e') (omega arith);
            short = omega (arith, first.short);
          })
          out (omega arith) in
      rw (b, a, next_slot-step k m i w lt) rest

  -- `insert` of an id that is not there puts it into the first empty slot from its ideal one.
  pub insert-first :
      (e q : ℕ)
      → HasWidth k m
      → id ≢ 0
      → Absent k m id
      → IsFirst k m (ideal_slot m id) e q
      → insert m id v ≡ some (true, fill_slot m q entry)
  unfolding insert
  insert-first e q w nz out first =
      let a : (id == 0) ≡ false = ground arith in
      rw a (
        insert_loop-first e (capacity m) (ideal_slot m id) q w (ideal_slot-lt k m id w) first out
          (rw (capacity-HasWidth k m w) first.short))

  -- The entry is not closer to its ideal slot than the order of the run asks.
  abbrev pub Fits : ℕ → Type 0
  Fits q =
      (p : ℕ)
      → p < 2 ^ k
      → step (2 ^ k) p ≡ q
      → Follows (profile k m.slots p) (some (gap (2 ^ k) (home k id) q))

  profile-fill :
      (q i : ℕ)
      → id ≢ 0
      → profile k (fill_slot m q entry).slots i
        ≡ (if i == q then some (gap (2 ^ k) (home k id) q) else profile k m.slots i)
  unfolding profile update
  profile-fill q i nz = elim (Bool-cases (i == q)) [
    | inl e ↦
        let a : (id == 0) ≡ false = ground arith in
        rw (e, a) (ap (λ (x : ℕ). some (gap (2 ^ k) (home k id) x)) (==→eq i q e))
    | inr ne ↦ rw ne refl
  ]

  Follows-weaken : (c : ℕ) (b : Option ℕ) → Follows none b → Follows (some c) b
  Follows-weaken c none h = tt
  Follows-weaken c (some d) h = omega arith

  Chained-fill :
      (q : ℕ)
      → 1 < 2 ^ k
      → id ≢ 0
      → IsVacant k m q
      → Chained k (profile k m.slots)
      → Fits q
      → Chained k (profile k (fill_slot m q entry).slots)
  Chained-fill q wide nz vac ch fits i lt =
      let n = 2 ^ k in
      let none_at = profile-none k m.slots q vac.empty in
      elim (Bool-cases (i == q)) [
        | inl e ↦
            let ie = ==→eq i q e in
            let ne : (step n i == q) ≡ false = rw ie (unfold step in ground arith) in
            rw (profile-fill q i nz, profile-fill q (step n i) nz, e, ne)
              (Follows-weaken _ _ (
                subst (λ z. Follows z (profile k m.slots (step n i)))
                  (ap (profile k m.slots) ie ∙ none_at) (ch i lt)))
        | inr ne ↦ elim (Bool-cases (step n i == q)) [
          | inl e ↦
              rw (profile-fill q i nz, profile-fill q (step n i) nz, ne, e)
                (fits i lt (==→eq _ _ e))
          | inr ne' ↦ rw (profile-fill q i nz, profile-fill q (step n i) nz, ne, ne') (ch i lt)
        ]
      ]

  HasUnique-fill :
      (q : ℕ) → Absent k m id → HasUnique k m.slots → HasUnique k (fill_slot m q entry).slots
  unfolding update
  HasUnique-fill q out u i j li lj ne e = ground (arith, out i, out j, u i j)

  -- It keeps the table ordered where the entry fits there.
  pub IsOrdered-fill :
      (q : ℕ)
      → IsOrdered k m
      → id ≢ 0
      → Absent k m id
      → IsVacant k m q
      → Fits q
      → IsOrdered k (fill_slot m q entry)
  IsOrdered-fill q o nz out vac fits = record {
    width = record { width = o.width.width; pos = o.width.pos; bound = o.width.bound };
    chained = Chained-fill q (wide k o.width.pos) nz vac o.chained fits;
    unique = HasUnique-fill q out o.unique;
  }

  -- The new entry is stored, and the others as before.
  pub Stored-fill : (q : ℕ) → id ≢ 0 → IsVacant k m q → Stored k (fill_slot m q entry) id v q
  Stored-fill q nz vac = record {
    in_table = vac.in_table;
    ne_zero = nz;
    holds_id = ap (λ (x : Slot). x.id) (update_self m.slots q entry);
    holds_value = ap (λ (x : Slot). x.value) (update_self m.slots q entry);
  }

  pub Stored-fill_ne :
      (q j x : ℕ) (u : Ptr)
      → IsVacant k m q
      → Stored k m x u j
      → Stored k (fill_slot m q entry) x u j
  Stored-fill_ne q j x u vac s =
      let ne : j ≢ q =
        (λ e. s.ne_zero (sym s.holds_id ∙ ap (λ (i : ℕ). (m.slots i).id) e ∙ vac.empty)) in
      let e = update_ne m.slots q entry j ne in
      record {
        in_table = s.in_table;
        ne_zero = s.ne_zero;
        holds_id = ap (λ (y : Slot). y.id) e ∙ s.holds_id;
        holds_value = ap (λ (y : Slot). y.value) e ∙ s.holds_value;
      }
