-- ===== src/IdMap/Erase.antt =====
-- `erase` in an ordered table.
use mathlib.Core.Path.{subst}
use orderbook_engine.Base.{
  true, false, ℕ, zero, suc, ◌^◌, ◌<◌, ◌≡◌, ◌≢◌, ◌∙◌, sym, ap, arith, some, ◌==◌, Bool-cases, inl,
  inr, ==→eq, ==→ne, update_self, update_ne, update_same,
}
use orderbook_engine.Base.Steps.{>>=-some}
use orderbook_engine.IdMap.{
  IdMap, Slot, ideal_slot, displacement, capacity, erase, erase_at, locate_loop, shift_loop, vacate,
}
use orderbook_engine.IdMap.Circle.{step, walk, gap, walk-gap, gap-lt, step-lt}
use orderbook_engine.IdMap.Shape.{HasWidth, capacity-HasWidth, next_slot-step, displacement-gap}
use orderbook_engine.IdMap.Ordered.{
  home, ideal_slot-home, profile, Chained, IsOrdered, Stored, Absent, IsVacant, profile-some,
  profile-none,
}
use orderbook_engine.IdMap.Lookup.{locate-Stored, locate-Absent}
use orderbook_engine.IdMap.Hole.{HasHole, Without, Without-vacate}
use orderbook_engine.IdMap.Move.{moved, before, next-ne, HasHole-moved}
use orderbook_engine.Orders.{Ptr}

Stored-slot :
    (k : ℕ) (m m' : IdMap) (x : ℕ) (u : Ptr) (i j : ℕ)
    → j < 2 ^ k
    → m'.slots j ≡ m.slots i
    → Stored k m x u i
    → Stored k m' x u j
Stored-slot k m m' x u i j lt e s = record {
  in_table = lt;
  ne_zero = s.ne_zero;
  holds_id = ap (λ (y : Slot). y.id) e ∙ s.holds_id;
  holds_value = ap (λ (y : Slot). y.value) e ∙ s.holds_value;
}

module _ (k : ℕ) (m : IdMap) (hole d : ℕ) (h : HasHole k m hole d)
    (nz : (m.slots (step (2 ^ k) hole)).id ≢ 0) where
  abbrev next : ℕ
  next = step (2 ^ k) hole

  Without-moved_kept :
      (m' : IdMap)
      → Without k (moved k m hole) next m'
      → (x : ℕ) (u : Ptr) (j : ℕ) → j ≢ hole
      → Stored k m x u j
      → (j' : ℕ) × Stored k m' x u j'
  Without-moved_kept m' w x u j ne s = elim (Bool-cases (j == next)) [
    | inl e ↦
        w.kept x u hole (λ q. next-ne k m hole d h nz (sym q))
          (Stored-slot k m (moved k m hole) x u j hole h.in_table
            (update_self m.slots hole (m.slots next) ∙ ap m.slots (sym (==→eq j next e))) s)
    | inr ne' ↦ w.kept x u j (==→ne j next ne') (
        Stored-slot k m (moved k m hole) x u j j s.in_table
          (update_ne m.slots hole (m.slots next) j ne) s)
  ]

  Without-moved_only :
      (m' : IdMap)
      → Without k (moved k m hole) next m'
      → (x : ℕ) (u : Ptr) (j' : ℕ) → Stored k m' x u j'
      → (j : ℕ) × (j ≢ hole) × Stored k m x u j
  Without-moved_only m' w x u j' s' =
      let (j, ne, s) = w.only x u j' s' in
      elim (Bool-cases (j == hole)) [
        | inl e ↦ (
          next,
          next-ne k m hole d h nz,
          Stored-slot k (moved k m hole) m x u j next (step-lt (2 ^ k) hole h.in_table)
              (sym (update_self m.slots hole (m.slots next))
                ∙ ap (moved k m hole).slots (sym (==→eq j hole e)))
              s,
        )
        | inr ne' ↦ (
          j,
          ==→ne j hole ne',
          Stored-slot k (moved k m hole) m x u j j s.in_table
              (sym (update_ne m.slots hole (m.slots next) j (==→ne j hole ne'))) s,
        )
      ]

  -- What the rest of the loop leaves out is what the whole loop leaves out.
  Without-moved : (m' : IdMap) → Without k (moved k m hole) next m' → Without k m hole m'
  Without-moved m' w = record {
    ordered = w.ordered;
    kept = Without-moved_kept m' w;
    only = Without-moved_only m' w;
    vacancies = λ q ne vac.
        w.vacancies q (λ p. nz (ap (λ (t : ℕ). (m.slots t).id) (sym p) ∙ vac.empty))
          (record {
            in_table = vac.in_table;
            empty =
                ap (λ (y : Slot). y.id) (update_ne m.slots hole (m.slots next) q ne) ∙ vac.empty;
          });
    counted = w.counted;
  }

-- The loop returns, with an empty slot `e` steps behind the one after the hole.
abbrev Backshifts : (k f : ℕ) → IdMap → ℕ → Type 0
Backshifts k f m hole = (m' : IdMap) × (shift_loop f m hole ≡ some m') × Without k m hole m'

shift_loop-stop :
    (k f : ℕ) (m : IdMap) (hole d : ℕ)
    → HasHole k m hole d
    → (m.slots (step (2 ^ k) hole)).id ≡ 0
    → Backshifts k (suc f) m hole
unfolding shift_loop
shift_loop-stop k f m hole d h z =
    let ns = next_slot-step k m hole h.width h.in_table in
    let e : ((m.slots (step (2 ^ k) hole)).id == 0) ≡ true = ground arith in
    (
      vacate m hole,
      rw (ns, e),
      Without-vacate k m hole d h (rw (profile-none k m.slots (step (2 ^ k) hole) z) tt),
    )

shift_loop-Without :
    (e f k : ℕ) (m : IdMap) (hole d q : ℕ)
    → HasHole k m hole d
    → IsVacant k m q
    → q ≢ hole
    → walk (2 ^ k) (step (2 ^ k) hole) e ≡ q
    → e < f
    → Backshifts k f m hole
unfolding shift_loop walk
shift_loop-Without e zero k m hole d q h vac ne arrives fuel = absurd (omega arith)
shift_loop-Without zero (suc f) k m hole d q h vac ne arrives fuel =
    shift_loop-stop k f m hole d h (ap (λ (x : ℕ). (m.slots x).id) arrives ∙ vac.empty)
shift_loop-Without (suc e) (suc f) k m hole d q h vac ne arrives fuel =
    let n = 2 ^ k in
    let next = step n hole in
    let x = (m.slots next).id in
    let ns = next_slot-step k m hole h.width h.in_table in
    let ln = step-lt n hole h.in_table in
    elim (Bool-cases (x == 0)) [
      | inl z ↦ shift_loop-stop k f m hole d h (==→eq x 0 z)
      | inr full ↦
          let nz = ==→ne x 0 full in
          let dist : displacement m next x ≡ before k m hole d h nz =
            displacement-gap k m next x h.width ln
            ∙ ap (λ (t : ℕ). gap n t next) (ideal_slot-home k m x h.width) in
          elim (Bool-cases (before k m hole d h nz == 0)) [
            | inl ideal ↦ (
              vacate m hole,
              rw (ns, full, dist, ideal),
              Without-vacate k m hole d h (rw (profile-some k m.slots next nz) (==→eq _ _ ideal)),
            )
            | inr away ↦
                let off = ==→ne _ _ away in
                let h' = HasHole-moved k m hole d h nz off in
                let vac' : IsVacant k (moved k m hole) q = record {
                  in_table = vac.in_table;
                  empty =
                      ap (λ (y : Slot). y.id) (update_ne m.slots hole (m.slots next) q ne)
                      ∙ vac.empty;
                } in
                let ne' : q ≢ next =
                  (λ p. nz (ap (λ (t : ℕ). (m.slots t).id) (sym p) ∙ vac.empty)) in
                let (m', run, w) =
                  shift_loop-Without e f k (moved k m hole) next _ q h' vac' ne' arrives
                    (omega arith) in
                (m', rw (ns, full, dist, away) run, Without-moved k m hole d h nz m' w)
          ]
    ]

-- A full slot of an ordered table, given up.
HasHole-Stored :
    (k : ℕ) (m : IdMap) (x : ℕ) (v : Ptr) (j : ℕ)
    → IsOrdered k m
    → Stored k m x v j
    → HasHole k m j (gap (2 ^ k) (home k (m.slots j).id) j)
HasHole-Stored k m x v j o s =
    let d = gap (2 ^ k) (home k (m.slots j).id) j in
    let p = profile k m.slots in
    let at : p j ≡ some d = profile-some k m.slots j (λ z. s.ne_zero (sym s.holds_id ∙ z)) in
    record {
      width = o.width;
      in_table = s.in_table;
      chained = subst (Chained k) (sym (update_same p j (some d) at)) o.chained;
      unique = λ i i' ne ne'. o.unique i i';
    }

-- In an ordered table with an empty slot `erase` of a stored id returns, takes out its entry and
-- no other, and leaves an ordered table.
pub erase-Stored :
    (k : ℕ) (m : IdMap) (x : ℕ) (v : Ptr) (j q : ℕ)
    → IsOrdered k m
    → Stored k m x v j
    → IsVacant k m q
    → (m' : IdMap) × (erase m x ≡ some (true, m')) × Without k m j m'
unfolding erase erase_at
erase-Stored k m x v j q o s vac =
    let n = 2 ^ k in
    let ne : q ≢ j =
      (λ e. s.ne_zero (sym s.holds_id ∙ ap (λ (t : ℕ). (m.slots t).id) (sym e) ∙ vac.empty)) in
    let ls = step-lt n j s.in_table in
    let (m', run, w) =
      shift_loop-Without (gap n (step n j) q) (capacity m) k m j _ q (HasHole-Stored k m x v j o s)
        vac ne (walk-gap n (step n j) q ls vac.in_table)
        (rw (capacity-HasWidth k m o.width) (gap-lt n (step n j) q ls vac.in_table)) in
    (
      m',
      >>=-some (locate_loop (capacity m) m x (ideal_slot m x)) (erase_at m)
            (locate-Stored k m x v j o s)
          ∙ >>=-some (shift_loop (capacity m) m j) (λ t. some (true, t)) run,
      w,
    )

-- `erase` of an id that is not there changes nothing.
pub erase-Absent :
    (k : ℕ) (m : IdMap) (x q : ℕ)
    → HasWidth k m
    → IsVacant k m q
    → x ≢ 0
    → Absent k m x
    → erase m x ≡ some (false, m)
unfolding erase erase_at
erase-Absent k m x q w vac nz out =
    >>=-some (locate_loop (capacity m) m x (ideal_slot m x)) (erase_at m)
      (locate-Absent k m x q w vac nz out)
