-- ===== src/IdMap/Lookup.antt =====
-- `find` and the first loop of `erase` in an ordered table.
use orderbook_engine.Base.{
  true, false, ℕ, zero, suc, ◌^◌, ◌≤◌, ◌<◌, ◌≡◌, ◌≢◌, refl, ◌∙◌, sym, ap, arith, Option, none, some,
  ◌==◌, Bool-cases, inl, inr, ==→ne,
}
use orderbook_engine.IdMap.{IdMap, ideal_slot, next_slot, capacity, find, find_loop, locate_loop}
use orderbook_engine.IdMap.Circle.{step, walk, gap, walk-lt, walk-gap, walk-ne, gap-lt, step-lt}
use orderbook_engine.IdMap.Shape.{HasWidth, capacity-HasWidth, ideal_slot-lt, next_slot-step}
use orderbook_engine.IdMap.Ordered.{
  home, ideal_slot-home, profile, IsOrdered, Stored, Absent, IsVacant, profile-some,
  occupied_of_profile, occupied_behind,
}
use orderbook_engine.Orders.{Ptr}

-- The answer of `find` where the search for the slot stops.
abbrev answer : IdMap → Option (Option ℕ) → Option Ptr
answer m none = none
answer m (some none) = some none
answer m (some (some j)) = some (m.slots j).value

find_loop-locate_loop :
    (f : ℕ) (m : IdMap) (id i : ℕ) → find_loop f m id i ≡ answer m (locate_loop f m id i)
unfolding find_loop locate_loop
find_loop-locate_loop zero m id i = refl
find_loop-locate_loop (suc f) m id i = ground (arith, find_loop-locate_loop f m id (next_slot m i))

module _ (k : ℕ) (m : IdMap) (id : ℕ) where
  -- The search steps over an entry that is another's.
  locate_loop-step :
      (f i : ℕ)
      → HasWidth k m
      → i < 2 ^ k
      → (m.slots i).id ≢ 0
      → (m.slots i).id ≢ id
      → locate_loop (suc f) m id i ≡ locate_loop f m id (step (2 ^ k) i)
  unfolding locate_loop
  locate_loop-step f i w lt ne ne' =
      let a : ((m.slots i).id == id) ≡ false = ground arith in
      let b : ((m.slots i).id == 0) ≡ false = ground arith in rw (a, b, next_slot-step k m i w lt)

  locate_loop-hit :
      (d f i j : ℕ) (v : Ptr)
      → IsOrdered k m
      → i < 2 ^ k
      → walk (2 ^ k) i d ≡ j
      → Stored k m id v j
      → d ≤ gap (2 ^ k) (home k id) j
      → d < 2 ^ k
      → d < f
      → locate_loop f m id i ≡ some (some j)
  unfolding walk
  locate_loop-hit d zero i j v o lt arrives s le small fuel = absurd (omega arith)
  locate_loop-hit zero (suc f) i j v o lt arrives s le small fuel =
      unfold locate_loop in
      rw arrives (let a : ((m.slots j).id == id) ≡ true = ground (arith, s.holds_id) in rw a)
  locate_loop-hit (suc d) (suc f) i j v o lt arrives s le small fuel =
      let n = 2 ^ k in
      let at : profile k m.slots (walk n i (suc d)) ≡ some (gap n (home k id) j) =
        ap (profile k m.slots) arrives
        ∙ profile-some k m.slots j (λ z. s.ne_zero (sym s.holds_id ∙ z))
        ∙ ap (λ (x : ℕ). some (gap n (home k x) j)) s.holds_id in
      let (c, e) =
        occupied_behind k (profile k m.slots) (suc d) i _ o.chained (λ e. walk-lt n i e lt) at le in
      let full = occupied_of_profile k m.slots i c e in
      let other : (m.slots i).id ≢ id = λ same.
        walk-ne n i d lt small
          (arrives ∙ sym (o.unique i j lt s.in_table full (same ∙ sym s.holds_id))) in
      locate_loop-step f i o.width lt full other
      ∙ locate_loop-hit d f (step n i) j v o (step-lt n i lt) arrives s (omega arith) (omega arith)
          (omega arith)

  -- With an empty slot ahead, the search for an id that is not there ends before it.
  locate_loop-miss :
      (e f i q : ℕ)
      → HasWidth k m
      → i < 2 ^ k
      → walk (2 ^ k) i e ≡ q
      → IsVacant k m q
      → id ≢ 0
      → Absent k m id
      → e < f
      → locate_loop f m id i ≡ some none
  unfolding walk
  locate_loop-miss e zero i q w lt arrives vac nz out fuel = absurd (omega arith)
  locate_loop-miss zero (suc f) i q w lt arrives vac nz out fuel =
      let a : ((m.slots i).id == id) ≡ false = (let x = out i lt in ground arith) in
      let b : ((m.slots i).id == 0) ≡ true =
        (let z = ap (λ (x : ℕ). (m.slots x).id) arrives ∙ vac.empty in ground arith) in
      unfold locate_loop in rw (a, b)
  locate_loop-miss (suc e) (suc f) i q w lt arrives vac nz out fuel =
      elim (Bool-cases ((m.slots i).id == 0)) [
        | inl z ↦
            let a : ((m.slots i).id == id) ≡ false = (let x = out i lt in ground arith) in
            unfold locate_loop in rw (a, z)
        | inr ne ↦
            locate_loop-step f i w lt (==→ne _ _ ne) (out i lt)
            ∙ locate_loop-miss e f (step (2 ^ k) i) q w (step-lt (2 ^ k) i lt) arrives vac nz out
                (omega arith)
      ]

  pub locate-Stored :
      (v : Ptr) (j : ℕ)
      → IsOrdered k m
      → Stored k m id v j
      → locate_loop (capacity m) m id (ideal_slot m id) ≡ some (some j)
  locate-Stored v j o s =
      let n = 2 ^ k in
      let h = ideal_slot-lt k m id o.width in
      let g = ideal_slot-home k m id o.width in
      let d = gap n (ideal_slot m id) j in
      let lt = gap-lt n (ideal_slot m id) j h s.in_table in
      locate_loop-hit d (capacity m) (ideal_slot m id) j v o h
        (walk-gap n (ideal_slot m id) j h s.in_table) s (rw g (omega arith)) lt
        (rw (capacity-HasWidth k m o.width) lt)

  pub locate-Absent :
      (q : ℕ)
      → HasWidth k m
      → IsVacant k m q
      → id ≢ 0
      → Absent k m id
      → locate_loop (capacity m) m id (ideal_slot m id) ≡ some none
  locate-Absent q w vac nz out =
      let n = 2 ^ k in
      let h = ideal_slot-lt k m id w in
      let lt = gap-lt n (ideal_slot m id) q h vac.in_table in
      locate_loop-miss (gap n (ideal_slot m id) q) (capacity m) (ideal_slot m id) q w h
        (walk-gap n (ideal_slot m id) q h vac.in_table) vac nz out (rw (capacity-HasWidth k m w) lt)

  -- In an ordered table `find` returns, and answers the pointer that is stored with the id.
  pub find-Stored : (v : Ptr) (j : ℕ) → IsOrdered k m → Stored k m id v j → find m id ≡ some v
  unfolding find
  find-Stored v j o s =
      find_loop-locate_loop (capacity m) m id (ideal_slot m id)
      ∙ ap (answer m) (locate-Stored v j o s)
      ∙ ap (λ (x : Ptr). some x) s.holds_value

  -- With an empty slot in the table `find` of an id that is not there returns null.
  pub find-Absent :
      (q : ℕ) → HasWidth k m → IsVacant k m q → id ≢ 0 → Absent k m id → find m id ≡ some none
  unfolding find
  find-Absent q w vac nz out =
      find_loop-locate_loop (capacity m) m id (ideal_slot m id)
      ∙ ap (answer m) (locate-Absent q w vac nz out)
