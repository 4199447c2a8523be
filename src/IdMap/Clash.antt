-- ===== src/IdMap/Clash.antt =====
-- Where the map does not keep its contract: a backshift that stops at an entry in its ideal slot
-- although an entry behind it belongs before the hole, and `find` of the id 0.
use native.Mathlib.Numerals.{add-one}
use orderbook_engine.Base.{
  true, false, ℕ, suc, ◌-◌, ◌^◌, ◌≤◌, ◌<◌, ◌≡◌, ◌≢◌, ◌∙◌, sym, ap, arith, none, some, ◌==◌,
  update_self, update_ne,
}
use orderbook_engine.Base.Steps.{>>=-some}
use orderbook_engine.IdMap.{
  IdMap, Slot, ideal_slot, displacement, capacity, find, find_loop, erase, erase_at, locate_loop,
  shift_loop, vacate,
}
use orderbook_engine.IdMap.Circle.{step, gap, step-lt}
use orderbook_engine.IdMap.Shape.{HasWidth, next_slot-step, displacement-gap}
use orderbook_engine.IdMap.Ordered.{home, home-lt, ideal_slot-home, Stored}
use orderbook_engine.Orders.{Ptr}

-- Three neighbours: `a` and `b` in their ideal slots, and behind them `c`, whose ideal slot is that
-- of `a`.
pub record IsClash (k : ℕ) (m : IdMap) (a b c : ℕ) (va vc : Ptr) : Type 0 where
  pub width : HasWidth k m
  pub first : Stored k m a va (home k a)
  pub second_ne : b ≢ 0
  pub second : (m.slots (step (2 ^ k) (home k a))).id ≡ b
  pub second_ideal : home k b ≡ step (2 ^ k) (home k a)
  pub third : Stored k m c vc (step (2 ^ k) (step (2 ^ k) (home k a)))
  pub third_ideal : home k c ≡ home k a
  pub apart : step (2 ^ k) (step (2 ^ k) (home k a)) ≢ home k a
  pub first_other : a ≢ c
  pub second_other : b ≢ c
  pub room : 2 ≤ m.mask

-- A search ends at once at the id's own slot.
locate_at_home :
    (k f : ℕ) (m : IdMap) (x i : ℕ) → (m.slots i).id ≡ x → locate_loop (suc f) m x i ≡ some (some i)
unfolding locate_loop
locate_at_home k f m x i e = let t : ((m.slots i).id == x) ≡ true = ground arith in rw t

find_at_empty :
    (f : ℕ) (m : IdMap) (x i : ℕ) → x ≢ 0 → (m.slots i).id ≡ 0 → find_loop (suc f) m x i ≡ some none
unfolding find_loop
find_at_empty f m x i ne e =
    let t : ((m.slots i).id == x) ≡ false = ground arith in
    let u : ((m.slots i).id == 0) ≡ true = ground arith in rw (t, u)

find_on :
    (f k : ℕ) (m : IdMap) (x i : ℕ)
    → HasWidth k m
    → i < 2 ^ k
    → (m.slots i).id ≢ x
    → (m.slots i).id ≢ 0
    → find_loop (suc f) m x i ≡ find_loop f m x (step (2 ^ k) i)
unfolding find_loop
find_on f k m x i w lt ne ne' =
    let t : ((m.slots i).id == x) ≡ false = ground arith in
    let u : ((m.slots i).id == 0) ≡ false = ground arith in rw (t, u, next_slot-step k m i w lt)

find_at_slot :
    (f : ℕ) (m : IdMap) (x i : ℕ)
    → (m.slots i).id ≡ x
    → find_loop (suc f) m x i ≡ some (m.slots i).value
unfolding find_loop
find_at_slot f m x i e = let t : ((m.slots i).id == x) ≡ true = ground arith in rw t

-- The backshift stops at once at an entry in its ideal slot.
shift_stops :
    (k f : ℕ) (m : IdMap) (i b : ℕ)
    → HasWidth k m
    → i < 2 ^ k
    → (m.slots (step (2 ^ k) i)).id ≡ b
    → b ≢ 0
    → home k b ≡ step (2 ^ k) i
    → shift_loop (suc f) m i ≡ some (vacate m i)
unfolding shift_loop
shift_stops k f m i b w lt e ne ideal =
    let n = 2 ^ k in
    let next = step n i in
    let x = (m.slots next).id in
    let full : (x == 0) ≡ false = ground arith in
    let dist : displacement m next x ≡ 0 =
      displacement-gap k m next x w (step-lt n i lt)
      ∙ ap (λ (t : ℕ). gap n t next) (ideal_slot-home k m x w ∙ ap (home k) e ∙ ideal)
      ∙ (unfold gap in ground arith) in
    rw (next_slot-step k m i w lt, full, dist)

module _ (k : ℕ) (m : IdMap) (a b c : ℕ) (va vc : Ptr) (h : IsClash k m a b c va vc) where
  abbrev i : ℕ
  i = home k a

  erase-vacate : erase m a ≡ some (true, vacate m i)
  unfolding erase erase_at
  erase-vacate =
      let s : capacity m ≡ suc m.mask = add-one m.mask in
      >>=-some (locate_loop (capacity m) m a (ideal_slot m a)) (erase_at m) (
        ap (λ (f : ℕ). locate_loop f m a (ideal_slot m a)) s
        ∙ ap (locate_loop (suc m.mask) m a) (ideal_slot-home k m a h.width)
        ∙ locate_at_home k m.mask m a i h.first.holds_id)
      ∙ >>=-some (shift_loop (capacity m) m i) (λ t. some (true, t))
          (ap (λ (f : ℕ). shift_loop f m i) s
            ∙ shift_stops k m.mask m i b h.width (home-lt k a) h.second h.second_ne h.second_ideal)

  find_third : find m c ≡ some vc
  unfolding find
  find_third =
      let n = 2 ^ k in
      let s : capacity m ≡ suc (suc (suc (m.mask - 2))) = omega (arith, h.room) in
      let inside = home-lt k a in
      let inside' = step-lt n i inside in
      ap (λ (f : ℕ). find_loop f m c (ideal_slot m c)) s
      ∙ ap (find_loop _ m c) (ideal_slot-home k m c h.width ∙ h.third_ideal)
      ∙ find_on (suc (suc (m.mask - 2))) k m c i h.width inside
          (λ e. h.first_other (sym h.first.holds_id ∙ e))
          (λ e. h.first.ne_zero (sym h.first.holds_id ∙ e))
      ∙ find_on (suc (m.mask - 2)) k m c (step n i) h.width inside'
          (λ e. h.second_other (sym h.second ∙ e)) (λ e. h.second_ne (sym h.second ∙ e))
      ∙ find_at_slot (m.mask - 2) m c (step n (step n i)) h.third.holds_id
      ∙ ap (λ (u : Ptr). some u) h.third.holds_value

  -- In a clash of `a`, `b` and `c`, before `erase` of `a`, `find` of `c` answers its pointer; after it, `find` of `c` is null although
  -- the entry of `c` still stands in its slot.
  pub erase_loses :
      (find m c ≡ some vc)
      × (erase m a ≡ some (true, vacate m i))
      × Stored k (vacate m i) c vc (step (2 ^ k) (step (2 ^ k) i))
      × (find (vacate m i) c ≡ some none)
  unfolding find
  erase_loses =
      let e = update_ne m.slots i (record (m.slots i) { id = 0 }) _ h.apart in
      let gone : ((vacate m i).slots i).id ≡ 0 =
        ap (λ (y : Slot). y.id) (update_self m.slots i (record (m.slots i) { id = 0 })) in
      let w : HasWidth k (vacate m i) = record {
        width = h.width.width;
        pos = h.width.pos;
        bound = h.width.bound;
      } in
      (
        find_third,
        erase-vacate,
        record {
          in_table = h.third.in_table;
          ne_zero = h.third.ne_zero;
          holds_id = ap (λ (y : Slot). y.id) e ∙ h.third.holds_id;
          holds_value = ap (λ (y : Slot). y.value) e ∙ h.third.holds_value;
        },
        ap (λ (f : ℕ). find_loop f (vacate m i) c (ideal_slot (vacate m i) c)) (add-one m.mask)
            ∙ ap (find_loop (suc m.mask) (vacate m i) c)
                (ideal_slot-home k (vacate m i) c w ∙ h.third_ideal)
            ∙ find_at_empty m.mask (vacate m i) c i h.third.ne_zero gone,
      )

shift_at_end :
    (k f : ℕ) (m : IdMap) (i : ℕ)
    → HasWidth k m
    → i < 2 ^ k
    → (m.slots (step (2 ^ k) i)).id ≡ 0
    → shift_loop (suc f) m i ≡ some (vacate m i)
unfolding shift_loop
shift_at_end k f m i w lt e =
    let t : ((m.slots (step (2 ^ k) i)).id == 0) ≡ true = ground arith in
    rw (next_slot-step k m i w lt, t)

-- An entry stands alone in the ideal slot of the id 0, which is its own ideal slot too. Once it is
-- erased, `find` of the id 0 answers the pointer that it had.
pub find_zero_stale :
    (k : ℕ) (m : IdMap) (x : ℕ) (v : Ptr)
    → HasWidth k m
    → Stored k m x v (home k 0)
    → home k x ≡ home k 0
    → (m.slots (step (2 ^ k) (home k 0))).id ≡ 0
    → (erase m x ≡ some (true, vacate m (home k 0))) × (find (vacate m (home k 0)) 0 ≡ some v)
unfolding find erase erase_at
find_zero_stale k m x v w s own alone =
    let i = home k 0 in
    let c = add-one m.mask in
    let w' : HasWidth k (vacate m i) = record { width = w.width; pos = w.pos; bound = w.bound } in
    let slot = update_self m.slots i (record (m.slots i) { id = 0 }) in
    (
      >>=-some (locate_loop (capacity m) m x (ideal_slot m x)) (erase_at m) (
            ap (λ (f : ℕ). locate_loop f m x (ideal_slot m x)) c
            ∙ ap (locate_loop (suc m.mask) m x) (ideal_slot-home k m x w ∙ own)
            ∙ locate_at_home k m.mask m x i s.holds_id)
          ∙ >>=-some (shift_loop (capacity m) m i) (λ t. some (true, t))
              (ap (λ (f : ℕ). shift_loop f m i) c
                ∙ shift_at_end k m.mask m i w (home-lt k 0) alone),
      ap (λ (f : ℕ). find_loop f (vacate m i) 0 (ideal_slot (vacate m i) 0)) c
          ∙ ap (find_loop (suc m.mask) (vacate m i) 0) (ideal_slot-home k (vacate m i) 0 w')
          ∙ find_at_slot m.mask (vacate m i) 0 i (ap (λ (y : Slot). y.id) slot)
          ∙ ap (λ (y : Slot). some y.value) slot
          ∙ ap (λ (u : Ptr). some u) s.holds_value,
    )
