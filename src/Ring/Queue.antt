-- ===== src/Ring/Queue.antt =====
-- A ring whose two threads do not overlap is a queue of at most as many values as it has slots.
use orderbook_engine.Base.{
  ℕ, suc, ◌+◌, ◌%◌, ◌^◌, ◌<◌, ◌≡◌, refl, ap, Bool, true, false, Option, none, some, leb, ltb, ◌==◌,
  Bool-cases, inl, inr, if◌then◌else◌, List, [], ◌∷◌, ◌++◌, length, arith,
}
use orderbook_engine.Ring.{
  Ring, see_tail, put, publish_head, see_head, take, publish_tail, try_push, try_pop,
}
use orderbook_engine.Ring.Window.{
  IsRing, looks_full_lem, see_tail-IsRing, put-IsRing, publish_head-IsRing, looks_empty_lem,
  see_head-IsRing, take_lem, publish_tail-IsRing,
}

module _ {A : Type 0} where
  -- The ring of `2 ^ k` slots holds the values of the list, the oldest first.
  pub record IsQueue (k : ℕ) (r : Ring A) (xs : List A) : Type 0 where
    pub t : ℕ
    pub ct : ℕ
    pub ch : ℕ
    pub is_ring : IsRing k r t ct ch xs

  -- What the operations of a queue of at most `2 ^ k` values answer, and the values after it.
  abbrev pub push_answer : (k : ℕ) → List A → Bool
  push_answer k xs = ltb (length xs) (2 ^ k)

  abbrev pub push_values : (k : ℕ) → List A → A → List A
  push_values k xs v = if ltb (length xs) (2 ^ k) then xs ++ v ∷ [] else xs

  abbrev pub pop_answer : List A → Option A
  pop_answer [] = none
  pop_answer (x ∷ xs) = some x

  abbrev pub pop_values : List A → List A
  pop_values [] = []
  pop_values (x ∷ xs) = xs

module _ {A : Type 0} (k : ℕ) (r : Ring A) where
  put_lem :
      (t ct ch : ℕ) (xs : List A) (v : A)
      → IsRing k r t ct ch xs
      → t + length xs < ct + 2 ^ k
      → IsQueue k (publish_head (put r v)) (xs ++ v ∷ [])
  put_lem t ct ch xs v h lt =
      let (p, at) = put-IsRing k r t ct ch xs h v lt in
      record {
        t = t;
        ct = ct;
        ch = ch;
        is_ring = publish_head-IsRing k (put r v) t ct ch xs p v lt at;
      }

  take-some :
      (t ct ch : ℕ) (xs : List A)
      → IsRing k r t ct ch xs
      → t < ch
      → (some (take r) ≡ pop_answer xs) × IsQueue k (publish_tail r) (pop_values xs)
  take-some t ct ch [] h lt = absurd (omega (arith, h.known))
  take-some t ct ch (x ∷ xs) h lt = (
    ap (λ (z : A). some z) (take_lem k r t ct ch x xs h),
    record { t = suc t; ct = ct; ch = ch; is_ring = publish_tail-IsRing k r t ct ch x xs h lt },
  )

  take-none :
      (t ct ch : ℕ) (xs : List A)
      → IsRing k r t ct ch xs
      → length xs ≡ 0
      → (◌≡◌ {A = Option A} none (pop_answer xs)) × IsQueue k r (pop_values xs)
  take-none t ct ch [] h e = (refl, record { t = t; ct = ct; ch = ch; is_ring = h })
  take-none t ct ch (x ∷ xs) h e = absurd (omega arith)

-- `try_push` answers whether there is a slot free, whatever the producer has seen of the tail, and then
-- puts the value behind the others; otherwise the ring holds what it held.
pub try_push-IsQueue :
    {A : Type 0} (k : ℕ) (r : Ring A) (xs : List A) (v : A)
    → IsQueue k r xs
    → ((try_push r v).0 ≡ push_answer k xs) × IsQueue k (try_push r v).1 (push_values k xs v)
unfolding try_push
try_push-IsQueue k r xs v q =
    let h = q.is_ring in
    let full = looks_full_lem k r q.t q.ct q.ch xs h in
    let h' = see_tail-IsRing k r q.t q.ct q.ch xs h q.t h.seen_tail (omega arith) in
    let full' = looks_full_lem k _ q.t q.t q.ch xs h' in
    let same : see_tail r r.tail ≡ see_tail r (q.t % 2 ^ 64) = ap (see_tail r) h.tail in
    elim (Bool-cases (leb (q.ct + 2 ^ k) (q.t + length xs))) [
      | inr room ↦
          let lt : q.t + length xs < q.ct + 2 ^ k = ground arith in
          let e : ltb (length xs) (2 ^ k) ≡ true = ground (arith, h.seen_tail) in
          rw (full, room, e) (refl, put_lem k r q.t q.ct q.ch xs v h lt)
      | inl no_room ↦
          rw (full, no_room, same, full')
            (elim (Bool-cases (leb (q.t + 2 ^ k) (q.t + length xs))) [
              | inr room ↦
                  let lt : q.t + length xs < q.t + 2 ^ k = ground arith in
                  let e : ltb (length xs) (2 ^ k) ≡ true = ground arith in
                  rw (room, e) (refl, put_lem k _ q.t q.t q.ch xs v h' lt)
              | inl none_left ↦
                  let e : ltb (length xs) (2 ^ k) ≡ false = ground arith in
                  rw (none_left, e) (refl, record { t = q.t; ct = q.t; ch = q.ch; is_ring = h' })
            ])
    ]

-- `try_pop` answers the oldest value of the ring and takes it out, or answers that there is none.
pub try_pop-IsQueue :
    {A : Type 0} (k : ℕ) (r : Ring A) (xs : List A)
    → IsQueue k r xs
    → ((try_pop r).0 ≡ pop_answer xs) × IsQueue k (try_pop r).1 (pop_values xs)
unfolding try_pop
try_pop-IsQueue k r xs q =
    let h = q.is_ring in
    let empty = looks_empty_lem k r q.t q.ct q.ch xs h in
    let n = q.t + length xs in
    let h' = see_head-IsRing k r q.t q.ct q.ch xs h n h.known (omega arith) in
    let empty' = looks_empty_lem k _ q.t q.ct n xs h' in
    let same : see_head r r.head ≡ see_head r (n % 2 ^ 64) = ap (see_head r) h.head in
    elim (Bool-cases (q.t == q.ch)) [
      | inr more ↦ rw (empty, more) (take-some k r q.t q.ct q.ch xs h (ground (arith, h.seen_head)))
      | inl drained ↦
          rw (empty, drained, same, empty')
            (elim (Bool-cases (q.t == n)) [
              | inr more ↦ rw more (take-some k _ q.t q.ct n xs h' (ground arith))
              | inl nothing ↦ rw nothing (take-none k _ q.t q.ct n xs h' (ground arith))
            ])
    ]
