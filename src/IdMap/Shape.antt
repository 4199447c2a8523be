-- ===== src/IdMap/Shape.antt =====
-- A table of `2 ^ k` slots: the index arithmetic by masks is that of the circle.
use Prim.Native.Nat.{bit_and}
use orderbook_engine.Base.{
  ℕ, zero, suc, ◌+◌, ◌-◌, ◌*◌, ◌%◌, ◌^◌, ◌≤◌, ◌<◌, ◌≡◌, ◌∙◌, ap, arith, leb, ◌==◌, ==→eq,
  Bool-cases, inl, inr,
}
use orderbook_engine.Base.Bits.{bit_and-mask}
use orderbook_engine.Base.Modulo.{pow-add}
use orderbook_engine.IdMap.{IdMap, hash, ideal_slot, next_slot, displacement, capacity}
use orderbook_engine.IdMap.Circle.{step, gap}
use native.Mathlib.Nat.{
  one-le-pow, pow-le-pow_right, mod_self, mod-lt, mod-eq_of_lt, mul-add-mod_self_left,
}

-- The table has `2 ^ k` slots.
pub record HasWidth (k : ℕ) (m : IdMap) : Type 0 where
  pub width : m.mask ≡ 2 ^ k - 1
  pub pos : 1 ≤ k
  pub bound : k < 64

pub capacity-HasWidth : (k : ℕ) (m : IdMap) → HasWidth k m → capacity m ≡ 2 ^ k
capacity-HasWidth k m w = let p = one-le-pow k 2 (omega arith) in omega (arith, w.width)

small : (k : ℕ) → k < 64 → 2 ^ k ≤ 2 ^ 63
small k lt = pow-le-pow_right {n = 2} (omega arith) {j = 63} (omega arith)

pub bit_and-width : (k : ℕ) (m : IdMap) (x : ℕ) → HasWidth k m → bit_and x m.mask ≡ x % 2 ^ k
bit_and-width k m x w = ap (bit_and x) w.width ∙ bit_and-mask k x

pub ideal_slot-lt : (k : ℕ) (m : IdMap) (id : ℕ) → HasWidth k m → ideal_slot m id < 2 ^ k
unfolding ideal_slot
ideal_slot-lt k m id w =
    rw (bit_and-width k m (hash id) w) (mod-lt (hash id) (one-le-pow k 2 (omega arith)))

pub next_slot-step :
    (k : ℕ) (m : IdMap) (i : ℕ) → HasWidth k m → i < 2 ^ k → next_slot m i ≡ step (2 ^ k) i
unfolding next_slot step
next_slot-step k m i w lt =
    let s = small k w.bound in
    let e : (i + 1) % 2 ^ 64 ≡ i + 1 = omega arith in
    rw (e, bit_and-width k m (i + 1) w)
      (elim (Bool-cases ((i + 1) == 2 ^ k)) [
        | inl end ↦
            rw end (let q : i + 1 ≡ 2 ^ k = ==→eq (i + 1) (2 ^ k) end in rw q (mod_self (2 ^ k)))
        | inr inside ↦ rw inside (mod-eq_of_lt (ground arith))
      ])

-- A number just below a multiple of `p`.
below_multiple : (p q t : ℕ) → 1 ≤ q → 0 < t → t < p → (p * q - t) % p ≡ p - t
below_multiple p zero t lq lt lp = absurd (omega arith)
below_multiple p (suc q) t lq lt lp =
    let e : p * suc q - t ≡ p * q + (p - t) = omega arith in
    rw e (mul-add-mod_self_left p q (p - t) ∙ mod-eq_of_lt (omega arith))

pub displacement-gap :
    (k : ℕ) (m : IdMap) (i id : ℕ)
    → HasWidth k m
    → i < 2 ^ k
    → displacement m i id ≡ gap (2 ^ k) (ideal_slot m id) i
unfolding displacement gap
displacement-gap k m i id w lt =
    let s = small k w.bound in
    let h = ideal_slot m id in
    let lh : h < 2 ^ k = ideal_slot-lt k m id w in
    let total : ◌≡◌ {A = ℕ} 64 (k + (64 - k)) = omega (arith, w.bound) in
    let split : 2 ^ 64 ≡ 2 ^ k * 2 ^ (64 - k) = ap (λ (t : ℕ). 2 ^ t) total ∙ pow-add k (64 - k) in
    let pos : 1 ≤ 2 ^ (64 - k) = one-le-pow (64 - k) 2 (omega arith) in
    rw (bit_and-width k m ((i + 2 ^ 64 - h) % 2 ^ 64) w) (elim (Bool-cases (leb h i)) [
      | inl le ↦
          let e : (i + 2 ^ 64 - h) % 2 ^ 64 ≡ i - h = ground arith in
          rw (le, e) (mod-eq_of_lt (omega arith))
      | inr gt ↦
          let e : (i + 2 ^ 64 - h) % 2 ^ 64 ≡ 2 ^ 64 - (h - i) = ground arith in
          rw (gt, e, split)
            (below_multiple (2 ^ k) (2 ^ (64 - k)) (h - i) pos (ground arith) (omega arith)
              ∙ ground arith)
    ])
