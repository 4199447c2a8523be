-- ===== src/Base/Sums.antt =====
-- Sums over the indices below a bound.
use Prim.Native.Nat.{ℕ, zero, suc, ◌+◌, ◌<◌, ◌≤◌}
use mathlib.Core.Path.{◌≡◌, refl, ap}
use mathlib.Core.Logic.{◌≢◌, inl, inr}
use native.Mathlib.Omega.{arith}
use orderbook_engine.Base.Tests.{◌==◌, ==→eq, ==→ne, Bool-cases}

-- The sum of `f` over the indices below `n`.
abbrev pub sum : (ℕ → ℕ) → ℕ → ℕ
sum f zero = 0
sum f (suc n) = f n + sum f n

pub sum-zero : (f : ℕ → ℕ) (n : ℕ) → ((j : ℕ) → j < n → f j ≡ 0) → sum f n ≡ 0
sum-zero f zero h = refl
sum-zero f (suc n) h = omega (arith, h n (omega arith), sum-zero f n (λ j lt. h j (omega arith)))

pub sum-same : (f g : ℕ → ℕ) (n : ℕ) → ((j : ℕ) → j < n → f j ≡ g j) → sum f n ≡ sum g n
sum-same f g zero h = refl
sum-same f g (suc n) h =
    omega (arith, h n (omega arith), sum-same f g n (λ j lt. h j (omega arith)))

pub part-sum : (f : ℕ → ℕ) (n j : ℕ) → j < n → f j ≤ sum f n
part-sum f zero j lt = absurd (omega arith)
part-sum f (suc n) j lt = elim (Bool-cases (n == j)) [
  | inl e ↦ (let at = ap f (==→eq n j e) in omega (arith, at))
  | inr ne ↦ (let rest = part-sum f n j (ground arith) in omega (arith, rest))
]

-- One index is taken out of the sum.
pub sum-split :
    (f g : ℕ → ℕ) (n i : ℕ)
    → i < n
    → g i ≡ 0
    → ((j : ℕ) → j < n → j ≢ i → f j ≡ g j)
    → sum f n ≡ f i + sum g n
sum-split f g zero i lt z same = absurd (omega arith)
sum-split f g (suc n) i lt z same = elim (Bool-cases (n == i)) [
  | inl e ↦
      let at = ==→eq n i e in
      let h = sum-same f g n (λ j lt. same j (omega arith) (λ (q : j ≡ i). absurd (omega arith))) in
      let fi = ap f at in let gi = ap g at in omega (arith, h, fi, gi, z)
  | inr ne ↦
      let s = same n (omega arith) (==→ne n i ne) in
      let r = sum-split f g n i (ground arith) z (λ j lt. same j (omega arith)) in
      omega (arith, s, r)
]
