-- ===== src/Base/Modulo.antt =====
-- Remainders by powers of two.
use Prim.Native.Nat.{ℕ, zero, suc, ◌+◌, ◌-◌, ◌*◌, ◌/◌, ◌%◌, ◌^◌, ◌≤◌, ◌<◌}
use mathlib.Core.Path.{◌≡◌, sym, ap, ◌∙◌}
use mathlib.Core.Logic.{◌≢◌, inl, inr}
use native.Mathlib.Omega.{arith}
use native.Mathlib.Nat.{
  pow-suc, mul_assoc, mod-lt, mod-eq_of_lt, mod-eq-sub-mod, mod-add-mod, div-add-mod,
  mul-add-mod_self_left,
}
use orderbook_engine.Base.Tests.{leb, Bool-cases}

pub pow-add : (k d : ℕ) → 2 ^ (k + d) ≡ 2 ^ k * 2 ^ d
pow-add k zero = let e : k + 0 ≡ k = omega arith in rw e (omega arith)
pow-add k (suc d) =
    let e : k + suc d ≡ suc (k + d) = omega arith in
    rw (e, pow-suc 2 (k + d), pow-suc 2 d, pow-add k d) (mul_assoc (2 ^ k) (2 ^ d) 2)

-- The remainder of a word.
pub mod-word : (k x : ℕ) → k < 64 → x % 2 ^ 64 % 2 ^ k ≡ x % 2 ^ k
mod-word k x lt =
    let total : ◌≡◌ {A = ℕ} 64 (k + (64 - k)) = omega arith in
    let split : 2 ^ 64 ≡ 2 ^ k * 2 ^ (64 - k) = ap (λ (t : ℕ). 2 ^ t) total ∙ pow-add k (64 - k) in
    let q = x / 2 ^ 64 in
    let r = x % 2 ^ 64 in
    let e : x ≡ 2 ^ k * (2 ^ (64 - k) * q) + r =
      sym (div-add-mod x (2 ^ 64))
      ∙ ap (λ (t : ℕ). t * q + r) split
      ∙ ap (λ (t : ℕ). t + r) (mul_assoc (2 ^ k) (2 ^ (64 - k)) q) in
    sym (mul-add-mod_self_left (2 ^ k) (2 ^ (64 - k) * q) r) ∙ ap (λ (t : ℕ). t % 2 ^ k) (sym e)

-- Numbers less than `n` apart have different remainders.
pub mod-ne : (n a d : ℕ) → 0 < d → d < n → (a + d) % n ≢ a % n
mod-ne n a d pos lt same =
    let r = a % n in
    let small : r < n = mod-lt a (omega arith) in
    let e : (r + d) % n ≡ r = mod-add-mod a n d ∙ same in
    elim (Bool-cases (leb n (r + d))) [
      | inl over ↦
          let le : n ≤ r + d = ground arith in
          let f = mod-eq-sub-mod le in
          let g : (r + d - n) % n ≡ r + d - n = mod-eq_of_lt (omega arith) in omega arith
      | inr under ↦ let g : (r + d) % n ≡ r + d = mod-eq_of_lt (ground arith) in omega arith
    ]
