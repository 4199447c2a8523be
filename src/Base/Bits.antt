-- ===== src/Base/Bits.antt =====
-- The bits of a number, and what the word operations do to each of them.
use Prim.Native.Nat.{max, min, bit_and, bit_or, digits, bit_and-bitwise, bit_or-bitwise}
use Prim.Native.Nat.{ℕ, zero, suc, ◌+◌, ◌-◌, ◌*◌, ◌/◌, ◌%◌, ◌^◌, ◌≤◌, ◌<◌}
use mathlib.Core.Path.{◌≡◌, refl, sym, ap, ◌∙◌}
use mathlib.Core.Bool.{Bool, false, not, ◌&&◌, ◌||◌}
use native.Mathlib.Omega.{arith}
use native.Mathlib.Nat.{
  pow-suc, one-le-pow, div-div-eq-div-mul, div-add-mod, mod-lt, mod-eq_of_lt, mul-add-mod_self_left,
}
use orderbook_engine.Base.Tests.{ltb, ◌==◌}

unfoldable pub nth_bit : ℕ → ℕ → Bool
nth_bit zero a = a % 2 == 1
nth_bit (suc k) a = nth_bit k (a / 2)

-- One digit of a bitwise operation, whatever the count of digits to go.
digits_fuel :
    (z : ℕ → ℕ) (f : ℕ → ℕ → ℕ) (n m a b : ℕ) → a ≤ n → a ≤ m → digits z f n a b ≡ digits z f m a b
digits_fuel z f zero zero a b p q = refl
digits_fuel z f zero (suc m) zero b p q = refl
digits_fuel z f zero (suc m) (suc a) b p q = absurd (omega arith)
digits_fuel z f (suc n) zero zero b p q = refl
digits_fuel z f (suc n) zero (suc a) b p q = absurd (omega arith)
digits_fuel z f (suc n) (suc m) zero b p q = refl
digits_fuel z f (suc n) (suc m) (suc a) b p q =
    omega (arith, digits_fuel z f n m (suc a / 2) (b / 2) (omega arith) (omega arith))

digits_step :
    (z : ℕ → ℕ) (f : ℕ → ℕ → ℕ)
    → ((b : ℕ) → z b ≡ z (b / 2) * 2 + f 0 (b % 2))
    → (a b : ℕ) → digits z f a a b ≡ digits z f (a / 2) (a / 2) (b / 2) * 2 + f (a % 2) (b % 2)
digits_step z f hz zero b = hz b
digits_step z f hz (suc a) b =
    omega (arith, digits_fuel z f a (suc a / 2) (suc a / 2) (b / 2) (omega arith) (omega arith))

bit_and_step : (a b : ℕ) → bit_and a b ≡ bit_and (a / 2) (b / 2) * 2 + min (a % 2) (b % 2)
bit_and_step a b = omega (
  arith,
  bit_and-bitwise a b,
  bit_and-bitwise (a / 2) (b / 2),
  digits_step (λ b. zero) min (λ b. omega arith) a b,
)

bit_or_step : (a b : ℕ) → bit_or a b ≡ bit_or (a / 2) (b / 2) * 2 + max (a % 2) (b % 2)
bit_or_step a b = omega (
  arith,
  bit_or-bitwise a b,
  bit_or-bitwise (a / 2) (b / 2),
  digits_step (λ b. b) max (λ b. omega arith) a b,
)

pub nth_bit-bit_and : (k a b : ℕ) → nth_bit k (bit_and a b) ≡ (nth_bit k a && nth_bit k b)
unfolding nth_bit
nth_bit-bit_and zero a b = ground (arith, bit_and_step a b)
nth_bit-bit_and (suc k) a b =
    let e : bit_and a b / 2 ≡ bit_and (a / 2) (b / 2) = omega (arith, bit_and_step a b) in
    rw e (nth_bit-bit_and k (a / 2) (b / 2))

pub nth_bit-bit_or : (k a b : ℕ) → nth_bit k (bit_or a b) ≡ (nth_bit k a || nth_bit k b)
unfolding nth_bit
nth_bit-bit_or zero a b = ground (arith, bit_or_step a b)
nth_bit-bit_or (suc k) a b =
    let e : bit_or a b / 2 ≡ bit_or (a / 2) (b / 2) = omega (arith, bit_or_step a b) in
    rw e (nth_bit-bit_or k (a / 2) (b / 2))

pub nth_bit-zero : (k : ℕ) → nth_bit k 0 ≡ false
unfolding nth_bit
nth_bit-zero zero = refl
nth_bit-zero (suc k) = nth_bit-zero k

-- `1 << s`
pub nth_bit-pow : (k s : ℕ) → nth_bit k (2 ^ s) ≡ k == s
unfolding nth_bit
nth_bit-pow zero zero = refl
nth_bit-pow zero (suc s) = ground (arith, pow-suc 2 s)
nth_bit-pow (suc k) zero = nth_bit-zero k ∙ ground arith
nth_bit-pow (suc k) (suc s) =
    let e : 2 ^ suc s / 2 ≡ 2 ^ s = omega (arith, pow-suc 2 s) in
    rw e (nth_bit-pow k s ∙ ground arith)

-- `(1 << s) - 1`
pub nth_bit-low_mask : (k s : ℕ) → nth_bit k (2 ^ s - 1) ≡ ltb k s
unfolding nth_bit
nth_bit-low_mask k zero = nth_bit-zero k ∙ ground arith
nth_bit-low_mask zero (suc s) = ground (arith, pow-suc 2 s, one-le-pow s 2)
nth_bit-low_mask (suc k) (suc s) =
    let e : (2 ^ suc s - 1) / 2 ≡ 2 ^ s - 1 = omega (arith, pow-suc 2 s) in
    rw e (nth_bit-low_mask k s ∙ ground arith)

-- `~a` in a word of `w` bits
pub nth_bit-not : (k w a : ℕ) → k < w → a < 2 ^ w → nth_bit k (2 ^ w - 1 - a) ≡ not (nth_bit k a)
unfolding nth_bit
nth_bit-not k zero a lt fit = absurd (omega arith)
nth_bit-not zero (suc w) a lt fit = ground (arith, pow-suc 2 w)
nth_bit-not (suc k) (suc w) a lt fit =
    let e : (2 ^ suc w - 1 - a) / 2 ≡ 2 ^ w - 1 - a / 2 = omega (arith, pow-suc 2 w) in
    rw e (nth_bit-not k w (a / 2) (omega arith) (omega (arith, pow-suc 2 w)))

bit_and-zero_within : (bound x : ℕ) → x ≤ bound → bit_and x 0 ≡ 0
bit_and-zero_within bound zero le = refl
bit_and-zero_within zero (suc x) le = absurd (omega arith)
bit_and-zero_within (suc bound) (suc x) le =
    let half = bit_and-zero_within bound (suc x / 2) (omega arith) in
    omega (arith, half, bit_and_step (suc x) 0)

mod_double : (a p : ℕ) → 0 < p → a % (p * 2) ≡ a / 2 % p * 2 + a % 2
mod_double a p pos =
    let q = a / 2 / p in
    let r = a / 2 % p in
    let e : a / 2 ≡ p * q + r = sym (div-add-mod (a / 2) p) in
    let lt : r < p = mod-lt (a / 2) pos in
    let split : a ≡ p * 2 * q + (r * 2 + a % 2) = omega arith in
    ap (λ (t : ℕ). t % (p * 2)) split
    ∙ mul-add-mod_self_left (p * 2) q (r * 2 + a % 2)
    ∙ mod-eq_of_lt (omega arith)

-- A mask of `k` ones is the remainder by `2 ^ k`.
pub bit_and-mask : (k a : ℕ) → bit_and a (2 ^ k - 1) ≡ a % 2 ^ k
bit_and-mask zero a = bit_and-zero_within a a (omega arith) ∙ omega arith
bit_and-mask (suc k) a =
    let pos : 1 ≤ 2 ^ k = one-le-pow k 2 (omega arith) in
    let half : (2 ^ suc k - 1) / 2 ≡ 2 ^ k - 1 = omega (arith, pow-suc 2 k) in
    let odd : (2 ^ suc k - 1) % 2 ≡ 1 = omega (arith, pow-suc 2 k) in
    let e : a % 2 ^ suc k ≡ a / 2 % 2 ^ k * 2 + a % 2 =
      ap (λ (t : ℕ). a % t) (pow-suc 2 k) ∙ mod_double a (2 ^ k) pos in
    rw (bit_and_step a (2 ^ suc k - 1), half, odd, bit_and-mask k (a / 2)) (omega arith)

nth_bit-div : (k a : ℕ) → nth_bit k a ≡ (a / 2 ^ k % 2 == 1)
unfolding nth_bit
nth_bit-div zero a = ground arith
nth_bit-div (suc k) a =
    let e : a / 2 / 2 ^ k ≡ a / 2 ^ suc k =
      div-div-eq-div-mul a 2 (2 ^ k) ∙ ap (λ (t : ℕ). a / t) (omega (arith, pow-suc 2 k)) in
    nth_bit-div k (a / 2) ∙ ap (λ (t : ℕ). t % 2 == 1) e

-- `(a >> k) & 1`
pub nth_bit-shr : (k a : ℕ) → (bit_and (a / 2 ^ k) 1 == 1) ≡ nth_bit k a
nth_bit-shr k a = ap (λ (t : ℕ). t == 1) (bit_and-mask 1 (a / 2 ^ k)) ∙ sym (nth_bit-div k a)

pub bit_or-lt : (w a b : ℕ) → a < 2 ^ w → b < 2 ^ w → bit_or a b < 2 ^ w
bit_or-lt zero zero zero p q = omega arith
bit_or-lt zero zero (suc b) p q = absurd (omega arith)
bit_or-lt zero (suc a) b p q = absurd (omega arith)
bit_or-lt (suc w) a b p q =
    let e = pow-suc 2 w in
    omega (arith, bit_or_step a b, bit_or-lt w (a / 2) (b / 2) (omega arith) (omega arith))

pub bit_and-lt : (w a b : ℕ) → a < 2 ^ w → bit_and a b < 2 ^ w
bit_and-lt zero zero b p = omega (arith, bit_and-bitwise 0 b)
bit_and-lt zero (suc a) b p = absurd (omega arith)
bit_and-lt (suc w) a b p =
    let e = pow-suc 2 w in
    omega (arith, bit_and_step a b, bit_and-lt w (a / 2) (b / 2) (omega arith))

bit_or-zero_within : (bound x : ℕ) → x ≤ bound → bit_or x 0 ≡ x
bit_or-zero_within bound zero le = refl
bit_or-zero_within zero (suc x) le = absurd (omega arith)
bit_or-zero_within (suc bound) (suc x) le =
    let half = bit_or-zero_within bound (suc x / 2) (omega arith) in
    omega (arith, half, bit_or_step (suc x) 0)

-- Numbers whose bits are apart are put together by `bit_or`.
pub bit_or-add : (k a b : ℕ) → b < 2 ^ k → bit_or (a * 2 ^ k) b ≡ a * 2 ^ k + b
bit_or-add zero a b lt =
    let e : b ≡ 0 = omega arith in
    let one : a * 2 ^ 0 ≡ a = omega arith in
    rw (e, one) (bit_or-zero_within a a (omega arith) ∙ omega arith)
bit_or-add (suc k) a b lt =
    let e : a * 2 ^ suc k ≡ a * 2 ^ k * 2 = rw (pow-suc 2 k) (omega arith) in
    let rest = bit_or-add k a (b / 2) (omega (arith, pow-suc 2 k)) in
    let half : a * 2 ^ k * 2 / 2 ≡ a * 2 ^ k = omega arith in
    let h : bit_or (a * 2 ^ k * 2 / 2) (b / 2) ≡ a * 2 ^ k + b / 2 =
      ap (λ (t : ℕ). bit_or t (b / 2)) half ∙ rest in
    rw e (omega (arith, bit_or_step (a * 2 ^ k * 2) b, h))
