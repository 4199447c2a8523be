-- ===== src/Base/Word.antt =====
-- Words of 64 bits and the functions of the header <bit> on them.
use Prim.Native.Nat.{ℕ, zero, suc, ◌-◌, ◌*◌, ◌/◌, ◌%◌, ◌^◌, ◌≤◌, ◌<◌}
use mathlib.Core.Path.{◌≡◌, refl}
use mathlib.Core.Logic.{◌≢◌, inl, inr}
use mathlib.Core.Bool.{true, false, not}
use native.Mathlib.Omega.{arith}
use native.Mathlib.Nat.{pow-suc, one-le-pow, pow-le-pow_right}
use orderbook_engine.Base.Tests.{leb, ◌==◌, if◌then◌else◌, Bool-cases}
use orderbook_engine.Base.Bits.{nth_bit, nth_bit-zero, nth_bit-not, nth_bit-low_mask}

-- `~a`
unfoldable pub not64 : ℕ → ℕ
not64 a = 2 ^ 64 - 1 - a

-- `a << k`
unfoldable pub shl64 : ℕ → ℕ → ℕ
shl64 a k = a * 2 ^ k % 2 ^ 64

-- `std::countr_zero` on a word of `w` bits: the zeros below the lowest bit that is set.
unfoldable pub countr_zero : (w : ℕ) → ℕ → ℕ
countr_zero zero a = 0
countr_zero (suc w) a = if a % 2 == 1 then 0 else suc (countr_zero w (a / 2))

-- The bits up to the highest that is set, and `std::countl_zero`: the zeros above it.
unfoldable pub bit_width : (w : ℕ) → ℕ → ℕ
bit_width zero a = 0
bit_width (suc w) a = if a == 0 then 0 else suc (bit_width w (a / 2))

unfoldable pub countl_zero : (w : ℕ) → ℕ → ℕ
countl_zero w a = w - bit_width w a

pub nth_bit-not64 : (k a : ℕ) → k < 64 → a < 2 ^ 64 → nth_bit k (not64 a) ≡ not (nth_bit k a)
unfolding not64
nth_bit-not64 k a lt fit = nth_bit-not k 64 a lt fit

clear_below :
    (m a : ℕ)
    → nth_bit 0 a ≡ false
    → ((j : ℕ) → j < m → nth_bit j (a / 2) ≡ false)
    → (j : ℕ) → j < suc m
    → nth_bit j a ≡ false
unfolding nth_bit
clear_below m a e h zero lt = e
clear_below m a e h (suc j) lt = h j (omega arith)

clear_above :
    (m a : ℕ)
    → ((j : ℕ) → m < j → nth_bit j (a / 2) ≡ false)
    → (j : ℕ) → suc m < j
    → nth_bit j a ≡ false
unfolding nth_bit
clear_above m a h zero lt = absurd (omega arith)
clear_above m a h (suc j) lt = h j (omega arith)

-- The lowest bit that is set.
pub countr_zero_lem :
    (w a : ℕ)
    → a < 2 ^ w
    → a ≢ 0
    → (countr_zero w a < w)
      × (nth_bit (countr_zero w a) a ≡ true)
      × ((j : ℕ) → j < countr_zero w a → nth_bit j a ≡ false)
unfolding countr_zero nth_bit
countr_zero_lem zero a fit ne = absurd (omega arith)
countr_zero_lem (suc w) a fit ne = elim (Bool-cases (a % 2 == 1)) [
  | inl odd ↦ rw odd (omega arith, odd, λ j lt. absurd (omega arith))
  | inr even ↦
      let (lt, set, below) =
        countr_zero_lem w (a / 2) (omega (arith, pow-suc 2 w)) (ground arith) in
      rw even (omega arith, set, clear_below (countr_zero w (a / 2)) a even below)
]

bit_width-zero : (w : ℕ) → bit_width w 0 ≡ 0
unfolding bit_width
bit_width-zero zero = refl
bit_width-zero (suc w) = refl

one_above : (a : ℕ) → a / 2 ≡ 0 → (j : ℕ) → 0 < j → nth_bit j a ≡ false
unfolding nth_bit
one_above a e zero lt = absurd (omega arith)
one_above a e (suc j) lt = rw e (nth_bit-zero j)

-- The highest bit that is set.
abbrev pub IsHighest : (w a k : ℕ) → Type 0
IsHighest w a k =
    (bit_width w a ≡ suc k)
    × (k < w)
    × (nth_bit k a ≡ true)
    × ((j : ℕ) → k < j → nth_bit j a ≡ false)

pub bit_width_lem : (w a : ℕ) → a < 2 ^ w → a ≢ 0 → (k : ℕ) × IsHighest w a k
unfolding bit_width nth_bit
bit_width_lem zero a fit ne = absurd (omega arith)
bit_width_lem (suc w) a fit ne = elim (Bool-cases (a / 2 == 0)) [
  | inl one ↦ (
    0,
    (
      (let e : a / 2 ≡ 0 = ground arith in
          let nz : (a == 0) ≡ false = ground arith in rw (nz, e, bit_width-zero w)),
      omega arith,
      ground arith,
      one_above a (ground arith),
    ),
  )
  | inr more ↦
      let (k, (e, lt, set, above)) =
        bit_width_lem w (a / 2) (omega (arith, pow-suc 2 w)) (ground arith) in
      let nz : (a == 0) ≡ false = ground arith in
      (suc k, (rw (nz, e), omega arith, set, clear_above k a above))
]

shl_ones_lem : (s : ℕ) → s < 64 → shl64 (2 ^ 64 - 1) s ≡ 2 ^ 64 - 1 - (2 ^ s - 1)
unfolding shl64
shl_ones_lem s lt =
    let lo : 1 ≤ 2 ^ s = one-le-pow s 2 (omega arith) in
    let hi : 2 ^ s ≤ 2 ^ 63 = pow-le-pow_right {n = 2} (omega arith) {j = 63} (omega arith) in
    omega arith

-- `~0 << s`: the bits from `s` up.
pub nth_bit-shl_ones : (k s : ℕ) → k < 64 → s < 64 → nth_bit k (shl64 (2 ^ 64 - 1) s) ≡ leb s k
nth_bit-shl_ones k s lt ls =
    let hi : 2 ^ s ≤ 2 ^ 63 = pow-le-pow_right {n = 2} (omega arith) {j = 63} (omega arith) in
    rw (shl_ones_lem s ls, nth_bit-not k 64 (2 ^ s - 1) lt (omega arith), nth_bit-low_mask k s)
      (ground arith)

-- `1 << s`
pub shl_one : (s : ℕ) → s < 64 → shl64 1 s ≡ 2 ^ s
unfolding shl64
shl_one s lt =
    let hi : 2 ^ s ≤ 2 ^ 63 = pow-le-pow_right {n = 2} (omega arith) {j = 63} (omega arith) in
    omega arith

-- A number has as many bits as the power of two above it says.
pub bit_width_bounds :
    (w a : ℕ) → a < 2 ^ w → a ≢ 0 → (2 ^ bit_width w a ≤ 2 * a) × (a < 2 ^ bit_width w a)
unfolding bit_width
bit_width_bounds zero a fit ne = absurd (omega arith)
bit_width_bounds (suc w) a fit ne =
    let nz : (a == 0) ≡ false = ground arith in
    rw nz (elim (Bool-cases (a / 2 == 0)) [
      | inl one ↦
          let e : a / 2 ≡ 0 = ground arith in rw (e, bit_width-zero w) (omega arith, omega arith)
      | inr more ↦
          let (lo, hi) = bit_width_bounds w (a / 2) (omega (arith, pow-suc 2 w)) (ground arith) in
          let p = pow-suc 2 (bit_width w (a / 2)) in (omega arith, omega arith)
    ])

pub bit_width-lt : (w b a : ℕ) → a < 2 ^ b → b ≤ w → bit_width w a ≤ b
unfolding bit_width
bit_width-lt zero b a fit le = omega arith
bit_width-lt (suc w) zero a fit le = let z : (a == 0) ≡ true = ground arith in rw z (omega arith)
bit_width-lt (suc w) (suc b) a fit le =
    let h = bit_width-lt w b (a / 2) (omega (arith, pow-suc 2 b)) (omega arith) in ground arith
