-- ===== src/Bitmap/Bit.antt =====
-- The bits of the bitmap under `set`, `clear` and `test`.
use orderbook_engine.Base.{
  ℕ, ◌/◌, ◌%◌, ◌^◌, ◌≤◌, ◌<◌, ◌≡◌, Bool, true, false, ◌==◌, arith, if◌then◌else◌, update,
  Bool-cases, inl, inr,
}
use native.Mathlib.Nat.{pow-le-pow_right}
use orderbook_engine.Base.Bits.{
  nth_bit, nth_bit-bit_and, nth_bit-bit_or, nth_bit-pow, nth_bit-shr, bit_or-lt, bit_and-lt,
}
use orderbook_engine.Base.Word.{not64, shl64, nth_bit-not64, shl_one}
use orderbook_engine.Bitmap.{Bitmap, new, set, clear, test}

-- Every word of the array is a word of 64 bits.
abbrev pub IsWords : Bitmap → Type 0
IsWords b = (w : ℕ) → b.words w < 2 ^ 64

-- The bit at an index.
abbrev pub bit_at : Bitmap → ℕ → Bool
bit_at b idx = nth_bit (idx % 64) (b.words (idx / 64))

-- `test` reads the bit.
pub test_lem : (b : Bitmap) (idx : ℕ) → test b idx ≡ bit_at b idx
unfolding test
test_lem b idx = nth_bit-shr (idx % 64) (b.words (idx / 64))

pow-lt : (s : ℕ) → s < 64 → 2 ^ s < 2 ^ 64
pow-lt s lt =
    let hi : 2 ^ s ≤ 2 ^ 63 = pow-le-pow_right {n = 2} (omega arith) {j = 63} (omega arith) in
    omega arith

pub bit_at-set : (b : Bitmap) (i j : ℕ) → bit_at (set b i) j ≡ (if j == i then true else bit_at b j)
unfolding set update
bit_at-set b i j =
    let s = shl_one (i % 64) (omega arith) in
    elim (Bool-cases (j / 64 == i / 64)) [
      | inl e ↦ rw (e, s, nth_bit-bit_or, nth_bit-pow) (ground arith)
      | inr ne ↦ rw ne (ground arith)
    ]

pub bit_at-clear :
    (b : Bitmap) (i j : ℕ) → bit_at (clear b i) j ≡ (if j == i then false else bit_at b j)
unfolding clear update
bit_at-clear b i j =
    let s = shl_one (i % 64) (omega arith) in
    elim (Bool-cases (j / 64 == i / 64)) [
      | inl e ↦
          rw
            (
              e,
              s,
              nth_bit-bit_and,
              nth_bit-not64 (j % 64) (2 ^ (i % 64)) (omega arith) (pow-lt (i % 64) (omega arith)),
              nth_bit-pow,
            )
            (ground arith)
      | inr ne ↦ rw ne (ground arith)
    ]

-- `set` sets the bit of its index and no other.
pub test-set : (b : Bitmap) (i j : ℕ) → test (set b i) j ≡ (if j == i then true else test b j)
test-set b i j = rw (test_lem (set b i) j, test_lem b j) (bit_at-set b i j)

-- `clear` clears the bit of its index and no other.
pub test-clear : (b : Bitmap) (i j : ℕ) → test (clear b i) j ≡ (if j == i then false else test b j)
test-clear b i j = rw (test_lem (clear b i) j, test_lem b j) (bit_at-clear b i j)

pub new-IsWords : (n : ℕ) → IsWords (new n)
unfolding new
new-IsWords n w = omega arith

pub set-IsWords : (b : Bitmap) (i : ℕ) → IsWords b → IsWords (set b i)
unfolding set update
set-IsWords b i h w =
    let s : shl64 1 (i % 64) < 2 ^ 64 =
      rw (shl_one (i % 64) (omega arith)) (pow-lt (i % 64) (omega arith)) in
    ground (arith, h w, bit_or-lt 64 (b.words (i / 64)) (shl64 1 (i % 64)) (h (i / 64)) s)

pub clear-IsWords : (b : Bitmap) (i : ℕ) → IsWords b → IsWords (clear b i)
unfolding clear update
clear-IsWords b i h w =
    ground (arith, h w, bit_and-lt 64 (b.words (i / 64)) (not64 (shl64 1 (i % 64))) (h (i / 64)))
