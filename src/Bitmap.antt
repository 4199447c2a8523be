-- ===== src/Bitmap.antt =====
-- `Bitmap` of include/lob/bitmap.hpp. The array of words is a function from indices, and
-- `kNotFound` is `none`. `idx >> 6` and `idx & 63` are `idx / 64` and `idx % 64`.
pub mod Bit
pub mod Scan
pub mod ScanDown
use Prim.Native.Nat.{bit_and, bit_or}
use orderbook_engine.Base.{
  ℕ, zero, suc, ◌+◌, ◌-◌, ◌*◌, ◌/◌, ◌%◌, ◌^◌, Bool, Option, none, some, ltb, leb, ◌==◌,
  if◌then◌else◌, update,
}
use orderbook_engine.Base.Word.{not64, shl64, countr_zero, countl_zero}

pub record Bitmap : Type 0 where
  pub num_words : ℕ
  pub words : ℕ → ℕ

unfoldable pub new : ℕ → Bitmap
new num_bits = record { num_words = (num_bits + 63) / 64; words = λ w. 0 }

unfoldable pub set : Bitmap → ℕ → Bitmap
set b idx = record b {
  words = update b.words (idx / 64) (bit_or (b.words (idx / 64)) (shl64 1 (idx % 64)));
}

unfoldable pub clear : Bitmap → ℕ → Bitmap
clear b idx = record b {
  words = update b.words (idx / 64) (bit_and (b.words (idx / 64)) (not64 (shl64 1 (idx % 64))));
}

unfoldable pub test : Bitmap → ℕ → Bool
test b idx = bit_and (b.words (idx / 64) / 2 ^ (idx % 64)) 1 == 1

-- `while (bits == 0) { if (++w >= num_words_) return kNotFound; bits = words_[w]; }`, and the
-- lowest bit of the word at which it stops. `k` bounds the rounds.
unfoldable pub scan_up : (k : ℕ) → Bitmap → (w bits : ℕ) → Option ℕ
scan_up zero b w bits = none
scan_up (suc k) b w bits =
    let rest = scan_up k b (w + 1) (b.words (w + 1)) in
    let on = if leb b.num_words (w + 1) then none else rest in
    if bits == 0 then on else some (w * 64 + countr_zero 64 bits)

unfoldable pub find_next_set : Bitmap → ℕ → Option ℕ
find_next_set b from =
    if leb b.num_words (from / 64)
    then none
    else scan_up b.num_words b (from / 64)
        (bit_and (b.words (from / 64)) (shl64 (2 ^ 64 - 1) (from % 64)))

-- `while (bits == 0) { if (w == 0) return kNotFound; bits = words_[--w]; }`, and the highest bit
-- of the word at which it stops.
unfoldable pub scan_down : Bitmap → (w bits : ℕ) → Option ℕ
scan_down b zero bits = if bits == 0 then none else some (0 * 64 + 63 - countl_zero 64 bits)
scan_down b (suc w) bits =
    let rest = scan_down b w (b.words w) in
    if bits == 0 then rest else some (suc w * 64 + 63 - countl_zero 64 bits)

-- The bits at positions up to `r`.
unfoldable pub mask_up_to : ℕ → ℕ
mask_up_to r = if r == 63 then 2 ^ 64 - 1 else shl64 1 (r + 1) - 1

unfoldable pub find_prev_set : Bitmap → ℕ → Option ℕ
find_prev_set b from =
    if leb b.num_words (from / 64)
    then (if b.num_words == 0
        then none
        else scan_down b (b.num_words - 1) (b.words (b.num_words - 1)))
    else scan_down b (from / 64) (bit_and (b.words (from / 64)) (mask_up_to (from % 64)))
