-- ===== src/Bitmap/Scan.antt =====
-- The search upwards for the next set bit.
use Prim.Native.Nat.{bit_and}
use mathlib.Core.Path.{subst}
use orderbook_engine.Base.{
  ℕ, zero, suc, ◌+◌, ◌-◌, ◌*◌, ◌/◌, ◌%◌, ◌^◌, ◌≤◌, ◌<◌, ◌≡◌, ◌≢◌, ◌∙◌, true, false, ◌&&◌, Option,
  none, some, ltb, leb, ◌==◌, ==→eq, arith, Bool-cases, inl, inr,
}
use orderbook_engine.Base.Bits.{nth_bit, nth_bit-zero, nth_bit-bit_and, bit_and-lt}
use orderbook_engine.Base.Word.{shl64, countr_zero, countr_zero_lem, nth_bit-shl_ones}
use orderbook_engine.Bitmap.{Bitmap, scan_up, find_next_set}
use orderbook_engine.Bitmap.Bit.{IsWords, bit_at}

-- What a search upwards for the next set index from `from` may answer.
abbrev pub IsNext : Bitmap → (from : ℕ) → Option ℕ → Type 0
IsNext b from none = (j : ℕ) → from ≤ j → j < b.num_words * 64 → bit_at b j ≡ false
IsNext b from (some i) =
    (from ≤ i)
    × (i < b.num_words * 64)
    × (bit_at b i ≡ true)
    × ((j : ℕ) → from ≤ j → j < i → bit_at b j ≡ false)

-- The loop is at word `w`, with all of its bits from `from` up in `bits`.
record AtUp (b : Bitmap) (from w bits : ℕ) : Type 0 where
  in_array : w < b.num_words
  past : from < w * 64 + 64
  word : bits < 2 ^ 64
  bits_lem : (r : ℕ) → r < 64 → nth_bit r bits ≡ (leb from (w * 64 + r) && bit_at b (w * 64 + r))
  below : (j : ℕ) → from ≤ j → j < w * 64 → bit_at b j ≡ false

module _ (b : Bitmap) (words : IsWords b) where
  bit_at-word : (w r : ℕ) → r < 64 → nth_bit r (b.words w) ≡ bit_at b (w * 64 + r)
  bit_at-word w r lt =
      let e : (w * 64 + r) / 64 ≡ w = omega arith in
      let f : (w * 64 + r) % 64 ≡ r = omega arith in rw (e, f)

  -- The bit at an index of word `w`.
  AtUp-bit :
      {from w bits : ℕ} (j : ℕ)
      → AtUp b from w bits
      → from ≤ j
      → j < w * 64 + 64
      → (w * 64 ≤ j → nth_bit (j - w * 64) bits ≡ false)
      → bit_at b j ≡ false
  AtUp-bit {from} {w} {bits} j a le lt clear = elim (Bool-cases (ltb j (w * 64))) [
    | inl before ↦ a.below j le (ground arith)
    | inr within ↦
        let le' : w * 64 ≤ j = ground arith in
        let off = clear le' in
        let e : w * 64 + (j - w * 64) ≡ j = omega arith in
        let h = rw e at (a.bits_lem (j - w * 64) (omega arith)) in ground arith
  ]

  AtUp-found :
      {from w bits : ℕ}
      → AtUp b from w bits
      → bits ≢ 0
      → IsNext b from (some (w * 64 + countr_zero 64 bits))
  AtUp-found {from} {w} {bits} a ne =
      let (lt, set, low) = countr_zero_lem 64 bits a.word ne in
      let c = countr_zero 64 bits in
      let h = a.bits_lem c lt in
      (
        ground arith,
        omega (arith, a.in_array),
        ground arith,
        λ j le below. AtUp-bit j a le (omega arith) (λ le'. low (j - w * 64) (omega arith)),
      )

  AtUp-next :
      {from w : ℕ} → AtUp b from w 0 → w + 1 < b.num_words → AtUp b from (w + 1) (b.words (w + 1))
  AtUp-next {from} {w} a lt = record {
    in_array = lt;
    past = omega (arith, a.past);
    word = words (w + 1);
    bits_lem = λ r le. bit_at-word (w + 1) r le ∙ (let p = a.past in ground arith);
    below = λ j le lt'. AtUp-bit j a le (omega arith) (λ _. nth_bit-zero (j - w * 64));
  }

  scan_up-IsNext :
      (k from w bits : ℕ)
      → AtUp b from w bits
      → b.num_words < w + k + 1
      → IsNext b from (scan_up k b w bits)
  unfolding scan_up
  scan_up-IsNext zero from w bits a enough = absurd (omega (arith, a.in_array))
  scan_up-IsNext (suc k) from w bits a enough = elim (Bool-cases (bits == 0)) [
    | inr more ↦ rw more (AtUp-found a (ground arith))
    | inl clear ↦
        let a₀ = subst (AtUp b from w) (==→eq bits 0 clear) a in
        elim (Bool-cases (leb b.num_words (w + 1))) [
          | inl end ↦
              rw (clear, end)
                (λ j le lt. AtUp-bit j a₀ le (ground arith) (λ _. nth_bit-zero (j - w * 64)))
          | inr on ↦
              rw (clear, on)
                (scan_up-IsNext k from (w + 1) (b.words (w + 1)) (AtUp-next a₀ (ground arith))
                  (omega arith))
        ]
  ]

  -- Where every word has 64 bits, `find_next_set` answers the smallest set index from `from` up, and that there is none exactly
  -- if none is set.
  pub find_next_set_lem : (from : ℕ) → IsNext b from (find_next_set b from)
  unfolding find_next_set
  find_next_set_lem from = elim (Bool-cases (leb b.num_words (from / 64))) [
    | inl out ↦
        rw out (λ j le lt. absurd (let h : b.num_words ≤ from / 64 = ground arith in omega arith))
    | inr inside ↦ rw inside (
        scan_up-IsNext b.num_words from (from / 64)
          (bit_and (b.words (from / 64)) (shl64 (2 ^ 64 - 1) (from % 64)))
          (record {
            in_array = ground arith;
            past = omega arith;
            word = bit_and-lt 64 (b.words (from / 64)) _ (words (from / 64));
            bits_lem = λ r lt.
                (let f : (from / 64 * 64 + r) / 64 ≡ from / 64 = omega arith in
                  let g : (from / 64 * 64 + r) % 64 ≡ r = omega arith in
                  rw (nth_bit-bit_and, nth_bit-shl_ones r (from % 64) lt (omega arith), f, g)
                    (ground arith));
            below = λ j le lt. absurd (omega arith);
          })
          (omega arith))
  ]
