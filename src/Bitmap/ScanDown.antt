-- ===== src/Bitmap/ScanDown.antt =====
-- The search downwards for the next set bit.
use Prim.Native.Nat.{bit_and}
use mathlib.Core.Path.{subst}
use orderbook_engine.Base.{
  ℕ, zero, suc, ◌+◌, ◌-◌, ◌*◌, ◌/◌, ◌%◌, ◌^◌, ◌≤◌, ◌<◌, ◌≡◌, ◌≢◌, ◌∙◌, true, false, ◌&&◌, Option,
  none, some, ltb, leb, ◌==◌, ==→eq, arith, Bool-cases, inl, inr,
}
use orderbook_engine.Base.Bits.{
  nth_bit, nth_bit-zero, nth_bit-bit_and, nth_bit-low_mask, bit_and-lt,
}
use orderbook_engine.Base.Word.{countl_zero, bit_width, bit_width_lem, shl_one}
use orderbook_engine.Bitmap.{Bitmap, scan_down, find_prev_set, mask_up_to}
use orderbook_engine.Bitmap.Bit.{IsWords, bit_at}

-- What a search downwards may answer.
abbrev pub IsPrev : Bitmap → (from : ℕ) → Option ℕ → Type 0
IsPrev b from none = (j : ℕ) → j ≤ from → j < b.num_words * 64 → bit_at b j ≡ false
IsPrev b from (some i) =
    (i ≤ from)
    × (i < b.num_words * 64)
    × (bit_at b i ≡ true)
    × ((j : ℕ) → i < j → j ≤ from → j < b.num_words * 64 → bit_at b j ≡ false)

-- The loop is at word `w`, with all of its bits up to `from` in `bits`.
record AtDown (b : Bitmap) (from w bits : ℕ) : Type 0 where
  in_array : w < b.num_words
  past : w * 64 ≤ from
  word : bits < 2 ^ 64
  bits_lem : (r : ℕ) → r < 64 → nth_bit r bits ≡ (leb (w * 64 + r) from && bit_at b (w * 64 + r))
  above : (j : ℕ) → w * 64 + 64 ≤ j → j ≤ from → j < b.num_words * 64 → bit_at b j ≡ false

nth_bit-mask_up_to : (k r : ℕ) → k < 64 → r < 64 → nth_bit k (mask_up_to r) ≡ leb k r
unfolding mask_up_to
nth_bit-mask_up_to k r lk lr = elim (Bool-cases (r == 63)) [
  | inl e ↦ rw e (nth_bit-low_mask k 64 ∙ ground arith)
  | inr ne ↦ rw (ne, shl_one (r + 1) (ground arith), nth_bit-low_mask k (r + 1)) (ground arith)
]

bit_at-word : (b : Bitmap) (w r : ℕ) → r < 64 → nth_bit r (b.words w) ≡ bit_at b (w * 64 + r)
bit_at-word b w r lt =
    let e : (w * 64 + r) / 64 ≡ w = omega arith in
    let f : (w * 64 + r) % 64 ≡ r = omega arith in rw (e, f)

module _ (b : Bitmap) where
  AtDown-bit :
      {from w bits : ℕ} (j : ℕ)
      → AtDown b from w bits
      → w * 64 ≤ j
      → j ≤ from
      → j < b.num_words * 64
      → (j < w * 64 + 64 → nth_bit (j - w * 64) bits ≡ false)
      → bit_at b j ≡ false
  AtDown-bit {from} {w} {bits} j a ge le lt clear = elim (Bool-cases (ltb j (w * 64 + 64))) [
    | inr beyond ↦ a.above j (ground arith) le lt
    | inl within ↦
        let lt' : j < w * 64 + 64 = ground arith in
        let off = clear lt' in
        let e : w * 64 + (j - w * 64) ≡ j = omega arith in
        let h = rw e at (a.bits_lem (j - w * 64) (omega arith)) in ground arith
  ]

  AtDown-found :
      {from w bits : ℕ}
      → AtDown b from w bits
      → bits ≢ 0
      → IsPrev b from (some (w * 64 + 63 - countl_zero 64 bits))
  unfolding countl_zero
  AtDown-found {from} {w} {bits} a ne =
      let (k, (width, lt, set, high)) = bit_width_lem 64 bits a.word ne in
      let e : w * 64 + 63 - (64 - bit_width 64 bits) ≡ w * 64 + k = omega arith in
      let h = a.bits_lem k lt in
      rw e (
        ground arith,
        omega (arith, a.in_array),
        ground arith,
        λ j gt le below.
            AtDown-bit j a (omega arith) le below (λ _. high (j - w * 64) (omega arith)),
      )

  AtDown-none : {from : ℕ} → AtDown b from 0 0 → IsPrev b from none
  AtDown-none a j le lt = AtDown-bit j a (omega arith) le lt (λ _. nth_bit-zero (j - 0 * 64))

  AtDown-next :
      {from w : ℕ} → b.words w < 2 ^ 64 → AtDown b from (suc w) 0 → AtDown b from w (b.words w)
  AtDown-next {from} {w} word a = record {
    in_array = omega (arith, a.in_array);
    past = omega (arith, a.past);
    word = word;
    bits_lem = λ r le. bit_at-word b w r le ∙ (let p = a.past in ground arith);
    above = λ j ge le lt. AtDown-bit j a (omega arith) le lt (λ _. nth_bit-zero (j - suc w * 64));
  }

  module _ (words : IsWords b) where
    scan_down-IsPrev : (from w bits : ℕ) → AtDown b from w bits → IsPrev b from (scan_down b w bits)
    unfolding scan_down
    scan_down-IsPrev from zero bits a = elim (Bool-cases (bits == 0)) [
      | inr more ↦ rw more (AtDown-found a (ground arith))
      | inl clear ↦ rw clear (AtDown-none (subst (AtDown b from 0) (==→eq bits 0 clear) a))
    ]
    scan_down-IsPrev from (suc w) bits a = elim (Bool-cases (bits == 0)) [
      | inr more ↦ rw more (AtDown-found a (ground arith))
      | inl clear ↦ rw clear (
          scan_down-IsPrev from w (b.words w)
            (AtDown-next (words w) (subst (AtDown b from (suc w)) (==→eq bits 0 clear) a)))
    ]

    AtDown-last :
        (from : ℕ)
        → b.num_words ≤ from / 64
        → 0 < b.num_words
        → AtDown b from (b.num_words - 1) (b.words (b.num_words - 1))
    AtDown-last from out some_words = record {
      in_array = omega arith;
      past = omega arith;
      word = words (b.num_words - 1);
      bits_lem = λ r lt. bit_at-word b (b.num_words - 1) r lt ∙ ground arith;
      above = λ j ge le lt. absurd (omega arith);
    }

    AtDown-start :
        (from : ℕ)
        → from / 64 < b.num_words
        → AtDown b from (from / 64) (bit_and (b.words (from / 64)) (mask_up_to (from % 64)))
    AtDown-start from inside = record {
      in_array = inside;
      past = omega arith;
      word = bit_and-lt 64 (b.words (from / 64)) _ (words (from / 64));
      bits_lem = λ r lt.
          rw
            (
              nth_bit-bit_and,
              nth_bit-mask_up_to r (from % 64) lt (omega arith),
              bit_at-word b (from / 64) r lt,
            )
            (ground arith);
      above = λ j ge le lt. absurd (omega arith);
    }

    -- Where every word has 64 bits, `find_prev_set` answers the largest set index up to `from`, and that there is none exactly
    -- if none is set.
    pub find_prev_set_lem : (from : ℕ) → IsPrev b from (find_prev_set b from)
    unfolding find_prev_set
    find_prev_set_lem from = elim (Bool-cases (leb b.num_words (from / 64))) [
      | inr inside ↦
          rw inside (scan_down-IsPrev from (from / 64) _ (AtDown-start from (ground arith)))
      | inl out ↦ elim (Bool-cases (b.num_words == 0)) [
        | inl empty ↦
            rw (out, empty) (λ j le lt. absurd (let z = ==→eq b.num_words 0 empty in omega arith))
        | inr some_words ↦
            rw (out, some_words)
              (scan_down-IsPrev from (b.num_words - 1) _
                (AtDown-last from (ground arith) (ground arith)))
      ]
    ]
