-- ===== src/Book/Best.antt =====
-- The best index of a side and its bitmap: what they have to do with each other, and how a change of
-- one bit keeps that.
pub mod Levels
pub mod Flow
pub mod TopN
pub mod Depth
use mathlib.Core.Path.{subst}
use orderbook_engine.Base.{
  ℕ, zero, suc, ◌+◌, ◌*◌, ◌/◌, ◌%◌, ◌≤◌, ◌<◌, ◌≡◌, ◌≢◌, refl, ◌∙◌, sym, ap, Bool, true, false,
  Option, none, some, ltb, ◌==◌, ==→eq, ==→ne, arith, if◌then◌else◌, Bool-cases, inl, inr,
}
use orderbook_engine.Base.Bits.{nth_bit-zero}
use orderbook_engine.Bitmap
use orderbook_engine.Bitmap.{Bitmap}
use orderbook_engine.Bitmap.Bit.{
  IsWords, bit_at, bit_at-set, bit_at-clear, set-IsWords, clear-IsWords, new-IsWords,
}
use orderbook_engine.Bitmap.Scan.{IsNext, find_next_set_lem}
use orderbook_engine.Bitmap.ScanDown.{IsPrev, find_prev_set_lem}
use orderbook_engine.Book.Rest.{improves, is_at}
use orderbook_engine.Types.{Side}
use native.Mathlib.Numerals.{add-one}

-- Level `i` of the side is better than level `j`.
abbrev pub better : Side → (i j : ℕ) → Bool
better Side.buy i j = ltb j i
better Side.sell i j = ltb i j

better-apart : (side : Side) (i j : ℕ) → better side i j ≡ true → i ≢ j
better-apart Side.buy i j b e = ground arith
better-apart Side.sell i j b e = ground arith

pub better_trans :
    (side : Side) (i j k : ℕ)
    → better side i j ≡ true
    → better side j k ≡ true
    → better side i k ≡ true
better_trans Side.buy i j k b c = ground arith
better_trans Side.sell i j k b c = ground arith

pub better-connex :
    (side : Side) (i j : ℕ) → better side i j ≡ false → better side j i ≡ false → i ≡ j
better-connex Side.buy i j b c = ground arith
better-connex Side.sell i j b c = ground arith

improves-better : (side : Side) (k i : ℕ) → improves side (some k) i ≡ better side i k
improves-better Side.buy k i = refl
improves-better Side.sell k i = refl

-- The bitmap has words of 64 bits, room for `n` bits, and no other bit set.
pub record IsIndex (n : ℕ) (m : Bitmap) : Type 0 where
  pub words : IsWords m
  pub room : n ≤ m.num_words * 64
  pub inside : (j : ℕ) → n ≤ j → bit_at m j ≡ false

-- `r` is the best of the set indices that pass the test `q`, and null if there is none.
abbrev pub IsBestOf : Side → ℕ → Bitmap → (q : ℕ → Bool) → Option ℕ → Type 0
IsBestOf side n m q none = (j : ℕ) → j < n → q j ≡ true → bit_at m j ≡ false
IsBestOf side n m q (some i) =
    (i < n)
    × (q i ≡ true)
    × (bit_at m i ≡ true)
    × ((j : ℕ) → j < n → q j ≡ true → better side j i ≡ true → bit_at m j ≡ false)

abbrev pub always : ℕ → Bool
always j = true

-- The search for the level after `i`, as `next_level` makes it on the bitmap of the side.
abbrev pub search : Side → Bitmap → ℕ → Option ℕ
search Side.buy m zero = none
search Side.buy m (suc i) = Bitmap.find_prev_set m i
search Side.sell m i = Bitmap.find_next_set m (i + 1)

set_inside : (n : ℕ) (m : Bitmap) (i : ℕ) → IsIndex n m → bit_at m i ≡ true → i < n
set_inside n m i x set = elim (Bool-cases (ltb i n)) [
  | inl lt ↦ ground arith
  | inr ge ↦ absurd (let h = x.inside i (ground arith) in ground arith)
]

IsBestOf-next :
    (n : ℕ) (m : Bitmap) (i : ℕ) (r : Option ℕ)
    → IsIndex n m
    → IsNext m (i + 1) r
    → IsBestOf Side.sell n m (λ j. better Side.sell i j) r
IsBestOf-next n m i none x h = λ j lt q. h j (ground arith) (omega (arith, x.room))
IsBestOf-next n m i (some k) x (le, _, set, low) =
    (set_inside n m k x set, ground arith, set, λ j lt q b. low j (ground arith) (ground arith))

IsBestOf-prev :
    (n : ℕ) (m : Bitmap) (i : ℕ) (r : Option ℕ)
    → IsIndex n m
    → IsPrev m i r
    → IsBestOf Side.buy n m (λ j. better Side.buy (suc i) j) r
IsBestOf-prev n m i none x h = λ j lt q. h j (ground arith) (omega (arith, x.room))
IsBestOf-prev n m i (some k) x (le, _, set, high) = (
  set_inside n m k x set,
  ground arith,
  set,
  λ j lt q b. high j (ground arith) (ground arith) (omega (arith, x.room)),
)

-- The search finds the best of the set indices that are worse than `i`.
pub search-IsBestOf :
    (side : Side) (n : ℕ) (m : Bitmap) (i : ℕ)
    → IsIndex n m
    → IsBestOf side n m (λ j. better side i j) (search side m i)
search-IsBestOf Side.buy n m zero x = λ j lt q. absurd (ground arith)
search-IsBestOf Side.buy n m (suc i) x = IsBestOf-prev n m i _ x (find_prev_set_lem m x.words i)
search-IsBestOf Side.sell n m i x = IsBestOf-next n m i _ x (find_next_set_lem m x.words (i + 1))

pub new-IsIndex : (n : ℕ) → IsIndex n (Bitmap.new n)
new-IsIndex n = record {
  words = new-IsWords n;
  room = (unfold Bitmap.new in omega arith);
  inside = λ j ge. (unfold Bitmap.new in nth_bit-zero (j % 64));
}

pub set-IsIndex : (n : ℕ) (m : Bitmap) (i : ℕ) → i < n → IsIndex n m → IsIndex n (Bitmap.set m i)
set-IsIndex n m i lt x = record {
  words = set-IsWords m i x.words;
  room = (unfold Bitmap.set in x.room);
  inside = λ j ge. rw (bit_at-set m i j) (ground (arith, x.inside j));
}

pub clear-IsIndex : (n : ℕ) (m : Bitmap) (i : ℕ) → IsIndex n m → IsIndex n (Bitmap.clear m i)
clear-IsIndex n m i x = record {
  words = clear-IsWords m i x.words;
  room = (unfold Bitmap.clear in x.room);
  inside = λ j ge. rw (bit_at-clear m i j) (ground (arith, x.inside j));
}

-- After a bit is set, the better of it and the best index so far is the best.
pub set-IsBestOf :
    (side : Side) (n : ℕ) (m : Bitmap) (r : Option ℕ) (i : ℕ)
    → i < n
    → IsBestOf side n m always r
    → IsBestOf side n (Bitmap.set m i) always (if improves side r i then some i else r)
set-IsBestOf side n m none i lt h = (
  lt,
  refl,
  rw (bit_at-set m i i) (ground arith),
  λ j lj q b. rw (bit_at-set m i j) (let d = better-apart side j i b in ground (arith, h j)),
)
set-IsBestOf side n m (some k) i lt (lk, q, set, best) = elim (Bool-cases (better side i k)) [
  | inl up ↦
      rw (improves-better side k i, up)
        (
          lt,
          refl,
          rw (bit_at-set m i i) (ground arith),
          λ j lj q b. rw (bit_at-set m i j) (
              let d = better-apart side j i b in
              let t = better_trans side j i k b up in ground (arith, best j lj refl t)),
        )
  | inr down ↦
      rw (improves-better side k i, down)
        (
          lk,
          refl,
          rw (bit_at-set m i k) (ground arith),
          λ j lj q b. rw (bit_at-set m i j) (elim (Bool-cases (j == i)) [
            | inl e ↦
                absurd (let f = subst (λ z. better side z k ≡ true) (==→eq j i e) b in ground arith)
            | inr ne ↦ rw ne (best j lj refl b)
          ]),
        )
]

-- After a bit that is not the best is cleared, the best index stays.
pub clear_other-IsBestOf :
    (side : Side) (n : ℕ) (m : Bitmap) (r : Option ℕ) (i : ℕ)
    → is_at r i ≡ false
    → IsBestOf side n m always r
    → IsBestOf side n (Bitmap.clear m i) always r
clear_other-IsBestOf side n m none i away h =
    λ j lt q. rw (bit_at-clear m i j) (ground (arith, h j))
clear_other-IsBestOf side n m (some k) i away (lk, _, set, best) = (
  lk,
  refl,
  rw (bit_at-clear m i k) (ground arith),
  λ j lt q b. rw (bit_at-clear m i j) (ground (arith, best j)),
)

clear_best-bit :
    (side : Side) (n : ℕ) (m : Bitmap) (i j : ℕ)
    → IsBestOf side n m always (some i)
    → j < n
    → better side i j ≡ false
    → bit_at (Bitmap.clear m i) j ≡ false
clear_best-bit side n m i j (li, q, set, best) lj not_worse =
    rw (bit_at-clear m i j) (elim (Bool-cases (better side j i)) [
      | inl b ↦ ground (arith, best j lj refl b)
      | inr not_better ↦ (let e = better-connex side i j not_worse not_better in ground arith)
    ])

-- After the best bit is cleared, the search from it finds the new best index.
pub clear_best-IsBestOf :
    (side : Side) (n : ℕ) (m : Bitmap) (i : ℕ) (r : Option ℕ)
    → IsBestOf side n m always (some i)
    → IsBestOf side n (Bitmap.clear m i) (λ j. better side i j) r
    → IsBestOf side n (Bitmap.clear m i) always r
clear_best-IsBestOf side n m i none h h' = λ j lj q. elim (Bool-cases (better side i j)) [
  | inl worse ↦ h' j lj worse
  | inr not_worse ↦ clear_best-bit side n m i j h lj not_worse
]
clear_best-IsBestOf side n m i (some k) h (lk, q, set, best) = (
  lk,
  refl,
  set,
  λ j lj _ b. elim (Bool-cases (better side i j)) [
    | inl worse ↦ best j lj worse b
    | inr not_worse ↦ clear_best-bit side n m i j h lj not_worse
  ],
)
