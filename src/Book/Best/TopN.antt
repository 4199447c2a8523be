-- ===== src/Book/Best/TopN.antt =====
-- `top_n` lists the best occupied levels of a side.
use mathlib.Core.Path.{subst}
use orderbook_engine.Base.{
  ℕ, zero, suc, ◌≤◌, ◌<◌, ◌≡◌, refl, ◌∙◌, sym, ap, Bool, true, not, Option, none, some, ◌==◌, ==→eq,
  arith, List, [], ◌∷◌, length, ◌∈◌, ◌∉◌, Bool-cases, inl, inr, ◌&&◌,
}
use orderbook_engine.Bitmap.{Bitmap}
use orderbook_engine.Bitmap.Bit.{bit_at}
use orderbook_engine.Book.Best.{
  IsIndex, IsBestOf, always, better, better_trans, better-connex, search-IsBestOf,
}
use orderbook_engine.Book.Best.Levels.{IsShelved, bitmap, next_level-search}
use orderbook_engine.Book.Rest.{best_idx}
use orderbook_engine.Book.State.{
  Book, LevelSnapshot, snapshot, is_empty, level, next_level, top_loop, top_n,
}
use orderbook_engine.Types.{Side}

-- The levels of the list stand best first.
abbrev pub IsBestFirst : Side → List ℕ → Type 0
IsBestFirst side [] = Unit {0}
IsBestFirst side (i ∷ is) = ((j : ℕ) → j ∈ is → better side i j ≡ true) × IsBestFirst side is

-- `is` lists the `n` best of the indices below `bound` that pass the test, or all of them if they are
-- fewer.
pub record IsTop (n : ℕ) (side : Side) (bound : ℕ) (q : ℕ → Bool) (is : List ℕ) : Type 0 where
  pub ordered : IsBestFirst side is
  pub short : length is ≤ n
  pub members : (j : ℕ) → j ∈ is → (j < bound) × (q j ≡ true)
  pub rest :
      (j : ℕ)
      → j < bound
      → q j ≡ true
      → j ∉ is
      → (length is ≡ n) × ((i : ℕ) → i ∈ is → better side i j ≡ true)

abbrev pub snapshots : Book → Side → List ℕ → List LevelSnapshot
snapshots b side [] = []
snapshots b side (i ∷ is) = snapshot b side i ∷ snapshots b side is

abbrev both : Bitmap → (ℕ → Bool) → ℕ → Bool
both m q j = q j && bit_at m j

module _ (side : Side) (bound : ℕ) (m : Bitmap) (n : ℕ) (q : ℕ → Bool)
    (closed : (i j : ℕ) → q i ≡ true → better side i j ≡ true → q j ≡ true) where
  IsTop-none : IsBestOf side bound m q none → IsTop n side bound (both m q) []
  IsTop-none h = record {
    ordered = tt;
    short = omega arith;
    members = λ j x. absurd (ground arith);
    rest = λ j lt x o. absurd (ground (arith, h j));
  }

  IsTop-some :
      (i : ℕ) (is : List ℕ)
      → IsBestOf side bound m q (some i)
      → IsTop n side bound (both m (λ j. better side i j)) is
      → IsTop (suc n) side bound (both m q) (i ∷ is)
  IsTop-some i is (li, qi, set, best) t = record {
    ordered = (λ j x. (let w = (t.members j x).1 in ground arith), t.ordered);
    short = omega (arith, t.short);
    members = λ j x. elim (Bool-cases (j == i)) [
      | inl e ↦ rw (==→eq j i e) (li, ground arith)
      | inr ne ↦
          let (lj, w) = t.members j (ground arith) in
          (lj, (let c = closed i j qi (ground arith) in ground arith))
    ];
    rest = λ j lj x o.
        let qj : q j ≡ true = ground arith in
        let worse : better side i j ≡ true = elim (Bool-cases (better side i j)) [
          | inl w ↦ w
          | inr nw ↦ elim (Bool-cases (better side j i)) [
            | inl b ↦ absurd (let f = best j lj qj b in ground arith)
            | inr nb ↦ absurd (let e = better-connex side i j nw nb in ground arith)
          ]
        ] in
        let (full, above) = t.rest j lj (ground arith) (ground arith) in
        (
          omega (arith, full),
          λ k y. elim (Bool-cases (k == i)) [
            | inl e ↦ rw (==→eq k i e) worse
            | inr ne ↦ above k (ground arith)
          ],
        );
  }

-- Every occupied level: the test that `top_n` makes good.
abbrev pub occupied : Book → Side → ℕ → Bool
occupied b side j = not (is_empty (level b side j))

module _ (b : Book) (side : Side) (bound : ℕ) (x : IsIndex bound (bitmap b side)) where
  top_loop-IsTop :
      (n : ℕ) (r : Option ℕ) (q : ℕ → Bool)
      → ((i j : ℕ) → q i ≡ true → better side i j ≡ true → q j ≡ true)
      → IsBestOf side bound (bitmap b side) q r
      → (is : List ℕ) × (top_loop n b side r ≡ snapshots b side is)
        × IsTop n side bound (both (bitmap b side) q) is
  unfolding top_loop
  top_loop-IsTop zero r q closed h = (
    [],
    refl,
    record {
      ordered = tt;
      short = omega arith;
      members = λ j i. absurd (ground arith);
      rest = λ j lt i o. (refl, λ k y. absurd (ground arith));
    },
  )
  top_loop-IsTop (suc n) none q closed h =
      ([], refl, IsTop-none side bound (bitmap b side) (suc n) q closed h)
  top_loop-IsTop (suc n) (some i) q closed h =
      let h' =
        subst (IsBestOf side bound (bitmap b side) (λ j. better side i j))
          (sym (next_level-search b side i)) (search-IsBestOf side bound (bitmap b side) i x) in
      let (is, e, t) =
        top_loop-IsTop n (next_level b side i) (λ j. better side i j) (better_trans side i) h' in
      (
        i ∷ is,
        ap (λ (z : List LevelSnapshot). snapshot b side i ∷ z) e,
        IsTop-some side bound (bitmap b side) n q closed i is h t,
      )

top_n-top_loop :
    (b : Book) (side : Side) (n : ℕ) → top_n b side n ≡ top_loop n b side (best_idx b side)
unfolding top_n best_idx
top_n-top_loop b Side.buy n = refl
top_n-top_loop b Side.sell n = refl

-- In a shelved book `top_n` lists the `n` best of the occupied levels of the side, or all of them if
-- they are fewer, each once, the best first.
pub top_n-IsTop :
    (b : Book) (side : Side) (n : ℕ)
    → IsShelved b
    → (is : List ℕ) × (top_n b side n ≡ snapshots b side is)
      × IsTop n side b.cfg.num_levels (occupied b side) is
top_n-IsTop b side n x =
    let s = x side in
    let (is, e, t) =
      top_loop-IsTop b side b.cfg.num_levels s.index n (best_idx b side) always (λ i j p w. refl)
        s.best in
    (
      is,
      top_n-top_loop b side n ∙ e,
      record {
        ordered = t.ordered;
        short = t.short;
        members = λ j i. (let (lt, p) = t.members j i in (lt, sym (s.marks j lt) ∙ p));
        rest = λ j lt o out. t.rest j lt (s.marks j lt ∙ o) out;
      },
    )
