-- ===== src/Book/Best/Depth.antt =====
-- `can_fully_fill` against the sum of the levels within the limit.
use mathlib.Core.Path.{subst}
use native.Mathlib.Nat.{zero-add}
use orderbook_engine.Base.{
  ℕ, zero, suc, ◌+◌, ◌-◌, ◌^◌, ◌≤◌, ◌<◌, ◌≡◌, refl, ◌∙◌, sym, ap, Bool, true, false, Option, none,
  some, leb, arith, if◌then◌else◌, Bool-cases, inl, inr, ◌&&◌,
}
use orderbook_engine.Base.Sums.{sum, sum-zero, sum-split}
use orderbook_engine.Bitmap.{Bitmap}
use orderbook_engine.Bitmap.Bit.{bit_at}
use orderbook_engine.Book.Best.{
  IsIndex, IsBestOf, always, better, better_trans, better-connex, search-IsBestOf,
}
use orderbook_engine.Book.Best.Levels.{IsShelved, bitmap, next_level-search}
use orderbook_engine.Book.Match.{is_within, absorb_loop, walk_limit, can_fully_fill, side_rounds}
use orderbook_engine.Book.Rest.{best_idx, add32}
use orderbook_engine.Book.State.{Book, is_empty, level, next_level}
use orderbook_engine.Types.{Side, opposite, Price}

-- The quantity of a level that passes the test and is within the limit.
abbrev pub tally : Book → Side → (limit : ℕ) → (ℕ → Bool) → ℕ → ℕ
tally b side limit q j =
    if q j && is_within side limit j then (level b (opposite side) j).total_qty else 0

-- The volume within a limit for an aggressor of the side.
abbrev pub depth : Book → Side → (limit : ℕ) → (ℕ → Bool) → ℕ
depth b side limit q = sum (tally b side limit q) b.cfg.num_levels

is_within-better :
    (side : Side) (limit i j : ℕ)
    → is_within side limit j ≡ true
    → better (opposite side) i j ≡ true
    → is_within side limit i ≡ true
unfolding is_within
is_within-better Side.buy limit i j w b = ground arith
is_within-better Side.sell limit i j w b = ground arith

-- How many levels there are from `i` on, at most.
abbrev rank : Side → (n i : ℕ) → ℕ
rank Side.buy n i = i + 1
rank Side.sell n i = n - i

rank-better :
    (side : Side) (n i j : ℕ)
    → i < n
    → j < n
    → better side i j ≡ true
    → rank side n j < rank side n i
rank-better Side.buy n i j li lj b = ground arith
rank-better Side.sell n i j li lj b = ground arith

rank-le : (side : Side) (n i : ℕ) → i < n → rank side n i ≤ n
rank-le Side.buy n i lt = omega arith
rank-le Side.sell n i lt = omega arith

abbrev HasRounds : ℕ → Side → ℕ → Option ℕ → Type 0
HasRounds k side n none = 1 ≤ k
HasRounds k side n (some i) = rank side n i < k

better_irrefl : (side : Side) (i : ℕ) → better side i i ≡ false
better_irrefl Side.buy i = ground arith
better_irrefl Side.sell i = ground arith

HasRounds-next :
    (side : Side) (n k i : ℕ) (m : Bitmap) (r : Option ℕ)
    → i < n
    → rank side n i < suc k
    → IsBestOf side n m (λ j. better side i j) r
    → HasRounds k side n r
HasRounds-next Side.buy n k i m none li lt h = omega arith
HasRounds-next Side.sell n k i m none li lt h = omega arith
HasRounds-next side n k i m (some j) li lt (lj, b, _, _) =
    let down = rank-better side n i j li lj b in omega arith

module _ (b : Book) (side : Side) (limit : ℕ)
    (x : IsIndex b.cfg.num_levels (bitmap b (opposite side)))
    (bare : (j : ℕ)
      → j < b.cfg.num_levels
      → bit_at (bitmap b (opposite side)) j ≡ false
      → (level b (opposite side) j).total_qty ≡ 0) where
  within_below :
      (i j : ℕ)
      → is_within side limit i ≡ false
      → better (opposite side) j i ≡ false
      → ¬ (is_within side limit j ≡ true)
  within_below i j out not_up w = elim (Bool-cases (better (opposite side) i j)) [
    | inl down ↦ (let z = is_within-better side limit i j w down in absurd (ground arith))
    | inr not_down ↦
        (let e = better-connex (opposite side) i j not_down not_up in
          let z = ap (is_within side limit) e in absurd (ground arith))
  ]

  depth-none :
      (q : ℕ → Bool)
      → IsBestOf (opposite side) b.cfg.num_levels (bitmap b (opposite side)) q none
      → depth b side limit q ≡ 0
  depth-none q h = sum-zero _ _ (λ j lt. elim (Bool-cases (q j)) [
    | inl t ↦ (let z = bare j lt (h j lt t) in ground arith)
    | inr f ↦ ground arith
  ])

  depth_out :
      (q : ℕ → Bool) (i : ℕ)
      → is_within side limit i ≡ false
      → IsBestOf (opposite side) b.cfg.num_levels (bitmap b (opposite side)) q (some i)
      → depth b side limit q ≡ 0
  depth_out q i out (li, qi, set, best) = sum-zero _ _ (λ j lt.
      elim (Bool-cases (is_within side limit j)) [
        | inr w ↦ ground arith
        | inl w ↦ elim (Bool-cases (q j)) [
          | inr f ↦ ground arith
          | inl t ↦ elim (Bool-cases (better (opposite side) j i)) [
            | inl up ↦ (let z = bare j lt (best j lt t up) in ground arith)
            | inr not_up ↦ absurd (within_below i j out not_up w)
          ]
        ]
      ])

  depth-some :
      (q : ℕ → Bool) (i : ℕ)
      → ((i j : ℕ) → q i ≡ true → better (opposite side) i j ≡ true → q j ≡ true)
      → is_within side limit i ≡ true
      → IsBestOf (opposite side) b.cfg.num_levels (bitmap b (opposite side)) q (some i)
      → depth b side limit q
        ≡ (level b (opposite side) i).total_qty
          + depth b side limit (λ j. better (opposite side) i j)
  depth-some q i closed inside (li, qi, set, best) =
      let f = tally b side limit q in
      let g = tally b side limit (λ j. better (opposite side) i j) in
      let apart = better_irrefl (opposite side) i in
      let here : f i ≡ (level b (opposite side) i).total_qty = ground arith in
      sum-split f g b.cfg.num_levels i li (ground arith) (λ j lt ne.
        elim (Bool-cases (better (opposite side) i j)) [
          | inl down ↦ (let t = closed i j qi down in ground arith)
          | inr not_down ↦ elim (Bool-cases (better (opposite side) j i)) [
            | inr not_up ↦ absurd (ne (sym (better-connex (opposite side) i j not_down not_up)))
            | inl up ↦ elim (Bool-cases (q j)) [
              | inl t ↦ (let z = bare j lt (best j lt t up) in ground arith)
              | inr f ↦ ground arith
            ]
          ]
        ])
      ∙ ap (λ (z : ℕ). z + sum g b.cfg.num_levels) here

  absorb_loop-depth :
      (k acc qty : ℕ) (r : Option ℕ) (q : ℕ → Bool)
      → ((i j : ℕ) → q i ≡ true → better (opposite side) i j ≡ true → q j ≡ true)
      → IsBestOf (opposite side) b.cfg.num_levels (bitmap b (opposite side)) q r
      → HasRounds k (opposite side) b.cfg.num_levels r
      → acc < qty
      → acc + depth b side limit q < 2 ^ 32
      → absorb_loop k b side limit r acc qty ≡ some (leb qty (acc + depth b side limit q))
  unfolding absorb_loop
  absorb_loop-depth zero acc qty none q closed h rounds low fits = absurd (omega arith)
  absorb_loop-depth zero acc qty (some i) q closed h rounds low fits = absurd (omega arith)
  absorb_loop-depth (suc k) acc qty none q closed h rounds low fits =
      let z = depth-none q h in
      let e : leb qty (acc + depth b side limit q) ≡ false = ground arith in rw e refl
  absorb_loop-depth (suc k) acc qty (some i) q closed h rounds low fits =
      elim (Bool-cases (is_within side limit i)) [
        | inr out ↦
            let z = depth_out q i out h in
            let e : leb qty (acc + depth b side limit q) ≡ false = ground arith in rw (out, e) refl
        | inl inside ↦
            let tot = (level b (opposite side) i).total_qty in
            let s = depth-some q i closed inside h in
            let e : add32 acc tot ≡ acc + tot = omega arith in
            elim (Bool-cases (leb qty (acc + tot))) [
              | inl enough ↦
                  let a : leb qty (acc + depth b side limit q) ≡ true = ground arith in
                  rw (inside, e, enough, a) refl
              | inr more ↦
                  let h' =
                    subst
                      (IsBestOf (opposite side) b.cfg.num_levels (bitmap b (opposite side))
                        (λ j. better (opposite side) i j))
                      (sym (next_level-search b (opposite side) i))
                      (search-IsBestOf (opposite side) b.cfg.num_levels (bitmap b (opposite side)) i
                        x) in
                  let rest =
                    absorb_loop-depth k (acc + tot) qty (next_level b (opposite side) i)
                      (λ j. better (opposite side) i j) (better_trans (opposite side) i) h'
                      (HasRounds-next (opposite side) b.cfg.num_levels k i
                        (bitmap b (opposite side)) _ h.0 rounds h')
                      (ground arith) (omega arith) in
                  let t : acc + tot + depth b side limit (λ j. better (opposite side) i j)
                      ≡ acc + depth b side limit q =
                    omega arith in
                  rw (inside, e, more) (rest ∙ ap (λ (z : ℕ). some (leb qty z)) t)
            ]
      ]

HasRounds-start :
    (side : Side) (n : ℕ) (m : Bitmap) (r : Option ℕ)
    → IsBestOf side n m always r
    → HasRounds (n + 2) side n r
HasRounds-start side n m none h = omega arith
HasRounds-start side n m (some i) (lt, _, _, _) = let le = rank-le side n i lt in omega arith

-- In a shelved book whose unoccupied levels on the other side have no quantity, and whose volume there
-- within the limit is below 2 ^ 32, `can_fully_fill` of a quantity above 0 returns, and says whether
-- the quantity is at most that volume.
pub can_fully_fill-depth :
    (b : Book) (side : Side) (price : Price) (qty : ℕ)
    → IsShelved b
    → ((j : ℕ)
        → j < b.cfg.num_levels
        → is_empty (level b (opposite side) j) ≡ true
        → (level b (opposite side) j).total_qty ≡ 0)
    → 0 < qty
    → depth b side (walk_limit b side price) always < 2 ^ 32
    → can_fully_fill b side price qty
      ≡ some (leb qty (depth b side (walk_limit b side price) always))
unfolding can_fully_fill
can_fully_fill-depth b side price qty x bare pos fits =
    let s = x (opposite side) in
    absorb_loop-depth b side (walk_limit b side price) s.index
      (λ j lt clear. bare j lt (let e = s.marks j lt in ground arith)) (side_rounds b) 0 qty
      (best_idx b (opposite side)) always (λ i j p w. refl) s.best
      (HasRounds-start (opposite side) b.cfg.num_levels (bitmap b (opposite side)) _ s.best) pos
      (omega arith)
    ∙ ap (λ (z : ℕ). some (leb qty z)) (zero-add (depth b side (walk_limit b side price) always))
