-- ===== src/Book/Fill/Views.antt =====
-- The queues of a stocked and shelved book as the walk over its levels sees them.
use mathlib.Core.Path.{subst}
use orderbook_engine.Base.{
  ℕ, ◌<◌, ◌≡◌, ◌≢◌, refl, sym, ap, ◌∙◌, true, false, ◌&&◌, ◌==◌, ==→eq, Option, none, some,
  Bool-cases, inl, inr, if◌then◌else◌, List, [], ◌∷◌, ltb, arith,
}
use orderbook_engine.Bitmap.Bit.{bit_at}
use orderbook_engine.Book.Best.{IsBestOf, always}
use orderbook_engine.Book.Best.Levels.{IsShelved, bitmap}
use orderbook_engine.Book.Fill.{entries, Consumed}
use orderbook_engine.Book.Fill.Level.{IsFilled, entries-payload}
use orderbook_engine.Book.Fill.Next.{with_level-cfg}
use orderbook_engine.Book.Fill.Sweep.{view, IsBestLevel, IsChange}
use orderbook_engine.Book.Fill.Walk.{with_level, set_at_self}
use orderbook_engine.Book.Match.{Matched, Aggressor}
use orderbook_engine.Book.Rest.{best_idx}
use orderbook_engine.Book.State.{Book, Config, PriceLevel, is_empty, level}
use orderbook_engine.Book.Stock.{same_side, set_at, IsLevel, Queues, IsStockedBook}
use orderbook_engine.Book.Stock.Remove.{other_queue}
use orderbook_engine.Book.Stock.Same.{IsSame}
use orderbook_engine.Orders.{Heap}
use orderbook_engine.Orders.Slab.{Slab}
use orderbook_engine.Types.{Side, opposite}

entries-nil : (h : Heap) (xs : List ℕ) → entries h xs ≡ [] → xs ≡ []
entries-nil h [] e = refl
entries-nil h (x ∷ xs) e = cc

pub IsLevel-is_empty :
    (s : Side) (i : ℕ) (h : Heap) (l : PriceLevel) (xs : List ℕ)
    → IsLevel s i h l xs
    → is_empty l ≡ true
    → xs ≡ []
IsLevel-is_empty s i h l [] v e = refl
IsLevel-is_empty s i h l (x ∷ xs) v e = absurd (let c = v.count in ground arith)

pub IsLevel-occupied :
    (s : Side) (i : ℕ) (h : Heap) (l : PriceLevel) (xs : List ℕ)
    → IsLevel s i h l xs
    → is_empty l ≡ false
    → entries h xs ≢ []
IsLevel-occupied s i h l [] v e = absurd (let c = v.count in ground arith)
IsLevel-occupied s i h l (x ∷ xs) v e = λ z. cc

module _ (b : Book) (q : Queues) (s : Side) where
  pub view-in : (j : ℕ) → j < b.cfg.num_levels → view b q s j ≡ entries b.slab.storage (q s j)
  view-in j lt = (let t : ltb j b.cfg.num_levels ≡ true = ground arith in rw t refl)

  pub view-out : (j : ℕ) → ltb j b.cfg.num_levels ≡ false → view b q s j ≡ []
  view-out j out = rw out refl

pub view-same :
    (b c : Book) (q : Queues) (s : Side) (j : ℕ) → IsSame b c → view c q s j ≡ view b q s j
view-same b c q s j e =
    ap (λ (z : Config). if ltb j z.num_levels then entries c.slab.storage (q s j) else []) e.cfg
    ∙ ap (λ (z : Slab). if ltb j b.cfg.num_levels then entries z.storage (q s j) else []) e.slab

module _ (k : ℕ) (b : Book) (q : Queues) (free : List ℕ) (st : IsStockedBook k b q free)
    (shelved : IsShelved b) (s : Side) where
  unmarked : (j : ℕ) → j < b.cfg.num_levels → bit_at (bitmap b s) j ≡ false → view b q s j ≡ []
  unmarked j lt off =
      let gone : is_empty (level b s j) ≡ true = (let e = (shelved s).marks j lt in ground arith) in
      view-in b q s j lt
      ∙ ap (entries b.slab.storage) (IsLevel-is_empty s j _ _ _ (st.levels s j lt) gone)

  -- Without a best index the side is bare.
  pub view-bare : best_idx b s ≡ none → (j : ℕ) → view b q s j ≡ []
  view-bare e j = elim (Bool-cases (ltb j b.cfg.num_levels)) [
    | inr out ↦ view-out b q s j out
    | inl lt ↦
        let best = subst (IsBestOf s b.cfg.num_levels (bitmap b s) always) e (shelved s).best in
        unmarked j (ground arith) (best j (ground arith) refl)
  ]

  -- The best index is that of the best level.
  pub view-IsBestLevel :
      (i : ℕ)
      → best_idx b s ≡ some i
      → (i < b.cfg.num_levels) × (is_empty (level b s i) ≡ false) × IsBestLevel s (view b q s) i
  view-IsBestLevel i e =
      let best = subst (IsBestOf s b.cfg.num_levels (bitmap b s) always) e (shelved s).best in
      let full : is_empty (level b s i) ≡ false =
        (let m = (shelved s).marks i best.0 in let on = best.2 in ground arith) in
      (
        best.0,
        full,
        record {
          occupied = λ z.
              IsLevel-occupied s i b.slab.storage (level b s i) (q s i) (st.levels s i best.0) full
                (sym (view-in b q s i best.0) ∙ z);
          no_better = λ j better_j. elim (Bool-cases (ltb j b.cfg.num_levels)) [
            | inr out ↦ view-out b q s j out
            | inl lt ↦ unmarked j (ground arith) (best.3 j (ground arith) refl better_j)
          ];
        },
      )

same_side-opposite : (s : Side) → same_side (opposite s) s ≡ false
same_side-opposite Side.buy = refl
same_side-opposite Side.sell = refl

module _ (k : ℕ) (b : Book) (a : Aggressor) (q : Queues) (free : List ℕ)
    (st : IsStockedBook k b q free) (i : ℕ) (li : i < b.cfg.num_levels) (t : Consumed)
    (run : Option Matched)
    (f : IsFilled k b a i q b.slab.storage (q (opposite a.side) i) t run) where
  abbrev s : Side
  s = opposite a.side

  abbrev pub filled_book : Book
  filled_book = with_level b s i f.lvl f.slab f.id_map

  abbrev pub filled_queues : Queues
  filled_queues = set_at q s i f.rest

  view-filled_elsewhere :
      (s' : Side) (j : ℕ)
      → (same_side s s' && j == i) ≡ false
      → view filled_book filled_queues s' j ≡ view b q s' j
  view-filled_elsewhere s' j ne = elim (Bool-cases (ltb j b.cfg.num_levels)) [
    | inr out ↦ rw (with_level-cfg b s i f.lvl f.slab f.id_map, out) refl
    | inl lt ↦
        let lj : j < b.cfg.num_levels = ground arith in
        rw (with_level-cfg b s i f.lvl f.slab f.id_map, lt, ne)
          (entries-payload b.slab.storage f.slab.storage (q s' j) (λ y mem. f.others y (
            other_queue k b.cfg.num_levels (level b) b.slab b.id_map q free st s s' i j y li lj ne
              mem)))
  ]

  -- On the side of the walk the queue of the level is what is left of it.
  pub view-filled : IsChange (view b q s) (view filled_book filled_queues s) i t.left
  view-filled j = elim (Bool-cases (j == i)) [
    | inr ne ↦
        view-filled_elsewhere s j (ground arith)
        ∙ sym (ap (λ z. if z then t.left else view b q s j) ne)
    | inl e ↦
        let at : set_at q s i f.rest s j ≡ f.rest =
          ap (set_at q s i f.rest s) (==→eq j i e) ∙ set_at_self q s i f.rest in
        let lt : ltb j b.cfg.num_levels ≡ true = (let z = ==→eq j i e in ground arith) in
        rw (with_level-cfg b s i f.lvl f.slab f.id_map, lt, at, e) f.left
  ]

  -- The aggressor's side is what it was.
  pub view-aside : (j : ℕ) → view filled_book filled_queues a.side j ≡ view b q a.side j
  view-aside j = view-filled_elsewhere a.side j (let z = same_side-opposite a.side in ground arith)
