-- ===== src/Book/Fill/Walk.antt =====
-- The book in the course of the walk over a level: the level, the slab and the table have changed.
use mathlib.Core.Path.{fun_ext}
use orderbook_engine.Base.{
  ℕ, ◌≡◌, refl, sym, ap, ◌∙◌, ◌&&◌, ◌==◌, Bool-cases, inl, inr, List, update, update_self, ==_refl,
  arith,
}
use orderbook_engine.Book.Rest.{set_storage}
use orderbook_engine.Book.State.{Book, PriceLevel, level, set_level, idx_to_price}
use orderbook_engine.Book.Stock.{same_side, set_at, Queues, IsStocked}
use orderbook_engine.Book.Stock.Queues.{same_side_refl, same_side→eq}
use orderbook_engine.Book.Stock.Same.{IsStocked-levels}
use orderbook_engine.IdMap.{IdMap}
use orderbook_engine.Orders.{Heap}
use orderbook_engine.Orders.Slab.{Slab}
use orderbook_engine.Types.{Side}

abbrev pub with_level : Book → Side → ℕ → PriceLevel → Slab → IdMap → Book
with_level b s i l slab m = record (set_level b s i l) { slab = slab; id_map = m }

update_twice : {A : Type 0} (f : ℕ → A) (i : ℕ) (v w : A) → update (update f i v) i w ≡ update f i w
unfolding update
update_twice f i v w =
    fun_ext λ j. elim (Bool-cases (j == i)) [ inl e ↦ rw e refl | inr ne ↦ rw ne refl ]

pub level-with_level :
    (b : Book) (s : Side) (i : ℕ) (l : PriceLevel) (slab : Slab) (m : IdMap)
    → level (with_level b s i l slab m) s i ≡ l
unfolding level set_level
level-with_level b Side.buy i l slab m = update_self b.bid_levels i l
level-with_level b Side.sell i l slab m = update_self b.ask_levels i l

pub set_level-with_level :
    (b : Book) (s : Side) (i : ℕ) (l l' : PriceLevel) (slab : Slab) (m : IdMap) (h : Heap)
    → set_level (set_storage (with_level b s i l slab m) h) s i l'
      ≡ with_level b s i l' (record slab { storage = h }) m
unfolding set_level
set_level-with_level b Side.buy i l l' slab m h =
    ap
      (λ (z : ℕ → PriceLevel). record b {
        bid_levels = z;
        slab = record slab { storage = h };
        id_map = m;
      })
      (update_twice b.bid_levels i l l')
set_level-with_level b Side.sell i l l' slab m h =
    ap
      (λ (z : ℕ → PriceLevel). record b {
        ask_levels = z;
        slab = record slab { storage = h };
        id_map = m;
      })
      (update_twice b.ask_levels i l l')

pub set_at_self :
    {A : Type 0} (f : Side → ℕ → A) (s : Side) (i : ℕ) (a : A) → set_at f s i a s i ≡ a
set_at_self f s i a = rw (same_side_refl s, ==_refl i) refl

pub set_at-twice :
    {A : Type 0} (f : Side → ℕ → A) (s : Side) (i : ℕ) (a c : A) (s' : Side) (i' : ℕ)
    → set_at (set_at f s i a) s i c s' i' ≡ set_at f s i c s' i'
set_at-twice f s i a c s' i' = elim (Bool-cases (same_side s s' && i' == i)) [
  | inl e ↦ rw e refl
  | inr ne ↦ rw ne refl
]

-- A family of levels changed twice at one place.
pub IsStocked-twice :
    (k n : ℕ) (lv : Side → ℕ → PriceLevel) (slab : Slab) (m : IdMap) (q : Queues) (free : List ℕ)
    (s : Side) (i : ℕ) (l l' : PriceLevel)
    → IsStocked k n (set_at (set_at lv s i l) s i l') slab m q free
    → IsStocked k n (set_at lv s i l') slab m q free
IsStocked-twice k n lv slab m q free s i l l' st =
    IsStocked-levels k n (set_at (set_at lv s i l) s i l') (set_at lv s i l') slab m q free
      (λ s' i'. sym (set_at-twice lv s i l l' s' i')) st

pub set_at-fold :
    {A : Type 0} (f : Side → ℕ → A) (s : Side) (i : ℕ) (a c : A)
    → set_at (set_at f s i a) s i c ≡ set_at f s i c
set_at-fold f s i a c = fun_ext λ s'. fun_ext λ i'. set_at-twice f s i a c s' i'

pub set_at-keep :
    {A : Type 0} (f : Side → ℕ → A) (s : Side) (i : ℕ) (a : A) → f s i ≡ a → set_at f s i a ≡ f
set_at-keep f s i a e = fun_ext λ s'. fun_ext λ i'. elim (Bool-cases (same_side s s' && i' == i)) [
  | inl at ↦
      let es : s ≡ s' = same_side→eq s s' (ground arith) in
      let ei : i' ≡ i = ground arith in rw at (sym e ∙ ap (λ z. f z i) es ∙ ap (f s') (sym ei))
  | inr ne ↦ rw ne refl
]

pub idx_to_price-with_level :
    (b : Book) (s : Side) (i : ℕ) (l : PriceLevel) (slab : Slab) (m : IdMap) (j : ℕ)
    → idx_to_price (with_level b s i l slab m) j ≡ idx_to_price b j
unfolding idx_to_price set_level
idx_to_price-with_level b Side.buy i l slab m j = refl
idx_to_price-with_level b Side.sell i l slab m j = refl
