-- ===== src/Book/Stock/Fresh.antt =====
-- The book that the constructor makes.
use native.Mathlib.Nat.{pow-suc}
use mathlib.Core.Path.{subst}
use orderbook_engine.Base.{
  ℕ, zero, suc, ◌+◌, ◌*◌, ◌%◌, ◌^◌, ◌≤◌, ◌<◌, ◌≡◌, refl, sym, ◌∙◌, false, some, Bool-cases, inl,
  inr, [], ltb, arith,
}
use orderbook_engine.Book.State.{
  Book, Config, level, empty_level, pow2_loop, next_pow2, new_with_table, new,
}
use orderbook_engine.Base.Steps.{>>=-some}
use orderbook_engine.Book.Stock.{IsLevel, Queues, IsStockedBook}
use orderbook_engine.IdMap
use orderbook_engine.IdMap.Init.{new-IsOrdered}
use orderbook_engine.IdMap.Ordered.{IsOrdered, IsVacant}
use orderbook_engine.Orders.{Heap}
use orderbook_engine.Orders.Slab
use orderbook_engine.Orders.Slab.FreeList.{new-HasFree, slots_from}
use orderbook_engine.Types.{Side}

pow2_loop_lem :
    (k j n : ℕ)
    → n ≤ 2 ^ (j + k)
    → 2 ^ j < 2 * n
    → n < 2 ^ 62
    → (p : ℕ) × (pow2_loop (suc k) (2 ^ j) n ≡ some p) × (n ≤ p) × (p < 2 * n)
unfolding pow2_loop
pow2_loop_lem zero j n enough lt small =
    let e : n ≤ 2 ^ j = subst (λ z. n ≤ 2 ^ z) (let e : j + 0 ≡ j = omega arith in e) enough in
    let done : ltb (2 ^ j) n ≡ false = ground arith in (2 ^ j, rw done refl, e, lt)
pow2_loop_lem (suc k) j n enough lt small = elim (Bool-cases (ltb (2 ^ j) n)) [
  | inr full ↦ (2 ^ j, rw full refl, ground arith, lt)
  | inl more ↦
      let below : 2 ^ j < n = ground arith in
      let e : 2 ^ j * 2 % 2 ^ 64 ≡ 2 ^ suc j = omega (arith, pow-suc 2 j) in
      let enough' : n ≤ 2 ^ (suc j + k) =
        subst (λ z. n ≤ 2 ^ z) (let e : j + suc k ≡ suc j + k = omega arith in e) enough in
      rw (more, e) (pow2_loop_lem k (suc j) n enough' (omega (arith, pow-suc 2 j)) small)
]

-- `next_pow2` ends and rounds up by less than a factor of two.
pub next_pow2_lem :
    (n : ℕ) → 1 ≤ n → n < 2 ^ 62 → (p : ℕ) × (next_pow2 n ≡ some p) × (n ≤ p) × (p < 2 * n)
unfolding next_pow2
next_pow2_lem n pos small = pow2_loop_lem 64 0 n (omega arith) (omega arith) small

abbrev pub no_queues : Queues
no_queues s i = []

level-new_with_table :
    (raw : Heap) (cfg : Config) (size : ℕ) (s : Side) (i : ℕ)
    → level (new_with_table raw cfg size) s i ≡ empty_level
unfolding level new_with_table
level-new_with_table raw cfg size Side.buy i = refl
level-new_with_table raw cfg size Side.sell i = refl

-- A book is stocked with empty queues where its levels are empty, all slots are free and its table is
-- ordered and empty.
pub empty-IsStockedBook :
    (k : ℕ) (raw : Heap) (cfg : Config) (size : ℕ)
    → cfg.max_orders < 2 ^ 32
    → 0 < 2 ^ k
    → IsOrdered k (new_with_table raw cfg size).id_map
    → ((p : ℕ) → p < 2 ^ k → IsVacant k (new_with_table raw cfg size).id_map p)
    → IsStockedBook k (new_with_table raw cfg size) no_queues (slots_from 0 cfg.max_orders)
unfolding new_with_table
empty-IsStockedBook k raw cfg size small pos table vacant = record {
  levels = λ s i lt. rw (level-new_with_table raw cfg size s i) (bare s i);
  slots = new-HasFree raw cfg.max_orders (omega (arith, small));
  small = (unfold Slab.new in small);
  used = λ x w. (let m = w.member in absurd (cc));
  listed = λ x w. (let m = w.member in absurd (cc));
  only = λ id v j sv. absurd (sv.ne_zero (sym sv.holds_id ∙ (vacant j sv.in_table).empty));
  table = table;
  vacancy = 0;
  vacant = vacant 0 pos;
}
  where
    bare :
        (s : Side) (i : ℕ) → IsLevel s i (new_with_table raw cfg size).slab.storage empty_level []
    bare s i = record {
      fifo = (refl, refl);
      distinct = tt;
      count = refl;
      total = refl;
      members = λ x m. absurd (cc);
    }

-- For one order up to 2 ^ 32 - 1 of them the constructor returns a book that is stocked with empty queues: its
-- levels are empty, all its slots are free in ascending order, and its table is ordered, with no id and at
-- least twice as many slots.
pub new-IsStockedBook :
    (raw : Heap) (cfg : Config)
    → 1 ≤ cfg.max_orders
    → cfg.max_orders < 2 ^ 32
    → (k : ℕ) × (b : Book) × (new raw cfg ≡ some b)
      × IsStockedBook k b no_queues (slots_from 0 cfg.max_orders)
      × (2 * cfg.max_orders ≤ 2 ^ k)
unfolding new
new-IsStockedBook raw cfg pos small =
    let size = cfg.max_orders * 2 % 2 ^ 64 in
    let (p, run, above, below) = next_pow2_lem size (omega arith) (omega arith) in
    let (k, table, _, room, _, vacant, _) = new-IsOrdered p (omega arith) (omega arith) in
    let e : (new_with_table raw cfg p).id_map ≡ IdMap.new p = (unfold new_with_table in refl) in
    (
      k,
      new_with_table raw cfg p,
      >>=-some (next_pow2 size) _ run,
      empty-IsStockedBook k raw cfg p small (omega arith) (subst (IsOrdered k) (sym e) table)
          (λ p lt. subst (λ z. IsVacant k z p) (sym e) (vacant p lt)),
      omega arith,
    )
