-- ===== src/Book/Stock/Queues.antt =====
-- Queues, levels and quantities under changes of the storage.
use mathlib.Core.Path.{subst}
use orderbook_engine.Base.{
  ℕ, zero, suc, ◌+◌, ◌-◌, ◌%◌, ◌^◌, ◌≤◌, ◌<◌, ◌≡◌, refl, sym, ap, ◌∙◌, true, not, ◌&&◌, none, ◌==◌,
  ==→eq, Bool-cases, inl, inr, if◌then◌else◌, List, [], ◌∷◌, ◌++◌, length, length-append, has,
  has-append, ◌∈◌, ◌∉◌, Distinct, arith, update,
}
use orderbook_engine.Book.State.{Book, PriceLevel, level, set_level}
use orderbook_engine.Book.Stock.{
  same_side, set_at, quantities, IsResting, IsLevel, Queues, IsStocked,
}
use orderbook_engine.Orders.{Heap, Order}
use orderbook_engine.Orders.Fifo.{unlink}
use orderbook_engine.Orders.Fifo.Links.{IsFifo, Seg-frame, payload}
use orderbook_engine.Orders.Fifo.Unlink.{unlink_lem}
use orderbook_engine.IdMap.{IdMap}
use orderbook_engine.Orders.Slab.{Slab}
use orderbook_engine.Orders.Slab.FreeList.{Below}
use orderbook_engine.Types.{Side}

pub level-set_level :
    (b : Book) (s : Side) (i : ℕ) (l : PriceLevel) (s' : Side) (i' : ℕ)
    → level (set_level b s i l) s' i' ≡ set_at (level b) s i l s' i'
unfolding level set_level update
level-set_level b Side.buy i l Side.buy i' = refl
level-set_level b Side.buy i l Side.sell i' = refl
level-set_level b Side.sell i l Side.buy i' = refl
level-set_level b Side.sell i l Side.sell i' = refl

pub same_side_refl : (s : Side) → same_side s s ≡ true
same_side_refl Side.buy = refl
same_side_refl Side.sell = refl

pub same_side→eq : (s s' : Side) → same_side s s' ≡ true → s ≡ s'
same_side→eq Side.buy Side.buy e = refl
same_side→eq Side.buy Side.sell e = absurd (ground arith)
same_side→eq Side.sell Side.buy e = absurd (ground arith)
same_side→eq Side.sell Side.sell e = refl

pub quantities-append :
    (h : Heap) (xs ys : List ℕ) → quantities h (xs ++ ys) ≡ quantities h xs + quantities h ys
quantities-append h [] ys = omega arith
quantities-append h (x ∷ xs) ys = omega (arith, quantities-append h xs ys)

-- The sum looks at the quantities of the list's orders.
pub quantities-same :
    (h g : Heap) (xs : List ℕ)
    → ((x : ℕ) → x ∈ xs → (g x).quantity ≡ (h x).quantity)
    → quantities g xs ≡ quantities h xs
quantities-same h g [] same = refl
quantities-same h g (x ∷ xs) same =
    let e = same x (ground arith) in
    let rest = quantities-same h g xs (λ y i. same y (ground arith)) in omega (arith, e, rest)

pub IsResting-payload :
    (s : Side) (i : ℕ) (o p : Order) → payload p ≡ payload o → IsResting s i o → IsResting s i p
IsResting-payload s i o p e r = record {
  side = ap (λ (z : Order). z.side) e ∙ r.side;
  level_idx = ap (λ (z : Order). z.level_idx) e ∙ r.level_idx;
  some_left = (let f = ap (λ (z : Order). z.quantity) e in omega (arith, f, r.some_left));
  word = (let f = ap (λ (z : Order). z.quantity) e in omega (arith, f, r.word));
}

-- A level looks at the storage in its orders' slots only.
pub IsLevel-frame :
    (s : Side) (i : ℕ) (h g : Heap) (l : PriceLevel) (xs : List ℕ)
    → ((x : ℕ) → x ∈ xs → g x ≡ h x)
    → IsLevel s i h l xs
    → IsLevel s i g l xs
IsLevel-frame s i h g l xs same v = record {
  fifo = Seg-frame h g none l.orders.head xs l.orders.tail none same v.fifo;
  distinct = v.distinct;
  count = v.count;
  total =
      v.total
      ∙ ap (λ (z : ℕ). z % 2 ^ 32)
          (sym (quantities-same h g xs (λ x m. ap (λ (z : Order). z.quantity) (same x m))));
  members = λ x m. subst (λ z. IsResting s i z) (sym (same x m)) (v.members x m);
}

-- A list without repetition of numbers below `n` has at most `n` of them.
without : ℕ → List ℕ → List ℕ
without a [] = []
without a (x ∷ xs) = let rest = without a xs in if a == x then rest else x ∷ rest

has-without : (a y : ℕ) (xs : List ℕ) → has y (without a xs) ≡ (not (y == a) && has y xs)
unfolding without
has-without a y [] = ground arith
has-without a y (x ∷ xs) = ground (arith, has-without a y xs)

length-without_out : (a : ℕ) (xs : List ℕ) → a ∉ xs → length (without a xs) ≡ length xs
unfolding without
length-without_out a [] o = refl
length-without_out a (x ∷ xs) o = ground (arith, length-without_out a xs)

length-without : (a : ℕ) (xs : List ℕ) → Distinct xs → length xs ≤ suc (length (without a xs))
unfolding without
length-without a [] d = omega arith
length-without a (x ∷ xs) (o, d) = ground (arith, length-without a xs, length-without_out a xs)

Distinct-without : (a : ℕ) (xs : List ℕ) → Distinct xs → Distinct (without a xs)
unfolding without
Distinct-without a [] d = tt
Distinct-without a (x ∷ xs) (o, d) = elim (Bool-cases (a == x)) [
  | inl e ↦ rw e (Distinct-without a xs d)
  | inr ne ↦ rw ne (ground (arith, has-without a x xs), Distinct-without a xs d)
]

pub length-Distinct :
    (n : ℕ) (xs : List ℕ) → Distinct xs → ((x : ℕ) → x ∈ xs → x < n) → length xs ≤ n
length-Distinct zero [] d h = omega arith
length-Distinct zero (x ∷ xs) d h = absurd (let lt = h x (ground arith) in omega arith)
length-Distinct (suc n) xs d h =
    let le =
      length-Distinct n (without n xs) (Distinct-without n xs d)
        (λ x m. (let c = has-without n x xs in let lt = h x (ground arith) in ground arith)) in
    omega (arith, length-without n xs d)

pub lt_of_Below : (n : ℕ) (xs : List ℕ) → Below n xs → (x : ℕ) → x ∈ xs → x < n
lt_of_Below n [] b x m = absurd (ground arith)
lt_of_Below n (y ∷ xs) (lt, b) x m = elim (Bool-cases (x == y)) [
  | inl e ↦ (let q = ==→eq x y e in omega arith)
  | inr ne ↦ lt_of_Below n xs b x (ground arith)
]

pub Distinct-removed : (xs ys : List ℕ) (x : ℕ) → Distinct (xs ++ x ∷ ys) → Distinct (xs ++ ys)
Distinct-removed [] ys x (o, d) = d
Distinct-removed (a ∷ xs) ys x (o, d) =
    (ground (arith, has-append a xs (x ∷ ys), has-append a xs ys), Distinct-removed xs ys x d)

pub out_of_removed : (xs ys : List ℕ) (x : ℕ) → Distinct (xs ++ x ∷ ys) → x ∉ xs ++ ys
out_of_removed [] ys x (o, d) = o
out_of_removed (a ∷ xs) ys x (o, d) =
    ground (arith, has-append a xs (x ∷ ys), out_of_removed xs ys x d)

-- Taking the order `x` out of the links of a level, whose other orders are as they should be.
pub unlink-IsLevel :
    (s : Side) (i : ℕ) (h : Heap) (l : PriceLevel) (x : ℕ) (xs ys : List ℕ) (total : ℕ)
    → IsFifo h l.orders (xs ++ x ∷ ys)
    → Distinct (xs ++ x ∷ ys)
    → l.count ≡ length (xs ++ x ∷ ys)
    → l.count < 2 ^ 32
    → ((y : ℕ) → y ∈ xs ++ ys → IsResting s i (h y))
    → total ≡ quantities h (xs ++ ys) % 2 ^ 32
    → IsLevel s i
        (unlink h l.orders x).0
        (record {
          orders = (unlink h l.orders x).1;
          total_qty = total;
          count = (l.count + 2 ^ 32 - 1) % 2 ^ 32;
        })
        (xs ++ ys)
unlink-IsLevel s i h l x xs ys total f d c small rest sum =
    let (g, r) = unlink_lem h l.orders x xs ys f d in
    record {
      fifo = g;
      distinct = Distinct-removed xs ys x d;
      count = omega (arith, length-append xs (x ∷ ys), length-append xs ys);
      total =
          sum
          ∙ ap (λ (z : ℕ). z % 2 ^ 32)
              (sym (
                quantities-same h (unlink h l.orders x).0 (xs ++ ys)
                  (λ y m. ap (λ (z : Order). z.quantity) (r.payloads y))));
      members = λ y m. IsResting-payload s i (h y) _ (r.payloads y) (rest y m);
    }

-- No queue is longer than the slab.
pub length-queue :
    (k n : ℕ) (lv : Side → ℕ → PriceLevel) (slab : Slab) (m : IdMap) (q : Queues) (free : List ℕ)
    → IsStocked k n lv slab m q free
    → (s : Side) (i : ℕ) → i < n
    → length (q s i) ≤ slab.capacity
length-queue k n lv slab m q free st s i lt =
    length-Distinct slab.capacity (q s i) (st.levels s i lt).distinct
      (λ x mem. (st.used x (record { s = s; i = i; below = lt; member = mem })).0)
