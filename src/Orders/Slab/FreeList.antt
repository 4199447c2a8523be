-- ===== src/Orders/Slab/FreeList.antt =====
-- What the free list of the slab stands for, and the operations of the slab on it.
use orderbook_engine.Base.{
  ℕ, zero, suc, ◌+◌, ◌<◌, ◌^◌, ◌≡◌, ◌≢◌, refl, false, ◌≤◌, none, some, List, [], ◌∷◌, arith, length,
  has, ◌∈◌, ◌∉◌, Distinct,
}
use native.Mathlib.Nat.{zero-add}
use orderbook_engine.Orders.{Ptr, Heap, set_prev}
use orderbook_engine.Orders.Slab.{Slab, thread, new, allocate, deallocate}

-- From `p` the links lead through the slots of the list to null.
abbrev pub Linked : Heap → Ptr → List ℕ → Type 0
Linked h p [] = p ≡ none
Linked h p (x ∷ xs) = (p ≡ some x) × Linked h (h x).prev xs

abbrev pub Below : ℕ → List ℕ → Type 0
Below n [] = Unit {0}
Below n (x ∷ xs) = (x < n) × Below n xs

-- The slots of `free` are the free ones, in the order in which they will be handed out.
pub record HasFree (s : Slab) (free : List ℕ) : Type 0 where
  pub linked : Linked s.storage s.free_head free
  pub distinct : Distinct free
  pub below : Below s.capacity free
  pub counted : s.in_use + length free ≡ s.capacity
  pub fits : s.capacity < 2 ^ 64

-- The links survive any change of the storage that spares them.
pub Linked-frame :
    (h g : Heap) (p : Ptr) (xs : List ℕ)
    → ((x : ℕ) → x ∈ xs → (g x).prev ≡ (h x).prev)
    → Linked h p xs
    → Linked g p xs
Linked-frame h g p [] same l = l
Linked-frame h g p (x ∷ xs) same (e, l) = (
  e,
  rw (same x (ground arith)) (Linked-frame h g (h x).prev xs (λ y i. same y (ground arith)) l),
)

ne_of_mem : (a x : ℕ) (xs : List ℕ) → a ∈ xs → x ∉ xs → a ≢ x
ne_of_mem a x xs i o e = cc

prev-set_prev_ne :
    (h : Heap) (p : ℕ) (q : Ptr) (x : ℕ) → x ≢ p → (set_prev h p q x).prev ≡ (h x).prev
unfolding set_prev
prev-set_prev_ne h p q x ne = ground arith

prev-set_prev : (h : Heap) (p : ℕ) (q : Ptr) → (set_prev h p q p).prev ≡ q
unfolding set_prev
prev-set_prev h p q = ground arith

-- A slot put in front of the free ones.
pub Linked-cons :
    (h : Heap) (p : ℕ) (head : Ptr) (xs : List ℕ)
    → p ∉ xs
    → Linked h head xs
    → Linked (set_prev h p head) (some p) (p ∷ xs)
Linked-cons h p head xs out l = (
  refl,
  rw prev-set_prev (
      Linked-frame h (set_prev h p head) head xs
        (λ x i. prev-set_prev_ne h p head x (ne_of_mem x p xs i out)) l),
)

-- With a slot in use, returning a slot of the storage that is not free puts it in front of the free
-- ones and counts it.
pub deallocate-HasFree :
    (s : Slab) (p : ℕ) (free : List ℕ)
    → HasFree s free
    → p ∉ free
    → p < s.capacity
    → length free < s.capacity
    → HasFree (deallocate s p) (p ∷ free)
unfolding deallocate
deallocate-HasFree s p free v out lt used = record {
  linked = Linked-cons s.storage p s.free_head free out v.linked;
  distinct = (out, v.distinct);
  below = (lt, v.below);
  counted = omega (arith, v.counted, v.fits);
  fits = v.fits;
}

-- With a free slot the slab hands out the first one, leaves the storage alone and counts it.
pub allocate-HasFree :
    (s : Slab) (p : ℕ) (free : List ℕ)
    → HasFree s (p ∷ free)
    → ((allocate s).0 ≡ some p) × HasFree (allocate s).1 free × ((allocate s).1.storage ≡ s.storage)
unfolding allocate
allocate-HasFree s p free v = rw v.linked.0 (
  refl,
  record {
    linked = v.linked.1;
    distinct = v.distinct.1;
    below = v.below.1;
    counted = omega (arith, v.counted, v.fits);
    fits = v.fits;
  },
  refl,
)

-- An exhausted slab hands out null and does not change.
allocate_exhausted : (s : Slab) → HasFree s [] → allocate s ≡ (none, s)
unfolding allocate
allocate_exhausted s v = rw v.linked

-- The slots from `i` up, `n` of them.
abbrev pub slots_from : ℕ → ℕ → List ℕ
slots_from i zero = []
slots_from i (suc n) = i ∷ slots_from (suc i) n

has-slots_from : (x i n : ℕ) → x < i → has x (slots_from i n) ≡ false
has-slots_from x i zero lt = refl
has-slots_from x i (suc n) lt = ground (arith, has-slots_from x (suc i) n)

Distinct-slots_from : (i n : ℕ) → Distinct (slots_from i n)
Distinct-slots_from i zero = tt
Distinct-slots_from i (suc n) =
    (has-slots_from i (suc i) n (omega arith), Distinct-slots_from (suc i) n)

Below-slots_from : (c i n : ℕ) → i + n ≤ c → Below c (slots_from i n)
Below-slots_from c i zero le = tt
Below-slots_from c i (suc n) le = (omega arith, Below-slots_from c (suc i) n (omega arith))

length-slots_from : (i n : ℕ) → length (slots_from i n) ≡ n
length-slots_from i zero = refl
length-slots_from i (suc n) = omega (arith, length-slots_from (suc i) n)

-- The loop threads the slots below `i` in front of those that it has threaded.
thread-Linked :
    (i n : ℕ) (h : Heap) (p : Ptr)
    → Linked h p (slots_from i n)
    → Linked (thread i h p).0 (thread i h p).1 (slots_from 0 (i + n))
unfolding thread
thread-Linked zero n h p l = rw zero-add l
thread-Linked (suc i) n h p l =
    let step =
      thread-Linked i (suc n) (set_prev h i p) (some i)
        (Linked-cons h i p _ (has-slots_from i (suc i) n (omega arith)) l) in
    let e : suc i + n ≡ i + suc n = omega arith in rw e step

-- Of a capacity below 2 ^ 64 the constructor leaves every slot free, in ascending order, so that slot 0
-- is handed out first.
pub new-HasFree :
    (raw : Heap) (capacity : ℕ)
    → capacity < 2 ^ 64
    → HasFree (new raw capacity) (slots_from 0 capacity)
unfolding new
new-HasFree raw capacity fits = record {
  linked =
      let e : capacity + 0 ≡ capacity = omega arith in
      rw e at (thread-Linked capacity 0 raw none refl);
  distinct = Distinct-slots_from 0 capacity;
  below = Below-slots_from capacity 0 capacity (omega arith);
  counted = omega (arith, length-slots_from 0 capacity);
  fits = fits;
}
