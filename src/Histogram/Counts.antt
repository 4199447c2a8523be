-- ===== src/Histogram/Counts.antt =====
-- What the buckets count.
use native.Mathlib.Nat.{pow-suc}
use orderbook_engine.Base.{
  ℕ, zero, suc, ◌+◌, ◌/◌, ◌%◌, ◌^◌, ◌≤◌, ◌<◌, ◌≡◌, refl, sym, ◌∙◌, ltb, Bool-cases, inl, inr, ◌⊎◌,
  arith, update, update_self, update_ne,
}
use orderbook_engine.Base.Sums.{sum, sum-zero, sum-split}
use orderbook_engine.Histogram.{
  LatencyHistogram, linear_max, log_buckets, new, bucket_loop, log_bucket, bump, count_ns,
  record_ns,
}

-- The buckets count as many values as the total says.
pub record IsCounted (h : LatencyHistogram) : Type 0 where
  pub counted : sum h.linear linear_max + sum h.log log_buckets ≡ h.total
  pub word : h.total < 2 ^ 64

pub new-IsCounted : IsCounted new
unfolding new
new-IsCounted = record {
  counted =
      (let e = sum-zero (λ i. 0) linear_max (λ j lt. refl) in
        let f = sum-zero (λ i. 0) log_buckets (λ j lt. refl) in omega (arith, e, f));
  word = omega arith;
}

-- The loop ends at the bucket of the value's highest bit, or at the last one.
bucket_loop_lem :
    (k v b : ℕ)
    → 1 ≤ v
    → (c : ℕ) × (bucket_loop k v b ≡ b + c) × (c ≤ k) × (2 ^ c ≤ v) × ((v < 2 ^ suc c) ⊎ (c ≡ k))
unfolding bucket_loop
bucket_loop_lem zero v b pos = (0, omega arith, omega arith, omega arith, inr refl)
bucket_loop_lem (suc k) v b pos = elim (Bool-cases (ltb 1 v)) [
  | inr one ↦ (0, rw one (omega arith), omega arith, omega arith, inl (ground arith))
  | inl more ↦
      let (c, e, le, lo, hi) = bucket_loop_lem k (v / 2) (b + 1) (ground arith) in
      (
        suc c,
        rw more (e ∙ (let z : b + 1 + c ≡ b + suc c = omega arith in z)),
        omega arith,
        omega (arith, lo, pow-suc 2 c),
        elim hi [
          | inl lt ↦ inl (omega (arith, lt, pow-suc 2 (suc c)))
          | inr end ↦ inr (omega (arith, end))
        ],
      )
]

-- A positive value has a bucket among the logarithmic ones, whose lower edge is at most the value; the upper
-- edge is beyond it, unless the bucket is the last one.
pub log_bucket_lem :
    (ns : ℕ)
    → 1 ≤ ns
    → (log_bucket ns < log_buckets)
      × (2 ^ log_bucket ns ≤ ns)
      × ((ns < 2 ^ suc (log_bucket ns)) ⊎ (log_bucket ns ≡ 29))
unfolding log_bucket log_buckets
log_bucket_lem ns pos =
    let (c, e, le, lo, hi) = bucket_loop_lem 29 ns 0 pos in
    let e' : bucket_loop 29 ns 0 ≡ c = omega (arith, e) in rw e' (omega (arith, le), lo, hi)

-- A bucket that is counted up by one counts up the sum.
sum-bump : (a : ℕ → ℕ) (n i : ℕ) → i < n → sum a n + 1 < 2 ^ 64 → sum (bump a i) n ≡ sum a n + 1
sum-bump a n i lt small =
    let g = update a i 0 in
    let zero_at : g i ≡ 0 = update_self a i 0 in
    let before = sum-split a g n i lt zero_at (λ j lj ne. sym (update_ne a i 0 j ne)) in
    let after =
      sum-split (bump a i) g n i lt zero_at
        (λ j lj ne. update_ne a i ((a i + 1) % 2 ^ 64) j ne ∙ sym (update_ne a i 0 j ne)) in
    let own : bump a i i ≡ (a i + 1) % 2 ^ 64 = update_self a i ((a i + 1) % 2 ^ 64) in
    omega (arith, before, after, own, small)

linear_max_lem : linear_max ≡ 100000
unfolding linear_max
linear_max_lem = refl

-- Recording a value, with fewer than 2 ^ 64 - 1 recorded before, leaves the buckets counting as many values as the
-- total says. The total is one more, and the maximum is at least what it was and the value.
pub record_ns-IsCounted :
    (h : LatencyHistogram) (ns : ℕ)
    → IsCounted h
    → h.total + 1 < 2 ^ 64
    → IsCounted (record_ns h ns)
      × ((record_ns h ns).total ≡ h.total + 1)
      × (h.max ≤ (record_ns h ns).max)
      × (ns ≤ (record_ns h ns).max)
unfolding record_ns count_ns
record_ns-IsCounted h ns v room = elim (Bool-cases (ltb ns linear_max)) [
  | inl near ↦
      let e = sum-bump h.linear linear_max ns (ground arith) (omega (arith, v.counted, room)) in
      rw near (
        record { counted = omega (arith, e, v.counted, room); word = omega arith },
        omega (arith, room),
        ground arith,
        ground arith,
      )
  | inr far ↦
      let pos : 1 ≤ ns =
        (let le : linear_max ≤ ns = ground arith in omega (arith, le, linear_max_lem)) in
      let e =
        sum-bump h.log log_buckets (log_bucket ns) (log_bucket_lem ns pos).0
          (omega (arith, v.counted, room)) in
      rw far (
        record { counted = omega (arith, e, v.counted, room); word = omega arith },
        omega (arith, room),
        ground arith,
        ground arith,
      )
]
