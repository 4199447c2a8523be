-- ===== src/Histogram/Percentile.antt =====
-- What `percentile` answers.
use mathlib.Core.Path.{subst}
use orderbook_engine.Base.{
  ℕ, zero, suc, ◌+◌, ◌%◌, ◌^◌, ◌≤◌, ◌<◌, ◌≡◌, ap, false, leb, ◌==◌, Bool-cases, inl, inr, Option,
  none, some, arith,
}
use native.Mathlib.Nat.{zero-add}
use orderbook_engine.Base.Sums.{sum}
use orderbook_engine.Histogram.{
  LatencyHistogram, linear_max, log_buckets, scan, threshold_of, log_percentile, percentile,
}
use orderbook_engine.Histogram.Counts.{IsCounted}

-- `base` values and those of the first `n` buckets: either the bucket `c` is the first with which they reach
-- the threshold, or they do not reach it.
abbrev pub Reaches : (base : ℕ) → (ℕ → ℕ) → (n threshold : ℕ) → Option ℕ × ℕ → Type 0
Reaches base a n threshold (some c, running) =
    (c < n) × (base + sum a c < threshold) × (threshold ≤ base + sum a (suc c))
Reaches base a n threshold (none, running) =
    (base + sum a n < threshold) × (running ≡ base + sum a n)

scan-Reaches :
    (k : ℕ) (a : ℕ → ℕ) (i base running threshold : ℕ)
    → running ≡ base + sum a i
    → running < threshold
    → base + sum a (i + k) < 2 ^ 64
    → Reaches base a (i + k) threshold (scan k a i running threshold)
unfolding scan
scan-Reaches zero a i base running threshold e lt small =
    subst (λ n. (base + sum a n < threshold) × (running ≡ base + sum a n))
      (let z : i ≡ i + 0 = omega arith in z) (omega (arith, e, lt), e)
scan-Reaches (suc k) a i base running threshold e lt small =
    let n : i + suc k ≡ suc i + k = omega arith in
    let bound = sum_mono a (suc i) k in
    let small' : base + sum a (suc i + k) < 2 ^ 64 = subst (λ z. base + sum a z < 2 ^ 64) n small in
    let step : (running + a i) % 2 ^ 64 ≡ base + sum a (suc i) = omega (arith, e, bound, small') in
    let i' : i + 1 ≡ suc i = omega arith in
    elim (Bool-cases (leb threshold ((running + a i) % 2 ^ 64))) [
      | inl reached ↦ rw reached (
        omega arith,
        omega (arith, e, lt),
        (let z : threshold ≤ (running + a i) % 2 ^ 64 = ground arith in omega (arith, z, step)),
      )
      | inr below ↦
          rw (below, i', n) (scan-Reaches k a (suc i) base _ threshold step (ground arith) small')
    ]
  where
    sum_mono : (a : ℕ → ℕ) (i k : ℕ) → sum a i ≤ sum a (i + k)
    sum_mono a i zero = (let z : i + 0 ≡ i = omega arith in rw z (omega arith))
    sum_mono a i (suc k) =
        (let z : i + suc k ≡ suc (i + k) = omega arith in rw z (omega (arith, sum_mono a i k)))

-- The answer is the value of a linear bucket, the lower edge of another one, or the maximum, and the buckets
-- up to it are the first with which the count reaches the threshold.
pub data IsPercentile (h : LatencyHistogram) (threshold : ℕ) : ℕ → Type 0 where
  in_linear :
      (ns : ℕ)
      → ns < linear_max
      → sum h.linear ns < threshold
      → threshold ≤ sum h.linear (suc ns)
      → IsPercentile h threshold ns
  in_log :
      (b : ℕ)
      → b < log_buckets
      → sum h.linear linear_max + sum h.log b < threshold
      → threshold ≤ sum h.linear linear_max + sum h.log (suc b)
      → IsPercentile h threshold (2 ^ b)
  above : h.total < threshold → IsPercentile h threshold h.max

threshold_pos : (scaled : ℕ → ℕ) (h : LatencyHistogram) → 0 < threshold_of scaled h
threshold_pos scaled h = ground arith

log_percentile-IsPercentile :
    (h : LatencyHistogram) (threshold : ℕ) (r : Option ℕ × ℕ)
    → IsCounted h
    → Reaches 0 h.linear linear_max threshold r
    → IsPercentile h threshold (log_percentile h threshold r)
unfolding log_percentile
log_percentile-IsPercentile h threshold (some i, running) v (lt, lo, hi) =
    IsPercentile.in_linear i lt (omega (arith, lo)) (omega (arith, hi))
log_percentile-IsPercentile h threshold (none, running) v (lt, e) =
    let all = sum h.linear linear_max in
    let r =
      scan-Reaches log_buckets h.log 0 all running threshold (omega (arith, e))
        (omega (arith, lt, e)) (rw zero-add (omega (arith, v.counted, v.word))) in
    go (scan log_buckets h.log 0 running threshold) (rw zero-add at r)
  where
    go :
        (r : Option ℕ × ℕ)
        → Reaches (sum h.linear linear_max) h.log log_buckets threshold r
        → IsPercentile h threshold (elim r.0 [ some b ↦ 2 ^ b | none ↦ h.max ])
    go (some b, running') (lb, lo, hi) = IsPercentile.in_log b lb lo hi
    go (none, running') (below, e') = IsPercentile.above (omega (arith, below, v.counted))

-- With values recorded, `percentile` answers the value of the first linear bucket, or the lower edge of the
-- first other one, with which the count reaches the threshold; if the total is below it, the maximum.
pub percentile-IsPercentile :
    (scaled : ℕ → ℕ) (h : LatencyHistogram)
    → IsCounted h
    → 0 < h.total
    → IsPercentile h (threshold_of scaled h) (percentile scaled h)
unfolding percentile
percentile-IsPercentile scaled h v pos =
    let some_values : (h.total == 0) ≡ false = ground arith in
    let t = threshold_of scaled h in
    let e : 0 + linear_max ≡ linear_max = omega arith in
    let same = ap (sum h.linear) e in
    let r =
      scan-Reaches linear_max h.linear 0 0 0 t (omega arith) (threshold_pos scaled h)
        (omega (arith, same, v.counted, v.word)) in
    rw some_values (
      log_percentile-IsPercentile h t (scan linear_max h.linear 0 0 t) v
        (subst (λ n. Reaches 0 h.linear n t (scan linear_max h.linear 0 0 t)) e r))
