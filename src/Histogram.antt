-- ===== src/Histogram.antt =====
-- `LatencyHistogram` of include/lob/histogram.hpp. The product of the total and a fraction, computed in
-- floating point and cut off, is a function `scaled` of the total.
pub mod Counts
pub mod Percentile
use orderbook_engine.Base.{
  ℕ, zero, suc, ◌+◌, ◌/◌, ◌%◌, ◌^◌, Option, none, some, List, [], ◌∷◌, ◌++◌, ltb, leb, ◌==◌,
  if◌then◌else◌, update,
}

-- `kLinearMax` and `kLogBuckets`
unfoldable pub linear_max : ℕ
linear_max = 100000

unfoldable pub log_buckets : ℕ
log_buckets = 30

pub record LatencyHistogram : Type 0 where
  pub linear : ℕ → ℕ
  pub log : ℕ → ℕ
  pub total : ℕ
  pub max : ℕ
  pub sum_ns : ℕ

unfoldable pub new : LatencyHistogram
new = record { linear = λ i. 0; log = λ i. 0; total = 0; max = 0; sum_ns = 0 }

-- `while (v > 1 && bucket < kLogBuckets - 1) { v >>= 1; ++bucket; }` with `k` buckets to go
unfoldable pub bucket_loop : (k v bucket : ℕ) → ℕ
bucket_loop zero v bucket = bucket
bucket_loop (suc k) v bucket =
    let rest = bucket_loop k (v / 2) (bucket + 1) in if ltb 1 v then rest else bucket

unfoldable pub log_bucket : (ns : ℕ) → ℕ
log_bucket ns = bucket_loop 29 ns 0

-- `++a[i]` in an array of 64-bit counters
abbrev pub bump : (ℕ → ℕ) → ℕ → ℕ → ℕ
bump a i = update a i ((a i + 1) % 2 ^ 64)

unfoldable pub count_ns : LatencyHistogram → (ns : ℕ) → LatencyHistogram
count_ns h ns =
    if ltb ns linear_max
    then record h { linear = bump h.linear ns }
    else record h { log = bump h.log (log_bucket ns) }

-- `LatencyHistogram::record`
unfoldable pub record_ns : LatencyHistogram → (ns : ℕ) → LatencyHistogram
record_ns h ns =
    let h' = count_ns h ns in
    record h' {
      total = (h'.total + 1) % 2 ^ 64;
      max = if ltb h'.max ns then ns else h'.max;
      sum_ns = (h'.sum_ns + ns) % 2 ^ 64;
    }

-- A loop of `percentile` from the bucket `i` on, with `k` buckets to go: the bucket at which the running
-- count reaches the threshold, and the running count.
unfoldable pub scan : (k : ℕ) → (ℕ → ℕ) → (i running threshold : ℕ) → Option ℕ × ℕ
scan zero a i running threshold = (none, running)
scan (suc k) a i running threshold =
    let running' = (running + a i) % 2 ^ 64 in
    let rest = scan k a (i + 1) running' threshold in
    if leb threshold running' then (some i, running') else rest

abbrev pub threshold_of : (scaled : ℕ → ℕ) → LatencyHistogram → ℕ
threshold_of scaled h = if scaled h.total == 0 then 1 else scaled h.total

-- What follows the loop over the linear buckets, and then the one over the others.
unfoldable pub log_percentile : LatencyHistogram → (threshold : ℕ) → Option ℕ × ℕ → ℕ
log_percentile h threshold (some i, running) = i
log_percentile h threshold (none, running) = elim (scan log_buckets h.log 0 running threshold).0 [
  | some b ↦ 2 ^ b
  | none ↦ h.max
]

unfoldable pub percentile : (scaled : ℕ → ℕ) → LatencyHistogram → ℕ
percentile scaled h =
    let threshold = threshold_of scaled h in
    let found = log_percentile h threshold (scan linear_max h.linear 0 0 threshold) in
    if h.total == 0 then 0 else found

-- The rows of a loop of `write_csv`: the buckets that are not empty, each with the name that `edge` gives it.
unfoldable pub rows : (k : ℕ) → (ℕ → ℕ) → (edge : ℕ → ℕ) → (i : ℕ) → List (ℕ × ℕ)
rows zero a edge i = []
rows (suc k) a edge i =
    let rest = rows k a edge (i + 1) in if a i == 0 then rest else (edge i, a i) ∷ rest

-- The rows of `write_csv`, without its first line.
unfoldable pub write_csv : LatencyHistogram → List (ℕ × ℕ)
write_csv h = rows linear_max h.linear (λ i. i) 0 ++ rows log_buckets h.log (λ b. 2 ^ b) 0
