-- ===== src/Tests/Latencies.antt =====
-- A histogram of a latency of 70 ns.
use orderbook_engine.Base.{ℕ, suc, ◌+◌, ◌/◌, ◌*◌, ◌^◌, ◌≤◌, ◌<◌, ◌≡◌, ◌⊎◌, arith}
use orderbook_engine.Histogram.{
  LatencyHistogram, new, record_ns, log_bucket, log_buckets, threshold_of, percentile,
}
use orderbook_engine.Histogram.Counts.{
  IsCounted, new-IsCounted, record_ns-IsCounted, log_bucket_lem,
}
use orderbook_engine.Histogram.Percentile.{IsPercentile, percentile-IsPercentile}

no_values : new.total + 1 < 2 ^ 64
unfolding new
no_values = omega arith

record_ns-IsCounted_example :
    IsCounted (record_ns new 70)
    × ((record_ns new 70).total ≡ new.total + 1)
    × (new.max ≤ (record_ns new 70).max)
    × (70 ≤ (record_ns new 70).max)
record_ns-IsCounted_example = record_ns-IsCounted new 70 new-IsCounted no_values

log_bucket_lem_example :
    (log_bucket 150000 < log_buckets)
    × (2 ^ log_bucket 150000 ≤ 150000)
    × ((150000 < 2 ^ suc (log_bucket 150000)) ⊎ (log_bucket 150000 ≡ 29))
log_bucket_lem_example = log_bucket_lem 150000 (omega arith)

-- Nine tenths of the total.
abbrev nine_tenths : ℕ → ℕ
nine_tenths total = total * 9 / 10

abbrev one_value : LatencyHistogram
one_value = record_ns new 70

has_value : 0 < one_value.total
has_value = omega (arith, (record_ns-IsCounted new 70 new-IsCounted no_values).1)

percentile-IsPercentile_example :
    IsPercentile one_value (threshold_of nine_tenths one_value) (percentile nine_tenths one_value)
percentile-IsPercentile_example =
    percentile-IsPercentile nine_tenths one_value
      (record_ns-IsCounted new 70 new-IsCounted no_values).0 has_value
