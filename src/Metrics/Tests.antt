-- ===== src/Metrics/Tests.antt =====
-- Instances of the theorems on the recorder of delays.
use lowlat_stream.Base.{◌-◌, ◌*◌, ◌≤◌, ◌<◌, ◌≡◌, ◌⊎◌, refl, List, [], ◌∷◌, arith}
use lowlat_stream.Base.Int.{ℤ, pos, ◌≤ℤ◌}
use lowlat_stream.DelayEstimator.{sort, insert}
use lowlat_stream.DelayEstimator.Percentile.{count_at_most, count_at_least}
use lowlat_stream.Metrics.{LatencyRecorder, no_samples, add, rank, percentile, summarize_latency}
use lowlat_stream.Metrics.Rank.{percentile_lem}
use lowlat_stream.Metrics.Summary.{add_all, summarize_latency_lem}

abbrev delays : List ℤ
delays = pos 30 ∷ pos 12 ∷ pos 90 ∷ pos 41 ∷ []

abbrev recorder : LatencyRecorder
recorder = record { samples = delays; max = pos 90 }

-- The half of four samples is two of them.
median : (percentile recorder (pos 50)).0 ≡ pos 30
unfolding percentile rank sort insert
median = refl

recorded : add_all no_samples delays ≡ recorder
unfolding add
recorded = refl

percentile_lem_example :
    let v = (percentile recorder (pos 50)).0 in
    (50 * 4 ≤ 100 * count_at_most v delays)
    × ((100 * (4 - count_at_least v delays) < 50 * 4) ⊎ (50 * 4 ≡ 0))
percentile_lem_example = percentile_lem recorder 50 (omega arith) (omega arith)

summarize_latency_lem_example :
    let s = (summarize_latency (add_all no_samples delays)).0 in
    (s.p50_ms ≤ℤ s.p95_ms) × (s.p95_ms ≤ℤ s.p99_ms) × (s.p99_ms ≤ℤ s.max_ms)
summarize_latency_lem_example = summarize_latency_lem (pos 30) (pos 12 ∷ pos 90 ∷ pos 41 ∷ [])
