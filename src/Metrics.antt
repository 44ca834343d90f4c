-- ===== src/Metrics.antt =====
-- common/Metrics.h and Metrics.cpp: the delays of the frames that were rendered, and what
-- ReceiverPipeline.cpp sums up of them. A number of uint32_t is a ℤ here, so
-- that the sort of DelayEstimator serves.
pub mod Rank
pub mod Summary
pub mod Tests
use lowlat_stream.Base.{
  ℕ, ◌+◌, ◌-◌, ◌*◌, ◌/◌, ◌%◌, ◌==◌, if◌then◌else◌, List, [], ◌∷◌, ◌++◌, length, get_or,
}
use lowlat_stream.Base.Int.{ℤ, pos, pos_part, ltb_ℤ, clamp_ℤ}
use lowlat_stream.DelayEstimator.{sort}

pub record LatencyRecorder : Type 0 where
  pub samples : List ℤ
  pub max : ℤ

pub record LatencySummary : Type 0 where
  pub samples : ℕ
  pub p50_ms : ℤ
  pub p95_ms : ℤ
  pub p99_ms : ℤ
  pub max_ms : ℤ

abbrev pub no_samples : LatencyRecorder
no_samples = record { samples = []; max = pos 0 }

unfoldable pub add : LatencyRecorder → ℤ → LatencyRecorder
add r sample_ms = record {
  samples = r.samples ++ (sample_ms ∷ []);
  max = if ltb_ℤ r.max sample_ms then sample_ms else r.max;
}

-- The part of `count` hundreds and the rest apart, rounded up.
unfoldable pub rank : ℕ → ℕ → ℕ
rank count percentile = count / 100 * percentile + (count % 100 * percentile + 99) / 100

abbrev pub index_of : ℕ → ℕ → ℕ
index_of count percentile = let r = rank count percentile in if r == 0 then 0 else r - 1

-- The samples stay sorted.
unfoldable pub percentile : LatencyRecorder → ℤ → ℤ × LatencyRecorder
percentile r p =
    let sorted = sort r.samples in
    let index = index_of (length sorted) (pos_part (clamp_ℤ p (pos 0) (pos 100))) in
    if length r.samples == 0
    then (pos 0, r)
    else (get_or sorted index (pos 0), record r { samples = sorted })

unfoldable pub reset : LatencyRecorder → LatencyRecorder
reset r = record { samples = []; max = pos 0 }

unfoldable pub summarize_latency : LatencyRecorder → LatencySummary × LatencyRecorder
summarize_latency r =
    let n = length r.samples in
    if n == 0
    then (record { samples = n; p50_ms = pos 0; p95_ms = pos 0; p99_ms = pos 0; max_ms = pos 0 }, r)
    else (let (p50, a) = percentile r (pos 50) in
        let (p95, b) = percentile a (pos 95) in
        let (p99, c) = percentile b (pos 99) in
        (record { samples = n; p50_ms = p50; p95_ms = p95; p99_ms = p99; max_ms = c.max }, c))
