-- ===== src/Metrics/Rank.antt =====
-- Metrics.cpp, percentile(): the place of a percentile, and what the sample there says.
use lowlat_stream.Base.{
  ℕ, ◌+◌, ◌-◌, ◌*◌, ◌/◌, ◌%◌, ◌≤◌, ◌<◌, ◌≡◌, refl, ap, ◌⊎◌, ◌==◌, false, length, get_or, arith,
}
use native.Mathlib.Nat.{mul-le-mul_right}
use lowlat_stream.Base.Int.{pos, clamp_ℤ}
use lowlat_stream.DelayEstimator.{sort}
use lowlat_stream.DelayEstimator.Percentile.{
  count_at_most, count_at_least, nth_element-counts, sort-counts,
}
use lowlat_stream.Metrics.{LatencyRecorder, rank, index_of, percentile}

-- The rank is the share of the samples, rounded up.
pub rank_lem : (n p : ℕ) → (n * p ≤ 100 * rank n p) × (100 * rank n p < n * p + 100)
unfolding rank
rank_lem n p =
    let parts : n ≡ 100 * (n / 100) + n % 100 = omega arith in
    let share : n * p ≡ (100 * (n / 100) + n % 100) * p = ap (λ m. m * p) parts in
    omega (arith, share)

pub index_of-lt : (n p : ℕ) → 0 < n → p ≤ 100 → index_of n p < n
index_of-lt n p h l =
    let most : p * n ≤ 100 * n = mul-le-mul_right n l in
    let bounds = rank_lem n p in ground (arith, bounds, most)

-- What percentile() gives and leaves of a recorder with samples.
pub percentile-value :
    (r : LatencyRecorder) (p : ℕ)
    → 0 < length r.samples
    → p ≤ 100
    → percentile r (pos p) ≡ (
      get_or (sort r.samples) (index_of (length r.samples) p) (pos 0),
      record r { samples = sort r.samples },
    )
unfolding percentile
percentile-value r p h l =
    let n = length r.samples in
    let some_there : (n == 0) ≡ false = ground arith in
    let within : clamp_ℤ (pos p) (pos 0) (pos 100) ≡ pos p = ground arith in
    let same : length (sort r.samples) ≡ n = (sort-counts (pos 0) r.samples).2 in
    rw (some_there, within, same) refl

-- Of a recorder with samples, and a percentage up to 100, percentile() is the nearest rank: at least that
-- percentage of the samples is at most the result, and a smaller percentage is below it, or the
-- percentage is 0.
pub percentile_lem :
    (r : LatencyRecorder) (p : ℕ)
    → 0 < length r.samples
    → p ≤ 100
    → let v = (percentile r (pos p)).0 in
      let n = length r.samples in
      (p * n ≤ 100 * count_at_most v r.samples)
      × ((100 * (n - count_at_least v r.samples) < p * n) ⊎ (p * n ≡ 0))
percentile_lem r p h l =
    let n = length r.samples in
    let k = index_of n p in
    let (x, y) = nth_element-counts r.samples k (index_of-lt n p h l) in
    let bounds = rank_lem n p in rw (percentile-value r p h l) (ground (arith, x, y, bounds))
