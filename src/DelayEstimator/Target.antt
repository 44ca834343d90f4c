-- ===== src/DelayEstimator/Target.antt =====
-- DelayEstimator.cpp, observe(): how the target delay moves.
use lowlat_stream.Base.{ℕ, ◌+◌, ◌*◌, ◌/◌, ◌≤◌, ◌<◌, ◌≡◌, ◌⊎◌, ap, min, arith}
use native.Mathlib.Nat.{div-lt_iff_lt-mul}
use lowlat_stream.Base.Int.{
  ℤ, pos, pos_part, neg_part, ◌+ℤ◌, ◌-ℤ◌, ◌≤ℤ◌, min_int, +ℤ_parts, -ℤ_parts,
}
use lowlat_stream.DelayEstimator.{
  DelayEstimator, max_uint64, scaled_drop, floor_target, elapsed, descend, follow, effective_min,
  limit,
}

-- The sum saturates, so it is at most what it stands for.
scaled_drop-le :
    (rate dt remainder : ℕ) → 0 < rate → scaled_drop rate dt remainder ≤ rate * dt + remainder
unfolding scaled_drop
scaled_drop-le rate dt remainder h =
    let over : max_uint64 / rate < dt → max_uint64 < dt * rate = (div-lt_iff_lt-mul h).0 in
    ground arith

floor_target-le : (t : ℤ) (k : ℕ) → t ≤ℤ floor_target t k +ℤ pos k
unfolding floor_target
floor_target-le t k =
    let n : ℕ = min k (pos_part (t -ℤ min_int)) in
    omega (arith, -ℤ_parts t (pos n), +ℤ_parts (t -ℤ pos n) (pos k))

-- The target stays at or below the most that the configuration allows, and a thousand times the way
-- down and the remainder is at most the rate for the time that has passed and the remainder before.
abbrev pub Falls : DelayEstimator → DelayEstimator → ℕ → Type 0
Falls e f dt =
    1000 * (pos_part e.target_delay_ms + neg_part f.target_delay_ms) + f.down_rate_remainder
    ≤ 1000 * (pos_part f.target_delay_ms + neg_part e.target_delay_ms)
      + pos_part e.config.down_rate_ms_per_sec * dt
      + e.down_rate_remainder

descend-Falls :
    (e : DelayEstimator) (raw : ℤ) (now : ℕ)
    → 0 < pos_part e.config.down_rate_ms_per_sec
    → Falls e (descend e raw now) (elapsed e now)
unfolding descend
descend-Falls e raw now h =
    let scaled : ℕ =
      scaled_drop (pos_part e.config.down_rate_ms_per_sec) (elapsed e now) e.down_rate_remainder in
    let lowest : ℤ = floor_target e.target_delay_ms (scaled / 1000) in
    ground (
      arith,
      scaled_drop-le (pos_part e.config.down_rate_ms_per_sec) (elapsed e now) e.down_rate_remainder
          h,
      floor_target-le e.target_delay_ms (scaled / 1000),
      +ℤ_parts lowest (pos (scaled / 1000)),
    )

follow-Falls :
    (e : DelayEstimator) (raw : ℤ) (now : ℕ)
    → 0 < pos_part e.config.down_rate_ms_per_sec
    → Falls e (follow e raw now) (elapsed e now)
unfolding follow
follow-Falls e raw now h = ground (arith, descend-Falls e raw now h)

effective_min-between :
    (e : DelayEstimator)
    → e.config.min_delay_ms ≤ℤ e.config.max_delay_ms
    → (e.config.min_delay_ms ≤ℤ effective_min e) × (effective_min e ≤ℤ e.config.max_delay_ms)
unfolding effective_min
effective_min-between e h = ground arith

-- The target is between the effective minimum and the maximum.
pub record IsWithin (e : DelayEstimator) : Type 0 where
  pub above_min : e.config.min_delay_ms ≤ℤ e.stats.effective_min_delay_ms
  pub above : e.stats.effective_min_delay_ms ≤ℤ e.target_delay_ms
  pub below : e.target_delay_ms ≤ℤ e.config.max_delay_ms

pub limit-IsWithin :
    (e : DelayEstimator) → e.config.min_delay_ms ≤ℤ e.config.max_delay_ms → IsWithin (limit e)
unfolding limit
limit-IsWithin e h = ground (arith, effective_min-between e h)

floor_target-lowers : (t : ℤ) (k : ℕ) → floor_target t k ≤ℤ t
unfolding floor_target
floor_target-lowers t k =
    let n : ℕ = min k (pos_part (t -ℤ min_int)) in omega (arith, -ℤ_parts t (pos n))

-- Either the target is not raised, or nothing is left over.
follow-lowers :
    (e : DelayEstimator) (raw : ℤ) (now : ℕ)
    → let f = follow e raw now in
      (f.target_delay_ms ≤ℤ e.target_delay_ms) ⊎ (f.down_rate_remainder ≡ 0)
unfolding follow descend
follow-lowers e raw now =
    let scaled : ℕ =
      scaled_drop (pos_part e.config.down_rate_ms_per_sec) (elapsed e now) e.down_rate_remainder in
    ground (arith, floor_target-lowers e.target_delay_ms (scaled / 1000))

pub follow-config : (e : DelayEstimator) (raw : ℤ) (now : ℕ) → (follow e raw now).config ≡ e.config
unfolding follow descend
follow-config e raw now = ground arith

pub limit-config : (e : DelayEstimator) → (limit e).config ≡ e.config
unfolding limit
limit-config e = ground arith

-- A target at most the maximum is only raised, or one above it cut off.
limit-Falls :
    (e f : DelayEstimator) (dt : ℕ)
    → f.config.max_delay_ms ≡ e.config.max_delay_ms
    → e.target_delay_ms ≤ℤ e.config.max_delay_ms
    → (f.target_delay_ms ≤ℤ e.target_delay_ms) ⊎ (f.down_rate_remainder ≡ 0)
    → Falls e f dt
    → Falls e (limit f) dt
unfolding limit
limit-Falls e f dt c t l v = ground arith

pub limit_follow-Falls :
    (e : DelayEstimator) (raw : ℤ) (now : ℕ)
    → 0 < pos_part e.config.down_rate_ms_per_sec
    → e.target_delay_ms ≤ℤ e.config.max_delay_ms
    → Falls e (limit (follow e raw now)) (elapsed e now)
limit_follow-Falls e raw now h t =
    limit-Falls e (follow e raw now) (elapsed e now)
      (ap (λ c. c.max_delay_ms) (follow-config e raw now)) t (follow-lowers e raw now)
      (follow-Falls e raw now h)
