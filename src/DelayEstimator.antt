-- ===== src/DelayEstimator.antt =====
-- modules/transport/DelayEstimator.h and DelayEstimator.cpp: from the times at which frames arrive, the
-- moment at which a frame is to be played. Times are below 2 ^ 63, so the sums in int64_t are exact.
pub mod Target
pub mod Session
pub mod Percentile
pub mod Window
pub mod Fixed
pub mod Playout
pub mod Tests
use lowlat_stream.Base.{
  ℕ, zero, suc, ◌+◌, ◌-◌, ◌*◌, ◌/◌, ◌%◌, ◌^◌, min, Bool, true, false, not, ltb, leb, ◌==◌, ◌&&◌,
  ◌||◌, if◌then◌else◌, List, [], ◌∷◌, ◌++◌, length, drop, get_or, map,
}
use lowlat_stream.Base.Words.{sub32}
use lowlat_stream.Base.Int.{
  ℤ, pos, negsuc, pos_part, ◌+ℤ◌, ◌-ℤ◌, ltb_ℤ, eq_ℤ, min_ℤ, max_ℤ, clamp_ℤ, to_int32, min_int,
  max_int,
}

pub record DelayEstimatorConfig : Type 0 where
  pub adaptive : Bool
  pub target_delay_ms : ℤ
  pub window_ms : ℕ
  pub delay_percentile : ℤ
  pub floor_percentile : ℤ
  pub min_delay_ms : ℤ
  pub max_delay_ms : ℤ
  pub down_rate_ms_per_sec : ℤ
  pub min_samples : ℕ

pub record DelayEstimatorStats : Type 0 where
  pub samples_seen : ℕ
  pub samples_evicted : ℕ
  pub window_size : ℕ
  pub current_delay_ms : ℤ
  pub raw_delay_ms : ℤ
  pub floor_offset_ms : ℤ
  pub peak_delay_ms : ℤ
  pub raises : ℕ
  pub down_rate_limited : ℕ
  pub clamped_high : ℕ
  pub clamped_low : ℕ
  pub effective_min_delay_ms : ℤ
  pub floor_from_budget : Bool
  pub frame_interval_ms : ℤ
  pub rtt_ms : ℤ

pub record Sample : Type 0 where
  pub at_ms : ℕ
  pub offset_ms : ℤ

pub record DelayEstimator : Type 0 where
  pub config : DelayEstimatorConfig
  pub stats : DelayEstimatorStats
  pub window : List Sample
  pub floor_offset_ms : ℤ
  pub has_floor : Bool
  pub target_delay_ms : ℤ
  pub last_observe_ms : ℕ
  pub has_last_observe : Bool
  pub down_rate_remainder : ℕ
  pub rtt_ms : ℤ
  pub frame_deltas : List ℤ
  pub last_timestamp_ms : ℕ
  pub has_last_timestamp : Bool

abbrev pub frame_delta_window : ℕ
frame_delta_window = 15

-- The statistics of an estimator that has seen nothing.
abbrev pub fresh_stats : DelayEstimatorConfig → ℤ → DelayEstimatorStats
fresh_stats c rtt = record {
  samples_seen = 0;
  samples_evicted = 0;
  window_size = 0;
  current_delay_ms = c.target_delay_ms;
  raw_delay_ms = c.target_delay_ms;
  floor_offset_ms = pos 0;
  peak_delay_ms = c.target_delay_ms;
  raises = 0;
  down_rate_limited = 0;
  clamped_high = 0;
  clamped_low = 0;
  effective_min_delay_ms = c.min_delay_ms;
  floor_from_budget = false;
  frame_interval_ms = pos 0;
  rtt_ms = rtt;
}

-- The two ends of the delay the right way round, and the percentiles within 0 and 100.
unfoldable pub normalise : DelayEstimatorConfig → DelayEstimatorConfig
normalise c =
    let is_swapped = ltb_ℤ c.max_delay_ms c.min_delay_ms in
    record c {
      min_delay_ms = if is_swapped then c.max_delay_ms else c.min_delay_ms;
      max_delay_ms = if is_swapped then c.min_delay_ms else c.max_delay_ms;
      delay_percentile = clamp_ℤ c.delay_percentile (pos 0) (pos 100);
      floor_percentile = clamp_ℤ c.floor_percentile (pos 0) (pos 100);
    }

abbrev pub fresh : DelayEstimatorConfig → ℤ → DelayEstimator
fresh c rtt = record {
  config = c;
  stats = fresh_stats c rtt;
  window = [];
  floor_offset_ms = pos 0;
  has_floor = false;
  target_delay_ms = c.target_delay_ms;
  last_observe_ms = 0;
  has_last_observe = false;
  down_rate_remainder = 0;
  rtt_ms = rtt;
  frame_deltas = [];
  last_timestamp_ms = 0;
  has_last_timestamp = false;
}

unfoldable pub init : DelayEstimatorConfig → DelayEstimator
init c = fresh (normalise c) (pos 0)

-- `std::nth_element` puts at a place what a sorted copy has there.
unfoldable pub insert : ℤ → List ℤ → List ℤ
insert x [] = x ∷ []
insert x (y ∷ ys) = let rest = insert x ys in if ltb_ℤ y x then y ∷ rest else x ∷ y ∷ ys

unfoldable pub sort : List ℤ → List ℤ
sort [] = []
sort (x ∷ xs) = insert x (sort xs)

abbrev pub nth_element : List ℤ → ℕ → ℤ
nth_element xs index = get_or (sort xs) index (pos 0)

unfoldable pub offsets : List Sample → List ℤ
offsets [] = []
offsets (s ∷ ss) = s.offset_ms ∷ offsets ss

-- 0 for an empty window.
unfoldable pub percentile_offset : List Sample → ℤ → ℤ
percentile_offset window percentile =
    if length window == 0
    then pos 0
    else nth_element (offsets window) (pos_part percentile * (length window - 1) / 100)

unfoldable pub update_frame_interval : DelayEstimator → ℕ → DelayEstimator
update_frame_interval e timestamp_ms =
    if not e.has_last_timestamp
    then record e { last_timestamp_ms = timestamp_ms; has_last_timestamp = true }
    else let signed_delta = to_int32 (sub32 timestamp_ms e.last_timestamp_ms) in
      let magnitude = if ltb_ℤ signed_delta (pos 0) then pos 0 -ℤ signed_delta else signed_delta in
      let delta = min_ℤ magnitude max_int in
      let pushed = e.frame_deltas ++ (delta ∷ []) in
      let kept = if ltb frame_delta_window (length pushed) then drop 1 pushed else pushed in
      record e {
        last_timestamp_ms = timestamp_ms;
        frame_deltas = kept;
        stats = record e.stats { frame_interval_ms = nth_element kept (length kept / 4) };
      }

abbrev pub max_uint64 : ℕ
max_uint64 = 2 ^ 64 - 1

-- The window without the samples that are too old, and the count of those that have left it.
unfoldable pub evict : ℕ → ℕ → List Sample → ℕ → List Sample × ℕ
evict now_ms window_ms [] evicted = ([], evicted)
evict now_ms window_ms (s ∷ ss) evicted =
    let rest = evict now_ms window_ms ss (suc evicted) in
    if ltb now_ms s.at_ms || leb (now_ms - s.at_ms) window_ms then (s ∷ ss, evicted) else rest

unfoldable pub take_sample : DelayEstimator → ℕ → ℤ → DelayEstimator
take_sample e now_ms offset =
    let (window, evicted) =
      evict now_ms e.config.window_ms
        (e.window ++ (record { at_ms = now_ms; offset_ms = offset } ∷ []))
        e.stats.samples_evicted in
    record e {
      window = window;
      stats = record e.stats { samples_evicted = evicted; window_size = length window };
      floor_offset_ms = percentile_offset window e.config.floor_percentile;
      has_floor = true;
    }

abbrev pub raw_delay : DelayEstimator → ℤ
raw_delay e =
    let high = percentile_offset e.window e.config.delay_percentile in
    clamp_ℤ (high -ℤ e.floor_offset_ms) min_int max_int

-- How far the target may fall, in thousandths, with what the last time left over.
unfoldable pub scaled_drop : ℕ → ℕ → ℕ → ℕ
scaled_drop rate dt remainder =
    let scaled = if ltb (max_uint64 / rate) dt then max_uint64 else rate * dt in
    if ltb (max_uint64 - remainder) scaled then max_uint64 else scaled + remainder

unfoldable pub floor_target : ℤ → ℕ → ℤ
floor_target target max_drop = target -ℤ pos (min max_drop (pos_part (target -ℤ min_int)))

unfoldable pub elapsed : DelayEstimator → ℕ → ℕ
elapsed e now_ms =
    if e.has_last_observe && ltb e.last_observe_ms now_ms then now_ms - e.last_observe_ms else 0

unfoldable pub descend : DelayEstimator → ℤ → ℕ → DelayEstimator
descend e raw now_ms =
    let scaled =
      scaled_drop (pos_part e.config.down_rate_ms_per_sec) (elapsed e now_ms)
        e.down_rate_remainder in
    let lowest = floor_target e.target_delay_ms (scaled / 1000) in
    if ltb_ℤ raw lowest
    then record e {
      down_rate_remainder = scaled % 1000;
      target_delay_ms = lowest;
      stats = record e.stats { down_rate_limited = suc e.stats.down_rate_limited };
    }
    else record e { down_rate_remainder = scaled % 1000; target_delay_ms = raw }

-- Up at once, down at the rate of the configuration, and nowhere with too few samples.
unfoldable pub follow : DelayEstimator → ℤ → ℕ → DelayEstimator
follow e raw now_ms =
    if ltb (length e.window) e.config.min_samples
    then e
    else if ltb_ℤ e.target_delay_ms raw
    then record e {
      target_delay_ms = raw;
      down_rate_remainder = 0;
      stats = record e.stats { raises = suc e.stats.raises };
    }
    else if eq_ℤ raw e.target_delay_ms || not (ltb_ℤ (pos 0) e.config.down_rate_ms_per_sec)
    then record e { target_delay_ms = raw; down_rate_remainder = 0 }
    else descend e raw now_ms

-- What a retransmission takes: one frame to notice the loss and one round trip.
unfoldable pub budget : DelayEstimator → ℤ
budget e =
    if ltb_ℤ (pos 0) e.rtt_ms && ltb_ℤ (pos 0) e.stats.frame_interval_ms
    then min_ℤ (e.stats.frame_interval_ms +ℤ e.rtt_ms) max_int
    else pos 0

unfoldable pub effective_min : DelayEstimator → ℤ
effective_min e =
    clamp_ℤ (max_ℤ e.config.min_delay_ms (budget e)) e.config.min_delay_ms e.config.max_delay_ms

unfoldable pub limit : DelayEstimator → DelayEstimator
limit e =
    let floor = effective_min e in
    let noted = record e.stats {
      effective_min_delay_ms = floor;
      floor_from_budget = ltb_ℤ e.config.min_delay_ms (budget e);
    } in
    if ltb_ℤ e.config.max_delay_ms e.target_delay_ms
    then record e {
      target_delay_ms = e.config.max_delay_ms;
      stats = record noted { clamped_high = suc noted.clamped_high };
    }
    else if ltb_ℤ e.target_delay_ms floor
    then record e {
      target_delay_ms = floor;
      stats = record noted { clamped_low = suc noted.clamped_low };
    }
    else record e { stats = noted }

unfoldable pub publish : DelayEstimator → ℤ → ℕ → DelayEstimator
publish e raw now_ms = record e {
  stats = record e.stats {
    current_delay_ms = e.target_delay_ms;
    raw_delay_ms = raw;
    floor_offset_ms = e.floor_offset_ms;
    peak_delay_ms = max_ℤ e.stats.peak_delay_ms e.target_delay_ms;
  };
  last_observe_ms = now_ms;
  has_last_observe = true;
}

unfoldable pub play_at : DelayEstimator → ℕ → ℕ
play_at e timestamp_ms = pos_part (pos timestamp_ms +ℤ e.floor_offset_ms +ℤ e.target_delay_ms)

-- Without adaption: the smallest offset so far, and the delay of the configuration.
unfoldable pub observe_fixed : DelayEstimator → ℤ → DelayEstimator
observe_fixed e offset =
    let floor =
      if not e.has_floor || ltb_ℤ offset e.floor_offset_ms then offset else e.floor_offset_ms in
    record e {
      floor_offset_ms = floor;
      has_floor = true;
      target_delay_ms = e.config.target_delay_ms;
      stats = record e.stats {
        current_delay_ms = e.config.target_delay_ms;
        raw_delay_ms = e.config.target_delay_ms;
        floor_offset_ms = floor;
        peak_delay_ms = max_ℤ e.stats.peak_delay_ms e.config.target_delay_ms;
      };
    }

unfoldable pub observe_adaptive : DelayEstimator → ℤ → ℕ → DelayEstimator
observe_adaptive e offset now_ms =
    let sampled = take_sample e now_ms offset in
    let raw = raw_delay sampled in publish (limit (follow sampled raw now_ms)) raw now_ms

unfoldable pub note_frame : DelayEstimator → ℕ → DelayEstimator
note_frame e timestamp_ms =
    update_frame_interval
      (record e { stats = record e.stats { samples_seen = suc e.stats.samples_seen } }) timestamp_ms

unfoldable pub observe : DelayEstimator → ℕ → ℕ → ℕ × DelayEstimator
observe e timestamp_ms now_ms =
    let offset = pos now_ms -ℤ pos timestamp_ms in
    let noted = note_frame e timestamp_ms in
    let after =
      if noted.config.adaptive
      then observe_adaptive noted offset now_ms
      else observe_fixed noted offset in
    (play_at after timestamp_ms, after)

unfoldable pub set_rtt_ms : DelayEstimator → ℤ → DelayEstimator
set_rtt_ms e rtt_ms =
    if not (ltb_ℤ (pos 0) rtt_ms)
    then e
    else record e { rtt_ms = rtt_ms; stats = record e.stats { rtt_ms = rtt_ms } }

-- The round trip is kept.
unfoldable pub reset : DelayEstimator → DelayEstimator
reset e = fresh e.config e.rtt_ms
