-- ===== src/DelayEstimator/Tests.antt =====
-- Runs of the estimator, and instances of its theorems.
use lowlat_stream.Base.{
  ◌+◌, ◌-◌, ◌≤◌, ◌<◌, ◌≡◌, refl, true, false, List, [], ◌∷◌, ◌++◌, length, replicate, arith,
}
use lowlat_stream.Base.Int.{pos, negsuc, pos_part, ◌+ℤ◌, ◌-ℤ◌}
use lowlat_stream.FrameAssembler.{AssembledFrame}
use lowlat_stream.DelayEstimator.{
  DelayEstimatorConfig, DelayEstimator, Sample, init, normalise, observe, percentile_offset,
  offsets, insert, sort, update_frame_interval, note_frame, evict, take_sample, scaled_drop,
  floor_target, elapsed, descend, follow, budget, effective_min, limit, publish, play_at,
  observe_adaptive, set_rtt_ms,
}
use lowlat_stream.DelayEstimator.Target.{IsWithin, Falls}
use lowlat_stream.DelayEstimator.Session.{
  Event, frame, rtt, step, run, frame-IsWithin, IsFollowing, run-Falls,
}
use lowlat_stream.DelayEstimator.Percentile.{
  count_at_most, count_at_least, place_of, percentile_offset_lem,
}
use lowlat_stream.DelayEstimator.Window.{samples, IsRecent, run-IsRecent}
use lowlat_stream.DelayEstimator.Fixed.{IsLeast, offsets_since, fixed_playout}
use lowlat_stream.DelayEstimator.Playout.{delay_estimator, fixed_buffer_drains}
use lowlat_stream.JitterBuffer as JitterBuffer
use lowlat_stream.JitterBuffer.Session.{Call, pushed, popped, session}
use lowlat_stream.JitterBuffer.Latency.{waiting}

abbrev adaptive : DelayEstimatorConfig
adaptive = record {
  adaptive = true;
  target_delay_ms = pos 50;
  window_ms = 1000;
  delay_percentile = pos 95;
  floor_percentile = pos 5;
  min_delay_ms = pos 5;
  max_delay_ms = pos 500;
  down_rate_ms_per_sec = pos 10;
  min_samples = 2;
}

abbrev fixed : DelayEstimatorConfig
fixed = record adaptive { adaptive = false }

abbrev events : List Event
events = frame 0 1000 ∷ frame 33 1133 ∷ rtt (pos 20) ∷ frame 66 1466 ∷ []

-- The offsets are 1000, 1100 and 1400; the delay is raised to what the place of the percentile has.
raise_run : (run (init adaptive) events).target_delay_ms ≡ pos 100
unfolding run step init normalise observe percentile_offset offsets insert sort
    update_frame_interval note_frame evict take_sample scaled_drop floor_target elapsed descend
    follow budget effective_min limit publish play_at observe_adaptive set_rtt_ms ◌-ℤ◌ ◌+ℤ◌
raise_run = refl

-- Half a second later the delay has come down by 5 ms at most.
fall_run :
    (run
      (init adaptive)
      (frame 0 1000 ∷ frame 33 1033 ∷ frame 66 1066 ∷ frame 566 1566 ∷ [])).target_delay_ms
    ≡ pos 45
unfolding run step init normalise observe percentile_offset offsets insert sort
    update_frame_interval note_frame evict take_sample scaled_drop floor_target elapsed descend
    follow budget effective_min limit publish play_at observe_adaptive set_rtt_ms ◌-ℤ◌ ◌+ℤ◌
fall_run = refl

frame-IsWithin_example :
    let e = (observe (run (init adaptive) events) 99 1499).1 in
    IsWithin e × (e.config ≡ normalise adaptive) × (e.stats.current_delay_ms ≡ e.target_delay_ms)
frame-IsWithin_example = frame-IsWithin adaptive events 99 1499 refl

-- After the first frame, with a delay of 120 ms and nothing left over.
abbrev started : DelayEstimator
started = record (run (init adaptive) []) {
  target_delay_ms = pos 120;
  last_observe_ms = 1000;
  has_last_observe = true;
}

started-IsFollowing : IsFollowing started
unfolding run init normalise
started-IsFollowing = record {
  is_adaptive = refl;
  has_rate = omega arith;
  is_ordered = omega arith;
  is_below = omega arith;
  has_last = refl;
}

abbrev later : List Event
later = frame 33 1033 ∷ rtt (pos 20) ∷ frame 66 1566 ∷ []

run-Falls_example :
    (1000 ≤ (run started later).last_observe_ms)
    × Falls started (run started later) ((run started later).last_observe_ms - 1000)
run-Falls_example = run-Falls started later started-IsFollowing (omega arith, (omega arith, tt))

abbrev window : List Sample
window =
    record { at_ms = 10; offset_ms = pos 7 }
    ∷ record { at_ms = 20; offset_ms = negsuc 2 }
    ∷ record { at_ms = 30; offset_ms = pos 9 }
    ∷ []

percentile_offset_lem_example :
    let v = percentile_offset window (pos 50) in
    let k = place_of (pos 50) 3 in
    (k < 3) × (k < count_at_most v (offsets window)) × (3 ≤ k + count_at_least v (offsets window))
percentile_offset_lem_example = percentile_offset_lem window (pos 50) (omega arith) (omega arith)

run-IsRecent_example : IsRecent (run (init adaptive) events) (samples events)
run-IsRecent_example =
    run-IsRecent adaptive events refl (omega arith, (omega arith, (omega arith, tt)))

fixed_playout_example :
    let r = observe (run (init fixed) events) 99 1120 in
    IsLeast r.1.floor_offset_ms (offsets_since [] events ++ ((pos 1120 -ℤ pos 99) ∷ []))
    × (r.0 ≡ pos_part (pos 99 +ℤ r.1.floor_offset_ms +ℤ pos 50))
    × (r.0 ≤ 1170)
fixed_playout_example = fixed_playout fixed events 99 1120 refl

abbrev picture : AssembledFrame
picture = record { frame_id = 1; timestamp_ms = 33; is_key = true; bytes = 9 ∷ [] }

abbrev calls : List Call
calls = pushed picture 1033 ∷ pushed (record picture { frame_id = 2; timestamp_ms = 66 }) 1080 ∷ []

abbrev buffer_config : JitterBuffer.JitterBufferConfig
buffer_config = record { max_frames = 10; hard_limit_frames = 20; start_on_key_frame = true }

fixed_buffer_drains_example :
    let b =
      (session delay_estimator
        (JitterBuffer.init delay_estimator buffer_config (init fixed))
        calls).1 in
    let (out, u) = session delay_estimator b (replicate (length b.pending) (popped 1130)) in
    (out ≡ waiting b.pending) × (u.pending ≡ [])
fixed_buffer_drains_example =
    fixed_buffer_drains fixed buffer_config calls 1080 1130 refl (omega arith, (omega arith, tt))
      (omega arith)
