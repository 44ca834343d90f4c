-- ===== src/DelayEstimator/Playout.antt =====
-- The delay estimator as the one that the jitter buffer asks.
use lowlat_stream.Base.{ℕ, ◌+◌, ◌≤◌, ◌≡◌, false, List, [], length, replicate}
use lowlat_stream.Base.Int.{ℤ, pos_part}
use lowlat_stream.DelayEstimator.{
  DelayEstimatorConfig, DelayEstimator, observe, set_rtt_ms, reset, init,
}
use lowlat_stream.DelayEstimator.Fixed.{Settled, init-Settled, rtt-Settled, Settled-frame}
use lowlat_stream.JitterBuffer.{Estimator, JitterBufferConfig}
use lowlat_stream.JitterBuffer as JitterBuffer
use lowlat_stream.JitterBuffer.Session.{Call, popped, session}
use lowlat_stream.JitterBuffer.Latency.{Punctual, ArrivesBy, waiting, nothing_stays}

abbrev pub delay_estimator : Estimator
delay_estimator = record {
  State = DelayEstimator;
  observe = observe;
  set_rtt_ms = set_rtt_ms;
  reset = reset;
}

-- Without adaption no frame waits longer than the delay of the configuration.
fixed-Punctual : (d : ℤ) → Punctual delay_estimator (pos_part d)
fixed-Punctual d = record {
  Ok = λ e. (os : List ℤ) × Settled d e os;
  observes =
      λ e t now (os, v). let (_, wait, _, w) = Settled-frame d e os t now v in (wait, (_, w));
  sets_rtt = λ e ms (os, v). (os, rtt-Settled d e os ms v);
}

-- The jitter buffer with the estimator without adaption, after any calls whose frames have arrived by
-- `t`: as many pops as frames wait, at a time later than `t` by the delay of the configuration, hand
-- out all of them, the oldest first, and leave the buffer empty.
pub fixed_buffer_drains :
    (delay : DelayEstimatorConfig) (c : JitterBufferConfig) (cs : List Call) (t now_ms : ℕ)
    → delay.adaptive ≡ false
    → ArrivesBy t cs
    → t + pos_part delay.target_delay_ms ≤ now_ms
    → let E = delay_estimator in
      let b = (session E (JitterBuffer.init E c (init delay)) cs).1 in
      let (out, u) = session E b (replicate (length b.pending) (popped now_ms)) in
      (out ≡ waiting b.pending) × (u.pending ≡ [])
unfolding fixed-Punctual
fixed_buffer_drains delay c cs t now_ms fixed a h =
    nothing_stays delay_estimator (pos_part delay.target_delay_ms)
      (fixed-Punctual delay.target_delay_ms) c (init delay) cs t now_ms
      ([], init-Settled delay fixed) a h
