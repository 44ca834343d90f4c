-- ===== src/ReceiverPipeline/Rtt.antt =====
-- ReceiverPipeline.cpp, observeRetransmit(): the round trip that is measured.
use lowlat_stream.Base.{
  ℕ, suc, ◌*◌, ◌≤◌, ◌<◌, ◌≡◌, ◌⊎◌, ltb, if◌then◌else◌, drop, none, List, [], ◌∷◌, ◌++◌, length,
}
use lowlat_stream.Base.Int.{ℤ, pos}
use lowlat_stream.Base.Maps.{lookup, remove}
use lowlat_stream.Net.{Socket}
use lowlat_stream.DelayEstimator.Percentile.{count_at_most, count_at_least}
use lowlat_stream.JitterBuffer.{Estimator}
use lowlat_stream.JitterBuffer as JitterBuffer
use lowlat_stream.ReceiverPipeline.{ReceiverPipeline}

-- The window of the measurements after one more.
abbrev pushed_rtt : List ℤ → ℤ → List ℤ
pushed_rtt xs x =
    let pushed = xs ++ (x ∷ []) in if ltb 21 (length pushed) then drop 1 pushed else pushed

module _ (S : Socket) (E : Estimator) where
  -- The time since the request is a measurement, the last of those that are kept. The round trip is the
  -- middle one of them, and it is told to the jitter buffer.
  pub record Measures (r : ReceiverPipeline S E) (q : ReceiverPipeline S E) (seq rtt : ℕ)
      : Type 0 where
    pub answered : lookup seq q.nack_sent_at_ms ≡ none
    pub struck : q.nack_sent_at_ms ≡ remove seq r.nack_sent_at_ms
    pub measured :
        (older : List ℤ) × (q.recent_rtts ≡ older ++ (pos rtt ∷ []))
        × ((older ≡ r.recent_rtts) ⊎ ((older ≡ drop 1 r.recent_rtts) × (length r.recent_rtts ≡ 21)))
    pub shown : q.stats.rtt_pending ≡ length q.nack_sent_at_ms
    pub told : q.jitter ≡ JitterBuffer.set_rtt_ms E r.jitter q.rtt_ms
    pub some_measured : 0 < length q.recent_rtts
    pub few : length q.recent_rtts ≤ 21
    pub half_below : length q.recent_rtts < 2 * count_at_most q.rtt_ms q.recent_rtts
    pub half_above : length q.recent_rtts ≤ 2 * count_at_least q.rtt_ms q.recent_rtts
    pub counted : q.stats.rtt_samples ≡ suc r.stats.rtt_samples
