-- ===== src/ReceiverPipeline/Rate.antt =====
-- ReceiverPipeline.cpp, requestKeyFrame(): how often the sender is asked for a key frame.
use lowlat_stream.Base.{ℕ, suc, ◌+◌, ◌*◌, ◌≤◌, ◌<◌, ◌≡◌, ◌⊎◌, subst, inl, inr, List, [], ◌∷◌, arith}
use native.Mathlib.Nat.{mul-add}
use lowlat_stream.Base.Int.{pos_part}
use lowlat_stream.Net.{Socket}
use lowlat_stream.JitterBuffer.{Estimator}
use lowlat_stream.ReceiverPipeline.{ReceiverPipeline}
use lowlat_stream.ReceiverPipeline.Feedback.{request_key_frame, send_pli}

module _ (S : Socket) (E : Estimator) where
  -- Either no request went out, or one did, long enough after the one before.
  record Asks (r : ReceiverPipeline S E) (q : ReceiverPipeline S E) (now : ℕ) : Type 0 where
    same_config : q.config ≡ r.config
    sent :
        ((q.last_pli_ms ≡ r.last_pli_ms) × (q.stats.pli_sent ≡ r.stats.pli_sent))
        ⊎ ((q.last_pli_ms ≡ now)
            × (q.stats.pli_sent ≡ suc r.stats.pli_sent)
            × ((r.last_pli_ms ≡ 0) ⊎ (r.last_pli_ms + pos_part r.config.pli_min_interval_ms ≤ now)))

  send_pli-sends :
      (r : ReceiverPipeline S E) (now : ℕ)
      → let q = (send_pli S E r now).1 in
        (q.config ≡ r.config)
        × (((q.last_pli_ms ≡ r.last_pli_ms) × (q.stats.pli_sent ≡ r.stats.pli_sent))
            ⊎ ((q.last_pli_ms ≡ now) × (q.stats.pli_sent ≡ suc r.stats.pli_sent)))
  unfolding send_pli
  send_pli-sends r now = ground arith

  request_key_frame-Asks :
      (r : ReceiverPipeline S E) (now : ℕ) → Asks r (request_key_frame S E r now).1 now
  unfolding request_key_frame
  request_key_frame-Asks r now = ground (arith, send_pli-sends r now)

  unfoldable pub ask_all : ReceiverPipeline S E → List ℕ → ReceiverPipeline S E
  ask_all r [] = r
  ask_all r (now_ms ∷ ts) = ask_all (request_key_frame S E r now_ms).1 ts

  -- The requests that go out after a first one, whenever and however often the pipeline asks: `k` of them
  -- take at least `k` times the smallest interval of the configuration.
  pub ask_all-rate :
      (r : ReceiverPipeline S E) (ts : List ℕ)
      → 0 < r.last_pli_ms
      → let q = ask_all r ts in
        (k : ℕ) × (q.stats.pli_sent ≡ r.stats.pli_sent + k)
        × (r.last_pli_ms + pos_part r.config.pli_min_interval_ms * k ≤ q.last_pli_ms)
  unfolding ask_all
  ask_all-rate r [] h = (0, omega arith, omega arith)
  ask_all-rate r (now ∷ ts) h =
      let v = request_key_frame-Asks r now in
      let t = (request_key_frame S E r now).1 in
      let i : ℕ = pos_part r.config.pli_min_interval_ms in
      elim v.sent [
        | inl (same, count) ↦
            let (k, n, l) = ask_all-rate t ts (omega arith) in
            (
              k,
              omega arith,
              subst
                  (λ c.
                    r.last_pli_ms + pos_part c.pli_min_interval_ms * k ≤ (ask_all t ts).last_pli_ms)
                  v.same_config (omega arith),
            )
        | inr (last, count, apart) ↦
            let later : r.last_pli_ms + i ≤ now = ground arith in
            let (k, n, l) = ask_all-rate t ts (omega arith) in
            let l' : t.last_pli_ms + i * k ≤ (ask_all t ts).last_pli_ms =
              subst
                (λ c.
                  t.last_pli_ms + pos_part c.pli_min_interval_ms * k ≤ (ask_all t ts).last_pli_ms)
                v.same_config l in
            (suc k, omega arith, omega (arith, mul-add i 1 k))
      ]
