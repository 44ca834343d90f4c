-- ===== src/DelayEstimator/Session.antt =====
-- DelayEstimator.cpp: a session with an estimator, and what holds of it after each frame.
use lowlat_stream.Base.{
  ℕ, ◌+◌, ◌-◌, ◌*◌, ◌≤◌, ◌<◌, ◌≡◌, ap, sym, subst, refl, ◌∙◌, true, List, [], ◌∷◌, arith,
}
use native.Mathlib.Nat.{mul-add}
use lowlat_stream.Base.Int.{ℤ, pos, pos_part, neg_part, ◌-ℤ◌, ◌≤ℤ◌}
use lowlat_stream.DelayEstimator.{
  DelayEstimatorConfig, DelayEstimator, update_frame_interval, note_frame, take_sample, raw_delay,
  elapsed, follow, limit, publish, observe, observe_adaptive, set_rtt_ms, reset, init, normalise,
}
use lowlat_stream.DelayEstimator.Target.{
  Falls, IsWithin, limit-IsWithin, limit_follow-Falls, follow-config, limit-config,
}

pub data Event : Type 0 where
  frame : ℕ → ℕ → Event
  rtt : ℤ → Event
  restart : Event

unfoldable pub step : DelayEstimator → Event → DelayEstimator
step e (frame timestamp_ms now_ms) = (observe e timestamp_ms now_ms).1
step e (rtt ms) = set_rtt_ms e ms
step e restart = reset e

unfoldable pub run : DelayEstimator → List Event → DelayEstimator
run e [] = e
run e (v ∷ vs) = run (step e v) vs

-- What taking a sample leaves alone.
pub record Keeps (e : DelayEstimator) (f : DelayEstimator) : Type 0 where
  pub same_config : f.config ≡ e.config
  pub same_target : f.target_delay_ms ≡ e.target_delay_ms
  pub same_remainder : f.down_rate_remainder ≡ e.down_rate_remainder
  pub same_last : f.last_observe_ms ≡ e.last_observe_ms
  pub same_has_last : f.has_last_observe ≡ e.has_last_observe

note_frame-Keeps : (e : DelayEstimator) (t : ℕ) → Keeps e (note_frame e t)
unfolding note_frame update_frame_interval
note_frame-Keeps e t = ground arith

take_sample-Keeps : (e : DelayEstimator) (now : ℕ) (o : ℤ) → Keeps e (take_sample e now o)
unfolding take_sample
take_sample-Keeps e now o = ground arith

unfoldable pub sampled : DelayEstimator → ℕ → ℕ → DelayEstimator
sampled e t now = take_sample (note_frame e t) now (pos now -ℤ pos t)

sampled-Keeps : (e : DelayEstimator) (t now : ℕ) → Keeps e (sampled e t now)
unfolding sampled
sampled-Keeps e t now =
    let a = note_frame-Keeps e t in
    let b = take_sample-Keeps (note_frame e t) now (pos now -ℤ pos t) in
    record {
      same_config = b.same_config ∙ a.same_config;
      same_target = b.same_target ∙ a.same_target;
      same_remainder = b.same_remainder ∙ a.same_remainder;
      same_last = b.same_last ∙ a.same_last;
      same_has_last = b.same_has_last ∙ a.same_has_last;
    }

unfoldable pub moved : DelayEstimator → ℕ → ℕ → DelayEstimator
moved e t now = limit (follow (sampled e t now) (raw_delay (sampled e t now)) now)

pub observe_adaptively :
    (e : DelayEstimator) (t now : ℕ)
    → e.config.adaptive ≡ true
    → (observe e t now).1 ≡ publish (moved e t now) (raw_delay (sampled e t now)) now
unfolding observe observe_adaptive moved sampled
observe_adaptively e t now a = rw (note_frame-Keeps e t).same_config (rw a refl)

pub moved-config : (e : DelayEstimator) (t now : ℕ) → (moved e t now).config ≡ e.config
unfolding moved
moved-config e t now =
    limit-config _ ∙ follow-config (sampled e t now) _ now ∙ (sampled-Keeps e t now).same_config

publish-IsWithin :
    (e : DelayEstimator) (raw : ℤ) (now : ℕ) → IsWithin e → IsWithin (publish e raw now)
unfolding publish
publish-IsWithin e raw now v = ground arith

moved-IsWithin :
    (e : DelayEstimator) (t now : ℕ)
    → e.config.min_delay_ms ≤ℤ e.config.max_delay_ms
    → IsWithin (moved e t now)
unfolding moved
moved-IsWithin e t now h = limit-IsWithin _ (
    rw
      (follow-config (sampled e t now) (raw_delay (sampled e t now)) now
        ∙ (sampled-Keeps e t now).same_config)
      h)

Falls-Keeps : (e s f : DelayEstimator) (dt : ℕ) → Keeps e s → Falls s f dt → Falls e f dt
Falls-Keeps e s f dt k v =
    let c : pos_part s.config.down_rate_ms_per_sec ≡ pos_part e.config.down_rate_ms_per_sec =
      ap (λ c. pos_part c.down_rate_ms_per_sec) k.same_config in
    rw⁻¹ (c, k.same_target, k.same_remainder) v

elapsed-Keeps : (e s : DelayEstimator) (now : ℕ) → Keeps e s → elapsed s now ≡ elapsed e now
unfolding elapsed
elapsed-Keeps e s now k = rw (k.same_last, k.same_has_last) refl

moved-Falls :
    (e : DelayEstimator) (t now : ℕ)
    → 0 < pos_part e.config.down_rate_ms_per_sec
    → e.target_delay_ms ≤ℤ e.config.max_delay_ms
    → Falls e (moved e t now) (elapsed e now)
unfolding moved
moved-Falls e t now h l =
    let k = sampled-Keeps e t now in
    Falls-Keeps e (sampled e t now) (moved e t now) (elapsed e now) k (
      rw⁻¹ (elapsed-Keeps e (sampled e t now) now k) (
        limit_follow-Falls (sampled e t now) (raw_delay (sampled e t now)) now (rw k.same_config h)
          (rw (k.same_config, k.same_target) l)))

-- What one frame does in the adaptive mode.
pub record Observed (e : DelayEstimator) (f : DelayEstimator) (now : ℕ) : Type 0 where
  pub same_config : f.config ≡ e.config
  pub is_within : e.config.min_delay_ms ≤ℤ e.config.max_delay_ms → IsWithin f
  pub falls :
      0 < pos_part e.config.down_rate_ms_per_sec
      → e.target_delay_ms ≤ℤ e.config.max_delay_ms
      → Falls e f (elapsed e now)
  pub last : f.last_observe_ms ≡ now
  pub has_last : f.has_last_observe ≡ true
  pub published : f.stats.current_delay_ms ≡ f.target_delay_ms

publish-Falls :
    (e f : DelayEstimator) (raw : ℤ) (now dt : ℕ) → Falls e f dt → Falls e (publish f raw now) dt
unfolding publish
publish-Falls e f raw now dt v = v

published-Observed :
    (e : DelayEstimator) (t now : ℕ) (raw : ℤ) → Observed e (publish (moved e t now) raw now) now
unfolding publish
published-Observed e t now raw = record {
  same_config = moved-config e t now;
  is_within = λ h. publish-IsWithin (moved e t now) raw now (moved-IsWithin e t now h);
  falls = λ h l. publish-Falls e (moved e t now) raw now (elapsed e now) (moved-Falls e t now h l);
  last = refl;
  has_last = refl;
  published = refl;
}

pub observe-Observed :
    (e : DelayEstimator) (t now : ℕ) → e.config.adaptive ≡ true → Observed e (observe e t now).1 now
observe-Observed e t now a =
    subst (λ f. Observed e f now) (sym (observe_adaptively e t now a))
      (published-Observed e t now (raw_delay (sampled e t now)))

pub set_rtt_ms-Keeps : (e : DelayEstimator) (ms : ℤ) → Keeps e (set_rtt_ms e ms)
unfolding set_rtt_ms
set_rtt_ms-Keeps e ms = ground arith

step-config :
    (e : DelayEstimator) (v : Event) → e.config.adaptive ≡ true → (step e v).config ≡ e.config
unfolding step reset
step-config e (frame t now) a = (observe-Observed e t now a).same_config
step-config e (rtt ms) a = (set_rtt_ms-Keeps e ms).same_config
step-config e restart a = refl

run-config :
    (e : DelayEstimator) (vs : List Event) → e.config.adaptive ≡ true → (run e vs).config ≡ e.config
unfolding run
run-config e [] a = refl
run-config e (v ∷ vs) a =
    let k = step-config e v a in run-config (step e v) vs (ap (λ c. c.adaptive) k ∙ a) ∙ k

pub init-config :
    (c : DelayEstimatorConfig)
    → ((init c).config ≡ normalise c)
      × ((normalise c).adaptive ≡ c.adaptive)
      × ((normalise c).min_delay_ms ≤ℤ (normalise c).max_delay_ms)
unfolding init normalise
init-config c = (refl, refl, ground arith)

-- In the adaptive mode, whatever frames have come, with whatever times, round trips measured and
-- restarts: after one more frame the delay is between the least delay in force, which is at least the
-- smaller of the two ends of the configuration, and the larger of them; and it is the delay published.
pub frame-IsWithin :
    (c : DelayEstimatorConfig) (vs : List Event) (timestamp_ms now_ms : ℕ)
    → c.adaptive ≡ true
    → let e = (observe (run (init c) vs) timestamp_ms now_ms).1 in
      IsWithin e × (e.config ≡ normalise c) × (e.stats.current_delay_ms ≡ e.target_delay_ms)
frame-IsWithin c vs t now a =
    let (i, j, k) = init-config c in
    let b : (init c).config.adaptive ≡ true = ap (λ d. d.adaptive) i ∙ j ∙ a in
    let r : (run (init c) vs).config ≡ normalise c = run-config (init c) vs b ∙ i in
    let o = observe-Observed (run (init c) vs) t now (ap (λ d. d.adaptive) r ∙ j ∙ a) in
    (o.is_within (rw r k), o.same_config ∙ r, o.published)

-- The frames come at times that do not go back, and the estimator is not restarted.
abbrev pub IsOrdered : ℕ → List Event → Type 0
IsOrdered last [] = Unit
IsOrdered last (frame t now ∷ vs) = (last ≤ now) × IsOrdered now vs
IsOrdered last (rtt ms ∷ vs) = IsOrdered last vs
IsOrdered last (restart ∷ vs) = ⊥

Falls-chain :
    (e f g : DelayEstimator) (a b : ℕ)
    → f.config ≡ e.config
    → Falls e f a
    → Falls f g b
    → Falls e g (a + b)
Falls-chain e f g a b c v w =
    let d : pos_part f.config.down_rate_ms_per_sec ≡ pos_part e.config.down_rate_ms_per_sec =
      ap (λ x. pos_part x.down_rate_ms_per_sec) c in
    let w' =
      subst
        (λ r.
          1000 * (pos_part f.target_delay_ms + neg_part g.target_delay_ms) + g.down_rate_remainder
          ≤ 1000 * (pos_part g.target_delay_ms + neg_part f.target_delay_ms)
            + r * b
            + f.down_rate_remainder)
        d w in
    omega (arith, v, w', mul-add (pos_part e.config.down_rate_ms_per_sec) a b)

-- An estimator that follows the arrivals and has seen a frame.
pub record IsFollowing (e : DelayEstimator) : Type 0 where
  pub is_adaptive : e.config.adaptive ≡ true
  pub has_rate : 0 < pos_part e.config.down_rate_ms_per_sec
  pub is_ordered : e.config.min_delay_ms ≤ℤ e.config.max_delay_ms
  pub is_below : e.target_delay_ms ≤ℤ e.config.max_delay_ms
  pub has_last : e.has_last_observe ≡ true

Observed-IsFollowing :
    (e f : DelayEstimator) (now : ℕ) → IsFollowing e → Observed e f now → IsFollowing f
Observed-IsFollowing e f now v o = record {
  is_adaptive = ap (λ c. c.adaptive) o.same_config ∙ v.is_adaptive;
  has_rate = rw o.same_config v.has_rate;
  is_ordered = rw o.same_config v.is_ordered;
  is_below = (o.is_within v.is_ordered).below;
  has_last = o.has_last;
}

Keeps-IsFollowing : (e f : DelayEstimator) → IsFollowing e → Keeps e f → IsFollowing f
Keeps-IsFollowing e f v k = record {
  is_adaptive = ap (λ c. c.adaptive) k.same_config ∙ v.is_adaptive;
  has_rate = rw k.same_config v.has_rate;
  is_ordered = rw k.same_config v.is_ordered;
  is_below = rw (k.same_config, k.same_target) v.is_below;
  has_last = k.same_has_last ∙ v.has_last;
}

elapsed_lem :
    (e : DelayEstimator) (now : ℕ)
    → e.has_last_observe ≡ true
    → e.last_observe_ms ≤ now
    → elapsed e now ≡ now - e.last_observe_ms
unfolding elapsed
elapsed_lem e now h l = ground arith

-- In the adaptive mode and with a rate, over any number of frames that come in order of time: a
-- thousand times the way the target has come down is at most the rate for the time from the frame
-- before them to the last one, in ms, and the remainder of the division that was left before.
pub run-Falls :
    (e : DelayEstimator) (vs : List Event)
    → IsFollowing e
    → IsOrdered e.last_observe_ms vs
    → (e.last_observe_ms ≤ (run e vs).last_observe_ms)
      × Falls e (run e vs) ((run e vs).last_observe_ms - e.last_observe_ms)
unfolding run step
run-Falls e [] v o = (omega arith, omega arith)
run-Falls e (frame t now ∷ vs) v o =
    let f : DelayEstimator = (observe e t now).1 in
    let x = observe-Observed e t now v.is_adaptive in
    let (m, w) =
      run-Falls f vs (Observed-IsFollowing e f now v x)
        (subst (λ n. IsOrdered n vs) (sym x.last) o.1) in
    let g : DelayEstimator = run f vs in
    let later : e.last_observe_ms ≤ g.last_observe_ms = omega (arith, x.last, m, o.0) in
    let sum : elapsed e now + (g.last_observe_ms - f.last_observe_ms)
        ≡ g.last_observe_ms - e.last_observe_ms =
      omega (arith, elapsed_lem e now v.has_last o.0, x.last, m, o.0) in
    (
      later,
      subst (Falls e g) sum (Falls-chain e f g _ _ x.same_config (x.falls v.has_rate v.is_below) w),
    )
run-Falls e (rtt ms ∷ vs) v o =
    let k = set_rtt_ms-Keeps e ms in
    let (m, w) =
      run-Falls (set_rtt_ms e ms) vs (Keeps-IsFollowing e _ v k)
        (subst (λ n. IsOrdered n vs) (sym k.same_last) o) in
    (
      subst (λ n. n ≤ (run (set_rtt_ms e ms) vs).last_observe_ms) k.same_last m,
      Falls-Keeps e (set_rtt_ms e ms) (run (set_rtt_ms e ms) vs) _ k (
          subst
            (λ n.
              Falls (set_rtt_ms e ms) (run (set_rtt_ms e ms) vs)
                ((run (set_rtt_ms e ms) vs).last_observe_ms - n))
            k.same_last w),
    )
run-Falls e (restart ∷ vs) v o = elim o [ ]
