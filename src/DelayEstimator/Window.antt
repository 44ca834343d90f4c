-- ===== src/DelayEstimator/Window.antt =====
-- DelayEstimator.cpp: which samples the window holds.
use lowlat_stream.Base.{
  ℕ, suc, ◌-◌, ◌≤◌, ◌≡◌, refl, sym, ap, subst, ◌∙◌, true, false, ltb, leb, Bool-cases, inl, inr,
  List, [], ◌∷◌, ◌++◌, All, All-append, append_nil, append_assoc, if◌then◌else◌, arith,
}
use lowlat_stream.DelayEstimator.Session.{
  Event, frame, rtt, restart, step, run, IsOrdered, sampled, moved, observe_adaptively,
  observe-Observed, set_rtt_ms-Keeps,
}
use lowlat_stream.Base.Int.{ℤ, pos, ◌-ℤ◌, ltb_ℤ}
use lowlat_stream.DelayEstimator.{
  DelayEstimatorConfig, DelayEstimator, Sample, evict, take_sample, percentile_offset, note_frame,
  update_frame_interval, observe, init, raw_delay, follow, descend, limit, publish, set_rtt_ms,
  normalise,
}

-- The samples that are at most `w` ms old.
unfoldable pub recent : ℕ → ℕ → List Sample → List Sample
recent now w [] = []
recent now w (s ∷ ss) =
    let rest = recent now w ss in if leb (now - s.at_ms) w then s ∷ rest else rest

-- The samples are in the order of time, the first at `a` or later.
abbrev pub IsTimed : ℕ → List Sample → Type 0
IsTimed a [] = Unit
IsTimed a (s ∷ ss) = (a ≤ s.at_ms) × IsTimed s.at_ms ss

abbrev pub IsBefore : ℕ → List Sample → Type 0
IsBefore now = All (λ s. s.at_ms ≤ now)

recent_all : (now w a : ℕ) (ss : List Sample) → IsTimed a ss → now - a ≤ w → recent now w ss ≡ ss
unfolding recent
recent_all now w a [] t h = refl
recent_all now w a (s ∷ ss) t h =
    let e : leb (now - s.at_ms) w ≡ true = ground arith in
    rw e (ap (◌∷◌ s) (recent_all now w s.at_ms ss t.1 (omega arith)))

-- Of samples in the order of time that are not from the future, the loop keeps the recent ones.
pub evict_lem :
    (now w a k : ℕ) (ss : List Sample)
    → IsTimed a ss
    → IsBefore now ss
    → (evict now w ss k).0 ≡ recent now w ss
unfolding evict recent
evict_lem now w a k [] t b = refl
evict_lem now w a k (s ∷ ss) t b =
    let e : ltb now s.at_ms ≡ false = ground arith in
    elim (Bool-cases (leb (now - s.at_ms) w)) [
      | inl young ↦
          rw (e, young) (ap (◌∷◌ s) (sym (recent_all now w s.at_ms ss t.1 (ground arith))))
      | inr old ↦ rw (e, old) (evict_lem now w s.at_ms (suc k) ss t.1 b.1)
    ]

recent-append :
    (now w : ℕ) (xs ys : List Sample) → recent now w (xs ++ ys) ≡ recent now w xs ++ recent now w ys
unfolding recent
recent-append now w [] ys = refl
recent-append now w (x ∷ xs) ys = ground (arith, recent-append now w xs ys)

-- What is recent later is recent now.
recent-recent :
    (now later w : ℕ) (ss : List Sample)
    → now ≤ later
    → recent later w (recent now w ss) ≡ recent later w ss
unfolding recent
recent-recent now later w [] h = refl
recent-recent now later w (s ∷ ss) h = ground (arith, recent-recent now later w ss h)

IsTimed-weaken : (a b : ℕ) (ss : List Sample) → a ≤ b → IsTimed b ss → IsTimed a ss
IsTimed-weaken a b [] h t = tt
IsTimed-weaken a b (s ∷ ss) h t = (omega (arith, t.0), t.1)

recent-IsTimed : (now w a : ℕ) (ss : List Sample) → IsTimed a ss → IsTimed a (recent now w ss)
unfolding recent
recent-IsTimed now w a [] t = tt
recent-IsTimed now w a (s ∷ ss) t = elim (Bool-cases (leb (now - s.at_ms) w)) [
  | inl e ↦ rw e (t.0, recent-IsTimed now w s.at_ms ss t.1)
  | inr e ↦ rw e (recent-IsTimed now w a ss (IsTimed-weaken a s.at_ms ss t.0 t.1))
]

recent-IsBefore : (now w b : ℕ) (ss : List Sample) → IsBefore b ss → IsBefore b (recent now w ss)
unfolding recent
recent-IsBefore now w b [] v = tt
recent-IsBefore now w b (s ∷ ss) v = elim (Bool-cases (leb (now - s.at_ms) w)) [
  | inl e ↦ rw e (v.0, recent-IsBefore now w b ss v.1)
  | inr e ↦ rw e (recent-IsBefore now w b ss v.1)
]

IsBefore-weaken : (a b : ℕ) (ss : List Sample) → a ≤ b → IsBefore a ss → IsBefore b ss
IsBefore-weaken a b [] h v = tt
IsBefore-weaken a b (s ∷ ss) h v = (omega (arith, v.0), IsBefore-weaken a b ss h v.1)

IsTimed-append :
    (a last : ℕ) (ss : List Sample) (s : Sample)
    → IsTimed a ss
    → IsBefore last ss
    → last ≤ s.at_ms
    → a ≤ s.at_ms
    → IsTimed a (ss ++ (s ∷ []))
IsTimed-append a last [] s t v h k = (k, tt)
IsTimed-append a last (x ∷ xs) s t v h k =
    (t.0, IsTimed-append x.at_ms last xs s t.1 v.1 h (omega (arith, v.0)))

abbrev pub sample_of : ℕ → ℕ → Sample
sample_of t now = record { at_ms = now; offset_ms = pos now -ℤ pos t }

-- The samples of all frames of a session.
unfoldable pub samples : List Event → List Sample
samples [] = []
samples (frame t now ∷ vs) = sample_of t now ∷ samples vs
samples (rtt ms ∷ vs) = samples vs
samples (restart ∷ vs) = samples vs

-- The window holds those of the samples that were recent at the last frame, and the offset of the
-- clocks is their percentile.
pub record IsRecent (e : DelayEstimator) (ss : List Sample) : Type 0 where
  pub window_is : e.window ≡ recent e.last_observe_ms e.config.window_ms ss
  pub floor_is : e.floor_offset_ms ≡ percentile_offset e.window e.config.floor_percentile

record Sees (e : DelayEstimator) (ss : List Sample) : Type 0 where
  is_recent : IsRecent e ss
  timed : IsTimed 0 ss
  before : IsBefore e.last_observe_ms ss
  is_adaptive : e.config.adaptive ≡ true

-- What the window is after a sample.
sampled-window :
    (e : DelayEstimator) (t now : ℕ)
    → let s = sampled e t now in
      (s.window
        ≡ (evict now e.config.window_ms
            (e.window ++ (sample_of t now ∷ []))
            e.stats.samples_evicted).0)
      × (s.floor_offset_ms ≡ percentile_offset s.window e.config.floor_percentile)
unfolding sampled take_sample note_frame update_frame_interval
sampled-window e t now = ground arith

follow-window :
    (e : DelayEstimator) (raw : ℤ) (now : ℕ)
    → let f = follow e raw now in (f.window ≡ e.window) × (f.floor_offset_ms ≡ e.floor_offset_ms)
unfolding follow descend
follow-window e raw now = ground arith

limit-window :
    (e : DelayEstimator)
    → ((limit e).window ≡ e.window) × ((limit e).floor_offset_ms ≡ e.floor_offset_ms)
unfolding limit
limit-window e = ground arith

moved-window :
    (e : DelayEstimator) (t now : ℕ)
    → let f = moved e t now in
      let s = sampled e t now in (f.window ≡ s.window) × (f.floor_offset_ms ≡ s.floor_offset_ms)
unfolding moved
moved-window e t now =
    let s = sampled e t now in
    let (a, b) = follow-window s (raw_delay s) now in
    let (c, d) = limit-window (follow s (raw_delay s) now) in (c ∙ a, d ∙ b)

publish-window :
    (e : DelayEstimator) (raw : ℤ) (now : ℕ)
    → ((publish e raw now).window ≡ e.window)
      × ((publish e raw now).floor_offset_ms ≡ e.floor_offset_ms)
unfolding publish
publish-window e raw now = (refl, refl)

observe-window :
    (e : DelayEstimator) (t now : ℕ)
    → e.config.adaptive ≡ true
    → let f = (observe e t now).1 in
      let s = sampled e t now in (f.window ≡ s.window) × (f.floor_offset_ms ≡ s.floor_offset_ms)
observe-window e t now a =
    let raw = raw_delay (sampled e t now) in
    let (p, q) = publish-window (moved e t now) raw now in
    let (c, d) = moved-window e t now in
    let o = observe_adaptively e t now a in
    (ap (λ f. f.window) o ∙ p ∙ c, ap (λ f. f.floor_offset_ms) o ∙ q ∙ d)

next_window :
    (last now w k : ℕ) (ss : List Sample) (s : Sample)
    → IsTimed 0 ss
    → IsBefore last ss
    → last ≤ now
    → s.at_ms ≡ now
    → (evict now w (recent last w ss ++ (s ∷ [])) k).0 ≡ recent now w (ss ++ (s ∷ []))
next_window last now w k ss s t b h e =
    let kept : List Sample = recent last w ss in
    let timed =
      IsTimed-append 0 last kept s (recent-IsTimed last w 0 ss t) (recent-IsBefore last w last ss b)
        (omega arith) (omega arith) in
    let before =
      All-append (λ x. x.at_ms ≤ now) kept (s ∷ [])
        (IsBefore-weaken last now kept h (recent-IsBefore last w last ss b)) (omega arith, tt) in
    evict_lem now w 0 k (kept ++ (s ∷ [])) timed before
    ∙ recent-append now w kept (s ∷ [])
    ∙ ap (λ l. l ++ recent now w (s ∷ [])) (recent-recent last now w ss h)
    ∙ sym (recent-append now w ss (s ∷ []))

frame-Sees :
    (e : DelayEstimator) (ss : List Sample) (t now : ℕ)
    → Sees e ss
    → e.last_observe_ms ≤ now
    → Sees (observe e t now).1 (ss ++ (sample_of t now ∷ []))
frame-Sees e ss t now v h =
    let s = sample_of t now in
    let o = observe-Observed e t now v.is_adaptive in
    let (a, b) = observe-window e t now v.is_adaptive in
    let (c, d) = sampled-window e t now in
    let f = (observe e t now).1 in
    let w = e.config.window_ms in
    record {
      is_recent = record {
        window_is =
            a
            ∙ c
            ∙ ap (λ l. (evict now w (l ++ (s ∷ [])) e.stats.samples_evicted).0)
                v.is_recent.window_is
            ∙ next_window e.last_observe_ms now w _ ss s v.timed v.before h refl
            ∙ sym (rw (o.last, o.same_config) refl);
        floor_is = b ∙ d ∙ rw (o.same_config, a) refl;
      };
      timed = IsTimed-append 0 e.last_observe_ms ss s v.timed v.before h (omega arith);
      before = rw o.last (
          All-append (λ x. x.at_ms ≤ now) ss (s ∷ [])
            (IsBefore-weaken e.last_observe_ms now ss h v.before) (omega arith, tt));
      is_adaptive = ap (λ x. x.adaptive) o.same_config ∙ v.is_adaptive;
    }

rtt-Sees : (e : DelayEstimator) (ss : List Sample) (ms : ℤ) → Sees e ss → Sees (set_rtt_ms e ms) ss
unfolding set_rtt_ms
rtt-Sees e ss ms v = elim (Bool-cases (ltb_ℤ (pos 0) ms)) [
  | inl p ↦ rw p (record {
    is_recent = record { window_is = v.is_recent.window_is; floor_is = v.is_recent.floor_is };
    timed = v.timed;
    before = v.before;
    is_adaptive = v.is_adaptive;
  })
  | inr p ↦ rw p v
]

run-Sees :
    (e : DelayEstimator) (ss : List Sample) (vs : List Event)
    → Sees e ss
    → IsOrdered e.last_observe_ms vs
    → Sees (run e vs) (ss ++ samples vs)
unfolding run step samples
run-Sees e ss [] v o = subst (Sees e) (sym (append_nil ss)) v
run-Sees e ss (frame t now ∷ vs) v o =
    let f = (observe e t now).1 in
    let x = observe-Observed e t now v.is_adaptive in
    subst (Sees (run f vs)) (append_assoc ss (sample_of t now ∷ []) (samples vs)) (
      run-Sees f (ss ++ (sample_of t now ∷ [])) vs (frame-Sees e ss t now v o.0)
        (subst (λ n. IsOrdered n vs) (sym x.last) o.1))
run-Sees e ss (rtt ms ∷ vs) v o =
    run-Sees (set_rtt_ms e ms) ss vs (rtt-Sees e ss ms v)
      (subst (λ n. IsOrdered n vs) (sym (set_rtt_ms-Keeps e ms).same_last) o)
run-Sees e ss (restart ∷ vs) v o = elim o [ ]

init-Sees : (c : DelayEstimatorConfig) → c.adaptive ≡ true → Sees (init c) []
unfolding init normalise recent percentile_offset
init-Sees c a = record {
  is_recent = record { window_is = refl; floor_is = refl };
  timed = tt;
  before = tt;
  is_adaptive = a;
}

-- In the adaptive mode, over frames that come in the order of time, with any measured round trips: the
-- window is those samples of all the frames so far that were at most the window's length old when the
-- last one came, and the offset of the clocks is their percentile.
pub run-IsRecent :
    (c : DelayEstimatorConfig) (vs : List Event)
    → c.adaptive ≡ true
    → IsOrdered 0 vs
    → IsRecent (run (init c) vs) (samples vs)
unfolding init
run-IsRecent c vs a o = (run-Sees (init c) [] vs (init-Sees c a) o).is_recent
