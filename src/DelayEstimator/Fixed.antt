-- ===== src/DelayEstimator/Fixed.antt =====
-- DelayEstimator.cpp, observe() without adaption: the smallest offset of the clocks so far.
use lowlat_stream.Base.{
  ℕ, ◌+◌, ◌≤◌, ◌≡◌, ◌⊎◌, refl, ap, ◌∙◌, Bool, true, false, not, Bool-cases, inl, inr, List, [], ◌∷◌,
  ◌++◌, All, All-append, Elem, if◌then◌else◌, ◌||◌, arith,
}
use lowlat_stream.Base.Int.{ℤ, pos, pos_part, neg_part, ◌+ℤ◌, ◌-ℤ◌, ◌≤ℤ◌, ltb_ℤ, +ℤ_parts, -ℤ_parts}
use lowlat_stream.DelayEstimator.{
  DelayEstimatorConfig, DelayEstimator, note_frame, update_frame_interval, observe, observe_fixed,
  play_at, set_rtt_ms, reset, init, normalise,
}
use lowlat_stream.DelayEstimator.Session.{Event, frame, rtt, restart, step, run}

-- The offsets of the frames since the last restart, after those that are given.
unfoldable pub offsets_since : List ℤ → List Event → List ℤ
offsets_since os [] = os
offsets_since os (frame t now ∷ vs) = offsets_since (os ++ ((pos now -ℤ pos t) ∷ [])) vs
offsets_since os (rtt ms ∷ vs) = offsets_since os vs
offsets_since os (restart ∷ vs) = offsets_since [] vs

abbrev pub IsLeast : ℤ → List ℤ → Type 0
IsLeast o os = All (λ x. o ≤ℤ x) os × Elem o os

-- What one frame does.
fixed_effect :
    (e : DelayEstimator) (t now : ℕ)
    → e.config.adaptive ≡ false
    → let f = (observe e t now).1 in
      let o = pos now -ℤ pos t in
      (f.config ≡ e.config)
      × (f.has_floor ≡ true)
      × (f.floor_offset_ms
          ≡ (if not e.has_floor || ltb_ℤ o e.floor_offset_ms then o else e.floor_offset_ms))
      × (f.target_delay_ms ≡ e.config.target_delay_ms)
      × (f.stats.current_delay_ms ≡ e.config.target_delay_ms)
      × ((observe e t now).0 ≡ pos_part (pos t +ℤ f.floor_offset_ms +ℤ f.target_delay_ms))
unfolding observe note_frame update_frame_interval observe_fixed play_at
fixed_effect e t now a = ground arith

-- The floor is the least of the offsets, once there is one.
pub record Settled (d : ℤ) (e : DelayEstimator) (os : List ℤ) : Type 0 where
  has_delay : e.config.target_delay_ms ≡ d
  is_fixed : e.config.adaptive ≡ false
  floor_least :
      (e.has_floor ≡ true × IsLeast e.floor_offset_ms os) ⊎ (e.has_floor ≡ false × os ≡ [])

All-raise : (a b : ℤ) (os : List ℤ) → a ≤ℤ b → All (λ x. b ≤ℤ x) os → All (λ x. a ≤ℤ x) os
All-raise a b [] h v = tt
All-raise a b (o ∷ os) h v = (omega (arith, v.0), All-raise a b os h v.1)

Elem-append : (a : ℤ) (xs ys : List ℤ) → Elem a xs ⊎ Elem a ys → Elem a (xs ++ ys)
Elem-append a [] ys (inl m) = elim m [ ]
Elem-append a [] ys (inr m) = m
Elem-append a (x ∷ xs) ys (inl (inl e)) = inl e
Elem-append a (x ∷ xs) ys (inl (inr m)) = inr (Elem-append a xs ys (inl m))
Elem-append a (x ∷ xs) ys (inr m) = inr (Elem-append a xs ys (inr m))

-- The smaller of the least so far and a new one is the least of all.
IsLeast-next :
    (a o : ℤ) (os : List ℤ) → IsLeast a os → IsLeast (if ltb_ℤ o a then o else a) (os ++ (o ∷ []))
IsLeast-next a o os v = elim (Bool-cases (ltb_ℤ o a)) [
  | inl e ↦ rw e (
    All-append (λ x. o ≤ℤ x) os (o ∷ []) (All-raise o a os (ground arith) v.0) (omega arith, tt),
    Elem-append o os (o ∷ []) (inr (inl refl)),
  )
  | inr e ↦ rw e (
    All-append (λ x. a ≤ℤ x) os (o ∷ []) v.0 (ground arith, tt),
    Elem-append a os (o ∷ []) (inl v.1),
  )
]

IsLeast-floor :
    (has : Bool) (a o f : ℤ) (os : List ℤ)
    → f ≡ (if not has || ltb_ℤ o a then o else a)
    → (has ≡ true × IsLeast a os) ⊎ (has ≡ false × os ≡ [])
    → IsLeast f (os ++ (o ∷ []))
IsLeast-floor true a o f os e (inl (b, least)) = rw e (IsLeast-next a o os least)
IsLeast-floor true a o f os e (inr (b, none_yet)) = absurd (cc b)
IsLeast-floor false a o f os e (inl (b, least)) = absurd (cc b)
IsLeast-floor false a o f os e (inr (b, none_yet)) = rw (e, none_yet) ((omega arith, tt), inl refl)

frame-Settled :
    (d : ℤ) (e : DelayEstimator) (os : List ℤ) (t now : ℕ)
    → Settled d e os
    → let f = (observe e t now).1 in
      (f.config.target_delay_ms ≡ d)
      × (f.config.adaptive ≡ false)
      × (f.has_floor ≡ true)
      × IsLeast f.floor_offset_ms (os ++ ((pos now -ℤ pos t) ∷ []))
frame-Settled d e os t now v =
    let o = pos now -ℤ pos t in
    let (c, h, fl, k, l, m) = fixed_effect e t now v.is_fixed in
    (
      ap (λ x. x.target_delay_ms) c ∙ v.has_delay,
      ap (λ x. x.adaptive) c ∙ v.is_fixed,
      h,
      IsLeast-floor e.has_floor e.floor_offset_ms o (observe e t now).1.floor_offset_ms os fl
          v.floor_least,
    )

pub rtt-Settled :
    (d : ℤ) (e : DelayEstimator) (os : List ℤ) (ms : ℤ)
    → Settled d e os
    → Settled d (set_rtt_ms e ms) os
unfolding set_rtt_ms
rtt-Settled d e os ms v = elim (Bool-cases (ltb_ℤ (pos 0) ms)) [
  | inl p ↦
      rw p (record { has_delay = v.has_delay; is_fixed = v.is_fixed; floor_least = v.floor_least })
  | inr p ↦ rw p v
]

run-Settled :
    (d : ℤ) (e : DelayEstimator) (os : List ℤ) (vs : List Event)
    → Settled d e os
    → Settled d (run e vs) (offsets_since os vs)
unfolding run step offsets_since reset
run-Settled d e os [] v = v
run-Settled d e os (frame t now ∷ vs) v =
    let (x, a, b, c) = frame-Settled d e os t now v in
    run-Settled d (observe e t now).1 (os ++ ((pos now -ℤ pos t) ∷ [])) vs
      (record { has_delay = x; is_fixed = a; floor_least = inl (b, c) })
run-Settled d e os (rtt ms ∷ vs) v = run-Settled d (set_rtt_ms e ms) os vs (rtt-Settled d e os ms v)
run-Settled d e os (restart ∷ vs) v =
    run-Settled d (reset e) [] vs
      (record { has_delay = v.has_delay; is_fixed = v.is_fixed; floor_least = inr (refl, refl) })

All-last : (a o : ℤ) (os : List ℤ) → All (λ x. a ≤ℤ x) (os ++ (o ∷ [])) → a ≤ℤ o
All-last a o [] v = v.0
All-last a o (x ∷ xs) v = All-last a o xs v.1

pos_part-le : (x : ℤ) (n : ℕ) → pos_part x ≤ n + neg_part x → pos_part x ≤ n
pos_part-le x n h = ground arith

-- A floor at most the frame's own offset lets it wait no longer than the delay.
play_at-le :
    (t now : ℕ) (floor delay : ℤ)
    → floor ≤ℤ pos now -ℤ pos t
    → pos_part (pos t +ℤ floor +ℤ delay) ≤ now + pos_part delay
play_at-le t now floor delay h = pos_part-le (pos t +ℤ floor +ℤ delay) (now + pos_part delay) (
    omega
      (arith, +ℤ_parts (pos t) floor, +ℤ_parts (pos t +ℤ floor) delay, -ℤ_parts (pos now) (pos t)))

pub init-Settled :
    (c : DelayEstimatorConfig) → c.adaptive ≡ false → Settled c.target_delay_ms (init c) []
unfolding init normalise
init-Settled c a = record { has_delay = refl; is_fixed = a; floor_least = inr (refl, refl) }

pub Settled-frame :
    (d : ℤ) (e : DelayEstimator) (os : List ℤ) (t now : ℕ)
    → Settled d e os
    → let r = observe e t now in
      (r.0 ≡ pos_part (pos t +ℤ r.1.floor_offset_ms +ℤ d))
      × (r.0 ≤ now + pos_part d)
      × IsLeast r.1.floor_offset_ms (os ++ ((pos now -ℤ pos t) ∷ []))
      × Settled d r.1 (os ++ ((pos now -ℤ pos t) ∷ []))
Settled-frame d e os t now v =
    let o = pos now -ℤ pos t in
    let (x, a, b, least) = frame-Settled d e os t now v in
    let (_, _, _, delay, _, at) = fixed_effect e t now v.is_fixed in
    let f = (observe e t now).1.floor_offset_ms in
    let at' : (observe e t now).0 ≡ pos_part (pos t +ℤ f +ℤ d) =
      at ∙ ap (λ d. pos_part (pos t +ℤ f +ℤ d)) (delay ∙ v.has_delay) in
    (
      at',
      rw at' (play_at-le t now f d (All-last f o os least.0)),
      least,
      record { has_delay = x; is_fixed = a; floor_least = inl (b, least) },
    )

-- Without adaption, whatever came before: the offset of the clocks is the least of the offsets of the
-- frames since the last restart, this one included; the frame is to be played at its own time moved by
-- that offset and the delay of the configuration, and so at most that delay after it arrives; and no
-- round trip changes this.
pub fixed_playout :
    (c : DelayEstimatorConfig) (vs : List Event) (timestamp_ms now_ms : ℕ)
    → c.adaptive ≡ false
    → let e = run (init c) vs in
      let r = observe e timestamp_ms now_ms in
      let offset = pos now_ms -ℤ pos timestamp_ms in
      IsLeast r.1.floor_offset_ms (offsets_since [] vs ++ (offset ∷ []))
      × (r.0 ≡ pos_part (pos timestamp_ms +ℤ r.1.floor_offset_ms +ℤ c.target_delay_ms))
      × (r.0 ≤ now_ms + pos_part c.target_delay_ms)
fixed_playout c vs t now a =
    let v = run-Settled c.target_delay_ms (init c) [] vs (init-Settled c a) in
    let (at, wait, least, _) = Settled-frame c.target_delay_ms _ _ t now v in (least, at, wait)
