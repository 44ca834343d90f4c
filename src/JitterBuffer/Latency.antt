-- ===== src/JitterBuffer/Latency.antt =====
-- JitterBuffer with an estimator that lets no frame wait longer than a fixed time: nothing stays.
use lowlat_stream.Base.{
  ℕ, zero, suc, ◌+◌, ◌≤◌, ◌≡◌, refl, ap, subst, ◌∙◌, true, not, ltb, leb, ◌&&◌, Bool-cases,
  Option-cases, inl, inr, List, [], ◌∷◌, ◌++◌, length, replicate, All, both, arith,
}
use lowlat_stream.Base.Int.{ℤ}
use lowlat_stream.Base.Maps.{lookup}
use lowlat_stream.FrameAssembler.{AssembledFrame}
use lowlat_stream.JitterBuffer.{
  Estimator, JitterBuffer, JitterBufferConfig, Pending, Entry, init, emplace, drop_over,
  force_early, enforce_capacity, extend_frame_id, place, gate, take_in, push, pop_from, pop,
  set_rtt_ms, drop_until_key_frame,
}
use lowlat_stream.JitterBuffer.Session.{
  Call, pushed, popped, rtt, dropped, Output, handed, step, session,
}
use lowlat_stream.JitterBuffer.Pending.{All-emplace}

-- An estimator whose frames are to be played at most `d` ms after they arrive.
pub record Punctual (E : Estimator) (d : ℕ) : Type 1 where
  pub Ok : E.State → Type 0
  pub observes :
      (s : E.State) (timestamp_ms now_ms : ℕ)
      → Ok s
      → ((E.observe s timestamp_ms now_ms).0 ≤ now_ms + d) × Ok (E.observe s timestamp_ms now_ms).1
  pub sets_rtt : (s : E.State) (ms : ℤ) → Ok s → Ok (E.set_rtt_ms s ms)

abbrev pub DueBy : ℕ → Pending → Type 0
DueBy limit = All (λ p. p.1.play_at_ms ≤ limit)

-- Every frame pushed by then.
abbrev pub ArrivesBy : ℕ → List Call → Type 0
ArrivesBy t [] = Unit
ArrivesBy t (pushed frame now_ms ∷ cs) = (now_ms ≤ t) × ArrivesBy t cs
ArrivesBy t (popped now_ms ∷ cs) = ArrivesBy t cs
ArrivesBy t (rtt ms ∷ cs) = ArrivesBy t cs
ArrivesBy t (dropped ∷ cs) = ArrivesBy t cs

drop_over-DueBy : (t limit : ℕ) (m : Pending) → DueBy t m → DueBy t (drop_over limit m).0
unfolding drop_over
drop_over-DueBy t limit [] v = tt
drop_over-DueBy t limit (e ∷ m) v = elim (Bool-cases (ltb limit (length (e ∷ m)))) [
  | inl b ↦ rw b (drop_over-DueBy t limit m v.1)
  | inr b ↦ rw b v
]

force_early-DueBy : (t n : ℕ) (m : Pending) → DueBy t m → DueBy t (force_early n m).0
unfolding force_early
force_early-DueBy t zero m v = v
force_early-DueBy t (suc n) [] v = tt
force_early-DueBy t (suc n) ((k, e) ∷ m) v = (omega arith, force_early-DueBy t n m v.1)

DueBy-weaken : (a b : ℕ) (m : Pending) → a ≤ b → DueBy a m → DueBy b m
DueBy-weaken a b [] h v = tt
DueBy-weaken a b (e ∷ m) h v = (omega (arith, v.0), DueBy-weaken a b m h v.1)

-- The frames that wait, the oldest first.
abbrev pub waiting : Pending → List Output
waiting [] = []
waiting ((k, x) ∷ m) = (k, x.frame) ∷ waiting m

module _ (E : Estimator) (d : ℕ) (P : Punctual E d) where
  record IsDue (t : ℕ) (b : JitterBuffer E) : Type 0 where
    due : DueBy (t + d) b.pending
    ok : P.Ok b.estimator

  start-IsDue : (c : JitterBufferConfig) (s : E.State) (t : ℕ) → P.Ok s → IsDue t (init E c s)
  unfolding init
  start-IsDue c s t k = record { due = tt; ok = k }

  place-IsDue :
      (t : ℕ) (b : JitterBuffer E) (f : AssembledFrame) (play_at : ℕ)
      → IsDue t b
      → play_at ≤ t + d
      → IsDue t (place E b f play_at)
  unfolding place enforce_capacity
  place-IsDue t b f play_at v h =
      let m : Pending =
        emplace b.ref_extended (record { frame = f; play_at_ms = play_at }) b.pending in
      let w : DueBy (t + d) m =
        All-emplace (λ p. p.1.play_at_ms ≤ t + d) b.ref_extended
          (record { frame = f; play_at_ms = play_at }) b.pending h v.due in
      both (IsDue t) (b.has_output && leb b.ref_extended b.last_out_extended) _ _
        (record { due = v.due; ok = v.ok })
        (record {
          due =
              force_early-DueBy (t + d) _ (drop_over b.config.hard_limit_frames m).0
                (drop_over-DueBy (t + d) b.config.hard_limit_frames m w);
          ok = v.ok;
        })

  gate-IsDue :
      (t : ℕ) (b : JitterBuffer E) (f : AssembledFrame) (play_at : ℕ)
      → IsDue t b
      → play_at ≤ t + d
      → IsDue t (gate E b f play_at)
  unfolding gate
  gate-IsDue t b f play_at v h =
      both (IsDue t) (not b.started && not f.is_key) _ _ (record { due = v.due; ok = v.ok })
        (place-IsDue t (record b { started = true }) f play_at (record { due = v.due; ok = v.ok })
          h)

  take_in-IsDue :
      (t : ℕ) (b : JitterBuffer E) (f : AssembledFrame) (now : ℕ)
      → IsDue t b
      → now ≤ t
      → IsDue t (take_in E b f now)
  unfolding take_in
  take_in-IsDue t b f now v h =
      let (early, ok) = P.observes b.estimator f.timestamp_ms now v.ok in
      elim (Option-cases (lookup b.ref_extended b.pending)) [
        | inl new ↦
            rw (new, take_in)
              (gate-IsDue t (record b { estimator = (E.observe b.estimator f.timestamp_ms now).1 })
                f (E.observe b.estimator f.timestamp_ms now).0 (record { due = v.due; ok = ok })
                (omega arith))
        | inr (x, old) ↦ rw (old, take_in) (record { due = v.due; ok = v.ok })
      ]

  push-IsDue :
      (t : ℕ) (b : JitterBuffer E) (f : AssembledFrame) (now : ℕ)
      → IsDue t b
      → now ≤ t
      → IsDue t (push E b f now)
  unfolding push extend_frame_id
  push-IsDue t b f now v h =
      take_in-IsDue t _ f now
        (both (IsDue t) (not b.has_ref) _ _ (record { due = v.due; ok = v.ok })
          (record { due = v.due; ok = v.ok }))
        h

  pop-IsDue :
      (t now : ℕ) (b : JitterBuffer E) (m : Pending)
      → b.pending ≡ m
      → IsDue t b
      → IsDue t (handed E b (pop_from E b m now)).1
  unfolding handed pop_from
  pop-IsDue t now b [] e v = v
  pop-IsDue t now b ((k, x) ∷ m) e v =
      let (_, rest) : DueBy (t + d) ((k, x) ∷ m) = subst (DueBy (t + d)) e v.due in
      elim (Bool-cases (ltb now x.play_at_ms)) [
        | inl early ↦ rw early v
        | inr late ↦ rw late (record { due = rest; ok = v.ok })
      ]

  session-IsDue :
      (t : ℕ) (b : JitterBuffer E) (cs : List Call)
      → IsDue t b
      → ArrivesBy t cs
      → IsDue t (session E b cs).1
  unfolding session step pop set_rtt_ms drop_until_key_frame
  session-IsDue t b [] v a = v
  session-IsDue t b (pushed f now ∷ cs) v a =
      session-IsDue t (push E b f now) cs (push-IsDue t b f now v a.0) a.1
  session-IsDue t b (popped now ∷ cs) v a =
      session-IsDue t _ cs (pop-IsDue t now b b.pending refl v) a
  session-IsDue t b (rtt ms ∷ cs) v a =
      session-IsDue t _ cs (record { due = v.due; ok = P.sets_rtt b.estimator ms v.ok }) a
  session-IsDue t b (dropped ∷ cs) v a = session-IsDue t _ cs (record { due = tt; ok = v.ok }) a

  pop_due :
      (b : JitterBuffer E) (k now : ℕ) (x : Entry) (m : Pending)
      → b.pending ≡ (k, x) ∷ m
      → x.play_at_ms ≤ now
      → let (out, u) = step E b (popped now) in (out ≡ (k, x.frame) ∷ []) × (u.pending ≡ m)
  unfolding step pop handed pop_from
  pop_due b k now x m e h = ground arith

  drain :
      (b : JitterBuffer E) (now : ℕ) (m : Pending)
      → b.pending ≡ m
      → DueBy now m
      → let (out, u) = session E b (replicate (length m) (popped now)) in
        (out ≡ waiting m) × (u.pending ≡ [])
  unfolding session
  drain b now [] e v = (refl, e)
  drain b now ((k, x) ∷ m) e v =
      let (a, rest) = pop_due b k now x m e v.0 in
      let (c, f) = drain (step E b (popped now)).1 now m rest v.1 in
      (
        ap (λ o. o ++ (session E (step E b (popped now)).1 (replicate (length m) (popped now))).0) a
            ∙ ap (◌∷◌ (k, x.frame)) c,
        f,
      )

  -- All frames pushed by `t` are handed out, the oldest first, by as many pops at a time `d` later.
  pub nothing_stays :
      (c : JitterBufferConfig) (s : E.State) (cs : List Call) (t now_ms : ℕ)
      → P.Ok s
      → ArrivesBy t cs
      → t + d ≤ now_ms
      → let b = (session E (init E c s) cs).1 in
        let (out, u) = session E b (replicate (length b.pending) (popped now_ms)) in
        (out ≡ waiting b.pending) × (u.pending ≡ [])
  nothing_stays c s cs t now_ms k a h =
      let b = (session E (init E c s) cs).1 in
      let v = session-IsDue t (init E c s) cs (start-IsDue c s t k) a in
      drain b now_ms b.pending refl (DueBy-weaken (t + d) now_ms b.pending h v.due)
