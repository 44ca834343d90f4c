-- ===== src/JitterBuffer/Popped.antt =====
-- JitterBuffer.cpp, pop(): what one pop and several at the same time hand out.
use lowlat_stream.Base.{
  ℕ, suc, ◌≤◌, ◌≡◌, refl, ap, Option-cases, inl, inr, none, some, List, [], ◌∷◌, ◌++◌, length,
  replicate, arith,
}
use lowlat_stream.FrameAssembler.{AssembledFrame}
use lowlat_stream.JitterBuffer.{Estimator, JitterBuffer, Pending, pop_from, drop_until_key_frame}
use lowlat_stream.JitterBuffer as JitterBuffer
use lowlat_stream.JitterBuffer.Session.{popped, session, step, handed, Output}

abbrev pub frames_of : List Output → List AssembledFrame
frames_of [] = []
frames_of ((k, f) ∷ os) = f ∷ frames_of os

module _ (E : Estimator) where
  pop_from-length :
      (b u : JitterBuffer E) (m : Pending) (f : AssembledFrame) (now : ℕ)
      → b.pending ≡ m
      → pop_from E b m now ≡ some (f, u)
      → length m ≡ suc (length u.pending)
  unfolding pop_from
  pop_from-length b u [] f now e h = ground arith
  pop_from-length b u ((k, x) ∷ m) f now e h = ground arith

  pub pop-length :
      (b u : JitterBuffer E) (f : AssembledFrame) (now : ℕ)
      → JitterBuffer.pop E b now ≡ some (f, u)
      → length b.pending ≡ suc (length u.pending)
  unfolding JitterBuffer.pop
  pop-length b u f now h = pop_from-length b u b.pending f now refl h

  pub session-pop :
      (b u : JitterBuffer E) (f : AssembledFrame) (now k : ℕ)
      → JitterBuffer.pop E b now ≡ some (f, u)
      → let later = session E u (replicate k (popped now)) in
        let all = session E b (replicate (suc k) (popped now)) in
        (frames_of all.0 ≡ f ∷ frames_of later.0) × (all.1 ≡ later.1)
  unfolding session step handed
  session-pop b u f now k h =
      let e : step E b (popped now) ≡ ((u.last_out_extended, f) ∷ [], u) = ap (handed E b) h in
      (
        ap (λ s. frames_of (s.0 ++ (session E s.1 (replicate k (popped now))).0)) e,
        ap (λ s. (session E s.1 (replicate k (popped now))).1) e,
      )

  pub pop-empty :
      (b : JitterBuffer E) (now : ℕ) → length b.pending ≤ 0 → JitterBuffer.pop E b now ≡ none
  pop-empty b now l = elim (Option-cases (JitterBuffer.pop E b now)) [
    | inl e ↦ e
    | inr ((f, u), e) ↦ absurd (omega (arith, pop-length b u f now e))
  ]
