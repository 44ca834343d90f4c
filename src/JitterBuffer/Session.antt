-- ===== src/JitterBuffer/Session.antt =====
-- The calls that a receiver makes of the jitter buffer, in any order, and what they hand out.
use lowlat_stream.Base.{ℕ, ◌<◌, ◌^◌, Option, none, some, List, [], ◌∷◌, ◌++◌}
use lowlat_stream.Base.Int.{ℤ}
use lowlat_stream.FrameAssembler.{AssembledFrame}
use lowlat_stream.JitterBuffer.{
  Estimator, JitterBuffer, push, pop, set_rtt_ms, drop_until_key_frame,
}

-- A call of one stream; `reset` ends it.
pub data Call : Type 0 where
  pushed : AssembledFrame → ℕ → Call
  popped : ℕ → Call
  rtt : ℤ → Call
  dropped : Call

-- The frame id fits its field, and the frame satisfies `P`.
abbrev pub Carries : (AssembledFrame → Type 0) → Call → Type 0
Carries P (pushed frame now_ms) = (frame.frame_id < 2 ^ 32) × P frame
Carries P (popped now_ms) = Unit {0}
Carries P (rtt ms) = Unit {0}
Carries P dropped = Unit {0}

-- A frame handed out, under its extended number.
abbrev pub Output : Type 0
Output = ℕ × AssembledFrame

module _ (E : Estimator) where
  -- The frame that `pop` hands out, under the number that it leaves as the last.
  unfoldable pub handed :
      JitterBuffer E → Option (AssembledFrame × JitterBuffer E) → List Output × JitterBuffer E
  handed b none = ([], b)
  handed b (some (frame, u)) = ((u.last_out_extended, frame) ∷ [], u)

  unfoldable pub step : JitterBuffer E → Call → List Output × JitterBuffer E
  step b (pushed frame now_ms) = ([], push E b frame now_ms)
  step b (popped now_ms) = handed b (pop E b now_ms)
  step b (rtt ms) = ([], set_rtt_ms E b ms)
  step b dropped = ([], drop_until_key_frame E b)

  unfoldable pub session : JitterBuffer E → List Call → List Output × JitterBuffer E
  session b [] = ([], b)
  session b (c ∷ cs) = let (out, u) = step b c in let (outs, w) = session u cs in (out ++ outs, w)
