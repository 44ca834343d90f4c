-- ===== src/JitterBuffer/Tests.antt =====
-- Instances of the theorems on the jitter buffer, with an estimator that adds a fixed delay.
use lowlat_stream.Base.{ℕ, ◌+◌, ◌≤◌, ◌≡◌, refl, true, false, [], ◌∷◌, some, List, arith, inr, inl}
use lowlat_stream.Base.Maps.{lookup}
use lowlat_stream.FrameAssembler.{AssembledFrame}
use lowlat_stream.JitterBuffer.{
  Estimator, JitterBuffer, JitterBufferConfig, push, pop, drop_until_key_frame, no_stats, init,
  emplace, drop_over, force_early, pop_from, take_in, gate, place, enforce_capacity,
  extend_frame_id,
}
use lowlat_stream.JitterBuffer.Session.{Call, pushed, popped, dropped, handed, step, session}
use lowlat_stream.JitterBuffer.Valid.{IsValid}
use lowlat_stream.JitterBuffer.Order.{Delivers, session-Delivers}
use lowlat_stream.JitterBuffer.Due.{no_key_frame_no_output}
use lowlat_stream.JitterBuffer.Resync.{key_frame_is_overtaken}

abbrev fixed : Estimator
fixed = record {
  State = ℕ;
  observe = λ d timestamp_ms now_ms. (now_ms + d, d);
  set_rtt_ms = λ d rtt_ms. d;
  reset = λ d. d;
}

abbrev test_frame : ℕ → AssembledFrame
test_frame id = record { bytes = id ∷ []; frame_id = id; timestamp_ms = 5; is_key = true }

abbrev plain_frame : ℕ → AssembledFrame
plain_frame id = record { bytes = id ∷ []; frame_id = id; timestamp_ms = 5; is_key = false }

abbrev config : JitterBufferConfig
config = record { max_frames = 4; hard_limit_frames = 8; start_on_key_frame = true }

-- One frame out, one pending.
abbrev running : JitterBuffer fixed
running = record {
  config = config;
  pending = (7, record { frame = test_frame 7; play_at_ms = 30 }) ∷ [];
  ref_frame_id = 7;
  ref_extended = 7;
  has_ref = true;
  estimator = 20;
  last_out_extended = 5;
  has_output = true;
  started = true;
  stats = record no_stats { frames_in = 2; frames_out = 1 };
}

running-IsValid : IsValid fixed (λ f. f.is_key ≡ true) running
running-IsValid = record {
  ordered = (omega arith, tt);
  named = ((refl, refl), tt);
  room = omega arith;
  waiting = inl refl;
  anchored = inr refl;
  balance = (refl, refl);
}

abbrev calls : List Call
calls = pushed (test_frame 6) 11 ∷ popped 31 ∷ popped 31 ∷ dropped ∷ []

session-Delivers_example :
    let (out, u) = session fixed running calls in
    Delivers fixed (λ f. f.is_key ≡ true) running out u
session-Delivers_example =
    session-Delivers fixed (λ f. f.is_key ≡ true) running calls running-IsValid
      ((omega arith, refl), (tt, (tt, (tt, tt))))

session_run : (session fixed running calls).0 ≡ (6, test_frame 6) ∷ (7, test_frame 7) ∷ []
unfolding session step handed pop pop_from push take_in gate place enforce_capacity extend_frame_id
    drop_until_key_frame lookup emplace drop_over force_early
session_run = refl

no_key_frame_no_output_example :
    ((session fixed (init fixed config 20) (pushed (plain_frame 8) 40 ∷ popped 90 ∷ [])).0 ≡ [])
    × ((session fixed
          (drop_until_key_frame fixed running)
          (pushed (plain_frame 8) 40 ∷ popped 90 ∷ [])).0
        ≡ [])
no_key_frame_no_output_example =
    no_key_frame_no_output fixed config 20 running (pushed (plain_frame 8) 40 ∷ popped 90 ∷ []) refl
      refl ((omega arith, refl), (tt, tt))

key_frame_is_overtaken_example :
    let u =
      push fixed
        (push fixed (drop_until_key_frame fixed running) (test_frame 9) 40)
        (plain_frame 8)
        41 in
    (T : ℕ) × ((t : ℕ)
      → T ≤ t
      → (w : JitterBuffer fixed) × (pop fixed u t ≡ some (plain_frame 8, w)))
unfolding extend_frame_id
key_frame_is_overtaken_example =
    key_frame_is_overtaken fixed running (test_frame 9) (plain_frame 8) 40 41 8 refl (omega arith)
      (omega arith) refl refl refl (omega arith)
