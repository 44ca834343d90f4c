-- ===== src/JitterBuffer/Due.antt =====
-- The times that `pop` and `msUntilNextDue` go by, and the silence before a key frame.
use lowlat_stream.Base.{
  ℕ, ◌+◌, ◌-◌, ◌≤◌, ◌<◌, ◌^◌, ◌≡◌, ◌≢◌, refl, ap, ap₂, ◌∙◌, ◌++◌, true, false, Option, List, [],
  ◌∷◌, none, some, All, arith,
}
use lowlat_stream.Base.Maps.{lookup}
use lowlat_stream.FrameAssembler.{AssembledFrame}
use lowlat_stream.JitterBuffer.{
  Estimator, JitterBuffer, JitterBufferConfig, Pending, extend_frame_id, gate, place,
  enforce_capacity, take_in, push, pop, pop_from, due_from, ms_until_next_due, drop_until_key_frame,
  init, set_rtt_ms,
}
use lowlat_stream.JitterBuffer.Session.{
  Call, pushed, popped, rtt, dropped, Carries, handed, step, session,
}

module _ (E : Estimator) (b : JitterBuffer E) (now_ms : ℕ) where
  -- What `pop` does at other times, by the wait that was announced.
  abbrev pub Foretells : Option ℕ → (ℕ → Option (AssembledFrame × JitterBuffer E)) → Type 0
  Foretells none pop_at = (t : ℕ) → pop_at t ≡ none
  Foretells (some d) pop_at =
      ((t : ℕ) → t < now_ms + d → now_ms ≤ t → pop_at t ≡ none)
      × (d < 2 ^ 31 - 1 → (t : ℕ) → now_ms + d ≤ t → pop_at t ≢ none)

  due_from_lem : (m : Pending) → Foretells (due_from E m now_ms) (pop_from E b m)
  unfolding due_from pop_from
  due_from_lem [] = λ t. refl
  due_from_lem ((k, e) ∷ m) = (λ t before after. ground arith, λ small t late. ground arith)

  -- `msUntilNextDue` says when `pop` succeeds: never without a push when it is -1; otherwise not before
  -- the wait is over, and from then on, unless the wait was cut to the largest int.
  ms_until_next_due-pop : Foretells (ms_until_next_due E b now_ms) (pop E b)
  unfolding ms_until_next_due pop
  ms_until_next_due-pop = due_from_lem b.pending

module _ (E : Estimator) where
  -- No key frame has come since the gate was shut.
  pub record IsWaiting (b : JitterBuffer E) : Type 0 where
    pub shut : b.started ≡ false
    pub nothing : b.pending ≡ []

  take_in-IsWaiting :
      (b : JitterBuffer E) (frame : AssembledFrame) (now_ms : ℕ)
      → IsWaiting b
      → frame.is_key ≡ false
      → IsWaiting (take_in E b frame now_ms)
  unfolding take_in gate lookup
  take_in-IsWaiting b frame now_ms w no_key =
      let fresh : lookup b.ref_extended b.pending ≡ none = ap (lookup b.ref_extended) w.nothing in
      rw (fresh, take_in) (record { shut = ground arith; nothing = ground (arith, w.nothing) })

  push-IsWaiting :
      (b : JitterBuffer E) (frame : AssembledFrame) (now_ms : ℕ)
      → IsWaiting b
      → frame.is_key ≡ false
      → IsWaiting (push E b frame now_ms)
  unfolding push extend_frame_id
  push-IsWaiting b frame now_ms w no_key =
      let s = b.stats in
      let counted : JitterBuffer E = record b {
        stats = record s { frames_in = s.frames_in + 1 };
      } in
      take_in-IsWaiting (extend_frame_id E counted frame.frame_id) frame now_ms
        (record { shut = ground (arith, w.shut); nothing = ground (arith, w.nothing) }) no_key

  push-config :
      (b : JitterBuffer E) (frame : AssembledFrame) (now_ms : ℕ)
      → (push E b frame now_ms).config ≡ b.config
  unfolding push take_in gate place enforce_capacity extend_frame_id
  push-config b frame now_ms = ground arith

  pop-IsWaiting : (b : JitterBuffer E) (now_ms : ℕ) → IsWaiting b → pop E b now_ms ≡ none
  unfolding pop pop_from
  pop-IsWaiting b now_ms w = ap (λ m. pop_from E b m now_ms) w.nothing

  drop-IsWaiting :
      (b : JitterBuffer E)
      → b.config.start_on_key_frame ≡ true
      → IsWaiting (drop_until_key_frame E b)
  unfolding drop_until_key_frame
  drop-IsWaiting b on = record { shut = ground arith; nothing = refl }

  init-IsWaiting :
      (config : JitterBufferConfig) (e : E.State)
      → config.start_on_key_frame ≡ true
      → IsWaiting (init E config e)
  unfolding init
  init-IsWaiting config e on = record { shut = ground arith; nothing = refl }

  step-IsWaiting :
      (b : JitterBuffer E) (c : Call)
      → b.config.start_on_key_frame ≡ true
      → IsWaiting b
      → Carries (λ f. f.is_key ≡ false) c
      → let (out, u) = step E b c in (out ≡ []) × IsWaiting u × (u.config.start_on_key_frame ≡ true)
  unfolding step set_rtt_ms drop_until_key_frame handed
  step-IsWaiting b (pushed frame now_ms) on w (fits, no_key) = (
    refl,
    push-IsWaiting b frame now_ms w no_key,
    ap (λ c. c.start_on_key_frame) (push-config b frame now_ms) ∙ on,
  )
  step-IsWaiting b (popped now_ms) on w c =
      let idle : pop E b now_ms ≡ none = pop-IsWaiting b now_ms w in rw (idle, handed) (refl, w, on)
  step-IsWaiting b (rtt ms) on w c = (refl, record { shut = w.shut; nothing = w.nothing }, on)
  step-IsWaiting b dropped on w c = (refl, drop-IsWaiting b on, on)

  session-IsWaiting :
      (b : JitterBuffer E) (cs : List Call)
      → b.config.start_on_key_frame ≡ true
      → IsWaiting b
      → All (Carries (λ f. f.is_key ≡ false)) cs
      → (session E b cs).0 ≡ []
  unfolding session
  session-IsWaiting b [] on w c = refl
  session-IsWaiting b (c ∷ cs) on w (p, ps) =
      let (silent, w', on') = step-IsWaiting b c on w p in
      let rest = session-IsWaiting (step E b c).1 cs on' w' ps in ap₂ ◌++◌ silent rest

  -- With `startOnKeyFrame`, a buffer that has just been made and one that has just dropped its frames
  -- hand out nothing, whatever calls are made, as long as no key frame is pushed.
  pub no_key_frame_no_output :
      (config : JitterBufferConfig) (e : E.State) (b : JitterBuffer E) (cs : List Call)
      → config.start_on_key_frame ≡ true
      → b.config.start_on_key_frame ≡ true
      → All (Carries (λ f. f.is_key ≡ false)) cs
      → ((session E (init E config e) cs).0 ≡ [])
        × ((session E (drop_until_key_frame E b) cs).0 ≡ [])
  unfolding init drop_until_key_frame
  no_key_frame_no_output config e b cs on on' c = (
    session-IsWaiting (init E config e) cs on (init-IsWaiting config e on) c,
    session-IsWaiting (drop_until_key_frame E b) cs on' (drop-IsWaiting b on') c,
  )
