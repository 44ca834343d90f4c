-- ===== src/JitterBuffer/Order.antt =====
-- A receiver's use of the jitter buffer, and what it gets out of it.
use lowlat_stream.Base.{
  ℕ, suc, ◌+◌, ◌≤◌, ◌^◌, ◌%◌, ◌≡◌, true, refl, subst, ap, ltb, List, [], ◌∷◌, length, length-append,
  All-append, All, arith, Bool-cases, inl, inr, ◌⊎◌,
}
use lowlat_stream.FrameAssembler.{AssembledFrame}
use lowlat_stream.JitterBuffer.{
  Estimator, JitterBuffer, push, Pending, pop, pop_from, place, enforce_capacity, take_in, gate,
  extend_frame_id, set_rtt_ms, drop_until_key_frame,
}
use lowlat_stream.JitterBuffer.Session.{
  Call, pushed, popped, rtt, dropped, Carries, Output, handed, step, session,
}
use lowlat_stream.JitterBuffer.Pending.{Ascending, Named}
use lowlat_stream.JitterBuffer.Valid.{IsValid, floor, push-IsValid}

abbrev pub Rising : ℕ → List Output → Type 0
Rising lo [] = Unit {0}
Rising lo ((k, f) ∷ out) = (lo ≤ k) × Rising (suc k) out

abbrev pub IsOutput : (AssembledFrame → Type 0) → Output → Type 0
IsOutput P (k, f) = (f.frame_id ≡ k % 2 ^ 32) × P f

Rising-down : (lo hi : ℕ) (out : List Output) → lo ≤ hi → Rising hi out → Rising lo out
Rising-down lo hi [] h r = tt
Rising-down lo hi ((k, f) ∷ out) h (r, rest) = (omega arith, rest)

module _ (E : Estimator) (P : AssembledFrame → Type 0) where
  -- A push hands nothing out.
  place-floor :
      (b : JitterBuffer E) (frame : AssembledFrame) (play_at : ℕ)
      → let u = place E b frame play_at in
        (floor E P u ≡ floor E P b) × (u.stats.frames_out ≡ b.stats.frames_out)
  unfolding place enforce_capacity
  place-floor b frame play_at = ground arith

  take_in-floor :
      (b : JitterBuffer E) (frame : AssembledFrame) (now_ms : ℕ)
      → let u = take_in E b frame now_ms in
        (floor E P u ≡ floor E P b) × (u.stats.frames_out ≡ b.stats.frames_out)
  unfolding take_in gate
  take_in-floor b frame now_ms =
      let (play_at, estimator) = E.observe b.estimator frame.timestamp_ms now_ms in
      ground (arith, place-floor (record b { estimator = estimator; started = true }) frame play_at)

  push-floor :
      (b : JitterBuffer E) (frame : AssembledFrame) (now_ms : ℕ)
      → let u = push E b frame now_ms in
        (floor E P u ≡ floor E P b) × (u.stats.frames_out ≡ b.stats.frames_out + 0)
  unfolding push extend_frame_id
  push-floor b frame now_ms =
      let s = b.stats in
      let counted : JitterBuffer E = record b {
        stats = record s { frames_in = s.frames_in + 1 };
      } in
      ground (arith, take_in-floor (extend_frame_id E counted frame.frame_id) frame now_ms)

  -- What a run of calls from `b` to `u` hands out.
  pub record Delivers (b : JitterBuffer E) (out : List Output) (u : JitterBuffer E) : Type 0 where
    pub valid : IsValid E P u
    pub rising : Rising (floor E P b) out
    pub named : All (IsOutput P) out
    pub counted : u.stats.frames_out ≡ b.stats.frames_out + length out

  -- What one call does: the floor rises above the number handed out, and only then.
  record Steps (b : JitterBuffer E) (out : List Output) (u : JitterBuffer E) : Type 0 where
    valid : IsValid E P u
    counted : u.stats.frames_out ≡ b.stats.frames_out + length out
    moved :
        ((out ≡ []) × (floor E P u ≡ floor E P b))
        ⊎ ((k : ℕ) × (f : AssembledFrame) × (out ≡ (k, f) ∷ [])
            × (floor E P b ≤ k)
            × (floor E P u ≡ suc k)
            × IsOutput P (k, f))

  stays-Steps : (b : JitterBuffer E) → IsValid E P b → Steps b [] b
  stays-Steps b v = record { valid = v; counted = omega arith; moved = inl (refl, refl) }

  pop-Steps :
      (b : JitterBuffer E) (now_ms : ℕ) (m : Pending)
      → b.pending ≡ m
      → IsValid E P b
      → let (out, u) = handed E b (pop_from E b m now_ms) in Steps b out u
  unfolding handed pop_from
  pop-Steps b now_ms [] e v = stays-Steps b v
  pop-Steps b now_ms ((k, x) ∷ m) e v = elim (Bool-cases (ltb now_ms x.play_at_ms)) [
    | inl early ↦ rw (early, pop_from) (stays-Steps b v)
    | inr due ↦
        let (low, rest) : Ascending (floor E P b) ((k, x) ∷ m) =
          subst (Ascending (floor E P b)) e v.ordered in
        let (named, names) : All (Named P) ((k, x) ∷ m) = subst (All (Named P)) e v.named in
        let less : length b.pending ≡ suc (length m) = ap length e in
        rw (due, pop_from)
          (record {
            valid = record {
              ordered = rest;
              named = names;
              room = omega (arith, v.room);
              waiting = ground (arith, v.waiting);
              anchored = v.anchored;
              balance = (omega (arith, v.balance.0), v.balance.1);
            };
            counted = omega arith;
            moved = inr (k, x.frame, refl, low, refl, named);
          })
  ]

  step-Steps :
      (b : JitterBuffer E) (c : Call)
      → IsValid E P b
      → Carries P c
      → let (out, u) = step E b c in Steps b out u
  unfolding step pop set_rtt_ms drop_until_key_frame
  step-Steps b (pushed frame now_ms) v (fits, p) = record {
    valid = push-IsValid E P b frame now_ms v fits p;
    counted = (push-floor b frame now_ms).1;
    moved = inl (refl, (push-floor b frame now_ms).0);
  }
  step-Steps b (popped now_ms) v c = pop-Steps b now_ms b.pending refl v
  step-Steps b (rtt ms) v c = record {
    valid = record {
      ordered = v.ordered;
      named = v.named;
      room = v.room;
      waiting = v.waiting;
      anchored = v.anchored;
      balance = v.balance;
    };
    counted = omega arith;
    moved = inl (refl, refl);
  }
  step-Steps b dropped v c = record {
    valid = record {
      ordered = tt;
      named = tt;
      room = omega arith;
      waiting = inr refl;
      anchored = v.anchored;
      balance = (omega (arith, v.balance.0), v.balance.1);
    };
    counted = omega arith;
    moved = inl (refl, refl);
  }

  -- However the calls are mixed, what a valid buffer hands out has strictly rising extended numbers,
  -- all above what it had handed out before; each frame's id is the low half of its number, and each
  -- frame satisfies what the pending and the pushed frames all satisfy. The buffer is valid again:
  -- its pending frames are in order, no more than the hard limit, and every frame that ever came in
  -- is handed out, pending, or in one of the counters of frames that were not kept.
  pub session-Delivers :
      (b : JitterBuffer E) (cs : List Call)
      → IsValid E P b
      → All (Carries P) cs
      → let (out, u) = session E b cs in Delivers b out u
  unfolding session
  session-Delivers b [] v c = record { valid = v; rising = tt; named = tt; counted = omega arith }
  session-Delivers b (c ∷ cs) v (p, ps) =
      let (out, u) = step E b c in
      let one = step-Steps b c v p in
      let two = session-Delivers u cs one.valid ps in
      let (outs, w) = session E u cs in
      record {
        valid = two.valid;
        rising = ground (arith, one.moved, two.rising);
        named = All-append (IsOutput P) out outs (ground (arith, one.moved)) two.named;
        counted = omega (arith, one.counted, two.counted, length-append out outs);
      }
