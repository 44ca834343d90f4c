-- ===== src/JitterBuffer/Valid.antt =====
-- The invariant of the jitter buffer, and `push`.
use lowlat_stream.Base.{
  ℕ, suc, ◌+◌, ◌-◌, ◌≤◌, ◌<◌, ◌^◌, ◌%◌, ◌≡◌, refl, sym, ap, subst, ◌⊎◌, inl, inr, true, false, not,
  leb, ◌&&◌, if◌then◌else◌, [], none, length, All, arith, Option-cases, Bool-cases,
}
use lowlat_stream.Base.Maps.{lookup}
use lowlat_stream.FrameAssembler.{AssembledFrame}
use lowlat_stream.JitterBuffer.{
  Estimator, JitterBuffer, JitterBufferConfig, JitterBufferStats, Entry, emplace, drop_over,
  extend_frame_id, enforce_capacity, place, gate, push, take_in, init,
}
use lowlat_stream.JitterBuffer.Pending.{
  Ascending, Named, emplace-Ascending, length-emplace, All-emplace, drop_over-Keeps,
  force_early-Keeps,
}

-- Every frame that came in is out, pending, or in one of the counters of frames that were not kept.
abbrev pub IsBalanced : JitterBufferStats → ℕ → Type 0
IsBalanced s held =
    (s.frames_in
      ≡ s.frames_out + s.frames_too_late + s.frames_duplicate + s.frames_dropped
        + s.frames_dropped_for_resync + s.frames_before_key + held)
    × (s.frames_sampled_but_dropped ≡ s.frames_too_late + s.frames_before_key)

module _ (E : Estimator) (P : AssembledFrame → Type 0) where
  -- The least number that may still be handed out.
  abbrev pub floor : JitterBuffer E → ℕ
  floor b = if b.has_output then suc b.last_out_extended else 0

  -- The anchor is the number of the last frame that came.
  abbrev pub IsAnchored : JitterBuffer E → Type 0
  IsAnchored b = (b.has_ref ≡ false) ⊎ (b.ref_frame_id ≡ b.ref_extended % 2 ^ 32)

  -- The pending frames are in the order of their numbers and above what was handed out, each number
  -- stands for the frame's own, there are no more than the hard limit allows, and none before the
  -- first key frame when the buffer waits for one; the account holds with `held` frames.
  pub record IsSound (held : ℕ) (b : JitterBuffer E) : Type 0 where
    pub ordered : Ascending (floor b) b.pending
    pub named : All (Named P) b.pending
    pub room : length b.pending ≤ b.config.hard_limit_frames
    pub waiting : (b.started ≡ true) ⊎ (b.pending ≡ [])
    pub anchored : IsAnchored b
    pub balance : IsBalanced b.stats held

  abbrev pub IsValid : JitterBuffer E → Type 0
  IsValid b = IsSound (length b.pending) b

  pub init-IsValid : (config : JitterBufferConfig) (e : E.State) → IsValid (init E config e)
  unfolding init
  init-IsValid config e = record {
    ordered = tt;
    named = tt;
    room = omega arith;
    waiting = inr refl;
    anchored = inl refl;
    balance = (refl, refl);
  }

  -- From `enforceCapacity` on, with one frame more than the account knows of.
  enforce_capacity-IsValid :
      (b : JitterBuffer E)
      → Ascending (floor b) b.pending
      → All (Named P) b.pending
      → b.started ≡ true
      → IsAnchored b
      → IsBalanced b.stats (length b.pending)
      → IsValid (enforce_capacity E b)
  unfolding enforce_capacity
  enforce_capacity-IsValid b o n s a bal =
      let limit = b.config.hard_limit_frames in
      let (one, room) = drop_over-Keeps P limit (floor b) b.pending o n in
      let kept = (drop_over limit b.pending).0 in
      let two =
        force_early-Keeps P (length kept - b.config.max_frames) (floor b) kept one.ordered
          one.named in
      record {
        ordered = two.ordered;
        named = two.named;
        room = omega (arith, two.counted);
        waiting = inl s;
        anchored = a;
        balance = (omega (arith, bal.0, one.counted, two.counted), bal.1);
      }

  place-IsValid :
      (b : JitterBuffer E) (frame : AssembledFrame) (play_at : ℕ)
      → IsSound (suc (length b.pending)) b
      → b.started ≡ true
      → lookup b.ref_extended b.pending ≡ none
      → frame.frame_id ≡ b.ref_extended % 2 ^ 32
      → P frame
      → IsValid (place E b frame play_at)
  unfolding place
  place-IsValid b frame play_at v s fresh id p =
      elim (Bool-cases (b.has_output && leb b.ref_extended b.last_out_extended)) [
        | inl late ↦
            rw (late, place)
              (record {
                ordered = v.ordered;
                named = v.named;
                room = v.room;
                waiting = v.waiting;
                anchored = v.anchored;
                balance = (omega (arith, v.balance.0), omega (arith, v.balance.1));
              })
        | inr above ↦
            let e : Entry = record { frame = frame; play_at_ms = play_at } in
            let more = length-emplace b.ref_extended e b.pending in
            let high : floor b ≤ b.ref_extended = ground arith in
            rw (above, place)
              (enforce_capacity-IsValid (record b { pending = emplace b.ref_extended e b.pending })
                (emplace-Ascending (floor b) b.ref_extended e b.pending high fresh v.ordered)
                (All-emplace (Named P) b.ref_extended e b.pending (id, p) v.named) s v.anchored
                (omega (arith, more, v.balance.0), v.balance.1))
      ]

  gate-IsValid :
      (b : JitterBuffer E) (frame : AssembledFrame) (play_at : ℕ)
      → IsSound (suc (length b.pending)) b
      → lookup b.ref_extended b.pending ≡ none
      → frame.frame_id ≡ b.ref_extended % 2 ^ 32
      → P frame
      → IsValid (gate E b frame play_at)
  unfolding gate
  gate-IsValid b frame play_at v fresh id p =
      elim (Bool-cases (not b.started && not frame.is_key)) [
        | inl shut ↦
            rw (shut, gate)
              (record {
                ordered = v.ordered;
                named = v.named;
                room = v.room;
                waiting = v.waiting;
                anchored = v.anchored;
                balance = (omega (arith, v.balance.0), omega (arith, v.balance.1));
              })
        | inr opened ↦
            rw (opened, gate)
              (place-IsValid (record b { started = true }) frame play_at
                (record {
                  ordered = v.ordered;
                  named = v.named;
                  room = v.room;
                  waiting = inl refl;
                  anchored = v.anchored;
                  balance = v.balance;
                })
                refl fresh id p)
      ]

  reanchored :
      (b : JitterBuffer E) (held id ext : ℕ)
      → IsSound held b
      → id ≡ ext % 2 ^ 32
      → IsSound held (record b { ref_frame_id = id; ref_extended = ext; has_ref = true })
  reanchored b held id ext v e = record {
    ordered = v.ordered;
    named = v.named;
    room = v.room;
    waiting = v.waiting;
    anchored = inr e;
    balance = v.balance;
  }

  extended_lem :
      (b : JitterBuffer E) (frame_id held : ℕ)
      → IsSound held b
      → frame_id < 2 ^ 32
      → let u = extend_frame_id E b frame_id in
        IsSound held u × (frame_id ≡ u.ref_extended % 2 ^ 32) × (u.pending ≡ b.pending)
  unfolding extend_frame_id
  extended_lem b frame_id held v fits =
      let now : frame_id ≡ (extend_frame_id E b frame_id).ref_extended % 2 ^ 32 =
        ground (arith, v.anchored) in
      let sound = reanchored b held frame_id (extend_frame_id E b frame_id).ref_extended v now in
      ground (arith, sound)

  take_in-IsValid :
      (b : JitterBuffer E) (frame : AssembledFrame) (now_ms : ℕ)
      → IsSound (suc (length b.pending)) b
      → frame.frame_id ≡ b.ref_extended % 2 ^ 32
      → P frame
      → IsValid (take_in E b frame now_ms)
  unfolding take_in
  take_in-IsValid b frame now_ms v id p = elim (Option-cases (lookup b.ref_extended b.pending)) [
    | inl fresh ↦
        let (play_at, estimator) = E.observe b.estimator frame.timestamp_ms now_ms in
        rw (fresh, take_in)
          (gate-IsValid (record b { estimator = estimator }) frame play_at
            (record {
              ordered = v.ordered;
              named = v.named;
              room = v.room;
              waiting = v.waiting;
              anchored = v.anchored;
              balance = v.balance;
            })
            fresh id p)
    | inr (e, again) ↦
        rw (again, take_in)
          (record {
            ordered = v.ordered;
            named = v.named;
            room = v.room;
            waiting = v.waiting;
            anchored = v.anchored;
            balance = (omega (arith, v.balance.0), v.balance.1);
          })
  ]

  pub push-IsValid :
      (b : JitterBuffer E) (frame : AssembledFrame) (now_ms : ℕ)
      → IsValid b
      → frame.frame_id < 2 ^ 32
      → P frame
      → IsValid (push E b frame now_ms)
  unfolding push
  push-IsValid b frame now_ms v fits p =
      let s = b.stats in
      let counted : JitterBuffer E = record b {
        stats = record s { frames_in = s.frames_in + 1 };
      } in
      let sound : IsSound (suc (length b.pending)) counted = record {
        ordered = v.ordered;
        named = v.named;
        room = v.room;
        waiting = v.waiting;
        anchored = v.anchored;
        balance = (omega (arith, v.balance.0), v.balance.1);
      } in
      let (w, id, same) = extended_lem counted frame.frame_id (suc (length b.pending)) sound fits in
      let u = extend_frame_id E counted frame.frame_id in
      let held : suc (length b.pending) ≡ suc (length u.pending) =
        ap (λ m. suc (length m)) (sym same) in
      take_in-IsValid u frame now_ms (subst (λ n. IsSound n u) held w) id p
