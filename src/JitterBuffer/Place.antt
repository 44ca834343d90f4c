-- ===== src/JitterBuffer/Place.antt =====
-- A push that finds room: where the frame is put.
use lowlat_stream.Base.{
  ℕ, zero, suc, ◌+◌, ◌-◌, ◌≤◌, ◌<◌, ◌≡◌, refl, true, false, not, leb, ◌&&◌, [], ◌∷◌, none, length,
  arith,
}
use lowlat_stream.Base.Maps.{lookup}
use lowlat_stream.FrameAssembler.{AssembledFrame}
use lowlat_stream.JitterBuffer.{
  Estimator, JitterBuffer, Entry, Pending, emplace, drop_over, force_early, extend_frame_id,
  enforce_capacity, place, gate, take_in, push,
}
use lowlat_stream.JitterBuffer.Pending.{Ascending, length-emplace}

drop_over_none : (limit : ℕ) (m : Pending) → length m ≤ limit → drop_over limit m ≡ (m, 0)
unfolding drop_over
drop_over_none limit [] h = refl
drop_over_none limit (e ∷ m) h = ground arith

pub force_early_empty : (n : ℕ) → (force_early n []).0 ≡ []
unfolding force_early
force_early_empty zero = refl
force_early_empty (suc n) = refl

-- A frame before all others comes first.
pub emplace_first :
    (n k : ℕ) (e : Entry) (m : Pending)
    → Ascending (suc k) m
    → (e' : Entry) × (n' : ℕ) × (e'.frame ≡ e.frame)
      × ((force_early n (emplace k e m)).0 ≡ (k, e') ∷ (force_early n' m).0)
unfolding force_early emplace
emplace_first zero k e [] a = (e, 0, refl, refl)
emplace_first zero k e ((j, f) ∷ m) a = (e, 0, refl, ground arith)
emplace_first (suc n) k e [] a = (record e { play_at_ms = 0 }, n, refl, ground arith)
emplace_first (suc n) k e ((j, f) ∷ m) a = (record e { play_at_ms = 0 }, n, refl, ground arith)

module _ (E : Estimator) where
  -- `b` with a frame put in its place, and what `push` sets on the way there.
  pub record Places (b : JitterBuffer E) (id ext : ℕ) (frame : AssembledFrame) (u : JitterBuffer E)
      : Type 0 where
    pub play_at : ℕ
    pub in_place :
        u.pending
        ≡ (force_early
            (suc (length b.pending) - b.config.max_frames)
            (emplace ext (record { frame = frame; play_at_ms = play_at }) b.pending)).0
    pub anchor : u.ref_frame_id ≡ id
    pub number : u.ref_extended ≡ ext
    pub anchored : u.has_ref ≡ true
    pub started : u.started ≡ true
    pub output : u.has_output ≡ b.has_output
    pub last : u.last_out_extended ≡ b.last_out_extended
    pub same_config : u.config ≡ b.config

  -- The frame is not a duplicate, not too late, not before the key frame, and there is room.
  pub record IsWanted (b : JitterBuffer E) (ext : ℕ) (frame : AssembledFrame) : Type 0 where
    pub fresh : lookup ext b.pending ≡ none
    pub above : (b.has_output && leb ext b.last_out_extended) ≡ false
    pub opened : (not b.started && not frame.is_key) ≡ false
    pub room : length b.pending < b.config.hard_limit_frames

  place-Places :
      (b : JitterBuffer E) (frame : AssembledFrame) (play_at : ℕ)
      → IsWanted b b.ref_extended frame
      → b.has_ref ≡ true
      → b.started ≡ true
      → Places b b.ref_frame_id b.ref_extended frame (place E b frame play_at)
  unfolding place enforce_capacity
  place-Places b frame play_at w r s =
      let e : Entry = record { frame = frame; play_at_ms = play_at } in
      let m = emplace b.ref_extended e b.pending in
      let more = length-emplace b.ref_extended e b.pending in
      let kept = drop_over_none b.config.hard_limit_frames m (omega (arith, more, w.room)) in
      rw (w.above, kept, more)
        (record {
          play_at = play_at;
          in_place = refl;
          anchor = refl;
          number = refl;
          anchored = r;
          started = s;
          output = refl;
          last = refl;
          same_config = refl;
        })

  take_in-Places :
      (b : JitterBuffer E) (frame : AssembledFrame) (now_ms : ℕ)
      → IsWanted b b.ref_extended frame
      → b.has_ref ≡ true
      → Places b b.ref_frame_id b.ref_extended frame (take_in E b frame now_ms)
  unfolding take_in gate
  take_in-Places b frame now_ms w r =
      let (play_at, estimator) = E.observe b.estimator frame.timestamp_ms now_ms in
      let u : JitterBuffer E = record b { estimator = estimator; started = true } in
      let p =
        place-Places u frame play_at
          (record { fresh = w.fresh; above = w.above; opened = refl; room = w.room }) r refl in
      rw (w.fresh, take_in, w.opened, gate)
        (record {
          play_at = p.play_at;
          in_place = p.in_place;
          anchor = p.anchor;
          number = p.number;
          anchored = p.anchored;
          started = p.started;
          output = p.output;
          last = p.last;
          same_config = p.same_config;
        })

  pub push-Places :
      (b : JitterBuffer E) (frame : AssembledFrame) (now_ms ext : ℕ)
      → (extend_frame_id E b frame.frame_id).ref_extended ≡ ext
      → IsWanted b ext frame
      → Places b frame.frame_id ext frame (push E b frame now_ms)
  unfolding push extend_frame_id
  push-Places b frame now_ms ext e w =
      let s = b.stats in
      let counted : JitterBuffer E = record b {
        stats = record s { frames_in = s.frames_in + 1 };
      } in
      let u : JitterBuffer E = record counted {
        ref_frame_id = frame.frame_id;
        ref_extended = ext;
        has_ref = true;
      } in
      let here : extend_frame_id E counted frame.frame_id ≡ u = ground arith in
      let p =
        take_in-Places u frame now_ms
          (record { fresh = w.fresh; above = w.above; opened = w.opened; room = w.room }) refl in
      rw (here, push)
        (record {
          play_at = p.play_at;
          in_place = p.in_place;
          anchor = p.anchor;
          number = p.number;
          anchored = p.anchored;
          started = p.started;
          output = p.output;
          last = p.last;
          same_config = p.same_config;
        })
