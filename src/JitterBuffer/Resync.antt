-- ===== src/JitterBuffer/Resync.antt =====
-- The frame that comes out first after the buffer has been told to wait for a key frame.
use lowlat_stream.Base.{
  ℕ, suc, ◌+◌, ◌-◌, ◌≤◌, ◌<◌, ◌^◌, ◌≡◌, refl, sym, ◌∙◌, ap, ap₂, subst, true, false, leb, ◌&&◌, [],
  ◌∷◌, some, length, arith,
}
use lowlat_stream.Base.Words.{sub32}
use lowlat_stream.Base.Maps.{lookup}
use lowlat_stream.FrameAssembler.{AssembledFrame}
use lowlat_stream.JitterBuffer.{
  Estimator, JitterBuffer, Entry, Pending, emplace, force_early, extend_frame_id, push, pop,
  pop_from, drop_until_key_frame,
}
use lowlat_stream.JitterBuffer.Pending.{Ascending}
use lowlat_stream.JitterBuffer.Place.{
  Places, IsWanted, push-Places, emplace_first, force_early_empty,
}

module _ (E : Estimator) where
  alone :
      (b u : JitterBuffer E) (id ext : ℕ) (frame : AssembledFrame)
      → b.pending ≡ []
      → Places E b id ext frame u
      → (e : Entry) × (u.pending ≡ (ext, e) ∷ [])
  alone b u id ext frame none_yet p =
      let x : Entry = record { frame = frame; play_at_ms = p.play_at } in
      let n = suc (length b.pending) - b.config.max_frames in
      let (e, n', same, first) = emplace_first n ext x [] tt in
      (
        e,
        p.in_place
            ∙ ap (λ m. (force_early n (emplace ext x m)).0) none_yet
            ∙ first
            ∙ ap (◌∷◌ (ext, e)) (force_early_empty n'),
      )

  handed_out :
      (u : JitterBuffer E) (k t : ℕ) (e : Entry) (m : Pending)
      → u.pending ≡ (k, e) ∷ m
      → e.play_at_ms ≤ t
      → (w : JitterBuffer E) × (pop E u t ≡ some (e.frame, w))
  unfolding pop pop_from
  handed_out u k t e m h due =
      let s = u.stats in
      (
        record u {
          pending = m;
          last_out_extended = k;
          has_output = true;
          stats = record s { frames_out = s.frames_out + 1 };
        },
        ap (λ m. pop_from E u m t) h ∙ ground arith,
      )

  first_out :
      (b u : JitterBuffer E) (id ext : ℕ) (frame : AssembledFrame)
      → Ascending (suc ext) b.pending
      → Places E b id ext frame u
      → (T : ℕ) × ((t : ℕ) → T ≤ t → (w : JitterBuffer E) × (pop E u t ≡ some (frame, w)))
  first_out b u id ext frame a p =
      let x : Entry = record { frame = frame; play_at_ms = p.play_at } in
      let n = suc (length b.pending) - b.config.max_frames in
      let (e, n', same, first) = emplace_first n ext x b.pending a in
      (
        e.play_at_ms,
        λ t due.
            let (w, out) =
              handed_out u ext t e (force_early n' b.pending).0 (p.in_place ∙ first) due in
            (w, out ∙ ap (λ f. some (f, w)) same),
      )

  before_anchor :
      (v : JitterBuffer E) (id k : ℕ)
      → id < 2 ^ 32
      → suc k < 2 ^ 64
      → v.ref_frame_id ≡ id
      → v.ref_extended ≡ suc k
      → v.has_ref ≡ true
      → (extend_frame_id E v (sub32 id 1)).ref_extended ≡ k
  unfolding extend_frame_id
  before_anchor v id k fits small anchor number r = ground arith

  early-IsWanted :
      (v : JitterBuffer E) (k : ℕ) (e : Entry) (frame : AssembledFrame)
      → v.pending ≡ (suc k, e) ∷ []
      → (v.has_output && leb k v.last_out_extended) ≡ false
      → v.started ≡ true
      → 1 < v.config.hard_limit_frames
      → IsWanted E v k frame
  unfolding lookup
  early-IsWanted v k e frame p above s room = record {
    fresh = ap (lookup k) p ∙ ground arith;
    above = above;
    opened = rw s refl;
    room = omega (arith, ap length p);
  }

  key-IsWanted :
      (b : JitterBuffer E) (key : AssembledFrame) (k : ℕ)
      → key.is_key ≡ true
      → (b.has_output && leb k b.last_out_extended) ≡ false
      → 1 < b.config.hard_limit_frames
      → IsWanted E (drop_until_key_frame E b) (suc k) key
  unfolding drop_until_key_frame lookup
  key-IsWanted b key k is_key above room = record {
    fresh = refl;
    above = ground arith;
    opened = ground arith;
    room = omega arith;
  }

  key-Places :
      (b : JitterBuffer E) (key : AssembledFrame) (t k : ℕ)
      → key.is_key ≡ true
      → (extend_frame_id E b key.frame_id).ref_extended ≡ suc k
      → (b.has_output && leb k b.last_out_extended) ≡ false
      → 1 < b.config.hard_limit_frames
      → let d = drop_until_key_frame E b in
        Places E d key.frame_id (suc k) key (push E d key t)
        × (d.pending ≡ [])
        × (d.has_output ≡ b.has_output)
        × (d.last_out_extended ≡ b.last_out_extended)
        × (d.config ≡ b.config)
  unfolding extend_frame_id drop_until_key_frame
  key-Places b key t k is_key number above room = (
    push-Places E (drop_until_key_frame E b) key t (suc k) (ground arith)
        (key-IsWanted b key k is_key above room),
    refl,
    refl,
    refl,
    refl,
  )

  -- After `dropUntilKeyFrame` the next frame handed out need not be the key frame that opened the
  -- gate: if the frame before it arrives next, key frame or not, and is above all that was handed out,
  -- it is put ahead, and from some moment on `pop` hands it out first. The hard limit leaves room for
  -- the two frames.
  pub key_frame_is_overtaken :
      (b : JitterBuffer E) (key early : AssembledFrame) (t₁ t₂ k : ℕ)
      → key.is_key ≡ true
      → key.frame_id < 2 ^ 32
      → suc k < 2 ^ 64
      → (extend_frame_id E b key.frame_id).ref_extended ≡ suc k
      → early.frame_id ≡ sub32 key.frame_id 1
      → (b.has_output && leb k b.last_out_extended) ≡ false
      → 1 < b.config.hard_limit_frames
      → let u = push E (push E (drop_until_key_frame E b) key t₁) early t₂ in
        (T : ℕ) × ((t : ℕ) → T ≤ t → (w : JitterBuffer E) × (pop E u t ≡ some (early, w)))
  key_frame_is_overtaken b key early t₁ t₂ k is_key fits small number before above room =
      let d = drop_until_key_frame E b in
      let v = push E d key t₁ in
      let (one, none_yet, o, l, c) = key-Places b key t₁ k is_key number above room in
      let (e, p) = alone d v key.frame_id (suc k) key none_yet one in
      let above' : (v.has_output && leb k v.last_out_extended) ≡ false =
        ap₂ (λ h l. h && leb k l) (one.output ∙ o) (one.last ∙ l) ∙ above in
      let room' : 1 < v.config.hard_limit_frames =
        subst (λ c. 1 < c.hard_limit_frames) (sym (one.same_config ∙ c)) room in
      let number' : (extend_frame_id E v early.frame_id).ref_extended ≡ k =
        rw before (before_anchor v key.frame_id k fits small one.anchor one.number one.anchored) in
      let two =
        push-Places E v early t₂ k number'
          (early-IsWanted v k e early p above' one.started room') in
      first_out v (push E v early t₂) early.frame_id k early (rw p (omega arith, tt)) two
