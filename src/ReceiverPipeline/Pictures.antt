-- ===== src/ReceiverPipeline/Pictures.antt =====
-- ReceiverPipeline.cpp, decodeLoop(): which pictures reach the renderer.
use lowlat_stream.Base.{
  ◌+◌, ◌≤◌, ◌⊎◌, ◌≡◌, refl, sym, ap, ◌∙◌, Bool, true, false, both, if◌then◌else◌, Bool-cases, inl,
  inr, List, [], ◌∷◌, ◌++◌, length, append_nil, append_assoc, length-append, ltb, arith,
}
use lowlat_stream.FrameAssembler.{AssembledFrame}
use lowlat_stream.BoundedQueue.{BoundedQueue, force_push, drop_front, enqueue_locked, close}
use lowlat_stream.ReceiverPipeline.Decode.{
  Decoder, Decoded-cases, DecodeThread, complete, broken, failed, push_all, finish, decode_loop,
}

module _ (D : Decoder) where
  -- The pictures of the calls of the decoder that succeed, flush() at the end included. A call that
  -- fails takes the pictures that it has made before with it, and unless the stream is to blame it is
  -- the last one.
  abbrev pub all_pictures : D.State → List AssembledFrame → List D.Raw
  all_pictures s [] = if (D.flush s).0 then (D.flush s).1 else []
  all_pictures s (frame ∷ frames) = elim (D.decode s frame).0 [
    | failed ↦ []
    | broken ↦ all_pictures (D.decode s frame).2 frames
    | complete ↦ (D.decode s frame).1 ++ all_pictures (D.decode s frame).2 frames
  ]

  -- The queue has got these pictures: it holds the newest, and has counted those that it gave up.
  pub record Got (q : BoundedQueue D.Raw) (new : List D.Raw) (p : BoundedQueue D.Raw) : Type 0 where
    pub lost : List D.Raw
    pub newest : q.items ++ new ≡ lost ++ p.items
    pub counted : p.dropped ≡ q.dropped + length lost

  -- The queue has not become shorter, and has given up something only if it is full.
  pub record Keeps (q : BoundedQueue D.Raw) (p : BoundedQueue D.Raw) : Type 0 where
    pub same_cap : p.cap ≡ q.cap
    pub no_shorter : length q.items ≤ length p.items
    pub full : (p.dropped ≡ q.dropped) ⊎ (q.cap ≤ length p.items)

  Keeps-trans : (q p r : BoundedQueue D.Raw) → Keeps q p → Keeps p r → Keeps q r
  Keeps-trans q p r v w = record {
    same_cap = w.same_cap ∙ v.same_cap;
    no_shorter = omega (arith, v.no_shorter, w.no_shorter);
    full = ground (arith, v, w);
  }

  Keeps-itself : (q : BoundedQueue D.Raw) → Keeps q q
  Keeps-itself q = ground arith

  enqueue_locked-Keeps : (x : D.Raw) (q : BoundedQueue D.Raw) → Keeps q (enqueue_locked x q)
  unfolding enqueue_locked
  enqueue_locked-Keeps x q = ground (arith, length-append q.items (x ∷ []))

  Keeps-close : (q p : BoundedQueue D.Raw) → Keeps q p → Keeps q (close p)
  unfolding close
  Keeps-close q p v = record { same_cap = v.same_cap; no_shorter = v.no_shorter; full = v.full }

  dropped-Keeps :
      (x : D.Raw) (q : BoundedQueue D.Raw) (xs : List D.Raw)
      → q.items ≡ xs
      → q.cap ≤ length q.items
      → Keeps q (enqueue_locked x (drop_front q xs))
  unfolding enqueue_locked drop_front
  dropped-Keeps x q [] e full = ground (arith, length-append q.items (x ∷ []), ap (λ l. length l) e)
  dropped-Keeps x q (y ∷ ys) e full =
      ground (arith, length-append ys (x ∷ []), ap (λ l. length l) e)

  force_push-Keeps : (x : D.Raw) (q : BoundedQueue D.Raw) → Keeps q (force_push x q).1
  unfolding force_push enqueue_locked
  force_push-Keeps x q =
      both {A = Bool × BoundedQueue D.Raw} (λ r. Keeps q r.1) q.closed _ _ (Keeps-itself q)
        (elim (Bool-cases (ltb (length q.items) q.cap)) [
          | inl room ↦ rw room (enqueue_locked-Keeps x q)
          | inr full ↦ rw full (dropped-Keeps x q q.items refl (ground arith))
        ])

  push_all-Keeps : (q : BoundedQueue D.Raw) (xs : List D.Raw) → Keeps q (push_all D q xs).1
  unfolding push_all
  push_all-Keeps q [] = Keeps-itself q
  push_all-Keeps q (x ∷ xs) =
      let p : BoundedQueue D.Raw = (force_push x q).1 in
      let one = force_push-Keeps x q in
      both {A = Bool × BoundedQueue D.Raw} (λ r. Keeps q r.1) (force_push x q).0 _ _
        (Keeps-trans q p (push_all D p xs).1 one (push_all-Keeps p xs)) one

  Got-nothing : (q : BoundedQueue D.Raw) → Got q [] q
  Got-nothing q = record { lost = []; newest = append_nil q.items; counted = omega arith }

  drop_front-Got :
      (q : BoundedQueue D.Raw) (xs : List D.Raw)
      → q.items ≡ xs
      → ((drop_front q xs).closed ≡ q.closed) × Got q [] (drop_front q xs)
  unfolding drop_front
  drop_front-Got q [] e = (refl, Got-nothing q)
  drop_front-Got q (x ∷ xs) e =
      (refl, record { lost = x ∷ []; newest = append_nil q.items ∙ e; counted = omega arith })

  enqueue_locked-Got :
      (x : D.Raw) (q p : BoundedQueue D.Raw) → Got q [] p → Got q (x ∷ []) (enqueue_locked x p)
  unfolding enqueue_locked
  enqueue_locked-Got x q p v = record {
    lost = v.lost;
    newest =
        ap (λ l. l ++ (x ∷ [])) (sym (append_nil q.items) ∙ v.newest)
        ∙ append_assoc v.lost p.items (x ∷ []);
    counted = v.counted;
  }

  -- The queue is open and has got these pictures.
  abbrev Gets : BoundedQueue D.Raw → List D.Raw → Bool × BoundedQueue D.Raw → Type 0
  Gets q new (is_in, p) = (is_in ≡ true) × (p.closed ≡ false) × Got q new p

  Gets-open :
      (b : Bool) (q : BoundedQueue D.Raw) (new : List D.Raw) (y z : Bool × BoundedQueue D.Raw)
      → b ≡ false
      → Gets q new z
      → Gets q new (if b then y else z)
  Gets-open true q new y z e v = ground arith
  Gets-open false q new y z e v = v

  force_push-Gets :
      (x : D.Raw) (q : BoundedQueue D.Raw) → q.closed ≡ false → Gets q (x ∷ []) (force_push x q)
  unfolding force_push enqueue_locked
  force_push-Gets x q o =
      let (shut, got) = drop_front-Got q q.items refl in
      let room = ltb (length q.items) q.cap in
      let p : BoundedQueue D.Raw = if room then q else drop_front q q.items in
      let (still, kept) =
        both (λ p. (p.closed ≡ false) × Got q [] p) room q (drop_front q q.items) (o, Got-nothing q)
          (shut ∙ o, got) in
      Gets-open q.closed q (x ∷ []) (false, q) (true, enqueue_locked x p) o
        (refl, still, enqueue_locked-Got x q p kept)

  Got-next :
      (q p r : BoundedQueue D.Raw) (xs ys : List D.Raw)
      → Got q xs p
      → Got p ys r
      → Got q (xs ++ ys) r
  Got-next q p r xs ys v w = record {
    lost = v.lost ++ w.lost;
    newest =
        sym (append_assoc q.items xs ys)
        ∙ ap (λ l. l ++ ys) v.newest
        ∙ append_assoc v.lost p.items ys
        ∙ ap (λ l. v.lost ++ l) w.newest
        ∙ sym (append_assoc v.lost w.lost r.items);
    counted = omega (arith, v.counted, w.counted, length-append v.lost w.lost);
  }

  push_all-Gets :
      (q : BoundedQueue D.Raw) (xs : List D.Raw) → q.closed ≡ false → Gets q xs (push_all D q xs)
  unfolding push_all
  push_all-Gets q [] o = (refl, o, Got-nothing q)
  push_all-Gets q (x ∷ xs) o =
      let (is_in, still, got) = force_push-Gets x q o in
      let p : BoundedQueue D.Raw = (force_push x q).1 in
      let (all_in, last, rest) = push_all-Gets p xs still in
      rw (is_in, push_all) (all_in, last, Got-next q p (push_all D p xs).1 (x ∷ []) xs got rest)

  -- The queue is closed in the end, with the newest of these pictures, and has counted the others.
  pub record Plays (t : DecodeThread D) (frames : List AssembledFrame) (r : DecodeThread D)
      : Type 0 where
    pub closed : r.queue_b.closed ≡ true
    pub got : Got t.queue_b (all_pictures t.decoder frames) r.queue_b
    pub keeps : Keeps t.queue_b r.queue_b

  Got-close : (q p : BoundedQueue D.Raw) (new : List D.Raw) → Got q new p → Got q new (close p)
  unfolding close
  Got-close q p new v = record { lost = v.lost; newest = v.newest; counted = v.counted }

  close-closed : (q : BoundedQueue D.Raw) → (close q).closed ≡ true
  unfolding close
  close-closed q = refl

  finish-Plays : (t : DecodeThread D) → t.queue_b.closed ≡ false → Plays t [] (finish D t)
  unfolding finish
  finish-Plays t o = elim (Bool-cases (D.flush t.decoder).0) [
    | inr e ↦
        rw (e, finish)
          (record {
            closed = close-closed t.queue_b;
            got = rw (e, all_pictures) (Got-close t.queue_b t.queue_b [] (Got-nothing t.queue_b));
            keeps = Keeps-close t.queue_b t.queue_b (Keeps-itself t.queue_b);
          })
    | inl e ↦
        let raws = (D.flush t.decoder).1 in
        let (_, _, got) = push_all-Gets t.queue_b raws o in
        let q : BoundedQueue D.Raw = (push_all D t.queue_b raws).1 in
        rw (e, finish)
          (record {
            closed = close-closed q;
            got = rw (e, all_pictures) (Got-close t.queue_b q raws got);
            keeps = Keeps-close t.queue_b q (push_all-Keeps t.queue_b raws);
          })
  ]

  -- The decoding thread, run with an open queue until its input is closed, always closes the queue of the
  -- renderer, whatever fails; and that queue holds, in order, the newest of the pictures that waited and
  -- of those of the calls of the decoder that succeed, and has counted each of these that it gave up, which
  -- it did only if it is full. The pictures of a call that fails reach no queue and no count.
  pub decode_loop_lem :
      (t : DecodeThread D) (frames : List AssembledFrame)
      → t.queue_b.closed ≡ false
      → Plays t frames (decode_loop D t frames)
  unfolding decode_loop
  decode_loop_lem t [] o = finish-Plays t o
  decode_loop_lem t (frame ∷ frames) o =
      let u = (D.decode t.decoder frame).2 in
      elim (Decoded-cases (D.decode t.decoder frame).0) [
        | inl e ↦
            let raws = (D.decode t.decoder frame).1 in
            let (all_in, still, got) = push_all-Gets t.queue_b raws o in
            let q : BoundedQueue D.Raw = (push_all D t.queue_b raws).1 in
            let v = decode_loop_lem (record t { decoder = u; queue_b = q }) frames still in
            rw (e, all_in, decode_loop)
              (record {
                closed = v.closed;
                got =
                    rw (e, all_pictures)
                      (Got-next t.queue_b q _ raws (all_pictures u frames) got v.got);
                keeps = Keeps-trans t.queue_b q _ (push_all-Keeps t.queue_b raws) v.keeps;
              })
        | inr (inl e) ↦
            let v = decode_loop_lem (record t { decoder = u }) frames o in
            rw (e, decode_loop)
              (record { closed = v.closed; got = rw (e, all_pictures) v.got; keeps = v.keeps })
        | inr (inr e) ↦
            rw (e, decode_loop)
              (record {
                closed = close-closed t.queue_b;
                got =
                    rw (e, all_pictures) (Got-close t.queue_b t.queue_b [] (Got-nothing t.queue_b));
                keeps = Keeps-close t.queue_b t.queue_b (Keeps-itself t.queue_b);
              })
      ]
