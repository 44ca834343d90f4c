-- ===== src/ReceiverPipeline/Handover.antt =====
-- ReceiverPipeline.cpp, recvLoop(): what the queue of the decoder gets.
use lowlat_stream.Base.{
  ℕ, zero, suc, ◌≤◌, ◌<◌, max, length-append, ◌≡◌, ◌⊎◌, refl, sym, ap, ◌∙◌, false, Option-cases,
  inl, inr, none, some, List, [], ◌∷◌, ◌++◌, length, replicate, append_nil, append_assoc, arith,
}
use lowlat_stream.Net.{Socket}
use lowlat_stream.FrameAssembler.{AssembledFrame}
use lowlat_stream.JitterBuffer.{Estimator, JitterBuffer, Pending, pop_from, drop_until_key_frame}
use lowlat_stream.JitterBuffer as JitterBuffer
use lowlat_stream.JitterBuffer.Session.{popped, session}
use lowlat_stream.BoundedQueue.{try_push}
use lowlat_stream.ReceiverPipeline.{ReceiverPipeline}
use lowlat_stream.JitterBuffer.Popped.{frames_of, session-pop, pop-length, pop-empty}
use lowlat_stream.ReceiverPipeline.Resync.{
  Restarted, Restarted-next, resync-Restarted, try_push-open,
}
use lowlat_stream.ReceiverPipeline.Frames.{release, resync}

module _ (S : Socket) (E : Estimator) where
  -- All frames that were due are in the queue, in the order in which the jitter buffer gives them.
  pub record Delivers (r : ReceiverPipeline S E) (now : ℕ) (q : ReceiverPipeline S E) : Type 0 where
    pub pops : ℕ
    pub queued :
        q.queue_a.items
        ≡ r.queue_a.items ++ frames_of (session E r.jitter (replicate pops (popped now))).0
    pub fits : length q.queue_a.items ≤ max (length r.queue_a.items) r.queue_a.cap
    pub popped_all : q.jitter ≡ (session E r.jitter (replicate pops (popped now))).1
    pub none_due : JitterBuffer.pop E q.jitter now ≡ none

  -- The frames that the jitter buffer gives in its first `pops` calls of pop.
  abbrev pub given : ReceiverPipeline S E → ℕ → ℕ → List AssembledFrame
  given r now pops = frames_of (session E r.jitter (replicate pops (popped now))).0

  -- That was because the queue was full, with one frame more that was due.
  pub record Restarts (r : ReceiverPipeline S E) (now : ℕ) (q : ReceiverPipeline S E) : Type 0 where
    pub restarted : Restarted S E r q
    pub pops : ℕ
    pub full : r.queue_a.cap ≤ length (r.queue_a.items ++ given r now pops)
    pub one_more : length (given r now (suc pops)) ≡ suc (length (given r now pops))

  Delivers-next :
      (r t q : ReceiverPipeline S E) (u : JitterBuffer E) (f : AssembledFrame) (now : ℕ)
      → JitterBuffer.pop E r.jitter now ≡ some (f, u)
      → t.jitter ≡ u
      → t.queue_a.items ≡ r.queue_a.items ++ (f ∷ [])
      → length r.queue_a.items < r.queue_a.cap
      → t.queue_a.cap ≡ r.queue_a.cap
      → Delivers t now q
      → Delivers r now q
  Delivers-next r t q u f now h j i room same_cap v =
      let (frames, last) = session-pop E r.jitter u f now v.pops h in
      let from : session E t.jitter (replicate v.pops (popped now))
          ≡ session E u (replicate v.pops (popped now)) =
        ap (λ b. session E b (replicate v.pops (popped now))) j in
      record {
        pops = suc v.pops;
        queued =
            v.queued
            ∙ ap (λ o. t.queue_a.items ++ frames_of o.0) from
            ∙ ap (λ l. l ++ frames_of (session E u (replicate v.pops (popped now))).0) i
            ∙ append_assoc r.queue_a.items (f ∷ [])
                (frames_of (session E u (replicate v.pops (popped now))).0)
            ∙ ap (λ l. r.queue_a.items ++ l) (sym frames);
        fits =
            omega (
              arith,
              v.fits,
              same_cap,
              ap (λ l. length l) i,
              length-append r.queue_a.items (f ∷ []),
            );
        popped_all = v.popped_all ∙ ap (λ o. o.1) from ∙ sym last;
        none_due = v.none_due;
      }

  -- After a pop the first frame is the one popped.
  given-pop :
      (r t : ReceiverPipeline S E) (u : JitterBuffer E) (f : AssembledFrame) (now k : ℕ)
      → JitterBuffer.pop E r.jitter now ≡ some (f, u)
      → t.jitter ≡ u
      → given r now (suc k) ≡ f ∷ given t now k
  given-pop r t u f now k h j =
      (session-pop E r.jitter u f now k h).0
      ∙ ap (λ b. f ∷ frames_of (session E b (replicate k (popped now))).0) (sym j)

  Restarts-next :
      (r t q : ReceiverPipeline S E) (u : JitterBuffer E) (f : AssembledFrame) (now : ℕ)
      → JitterBuffer.pop E r.jitter now ≡ some (f, u)
      → t.jitter ≡ u
      → t.queue_a.items ≡ r.queue_a.items ++ (f ∷ [])
      → t.queue_a.cap ≡ r.queue_a.cap
      → t.stats.decode_resyncs ≡ r.stats.decode_resyncs
      → Restarts t now q
      → Restarts r now q
  Restarts-next r t q u f now h j i same_cap e v =
      let first = given-pop r t u f now v.pops h j in
      let second = given-pop r t u f now (suc v.pops) h j in
      record {
        restarted = Restarted-next S E r t q e v.restarted;
        pops = suc v.pops;
        full = omega (
          arith,
          v.full,
          same_cap,
          ap (λ l. length l) i,
          ap (λ l. length l) first,
          length-append r.queue_a.items (f ∷ []),
          length-append t.queue_a.items (given t now v.pops),
          length-append r.queue_a.items (given r now (suc v.pops)),
        );
        one_more = omega (arith, v.one_more, ap (λ l. length l) first, ap (λ l. length l) second);
      }

  Restarts-now :
      (r q : ReceiverPipeline S E) (u : JitterBuffer E) (f : AssembledFrame) (now : ℕ)
      → JitterBuffer.pop E r.jitter now ≡ some (f, u)
      → r.queue_a.cap ≤ length r.queue_a.items
      → Restarted S E r q
      → Restarts r now q
  unfolding session
  Restarts-now r q u f now h full v = record {
    restarted = v;
    pops = 0;
    full = omega (arith, length-append r.queue_a.items []);
    one_more = ap (λ l. length l) (session-pop E r.jitter u f now 0 h).0;
  }

  Delivers-none :
      (r : ReceiverPipeline S E) (now : ℕ)
      → JitterBuffer.pop E r.jitter now ≡ none
      → Delivers r now r
  unfolding session
  Delivers-none r now e = record {
    pops = 0;
    queued = sym (append_nil r.queue_a.items);
    fits = omega arith;
    popped_all = refl;
    none_due = e;
  }

  -- Of an open queue, and with a turn for each frame that waits: either every frame that was due has been
  -- queued, in the order of the jitter buffer and within the capacity where the queue was, and none is
  -- due any more; or one more frame was due when the frames before it had filled the queue, and then both
  -- the queue and the jitter buffer are empty, the buffer waits for a key frame if its configuration
  -- says so, and one restart is counted. Nothing in between, such as a gap in the frames that the
  -- decoder gets, is possible.
  pub release_lem :
      (n : ℕ) (r : ReceiverPipeline S E) (now_ms : ℕ)
      → r.queue_a.closed ≡ false
      → length r.jitter.pending ≤ n
      → Delivers r now_ms (release S E n r now_ms) ⊎ Restarts r now_ms (release S E n r now_ms)
  unfolding release
  release_lem zero r now o l = inl (Delivers-none r now (pop-empty E r.jitter now l))
  release_lem (suc n) r now o l = elim (Option-cases (JitterBuffer.pop E r.jitter now)) [
    | inl e ↦ inl (rw (e, release) (Delivers-none r now e))
    | inr ((f, u), e) ↦
        let (still, same_cap, put) = try_push-open S E f r.queue_a o in
        let t : ReceiverPipeline S E = record r {
          jitter = u;
          queue_a = (try_push f r.queue_a).1;
        } in
        elim put [
          | inl (is_in, items, room) ↦
              let rest =
                release_lem n t now still (omega (arith, pop-length E r.jitter u f now e)) in
              elim rest [
                | inl v ↦ inl (
                    rw (e, is_in, release)
                      (Delivers-next r t (release S E n t now) u f now e refl items room same_cap
                        v))
                | inr v ↦ inr (
                    rw (e, is_in, release)
                      (Restarts-next r t (release S E n t now) u f now e refl items same_cap refl
                        v))
              ]
          | inr (full, _, no_room) ↦ inr (
              rw (e, full, still, release)
                (Restarts-now r (resync S E t now) u f now e no_room
                  (Restarted-next S E r t (resync S E t now) refl (resync-Restarted S E t now))))
        ]
  ]
