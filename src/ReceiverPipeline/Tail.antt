-- ===== src/ReceiverPipeline/Tail.antt =====
-- ReceiverPipeline.cpp, recvLoop(): the end of a completed run.
use lowlat_stream.Base.{
  max, length-append, ℕ, suc, ◌+◌, ◌≤◌, ◌<◌, ◌≡◌, ◌⊎◌, refl, sym, ap, ◌∙◌, Bool, true, false, leb,
  if◌then◌else◌, Option-cases, inl, inr, none, some, Option, List, [], ◌∷◌, ◌++◌, ◌==◌, ◌||◌,
  length, append_nil, append_assoc, arith,
}
use lowlat_stream.Net.{Socket}
use lowlat_stream.FrameAssembler.{AssembledFrame}
use lowlat_stream.JitterBuffer.{Estimator, JitterBuffer, Pending, Entry, pop_from}
use lowlat_stream.JitterBuffer as JitterBuffer
use lowlat_stream.JitterBuffer.Latency.{DueBy}
use lowlat_stream.BoundedQueue.{try_push, close}
use lowlat_stream.ReceiverPipeline.{ReceiverPipeline}
use lowlat_stream.ReceiverPipeline.Frames.{resync}
use lowlat_stream.ReceiverPipeline.Resync.{Restarted, resync-Restarted, try_push-open}
use lowlat_stream.ReceiverPipeline.Loop.{drain_tail}

-- How many of the times are at least `limit`.
abbrev pub late : ℕ → List ℕ → ℕ
late limit [] = 0
late limit (now_ms ∷ times) =
    let rest = late limit times in if leb limit now_ms then suc rest else rest

abbrev pub frames_in : Pending → List AssembledFrame
frames_in [] = []
frames_in ((k, x) ∷ m) = x.frame ∷ frames_in m

length-frames_in : (m : Pending) → length (frames_in m) ≡ length m
length-frames_in [] = refl
length-frames_in ((k, x) ∷ m) = ap suc (length-frames_in m)

module _ (S : Socket) (E : Estimator) where
  pop-none :
      (b : JitterBuffer E) (k now : ℕ) (x : Entry) (m : Pending)
      → b.pending ≡ (k, x) ∷ m
      → JitterBuffer.pop E b now ≡ none
      → now < x.play_at_ms
  unfolding JitterBuffer.pop pop_from
  pop-none b k now x m e h = ground arith

  pop-some :
      (b u : JitterBuffer E) (f : AssembledFrame) (k now : ℕ) (x : Entry) (m : Pending)
      → b.pending ≡ (k, x) ∷ m
      → JitterBuffer.pop E b now ≡ some (f, u)
      → (f ≡ x.frame) × (u.pending ≡ m)
  unfolding JitterBuffer.pop pop_from
  pop-some b u f k now x m e h = ground arith

  -- The frames that waited have gone to the decoder, all or, where its queue was full, none.
  pub record Drained (r : ReceiverPipeline S E) (o : Option (ReceiverPipeline S E)) : Type 0 where
    pub last : ReceiverPipeline S E
    pub ends : o ≡ some last
    pub closed : last.queue_a.closed ≡ true
    pub nothing_waits : last.jitter.pending ≡ []
    pub outcome :
        ((last.queue_a.items ≡ r.queue_a.items ++ frames_in r.jitter.pending)
          × (length last.queue_a.items ≤ max (length r.queue_a.items) r.queue_a.cap)
          × (last.stats.decode_resyncs ≡ r.stats.decode_resyncs))
        ⊎ ((last.queue_a.items ≡ [])
            × (r.queue_a.cap < length r.queue_a.items + length r.jitter.pending)
            × (last.stats.decode_resyncs ≡ suc r.stats.decode_resyncs))

  abbrev ended : ReceiverPipeline S E → Bool
  ended r = length r.jitter.pending == 0 || r.queue_a.closed

  drain_tail-ended :
      (r : ReceiverPipeline S E) (times : List ℕ)
      → ended r ≡ true
      → drain_tail S E r times ≡ some (record r { queue_a = close r.queue_a })
  unfolding drain_tail
  drain_tail-ended r [] e = rw (e, drain_tail) refl
  drain_tail-ended r (now ∷ times) e = rw (e, drain_tail) refl

  Drained-ended :
      (r : ReceiverPipeline S E) (times : List ℕ)
      → r.jitter.pending ≡ []
      → Drained r (drain_tail S E r times)
  unfolding close
  Drained-ended r times e = record {
    last = record r { queue_a = close r.queue_a };
    ends = drain_tail-ended r times (ground arith);
    closed = refl;
    nothing_waits = e;
    outcome = inl (
      sym (ap (λ m. r.queue_a.items ++ frames_in m) e ∙ append_nil r.queue_a.items),
      omega arith,
      refl,
    );
  }

  -- The frame in front has gone into the queue.
  Drained-next :
      (r t : ReceiverPipeline S E) (f : AssembledFrame) (o : Option (ReceiverPipeline S E))
      → frames_in r.jitter.pending ≡ f ∷ frames_in t.jitter.pending
      → t.queue_a.items ≡ r.queue_a.items ++ (f ∷ [])
      → t.stats.decode_resyncs ≡ r.stats.decode_resyncs
      → length r.queue_a.items < r.queue_a.cap
      → t.queue_a.cap ≡ r.queue_a.cap
      → Drained t o
      → Drained r o
  Drained-next r t f o w i c room same_cap v = record {
    last = v.last;
    ends = v.ends;
    closed = v.closed;
    nothing_waits = v.nothing_waits;
    outcome = elim v.outcome [
      | inl (items, most, count) ↦ inl (
        items
            ∙ ap (λ l. l ++ frames_in t.jitter.pending) i
            ∙ append_assoc r.queue_a.items (f ∷ []) (frames_in t.jitter.pending)
            ∙ ap (λ l. r.queue_a.items ++ l) (sym w),
        omega (arith, most, same_cap, ap (λ l. length l) i, length-append r.queue_a.items (f ∷ [])),
        count ∙ c,
      )
      | inr (items, over, count) ↦ inr (
        items,
        omega (
          arith,
          over,
          same_cap,
          ap (λ l. length l) i,
          length-append r.queue_a.items (f ∷ []),
          ap (λ l. length l) w,
          length-frames_in r.jitter.pending,
          length-frames_in t.jitter.pending,
        ),
        count ∙ ap suc c,
      )
    ];
  }

  Drained-resync :
      (r t : ReceiverPipeline S E) (now : ℕ) (times : List ℕ)
      → t.stats.decode_resyncs ≡ r.stats.decode_resyncs
      → r.queue_a.cap < length r.queue_a.items + length r.jitter.pending
      → Drained r (drain_tail S E (resync S E t now) times)
  unfolding close
  Drained-resync r t now times c over =
      let v : Restarted S E t (resync S E t now) = resync-Restarted S E t now in
      let q : ReceiverPipeline S E = resync S E t now in
      record {
        last = record q { queue_a = close q.queue_a };
        ends = drain_tail-ended q times (rw v.buffer_empty refl);
        closed = refl;
        nothing_waits = v.buffer_empty;
        outcome = inr (v.queue_empty, over, v.counted ∙ ap suc c);
      }

  Drained-from :
      (limit : ℕ) (r : ReceiverPipeline S E) (times : List ℕ) (m : Pending)
      → r.jitter.pending ≡ m
      → r.queue_a.closed ≡ false
      → DueBy limit m
      → length m ≤ late limit times
      → Drained r (drain_tail S E r times)
  unfolding drain_tail
  Drained-from limit r times [] e o d l = Drained-ended r times e
  Drained-from limit r [] ((k, x) ∷ m) e o d l = absurd (omega arith)
  Drained-from limit r (now ∷ times) ((k, x) ∷ m) e o d l =
      let busy : ended r ≡ false = ground arith in
      elim (Option-cases (JitterBuffer.pop E r.jitter now)) [
        | inl p ↦
            rw (busy, p, drain_tail)
              (Drained-from limit r times ((k, x) ∷ m) e o d
                (ground (arith, d.0, pop-none r.jitter k now x m e p)))
        | inr ((f, u), p) ↦
            let (same, rest) = pop-some r.jitter u f k now x m e p in
            let (still, same_cap, put) = try_push-open S E f r.queue_a o in
            let t : ReceiverPipeline S E = record r {
              jitter = u;
              queue_a = (try_push f r.queue_a).1;
            } in
            elim put [
              | inl (is_in, items, room) ↦
                  rw (busy, p, is_in, drain_tail)
                    (Drained-next r t f (drain_tail S E t times)
                      (ap frames_in e
                        ∙ ap (λ g. g ∷ frames_in m) (sym same)
                        ∙ ap (λ b. f ∷ frames_in b) (sym rest))
                      items refl room same_cap
                      (Drained-from limit t times m rest still d.1 (ground arith)))
              | inr (full, _, no_room) ↦
                  rw (busy, p, full, still, drain_tail)
                    (Drained-resync r t now times refl
                      (omega (arith, no_room, ap (λ l. length l) e)))
            ]
      ]

  -- With an open queue the end of a completed run comes, whatever the clock says before: it is enough
  -- that the clock has been at or after the last time of play as often as there are frames. Then the
  -- queue of the decoder is closed and no frame waits; and either the queue has got all the frames, in
  -- order and within its capacity where it was, or there were more than it had room for, it is empty, and
  -- one restart is counted.
  pub drain_tail_lem :
      (limit : ℕ) (r : ReceiverPipeline S E) (times : List ℕ)
      → r.queue_a.closed ≡ false
      → DueBy limit r.jitter.pending
      → length r.jitter.pending ≤ late limit times
      → Drained r (drain_tail S E r times)
  drain_tail_lem limit r times o d l = Drained-from limit r times r.jitter.pending refl o d l
