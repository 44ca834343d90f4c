-- ===== src/ReceiverPipeline/Resync.antt =====
-- ReceiverPipeline.cpp, recvLoop(): the restart when the queue of the decoder is full.
use lowlat_stream.Base.{
  ℕ, suc, ◌≤◌, ◌<◌, ◌≡◌, ◌⊎◌, sym, ap, ◌∙◌, true, false, not, [], ◌∷◌, ◌++◌, length, arith,
}
use lowlat_stream.Net.{Socket}
use lowlat_stream.FrameAssembler.{AssembledFrame}
use lowlat_stream.JitterBuffer.{Estimator, drop_until_key_frame}
use lowlat_stream.BoundedQueue.{BoundedQueue, try_push, enqueue_locked, clear}
use lowlat_stream.ReceiverPipeline.{ReceiverPipeline}
use lowlat_stream.ReceiverPipeline.Feedback.{request_key_frame, send_pli}
use lowlat_stream.ReceiverPipeline.Frames.{resync}

module _ (S : Socket) (E : Estimator) where
  request_key_frame-keeps :
      (r : ReceiverPipeline S E) (now : ℕ)
      → let q = (request_key_frame S E r now).1 in
        (q.queue_a ≡ r.queue_a)
        × (q.jitter ≡ r.jitter)
        × (q.stats.decode_resyncs ≡ r.stats.decode_resyncs)
  unfolding request_key_frame send_pli
  request_key_frame-keeps r now = ground arith

  -- Nothing waits any more, and the jitter buffer starts again as its configuration says.
  pub record Restarted (r : ReceiverPipeline S E) (q : ReceiverPipeline S E) : Type 0 where
    pub queue_empty : q.queue_a.items ≡ []
    pub buffer_empty : q.jitter.pending ≡ []
    pub gate : q.jitter.started ≡ not q.jitter.config.start_on_key_frame
    pub counted : q.stats.decode_resyncs ≡ suc r.stats.decode_resyncs

  pub resync-Restarted : (r : ReceiverPipeline S E) (now : ℕ) → Restarted r (resync S E r now)
  unfolding resync drop_until_key_frame clear
  resync-Restarted r now =
      let s = r.stats in
      let t : ReceiverPipeline S E = record r {
        queue_a = clear r.queue_a;
        jitter = drop_until_key_frame E r.jitter;
        stats = record s {
          decode_queue_rejected = suc s.decode_queue_rejected;
          decode_resyncs = suc s.decode_resyncs;
        };
      } in
      let (queue, jitter, count) = request_key_frame-keeps t now in
      record {
        queue_empty = ap (λ q. q.items) queue;
        buffer_empty = ap (λ b. b.pending) jitter;
        gate = ap (λ b. b.started) jitter ∙ sym (ap (λ b. not b.config.start_on_key_frame) jitter);
        counted = count;
      }

  pub try_push-open :
      (x : AssembledFrame) (q : BoundedQueue AssembledFrame)
      → q.closed ≡ false
      → let (is_in, t) = try_push x q in
        (t.closed ≡ false)
        × (t.cap ≡ q.cap)
        × ((is_in ≡ true × (t.items ≡ q.items ++ (x ∷ [])) × (length q.items < q.cap))
            ⊎ (is_in ≡ false × (t ≡ q) × (q.cap ≤ length q.items)))
  unfolding try_push enqueue_locked
  try_push-open x q o = ground arith

  pub Restarted-next :
      (r t q : ReceiverPipeline S E)
      → t.stats.decode_resyncs ≡ r.stats.decode_resyncs
      → Restarted t q
      → Restarted r q
  Restarted-next r t q e v = record {
    queue_empty = v.queue_empty;
    buffer_empty = v.buffer_empty;
    gate = v.gate;
    counted = v.counted ∙ ap suc e;
  }
