-- ===== src/ReceiverPipeline/Frames.antt =====
-- ReceiverPipeline.cpp, recvLoop(): complete frames go into the jitter buffer, and frames that are due
-- into the queue of the decoder.
use lowlat_stream.Base.{
  ℕ, zero, suc, ◌+◌, Bool, true, false, leb, ◌&&◌, if◌then◌else◌, none, some, List, [], ◌∷◌, length,
}
use lowlat_stream.Base.Int.{pos, pos_part, ltb_ℤ}
use lowlat_stream.Net.{Socket}
use lowlat_stream.FrameAssembler.{AssembledFrame}
use lowlat_stream.JitterBuffer.{Estimator, drop_until_key_frame}
use lowlat_stream.JitterBuffer as JitterBuffer
use lowlat_stream.BoundedQueue.{try_push, clear}
use lowlat_stream.ReceiverPipeline.{ReceiverPipeline}
use lowlat_stream.ReceiverPipeline.Feedback.{request_key_frame}

module _ (S : Socket) (E : Estimator) where
  -- The dump is off, so the frame is only counted.
  unfoldable pub write_frame : ReceiverPipeline S E → AssembledFrame → ReceiverPipeline S E
  write_frame r frame =
      let s = r.stats in
      record r {
        stats = record s {
          frames_written = suc s.frames_written;
          bytes_written = s.bytes_written + length frame.bytes;
          key_frames = if frame.is_key then suc s.key_frames else s.key_frames;
        };
      }

  -- requestStop() closes the queue and sets the flag that `shouldStop` reads.
  abbrev pub should_stop : ReceiverPipeline S E → Bool
  should_stop r = r.queue_a.closed

  -- Enough frames for the run of the program.
  abbrev pub has_all : ReceiverPipeline S E → Bool
  has_all r =
      ltb_ℤ (pos 0) r.config.max_frames && leb (pos_part r.config.max_frames) r.stats.frames_written

  -- The loop over the complete frames, which are the second argument; true if the run is complete.
  unfoldable pub take_frames :
      ReceiverPipeline S E → List AssembledFrame → ℕ → Bool × ReceiverPipeline S E
  take_frames r [] now_ms = (false, r)
  take_frames r (frame ∷ rest) now_ms =
      let a = r.assembler in
      let written = write_frame (record r { assembler = record a { ready = rest } }) frame in
      let q = record written { jitter = JitterBuffer.push E written.jitter frame now_ms } in
      let later = take_frames q rest now_ms in if has_all q then (true, q) else later

  -- The queue is full: all that waits is given up, and a key frame is asked for.
  unfoldable pub resync : ReceiverPipeline S E → ℕ → ReceiverPipeline S E
  resync r now_ms =
      let s = r.stats in
      (request_key_frame S E
        (record r {
          queue_a = clear r.queue_a;
          jitter = drop_until_key_frame E r.jitter;
          stats = record s {
            decode_queue_rejected = suc s.decode_queue_rejected;
            decode_resyncs = suc s.decode_resyncs;
          };
        })
        now_ms).1

  -- The loop over the frames that are due. Each turn takes one out of the jitter buffer, so `n` is the
  -- number of those that wait there.
  unfoldable pub release : ℕ → ReceiverPipeline S E → ℕ → ReceiverPipeline S E
  release zero r now_ms = r
  release (suc n) r now_ms = elim (JitterBuffer.pop E r.jitter now_ms) [
    | none ↦ r
    | some (frame, jitter) ↦
        let (is_in, queue) = try_push frame r.queue_a in
        let q = record r { jitter = jitter; queue_a = queue } in
        let later = release n q now_ms in
        if is_in then later else (if should_stop q then q else resync q now_ms)
  ]

  -- What one turn of recvLoop() does after the packet.
  unfoldable pub hand_over : ReceiverPipeline S E → ℕ → Bool × ReceiverPipeline S E
  hand_over r now_ms =
      let (is_complete, q) = take_frames r r.assembler.ready now_ms in
      let released = release (length q.jitter.pending) q now_ms in
      (is_complete, if should_stop q then q else released)
