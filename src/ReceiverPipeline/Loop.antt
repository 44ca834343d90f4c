-- ===== src/ReceiverPipeline/Loop.antt =====
-- ReceiverPipeline.cpp, recvLoop(): its two loops. What the clock says is a list; a loop that has not
-- ended when the list is used up has the result `none`.
use lowlat_stream.Base.{
  ℕ, suc, ◌+◌, ◌-◌, ◌%◌, ◌^◌, min, Bool, true, false, leb, ◌==◌, ◌&&◌, ◌||◌, if◌then◌else◌, Option,
  none, some, List, [], ◌∷◌, length,
}
use lowlat_stream.Base.Int.{pos, pos_part, ltb_ℤ}
use lowlat_stream.Net.{Socket, timed_out, failed, datagram}
use lowlat_stream.Packet.Types.{max_fec_packet_size}
use lowlat_stream.JitterBuffer.{Estimator, ms_until_next_due}
use lowlat_stream.JitterBuffer as JitterBuffer
use lowlat_stream.BoundedQueue.{try_push, close}
use lowlat_stream.ReceiverPipeline.{ReceiverPipeline}
use lowlat_stream.ReceiverPipeline.Packets.{take_datagram}
use lowlat_stream.ReceiverPipeline.Frames.{should_stop, hand_over, resync}

module _ (S : Socket) (E : Estimator) where
  -- How long to wait for a packet: until the next frame is due at most.
  unfoldable pub wait_ms : ReceiverPipeline S E → ℕ → ℕ
  wait_ms r before_ms = elim (ms_until_next_due E r.jitter before_ms) [
    | none ↦ pos_part r.config.recv_timeout_ms
    | some until_due ↦ min (pos_part r.config.recv_timeout_ms) until_due
  ]

  -- The difference of two times in uint64_t.
  unfoldable pub is_idle : ReceiverPipeline S E → ℕ → ℕ → Bool
  is_idle r last_packet_ms now_ms =
      ltb_ℤ (pos 0) r.config.idle_timeout_ms
      && leb (pos_part r.config.idle_timeout_ms) ((now_ms + 2 ^ 64 - last_packet_ms) % 2 ^ 64)

  -- Up to the loop over the frames: whether the run is over, and the time of the last packet.
  unfoldable pub receive_packet : ReceiverPipeline S E → ℕ → ℕ → ℕ → Bool × ℕ × ReceiverPipeline S E
  receive_packet r last_packet_ms before_ms now_ms =
      let (received, socket) = S.recv_from r.socket max_fec_packet_size (wait_ms r before_ms) in
      let q = record r { socket = socket } in
      elim received [
        | timed_out ↦ (is_idle q last_packet_ms now_ms, last_packet_ms, q)
        | failed ↦
            let s = q.stats in
            (
              false,
              last_packet_ms,
              record q { stats = record s { recv_errors = suc s.recv_errors } },
            )
        | datagram bytes from ↦ (false, now_ms, take_datagram S E q bytes from now_ms)
      ]

  unfoldable pub turn : ReceiverPipeline S E → ℕ → ℕ → ℕ → Bool × ℕ × ReceiverPipeline S E
  turn r last_packet_ms before_ms now_ms =
      let (is_over, last, q) = receive_packet r last_packet_ms before_ms now_ms in
      let (is_complete, handed) = hand_over S E q now_ms in
      if is_over then (true, last, q) else (is_complete, last, handed)

  -- The times before and after the wait of each turn. The result says if the run was completed.
  unfoldable pub recv_loop :
      ReceiverPipeline S E → ℕ → List (ℕ × ℕ) → Option (Bool × ReceiverPipeline S E)
  recv_loop r last_packet_ms [] = if should_stop S E r then some (false, r) else none
  recv_loop r last_packet_ms ((before_ms, now_ms) ∷ times) =
      let (is_complete, last, q) = turn r last_packet_ms before_ms now_ms in
      let later = recv_loop q last times in
      if should_stop S E r then some (false, r) else (if is_complete then some (true, q) else later)

  -- The end of a completed run: the frames that wait go to the decoder, and then its queue is closed.
  unfoldable pub drain_tail : ReceiverPipeline S E → List ℕ → Option (ReceiverPipeline S E)
  drain_tail r [] =
      if length r.jitter.pending == 0 || should_stop S E r
      then some (record r { queue_a = close r.queue_a })
      else none
  drain_tail r (now_ms ∷ times) =
      if length r.jitter.pending == 0 || should_stop S E r
      then some (record r { queue_a = close r.queue_a })
      else (elim (JitterBuffer.pop E r.jitter now_ms) [
        | none ↦ drain_tail r times
        | some (frame, jitter) ↦
            let (is_in, queue) = try_push frame r.queue_a in
            let q = record r { jitter = jitter; queue_a = queue } in
            let later = drain_tail q times in
            let restarted = drain_tail (resync S E q now_ms) times in
            if is_in
            then later
            else (if should_stop S E q
                then some (record q { queue_a = close q.queue_a })
                else restarted)
      ])
