-- ===== src/ReceiverPipeline/Silence.antt =====
-- ReceiverPipeline.cpp, recvLoop(): the timeout ends a run.
use lowlat_stream.Base.{
  ℕ, zero, suc, ◌+◌, ◌≤◌, ◌<◌, ◌≡◌, ◌⊎◌, ◌^◌, refl, sym, ap, subst, ◌∙◌, both, Bool, true, false,
  if◌then◌else◌, Option-cases, inl, inr, some, Option, List, [], ◌∷◌, length, arith,
}
use lowlat_stream.Base.Int.{pos_part}
use lowlat_stream.Net.{Socket, timed_out}
use lowlat_stream.FrameAssembler.{AssembledFrame}
use lowlat_stream.JitterBuffer.{Estimator, JitterBuffer, Pending, Entry, pop_from}
use lowlat_stream.JitterBuffer as JitterBuffer
use lowlat_stream.BoundedQueue.{try_push}
use lowlat_stream.ReceiverPipeline.{ReceiverPipeline}
use lowlat_stream.ReceiverPipeline.Feedback.{request_key_frame, send_pli}
use lowlat_stream.ReceiverPipeline.Frames.{
  write_frame, take_frames, has_all, resync, release, hand_over,
}
use lowlat_stream.Packet.Types.{max_fec_packet_size}
use lowlat_stream.ReceiverPipeline.Loop.{wait_ms, is_idle, receive_packet, turn, recv_loop}

-- A time at least `limit` after the wait of some turn.
abbrev pub Reaches : ℕ → List (ℕ × ℕ) → Type 0
Reaches limit [] = ⊥
Reaches limit ((before_ms, now_ms) ∷ times) =
    ((limit ≤ now_ms) × (now_ms < 2 ^ 64)) ⊎ Reaches limit times

module _ (S : Socket) (E : Estimator) where
  is_idle-late :
      (r : ReceiverPipeline S E) (last now : ℕ)
      → 0 < pos_part r.config.idle_timeout_ms
      → last + pos_part r.config.idle_timeout_ms ≤ now
      → now < 2 ^ 64
      → is_idle S E r last now ≡ true
  unfolding is_idle
  is_idle-late r last now p h b = ground arith

  -- One turn that waits for a packet in vain.
  receive_packet-timed_out :
      (r : ReceiverPipeline S E) (last before now : ℕ)
      → ((s : S.State) (size timeout : ℕ) → (S.recv_from s size timeout).0 ≡ timed_out)
      → (q : ReceiverPipeline S E) × (q.config ≡ r.config)
        × (receive_packet S E r last before now ≡ (is_idle S E q last now, last, q))
  unfolding receive_packet
  receive_packet-timed_out r last before now t =
      let q : ReceiverPipeline S E = record r {
        socket = (S.recv_from r.socket max_fec_packet_size (wait_ms S E r before)).1;
      } in
      (q, refl, rw (t r.socket max_fec_packet_size (wait_ms S E r before), receive_packet) refl)

  take_frames-config :
      (r : ReceiverPipeline S E) (frames : List AssembledFrame) (now : ℕ)
      → (take_frames S E r frames now).1.config ≡ r.config
  unfolding take_frames write_frame
  take_frames-config r [] now = refl
  take_frames-config r (f ∷ frames) now =
      let a = r.assembler in
      let w : ReceiverPipeline S E =
        write_frame S E (record r { assembler = record a { ready = frames } }) f in
      let q : ReceiverPipeline S E = record w { jitter = JitterBuffer.push E w.jitter f now } in
      both {A = Bool × ReceiverPipeline S E} (λ x. x.1.config ≡ r.config) (has_all S E q) _ _ refl
        (take_frames-config q frames now)

  resync-config : (r : ReceiverPipeline S E) (now : ℕ) → (resync S E r now).config ≡ r.config
  unfolding resync request_key_frame send_pli
  resync-config r now = ground arith

  release-config :
      (n : ℕ) (r : ReceiverPipeline S E) (now : ℕ) → (release S E n r now).config ≡ r.config
  unfolding release
  release-config zero r now = refl
  release-config (suc n) r now = elim (Option-cases (JitterBuffer.pop E r.jitter now)) [
    | inl e ↦ rw (e, release) refl
    | inr ((f, u), e) ↦
        let t : ReceiverPipeline S E = record r {
          jitter = u;
          queue_a = (try_push f r.queue_a).1;
        } in
        rw (e, release) (ground (arith, release-config n t now, resync-config t now))
  ]

  hand_over-config :
      (r : ReceiverPipeline S E) (now : ℕ) → (hand_over S E r now).1.config ≡ r.config
  unfolding hand_over
  hand_over-config r now =
      let q : ReceiverPipeline S E = (take_frames S E r r.assembler.ready now).1 in
      ground (
        arith,
        take_frames-config r r.assembler.ready now,
        release-config (length q.jitter.pending) q now,
      )

  -- What the loop has when it has ended: the run is complete, or it was stopped.
  pub record Ended (o : Option (Bool × ReceiverPipeline S E)) : Type 0 where
    pub is_complete : Bool
    pub last : ReceiverPipeline S E
    pub ends : o ≡ some (is_complete, last)
    pub why : (is_complete ≡ true) ⊎ (last.queue_a.closed ≡ true)

  turn-timed_out :
      (r : ReceiverPipeline S E) (last before now : ℕ)
      → ((s : S.State) (size timeout : ℕ) → (S.recv_from s size timeout).0 ≡ timed_out)
      → (q : ReceiverPipeline S E) × (q.config ≡ r.config)
        × (turn S E r last before now ≡ (
            if is_idle S E q last now
            then (true, last, q)
            else ((hand_over S E q now).0, last, (hand_over S E q now).1)))
  unfolding turn
  turn-timed_out r last before now t =
      let (q, c, e) = receive_packet-timed_out r last before now t in (q, c, rw (e, turn) refl)

  Ended-stop :
      (b : Bool) (o : Option (Bool × ReceiverPipeline S E)) (r : ReceiverPipeline S E)
      → r.queue_a.closed ≡ b
      → Ended o
      → Ended (if b then some (false, r) else o)
  Ended-stop true o r e v = record { is_complete = false; last = r; ends = refl; why = inr e }
  Ended-stop false o r e v = v

  Ended-done :
      (b : Bool) (o : Option (Bool × ReceiverPipeline S E)) (r : ReceiverPipeline S E)
      → Ended o
      → Ended (if b then some (true, r) else o)
  Ended-done true o r v = record { is_complete = true; last = r; ends = refl; why = inl refl }
  Ended-done false o r v = v

  -- What the loop does after a turn with this result.
  abbrev go_on :
      List (ℕ × ℕ) → Bool × ℕ × ReceiverPipeline S E → Option (Bool × ReceiverPipeline S E)
  go_on times (is_complete, last, q) =
      if is_complete then some (true, q) else recv_loop S E q last times

  recv_loop-turn :
      (r : ReceiverPipeline S E) (last before now : ℕ) (times : List (ℕ × ℕ))
      → Ended (go_on times (turn S E r last before now))
      → Ended (recv_loop S E r last ((before, now) ∷ times))
  unfolding recv_loop
  recv_loop-turn r last before now times v =
      Ended-stop r.queue_a.closed (go_on times (turn S E r last before now)) r refl v

  -- Where nothing comes from the network and the timeout is set, the loop ends, complete or stopped: at
  -- the latest in the turn whose wait ends that long after the last packet, at a time below 2 ^ 64.
  pub silence_ends_run :
      (r : ReceiverPipeline S E) (last_packet_ms : ℕ) (times : List (ℕ × ℕ))
      → ((s : S.State) (size timeout : ℕ) → (S.recv_from s size timeout).0 ≡ timed_out)
      → 0 < pos_part r.config.idle_timeout_ms
      → Reaches (last_packet_ms + pos_part r.config.idle_timeout_ms) times
      → Ended (recv_loop S E r last_packet_ms times)
  silence_ends_run r last [] t p h = absurd h
  silence_ends_run r last ((before, now) ∷ times) t p h =
      let (q, c, e) = turn-timed_out r last before now t in
      let w : ReceiverPipeline S E = (hand_over S E q now).1 in
      let same : w.config ≡ r.config = hand_over-config q now ∙ c in
      let over : Ended (some (true, q)) = record {
        is_complete = true;
        last = q;
        ends = refl;
        why = inl refl;
      } in
      let idle = pos_part r.config.idle_timeout_ms in
      let p' : idle ≡ pos_part q.config.idle_timeout_ms =
        sym (ap (λ k. pos_part k.idle_timeout_ms) c) in
      recv_loop-turn r last before now times (
        subst (λ x. Ended (go_on times x)) (sym e)
          (elim h [
            | inl (l, b) ↦
                subst
                  (λ i. Ended (
                    go_on times
                      (if i then (true, last, q) else ((hand_over S E q now).0, last, w))))
                  (sym (
                    is_idle-late q last now (subst (λ n. 0 < n) p' p)
                      (subst (λ n. last + n ≤ now) p' l) b))
                  over
            | inr later ↦
                both {A = Bool × ℕ × ReceiverPipeline S E} (λ x. Ended (go_on times x))
                  (is_idle S E q last now) _ _ over
                  (Ended-done (hand_over S E q now).0 (recv_loop S E w last times) w (
                    silence_ends_run w last times t
                      (subst (λ k. 0 < pos_part k.idle_timeout_ms) (sym same) p)
                      (subst (λ k. Reaches (last + pos_part k.idle_timeout_ms) times) (sym same)
                        later)))
          ]))
