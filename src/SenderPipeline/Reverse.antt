-- ===== src/SenderPipeline/Reverse.antt =====
-- SenderPipeline.cpp, drainReverseChannel(): which packets the loop takes, what is counted, and that it
-- ends.
use lowlat_stream.Base.{
  ℕ, zero, suc, ◌+◌, ◌≤◌, ◌<◌, ◌≡◌, ◌⊎◌, refl, ◌∙◌, true, false, inl, inr, Option, some, List, [],
  ◌∷◌, length, arith,
}
use lowlat_stream.Base.Int.{ℤ, pos_part}
use lowlat_stream.Net.{Endpoint, Socket, Received-cases, timed_out, failed, datagram}
use lowlat_stream.Packet.Types.{max_fec_packet_size}
use lowlat_stream.RetransmitCache.{RetransmitCache, Entry, evict_expired}
use lowlat_stream.SenderPipeline.{
  SenderPipeline, count_error, handle_reverse, may_take, drain_loop, drain_reverse_channel,
}
use lowlat_stream.SenderPipeline.Handled.{
  Reverse, kind_of, one_if_bad, one_if_pli, one_if_nack, asked_for, Holds, Counts,
  handle_reverse-Handled,
}

-- The datagrams that were taken, each with where it is from.
abbrev pub Datagrams : Type 0
Datagrams = List (List ℕ × Endpoint)

abbrev pub sum_of : (Reverse → ℕ) → Datagrams → ℕ
sum_of f [] = 0
sum_of f ((bytes, from) ∷ ds) = f (kind_of bytes) + sum_of f ds

module _ (S : Socket) where
  -- What the datagrams have done: each is counted as what it is, a PLI asks the encoder for a key frame,
  -- every number asked for is answered by a packet, a miss or an error (of which `e` come from the
  -- socket itself), and neither the numbering of the media packets nor their count has moved.
  pub record Drains (p : SenderPipeline S) (q : SenderPipeline S) (ds : Datagrams) (e : ℕ)
      : Type 0 where
    pub same_packetizer : q.packetizer ≡ p.packetizer
    pub same_limit : q.reverse_packets_per_iteration ≡ p.reverse_packets_per_iteration
    pub same_sent : q.stats.packets_sent ≡ p.stats.packets_sent
    pub malformed : q.stats.reverse_malformed ≡ p.stats.reverse_malformed + sum_of one_if_bad ds
    pub plis : q.stats.plis_received ≡ p.stats.plis_received + sum_of one_if_pli ds
    pub keys : q.key_frames_requested ≡ p.key_frames_requested + sum_of one_if_pli ds
    pub nacks : q.stats.nacks_received ≡ p.stats.nacks_received + sum_of one_if_nack ds
    pub nacked : q.stats.nacked_seqs ≡ p.stats.nacked_seqs + sum_of asked_for ds
    pub answered :
        q.stats.packets_retransmitted + q.stats.retransmit_misses + q.stats.send_errors
        ≡ p.stats.packets_retransmitted
          + p.stats.retransmit_misses
          + p.stats.send_errors
          + sum_of asked_for ds
          + e

  Drains-none : (p : SenderPipeline S) (t : S.State) → Drains p (record p { socket = t }) [] 0
  Drains-none p t = ground arith

  Drains-error :
      (p : SenderPipeline S) (t : S.State) → Drains p (count_error S (record p { socket = t })) [] 1
  Drains-error p t = ground arith

  Drains-next :
      (p u q : SenderPipeline S) (bytes : List ℕ) (from : Endpoint) (ds : Datagrams) (e : ℕ)
      → Counts S p u (kind_of bytes)
      → Drains u q ds e
      → Drains p q ((bytes, from) ∷ ds) e
  Drains-next p u q bytes from ds e (packetizer, limit, sent, bad, pli, keys, nack, asked, answers)
        v =
      record {
        same_packetizer = v.same_packetizer ∙ packetizer;
        same_limit = v.same_limit ∙ limit;
        same_sent = v.same_sent ∙ sent;
        malformed = omega (arith, v.malformed, bad);
        plis = omega (arith, v.plis, pli);
        keys = omega (arith, v.keys, keys);
        nacks = omega (arith, v.nacks, nack);
        nacked = omega (arith, v.nacked, asked);
        answered = omega (arith, v.answered, answers);
      }

  -- The socket has given these datagrams, one after another, and each was handled before the next: `u`
  -- is the sender after the last one.
  abbrev pub Receives : SenderPipeline S → Datagrams → SenderPipeline S → Type 0
  Receives p [] u = u ≡ p
  Receives p ((bytes, from) ∷ ds) u =
      let (received, socket) = S.recv_from p.socket max_fec_packet_size 0 in
      (received ≡ datagram bytes from)
      × Receives (handle_reverse S (record p { socket = socket }) bytes from) ds u

  -- Why the loop has ended: as many datagrams as allowed, nothing to receive, or an error of the socket,
  -- which is counted.
  abbrev pub Stops : SenderPipeline S → SenderPipeline S → ℕ → ℕ → ℕ → Type 0
  Stops u q taken most errors =
      let (received, socket) = S.recv_from u.socket max_fec_packet_size 0 in
      ((taken ≡ most) × (q ≡ u) × (errors ≡ 0))
      ⊎ ((received ≡ timed_out) × (q ≡ record u { socket = socket }) × (errors ≡ 0))
      ⊎ ((received ≡ failed) × (q ≡ count_error S (record u { socket = socket })) × (errors ≡ 1))

  -- The loop has ended with `after`, and it has taken these datagrams.
  pub record Ended (p : SenderPipeline S) (r : Option (SenderPipeline S)) (most : ℕ) : Type 0 where
    pub after : SenderPipeline S
    pub is_after : r ≡ some after
    pub datagrams : Datagrams
    pub last : SenderPipeline S
    pub received : Receives p datagrams last
    pub errors : ℕ
    pub stopped : Stops last after (length datagrams) most errors
    pub drains : Drains p after datagrams errors
    pub at_most : length datagrams ≤ most

  may_take-ge :
      (limit : ℤ) (processed : ℕ) → may_take S limit processed ≡ false → pos_part limit ≤ processed
  may_take-ge limit processed e = ground arith

  may_take-lt :
      (limit : ℤ) (processed : ℕ)
      → 0 < pos_part limit
      → may_take S limit processed ≡ true
      → processed < pos_part limit
  may_take-lt limit processed h e = ground arith

  now-Ended :
      (p q : SenderPipeline S) (r : Option (SenderPipeline S)) (e most : ℕ)
      → r ≡ some q
      → Stops p q 0 most e
      → Drains p q [] e
      → Ended p r most
  now-Ended p q r e most s why v = record {
    after = q;
    is_after = s;
    datagrams = [];
    last = p;
    received = refl;
    errors = e;
    stopped = why;
    drains = v;
    at_most = omega arith;
  }

  later-Ended :
      (p : SenderPipeline S) (r : Option (SenderPipeline S)) (bytes : List ℕ) (from : Endpoint)
      (m : ℕ)
      → let (received, socket) = S.recv_from p.socket max_fec_packet_size 0 in
        let u = handle_reverse S (record p { socket = socket }) bytes from in
        (received ≡ datagram bytes from)
        → Counts S (record p { socket = socket }) u (kind_of bytes)
        → Ended u r m
        → Ended p r (suc m)
  later-Ended p r bytes from m got v w =
      let q : SenderPipeline S = record p {
        socket = (S.recv_from p.socket max_fec_packet_size 0).1;
      } in
      record {
        after = w.after;
        is_after = w.is_after;
        datagrams = (bytes, from) ∷ w.datagrams;
        last = w.last;
        received = (got, w.received);
        errors = w.errors;
        stopped = elim w.stopped [
          | inl (full, same, fine) ↦ inl (omega (arith, full), same, fine)
          | inr why ↦ inr why
        ];
        drains =
            Drains-next p (handle_reverse S q bytes from) w.after bytes from w.datagrams w.errors v
              w.drains;
        at_most = omega (arith, w.at_most);
      }

  drain_loop-Ended :
      (n processed most : ℕ) (p : SenderPipeline S) (es : List Entry)
      → Holds S p es
      → 0 < pos_part p.reverse_packets_per_iteration
      → processed + most ≡ pos_part p.reverse_packets_per_iteration
      → most ≤ n
      → Ended p (drain_loop S (suc n) processed p) most
  unfolding drain_loop
  drain_loop-Ended n processed zero p es h l m le =
      let full : may_take S p.reverse_packets_per_iteration processed ≡ false = ground arith in
      rw (full, drain_loop)
        (now-Ended p p (some p) 0 0 refl (inl (refl, refl, refl)) (Drains-none p p.socket))
  drain_loop-Ended zero processed (suc most) p es h l m le = absurd (omega arith)
  drain_loop-Ended (suc n) processed (suc most) p es h l m le =
      let more : may_take S p.reverse_packets_per_iteration processed ≡ true = ground arith in
      let r = S.recv_from p.socket max_fec_packet_size 0 in
      let q : SenderPipeline S = record p { socket = r.1 } in
      elim (Received-cases r.0) [
        | inl quiet ↦
            rw (more, quiet, drain_loop)
              (now-Ended p q (some q) 0 (suc most) refl (inr (inl (quiet, refl, refl)))
                (Drains-none p r.1))
        | inr (inl broken) ↦
            rw (more, broken, drain_loop)
              (now-Ended p (count_error S q) (some (count_error S q)) 1 (suc most) refl
                (inr (inr (broken, refl, refl))) (Drains-error p r.1))
        | inr (inr (bytes, from, got)) ↦
            let (v, k) = handle_reverse-Handled S q es bytes from h in
            let u = handle_reverse S q bytes from in
            rw (more, got, drain_loop)
              (later-Ended p (drain_loop S (suc n) (suc processed) u) bytes from most got v (
                drain_loop-Ended n (suc processed) most u es k (rw v.1 l) (rw v.1 (omega arith))
                  (omega arith)))
      ]

  -- With a positive limit the call ends, whatever comes back: the loop tests its condition at most once
  -- more often than the limit says. After the old frames have left the cache it has taken the datagrams
  -- that the socket gave, one after another, at most as many as the limit, and it has ended for that
  -- number, since nothing was to be received, or for an error of the socket. Each datagram is counted
  -- once, as what it is: malformed, a PLI, which asks the encoder for a key frame, or a NACK, whose
  -- numbers are counted. Every number that was asked for has been answered by a packet, a miss or an
  -- error, and one error more stands for that of the socket. The numbering of the media packets and
  -- their count have not moved.
  pub drain_reverse_channel_lem :
      (p : SenderPipeline S) (c : RetransmitCache) (now_ms : ℕ)
      → p.cache ≡ some c
      → 0 < pos_part p.reverse_packets_per_iteration
      → Ended
          (record p { cache = some (evict_expired c now_ms) })
          (drain_reverse_channel S (suc (pos_part p.reverse_packets_per_iteration)) p now_ms)
          (pos_part p.reverse_packets_per_iteration)
  unfolding drain_reverse_channel
  drain_reverse_channel_lem p c now_ms e l =
      let d = evict_expired c now_ms in
      let limit = pos_part p.reverse_packets_per_iteration in
      let q : SenderPipeline S = record p { cache = some d } in
      rw (e, drain_reverse_channel)
        (drain_loop-Ended limit 0 limit q d.entries (d, refl, refl) l (omega arith) (omega arith))
