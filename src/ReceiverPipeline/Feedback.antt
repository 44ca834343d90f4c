-- ===== src/ReceiverPipeline/Feedback.antt =====
-- ReceiverPipeline.cpp: requestKeyFrame(), recordNackSent(), observeRetransmit() and
-- requestRetransmissions().
use lowlat_stream.Base.{
  ℕ, zero, suc, ◌-◌, ◌/◌, ◌%◌, ◌^◌, min, bit_and, Bool, true, false, not, ltb, ◌==◌, ◌&&◌, ◌||◌,
  if◌then◌else◌, none, some, List, [], ◌∷◌, ◌++◌, length, take, drop, resize,
}
use lowlat_stream.Base.Int.{pos, pos_part, ltb_ℤ}
use lowlat_stream.Base.Words.{add32, sub32}
use lowlat_stream.Base.Maps.{lookup, remove}
use lowlat_stream.Status.{ok, err}
use lowlat_stream.Net.{Socket}
use lowlat_stream.Packet.Types.{
  PacketHeader, protocol_version, packet_header_size, max_data_packet_size, max_nack_entries,
  type_pli, type_nack, flag_keyframe, flag_retransmit,
}
use lowlat_stream.Packet.Codec.{encode_packet_header}
use lowlat_stream.Packet.Nack.{encode_nack_packet}
use lowlat_stream.NackTracker.{on_packet, collect_nack_targets}
use lowlat_stream.DelayEstimator.{nth_element}
use lowlat_stream.JitterBuffer.{Estimator}
use lowlat_stream.JitterBuffer as JitterBuffer
use lowlat_stream.ReceiverPipeline.{ReceiverPipeline, data_headers}

abbrev pub rtt_pending_max : ℕ
rtt_pending_max = 256

abbrev pub rtt_window : ℕ
rtt_window = 21

-- `map::emplace`: a key that is there keeps its value.
unfoldable pub emplace_sent : ℕ → ℕ → List (ℕ × ℕ) → List (ℕ × ℕ)
emplace_sent seq now_ms [] = (seq, now_ms) ∷ []
emplace_sent seq now_ms ((k, t) ∷ m) =
    let rest = emplace_sent seq now_ms m in
    if ltb seq k
    then (seq, now_ms) ∷ (k, t) ∷ m
    else (if seq == k then (k, t) ∷ m else (k, t) ∷ rest)

unfoldable pub emplace_all : List ℕ → ℕ → List (ℕ × ℕ) → List (ℕ × ℕ)
emplace_all [] now_ms m = m
emplace_all (seq ∷ seqs) now_ms m = emplace_all seqs now_ms (emplace_sent seq now_ms m)

-- The loop that erases the first entry while there are too many.
unfoldable pub trim_sent : List (ℕ × ℕ) → List (ℕ × ℕ)
trim_sent [] = []
trim_sent (e ∷ m) =
    let rest = trim_sent m in if ltb rtt_pending_max (length (e ∷ m)) then rest else e ∷ m

-- The numbers that fit into a packet with `k` more entries, while the entry `pid` is open.
unfoldable pub fit_from : ℕ → ℕ → List ℕ → List ℕ
fit_from k pid [] = []
fit_from zero pid (t ∷ ts) =
    let rest = fit_from zero pid ts in if ltb (sub32 t pid) 17 then t ∷ rest else []
fit_from (suc k) pid (t ∷ ts) =
    let same = fit_from (suc k) pid ts in
    let other = fit_from k t ts in if ltb (sub32 t pid) 17 then t ∷ same else t ∷ other

-- `nackTargets_` cut to what one packet can hold.
unfoldable pub fit_targets : List ℕ → List ℕ
fit_targets [] = []
fit_targets (t ∷ ts) = t ∷ fit_from (max_nack_entries - 1) t ts

-- `if (buf.size() < size) buf.resize(MAX_DATA_PACKET_SIZE)`.
abbrev pub ensure : ℕ → List ℕ → List ℕ
ensure size buf = if ltb (length buf) size then resize max_data_packet_size 0 buf else buf

abbrev pub feedback_header : ℕ → ℕ → ℕ → PacketHeader
feedback_header packet_type seq now_ms = record {
  version = protocol_version;
  packet_type = packet_type;
  stream_id = 0;
  seq = seq;
  timestamp_ms = now_ms % 2 ^ 32;
}

module _ (S : Socket) (E : Estimator) where
  abbrev pub send_failed : ReceiverPipeline S E → ReceiverPipeline S E
  send_failed r =
      let s = r.stats in record r { stats = record s { nack_send_errors = suc s.nack_send_errors } }

  -- From the header on; the caller has made sure that the request may go out.
  unfoldable pub send_pli : ReceiverPipeline S E → ℕ → Bool × ReceiverPipeline S E
  send_pli r now_ms =
      let buf = ensure packet_header_size r.nack_buf in
      let q = record r { nack_seq = add32 r.nack_seq 1; nack_buf = buf } in
      elim (encode_packet_header (feedback_header type_pli r.nack_seq now_ms) (some buf)) [
        | err _ ↦ (false, send_failed q)
        | ok encoded ↦
            let (is_ok, socket) = S.send_to r.socket r.peer (take packet_header_size encoded) in
            let sent = record q { nack_buf = encoded; socket = socket } in
            let s = sent.stats in
            if not is_ok then (false, send_failed sent) else (
              true,
              record sent { last_pli_ms = now_ms; stats = record s { pli_sent = suc s.pli_sent } },
            )
      ]

  unfoldable pub request_key_frame : ReceiverPipeline S E → ℕ → Bool × ReceiverPipeline S E
  request_key_frame r now_ms =
      let s = r.stats in
      if not (ltb_ℤ (pos 0) r.config.pli_min_interval_ms) || r.peer.port == 0
      then (false, r)
      else (if not (r.last_pli_ms == 0)
            && (ltb now_ms r.last_pli_ms
                || ltb (now_ms - r.last_pli_ms) (pos_part r.config.pli_min_interval_ms))
          then (false, record r { stats = record s { pli_suppressed = suc s.pli_suppressed } })
          else send_pli r now_ms)

  unfoldable pub record_nack_sent : ReceiverPipeline S E → List ℕ → ℕ → ReceiverPipeline S E
  record_nack_sent r seqs now_ms =
      let kept = trim_sent (emplace_all seqs now_ms r.nack_sent_at_ms) in
      let s = r.stats in
      record r { nack_sent_at_ms = kept; stats = record s { rtt_pending = length kept } }

  -- A round trip has been measured: the median of the last ones goes to the jitter buffer.
  unfoldable pub take_rtt : ReceiverPipeline S E → ℕ → ℕ → ReceiverPipeline S E
  take_rtt r seq elapsed =
      let rtt = pos (min elapsed (2 ^ 31 - 1)) in
      let pending = remove seq r.nack_sent_at_ms in
      let pushed = r.recent_rtts ++ (rtt ∷ []) in
      let kept = if ltb rtt_window (length pushed) then drop 1 pushed else pushed in
      let median = nth_element kept (length kept / 2) in
      let s = r.stats in
      record r {
        nack_sent_at_ms = pending;
        recent_rtts = kept;
        rtt_ms = median;
        jitter = JitterBuffer.set_rtt_ms E r.jitter median;
        stats = record s { rtt_pending = length pending; rtt_samples = suc s.rtt_samples };
      }

  unfoldable pub observe_retransmit : ReceiverPipeline S E → List ℕ → ℕ → ReceiverPipeline S E
  observe_retransmit r bytes now_ms = elim (data_headers bytes) [
    | none ↦ r
    | some (h, d) ↦
        if bit_and d.flags flag_retransmit == 0 then r else (elim (lookup h.seq r.nack_sent_at_ms) [
          | none ↦ r
          | some sent ↦ if ltb now_ms sent then r else take_rtt r h.seq (now_ms - sent)
        ])
  ]

  unfoldable pub send_nack : ReceiverPipeline S E → List ℕ → ℕ → ReceiverPipeline S E
  send_nack r targets now_ms =
      let asked = fit_targets targets in
      let buf = ensure 1 r.nack_buf in
      let q = record r { nack_seq = add32 r.nack_seq 1; nack_buf = buf } in
      elim (encode_nack_packet (feedback_header type_nack r.nack_seq now_ms) asked (some buf)) [
        | err _ ↦ send_failed q
        | ok (encoded, len) ↦
            let (is_ok, socket) = S.send_to r.socket r.peer (take len encoded) in
            let sent = record q { nack_buf = encoded; socket = socket } in
            let s = sent.stats in
            if is_ok
            then record_nack_sent
                (record sent { stats = record s { nack_packets_sent = suc s.nack_packets_sent } })
                asked now_ms
            else send_failed sent
      ]

  -- From collectNackTargets() on: a lost key frame asks for a new one.
  unfoldable pub ask : ReceiverPipeline S E → ℕ → ReceiverPipeline S E
  ask r now_ms =
      let (targets, tracker) = collect_nack_targets r.nack_tracker in
      let q = record r { nack_tracker = tracker } in
      let given = tracker.stats.key_frames_given_up in
      let after =
        if ltb r.seen_key_frames_given_up given
        then (request_key_frame (record q { seen_key_frames_given_up = given }) now_ms).1
        else q in
      if length targets == 0 || after.peer.port == 0 then after else send_nack after targets now_ms

  unfoldable pub request_retransmissions : ReceiverPipeline S E → List ℕ → ℕ → ReceiverPipeline S E
  request_retransmissions r bytes now_ms =
      if r.config.nack_window_packets == 0 then r else (elim (data_headers bytes) [
        | none ↦ r
        | some (h, d) ↦
            let is_key = not (bit_and d.flags flag_keyframe == 0) in
            ask (record r { nack_tracker = on_packet r.nack_tracker h.seq d.frag_count is_key })
              now_ms
      ])
