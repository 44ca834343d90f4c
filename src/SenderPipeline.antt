-- ===== src/SenderPipeline.antt =====
-- app/sender/SenderPipeline.h and SenderPipeline.cpp: the sending thread, that is what becomes of an
-- encoded frame and of the packets that come back. The socket is a parameter; the times that the code
-- reads from the clock are arguments. Of the encoder only the requests for a key frame are counted.
pub mod Config
pub mod Handled
pub mod Reverse
pub mod Resend
pub mod Tests
use lowlat_stream.Base.{
  ℕ, zero, suc, ◌+◌, ◌%◌, ◌^◌, Bool, true, false, not, ltb, ◌==◌, ◌||◌, if◌then◌else◌, Option, none,
  some, List, [], ◌∷◌, length,
}
use lowlat_stream.Base.Int.{ℤ, pos, ltb_ℤ, eq_ℤ}
use lowlat_stream.Status.{Result, ok, err}
use lowlat_stream.Net.{Endpoint, Socket, Received, timed_out, failed, datagram}
use lowlat_stream.Packet.Types.{packet_header_size, max_fec_packet_size, type_pli, type_nack}
use lowlat_stream.Packet.Codec.{decode_packet_header}
use lowlat_stream.Packet.Nack.{decode_nack_packet}
use lowlat_stream.Packetizer.{
  PacketBuffer, EncodedFrameView, Packetizer, packetize, packetize_one_fragment,
}
use lowlat_stream.RetransmitCache.{RetransmitCache, Found, find, evict_expired}
use lowlat_stream.RetransmitCache as RetransmitCache
use lowlat_stream.Fec.Encoder.{FecEncoder, build_for_frame}

pub record EncodedFrame : Type 0 where
  pub bytes : List ℕ
  pub capture_ms : ℕ
  pub frame_id : ℕ
  pub is_key : Bool

pub record SenderPipelineStats : Type 0 where
  pub packets_sent : ℕ
  pub send_errors : ℕ
  pub nacks_received : ℕ
  pub nacked_seqs : ℕ
  pub packets_retransmitted : ℕ
  pub retransmit_misses : ℕ
  pub reverse_malformed : ℕ
  pub plis_received : ℕ

-- `EncodedFrameView view`, filled from the frame.
abbrev pub frame_view : EncodedFrame → EncodedFrameView
frame_view f = record {
  bytes = some f.bytes;
  frame_id = f.frame_id;
  capture_ms = f.capture_ms;
  is_key = f.is_key;
}

module _ (S : Socket) where
  -- `cache` and `fec` are there if the configuration asks for them. `key_frames_requested` counts the
  -- calls of Encoder::requestKeyFrame.
  pub record SenderPipeline : Type 0 where
    pub target : Endpoint
    pub reverse_packets_per_iteration : ℤ
    pub packetizer : Packetizer
    pub packets : List PacketBuffer
    pub cache : Option RetransmitCache
    pub fec : Option FecEncoder
    pub fec_packets : List PacketBuffer
    pub retransmit_buf : PacketBuffer
    pub socket : S.State
    pub stats : SenderPipelineStats
    pub key_frames_requested : ℕ

  abbrev pub count_error : SenderPipeline → SenderPipeline
  count_error p =
      let s = p.stats in record p { stats = record s { send_errors = suc s.send_errors } }

  unfoldable pub send_media : SenderPipeline → List PacketBuffer → SenderPipeline
  send_media p [] = p
  send_media p (packet ∷ packets) =
      let (is_ok, socket) = S.send_to p.socket p.target packet in
      let q = record p { socket = socket } in
      let s = q.stats in
      send_media
        (if is_ok
          then record q { stats = record s { packets_sent = suc s.packets_sent } }
          else count_error q)
        packets

  unfoldable pub send_fec : SenderPipeline → List PacketBuffer → SenderPipeline
  send_fec p [] = p
  send_fec p (packet ∷ packets) =
      let (is_ok, socket) = S.send_to p.socket p.target packet in
      let q = record p { socket = socket } in send_fec (if is_ok then q else count_error q) packets

  unfoldable pub protect : SenderPipeline → EncodedFrame → ℕ → SenderPipeline × Result (Unit {0})
  protect p frame base_seq = elim p.fec [
    | none ↦ (p, ok tt)
    | some e ↦
        let (e', out, status) =
          build_for_frame e p.packets base_seq p.packetizer.stream_id (frame.capture_ms % 2 ^ 32) in
        let q = record p { fec = some e'; fec_packets = out } in
        elim status [ err c ↦ (q, err c) | ok _ ↦ (send_fec q out, ok tt) ]
  ]

  unfoldable pub remember : SenderPipeline → EncodedFrame → ℕ → ℕ → SenderPipeline
  remember p frame base_seq now_ms = elim p.cache [
    | none ↦ p
    | some c ↦ record p {
      cache = some (
          RetransmitCache.store c (frame_view frame) frame.bytes base_seq
            (length p.packets % 2 ^ 16) now_ms);
    }
  ]

  -- One frame from the queue, up to the call of drainReverseChannel(); an error ends the loop.
  unfoldable pub send_frame : SenderPipeline → EncodedFrame → ℕ → SenderPipeline × Result (Unit {0})
  send_frame p frame now_ms =
      let base_seq = p.packetizer.next_seq in
      elim (packetize p.packetizer (frame_view frame) p.packets) [
        | err c ↦ (p, err c)
        | ok (packets, packetizer) ↦
            let sent =
              send_media (record p { packets = packets; packetizer = packetizer }) packets in
            let (protected, status) = protect sent frame base_seq in
            elim status [
              | err c ↦ (protected, err c)
              | ok _ ↦ (remember protected frame base_seq now_ms, ok tt)
            ]
      ]

  -- The fragment that was found is encoded again and goes back to where the request came from.
  unfoldable pub send_again : SenderPipeline → Endpoint → ℕ → Found → SenderPipeline
  send_again p from seq f =
      elim (packetize_one_fragment p.packetizer.stream_id seq f.view f.frag_index f.frag_count true
        p.retransmit_buf) [
          | err _ ↦ count_error p
          | ok packet ↦
              let (is_ok, socket) = S.send_to p.socket from packet in
              let q = record p { retransmit_buf = packet; socket = socket } in
              let s = q.stats in
              if is_ok
              then record q {
                stats = record s { packets_retransmitted = suc s.packets_retransmitted };
              }
              else count_error q
        ]

  unfoldable pub retransmit_one : SenderPipeline → Endpoint → ℕ → SenderPipeline
  retransmit_one p from seq = elim p.cache [
    | none ↦ p
    | some c ↦
        let (found, c') = find c seq in
        let q = record p { cache = some c' } in
        let s = q.stats in
        elim found [
          | none ↦ record q { stats = record s { retransmit_misses = suc s.retransmit_misses } }
          | some f ↦ send_again q from seq f
        ]
  ]

  unfoldable pub retransmit_all : SenderPipeline → Endpoint → List ℕ → SenderPipeline
  retransmit_all p from [] = p
  retransmit_all p from (seq ∷ seqs) = retransmit_all (retransmit_one p from seq) from seqs

  abbrev pub malformed : SenderPipeline → SenderPipeline
  malformed p =
      let s = p.stats in
      record p { stats = record s { reverse_malformed = suc s.reverse_malformed } }

  unfoldable pub take_pli : SenderPipeline → SenderPipeline
  take_pli p =
      let s = p.stats in
      record p {
        stats = record s { plis_received = suc s.plis_received };
        key_frames_requested = suc p.key_frames_requested;
      }

  unfoldable pub take_nack : SenderPipeline → Endpoint → List ℕ → SenderPipeline
  take_nack p from seqs =
      let s = p.stats in
      let counted = record p {
        stats = record s {
          nacks_received = suc s.nacks_received;
          nacked_seqs = s.nacked_seqs + length seqs;
        };
      } in
      retransmit_all counted from seqs

  -- One packet that came back.
  unfoldable pub handle_reverse : SenderPipeline → List ℕ → Endpoint → SenderPipeline
  handle_reverse p bytes from = elim (decode_packet_header (some bytes)) [
    | err _ ↦ malformed p
    | ok h ↦
        if h.packet_type == type_pli
        then (if not (length bytes == packet_header_size) then malformed p else take_pli p)
        else (if not (h.packet_type == type_nack)
            then malformed p
            else elim (decode_nack_packet (some bytes)) [
              | err _ ↦ malformed p
              | ok seqs ↦ take_nack p from seqs
            ])
  ]

  -- `config_.reversePacketsPerIteration == 0 || packetsProcessed < config_.reversePacketsPerIteration`.
  abbrev pub may_take : ℤ → ℕ → Bool
  may_take limit processed = eq_ℤ limit (pos 0) || ltb_ℤ (pos processed) limit

  -- The loop of drainReverseChannel(), or `none` if it tests its condition more than `fuel` times.
  unfoldable pub drain_loop : ℕ → ℕ → SenderPipeline → Option SenderPipeline
  drain_loop zero processed p = none
  drain_loop (suc fuel) processed p = elim (may_take p.reverse_packets_per_iteration processed) [
    | false ↦ some p
    | true ↦
        let (received, socket) = S.recv_from p.socket max_fec_packet_size 0 in
        let q = record p { socket = socket } in
        elim received [
          | timed_out ↦ some q
          | failed ↦ some (count_error q)
          | datagram bytes from ↦ drain_loop fuel (suc processed) (handle_reverse q bytes from)
        ]
  ]

  unfoldable pub drain_reverse_channel : ℕ → SenderPipeline → ℕ → Option SenderPipeline
  drain_reverse_channel fuel p now_ms = elim p.cache [
    | none ↦ some p
    | some c ↦ drain_loop fuel 0 (record p { cache = some (evict_expired c now_ms) })
  ]
