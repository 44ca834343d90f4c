-- ===== src/ReceiverPipeline/Packets.antt =====
-- ReceiverPipeline.cpp: shouldInjectDrop(), trackPeer() and what recvLoop() does with one datagram.
use lowlat_stream.Base.{
  ℕ, suc, bit_and, Bool, true, false, not, ltb, ◌==◌, ◌||◌, if◌then◌else◌, Option, none, some, List,
  drop,
}
use lowlat_stream.Status.{ok, err}
use lowlat_stream.Net.{Endpoint, Socket, same_text}
use lowlat_stream.Packet.Types.{
  PacketHeader, packet_header_size, type_data, type_fec, flag_keyframe, flag_retransmit,
}
use lowlat_stream.Packet.Codec.{decode_packet_header, decode_data_header}
use lowlat_stream.LossInjector.{loss_injection_enabled, should_drop_packet}
use lowlat_stream.FrameAssembler.{offer}
use lowlat_stream.NackTracker.{on_packet}
use lowlat_stream.NackTracker as NackTracker
use lowlat_stream.Fec.Decoder.{on_data_packet, on_fec_packet}
use lowlat_stream.Fec.Decoder as Decoder
use lowlat_stream.JitterBuffer.{Estimator}
use lowlat_stream.ReceiverPipeline.{ReceiverPipeline, data_headers}
use lowlat_stream.ReceiverPipeline.Feedback.{observe_retransmit, request_retransmissions}

-- Whether the packet is a retransmission, or `none` for a DATA packet whose second header is broken.
abbrev pub retransmit_bit : PacketHeader → List ℕ → Option Bool
retransmit_bit h bytes =
    if h.packet_type == type_data
    then (elim (decode_data_header (some (drop packet_header_size bytes))) [
      | err _ ↦ none
      | ok d ↦ some (not (bit_and d.flags flag_retransmit == 0))
    ])
    else some false

module _ (S : Socket) (E : Estimator) where
  unfoldable pub should_inject_drop : ReceiverPipeline S E → List ℕ → Bool × ReceiverPipeline S E
  should_inject_drop r bytes =
      let s = r.stats in
      if not (loss_injection_enabled r.config.loss)
      then (false, r)
      else (elim (decode_packet_header (some bytes)) [
        | err _ ↦ (false, r)
        | ok h ↦ elim (retransmit_bit h bytes) [
          | none ↦ (false, r)
          | some is_retransmit ↦
              if not (should_drop_packet r.config.loss h.seq h.packet_type is_retransmit)
              then (false, r)
              else (true, record r { stats = record s { injected_drops = suc s.injected_drops } })
        ]
      ])

  -- A new peer starts the numbering anew.
  unfoldable pub track_peer : ReceiverPipeline S E → List ℕ → Endpoint → ReceiverPipeline S E
  track_peer r bytes from = elim (data_headers bytes) [
    | none ↦ r
    | some _ ↦
        if not (same_text r.peer.ip from.ip) || not (r.peer.port == from.port)
        then record r {
          nack_tracker = NackTracker.reset r.nack_tracker;
          fec_decoder = Decoder.reset r.fec_decoder;
          peer = from;
        }
        else record r { peer = from }
  ]

  unfoldable pub assemble : ReceiverPipeline S E → List ℕ → ReceiverPipeline S E
  assemble r bytes = record r { assembler = (offer r.assembler (some bytes)).0 }

  unfoldable pub take_data : ReceiverPipeline S E → List ℕ → Endpoint → ℕ → ReceiverPipeline S E
  take_data r bytes from now_ms =
      let tracked = track_peer r bytes from in
      let asked =
        request_retransmissions S E (observe_retransmit S E tracked bytes now_ms) bytes now_ms in
      elim (decode_data_header (some (drop packet_header_size bytes))) [
        | err _ ↦ assemble asked bytes
        | ok _ ↦
            assemble (record asked { fec_decoder = on_data_packet asked.fec_decoder (some bytes) })
              bytes
      ]

  -- The number of a packet that was put together again is no longer missing.
  unfoldable pub note_recovered : ReceiverPipeline S E → List ℕ → ReceiverPipeline S E
  note_recovered r recovered =
      if not (ltb 0 r.config.nack_window_packets)
      then r
      else (elim (decode_packet_header (some recovered)) [
        | err _ ↦ r
        | ok h ↦ elim (decode_data_header (some (drop packet_header_size recovered))) [
          | err _ ↦ r
          | ok d ↦ record r {
            nack_tracker =
                on_packet r.nack_tracker h.seq d.frag_count
                  (not (bit_and d.flags flag_keyframe == 0));
          }
        ]
      ])

  unfoldable pub take_fec : ReceiverPipeline S E → List ℕ → ReceiverPipeline S E
  take_fec r bytes =
      let (recovered, decoder) = on_fec_packet r.fec_decoder (some bytes) in
      let q = record r { fec_decoder = decoder } in
      elim recovered [ none ↦ q | some packet ↦ assemble (note_recovered q packet) packet ]

  -- A packet that the injector has let through.
  unfoldable pub take_packet : ReceiverPipeline S E → List ℕ → Endpoint → ℕ → ReceiverPipeline S E
  take_packet r bytes from now_ms = elim (decode_packet_header (some bytes)) [
    | err _ ↦ assemble r bytes
    | ok h ↦
        if h.packet_type == type_data
        then take_data r bytes from now_ms
        else (if h.packet_type == type_fec then take_fec r bytes else r)
  ]

  unfoldable pub take_datagram : ReceiverPipeline S E → List ℕ → Endpoint → ℕ → ReceiverPipeline S E
  take_datagram r bytes from now_ms =
      let (dropped, q) = should_inject_drop r bytes in
      if dropped then q else take_packet q bytes from now_ms
