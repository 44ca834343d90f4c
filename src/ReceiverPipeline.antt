-- ===== src/ReceiverPipeline.antt =====
-- app/receiver/ReceiverPipeline.h and ReceiverPipeline.cpp: the receiving thread. This file holds what
-- the thread keeps; Feedback the packets that it sends back, Packets what a packet does, Frames the
-- way of the frames to the decoder. The socket and the estimator of the delay are parameters. The clock
-- does not move while one packet is handled. The H.264 dump is off, and a renderer is there.
pub mod Feedback
pub mod Packets
pub mod Frames
pub mod Rate
pub mod Requests
pub mod Rtt
pub mod Resync
pub mod Handover
pub mod Loop
pub mod Silence
pub mod Tail
pub mod Decode
pub mod Pictures
pub mod Tests
use lowlat_stream.Base.{
  ℕ, suc, ◌+◌, Bool, true, false, ◌==◌, if◌then◌else◌, Option, none, some, List, length, drop,
}
use lowlat_stream.Base.Int.{ℤ}
use lowlat_stream.Status.{ok, err}
use lowlat_stream.Net.{Endpoint, Socket}
use lowlat_stream.Packet.Types.{PacketHeader, DataHeader, packet_header_size, type_data}
use lowlat_stream.Packet.Codec.{decode_packet_header, decode_data_header}
use lowlat_stream.Packetizer.{PacketBuffer}
use lowlat_stream.FrameAssembler.{FrameAssembler, AssembledFrame}
use lowlat_stream.NackTracker.{NackTracker}
use lowlat_stream.Fec.Decoder.{FecDecoder}
use lowlat_stream.JitterBuffer.{Estimator, JitterBuffer}
use lowlat_stream.LossInjector.{LossConfig}
use lowlat_stream.BoundedQueue.{BoundedQueue}

pub record ReceiverPipelineConfig : Type 0 where
  pub loss : LossConfig
  pub nack_window_packets : ℕ
  pub pli_min_interval_ms : ℤ
  pub max_frames : ℤ
  pub idle_timeout_ms : ℤ
  pub recv_timeout_ms : ℤ

-- The counters of the receiving thread.
pub record ReceiverPipelineStats : Type 0 where
  pub frames_written : ℕ
  pub bytes_written : ℕ
  pub key_frames : ℕ
  pub recv_errors : ℕ
  pub decode_queue_rejected : ℕ
  pub decode_resyncs : ℕ
  pub injected_drops : ℕ
  pub nack_packets_sent : ℕ
  pub nack_send_errors : ℕ
  pub pli_sent : ℕ
  pub pli_suppressed : ℕ
  pub rtt_samples : ℕ
  pub rtt_pending : ℕ

module _ (S : Socket) (E : Estimator) where
  -- `nack_sent_at_ms` is the map in the order of its keys.
  pub record ReceiverPipeline : Type 0 where
    pub config : ReceiverPipelineConfig
    pub socket : S.State
    pub assembler : FrameAssembler
    pub jitter : JitterBuffer E
    pub queue_a : BoundedQueue AssembledFrame
    pub peer : Endpoint
    pub nack_tracker : NackTracker
    pub fec_decoder : FecDecoder
    pub nack_buf : List ℕ
    pub nack_seq : ℕ
    pub last_pli_ms : ℕ
    pub seen_key_frames_given_up : ℕ
    pub nack_sent_at_ms : List (ℕ × ℕ)
    pub recent_rtts : List ℤ
    pub rtt_ms : ℤ
    pub stats : ReceiverPipelineStats

-- Both headers of a valid DATA packet, which three of the handlers ask for.
abbrev pub data_headers : List ℕ → Option (PacketHeader × DataHeader)
data_headers bytes = elim (decode_packet_header (some bytes)) [
  | err _ ↦ none
  | ok h ↦
      if h.packet_type == type_data
      then (elim (decode_data_header (some (drop packet_header_size bytes))) [
        | err _ ↦ none
        | ok d ↦ some (h, d)
      ])
      else none
]
