-- ===== src/Packet/Types.antt =====
-- modules/transport/Packet.h: the constants and the headers of the wire protocol, and
-- `seqNewerThan`. A header is the struct in memory; a field of w bits is a number that
-- `FitsPacketHeader` and its like bound by 2 ^ w. An enum class over uint8_t can hold any byte, so `packet_type` is a number.
use lowlat_stream.Base.{ℕ, ◌+◌, ◌-◌, ◌/◌, ◌^◌, ◌<◌, Bool, ltb, ◌&&◌, leb}
use lowlat_stream.Base.Words.{sub32}

abbrev pub protocol_version : ℕ
protocol_version = 1

-- `enum class PacketType : uint8_t`.
abbrev pub type_data : ℕ
type_data = 1

abbrev pub type_fec : ℕ
type_fec = 2

abbrev pub type_nack : ℕ
type_nack = 3

abbrev pub type_pli : ℕ
type_pli = 4

abbrev pub type_signal : ℕ
type_signal = 5

abbrev pub type_stats : ℕ
type_stats = 6

abbrev pub packet_header_size : ℕ
packet_header_size = 12

abbrev pub data_header_size : ℕ
data_header_size = 9

abbrev pub max_payload : ℕ
max_payload = 1200

abbrev pub max_data_packet_size : ℕ
max_data_packet_size = packet_header_size + data_header_size + max_payload

abbrev pub nack_header_size : ℕ
nack_header_size = 2

abbrev pub nack_entry_size : ℕ
nack_entry_size = 6

abbrev pub max_nack_entries : ℕ
max_nack_entries = (max_data_packet_size - packet_header_size - nack_header_size) / nack_entry_size

abbrev pub fec_header_size : ℕ
fec_header_size = 12

abbrev pub max_fec_packet_size : ℕ
max_fec_packet_size = packet_header_size + fec_header_size + max_payload

pub record PacketHeader : Type 0 where
  pub version : ℕ
  pub packet_type : ℕ
  pub stream_id : ℕ
  pub seq : ℕ
  pub timestamp_ms : ℕ

pub record DataHeader : Type 0 where
  pub frame_id : ℕ
  pub frag_index : ℕ
  pub frag_count : ℕ
  pub flags : ℕ

abbrev pub flag_keyframe : ℕ
flag_keyframe = 1

abbrev pub flag_retransmit : ℕ
flag_retransmit = 2

pub record FecHeader : Type 0 where
  pub group_base_seq : ℕ
  pub group_size : ℕ
  pub payload_len_xor : ℕ
  pub group_index : ℕ
  pub group_count : ℕ
  pub reserved : ℕ

-- The fields fit their C++ types.
pub record FitsPacketHeader (h : PacketHeader) : Type 0 where
  pub version_fits : h.version < 2 ^ 8
  pub packet_type_fits : h.packet_type < 2 ^ 8
  pub stream_id_fits : h.stream_id < 2 ^ 16
  pub seq_fits : h.seq < 2 ^ 32
  pub timestamp_ms_fits : h.timestamp_ms < 2 ^ 32

pub record FitsDataHeader (h : DataHeader) : Type 0 where
  pub frame_id_fits : h.frame_id < 2 ^ 32
  pub frag_index_fits : h.frag_index < 2 ^ 16
  pub frag_count_fits : h.frag_count < 2 ^ 16
  pub flags_fits : h.flags < 2 ^ 8

pub record FitsFecHeader (h : FecHeader) : Type 0 where
  pub group_base_seq_fits : h.group_base_seq < 2 ^ 32
  pub group_size_fits : h.group_size < 2 ^ 16
  pub payload_len_xor_fits : h.payload_len_xor < 2 ^ 16
  pub group_index_fits : h.group_index < 2 ^ 8
  pub group_count_fits : h.group_count < 2 ^ 8
  pub reserved_fits : h.reserved < 2 ^ 16

-- `static_cast<int32_t>(a - b) > 0`: the difference mod 2 ^ 32, read as a signed word.
unfoldable pub seq_newer_than : ℕ → ℕ → Bool
seq_newer_than a b = ltb 0 (sub32 a b) && ltb (sub32 a b) (2 ^ 31)

-- `isKnownPacketType`.
unfoldable pub is_known_packet_type : ℕ → Bool
is_known_packet_type t = leb type_data t && leb t type_stats
