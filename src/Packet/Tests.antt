-- ===== src/Packet/Tests.antt =====
-- Instances of the theorems on the headers, and runs on concrete packets.
use lowlat_stream.Base.{
  ℕ, ◌≡◌, refl, ◌⊎◌, true, false, List, [], ◌∷◌, some, length, drop, replicate, arith, ◌^◌,
}
use lowlat_stream.Base.Words.{add32, sub32}
use lowlat_stream.Status.{ok, err, invalid_arg, net_error}
use lowlat_stream.Packet.Types.{
  PacketHeader, DataHeader, FecHeader, is_known_packet_type, seq_newer_than,
}
use lowlat_stream.Packet.Codec.{encode_packet_header, decode_packet_header, decode_data_header}
use lowlat_stream.Packet.HeaderRound.{packet_header_round}
use lowlat_stream.Packet.Seq.{seq_newer_than_order}

abbrev wire_header : PacketHeader
wire_header = record {
  version = 1;
  packet_type = 2;
  stream_id = 7;
  seq = 0xdead_beef;
  timestamp_ms = 99;
}

abbrev wire_data : DataHeader
wire_data = record { frame_id = 0x0102_0304; frag_index = 3; frag_count = 5; flags = 1 }

abbrev wire_fec : FecHeader
wire_fec = record {
  group_base_seq = 0xffff_fffe;
  group_size = 4;
  payload_len_xor = 1200;
  group_index = 0;
  group_count = 2;
  reserved = 0;
}

abbrev zeros : List ℕ
zeros = replicate 14 0

abbrev header_out : List ℕ
header_out = 1 ∷ 2 ∷ 0 ∷ 7 ∷ 0xde ∷ 0xad ∷ 0xbe ∷ 0xef ∷ 0 ∷ 0 ∷ 0 ∷ 99 ∷ 0 ∷ 0 ∷ []

abbrev data_out : List ℕ
data_out = 1 ∷ 2 ∷ 3 ∷ 4 ∷ 0 ∷ 3 ∷ 0 ∷ 5 ∷ 1 ∷ 0 ∷ 0 ∷ 0 ∷ 0 ∷ 0 ∷ []

abbrev fec_out : List ℕ
fec_out = 255 ∷ 255 ∷ 255 ∷ 254 ∷ 0 ∷ 4 ∷ 4 ∷ 176 ∷ 0 ∷ 2 ∷ 0 ∷ 0 ∷ 0 ∷ 0 ∷ []

abbrev last_seq : ℕ
last_seq = 0xffff_ffff

abbrev first_seq : ℕ
first_seq = 1

packet_header_round_example :
    (decode_packet_header (some header_out) ≡ ok wire_header)
    × (drop 12 header_out ≡ drop 12 zeros)
    × (length header_out ≡ length zeros)
unfolding encode_packet_header is_known_packet_type
packet_header_round_example = packet_header_round wire_header zeros header_out (omega arith) refl

seq_newer_than_order_example :
    (seq_newer_than (add32 last_seq 2) last_seq ≡ true)
    × (seq_newer_than last_seq (add32 last_seq 2) ≡ false)
    × ((last_seq ≡ first_seq)
        ⊎ (sub32 last_seq first_seq ≡ 2 ^ 31)
        ⊎ (seq_newer_than last_seq first_seq ≡ true)
        ⊎ (seq_newer_than first_seq last_seq ≡ true))
seq_newer_than_order_example =
    seq_newer_than_order last_seq first_seq 2 (omega arith) (omega arith) (omega arith)
      (omega arith)

unknown_version : decode_packet_header (some (2 ∷ replicate 11 1)) ≡ err net_error
unfolding decode_packet_header
unknown_version = refl

index_out_of_range :
    decode_data_header (some (0 ∷ 0 ∷ 0 ∷ 0 ∷ 0 ∷ 5 ∷ 0 ∷ 5 ∷ 0 ∷ [])) ≡ err net_error
unfolding decode_data_header
index_out_of_range = refl

short_buffer : encode_packet_header wire_header (some (replicate 11 0)) ≡ err invalid_arg
unfolding encode_packet_header
short_buffer = refl
