-- ===== src/Packet/Codec.antt =====
-- modules/transport/Packet.cpp: the encoders and decoders of the three fixed-size headers. A buffer
-- is `none` for a null pointer, and `some` with the bytes that may be accessed; its length is
-- `bufLen`. An encoder returns the buffer as it leaves it.
use lowlat_stream.Base.{
  ℕ, not, ltb, leb, ◌==◌, Option, none, some, List, [], ◌∷◌, length, get_or, write,
}
use lowlat_stream.Base.Words.{be16, be32, of_be16, of_be32}
use lowlat_stream.Status.{Result, ok, err, invalid_arg, net_error, ◌>>◌, require}
use lowlat_stream.Packet.Types.{
  PacketHeader, DataHeader, FecHeader, packet_header_size, data_header_size, fec_header_size,
  protocol_version, is_known_packet_type,
}

abbrev pub Buffer : Type 0
Buffer = Option (List ℕ)

-- `buf[i]`, and the words that `memcpy` and `ntohs` or `ntohl` read at `buf + i`.
abbrev pub byte_at : List ℕ → ℕ → ℕ
byte_at buf i = get_or buf i 0

abbrev pub read16 : List ℕ → ℕ → ℕ → ℕ
read16 buf i j = of_be16 (byte_at buf i) (byte_at buf j)

abbrev pub read32 : List ℕ → ℕ → ℕ → ℕ → ℕ → ℕ
read32 buf i j k l = of_be32 (byte_at buf i) (byte_at buf j) (byte_at buf k) (byte_at buf l)

-- The encoders' writes, once the checks have passed.
abbrev pub write_packet_header : PacketHeader → List ℕ → List ℕ
write_packet_header h buf =
    let b0 = write buf 0 (h.version ∷ []) in
    let b1 = write b0 1 (h.packet_type ∷ []) in
    let b2 = write b1 2 (be16 h.stream_id) in
    let b4 = write b2 4 (be32 h.seq) in write b4 8 (be32 h.timestamp_ms)

unfoldable pub encode_packet_header : PacketHeader → Buffer → Result (List ℕ)
encode_packet_header h none = err invalid_arg
encode_packet_header h (some buf) = do
  require (not (ltb (length buf) packet_header_size)) invalid_arg
  require (h.version == protocol_version) invalid_arg
  require (is_known_packet_type h.packet_type) invalid_arg
  ok (write_packet_header h buf)

unfoldable pub decode_packet_header : Buffer → Result PacketHeader
decode_packet_header none = err invalid_arg
decode_packet_header (some buf) = do
  require (not (ltb (length buf) packet_header_size)) invalid_arg
  require (byte_at buf 0 == protocol_version) net_error
  require (is_known_packet_type (byte_at buf 1)) net_error
  ok (record {
    version = byte_at buf 0;
    packet_type = byte_at buf 1;
    stream_id = read16 buf 2 3;
    seq = read32 buf 4 5 6 7;
    timestamp_ms = read32 buf 8 9 10 11;
  })

abbrev pub write_data_header : DataHeader → List ℕ → List ℕ
write_data_header h buf =
    let b0 = write buf 0 (be32 h.frame_id) in
    let b4 = write b0 4 (be16 h.frag_index) in
    let b6 = write b4 6 (be16 h.frag_count) in write b6 8 (h.flags ∷ [])

unfoldable pub encode_data_header : DataHeader → Buffer → Result (List ℕ)
encode_data_header h none = err invalid_arg
encode_data_header h (some buf) = do
  require (not (ltb (length buf) data_header_size)) invalid_arg
  require (not (h.frag_count == 0)) invalid_arg
  require (not (leb h.frag_count h.frag_index)) invalid_arg
  ok (write_data_header h buf)

unfoldable pub decode_data_header : Buffer → Result DataHeader
decode_data_header none = err invalid_arg
decode_data_header (some buf) = do
  require (not (ltb (length buf) data_header_size)) invalid_arg
  require (not (read16 buf 6 7 == 0)) net_error
  require (not (leb (read16 buf 6 7) (read16 buf 4 5))) net_error
  ok (record {
    frame_id = read32 buf 0 1 2 3;
    frag_index = read16 buf 4 5;
    frag_count = read16 buf 6 7;
    flags = byte_at buf 8;
  })

abbrev pub write_fec_header : FecHeader → List ℕ → List ℕ
write_fec_header h buf =
    let b0 = write buf 0 (be32 h.group_base_seq) in
    let b4 = write b0 4 (be16 h.group_size) in
    let b6 = write b4 6 (be16 h.payload_len_xor) in
    let b8 = write b6 8 (h.group_index ∷ []) in
    let b9 = write b8 9 (h.group_count ∷ []) in write b9 10 (be16 h.reserved)

unfoldable pub encode_fec_header : FecHeader → Buffer → Result (List ℕ)
encode_fec_header h none = err invalid_arg
encode_fec_header h (some buf) = do
  require (not (ltb (length buf) fec_header_size)) invalid_arg
  require (not (ltb h.group_size 2)) invalid_arg
  ok (write_fec_header h buf)

unfoldable pub decode_fec_header : Buffer → Result FecHeader
decode_fec_header none = err invalid_arg
decode_fec_header (some buf) = do
  require (not (ltb (length buf) fec_header_size)) invalid_arg
  require (not (ltb (read16 buf 4 5) 2)) net_error
  ok (record {
    group_base_seq = read32 buf 0 1 2 3;
    group_size = read16 buf 4 5;
    payload_len_xor = read16 buf 6 7;
    group_index = byte_at buf 8;
    group_count = byte_at buf 9;
    reserved = read16 buf 10 11;
  })
