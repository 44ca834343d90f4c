-- ===== src/Packetizer/Fragment.antt =====
-- What `packetizeOneFragment` produces: the two headers and one slice of the frame.
use lowlat_stream.Base.{
  ℕ, ◌+◌, ◌*◌, ◌-◌, ◌≤◌, ◌<◌, ◌≡◌, refl, Bool, List, ◌++◌, some, length, take, drop, min, take-min,
  length-drop, length-take, length-resize, resize, overlay_all, arith,
}
use lowlat_stream.Status.{ok}
use lowlat_stream.Packet.Types.{PacketHeader, DataHeader, max_payload, is_known_packet_type}
use lowlat_stream.Packet.Codec.{encode_packet_header, encode_data_header}
use lowlat_stream.Packet.HeaderRound.{
  packet_header_bytes, data_header_bytes, write_packet_header_lem, write_data_header_lem,
}
use lowlat_stream.Packetizer.{
  PacketBuffer, EncodedFrameView, packetize_one_fragment, fragment_packet_header,
  fragment_data_header,
}

-- A DATA packet on the wire.
abbrev pub data_packet : PacketHeader → DataHeader → List ℕ → PacketBuffer
data_packet h d payload = packet_header_bytes h ++ (data_header_bytes d ++ payload)

-- Fragment `i` of a frame: bytes 1200 i up to 1200 (i + 1), or to the end.
abbrev pub slice : List ℕ → ℕ → List ℕ
slice bytes i = take max_payload (drop (i * max_payload) bytes)

abbrev pub fragment : ℕ → ℕ → EncodedFrameView → List ℕ → ℕ → ℕ → Bool → PacketBuffer
fragment stream_id seq frame bytes i n is_retransmit =
    data_packet (fragment_packet_header stream_id seq frame)
      (fragment_data_header frame i n is_retransmit) (slice bytes i)

encode_packet_header_lem :
    (h : PacketHeader) (buf : List ℕ)
    → h.version ≡ 1
    → h.packet_type ≡ 1
    → 12 ≤ length buf
    → encode_packet_header h (some buf) ≡ ok (packet_header_bytes h ++ drop 12 buf)
unfolding encode_packet_header is_known_packet_type
encode_packet_header_lem h buf v t le = ground (arith, write_packet_header_lem h buf)

encode_data_header_lem :
    (h : DataHeader) (buf : List ℕ)
    → h.frag_index < h.frag_count
    → 9 ≤ length buf
    → encode_data_header h (some buf) ≡ ok (data_header_bytes h ++ drop 9 buf)
unfolding encode_data_header
encode_data_header_lem h buf v le = ground (arith, write_data_header_lem h buf)

pub packetize_one_fragment_lem :
    (stream_id seq : ℕ) (frame : EncodedFrameView) (bytes : List ℕ) (i n : ℕ) (rt : Bool)
    (out : PacketBuffer)
    → frame.bytes ≡ some bytes
    → i < n
    → i * max_payload < length bytes
    → packetize_one_fragment stream_id seq frame i n rt out
      ≡ ok (fragment stream_id seq frame bytes i n rt)
unfolding packetize_one_fragment
packetize_one_fragment_lem stream_id seq frame bytes i n rt out e lt inside =
    let len = min max_payload (length bytes - i * max_payload) in
    let buf = resize (21 + len) 0 out in
    ground (
      arith,
      encode_packet_header_lem (fragment_packet_header stream_id seq frame) buf refl refl,
      encode_data_header_lem (fragment_data_header frame i n rt) (drop 12 buf),
      length-resize (21 + len) 0 out,
      length-drop 12 buf,
      length-drop 9 (drop 12 buf),
      length-take len (drop (i * max_payload) bytes),
      length-drop (i * max_payload) bytes,
      overlay_all (drop 9 (drop 12 buf)) (take len (drop (i * max_payload) bytes)),
      take-min max_payload (drop (i * max_payload) bytes),
    )
