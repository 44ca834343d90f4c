-- ===== src/Packetizer.antt =====
-- modules/transport/Packetizer.h and Packetizer.cpp: a frame is cut into DATA packets, and one
-- fragment can be encoded again for a retransmission.
pub mod Fragment
pub mod Packets
mod Tests
use lowlat_stream.Base.{
  ℕ, zero, suc, ◌+◌, ◌-◌, ◌*◌, ◌/◌, ◌%◌, ◌^◌, min, bit_or, Bool, true, false, not, ltb, leb, ◌==◌,
  if◌then◌else◌, Option, none, some, List, [], ◌∷◌, ◌++◌, length, take, drop, write, resize,
}
use lowlat_stream.Base.Words.{add32}
use lowlat_stream.Status.{Result, ok, err, invalid_arg, internal, ◌>>=◌, ◌>>◌, require, or_else}
use lowlat_stream.Packet.Types.{
  PacketHeader, DataHeader, protocol_version, type_data, flag_keyframe, flag_retransmit,
  packet_header_size, data_header_size, max_payload,
}
use lowlat_stream.Packet.Codec.{Buffer, encode_packet_header, encode_data_header}

abbrev pub PacketBuffer : Type 0
PacketBuffer = List ℕ

-- `data` and `len` are one value, `none` for a null pointer.
pub record EncodedFrameView : Type 0 where
  pub bytes : Buffer
  pub frame_id : ℕ
  pub capture_ms : ℕ
  pub is_key : Bool

-- `frame.data == nullptr || frame.len == 0` is refused.
abbrev pub frame_bytes : EncodedFrameView → Result (List ℕ)
frame_bytes f = elim f.bytes [
  | none ↦ err invalid_arg
  | some bs ↦ if length bs == 0 then err invalid_arg else ok bs
]

abbrev pub fragment_packet_header : ℕ → ℕ → EncodedFrameView → PacketHeader
fragment_packet_header stream_id seq frame = record {
  version = protocol_version;
  packet_type = type_data;
  stream_id = stream_id;
  seq = seq;
  timestamp_ms = frame.capture_ms % 2 ^ 32;
}

abbrev pub fragment_flags : Bool → Bool → ℕ
fragment_flags is_key is_retransmit =
    let flags : ℕ = if is_key then flag_keyframe else 0 in
    if is_retransmit then bit_or flags flag_retransmit else flags

abbrev pub fragment_data_header : EncodedFrameView → ℕ → ℕ → Bool → DataHeader
fragment_data_header frame frag_index frag_count is_retransmit = record {
  frame_id = frame.frame_id % 2 ^ 32;
  frag_index = frag_index;
  frag_count = frag_count;
  flags = fragment_flags frame.is_key is_retransmit;
}

-- The last argument is what `out` held before: it is resized and written over in place.
unfoldable pub packetize_one_fragment :
    ℕ → ℕ → EncodedFrameView → ℕ → ℕ → Bool → PacketBuffer → Result PacketBuffer
packetize_one_fragment stream_id seq frame frag_index frag_count is_retransmit out = do
  bytes ← frame_bytes frame
  require (not (frag_count == 0)) invalid_arg
  require (not (leb frag_count frag_index)) invalid_arg
  let payload_offset = frag_index * max_payload
  require (ltb payload_offset (length bytes)) invalid_arg
  let payload_len = min max_payload (length bytes - payload_offset)
  let resized = resize (packet_header_size + data_header_size + payload_len) 0 out
  headed ←
      or_else (encode_packet_header (fragment_packet_header stream_id seq frame) (some resized))
        internal
  tail ←
      or_else
        (encode_data_header (fragment_data_header frame frag_index frag_count is_retransmit)
          (some (drop packet_header_size headed)))
        internal
  ok (
      write (take packet_header_size headed ++ tail) (packet_header_size + data_header_size)
        (take payload_len (drop payload_offset bytes)))

pub record Packetizer : Type 0 where
  pub stream_id : ℕ
  pub next_seq : ℕ

unfoldable pub fragment_count : ℕ → ℕ
fragment_count len = len / max_payload + (if len % max_payload == 0 then 0 else 1)

-- The loop of `packetize`, from fragment `i` on, over the buffers of `out`. It returns the packets
-- and the value of `seq` after them.
pub packetize_from :
    ℕ → EncodedFrameView → ℕ → ℕ → ℕ → List PacketBuffer → Result (List PacketBuffer × ℕ)
packetize_from stream_id frame frag_count seq i [] = ok ([], seq)
packetize_from stream_id frame frag_count seq i (out ∷ outs) = do
  packet ←
      or_else
        (packetize_one_fragment stream_id seq frame (i % 2 ^ 16) (frag_count % 2 ^ 16) false out)
        internal
  rest ← packetize_from stream_id frame frag_count (add32 seq 1) (suc i) outs
  ok (packet ∷ rest.0, rest.1)

-- The second argument is what the caller's reused `out` held before.
unfoldable pub packetize :
    Packetizer → EncodedFrameView → List PacketBuffer → Result (List PacketBuffer × Packetizer)
packetize p frame outs = do
  bytes ← frame_bytes frame
  let frag_count = fragment_count (length bytes)
  require (leb frag_count (2 ^ 16 - 1)) invalid_arg
  done ← packetize_from p.stream_id frame frag_count p.next_seq 0 (resize frag_count [] outs)
  ok (done.0, record p { next_seq = done.1 })
