-- ===== src/Packet/HeaderRound.antt =====
-- The fixed-size headers of modules/transport/Packet.cpp: what an encoder writes and a decoder reads.
use lowlat_stream.Base.{
  ℕ, ◌≤◌, ◌<◌, ◌≡◌, refl, true, some, List, [], ◌∷◌, ◌++◌, length, drop, arith, length-drop,
}
use lowlat_stream.Base.Words.{be16, be32}
use lowlat_stream.Status.{ok}
use lowlat_stream.Packet.Types.{
  PacketHeader, DataHeader, FecHeader, protocol_version, is_known_packet_type, FitsPacketHeader,
  FitsDataHeader, FitsFecHeader,
}
use lowlat_stream.Packet.Codec.{
  encode_packet_header, decode_packet_header, write_packet_header, encode_data_header,
  decode_data_header, write_data_header, encode_fec_header, decode_fec_header, write_fec_header,
}

abbrev pub packet_header_bytes : PacketHeader → List ℕ
packet_header_bytes h =
    h.version ∷ h.packet_type ∷ (be16 h.stream_id ++ (be32 h.seq ++ be32 h.timestamp_ms))

pub write_packet_header_lem :
    (h : PacketHeader) (buf : List ℕ)
    → 12 ≤ length buf
    → write_packet_header h buf ≡ packet_header_bytes h ++ drop 12 buf
write_packet_header_lem h (b0 ∷ b1 ∷ b2 ∷ b3 ∷ b4 ∷ b5 ∷ b6 ∷ b7 ∷ b8 ∷ b9 ∷ b10 ∷ b11 ∷ rest) le =
    refl
write_packet_header_lem h _ le = absurd (omega arith)

pub encode_packet_header-ok :
    (h : PacketHeader) (buf out : List ℕ)
    → encode_packet_header h (some buf) ≡ ok out
    → (12 ≤ length buf)
      × (h.version ≡ protocol_version)
      × (is_known_packet_type h.packet_type ≡ true)
      × (out ≡ packet_header_bytes h ++ drop 12 buf)
unfolding encode_packet_header
encode_packet_header-ok h buf out e = ground (arith, write_packet_header_lem h buf)

pub decode_packet_header-bytes :
    (h : PacketHeader) (rest : List ℕ)
    → FitsPacketHeader h
    → h.version ≡ protocol_version
    → is_known_packet_type h.packet_type ≡ true
    → decode_packet_header (some (packet_header_bytes h ++ rest)) ≡ ok h
unfolding decode_packet_header
decode_packet_header-bytes h rest f v k = ground arith

-- What `encodePacketHeader` writes, `decodePacketHeader` reads back: every header whose fields fit
-- their types, encoded without error into any buffer, decodes to itself, and the bytes behind the
-- header and the buffer's length are as before.
pub packet_header_round :
    (h : PacketHeader) (buf out : List ℕ)
    → FitsPacketHeader h
    → encode_packet_header h (some buf) ≡ ok out
    → (decode_packet_header (some out) ≡ ok h)
      × (drop 12 out ≡ drop 12 buf)
      × (length out ≡ length buf)
packet_header_round h buf out f e =
    let (le, v, k, w) = encode_packet_header-ok h buf out e in
    (
      rw w (decode_packet_header-bytes h (drop 12 buf) f v k),
      rw w,
      rw w (omega (arith, length-drop 12 buf)),
    )

abbrev pub data_header_bytes : DataHeader → List ℕ
data_header_bytes h =
    be32 h.frame_id ++ (be16 h.frag_index ++ (be16 h.frag_count ++ (h.flags ∷ [])))

pub write_data_header_lem :
    (h : DataHeader) (buf : List ℕ)
    → 9 ≤ length buf
    → write_data_header h buf ≡ data_header_bytes h ++ drop 9 buf
write_data_header_lem h (b0 ∷ b1 ∷ b2 ∷ b3 ∷ b4 ∷ b5 ∷ b6 ∷ b7 ∷ b8 ∷ rest) le = refl
write_data_header_lem h _ le = absurd (omega arith)

pub encode_data_header-ok :
    (h : DataHeader) (buf out : List ℕ)
    → encode_data_header h (some buf) ≡ ok out
    → (9 ≤ length buf) × (h.frag_index < h.frag_count) × (out ≡ data_header_bytes h ++ drop 9 buf)
unfolding encode_data_header
encode_data_header-ok h buf out e = ground (arith, write_data_header_lem h buf)

pub decode_data_header-bytes :
    (h : DataHeader) (rest : List ℕ)
    → FitsDataHeader h
    → h.frag_index < h.frag_count
    → decode_data_header (some (data_header_bytes h ++ rest)) ≡ ok h
unfolding decode_data_header
decode_data_header-bytes h rest f v = ground arith

-- What `encodeDataHeader` writes, `decodeDataHeader` reads back: every header whose fields fit
-- their types, encoded without error into any buffer, decodes to itself, and the bytes behind the
-- header and the buffer's length are as before.
data_header_round :
    (h : DataHeader) (buf out : List ℕ)
    → FitsDataHeader h
    → encode_data_header h (some buf) ≡ ok out
    → (decode_data_header (some out) ≡ ok h) × (drop 9 out ≡ drop 9 buf) × (length out ≡ length buf)
data_header_round h buf out f e =
    let (le, v, w) = encode_data_header-ok h buf out e in
    (
      rw w (decode_data_header-bytes h (drop 9 buf) f v),
      rw w,
      rw w (omega (arith, length-drop 9 buf)),
    )

abbrev pub fec_header_bytes : FecHeader → List ℕ
fec_header_bytes h =
    be32 h.group_base_seq
    ++ (be16 h.group_size
        ++ (be16 h.payload_len_xor ++ (h.group_index ∷ h.group_count ∷ be16 h.reserved)))

pub write_fec_header_lem :
    (h : FecHeader) (buf : List ℕ)
    → 12 ≤ length buf
    → write_fec_header h buf ≡ fec_header_bytes h ++ drop 12 buf
write_fec_header_lem h (b0 ∷ b1 ∷ b2 ∷ b3 ∷ b4 ∷ b5 ∷ b6 ∷ b7 ∷ b8 ∷ b9 ∷ b10 ∷ b11 ∷ rest) le =
    refl
write_fec_header_lem h _ le = absurd (omega arith)

pub encode_fec_header-ok :
    (h : FecHeader) (buf out : List ℕ)
    → encode_fec_header h (some buf) ≡ ok out
    → (12 ≤ length buf) × (2 ≤ h.group_size) × (out ≡ fec_header_bytes h ++ drop 12 buf)
unfolding encode_fec_header
encode_fec_header-ok h buf out e = ground (arith, write_fec_header_lem h buf)

pub decode_fec_header-bytes :
    (h : FecHeader) (rest : List ℕ)
    → FitsFecHeader h
    → 2 ≤ h.group_size
    → decode_fec_header (some (fec_header_bytes h ++ rest)) ≡ ok h
unfolding decode_fec_header
decode_fec_header-bytes h rest f v = ground arith

-- What `encodeFecHeader` writes, `decodeFecHeader` reads back: every header whose fields fit
-- their types, encoded without error into any buffer, decodes to itself, and the bytes behind the
-- header and the buffer's length are as before.
fec_header_round :
    (h : FecHeader) (buf out : List ℕ)
    → FitsFecHeader h
    → encode_fec_header h (some buf) ≡ ok out
    → (decode_fec_header (some out) ≡ ok h)
      × (drop 12 out ≡ drop 12 buf)
      × (length out ≡ length buf)
fec_header_round h buf out f e =
    let (le, v, w) = encode_fec_header-ok h buf out e in
    (
      rw w (decode_fec_header-bytes h (drop 12 buf) f v),
      rw w,
      rw w (omega (arith, length-drop 12 buf)),
    )
