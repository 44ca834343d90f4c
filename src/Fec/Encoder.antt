-- ===== src/Fec/Encoder.antt =====
-- modules/transport/FecEncoder.cpp: `buildForFrame`. What it has changed when it fails is returned
-- beside the status.
use lowlat_stream.Base.{
  ℕ, zero, suc, ◌+◌, ◌-◌, ◌*◌, ◌/◌, ◌%◌, ◌^◌, min, max, bit_xor, Bool, false, ltb, ◌==◌, ◌||◌,
  if◌then◌else◌, some, List, [], ◌∷◌, ◌++◌, length, take, drop, replicate, write,
}
use lowlat_stream.Base.Words.{add32}
use lowlat_stream.Status.{Result, ok, err, invalid_arg, internal}
use lowlat_stream.Packet.Types.{
  PacketHeader, FecHeader, protocol_version, type_fec, packet_header_size,
}
use lowlat_stream.Packet.Codec.{encode_packet_header, encode_fec_header}
use lowlat_stream.Packetizer.{PacketBuffer}
use lowlat_stream.Fec.{data_header_bytes, fec_payload_offset, xor_into}

pub record FecEncoderConfig : Type 0 where
  pub group_size : ℕ
  pub min_group_size : ℕ

pub record FecEncoderStats : Type 0 where
  pub frames_seen : ℕ
  pub fec_packets_built : ℕ
  pub groups_skipped : ℕ
  pub fec_bytes : ℕ

pub record FecEncoder : Type 0 where
  pub config : FecEncoderConfig
  pub stats : FecEncoderStats
  pub next_fec_seq : ℕ

-- The encoder, what `out` holds, and the status.
abbrev pub Built : Type 0
Built = FecEncoder × List PacketBuffer × Result (Unit {0})

-- The first inner loop.
abbrev pub max_payload_of : ℕ → List PacketBuffer → ℕ
max_payload_of most [] = most
max_payload_of most (p ∷ ps) = max_payload_of (max most (length p - data_header_bytes)) ps

-- The second inner loop: `payloadLenXor` and `xorBuf`.
abbrev pub xor_group : ℕ → List ℕ → List PacketBuffer → ℕ × List ℕ
xor_group len_xor buf [] = (len_xor, buf)
xor_group len_xor buf (p ∷ ps) =
    xor_group (bit_xor len_xor ((length p - data_header_bytes) % 2 ^ 16))
      (xor_into buf (drop data_header_bytes p)) ps

abbrev pub fec_packet_header : ℕ → ℕ → ℕ → PacketHeader
fec_packet_header stream_id seq timestamp_ms = record {
  version = protocol_version;
  packet_type = type_fec;
  stream_id = stream_id;
  seq = seq;
  timestamp_ms = timestamp_ms;
}

-- The two headers and the payload written into the packet that was added to `out`, as far as it gets.
unfoldable pub fill_packet : PacketHeader → FecHeader → List ℕ → PacketBuffer × Result (Unit {0})
fill_packet h f xor_buf =
    let buf = replicate (fec_payload_offset + length xor_buf) 0 in
    elim (encode_packet_header h (some buf)) [
      | err _ ↦ (buf, err internal)
      | ok buf' ↦ elim (encode_fec_header f (some (drop packet_header_size buf'))) [
        | err _ ↦ (buf', err internal)
        | ok tail ↦ (write (take packet_header_size buf' ++ tail) fec_payload_offset xor_buf, ok tt)
      ]
    ]

-- One round of the outer loop, for a group that is large enough.
unfoldable pub build_group :
    FecEncoder → List PacketBuffer → ℕ → ℕ → ℕ → ℕ → ℕ → List PacketBuffer → Built
build_group e group base_seq stream_id timestamp_ms group_index group_count out =
    let (len_xor, xor_buf) = xor_group 0 (replicate (max_payload_of 0 group) 0) group in
    let h = fec_packet_header stream_id e.next_fec_seq timestamp_ms in
    let f : FecHeader = record {
      group_base_seq = base_seq;
      group_size = length group % 2 ^ 16;
      payload_len_xor = len_xor;
      group_index = group_index % 2 ^ 8;
      group_count = group_count % 2 ^ 8;
      reserved = 0;
    } in
    let (packet, status) = fill_packet h f xor_buf in
    let e' : FecEncoder = record e { next_fec_seq = add32 e.next_fec_seq 1 } in
    let s = e'.stats in
    elim status [
      | err c ↦ (e', out ++ packet ∷ [], err c)
      | ok _ ↦ (
        record e' {
          stats = record s {
            fec_packets_built = s.fec_packets_built + 1;
            fec_bytes = s.fec_bytes + length packet;
          };
        },
        out ++ packet ∷ [],
        ok tt,
      )
    ]

abbrev pub skip_group : FecEncoder → FecEncoder
skip_group e =
    let s = e.stats in record e { stats = record s { groups_skipped = s.groups_skipped + 1 } }

-- `packets[first]` up to `packets[last - 1]`.
abbrev pub group_of : List PacketBuffer → ℕ → ℕ → List PacketBuffer
group_of packets group_size group_index =
    let first = group_index * group_size in
    take (min (first + group_size) (length packets) - first) (drop first packets)

module _ (packets : List PacketBuffer) (base_seq stream_id timestamp_ms group_count : ℕ) where
  -- One round of the outer loop.
  unfoldable pub build_step : FecEncoder → ℕ → List PacketBuffer → Built
  build_step e group_index out =
      let group = group_of packets e.config.group_size group_index in
      if ltb (length group) e.config.min_group_size
      then (skip_group e, out, ok tt)
      else build_group e group (add32 base_seq (group_index * e.config.group_size % 2 ^ 32))
          stream_id timestamp_ms group_index group_count out

  -- The outer loop, with `k` groups to go.
  unfoldable pub build_from : FecEncoder → ℕ → List PacketBuffer → ℕ → Built
  build_from e group_index out zero = (e, out, ok tt)
  build_from e group_index out (suc k) =
      let (e', out', status) = build_step e group_index out in
      elim status [ err c ↦ (e', out', err c) | ok _ ↦ build_from e' (suc group_index) out' k ]

-- Whether some packet is smaller than its headers.
unfoldable pub any_too_small : List PacketBuffer → Bool
any_too_small [] = false
any_too_small (p ∷ ps) = ltb (length p) data_header_bytes || any_too_small ps

unfoldable pub build_for_frame : FecEncoder → List PacketBuffer → ℕ → ℕ → ℕ → Built
build_for_frame e packets base_seq stream_id timestamp_ms =
    if e.config.group_size == 0 || length packets == 0
    then (e, [], ok tt)
    else if any_too_small packets
    then (e, [], err invalid_arg)
    else (let s = e.stats in
        let group_size = e.config.group_size in
        let group_count =
          length packets / group_size + (if length packets % group_size == 0 then 0 else 1) in
        build_from packets base_seq stream_id timestamp_ms group_count
          (record e { stats = record s { frames_seen = s.frames_seen + 1 } }) 0 [] group_count)
