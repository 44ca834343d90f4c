-- ===== src/Fec/Decoder.antt =====
-- modules/transport/FecDecoder.cpp: `onDataPacket`, `onFecPacket`, `reset`.
use lowlat_stream.Base.{
  ℕ, zero, suc, ◌+◌, ◌-◌, ◌%◌, ◌^◌, bit_xor, Bool, false, not, ltb, leb, ◌==◌, ◌||◌, if◌then◌else◌,
  Option, none, some, List, [], ◌∷◌, ◌++◌, length, take, drop, replicate, write,
}
use lowlat_stream.Base.Words.{add32, sub32}
use lowlat_stream.Status.{ok, err}
use lowlat_stream.Packet.Types.{
  PacketHeader, DataHeader, FecHeader, protocol_version, type_data, type_fec, packet_header_size,
}
use lowlat_stream.Packet.Codec.{
  Buffer, encode_packet_header, encode_data_header, decode_packet_header, decode_data_header,
  decode_fec_header,
}
use lowlat_stream.Packetizer.{PacketBuffer}
use lowlat_stream.Fec.{data_header_bytes, fec_payload_offset, xor_into}

pub record FecDecoderStats : Type 0 where
  pub fec_packets_received : ℕ
  pub fec_packets_malformed : ℕ
  pub groups_complete : ℕ
  pub groups_recovered : ℕ
  pub groups_unrecoverable : ℕ
  pub packets_recovered : ℕ
  pub recent_packets : ℕ

-- `limit` is `config_.recentPackets`.
pub record FecDecoder : Type 0 where
  pub limit : ℕ
  pub stats : FecDecoderStats
  pub recent : List PacketBuffer

-- The loop that keeps the limit.
abbrev pub drop_front : ℕ → List PacketBuffer → List PacketBuffer
drop_front limit [] = []
drop_front limit (p ∷ ps) =
    let rest = drop_front limit ps in if ltb limit (length (p ∷ ps)) then rest else p ∷ ps

unfoldable pub on_data_packet : FecDecoder → Buffer → FecDecoder
on_data_packet d none = d
on_data_packet d (some packet) =
    if d.limit == 0 || leb (length packet) data_header_bytes
    then d
    else (let kept = drop_front d.limit (d.recent ++ packet ∷ []) in
        let s = d.stats in
        record d { recent = kept; stats = record s { recent_packets = length kept } })

-- `PresentMember`.
pub record Member : Type 0 where
  pub packet : PacketBuffer
  pub packet_header : PacketHeader
  pub data_header : DataHeader
  pub group_offset : ℕ

unfoldable pub has_offset : ℕ → List Member → Bool
has_offset offset [] = false
has_offset offset (m ∷ ms) = m.group_offset == offset || has_offset offset ms

-- One round of the loop over `recent_`.
unfoldable pub visit_recent : ℕ → ℕ → List Member → PacketBuffer → List Member
visit_recent base size members p = elim (decode_packet_header (some p)) [
  | err _ ↦ members
  | ok h ↦
      if not (h.packet_type == type_data)
        || leb size (sub32 h.seq base)
        || has_offset (sub32 h.seq base) members
      then members
      else elim (decode_data_header (some (drop packet_header_size p))) [
        | err _ ↦ members
        | ok d ↦
            members
            ++ record {
              packet = p;
              packet_header = h;
              data_header = d;
              group_offset = sub32 h.seq base % 2 ^ 16;
            }
              ∷ []
      ]
]

unfoldable pub collect : ℕ → ℕ → List Member → List PacketBuffer → List Member
collect base size members [] = members
collect base size members (p ∷ ps) = collect base size (visit_recent base size members p) ps

-- The search for the first offset without a member, with `k` to go.
unfoldable pub missing_from : List Member → ℕ → ℕ → ℕ
missing_from members i zero = i
missing_from members i (suc k) =
    let rest = missing_from members (suc i) k in if has_offset i members then rest else i

-- The loop over the members: the length and the payload, or `none` when a member is longer.
unfoldable pub xor_members : ℕ → List ℕ → List Member → Option (ℕ × List ℕ)
xor_members len buf [] = some (len, buf)
xor_members len buf (m ∷ ms) =
    let payload = drop data_header_bytes m.packet in
    let rest = xor_members (bit_xor len (length payload % 2 ^ 16)) (xor_into buf payload) ms in
    if ltb (length buf) (length payload) then none else rest

abbrev pub recovered_packet_header : Member → ℕ → PacketHeader
recovered_packet_header reference missing_seq = record {
  version = protocol_version;
  packet_type = type_data;
  stream_id = reference.packet_header.stream_id;
  seq = missing_seq;
  timestamp_ms = reference.packet_header.timestamp_ms;
}

abbrev pub recovered_data_header : Member → ℕ → DataHeader
recovered_data_header reference frag_index = record {
  frame_id = reference.data_header.frame_id;
  frag_index = frag_index % 2 ^ 16;
  frag_count = reference.data_header.frag_count;
  flags = reference.data_header.flags;
}

-- The packet put together from a member, the number that is missing, and the payload.
unfoldable pub rebuild : Member → ℕ → ℕ → List ℕ → Option PacketBuffer
rebuild reference missing_seq len payload =
    let frag_index =
      add32 reference.data_header.frag_index (sub32 missing_seq reference.packet_header.seq) in
    if leb reference.data_header.frag_count frag_index
    then none
    else elim (encode_packet_header (recovered_packet_header reference missing_seq)
        (some (replicate (data_header_bytes + len) 0))) [
          | err _ ↦ none
          | ok headed ↦
              elim (encode_data_header (recovered_data_header reference frag_index)
                (some (drop packet_header_size headed))) [
                  | err _ ↦ none
                  | ok tail ↦ some (
                      write (take packet_header_size headed ++ tail) data_header_bytes
                        (take len payload))
                ]
        ]

-- From the search for the missing offset on; `none` is `groupsUnrecoverable`. There is a first member,
-- since a group has at least two packets.
unfoldable pub recover : FecHeader → List ℕ → List Member → Option PacketBuffer
recover f packet [] = none
recover f packet (reference ∷ ms) =
    let missing_seq = add32 f.group_base_seq (missing_from (reference ∷ ms) 0 f.group_size) in
    elim (xor_members f.payload_len_xor (drop fec_payload_offset packet) (reference ∷ ms)) [
      | none ↦ none
      | some (len, payload) ↦
          if len == 0 || ltb (length payload) len
          then none
          else rebuild reference missing_seq len payload
    ]

-- Once both headers are read.
unfoldable pub use_group : FecDecoder → FecHeader → List ℕ → Option PacketBuffer × FecDecoder
use_group d f packet =
    let s = d.stats in
    let members = collect f.group_base_seq f.group_size [] d.recent in
    if length members == f.group_size
    then (none, record d { stats = record s { groups_complete = s.groups_complete + 1 } })
    else if leb (length members) (f.group_size - 2)
    then (none, record d { stats = record s { groups_unrecoverable = s.groups_unrecoverable + 1 } })
    else elim (recover f packet members) [
      | none ↦ (
        none,
        record d { stats = record s { groups_unrecoverable = s.groups_unrecoverable + 1 } },
      )
      | some out ↦ (
        some out,
        record d {
          stats = record s {
            groups_recovered = s.groups_recovered + 1;
            packets_recovered = s.packets_recovered + 1;
          };
        },
      )
    ]

abbrev pub malformed : FecDecoder → FecDecoder
malformed d =
    let s = d.stats in
    record d { stats = record s { fec_packets_malformed = s.fec_packets_malformed + 1 } }

-- `none` is the result false.
unfoldable pub on_fec_packet : FecDecoder → Buffer → Option PacketBuffer × FecDecoder
on_fec_packet d none = if d.limit == 0 then (none, d) else (none, malformed d)
on_fec_packet d (some packet) =
    if d.limit == 0 then (none, d) else elim (decode_packet_header (some packet)) [
      | err _ ↦ (none, malformed d)
      | ok h ↦
          if not (h.packet_type == type_fec)
          then (none, malformed d)
          else elim (decode_fec_header (some (drop packet_header_size packet))) [
            | err _ ↦ (none, malformed d)
            | ok f ↦
                let s = d.stats in
                use_group
                  (record d {
                    stats = record s { fec_packets_received = s.fec_packets_received + 1 };
                  })
                  f packet
          ]
    ]

unfoldable pub reset : FecDecoder → FecDecoder
reset d = let s = d.stats in record d { recent = []; stats = record s { recent_packets = 0 } }
