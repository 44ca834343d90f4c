-- ===== src/Packet/NackTests.antt =====
-- Runs of the NACK codec, and an instance of its theorem.
use lowlat_stream.Base.{ℕ, ◌+◌, ◌*◌, ◌≤◌, ◌<◌, ◌≡◌, refl, some, List, [], ◌∷◌, length, replicate}
use lowlat_stream.Status.{ok, ◌>>=◌}
use lowlat_stream.Packet.Types.{PacketHeader, is_known_packet_type, max_nack_entries}
use lowlat_stream.Packet.Codec.{encode_packet_header, decode_packet_header, read16}
use lowlat_stream.Packet.Nack.{
  pack, pack_from, encode_nack_packet, write_entries, decode_nack_packet, read_entries, bitmap_from,
}
use lowlat_stream.Packet.NackBounds.{decode_nack_packet_lem}

abbrev nack_header : PacketHeader
nack_header = record { version = 1; packet_type = 3; stream_id = 7; seq = 9; timestamp_ms = 99 }

-- Two runs of losses around the wrap, packed into two entries.
abbrev lost : List ℕ
lost = 0xffff_fffe ∷ 0xffff_ffff ∷ 0 ∷ 14 ∷ 15 ∷ 16 ∷ []

pack_run : pack lost ≡ (0xffff_fffe, 0x8003) ∷ (15, 1) ∷ []
unfolding pack pack_from
pack_run = refl

round_run :
    (do
      sent ← encode_nack_packet nack_header lost (some (replicate 26 0))
      decode_nack_packet (some sent.0))
    ≡ ok lost
unfolding encode_nack_packet pack pack_from write_entries decode_nack_packet read_entries
    bitmap_from encode_packet_header decode_packet_header is_known_packet_type
round_run = refl

abbrev one_entry : List ℕ
one_entry = 1 ∷ 3 ∷ 0 ∷ 7 ∷ 0 ∷ 0 ∷ 0 ∷ 9 ∷ 0 ∷ 0 ∷ 0 ∷ 99 ∷ 0 ∷ 1 ∷ 0 ∷ 0 ∷ 0 ∷ 4 ∷ 0 ∷ 2 ∷ []

decode_nack_packet_lem_example :
    let count = read16 one_entry 12 13 in
    (0 < count)
    × (count ≤ max_nack_entries)
    × (length one_entry ≡ 14 + count * 6)
    × (count ≤ 2)
    × (2 ≤ 17 * count)
unfolding decode_nack_packet read_entries bitmap_from decode_packet_header is_known_packet_type
decode_nack_packet_lem_example = decode_nack_packet_lem one_entry (4 ∷ 6 ∷ []) refl
