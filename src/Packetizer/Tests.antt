-- ===== src/Packetizer/Tests.antt =====
-- Instances of the theorems on the packetizer, on a frame of two fragments.
use lowlat_stream.Base.{
  ℕ, ◌≡◌, refl, ◌↔◌, true, List, [], some, none, length, drop, map, flatten, replicate, arith,
}
use lowlat_stream.Base.Words.{add32}
use lowlat_stream.Status.{ok, err, invalid_arg}
use lowlat_stream.Packetizer.{PacketBuffer, EncodedFrameView, Packetizer, packetize, fragment_count}
use lowlat_stream.Packetizer.Packets.{Refused, packetize_delivers, packetize_fails}

abbrev two_parts : List ℕ
two_parts = replicate 1203 5

abbrev view : EncodedFrameView
view = record { bytes = some two_parts; frame_id = 12; capture_ms = 40; is_key = true }

abbrev null_view : EncodedFrameView
null_view = record { bytes = none; frame_id = 12; capture_ms = 40; is_key = true }

abbrev near_wrap : Packetizer
near_wrap = record { stream_id = 0; next_seq = 0xffff_ffff }

packetize_delivers_example :
    (packets : List PacketBuffer) × (q : Packetizer) × (packetize near_wrap view []
      ≡ ok (packets, q))
    × (length packets ≡ fragment_count (length two_parts))
    × (flatten (map (drop 21) packets) ≡ two_parts)
    × (q.next_seq ≡ add32 0xffff_ffff (length packets))
    × (q.stream_id ≡ 0)
packetize_delivers_example =
    packetize_delivers near_wrap view two_parts [] refl (omega arith) (omega arith) (omega arith)

packetize_fails_example : (packetize near_wrap null_view [] ≡ err invalid_arg) ↔ Refused none
packetize_fails_example = packetize_fails near_wrap null_view [] (omega arith)
