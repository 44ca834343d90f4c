-- ===== src/Fec/Account.antt =====
-- The memory of the decoder and its counters.
use lowlat_stream.Base.{
  ℕ, ◌+◌, ◌≤◌, ◌≡◌, ◌==◌, none, some, List, [], ◌∷◌, ◌++◌, length, arith, Bool-cases, inl, inr,
  drop,
}
use lowlat_stream.Packet.Types.{FecHeader}
use lowlat_stream.Packet.Codec.{Buffer, decode_packet_header, decode_fec_header}
use lowlat_stream.Packetizer.{PacketBuffer}
use lowlat_stream.Fec.Member.{Result-cases}
use lowlat_stream.Fec.Decoder.{
  FecDecoder, drop_front, on_data_packet, on_fec_packet, use_group, malformed,
}

-- A call of the decoder.
pub data Call : Type 0 where
  data_packet fec_packet : Buffer → Call

pub run : FecDecoder → List Call → FecDecoder
run d [] = d
run d (data_packet b ∷ cs) = run (on_data_packet d b) cs
run d (fec_packet b ∷ cs) = run (on_fec_packet d b).1 cs

-- No more packets are kept than the limit allows, their number is shown, every FEC packet that was
-- read is in one of three counters, and each recovery gave one packet.
pub record IsAccounted (d : FecDecoder) : Type 0 where
  pub room : length d.recent ≤ d.limit
  pub shown : d.stats.recent_packets ≡ length d.recent
  pub balance :
      d.stats.fec_packets_received
      ≡ d.stats.groups_complete + d.stats.groups_recovered + d.stats.groups_unrecoverable
  pub one_each : d.stats.packets_recovered ≡ d.stats.groups_recovered

length-drop_front : (limit : ℕ) (ps : List PacketBuffer) → length (drop_front limit ps) ≤ limit
length-drop_front limit [] = omega arith
length-drop_front limit (p ∷ ps) = ground (arith, length-drop_front limit ps)

on_data_packet-IsAccounted :
    (d : FecDecoder) (b : Buffer) → IsAccounted d → IsAccounted (on_data_packet d b)
unfolding on_data_packet
on_data_packet-IsAccounted d none a = a
on_data_packet-IsAccounted d (some p) a =
    ground (
      arith,
      length-drop_front d.limit (d.recent ++ p ∷ []),
      a.room,
      a.shown,
      a.balance,
      a.one_each,
    )

use_group-IsAccounted :
    (d : FecDecoder) (f : FecHeader) (p : List ℕ)
    → IsAccounted d
    → let s = d.stats in
      IsAccounted
        (use_group
          (record d { stats = record s { fec_packets_received = s.fec_packets_received + 1 } })
          f
          p).1
unfolding use_group
use_group-IsAccounted d f p a = ground (arith, a.room, a.shown, a.balance, a.one_each)

malformed-IsAccounted : (d : FecDecoder) → IsAccounted d → IsAccounted (malformed d)
malformed-IsAccounted d a = record {
  room = a.room;
  shown = a.shown;
  balance = a.balance;
  one_each = a.one_each;
}

on_fec_packet-IsAccounted :
    (d : FecDecoder) (b : Buffer) → IsAccounted d → IsAccounted (on_fec_packet d b).1
unfolding on_fec_packet
on_fec_packet-IsAccounted d none a = ground (arith, malformed-IsAccounted d a)
on_fec_packet-IsAccounted d (some p) a = elim (Bool-cases (d.limit == 0)) [
  | inl off ↦ rw (off, on_fec_packet) a
  | inr on ↦ elim (Result-cases (decode_packet_header (some p))) [
    | inl (c, e) ↦ rw (on, e, on_fec_packet) (malformed-IsAccounted d a)
    | inr (h, e) ↦ elim (Bool-cases (h.packet_type == 2)) [
      | inr other ↦ rw (on, e, other, on_fec_packet) (malformed-IsAccounted d a)
      | inl fec ↦ elim (Result-cases (decode_fec_header (some (drop 12 p)))) [
        | inl (c, e') ↦ rw (on, e, fec, e', on_fec_packet) (malformed-IsAccounted d a)
        | inr (f, e') ↦ rw (on, e, fec, e', on_fec_packet) (use_group-IsAccounted d f p a)
      ]
    ]
  ]
]

-- Whatever packets arrive, in any order, with a null pointer or not, the decoder keeps no more than
-- its limit of them, shows their number, counts every FEC packet that it has read as complete,
-- recovered or unrecoverable, and counts one packet for each recovery.
pub run-IsAccounted : (d : FecDecoder) (cs : List Call) → IsAccounted d → IsAccounted (run d cs)
unfolding run
run-IsAccounted d [] a = a
run-IsAccounted d (data_packet b ∷ cs) a =
    run-IsAccounted (on_data_packet d b) cs (on_data_packet-IsAccounted d b a)
run-IsAccounted d (fec_packet b ∷ cs) a =
    run-IsAccounted (on_fec_packet d b).1 cs (on_fec_packet-IsAccounted d b a)
