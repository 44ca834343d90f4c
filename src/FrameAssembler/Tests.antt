-- ===== src/FrameAssembler/Tests.antt =====
-- Instances of the theorems on the assembler, on frames of one and of two fragments.
use lowlat_stream.Base.{
  ℕ, ◌≤◌, ◌≡◌, ◌++◌, ◌%◌, ◌^◌, replicate, refl, true, false, List, [], ◌∷◌, some, length, All,
  arith,
}
use lowlat_stream.Packetizer.{Packetizer, PacketBuffer, packetize, EncodedFrameView, fragment_count}
use lowlat_stream.Packetizer.Fragment.{fragment, packetize_one_fragment_lem}
use lowlat_stream.Status.{ok}
use lowlat_stream.Base.Maps.{lookup}
use lowlat_stream.FrameAssembler.{init, offer_all}
use lowlat_stream.FrameAssembler.Delivery.{packetized_frame_arrives}
use lowlat_stream.FrameAssembler.Valid.{EntriesAreValid}
use lowlat_stream.FrameAssembler.Bounded.{limit_of, session_is_valid}
use lowlat_stream.FrameAssembler.Integrity.{IsSent, IsIntact, session-IsIntact}

abbrev body : ℕ → List ℕ
body id = 9 ∷ 8 ∷ []

abbrev view : ℕ → EncodedFrameView
view id = record { bytes = some (body id); frame_id = id; capture_ms = 40; is_key = true }

abbrev packet : List ℕ
packet = fragment 0 5 (view 12) (body 12) 0 1 false

session_is_valid_example :
    (length (offer_all (init 0) (packet ∷ packet ∷ [])).pending ≤ limit_of 0)
    × EntriesAreValid (offer_all (init 0) (packet ∷ packet ∷ []))
session_is_valid_example = session_is_valid 0 (packet ∷ packet ∷ []) (omega arith)

packet-IsSent : IsSent view body packet
unfolding fragment_count
packet-IsSent = record {
  id = 12;
  stream_id = 0;
  seq = 5;
  index = 0;
  again = false;
  old = [];
  encoded =
      packetize_one_fragment_lem 0 5 (view 12) (body 12) 0 1 false [] refl (omega arith)
        (omega arith);
  has_bytes = refl;
  numbered = refl;
  stream_id_fits = omega arith;
  seq_fits = omega arith;
  index_in = omega arith;
  count_fits = omega arith;
}

session-IsIntact_example :
    All (IsIntact view body) (offer_all (init 4) (packet ∷ packet ∷ [])).ready
session-IsIntact_example =
    session-IsIntact view body 4 (packet ∷ packet ∷ []) (packet-IsSent, (packet-IsSent, tt))

abbrev two_fragments : List ℕ
two_fragments = replicate 1205 7

abbrev wide_view : EncodedFrameView
wide_view = record { bytes = some two_fragments; frame_id = 12; capture_ms = 40; is_key = true }

-- The sequence numbers wrap between the two packets.
abbrev packetizer : Packetizer
packetizer = record { stream_id = 3; next_seq = 0xffff_ffff }

packetized_frame_arrives_example :
    (packets : List PacketBuffer) × (y : Packetizer) × (packetize packetizer wide_view []
      ≡ ok (packets, y))
    × ((offer_all (init 4) packets).ready
        ≡ (init 4).ready
          ++ record {
            bytes = two_fragments;
            frame_id = 12 % 2 ^ 32;
            timestamp_ms = 40 % 2 ^ 32;
            is_key = true;
          }
            ∷ [])
unfolding init lookup
packetized_frame_arrives_example =
    packetized_frame_arrives packetizer wide_view two_fragments [] (init 4) refl (omega arith)
      (omega arith) (omega arith) (omega arith) refl refl (omega arith)
