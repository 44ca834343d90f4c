-- ===== src/Fec/Tests.antt =====
-- Instances of the theorems on forward error correction.
use lowlat_stream.Base.{
  ℕ, ◌+◌, ◌<◌, ◌≡◌, ◌≢◌, refl, ap, inl, true, false, some, none, List, [], ◌∷◌, ◌++◌, replicate,
  flatten, length, arith,
}
use lowlat_stream.Base.Words.{add32}
use lowlat_stream.Status.{ok}
use lowlat_stream.Packetizer.{PacketBuffer, EncodedFrameView}
use lowlat_stream.Packetizer.Fragment.{fragment}
use lowlat_stream.Packetizer.Packets.{fragments}
use lowlat_stream.Fec.Encoder.{FecEncoder, build_group}
use lowlat_stream.Fec.Decoder.{FecDecoder, on_fec_packet}
use lowlat_stream.Fec.Encoder.{any_too_small, build_for_frame}
use lowlat_stream.Fec.Parity.{groups, parities}
use lowlat_stream.Fec.Frame.{group_count_of, build_for_frame_lem}
use lowlat_stream.Fec.Account.{IsAccounted, data_packet, fec_packet, run, run-IsAccounted}
use lowlat_stream.Fec.Member.{IsGroup}
use lowlat_stream.Fec.Recovery.{recovers_lost_packet}

abbrev encoder : FecEncoder
encoder = record {
  config = record { group_size = 4; min_group_size = 2 };
  stats = record { frames_seen = 0; fec_packets_built = 0; groups_skipped = 0; fec_bytes = 0 };
  next_fec_seq = 7;
}

-- Two packets: 1200 bytes and 5.
abbrev body : List ℕ
body = replicate 1205 9

abbrev view : EncodedFrameView
view = record { bytes = some body; frame_id = 3; capture_ms = 40; is_key = true }

-- The sequence numbers wrap inside the group.
abbrev last_seq : ℕ
last_seq = 0xffff_ffff

abbrev second : PacketBuffer
second = fragment 1 (add32 last_seq 1) view body 1 2 false

abbrev decoder : FecDecoder
decoder = record {
  limit = 64;
  stats = record {
    fec_packets_received = 0;
    fec_packets_malformed = 0;
    groups_complete = 0;
    groups_recovered = 0;
    groups_unrecoverable = 0;
    packets_recovered = 0;
    recent_packets = 1;
  };
  recent = second ∷ [];
}

two-IsGroup : IsGroup 1 last_seq 2 0 2 body
two-IsGroup = record {
  stream_fits = omega arith;
  base_fits = omega arith;
  at_least_two = omega arith;
  inside = omega arith;
  count_fits = omega arith;
  all_filled = omega arith;
}

is_second : (k : ℕ) → k < 2 → k ≢ 0 → k ≡ 1
is_second k lt ne = ground arith

recovers_lost_packet_example :
    let group = fragments 1 view body 2 last_seq 0 2 in
    let b = build_group encoder group last_seq 1 40 0 1 [] in
    (fec : PacketBuffer) × (b.1 ≡ [] ++ fec ∷ [])
    × (b.2 ≡ ok tt)
    × ((on_fec_packet decoder (some fec)).0
        ≡ some (fragment 1 (add32 last_seq 0) view body (0 + 0) 2 false))
recovers_lost_packet_example =
    recovers_lost_packet 1 last_seq 2 0 2 view body two-IsGroup encoder 40 0 1 [] decoder 0
      (omega arith) (omega arith) (omega arith) (omega arith)
      (inl (1, omega arith, omega arith, refl), tt)
      (λ k lt ne.
        inl (ap (λ k. fragment 1 (add32 last_seq k) view body (0 + k) 2 false) (is_second k lt ne)))

abbrev three : List PacketBuffer
three = replicate 3 (replicate 25 1)

build_for_frame_lem_example :
    let b = build_for_frame encoder three 0 1 40 in
    let count = group_count_of 3 4 in
    (b.2 ≡ ok tt)
    × (b.1 ≡ parities 0 1 40 count 2 7 0 0 (groups three 4 0 count))
    × (flatten (groups three 4 0 count) ≡ three)
    × (length b.1 + b.0.stats.groups_skipped ≡ 0 + count)
    × (b.0.stats.fec_packets_built ≡ 0 + length b.1)
    × (b.0.next_fec_seq ≡ add32 7 (length b.1))
unfolding any_too_small
build_for_frame_lem_example =
    build_for_frame_lem encoder three 0 1 40 (omega arith) (omega arith) (omega arith) (omega arith)
      (omega arith) refl

decoder-IsAccounted : IsAccounted decoder
decoder-IsAccounted = record { room = omega arith; shown = refl; balance = refl; one_each = refl }

run-IsAccounted_example :
    IsAccounted (run decoder (data_packet (some second) ∷ fec_packet none ∷ []))
run-IsAccounted_example =
    run-IsAccounted decoder (data_packet (some second) ∷ fec_packet none ∷ []) decoder-IsAccounted
