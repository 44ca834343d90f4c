-- ===== src/Packetizer/Packets.antt =====
-- What `Packetizer::packetize` returns on every frame.
use lowlat_stream.Base.{
  ℕ, zero, suc, ◌+◌, ◌*◌, ◌≤◌, ◌<◌, ◌^◌, ◌%◌, ◌≡◌, refl, ap, sym, ◌∙◌, Bool, false, List, [], ◌∷◌,
  ◌++◌, some, none, length, take, drop, map, flatten, take-append-drop, drop-drop, drop_all,
  length-resize, resize, arith, ◌⊎◌, ◌↔◌,
}
use lowlat_stream.Base.Words.{add32}
use lowlat_stream.Status.{ok, err, invalid_arg}
use lowlat_stream.Packet.Types.{max_payload, is_known_packet_type}
use lowlat_stream.Packet.Codec.{Buffer, decode_packet_header, decode_data_header}
use lowlat_stream.Packet.HeaderRound.{decode_packet_header-bytes, decode_data_header-bytes}
use lowlat_stream.Packetizer.{
  PacketBuffer, EncodedFrameView, fragment_packet_header, fragment_data_header, packetize_from,
  packetize, fragment_count, Packetizer, fragment_flags,
}
use lowlat_stream.Packetizer.Fragment.{fragment, packetize_one_fragment_lem}

module _ (stream_id : ℕ) (frame : EncodedFrameView) (bytes : List ℕ) (n : ℕ) where
  -- `k` fragments from the `i`th on, with consecutive sequence numbers.
  abbrev pub fragments : ℕ → ℕ → ℕ → List PacketBuffer
  fragments seq i zero = []
  fragments seq i (suc k) =
      fragment stream_id seq frame bytes i n false ∷ fragments (add32 seq 1) (suc i) k

  pub packetize_from_lem :
      (seq i : ℕ) (outs : List PacketBuffer)
      → frame.bytes ≡ some bytes
      → seq < 2 ^ 32
      → n < 2 ^ 16
      → i + length outs ≡ n
      → n * max_payload < length bytes + max_payload
      → packetize_from stream_id frame n seq i outs
        ≡ ok (fragments seq i (length outs), add32 seq (length outs))
  unfolding packetize_from
  packetize_from_lem seq i [] e s w l inside = ground arith
  packetize_from_lem seq i (out ∷ outs) e s w l inside =
      let small : i % 2 ^ 16 ≡ i = omega arith in
      let same : n % 2 ^ 16 ≡ n = omega arith in
      rw
        (
          small,
          same,
          packetize_one_fragment_lem stream_id seq frame bytes i n false out e (omega arith)
              (omega arith),
          packetize_from_lem (add32 seq 1) (suc i) outs e (omega arith) w (omega arith) inside,
        )
        (ap (λ t. ok (fragments seq i (suc (length outs)), t)) (omega arith))

  pub payloads-fragments :
      (seq i k : ℕ)
      → length bytes ≤ (i + k) * max_payload
      → flatten (map (drop 21) (fragments seq i k)) ≡ drop (i * max_payload) bytes
  payloads-fragments seq i zero h = sym (drop_all (i * max_payload) bytes (omega arith))
  payloads-fragments seq i (suc k) h =
      rw (payloads-fragments (add32 seq 1) (suc i) k (omega arith)) (
        ap (λ t. take max_payload (drop (i * max_payload) bytes) ++ t)
          (ap (λ t. drop t bytes) (omega arith)
            ∙ sym (drop-drop max_payload (i * max_payload) bytes))
        ∙ take-append-drop max_payload (drop (i * max_payload) bytes))

  pub length-fragments : (seq i k : ℕ) → length (fragments seq i k) ≡ k
  length-fragments seq i zero = refl
  length-fragments seq i (suc k) = ap suc (length-fragments (add32 seq 1) (suc i) k)

pub fragment_count_bounds :
    (len : ℕ)
    → (len ≤ fragment_count len * max_payload)
      × (fragment_count len * max_payload < len + max_payload)
unfolding fragment_count
fragment_count_bounds len = ground arith

pub packetize_run :
    (p : Packetizer) (frame : EncodedFrameView) (bytes : List ℕ) (outs : List PacketBuffer)
    → frame.bytes ≡ some bytes
    → 0 < length bytes
    → length bytes ≤ 65535 * max_payload
    → p.next_seq < 2 ^ 32
    → let n = fragment_count (length bytes) in
      packetize p frame outs
      ≡ ok (
        fragments p.stream_id frame bytes n p.next_seq 0 n,
        record p { next_seq = add32 p.next_seq n },
      )
unfolding packetize
packetize_run p frame bytes outs e some_bytes fits s = ground (
  arith,
  fragment_count_bounds (length bytes),
  length-resize (fragment_count (length bytes)) [] outs,
  packetize_from_lem p.stream_id frame bytes (fragment_count (length bytes)) p.next_seq 0
      (resize (fragment_count (length bytes)) [] outs) e s,
)

-- A frame of 1 to 65535 * 1200 bytes is always packetized: whatever `out` held before, there are
-- as many packets as `fragmentCount` says, their payloads in order are the bytes of the frame, the
-- sequence number advances by the number of packets, and the stream identifier stays.
pub packetize_delivers :
    (p : Packetizer) (frame : EncodedFrameView) (bytes : List ℕ) (outs : List PacketBuffer)
    → frame.bytes ≡ some bytes
    → 0 < length bytes
    → length bytes ≤ 65535 * max_payload
    → p.next_seq < 2 ^ 32
    → (packets : List PacketBuffer) × (q : Packetizer) × (packetize p frame outs ≡ ok (packets, q))
      × (length packets ≡ fragment_count (length bytes))
      × (flatten (map (drop 21) packets) ≡ bytes)
      × (q.next_seq ≡ add32 p.next_seq (length packets))
      × (q.stream_id ≡ p.stream_id)
packetize_delivers p frame bytes outs e some_bytes fits s =
    let n = fragment_count (length bytes) in
    let count = length-fragments p.stream_id frame bytes n p.next_seq 0 n in
    (
      fragments p.stream_id frame bytes n p.next_seq 0 n,
      record p { next_seq = add32 p.next_seq n },
      packetize_run p frame bytes outs e some_bytes fits s,
      count,
      payloads-fragments p.stream_id frame bytes n p.next_seq 0 n
          (omega (arith, fragment_count_bounds (length bytes))),
      rw count,
      refl,
    )

-- A null or empty frame, or one that needs more than 65535 fragments.
abbrev pub Refused : Buffer → Type 0
Refused none = Unit
Refused (some bytes) = (length bytes ≡ 0) ⊎ (65535 * max_payload < length bytes)

packetize_refuses :
    (p : Packetizer) (frame : EncodedFrameView) (outs : List PacketBuffer) (b : Buffer)
    → frame.bytes ≡ b
    → Refused b
    → packetize p frame outs ≡ err invalid_arg
unfolding packetize
packetize_refuses p frame outs none e r = ground arith
packetize_refuses p frame outs (some bytes) e r =
    ground (arith, fragment_count_bounds (length bytes))

packetize-Refused :
    (p : Packetizer) (frame : EncodedFrameView) (outs : List PacketBuffer) (b : Buffer)
    → p.next_seq < 2 ^ 32
    → frame.bytes ≡ b
    → packetize p frame outs ≡ err invalid_arg
    → Refused b
packetize-Refused p frame outs none s e h = tt
packetize-Refused p frame outs (some bytes) s e h =
    ground (arith, packetize_run p frame bytes outs e)

-- `packetize` fails with InvalidArg exactly on a null or empty frame and on one that needs more
-- than 65535 fragments.
pub packetize_fails :
    (p : Packetizer) (frame : EncodedFrameView) (outs : List PacketBuffer)
    → p.next_seq < 2 ^ 32
    → (packetize p frame outs ≡ err invalid_arg) ↔ Refused frame.bytes
packetize_fails p frame outs s = (
  packetize-Refused p frame outs frame.bytes s refl,
  packetize_refuses p frame outs frame.bytes refl,
)

fragment_flags_fits : (k r : Bool) → fragment_flags k r < 2 ^ 8
fragment_flags_fits k r = ground arith

-- What a receiver reads in the headers of a fragment that was built for a stream identifier, a
-- sequence number, an index and a count that fit their fields.
pub fragment_headers :
    (stream_id seq : ℕ) (frame : EncodedFrameView) (bytes : List ℕ) (i n : ℕ) (rt : Bool)
    → stream_id < 2 ^ 16
    → seq < 2 ^ 32
    → i < n
    → n < 2 ^ 16
    → let packet = fragment stream_id seq frame bytes i n rt in
      (decode_packet_header (some packet) ≡ ok (fragment_packet_header stream_id seq frame))
      × (decode_data_header (some (drop 12 packet)) ≡ ok (fragment_data_header frame i n rt))
unfolding is_known_packet_type
fragment_headers stream_id seq frame bytes i n rt a b c d = (
  decode_packet_header-bytes (fragment_packet_header stream_id seq frame) _ (omega arith) refl refl,
  decode_data_header-bytes (fragment_data_header frame i n rt) _
      (record {
        frame_id_fits = omega arith;
        frag_index_fits = omega arith;
        frag_count_fits = omega arith;
        flags_fits = fragment_flags_fits frame.is_key rt;
      })
      c,
)
