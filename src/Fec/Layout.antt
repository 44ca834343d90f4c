-- ===== src/Fec/Layout.antt =====
-- The bytes of an FEC packet and of a packet that is put together again, and the last steps of the
-- decoder.
use lowlat_stream.Base.{
  ℕ, suc, ◌+◌, ◌-◌, ◌≤◌, ◌<◌, ◌%◌, ◌^◌, ◌≡◌, refl, ap, ◌∙◌, true, false, ltb, leb, ◌==◌, ◌||◌,
  bit_xor, some, List, [], ◌∷◌, ◌++◌, length, take, drop, replicate, overlay_all, arith,
  length-drop, length-replicate,
}
use lowlat_stream.Base.Bits.{bit_xor_assoc, bit_xor_self, bit_xor-zero}
use lowlat_stream.Base.Words.{add32, sub32}
use lowlat_stream.Status.{ok}
use lowlat_stream.Packet.Types.{
  PacketHeader, DataHeader, FecHeader, FitsPacketHeader, FitsFecHeader, is_known_packet_type,
}
use lowlat_stream.Packet.Codec.{encode_packet_header, encode_data_header, encode_fec_header}
use lowlat_stream.Packet.HeaderRound.{
  packet_header_bytes, data_header_bytes, fec_header_bytes, write_packet_header_lem,
  write_data_header_lem, write_fec_header_lem, decode_packet_header-bytes, decode_fec_header-bytes,
}
use lowlat_stream.Packetizer.{PacketBuffer}
use lowlat_stream.Packetizer.Fragment.{data_packet}
use lowlat_stream.Fec.Encoder.{fill_packet}
use lowlat_stream.Fec.Decoder.{
  FecDecoder, Member, recovered_packet_header, recovered_data_header, rebuild, recover, use_group,
  on_fec_packet, xor_members, missing_from, collect,
}

abbrev pub fec_packet : PacketHeader → FecHeader → List ℕ → PacketBuffer
fec_packet h f payload = packet_header_bytes h ++ (fec_header_bytes f ++ payload)

encode_packet_lem :
    (h : PacketHeader) (buf : List ℕ)
    → h.version ≡ 1
    → is_known_packet_type h.packet_type ≡ true
    → 12 ≤ length buf
    → encode_packet_header h (some buf) ≡ ok (packet_header_bytes h ++ drop 12 buf)
unfolding encode_packet_header
encode_packet_lem h buf v t le = ground (arith, write_packet_header_lem h buf)

encode_fec_lem :
    (f : FecHeader) (buf : List ℕ)
    → 2 ≤ f.group_size
    → 12 ≤ length buf
    → encode_fec_header f (some buf) ≡ ok (fec_header_bytes f ++ drop 12 buf)
unfolding encode_fec_header
encode_fec_lem f buf two le = ground (arith, write_fec_header_lem f buf)

encode_data_lem :
    (d : DataHeader) (buf : List ℕ)
    → d.frag_index < d.frag_count
    → 9 ≤ length buf
    → encode_data_header d (some buf) ≡ ok (data_header_bytes d ++ drop 9 buf)
unfolding encode_data_header
encode_data_lem d buf lt le = ground (arith, write_data_header_lem d buf)

pub fill_packet_lem :
    (h : PacketHeader) (f : FecHeader) (xor_buf : List ℕ)
    → h.version ≡ 1
    → is_known_packet_type h.packet_type ≡ true
    → 2 ≤ f.group_size
    → fill_packet h f xor_buf ≡ (fec_packet h f xor_buf, ok tt)
unfolding fill_packet
fill_packet_lem h f xor_buf v t two =
    let buf : List ℕ = replicate (24 + length xor_buf) 0 in
    let size = length-replicate {A = ℕ} (24 + length xor_buf) 0 in
    let one = encode_packet_lem h buf v t (omega (arith, size)) in
    let next = encode_fec_lem f (drop 12 buf) two (omega (arith, size, length-drop 12 buf)) in
    rw (one, next, fill_packet)
      (ap (λ t. (packet_header_bytes h ++ (fec_header_bytes f ++ t), ok tt))
        (overlay_all (drop 12 (drop 12 buf)) xor_buf
          (omega (arith, size, length-drop 12 buf, length-drop 12 (drop 12 buf)))))

pub bit_xor_cancel : (a s : ℕ) → bit_xor (bit_xor a s) s ≡ a
bit_xor_cancel a s = bit_xor_assoc a s s ∙ ap (bit_xor a) (bit_xor_self s) ∙ bit_xor-zero a

pub rebuild_lem :
    (m : Member) (seq len : ℕ) (out payload : List ℕ)
    → let index = add32 m.data_header.frag_index (sub32 seq m.packet_header.seq) in
      index < m.data_header.frag_count
      → m.data_header.frag_count < 2 ^ 16
      → len ≡ length payload
      → take len out ≡ payload
      → rebuild m seq len out
        ≡ some (data_packet (recovered_packet_header m seq) (recovered_data_header m index) payload)
unfolding rebuild is_known_packet_type
rebuild_lem m seq len out payload lt fits l t =
    let index = add32 m.data_header.frag_index (sub32 seq m.packet_header.seq) in
    let buf : List ℕ = replicate (21 + len) 0 in
    let size = length-replicate {A = ℕ} (21 + len) 0 in
    let h = recovered_packet_header m seq in
    let d = recovered_data_header m index in
    let one = encode_packet_lem h buf refl refl (omega (arith, size)) in
    let small : index % 2 ^ 16 < m.data_header.frag_count = omega arith in
    let next = encode_data_lem d (drop 12 buf) small (omega (arith, size, length-drop 12 buf)) in
    let inside : leb m.data_header.frag_count index ≡ false = ground arith in
    rw (inside, one, next, t, rebuild)
      (ap (λ t. some (packet_header_bytes h ++ (data_header_bytes d ++ t)))
        (overlay_all (drop 9 (drop 12 buf)) payload
          (omega (arith, size, l, length-drop 12 buf, length-drop 9 (drop 12 buf)))))

pub recover_lem :
    (f : FecHeader) (fec : List ℕ) (m : Member) (ms : List Member) (len : ℕ) (out : List ℕ)
    → xor_members f.payload_len_xor (drop 24 fec) (m ∷ ms) ≡ some (len, out)
    → 0 < len
    → len ≤ length out
    → recover f fec (m ∷ ms)
      ≡ rebuild m (add32 f.group_base_seq (missing_from (m ∷ ms) 0 f.group_size)) len out
unfolding recover
recover_lem f fec m ms len out e pos room =
    let good : (len == 0 || ltb (length out) len) ≡ false = ground arith in
    rw (e, good, recover) refl

pub use_group_lem :
    (d : FecDecoder) (f : FecHeader) (fec : List ℕ) (ms : List Member) (out : PacketBuffer)
    → collect f.group_base_seq f.group_size [] d.recent ≡ ms
    → f.group_size ≡ suc (length ms)
    → 0 < length ms
    → recover f fec ms ≡ some out
    → (use_group d f fec).0 ≡ some out
unfolding use_group
use_group_lem d f fec ms out c size some_left r =
    let not_all : (length ms == f.group_size) ≡ false = ground arith in
    let enough : leb (length ms) (f.group_size - 2) ≡ false = ground arith in
    rw (c, not_all, enough, r, use_group) refl

pub on_fec_packet_lem :
    (d : FecDecoder) (h : PacketHeader) (f : FecHeader) (buf : List ℕ)
    → 0 < d.limit
    → FitsPacketHeader h
    → FitsFecHeader f
    → h.version ≡ 1
    → h.packet_type ≡ 2
    → 2 ≤ f.group_size
    → let s = d.stats in
      on_fec_packet d (some (fec_packet h f buf))
      ≡ use_group
          (record d { stats = record s { fec_packets_received = s.fec_packets_received + 1 } })
          f
          (fec_packet h f buf)
unfolding on_fec_packet is_known_packet_type
on_fec_packet_lem d h f buf lim hf ff v t two =
    let on : (d.limit == 0) ≡ false = ground arith in
    let known : is_known_packet_type h.packet_type ≡ true = ground arith in
    let fec : (h.packet_type == 2) ≡ true = ground arith in
    let one = decode_packet_header-bytes h (fec_header_bytes f ++ buf) hf v known in
    let next = decode_fec_header-bytes f buf ff two in rw (on, one, fec, next, on_fec_packet) refl
