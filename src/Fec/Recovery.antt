-- ===== src/Fec/Recovery.antt =====
-- The packet that the decoder puts together from the group's other packets and the FEC packet that
-- the encoder has built over the group.
use lowlat_stream.Base.{
  ℕ, zero, suc, ◌+◌, ◌*◌, ◌≤◌, ◌<◌, ◌%◌, ◌^◌, ◌≡◌, ◌≢◌, inl, inr, Bool-cases, refl, ap, ap₂, sym,
  subst, ◌∙◌, false, ◌==◌, bit_xor, some, List, [], ◌∷◌, ◌++◌, length, get_or, take, drop,
  replicate, map, All, Elem, arith, length-drop, length-take, length-replicate,
}
use lowlat_stream.Base.Bits.{bit_xor_comm, bit_xor_assoc, bit_xor-zero, zero-bit_xor, bit_xor-fits}
use lowlat_stream.Base.Words.{add32, sub32}
use lowlat_stream.Status.{ok}
use lowlat_stream.Packet.Types.{
  PacketHeader, FecHeader, FitsPacketHeader, FitsFecHeader, max_payload, is_known_packet_type,
}
use lowlat_stream.Packetizer.{
  PacketBuffer, EncodedFrameView, fragment_packet_header, fragment_data_header,
}
use lowlat_stream.Packetizer.Fragment.{data_packet, fragment, slice}
use lowlat_stream.Packetizer.Packets.{fragments}
use lowlat_stream.Fec.Encoder.{
  FecEncoder, fec_packet_header, build_group, max_payload_of, xor_group,
}
use lowlat_stream.Fec.Decoder.{
  FecDecoder, Member, rebuild, recover, use_group, on_fec_packet, xor_members, missing_from,
  collect,
}
use lowlat_stream.Fec.Fold.{AllBut, offsets, fold-offsets, length-offsets, length-AllBut}
use lowlat_stream.Fec.Xor.{
  xor_sum, len16, byte, xor_members_lem, xor_group_lem, max_payload_of_lem, take_same,
}
use lowlat_stream.Fec.Member.{IsGroup, packet, member}
use lowlat_stream.Fec.Group.{IsKept, collect_whole, missing_from_lem}
use lowlat_stream.Fec.Layout.{
  fec_packet, fill_packet_lem, bit_xor_cancel, rebuild_lem, recover_lem, use_group_lem,
  on_fec_packet_lem,
}

length-map : {A : Type 0} (f : ℕ → A) (l : List ℕ) → length (map f l) ≡ length l
length-map f [] = refl
length-map f (k ∷ l) = ap suc (length-map f l)

All-offsets : (P : ℕ → Type 0) (i k a : ℕ) → All P (offsets i k) → i ≤ a → a < i + k → P a
All-offsets P i zero a all le lt = absurd (omega arith)
All-offsets P i (suc k) a (p, all) le lt = elim (Bool-cases (i == a)) [
  | inl here ↦ subst P (ground arith) p
  | inr later ↦ All-offsets P (suc i) k a all (ground arith) (omega arith)
]

All-imp : {P Q : ℕ → Type 0} (l : List ℕ) → ((k : ℕ) → P k → Q k) → All P l → All Q l
All-imp [] i a = tt
All-imp (k ∷ l) i (a, rest) = (i k a, All-imp l i rest)

module _ (stream_id base n first size : ℕ) (frame : EncodedFrameView) (bytes : List ℕ)
    (g : IsGroup stream_id base n first size bytes) where
  abbrev payload : ℕ → List ℕ
  payload k = slice bytes (first + k)

  abbrev own : ℕ → PacketBuffer
  own k = packet stream_id base n first size frame bytes g k

  -- An FEC packet over the group, as the decoder reads it.
  record IsFecOf (fec : PacketBuffer) : Type 0 where
    h : PacketHeader
    f : FecHeader
    buf : List ℕ
    laid_out : fec ≡ fec_packet h f buf
    h_fits : FitsPacketHeader h
    f_fits : FitsFecHeader f
    version : h.version ≡ 1
    is_fec : h.packet_type ≡ 2
    group_base : f.group_base_seq ≡ base
    group_size : f.group_size ≡ size
    lengths : f.payload_len_xor ≡ xor_sum (len16 payload) (offsets 0 size)
    sums : (i : ℕ) → get_or buf i 0 ≡ xor_sum (byte payload i) (offsets 0 size)
    room : (k : ℕ) → k < size → length (payload k) ≤ length buf

  length-payload :
      (k : ℕ) → k < size → (0 < length (payload k)) × (length (payload k) ≤ max_payload)
  length-payload k lt =
      let i = (first + k) * max_payload in
      let l = length-take max_payload (drop i bytes) in
      let r = length-drop i bytes in (omega (arith, l, r, g.inside, g.all_filled), omega (arith, l))

  -- The sum over the group, with the other members taken out again.
  left_over :
      (f : ℕ → ℕ) (j : ℕ) (l : List ℕ)
      → j < size
      → AllBut size j l
      → bit_xor (xor_sum f (offsets 0 size)) (xor_sum f l) ≡ f j
  left_over f j l lt a =
      ap (λ t. bit_xor t (xor_sum f l))
        (fold-offsets bit_xor bit_xor_comm bit_xor_assoc bit_xor-zero f size j l lt a)
      ∙ bit_xor_cancel (f j) (xor_sum f l)

  group_lem :
      (i k : ℕ)
      → fragments stream_id frame bytes n (add32 base i) (first + i) k ≡ map own (offsets i k)
  group_lem i zero = refl
  group_lem i (suc k) =
      let next : add32 (add32 base i) 1 ≡ add32 base (suc i) = omega (arith, g.base_fits) in
      let later : suc (first + i) ≡ first + suc i = omega arith in
      ap (◌∷◌ (own i))
        (ap₂ (λ q r. fragments stream_id frame bytes n q r k) next later ∙ group_lem (suc i) k)

  xor_sum-fits : (f : ℕ → ℕ) (l : List ℕ) → ((k : ℕ) → f k < 2 ^ 16) → xor_sum f l < 2 ^ 16
  xor_sum-fits f [] h = omega arith
  xor_sum-fits f (k ∷ l) h = bit_xor-fits 16 (f k) (xor_sum f l) (h k) (xor_sum-fits f l h)

  get_or-zeros : (m i : ℕ) → get_or {A = ℕ} (replicate m 0) i 0 ≡ 0
  get_or-zeros zero i = refl
  get_or-zeros (suc m) zero = refl
  get_or-zeros (suc m) (suc i) = get_or-zeros m i

  -- What `build_group` adds to `out` for the whole group.
  built :
      (e : FecEncoder) (timestamp_ms index count : ℕ) (out : List PacketBuffer)
      → e.next_fec_seq < 2 ^ 32
      → timestamp_ms < 2 ^ 32
      → let b =
          build_group e (map own (offsets 0 size)) base stream_id timestamp_ms index count out in
        (fec : PacketBuffer) × IsFecOf fec × (b.1 ≡ out ++ fec ∷ []) × (b.2 ≡ ok tt)
  unfolding build_group is_known_packet_type
  built e timestamp_ms index count out seq_fits time_fits =
      let group = map own (offsets 0 size) in
      let zeros : List ℕ = replicate (max_payload_of 0 group) 0 in
      let (least, most) = max_payload_of_lem payload own (λ k. refl) 0 (offsets 0 size) in
      let cleared = length-replicate {A = ℕ} (max_payload_of 0 group) 0 in
      let fits : All (λ k. length (payload k) ≤ length zeros) (offsets 0 size) =
        All-imp (offsets 0 size) (λ k le. omega (arith, le, cleared)) most in
      let (len, buf) = xor_group 0 zeros group in
      let (s, r) = xor_group_lem payload own (λ k. refl) 0 zeros (offsets 0 size) fits in
      let lens : len ≡ xor_sum (len16 payload) (offsets 0 size) =
        r ∙ zero-bit_xor (xor_sum (len16 payload) (offsets 0 size)) in
      let counted : length group ≡ size = length-map own (offsets 0 size) ∙ length-offsets 0 size in
      let h = fec_packet_header stream_id e.next_fec_seq timestamp_ms in
      let f : FecHeader = record {
        group_base_seq = base;
        group_size = length group % 2 ^ 16;
        payload_len_xor = len;
        group_index = index % 2 ^ 8;
        group_count = count % 2 ^ 8;
        reserved = 0;
      } in
      let sized : length group % 2 ^ 16 ≡ size = omega (arith, counted, g.inside, g.count_fits) in
      let filled = fill_packet_lem h f buf refl refl (omega (arith, sized, g.at_least_two)) in
      (
        fec_packet h f buf,
        record {
          h = h;
          f = f;
          buf = buf;
          laid_out = refl;
          h_fits = omega (arith, g.stream_fits);
          f_fits = record {
            group_base_seq_fits = g.base_fits;
            group_size_fits = omega arith;
            payload_len_xor_fits =
                omega
                  (arith, lens, xor_sum-fits (len16 payload) (offsets 0 size) (λ k. omega arith));
            group_index_fits = omega arith;
            group_count_fits = omega arith;
            reserved_fits = omega arith;
          };
          version = refl;
          is_fec = refl;
          group_base = refl;
          group_size = sized;
          lengths = lens;
          sums = λ i.
              s.bytes i
              ∙ ap (λ t. bit_xor t (xor_sum (byte payload i) (offsets 0 size)))
                  (get_or-zeros (max_payload_of 0 group) i)
              ∙ zero-bit_xor (xor_sum (byte payload i) (offsets 0 size));
          room = λ k lt.
              let it =
                All-offsets (λ k. length (payload k) ≤ length zeros) 0 size k fits (omega arith)
                  (omega arith) in
              omega (arith, it, s.same_length);
        },
        rw (filled, build_group) (ap (λ p. out ++ p.0 ∷ []) filled),
        rw (filled, build_group) refl,
      )

  module _ (fec : PacketBuffer) (w : IsFecOf fec) (j : ℕ) (lt : j < size) where
    abbrev own_member : ℕ → Member
    own_member k = member stream_id base n first size frame bytes g k

    recovered :
        (l : List ℕ)
        → AllBut size j l
        → 0 < length l
        → recover w.f fec (map own_member l) ≡ some (own j)
    recovered [] a pos = absurd (omega arith)
    recovered (k ∷ l) a pos =
        let short = length-payload j lt in
        let fits : All (λ k. length (payload k) ≤ length w.buf) (k ∷ l) =
          All-imp (k ∷ l) w.room a.below in
        let (out, s, r) =
          xor_members_lem payload own_member (λ k. refl) w.f.payload_len_xor w.buf (k ∷ l) fits in
        let len = bit_xor w.f.payload_len_xor (xor_sum (len16 payload) (k ∷ l)) in
        let len_is : len ≡ length (payload j) =
          ap (λ t. bit_xor t (xor_sum (len16 payload) (k ∷ l))) w.lengths
          ∙ left_over (len16 payload) j (k ∷ l) lt a
          ∙ omega (arith, short) in
        let body : drop 24 fec ≡ w.buf = ap (drop 24) w.laid_out in
        let whole : take (length (payload j)) out ≡ payload j =
          take_same (payload j) out (omega (arith, s.same_length, w.room j lt)) (λ i.
            s.bytes i
            ∙ ap (λ t. bit_xor t (xor_sum (byte payload i) (k ∷ l))) (w.sums i)
            ∙ left_over (byte payload i) j (k ∷ l) lt a) in
        let ms = map own_member l in
        let r' : xor_members w.f.payload_len_xor (drop 24 fec) (own_member k ∷ ms)
            ≡ some (length (payload j), out) =
          ap (λ b. xor_members w.f.payload_len_xor b (own_member k ∷ ms)) body
          ∙ r
          ∙ ap (λ t. some (t, out)) len_is in
        let room : length (payload j) ≤ length out = omega (arith, s.same_length, w.room j lt) in
        let seq_is : add32 w.f.group_base_seq (missing_from (own_member k ∷ ms) 0 w.f.group_size)
            ≡ add32 base j =
          ap₂ (λ b c. add32 b (missing_from (own_member k ∷ ms) 0 c)) w.group_base w.group_size
          ∙ ap (add32 base) (
              missing_from_lem stream_id base n first size frame bytes g j 0 size (k ∷ l) a.absent
                a.others (omega arith) (omega arith) (omega arith)) in
        let index = add32 (first + k) (sub32 (add32 base j) (add32 base k)) in
        let index_is : index ≡ first + j =
          omega (arith, a.below.0, g.base_fits, g.inside, g.count_fits) in
        let index_fits : index % 2 ^ 16 ≡ first + j =
          omega (arith, index_is, g.inside, g.count_fits) in
        recover_lem w.f fec (own_member k) ms (length (payload j)) out r' short.0 room
        ∙ ap (λ q. rebuild (own_member k) q (length (payload j)) out) seq_is
        ∙ rebuild_lem (own_member k) (add32 base j) (length (payload j)) out (payload j)
            (omega (arith, index_is, g.inside)) g.count_fits refl whole
        ∙ ap
            (λ v. some (
              data_packet (fragment_packet_header stream_id (add32 base j) frame)
                (fragment_data_header frame v n false) (payload j)))
            index_fits

    decoded :
        (d : FecDecoder)
        → 0 < d.limit
        → All (IsKept stream_id base n first size frame bytes g j) d.recent
        → ((k : ℕ) → k < size → k ≢ j → Elem (own k) d.recent)
        → (on_fec_packet d (some fec)).0 ≡ some (own j)
    decoded d on kept every =
        let (l, a, c) =
          collect_whole stream_id base n first size frame bytes g j d.recent kept every in
        let count = length-AllBut size j l lt a in
        let s = d.stats in
        let d' : FecDecoder = record d {
          stats = record s { fec_packets_received = s.fec_packets_received + 1 };
        } in
        let same = length-map own_member l in
        let run : collect w.f.group_base_seq w.f.group_size [] d.recent ≡ map own_member l =
          ap₂ (λ b c. collect b c [] d.recent) w.group_base w.group_size ∙ c in
        let used =
          use_group_lem d' w.f fec (map own_member l) (own j) run
            (omega (arith, w.group_size, count, same)) (omega (arith, count, same, g.at_least_two))
            (recovered l a (omega (arith, count, g.at_least_two))) in
        let read =
          on_fec_packet_lem d w.h w.f w.buf on w.h_fits w.f_fits w.version w.is_fec
            (omega (arith, w.group_size, g.at_least_two)) in
        ap (λ b. (on_fec_packet d (some b)).0) w.laid_out
        ∙ ap (λ t. t.0) read
        ∙ ap (λ b. (use_group d' w.f b).0) (sym w.laid_out)
        ∙ used

-- A lost packet comes back. The fragments of a frame from index `first` on, as `packetize` makes
-- them, are a group of `size`; the encoder adds one FEC packet over it to `out`. If the decoder then
-- keeps every packet of the group but the `j`th, in any order and any number of times, among packets
-- that are not in the group, the FEC packet makes it put together the `j`th packet, byte for byte.
pub recovers_lost_packet :
    (stream_id base n first size : ℕ) (frame : EncodedFrameView) (bytes : List ℕ)
    (g : IsGroup stream_id base n first size bytes) (e : FecEncoder) (timestamp_ms index count : ℕ)
    (out : List PacketBuffer) (d : FecDecoder) (j : ℕ)
    → e.next_fec_seq < 2 ^ 32
    → timestamp_ms < 2 ^ 32
    → 0 < d.limit
    → j < size
    → All (IsKept stream_id base n first size frame bytes g j) d.recent
    → ((k : ℕ)
        → k < size
        → k ≢ j
        → Elem (fragment stream_id (add32 base k) frame bytes (first + k) n false) d.recent)
    → let group = fragments stream_id frame bytes n base first size in
      let b = build_group e group base stream_id timestamp_ms index count out in
      (fec : PacketBuffer) × (b.1 ≡ out ++ fec ∷ [])
      × (b.2 ≡ ok tt)
      × ((on_fec_packet d (some fec)).0
          ≡ some (fragment stream_id (add32 base j) frame bytes (first + j) n false))
recovers_lost_packet stream_id base n first size frame bytes g e timestamp_ms index count out d j
      seq_fits time_fits on lt kept every =
    let (fec, w, added, fine) =
      built stream_id base n first size frame bytes g e timestamp_ms index count out seq_fits
        time_fits in
    let start : add32 base 0 ≡ base = omega (arith, g.base_fits) in
    let from : first + 0 ≡ first = omega arith in
    let group =
      ap₂ (λ q r. fragments stream_id frame bytes n q r size) (sym start) (sym from)
      ∙ group_lem stream_id base n first size frame bytes g 0 size in
    let same = ap (λ t. build_group e t base stream_id timestamp_ms index count out) group in
    (
      fec,
      ap (λ b. b.1) same ∙ added,
      ap (λ b. b.2) same ∙ fine,
      decoded stream_id base n first size frame bytes g fec w j lt d on kept every,
    )
