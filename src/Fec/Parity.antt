-- ===== src/Fec/Parity.antt =====
-- FecEncoder.cpp, buildForFrame(): which packet each group gives.
use lowlat_stream.Base.{
  ℕ, zero, suc, ◌+◌, ◌-◌, ◌*◌, ◌%◌, ◌^◌, ◌≤◌, ◌<◌, ◌≡◌, refl, ap, subst, sym, ◌∙◌, min, true, false,
  ltb, if◌then◌else◌, List, [], ◌∷◌, ◌++◌, length, drop, replicate, arith, length-take, length-drop,
  append_nil, append_assoc, Bool-cases, inl, inr,
}
use lowlat_stream.Base.Words.{add32}
use lowlat_stream.Status.{ok}
use lowlat_stream.Packet.Types.{FecHeader, is_known_packet_type}
use lowlat_stream.Packetizer.{PacketBuffer}
use lowlat_stream.Fec.Encoder.{
  FecEncoder, FecEncoderConfig, skip_group, xor_group, max_payload_of, fec_packet_header,
  build_group, group_of, build_step, build_from,
}
use lowlat_stream.Fec.Advance.{build_step-Advances}
use lowlat_stream.Fec.Layout.{fec_packet, fill_packet_lem}

abbrev pub groups : List PacketBuffer → ℕ → ℕ → ℕ → List (List PacketBuffer)
groups packets group_size index zero = []
groups packets group_size index (suc k) =
    group_of packets group_size index ∷ groups packets group_size (suc index) k

-- The packet of a group whose first packet has `offset` others of the frame before it.
abbrev pub parity :
    (base_seq stream_id timestamp_ms count seq offset index : ℕ) → List PacketBuffer → PacketBuffer
parity base_seq stream_id timestamp_ms count seq offset index group =
    let (len, buf) = xor_group 0 (replicate (max_payload_of 0 group) 0) group in
    fec_packet (fec_packet_header stream_id seq timestamp_ms)
      (record {
        group_base_seq = add32 base_seq offset;
        group_size = length group % 2 ^ 16;
        payload_len_xor = len;
        group_index = index % 2 ^ 8;
        group_count = count % 2 ^ 8;
        reserved = 0;
      })
      buf

-- The packets of the groups of a frame, from the one with this index on. A group that is too small has
-- none and uses no sequence number.
abbrev pub parities :
    (base_seq stream_id timestamp_ms count least seq offset index : ℕ)
    → List (List PacketBuffer)
    → List PacketBuffer
parities base_seq stream_id timestamp_ms count least seq offset index [] = []
parities base_seq stream_id timestamp_ms count least seq offset index (group ∷ later) =
    let next = offset + length group in
    let skipped = parities base_seq stream_id timestamp_ms count least seq next (suc index) later in
    let rest =
      parities base_seq stream_id timestamp_ms count least (add32 seq 1) next (suc index) later in
    if ltb (length group) least
    then skipped
    else parity base_seq stream_id timestamp_ms count seq offset index group ∷ rest

-- With `k` groups to go, none of them is empty, and the packets before them are counted.
abbrev pub Aligned : List PacketBuffer → (size offset index k : ℕ) → Type 0
Aligned packets size offset index zero = Unit
Aligned packets size offset index (suc k) =
    (offset ≡ index * size) × (index * size + k * size < length packets)

length-group_of :
    (packets : List PacketBuffer) (size index : ℕ)
    → length (group_of packets size index)
      ≡ min (index * size + size) (length packets) - index * size
length-group_of packets size index =
    let first = index * size in
    let left = length-drop first packets in
    length-take (min (first + size) (length packets) - first) (drop first packets)
    ∙ omega (arith, left)

Aligned-next :
    (packets : List PacketBuffer) (size offset index k : ℕ)
    → Aligned packets size offset index (suc k)
    → Aligned packets size (offset + length (group_of packets size index)) (suc index) k
Aligned-next packets size offset index zero v = tt
Aligned-next packets size offset index (suc k) (at, lt) =
    let n = length-group_of packets size index in
    let more : (suc k) * size ≡ k * size + size = omega arith in
    let next : (suc index) * size ≡ index * size + size = omega arith in
    (omega (arith, at, lt, n, more, next), omega (arith, lt, more, next))

build_group-parity :
    (e : FecEncoder) (group : List PacketBuffer)
    (base_seq stream_id timestamp_ms index count offset : ℕ) (out : List PacketBuffer)
    → 2 ≤ length group
    → length group < 2 ^ 16
    → let b =
        build_group e group
          (add32 base_seq (offset % 2 ^ 32))
          stream_id
          timestamp_ms
          index
          count
          out in
      (b.1
        ≡ out
          ++ (parity base_seq stream_id timestamp_ms count e.next_fec_seq offset index group ∷ []))
      × (b.0.next_fec_seq ≡ add32 e.next_fec_seq 1)
unfolding build_group is_known_packet_type
build_group-parity e group base_seq stream_id timestamp_ms index count offset out two small =
    let (len, buf) = xor_group 0 (replicate (max_payload_of 0 group) 0) group in
    let h = fec_packet_header stream_id e.next_fec_seq timestamp_ms in
    let f : FecHeader = record {
      group_base_seq = add32 base_seq (offset % 2 ^ 32);
      group_size = length group % 2 ^ 16;
      payload_len_xor = len;
      group_index = index % 2 ^ 8;
      group_count = count % 2 ^ 8;
      reserved = 0;
    } in
    let same : add32 base_seq (offset % 2 ^ 32) ≡ add32 base_seq offset = omega arith in
    let filled = fill_packet_lem h f buf refl refl (omega arith) in
    rw (filled, build_group)
      (
        ap (λ x. out ++ (x.0 ∷ [])) filled
            ∙ ap
                (λ b.
                  out
                  ++ (fec_packet h
                        (record {
                          group_base_seq = b;
                          group_size = length group % 2 ^ 16;
                          payload_len_xor = len;
                          group_index = index % 2 ^ 8;
                          group_count = count % 2 ^ 8;
                          reserved = 0;
                        })
                        buf
                      ∷ []))
                same,
        refl,
      )

module _ (packets : List PacketBuffer) (base_seq stream_id timestamp_ms count : ℕ) where
  build_step-few :
      (e : FecEncoder) (index : ℕ) (out : List PacketBuffer)
      → ltb (length (group_of packets e.config.group_size index)) e.config.min_group_size ≡ true
      → build_step packets base_seq stream_id timestamp_ms count e index out
        ≡ (skip_group e, out, ok tt)
  unfolding build_step
  build_step-few e index out few = rw (few, build_step) refl

  build_step-parity :
      (e : FecEncoder) (index offset : ℕ) (out : List PacketBuffer)
      → let group = group_of packets e.config.group_size index in
        let b = build_step packets base_seq stream_id timestamp_ms count e index out in
        2 ≤ e.config.min_group_size
        → e.config.group_size < 2 ^ 16
        → ltb (length group) e.config.min_group_size ≡ false
        → offset ≡ index * e.config.group_size
        → (b.1
            ≡ out
              ++ (parity base_seq stream_id timestamp_ms count e.next_fec_seq offset index group
                  ∷ []))
          × (b.0.next_fec_seq ≡ add32 e.next_fec_seq 1)
  unfolding build_step
  build_step-parity e index offset out two small many at =
      let group = group_of packets e.config.group_size index in
      let n = length-group_of packets e.config.group_size index in
      let b =
        build_group-parity e group base_seq stream_id timestamp_ms index count
          (index * e.config.group_size) out (ground arith) (omega (arith, n, small)) in
      rw (many, at, build_step) b

  pub build_from-parities :
      (e : FecEncoder) (index offset : ℕ) (out : List PacketBuffer) (k : ℕ)
      → 2 ≤ e.config.min_group_size
      → e.config.group_size < 2 ^ 16
      → e.next_fec_seq < 2 ^ 32
      → Aligned packets e.config.group_size offset index k
      → (build_from packets base_seq stream_id timestamp_ms count e index out k).1
        ≡ out
          ++ parities base_seq stream_id timestamp_ms count e.config.min_group_size e.next_fec_seq
              offset index
              (groups packets e.config.group_size index k)
  unfolding build_from
  build_from-parities e index offset out zero two small fits v = sym (append_nil out)
  build_from-parities e index offset out (suc k) two small fits v =
      let size = e.config.group_size in
      let least = e.config.min_group_size in
      let group = group_of packets size index in
      let next = Aligned-next packets size offset index k v in
      let b = build_step packets base_seq stream_id timestamp_ms count e index out in
      let one =
        build_step-Advances packets base_seq stream_id timestamp_ms count e index out two small
          fits in
      let later : FecEncoderConfig → ℕ → List PacketBuffer = λ c q.
        parities base_seq stream_id timestamp_ms count c.min_group_size q (offset + length group)
          (suc index) (groups packets c.group_size (suc index) k) in
      let rest =
        build_from-parities b.0 (suc index) (offset + length group) b.1 k
          (subst (λ c. 2 ≤ c.min_group_size) (sym one.config_kept) two)
          (subst (λ c. c.group_size < 2 ^ 16) (sym one.config_kept) small)
          (omega (arith, one.numbered))
          (subst (λ c. Aligned packets c.group_size (offset + length group) (suc index) k)
            (sym one.config_kept) next)
        ∙ ap (λ c. b.1 ++ later c b.0.next_fec_seq) one.config_kept in
      elim (Bool-cases (ltb (length group) least)) [
        | inl few ↦
            let same = build_step-few e index out few in
            rw (few, one.fine, build_from)
              (rest
                ∙ ap (λ x. b.1 ++ later e.config x.0.next_fec_seq) same
                ∙ ap (λ x. x.1 ++ later e.config e.next_fec_seq) same)
        | inr many ↦
            let (made, seq) = build_step-parity e index offset out two small many v.0 in
            let q = add32 e.next_fec_seq 1 in
            let p =
              parity base_seq stream_id timestamp_ms count e.next_fec_seq offset index group in
            rw (many, one.fine, build_from)
              (rest
                ∙ ap (λ n. b.1 ++ later e.config n) seq
                ∙ ap (λ o. o ++ later e.config q) made
                ∙ append_assoc out (p ∷ []) (later e.config q))
      ]
