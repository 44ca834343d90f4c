-- ===== src/Fec/Advance.antt =====
-- FecEncoder.cpp, buildForFrame(): how the numbers and the counters go on from group to group.
use lowlat_stream.Base.{
  ℕ, zero, suc, ◌+◌, ◌-◌, ◌*◌, ◌%◌, ◌^◌, ◌≤◌, ◌<◌, ◌≡◌, refl, subst, sym, ◌∙◌, min, ltb, List, [],
  ◌∷◌, length, drop, replicate, arith, length-append, length-take, Bool-cases, inl, inr,
}
use lowlat_stream.Base.Words.{add32}
use lowlat_stream.Status.{ok}
use lowlat_stream.Packet.Types.{FecHeader, is_known_packet_type}
use lowlat_stream.Packetizer.{PacketBuffer}
use lowlat_stream.Fec.Encoder.{
  FecEncoder, Built, xor_group, max_payload_of, fec_packet_header, fill_packet, build_group,
  group_of, build_step, build_from,
}
use lowlat_stream.Fec.Layout.{fill_packet_lem}

-- `k` groups later: each was skipped or gave one packet, under the next number.
pub record Advances (k : ℕ) (e : FecEncoder) (out : List PacketBuffer) (b : Built) : Type 0 where
  pub fine : b.2 ≡ ok tt
  pub config_kept : b.0.config ≡ e.config
  pub all_counted : length b.1 + b.0.stats.groups_skipped ≡ length out + e.stats.groups_skipped + k
  pub counted : b.0.stats.fec_packets_built + length out ≡ e.stats.fec_packets_built + length b.1
  pub grown : length out ≤ length b.1
  pub numbered : b.0.next_fec_seq ≡ add32 e.next_fec_seq (length b.1 - length out)

build_group-Advances :
    (e : FecEncoder) (group : List PacketBuffer) (base_seq stream_id timestamp_ms index count : ℕ)
    (out : List PacketBuffer)
    → 2 ≤ length group
    → length group < 2 ^ 16
    → Advances 1 e out (build_group e group base_seq stream_id timestamp_ms index count out)
unfolding build_group is_known_packet_type
build_group-Advances e group base_seq stream_id timestamp_ms index count out two small =
    let (len, buf) = xor_group 0 (replicate (max_payload_of 0 group) 0) group in
    let h = fec_packet_header stream_id e.next_fec_seq timestamp_ms in
    let f : FecHeader = record {
      group_base_seq = base_seq;
      group_size = length group % 2 ^ 16;
      payload_len_xor = len;
      group_index = index % 2 ^ 8;
      group_count = count % 2 ^ 8;
      reserved = 0;
    } in
    let filled = fill_packet_lem h f buf refl refl (omega arith) in
    let p = (fill_packet h f buf).0 in
    let more = length-append out (p ∷ []) in
    rw (filled, build_group)
      (record {
        fine = refl;
        config_kept = refl;
        all_counted = omega (arith, more);
        counted = omega (arith, more);
        grown = omega (arith, more);
        numbered = omega (arith, more);
      })

Advances-append :
    (k l : ℕ) (e : FecEncoder) (out : List PacketBuffer) (b c : Built)
    → Advances k e out b
    → Advances l b.0 b.1 c
    → Advances (k + l) e out c
Advances-append k l e out b c x y = record {
  fine = y.fine;
  config_kept = y.config_kept ∙ x.config_kept;
  all_counted = omega (arith, x.all_counted, y.all_counted);
  counted = omega (arith, x.counted, y.counted);
  grown = omega (arith, x.grown, y.grown);
  numbered = omega (arith, x.numbered, y.numbered, x.grown, y.grown);
}

module _ (packets : List PacketBuffer) (base_seq stream_id timestamp_ms count : ℕ) where
  pub build_step-Advances :
      (e : FecEncoder) (index : ℕ) (out : List PacketBuffer)
      → 2 ≤ e.config.min_group_size
      → e.config.group_size < 2 ^ 16
      → e.next_fec_seq < 2 ^ 32
      → Advances 1 e out (build_step packets base_seq stream_id timestamp_ms count e index out)
  unfolding build_step
  build_step-Advances e index out two small fits =
      let group = group_of packets e.config.group_size index in
      let first = index * e.config.group_size in
      let size =
        length-take (min (first + e.config.group_size) (length packets) - first)
          (drop first packets) in
      elim (Bool-cases (ltb (length group) e.config.min_group_size)) [
        | inl few ↦
            rw (few, build_step)
              (record {
                fine = refl;
                config_kept = refl;
                all_counted = omega arith;
                counted = omega arith;
                grown = omega arith;
                numbered = omega arith;
              })
        | inr many ↦
            rw (many, build_step)
              (build_group-Advances e group (add32 base_seq (index * e.config.group_size % 2 ^ 32))
                stream_id timestamp_ms index count out (ground arith) (omega (arith, size)))
      ]

  pub build_from-Advances :
      (e : FecEncoder) (index : ℕ) (out : List PacketBuffer) (k : ℕ)
      → 2 ≤ e.config.min_group_size
      → e.config.group_size < 2 ^ 16
      → e.next_fec_seq < 2 ^ 32
      → Advances k e out (build_from packets base_seq stream_id timestamp_ms count e index out k)
  unfolding build_from
  build_from-Advances e index out zero two small fits = record {
    fine = refl;
    config_kept = refl;
    all_counted = omega arith;
    counted = omega arith;
    grown = omega arith;
    numbered = omega arith;
  }
  build_from-Advances e index out (suc k) two small fits =
      let b = build_step packets base_seq stream_id timestamp_ms count e index out in
      let one = build_step-Advances e index out two small fits in
      let rest =
        build_from-Advances b.0 (suc index) b.1 k
          (subst (λ c. 2 ≤ c.min_group_size) (sym one.config_kept) two)
          (subst (λ c. c.group_size < 2 ^ 16) (sym one.config_kept) small)
          (omega (arith, one.numbered)) in
      let c = build_from packets base_seq stream_id timestamp_ms count b.0 (suc index) b.1 k in
      let both = Advances-append 1 k e out b c one rest in
      let sum : 1 + k ≡ suc k = omega arith in
      rw (one.fine, build_from) (subst (λ n. Advances n e out c) sum both)
