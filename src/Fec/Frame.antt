-- ===== src/Fec/Frame.antt =====
-- What `buildForFrame` does with a whole frame.
use lowlat_stream.Base.{
  ℕ, zero, suc, ◌+◌, ◌-◌, ◌*◌, ◌/◌, ◌%◌, ◌^◌, ◌≤◌, ◌<◌, ◌≡◌, ap, ap₂, subst, sym, ◌∙◌, min, false,
  ◌==◌, ◌||◌, if◌then◌else◌, List, [], ◌++◌, length, take, drop, flatten, arith, length-drop,
  take-append-drop, drop-drop, drop_all, take-min,
}
use lowlat_stream.Base.Words.{add32}
use lowlat_stream.Status.{ok}
use lowlat_stream.Packetizer.{PacketBuffer}
use lowlat_stream.Fec.Encoder.{FecEncoder, group_of, any_too_small, build_for_frame}
use lowlat_stream.Fec.Advance.{build_from-Advances}
use lowlat_stream.Fec.Parity.{groups, parities, Aligned, build_from-parities}

-- The groups cut the frame without a gap.
flatten-groups :
    (packets : List PacketBuffer) (group_size index k : ℕ)
    → length packets ≤ (index + k) * group_size
    → flatten (groups packets group_size index k) ≡ drop (index * group_size) packets
flatten-groups packets group_size index zero h =
    sym (drop_all (index * group_size) packets (omega arith))
flatten-groups packets group_size index (suc k) h =
    let first = index * group_size in
    let rest = drop first packets in
    let left = length-drop first packets in
    let size : min (first + group_size) (length packets) - first ≡ min group_size (length rest) =
      omega (arith, left) in
    let cut : group_of packets group_size index ≡ take group_size rest =
      ap (λ t. take t rest) size ∙ take-min group_size rest in
    let next : (suc index) * group_size ≡ first + group_size = omega arith in
    let later =
      flatten-groups packets group_size (suc index) k (ground (arith, h))
      ∙ ap (λ t. drop t packets) next
      ∙ sym (drop-drop group_size first packets) in
    ap₂ ◌++◌ cut later ∙ take-append-drop group_size rest

ceil_lem : (n g : ℕ) → 0 < g → n ≤ (n / g + (if n % g == 0 then 0 else 1)) * g
ceil_lem n g pos = ground arith

-- The number of groups of a frame.
abbrev pub group_count_of : ℕ → ℕ → ℕ
group_count_of n group_size = n / group_size + (if n % group_size == 0 then 0 else 1)

ceil-lt : (n g : ℕ) → 0 < g → group_count_of n g * g < n + g
ceil-lt n g pos = ground arith

Aligned-start :
    (packets : List PacketBuffer) (size count : ℕ)
    → count * size < length packets + size
    → Aligned packets size 0 0 count
Aligned-start packets size zero h = tt
Aligned-start packets size (suc k) h = (omega arith, omega arith)

-- A frame of packets that all hold their headers, with groups of at least one packet and a lower limit
-- of at least two, never fails: the groups cut the frame without a gap, and the packets of `out` are
-- those of the groups that are large enough, in order: each has the exclusive or of its group, the
-- number of the group's first packet, that is `base_seq` and the packets before it, the group's index
-- and the count of the groups, and the next number of the encoder. Each other group is counted as
-- skipped, and the numbers and the counters go on accordingly.
pub build_for_frame_lem :
    (e : FecEncoder) (packets : List PacketBuffer) (base_seq stream_id timestamp_ms : ℕ)
    → 0 < e.config.group_size
    → e.config.group_size < 2 ^ 16
    → 2 ≤ e.config.min_group_size
    → e.next_fec_seq < 2 ^ 32
    → 0 < length packets
    → any_too_small packets ≡ false
    → let b = build_for_frame e packets base_seq stream_id timestamp_ms in
      let count = group_count_of (length packets) e.config.group_size in
      (b.2 ≡ ok tt)
      × (b.1
          ≡ parities base_seq stream_id timestamp_ms count e.config.min_group_size e.next_fec_seq 0
              0
              (groups packets e.config.group_size 0 count))
      × (flatten (groups packets e.config.group_size 0 count) ≡ packets)
      × (length b.1 + b.0.stats.groups_skipped ≡ e.stats.groups_skipped + count)
      × (b.0.stats.fec_packets_built ≡ e.stats.fec_packets_built + length b.1)
      × (b.0.next_fec_seq ≡ add32 e.next_fec_seq (length b.1))
unfolding build_for_frame
build_for_frame_lem e packets base_seq stream_id timestamp_ms pos small two fits some_packets good =
    let s = e.stats in
    let e' : FecEncoder = record e { stats = record s { frames_seen = s.frames_seen + 1 } } in
    let count = group_count_of (length packets) e.config.group_size in
    let x =
      build_from-Advances packets base_seq stream_id timestamp_ms count e' 0 [] count two small
        fits in
    let enabled : (e.config.group_size == 0 || length packets == 0) ≡ false = ground arith in
    let size = e.config.group_size in
    let shift : count ≡ 0 + count = omega arith in
    let covered : length packets ≤ (0 + count) * size =
      subst (λ t. length packets ≤ t * size) shift (ceil_lem (length packets) size pos) in
    let start : 0 * size ≡ 0 = omega arith in
    rw (enabled, good, build_for_frame)
      (
        x.fine,
        build_from-parities packets base_seq stream_id timestamp_ms count e' 0 0 [] count two small
            fits (Aligned-start packets size count (ceil-lt (length packets) size pos)),
        flatten-groups packets size 0 count covered ∙ ap (λ t. drop t packets) start,
        omega (arith, x.all_counted),
        omega (arith, x.counted),
        omega (arith, x.numbered),
      )
