-- ===== src/NackTracker/Held.antt =====
-- NackTracker.cpp, onPacket(): which sequence numbers are pending after a packet.
use lowlat_stream.Base.{
  ℕ, zero, suc, ◌≤◌, ◌<◌, ◌^◌, ◌≡◌, Bool, not, ltb, leb, ◌==◌, ◌&&◌, ◌||◌, ◌-◌, min, if◌then◌else◌,
  Option, none, some, [], ◌∷◌, All, arith, Option-cases, inl, inr,
}
use lowlat_stream.Base.Words.{sub32}
use lowlat_stream.Base.Maps.{lookup, All-lookup, Distinct, lookup-remove_self, lookup-remove_ne}
use lowlat_stream.Packet.Types.{seq_newer_than}
use lowlat_stream.NackTracker.{
  NackTracker, NackTrackerStats, GapState, Gaps, expire, emplace, register, give_up, advance,
  fill_gap,
}
use lowlat_stream.NackTracker.Gaps.{IsTracked}

-- A gap that nobody has asked for yet.
abbrev pub fresh_gap : Bool → GapState
fresh_gap is_key = record {
  request_count = 0;
  last_request_at_highest_seq = 0;
  likely_key_frame = is_key;
}

lookup-expire_held :
    (window highest : ℕ) (s : NackTrackerStats) (gaps : Gaps) (k : ℕ)
    → lookup k (expire window highest s gaps).1
      ≡ (if window == 0 || leb window (sub32 highest k) then none else lookup k gaps)
unfolding expire lookup
lookup-expire_held window highest s [] k = ground arith
lookup-expire_held window highest s ((seq, g) ∷ gaps) k = ground (
  arith,
  lookup-expire_held window highest s gaps k,
  lookup-expire_held window highest (give_up g s) gaps k,
)

-- A number no older than the gaps are is not among them.
lookup_young :
    (highest window limit past k : ℕ) (gaps : Gaps)
    → All (IsTracked highest window limit past) gaps
    → sub32 highest k ≤ past
    → lookup k gaps ≡ none
lookup_young highest window limit past k gaps a h = elim (Option-cases (lookup k gaps)) [
  | inl e ↦ e
  | inr (g, e) ↦
      let v = All-lookup (IsTracked highest window limit past) k g gaps a e in
      absurd (omega (arith, v.older))
]

lookup-register :
    (highest : ℕ) (is_key : Bool) (n : ℕ) (gaps : Gaps) (k : ℕ)
    → highest < 2 ^ 32
    → k < 2 ^ 32
    → n < 2 ^ 32
    → lookup k (register highest is_key n gaps) ≡ (elim (lookup k gaps) [
      | some g ↦ some g
      | none ↦
          if ltb 0 (sub32 highest k) && leb (sub32 highest k) n
          then some (fresh_gap is_key)
          else none
    ])
unfolding register emplace lookup
lookup-register highest is_key zero gaps k h l m = ground arith
lookup-register highest is_key (suc n) gaps k h l m = ground (
  arith,
  lookup-register highest is_key n gaps k h l,
  lookup-register highest is_key n ((sub32 highest (suc n), fresh_gap is_key) ∷ gaps) k h l,
)

-- What is known of a number `k` after a packet: whether it is pending, and how often and when it was
-- asked for. `t` is the tracker before the packet.
unfoldable pub held : NackTracker → ℕ → Bool → ℕ → Option GapState
held t seq is_key k =
    let age = sub32 seq k in
    let forward = sub32 seq t.highest_seq in
    if not t.has_baseline
    then none
    else if not (seq_newer_than seq t.highest_seq)
    then (if k == seq then none else lookup k t.gaps)
    else if leb t.config.window_packets forward
    then none
    else if ltb 0 age && ltb age forward
    then some (fresh_gap is_key)
    else if leb t.config.window_packets age
    then none
    else lookup k t.gaps

module _ (t : NackTracker) (seq k : ℕ) (k_fits : k < 2 ^ 32) where
  pub fill_gap-held :
      Distinct t.gaps
      → lookup k (fill_gap t seq).gaps ≡ (if k == seq then none else lookup k t.gaps)
  unfolding fill_gap
  fill_gap-held d = elim (Option-cases (lookup seq t.gaps)) [
    | inl e ↦ rw (e, fill_gap) (ground (arith, e))
    | inr (g, e) ↦
        rw (e, fill_gap)
          (ground (arith, lookup-remove_self seq t.gaps d, lookup-remove_ne seq k t.gaps))
  ]

  pub advance-held :
      (is_key : Bool) (limit : ℕ)
      → seq < 2 ^ 32
      → 0 < t.config.window_packets
      → t.config.window_packets ≤ 2 ^ 31
      → sub32 seq t.highest_seq < t.config.window_packets
      → All
          (IsTracked seq t.config.window_packets limit (sub32 seq t.highest_seq))
          (expire t.config.window_packets seq t.stats t.gaps).1
      → lookup k (advance t seq (sub32 seq t.highest_seq) is_key).gaps ≡ (
          if ltb 0 (sub32 seq k) && ltb (sub32 seq k) (sub32 seq t.highest_seq)
          then some (fresh_gap is_key)
          else if leb t.config.window_packets (sub32 seq k)
          then none
          else lookup k t.gaps)
  unfolding advance
  advance-held is_key limit fits some_window small inside past =
      let window = t.config.window_packets in
      let forward = sub32 seq t.highest_seq in
      let age = forward - 1 in
      let kept = (expire window seq t.stats t.gaps).1 in
      let all_tracked : min age (if window == 0 then 0 else window - 1) ≡ age = ground arith in
      rw (all_tracked, advance)
        (ground (
          arith,
          lookup-register seq is_key age kept k fits k_fits (omega arith),
          lookup-expire_held window seq t.stats t.gaps k,
          lookup_young seq window limit forward k kept past,
        ))
