-- ===== src/NackTracker/Valid.antt =====
-- The invariant of the tracker, its counters included, and what each call does to the accounts.
use lowlat_stream.Base.{
  ℕ, ◌+◌, ◌-◌, ◌≤◌, ◌<◌, ◌^◌, ◌≡◌, refl, Bool, true, false, not, ltb, leb, ◌==◌, ◌&&◌, min,
  if◌then◌else◌, [], none, some, length, All, arith, Option-cases, inl, inr, ◌⊎◌,
}
use lowlat_stream.Base.Words.{sub32}
use lowlat_stream.Base.Maps.{lookup, Distinct, All-remove, Distinct-remove, length-remove}
use lowlat_stream.Packet.Types.{seq_newer_than}
use lowlat_stream.Packet.Seq.{newer_distance}
use lowlat_stream.NackTracker.{
  NackTracker, GapState, expire, advance, fill_gap, rebase, note_packet, on_packet,
}
use lowlat_stream.NackTracker.Held.{held, fill_gap-held, advance-held}
use lowlat_stream.NackTracker.Gaps.{
  IsTracked, expire-GaveUp, expire-IsTracked, Distinct-expire, IsTracked-down, register_lem,
}

abbrev pub TrackedBy : NackTracker → ℕ × GapState → Type 0
TrackedBy t = IsTracked t.highest_seq t.config.window_packets t.config.max_requests_per_seq 0

-- Every gap is younger than the window and has been asked for at most as often as allowed, no gap is
-- held twice, there is none before the first packet, and every number that was given up is counted
-- as lost.
pub record IsConsistent (t : NackTracker) : Type 0 where
  pub highest_fits : t.highest_seq < 2 ^ 32
  pub window_fits : t.config.window_packets ≤ 2 ^ 31
  pub tracked : All (TrackedBy t) t.gaps
  pub distinct : Distinct t.gaps
  pub lost : t.stats.lost_for_real ≡ t.stats.given_up
  pub unborn : (t.has_baseline ≡ true) ⊎ (t.gaps ≡ [])
  pub keys : t.stats.key_frames_given_up ≤ t.stats.given_up

-- And the counter of pending numbers is right, as it is between two calls.
abbrev pub IsValid : NackTracker → Type 0
IsValid t = IsConsistent t × (t.stats.pending ≡ length t.gaps)

-- The accounts of one call: `skipped` numbers newly missing, `filled` gaps closed by a packet, and
-- `dropped` gaps forgotten at a discontinuity.
pub record Accounts (skipped filled dropped : ℕ) (t u : NackTracker) : Type 0 where
  pub balance :
      u.stats.given_up + length u.gaps + filled + dropped
      ≡ t.stats.given_up + length t.gaps + skipped
  pub shown : u.stats.pending ≡ length u.gaps
  pub config_kept : u.config ≡ t.config

module _ (t : NackTracker) (v : IsConsistent t) (seq : ℕ) (fits : seq < 2 ^ 32) where
  -- What `expire` leaves is older than the packet is new.
  advance-past :
      seq_newer_than seq t.highest_seq ≡ true
      → All
          (IsTracked seq t.config.window_packets t.config.max_requests_per_seq
            (sub32 seq t.highest_seq))
          (expire t.config.window_packets seq t.stats t.gaps).1
  advance-past newer =
      expire-IsTracked t.config.window_packets t.highest_seq seq t.config.max_requests_per_seq
        (sub32 seq t.highest_seq) t.stats t.gaps v.highest_fits fits refl
        (newer_distance seq t.highest_seq newer).1 v.window_fits v.tracked

  advance-IsValid :
      (is_key : Bool)
      → t.has_baseline ≡ true
      → seq_newer_than seq t.highest_seq ≡ true
      → sub32 seq t.highest_seq < t.config.window_packets
      → let forward = sub32 seq t.highest_seq in
        let u = advance t seq forward is_key in
        IsConsistent u × Accounts (forward - 1) 0 0 t u × (u.highest_seq ≡ seq)
  unfolding advance
  advance-IsValid is_key born newer inside =
      let window = t.config.window_packets in
      let limit = t.config.max_requests_per_seq in
      let forward = sub32 seq t.highest_seq in
      let near = newer_distance seq t.highest_seq newer in
      let age = forward - 1 in
      let all_tracked : min age (if window == 0 then 0 else window - 1) ≡ age = ground arith in
      let (up, fewer) = expire-GaveUp window seq t.stats t.gaps in
      let kept = (expire window seq t.stats t.gaps).1 in
      let past = advance-past newer in
      let (n, tr, di) =
        register_lem seq window limit is_key age kept fits v.window_fits (ground arith)
          (IsTracked-down seq window limit forward age kept (omega arith) past)
          (Distinct-expire window seq t.stats t.gaps v.distinct) in
      rw (all_tracked, advance)
        (
          record {
            highest_fits = fits;
            window_fits = v.window_fits;
            tracked = tr;
            distinct = di;
            lost = omega (arith, up, v.lost);
            unborn = inl born;
            keys = omega (arith, up, v.keys);
          },
          record { balance = omega (arith, up, fewer, n); shown = refl; config_kept = refl },
          refl,
        )

  fill_gap_lem :
      t.stats.pending ≡ length t.gaps
      → t.has_baseline ≡ true
      → IsConsistent (fill_gap t seq)
        × Accounts 0 (elim (lookup seq t.gaps) [ none ↦ 0 | some _ ↦ 1 ]) 0 t (fill_gap t seq)
  unfolding fill_gap
  fill_gap_lem shown born = elim (Option-cases (lookup seq t.gaps)) [
    | inl e ↦
        rw (e, fill_gap) (v, record { balance = omega arith; shown = shown; config_kept = refl })
    | inr (g, e) ↦
        rw (e, fill_gap)
          (
            record {
              highest_fits = v.highest_fits;
              window_fits = v.window_fits;
              tracked = All-remove (TrackedBy t) seq t.gaps v.tracked;
              distinct = Distinct-remove seq t.gaps v.distinct;
              lost = ground (arith, v.lost);
              unborn = inl born;
              keys = ground (arith, v.keys);
            },
            record {
              balance = ground (arith, length-remove seq g t.gaps e);
              shown = refl;
              config_kept = refl;
            },
          )
  ]

  rebase_lem : IsConsistent (rebase t seq) × Accounts 0 0 (length t.gaps) t (rebase t seq)
  rebase_lem = ground (arith, v.lost, v.keys)

  first_lem :
      t.stats.pending ≡ length t.gaps
      → t.has_baseline ≡ false
      → let u = record t { highest_seq = seq; has_baseline = true } in
        IsConsistent u × Accounts 0 0 0 t u
  first_lem shown unborn =
      let none_yet : t.gaps ≡ [] = ground (arith, v.unborn) in
      (
        record {
          highest_fits = fits;
          window_fits = v.window_fits;
          tracked = rw none_yet tt;
          distinct = v.distinct;
          lost = v.lost;
          unborn = inl refl;
          keys = v.keys;
        },
        record { balance = omega arith; shown = shown; config_kept = refl },
      )

-- The numbers that a packet shows to be missing: those between the highest number and its own, when
-- it is newer and within the window.
pub newly_missing : NackTracker → ℕ → ℕ
newly_missing t seq =
    if t.has_baseline
      && seq_newer_than seq t.highest_seq
      && ltb (sub32 seq t.highest_seq) t.config.window_packets
    then sub32 seq t.highest_seq - 1
    else 0

-- The gap that a packet closes: its own, when it is not newer.
pub newly_filled : NackTracker → ℕ → ℕ
newly_filled t seq =
    if t.has_baseline && not (seq_newer_than seq t.highest_seq)
    then elim (lookup seq t.gaps) [ none ↦ 0 | some _ ↦ 1 ]
    else 0

-- The gaps that a packet a window or more ahead makes the tracker forget.
pub newly_forgotten : NackTracker → ℕ → ℕ
newly_forgotten t seq =
    if t.has_baseline
      && seq_newer_than seq t.highest_seq
      && leb t.config.window_packets (sub32 seq t.highest_seq)
    then length t.gaps
    else 0

note_packet-IsConsistent :
    (t : NackTracker) (n : ℕ) → IsConsistent t → IsConsistent (note_packet t n)
note_packet-IsConsistent t n v = ground arith

on_packet-IsValid :
    (t : NackTracker) (seq frag_count : ℕ) (is_key : Bool)
    → IsValid t
    → seq < 2 ^ 32
    → let u = on_packet t seq frag_count is_key in
      IsValid u × Accounts (newly_missing t seq) (newly_filled t seq) (newly_forgotten t seq) t u
unfolding on_packet newly_missing newly_filled newly_forgotten
on_packet-IsValid t seq frag_count is_key v fits =
    let t' = note_packet t frag_count in
    let c = note_packet-IsConsistent t frag_count v.0 in
    ground (
      arith,
      advance-IsValid t' c seq fits is_key,
      rebase_lem t' c seq fits,
      fill_gap_lem t' c seq fits v.1,
      first_lem t' c seq fits v.1,
    )

on_packet-held :
    (t : NackTracker) (seq frag_count : ℕ) (is_key : Bool) (k : ℕ)
    → IsConsistent t
    → seq < 2 ^ 32
    → k < 2 ^ 32
    → lookup k (on_packet t seq frag_count is_key).gaps ≡ held t seq is_key k
unfolding on_packet held lookup
on_packet-held t seq frag_count is_key k v fits k_fits =
    let t' = note_packet t frag_count in
    let c = note_packet-IsConsistent t frag_count v in
    let limit = t.config.max_requests_per_seq in
    ground (
      arith,
      v.unborn,
      fill_gap-held t' seq k k_fits c.distinct,
      advance-held t' seq k k_fits is_key limit fits,
      advance-past t' c seq fits,
    )

-- `onPacket` keeps the invariant, for a window of at most 2 ^ 31 packets, and keeps the accounts: as
-- many numbers as are newly missing enter, and nothing else enters or leaves but for those that are
-- given up, the gap that the packet itself fills, and the gaps that are forgotten, without being
-- counted as lost, when the packet is a window or more ahead. And it says of every number `k` what is
-- pending then: exactly the numbers between the highest one and the packet's, without a request yet,
-- and, as they were before, the others that were pending, less the packet's own and, after a packet
-- that is newer, those that have left the window; none after a packet a window or more ahead.
pub on_packet_lem :
    (t : NackTracker) (seq frag_count : ℕ) (is_key : Bool) (k : ℕ)
    → IsValid t
    → seq < 2 ^ 32
    → k < 2 ^ 32
    → let u = on_packet t seq frag_count is_key in
      IsValid u
      × Accounts (newly_missing t seq) (newly_filled t seq) (newly_forgotten t seq) t u
      × (lookup k u.gaps ≡ held t seq is_key k)
on_packet_lem t seq frag_count is_key k v fits k_fits =
    let (valid, accounts) = on_packet-IsValid t seq frag_count is_key v fits in
    (valid, accounts, on_packet-held t seq frag_count is_key k v.0 fits k_fits)
