-- ===== src/NackTracker.antt =====
-- modules/transport/NackTracker.h and NackTracker.cpp: which sequence numbers are missing, and which
-- of them to ask for again. The map of gaps is an association list, whose order no function reads:
-- the two loops over it count, and sort. Counters do not wrap. `max_requests_per_seq` is an int; a
-- negative one acts as 0 does, since request counts are not negative.
pub mod Gaps
pub mod Held
pub mod Valid
pub mod Collect
mod Tests
use lowlat_stream.Base.{
  ℕ, zero, suc, ◌+◌, ◌-◌, min, max, Bool, true, false, not, ltb, leb, ◌==◌, ◌&&◌, ◌||◌,
  if◌then◌else◌, Option, none, some, List, [], ◌∷◌, map, length,
}
use lowlat_stream.Base.Words.{sub32}
use lowlat_stream.Base.Maps.{lookup, update, remove}
use lowlat_stream.Packet.Types.{seq_newer_than}

pub record NackTrackerConfig : Type 0 where
  pub min_reorder_packets : ℕ
  pub max_reorder_packets : ℕ
  pub max_requests_per_seq : ℕ
  pub window_packets : ℕ

pub record NackTrackerStats : Type 0 where
  pub packets_seen : ℕ
  pub nacks_requested : ℕ
  pub recovered : ℕ
  pub given_up : ℕ
  pub key_frames_given_up : ℕ
  pub lost_for_real : ℕ
  pub pending : ℕ
  pub discontinuities : ℕ

pub record GapState : Type 0 where
  pub request_count : ℕ
  pub last_request_at_highest_seq : ℕ
  pub likely_key_frame : Bool

abbrev pub Gaps : Type 0
Gaps = List (ℕ × GapState)

pub record NackTracker : Type 0 where
  pub config : NackTrackerConfig
  pub stats : NackTrackerStats
  pub gaps : Gaps
  pub highest_seq : ℕ
  pub reorder_packets : ℕ
  pub has_baseline : Bool

abbrev pub no_stats : NackTrackerStats
no_stats = record {
  packets_seen = 0;
  nacks_requested = 0;
  recovered = 0;
  given_up = 0;
  key_frames_given_up = 0;
  lost_for_real = 0;
  pending = 0;
  discontinuities = 0;
}

unfoldable pub init : NackTrackerConfig → NackTracker
init config = record {
  config = config;
  stats = no_stats;
  gaps = [];
  highest_seq = 0;
  reorder_packets = 0;
  has_baseline = false;
}

abbrev pub clamp : ℕ → ℕ → ℕ → ℕ
clamp v lo hi = if ltb v lo then lo else if ltb hi v then hi else v

-- `++givenUp; ++lostForReal;` and `++keyFramesGivenUp` for a likely key frame.
abbrev pub give_up : GapState → NackTrackerStats → NackTrackerStats
give_up g s = record s {
  given_up = s.given_up + 1;
  lost_for_real = s.lost_for_real + 1;
  key_frames_given_up =
      if g.likely_key_frame then s.key_frames_given_up + 1 else s.key_frames_given_up;
}

-- `stats_.pending = gaps_.size()`.
abbrev pub count_pending : NackTracker → NackTracker
count_pending t = let s = t.stats in record t { stats = record s { pending = length t.gaps } }

-- The loop that gives up the gaps which have left the window.
pub expire : ℕ → ℕ → NackTrackerStats → Gaps → NackTrackerStats × Gaps
expire window highest s [] = (s, [])
expire window highest s ((seq, g) ∷ gaps) =
    let old = window == 0 || leb window (sub32 highest seq) in
    let (s', kept) = expire window highest (if old then give_up g s else s) gaps in
    (s', if old then kept else (seq, g) ∷ kept)

-- `map::emplace` leaves a key alone that is there.
unfoldable pub emplace : ℕ → GapState → Gaps → Gaps
emplace seq g gaps = elim (lookup seq gaps) [ none ↦ (seq, g) ∷ gaps | some _ ↦ gaps ]

-- The loop that registers the gaps of ages `age`, …, 1.
pub register : ℕ → Bool → ℕ → Gaps → Gaps
register highest is_key zero gaps = gaps
register highest is_key (suc age) gaps = register highest is_key age (
    emplace (sub32 highest (suc age))
      (record { request_count = 0; last_request_at_highest_seq = 0; likely_key_frame = is_key })
      gaps)

-- A packet that is not newer: late, retransmitted or repeated.
unfoldable pub fill_gap : NackTracker → ℕ → NackTracker
fill_gap t seq = elim (lookup seq t.gaps) [
  | none ↦ t
  | some g ↦
      let s = t.stats in
      let s' = if ltb 0 g.request_count then record s { recovered = s.recovered + 1 } else s in
      count_pending (record t { stats = s'; gaps = remove seq t.gaps })
]

-- A jump over a whole window: another stream.
abbrev pub rebase : NackTracker → ℕ → NackTracker
rebase t seq =
    let s = t.stats in
    record t {
      gaps = [];
      highest_seq = seq;
      stats = record s { discontinuities = s.discontinuities + 1; pending = 0 };
    }

-- A newer packet within the window, `forward` steps ahead.
unfoldable pub advance : NackTracker → ℕ → ℕ → Bool → NackTracker
advance t seq forward is_key =
    let window = t.config.window_packets in
    let (s, kept) = expire window seq t.stats t.gaps in
    let missing_count = forward - 1 in
    let max_tracked_age = if window == 0 then 0 else window - 1 in
    let tracked_count = min missing_count max_tracked_age in
    let immediately_given_up = missing_count - tracked_count in
    count_pending (record t {
      highest_seq = seq;
      stats = record s {
        given_up = s.given_up + immediately_given_up;
        lost_for_real = s.lost_for_real + immediately_given_up;
      };
      gaps = register seq is_key tracked_count kept;
    })

-- `++packetsSeen` and the new tolerance.
abbrev pub note_packet : NackTracker → ℕ → NackTracker
note_packet t frag_count =
    let s = t.stats in
    let lo = min t.config.min_reorder_packets t.config.max_reorder_packets in
    let hi = max t.config.min_reorder_packets t.config.max_reorder_packets in
    record t {
      stats = record s { packets_seen = s.packets_seen + 1 };
      reorder_packets = clamp frag_count lo hi;
    }

unfoldable pub on_packet : NackTracker → ℕ → ℕ → Bool → NackTracker
on_packet t₀ seq frag_count is_key =
    let t = note_packet t₀ frag_count in
    if not t.has_baseline
    then record t { highest_seq = seq; has_baseline = true }
    else if not (seq_newer_than seq t.highest_seq)
    then fill_gap t seq
    else (let forward = sub32 seq t.highest_seq in
        if leb t.config.window_packets forward then rebase t seq else advance t seq forward is_key)

-- `std::sort` by `highestSeq_ - a > highestSeq_ - b`.
pub insert_by_age : ℕ → ℕ → List ℕ → List ℕ
insert_by_age highest a [] = a ∷ []
insert_by_age highest a (b ∷ bs) =
    if ltb (sub32 highest a) (sub32 highest b) then b ∷ insert_by_age highest a bs else a ∷ b ∷ bs

pub sort_by_age : ℕ → List ℕ → List ℕ
unfolding insert_by_age
sort_by_age highest [] = []
sort_by_age highest (a ∷ seqs) = insert_by_age highest a (sort_by_age highest seqs)

-- One round of the loop over `oldestFirst`: whether `seq` is pushed to `out`, and the new state.
unfoldable pub visit : NackTracker → ℕ → Bool × NackTracker
visit t seq = elim (lookup seq t.gaps) [
  | none ↦ (false, t)
  | some g ↦
      if leb t.config.max_requests_per_seq g.request_count
      then (false, record t { stats = give_up g t.stats; gaps = remove seq t.gaps })
      else if ltb (sub32 t.highest_seq seq) t.reorder_packets
      then (false, t)
      else if ltb 0 g.request_count
          && ltb (sub32 t.highest_seq g.last_request_at_highest_seq) t.reorder_packets
      then (false, t)
      else (let g' : GapState = record g {
        request_count = g.request_count + 1;
        last_request_at_highest_seq = t.highest_seq;
      } in
          let s = t.stats in
          let s' : NackTrackerStats = record s { nacks_requested = s.nacks_requested + 1 } in
          if leb t.config.max_requests_per_seq g'.request_count
          then (true, record t { stats = give_up g' s'; gaps = remove seq t.gaps })
          else (true, record t { stats = s'; gaps = update seq g' t.gaps }))
]

pub visit_all : NackTracker → List ℕ → List ℕ × NackTracker
visit_all t [] = ([], t)
visit_all t (seq ∷ seqs) =
    let (asked, t') = visit t seq in
    let (out, t'') = visit_all t' seqs in (if asked then seq ∷ out else out, t'')

unfoldable pub collect_nack_targets : NackTracker → List ℕ × NackTracker
collect_nack_targets t =
    if not t.has_baseline || length t.gaps == 0
    then ([], t)
    else (let (out, t') = visit_all t (sort_by_age t.highest_seq (map (λ e. e.0) t.gaps)) in
        (out, count_pending t'))

unfoldable pub reset : NackTracker → NackTracker
reset t =
    let s = t.stats in
    record t {
      gaps = [];
      highest_seq = 0;
      reorder_packets = 0;
      has_baseline = false;
      stats = record s { pending = 0 };
    }
