-- ===== src/NackTracker/Tests.antt =====
-- Instances of the theorems on the tracker, and runs.
use lowlat_stream.Base.{some, ◌+◌, ◌≡◌, refl, true, false, [], ◌∷◌, length, All, arith, inl}
use lowlat_stream.Base.Maps.{lookup, update, remove}
use lowlat_stream.Packet.Types.{seq_newer_than}
use lowlat_stream.NackTracker.{
  NackTracker, NackTrackerConfig, GapState, init, on_packet, expire, emplace, register, fill_gap,
  advance, visit, visit_all, sort_by_age, insert_by_age, collect_nack_targets,
}
use lowlat_stream.NackTracker.Held.{held, fresh_gap}
use lowlat_stream.NackTracker.Valid.{
  IsValid, Accounts, newly_missing, newly_filled, newly_forgotten, on_packet_lem,
}
use lowlat_stream.NackTracker.Collect.{IsDue, OldestFirst, collect_nack_targets_lem}

abbrev config : NackTrackerConfig
config = record {
  min_reorder_packets = 2;
  max_reorder_packets = 64;
  max_requests_per_seq = 3;
  window_packets = 1024;
}

abbrev gap : GapState
gap = record { request_count = 0; last_request_at_highest_seq = 0; likely_key_frame = false }

-- Packets 1 and 2 are missing, the last packet was 5.
abbrev with_gaps : NackTracker
with_gaps = record {
  config = config;
  stats = record {
    packets_seen = 3;
    nacks_requested = 0;
    recovered = 0;
    given_up = 0;
    key_frames_given_up = 0;
    lost_for_real = 0;
    pending = 2;
    discontinuities = 0;
  };
  gaps = (2, gap) ∷ (1, gap) ∷ [];
  highest_seq = 5;
  reorder_packets = 2;
  has_baseline = true;
}

with_gaps-IsValid : IsValid with_gaps
unfolding lookup
with_gaps-IsValid = (
  record {
    highest_fits = omega arith;
    window_fits = omega arith;
    tracked = omega arith;
    distinct = (refl, (refl, tt));
    lost = refl;
    unborn = inl refl;
    keys = omega arith;
  },
  refl,
)

-- Packet 8 shows that 6 and 7 are missing.
on_packet_lem_example :
    let u = on_packet with_gaps 8 4 true in
    IsValid u
    × Accounts
        (newly_missing with_gaps 8)
        (newly_filled with_gaps 8)
        (newly_forgotten with_gaps 8)
        with_gaps
        u
    × (lookup 6 u.gaps ≡ held with_gaps 8 true 6)
on_packet_lem_example =
    on_packet_lem with_gaps 8 4 true 6 with_gaps-IsValid (omega arith) (omega arith)

-- That is a gap that nobody has asked for.
held_run : held with_gaps 8 true 6 ≡ some (fresh_gap true)
unfolding held seq_newer_than
held_run = refl

collect_nack_targets_lem_example :
    let (out, u) = collect_nack_targets with_gaps in
    IsValid u
    × Accounts 0 0 0 with_gaps u
    × (u.stats.nacks_requested ≡ 0 + length out)
    × All (IsDue with_gaps) out
    × OldestFirst 5 out
collect_nack_targets_lem_example = collect_nack_targets_lem with_gaps with_gaps-IsValid

targets : (collect_nack_targets with_gaps).0 ≡ 1 ∷ 2 ∷ []
unfolding collect_nack_targets visit visit_all sort_by_age insert_by_age lookup update remove
targets = refl

-- The first packet makes no gap; the third fills the wrap.
after_wrap : (on_packet (on_packet (init config) 0xffff_fffe 1 false) 1 1 false).stats.pending ≡ 2
unfolding on_packet init advance fill_gap expire register emplace lookup seq_newer_than
after_wrap = refl
