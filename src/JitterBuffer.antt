-- ===== src/JitterBuffer.antt =====
-- modules/transport/JitterBuffer.h and JitterBuffer.cpp: frames in any order in, in order and on time
-- out. The estimator of the delay is a parameter. The map of pending frames is the list of its
-- entries in the order of the keys. Counters do not wrap.
pub mod Pending
pub mod Valid
pub mod Session
pub mod Popped
pub mod Order
pub mod Due
pub mod Place
pub mod Resync
pub mod Latency
pub mod Tests
use lowlat_stream.Base.{
  ℕ, zero, suc, ◌+◌, ◌-◌, ◌*◌, ◌/◌, ◌%◌, ◌^◌, min, max, Bool, true, false, not, ltb, leb, ◌==◌,
  ◌&&◌, if◌then◌else◌, Option, none, some, List, [], ◌∷◌, length,
}
use lowlat_stream.Base.Words.{sub32}
use lowlat_stream.Base.Int.{ℤ}
use lowlat_stream.Base.Maps.{lookup}
use lowlat_stream.FrameAssembler.{AssembledFrame}

-- What the buffer asks of a DelayEstimator: the moment at which a frame with a time stamp that arrives
-- now is to be played, the measured round trip, and a restart.
pub record Estimator : Type 1 where
  pub State : Type 0
  pub observe : State → ℕ → ℕ → ℕ × State
  pub set_rtt_ms : State → ℤ → State
  pub reset : State → State

pub record JitterBufferConfig : Type 0 where
  pub max_frames : ℕ
  pub hard_limit_frames : ℕ
  pub start_on_key_frame : Bool

pub record JitterBufferStats : Type 0 where
  pub frames_in : ℕ
  pub frames_out : ℕ
  pub frames_too_late : ℕ
  pub frames_duplicate : ℕ
  pub frames_forced_early : ℕ
  pub frames_dropped : ℕ
  pub frames_dropped_for_resync : ℕ
  pub frames_before_key : ℕ
  pub frames_sampled_but_dropped : ℕ

abbrev pub no_stats : JitterBufferStats
no_stats = record {
  frames_in = 0;
  frames_out = 0;
  frames_too_late = 0;
  frames_duplicate = 0;
  frames_forced_early = 0;
  frames_dropped = 0;
  frames_dropped_for_resync = 0;
  frames_before_key = 0;
  frames_sampled_but_dropped = 0;
}

pub record Entry : Type 0 where
  pub frame : AssembledFrame
  pub play_at_ms : ℕ

abbrev pub Pending : Type 0
Pending = List (ℕ × Entry)

-- `numeric_limits<size_t>::max()`.
abbrev pub size_max : ℕ
size_max = 2 ^ 64 - 1

-- The hard limit that the constructor settles on.
unfoldable pub hard_limit : JitterBufferConfig → ℕ
hard_limit config =
    if config.hard_limit_frames == 0
    then (if ltb (size_max / 2) config.max_frames then size_max else max 1 (config.max_frames * 2))
    else config.hard_limit_frames

-- `map::emplace` of a key that is not there.
pub emplace : ℕ → Entry → Pending → Pending
emplace k e [] = (k, e) ∷ []
emplace k e ((j, f) ∷ m) = if ltb k j then (k, e) ∷ (j, f) ∷ m else (j, f) ∷ emplace k e m

-- The loop that holds the hard limit: the entries left, and how many were erased.
pub drop_over : ℕ → Pending → Pending × ℕ
drop_over limit [] = ([], 0)
drop_over limit (e ∷ m) =
    let rest = drop_over limit m in
    if ltb limit (length (e ∷ m)) then (rest.0, suc rest.1) else (e ∷ m, 0)

-- The loop that makes the first `n` entries due, and how many were not due before.
pub force_early : ℕ → Pending → Pending × ℕ
force_early zero m = (m, 0)
force_early (suc n) [] = ([], 0)
force_early (suc n) ((k, e) ∷ m) =
    let (m', forced) = force_early n m in
    ((k, record e { play_at_ms = 0 }) ∷ m', if e.play_at_ms == 0 then forced else suc forced)

module _ (E : Estimator) where
  pub record JitterBuffer : Type 0 where
    pub config : JitterBufferConfig
    pub pending : Pending
    pub ref_frame_id : ℕ
    pub ref_extended : ℕ
    pub has_ref : Bool
    pub estimator : E.State
    pub last_out_extended : ℕ
    pub has_output : Bool
    pub started : Bool
    pub stats : JitterBufferStats

  unfoldable pub init : JitterBufferConfig → E.State → JitterBuffer
  unfolding hard_limit
  init config estimator = record {
    config = record config { hard_limit_frames = hard_limit config };
    pending = [];
    ref_frame_id = 0;
    ref_extended = 0;
    has_ref = false;
    estimator = estimator;
    last_out_extended = 0;
    has_output = false;
    started = not config.start_on_key_frame;
    stats = no_stats;
  }

  -- The difference is read as an int32_t and added to the 64-bit number.
  unfoldable pub extend_frame_id : JitterBuffer → ℕ → JitterBuffer
  extend_frame_id b frame_id =
      if not b.has_ref
      then record b { ref_frame_id = frame_id; ref_extended = frame_id; has_ref = true }
      else (let delta = sub32 frame_id b.ref_frame_id in
          record b {
            ref_extended =
                if ltb delta (2 ^ 31)
                then (b.ref_extended + delta) % 2 ^ 64
                else (b.ref_extended + 2 ^ 64 - (2 ^ 32 - delta)) % 2 ^ 64;
            ref_frame_id = frame_id;
          })

  unfoldable pub enforce_capacity : JitterBuffer → JitterBuffer
  enforce_capacity b =
      let (kept, dropped) = drop_over b.config.hard_limit_frames b.pending in
      let (forced, early) = force_early (length kept - b.config.max_frames) kept in
      let s = b.stats in
      record b {
        pending = forced;
        stats = record s {
          frames_dropped = s.frames_dropped + dropped;
          frames_forced_early = s.frames_forced_early + early;
        };
      }

  abbrev pub before_key : JitterBuffer → JitterBuffer
  before_key b =
      let s = b.stats in
      record b {
        stats = record s {
          frames_before_key = s.frames_before_key + 1;
          frames_sampled_but_dropped = s.frames_sampled_but_dropped + 1;
        };
      }

  abbrev pub too_late : JitterBuffer → JitterBuffer
  too_late b =
      let s = b.stats in
      record b {
        stats = record s {
          frames_too_late = s.frames_too_late + 1;
          frames_sampled_but_dropped = s.frames_sampled_but_dropped + 1;
        };
      }

  -- From the test of `lastOutExtended_` on.
  unfoldable pub place : JitterBuffer → AssembledFrame → ℕ → JitterBuffer
  place b frame play_at =
      if b.has_output && leb b.ref_extended b.last_out_extended
      then too_late b
      else enforce_capacity (record b {
        pending = emplace b.ref_extended (record { frame = frame; play_at_ms = play_at }) b.pending;
      })

  -- From the gate on: `started_` is set by the first key frame.
  unfoldable pub gate : JitterBuffer → AssembledFrame → ℕ → JitterBuffer
  gate b frame play_at =
      if not b.started && not frame.is_key
      then before_key b
      else place (record b { started = true }) frame play_at

  -- From the search for a duplicate on; `extended` is `ref_extended` by then.
  unfoldable pub take_in : JitterBuffer → AssembledFrame → ℕ → JitterBuffer
  take_in b frame now_ms = elim (lookup b.ref_extended b.pending) [
    | some _ ↦
        let s = b.stats in
        record b { stats = record s { frames_duplicate = s.frames_duplicate + 1 } }
    | none ↦
        let (play_at, estimator) = E.observe b.estimator frame.timestamp_ms now_ms in
        gate (record b { estimator = estimator }) frame play_at
  ]

  unfoldable pub push : JitterBuffer → AssembledFrame → ℕ → JitterBuffer
  push b frame now_ms =
      let s = b.stats in
      let counted = record b { stats = record s { frames_in = s.frames_in + 1 } } in
      take_in (extend_frame_id counted frame.frame_id) frame now_ms

  -- The second argument is the map, whose first entry is the oldest.
  unfoldable pub pop_from : JitterBuffer → Pending → ℕ → Option (AssembledFrame × JitterBuffer)
  pop_from b [] now_ms = none
  pop_from b ((k, e) ∷ m) now_ms =
      if ltb now_ms e.play_at_ms
      then none
      else (let s = b.stats in
          some (
            e.frame,
            record b {
              pending = m;
              last_out_extended = k;
              has_output = true;
              stats = record s { frames_out = s.frames_out + 1 };
            },
          ))

  unfoldable pub pop : JitterBuffer → ℕ → Option (AssembledFrame × JitterBuffer)
  pop b now_ms = pop_from b b.pending now_ms

  -- `none` for the result -1 of an empty buffer.
  unfoldable pub due_from : Pending → ℕ → Option ℕ
  due_from [] now_ms = none
  due_from ((k, e) ∷ m) now_ms =
      some (if leb e.play_at_ms now_ms then 0 else min (e.play_at_ms - now_ms) (2 ^ 31 - 1))

  unfoldable pub ms_until_next_due : JitterBuffer → ℕ → Option ℕ
  ms_until_next_due b now_ms = due_from b.pending now_ms

  unfoldable pub reset : JitterBuffer → JitterBuffer
  reset b = record b {
    pending = [];
    ref_frame_id = 0;
    ref_extended = 0;
    has_ref = false;
    estimator = E.reset b.estimator;
    last_out_extended = 0;
    has_output = false;
    started = not b.config.start_on_key_frame;
    stats = no_stats;
  }

  unfoldable pub set_rtt_ms : JitterBuffer → ℤ → JitterBuffer
  set_rtt_ms b rtt_ms = record b { estimator = E.set_rtt_ms b.estimator rtt_ms }

  unfoldable pub drop_until_key_frame : JitterBuffer → JitterBuffer
  drop_until_key_frame b =
      let s = b.stats in
      record b {
        stats = record s {
          frames_dropped_for_resync = s.frames_dropped_for_resync + length b.pending;
        };
        pending = [];
        started = not b.config.start_on_key_frame;
      }
