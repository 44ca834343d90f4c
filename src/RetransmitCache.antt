-- ===== src/RetransmitCache.antt =====
-- modules/transport/RetransmitCache.h and RetransmitCache.cpp: the sender's recent frames, from which
-- a requested sequence number is turned back into a fragment. Counters do not wrap, but `bytes`,
-- which the code also subtracts from, is a size_t. `retention_ms` is an int; the code tests
-- `retentionMs > 0`, and a number that is not positive acts as 0 does.
pub mod Lookup
pub mod Evict
mod Tests
use lowlat_stream.Base.{
  ℕ, zero, suc, ◌+◌, ◌-◌, ◌%◌, ◌^◌, Bool, true, false, not, ltb, leb, ◌==◌, ◌&&◌, ◌||◌,
  if◌then◌else◌, Option, none, some, List, [], ◌∷◌, ◌++◌, length,
}
use lowlat_stream.Base.Words.{sub32}
use lowlat_stream.Packetizer.{EncodedFrameView}

pub record RetransmitCacheConfig : Type 0 where
  pub retention_ms : ℕ
  pub max_frames : ℕ

pub record RetransmitCacheStats : Type 0 where
  pub frames_stored : ℕ
  pub frames_evicted : ℕ
  pub hits : ℕ
  pub misses : ℕ
  pub frames : ℕ
  pub bytes : ℕ

pub record Entry : Type 0 where
  pub bytes : List ℕ
  pub capture_ms : ℕ
  pub frame_id : ℕ
  pub base_seq : ℕ
  pub frag_count : ℕ
  pub is_key : Bool
  pub stored_at_ms : ℕ

-- `entries` holds the oldest frame first.
pub record RetransmitCache : Type 0 where
  pub config : RetransmitCacheConfig
  pub stats : RetransmitCacheStats
  pub entries : List Entry

abbrev pub no_stats : RetransmitCacheStats
no_stats = record {
  frames_stored = 0;
  frames_evicted = 0;
  hits = 0;
  misses = 0;
  frames = 0;
  bytes = 0;
}

unfoldable pub init : RetransmitCacheConfig → RetransmitCache
init config = record { config = config; stats = no_stats; entries = [] }

-- `stats_.bytes -= oldest.data.size(); entries_.pop_front(); ++stats_.framesEvicted;`
abbrev pub drop_oldest : RetransmitCacheStats → Entry → RetransmitCacheStats
drop_oldest s e = record s {
  bytes = (s.bytes + 2 ^ 64 - length e.bytes) % 2 ^ 64;
  frames_evicted = s.frames_evicted + 1;
}

-- The break conditions of the loop of `evictExpired`.
abbrev pub stays : RetransmitCacheConfig → ℕ → Entry → Bool
stays config now_ms e =
    ltb now_ms e.stored_at_ms
    || (ltb 0 config.retention_ms && ltb (now_ms - e.stored_at_ms) config.retention_ms)

-- The loop of `evictExpired`. A call of itself stands under `let`, and is made only where it is used.
pub evict_loop :
    RetransmitCacheConfig
    → ℕ
    → RetransmitCacheStats
    → List Entry
    → RetransmitCacheStats × List Entry
evict_loop config now_ms s [] = (s, [])
evict_loop config now_ms s (e ∷ es) =
    let rest = evict_loop config now_ms (drop_oldest s e) es in
    if stays config now_ms e then (s, e ∷ es) else rest

-- `stats_.frames = entries_.size()`.
abbrev pub count_frames : RetransmitCache → RetransmitCache
count_frames c = let s = c.stats in record c { stats = record s { frames = length c.entries } }

unfoldable pub evict_expired : RetransmitCache → ℕ → RetransmitCache
evict_expired c now_ms =
    let (s, kept) = evict_loop c.config now_ms c.stats c.entries in
    count_frames (record c { stats = s; entries = kept })

-- The loop of `store` that holds the number of frames to `maxFrames`.
pub cap_loop : ℕ → RetransmitCacheStats → List Entry → RetransmitCacheStats × List Entry
cap_loop max_frames s [] = (s, [])
cap_loop max_frames s (e ∷ es) =
    let rest = cap_loop max_frames (drop_oldest s e) es in
    if not (max_frames == 0) && ltb max_frames (length (e ∷ es)) then rest else (s, e ∷ es)

-- From the sum of `bytes` on, with the new entry.
unfoldable pub append_entry : RetransmitCache → Entry → ℕ → RetransmitCache
append_entry c e now_ms =
    let s = c.stats in
    let entries = c.entries ++ e ∷ [] in
    let s' : RetransmitCacheStats = record s {
      bytes = (s.bytes + length e.bytes) % 2 ^ 64;
      frames_stored = s.frames_stored + 1;
      frames = length entries;
    } in
    let c' = evict_expired (record c { stats = s'; entries = entries }) now_ms in
    let (s'', kept) = cap_loop c.config.max_frames c'.stats c'.entries in
    count_frames (record c' { stats = s''; entries = kept })

-- `bytes` are the frame's, which the caller moves in; of the view only its other fields are read.
unfoldable pub store : RetransmitCache → EncodedFrameView → List ℕ → ℕ → ℕ → ℕ → RetransmitCache
store c view bytes base_seq frag_count now_ms =
    if frag_count == 0 || length bytes == 0
    then c
    else append_entry c
        (record {
          bytes = bytes;
          capture_ms = view.capture_ms;
          frame_id = view.frame_id;
          base_seq = base_seq;
          frag_count = frag_count;
          is_key = view.is_key;
          stored_at_ms = now_ms;
        })
        now_ms

pub record Found : Type 0 where
  pub view : EncodedFrameView
  pub frag_index : ℕ
  pub frag_count : ℕ

abbrev pub view_of : Entry → EncodedFrameView
view_of e = record {
  bytes = some e.bytes;
  frame_id = e.frame_id;
  capture_ms = e.capture_ms;
  is_key = e.is_key;
}

-- The scan of `find`.
pub find_in : ℕ → List Entry → Option Found
find_in seq [] = none
find_in seq (e ∷ es) =
    let fragment_index = sub32 seq e.base_seq in
    if leb e.frag_count fragment_index
    then find_in seq es
    else some (record {
      view = view_of e;
      frag_index = fragment_index % 2 ^ 16;
      frag_count = e.frag_count;
    })

-- `none` is a miss, which leaves the out-parameters alone.
unfoldable pub find : RetransmitCache → ℕ → Option Found × RetransmitCache
find c seq =
    let s = c.stats in
    elim (find_in seq c.entries) [
      | none ↦ (none, record c { stats = record s { misses = s.misses + 1 } })
      | some f ↦ (some f, record c { stats = record s { hits = s.hits + 1 } })
    ]

unfoldable pub reset : RetransmitCache → RetransmitCache
reset c = let s = c.stats in record c { entries = []; stats = record s { frames = 0; bytes = 0 } }
