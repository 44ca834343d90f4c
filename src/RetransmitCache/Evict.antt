-- ===== src/RetransmitCache/Evict.antt =====
-- What `RetransmitCache` holds after `store` and `evictExpired`, and its counters.
use lowlat_stream.Base.{
  ℕ, ◌+◌, ◌-◌, ◌%◌, ◌^◌, ◌≤◌, ◌<◌, ◌≡◌, refl, ◌⊎◌, inl, inr, false, not, ltb, ◌==◌, ◌&&◌, ◌||◌,
  if◌then◌else◌, List, [], ◌∷◌, ◌++◌, length, All, All-append, length-append, arith, Bool-cases,
}
use lowlat_stream.Packetizer.{EncodedFrameView, fragment_count}
use lowlat_stream.Packetizer.Packets.{fragment_count_bounds}
use lowlat_stream.RetransmitCache.{
  RetransmitCache, RetransmitCacheConfig, RetransmitCacheStats, Entry, drop_oldest, stays,
  evict_loop, evict_expired, cap_loop, append_entry, store,
}
use lowlat_stream.RetransmitCache.Lookup.{IsWhole}

abbrev pub total_bytes : List Entry → ℕ
total_bytes [] = 0
total_bytes (e ∷ es) = length e.bytes + total_bytes es

total_bytes-append : (es fs : List Entry) → total_bytes (es ++ fs) ≡ total_bytes es + total_bytes fs
total_bytes-append [] fs = omega arith
total_bytes-append (e ∷ es) fs = omega (arith, total_bytes-append es fs)

-- The counters agree with the entries.
pub record IsMeasured (s : RetransmitCacheStats) (es : List Entry) : Type 0 where
  pub measured : s.bytes ≡ total_bytes es
  pub small : total_bytes es < 2 ^ 64

-- From `es` to `kept` by evictions alone.
pub record Evicts (s : RetransmitCacheStats) (es : List Entry) (s' : RetransmitCacheStats)
    (kept : List Entry) : Type 0 where
  pub still : IsMeasured s' kept
  pub counted : s'.frames_evicted + length kept ≡ s.frames_evicted + length es
  pub stored : s'.frames_stored ≡ s.frames_stored
  pub whole : All IsWhole kept

evict_loop-Evicts :
    (config : RetransmitCacheConfig) (now_ms : ℕ) (s : RetransmitCacheStats) (es : List Entry)
    → All IsWhole es
    → IsMeasured s es
    → let (s', kept) = evict_loop config now_ms s es in Evicts s es s' kept
unfolding evict_loop
evict_loop-Evicts config now_ms s [] w m = record {
  still = m;
  counted = refl;
  stored = refl;
  whole = tt;
}
evict_loop-Evicts config now_ms s (e ∷ es) w m = elim (Bool-cases (stays config now_ms e)) [
  | inl old ↦ rw (old, evict_loop) (record { still = m; counted = refl; stored = refl; whole = w })
  | inr young ↦
      let ih = evict_loop-Evicts config now_ms (drop_oldest s e) es w.1 (omega arith) in
      rw (young, evict_loop)
        (record {
          still = ih.still;
          counted = omega (arith, ih.counted);
          stored = ih.stored;
          whole = ih.whole;
        })
]

cap_loop-Evicts :
    (max_frames : ℕ) (s : RetransmitCacheStats) (es : List Entry)
    → All IsWhole es
    → IsMeasured s es
    → let (s', kept) = cap_loop max_frames s es in
      Evicts s es s' kept × ((max_frames ≡ 0) ⊎ (length kept ≤ max_frames))
unfolding cap_loop
cap_loop-Evicts max_frames s [] w m =
    (record { still = m; counted = refl; stored = refl; whole = tt }, inr (omega arith))
cap_loop-Evicts max_frames s (e ∷ es) w m =
    elim (Bool-cases (not (max_frames == 0) && ltb max_frames (length (e ∷ es)))) [
      | inl over ↦
          let (ih, room) = cap_loop-Evicts max_frames (drop_oldest s e) es w.1 (omega arith) in
          rw (over, cap_loop)
            (
              record {
                still = ih.still;
                counted = omega (arith, ih.counted);
                stored = ih.stored;
                whole = ih.whole;
              },
              room,
            )
      | inr fits ↦
          rw (fits, cap_loop)
            (record { still = m; counted = refl; stored = refl; whole = w }, ground arith)
    ]

-- Every entry is a whole frame, and the counters of frames and bytes are right.
pub record IsValid (c : RetransmitCache) : Type 0 where
  pub whole : All IsWhole c.entries
  pub shown : c.stats.frames ≡ length c.entries
  pub measured : IsMeasured c.stats c.entries

-- What `append_entry` does to a valid cache.
record Appended (c c' : RetransmitCache) : Type 0 where
  valid : IsValid c'
  balance :
      c'.stats.frames_evicted + length c'.entries + c.stats.frames_stored
      ≡ c.stats.frames_evicted + length c.entries + c'.stats.frames_stored
  room : (c.config.max_frames ≡ 0) ⊎ (length c'.entries ≤ c.config.max_frames)

append_entry-Appended :
    (c : RetransmitCache) (e : Entry) (now_ms : ℕ)
    → IsValid c
    → IsWhole e
    → total_bytes c.entries + length e.bytes < 2 ^ 64
    → Appended c (append_entry c e now_ms)
unfolding append_entry evict_expired
append_entry-Appended c e now_ms v w small =
    let entries = c.entries ++ e ∷ [] in
    let s = c.stats in
    let s' : RetransmitCacheStats = record s {
      bytes = (s.bytes + length e.bytes) % 2 ^ 64;
      frames_stored = s.frames_stored + 1;
      frames = length entries;
    } in
    let (s₁, kept) = evict_loop c.config now_ms s' entries in
    let total = total_bytes-append c.entries (e ∷ []) in
    let one =
      evict_loop-Evicts c.config now_ms s' entries
        (All-append IsWhole c.entries (e ∷ []) v.whole (w, tt))
        (record { measured = omega (arith, v.measured); small = omega arith }) in
    let s₂ : RetransmitCacheStats = record s₁ { frames = length kept } in
    let (two, room) =
      cap_loop-Evicts c.config.max_frames s₂ kept one.whole
        (record { measured = one.still.measured; small = one.still.small }) in
    record {
      valid = record {
        whole = two.whole;
        shown = refl;
        measured = record { measured = two.still.measured; small = two.still.small };
      };
      balance = omega (
        arith,
        one.counted,
        two.counted,
        one.stored,
        two.stored,
        length-append c.entries (e ∷ []),
      );
      room = room;
    }

-- A frame that `packetize` cut into `frag_count` packets, the first under `base_seq`, is stored: the
-- cache stays valid, every frame that was ever counted as stored is held or counted as evicted, and
-- no more frames are held than the limit allows, if there is one. The bytes held, the new ones
-- included, are to fit a size_t.
pub store-IsValid :
    (c : RetransmitCache) (view : EncodedFrameView) (bytes : List ℕ)
    (base_seq frag_count now_ms : ℕ)
    → IsValid c
    → 0 < length bytes
    → frag_count ≡ fragment_count (length bytes)
    → frag_count < 2 ^ 16
    → base_seq < 2 ^ 32
    → total_bytes c.entries + length bytes < 2 ^ 64
    → let c' = store c view bytes base_seq frag_count now_ms in
      IsValid c'
      × (c'.stats.frames_evicted + length c'.entries + c.stats.frames_stored
          ≡ c.stats.frames_evicted + length c.entries + c'.stats.frames_stored)
      × ((c.config.max_frames ≡ 0) ⊎ (length c'.entries ≤ c.config.max_frames))
unfolding store
store-IsValid c view bytes base_seq frag_count now_ms v pos count fits base small =
    let e : Entry = record {
      bytes = bytes;
      capture_ms = view.capture_ms;
      frame_id = view.frame_id;
      base_seq = base_seq;
      frag_count = frag_count;
      is_key = view.is_key;
      stored_at_ms = now_ms;
    } in
    let done =
      append_entry-Appended c e now_ms v
        (record { count = count; nonempty = pos; count_fits = fits; base_fits = base }) small in
    let some_fragments : (frag_count == 0 || length bytes == 0) ≡ false =
      ground (arith, fragment_count_bounds (length bytes)) in
    rw (some_fragments, store) (done.valid, done.balance, done.room)

-- Stored in the order of time: every later entry was stored no earlier.
abbrev pub InOrder : List Entry → Type 0
InOrder [] = Unit {0}
InOrder (e ∷ es) = All (λ f. e.stored_at_ms ≤ f.stored_at_ms) es × InOrder es

-- The entries younger than the retention time.
abbrev pub keep_young : ℕ → ℕ → List Entry → List Entry
keep_young retention now_ms [] = []
keep_young retention now_ms (e ∷ es) =
    if ltb (now_ms - e.stored_at_ms) retention
    then e ∷ keep_young retention now_ms es
    else keep_young retention now_ms es

All-young :
    (retention now_ms : ℕ) (e : Entry) (es : List Entry)
    → now_ms - e.stored_at_ms < retention
    → All (λ f. e.stored_at_ms ≤ f.stored_at_ms) es
    → keep_young retention now_ms es ≡ es
All-young retention now_ms e [] young later = refl
All-young retention now_ms e (f ∷ fs) young later =
    ground (arith, All-young retention now_ms e fs young later.1)

evict_loop-keep_young :
    (config : RetransmitCacheConfig) (now_ms : ℕ) (s : RetransmitCacheStats) (es : List Entry)
    → InOrder es
    → All (λ e. e.stored_at_ms ≤ now_ms) es
    → (evict_loop config now_ms s es).1 ≡ keep_young config.retention_ms now_ms es
unfolding evict_loop
evict_loop-keep_young config now_ms s [] o p = refl
evict_loop-keep_young config now_ms s (e ∷ es) o p = ground (
  arith,
  evict_loop-keep_young config now_ms (drop_oldest s e) es o.1 p.1,
  All-young config.retention_ms now_ms e es,
)

-- `evictExpired` stops at the first entry that stays, and still keeps exactly the entries that are
-- younger than the retention time, if they were stored in the order of time and none later than now.
pub evict_expired-keep_young :
    (c : RetransmitCache) (now_ms : ℕ)
    → InOrder c.entries
    → All (λ e. e.stored_at_ms ≤ now_ms) c.entries
    → (evict_expired c now_ms).entries ≡ keep_young c.config.retention_ms now_ms c.entries
unfolding evict_expired
evict_expired-keep_young c now_ms o p = evict_loop-keep_young c.config now_ms c.stats c.entries o p
