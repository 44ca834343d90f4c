-- ===== src/RetransmitCache/Tests.antt =====
-- Instances of the theorems on the cache.
use lowlat_stream.Base.{
  ℕ, ◌+◌, ◌≤◌, ◌<◌, ◌≡◌, refl, ◌⊎◌, true, false, [], ◌∷◌, none, some, length, All, Elem, arith,
}
use lowlat_stream.Base.Words.{add32}
use lowlat_stream.Status.{ok}
use lowlat_stream.Packetizer.{EncodedFrameView, packetize_one_fragment, fragment_count}
use lowlat_stream.Packetizer.Fragment.{fragment}
use lowlat_stream.RetransmitCache.{
  RetransmitCache, Entry, Found, find, store, evict_expired, view_of,
}
use lowlat_stream.RetransmitCache.Lookup.{Covers, IsWhole, find_lem, marked_again}
use lowlat_stream.RetransmitCache.Evict.{
  IsValid, store-IsValid, evict_expired-keep_young, keep_young,
}

abbrev entry : Entry
entry = record {
  bytes = 3 ∷ 4 ∷ [];
  capture_ms = 10;
  frame_id = 1;
  base_seq = 0xffff_ffff;
  frag_count = 1;
  is_key = true;
  stored_at_ms = 100;
}

abbrev cache : RetransmitCache
cache = record {
  config = record { retention_ms = 200; max_frames = 8 };
  stats = record {
    frames_stored = 1;
    frames_evicted = 0;
    hits = 0;
    misses = 0;
    frames = 1;
    bytes = 2;
  };
  entries = entry ∷ [];
}

entry-IsWhole : IsWhole entry
unfolding fragment_count
entry-IsWhole = record {
  count = refl;
  nonempty = omega arith;
  count_fits = omega arith;
  base_fits = omega arith;
}

cache-IsValid : IsValid cache
cache-IsValid = record {
  whole = (entry-IsWhole, tt);
  shown = refl;
  measured = record { measured = refl; small = omega arith };
}

find_lem_example :
    let (r, c') = find cache 0xffff_ffff in
    let s = cache.stats in
    (c'.entries ≡ cache.entries)
    × ((r ≡ none)
          × (c' ≡ record cache { stats = record s { misses = 1 } })
          × All (λ e. ¬ Covers 0xffff_ffff e) cache.entries
        ⊎ ((f : Found) × (e : Entry) × (i : ℕ) × Elem e cache.entries
            × (r ≡ some f)
            × (c' ≡ record cache { stats = record s { hits = 1 } })
            × (0xffff_ffff ≡ add32 e.base_seq i)
            × (i < e.frag_count)
            × (packetize_one_fragment 0 0xffff_ffff f.view f.frag_index f.frag_count true []
                ≡ ok (
                    marked_again
                      (fragment 0 0xffff_ffff (view_of e) e.bytes i e.frag_count false)))))
find_lem_example = find_lem cache 0xffff_ffff 0 [] (omega arith) (entry-IsWhole, tt)

abbrev new_view : EncodedFrameView
new_view = record { bytes = none; frame_id = 2; capture_ms = 43; is_key = false }

store-IsValid_example :
    let c' = store cache new_view (7 ∷ []) 0 1 133 in
    IsValid c'
    × (c'.stats.frames_evicted + length c'.entries + 1 ≡ 0 + 1 + c'.stats.frames_stored)
    × ((cache.config.max_frames ≡ 0) ⊎ (length c'.entries ≤ cache.config.max_frames))
unfolding fragment_count
store-IsValid_example =
    store-IsValid cache new_view (7 ∷ []) 0 1 133 cache-IsValid (omega arith) refl (omega arith)
      (omega arith) (omega arith)

evict_expired-keep_young_example :
    (evict_expired cache 300).entries ≡ keep_young 200 300 cache.entries
evict_expired-keep_young_example = evict_expired-keep_young cache 300 (tt, tt) (omega arith, tt)
