-- ===== src/FrameAssembler/Bounded.antt =====
-- The number of entries that the assembler holds.
use lowlat_stream.Base.{
  ℕ, suc, ◌≤◌, ◌<◌, ◌≡◌, ◌≢◌, refl, List, [], ◌∷◌, some, none, length, drop, All, arith, inl, inr,
  Option-cases, ◌==◌, if◌then◌else◌,
}
use lowlat_stream.Base.Maps.{lookup, length-update, length-remove}
use lowlat_stream.Packet.Types.{PacketHeader, DataHeader}
use lowlat_stream.Packet.Codec.{Buffer}
use lowlat_stream.FrameAssembler.{
  FrameAssembler, PendingFrame, add_fragment, store, fresh_entry, open_entry, admit, accept, offer,
  offer_all, init, evict_oldest, oldest_pending_frame_id, oldest_from, track_seq, receive,
}
use lowlat_stream.FrameAssembler.Valid.{IsBytes, EntriesAreValid, offer_all-EntriesAreValid}
use lowlat_stream.FrameAssembler.Rule.{offer_cases, tombstone}

abbrev entry_count : FrameAssembler → ℕ
entry_count a = length a.pending

length-store :
    (a : FrameAssembler) (f : PendingFrame) (h : PacketHeader) (d : DataHeader) (payload : List ℕ)
    → entry_count (store a f h d payload).0 ≡ entry_count a
unfolding store
length-store a f h d payload = ground (
  arith,
  length-update d.frame_id (add_fragment f h d payload) a.pending,
  length-update d.frame_id (tombstone (add_fragment f h d payload)) a.pending,
)

oldest_from-found :
    (oldest : ℕ) (m : List (ℕ × PendingFrame))
    → oldest_from oldest m ≢ oldest
    → lookup (oldest_from oldest m) m ≢ none
unfolding oldest_from lookup
oldest_from-found oldest [] n = absurd (n refl)
oldest_from-found oldest ((id, f) ∷ m) n =
    ground (arith, oldest_from-found id m, oldest_from-found oldest m)

oldest_pending_frame_id-found :
    (m : List (ℕ × PendingFrame)) → 0 < length m → lookup (oldest_pending_frame_id m) m ≢ none
unfolding oldest_pending_frame_id oldest_from lookup
oldest_pending_frame_id-found [] l = absurd (omega arith)
oldest_pending_frame_id-found ((id, f) ∷ m) l = ground (arith, oldest_from-found id m)

-- An eviction makes room.
length-evict_oldest :
    (a : FrameAssembler) → 0 < entry_count a → entry_count a ≡ suc (entry_count (evict_oldest a))
unfolding evict_oldest
length-evict_oldest a l =
    elim (Option-cases (lookup (oldest_pending_frame_id a.pending) a.pending)) [
      | inl e ↦ absurd (oldest_pending_frame_id-found a.pending l e)
      | inr (f, e) ↦
          rw (e, evict_oldest) (length-remove (oldest_pending_frame_id a.pending) f a.pending e)
    ]

-- The limit on entries, which `offer` never changes.
pub record IsBounded (max : ℕ) (a : FrameAssembler) : Type 0 where
  pub limit : a.max_pending_frames ≡ max
  pub room : entry_count a ≤ max

limit-store :
    (a : FrameAssembler) (f : PendingFrame) (h : PacketHeader) (d : DataHeader) (payload : List ℕ)
    → (store a f h d payload).0.max_pending_frames ≡ a.max_pending_frames
unfolding store
limit-store a f h d payload = ground arith

limit-evict_oldest :
    (a : FrameAssembler) → (evict_oldest a).max_pending_frames ≡ a.max_pending_frames
unfolding evict_oldest
limit-evict_oldest a = ground arith

store-IsBounded :
    (max : ℕ) (a : FrameAssembler) (f : PendingFrame) (h : PacketHeader) (d : DataHeader)
    (payload : List ℕ)
    → IsBounded max a
    → IsBounded max (store a f h d payload).0
store-IsBounded max a f h d payload b =
    omega (arith, limit-store a f h d payload, length-store a f h d payload)

open_entry-IsBounded :
    (max : ℕ) (a : FrameAssembler) (h : PacketHeader) (d : DataHeader) (payload : List ℕ)
    → a.max_pending_frames ≡ max
    → entry_count a < max
    → IsBounded max (open_entry a h d payload).0
unfolding open_entry
open_entry-IsBounded max a h d payload l r =
    store-IsBounded max _ (fresh_entry d.frag_count) h d payload (record { limit = l; room = r })

admit-IsBounded :
    (max : ℕ) (a : FrameAssembler) (h : PacketHeader) (d : DataHeader) (payload : List ℕ)
    → 0 < max
    → IsBounded max a
    → IsBounded max (admit a h d payload).0
unfolding admit
admit-IsBounded max a h d payload pos b = ground (
  arith,
  open_entry-IsBounded max a h d payload b.limit,
  open_entry-IsBounded max (evict_oldest a) h d payload,
  limit-evict_oldest a,
  length-evict_oldest a,
)

accept-IsBounded :
    (max : ℕ) (a : FrameAssembler) (h : PacketHeader) (d : DataHeader) (payload : List ℕ)
    → 0 < max
    → IsBounded max a
    → IsBounded max (accept a h d payload).0
unfolding accept
accept-IsBounded max a h d payload pos b = elim (Option-cases (lookup d.frame_id a.pending)) [
  | inl e ↦ ground (arith, admit-IsBounded max a h d payload pos b)
  | inr (f, e) ↦ ground (arith, store-IsBounded max a f h d payload b)
]

offer-IsBounded :
    (max : ℕ) (a : FrameAssembler) (b : Buffer)
    → 0 < max
    → IsBounded max a
    → IsBounded max (offer a b).0
unfolding offer track_seq
offer-IsBounded max a none pos v = v
offer-IsBounded max a (some packet) pos v =
    offer_cases (λ o. IsBounded max o.0) a packet (omega arith) v
      (λ h d c. accept-IsBounded max (receive a h.seq) h d (drop 21 packet) pos (ground arith))

offer_all-IsBounded :
    (max : ℕ) (a : FrameAssembler) (packets : List (List ℕ))
    → 0 < max
    → IsBounded max a
    → IsBounded max (offer_all a packets)
unfolding offer_all
offer_all-IsBounded max a [] pos v = v
offer_all-IsBounded max a (p ∷ ps) pos v =
    offer_all-IsBounded max (offer a (some p)).0 ps pos (offer-IsBounded max a (some p) pos v)

abbrev pub limit_of : ℕ → ℕ
limit_of n = if n == 0 then 1 else n

-- Whatever bytes arrive, an assembler made for `n` frames never holds more than `n` entries (one,
-- if `n` is 0), tombstones included, and every entry is valid: a tombstone stores nothing, and a
-- frame that is still collected has a slot for each fragment, lacks at least one, and its counters
-- are the number and the total length of the fragments that it stores.
pub session_is_valid :
    (n : ℕ) (packets : List (List ℕ))
    → All IsBytes packets
    → let a = offer_all (init n) packets in (length a.pending ≤ limit_of n) × EntriesAreValid a
unfolding init
session_is_valid n packets bytes = (
  (offer_all-IsBounded (limit_of n) (init n) packets (ground arith)
      (record { limit = refl; room = ground arith })).room,
  offer_all-EntriesAreValid (init n) packets bytes tt,
)
