-- ===== src/FrameAssembler/Rule.antt =====
-- A proof rule for `FrameAssembler::offer`: a property of the entries and one of the ready frames
-- hold after every packet, if they survive a new entry, a stored fragment and a completed frame.
use lowlat_stream.Base.{
  ℕ, ◌<◌, ◌≤◌, ◌≡◌, ◌≢◌, refl, inl, inr, true, false, List, [], ◌∷◌, some, length, drop, get_or,
  flatten, All, All-append, Bool-cases, Option-cases, arith, ==_iff, ◌==◌,
}
use lowlat_stream.Base.Maps.{lookup, All-lookup, All-update, All-remove}
use lowlat_stream.Status.{Result, ok, err, invalid_arg}
use lowlat_stream.Packet.Types.{PacketHeader, DataHeader, type_data, max_data_packet_size}
use lowlat_stream.Packet.Codec.{decode_packet_header, decode_data_header}
use lowlat_stream.FrameAssembler.{
  FrameAssembler, PendingFrame, AssembledFrame, add_fragment, store, fresh_entry, open_entry, admit,
  accept, offer, offer_all, evict_oldest, oldest_pending_frame_id, track_seq, receive, Outcome,
  malformed,
}

-- The frame that a complete entry makes.
abbrev pub assembled : ℕ → PendingFrame → AssembledFrame
assembled id f = record {
  bytes = flatten f.fragments;
  frame_id = id;
  timestamp_ms = f.timestamp_ms;
  is_key = f.is_key;
}

-- The mark that stays of a delivered frame.
abbrev pub tombstone : PendingFrame → PendingFrame
tombstone f = record f { completed = true; fragments = [] }

-- The entry `f` can take the packet's fragment.
pub record Takes (f : PendingFrame) (d : DataHeader) : Type 0 where
  pub collecting : f.completed ≡ false
  pub same_count : f.frag_count ≡ d.frag_count
  pub missing : get_or f.fragments d.frag_index [] ≡ []

-- The datagram passes every check of `offer` and holds these headers.
pub record Carries (packet : List ℕ) (h : PacketHeader) (d : DataHeader) : Type 0 where
  pub long_enough : 21 < length packet
  pub short_enough : length packet ≤ max_data_packet_size
  pub header : decode_packet_header (some packet) ≡ ok h
  pub is_data : h.packet_type ≡ type_data
  pub data_header : decode_data_header (some (drop 12 packet)) ≡ ok d

-- `offer` ends in one of three ways: a malformed packet, a packet of another type, or `accept`.
pub offer_cases {ℓ} :
    (R : Outcome → Type ℓ) (a : FrameAssembler) (packet : List ℕ)
    → R (malformed a)
    → R (a, err invalid_arg)
    → ((h : PacketHeader) (d : DataHeader)
        → Carries packet h d
        → R (accept (receive a h.seq) h d (drop 21 packet)))
    → R (offer a (some packet))
unfolding offer
offer_cases R a packet bad other good =
    decode (decode_packet_header (some packet)) (decode_data_header (some (drop 12 packet))) refl
      refl
  where
    decode :
        (x : Result PacketHeader) (y : Result DataHeader)
        → decode_packet_header (some packet) ≡ x
        → decode_data_header (some (drop 12 packet)) ≡ y
        → R (offer a (some packet))
    decode (err c) y e e' = ground arith
    decode (ok h) (err c) e e' = ground arith
    decode (ok h) (ok d) e e' = ground (arith, good h d)

module _ (P : ℕ × PendingFrame → Type 0) (Q : AssembledFrame → Type 0)
    (C : PacketHeader → DataHeader → List ℕ → Type 0)
    (fresh : (h : PacketHeader) (d : DataHeader) (payload : List ℕ)
      → C h d payload
      → P (d.frame_id, fresh_entry d.frag_count))
    (grow : (f : PendingFrame) (h : PacketHeader) (d : DataHeader) (payload : List ℕ)
      → P (d.frame_id, f)
      → Takes f d
      → C h d payload
      → let g = add_fragment f h d payload in
        g.received_fragments ≢ g.frag_count → P (d.frame_id, g))
    (finish : (f : PendingFrame) (h : PacketHeader) (d : DataHeader) (payload : List ℕ)
      → P (d.frame_id, f)
      → Takes f d
      → C h d payload
      → let g = add_fragment f h d payload in
        g.received_fragments ≡ g.frag_count
        → P (d.frame_id, tombstone g) × Q (assembled d.frame_id g)) where
  pub record Holds (a : FrameAssembler) : Type 0 where
    pub entries : All P a.pending
    pub frames : All Q a.ready

  store-Holds :
      (a : FrameAssembler) (f : PendingFrame) (h : PacketHeader) (d : DataHeader) (payload : List ℕ)
      → Holds a
      → P (d.frame_id, f)
      → C h d payload
      → f.completed ≡ false
      → f.frag_count ≡ d.frag_count
      → Holds (store a f h d payload).0
  unfolding store
  store-Holds a f h d payload inv p c o s = go (get_or f.fragments d.frag_index []) refl
    where
      g : PendingFrame
      g = add_fragment f h d payload

      go : (x : List ℕ) → get_or f.fragments d.frag_index [] ≡ x → Holds (store a f h d payload).0
      go (b ∷ bs) e = rw (e, store) (record { entries = inv.entries; frames = inv.frames })
      go [] e = elim (Bool-cases (g.received_fragments == g.frag_count)) [
        | inl full ↦
            let (entry, frame) = finish f h d payload p taken c ((==_iff _ _).0 full) in
            rw (e, full, store)
              (record {
                entries = All-update P d.frame_id _ a.pending inv.entries entry;
                frames = All-append Q a.ready _ inv.frames (frame, tt);
              })
        | inr part ↦
            rw (e, part, store)
              (record {
                entries =
                    All-update P d.frame_id g a.pending inv.entries
                      (grow f h d payload p taken c (ground arith));
                frames = inv.frames;
              })
      ]
        where
          taken : Takes f d
          taken = record { collecting = o; same_count = s; missing = e }

  evict_oldest-Holds : (a : FrameAssembler) → Holds a → Holds (evict_oldest a)
  unfolding evict_oldest
  evict_oldest-Holds a inv =
      elim (Option-cases (lookup (oldest_pending_frame_id a.pending) a.pending)) [
        | inl e ↦ rw (e, evict_oldest) inv
        | inr (f, e) ↦
            rw (e, evict_oldest)
              (record { entries = All-remove P _ a.pending inv.entries; frames = inv.frames })
      ]

  open_entry-Holds :
      (a : FrameAssembler) (h : PacketHeader) (d : DataHeader) (payload : List ℕ)
      → Holds a
      → C h d payload
      → Holds (open_entry a h d payload).0
  unfolding open_entry
  open_entry-Holds a h d payload inv c =
      let entry = fresh h d payload c in
      store-Holds _ (fresh_entry d.frag_count) h d payload
        (record { entries = (entry, inv.entries); frames = inv.frames }) entry c refl refl

  admit-Holds :
      (a : FrameAssembler) (h : PacketHeader) (d : DataHeader) (payload : List ℕ)
      → Holds a
      → C h d payload
      → Holds (admit a h d payload).0
  unfolding admit
  admit-Holds a h d payload inv c = ground (
    arith,
    open_entry-Holds a h d payload inv c,
    open_entry-Holds (evict_oldest a) h d payload (evict_oldest-Holds a inv) c,
  )

  accept-Holds :
      (a : FrameAssembler) (h : PacketHeader) (d : DataHeader) (payload : List ℕ)
      → Holds a
      → C h d payload
      → Holds (accept a h d payload).0
  unfolding accept
  accept-Holds a h d payload inv c = elim (Option-cases (lookup d.frame_id a.pending)) [
    | inl e ↦ ground (arith, admit-Holds a h d payload inv c)
    | inr (f, e) ↦
        let entry = All-lookup P d.frame_id f a.pending inv.entries e in
        ground (arith, store-Holds a f h d payload inv entry c)
  ]

  receive-Holds : (a : FrameAssembler) (seq : ℕ) → Holds a → Holds (receive a seq)
  unfolding track_seq
  receive-Holds a seq inv = ground arith

  pub offer-Holds :
      (a : FrameAssembler) (packet : List ℕ)
      → Holds a
      → ((h : PacketHeader) (d : DataHeader) → Carries packet h d → C h d (drop 21 packet))
      → Holds (offer a (some packet)).0
  offer-Holds a packet inv sound =
      offer_cases (λ o. Holds o.0) a packet (record { entries = inv.entries; frames = inv.frames })
        inv
        (λ h d c.
          accept-Holds (receive a h.seq) h d (drop 21 packet) (receive-Holds a h.seq inv)
            (sound h d c))

  -- The datagrams of a session, in the order in which they arrive.
  pub offer_all-Holds :
      (a : FrameAssembler) (packets : List (List ℕ))
      → Holds a
      → All (λ p. (h : PacketHeader) (d : DataHeader) → Carries p h d → C h d (drop 21 p)) packets
      → Holds (offer_all a packets)
  unfolding offer_all
  offer_all-Holds a [] inv sound = inv
  offer_all-Holds a (p ∷ ps) inv sound =
      offer_all-Holds (offer a (some p)).0 ps (offer-Holds a p inv sound.0) sound.1
