-- ===== src/FrameAssembler/Integrity.antt =====
-- The frames that a stream delivers, beside the frames that were sent.
use lowlat_stream.Base.{
  ℕ, ◌*◌, ◌%◌, ◌^◌, ◌<◌, ◌≡◌, ◌≢◌, refl, ◌⊎◌, inl, inr, Bool, true, false, not, ◌==◌, bit_and, List,
  [], ◌∷◌, some, length, All, arith, drop, length-drop,
}
use lowlat_stream.Status.{ok}
use lowlat_stream.Packet.Types.{PacketHeader, DataHeader, max_payload, flag_keyframe}
use lowlat_stream.Packet.Codec.{decode_packet_header, decode_data_header}
use lowlat_stream.Packetizer.{
  packetize_one_fragment, EncodedFrameView, fragment_count, fragment_flags, fragment_packet_header,
  fragment_data_header, PacketBuffer,
}
use lowlat_stream.Packetizer.Fragment.{slice, fragment, packetize_one_fragment_lem}
use lowlat_stream.Packetizer.Packets.{fragment_headers, fragment_count_bounds}
use lowlat_stream.FrameAssembler.{
  PendingFrame, AssembledFrame, add_fragment, fresh_entry, init, offer_all,
}
use lowlat_stream.FrameAssembler.Agree.{Agree, Agree-set, Agree-replicate, Agree-flatten}
use lowlat_stream.FrameAssembler.Valid.{IsCollecting, IsSound, fresh-IsCollecting, add_fragment_lem}
use lowlat_stream.FrameAssembler.Rule.{Takes, Carries, Holds, assembled, tombstone, offer_all-Holds}

flag_of_kind :
    (kind again : Bool) → not (bit_and (fragment_flags kind again) flag_keyframe == 0) ≡ kind
flag_of_kind true true = refl
flag_of_kind true false = refl
flag_of_kind false true = refl
flag_of_kind false false = refl

-- The frames of the stream: the frame with a 32-bit frame number, and its bytes.
module _ (sent : ℕ → EncodedFrameView) (body : ℕ → List ℕ) where
  abbrev count_of : ℕ → ℕ
  count_of id = fragment_count (length (body id))

  -- The sender encoded the packet for a fragment of a sent frame, for the first time or again.
  pub record IsSent (packet : PacketBuffer) : Type 0 where
    pub id : ℕ
    pub stream_id : ℕ
    pub seq : ℕ
    pub index : ℕ
    pub again : Bool
    pub old : PacketBuffer
    pub encoded :
        packetize_one_fragment stream_id seq (sent id) index (count_of id) again old ≡ ok packet
    pub has_bytes : (sent id).bytes ≡ some (body id)
    pub numbered : (sent id).frame_id % 2 ^ 32 ≡ id
    pub stream_id_fits : stream_id < 2 ^ 16
    pub seq_fits : seq < 2 ^ 32
    pub index_in : index < count_of id
    pub count_fits : count_of id < 2 ^ 16

  -- The delivered frame is the sent one.
  pub record IsIntact (f : AssembledFrame) : Type 0 where
    pub same_bytes : f.bytes ≡ body f.frame_id
    pub same_time : f.timestamp_ms ≡ (sent f.frame_id).capture_ms % 2 ^ 32
    pub same_kind : f.is_key ≡ (sent f.frame_id).is_key

  record IsGenuine (h : PacketHeader) (d : DataHeader) (payload : List ℕ) : Type 0 where
    sound : IsSound h d payload
    count : d.frag_count ≡ count_of d.frame_id
    part : payload ≡ slice (body d.frame_id) d.frag_index
    time : h.timestamp_ms ≡ (sent d.frame_id).capture_ms % 2 ^ 32
    kind : not (bit_and d.flags flag_keyframe == 0) ≡ (sent d.frame_id).is_key

  record IsPartOf (id : ℕ) (f : PendingFrame) : Type 0 where
    collecting : IsCollecting f
    count : f.frag_count ≡ count_of id
    parts : Agree (body id) 0 f.fragments
    known :
        (f.received_fragments ≡ 0)
        ⊎ (f.timestamp_ms ≡ (sent id).capture_ms % 2 ^ 32) × (f.is_key ≡ (sent id).is_key)

  abbrev EntryIsGenuine : ℕ × PendingFrame → Type 0
  EntryIsGenuine (id, f) = (f.completed ≡ true) ⊎ (f.completed ≡ false) × IsPartOf id f

  part_of :
      (id : ℕ) (f : PendingFrame) → EntryIsGenuine (id, f) → f.completed ≡ false → IsPartOf id f
  part_of id f (inl done) o = ground arith
  part_of id f (inr (_, v)) o = v

  fresh-genuine :
      (h : PacketHeader) (d : DataHeader) (payload : List ℕ)
      → IsGenuine h d payload
      → EntryIsGenuine (d.frame_id, fresh_entry d.frag_count)
  fresh-genuine h d payload g = inr (
    refl,
    record {
      collecting =
          fresh-IsCollecting d.frag_count (omega (arith, g.sound.index_in)) g.sound.count_fits;
      count = g.count;
      parts = Agree-replicate (body d.frame_id) 0 d.frag_count;
      known = inl refl;
    },
  )

  -- A genuine fragment keeps the entry genuine.
  add-genuine :
      (f : PendingFrame) (h : PacketHeader) (d : DataHeader) (payload : List ℕ)
      → IsPartOf d.frame_id f
      → Takes f d
      → IsGenuine h d payload
      → let g = add_fragment f h d payload in
        Agree (body d.frame_id) 0 g.fragments
        × (g.timestamp_ms ≡ (sent d.frame_id).capture_ms % 2 ^ 32)
        × (g.is_key ≡ (sent d.frame_id).is_key)
  unfolding add_fragment
  add-genuine f h d payload v t c = (
    rw c.part
        (Agree-set (body d.frame_id) 0 f.fragments d.frag_index d.frag_index (omega arith) v.parts),
    ground (arith, v.known, c.time),
    ground (arith, v.known, c.kind),
  )

  add_fragment_count :
      (f : PendingFrame) (h : PacketHeader) (d : DataHeader) (payload : List ℕ)
      → (add_fragment f h d payload).frag_count ≡ f.frag_count
  unfolding add_fragment
  add_fragment_count f h d payload = refl

  add_fragment_keeps :
      (f : PendingFrame) (h : PacketHeader) (d : DataHeader) (payload : List ℕ)
      → Takes f d
      → (add_fragment f h d payload).completed ≡ false
  unfolding add_fragment
  add_fragment_keeps f h d payload t = t.collecting

  grow-genuine :
      (f : PendingFrame) (h : PacketHeader) (d : DataHeader) (payload : List ℕ)
      → EntryIsGenuine (d.frame_id, f)
      → Takes f d
      → IsGenuine h d payload
      → let g = add_fragment f h d payload in
        g.received_fragments ≢ g.frag_count → EntryIsGenuine (d.frame_id, g)
  grow-genuine f h d payload v t c part =
      let w = part_of d.frame_id f v t.collecting in
      let l = add_fragment_lem f h d payload w.collecting t c.sound in
      let (agree, time, kind) = add-genuine f h d payload w t c in
      inr (
        add_fragment_keeps f h d payload t,
        record {
          collecting = record {
            slots = l.0;
            fits = rw same_count w.collecting.fits;
            counted = l.1;
            incomplete = omega arith;
            measured = l.3;
          };
          count = rw same_count w.count;
          parts = agree;
          known = inr (time, kind);
        },
      )
    where
      same_count : (add_fragment f h d payload).frag_count ≡ f.frag_count
      same_count = add_fragment_count f h d payload

  finish-genuine :
      (f : PendingFrame) (h : PacketHeader) (d : DataHeader) (payload : List ℕ)
      → EntryIsGenuine (d.frame_id, f)
      → Takes f d
      → IsGenuine h d payload
      → let g = add_fragment f h d payload in
        g.received_fragments ≡ g.frag_count
        → EntryIsGenuine (d.frame_id, tombstone g) × IsIntact (assembled d.frame_id g)
  finish-genuine f h d payload v t c full =
      let w = part_of d.frame_id f v t.collecting in
      let l = add_fragment_lem f h d payload w.collecting t c.sound in
      let (agree, time, kind) = add-genuine f h d payload w t c in
      let same_count = add_fragment_count f h d payload in
      (
        inl refl,
        record {
          same_bytes = Agree-flatten (body d.frame_id) 0 _ agree (omega arith) (
              omega
                (arith, l, same_count, w.count, fragment_count_bounds (length (body d.frame_id))));
          same_time = time;
          same_kind = kind;
        },
      )

  fragment-IsGenuine :
      (id stream_id seq index : ℕ) (again : Bool)
      → (sent id).frame_id % 2 ^ 32 ≡ id
      → index < count_of id
      → count_of id < 2 ^ 16
      → 0 < length (slice (body id) index)
      → IsGenuine
          (fragment_packet_header stream_id seq (sent id))
          (fragment_data_header (sent id) index (count_of id) again)
          (slice (body id) index)
  fragment-IsGenuine id stream_id seq index again numbered index_in fits nonempty = record {
    sound = record { index_in = index_in; count_fits = fits; nonempty = nonempty };
    count = rw numbered;
    part = rw numbered;
    time = rw numbered;
    kind = rw numbered (flag_of_kind (sent id).is_key again);
  }

  -- What `offer` reads in a sent packet.
  sent-IsGenuine :
      (packet : PacketBuffer) (h : PacketHeader) (d : DataHeader)
      → IsSent packet
      → Carries packet h d
      → IsGenuine h d (drop 21 packet)
  sent-IsGenuine packet h d s c =
      rw (is_header, is_data_header, payload)
        (fragment-IsGenuine id stream_id seq index again s.numbered s.index_in s.count_fits
          (rw payload at nonempty))
    where
      open s use {id, stream_id, seq, index, again}

      packet_is : packet ≡ fragment stream_id seq (sent id) (body id) index (count_of id) again
      packet_is =
          let inside : index * max_payload < length (body id) =
            omega (arith, s.index_in, fragment_count_bounds (length (body id))) in
          cc (
            s.encoded,
            packetize_one_fragment_lem stream_id seq (sent id) (body id) index (count_of id) again
                s.old s.has_bytes s.index_in inside,
          )

      heads :
          (decode_packet_header (some packet) ≡ ok (fragment_packet_header stream_id seq (sent id)))
          × (decode_data_header (some (drop 12 packet))
              ≡ ok (fragment_data_header (sent id) index (count_of id) again))
      heads = rw packet_is (
          fragment_headers stream_id seq (sent id) (body id) index (count_of id) again
            s.stream_id_fits s.seq_fits s.index_in s.count_fits)

      is_header : h ≡ fragment_packet_header stream_id seq (sent id)
      is_header = cc (heads.0, c.header)

      is_data_header : d ≡ fragment_data_header (sent id) index (count_of id) again
      is_data_header = cc (heads.1, c.data_header)

      payload : drop 21 packet ≡ slice (body id) index
      payload = rw packet_is

      nonempty : 0 < length (drop 21 packet)
      nonempty = omega (arith, length-drop 21 packet)

  All-IsGenuine :
      (packets : List PacketBuffer)
      → All IsSent packets
      → All
          (λ p. (h : PacketHeader) (d : DataHeader) → Carries p h d → IsGenuine h d (drop 21 p))
          packets
  All-IsGenuine [] s = tt
  All-IsGenuine (p ∷ ps) s = ((λ h d c. sent-IsGenuine p h d s.0 c), All-IsGenuine ps s.1)

  -- Of the packets of a stream, first sendings and retransmissions, let any arrive, in any order and
  -- any number of times, at a new assembler: every frame that is ready has the bytes, the
  -- capture time (mod 2 ^ 32) and the key-frame mark of the sent frame with its number.
  pub session-IsIntact :
      (n : ℕ) (packets : List PacketBuffer)
      → All IsSent packets
      → All IsIntact (offer_all (init n) packets).ready
  unfolding init
  session-IsIntact n packets s =
      let start : Holds EntryIsGenuine IsIntact IsGenuine fresh-genuine grow-genuine finish-genuine
          (init n) =
        record { entries = tt; frames = tt } in
      (offer_all-Holds EntryIsGenuine IsIntact IsGenuine fresh-genuine grow-genuine finish-genuine
        (init n) packets start (All-IsGenuine packets s)).frames
