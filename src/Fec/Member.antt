-- ===== src/Fec/Member.antt =====
-- A group of packets, and how the decoder takes one of its packets for a member.
use lowlat_stream.Base.{
  ℕ, ◌+◌, ◌*◌, ◌≤◌, ◌<◌, ◌%◌, ◌^◌, ◌≡◌, ◌⊎◌, inl, inr, refl, ap, sym, ◌∙◌, Bool, true, false, leb,
  ◌==◌, ◌||◌, if◌then◌else◌, some, List, [], ◌∷◌, ◌++◌, length, drop, map, arith, Bool-cases,
}
use lowlat_stream.Base.Words.{add32, sub32}
use lowlat_stream.Status.{Result, ok, err}
use lowlat_stream.Packet.Types.{PacketHeader, DataHeader, max_payload}
use lowlat_stream.Packet.Codec.{decode_packet_header, decode_data_header}
use lowlat_stream.Packetizer.{
  PacketBuffer, EncodedFrameView, fragment_packet_header, fragment_data_header,
}
use lowlat_stream.Packetizer.Fragment.{fragment}
use lowlat_stream.Packetizer.Packets.{fragment_headers}
use lowlat_stream.Fec.Decoder.{Member, has_offset, visit_recent}
use lowlat_stream.Fec.Fold.{is_in, NoRepeat}

-- A group of `size` packets: the fragments of one frame from the one with index `first` on, of `n`, the
-- first under the sequence number `base`.
pub record IsGroup (stream_id base n first size : ℕ) (bytes : List ℕ) : Type 0 where
  pub stream_fits : stream_id < 2 ^ 16
  pub base_fits : base < 2 ^ 32
  pub at_least_two : 2 ≤ size
  pub inside : first + size ≤ n
  pub count_fits : n < 2 ^ 16
  pub all_filled : n * max_payload < length bytes + max_payload

-- A packet that does not belong to the group: it is no DATA packet, or its number is outside.
abbrev pub IsForeign : ℕ → ℕ → PacketBuffer → Type 0
IsForeign base size p =
    (h : PacketHeader)
    → decode_packet_header (some p) ≡ ok h
    → h.packet_type ≡ 1
    → size ≤ sub32 h.seq base

pub Result-cases : {V : Type 0} (r : Result V) → ((c : _) × (r ≡ err c)) ⊎ ((v : V) × (r ≡ ok v))
Result-cases (err c) = inl (c, refl)
Result-cases (ok v) = inr (v, refl)

pub visit_foreign :
    (base size : ℕ) (ms : List Member) (p : PacketBuffer)
    → IsForeign base size p
    → visit_recent base size ms p ≡ ms
unfolding visit_recent
visit_foreign base size ms p f = elim (Result-cases (decode_packet_header (some p))) [
  | inl (c, e) ↦ rw (e, visit_recent) refl
  | inr (h, e) ↦ rw (e, visit_recent) (ground (arith, f h e))
]

visit_own :
    (base size k : ℕ) (ms : List Member) (p : PacketBuffer) (h : PacketHeader) (d : DataHeader)
    → decode_packet_header (some p) ≡ ok h
    → decode_data_header (some (drop 12 p)) ≡ ok d
    → h.packet_type ≡ 1
    → sub32 h.seq base ≡ k
    → k < size
    → size < 2 ^ 16
    → visit_recent base size ms p ≡ (
        if has_offset k ms
        then ms
        else ms ++ record { packet = p; packet_header = h; data_header = d; group_offset = k } ∷ [])
unfolding visit_recent
visit_own base size k ms p h d eh ed t off lt fits =
    let inside : leb size k ≡ false = ground arith in
    let small : sub32 h.seq base % 2 ^ 16 ≡ k = omega arith in
    let is_data : (h.packet_type == 1) ≡ true = ground arith in
    elim (Bool-cases (has_offset k ms)) [
      | inl here ↦ rw (eh, is_data, off, inside, here, visit_recent) refl
      | inr new ↦ rw (eh, is_data, off, inside, new, ed, small, visit_recent) refl
    ]

module _ (stream_id base n first size : ℕ) (frame : EncodedFrameView) (bytes : List ℕ)
    (g : IsGroup stream_id base n first size bytes) where
  abbrev pub packet : ℕ → PacketBuffer
  packet k = fragment stream_id (add32 base k) frame bytes (first + k) n false

  abbrev pub member : ℕ → Member
  member k = record {
    packet = packet k;
    packet_header = fragment_packet_header stream_id (add32 base k) frame;
    data_header = fragment_data_header frame (first + k) n false;
    group_offset = k;
  }

  pub headers :
      (k : ℕ)
      → k < size
      → (decode_packet_header (some (packet k))
          ≡ ok (fragment_packet_header stream_id (add32 base k) frame))
        × (decode_data_header (some (drop 12 (packet k)))
            ≡ ok (fragment_data_header frame (first + k) n false))
  headers k lt =
      fragment_headers stream_id (add32 base k) frame bytes (first + k) n false g.stream_fits
        (omega arith) (omega (arith, g.inside)) g.count_fits

  pub offset_back : (k : ℕ) → k < size → sub32 (add32 base k) base ≡ k
  offset_back k lt = omega (arith, g.base_fits, g.inside, g.count_fits)

  abbrev seq_of : Result PacketHeader → ℕ
  seq_of (err c) = 0
  seq_of (ok h) = h.seq

  pub packet-injective : (k l : ℕ) → k < size → l < size → packet k ≡ packet l → k ≡ l
  packet-injective k l p q e =
      let seqs : add32 base k ≡ add32 base l =
        ap seq_of
          (sym (headers k p).0 ∙ ap (λ b. decode_packet_header (some b)) e ∙ (headers l q).0) in
      sym (offset_back k p) ∙ ap (λ s. sub32 s base) seqs ∙ offset_back l q

  pub has_offset-map : (k : ℕ) (l : List ℕ) → has_offset k (map member l) ≡ is_in k l
  unfolding has_offset is_in
  has_offset-map k [] = refl
  has_offset-map k (a ∷ l) = ap (λ t. a == k || t) (has_offset-map k l)

  map-snoc : (k : ℕ) (l : List ℕ) → map member (l ++ k ∷ []) ≡ map member l ++ member k ∷ []
  map-snoc k [] = refl
  map-snoc k (a ∷ l) = ap (◌∷◌ (member a)) (map-snoc k l)

  pub visit_member :
      (k : ℕ) (l : List ℕ)
      → k < size
      → visit_recent base size (map member l) (packet k)
        ≡ map member (if is_in k l then l else l ++ k ∷ [])
  visit_member k l lt =
      let (h, d) = headers k lt in
      let own =
        visit_own base size k (map member l) (packet k)
          (fragment_packet_header stream_id (add32 base k) frame)
          (fragment_data_header frame (first + k) n false) h d refl (offset_back k lt) lt
          (omega (arith, g.inside, g.count_fits)) in
      own
      ∙ ap (λ t. if t then map member l else map member l ++ member k ∷ []) (has_offset-map k l)
      ∙ branches (is_in k l)
    where
      branches :
          (t : Bool)
          → (if t then map member l else map member l ++ member k ∷ [])
            ≡ map member (if t then l else l ++ k ∷ [])
      branches true = refl
      branches false = sym (map-snoc k l)

  pub is_in-snoc : (a k : ℕ) (l : List ℕ) → is_in a (l ++ k ∷ []) ≡ (is_in a l || k == a)
  unfolding is_in
  is_in-snoc a k [] = ground arith
  is_in-snoc a k (b ∷ l) = ground (arith, is_in-snoc a k l)

  pub NoRepeat-snoc : (k : ℕ) (l : List ℕ) → NoRepeat l → is_in k l ≡ false → NoRepeat (l ++ k ∷ [])
  unfolding is_in
  NoRepeat-snoc k [] d a = (refl, tt)
  NoRepeat-snoc k (b ∷ l) (h, d) a =
      (ground (arith, is_in-snoc b k l), NoRepeat-snoc k l d (ground arith))
