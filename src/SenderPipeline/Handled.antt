-- ===== src/SenderPipeline/Handled.antt =====
-- SenderPipeline.cpp, drainReverseChannel(): what one packet that came back does.
use lowlat_stream.Base.{
  ℕ, suc, ◌+◌, ◌≡◌, refl, subst, ◌∙◌, ◌==◌, Bool-cases, if◌then◌else◌, Option-cases, inl, inr, some,
  List, [], ◌∷◌, length, arith,
}
use lowlat_stream.Net.{Endpoint, Socket}
use lowlat_stream.Packet.Types.{type_pli, type_nack, packet_header_size}
use lowlat_stream.Packet.Codec.{decode_packet_header}
use lowlat_stream.Packet.Nack.{decode_nack_packet}
use lowlat_stream.Status.{ok, err}
use lowlat_stream.Fec.Member.{Result-cases}
use lowlat_stream.RetransmitCache.{RetransmitCache, Entry, Found, find}
use lowlat_stream.SenderPipeline.{
  SenderPipeline, send_again, retransmit_one, retransmit_all, malformed, take_pli, take_nack,
  handle_reverse,
}

find-entries : (c : RetransmitCache) (seq : ℕ) → (find c seq).1.entries ≡ c.entries
unfolding find
find-entries c seq = ground arith

-- What a packet that came back is: neither of the others, a request for a key frame, or a request for
-- these numbers.
pub data Reverse : Type 0 where
  bad : Reverse
  pli : Reverse
  nack : List ℕ → Reverse

abbrev pub kind_of : List ℕ → Reverse
kind_of bytes = elim (decode_packet_header (some bytes)) [
  | err _ ↦ bad
  | ok h ↦
      if h.packet_type == type_pli
      then (if length bytes == packet_header_size then pli else bad)
      else (if h.packet_type == type_nack
          then (elim (decode_nack_packet (some bytes)) [ err _ ↦ bad | ok seqs ↦ nack seqs ])
          else bad)
]

abbrev pub one_if_bad : Reverse → ℕ
one_if_bad bad = 1
one_if_bad pli = 0
one_if_bad (nack seqs) = 0

abbrev pub one_if_pli : Reverse → ℕ
one_if_pli bad = 0
one_if_pli pli = 1
one_if_pli (nack seqs) = 0

abbrev pub one_if_nack : Reverse → ℕ
one_if_nack bad = 0
one_if_nack pli = 0
one_if_nack (nack seqs) = 1

abbrev pub asked_for : Reverse → ℕ
asked_for bad = 0
asked_for pli = 0
asked_for (nack seqs) = length seqs

module _ (S : Socket) where
  -- There is a cache, with these entries.
  abbrev pub Holds : SenderPipeline S → List Entry → Type 0
  Holds p es = (c : RetransmitCache) × (p.cache ≡ some c) × (c.entries ≡ es)

  -- What the handling of requests leaves alone, and what adds up: `n` numbers have been asked for.
  pub record Answers (p : SenderPipeline S) (q : SenderPipeline S) (n : ℕ) : Type 0 where
    pub same_packetizer : q.packetizer ≡ p.packetizer
    pub same_limit : q.reverse_packets_per_iteration ≡ p.reverse_packets_per_iteration
    pub same_sent : q.stats.packets_sent ≡ p.stats.packets_sent
    pub answered :
        q.stats.packets_retransmitted + q.stats.retransmit_misses + q.stats.send_errors
        ≡ p.stats.packets_retransmitted + p.stats.retransmit_misses + p.stats.send_errors + n
    pub same_nacked : q.stats.nacked_seqs ≡ p.stats.nacked_seqs
    pub same_malformed : q.stats.reverse_malformed ≡ p.stats.reverse_malformed
    pub same_plis : q.stats.plis_received ≡ p.stats.plis_received
    pub same_nacks : q.stats.nacks_received ≡ p.stats.nacks_received
    pub same_keys : q.key_frames_requested ≡ p.key_frames_requested

  send_again-Answers :
      (p : SenderPipeline S) (from : Endpoint) (seq : ℕ) (f : Found)
      → Answers p (send_again S p from seq f) 1 × ((send_again S p from seq f).cache ≡ p.cache)
  unfolding send_again
  send_again-Answers p from seq f = ground arith

  Answers-trans :
      (p q r : SenderPipeline S) (m n : ℕ) → Answers p q m → Answers q r n → Answers p r (m + n)
  Answers-trans p q r m n v w = record {
    same_packetizer = w.same_packetizer ∙ v.same_packetizer;
    same_limit = w.same_limit ∙ v.same_limit;
    same_sent = w.same_sent ∙ v.same_sent;
    answered = omega (arith, v.answered, w.answered);
    same_nacked = w.same_nacked ∙ v.same_nacked;
    same_malformed = w.same_malformed ∙ v.same_malformed;
    same_plis = w.same_plis ∙ v.same_plis;
    same_nacks = w.same_nacks ∙ v.same_nacks;
    same_keys = w.same_keys ∙ v.same_keys;
  }

  found_one :
      (p : SenderPipeline S) (c : RetransmitCache) (from : Endpoint) (seq : ℕ)
      → p.cache ≡ some c
      → Answers p (retransmit_one S p from seq) 1
        × ((retransmit_one S p from seq).cache ≡ some (find c seq).1)
  unfolding retransmit_one
  found_one p c from seq e =
      let q : SenderPipeline S = record p { cache = some (find c seq).1 } in
      elim (Option-cases (find c seq).0) [
        | inl miss ↦ rw (e, miss, retransmit_one) (ground arith, refl)
        | inr (f, hit) ↦
            let (v, same) = send_again-Answers q from seq f in
            rw (e, hit, retransmit_one)
              (
                record {
                  same_packetizer = v.same_packetizer;
                  same_limit = v.same_limit;
                  same_sent = v.same_sent;
                  answered = v.answered;
                  same_nacked = v.same_nacked;
                  same_malformed = v.same_malformed;
                  same_plis = v.same_plis;
                  same_nacks = v.same_nacks;
                  same_keys = v.same_keys;
                },
                same,
              )
      ]

  retransmit_all-Answers :
      (p : SenderPipeline S) (es : List Entry) (from : Endpoint) (seqs : List ℕ)
      → Holds p es
      → Answers p (retransmit_all S p from seqs) (length seqs)
        × Holds (retransmit_all S p from seqs) es
  unfolding retransmit_all
  retransmit_all-Answers p es from [] h = (ground arith, h)
  retransmit_all-Answers p es from (seq ∷ seqs) (c, e, k) =
      let (v, e') = found_one p c from seq e in
      let q = retransmit_one S p from seq in
      let (w, h) =
        retransmit_all-Answers q es from seqs ((find c seq).1, e', find-entries c seq ∙ k) in
      (subst (Answers p _) (omega arith) (Answers-trans p q _ 1 (length seqs) v w), h)

  -- One datagram of a kind.
  abbrev pub Counts : SenderPipeline S → SenderPipeline S → Reverse → Type 0
  Counts p q k =
      (q.packetizer ≡ p.packetizer)
      × (q.reverse_packets_per_iteration ≡ p.reverse_packets_per_iteration)
      × (q.stats.packets_sent ≡ p.stats.packets_sent)
      × (q.stats.reverse_malformed ≡ p.stats.reverse_malformed + one_if_bad k)
      × (q.stats.plis_received ≡ p.stats.plis_received + one_if_pli k)
      × (q.key_frames_requested ≡ p.key_frames_requested + one_if_pli k)
      × (q.stats.nacks_received ≡ p.stats.nacks_received + one_if_nack k)
      × (q.stats.nacked_seqs ≡ p.stats.nacked_seqs + asked_for k)
      × (q.stats.packets_retransmitted + q.stats.retransmit_misses + q.stats.send_errors
          ≡ p.stats.packets_retransmitted
            + p.stats.retransmit_misses
            + p.stats.send_errors
            + asked_for k)

  abbrev pub Handled : SenderPipeline S → List Entry → Reverse → SenderPipeline S → Type 0
  Handled p es k q = Counts p q k × Holds q es

  take_nack-Handled :
      (p : SenderPipeline S) (es : List Entry) (from : Endpoint) (seqs : List ℕ)
      → Holds p es
      → Handled p es (nack seqs) (take_nack S p from seqs)
  unfolding take_nack
  take_nack-Handled p es from seqs h =
      let s = p.stats in
      let counted : SenderPipeline S = record p {
        stats = record s {
          nacks_received = suc s.nacks_received;
          nacked_seqs = s.nacked_seqs + length seqs;
        };
      } in
      let (v, k) = retransmit_all-Answers counted es from seqs h in
      (
        (
          v.same_packetizer,
          v.same_limit,
          v.same_sent,
          omega (arith, v.same_malformed),
          omega (arith, v.same_plis),
          omega (arith, v.same_keys),
          omega (arith, v.same_nacks),
          omega (arith, v.same_nacked),
          omega (arith, v.answered),
        ),
        k,
      )

  -- A packet that is counted and does nothing else.
  malformed-Handled :
      (p : SenderPipeline S) (es : List Entry) → Holds p es → Handled p es bad (malformed S p)
  malformed-Handled p es h = (ground arith, h)

  take_pli-Handled :
      (p : SenderPipeline S) (es : List Entry) → Holds p es → Handled p es pli (take_pli S p)
  unfolding take_pli
  take_pli-Handled p es h = (ground arith, h)

  pub handle_reverse-Handled :
      (p : SenderPipeline S) (es : List Entry) (bytes : List ℕ) (from : Endpoint)
      → Holds p es
      → Handled p es (kind_of bytes) (handle_reverse S p bytes from)
  unfolding handle_reverse
  handle_reverse-Handled p es bytes from h =
      let none_of_these : Handled p es bad (malformed S p) = malformed-Handled p es h in
      elim (Result-cases (decode_packet_header (some bytes))) [
        | inr (h', good) ↦ elim (Bool-cases (h'.packet_type == type_pli)) [
          | inl is_pli ↦ elim (Bool-cases (length bytes == packet_header_size)) [
            | inl sized ↦
                rw (good, is_pli, sized, handle_reverse, kind_of) (take_pli-Handled p es h)
            | inr other ↦ rw (good, is_pli, other, handle_reverse, kind_of) none_of_these
          ]
          | inr other ↦ elim (Bool-cases (h'.packet_type == type_nack)) [
            | inl is_nack ↦ elim (Result-cases (decode_nack_packet (some bytes))) [
              | inr (seqs, asked) ↦
                  rw (good, other, is_nack, asked, handle_reverse, kind_of)
                    (take_nack-Handled p es from seqs h)
              | inl (c, broken) ↦
                  rw (good, other, is_nack, broken, handle_reverse, kind_of) none_of_these
            ]
            | inr unknown ↦ rw (good, other, unknown, handle_reverse, kind_of) none_of_these
          ]
        ]
        | inl (c, short) ↦ rw (short, handle_reverse, kind_of) none_of_these
      ]
