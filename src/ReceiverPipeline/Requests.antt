-- ===== src/ReceiverPipeline/Requests.antt =====
-- ReceiverPipeline.cpp, requestRetransmissions(): the numbers that are asked for fit into one packet.
use lowlat_stream.Base.{
  ℕ, zero, suc, ◌+◌, ◌*◌, ◌%◌, ◌≤◌, ◌≡◌, refl, ap, true, false, ltb, ◌==◌, Bool-cases, inl, inr,
  ◌^◌, some, write, List, [], ◌∷◌, ◌++◌, length, arith,
}
use lowlat_stream.Base.Words.{sub32, be16}
use lowlat_stream.Status.{ok}
use lowlat_stream.Packet.Types.{
  type_nack, max_nack_entries, max_data_packet_size, is_known_packet_type,
}
use lowlat_stream.Packet.Codec.{encode_packet_header, write_packet_header}
use lowlat_stream.Packet.Nack.{pack, pack_from, write_entries, encode_nack_packet}
use lowlat_stream.ReceiverPipeline.Feedback.{fit_from, fit_targets, feedback_header}

-- One entry is open, and `k` more may follow.
length-pack_from :
    (k pid blp : ℕ) (ts : List ℕ) → length (pack_from pid blp (fit_from k pid ts)) ≤ suc k
unfolding pack_from fit_from
length-pack_from k pid blp [] = omega arith
length-pack_from zero pid blp (t ∷ ts) = elim (Bool-cases (ltb (sub32 t pid) 17)) [
  | inl near ↦
      let in_reach : ltb 16 (sub32 t pid) ≡ false = ground arith in
      rw (near, in_reach) (length-pack_from zero pid _ ts)
  | inr far ↦ rw far (omega arith)
]
length-pack_from (suc k) pid blp (t ∷ ts) = elim (Bool-cases (ltb (sub32 t pid) 17)) [
  | inl near ↦
      let in_reach : ltb 16 (sub32 t pid) ≡ false = ground arith in
      rw (near, in_reach) (length-pack_from (suc k) pid _ ts)
  | inr far ↦
      let beyond : ltb 16 (sub32 t pid) ≡ true = ground arith in
      rw (far, beyond) (omega (arith, length-pack_from k t 0 ts))
]

-- What is asked for is the oldest part of what is missing.
fit_from-prefix : (k pid : ℕ) (ts : List ℕ) → (rest : List ℕ) × (ts ≡ fit_from k pid ts ++ rest)
unfolding fit_from
fit_from-prefix k pid [] = ([], refl)
fit_from-prefix zero pid (t ∷ ts) = elim (Bool-cases (ltb (sub32 t pid) 17)) [
  | inl near ↦ let (rest, e) = fit_from-prefix zero pid ts in (rest, rw near (ap (◌∷◌ t) e))
  | inr far ↦ (t ∷ ts, rw far refl)
]
fit_from-prefix (suc k) pid (t ∷ ts) = elim (Bool-cases (ltb (sub32 t pid) 17)) [
  | inl near ↦ let (rest, e) = fit_from-prefix (suc k) pid ts in (rest, rw near (ap (◌∷◌ t) e))
  | inr far ↦ let (rest, e) = fit_from-prefix k t ts in (rest, rw far (ap (◌∷◌ t) e))
]

-- However many numbers are missing, the request for them is encoded without error into the buffer
-- that the receiver has, and it asks for the oldest of them: the list is cut, not thinned out.
pub nack_request_encodes :
    (target : ℕ) (targets buf : List ℕ) (seq now_ms : ℕ)
    → max_data_packet_size ≤ length buf
    → let asked = fit_targets (target ∷ targets) in
      ((out : List ℕ) × (len : ℕ) × (encode_nack_packet
            (feedback_header type_nack seq now_ms)
            asked
            (some buf)
          ≡ ok (out, len))
        × (len ≤ max_data_packet_size))
      × ((rest : List ℕ) × (target ∷ targets ≡ asked ++ rest))
unfolding fit_targets encode_nack_packet encode_packet_header is_known_packet_type pack
nack_request_encodes target targets buf seq now_ms h =
    let kept = fit_from 200 target targets in
    let entries = pack_from target 0 kept in
    let few = length-pack_from 200 target 0 targets in
    let some_asked : (suc (length kept) == 0) ≡ false = ground arith in
    let fits : ltb max_nack_entries (length (pack_from target 0 kept)) ≡ false = ground arith in
    let holds : ltb (length buf) (14 + length (pack_from target 0 kept) * 6) ≡ false =
      ground arith in
    let headed : ltb (length buf) 12 ≡ false = ground arith in
    let (rest, e) = fit_from-prefix 200 target targets in
    (
      (
        write_entries
            (write (write_packet_header (feedback_header type_nack seq now_ms) buf) 12
              (be16 (length entries % 2 ^ 16)))
            14 entries,
        14 + length entries * 6,
        rw (some_asked, fits, holds, headed) refl,
        omega arith,
      ),
      (rest, ap (◌∷◌ target) e),
    )
