-- ===== src/RetransmitCache/Lookup.antt =====
-- `RetransmitCache::find` and what can be sent from a hit.
use lowlat_stream.Base.{
  ℕ, ◌+◌, ◌*◌, ◌^◌, ◌<◌, ◌≡◌, refl, ap, ◌∙◌, Elem, ◌⊎◌, inl, inr, Bool, true, false, leb,
  if◌then◌else◌, none, some, List, [], ◌∷◌, length, All, arith, set, get_or, bit_or, Bool-cases,
  Option-cases,
}
use lowlat_stream.Base.Words.{sub32, add32}
use lowlat_stream.Status.{ok}
use lowlat_stream.Packet.Types.{max_payload, flag_keyframe, flag_retransmit}
use lowlat_stream.Packetizer.{
  EncodedFrameView, PacketBuffer, packetize_one_fragment, fragment_count,
}
use lowlat_stream.Packetizer.Fragment.{fragment, packetize_one_fragment_lem}
use lowlat_stream.Packetizer.Packets.{fragment_count_bounds}
use lowlat_stream.RetransmitCache.{RetransmitCache, Entry, Found, find_in, find, view_of}

-- `seq` is one of the numbers that the entry's packets were sent under.
abbrev pub Covers : ℕ → Entry → Type 0
Covers seq e = sub32 seq e.base_seq < e.frag_count

-- The entry holds a whole frame, under the number of fragments that `packetize` made of it.
pub record IsWhole (e : Entry) : Type 0 where
  pub count : e.frag_count ≡ fragment_count (length e.bytes)
  pub nonempty : 0 < length e.bytes
  pub count_fits : e.frag_count < 2 ^ 16
  pub base_fits : e.base_seq < 2 ^ 32

-- What is found comes from an entry that covers the number, at its place in the frame.
pub record IsFrom (seq : ℕ) (e : Entry) (f : Found) : Type 0 where
  pub covered : Covers seq e
  pub same_view : f.view ≡ view_of e
  pub same_count : f.frag_count ≡ e.frag_count
  pub place : f.frag_index ≡ sub32 seq e.base_seq

find_in-IsFrom :
    (seq : ℕ) (es : List Entry) (f : Found)
    → All IsWhole es
    → find_in seq es ≡ some f
    → (e : Entry) × Elem e es × IsWhole e × IsFrom seq e f
unfolding find_in
find_in-IsFrom seq [] f w h = ground arith
find_in-IsFrom seq (e ∷ es) f w h = elim (Bool-cases (leb e.frag_count (sub32 seq e.base_seq))) [
  | inl past ↦
      let (e', held, whole, from) = find_in-IsFrom seq es f w.1 (rw past at h) in
      (e', inr held, whole, from)
  | inr hit ↦ let whole = w.0 in (e, inl refl, whole, ground arith)
]

-- A number that no entry covers is a miss, and any other is a hit.
find_in-none : (seq : ℕ) (es : List Entry) → find_in seq es ≡ none → All (λ e. ¬ Covers seq e) es
unfolding find_in
find_in-none seq [] h = tt
find_in-none seq (e ∷ es) h = elim (Bool-cases (leb e.frag_count (sub32 seq e.base_seq))) [
  | inl past ↦ (λ c. ground arith, find_in-none seq es (rw past at h))
  | inr hit ↦ ground arith
]

-- Of a packet that is sent again: the flags are the byte at 20.
abbrev pub marked_again : PacketBuffer → PacketBuffer
marked_again packet = set packet 20 (get_or packet 20 0 + flag_retransmit)

flags_again :
    (is_key : Bool)
    → bit_or (if is_key then flag_keyframe else 0) flag_retransmit
      ≡ (if is_key then flag_keyframe else 0) + flag_retransmit
flags_again true = refl
flags_again false = refl

fragment-again :
    (stream_id seq : ℕ) (frame : EncodedFrameView) (bytes : List ℕ) (i n : ℕ)
    → fragment stream_id seq frame bytes i n true
      ≡ marked_again (fragment stream_id seq frame bytes i n false)
fragment-again stream_id seq frame bytes i n = rw (flags_again frame.is_key)

resend :
    (stream_id seq : ℕ) (old : PacketBuffer) (e : Entry) (f : Found)
    → IsWhole e
    → IsFrom seq e f
    → packetize_one_fragment stream_id seq f.view f.frag_index f.frag_count true old
      ≡ ok (
          marked_again
            (fragment stream_id seq (view_of e) e.bytes (sub32 seq e.base_seq) e.frag_count false))
resend stream_id seq old e f whole from =
    let i = sub32 seq e.base_seq in
    let inside : i * max_payload < length e.bytes =
      omega (arith, from.covered, whole.count, fragment_count_bounds (length e.bytes)) in
    rw (from.same_view, from.same_count, from.place)
      (packetize_one_fragment_lem stream_id seq (view_of e) e.bytes i e.frag_count true old refl
          from.covered inside
        ∙ ap ok (fragment-again stream_id seq (view_of e) e.bytes i e.frag_count))

-- `find` misses exactly when no entry covers the number. What it finds can be sent: the fragment is
-- encoded without error, and the packet is the one that was first sent under this number, byte for
-- byte, but for the retransmission flag. A miss adds one to the misses and a hit one to the hits, and
-- nothing else in the cache changes.
pub find_lem :
    (c : RetransmitCache) (seq stream_id : ℕ) (old : PacketBuffer)
    → seq < 2 ^ 32
    → All IsWhole c.entries
    → let (r, c') = find c seq in
      let s = c.stats in
      (c'.entries ≡ c.entries)
      × ((r ≡ none)
            × (c' ≡ record c { stats = record s { misses = s.misses + 1 } })
            × All (λ e. ¬ Covers seq e) c.entries
          ⊎ ((f : Found) × (e : Entry) × (i : ℕ) × Elem e c.entries
              × (r ≡ some f)
              × (c' ≡ record c { stats = record s { hits = s.hits + 1 } })
              × (seq ≡ add32 e.base_seq i)
              × (i < e.frag_count)
              × (packetize_one_fragment stream_id seq f.view f.frag_index f.frag_count true old
                  ≡ ok (
                      marked_again
                        (fragment stream_id seq (view_of e) e.bytes i e.frag_count false)))))
unfolding find
find_lem c seq stream_id old s w = elim (Option-cases (find_in seq c.entries)) [
  | inl miss ↦ rw (miss, find) (refl, inl (refl, refl, find_in-none seq c.entries miss))
  | inr (f, hit) ↦
      let (e, held, whole, from) = find_in-IsFrom seq c.entries f w hit in
      let back : seq ≡ add32 e.base_seq (sub32 seq e.base_seq) = omega (arith, whole.base_fits) in
      rw (hit, find)
        (
          refl,
          inr (
            f,
            e,
            sub32 seq e.base_seq,
            held,
            refl,
            refl,
            back,
            from.covered,
            resend stream_id seq old e f whole from,
          ),
        )
]
