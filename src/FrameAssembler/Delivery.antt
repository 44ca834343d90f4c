-- ===== src/FrameAssembler/Delivery.antt =====
-- From `packetize` through `offer`, packet by packet.
use lowlat_stream.Base.{
  append_nil, append_assoc, ℕ, zero, suc, ◌+◌, ◌-◌, ◌*◌, ◌≤◌, ◌<◌, ◌%◌, ◌^◌, ◌≡◌, inl, inr,
  length-append, drop-drop, drop_all, take-append-drop, Bool-cases, ge→ltb, refl, ap, ap₂, sym, ◌∙◌,
  true, false, not, ltb, leb, ◌==◌, ◌&&◌, bit_and, some, none, List, [], ◌∷◌, ◌++◌, length, drop,
  replicate, flatten, arith, length-take, length-drop,
}
use lowlat_stream.Base.Words.{add32}
use lowlat_stream.Base.Maps.{lookup}
use lowlat_stream.Status.{ok}
use lowlat_stream.Packet.Types.{
  PacketHeader, DataHeader, seq_newer_than, max_payload, flag_keyframe,
}
use lowlat_stream.Packetizer.{
  Packetizer, PacketBuffer, packetize, fragment_count, EncodedFrameView, fragment_packet_header,
  fragment_data_header, fragment_flags,
}
use lowlat_stream.Packetizer.Fragment.{fragment, slice}
use lowlat_stream.Packetizer.Packets.{
  fragment_count_bounds, packetize_run, fragments, fragment_headers,
}
use lowlat_stream.FrameAssembler.{
  FrameAssembler, PendingFrame, AssembledFrame, store, fresh_entry, open_entry, accept, receive,
  offer, offer_all,
}
use lowlat_stream.FrameAssembler.Complete.{
  IsCurrent, receive_keeps, accept_new, accept_next, flatten-append, Partial, receive-Partial,
  stored_more, stored_last,
}

gt→leb : (a b : ℕ) → b < a → leb a b ≡ false
gt→leb a b lt = ground arith

-- What `packetize` makes of a frame: a stream and a count that fit, no empty fragment, and none left over.
pub record IsCut (stream_id n : ℕ) (bytes : List ℕ) : Type 0 where
  pub stream_fits : stream_id < 2 ^ 16
  pub count_fits : n < 2 ^ 16
  pub all_filled : n * max_payload < length bytes + max_payload
  pub whole : length bytes ≤ n * max_payload

module _ (stream_id n : ℕ) (frame : EncodedFrameView) (bytes : List ℕ)
    (c : IsCut stream_id n bytes) where
  abbrev own : ℕ → ℕ → List ℕ
  own seq i = fragment stream_id seq frame bytes i n false

  abbrev header : ℕ → PacketHeader
  header seq = fragment_packet_header stream_id seq frame

  abbrev piece : ℕ → DataHeader
  piece i = fragment_data_header frame i n false

  offer_lem :
      (a : FrameAssembler) (seq i : ℕ)
      → seq < 2 ^ 32
      → i < n
      → offer a (some (own seq i)) ≡ accept (receive a seq) (header seq) (piece i) (slice bytes i)
  unfolding offer
  offer_lem a seq i fits lt =
      let (h, d) =
        fragment_headers stream_id seq frame bytes i n false c.stream_fits fits lt c.count_fits in
      let l = length-take max_payload (drop (i * max_payload) bytes) in
      let r = length-drop (i * max_payload) bytes in
      let some_bytes : leb (length (own seq i)) 21 ≡ false =
        gt→leb (length (own seq i)) 21 (omega (arith, l, r, c.all_filled)) in
      let not_long : ltb 1221 (length (own seq i)) ≡ false =
        ge→ltb 1221 (length (own seq i)) (omega (arith, l)) in
      rw (some_bytes, not_long, h, d, offer) refl

  -- The fragments got so far and the rest of the frame are the frame.
  cut_next :
      (got : List (List ℕ)) (i : ℕ)
      → flatten got ++ drop (i * max_payload) bytes ≡ bytes
      → flatten (got ++ slice bytes i ∷ []) ++ drop (suc i * max_payload) bytes ≡ bytes
  cut_next got i cut =
      let s = slice bytes i in
      let here = drop (i * max_payload) bytes in
      let later = drop (suc i * max_payload) bytes in
      let skip : later ≡ drop max_payload here =
        ap (λ t. drop t bytes) (omega arith)
        ∙ sym (drop-drop max_payload (i * max_payload) bytes) in
      ap (λ t. t ++ later) (flatten-append got (s ∷ []) ∙ ap (◌++◌ (flatten got)) (append_nil s))
      ∙ append_assoc (flatten got) s later
      ∙ ap (λ t. flatten got ++ (s ++ t)) skip
      ∙ ap (◌++◌ (flatten got)) (take-append-drop max_payload here)
      ∙ cut

  key_flag : not (bit_and (fragment_flags frame.is_key false) flag_keyframe == 0) ≡ frame.is_key
  key_flag = elim (Bool-cases frame.is_key) [ inl e ↦ rw e refl | inr e ↦ rw e refl ]

  module _ (p : List (ℕ × PendingFrame)) (r : List AssembledFrame) where
    abbrev Got : List (List ℕ) → FrameAssembler → Type 0
    Got = Partial n (frame.capture_ms % 2 ^ 32) (frame.frame_id % 2 ^ 32) frame.is_key p r

    abbrev done : AssembledFrame
    done = record {
      bytes = bytes;
      frame_id = frame.frame_id % 2 ^ 32;
      timestamp_ms = frame.capture_ms % 2 ^ 32;
      is_key = frame.is_key;
    }

    -- From the store of fragment `i` on, with `k` fragments behind it.
    stored :
        (k i : ℕ) (got : List (List ℕ)) (b : FrameAssembler) (seq : ℕ) (w : Got got b)
        → length got ≡ i
        → i + suc k ≡ n
        → seq < 2 ^ 32
        → flatten got ++ drop (i * max_payload) bytes ≡ bytes
        → (offer_all
            (store b w.f (header seq) (piece i) (slice bytes i)).0
            (fragments stream_id frame bytes n (add32 seq 1) (suc i) k)).ready
          ≡ r ++ done ∷ []
    unfolding offer_all
    stored zero i got b seq w e total fits cut =
        let last : (suc (length got) == n) ≡ true = ground arith in
        let ready =
          stored_last n (frame.capture_ms % 2 ^ 32) (frame.frame_id % 2 ^ 32) frame.is_key p r got b
            w (header seq) (piece i) (slice bytes i) c.count_fits (omega arith) (sym e) refl refl
            key_flag last in
        let all = cut_next got i cut in
        let none_left : drop (suc i * max_payload) bytes ≡ [] =
          drop_all (suc i * max_payload) bytes (omega (arith, c.whole)) in
        let body : flatten (got ++ slice bytes i ∷ []) ≡ bytes =
          sym (append_nil (flatten (got ++ slice bytes i ∷ [])))
          ∙ ap (◌++◌ (flatten (got ++ slice bytes i ∷ []))) (sym none_left)
          ∙ all in
        ready ∙ ap (λ t. r ++ record done { bytes = t } ∷ []) body
    stored (suc k) i got b seq w e total fits cut =
        let more : (suc (length got) == n) ≡ false = ground arith in
        let s = slice bytes i in
        let u = (store b w.f (header seq) (piece i) s).0 in
        let w' =
          stored_more n (frame.capture_ms % 2 ^ 32) (frame.frame_id % 2 ^ 32) frame.is_key p r got b
            w (header seq) (piece i) s c.count_fits (omega arith) (sym e) refl refl key_flag more in
        let seq' = add32 seq 1 in
        let next : seq' < 2 ^ 32 = omega arith in
        let v = receive u seq' in
        let w'' =
          receive-Partial n (frame.capture_ms % 2 ^ 32) (frame.frame_id % 2 ^ 32) frame.is_key p r
            (got ++ s ∷ []) u seq' w' in
        let taken =
          offer_lem u seq' (suc i) next (omega arith)
          ∙ accept_next v (header seq') (piece (suc i)) (slice bytes (suc i)) w''.f p w''.current
              w''.head w''.holds.unfinished w''.holds.count in
        let tail = fragments stream_id frame bytes n (add32 seq' 1) (suc (suc i)) k in
        ap (λ o. (offer_all o.0 tail).ready) taken
        ∙ stored k (suc i) (got ++ s ∷ []) v seq' w'' (omega (arith, length-append got (s ∷ [])))
            (omega arith) next (cut_next got i cut)

  -- The first fragment makes the entry.
  all_offered :
      (a : FrameAssembler) (seq k : ℕ)
      → suc k ≡ n
      → seq < 2 ^ 32
      → IsCurrent (frame.frame_id % 2 ^ 32) a
      → lookup (frame.frame_id % 2 ^ 32) a.pending ≡ none
      → length a.pending < a.max_pending_frames
      → (offer_all a (fragments stream_id frame bytes n seq 0 (suc k))).ready
        ≡ a.ready ++ done a.pending a.ready ∷ []
  unfolding offer_all open_entry
  all_offered a seq k total fits current new room =
      let id = frame.frame_id % 2 ^ 32 in
      let b = receive a seq in
      let (e, q, h, i, m) = receive_keeps a seq id in
      let new' : lookup id b.pending ≡ none = ap (lookup id) e ∙ new in
      let current' : IsCurrent id b = ap₂ (λ x y. x && not (seq_newer_than id y)) h i ∙ current in
      let room' : length b.pending < b.max_pending_frames = omega (arith, ap length e, m, room) in
      let first =
        offer_lem a seq 0 fits (omega arith)
        ∙ accept_new b (header seq) (piece 0) (slice bytes 0) current' new' room' in
      let f = fresh_entry n in
      let b' : FrameAssembler = record b { pending = (id, f) ∷ b.pending } in
      let w : Got a.pending a.ready [] b' = record {
        f = f;
        holds = record {
          placed = let all : n ≡ n - 0 = omega arith in ap (λ m. replicate {A = List ℕ} m []) all;
          count = refl;
          received = refl;
          unfinished = refl;
          stamped = inl refl;
        };
        head = ap (◌∷◌ (id, f)) e;
        waiting = q;
        current = current';
      } in
      let tail = fragments stream_id frame bytes n (add32 seq 1) 1 k in
      ap (λ o. (offer_all o.0 tail).ready) first
      ∙ stored a.pending a.ready k 0 [] b' seq w refl (omega arith) fits refl

-- A frame of 1 to 65535 * 1200 bytes, packetized and offered packet by packet in order, comes out whole:
-- `ready` gains one frame with its bytes, its key flag, and its identifier and time cut to 32 bits.
-- The assembler has room for one more frame, has no entry for this one, and has not given up a
-- frame that is as new.
pub packetized_frame_arrives :
    (z : Packetizer) (frame : EncodedFrameView) (bytes : List ℕ) (outs : List PacketBuffer)
    (a : FrameAssembler)
    → frame.bytes ≡ some bytes
    → 0 < length bytes
    → length bytes ≤ 65535 * max_payload
    → z.next_seq < 2 ^ 32
    → z.stream_id < 2 ^ 16
    → (a.has_retired && not (seq_newer_than (frame.frame_id % 2 ^ 32) a.retired_frame_id)) ≡ false
    → lookup (frame.frame_id % 2 ^ 32) a.pending ≡ none
    → length a.pending < a.max_pending_frames
    → (packets : List PacketBuffer) × (y : Packetizer) × (packetize z frame outs ≡ ok (packets, y))
      × ((offer_all a packets).ready
          ≡ a.ready
            ++ record {
              bytes = bytes;
              frame_id = frame.frame_id % 2 ^ 32;
              timestamp_ms = frame.capture_ms % 2 ^ 32;
              is_key = frame.is_key;
            }
              ∷ [])
packetized_frame_arrives z frame bytes outs a e some_bytes small fits stream current new room =
    let n = fragment_count (length bytes) in
    let (low, high) = fragment_count_bounds (length bytes) in
    let c : IsCut z.stream_id n bytes = record {
      stream_fits = stream;
      count_fits = omega arith;
      all_filled = high;
      whole = low;
    } in
    let total : suc (n - 1) ≡ n = omega arith in
    let all =
      all_offered z.stream_id n frame bytes c a z.next_seq (n - 1) total fits current new room in
    (
      fragments z.stream_id frame bytes n z.next_seq 0 n,
      record z { next_seq = add32 z.next_seq n },
      packetize_run z frame bytes outs e some_bytes small fits,
      ap (λ k. (offer_all a (fragments z.stream_id frame bytes n z.next_seq 0 k)).ready) (sym total)
          ∙ all,
    )
