-- ===== src/FrameAssembler/Complete.antt =====
-- The entry of a frame whose fragments come in order, one `offer` at a time.
use lowlat_stream.Base.{
  ℕ, suc, ◌+◌, ◌-◌, ◌<◌, ◌%◌, ◌^◌, ◌≡◌, ◌⊎◌, inl, inr, length-append, append_nil, append_assoc,
  Bool-cases, refl, ap, ap₂, sym, ◌∙◌, Bool, true, false, not, leb, ◌==◌, ◌&&◌, if◌then◌else◌,
  bit_and, some, none, List, [], ◌∷◌, ◌++◌, length, get_or, set, replicate, flatten, arith,
}
use lowlat_stream.Base.Maps.{lookup, update}
use lowlat_stream.Status.{ok}
use lowlat_stream.Packet.Types.{PacketHeader, DataHeader, seq_newer_than, flag_keyframe}
use lowlat_stream.FrameAssembler.{
  FrameAssembler, PendingFrame, AssembledFrame, add_fragment, deliver, store, open_entry, admit,
  accept, receive, track_seq,
}

-- The frame is not older than what was given up.
abbrev pub IsCurrent : ℕ → FrameAssembler → Type 0
IsCurrent id a = (a.has_retired && not (seq_newer_than id a.retired_frame_id)) ≡ false

pub receive_keeps :
    (a : FrameAssembler) (seq id : ℕ)
    → let b = receive a seq in
      (b.pending ≡ a.pending)
      × (b.ready ≡ a.ready)
      × (b.has_retired ≡ a.has_retired)
      × (b.retired_frame_id ≡ a.retired_frame_id)
      × (b.max_pending_frames ≡ a.max_pending_frames)
unfolding track_seq
receive_keeps a seq id = ground arith

pub accept_new :
    (a : FrameAssembler) (h : PacketHeader) (d : DataHeader) (payload : List ℕ)
    → IsCurrent d.frame_id a
    → lookup d.frame_id a.pending ≡ none
    → length a.pending < a.max_pending_frames
    → accept a h d payload ≡ open_entry a h d payload
unfolding accept admit
accept_new a h d payload c n room =
    let space : leb a.max_pending_frames (length a.pending) ≡ false = ground arith in
    rw (c, n, space, accept, admit) refl

lookup_first :
    (id : ℕ) (f : PendingFrame) (p : List (ℕ × PendingFrame)) → lookup id ((id, f) ∷ p) ≡ some f
unfolding lookup
lookup_first id f p = ground arith

update_first :
    (id : ℕ) (f g : PendingFrame) (p : List (ℕ × PendingFrame))
    → update id g ((id, f) ∷ p) ≡ (id, g) ∷ p
unfolding update
update_first id f g p = ground arith

pub accept_next :
    (a : FrameAssembler) (h : PacketHeader) (d : DataHeader) (payload : List ℕ) (f : PendingFrame)
    (p : List (ℕ × PendingFrame))
    → IsCurrent d.frame_id a
    → a.pending ≡ (d.frame_id, f) ∷ p
    → f.completed ≡ false
    → f.frag_count ≡ d.frag_count
    → accept a h d payload ≡ store a f h d payload
unfolding accept
accept_next a h d payload f p c e unfinished same =
    let found : lookup d.frame_id a.pending ≡ some f =
      ap (lookup d.frame_id) e ∙ lookup_first d.frame_id f p in
    let fits : (f.frag_count == d.frag_count) ≡ true = ground arith in
    rw (c, found, unfinished, fits, accept) refl

-- The entry with the first `k` fragments of `n`.
pub record Holds (n ts : ℕ) (key : Bool) (got : List (List ℕ)) (f : PendingFrame) : Type 0 where
  pub placed : f.fragments ≡ got ++ replicate (n - length got) []
  pub count : f.frag_count ≡ n
  pub received : f.received_fragments ≡ length got
  pub unfinished : f.completed ≡ false
  pub stamped : (length got ≡ 0) ⊎ ((f.timestamp_ms ≡ ts) × (f.is_key ≡ key))

get_or-place :
    (got : List (List ℕ)) (rest : List (List ℕ)) → get_or (got ++ [] ∷ rest) (length got) [] ≡ []
get_or-place [] rest = refl
get_or-place (x ∷ got) rest = get_or-place got rest

set-place :
    (got rest : List (List ℕ)) (v : List ℕ)
    → set (got ++ [] ∷ rest) (length got) v ≡ (got ++ v ∷ []) ++ rest
set-place [] rest v = refl
set-place (x ∷ got) rest v = ap (◌∷◌ x) (set-place got rest v)

open_place :
    (n : ℕ) (got : List (List ℕ))
    → length got < n
    → replicate {A = List ℕ} (n - length got) [] ≡ [] ∷ replicate (n - suc (length got)) []
open_place n got lt =
    let e : n - length got ≡ suc (n - suc (length got)) = omega arith in
    ap (λ k. replicate {A = List ℕ} k []) e

add_fragment-Holds :
    (n ts : ℕ) (key : Bool) (got : List (List ℕ)) (f : PendingFrame) (h : PacketHeader)
    (d : DataHeader) (payload : List ℕ)
    → Holds n ts key got f
    → n < 2 ^ 16
    → length got < n
    → d.frag_index ≡ length got
    → h.timestamp_ms ≡ ts
    → not (bit_and d.flags flag_keyframe == 0) ≡ key
    → Holds n ts key (got ++ payload ∷ []) (add_fragment f h d payload)
unfolding add_fragment
add_fragment-Holds n ts key got f h d payload w small lt i t k =
    let more = length-append got (payload ∷ []) in
    record {
      placed =
          ap₂ (λ fs j. set fs j payload) (w.placed ∙ ap (◌++◌ got) (open_place n got lt)) i
          ∙ set-place got (replicate (n - suc (length got)) []) payload
          ∙ ap (λ m. (got ++ payload ∷ []) ++ replicate (n - m) []) (sym (omega (arith, more)));
      count = w.count;
      received = omega (arith, more, w.received);
      unfinished = w.unfinished;
      stamped = inr (ground (arith, w.stamped, w.received));
    }

store_lem :
    (a : FrameAssembler) (n ts : ℕ) (key : Bool) (got : List (List ℕ)) (f : PendingFrame)
    (h : PacketHeader) (d : DataHeader) (payload : List ℕ)
    → Holds n ts key got f
    → n < 2 ^ 16
    → length got < n
    → d.frag_index ≡ length got
    → let g = add_fragment f h d payload in
      store a f h d payload ≡ (
        if suc (length got) == n
        then (deliver d.frame_id g a, ok tt)
        else (record a { pending = update d.frame_id g a.pending }, ok tt))
unfolding store add_fragment
store_lem a n ts key got f h d payload w small lt i =
    let free : get_or f.fragments d.frag_index [] ≡ [] =
      ap₂ (λ fs j. get_or fs j []) (w.placed ∙ ap (◌++◌ got) (open_place n got lt)) i
      ∙ get_or-place got (replicate (n - suc (length got)) []) in
    let next : (f.received_fragments + 1) % 2 ^ 16 ≡ suc (length got) = omega (arith, w.received) in
    elim (Bool-cases (suc (length got) == n)) [
      | inl last ↦ rw (free, next, w.count, last, store, add_fragment) refl
      | inr more ↦ rw (free, next, w.count, more, store, add_fragment) refl
    ]

pub flatten-append : (xss yss : List (List ℕ)) → flatten (xss ++ yss) ≡ flatten xss ++ flatten yss
flatten-append [] yss = refl
flatten-append (xs ∷ xss) yss =
    ap (◌++◌ xs) (flatten-append xss yss) ∙ sym (append_assoc xs (flatten xss) (flatten yss))

module _ (n ts id : ℕ) (key : Bool) (p : List (ℕ × PendingFrame)) (r : List AssembledFrame) where
  -- The assembler with the fragments `got` of the frame, and no others.
  pub record Partial (got : List (List ℕ)) (b : FrameAssembler) : Type 0 where
    pub f : PendingFrame
    pub holds : Holds n ts key got f
    pub head : b.pending ≡ (id, f) ∷ p
    pub waiting : b.ready ≡ r
    pub current : IsCurrent id b

  pub receive-Partial :
      (got : List (List ℕ)) (b : FrameAssembler) (seq : ℕ)
      → Partial got b
      → Partial got (receive b seq)
  receive-Partial got b seq w =
      let (e, q, h, i, m) = receive_keeps b seq id in
      record {
        f = w.f;
        holds = w.holds;
        head = e ∙ w.head;
        waiting = q ∙ w.waiting;
        current = ap₂ (λ x y. x && not (seq_newer_than id y)) h i ∙ w.current;
      }

  abbrev pub complete : List ℕ → AssembledFrame
  complete bytes = record { bytes = bytes; frame_id = id; timestamp_ms = ts; is_key = key }

  module _ (got : List (List ℕ)) (b : FrameAssembler) (w : Partial got b) (h : PacketHeader)
      (d : DataHeader) (payload : List ℕ) (small : n < 2 ^ 16) (lt : length got < n)
      (i : d.frag_index ≡ length got) (is_id : d.frame_id ≡ id) (t : h.timestamp_ms ≡ ts)
      (k : not (bit_and d.flags flag_keyframe == 0) ≡ key) where
    grown : Holds n ts key (got ++ payload ∷ []) (add_fragment w.f h d payload)
    grown = add_fragment-Holds n ts key got w.f h d payload w.holds small lt i t k

    pub stored_more :
        (suc (length got) == n) ≡ false → Partial (got ++ payload ∷ []) (store b w.f h d payload).0
    stored_more more =
        let g = add_fragment w.f h d payload in
        let run = store_lem b n ts key got w.f h d payload w.holds small lt i in
        let head : update d.frame_id g b.pending ≡ (id, g) ∷ p =
          ap₂ (λ j m. update j g m) is_id w.head ∙ update_first id w.f g p in
        rw (run, more)
          (record { f = g; holds = grown; head = head; waiting = w.waiting; current = w.current })

    pub stored_last :
        (suc (length got) == n) ≡ true
        → (store b w.f h d payload).0.ready ≡ r ++ complete (flatten (got ++ payload ∷ [])) ∷ []
    stored_last last =
        let g = add_fragment w.f h d payload in
        let run = store_lem b n ts key got w.f h d payload w.holds small lt i in
        let more = length-append got (payload ∷ []) in
        let zero_left : n - length (got ++ payload ∷ []) ≡ 0 = ground (arith, more) in
        let all : g.fragments ≡ got ++ payload ∷ [] =
          grown.placed
          ∙ ap (λ m. (got ++ payload ∷ []) ++ replicate m []) zero_left
          ∙ append_nil (got ++ payload ∷ []) in
        let stamps : (g.timestamp_ms ≡ ts) × (g.is_key ≡ key) =
          ground (arith, grown.stamped, more) in
        rw (run, last)
          (ap₂ ◌++◌ w.waiting (λ j.
            record {
              bytes = flatten (all j);
              frame_id = is_id j;
              timestamp_ms = stamps.0 j;
              is_key = stamps.1 j;
            }
            ∷ []))
