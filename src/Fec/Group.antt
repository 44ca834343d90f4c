-- ===== src/Fec/Group.antt =====
-- The search of the decoder for the members of a group: `members` and `missingOffset`.
use lowlat_stream.Base.{
  ℕ, zero, suc, ◌+◌, ◌≤◌, ◌<◌, ◌≡◌, ◌≢◌, ◌⊎◌, inl, inr, refl, ap, sym, ◌∙◌, true, false, ◌==◌, ◌||◌,
  if◌then◌else◌, some, List, [], ◌∷◌, ◌++◌, map, All, Elem, arith, Bool-cases, All-append,
}
use lowlat_stream.Base.Words.{add32}
use lowlat_stream.Packet.Codec.{decode_packet_header}
use lowlat_stream.Packetizer.{PacketBuffer, EncodedFrameView, fragment_packet_header}
use lowlat_stream.Fec.Decoder.{visit_recent, collect, missing_from}
use lowlat_stream.Fec.Fold.{is_in, NoRepeat, AllBut}
use lowlat_stream.Fec.Member.{
  IsGroup, IsForeign, visit_foreign, packet, member, headers, offset_back, packet-injective,
  has_offset-map, visit_member, is_in-snoc, NoRepeat-snoc,
}

module _ (stream_id base n first size : ℕ) (frame : EncodedFrameView) (bytes : List ℕ)
    (g : IsGroup stream_id base n first size bytes) where
  -- What the decoder keeps: packets of the group but the `j`th, and packets of other groups.
  abbrev pub IsKept : ℕ → PacketBuffer → Type 0
  IsKept j p =
      ((k : ℕ) × (k < size) × (k ≢ j) × (p ≡ packet stream_id base n first size frame bytes g k))
      ⊎ IsForeign base size p

  -- The offsets of the members found so far.
  record Found (j : ℕ) (l : List ℕ) : Type 0 where
    once : NoRepeat l
    below : All (λ k. k < size) l
    absent : is_in j l ≡ false

  add : List ℕ → ℕ → List ℕ
  add l k = if is_in k l then l else l ++ k ∷ []

  add-Found : (j k : ℕ) (l : List ℕ) → Found j l → k < size → k ≢ j → Found j (add l k)
  unfolding add
  add-Found j k l f lt ne = elim (Bool-cases (is_in k l)) [
    | inl here ↦ rw (here, add) f
    | inr new ↦
        rw (new, add)
          (record {
            once = NoRepeat-snoc stream_id base n first size frame bytes g k l f.once new;
            below = All-append (λ k. k < size) l (k ∷ []) f.below (lt, tt);
            absent =
                ground
                  (arith, is_in-snoc stream_id base n first size frame bytes g j k l, f.absent);
          })
  ]

  is_in-add : (a k : ℕ) (l : List ℕ) → is_in a (add l k) ≡ (is_in a l || k == a)
  unfolding add
  is_in-add a k l = ground (arith, is_in-snoc stream_id base n first size frame bytes g a k l)

  record Collects (j : ℕ) (l : List ℕ) (r : List PacketBuffer) (l' : List ℕ) : Type 0 where
    found : Found j l'
    run :
        collect base size (map (member stream_id base n first size frame bytes g) l) r
        ≡ map (member stream_id base n first size frame bytes g) l'
    kept : (k : ℕ) → is_in k l ≡ true → is_in k l' ≡ true
    gained :
        (k : ℕ)
        → k < size
        → k ≢ j
        → Elem (packet stream_id base n first size frame bytes g k) r
        → is_in k l' ≡ true

  collect_lem :
      (j : ℕ) (r : List PacketBuffer) (l : List ℕ)
      → Found j l
      → All (IsKept j) r
      → (l' : List ℕ) × Collects j l r l'
  unfolding collect add
  collect_lem j [] l f a =
      (l, record { found = f; run = refl; kept = λ k h. h; gained = λ k lt ne e. absurd e })
  collect_lem j (p ∷ r) l f (inl (k, lt, ne, e), a) =
      let (l', c) = collect_lem j r (add l k) (add-Found j k l f lt ne) a in
      (
        l',
        record {
          found = c.found;
          run =
              ap
                (λ p.
                  collect base size
                    (visit_recent base size
                      (map (member stream_id base n first size frame bytes g) l) p)
                    r)
                e
              ∙ ap (λ ms. collect base size ms r)
                  (visit_member stream_id base n first size frame bytes g k l lt)
              ∙ c.run;
          kept = λ a h. c.kept a (is_in-add a k l ∙ rw h refl);
          gained = λ a below other here. elim here [
            | inl same ↦
                let it : a ≡ k =
                  packet-injective stream_id base n first size frame bytes g a k below lt
                    (same ∙ e) in
                let new = is_in-add a k l in c.kept a (ground (arith, new, it))
            | inr later ↦ c.gained a below other later
          ];
        },
      )
  collect_lem j (p ∷ r) l f (inr foreign, a) =
      let (l', c) = collect_lem j r l f a in
      (
        l',
        record {
          found = c.found;
          run =
              ap (λ ms. collect base size ms r)
                (visit_foreign base size (map (member stream_id base n first size frame bytes g) l)
                  p foreign)
              ∙ c.run;
          kept = c.kept;
          gained = λ a below other here. elim here [
            | inl same ↦
                let h = fragment_packet_header stream_id (add32 base a) frame in
                let far =
                  foreign h
                    (ap (λ p. decode_packet_header (some p)) (sym same)
                      ∙ (headers stream_id base n first size frame bytes g a below).0)
                    refl in
                absurd (
                  omega (arith, far, offset_back stream_id base n first size frame bytes g a below))
            | inr later ↦ c.gained a below other later
          ];
        },
      )

  -- The decoder finds every member stream_id base n first size frame bytes g but one, each once.
  pub collect_whole :
      (j : ℕ) (r : List PacketBuffer)
      → All (IsKept j) r
      → ((k : ℕ) → k < size → k ≢ j → Elem (packet stream_id base n first size frame bytes g k) r)
      → (l : List ℕ) × AllBut size j l
        × (collect base size [] r ≡ map (member stream_id base n first size frame bytes g) l)
  unfolding is_in
  collect_whole j r a every =
      let (l, c) = collect_lem j r [] (record { once = tt; below = tt; absent = refl }) a in
      (
        l,
        record {
          once = c.found.once;
          below = c.found.below;
          absent = c.found.absent;
          others = λ k lt ne. c.gained k lt ne (every k lt ne);
        },
        c.run,
      )

  pub missing_from_lem :
      (j i k : ℕ) (l : List ℕ)
      → is_in j l ≡ false
      → ((a : ℕ) → a < size → a ≢ j → is_in a l ≡ true)
      → i ≤ j
      → j < i + k
      → i + k ≤ size
      → missing_from (map (member stream_id base n first size frame bytes g) l) i k ≡ j
  unfolding missing_from
  missing_from_lem j i zero l out others le lt inside = absurd (omega arith)
  missing_from_lem j i (suc k) l out others le lt inside =
      let has = has_offset-map stream_id base n first size frame bytes g i l in
      elim (Bool-cases (is_in i l)) [
        | inl here ↦
            let next : suc i ≤ j = ground (arith, out) in
            rw (has, here, missing_from)
              (missing_from_lem j (suc i) k l out others next (omega arith) (omega arith))
        | inr gone ↦ rw (has, gone, missing_from) (ground (arith, others i))
      ]
