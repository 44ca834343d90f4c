-- ===== src/FrameAssembler/Valid.antt =====
-- The well-formedness of the assembler: bounded memory, indices in range, and counters of an entry
-- that say what it holds.
use lowlat_stream.Base.{
  ℕ, zero, suc, ◌^◌, ◌≤◌, ◌<◌, ◌≡◌, ◌≢◌, refl, ap, true, false, List, [], ◌∷◌, length, drop, get_or,
  flatten, All, length-set, length-drop, length-replicate, arith, All-trivial, ◌⊎◌, inl, inr,
}
use lowlat_stream.Packet.Types.{PacketHeader, DataHeader}
use lowlat_stream.Packet.Codec.{decode_data_header}
use lowlat_stream.FrameAssembler.{
  FrameAssembler, PendingFrame, add_fragment, fresh_entry, offer_all,
}
use lowlat_stream.FrameAssembler.Fragments.{
  arrived, arrived-set, arrived-replicate, flatten-replicate, length-flatten-set,
}
use lowlat_stream.FrameAssembler.Rule.{Takes, Carries, Holds, tombstone, offer_all-Holds}

abbrev pub IsBytes : List ℕ → Type 0
IsBytes = All (λ b. b < 256)

-- An entry that still collects: one slot per fragment, and counters that agree with the slots.
pub record IsCollecting (f : PendingFrame) : Type 0 where
  pub slots : length f.fragments ≡ f.frag_count
  pub fits : f.frag_count < 2 ^ 16
  pub counted : f.received_fragments ≡ arrived f.fragments
  pub incomplete : f.received_fragments < f.frag_count
  pub measured : f.total_bytes ≡ length (flatten f.fragments)

abbrev pub EntryIsValid : ℕ × PendingFrame → Type 0
EntryIsValid (_, f) =
    (f.completed ≡ true) × (f.fragments ≡ []) ⊎ (f.completed ≡ false) × IsCollecting f

-- What the decoders and the length checks of `offer` guarantee.
pub record IsSound (h : PacketHeader) (d : DataHeader) (payload : List ℕ) : Type 0 where
  pub index_in : d.frag_index < d.frag_count
  pub count_fits : d.frag_count < 2 ^ 16
  pub nonempty : 0 < length payload

pub fresh-IsCollecting : (n : ℕ) → 0 < n → n < 2 ^ 16 → IsCollecting (fresh_entry n)
fresh-IsCollecting n pos fits = record {
  slots = length-replicate n [];
  fits = fits;
  counted = omega (arith, arrived-replicate n);
  incomplete = pos;
  measured = omega (arith, ap length (flatten-replicate n));
}

-- A stored fragment is counted and measured once, and the counter does not wrap.
pub add_fragment_lem :
    (f : PendingFrame) (h : PacketHeader) (d : DataHeader) (payload : List ℕ)
    → IsCollecting f
    → Takes f d
    → IsSound h d payload
    → let g = add_fragment f h d payload in
      (length g.fragments ≡ g.frag_count)
      × (g.received_fragments ≡ arrived g.fragments)
      × (g.received_fragments ≤ g.frag_count)
      × (g.total_bytes ≡ length (flatten g.fragments))
unfolding add_fragment
add_fragment_lem f h d payload v t c = ground (
  arith,
  length-set f.fragments d.frag_index payload,
  arrived-set f.fragments d.frag_index payload t.missing,
  length-flatten-set f.fragments d.frag_index payload t.missing,
)

fresh-valid :
    (h : PacketHeader) (d : DataHeader) (payload : List ℕ)
    → IsSound h d payload
    → EntryIsValid (d.frame_id, fresh_entry d.frag_count)
fresh-valid h d payload c = inr (refl, fresh-IsCollecting d.frag_count (omega arith) c.count_fits)

pub IsCollecting-of :
    (id : ℕ) (f : PendingFrame) → EntryIsValid (id, f) → f.completed ≡ false → IsCollecting f
IsCollecting-of id f (inl (done, _)) o = ground arith
IsCollecting-of id f (inr (_, v)) o = v

pub grow-valid :
    (f : PendingFrame) (h : PacketHeader) (d : DataHeader) (payload : List ℕ)
    → EntryIsValid (d.frame_id, f)
    → Takes f d
    → IsSound h d payload
    → let g = add_fragment f h d payload in
      g.received_fragments ≢ g.frag_count → EntryIsValid (d.frame_id, g)
unfolding add_fragment
grow-valid f h d payload v t c part =
    let w = IsCollecting-of d.frame_id f v t.collecting in
    let l = add_fragment_lem f h d payload w t c in
    inr (
      t.collecting,
      record {
        slots = l.0;
        fits = w.fits;
        counted = l.1;
        incomplete = omega arith;
        measured = l.3;
      },
    )

finish-valid :
    (f : PendingFrame) (h : PacketHeader) (d : DataHeader) (payload : List ℕ)
    → EntryIsValid (d.frame_id, f)
    → Takes f d
    → IsSound h d payload
    → let g = add_fragment f h d payload in
      g.received_fragments ≡ g.frag_count → EntryIsValid (d.frame_id, tombstone g) × Unit {0}
finish-valid f h d payload v t c full = (inl (refl, refl), tt)

get_or-IsBytes : (xs : List ℕ) (i : ℕ) → IsBytes xs → get_or xs i 0 < 256
get_or-IsBytes [] i a = omega arith
get_or-IsBytes (x ∷ xs) zero a = a.0
get_or-IsBytes (x ∷ xs) (suc i) a = get_or-IsBytes xs i a.1

pub drop-IsBytes : (n : ℕ) (xs : List ℕ) → IsBytes xs → IsBytes (drop n xs)
drop-IsBytes zero xs a = a
drop-IsBytes (suc n) [] a = tt
drop-IsBytes (suc n) (x ∷ xs) a = drop-IsBytes n xs a.1

pub Carries-IsSound :
    (packet : List ℕ) (h : PacketHeader) (d : DataHeader)
    → IsBytes packet
    → Carries packet h d
    → IsSound h d (drop 21 packet)
unfolding decode_data_header
Carries-IsSound packet h d b c =
    let tail = drop 12 packet in
    let tb = drop-IsBytes 12 packet b in
    let e = c.data_header in
    ground (arith, length-drop 21 packet, get_or-IsBytes tail 6 tb, get_or-IsBytes tail 7 tb)

-- Every entry is valid.
abbrev pub EntriesAreValid : FrameAssembler → Type 0
EntriesAreValid a = All EntryIsValid a.pending

All-IsSound :
    (packets : List (List ℕ))
    → All IsBytes packets
    → All
        (λ p. (h : PacketHeader) (d : DataHeader) → Carries p h d → IsSound h d (drop 21 p))
        packets
All-IsSound [] b = tt
All-IsSound (p ∷ ps) b = ((λ h d c. Carries-IsSound p h d b.0 c), All-IsSound ps b.1)

pub offer_all-EntriesAreValid :
    (a : FrameAssembler) (packets : List (List ℕ))
    → All IsBytes packets
    → EntriesAreValid a
    → EntriesAreValid (offer_all a packets)
offer_all-EntriesAreValid a packets bytes v =
    let start : Holds EntryIsValid (λ _. Unit {0}) IsSound fresh-valid grow-valid finish-valid a =
      record { entries = v; frames = All-trivial a.ready } in
    (offer_all-Holds EntryIsValid (λ _. Unit {0}) IsSound fresh-valid grow-valid finish-valid a
      packets start (All-IsSound packets bytes)).entries
