-- ===== src/Fec/Xor.antt =====
-- What the loops of the encoder and of the decoder make of the payloads of a group.
use lowlat_stream.Base.{
  ℕ, zero, suc, ◌-◌, ◌≤◌, ◌%◌, ◌^◌, ◌≡◌, refl, subst, ap, ap₂, sym, ◌∙◌, false, ltb, max, bit_xor,
  some, List, [], ◌∷◌, length, get_or, take, drop, map, All, arith, length-drop,
}
use lowlat_stream.Base.Bits.{bit_xor_comm, bit_xor_assoc, bit_xor-zero}
use lowlat_stream.Packetizer.{PacketBuffer}
use lowlat_stream.Fec.{xor_into}
use lowlat_stream.Fec.Encoder.{xor_group, max_payload_of}
use lowlat_stream.Fec.Decoder.{Member, xor_members}
use lowlat_stream.Fec.Fold.{fold}

abbrev pub xor_sum : (ℕ → ℕ) → List ℕ → ℕ
xor_sum f l = fold bit_xor bit_xor_comm bit_xor_assoc bit_xor-zero f l

length-xor_into : (buf vs : List ℕ) → length (xor_into buf vs) ≡ length buf
unfolding xor_into
length-xor_into buf [] = refl
length-xor_into [] (v ∷ vs) = refl
length-xor_into (x ∷ buf) (v ∷ vs) = ap suc (length-xor_into buf vs)

get_or-xor_into :
    (buf vs : List ℕ) (i : ℕ)
    → length vs ≤ length buf
    → get_or (xor_into buf vs) i 0 ≡ bit_xor (get_or buf i 0) (get_or vs i 0)
unfolding xor_into
get_or-xor_into buf [] i h = sym (bit_xor-zero (get_or buf i 0))
get_or-xor_into [] (v ∷ vs) i h = absurd (omega arith)
get_or-xor_into (x ∷ buf) (v ∷ vs) zero h = refl
get_or-xor_into (x ∷ buf) (v ∷ vs) (suc i) h = get_or-xor_into buf vs i (omega arith)

module _ (payload : ℕ → List ℕ) where
  abbrev pub len16 : ℕ → ℕ
  len16 k = length (payload k) % 2 ^ 16

  abbrev pub byte : ℕ → ℕ → ℕ
  byte i k = get_or (payload k) i 0

  -- `out` is `buf` with the payloads of `l` added.
  pub record Sums (buf : List ℕ) (l : List ℕ) (out : List ℕ) : Type 0 where
    pub same_length : length out ≡ length buf
    pub bytes : (i : ℕ) → get_or out i 0 ≡ bit_xor (get_or buf i 0) (xor_sum (byte i) l)

  Sums-step :
      (buf : List ℕ) (k : ℕ) (l out : List ℕ)
      → length (payload k) ≤ length buf
      → Sums (xor_into buf (payload k)) l out
      → Sums buf (k ∷ l) out
  Sums-step buf k l out h s = record {
    same_length = s.same_length ∙ length-xor_into buf (payload k);
    bytes = λ i.
        s.bytes i
        ∙ ap (λ t. bit_xor t (xor_sum (byte i) l)) (get_or-xor_into buf (payload k) i h)
        ∙ bit_xor_assoc (get_or buf i 0) (byte i k) (xor_sum (byte i) l);
  }

  Sums-none : (buf : List ℕ) → Sums buf [] buf
  Sums-none buf = record { same_length = refl; bytes = λ i. sym (bit_xor-zero (get_or buf i 0)) }

  pub xor_members_lem :
      (member : ℕ → Member)
      → ((k : ℕ) → drop 21 (member k).packet ≡ payload k)
      → (len : ℕ) (buf l : List ℕ) → All (λ k. length (payload k) ≤ length buf) l
      → (out : List ℕ) × Sums buf l out
        × (xor_members len buf (map member l) ≡ some (bit_xor len (xor_sum len16 l), out))
  unfolding xor_members
  xor_members_lem member e len buf [] h =
      (buf, Sums-none buf, ap (λ t. some (t, buf)) (sym (bit_xor-zero len)))
  xor_members_lem member e len buf (k ∷ l) h =
      let small = length-xor_into buf (payload k) in
      let (out, s, r) =
        xor_members_lem member e (bit_xor len (len16 k)) (xor_into buf (payload k)) l
          (rw small h.1) in
      let fits : ltb (length buf) (length (payload k)) ≡ false = ground (arith, h.0) in
      (
        out,
        Sums-step buf k l out h.0 s,
        rw (e k, fits, r) (ap (λ t. some (t, out)) (bit_xor_assoc len (len16 k) (xor_sum len16 l))),
      )

  pub xor_group_lem :
      (packet : ℕ → PacketBuffer)
      → ((k : ℕ) → drop 21 (packet k) ≡ payload k)
      → (len : ℕ) (buf l : List ℕ) → All (λ k. length (payload k) ≤ length buf) l
      → let (len', out) = xor_group len buf (map packet l) in
        Sums buf l out × (len' ≡ bit_xor len (xor_sum len16 l))
  xor_group_lem packet e len buf [] h = (Sums-none buf, sym (bit_xor-zero len))
  xor_group_lem packet e len buf (k ∷ l) h =
      let small = length-xor_into buf (payload k) in
      let same : length (packet k) - 21 ≡ length (payload k) =
        sym (length-drop 21 (packet k)) ∙ ap length (e k) in
      let (s, r) =
        xor_group_lem packet e (bit_xor len (len16 k)) (xor_into buf (payload k)) l
          (rw small h.1) in
      let here : ℕ → List ℕ → Type 0 = λ n v.
        let (len', out) = xor_group (bit_xor len (n % 2 ^ 16)) (xor_into buf v) (map packet l) in
        Sums buf (k ∷ l) out × (len' ≡ bit_xor len (xor_sum len16 (k ∷ l))) in
      subst (λ n. here n (drop 21 (packet k))) (sym same)
        (subst (here (length (payload k))) (sym (e k))
          (Sums-step buf k l _ h.0 s, r ∙ bit_xor_assoc len (len16 k) (xor_sum len16 l)))

  pub max_payload_of_lem :
      (packet : ℕ → PacketBuffer)
      → ((k : ℕ) → drop 21 (packet k) ≡ payload k)
      → (most : ℕ) (l : List ℕ)
      → (most ≤ max_payload_of most (map packet l))
        × All (λ k. length (payload k) ≤ max_payload_of most (map packet l)) l
  max_payload_of_lem packet e most [] = (omega arith, tt)
  max_payload_of_lem packet e most (k ∷ l) =
      let same : length (packet k) - 21 ≡ length (payload k) =
        sym (length-drop 21 (packet k)) ∙ ap length (e k) in
      let (le, all) = max_payload_of_lem packet e (max most (length (packet k) - 21)) l in
      (omega arith, (omega arith, all))

-- Two lists with the same bytes, as far as the shorter one goes.
pub take_same :
    (xs ys : List ℕ)
    → length xs ≤ length ys
    → ((i : ℕ) → get_or ys i 0 ≡ get_or xs i 0)
    → take (length xs) ys ≡ xs
take_same [] ys h e = refl
take_same (x ∷ xs) [] h e = absurd (omega arith)
take_same (x ∷ xs) (y ∷ ys) h e = ap₂ ◌∷◌ (e 0) (take_same xs ys (omega arith) (λ i. e (suc i)))
