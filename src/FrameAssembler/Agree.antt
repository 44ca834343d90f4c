-- ===== src/FrameAssembler/Agree.antt =====
-- Stored fragments that agree with the frame which they were cut from.
use lowlat_stream.Base.{
  ℕ, zero, suc, ◌+◌, ◌*◌, ◌≤◌, ◌≡◌, refl, ap, sym, ◌∙◌, ◌⊎◌, inl, inr, List, [], ◌∷◌, ◌++◌, length,
  set, replicate, flatten, drop, take-append-drop, drop-drop, drop_all, arith,
}
use lowlat_stream.Packet.Types.{max_payload}
use lowlat_stream.Packetizer.Fragment.{slice}
use lowlat_stream.FrameAssembler.Fragments.{arrived, arrived-le}

module _ (body : List ℕ) where
  -- The slots stand for the fragments from the `k`th on; each is empty or right.
  abbrev pub Agree : ℕ → List (List ℕ) → Type 0
  Agree k [] = Unit {0}
  Agree k (xs ∷ xss) = ((xs ≡ []) ⊎ (xs ≡ slice body k)) × Agree (suc k) xss

  pub Agree-replicate : (k n : ℕ) → Agree k (replicate n [])
  Agree-replicate k zero = tt
  Agree-replicate k (suc n) = (inl refl, Agree-replicate (suc k) n)

  pub Agree-set :
      (k : ℕ) (xss : List (List ℕ)) (i j : ℕ)
      → j ≡ k + i
      → Agree k xss
      → Agree k (set xss i (slice body j))
  Agree-set k [] i j e a = tt
  Agree-set k (xs ∷ xss) zero j e a = (inr (ap (slice body) (omega arith)), a.1)
  Agree-set k (xs ∷ xss) (suc i) j e a = (a.0, Agree-set (suc k) xss i j (omega arith) a.1)

  -- With every slot filled, the slots are the rest of the frame.
  pub Agree-flatten :
      (k : ℕ) (xss : List (List ℕ))
      → Agree k xss
      → arrived xss ≡ length xss
      → length body ≤ (k + length xss) * max_payload
      → flatten xss ≡ drop (k * max_payload) body
  Agree-flatten k [] a full fits = sym (drop_all (k * max_payload) body (omega arith))
  Agree-flatten k ([] ∷ xss) a full fits = absurd (omega (arith, arrived-le xss))
  Agree-flatten k ((x ∷ xs) ∷ xss) (inl e, a) full fits = cc
  Agree-flatten k ((x ∷ xs) ∷ xss) (inr e, a) full fits =
      rw (Agree-flatten (suc k) xss a (omega arith) (omega arith)) (
        ap (λ t. t ++ drop (suc k * max_payload) body) e
        ∙ ap (λ t. slice body k ++ t)
            (ap (λ t. drop t body) (omega arith)
              ∙ sym (drop-drop max_payload (k * max_payload) body))
        ∙ take-append-drop max_payload (drop (k * max_payload) body))
