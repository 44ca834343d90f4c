-- ===== src/Base/Maps.antt =====
-- An association list over numbers, for the maps keyed by frame and sequence numbers. Its order is
-- the order of iteration.
use Prim.Native.Nat.{ℕ, suc, ◌≤◌}
use mathlib.Core.Path.{◌≡◌, refl}
use mathlib.Core.Logic.{◌≢◌, inl, inr}
use mathlib.Core.List.{List, [], ◌∷◌}
use mathlib.Core.Option.{Option, none, some}
use native.Mathlib.Omega.{arith}
use lowlat_stream.Base.Tests.{◌==◌, ==_iff, if◌then◌else◌, Bool-cases}
use lowlat_stream.Base.Lists.{length, All}

module _ {ℓ} {V : Type ℓ} where
  unfoldable pub lookup : ℕ → List (ℕ × V) → Option V
  lookup k [] = none
  lookup k ((j, v) ∷ m) = if j == k then some v else lookup k m

  -- Overwrites the value of a key that is there.
  unfoldable pub update : ℕ → V → List (ℕ × V) → List (ℕ × V)
  update k v [] = []
  update k v ((j, w) ∷ m) = if j == k then (j, v) ∷ m else (j, w) ∷ update k v m

  unfoldable pub remove : ℕ → List (ℕ × V) → List (ℕ × V)
  remove k [] = []
  remove k ((j, w) ∷ m) = if j == k then m else (j, w) ∷ remove k m

  pub length-update : (k : ℕ) (v : V) (m : List (ℕ × V)) → length (update k v m) ≡ length m
  unfolding update
  length-update k v [] = refl
  length-update k v ((j, w) ∷ m) = ground (arith, length-update k v m)

  pub length-remove-le : (k : ℕ) (m : List (ℕ × V)) → length (remove k m) ≤ length m
  unfolding remove
  length-remove-le k [] = omega arith
  length-remove-le k ((j, w) ∷ m) = ground (arith, length-remove-le k m)

  pub length-remove :
      (k : ℕ) (v : V) (m : List (ℕ × V))
      → lookup k m ≡ some v
      → length m ≡ suc (length (remove k m))
  unfolding remove lookup
  length-remove k v [] e = ground arith
  length-remove k v ((j, w) ∷ m) e = ground (arith, length-remove k v m)

  pub lookup-update_self :
      (k : ℕ) (v w : V) (m : List (ℕ × V)) → lookup k m ≡ some w → lookup k (update k v m) ≡ some v
  unfolding lookup update
  lookup-update_self k v w [] e = ground arith
  lookup-update_self k v w ((j, u) ∷ m) e = ground (arith, lookup-update_self k v w m)

  pub lookup-update_ne :
      (k j : ℕ) (v : V) (m : List (ℕ × V)) → k ≢ j → lookup j (update k v m) ≡ lookup j m
  unfolding lookup update
  lookup-update_ne k j v [] h = refl
  lookup-update_ne k j v ((i, u) ∷ m) h = ground (arith, lookup-update_ne k j v m)

  pub lookup-remove_ne : (k j : ℕ) (m : List (ℕ × V)) → k ≢ j → lookup j (remove k m) ≡ lookup j m
  unfolding lookup remove
  lookup-remove_ne k j [] h = refl
  lookup-remove_ne k j ((i, u) ∷ m) h = ground (arith, lookup-remove_ne k j m)

  -- A property of every entry.
  module _ {κ} (P : ℕ × V → Type κ) where
    pub All-lookup : (k : ℕ) (v : V) (m : List (ℕ × V)) → All P m → lookup k m ≡ some v → P (k, v)
    unfolding lookup
    All-lookup k v [] a e = ground arith
    All-lookup k v ((j, w) ∷ m) a e = elim (Bool-cases (j == k)) [
      | inl hit ↦
          let same : j ≡ k = (==_iff j k).0 hit in
          let held : w ≡ v = ground arith in rw (← same, ← held) a.0
      | inr miss ↦ All-lookup k v m a.1 (rw miss at e)
    ]

    pub All-update : (k : ℕ) (v : V) (m : List (ℕ × V)) → All P m → P (k, v) → All P (update k v m)
    unfolding update
    All-update k v [] a p = tt
    All-update k v ((j, w) ∷ m) a p = elim (Bool-cases (j == k)) [
      | inl hit ↦ let same : j ≡ k = (==_iff j k).0 hit in rw hit (rw same p, a.1)
      | inr miss ↦ rw miss (a.0, All-update k v m a.1 p)
    ]

    pub All-remove : (k : ℕ) (m : List (ℕ × V)) → All P m → All P (remove k m)
    unfolding remove
    All-remove k [] a = tt
    All-remove k ((j, w) ∷ m) a = ground (arith, All-remove k m a.1)

  -- Each key once.
  abbrev pub Distinct : List (ℕ × V) → Type ℓ
  Distinct [] = Unit
  Distinct ((j, w) ∷ m) = (lookup j m ≡ none) × Distinct m

  pub lookup-remove-none :
      (k j : ℕ) (m : List (ℕ × V)) → lookup j m ≡ none → lookup j (remove k m) ≡ none
  unfolding lookup remove
  lookup-remove-none k j [] h = refl
  lookup-remove-none k j ((i, u) ∷ m) h = ground (arith, lookup-remove-none k j m)

  pub lookup-remove_self : (k : ℕ) (m : List (ℕ × V)) → Distinct m → lookup k (remove k m) ≡ none
  unfolding lookup remove
  lookup-remove_self k [] d = refl
  lookup-remove_self k ((i, u) ∷ m) d = ground (arith, lookup-remove_self k m d.1, d.0)

  pub lookup-update-none :
      (k j : ℕ) (v : V) (m : List (ℕ × V)) → lookup j m ≡ none → lookup j (update k v m) ≡ none
  unfolding lookup update
  lookup-update-none k j v [] h = refl
  lookup-update-none k j v ((i, u) ∷ m) h = ground (arith, lookup-update-none k j v m)

  pub Distinct-remove : (k : ℕ) (m : List (ℕ × V)) → Distinct m → Distinct (remove k m)
  unfolding remove
  Distinct-remove k [] d = tt
  Distinct-remove k ((i, u) ∷ m) d =
      ground (arith, Distinct-remove k m d.1, lookup-remove-none k i m d.0)

  pub Distinct-update : (k : ℕ) (v : V) (m : List (ℕ × V)) → Distinct m → Distinct (update k v m)
  unfolding update
  Distinct-update k v [] d = tt
  Distinct-update k v ((i, u) ∷ m) d =
      ground (arith, Distinct-update k v m d.1, lookup-update-none k i v m d.0)
