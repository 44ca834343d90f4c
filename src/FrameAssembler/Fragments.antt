-- ===== src/FrameAssembler/Fragments.antt =====
-- Counting and measuring the stored fragments of an entry.
use lowlat_stream.Base.{
  ℕ, zero, suc, ◌+◌, ◌≤◌, ◌<◌, ◌≡◌, refl, List, [], ◌∷◌, length, set, get_or, replicate, flatten,
  length-append, arith,
}

-- How many fragments have come.
abbrev pub arrived : List (List ℕ) → ℕ
arrived [] = 0
arrived ([] ∷ xss) = arrived xss
arrived ((x ∷ xs) ∷ xss) = suc (arrived xss)

pub arrived-le : (xss : List (List ℕ)) → arrived xss ≤ length xss
arrived-le [] = omega arith
arrived-le ([] ∷ xss) = omega (arith, arrived-le xss)
arrived-le ((x ∷ xs) ∷ xss) = omega (arith, arrived-le xss)

pub arrived-replicate : (n : ℕ) → arrived (replicate n []) ≡ 0
arrived-replicate zero = refl
arrived-replicate (suc n) = arrived-replicate n

pub flatten-replicate : (n : ℕ) → flatten {A = ℕ} (replicate n []) ≡ []
flatten-replicate zero = refl
flatten-replicate (suc n) = flatten-replicate n

pub arrived-set :
    (xss : List (List ℕ)) (i : ℕ) (p : List ℕ)
    → get_or xss i [] ≡ []
    → i < length xss
    → 0 < length p
    → arrived (set xss i p) ≡ suc (arrived xss)
arrived-set [] i p e l n = absurd (omega arith)
arrived-set (xs ∷ xss) zero [] e l n = absurd (omega arith)
arrived-set ([] ∷ xss) zero (b ∷ bs) e l n = refl
arrived-set ((x ∷ xs) ∷ xss) zero (b ∷ bs) e l n = ground arith
arrived-set ([] ∷ xss) (suc i) p e l n = arrived-set xss i p e (omega arith) n
arrived-set ((x ∷ xs) ∷ xss) (suc i) p e l n = omega (arith, arrived-set xss i p e (omega arith) n)

pub length-flatten-set :
    (xss : List (List ℕ)) (i : ℕ) (p : List ℕ)
    → get_or xss i [] ≡ []
    → i < length xss
    → length (flatten (set xss i p)) ≡ length (flatten xss) + length p
length-flatten-set [] i p e l = absurd (omega arith)
length-flatten-set ([] ∷ xss) zero p e l = omega (arith, length-append p (flatten xss))
length-flatten-set ((x ∷ xs) ∷ xss) zero p e l = ground arith
length-flatten-set (xs ∷ xss) (suc i) p e l = omega (
  arith,
  length-append xs (flatten xss),
  length-append xs (flatten (set xss i p)),
  length-flatten-set xss i p e (omega arith),
)
