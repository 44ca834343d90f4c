-- ===== src/Base/Lists.antt =====
-- Lists measured and indexed by native numbers, under the library's names, with the writes into a
-- byte buffer that the encoders make.
use Prim.Native.Nat.{ℕ, zero, suc, ◌+◌, ◌-◌, ◌≤◌, min}
use mathlib.Core.Path.{◌≡◌, refl, ap}
use mathlib.Core.Logic.{◌⊎◌}
use mathlib.Core.List.{List, [], ◌∷◌, ◌++◌}
use mathlib.Core.Option.{Option, none, some}
use native.Mathlib.Omega.{arith}

module _ {ℓ} {A : Type ℓ} where
  abbrev pub length : List A → ℕ
  length [] = 0
  length (x ∷ xs) = suc (length xs)

  abbrev pub get_elem? : List A → ℕ → Option A
  get_elem? [] i = none
  get_elem? (x ∷ xs) zero = some x
  get_elem? (x ∷ xs) (suc i) = get_elem? xs i

  abbrev pub get_or : List A → ℕ → A → A
  get_or [] i d = d
  get_or (x ∷ xs) zero d = x
  get_or (x ∷ xs) (suc i) d = get_or xs i d

  -- A write out of bounds changes nothing.
  abbrev pub set : List A → ℕ → A → List A
  set [] i v = []
  set (x ∷ xs) zero v = v ∷ xs
  set (x ∷ xs) (suc i) v = x ∷ set xs i v

  abbrev pub take : ℕ → List A → List A
  take zero xs = []
  take (suc n) [] = []
  take (suc n) (x ∷ xs) = x ∷ take n xs

  abbrev pub drop : ℕ → List A → List A
  drop zero xs = xs
  drop (suc n) [] = []
  drop (suc n) (x ∷ xs) = drop n xs

  abbrev pub replicate : ℕ → A → List A
  replicate zero a = []
  replicate (suc n) a = a ∷ replicate n a

  -- `memcpy(buf, vs, length vs)`, and at `buf + i`; what falls outside the buffer is dropped.
  abbrev pub overlay : List A → List A → List A
  overlay xs [] = xs
  overlay [] (v ∷ vs) = []
  overlay (x ∷ xs) (v ∷ vs) = v ∷ overlay xs vs

  abbrev pub write : List A → ℕ → List A → List A
  write xs zero vs = overlay xs vs
  write [] (suc i) vs = []
  write (x ∷ xs) (suc i) vs = x ∷ write xs i vs

-- `vector::resize`: cut off, or fill up with the default.
abbrev pub resize {ℓ} : {A : Type ℓ} → ℕ → A → List A → List A
resize n d xs = take n xs ++ replicate (n - length xs) d

module _ {ℓ} {A : Type ℓ} where
  pub append_nil : (xs : List A) → xs ++ [] ≡ xs
  append_nil [] = refl
  append_nil (x ∷ xs) = ap (◌∷◌ x) (append_nil xs)

  pub append_assoc : (xs ys zs : List A) → (xs ++ ys) ++ zs ≡ xs ++ (ys ++ zs)
  append_assoc [] ys zs = refl
  append_assoc (x ∷ xs) ys zs = ap (◌∷◌ x) (append_assoc xs ys zs)

  pub length-append : (xs ys : List A) → length (xs ++ ys) ≡ length xs + length ys
  length-append [] ys = omega arith
  length-append (x ∷ xs) ys = omega (arith, length-append xs ys)

  pub length-take : (n : ℕ) (xs : List A) → length (take n xs) ≡ min n (length xs)
  length-take zero xs = omega arith
  length-take (suc n) [] = omega arith
  length-take (suc n) (x ∷ xs) = omega (arith, length-take n xs)

  pub length-drop : (n : ℕ) (xs : List A) → length (drop n xs) ≡ length xs - n
  length-drop zero xs = omega arith
  length-drop (suc n) [] = omega arith
  length-drop (suc n) (x ∷ xs) = omega (arith, length-drop n xs)

  pub length-set : (xs : List A) (i : ℕ) (v : A) → length (set xs i v) ≡ length xs
  length-set [] i v = refl
  length-set (x ∷ xs) zero v = refl
  length-set (x ∷ xs) (suc i) v = ap suc (length-set xs i v)

  pub length-replicate : (n : ℕ) (a : A) → length (replicate n a) ≡ n
  length-replicate zero a = refl
  length-replicate (suc n) a = ap suc (length-replicate n a)

  pub length-overlay : (xs vs : List A) → length (overlay xs vs) ≡ length xs
  length-overlay xs [] = refl
  length-overlay [] (v ∷ vs) = refl
  length-overlay (x ∷ xs) (v ∷ vs) = ap suc (length-overlay xs vs)

  pub length-write : (xs : List A) (i : ℕ) (vs : List A) → length (write xs i vs) ≡ length xs
  length-write xs zero vs = length-overlay xs vs
  length-write [] (suc i) vs = refl
  length-write (x ∷ xs) (suc i) vs = ap suc (length-write xs i vs)

  pub overlay-append :
      (xs ys vs : List A) → length vs ≡ length xs → overlay (xs ++ ys) vs ≡ vs ++ ys
  overlay-append [] ys [] h = refl
  overlay-append [] ys (v ∷ vs) h = absurd (omega arith)
  overlay-append (x ∷ xs) ys [] h = absurd (omega arith)
  overlay-append (x ∷ xs) ys (v ∷ vs) h = ap (◌∷◌ v) (overlay-append xs ys vs (omega arith))

  pub write-append :
      (xs ys : List A) (vs : List A) → write (xs ++ ys) (length xs) vs ≡ xs ++ overlay ys vs
  write-append [] ys vs = refl
  write-append (x ∷ xs) ys vs = ap (◌∷◌ x) (write-append xs ys vs)

  pub take-append-drop : (n : ℕ) (xs : List A) → take n xs ++ drop n xs ≡ xs
  take-append-drop zero xs = refl
  take-append-drop (suc n) [] = refl
  take-append-drop (suc n) (x ∷ xs) = rw (take-append-drop n xs)

  pub drop-drop : (m n : ℕ) (xs : List A) → drop m (drop n xs) ≡ drop (n + m) xs
  drop-drop m zero xs = ap (λ k. drop k xs) (omega arith)
  drop-drop zero (suc n) [] = ap (λ k. drop k []) {x = suc n} (omega arith)
  drop-drop (suc m) (suc n) [] = ap (λ k. drop k []) {x = suc (n + suc m)} (omega arith)
  drop-drop m (suc n) (x ∷ xs) =
      let e : suc n + m ≡ suc (n + m) = omega arith in rw e (drop-drop m n xs)

  pub drop-append : (xs ys : List A) → drop (length xs) (xs ++ ys) ≡ ys
  drop-append [] ys = refl
  drop-append (x ∷ xs) ys = drop-append xs ys

  pub take-append : (xs ys : List A) → take (length xs) (xs ++ ys) ≡ xs
  take-append [] ys = refl
  take-append (x ∷ xs) ys = rw (take-append xs ys)

  pub take_all : (n : ℕ) (xs : List A) → length xs ≤ n → take n xs ≡ xs
  take_all zero [] h = refl
  take_all zero (x ∷ xs) h = absurd (omega arith)
  take_all (suc n) [] h = refl
  take_all (suc n) (x ∷ xs) h = ap (◌∷◌ x) (take_all n xs (omega arith))

  pub overlay_all : (xs vs : List A) → length vs ≡ length xs → overlay xs vs ≡ vs
  overlay_all [] [] h = refl
  overlay_all [] (v ∷ vs) h = absurd (omega arith)
  overlay_all (x ∷ xs) [] h = absurd (omega arith)
  overlay_all (x ∷ xs) (v ∷ vs) h = ap (◌∷◌ v) (overlay_all xs vs (omega arith))

  pub length-resize : (n : ℕ) (d : A) (xs : List A) → length (resize n d xs) ≡ n
  length-resize n d xs = omega (
    arith,
    length-append (take n xs) (replicate (n - length xs) d),
    length-take n xs,
    length-replicate (n - length xs) d,
  )

  pub take-min : (n : ℕ) (xs : List A) → take (min n (length xs)) xs ≡ take n xs
  take-min zero xs = ap (λ k. take k xs) {x = min 0 (length xs)} {y = 0} (omega arith)
  take-min (suc n) [] = ap (λ k. take {A = A} k []) {x = min (suc n) 0} {y = 0} (omega arith)
  take-min (suc n) (x ∷ xs) =
      let e : min (suc n) (suc (length xs)) ≡ suc (min n (length xs)) = omega arith in
      rw e (ap (◌∷◌ x) (take-min n xs))

  pub drop_all : (n : ℕ) (xs : List A) → length xs ≤ n → drop n xs ≡ []
  drop_all zero [] h = refl
  drop_all zero (x ∷ xs) h = absurd (omega arith)
  drop_all (suc n) [] h = refl
  drop_all (suc n) (x ∷ xs) h = drop_all n xs (omega arith)

  abbrev pub flatten : List (List A) → List A
  flatten [] = []
  flatten (xs ∷ xss) = xs ++ flatten xss

  abbrev pub All {κ} : (A → Type κ) → List A → Type κ
  All P [] = Unit
  All P (x ∷ xs) = P x × All P xs

  pub All-append {κ} : (P : A → Type κ) (xs ys : List A) → All P xs → All P ys → All P (xs ++ ys)
  All-append P [] ys a b = b
  All-append P (x ∷ xs) ys a b = (a.0, All-append P xs ys a.1 b)

  pub All-trivial : (xs : List A) → All (λ _. Unit {0}) xs
  All-trivial [] = tt
  All-trivial (x ∷ xs) = (tt, All-trivial xs)

-- Membership, with the place.
abbrev pub Elem : {A : Type 0} → A → List A → Type 0
Elem a [] = ⊥
Elem a (x ∷ xs) = (a ≡ x) ⊎ Elem a xs
