-- ===== src/DelayEstimator/Percentile.antt =====
-- DelayEstimator.cpp, percentileOffset() and the window: what the percentile is of, and which samples
-- the window keeps.
use lowlat_stream.Base.{
  ℕ, zero, suc, ◌+◌, ◌-◌, ◌*◌, ◌/◌, ◌≤◌, ◌<◌, ◌≡◌, inl, inr, ap, refl, false, Bool-cases, List, [],
  ◌∷◌, length, get_or, All, if◌then◌else◌, arith, ◌==◌,
}
use native.Mathlib.Nat.{mul-le-mul_right}
use lowlat_stream.Base.Int.{ℤ, pos, pos_part, ◌≤ℤ◌, ltb_ℤ}
use lowlat_stream.DelayEstimator.{Sample, insert, sort, nth_element, offsets, percentile_offset}

-- How many are at most the bound, and how many are at least it.
unfoldable pub count_at_most : ℤ → List ℤ → ℕ
count_at_most b [] = 0
count_at_most b (x ∷ xs) = let rest = count_at_most b xs in if ltb_ℤ b x then rest else suc rest

unfoldable pub count_at_least : ℤ → List ℤ → ℕ
count_at_least b [] = 0
count_at_least b (x ∷ xs) = let rest = count_at_least b xs in if ltb_ℤ x b then rest else suc rest

-- Sorting does not change the counts.
at_most-insert : (b x : ℤ) (xs : List ℤ) → count_at_most b (insert x xs) ≡ count_at_most b (x ∷ xs)
unfolding count_at_most insert
at_most-insert b x [] = refl
at_most-insert b x (y ∷ ys) = ground (arith, at_most-insert b x ys)

at_least-insert :
    (b x : ℤ) (xs : List ℤ) → count_at_least b (insert x xs) ≡ count_at_least b (x ∷ xs)
unfolding count_at_least insert
at_least-insert b x [] = refl
at_least-insert b x (y ∷ ys) = ground (arith, at_least-insert b x ys)

length-insert : (x : ℤ) (xs : List ℤ) → length (insert x xs) ≡ suc (length xs)
unfolding insert
length-insert x [] = refl
length-insert x (y ∷ ys) = ground (arith, length-insert x ys)

pub sort-counts :
    (b : ℤ) (xs : List ℤ)
    → (count_at_most b (sort xs) ≡ count_at_most b xs)
      × (count_at_least b (sort xs) ≡ count_at_least b xs)
      × (length (sort xs) ≡ length xs)
unfolding sort count_at_most count_at_least
sort-counts b [] = (refl, refl, refl)
sort-counts b (x ∷ xs) =
    let h = sort-counts b xs in
    ground (
      arith,
      h,
      at_most-insert b x (sort xs),
      at_least-insert b x (sort xs),
      length-insert x (sort xs),
    )

abbrev pub IsSorted : List ℤ → Type 0
IsSorted [] = Unit
IsSorted (x ∷ xs) = All (λ y. x ≤ℤ y) xs × IsSorted xs

All-weaken : (a b : ℤ) (xs : List ℤ) → a ≤ℤ b → All (λ y. b ≤ℤ y) xs → All (λ y. a ≤ℤ y) xs
All-weaken a b [] h v = tt
All-weaken a b (x ∷ xs) h v = (omega (arith, v.0), All-weaken a b xs h v.1)

All-insert :
    (a x : ℤ) (xs : List ℤ) → a ≤ℤ x → All (λ y. a ≤ℤ y) xs → All (λ y. a ≤ℤ y) (insert x xs)
unfolding insert
All-insert a x [] h v = (h, tt)
All-insert a x (y ∷ ys) h v = elim (Bool-cases (ltb_ℤ y x)) [
  | inl e ↦ rw e (v.0, All-insert a x ys h v.1)
  | inr e ↦ rw e (h, v)
]

insert-IsSorted : (x : ℤ) (xs : List ℤ) → IsSorted xs → IsSorted (insert x xs)
unfolding insert
insert-IsSorted x [] v = (tt, tt)
insert-IsSorted x (y ∷ ys) v = elim (Bool-cases (ltb_ℤ y x)) [
  | inl e ↦ rw e (All-insert y x ys (ground arith) v.0, insert-IsSorted x ys v.1)
  | inr e ↦ rw e ((ground arith, All-weaken x y ys (ground arith) v.0), v)
]

pub sort-IsSorted : (xs : List ℤ) → IsSorted (sort xs)
unfolding sort
sort-IsSorted [] = tt
sort-IsSorted (x ∷ xs) = insert-IsSorted x (sort xs) (sort-IsSorted xs)

pub All-get_or :
    (a d : ℤ) (xs : List ℤ) (i : ℕ) → All (λ y. a ≤ℤ y) xs → i < length xs → a ≤ℤ get_or xs i d
All-get_or a d [] i v h = absurd (omega arith)
All-get_or a d (x ∷ xs) zero v h = v.0
All-get_or a d (x ∷ xs) (suc i) v h = All-get_or a d xs i v.1 (omega arith)

at_least-All : (a : ℤ) (xs : List ℤ) → All (λ y. a ≤ℤ y) xs → count_at_least a xs ≡ length xs
unfolding count_at_least
at_least-All a [] v = refl
at_least-All a (x ∷ xs) v = ground (arith, at_least-All a xs)

-- In a sorted list the places up to `i` hold no more than the value at `i`, the others no less.
place_counts :
    (d : ℤ) (xs : List ℤ) (i : ℕ)
    → IsSorted xs
    → i < length xs
    → (suc i ≤ count_at_most (get_or xs i d) xs)
      × (length xs ≤ i + count_at_least (get_or xs i d) xs)
unfolding count_at_most count_at_least
place_counts d [] i v h = absurd (omega arith)
place_counts d (x ∷ xs) zero v h = ground (arith, at_least-All x xs v.0)
place_counts d (x ∷ xs) (suc i) v h =
    let (a, b) = place_counts d xs i v.1 (omega arith) in
    let l = All-get_or x d xs i v.0 (omega arith) in ground arith

-- The element that nth_element puts at a place: more are at most it than the place says, and as many as
-- are left at least it.
pub nth_element-counts :
    (xs : List ℤ) (k : ℕ)
    → k < length xs
    → (k < count_at_most (nth_element xs k) xs)
      × (length xs ≤ k + count_at_least (nth_element xs k) xs)
nth_element-counts xs k h =
    let (a, b, c) = sort-counts (nth_element xs k) xs in
    let (x, y) = place_counts (pos 0) (sort xs) k (sort-IsSorted xs) (omega (arith, c)) in
    (omega (arith, x, a), omega (arith, y, b, c))

length-offsets : (ss : List Sample) → length (offsets ss) ≡ length ss
unfolding offsets
length-offsets [] = refl
length-offsets (s ∷ ss) = ap suc (length-offsets ss)

-- The place that percentileOffset() takes in a window of `n` samples.
abbrev pub place_of : ℤ → ℕ → ℕ
place_of percentile n = pos_part percentile * (n - 1) / 100

place_of-lt : (p : ℤ) (n : ℕ) → 0 < n → p ≤ℤ pos 100 → place_of p n < n
place_of-lt p n h l =
    let small : pos_part p ≤ 100 = ground arith in
    let most : pos_part p * (n - 1) ≤ 100 * (n - 1) = mul-le-mul_right (n - 1) small in omega arith

-- percentileOffset() is the sample at its place in the order of the offsets: of a window that is not
-- empty, more samples than the place says are at most it, and as many as are left at least it.
pub percentile_offset_lem :
    (window : List Sample) (percentile : ℤ)
    → 0 < length window
    → percentile ≤ℤ pos 100
    → let v = percentile_offset window percentile in
      let k = place_of percentile (length window) in
      (k < length window)
      × (k < count_at_most v (offsets window))
      × (length window ≤ k + count_at_least v (offsets window))
unfolding percentile_offset
percentile_offset_lem w p h l =
    let k : ℕ = place_of p (length w) in
    let lt = place_of-lt p (length w) h l in
    let some_there : (length w == 0) ≡ false = ground arith in
    let xs = offsets w in
    let (x, y) = nth_element-counts xs k (omega (arith, lt, length-offsets w)) in
    rw some_there (lt, x, omega (arith, y, length-offsets w))
