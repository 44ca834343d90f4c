-- ===== src/Metrics/Summary.antt =====
-- ReceiverPipeline.cpp, summarizeLatency(): the figures of a run.
use lowlat_stream.Base.{
  ℕ, zero, suc, ◌+◌, ◌*◌, ◌≤◌, ◌<◌, ◌≡◌, ◌==◌, false, refl, if◌then◌else◌, List, [], ◌∷◌, ◌++◌,
  length, length-append, get_or, All, Bool-cases, inl, inr, arith,
}
use native.Mathlib.Nat.{mul-le-mul_right}
use lowlat_stream.Base.Int.{ℤ, pos, ltb_ℤ, ◌≤ℤ◌}
use lowlat_stream.DelayEstimator.{sort, insert}
use lowlat_stream.DelayEstimator.Percentile.{IsSorted, sort-IsSorted, sort-counts, All-get_or}
use lowlat_stream.Metrics.{LatencyRecorder, no_samples, add, index_of, summarize_latency}
use lowlat_stream.Metrics.Rank.{rank_lem, index_of-lt, percentile-value}

-- All samples of a run, one after another.
abbrev pub add_all : LatencyRecorder → List ℤ → LatencyRecorder
add_all r [] = r
add_all r (x ∷ xs) = add_all (add r x) xs

abbrev AtMost : ℤ → List ℤ → Type 0
AtMost b = All (λ x. x ≤ℤ b)

AtMost-weaken : (a b : ℤ) (xs : List ℤ) → a ≤ℤ b → AtMost a xs → AtMost b xs
AtMost-weaken a b [] h v = tt
AtMost-weaken a b (x ∷ xs) h v = (omega (arith, v.0), AtMost-weaken a b xs h v.1)

AtMost-append : (b x : ℤ) (xs : List ℤ) → x ≤ℤ b → AtMost b xs → AtMost b (xs ++ (x ∷ []))
AtMost-append b x [] h v = (h, tt)
AtMost-append b x (y ∷ ys) h v = (v.0, AtMost-append b x ys h v.1)

AtMost-insert : (b x : ℤ) (xs : List ℤ) → x ≤ℤ b → AtMost b xs → AtMost b (insert x xs)
unfolding insert
AtMost-insert b x [] h v = (h, tt)
AtMost-insert b x (y ∷ ys) h v = elim (Bool-cases (ltb_ℤ y x)) [
  | inl e ↦ rw e (v.0, AtMost-insert b x ys h v.1)
  | inr e ↦ rw e (h, v)
]

AtMost-sort : (b : ℤ) (xs : List ℤ) → AtMost b xs → AtMost b (sort xs)
unfolding sort
AtMost-sort b [] v = tt
AtMost-sort b (x ∷ xs) v = AtMost-insert b x (sort xs) v.0 (AtMost-sort b xs v.1)

AtMost-get_or : (b d : ℤ) (xs : List ℤ) (i : ℕ) → AtMost b xs → i < length xs → get_or xs i d ≤ℤ b
AtMost-get_or b d [] i v h = absurd (omega arith)
AtMost-get_or b d (x ∷ xs) zero v h = v.0
AtMost-get_or b d (x ∷ xs) (suc i) v h = AtMost-get_or b d xs i v.1 (omega arith)

add_all-AtMost :
    (r : LatencyRecorder) (xs : List ℤ)
    → AtMost r.max r.samples
    → AtMost (add_all r xs).max (add_all r xs).samples
unfolding add
add_all-AtMost r [] v = v
add_all-AtMost r (x ∷ xs) v =
    let m : ℤ = if ltb_ℤ r.max x then x else r.max in
    add_all-AtMost (add r x) xs (
      AtMost-append m x r.samples (ground arith) (AtMost-weaken r.max m r.samples (ground arith) v))

-- Sorting what is sorted changes nothing.
insert-first : (x : ℤ) (xs : List ℤ) → All (λ y. x ≤ℤ y) xs → insert x xs ≡ x ∷ xs
unfolding insert
insert-first x [] v = refl
insert-first x (y ∷ ys) v = ground (arith, v.0)

sort-fixed : (xs : List ℤ) → IsSorted xs → sort xs ≡ xs
unfolding sort
sort-fixed [] v = refl
sort-fixed (x ∷ xs) v = rw (sort-fixed xs v.1) (insert-first x xs v.0)

get_or_mono :
    (d : ℤ) (xs : List ℤ) (i j : ℕ)
    → IsSorted xs
    → i ≤ j
    → j < length xs
    → get_or xs i d ≤ℤ get_or xs j d
get_or_mono d [] i j v h l = absurd (omega arith)
get_or_mono d (x ∷ xs) zero zero v h l = omega arith
get_or_mono d (x ∷ xs) zero (suc j) v h l = All-get_or x d xs j v.0 (omega arith)
get_or_mono d (x ∷ xs) (suc i) zero v h l = absurd (omega arith)
get_or_mono d (x ∷ xs) (suc i) (suc j) v h l = get_or_mono d xs i j v.1 (omega arith) (omega arith)

index_of_mono : (n p q : ℕ) → p ≤ q → index_of n p ≤ index_of n q
index_of_mono n p q h =
    let more : p * n ≤ q * n = mul-le-mul_right n h in
    let a = rank_lem n p in let b = rank_lem n q in ground (arith, a, b, more)

-- What summarizeLatency() gives of a recorder with samples.
summarize_latency-value :
    (r : LatencyRecorder)
    → 0 < length r.samples
    → let n = length r.samples in
      let at : ℕ → ℤ = λ p. get_or (sort r.samples) (index_of n p) (pos 0) in
      (summarize_latency r).0
      ≡ record { samples = n; p50_ms = at 50; p95_ms = at 95; p99_ms = at 99; max_ms = r.max }
unfolding summarize_latency
summarize_latency-value r h =
    let n = length r.samples in
    let some_there : (n == 0) ≡ false = ground arith in
    let a : LatencyRecorder = record r { samples = sort r.samples } in
    let same : length (sort r.samples) ≡ n = (sort-counts (pos 0) r.samples).2 in
    let fixed : sort (sort r.samples) ≡ sort r.samples =
      sort-fixed (sort r.samples) (sort-IsSorted r.samples) in
    rw
      (
        some_there,
        percentile-value r 50 h (omega arith),
        percentile-value a 95 (omega (arith, same)) (omega arith),
        fixed,
        percentile-value a 99 (omega (arith, same)) (omega arith),
        fixed,
        same,
      )
      refl

add_all-length :
    (r : LatencyRecorder) (xs : List ℤ)
    → length (add_all r xs).samples ≡ length r.samples + length xs
unfolding add
add_all-length r [] = omega arith
add_all-length r (x ∷ xs) =
    omega (arith, add_all-length (add r x) xs, length-append r.samples (x ∷ []))

-- The figures of a run with samples stand in order: the median is at most the 95th percentile, that is
-- at most the 99th, and that is at most the greatest sample.
pub summarize_latency_lem :
    (x : ℤ) (xs : List ℤ)
    → let s = (summarize_latency (add_all no_samples (x ∷ xs))).0 in
      (s.p50_ms ≤ℤ s.p95_ms) × (s.p95_ms ≤ℤ s.p99_ms) × (s.p99_ms ≤ℤ s.max_ms)
summarize_latency_lem x xs =
    let r : LatencyRecorder = add_all no_samples (x ∷ xs) in
    let n = length r.samples in
    let there : 0 < n = omega (arith, add_all-length no_samples (x ∷ xs)) in
    let all : AtMost r.max r.samples = add_all-AtMost no_samples (x ∷ xs) tt in
    let same : length (sort r.samples) ≡ n = (sort-counts (pos 0) r.samples).2 in
    let v : IsSorted (sort r.samples) = sort-IsSorted r.samples in
    rw (summarize_latency-value r there) (
      get_or_mono (pos 0) (sort r.samples) (index_of n 50) (index_of n 95) v
          (index_of_mono n 50 95 (omega arith))
          (omega (arith, same, index_of-lt n 95 there (omega arith))),
      get_or_mono (pos 0) (sort r.samples) (index_of n 95) (index_of n 99) v
          (index_of_mono n 95 99 (omega arith))
          (omega (arith, same, index_of-lt n 99 there (omega arith))),
      AtMost-get_or r.max (pos 0) (sort r.samples) (index_of n 99) (AtMost-sort r.max r.samples all)
          (omega (arith, same, index_of-lt n 99 there (omega arith))),
    )
