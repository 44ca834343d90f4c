-- ===== src/Fec/Fold.antt =====
-- Sums over the members of a group: over a list of offsets, and over all offsets below a bound. The
-- operation is addition or the exclusive or.
use lowlat_stream.Base.{
  ℕ, zero, suc, ◌+◌, ◌<◌, ◌≤◌, ◌≡◌, ◌≢◌, refl, ap, ap₂, sym, ◌∙◌, Bool, true, false, ◌==◌, ◌||◌,
  if◌then◌else◌, List, [], ◌∷◌, length, All, arith, Bool-cases, inl, inr,
}

unfoldable pub is_in : ℕ → List ℕ → Bool
is_in k [] = false
is_in k (a ∷ l) = a == k || is_in k l

abbrev pub NoRepeat : List ℕ → Type 0
NoRepeat [] = Unit {0}
NoRepeat (a ∷ l) = (is_in a l ≡ false) × NoRepeat l

-- All offsets below `n` but `j`, each once, in any order.
pub record AllBut (n j : ℕ) (l : List ℕ) : Type 0 where
  pub once : NoRepeat l
  pub below : All (λ k. k < n) l
  pub absent : is_in j l ≡ false
  pub others : (k : ℕ) → k < n → k ≢ j → is_in k l ≡ true

abbrev pub offsets : ℕ → ℕ → List ℕ
offsets i zero = []
offsets i (suc k) = i ∷ offsets (suc i) k

is_in-offsets_low : (i k a : ℕ) → a < i → is_in a (offsets i k) ≡ false
unfolding is_in
is_in-offsets_low i zero a h = refl
is_in-offsets_low i (suc k) a h = ground (arith, is_in-offsets_low (suc i) k a)

is_in-offsets : (i k a : ℕ) → i ≤ a → a < i + k → is_in a (offsets i k) ≡ true
unfolding is_in
is_in-offsets i zero a h p = absurd (omega arith)
is_in-offsets i (suc k) a h p = ground (arith, is_in-offsets (suc i) k a)

NoRepeat-offsets : (i k : ℕ) → NoRepeat (offsets i k)
NoRepeat-offsets i zero = tt
NoRepeat-offsets i (suc k) =
    (is_in-offsets_low (suc i) k i (omega arith), NoRepeat-offsets (suc i) k)

offsets-below : (i k n : ℕ) → i + k ≤ n → All (λ a. a < n) (offsets i k)
offsets-below i zero n h = tt
offsets-below i (suc k) n h = (omega arith, offsets-below (suc i) k n (omega arith))

module _ (op : ℕ → ℕ → ℕ) (comm : (a b : ℕ) → op a b ≡ op b a)
    (assoc : (a b c : ℕ) → op (op a b) c ≡ op a (op b c)) (unit : (a : ℕ) → op a 0 ≡ a) where
  abbrev pub fold : (ℕ → ℕ) → List ℕ → ℕ
  fold f [] = 0
  fold f (k ∷ l) = op (f k) (fold f l)

  abbrev over : (ℕ → ℕ) → ℕ → ℕ
  over f zero = 0
  over f (suc n) = op (f n) (over f n)

  over_cong : (f g : ℕ → ℕ) (n : ℕ) → ((k : ℕ) → k < n → f k ≡ g k) → over f n ≡ over g n
  over_cong f g zero h = refl
  over_cong f g (suc n) h = ap₂ op (h n (omega arith)) (over_cong f g n (λ k lt. h k (omega arith)))

  abbrev except : (ℕ → ℕ) → ℕ → ℕ → ℕ
  except f j k = if k == j then 0 else f k

  over-split : (f : ℕ → ℕ) (j n : ℕ) → j < n → over f n ≡ op (f j) (over (except f j) n)
  over-split f j zero h = absurd (omega arith)
  over-split f j (suc n) h = elim (Bool-cases (n == j)) [
    | inl same ↦
        let e : n ≡ j = ground arith in
        let rest = over_cong f (except f j) n (λ k lt. ground arith) in
        let zero_first : op 0 (over (except f j) n) ≡ over (except f j) n =
          comm 0 (over (except f j) n) ∙ unit (over (except f j) n) in
        rw (same, zero_first) (ap₂ op (ap f e) rest)
    | inr other ↦
        let ih = over-split f j n (ground arith) in
        let x = over (except f j) n in
        rw other (
          ap (op (f n)) ih
          ∙ sym (assoc (f n) (f j) x)
          ∙ ap (λ t. op t x) (comm (f n) (f j))
          ∙ assoc (f j) (f n) x)
  ]

  abbrev only : (ℕ → ℕ) → List ℕ → ℕ → ℕ
  only f l k = if is_in k l then f k else 0

  over_zero : (n : ℕ) → over (λ k. 0) n ≡ 0
  over_zero zero = refl
  over_zero (suc n) = ap (op 0) (over_zero n) ∙ unit 0

  fold-over :
      (f : ℕ → ℕ) (n : ℕ) (l : List ℕ)
      → NoRepeat l
      → All (λ k. k < n) l
      → fold f l ≡ over (only f l) n
  unfolding is_in
  fold-over f n [] d b = sym (over_zero n)
  fold-over f n (a ∷ l) d b =
      let ih = fold-over f n l d.1 b.1 in
      let first : only f (a ∷ l) a ≡ f a = ground arith in
      let rest = over_cong (only f l) (except (only f (a ∷ l)) a) n (λ k lt. ground (arith, d.0)) in
      ap (op (f a)) (ih ∙ rest)
      ∙ ap (λ t. op t (over (except (only f (a ∷ l)) a) n)) (sym first)
      ∙ sym (over-split (only f (a ∷ l)) a n b.0)

  -- A whole group is one member and the others.
  pub fold-offsets :
      (f : ℕ → ℕ) (n j : ℕ) (l : List ℕ)
      → j < n
      → AllBut n j l
      → fold f (offsets 0 n) ≡ op (f j) (fold f l)
  fold-offsets f n j l lt a =
      let whole =
        fold-over f n (offsets 0 n) (NoRepeat-offsets 0 n) (offsets-below 0 n n (omega arith)) in
      let every =
        over_cong (only f (offsets 0 n)) f n (λ k h. ground (arith, is_in-offsets 0 n k)) in
      let part = fold-over f n l a.once a.below in
      let same =
        over_cong (except f j) (only f l) n (λ k h. ground (arith, a.others k h, a.absent)) in
      whole ∙ every ∙ over-split f j n lt ∙ ap (op (f j)) (same ∙ sym part)

abbrev count : List ℕ → ℕ
count l = fold ◌+◌ (λ a b. omega arith) (λ a b c. omega arith) (λ a. omega arith) (λ k. 1) l

count_lem : (l : List ℕ) → count l ≡ length l
count_lem [] = refl
count_lem (k ∷ l) = omega (arith, count_lem l)

pub length-offsets : (i k : ℕ) → length (offsets i k) ≡ k
length-offsets i zero = refl
length-offsets i (suc k) = ap suc (length-offsets (suc i) k)

pub length-AllBut : (n j : ℕ) (l : List ℕ) → j < n → AllBut n j l → n ≡ suc (length l)
length-AllBut n j l lt a =
    let split =
      fold-offsets ◌+◌ (λ a b. omega arith) (λ a b c. omega arith) (λ a. omega arith) (λ k. 1) n j l
        lt a in
    omega (arith, split, count_lem l, count_lem (offsets 0 n), length-offsets 0 n)
