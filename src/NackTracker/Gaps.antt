-- ===== src/NackTracker/Gaps.antt =====
-- The loops of `onPacket` over the map of gaps.
use lowlat_stream.Base.{
  ℕ, zero, suc, ◌+◌, ◌-◌, ◌≤◌, ◌<◌, ◌^◌, ◌≡◌, refl, Bool, leb, ◌==◌, ◌||◌, [], ◌∷◌, none, length,
  All, arith, Bool-cases, inl, inr, ◌⊎◌,
}
use lowlat_stream.Base.Words.{sub32}
use lowlat_stream.Base.Maps.{lookup, Distinct}
use lowlat_stream.NackTracker.{NackTrackerStats, GapState, Gaps, expire, emplace, register, give_up}

-- A gap whose age, counted from `highest`, is over `past` and under the window.
pub record IsTracked (highest window limit past : ℕ) (e : ℕ × GapState) : Type 0 where
  pub fits : e.0 < 2 ^ 32
  pub older : past < sub32 highest e.0
  pub inside : sub32 highest e.0 < window
  pub asked : e.1.request_count ≤ limit

-- What giving up changes in the counters: `n` more numbers are lost.
pub record GaveUp (n : ℕ) (s s' : NackTrackerStats) : Type 0 where
  pub given : s'.given_up ≡ s.given_up + n
  pub lost : s'.lost_for_real ≡ s.lost_for_real + n
  pub keys_up : s.key_frames_given_up ≤ s'.key_frames_given_up
  pub keys : s'.key_frames_given_up ≤ s.key_frames_given_up + n
  pub seen : s'.packets_seen ≡ s.packets_seen
  pub asked : s'.nacks_requested ≡ s.nacks_requested
  pub back : s'.recovered ≡ s.recovered
  pub jumps : s'.discontinuities ≡ s.discontinuities

-- `expire` gives up exactly the gaps that it drops.
pub expire-GaveUp :
    (window highest : ℕ) (s : NackTrackerStats) (gaps : Gaps)
    → let (s', kept) = expire window highest s gaps in
      GaveUp (length gaps - length kept) s s' × (length kept ≤ length gaps)
unfolding expire
expire-GaveUp window highest s [] = ground arith
expire-GaveUp window highest s ((seq, g) ∷ gaps) =
    elim (Bool-cases (window == 0 || leb window (sub32 highest seq))) [
      | inl old ↦
          let ih = expire-GaveUp window highest (give_up g s) gaps in
          rw (old, expire) (ground (arith, ih))
      | inr young ↦
          let ih = expire-GaveUp window highest s gaps in rw (young, expire) (ground (arith, ih))
    ]

pub lookup-expire :
    (window highest : ℕ) (s : NackTrackerStats) (gaps : Gaps) (k : ℕ)
    → lookup k gaps ≡ none
    → lookup k (expire window highest s gaps).1 ≡ none
unfolding expire lookup
lookup-expire window highest s [] k e = refl
lookup-expire window highest s ((seq, g) ∷ gaps) k e = ground (
  arith,
  lookup-expire window highest s gaps k,
  lookup-expire window highest (give_up g s) gaps k,
)

pub Distinct-expire :
    (window highest : ℕ) (s : NackTrackerStats) (gaps : Gaps)
    → Distinct gaps
    → Distinct (expire window highest s gaps).1
unfolding expire
Distinct-expire window highest s [] d = tt
Distinct-expire window highest s ((seq, g) ∷ gaps) d = ground (
  arith,
  Distinct-expire window highest s gaps d.1,
  Distinct-expire window highest (give_up g s) gaps d.1,
  lookup-expire window highest s gaps seq d.0,
  lookup-expire window highest (give_up g s) gaps seq d.0,
)

-- Seen from `forward` steps further on, what `expire` keeps is older than `forward`.
pub expire-IsTracked :
    (window old new limit forward : ℕ) (s : NackTrackerStats) (gaps : Gaps)
    → old < 2 ^ 32
    → new < 2 ^ 32
    → forward ≡ sub32 new old
    → forward < 2 ^ 31
    → window ≤ 2 ^ 31
    → All (IsTracked old window limit 0) gaps
    → All (IsTracked new window limit forward) (expire window new s gaps).1
unfolding expire
expire-IsTracked window old new limit forward s [] fo fn e small w a = tt
expire-IsTracked window old new limit forward s ((seq, g) ∷ gaps) fo fn e small w a = ground (
  arith,
  expire-IsTracked window old new limit forward s gaps fo fn e small w a.1,
  expire-IsTracked window old new limit forward (give_up g s) gaps fo fn e small w a.1,
)

-- A number of age `age` is not among older gaps.
lookup_fresh :
    (highest window limit age : ℕ) (gaps : Gaps)
    → highest < 2 ^ 32
    → age < 2 ^ 32
    → All (IsTracked highest window limit age) gaps
    → lookup (sub32 highest age) gaps ≡ none
unfolding lookup
lookup_fresh highest window limit age [] h l a = refl
lookup_fresh highest window limit age ((seq, g) ∷ gaps) h l a =
    ground (arith, lookup_fresh highest window limit age gaps h l a.1)

pub IsTracked-down :
    (highest window limit past age : ℕ) (gaps : Gaps)
    → age ≤ past
    → All (IsTracked highest window limit past) gaps
    → All (IsTracked highest window limit age) gaps
IsTracked-down highest window limit past age [] le a = tt
IsTracked-down highest window limit past age ((seq, g) ∷ gaps) le a =
    (omega arith, IsTracked-down highest window limit past age gaps le a.1)

pub register_lem :
    (highest window limit : ℕ) (is_key : Bool) (age : ℕ) (gaps : Gaps)
    → highest < 2 ^ 32
    → window ≤ 2 ^ 31
    → (age ≡ 0) ⊎ (age < window)
    → All (IsTracked highest window limit age) gaps
    → Distinct gaps
    → let gaps' = register highest is_key age gaps in
      (length gaps' ≡ length gaps + age)
      × All (IsTracked highest window limit 0) gaps'
      × Distinct gaps'
unfolding register emplace
register_lem highest window limit is_key zero gaps h w l a d = (omega arith, a, d)
register_lem highest window limit is_key (suc age) gaps h w l a d =
    let fresh = lookup_fresh highest window limit (suc age) gaps h (omega arith) a in
    let new : GapState = record {
      request_count = 0;
      last_request_at_highest_seq = 0;
      likely_key_frame = is_key;
    } in
    let tracked : IsTracked highest window limit age (sub32 highest (suc age), new) = omega arith in
    let (n, t, u) =
      register_lem highest window limit is_key age ((sub32 highest (suc age), new) ∷ gaps) h w
        (ground arith)
        (tracked, IsTracked-down highest window limit (suc age) age gaps (omega arith) a)
        (fresh, d) in
    rw (fresh, emplace) (omega (arith, n), t, u)
