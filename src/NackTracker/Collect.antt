-- ===== src/NackTracker/Collect.antt =====
-- `collectNackTargets`: which numbers it returns, in which order, and what it keeps.
use lowlat_stream.Base.{
  ℕ, ◌+◌, ◌≤◌, ◌≡◌, ◌≢◌, refl, ap, ◌∙◌, Bool, true, ltb, ltb→ge, if◌then◌else◌, List, [], ◌∷◌, none,
  some, length, All, arith, Bool-cases, Option-cases, inl, inr, map,
}
use lowlat_stream.Base.Words.{sub32}
use lowlat_stream.Base.Maps.{
  lookup, All-remove, All-update, Distinct-remove, Distinct-update, length-remove, length-update,
  All-lookup, lookup-remove-none, lookup-update-none,
}
use lowlat_stream.NackTracker.{
  NackTracker, GapState, visit, visit_all, collect_nack_targets, sort_by_age, insert_by_age,
}
use lowlat_stream.NackTracker.Valid.{IsConsistent, IsValid, Accounts, TrackedBy}

-- What a visit leaves as it was, and how it counts.
pub record Visited (asked : Bool) (t u : NackTracker) : Type 0 where
  pub consistent : IsConsistent u
  pub balance : u.stats.given_up + length u.gaps ≡ t.stats.given_up + length t.gaps
  pub requested : u.stats.nacks_requested ≡ t.stats.nacks_requested + (if asked then 1 else 0)
  pub config_kept : u.config ≡ t.config
  pub highest_kept : u.highest_seq ≡ t.highest_seq
  pub reorder_kept : u.reorder_packets ≡ t.reorder_packets

module _ (t : NackTracker) (v : IsConsistent t) (seq : ℕ) where
  visit_found :
      (g : GapState)
      → lookup seq t.gaps ≡ some g
      → let (asked, u) = visit t seq in Visited asked t u
  unfolding visit
  visit_found g e =
      let held = All-lookup (TrackedBy t) seq g t.gaps v.tracked e in
      let g' : GapState = record g {
        request_count = g.request_count + 1;
        last_request_at_highest_seq = t.highest_seq;
      } in
      let none_less = All-remove (TrackedBy t) seq t.gaps v.tracked in
      let none_twice = Distinct-remove seq t.gaps v.distinct in
      let updated = All-update (TrackedBy t) seq g' t.gaps v.tracked in
      let still_once = Distinct-update seq g' t.gaps v.distinct in
      let fewer = length-remove seq g t.gaps e in
      let as_many = length-update seq g' t.gaps in ground arith

  visit_lem : let (asked, u) = visit t seq in Visited asked t u
  unfolding visit
  visit_lem = elim (Option-cases (lookup seq t.gaps)) [
    | inl e ↦ ground arith
    | inr (g, e) ↦ visit_found g e
  ]

  -- A number that is asked for is a gap, old enough.
  visit_asks :
      (visit t seq).0 ≡ true
      → (t.reorder_packets ≤ sub32 t.highest_seq seq) × (lookup seq t.gaps ≢ none)
  unfolding visit
  visit_asks a = ground arith

  -- No visit makes a gap.
  visit_adds_none : (j : ℕ) → lookup j t.gaps ≡ none → lookup j (visit t seq).1.gaps ≡ none
  unfolding visit
  visit_adds_none j e =
      let less = lookup-remove-none seq j t.gaps e in
      let kept = λ (g : GapState). lookup-update-none seq j g t.gaps e in
      elim (Option-cases (lookup seq t.gaps)) [
        | inl m ↦ ground arith
        | inr (g, m) ↦ ground (
          arith,
          kept (record g {
            request_count = g.request_count + 1;
            last_request_at_highest_seq = t.highest_seq;
          }),
        )
      ]

-- A number that may be asked for: a gap that is at least as old as the tolerance for reordering.
pub record IsDue (t : NackTracker) (seq : ℕ) : Type 0 where
  pub old_enough : t.reorder_packets ≤ sub32 t.highest_seq seq
  pub is_gap : lookup seq t.gaps ≢ none

IsDue-visit :
    (t : NackTracker) (v : IsConsistent t) (seq j : ℕ) → IsDue (visit t seq).1 j → IsDue t j
IsDue-visit t v seq j d =
    let w = visit_lem t v seq in
    record {
      old_enough = omega (arith, d.old_enough, ap (λ h. sub32 h j) w.highest_kept, w.reorder_kept);
      is_gap = λ e. d.is_gap (visit_adds_none t v seq j e);
    }

All-map : {P Q : ℕ → Type 0} (f : (j : ℕ) → P j → Q j) (xs : List ℕ) → All P xs → All Q xs
All-map f [] a = tt
All-map f (x ∷ xs) a = (f x a.0, All-map f xs a.1)

-- What a whole round leaves as it was, and how it counts.
pub record Collected (out : List ℕ) (t u : NackTracker) : Type 0 where
  pub consistent : IsConsistent u
  pub balance : u.stats.given_up + length u.gaps ≡ t.stats.given_up + length t.gaps
  pub requested : u.stats.nacks_requested ≡ t.stats.nacks_requested + length out
  pub config_kept : u.config ≡ t.config
  pub due : All (IsDue t) out

visit_all_lem :
    (t : NackTracker) (seqs : List ℕ)
    → IsConsistent t
    → let (out, u) = visit_all t seqs in Collected out t u
unfolding visit_all
visit_all_lem t [] v = record {
  consistent = v;
  balance = refl;
  requested = omega arith;
  config_kept = refl;
  due = tt;
}
visit_all_lem t (seq ∷ seqs) v =
    let w = visit_lem t v seq in
    let ih = visit_all_lem (visit t seq).1 seqs w.consistent in
    let due = All-map (IsDue-visit t v seq) _ ih.due in
    let asks = visit_asks t v seq in
    elim (Bool-cases (visit t seq).0) [
      | inl e ↦
          let (old, gap) = asks e in
          rw (e, visit_all)
            (record {
              consistent = ih.consistent;
              balance = omega (arith, w.balance, ih.balance);
              requested = ground arith;
              config_kept = ih.config_kept ∙ w.config_kept;
              due = (record { old_enough = old; is_gap = gap }, due);
            })
      | inr e ↦
          rw (e, visit_all)
            (record {
              consistent = ih.consistent;
              balance = omega (arith, w.balance, ih.balance);
              requested = ground arith;
              config_kept = ih.config_kept ∙ w.config_kept;
              due = due;
            })
    ]

-- Oldest first: no later number is older.
abbrev pub OldestFirst : ℕ → List ℕ → Type 0
OldestFirst highest [] = Unit {0}
OldestFirst highest (a ∷ seqs) =
    All (λ b. sub32 highest b ≤ sub32 highest a) seqs × OldestFirst highest seqs

insert-All :
    (P : ℕ → Type 0) (highest a : ℕ) (bs : List ℕ)
    → P a
    → All P bs
    → All P (insert_by_age highest a bs)
unfolding insert_by_age
insert-All P highest a [] p q = (p, tt)
insert-All P highest a (b ∷ bs) p q = let ih = insert-All P highest a bs p q.1 in ground arith

insert-OldestFirst :
    (highest a : ℕ) (bs : List ℕ)
    → OldestFirst highest bs
    → OldestFirst highest (insert_by_age highest a bs)
unfolding insert_by_age
insert-OldestFirst highest a [] o = (tt, tt)
insert-OldestFirst highest a (b ∷ bs) o =
    let ih = insert-OldestFirst highest a bs o.1 in
    elim (Bool-cases (ltb (sub32 highest a) (sub32 highest b))) [
      | inl e ↦
          rw e (
            insert-All (λ c. sub32 highest c ≤ sub32 highest b) highest a bs (ground arith) o.0,
            ih,
          )
      | inr e ↦ rw e ((ltb→ge _ _ e, All-map (λ c h. omega (arith, ltb→ge _ _ e)) bs o.0), o)
    ]

sort-OldestFirst : (highest : ℕ) (seqs : List ℕ) → OldestFirst highest (sort_by_age highest seqs)
unfolding sort_by_age
sort-OldestFirst highest [] = tt
sort-OldestFirst highest (a ∷ seqs) =
    insert-OldestFirst highest a (sort_by_age highest seqs) (sort-OldestFirst highest seqs)

visit_all-All :
    (P : ℕ → Type 0) (t : NackTracker) (seqs : List ℕ) → All P seqs → All P (visit_all t seqs).0
unfolding visit_all
visit_all-All P t [] a = tt
visit_all-All P t (seq ∷ seqs) a = let ih = visit_all-All P (visit t seq).1 seqs a.1 in ground arith

visit_all-OldestFirst :
    (highest : ℕ) (t : NackTracker) (seqs : List ℕ)
    → OldestFirst highest seqs
    → OldestFirst highest (visit_all t seqs).0
unfolding visit_all
visit_all-OldestFirst highest t [] o = tt
visit_all-OldestFirst highest t (seq ∷ seqs) o =
    let ih = visit_all-OldestFirst highest (visit t seq).1 seqs o.1 in
    let rest = visit_all-All (λ b. sub32 highest b ≤ sub32 highest seq) (visit t seq).1 seqs o.0 in
    ground arith

-- `collectNackTargets` keeps the invariant and the accounts, counts a request for each number that it
-- returns, and returns only gaps that are at least as old as the tolerance for reordering, the oldest
-- first.
pub collect_nack_targets_lem :
    (t : NackTracker)
    → IsValid t
    → let (out, u) = collect_nack_targets t in
      IsValid u
      × Accounts 0 0 0 t u
      × (u.stats.nacks_requested ≡ t.stats.nacks_requested + length out)
      × All (IsDue t) out
      × OldestFirst t.highest_seq out
unfolding collect_nack_targets
collect_nack_targets_lem t v =
    let seqs = sort_by_age t.highest_seq (map (λ e. e.0) t.gaps) in
    let c = visit_all_lem t seqs v.0 in
    let o =
      visit_all-OldestFirst t.highest_seq t seqs
        (sort-OldestFirst t.highest_seq (map (λ e. e.0) t.gaps)) in
    ground arith
