-- ===== src/JitterBuffer/Pending.antt =====
-- The map of pending frames of the jitter buffer.
use lowlat_stream.Base.{
  ℕ, zero, suc, ◌+◌, ◌≤◌, ◌^◌, ◌%◌, ◌≡◌, refl, [], ◌∷◌, none, length, All, arith,
}
use lowlat_stream.Base.Maps.{lookup}
use lowlat_stream.FrameAssembler.{AssembledFrame}
use lowlat_stream.JitterBuffer.{Entry, Pending, emplace, drop_over, force_early}

-- The numbers ascend from `lo`.
abbrev pub Ascending : ℕ → Pending → Type 0
Ascending lo [] = Unit {0}
Ascending lo ((k, e) ∷ m) = (lo ≤ k) × Ascending (suc k) m

-- The extended number stands for the frame's own, and the frame satisfies `P`.
abbrev pub Named : (AssembledFrame → Type 0) → ℕ × Entry → Type 0
Named P (k, e) = (e.frame.frame_id ≡ k % 2 ^ 32) × P e.frame

pub Ascending-down : (lo hi : ℕ) (m : Pending) → lo ≤ hi → Ascending hi m → Ascending lo m
Ascending-down lo hi [] h a = tt
Ascending-down lo hi ((k, e) ∷ m) h (a, rest) = (omega arith, rest)

pub emplace-Ascending :
    (lo k : ℕ) (e : Entry) (m : Pending)
    → lo ≤ k
    → lookup k m ≡ none
    → Ascending lo m
    → Ascending lo (emplace k e m)
unfolding emplace lookup
emplace-Ascending lo k e [] h n a = (h, tt)
emplace-Ascending lo k e ((j, f) ∷ m) h n a = ground (arith, emplace-Ascending (suc j) k e m)

pub length-emplace : (k : ℕ) (e : Entry) (m : Pending) → length (emplace k e m) ≡ suc (length m)
unfolding emplace
length-emplace k e [] = refl
length-emplace k e ((j, f) ∷ m) = ground (arith, length-emplace k e m)

pub All-emplace :
    (P : ℕ × Entry → Type 0) (k : ℕ) (e : Entry) (m : Pending)
    → P (k, e)
    → All P m
    → All P (emplace k e m)
unfolding emplace
All-emplace P k e [] p ps = (p, tt)
All-emplace P k e ((j, f) ∷ m) p (q, ps) = ground (arith, All-emplace P k e m p ps)

-- What the two loops on the capacity leave of a map.
pub record Keeps (P : AssembledFrame → Type 0) (lo : ℕ) (m m' : Pending) (dropped : ℕ)
    : Type 0 where
  pub ordered : Ascending lo m'
  pub named : All (Named P) m'
  pub counted : length m' + dropped ≡ length m

pub drop_over-Keeps :
    (P : AssembledFrame → Type 0) (limit lo : ℕ) (m : Pending)
    → Ascending lo m
    → All (Named P) m
    → let (kept, dropped) = drop_over limit m in Keeps P lo m kept dropped × (length kept ≤ limit)
unfolding drop_over
drop_over-Keeps P limit lo [] a n =
    (record { ordered = tt; named = tt; counted = refl }, omega arith)
drop_over-Keeps P limit lo ((k, e) ∷ m) (a, rest) (n, ns) =
    let (ih, room) = drop_over-Keeps P limit (suc k) m rest ns in
    let down = Ascending-down lo (suc k) (drop_over limit m).0 (omega arith) ih.ordered in
    ground (arith, ih.named, ih.counted)

pub force_early-Keeps :
    (P : AssembledFrame → Type 0) (n lo : ℕ) (m : Pending)
    → Ascending lo m
    → All (Named P) m
    → Keeps P lo m (force_early n m).0 0
unfolding force_early
force_early-Keeps P zero lo m a n = record { ordered = a; named = n; counted = omega arith }
force_early-Keeps P (suc i) lo [] a n = record { ordered = tt; named = tt; counted = refl }
force_early-Keeps P (suc i) lo ((k, e) ∷ m) (a, rest) (n, ns) =
    let ih = force_early-Keeps P i (suc k) m rest ns in
    record { ordered = (a, ih.ordered); named = (n, ih.named); counted = omega (arith, ih.counted) }
