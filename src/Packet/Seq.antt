-- ===== src/Packet/Seq.antt =====
-- modules/transport/Packet.cpp, `seqNewerThan`: the order of sequence numbers that wrap.
use lowlat_stream.Base.{ℕ, ◌<◌, ◌^◌, ◌≡◌, ◌⊎◌, true, false, arith}
use lowlat_stream.Base.Words.{add32, sub32}
use lowlat_stream.Packet.Types.{seq_newer_than}

-- The number that comes `k` steps after another, with 0 < k < 2 ^ 31, is newer and not older, also
-- across the wrap; and of two different numbers that are not exactly 2 ^ 31 apart one is newer.
pub seq_newer_than_order :
    (a b k : ℕ)
    → a < 2 ^ 32
    → b < 2 ^ 32
    → 0 < k
    → k < 2 ^ 31
    → (seq_newer_than (add32 a k) a ≡ true)
      × (seq_newer_than a (add32 a k) ≡ false)
      × ((a ≡ b) ⊎ (sub32 a b ≡ 2 ^ 31) ⊎ (seq_newer_than a b ≡ true) ⊎ (seq_newer_than b a ≡ true))
unfolding seq_newer_than
seq_newer_than_order a b k ha hb pos small = (ground arith, ground arith, ground arith)

-- What a newer number means for the distance, for the proofs of the trackers.
pub newer_distance : (a b : ℕ) → seq_newer_than a b ≡ true → (0 < sub32 a b) × (sub32 a b < 2 ^ 31)
unfolding seq_newer_than
newer_distance a b e = ground arith
