-- ===== src/Base/Words.antt =====
-- Fixed-width words in network order. `htons` and `htonl` with the `memcpy` after them write these
-- bytes on any host.
use Prim.Native.Nat.{ℕ, ◌+◌, ◌-◌, ◌*◌, ◌/◌, ◌%◌, ◌^◌, ◌<◌}
use mathlib.Core.Path.{◌≡◌}
use mathlib.Core.List.{List, [], ◌∷◌}
use native.Mathlib.Omega.{arith}

-- `uint16_t` and `uint32_t` arithmetic wraps.
abbrev pub add32 : ℕ → ℕ → ℕ
add32 a b = (a + b) % 2 ^ 32

abbrev pub sub32 : ℕ → ℕ → ℕ
sub32 a b = (a + 2 ^ 32 - b) % 2 ^ 32

abbrev pub be16 : ℕ → List ℕ
be16 w = (w / 2 ^ 8 % 2 ^ 8) ∷ (w % 2 ^ 8) ∷ []

abbrev pub be32 : ℕ → List ℕ
be32 w = (w / 2 ^ 24 % 2 ^ 8) ∷ (w / 2 ^ 16 % 2 ^ 8) ∷ (w / 2 ^ 8 % 2 ^ 8) ∷ (w % 2 ^ 8) ∷ []

abbrev pub of_be16 : ℕ → ℕ → ℕ
of_be16 a b = a * 2 ^ 8 + b

abbrev pub of_be32 : ℕ → ℕ → ℕ → ℕ → ℕ
of_be32 a b c d = a * 2 ^ 24 + b * 2 ^ 16 + c * 2 ^ 8 + d

pub of_be16-be16 : (w : ℕ) → w < 2 ^ 16 → of_be16 (w / 2 ^ 8 % 2 ^ 8) (w % 2 ^ 8) ≡ w
of_be16-be16 w h = omega arith

pub of_be32-be32 :
    (w : ℕ)
    → w < 2 ^ 32
    → of_be32 (w / 2 ^ 24 % 2 ^ 8) (w / 2 ^ 16 % 2 ^ 8) (w / 2 ^ 8 % 2 ^ 8) (w % 2 ^ 8) ≡ w
of_be32-be32 w h = omega arith
