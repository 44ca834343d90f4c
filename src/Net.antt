-- ===== src/Net.antt =====
-- modules/transport/UdpSocket.h: what the pipelines ask of a socket. The socket itself calls the system.
use lowlat_stream.Base.{ℕ, Bool, true, false, List, [], ◌∷◌, ◌==◌, ◌&&◌, ◌≡◌, ◌⊎◌, inl, inr, refl}

pub record Endpoint : Type 0 where
  pub ip : List ℕ
  pub port : ℕ

-- Equality of two strings.
unfoldable pub same_text : List ℕ → List ℕ → Bool
same_text [] [] = true
same_text [] (b ∷ bs) = false
same_text (a ∷ as') [] = false
same_text (a ∷ as') (b ∷ bs) = let rest = same_text as' bs in a == b && rest

-- What recvFrom() comes to: Code::Timeout, another error, or a datagram and where it is from.
pub data Received : Type 0 where
  timed_out : Received
  failed : Received
  datagram : List ℕ → Endpoint → Received

-- sendTo() says whether it succeeded. recvFrom() is given the size of the buffer and the timeout.
pub record Socket : Type 1 where
  pub State : Type 0
  pub send_to : State → Endpoint → List ℕ → Bool × State
  pub recv_from : State → ℕ → ℕ → Received × State

pub Received-cases :
    (r : Received)
    → (r ≡ timed_out)
      ⊎ (r ≡ failed)
      ⊎ ((bytes : List ℕ) × (from : Endpoint) × (r ≡ datagram bytes from))
Received-cases timed_out = inl refl
Received-cases failed = inr (inl refl)
Received-cases (datagram bytes from) = inr (inr (bytes, from, refl))
