-- ===== src/Fec.antt =====
-- modules/transport/FecEncoder.h, FecEncoder.cpp, FecDecoder.h and FecDecoder.cpp: an exclusive or
-- over a group of DATA packets, and the packet that is put together again from it. Counters do not
-- wrap.
pub mod Fold
pub mod Encoder
pub mod Decoder
pub mod Xor
pub mod Member
pub mod Group
pub mod Layout
pub mod Recovery
pub mod Advance
pub mod Parity
pub mod Frame
pub mod Account
mod Tests
use lowlat_stream.Base.{ℕ, ◌+◌, bit_xor, List, [], ◌∷◌, length, ◌-◌}
use lowlat_stream.Packet.Types.{packet_header_size, data_header_size, fec_header_size}

abbrev pub data_header_bytes : ℕ
data_header_bytes = packet_header_size + data_header_size

abbrev pub fec_payload_offset : ℕ
fec_payload_offset = packet_header_size + fec_header_size

-- `buf[byte] ^= payload[byte]` for every byte of the payload, which is no longer than the buffer.
unfoldable pub xor_into : List ℕ → List ℕ → List ℕ
xor_into buf [] = buf
xor_into [] (v ∷ vs) = []
xor_into (x ∷ buf) (v ∷ vs) = bit_xor x v ∷ xor_into buf vs
