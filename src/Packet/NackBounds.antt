-- ===== src/Packet/NackBounds.antt =====
-- What `decodeNackPacket` accepts, and how much it can ask for.
use lowlat_stream.Base.{
  ℕ, zero, suc, ◌+◌, ◌*◌, ◌≤◌, ◌<◌, ◌≡◌, some, List, length, drop, length-append, arith,
}
use lowlat_stream.Status.{ok}
use lowlat_stream.Packet.Types.{max_nack_entries}
use lowlat_stream.Packet.Codec.{read16, read32}
use lowlat_stream.Packet.Nack.{bitmap_from, read_entries, decode_nack_packet}

length-bitmap_from : (pid blp bit k : ℕ) → length (bitmap_from pid blp bit k) ≤ k
unfolding bitmap_from
length-bitmap_from pid blp bit zero = omega arith
length-bitmap_from pid blp bit (suc k) = ground (arith, length-bitmap_from pid blp (suc bit) k)

length-read_entries :
    (buf : List ℕ) (count : ℕ)
    → (count ≤ length (read_entries buf count)) × (length (read_entries buf count) ≤ 17 * count)
unfolding read_entries
length-read_entries buf zero = (omega arith, omega arith)
length-read_entries buf (suc count) =
    let pid = read32 buf 0 1 2 3 in
    let blp = read16 buf 4 5 in
    let later = read_entries (drop 6 buf) count in
    let (lo, hi) = length-read_entries (drop 6 buf) count in
    let most = length-bitmap_from pid blp 0 16 in
    let sum = length-append (bitmap_from pid blp 0 16) later in
    (omega (arith, lo, most, sum), omega (arith, hi, most, sum))

-- A NACK packet is only accepted if its length fits its number of entries exactly, of which it has at
-- least one and at most as many as a packet can hold; it then asks for at least one and at most 17
-- sequence numbers for each entry.
pub decode_nack_packet_lem :
    (buf out : List ℕ)
    → decode_nack_packet (some buf) ≡ ok out
    → let count = read16 buf 12 13 in
      (0 < count)
      × (count ≤ max_nack_entries)
      × (length buf ≡ 14 + count * 6)
      × (count ≤ length out)
      × (length out ≤ 17 * count)
unfolding decode_nack_packet
decode_nack_packet_lem buf out e =
    let count = read16 buf 12 13 in ground (arith, length-read_entries (drop 14 buf) count)
