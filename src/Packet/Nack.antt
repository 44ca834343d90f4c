-- ===== src/Packet/Nack.antt =====
-- modules/transport/Packet.cpp: `encodeNackPacket` and `decodeNackPacket`. An entry of a NACK packet
-- is a sequence number with a bitmap of the 16 after it.
use lowlat_stream.Base.{
  ℕ, zero, suc, ◌+◌, ◌-◌, ◌*◌, ◌%◌, ◌^◌, bit_and, bit_or, not, ltb, ◌==◌, ◌||◌, if◌then◌else◌, none,
  some, List, [], ◌∷◌, ◌++◌, length, write, drop,
}
use lowlat_stream.Base.Words.{sub32, be16, be32}
use lowlat_stream.Status.{
  Code, Result, ok, err, invalid_arg, net_error, internal, ◌>>=◌, ◌>>◌, require,
}
use lowlat_stream.Packet.Types.{
  PacketHeader, type_nack, packet_header_size, nack_header_size, nack_entry_size, max_nack_entries,
}
use lowlat_stream.Packet.Codec.{Buffer, encode_packet_header, decode_packet_header, read16, read32}

abbrev pub NackEntry : Type 0
NackEntry = ℕ × ℕ

-- The two nested loops in one pass: the entry `pid`, `blp` is open, and takes up every number that is at
-- most 16 after `pid`.
unfoldable pub pack_from : ℕ → ℕ → List ℕ → List NackEntry
pack_from pid blp [] = (pid, blp) ∷ []
pack_from pid blp (seq ∷ seqs) =
    let distance = sub32 seq pid in
    let far = ltb 16 distance in
    let blp' = if distance == 0 then blp else bit_or blp (2 ^ (distance - 1) % 2 ^ 16) in
    let rest = pack_from (if far then seq else pid) (if far then 0 else blp') seqs in
    if far then (pid, blp) ∷ rest else rest

unfoldable pub pack : List ℕ → List NackEntry
pack [] = []
pack (seq ∷ seqs) = pack_from seq 0 seqs

unfoldable pub write_entries : List ℕ → ℕ → List NackEntry → List ℕ
write_entries buf offset [] = buf
write_entries buf offset ((pid, blp) ∷ entries) =
    write_entries (write (write buf offset (be32 pid)) (offset + 4) (be16 blp))
      (offset + nack_entry_size) entries

-- The buffer as it is left, and `outLen`.
unfoldable pub encode_nack_packet : PacketHeader → List ℕ → Buffer → Result (List ℕ × ℕ)
encode_nack_packet h missing none = err invalid_arg
encode_nack_packet h missing (some buf) = do
  require (not (length missing == 0)) invalid_arg
  require (h.packet_type == type_nack) invalid_arg
  let entries = pack missing
  require (not (ltb max_nack_entries (length entries))) internal
  let encoded_len = packet_header_size + nack_header_size + length entries * nack_entry_size
  require (not (ltb (length buf) encoded_len)) invalid_arg
  headed ← encode_packet_header h (some buf)
  let counted = write headed packet_header_size (be16 (length entries % 2 ^ 16))
  ok (write_entries counted (packet_header_size + nack_header_size) entries, encoded_len)

-- The numbers of the bitmap, from `bit` on, with `k` bits to go.
unfoldable pub bitmap_from : ℕ → ℕ → ℕ → ℕ → List ℕ
bitmap_from pid blp bit zero = []
bitmap_from pid blp bit (suc k) =
    let rest = bitmap_from pid blp (suc bit) k in
    if bit_and blp (2 ^ bit) == 0 then rest else (pid + 1 + bit) % 2 ^ 32 ∷ rest

-- The entries from the start of `buf` on, `count` to go.
unfoldable pub read_entries : List ℕ → ℕ → List ℕ
read_entries buf zero = []
read_entries buf (suc count) =
    let pid = read32 buf 0 1 2 3 in
    let blp = read16 buf 4 5 in
    pid ∷ bitmap_from pid blp 0 16 ++ read_entries (drop nack_entry_size buf) count

-- A header that does not fit the buffer is the peer's error here.
abbrev pub as_net_error : Code → Code
as_net_error invalid_arg = net_error
as_net_error c = c

unfoldable pub decode_nack_packet : Buffer → Result (List ℕ)
decode_nack_packet none = err invalid_arg
decode_nack_packet (some buf) = elim (decode_packet_header (some buf)) [
  | err c ↦ err (as_net_error c)
  | ok h ↦ do
    require (h.packet_type == type_nack) net_error
    require (not (ltb (length buf) (packet_header_size + nack_header_size))) net_error
    let entry_count = read16 buf 12 13
    require (not (entry_count == 0 || ltb max_nack_entries entry_count)) net_error
    require (length buf == packet_header_size + nack_header_size + entry_count * nack_entry_size)
        net_error
    ok (read_entries (drop 14 buf) entry_count)
]
