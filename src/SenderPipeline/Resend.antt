-- ===== src/SenderPipeline/Resend.antt =====
-- SenderPipeline.cpp, drainReverseChannel(): what a requested number makes the sender send.
use lowlat_stream.Base.{
  ℕ, suc, ◌<◌, ◌^◌, ◌≡◌, ◌⊎◌, refl, true, false, inl, inr, some, All, Elem, arith,
}
use lowlat_stream.Base.Words.{add32}
use lowlat_stream.Status.{ok}
use lowlat_stream.Net.{Endpoint, Socket}
use lowlat_stream.Packetizer.{PacketBuffer, packetize_one_fragment}
use lowlat_stream.Packetizer.Fragment.{fragment}
use lowlat_stream.RetransmitCache.{RetransmitCache, Entry, Found, find, view_of}
use lowlat_stream.RetransmitCache.Lookup.{Covers, IsWhole, marked_again, find_lem}
use lowlat_stream.SenderPipeline.{SenderPipeline, send_again, retransmit_one}

module _ (S : Socket) where
  send_again-socket :
      (p : SenderPipeline S) (from : Endpoint) (seq : ℕ) (f : Found) (packet : PacketBuffer)
      → packetize_one_fragment p.packetizer.stream_id seq f.view f.frag_index f.frag_count true
          p.retransmit_buf
        ≡ ok packet
      → (send_again S p from seq f).socket ≡ (S.send_to p.socket from packet).1
  unfolding send_again
  send_again-socket p from seq f packet e = ground arith

  -- A requested number that no frame in the cache has had is counted as a miss, and nothing is sent. For
  -- any other the sender sends to where the request came from the packet that first went out under
  -- this number, byte for byte but for the retransmission flag.
  pub retransmit_one_lem :
      (p : SenderPipeline S) (c : RetransmitCache) (from : Endpoint) (seq : ℕ)
      → p.cache ≡ some c
      → seq < 2 ^ 32
      → All IsWhole c.entries
      → let q = retransmit_one S p from seq in
        ((q.socket ≡ p.socket)
          × (q.stats.retransmit_misses ≡ suc p.stats.retransmit_misses)
          × All (λ e. ¬ Covers seq e) c.entries)
        ⊎ ((e : Entry) × (i : ℕ) × Elem e c.entries
            × (seq ≡ add32 e.base_seq i)
            × (i < e.frag_count)
            × (q.socket
                ≡ (S.send_to p.socket from (
                    marked_again (
                      fragment p.packetizer.stream_id seq
                        (view_of e)
                        e.bytes
                        i
                        e.frag_count
                        false))).1))
  unfolding retransmit_one
  retransmit_one_lem p c from seq h s w =
      let (_, found) = find_lem c seq p.packetizer.stream_id p.retransmit_buf s w in
      elim found [
        | inl (miss, _, uncovered) ↦ inl (rw (h, miss, retransmit_one) (refl, refl, uncovered))
        | inr (f, e, i, held, hit, _, at, lt, made) ↦ inr (
          e,
          i,
          held,
          at,
          lt,
          rw (h, hit, retransmit_one)
              (send_again-socket (record p { cache = some (find c seq).1 }) from seq f _ made),
        )
      ]
