-- ===== src/SenderPipeline/Tests.antt =====
-- Runs of the sender, and instances of its theorems.
use lowlat_stream.Base.{
  ℕ, ◌<◌, ◌≡◌, ◌⊎◌, refl, true, false, some, none, List, [], ◌∷◌, All, Elem, replicate, arith,
}
use lowlat_stream.Base.Int.{pos}
use lowlat_stream.Base.Words.{add32}
use lowlat_stream.Status.{ok}
use lowlat_stream.Net.{Endpoint, Socket, Received, timed_out, datagram}
use lowlat_stream.Packetizer.{fragment_count}
use lowlat_stream.Packetizer.Fragment.{fragment}
use lowlat_stream.RetransmitCache.{RetransmitCache, Entry, view_of}
use lowlat_stream.RetransmitCache as RetransmitCache
use lowlat_stream.RetransmitCache.Lookup.{Covers, IsWhole, marked_again}
use lowlat_stream.SenderPipeline.{
  SenderPipeline, SenderPipelineStats, retransmit_one, drain_reverse_channel,
}
use lowlat_stream.RetransmitCache.{evict_expired}
use lowlat_stream.SenderPipeline.Config.{
  SenderPipelineConfig, validate_config, validate_target, validate_size,
}
use lowlat_stream.SenderPipeline.Reverse.{Ended, drain_reverse_channel_lem}
use lowlat_stream.SenderPipeline.Resend.{retransmit_one_lem}

-- A socket whose datagrams are given, and which keeps what is sent.
abbrev script : List Received → Received × List Received
script [] = (timed_out, [])
script (r ∷ rs) = (r, rs)

abbrev scripted : Socket
scripted = record {
  State = List Received × List (List ℕ);
  send_to = λ s to bytes. (true, (s.0, bytes ∷ s.1));
  recv_from = λ s size timeout. let (r, rest) = script s.0 in (r, (rest, s.1));
}

abbrev peer : Endpoint
peer = record { ip = 49 ∷ []; port = 5004 }

abbrev entry : Entry
entry = record {
  bytes = 7 ∷ 8 ∷ [];
  capture_ms = 10;
  frame_id = 3;
  base_seq = 5;
  frag_count = 1;
  is_key = true;
  stored_at_ms = 10;
}

abbrev cache : RetransmitCache
cache = record {
  config = record { retention_ms = 1000; max_frames = 64 };
  stats = RetransmitCache.no_stats;
  entries = entry ∷ [];
}

abbrev no_stats : SenderPipelineStats
no_stats = record {
  packets_sent = 0;
  send_errors = 0;
  nacks_received = 0;
  nacked_seqs = 0;
  packets_retransmitted = 0;
  retransmit_misses = 0;
  reverse_malformed = 0;
  plis_received = 0;
}

-- A PLI packet and a packet that is too short wait in the socket.
abbrev sender : SenderPipeline scripted
sender = record {
  target = peer;
  reverse_packets_per_iteration = pos 16;
  packetizer = record { stream_id = 0; next_seq = 6 };
  packets = [];
  cache = some cache;
  fec = none;
  fec_packets = [];
  retransmit_buf = [];
  socket = (datagram (1 ∷ 4 ∷ replicate 10 0) peer ∷ datagram (1 ∷ []) peer ∷ [], []);
  stats = no_stats;
  key_frames_requested = 0;
}

drain_reverse_channel_lem_example :
    Ended scripted
      (record sender { cache = some (evict_expired cache 20) })
      (drain_reverse_channel scripted 17 sender 20)
      16
drain_reverse_channel_lem_example =
    drain_reverse_channel_lem scripted sender cache 20 refl (omega arith)

entry-IsWhole : IsWhole entry
unfolding fragment_count
entry-IsWhole = record {
  count = refl;
  nonempty = omega arith;
  count_fits = omega arith;
  base_fits = omega arith;
}

retransmit_one_lem_example :
    let q = retransmit_one scripted sender peer 5 in
    ((q.socket ≡ sender.socket)
      × (q.stats.retransmit_misses ≡ 1)
      × All (λ e. ¬ Covers 5 e) (entry ∷ []))
    ⊎ ((e : Entry) × (i : ℕ) × Elem e (entry ∷ [])
        × (5 ≡ add32 e.base_seq i)
        × (i < e.frag_count)
        × (q.socket ≡ (
          sender.socket.0,
          marked_again (fragment 0 5 (view_of e) e.bytes i e.frag_count false) ∷ [],
        )))
retransmit_one_lem_example =
    retransmit_one_lem scripted sender cache peer 5 refl (omega arith) (entry-IsWhole, tt)

abbrev config : SenderPipelineConfig
config = record {
  source = record { width = pos 640; height = pos 480; fps = pos 30 };
  encoder = record {
    width = pos 640;
    height = pos 480;
    fps = pos 30;
    bitrate_kbps = pos 2000;
    gop = pos 30;
  };
  queue_capacity = pos 4;
  max_frames = pos 0;
  target = peer;
  send_queue_capacity = pos 4;
  retention_ms = pos 0;
  reverse_packets_per_iteration = pos 16;
  send_poll_ms = pos 1;
}

-- The configuration is accepted.
config_run : validate_config true config ≡ ok tt
unfolding validate_config validate_target validate_size
config_run = refl
