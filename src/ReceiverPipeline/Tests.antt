-- ===== src/ReceiverPipeline/Tests.antt =====
-- Runs of the receiver, and instances of its theorems.
use lowlat_stream.Base.{
  ℕ, ◌+◌, ◌*◌, ◌≤◌, ◌≡◌, ◌⊎◌, refl, inl, inr, true, some, List, [], ◌∷◌, ◌++◌, replicate, arith,
}
use lowlat_stream.Base.Int.{pos}
use lowlat_stream.Status.{ok}
use lowlat_stream.Net.{Socket, timed_out}
use lowlat_stream.Packet.Types.{DataHeader, PacketHeader, type_nack}
use lowlat_stream.Packet.Nack.{encode_nack_packet}
use lowlat_stream.FrameAssembler as FrameAssembler
use lowlat_stream.FrameAssembler.{AssembledFrame}
use lowlat_stream.NackTracker as NackTracker
use lowlat_stream.JitterBuffer.{Estimator}
use lowlat_stream.JitterBuffer as JitterBuffer
use lowlat_stream.BoundedQueue as BoundedQueue
use lowlat_stream.ReceiverPipeline.{ReceiverPipeline, ReceiverPipelineStats}
use lowlat_stream.ReceiverPipeline.Feedback.{fit_targets, feedback_header}
use lowlat_stream.ReceiverPipeline.Frames.{release}
use lowlat_stream.ReceiverPipeline.Rate.{ask_all, ask_all-rate}
use lowlat_stream.ReceiverPipeline.Requests.{nack_request_encodes}
use lowlat_stream.ReceiverPipeline.Handover.{Delivers, Restarts, release_lem}
use lowlat_stream.ReceiverPipeline.Loop.{recv_loop, drain_tail}
use lowlat_stream.ReceiverPipeline.Silence.{Ended, silence_ends_run}
use lowlat_stream.ReceiverPipeline.Tail.{Drained, drain_tail_lem}
use lowlat_stream.ReceiverPipeline.Decode.{
  Decoder, DecodeThread, complete, push_all, finish, decode_loop,
}
use lowlat_stream.ReceiverPipeline.Pictures.{Plays, decode_loop_lem}

-- A socket that keeps what is sent, and an estimator that adds a fixed delay.
abbrev sink : Socket
sink = record {
  State = List (List ℕ);
  send_to = λ s to bytes. (true, bytes ∷ s);
  recv_from = λ s size timeout. (timed_out, s);
}

abbrev fixed : Estimator
fixed = record {
  State = ℕ;
  observe = λ d timestamp_ms now_ms. (now_ms + d, d);
  set_rtt_ms = λ d rtt_ms. d;
  reset = λ d. d;
}

abbrev picture : AssembledFrame
picture = record { bytes = 1 ∷ []; frame_id = 7; timestamp_ms = 5; is_key = true }

abbrev buffer : JitterBuffer.JitterBuffer fixed
buffer = record {
  config = record { max_frames = 4; hard_limit_frames = 8; start_on_key_frame = true };
  pending = (7, record { frame = picture; play_at_ms = 30 }) ∷ [];
  ref_frame_id = 7;
  ref_extended = 7;
  has_ref = true;
  estimator = 20;
  last_out_extended = 6;
  has_output = true;
  started = true;
  stats = JitterBuffer.no_stats;
}

abbrev no_stats : ReceiverPipelineStats
no_stats = record {
  frames_written = 0;
  bytes_written = 0;
  key_frames = 0;
  recv_errors = 0;
  decode_queue_rejected = 0;
  decode_resyncs = 0;
  injected_drops = 0;
  nack_packets_sent = 0;
  nack_send_errors = 0;
  pli_sent = 1;
  pli_suppressed = 0;
  rtt_samples = 0;
  rtt_pending = 0;
}

-- A request for a key frame went out at 100, and one for packet 5 at 110.
abbrev receiver : ReceiverPipeline sink fixed
receiver = record {
  config = record {
    loss = record { seed = 0; loss_percent = 0 };
    nack_window_packets = 1024;
    pli_min_interval_ms = pos 300;
    max_frames = pos 0;
    idle_timeout_ms = pos 0;
    recv_timeout_ms = pos 200;
  };
  socket = [];
  assembler = FrameAssembler.init 4;
  jitter = buffer;
  queue_a = BoundedQueue.init 4;
  peer = record { ip = 49 ∷ []; port = 5004 };
  nack_tracker = NackTracker.init (record {
    min_reorder_packets = 3;
    max_reorder_packets = 64;
    max_requests_per_seq = 3;
    window_packets = 1024;
  });
  fec_decoder = record {
    limit = 0;
    stats = record {
      fec_packets_received = 0;
      fec_packets_malformed = 0;
      groups_complete = 0;
      groups_recovered = 0;
      groups_unrecoverable = 0;
      packets_recovered = 0;
      recent_packets = 0;
    };
    recent = [];
  };
  nack_buf = replicate {A = ℕ} 1221 0;
  nack_seq = 1;
  last_pli_ms = 100;
  seen_key_frames_given_up = 0;
  nack_sent_at_ms = (5, 110) ∷ [];
  recent_rtts = pos 12 ∷ [];
  rtt_ms = pos 12;
  stats = no_stats;
}

release_lem_example :
    Delivers sink fixed receiver 30 (release sink fixed 1 receiver 30)
    ⊎ Restarts sink fixed receiver 30 (release sink fixed 1 receiver 30)
release_lem_example = release_lem sink fixed 1 receiver 30 refl (omega arith)

ask_all-rate_example :
    let q = ask_all sink fixed receiver (150 ∷ 450 ∷ 900 ∷ []) in
    (k : ℕ) × (q.stats.pli_sent ≡ 1 + k) × (100 + 300 * k ≤ q.last_pli_ms)
ask_all-rate_example = ask_all-rate sink fixed receiver (150 ∷ 450 ∷ 900 ∷ []) (omega arith)

nack_request_encodes_example :
    let asked = fit_targets (3 ∷ 4 ∷ 90 ∷ []) in
    ((out : List ℕ) × (len : ℕ) × (encode_nack_packet
          (feedback_header type_nack 1 50)
          asked
          (some (replicate 1221 0))
        ≡ ok (out, len))
      × (len ≤ 1221))
    × ((rest : List ℕ) × (3 ∷ 4 ∷ 90 ∷ [] ≡ asked ++ rest))
nack_request_encodes_example =
    nack_request_encodes 3 (4 ∷ 90 ∷ []) (replicate 1221 0) 1 50 (omega arith)

-- Packet 5, sent again.
abbrev again : List ℕ
again = 1 ∷ 1 ∷ 0 ∷ 0 ∷ 0 ∷ 0 ∷ 0 ∷ 5 ∷ 0 ∷ 0 ∷ 0 ∷ 9 ∷ 0 ∷ 0 ∷ 0 ∷ 2 ∷ 0 ∷ 0 ∷ 0 ∷ 1 ∷ 2 ∷ 77 ∷ []

abbrev again_header : PacketHeader
again_header = record { version = 1; packet_type = 1; stream_id = 0; seq = 5; timestamp_ms = 9 }

abbrev again_data : DataHeader
again_data = record { frame_id = 2; frag_index = 0; frag_count = 1; flags = 2 }

-- A run that ends 500 ms after the last packet: at 40, 260 and 510, with the last packet at 0.
abbrev patient : ReceiverPipeline sink fixed
patient =
    let c = receiver.config in record receiver { config = record c { idle_timeout_ms = pos 500 } }

silence_ends_run_example :
    Ended sink fixed (recv_loop sink fixed patient 0 ((0, 40) ∷ (50, 260) ∷ (270, 510) ∷ []))
silence_ends_run_example =
    silence_ends_run sink fixed patient 0 ((0, 40) ∷ (50, 260) ∷ (270, 510) ∷ [])
      (λ s size timeout. refl) (omega arith) (inr (inr (inl (omega arith, omega arith))))

drain_tail_lem_example : Drained sink fixed receiver (drain_tail sink fixed receiver (20 ∷ 31 ∷ []))
drain_tail_lem_example =
    drain_tail_lem sink fixed 30 receiver (20 ∷ 31 ∷ []) refl (omega arith, tt) (omega arith)

-- A decoder that makes two pictures of a frame, and has one left at the end; the queue takes two.
abbrev doubling : Decoder
doubling = record {
  State = ℕ;
  Raw = ℕ;
  decode = λ n frame. (complete, n ∷ (n + 1) ∷ [], n + 2);
  flush = λ n. (true, n ∷ [], n);
}

abbrev decoding : DecodeThread doubling
decoding = record { decoder = 5; queue_b = BoundedQueue.init 2; is_ok = true }

decode_loop_lem_example :
    Plays doubling decoding (picture ∷ []) (decode_loop doubling decoding (picture ∷ []))
decode_loop_lem_example = decode_loop_lem doubling decoding (picture ∷ []) refl

-- Of 5, 6 and 7 the queue keeps the last two.
decode_run : (decode_loop doubling decoding (picture ∷ [])).queue_b.items ≡ 6 ∷ 7 ∷ []
unfolding decode_loop finish push_all BoundedQueue.force_push BoundedQueue.enqueue_locked
    BoundedQueue.drop_front BoundedQueue.close
decode_run = refl
