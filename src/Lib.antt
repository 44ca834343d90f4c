-- ===== src/Lib.antt =====
-- The transport of LowLat Stream: a sender cuts encoded frames into UDP packets, and a receiver
-- puts them together again, asks for the lost ones, and plays the frames in order and on time.
--
-- The parts and how they interact. On the sender `Packetizer` turns one encoded frame into DATA
-- packets with the codecs of `Packet`; `RetransmitCache` keeps the frame, and on a NACK `find` says
-- which fragment of which frame a sequence number was, so that `packetizeOneFragment` can build the
-- packet again. `FecEncoder` adds, for each group of a frame's packets, a packet with their
-- exclusive or. The thread of `SenderPipeline` calls them, and after each frame it takes the
-- packets that have come back. `LossInjector` drops packets in test runs. On the receiver
-- `FecDecoder` keeps the last DATA packets and puts a missing one together when the FEC packet of
-- its group comes. A DATA packet goes to `FrameAssembler::offer`, which collects the fragments of
-- each frame, and its sequence number to `NackTracker::onPacket`, which keeps the list of missing
-- numbers that `collectNackTargets` asks for. A complete frame goes from `FrameAssembler::pop` into
-- `JitterBuffer::push`, where `DelayEstimator` says when it is to be played, and from
-- `JitterBuffer::pop` to the decoder's `BoundedQueue`. The receiving thread of `ReceiverPipeline`
-- calls these, sends NACK and PLI packets, and measures the round trip by the retransmissions that
-- come.
--
-- The files, beside the paths from the repository's root:
--   Base       lists, words, signed integers, bit operations and maps that all parts share
--   Status     common/Status.h: error codes; `Result` is a Status with the values that a function
--              writes through its out-parameters when it succeeds
--   BoundedQueue common/BoundedQueue.h: `push`, `tryPush`, `forcePush`, `pop`, `popFor`, `close`,
--              `clear`; BoundedQueue/Monitor the waiting threads and the notifications
--   Packet     modules/transport/Packet.h, .cpp: Packet/Types the headers, the constants and
--              `seqNewerThan`, Packet/Codec the encoders and decoders (`encodePacketHeader` is
--              `encode_packet_header`, and so on), Packet/Nack the codec of NACK packets
--   Packetizer modules/transport/Packetizer.h, .cpp: `packetize`, `packetizeOneFragment`
--   FrameAssembler modules/transport/FrameAssembler.h, .cpp: `offer`, `pop`, and their helpers
--   NackTracker modules/transport/NackTracker.h, .cpp: `onPacket` is `on_packet`, its ends are
--              `fill_gap` (an old packet), `rebase` (a packet a window ahead) and `advance`;
--              `collectNackTargets` is `collect_nack_targets`, one turn of its loop is `visit`
--   RetransmitCache modules/transport/RetransmitCache.h, .cpp: `store`, `evict_expired`, `find`
--   DelayEstimator modules/transport/DelayEstimator.h, .cpp: `observe` is `note_frame` and then
--              `observe_fixed` or `observe_adaptive`, whose steps are `take_sample`, `follow`,
--              `limit` and `publish`; `setRttMs`, `reset`
--   JitterBuffer modules/transport/JitterBuffer.h, .cpp: `push` runs through `take_in`, `gate`
--              and `place`; `pop`, `msUntilNextDue`, `dropUntilKeyFrame`
--   LossInjector modules/transport/LossInjector.h, .cpp: `shouldDropPacket`
--   Fec        modules/transport/FecEncoder.h, .cpp and FecDecoder.h, .cpp: `buildForFrame` is
--              `build_for_frame`, `onDataPacket` and `onFecPacket` are `on_data_packet` and
--              `on_fec_packet`
--   Net        modules/transport/UdpSocket.h: the calls of a socket as an interface
--   SenderPipeline app/sender/SenderPipeline.h, .cpp: one turn of the loop of sendLoop() is
--              `send_frame` (`send_media`, `protect`, `remember`) and `drain_reverse_channel`,
--              which takes each packet by `handle_reverse`; SenderPipeline/Config is
--              validateConfig()
--   ReceiverPipeline app/receiver/ReceiverPipeline.h, .cpp: recvLoop() takes a packet by
--              ReceiverPipeline/Packets and hands the frames on by `hand_over` of
--              ReceiverPipeline/Frames (`take_frames`, `release`, and `resync` when the decoder's
--              queue is full); ReceiverPipeline/Feedback is `requestKeyFrame`, `recordNackSent`,
--              `observeRetransmit` and `requestRetransmissions`; ReceiverPipeline/Loop puts them
--              together to the turns of recvLoop() and has the loop at its end, `drain_tail`;
--              ReceiverPipeline/Decode is decodeLoop()
--   Metrics    common/Metrics.h, .cpp: the class LatencyRecorder, and `summarizeLatency` of
--              app/receiver/ReceiverPipeline.cpp
-- Each directory holds the parts of its component, the proofs named for what they prove, and
-- `Tests` with instances of the theorems.
--
-- How the code is modelled. A class is a record of its members and a method a function from the
-- record to the record; a method that can fail on the way returns what it has changed until then
-- beside the status. A byte is a number, and a number that C++ keeps in w bits is bounded by 2 ^ w
-- where a hypothesis or an invariant says so; arithmetic that wraps in C++ has its `% 2 ^ w`
-- written out. Counters of statistics (uint64_t) do not wrap. A signed number is a `ℤ`, and a sum
-- that C++ cuts to the range of int32_t is cut. A buffer is the list of the bytes that may be
-- accessed, and the length that is passed with a pointer is the length of the list; a null pointer
-- is `none`. A std::map is a list of pairs: in the order of the keys in JitterBuffer and
-- ReceiverPipeline, in the order of insertion where the code iterates over an unordered map.
-- `std::sort` is an insertion sort, and what `std::nth_element` puts in its place is read from a
-- sorted list. The time that the code reads from a clock is an argument, and a socket is a
-- parameter with a state of its own.
--
-- A loop is recursion on the list or the count that it runs over; `release` of ReceiverPipeline
-- counts the frames in the jitter buffer, of which each turn takes one. The loop over the packets
-- that come back to the sender runs on fuel, since the network decides its length: with a limit of
-- packets one more test than the limit is enough, as the theorem on it says. The loops of the
-- receiver run over the list of the times that the clock shows, and the theorems on them say which
-- times are enough. A wait of BoundedQueue is the result `none`, and Monitor has the threads that
-- sleep, wake and notify as a relation on states. JitterBuffer and ReceiverPipeline take the delay
-- estimator as an interface that DelayEstimator fills.
--
-- Not modelled: the text of messages and logs, and what calls the system or libraries: the sockets
-- themselves, the camera, the codecs, the renderer and the H.264 dump. Of the pipelines the loops
-- of the other threads (capture, encode and render), their start and stop, the configuration files
-- and the command line.
pub mod Base
pub mod Status
pub mod Packet
pub mod Packetizer
pub mod FrameAssembler
pub mod NackTracker
pub mod RetransmitCache
pub mod JitterBuffer
pub mod LossInjector
pub mod Fec
pub mod BoundedQueue
pub mod DelayEstimator
pub mod Net
pub mod SenderPipeline
pub mod ReceiverPipeline
pub mod Metrics
