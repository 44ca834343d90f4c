-- ===== src/FrameAssembler.antt =====
-- modules/transport/FrameAssembler.h and FrameAssembler.cpp: DATA packets in, complete frames out.
-- `offer` returns the assembler as it leaves it beside the status. Counters do not wrap.
pub mod Rule
pub mod Fragments
pub mod Valid
pub mod Bounded
pub mod Agree
pub mod Integrity
pub mod Complete
pub mod Delivery
mod Tests
use lowlat_stream.Base.{
  ℕ, zero, suc, ◌+◌, ◌-◌, ◌%◌, ◌^◌, bit_and, Bool, true, false, not, ltb, leb, ◌==◌, ◌&&◌,
  if◌then◌else◌, Option, none, some, List, [], ◌∷◌, ◌++◌, length, drop, set, get_or, replicate,
  flatten,
}
use lowlat_stream.Base.Words.{sub32}
use lowlat_stream.Base.Maps.{lookup, update, remove}
use lowlat_stream.Status.{Result, ok, err, invalid_arg, net_error}
use lowlat_stream.Packet.Types.{
  PacketHeader, DataHeader, type_data, flag_keyframe, packet_header_size, data_header_size,
  max_data_packet_size, seq_newer_than,
}
use lowlat_stream.Packet.Codec.{Buffer, decode_packet_header, decode_data_header}

pub record AssembledFrame : Type 0 where
  pub bytes : List ℕ
  pub frame_id : ℕ
  pub timestamp_ms : ℕ
  pub is_key : Bool

pub record AssemblerStats : Type 0 where
  pub packets_received : ℕ
  pub packets_malformed : ℕ
  pub packets_duplicate : ℕ
  pub packets_too_late : ℕ
  pub frames_completed : ℕ
  pub frames_dropped : ℕ
  pub base_seq : ℕ
  pub highest_seq : ℕ
  pub started : Bool

abbrev pub no_stats : AssemblerStats
no_stats = record {
  packets_received = 0;
  packets_malformed = 0;
  packets_duplicate = 0;
  packets_too_late = 0;
  frames_completed = 0;
  frames_dropped = 0;
  base_seq = 0;
  highest_seq = 0;
  started = false;
}

pub expected_packets : AssemblerStats → ℕ
expected_packets s = if s.started then sub32 s.highest_seq s.base_seq + 1 else 0

-- `expected - packetsReceived`, and 0 where that would wrap: `-` stops at 0.
pub packets_lost : AssemblerStats → ℕ
unfolding expected_packets
packets_lost s =
    let expected = expected_packets s in
    if ltb s.packets_received expected then expected - s.packets_received else 0

-- An empty fragment is one that has not come yet.
pub record PendingFrame : Type 0 where
  pub fragments : List (List ℕ)
  pub frag_count : ℕ
  pub received_fragments : ℕ
  pub total_bytes : ℕ
  pub timestamp_ms : ℕ
  pub is_key : Bool
  pub completed : Bool

-- `pending` lists the map's entries in the order of iteration, which the theorems leave open.
-- `ready` holds the oldest frame first.
pub record FrameAssembler : Type 0 where
  pub pending : List (ℕ × PendingFrame)
  pub ready : List AssembledFrame
  pub retired_frame_id : ℕ
  pub has_retired : Bool
  pub max_pending_frames : ℕ
  pub stats : AssemblerStats

unfoldable pub init : ℕ → FrameAssembler
init max_pending_frames = record {
  pending = [];
  ready = [];
  retired_frame_id = 0;
  has_retired = false;
  max_pending_frames = if max_pending_frames == 0 then 1 else max_pending_frames;
  stats = no_stats;
}

abbrev pub Outcome : Type 0
Outcome = FrameAssembler × Result (Unit {0})

-- The early returns, each with its counter.
abbrev pub malformed : FrameAssembler → Outcome
malformed a =
    let s = a.stats in
    (record a { stats = record s { packets_malformed = s.packets_malformed + 1 } }, err net_error)

abbrev pub duplicate : FrameAssembler → Outcome
duplicate a =
    let s = a.stats in
    (record a { stats = record s { packets_duplicate = s.packets_duplicate + 1 } }, ok tt)

abbrev pub too_late : FrameAssembler → Outcome
too_late a =
    let s = a.stats in
    (record a { stats = record s { packets_too_late = s.packets_too_late + 1 } }, ok tt)

unfoldable pub track_seq : FrameAssembler → ℕ → FrameAssembler
track_seq a seq =
    let s = a.stats in
    if not s.started
    then record a { stats = record s { base_seq = seq; highest_seq = seq; started = true } }
    else if seq_newer_than seq s.highest_seq
    then record a { stats = record s { highest_seq = seq } }
    else a

-- The scan of `oldestPendingFrameId` over the entries, with the oldest identifier so far.
pub oldest_from : ℕ → List (ℕ × PendingFrame) → ℕ
oldest_from oldest [] = oldest
oldest_from oldest ((id, _) ∷ m) = oldest_from (if seq_newer_than oldest id then id else oldest) m

-- It is called on a map that is not empty; the C++ code has no value for the empty one.
unfoldable pub oldest_pending_frame_id : List (ℕ × PendingFrame) → ℕ
unfolding oldest_from
oldest_pending_frame_id [] = 0
oldest_pending_frame_id ((id, f) ∷ m) = oldest_from id ((id, f) ∷ m)

unfoldable pub evict_oldest : FrameAssembler → FrameAssembler
evict_oldest a =
    let oldest = oldest_pending_frame_id a.pending in
    let s = a.stats in
    elim (lookup oldest a.pending) [
      | none ↦ a
      | some f ↦ record a {
        stats = if f.completed then s else record s { frames_dropped = s.frames_dropped + 1 };
        retired_frame_id = oldest;
        has_retired = true;
        pending = remove oldest a.pending;
      }
    ]

-- The entry after one more fragment.
unfoldable pub add_fragment : PendingFrame → PacketHeader → DataHeader → List ℕ → PendingFrame
add_fragment f h d payload =
    let first = f.received_fragments == 0 in
    record f {
      fragments = set f.fragments d.frag_index payload;
      timestamp_ms = if first then h.timestamp_ms else f.timestamp_ms;
      is_key = if first then not (bit_and d.flags flag_keyframe == 0) else f.is_key;
      received_fragments = (f.received_fragments + 1) % 2 ^ 16;
      total_bytes = f.total_bytes + length payload;
    }

abbrev pub deliver : ℕ → PendingFrame → FrameAssembler → FrameAssembler
deliver id f a =
    let s = a.stats in
    record a {
      ready =
          a.ready
          ++ record {
            bytes = flatten f.fragments;
            frame_id = id;
            timestamp_ms = f.timestamp_ms;
            is_key = f.is_key;
          }
            ∷ [];
      stats = record s { frames_completed = s.frames_completed + 1 };
      pending = update id (record f { completed = true; fragments = [] }) a.pending;
    }

-- From `fragment.empty()` on, with the entry `f` of the packet's frame.
unfoldable pub store : FrameAssembler → PendingFrame → PacketHeader → DataHeader → List ℕ → Outcome
store a f h d payload = elim (get_or f.fragments d.frag_index []) [
  | _ ∷ _ ↦ duplicate a
  | [] ↦
      let g = add_fragment f h d payload in
      if not (g.received_fragments == g.frag_count)
      then (record a { pending = update d.frame_id g a.pending }, ok tt)
      else (deliver d.frame_id g a, ok tt)
]

abbrev pub fresh_entry : ℕ → PendingFrame
fresh_entry frag_count = record {
  fragments = replicate frag_count [];
  frag_count = frag_count;
  received_fragments = 0;
  total_bytes = 0;
  timestamp_ms = 0;
  is_key = false;
  completed = false;
}

-- A new entry is made, then the fragment goes into it.
unfoldable pub open_entry : FrameAssembler → PacketHeader → DataHeader → List ℕ → Outcome
open_entry a h d payload =
    let f = fresh_entry d.frag_count in
    store (record a { pending = (d.frame_id, f) ∷ a.pending }) f h d payload

-- The packet's frame has no entry.
unfoldable pub admit : FrameAssembler → PacketHeader → DataHeader → List ℕ → Outcome
admit a h d payload =
    if leb a.max_pending_frames (length a.pending)
    then (if not (seq_newer_than d.frame_id (oldest_pending_frame_id a.pending))
        then too_late a
        else open_entry (evict_oldest a) h d payload)
    else open_entry a h d payload

-- From the retired-frame test on, with both headers decoded.
unfoldable pub accept : FrameAssembler → PacketHeader → DataHeader → List ℕ → Outcome
accept a h d payload =
    if a.has_retired && not (seq_newer_than d.frame_id a.retired_frame_id)
    then too_late a
    else elim (lookup d.frame_id a.pending) [
      | none ↦ admit a h d payload
      | some f ↦
          if f.completed
          then duplicate a
          else if not (f.frag_count == d.frag_count)
          then malformed a
          else store a f h d payload
    ]

abbrev pub receive : FrameAssembler → ℕ → FrameAssembler
receive a seq =
    let s = a.stats in
    track_seq (record a { stats = record s { packets_received = s.packets_received + 1 } }) seq

unfoldable pub offer : FrameAssembler → Buffer → Outcome
offer a none = (a, err invalid_arg)
offer a (some packet) =
    if leb (length packet) (packet_header_size + data_header_size)
    then malformed a
    else if ltb max_data_packet_size (length packet)
    then malformed a
    else elim (decode_packet_header (some packet)) [
      | err _ ↦ malformed a
      | ok h ↦
          if not (h.packet_type == type_data)
          then (a, err invalid_arg)
          else elim (decode_data_header (some (drop packet_header_size packet))) [
            | err _ ↦ malformed a
            | ok d ↦
                accept (receive a h.seq) h d (drop (packet_header_size + data_header_size) packet)
          ]
    ]

-- The datagrams that a receiver hands over one after the other.
unfoldable pub offer_all : FrameAssembler → List (List ℕ) → FrameAssembler
offer_all a [] = a
offer_all a (packet ∷ packets) = offer_all (offer a (some packet)).0 packets

unfoldable pub pop : FrameAssembler → Option (AssembledFrame × FrameAssembler)
pop a = elim a.ready [ [] ↦ none | f ∷ rest ↦ some (f, record a { ready = rest }) ]

unfoldable pub reset : FrameAssembler → FrameAssembler
reset a = record a {
  pending = [];
  ready = [];
  retired_frame_id = 0;
  has_retired = false;
  stats = no_stats;
}
