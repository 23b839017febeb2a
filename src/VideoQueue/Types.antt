-- ===== src/VideoQueue/Types.antt =====
-- The packets, entries, lists and the queue of RtpVideoQueue.h and Video.h, and what the queue
-- tells the rest of the program (`Event`). A packet is seen through its structs: the fields of
-- `RTP_PACKET` that the queue uses, those of `NV_VIDEO_PACKET`, and the bytes behind them. A list
-- of entries is their sequence with the count that the code keeps beside it.
use tesla_moonlight_ubuntu.Base.{ℕ, ◌+◌, ◌-◌, ◌*◌, ◌/◌, ◌%◌, ◌^◌, Bool, List, [], ◌∷◌, ◌++◌}

-- `NV_VIDEO_PACKET`, with the data behind it
pub record NvVideoPacket : Type 0 where
  pub stream_packet_index : ℕ
  pub frame_index : ℕ
  pub flags : ℕ
  pub multi_fec_flags : ℕ
  pub multi_fec_blocks : ℕ
  pub fec_info : ℕ
  pub payload : List ℕ

-- `RTP_PACKET`
pub record RtpPacket : Type 0 where
  pub header : ℕ
  pub sequence_number : ℕ
  pub timestamp : ℕ
  pub ssrc : ℕ
  pub nv : NvVideoPacket

-- `RTPV_QUEUE_ENTRY` but its links
pub record Entry : Type 0 where
  pub packet : RtpPacket
  pub receive_time_ms : ℕ
  pub presentation_time_ms : ℕ
  pub packet_length : ℕ
  pub is_parity : Bool

abbrev pub seq_of : Entry → ℕ
seq_of e = e.packet.sequence_number

-- `RTPV_QUEUE_LIST`
pub record QueueList : Type 0 where
  pub entries : List Entry
  pub count : ℕ

-- `SS_FRAME_FEC_STATUS`; the words are as they go on the wire, most significant byte first.
pub record FrameFecStatus : Type 0 where
  pub frame_index : ℕ
  pub highest_received_sequence_number : ℕ
  pub next_contiguous_sequence_number : ℕ
  pub missing_packets_before_highest_received : ℕ
  pub total_data_packets : ℕ
  pub total_parity_packets : ℕ
  pub received_data_packets : ℕ
  pub received_parity_packets : ℕ
  pub fec_percentage : ℕ
  pub multi_fec_block_index : ℕ
  pub multi_fec_block_count : ℕ

-- The calls that leave this file: `connectionSendFrameFecStatus`, `notifyFrameLost` (with its
-- `speculative` flag), `connectionSawFrame` and `queueRtpPacket`.
pub data Event : Type 0 where
  fec_status : FrameFecStatus → Event
  frame_lost : ℕ → Bool → Event
  saw_frame : ℕ → Event
  submitted : Entry → Event

-- `RTP_VIDEO_QUEUE`, with the calls made so far, oldest first
pub record VideoQueue : Type 0 where
  pub pending_fec_block_list : QueueList
  pub completed_fec_block_list : QueueList
  pub buffer_first_recv_time_ms : ℕ
  pub buffer_lowest_sequence_number : ℕ
  pub buffer_highest_sequence_number : ℕ
  pub buffer_first_parity_sequence_number : ℕ
  pub buffer_data_packets : ℕ
  pub buffer_parity_packets : ℕ
  pub received_data_packets : ℕ
  pub received_parity_packets : ℕ
  pub received_highest_sequence_number : ℕ
  pub fec_percentage : ℕ
  pub next_contiguous_sequence_number : ℕ
  pub missing_packets : ℕ
  pub use_fast_queue_path : Bool
  pub reported_lost_frame : Bool
  pub current_frame_number : ℕ
  pub multi_fec_capable : Bool
  pub multi_fec_current_block_number : ℕ
  pub multi_fec_last_block_number : ℕ
  pub last_oos_frame_presentation_timestamp : ℕ
  pub received_oos_data : Bool
  pub events : List Event

abbrev pub emit : VideoQueue → Event → VideoQueue
emit q e = record q { events = q.events ++ (e ∷ []) }

-- `uint32_t` sums and differences
abbrev pub add_u32 : ℕ → ℕ → ℕ
add_u32 a b = (a + b) % 2 ^ 32

abbrev pub sub_u32 : ℕ → ℕ → ℕ
sub_u32 a b = (a + 2 ^ 32 - b) % 2 ^ 32

-- The bits that the code takes out of `fecInfo` and `multiFecBlocks`.
abbrev pub fec_index : NvVideoPacket → ℕ
fec_index nv = nv.fec_info / 2 ^ 12 % 2 ^ 10

abbrev pub data_packets : NvVideoPacket → ℕ
data_packets nv = nv.fec_info / 2 ^ 22 % 2 ^ 10

abbrev pub percentage : NvVideoPacket → ℕ
percentage nv = nv.fec_info / 2 ^ 4 % 2 ^ 8

abbrev pub current_block : NvVideoPacket → ℕ
current_block nv = nv.multi_fec_blocks / 2 ^ 4 % 4

abbrev pub last_block : NvVideoPacket → ℕ
last_block nv = nv.multi_fec_blocks / 2 ^ 6 % 4

-- `sizeof(RTP_PACKET)`, and the two extension fields if `FLAG_EXTENSION` is set
abbrev pub data_offset : RtpPacket → ℕ
data_offset p = 12 + 4 * (p.header / 2 ^ 4 % 2)
