-- ===== src/Depacketizer/Types.antt =====
-- The state of VideoDepacketizer.c (its static variables), the decode units of Limelight.h, and
-- the calls that leave the file (`Action`). The chain of NAL units is the sequence of its
-- entries, so its head is NULL exactly if the sequence is empty. Who owns and frees a buffer is
-- not part of the state, and malloc succeeds.
use tesla_moonlight_ubuntu.Base.{
  ℕ, ◌+◌, ◌-◌, ◌/◌, ◌%◌, ◌^◌, Bool, true, false, not, List, [], ◌∷◌, ◌++◌, ◌==◌,
}

-- `BUFFER_TYPE_PICDATA` and the others
pub data BufferType : Type 0 where
  picdata sps pps vps : BufferType

-- `FRAME_TYPE_PFRAME` and `FRAME_TYPE_IDR`
pub data FrameType : Type 0 where
  pframe idr : FrameType

-- The status of a decoder: `DR_OK`, `DR_NEED_IDR`, and `DR_CLEANUP` of this file.
pub data DrStatus : Type 0 where
  ok need_idr cleanup : DrStatus

-- `LENTRY` but its link; its length is that of its bytes.
pub record Lentry : Type 0 where
  pub buffer : List ℕ
  pub buffer_type : BufferType

-- `DECODE_UNIT`
pub record DecodeUnit : Type 0 where
  pub frame_number : ℕ
  pub frame_type : FrameType
  pub frame_host_processing_latency : ℕ
  pub receive_time_ms : ℕ
  pub enqueue_time_ms : ℕ
  pub presentation_time_ms : ℕ
  pub full_length : ℕ
  pub buffer_list : List Lentry
  pub hdr_active : Bool
  pub colorspace : ℕ

-- The calls that leave the file: `LiRequestIdrFrame`, `connectionDetectedFrameLoss`,
-- `connectionReceivedCompleteFrame` and `notifyKeyFrameReceived`, and a decode unit that the
-- queue has accepted or that `submitDecodeUnit` was called with.
pub data Action : Type 0 where
  request_idr_frame : Action
  detected_frame_loss : (start end : ℕ) → Action
  received_complete_frame : ℕ → Action
  key_frame_received : Action
  handed_over : DecodeUnit → Action

-- What the file reads of the rest of the program and of the host it is connected to: the
-- negotiated format, the host's version, the decoder's capabilities and its `submitDecodeUnit`,
-- the stream configuration and the clock.
pub record Host : Type 0 where
  pub negotiated_video_format : ℕ
  pub major : ℕ
  pub minor : ℕ
  pub patch : ℕ
  pub is_sunshine : Bool
  pub direct_submit : Bool
  pub ref_inval_enabled : Bool
  pub submit_decode_unit : DecodeUnit → DrStatus
  pub hdr_mode : Bool
  pub color_space : ℕ
  pub millis : ℕ

-- The static variables, with the actions so far, oldest first
pub record Depacketizer : Type 0 where
  pub nal_chain : List Lentry
  pub nal_chain_data_length : ℕ
  pub next_frame_number : ℕ
  pub start_frame_number : ℕ
  pub waiting_for_next_successful_frame : Bool
  pub waiting_for_idr_frame : Bool
  pub waiting_for_ref_inval_frame : Bool
  pub last_packet_in_stream : ℕ
  pub decoding_frame : Bool
  pub frame_type : FrameType
  pub last_packet_payload_length : ℕ
  pub strict_idr_frame_wait : Bool
  pub synthetic_pts_base : ℕ
  pub frame_host_processing_latency : ℕ
  pub first_packet_receive_time : ℕ
  pub first_packet_presentation_time : ℕ
  pub drop_state_pending : Bool
  pub idr_frame_processed : Bool
  pub consecutive_frame_drops : ℕ
  pub decode_unit_queue : List DecodeUnit
  pub queue_shutdown : Bool
  pub actions : List Action

abbrev pub act : Depacketizer → Action → Depacketizer
act s a = record s { actions = s.actions ++ (a ∷ []) }

-- `unsigned int` sums and differences
abbrev pub add_u32 : ℕ → ℕ → ℕ
add_u32 a b = (a + b) % 2 ^ 32

abbrev pub sub_u32 : ℕ → ℕ → ℕ
sub_u32 a b = (a + 2 ^ 32 - b) % 2 ^ 32

-- `VIDEO_FORMAT_MASK_H264` (0x000F) and `VIDEO_FORMAT_MASK_H265` (0x0F00)
abbrev pub is_h264 : Host → Bool
is_h264 c = not (c.negotiated_video_format % 16 == 0)

abbrev pub is_h265 : Host → Bool
is_h265 c = not (c.negotiated_video_format / 256 % 16 == 0)

abbrev pub consecutive_drop_limit : ℕ
consecutive_drop_limit = 120

-- The static variables before the first initialization, with a queue as `LbqInitialize...`
-- leaves it.
abbrev pub unset : Depacketizer
unset = record {
  nal_chain = [];
  nal_chain_data_length = 0;
  next_frame_number = 0;
  start_frame_number = 0;
  waiting_for_next_successful_frame = false;
  waiting_for_idr_frame = false;
  waiting_for_ref_inval_frame = false;
  last_packet_in_stream = 0;
  decoding_frame = false;
  frame_type = pframe;
  last_packet_payload_length = 0;
  strict_idr_frame_wait = false;
  synthetic_pts_base = 0;
  frame_host_processing_latency = 0;
  first_packet_receive_time = 0;
  first_packet_presentation_time = 0;
  drop_state_pending = false;
  idr_frame_processed = false;
  consecutive_frame_drops = 0;
  decode_unit_queue = [];
  queue_shutdown = false;
  actions = [];
}

-- `initializeVideoDepacketizer`, on the values that an earlier connection left
unfoldable pub initialize_video_depacketizer : Host → Depacketizer → Depacketizer
initialize_video_depacketizer c s = record s {
  decode_unit_queue = [];
  queue_shutdown = false;
  next_frame_number = 1;
  start_frame_number = 0;
  waiting_for_next_successful_frame = false;
  waiting_for_idr_frame = true;
  waiting_for_ref_inval_frame = false;
  last_packet_in_stream = 2 ^ 32 - 1;
  decoding_frame = false;
  synthetic_pts_base = 0;
  frame_host_processing_latency = 0;
  first_packet_receive_time = 0;
  first_packet_presentation_time = 0;
  last_packet_payload_length = 0;
  drop_state_pending = false;
  idr_frame_processed = false;
  strict_idr_frame_wait = not c.ref_inval_enabled;
}

-- `cleanupFrameState`
unfoldable pub cleanup_frame_state : Depacketizer → Depacketizer
cleanup_frame_state s = record s { nal_chain = []; nal_chain_data_length = 0 }
