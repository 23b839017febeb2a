-- ===== src/Depacketizer/Reassemble.antt =====
-- `reassembleFrame`: the chain becomes a decode unit, for the queue or for the decoder.
use tesla_moonlight_ubuntu.Base.{ℕ, true, false, [], ◌∷◌, ◌++◌, ◌==◌, length, if◌then◌else◌}
use tesla_moonlight_ubuntu.Depacketizer.Types.{
  Host, BufferType, picdata, sps, pps, vps, FrameType, pframe, idr, Lentry, DecodeUnit,
  Depacketizer, act, key_frame_received, handed_over, received_complete_frame, request_idr_frame,
}
use tesla_moonlight_ubuntu.Depacketizer.Drop.{drop_frame_state, complete_video_frame}

-- The frame is an IDR frame if its first entry is no picture data.
unfoldable pub unit_type : BufferType → FrameType → FrameType
unit_type picdata t = t
unit_type sps t = idr
unit_type pps t = idr
unit_type vps t = idr

abbrev pub bt2020 : ℕ
bt2020 = 2

-- The decode unit of the chain, whose first entry is `e`
unfoldable pub unit_of : Host → ℕ → Lentry → Depacketizer → DecodeUnit
unfolding unit_type
unit_of c f e s = record {
  frame_number = f;
  frame_type = unit_type e.buffer_type s.frame_type;
  frame_host_processing_latency = s.frame_host_processing_latency;
  receive_time_ms = s.first_packet_receive_time;
  enqueue_time_ms = c.millis;
  presentation_time_ms = s.first_packet_presentation_time;
  full_length = s.nal_chain_data_length;
  buffer_list = s.nal_chain;
  hdr_active = c.hdr_mode;
  colorspace = if c.hdr_mode then bt2020 else c.color_space;
}

-- `notifyKeyFrameReceived` for an IDR frame, and the emptied chain
abbrev pub take_chain : DecodeUnit → Depacketizer → Depacketizer
take_chain u s =
    let s' = record s { nal_chain = []; nal_chain_data_length = 0 } in
    elim u.frame_type [ idr ↦ act s' key_frame_received | pframe ↦ s' ]

-- The bound of the queue of decode units
abbrev pub queue_bound : ℕ
queue_bound = 15

-- The queue is full: the frame and all that wait are dropped.
unfoldable pub overflow : DecodeUnit → Depacketizer → Depacketizer
unfolding drop_frame_state
overflow u s =
    let s' = drop_frame_state (record s {
      waiting_for_idr_frame = true;
      nal_chain = u.buffer_list;
      nal_chain_data_length = u.full_length;
    }) in
    act (record s' { decode_unit_queue = [] }) request_idr_frame

-- The last lines, after the frame has been handed over. The start of the window of reference
-- frame invalidation moves to the next frame.
unfoldable pub note_complete : ℕ → Depacketizer → Depacketizer
note_complete f s = record (act s (received_complete_frame f)) {
  consecutive_frame_drops = 0;
  start_frame_number = s.next_frame_number;
}

-- `LbqOfferQueueItem`, which refuses an item after a shutdown and an item too many
unfoldable pub offer_unit : ℕ → DecodeUnit → Depacketizer → Depacketizer
unfolding overflow note_complete
offer_unit f u s = elim s.queue_shutdown [
  | true ↦ note_complete f s
  | false ↦ elim (length s.decode_unit_queue == queue_bound) [
    | true ↦ overflow u s
    | false ↦
        note_complete f
          (act (record s { decode_unit_queue = s.decode_unit_queue ++ (u ∷ []) }) (handed_over u))
  ]
]

-- `submitDecodeUnit` and the completion with the status it returns
unfoldable pub submit_unit : Host → ℕ → DecodeUnit → Depacketizer → Depacketizer
unfolding note_complete complete_video_frame
submit_unit c f u s =
    note_complete f (complete_video_frame u (c.submit_decode_unit u) (act s (handed_over u)))

unfoldable pub reassemble_frame : Host → ℕ → Depacketizer → Depacketizer
unfolding unit_of offer_unit submit_unit
reassemble_frame c f s = elim s.nal_chain [
  | [] ↦ s
  | e ∷ es ↦
      let u = unit_of c f e s in
      let s' = take_chain u s in
      elim c.direct_submit [ true ↦ submit_unit c f u s' | false ↦ offer_unit f u s' ]
]
