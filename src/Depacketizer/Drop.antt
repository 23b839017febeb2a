-- ===== src/Depacketizer/Drop.antt =====
-- Dropping the state of a frame, and what asks the host for a frame that can be decoded again.
use tesla_moonlight_ubuntu.Base.{
  ℕ, true, false, not, ◌||◌, List, [], ◌∷◌, ◌==◌, if◌then◌else◌, length,
}
use tesla_moonlight_ubuntu.Depacketizer.Types.{
  pframe, idr, DrStatus, ok, need_idr, cleanup, DecodeUnit, request_idr_frame, detected_frame_loss,
  Depacketizer, act, add_u32, consecutive_drop_limit, cleanup_frame_state,
}

-- The first half of `dropFrameState`: which kind of frame to wait for
unfoldable pub await_recovery : Depacketizer → Depacketizer
await_recovery s =
    if s.strict_idr_frame_wait || (not s.idr_frame_processed || s.waiting_for_idr_frame)
    then record s { drop_state_pending = false; waiting_for_idr_frame = true }
    else record s { drop_state_pending = false; waiting_for_ref_inval_frame = true }

-- The second half: the count of consecutive drops
unfoldable pub count_drop : Depacketizer → Depacketizer
count_drop s =
    let drops = add_u32 s.consecutive_frame_drops 1 in
    if drops == consecutive_drop_limit
    then act (record s { consecutive_frame_drops = 0; waiting_for_idr_frame = true })
        request_idr_frame
    else record s { consecutive_frame_drops = drops }

unfoldable pub drop_frame_state : Depacketizer → Depacketizer
unfolding await_recovery count_drop cleanup_frame_state
drop_frame_state s = cleanup_frame_state (count_drop (await_recovery s))

-- `decodingFrame = false; nextFrameNumber = frameIndex + 1;`, the drop and the report to the host,
-- which `processRtpPayload` does for a corrupt frame and for an invalid last payload length
unfoldable pub lose_frame : ℕ → Depacketizer → Depacketizer
unfolding drop_frame_state
lose_frame f s =
    let s' =
      drop_frame_state (record s { decoding_frame = false; next_frame_number = add_u32 f 1 }) in
    if s'.waiting_for_idr_frame
    then act s' request_idr_frame
    else act s' (detected_frame_loss s'.start_frame_number f)

unfoldable pub notify_frame_lost : ℕ → Depacketizer → Depacketizer
unfolding drop_frame_state
notify_frame_lost f s =
    let s' = drop_frame_state s in
    if s'.waiting_for_idr_frame
    then s'
    else act (record s' { next_frame_number = add_u32 f 1 })
        (detected_frame_loss s'.start_frame_number f)

-- `requestDecoderRefresh`, as one step: the receive thread, which may be queuing decode units at
-- the time, is taken to be before or behind it. The flushed decode units are completed with
-- `DR_CLEANUP`, which only frees them.
unfoldable pub request_decoder_refresh : Depacketizer → Depacketizer
request_decoder_refresh s =
    act
      (record s { waiting_for_idr_frame = true; decode_unit_queue = []; drop_state_pending = true })
      request_idr_frame

-- `LiCompleteVideoFrame`
unfoldable pub complete_video_frame : DecodeUnit → DrStatus → Depacketizer → Depacketizer
unfolding request_decoder_refresh
complete_video_frame u need_idr s = request_decoder_refresh s
complete_video_frame u ok s = elim u.frame_type [
  | idr ↦ record s { idr_frame_processed = true }
  | pframe ↦ s
]
complete_video_frame u cleanup s = s

-- `stopVideoDepacketizer` and `destroyVideoDepacketizer`
unfoldable pub stop_video_depacketizer : Depacketizer → Depacketizer
stop_video_depacketizer s = record s { queue_shutdown = true }

unfoldable pub destroy_video_depacketizer : Depacketizer → Depacketizer
unfolding cleanup_frame_state
destroy_video_depacketizer s = cleanup_frame_state (record s { decode_unit_queue = [] })

-- `LiPollNextVideoFrame`: the unit, with the state it is taken from
unfoldable pub poll_next_video_frame : Depacketizer → List DecodeUnit × Depacketizer
poll_next_video_frame s = elim s.queue_shutdown [
  | true ↦ ([], s)
  | false ↦ elim s.decode_unit_queue [
    | [] ↦ ([], s)
    | u ∷ us ↦ (u ∷ [], record s { decode_unit_queue = us })
  ]
]

-- `LiGetPendingVideoFrames`
unfoldable pub get_pending_video_frames : Depacketizer → ℕ
get_pending_video_frames s = length s.decode_unit_queue
