-- ===== src/Depacketizer/Process.antt =====
-- `processRtpPayload` and `queueRtpPacket`: one data packet.
use tesla_moonlight_ubuntu.Base.{
  ℕ, ◌+◌, ◌-◌, ◌/◌, ◌%◌, ◌^◌, Bool, true, false, not, ◌&&◌, ◌||◌, [], ◌∷◌, ◌==◌, ltb, leb,
  if◌then◌else◌,
}
use tesla_moonlight_ubuntu.Seq.{is_before24, is_before32}
use tesla_moonlight_ubuntu.VideoQueue.Types.{
  NvVideoPacket, Entry, current_block, last_block, data_offset,
}
use tesla_moonlight_ubuntu.Depacketizer.Types.{
  Host, pframe, idr, Depacketizer, act, request_idr_frame, detected_frame_loss, add_u32, sub_u32,
}
use tesla_moonlight_ubuntu.Depacketizer.Nal.{
  BufferDesc, is_idr_frame_start, is_picture_parameter_set_nal, skip_to_next_nal,
}
use tesla_moonlight_ubuntu.Depacketizer.Drop.{drop_frame_state, lose_frame}
use tesla_moonlight_ubuntu.Depacketizer.Fragment.{queue_fragment, process_payload_slow}
use tesla_moonlight_ubuntu.Depacketizer.Reassemble.{reassemble_frame}
use tesla_moonlight_ubuntu.Depacketizer.Header.{is_parsed, parse_header}

-- `FLAG_EOF` (2) and `FLAG_SOF` (4)
abbrev pub has_eof : ℕ → Bool
has_eof flags = flags / 2 % 2 == 1

abbrev pub has_sof : ℕ → Bool
has_sof flags = flags / 4 % 2 == 1

-- `isFirstPacket`: the flags without `FLAG_CONTAINS_PIC_DATA` (1)
unfoldable pub is_first_packet : ℕ → ℕ → Bool
is_first_packet flags fec_block_number =
    let f = flags - flags % 2 in ((f == 6) || (f == 4)) && (fec_block_number == 0)

unfoldable pub is_last_packet : NvVideoPacket → Bool
is_last_packet p = has_eof p.flags && (current_block p == last_block p)

-- The stream packet index, of 24 bits
abbrev pub index_of : NvVideoPacket → ℕ
index_of p = p.stream_packet_index / 256 % 2 ^ 24

-- `U24(lastPacketInStream + 1)`
abbrev pub next_index : Depacketizer → ℕ
next_index s = (s.last_packet_in_stream + 1) % 2 ^ 24

unfoldable pub is_corrupt : NvVideoPacket → Depacketizer → Bool
is_corrupt p s =
    is_before24 (index_of p) (next_index s)
    || (not (has_sof p.flags) && not (index_of p == next_index s))

-- Frames are missing before this one.
unfoldable pub note_missing : ℕ → Depacketizer → Depacketizer
unfolding drop_frame_state
note_missing f s =
    if is_before32 s.next_frame_number f
    then drop_frame_state
        (record s { next_frame_number = f; waiting_for_next_successful_frame = true })
    else s

-- The times that the first packet of a frame sets. `syntheticPtsBase` is set once.
unfoldable pub note_times : ℕ → ℕ → ℕ → Depacketizer → Depacketizer
note_times f receive pts s =
    let base = if s.synthetic_pts_base == 0 then receive else s.synthetic_pts_base in
    record s {
      first_packet_receive_time = receive;
      synthetic_pts_base = base;
      first_packet_presentation_time =
          if (pts == 0) && ltb 0 f then (receive + 2 ^ 64 - base) % 2 ^ 32 else pts;
    }

unfoldable pub begin_frame : ℕ → ℕ → ℕ → Depacketizer → Depacketizer
unfolding note_missing note_times
begin_frame f receive pts s =
    note_times f receive pts
      (record (note_missing f s) { decoding_frame = true; frame_type = pframe })

-- The data goes to the chain; `none` of the codecs that are not parsed is a frame that was lost
-- because of its last payload length.
abbrev pub frame_cut : ℕ → ℕ → ℕ → Bool
frame_cut len header size = ltb header len && leb (len - header) size

-- The data of an H.264 or HEVC packet
unfoldable pub append_parsed : Host → Bool → BufferDesc → Depacketizer → Depacketizer
unfolding queue_fragment process_payload_slow
append_parsed c first b s =
    if first && is_idr_frame_start c b
    then (process_payload_slow c b.size b s).1
    else queue_fragment c
        (if first && is_picture_parameter_set_nal c b then skip_to_next_nal b else b) s

-- What is done about a frame that ends while an IDR frame or a frame free of lost references is
-- awaited
unfoldable pub report_wait : ℕ → Depacketizer → Depacketizer
report_wait f s =
    if s.waiting_for_idr_frame
    then (if s.waiting_for_next_successful_frame then act s request_idr_frame else s)
    else act s (detected_frame_loss s.start_frame_number f)

-- The frame is whole. A drop that is pending spares an IDR frame.
unfoldable pub complete_frame : Host → ℕ → Depacketizer → Depacketizer
unfolding drop_frame_state reassemble_frame
complete_frame c f s = elim s.drop_state_pending [
  | false ↦ reassemble_frame c f s
  | true ↦ elim s.nal_chain [
    | [] ↦ drop_frame_state s
    | e ∷ es ↦ elim s.frame_type [
      | idr ↦ reassemble_frame c f (record s { drop_state_pending = false })
      | pframe ↦ drop_frame_state s
    ]
  ]
]

-- The last packet of a frame has been appended.
unfoldable pub finish_frame : Host → ℕ → Depacketizer → Depacketizer
unfolding report_wait complete_frame drop_frame_state
finish_frame c f s =
    let s' = record s { decoding_frame = false; next_frame_number = add_u32 f 1 } in
    if s'.waiting_for_idr_frame || s'.waiting_for_ref_inval_frame
    then drop_frame_state (record (report_wait f s') { waiting_for_next_successful_frame = false })
    else complete_frame c f s'

-- The end of the function, from the choice of the codec on. `n` is `frameHeaderSize`.
unfoldable pub append_payload :
    Host → (first last : Bool) → (f n : ℕ) → BufferDesc → Depacketizer → Depacketizer
unfolding append_parsed finish_frame queue_fragment lose_frame
append_payload c first last f n b s =
    if is_parsed c
    then (if last then finish_frame c f (append_parsed c first b s) else append_parsed c first b s)
    else if last
    then (if frame_cut s.last_packet_payload_length n b.size
        then finish_frame c f
            (queue_fragment c (record b { size = s.last_packet_payload_length - n }) s)
        else lose_frame f s)
    else queue_fragment c b s

-- The packet's data, which the RTP queue has found to be whole
abbrev pub payload_of : NvVideoPacket → ℕ → BufferDesc
payload_of p len = record { bytes = p.payload; offset = 0; size = sub_u32 len 16 }

-- A packet that belongs to the frame that is awaited or being decoded
unfoldable pub take_in : Host → NvVideoPacket → (len receive pts : ℕ) → Depacketizer → Depacketizer
unfolding begin_frame parse_header append_payload
take_in c p len receive pts s =
    let first = is_first_packet p.flags (current_block p) in
    let last = is_last_packet p in
    let f = p.frame_index in
    let b = payload_of p len in
    let s1 = if first then begin_frame f receive pts s else s in
    let s2 = record s1 { last_packet_in_stream = index_of p } in
    if first && ltb 0 b.size
    then (let h = parse_header c f b s2 in append_payload c first last f h.0 h.1 h.2)
    else append_payload c first last f 0 b s2

-- `processRtpPayload`
unfoldable pub process_rtp_payload :
    Host → NvVideoPacket → (len receive pts : ℕ) → Depacketizer → Depacketizer
unfolding take_in lose_frame
process_rtp_payload c p len receive pts s =
    if is_before32 p.frame_index s.next_frame_number
    then s
    else if is_corrupt p s
    then lose_frame p.frame_index s
    else take_in c p len receive pts s

-- `queueRtpPacket`
unfoldable pub queue_rtp_packet : Host → Entry → Depacketizer → Depacketizer
unfolding process_rtp_payload
queue_rtp_packet c e =
    process_rtp_payload c e.packet.nv (sub_u32 e.packet_length (data_offset e.packet))
      e.receive_time_ms e.presentation_time_ms
