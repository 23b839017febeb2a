-- ===== src/Depacketizer/Header.antt =====
-- The header of a frame's first packet, in `processRtpPayload`: the frame type it names, the
-- latency and payload length it carries, its size, and the NAL units skipped behind it.
use tesla_moonlight_ubuntu.Base.{
  ℕ, ◌+◌, ◌*◌, Bool, false, not, ◌&&◌, ◌||◌, ◌==◌, leb, if◌then◌else◌,
}
use tesla_moonlight_ubuntu.VideoQueue.Pending.{app_version_at_least}
use tesla_moonlight_ubuntu.Depacketizer.Types.{
  Host, idr, detected_frame_loss, Depacketizer, act, sub_u32, is_h264, is_h265,
}
use tesla_moonlight_ubuntu.Depacketizer.Nal.{
  BufferDesc, byte_at, advance, at_start_sequence, is_access_unit_delimiter, is_sei_nal,
  skip_to_next_nal, skip_while,
}

abbrev pub at_least : Host → (a b c : ℕ) → Bool
at_least c = app_version_at_least c.major c.minor c.patch

-- The codecs whose bitstream the file parses
abbrev pub is_parsed : Host → Bool
is_parsed c = is_h264 c || is_h265 c

-- The frame is free of the references that the host was told are lost.
unfoldable pub end_ref_inval_wait : Depacketizer → Depacketizer
end_ref_inval_wait s =
    if s.waiting_for_ref_inval_frame
    then record s { waiting_for_ref_inval_frame = false; waiting_for_next_successful_frame = false }
    else s

-- For the codecs that are not parsed, an IDR frame is one that its header calls so.
unfoldable pub trust_idr_header : Host → Depacketizer → Depacketizer
trust_idr_header c s = if is_parsed c then s else record s {
  waiting_for_idr_frame = false;
  waiting_for_next_successful_frame = false;
  frame_type = idr;
}

-- The `switch` over the frame type
unfoldable pub read_frame_type : Host → ℕ → Depacketizer → Depacketizer
unfolding end_ref_inval_wait trust_idr_header
read_frame_type c t s =
    if t == 2
    then end_ref_inval_wait (trust_idr_header c s)
    else if (t == 4) || (t == 5)
    then end_ref_inval_wait s
    else s

-- What a host that is too old to name the frame type is told
unfoldable pub old_host : ℕ → Depacketizer → Depacketizer
unfolding end_ref_inval_wait
old_host f s =
    if s.waiting_for_ref_inval_frame
    then end_ref_inval_wait (act s (detected_frame_loss s.start_frame_number (sub_u32 f 1)))
    else s

unfoldable pub read_type : Host → ℕ → BufferDesc → Depacketizer → Depacketizer
unfolding read_frame_type old_host
read_type c f b s =
    if at_least c 7 1 350 && leb 4 b.size then read_frame_type c (byte_at b 3) s else old_host f s

-- `BbGet16` of a little-endian word
abbrev pub word_at : BufferDesc → ℕ → ℕ
word_at b i = byte_at b i + 256 * byte_at b (i + 1)

unfoldable pub read_latency : Host → BufferDesc → Depacketizer → Depacketizer
read_latency c b s =
    if c.is_sunshine && leb 3 b.size
    then record s { frame_host_processing_latency = word_at b 1 }
    else s

unfoldable pub read_payload_length : Host → BufferDesc → Depacketizer → Depacketizer
read_payload_length c b s =
    if not (is_parsed c) && leb 6 b.size
    then record s { last_packet_payload_length = word_at b 4 }
    else s

-- `frameHeaderSize` for the host's version and the header's first byte
unfoldable pub frame_header_size : Host → ℕ → ℕ
frame_header_size c first =
    if at_least c 7 1 450
    then (if first == 1 then 8 else 44)
    else if at_least c 7 1 446
    then (if first == 1 then 8 else 41)
    else if at_least c 7 1 415
    then (if first == 1 then 8 else 24)
    else if at_least c 7 1 350
    then 8
    else if at_least c 7 1 320
    then 12
    else if at_least c 5 0 0
    then 8
    else 0

abbrev pub skip_header : ℕ → BufferDesc → BufferDesc
skip_header n b = if leb n b.size then advance n b else b

-- The cursor behind the AUD and SEI units at the start of the frame
unfoldable pub skip_delimiters : Host → BufferDesc → BufferDesc
skip_delimiters c b =
    let b1 = if at_start_sequence b then b else skip_to_next_nal b in
    let b2 = if is_access_unit_delimiter c b1 then skip_to_next_nal b1 else b1 in
    skip_while b2.size (is_sei_nal c) b2

unfoldable pub parse_header : Host → ℕ → BufferDesc → Depacketizer → ℕ × BufferDesc × Depacketizer
unfolding read_type read_latency read_payload_length frame_header_size skip_delimiters
parse_header c f b s =
    let n = frame_header_size c (byte_at b 0) in
    let rest = skip_header n b in
    (
      n,
      if is_parsed c then skip_delimiters c rest else rest,
      read_payload_length c b (read_latency c b (read_type c f b s)),
    )
