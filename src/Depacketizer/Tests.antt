-- ===== src/Depacketizer/Tests.antt =====
-- Concrete packets: an H.264 IDR frame in one packet, a P-frame in three, and what becomes of
-- them.
use tesla_moonlight_ubuntu.Base.{
  ℕ, ◌+◌, ◌*◌, ◌-◌, ◌/◌, ◌%◌, ◌==◌, ◌≤◌, ◌<◌, ◌≡◌, refl, true, false, List, [], ◌∷◌, ◌++◌, arith,
  length,
}
use tesla_moonlight_ubuntu.VideoQueue.Types.{NvVideoPacket, Entry}
use tesla_moonlight_ubuntu.Depacketizer.Types.{
  Host, picdata, sps, pps, idr, ok, DecodeUnit, received_complete_frame, key_frame_received,
  handed_over, Depacketizer, unset, initialize_video_depacketizer, cleanup_frame_state,
}
use tesla_moonlight_ubuntu.Seq.{is_before24, is_before32}
use tesla_moonlight_ubuntu.VideoQueue.Pending.{app_version_at_least}
use tesla_moonlight_ubuntu.Depacketizer.Nal.{
  get_annex_b_start_sequence, at_start_sequence, is_seq_reference_frame_start,
  is_access_unit_delimiter, is_sei_nal, is_picture_parameter_set_nal, is_idr_frame_start,
  find_start, skip_to_next_nal_or_end, skip_to_next_nal, skip_while, BufferDesc,
}
use tesla_moonlight_ubuntu.Depacketizer.Drop.{await_recovery, count_drop, drop_frame_state}
use tesla_moonlight_ubuntu.Depacketizer.Fragment.{
  get_buffer_flags, queue_fragment, skip_prefix, skip_unit, slow_step, process_payload_slow,
}
use tesla_moonlight_ubuntu.Depacketizer.Reassemble.{
  unit_type, unit_of, overflow, note_complete, offer_unit, reassemble_frame,
}
use tesla_moonlight_ubuntu.Depacketizer.Header.{
  end_ref_inval_wait, trust_idr_header, read_frame_type, old_host, read_type, read_latency,
  read_payload_length, frame_header_size, skip_delimiters, parse_header,
}
use tesla_moonlight_ubuntu.Depacketizer.Process.{
  is_first_packet, is_last_packet, is_corrupt, note_missing, note_times, begin_frame, append_parsed,
  report_wait, complete_frame, finish_frame, append_payload, take_in, process_rtp_payload,
  queue_rtp_packet,
}
use tesla_moonlight_ubuntu.Depacketizer.Nal.Window.{
  IsWithin, IsStop, cursor, prefix_size, skip_to_next_nal_or_end_lem,
}
use tesla_moonlight_ubuntu.Depacketizer.Fragment.Slow.{
  process_payload_slow_ends, process_payload_slow_within,
}
use tesla_moonlight_ubuntu.Depacketizer.Valid.{IsValid}
use tesla_moonlight_ubuntu.Depacketizer.Reach.{
  Reaches, start, by_packet, IsSound, reached-IsValid, first_unit_is_idr,
}
use tesla_moonlight_ubuntu.Depacketizer.Limit.{drops, idr_requests, drops_request_idr}
use tesla_moonlight_ubuntu.Depacketizer.Lost.{IsLost, corrupt_frame-IsLost}
use tesla_moonlight_ubuntu.Depacketizer.Whole.{
  bytes_of, data_of, data_of_all, Continues, IsReceiving, feed,
}
use tesla_moonlight_ubuntu.Depacketizer.Ending.{IsQueued, frame_is_whole}

abbrev h264_host : Host
h264_host = record {
  negotiated_video_format = 1;
  major = 7;
  minor = 1;
  patch = 450;
  is_sunshine = true;
  direct_submit = false;
  ref_inval_enabled = true;
  submit_decode_unit = λ u. ok;
  hdr_mode = false;
  color_space = 1;
  millis = 1000;
}

abbrev packet_of : (index frame flags : ℕ) → List ℕ → Entry
packet_of index frame flags bytes = record {
  packet = record {
    header = 144;
    sequence_number = index;
    timestamp = 900;
    ssrc = 0;
    nv = record {
      stream_packet_index = 256 * index;
      frame_index = frame;
      flags = flags;
      multi_fec_flags = 16;
      multi_fec_blocks = 0;
      fec_info = 0;
      payload = bytes;
    };
  };
  receive_time_ms = 5;
  presentation_time_ms = 10;
  packet_length = 32 + length bytes;
  is_parity = false;
}

abbrev idr_bytes : List ℕ
idr_bytes =
    1 ∷ 9 ∷ 0 ∷ 2 ∷ 0 ∷ 0 ∷ 0 ∷ 0 ∷ 0 ∷ 0 ∷ 0 ∷ 1 ∷ 103 ∷ 66 ∷ 0 ∷ 0 ∷ 0 ∷ 1 ∷ 104 ∷ 77 ∷ 0 ∷ 0 ∷ 0
    ∷ 1 ∷ 101 ∷ 88 ∷ 99 ∷ []

abbrev idr_packet : Entry
idr_packet = packet_of 0 1 7 idr_bytes

abbrev idr_unit : DecodeUnit
idr_unit = record {
  frame_number = 1;
  frame_type = idr;
  frame_host_processing_latency = 9;
  receive_time_ms = 5;
  enqueue_time_ms = 1000;
  presentation_time_ms = 10;
  full_length = 19;
  buffer_list =
      record { buffer = 0 ∷ 0 ∷ 0 ∷ 1 ∷ 103 ∷ 66 ∷ []; buffer_type = sps }
      ∷ record { buffer = 0 ∷ 0 ∷ 0 ∷ 1 ∷ 104 ∷ 77 ∷ []; buffer_type = pps }
      ∷ record { buffer = 0 ∷ 0 ∷ 0 ∷ 1 ∷ 101 ∷ 88 ∷ 99 ∷ []; buffer_type = picdata }
      ∷ [];
  hdr_active = false;
  colorspace = 1;
}

abbrev fresh : Depacketizer
fresh = initialize_video_depacketizer h264_host unset

abbrev after_idr : Depacketizer
after_idr = queue_rtp_packet h264_host idr_packet fresh

unset-IsValid : IsValid fresh
unfolding initialize_video_depacketizer
unset-IsValid = record {
  chain_size = refl;
  few_drops = omega arith;
  ref_inval = λ e. absurd cc;
  queue_bounded = omega arith;
  units = tt;
  told = tt;
}

idr_packet-IsSound : IsSound idr_packet fresh
unfolding initialize_video_depacketizer cleanup_frame_state get_annex_b_start_sequence
    at_start_sequence is_seq_reference_frame_start is_access_unit_delimiter is_sei_nal
    is_picture_parameter_set_nal is_idr_frame_start find_start skip_to_next_nal_or_end
    skip_to_next_nal skip_while await_recovery count_drop drop_frame_state get_buffer_flags
    queue_fragment skip_prefix skip_unit slow_step process_payload_slow unit_type unit_of overflow
    note_complete offer_unit reassemble_frame end_ref_inval_wait trust_idr_header read_frame_type
    old_host read_type read_latency read_payload_length frame_header_size skip_delimiters
    parse_header is_first_packet is_last_packet is_corrupt note_missing note_times begin_frame
    append_parsed report_wait complete_frame finish_frame append_payload take_in process_rtp_payload
    queue_rtp_packet is_before32 is_before24 app_version_at_least
idr_packet-IsSound = (omega arith, λ a b. refl)

reached : Reaches h264_host fresh after_idr
reached = by_packet fresh idr_packet idr_packet-IsSound start

reached-IsValid_example : IsValid after_idr
reached-IsValid_example = reached-IsValid h264_host fresh after_idr unset-IsValid reached

after_idr_acts :
    after_idr.actions
    ≡ (key_frame_received ∷ []) ++ (handed_over idr_unit ∷ (received_complete_frame 1 ∷ []))
unfolding initialize_video_depacketizer cleanup_frame_state get_annex_b_start_sequence
    at_start_sequence is_seq_reference_frame_start is_access_unit_delimiter is_sei_nal
    is_picture_parameter_set_nal is_idr_frame_start find_start skip_to_next_nal_or_end
    skip_to_next_nal skip_while await_recovery count_drop drop_frame_state get_buffer_flags
    queue_fragment skip_prefix skip_unit slow_step process_payload_slow unit_type unit_of overflow
    note_complete offer_unit reassemble_frame end_ref_inval_wait trust_idr_header read_frame_type
    old_host read_type read_latency read_payload_length frame_header_size skip_delimiters
    parse_header is_first_packet is_last_packet is_corrupt note_missing note_times begin_frame
    append_parsed report_wait complete_frame finish_frame append_payload take_in process_rtp_payload
    queue_rtp_packet is_before32 is_before24 app_version_at_least
after_idr_acts = refl

first_unit_is_idr_example : idr_unit.frame_type ≡ idr
first_unit_is_idr_example =
    first_unit_is_idr h264_host unset after_idr idr_unit (key_frame_received ∷ [])
      (received_complete_frame 1 ∷ []) refl reached after_idr_acts refl

-- A P-frame of three packets behind the IDR frame
abbrev p_first : Entry
p_first = packet_of 1 2 5 (1 ∷ 0 ∷ 0 ∷ 1 ∷ 0 ∷ 0 ∷ 0 ∷ 0 ∷ 0 ∷ 0 ∷ 0 ∷ 1 ∷ 65 ∷ 7 ∷ [])

abbrev p_middle : Entry
p_middle = packet_of 2 2 1 (8 ∷ 9 ∷ [])

abbrev p_last : Entry
p_last = packet_of 3 2 3 (10 ∷ [])

abbrev receiving : Depacketizer
receiving = queue_rtp_packet h264_host p_first after_idr

receiving-IsReceiving : IsReceiving 2 2 receiving
unfolding initialize_video_depacketizer cleanup_frame_state get_annex_b_start_sequence
    at_start_sequence is_seq_reference_frame_start is_access_unit_delimiter is_sei_nal
    is_picture_parameter_set_nal is_idr_frame_start find_start skip_to_next_nal_or_end
    skip_to_next_nal skip_while await_recovery count_drop drop_frame_state get_buffer_flags
    queue_fragment skip_prefix skip_unit slow_step process_payload_slow unit_type unit_of overflow
    note_complete offer_unit reassemble_frame end_ref_inval_wait trust_idr_header read_frame_type
    old_host read_type read_latency read_payload_length frame_header_size skip_delimiters
    parse_header is_first_packet is_last_packet is_corrupt note_missing note_times begin_frame
    append_parsed report_wait complete_frame finish_frame append_payload take_in process_rtp_payload
    queue_rtp_packet is_before32 is_before24 app_version_at_least
receiving-IsReceiving = record {
  frame = refl;
  index = refl;
  no_idr_wait = refl;
  no_ref_inval_wait = refl;
  no_drop = refl;
  begun = λ e. absurd cc;
}

receiving_room :
    (receiving.queue_shutdown ≡ false) × ((length receiving.decode_unit_queue == 15) ≡ false)
unfolding initialize_video_depacketizer cleanup_frame_state get_annex_b_start_sequence
    at_start_sequence is_seq_reference_frame_start is_access_unit_delimiter is_sei_nal
    is_picture_parameter_set_nal is_idr_frame_start find_start skip_to_next_nal_or_end
    skip_to_next_nal skip_while await_recovery count_drop drop_frame_state get_buffer_flags
    queue_fragment skip_prefix skip_unit slow_step process_payload_slow unit_type unit_of overflow
    note_complete offer_unit reassemble_frame end_ref_inval_wait trust_idr_header read_frame_type
    old_host read_type read_latency read_payload_length frame_header_size skip_delimiters
    parse_header is_first_packet is_last_packet is_corrupt note_missing note_times begin_frame
    append_parsed report_wait complete_frame finish_frame append_payload take_in process_rtp_payload
    queue_rtp_packet is_before32 is_before24 app_version_at_least
receiving_room = (refl, refl)

middle-Continues : Continues 2 2 p_middle.packet.nv
middle-Continues = record { frame = refl; index = refl; no_start = refl }

last-Continues : Continues 2 3 p_last.packet.nv
last-Continues = record { frame = refl; index = refl; no_start = refl }

middle_is_not_last : is_last_packet p_middle.packet.nv ≡ false
unfolding is_last_packet
middle_is_not_last = refl

last_is_last : is_last_packet p_last.packet.nv ≡ true
unfolding is_last_packet
last_is_last = refl

frame_is_whole_example :
    IsQueued 2
      ((bytes_of receiving.nal_chain ++ data_of_all (p_middle ∷ [])) ++ data_of p_last)
      receiving
      (queue_rtp_packet h264_host p_last (feed h264_host (p_middle ∷ []) receiving))
frame_is_whole_example =
    frame_is_whole h264_host 2 2 (p_middle ∷ []) p_last receiving refl refl receiving_room.0
      receiving_room.1 receiving-IsReceiving (middle-Continues, middle_is_not_last, tt)
      last-Continues last_is_last

-- A packet lost in the middle of the frame
corrupt_last :
    (is_before32 2 receiving.next_frame_number ≡ false)
    × (is_corrupt p_last.packet.nv receiving ≡ true)
unfolding initialize_video_depacketizer cleanup_frame_state get_annex_b_start_sequence
    at_start_sequence is_seq_reference_frame_start is_access_unit_delimiter is_sei_nal
    is_picture_parameter_set_nal is_idr_frame_start find_start skip_to_next_nal_or_end
    skip_to_next_nal skip_while await_recovery count_drop drop_frame_state get_buffer_flags
    queue_fragment skip_prefix skip_unit slow_step process_payload_slow unit_type unit_of overflow
    note_complete offer_unit reassemble_frame end_ref_inval_wait trust_idr_header read_frame_type
    old_host read_type read_latency read_payload_length frame_header_size skip_delimiters
    parse_header is_first_packet is_last_packet is_corrupt note_missing note_times begin_frame
    append_parsed report_wait complete_frame finish_frame append_payload take_in process_rtp_payload
    queue_rtp_packet is_before32 is_before24 app_version_at_least
corrupt_last = (refl, refl)

abbrev after_loss : Depacketizer
after_loss = process_rtp_payload h264_host p_last.packet.nv 17 5 10 receiving

corrupt_frame-IsLost_example :
    IsLost 2 receiving after_loss
    × ((q : NvVideoPacket) (len receive pts : ℕ)
        → q.frame_index ≡ 2
        → process_rtp_payload h264_host q len receive pts after_loss ≡ after_loss)
corrupt_frame-IsLost_example =
    corrupt_frame-IsLost h264_host p_last.packet.nv 17 5 10 receiving (omega arith) corrupt_last.0
      corrupt_last.1

drops_request_idr_example :
    ((drops 250 unset).consecutive_frame_drops ≡ (0 + 250) % 120)
    × (idr_requests (drops 250 unset).actions ≡ 0 + (0 + 250) / 120)
drops_request_idr_example = drops_request_idr 250 unset (omega arith)

abbrev idr_data : BufferDesc
idr_data = record { bytes = idr_bytes; offset = 8; size = 19 }

process_payload_slow_ends_example : (process_payload_slow h264_host 19 idr_data fresh).0.size ≡ 0
process_payload_slow_ends_example =
    process_payload_slow_ends h264_host idr_data fresh 19 (omega arith)

process_payload_slow_within_example :
    (process_payload_slow h264_host 19 idr_data fresh).1.nal_chain_data_length
      + (process_payload_slow h264_host 19 idr_data fresh).0.size
    ≤ fresh.nal_chain_data_length + 19
process_payload_slow_within_example = process_payload_slow_within h264_host 19 idr_data fresh

skip_to_next_nal_or_end_lem_example :
    IsWithin idr_data (skip_to_next_nal_or_end idr_data)
    × IsStop (skip_to_next_nal_or_end idr_data)
    × ((k : ℕ)
        → 8 + prefix_size idr_data ≤ k
        → k < (skip_to_next_nal_or_end idr_data).offset
        → at_start_sequence (cursor idr_bytes k (8 + 19 - k)) ≡ false)
skip_to_next_nal_or_end_lem_example = skip_to_next_nal_or_end_lem idr_data
