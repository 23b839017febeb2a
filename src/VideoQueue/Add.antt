-- ===== src/VideoQueue/Add.antt =====
-- `RtpvAddPacket`: one received packet, from the checks to the delivery of a frame.
use tesla_moonlight_ubuntu.Base.{
  ℕ, ◌+◌, ◌*◌, ◌/◌, ◌%◌, ◌^◌, Bool, true, false, not, ◌&&◌, ◌||◌, ◌==◌, ltb, if◌then◌else◌,
}
use tesla_moonlight_ubuntu.Seq.{u16, diff16, is_before16}
use tesla_moonlight_ubuntu.VideoQueue.Types.{
  RtpPacket, frame_lost, saw_frame, VideoQueue, emit, add_u32, sub_u32, fec_index, data_packets,
  percentage, current_block, last_block, data_offset,
}
use tesla_moonlight_ubuntu.VideoQueue.Pending.{
  purge_list_entries, report_final_frame_fec_status, queue_packet,
}
use tesla_moonlight_ubuntu.VideoQueue.Recover.{Services, Outcome, complete, reconstruct_frame}
use tesla_moonlight_ubuntu.VideoQueue.Stage.{stage_complete_fec_block, submit_completed_frame}

-- `RTPF_RET_QUEUED` and `RTPF_RET_REJECTED`
pub data AddResult : Type 0 where
  queued rejected : AddResult

-- The packet as the queue goes on to use it: a host without multi-block FEC sends no block numbers.
unfoldable pub fix_up : VideoQueue → RtpPacket → RtpPacket
fix_up q p =
    let nv = p.nv in
    if q.multi_fec_capable
    then p
    else record p { nv = record nv { multi_fec_flags = 0x10; multi_fec_blocks = 0 } }

-- The first checks, on the packet before and after `fix_up`. `sizeof(NV_VIDEO_PACKET)` is 16.
unfoldable pub is_stale : VideoQueue → RtpPacket → ℕ → Bool
is_stale q p len =
    is_before16 p.sequence_number q.next_contiguous_sequence_number
    || (ltb len (data_offset p + 16)
        || (is_before16 p.nv.frame_index q.current_frame_number
            || ((p.nv.frame_index == q.current_frame_number)
                && ltb (current_block p.nv) q.multi_fec_current_block_number)))

-- `queue` is reinitialised for a packet that does not continue the pending block.
abbrev pub needs_new_block : VideoQueue → RtpPacket → Bool
needs_new_block q p =
    (q.pending_fec_block_list.count == 0)
    || (not (q.current_frame_number == p.nv.frame_index)
        || not (q.multi_fec_current_block_number == current_block p.nv))

-- Both lists are dropped, the loss is reported once, and the queue goes on at frame `next`.
unfoldable pub give_up_frame : VideoQueue → ℕ → VideoQueue
give_up_frame q next =
    let told =
      if q.reported_lost_frame then q else emit q (frame_lost q.current_frame_number false) in
    record told {
      pending_fec_block_list = purge_list_entries q.pending_fec_block_list;
      completed_fec_block_list = purge_list_entries q.completed_fec_block_list;
      reported_lost_frame = true;
      current_frame_number = next;
      multi_fec_current_block_number = 0;
    }

-- The loss of frames between the current one and the packet's.
unfoldable pub report_gap : VideoQueue → RtpPacket → VideoQueue
report_gap q p =
    let frame = p.nv.frame_index in
    if q.current_frame_number == frame
    then q
    else if not (add_u32 q.current_frame_number 1 == frame) || not q.reported_lost_frame
    then emit q (frame_lost (sub_u32 frame 1) false)
    else q

abbrev parity_count : ℕ → ℕ → ℕ
parity_count n percent = (n * percent + 99) / 100

-- The fields of a new block, from its first packet to arrive. `now` is `PltGetMillis()`.
unfoldable pub reset_block : VideoQueue → RtpPacket → ℕ → VideoQueue
reset_block q p now =
    let lowest = diff16 p.sequence_number (fec_index p.nv) in
    let total = data_packets p.nv in
    let parity = parity_count total (percentage p.nv) in
    let first_parity = u16 (lowest + total) in
    record q {
      buffer_first_recv_time_ms = now;
      buffer_lowest_sequence_number = lowest;
      next_contiguous_sequence_number = lowest;
      received_data_packets = 0;
      received_parity_packets = 0;
      received_highest_sequence_number = 0;
      missing_packets = 0;
      use_fast_queue_path = true;
      reported_lost_frame = false;
      buffer_data_packets = total;
      fec_percentage = percentage p.nv;
      buffer_parity_packets = parity;
      buffer_first_parity_sequence_number = first_parity;
      buffer_highest_sequence_number = diff16 (first_parity + parity) 1;
      multi_fec_current_block_number = current_block p.nv;
      multi_fec_last_block_number = last_block p.nv;
    }

-- The start of a block that may be started: what the frame before left is dropped.
unfoldable pub begin_block : VideoQueue → RtpPacket → ℕ → VideoQueue
begin_block q p now =
    let frame = p.nv.frame_index in
    let dropped = record q {
      pending_fec_block_list = purge_list_entries q.pending_fec_block_list;
      completed_fec_block_list =
          if q.current_frame_number == frame
          then q.completed_fec_block_list
          else purge_list_entries q.completed_fec_block_list;
    } in
    let told = report_gap dropped p in
    let moved = record told { current_frame_number = frame } in
    reset_block (emit moved (saw_frame frame)) p now

-- The whole reinitialisation: the queue, and whether the packet may go on.
unfoldable pub start_block : VideoQueue → RtpPacket → ℕ → Bool × VideoQueue
start_block q p now =
    let frame = p.nv.frame_index in
    let waiting = not (q.pending_fec_block_list.count == 0) in
    let told = if waiting then report_final_frame_fec_status q else q in
    let expected =
      if q.current_frame_number == frame then q.multi_fec_current_block_number else 0 in
    if waiting && (not (q.multi_fec_last_block_number == 0) && (q.current_frame_number == frame))
    then (false, give_up_frame told (add_u32 q.current_frame_number 1))
    else if not (current_block p.nv == expected)
    then (false, give_up_frame (report_final_frame_fec_status told) (add_u32 frame 1))
    else (true, begin_block told p now)

-- The counts after a packet was queued.
unfoldable pub count_packet : VideoQueue → ℕ → VideoQueue
count_packet q s =
    let holes =
      if q.pending_fec_block_list.count == 1
      then record q {
        missing_packets = add_u32 q.missing_packets (diff16 s q.buffer_lowest_sequence_number);
        received_highest_sequence_number = s;
      }
      else if is_before16 q.received_highest_sequence_number s
      then record q {
        missing_packets =
            add_u32 q.missing_packets (diff16 s (add_u32 q.received_highest_sequence_number 1));
        received_highest_sequence_number = s;
      }
      else record q { missing_packets = sub_u32 q.missing_packets 1 } in
    if is_before16 s q.buffer_first_parity_sequence_number
    then record holes { received_data_packets = add_u32 q.received_data_packets 1 }
    else record holes { received_parity_packets = add_u32 q.received_parity_packets 1 }

-- The end of a frame, or of a block that is not its last.
unfoldable pub finish_block : VideoQueue → VideoQueue
finish_block q =
    if ltb q.multi_fec_current_block_number q.multi_fec_last_block_number
    then record q {
      multi_fec_current_block_number = (q.multi_fec_current_block_number + 1) % 2 ^ 8;
    }
    else (let r = submit_completed_frame q in
        record r {
          current_frame_number = add_u32 q.current_frame_number 1;
          multi_fec_current_block_number = 0;
        })

-- What follows `reconstructFrame`, by its result.
unfoldable pub after_attempt : Outcome → VideoQueue → VideoQueue
after_attempt complete q = finish_block (stage_complete_fec_block q)
after_attempt _ q = q

unfoldable pub try_deliver : Services → VideoQueue → VideoQueue
try_deliver v q = let (outcome, q') = reconstruct_frame v q in after_attempt outcome q'

-- From the check against the highest sequence number on.
unfoldable pub accept_packet : Services → VideoQueue → RtpPacket → ℕ → AddResult × VideoQueue
accept_packet v q p len =
    let s = p.sequence_number in
    if is_before16 q.buffer_highest_sequence_number s
    then (rejected, q)
    else (let (ok, q') =
          queue_packet q p len (not (is_before16 s q.buffer_first_parity_sequence_number)) false in
        if ok then (queued, try_deliver v (count_packet q' s)) else (rejected, q'))

unfoldable pub add_packet : Services → VideoQueue → RtpPacket → ℕ → ℕ → AddResult × VideoQueue
add_packet v q p len now =
    let p' = fix_up q p in
    if is_stale q p' len
    then (rejected, q)
    else if needs_new_block q p'
    then (let (go_on, q') = start_block q p' now in
        if go_on then accept_packet v q' p' len else (rejected, q'))
    else accept_packet v q p' len

-- `RtpvGetCurrentFrameNumber`
pub get_current_frame_number : VideoQueue → ℕ
get_current_frame_number q = q.current_frame_number
