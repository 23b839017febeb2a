-- ===== src/VideoQueue/Tests.antt =====
-- Runs of the video queue, and its theorems at concrete queues.
use tesla_moonlight_ubuntu.Base.{
  ℕ, ◌+◌, ◌*◌, ◌^◌, ◌<◌, ◌≤◌, ◌≡◌, refl, true, false, none, [], ◌∷◌, length, arith, All,
}
use tesla_moonlight_ubuntu.Seq.{is_before16}
use tesla_moonlight_ubuntu.VideoQueue.Types.{RtpPacket, saw_frame, submitted, VideoQueue}
use tesla_moonlight_ubuntu.VideoQueue.Pending.{
  new_entry, initialize_queue, insert_entry_into_list, app_version_at_least, queue_packet,
  choose_path, check_duplicates, note_order,
}
use tesla_moonlight_ubuntu.VideoQueue.Recover.{
  Services, reconstruct_frame, predict_loss, withdraw_prediction, shard_index, total_packets,
}
use tesla_moonlight_ubuntu.VideoQueue.Stage.{
  stage_complete_fec_block, stage_loop, find_next, submit_completed_frame, submit_entries,
}
use tesla_moonlight_ubuntu.VideoQueue.Add.{
  add_packet, fix_up, is_stale, start_block, begin_block, reset_block, report_gap, accept_packet,
  count_packet, try_deliver, after_attempt, finish_block,
}
use tesla_moonlight_ubuntu.VideoQueue.Window.{Distinct}
use tesla_moonlight_ubuntu.VideoQueue.Complete.{IsWhole, IsDelivered, stage_complete_fec_block_lem}
use tesla_moonlight_ubuntu.VideoQueue.Reach.{fresh, added, pending_in_bounds}

-- A packet of frame 1: its number, its index and the block's data packets go into `fecInfo`.
abbrev packet : ℕ → ℕ → ℕ → RtpPacket
packet s index flags = record {
  header = 0x90;
  sequence_number = s;
  timestamp = 900;
  ssrc = 5;
  nv = record {
    stream_packet_index = 0;
    frame_index = 1;
    flags = flags;
    multi_fec_flags = 0x10;
    multi_fec_blocks = 0;
    fec_info = 2 * 2 ^ 22 + index * 2 ^ 12 + 50 * 2 ^ 4;
    payload = 1 ∷ 2 ∷ [];
  };
}

-- A block of two data packets, 65535 and 0, that came in the wrong order with a parity packet
abbrev whole : VideoQueue
whole = record (initialize_queue 7 1 431) {
  pending_fec_block_list = record {
    entries =
        new_entry (packet 0 1 3) 34 false
        ∷ new_entry (packet 1 2 0) 34 true
        ∷ new_entry (packet 65535 0 5) 34 false
        ∷ [];
    count = 3;
  };
  buffer_lowest_sequence_number = 65535;
  buffer_data_packets = 2;
  buffer_parity_packets = 1;
}

abbrev services : Services
services = record {
  packet_size = 64;
  app_version_major = 7;
  arrays_ok = λ n. true;
  matrix_ok = λ d p. true;
  buffers_ok = λ n. true;
  reconstruct = λ d p shards. none;
}

whole-IsWhole : IsWhole whole 3
unfolding initialize_queue
whole-IsWhole = record {
  base_word = omega arith;
  small = omega arith;
  members = (
    record { word = omega arith; inside = omega arith; kind = refl },
    (
      record { word = omega arith; inside = omega arith; kind = refl },
      (record { word = omega arith; inside = omega arith; kind = refl }, tt),
    ),
  );
  distinct = (refl, (refl, (refl, tt)));
  every = refl;
  count = refl;
  few = omega arith;
}

stage_complete_fec_block_lem_example : IsDelivered whole (stage_complete_fec_block whole)
stage_complete_fec_block_lem_example = stage_complete_fec_block_lem whole 3 whole-IsWhole

abbrev start : VideoQueue
start = initialize_queue 7 1 431

abbrev after_one : VideoQueue
after_one = (add_packet services start (packet 65535 0 5) 34 7).1

pending_in_bounds_example :
    All
      (λ e. shard_index after_one e < total_packets after_one)
      after_one.pending_fec_block_list.entries
    × Distinct after_one.pending_fec_block_list.entries
    × (after_one.pending_fec_block_list.count ≡ length after_one.pending_fec_block_list.entries)
    × (length after_one.pending_fec_block_list.entries ≤ total_packets after_one)
pending_in_bounds_example =
    pending_in_bounds services after_one
      (added (packet 65535 0 5) 34 7 (omega arith) (fresh 7 1 431))

abbrev after_two : VideoQueue
after_two =
    (add_packet services (add_packet services start (packet 0 1 3) 34 7).1 (packet 65535 0 5) 34
      9).1

-- Two data packets of a frame, the second one first, are handed over in order.
two_packets :
    (after_two.current_frame_number ≡ 2)
    × (after_two.events
        ≡ saw_frame 1
          ∷ submitted (record (new_entry (packet 65535 0 5) 34 false) { receive_time_ms = 7 })
          ∷ submitted (record (new_entry (packet 0 1 3) 34 false) { receive_time_ms = 7 })
          ∷ [])
unfolding add_packet fix_up is_stale start_block begin_block reset_block report_gap is_before16
    initialize_queue app_version_at_least accept_packet queue_packet choose_path check_duplicates
    note_order insert_entry_into_list count_packet try_deliver reconstruct_frame predict_loss
    withdraw_prediction after_attempt finish_block stage_complete_fec_block stage_loop find_next
    submit_completed_frame submit_entries
two_packets = (refl, refl)
