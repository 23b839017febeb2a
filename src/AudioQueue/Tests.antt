-- ===== src/AudioQueue/Tests.antt =====
-- Runs of the audio queue, and its theorems at concrete queues.
use tesla_moonlight_ubuntu.Base.{◌≤◌, ℕ, ◌≡◌, refl, true, false, some, [], ◌∷◌, arith, length}
use tesla_moonlight_ubuntu.Seq.{is_before16}
use tesla_moonlight_ubuntu.Base.{All}
use tesla_moonlight_ubuntu.VideoQueue.Pending.{app_version_at_least}
use tesla_moonlight_ubuntu.AudioQueue.Types.{AudioPacket, AudioQueue, Services, base_of}
use tesla_moonlight_ubuntu.AudioQueue.Served.{is_null, announced_is_served}
use tesla_moonlight_ubuntu.AudioQueue.Cache.{cache_is_bounded}
use tesla_moonlight_ubuntu.AudioQueue.Blocks.{
  cleanup_queue, initialize_queue, validate_fec_block_state, allocate_fec_block,
  free_fec_block_head, new_block, complete_fec_block,
}
use tesla_moonlight_ubuntu.AudioQueue.Find.{
  synthesized_header, note_oos, describe, locate, insert_block, take_place, find_block,
  find_described, get_fec_block,
}
use tesla_moonlight_ubuntu.AudioQueue.Add.{
  packet_ready, handle_now, slot, set_slot, set_block, is_received, queue_has_packet_ready,
  give_up_or_wait, handle_missing_packets, try_complete, take_now, add_data, add_found, add_packet,
}
use tesla_moonlight_ubuntu.AudioQueue.Dequeue.{audio, advance, take_ready, get_queued_packet}
use tesla_moonlight_ubuntu.AudioQueue.Valid.{Numbered}
use tesla_moonlight_ubuntu.AudioQueue.Found.{IsSettled}
use tesla_moonlight_ubuntu.AudioQueue.Leave.{HandsOut}
use tesla_moonlight_ubuntu.AudioQueue.Reach.{Reach, fresh, added, state_checks, handed_out_in_order}

abbrev services : Services
services = record {
  audio_packet_duration = 5;
  size_of_fec_block = 96;
  malloc_ok = λ n. true;
  reconstruct = λ shards size. some (λ i. 9 ∷ 9 ∷ []);
}

abbrev packet : ℕ → AudioPacket
packet s = record {
  header = 0x80;
  packet_type = 97;
  sequence_number = s;
  timestamp = 1000;
  ssrc = 0;
  payload = 1 ∷ 2 ∷ [];
}

abbrev start : AudioQueue
start = initialize_queue 7 1 415

-- The first packet only says where the next block starts.
abbrev synced : AudioQueue
synced = (add_packet services start (packet 2) 14 0).1

-- Packet 5 comes before packet 4.
abbrev early : AudioQueue
early = (add_packet services synced (packet 5) 14 1).1

start-IsSettled : IsSettled start
unfolding initialize_queue
start-IsSettled = λ a b. refl

synced-IsSettled : IsSettled synced
unfolding initialize_queue app_version_at_least add_packet get_fec_block describe synthesized_header
    note_oos find_described find_block add_found is_before16
synced-IsSettled = λ a b. refl

early-IsSettled : IsSettled early
unfolding initialize_queue app_version_at_least add_packet get_fec_block describe synthesized_header
    note_oos find_described find_block add_found is_before16 locate insert_block take_place
    allocate_fec_block new_block add_data set_slot set_block is_received slot try_complete
    complete_fec_block queue_has_packet_ready handle_missing_packets give_up_or_wait
early-IsSettled = λ a b. absurd (omega (arith, b))

early-Reach : Reach services early
early-Reach =
    added (packet 5) 14 1 (omega arith) synced-IsSettled
      (added (packet 2) 14 0 (omega arith) start-IsSettled (fresh 7 1 415))

state_checks_example :
    (validate_fec_block_state early ≡ true)
    × All (λ b. (length b.data_packets ≡ 4) × Numbered (base_of b) b.data_packets) early.blocks
state_checks_example = state_checks services early early-Reach

handed_out_in_order_example : HandsOut early (get_queued_packet services 8 early)
handed_out_in_order_example = handed_out_in_order services early 8 early-Reach

early-compatible : early.incompatible_server ≡ false
unfolding initialize_queue app_version_at_least add_packet get_fec_block describe synthesized_header
    note_oos find_described find_block add_found is_before16 locate insert_block take_place
    allocate_fec_block new_block add_data set_slot set_block is_received slot try_complete
    complete_fec_block queue_has_packet_ready handle_missing_packets give_up_or_wait
early-compatible = refl

-- Packet 4 is handled at once, then packet 5 is handed out of the queue.
abbrev after_four : AudioQueue
after_four = (add_packet services early (packet 4) 14 2).1

four_then_five :
    ((add_packet services early (packet 4) 14 2).0 ≡ handle_now)
    × ((get_queued_packet services 8 after_four).0 ≡ audio (some (packet 5)) 14)
unfolding initialize_queue app_version_at_least add_packet get_fec_block describe synthesized_header
    note_oos find_described find_block add_found is_before16 locate insert_block take_place
    allocate_fec_block new_block add_data set_slot set_block is_received slot try_complete
    complete_fec_block queue_has_packet_ready handle_missing_packets give_up_or_wait take_now
    get_queued_packet take_ready advance free_fec_block_head
four_then_five = (refl, refl)

after_four-Reach : Reach services after_four
after_four-Reach = added (packet 4) 14 2 (omega arith) early-IsSettled early-Reach

after_four-IsSettled : IsSettled after_four
unfolding initialize_queue app_version_at_least add_packet get_fec_block describe synthesized_header
    note_oos find_described find_block add_found is_before16 locate insert_block take_place
    allocate_fec_block new_block add_data set_slot set_block is_received slot try_complete
    complete_fec_block queue_has_packet_ready handle_missing_packets give_up_or_wait take_now
    free_fec_block_head
after_four-IsSettled = λ a b. absurd (omega (arith, b))

after_four-compatible : after_four.incompatible_server ≡ false
unfolding initialize_queue app_version_at_least add_packet get_fec_block describe synthesized_header
    note_oos find_described find_block add_found is_before16 locate insert_block take_place
    allocate_fec_block new_block add_data set_slot set_block is_received slot try_complete
    complete_fec_block queue_has_packet_ready handle_missing_packets give_up_or_wait take_now
    free_fec_block_head
after_four-compatible = refl

-- Packet 7 comes while packet 5 waits.
seven_told : (add_packet services after_four (packet 7) 14 3).0 ≡ packet_ready
unfolding initialize_queue app_version_at_least add_packet get_fec_block describe synthesized_header
    note_oos find_described find_block add_found is_before16 locate insert_block take_place
    allocate_fec_block new_block add_data set_slot set_block is_received slot try_complete
    complete_fec_block queue_has_packet_ready handle_missing_packets give_up_or_wait take_now
    free_fec_block_head
seven_told = refl

announced_is_served_example :
    is_null (get_queued_packet services 8 (add_packet services after_four (packet 7) 14 3).1)
    ≡ false
announced_is_served_example =
    announced_is_served services after_four (packet 7) 14 3 8 after_four-Reach (omega arith)
      after_four-IsSettled after_four-compatible (λ n. refl) seven_told

cache_is_bounded_example :
    (after_four.free_block_count ≡ length after_four.free_blocks)
    × (length after_four.free_blocks ≤ 4)
    × ((cleanup_queue after_four).free_block_count ≡ 0)
cache_is_bounded_example = cache_is_bounded services after_four after_four-Reach

-- A start just before the wrap, with the first block lost: the queue goes on at base number 0 while
-- it still synchronizes, so the next packet makes it start over although it holds a block. The
-- assertions on the list of blocks do not hold any more.
abbrev restarted : AudioQueue
restarted =
    (add_packet services
      (add_packet services (add_packet services start (packet 65530) 14 0).1 (packet 0) 14 1).1
      (packet 1) 14 2).1

restart_at_zero : validate_fec_block_state restarted ≡ false
unfolding initialize_queue app_version_at_least add_packet get_fec_block describe synthesized_header
    note_oos find_described find_block add_found is_before16 locate insert_block take_place
    allocate_fec_block new_block add_data set_slot set_block is_received slot try_complete
    complete_fec_block queue_has_packet_ready handle_missing_packets give_up_or_wait
    validate_fec_block_state
restart_at_zero = refl
