-- ===== src/VideoQueue/Pending.antt =====
-- The lists, the FEC status report, and `queuePacket`.
use tesla_moonlight_ubuntu.Base.{
  ℕ, ◌+◌, ◌/◌, ◌%◌, ◌^◌, Bool, true, false, ◌&&◌, ◌||◌, Option, none, some, List, [], ◌∷◌, ◌++◌,
  ◌==◌, ltb, leb, if◌then◌else◌,
}
use tesla_moonlight_ubuntu.Seq.{u16, is_before16}
use tesla_moonlight_ubuntu.ByteBuffer.{bswap}
use tesla_moonlight_ubuntu.VideoQueue.Types.{
  RtpPacket, Entry, seq_of, QueueList, fec_status, VideoQueue, emit, add_u32,
}

abbrev pub empty_list : QueueList
empty_list = record { entries = []; count = 0 }

-- `purgeListEntries`
abbrev pub purge_list_entries : QueueList → QueueList
purge_list_entries l = empty_list

-- `insertEntryIntoList`: at the tail
unfoldable pub insert_entry_into_list : QueueList → Entry → QueueList
insert_entry_into_list l e = record { entries = l.entries ++ (e ∷ []); count = add_u32 l.count 1 }

-- `APP_VERSION_AT_LEAST(a, b, c)` of the first three numbers of the host's version
unfoldable pub app_version_at_least : (major minor patch : ℕ) → (a b c : ℕ) → Bool
app_version_at_least major minor patch a b c =
    ltb a major
    || (((major == a) && ltb b minor) || ((major == a) && ((minor == b) && leb c patch)))

-- `RtpvInitializeQueue` for a host of version `major.minor.patch`
unfoldable pub initialize_queue : (major minor patch : ℕ) → VideoQueue
unfolding app_version_at_least
initialize_queue major minor patch = record {
  pending_fec_block_list = empty_list;
  completed_fec_block_list = empty_list;
  buffer_first_recv_time_ms = 0;
  buffer_lowest_sequence_number = 0;
  buffer_highest_sequence_number = 0;
  buffer_first_parity_sequence_number = 0;
  buffer_data_packets = 0;
  buffer_parity_packets = 0;
  received_data_packets = 0;
  received_parity_packets = 0;
  received_highest_sequence_number = 0;
  fec_percentage = 0;
  next_contiguous_sequence_number = 0;
  missing_packets = 0;
  use_fast_queue_path = false;
  reported_lost_frame = false;
  current_frame_number = 1;
  multi_fec_capable = app_version_at_least major minor patch 7 1 431;
  multi_fec_current_block_number = 0;
  multi_fec_last_block_number = 0;
  last_oos_frame_presentation_timestamp = 0;
  received_oos_data = false;
  events = [];
}

-- `RtpvCleanupQueue`
unfoldable pub cleanup_queue : VideoQueue → VideoQueue
cleanup_queue q = record q {
  pending_fec_block_list = purge_list_entries q.pending_fec_block_list;
  completed_fec_block_list = purge_list_entries q.completed_fec_block_list;
}

-- `BE16` and `BE32` of a `uint32_t`
abbrev be16 : ℕ → ℕ
be16 x = bswap 2 (u16 x)

abbrev be32 : ℕ → ℕ
be32 x = bswap 4 x

unfoldable pub report_final_frame_fec_status : VideoQueue → VideoQueue
report_final_frame_fec_status q = emit q (
    fec_status (record {
      frame_index = be32 q.current_frame_number;
      highest_received_sequence_number = be16 q.received_highest_sequence_number;
      next_contiguous_sequence_number = be16 q.next_contiguous_sequence_number;
      missing_packets_before_highest_received = be16 q.missing_packets;
      total_data_packets = be16 q.buffer_data_packets;
      total_parity_packets = be16 q.buffer_parity_packets;
      received_data_packets = be16 q.received_data_packets;
      received_parity_packets = be16 q.received_parity_packets;
      fec_percentage = q.fec_percentage % 2 ^ 8;
      multi_fec_block_index = q.multi_fec_current_block_number % 2 ^ 8;
      multi_fec_block_count = (q.multi_fec_last_block_number + 1) % 2 ^ 8;
    }))

-- The loop for duplicates: `none` if the number is there, else whether a later one is.
unfoldable pub check_duplicates : ℕ → Bool → List Entry → Option Bool
check_duplicates s out_of_sequence [] = some out_of_sequence
check_duplicates s out_of_sequence (e ∷ es) =
    if s == seq_of e
    then none
    else check_duplicates s (if is_before16 s (seq_of e) then true else out_of_sequence) es

-- The fast path and the slow path in one: the queue with its path fields updated and whether the
-- packet is out of sequence, or `none` for a duplicate.
unfoldable pub choose_path : VideoQueue → ℕ → Option (VideoQueue × Bool)
choose_path q s =
    if q.use_fast_queue_path && (s == q.next_contiguous_sequence_number)
    then some (record q { next_contiguous_sequence_number = u16 (s + 1) }, false)
    else elim (check_duplicates s false q.pending_fec_block_list.entries) [
      | none ↦ none
      | some out_of_sequence ↦ some (record q { use_fast_queue_path = false }, out_of_sequence)
    ]

-- `SPECULATIVE_RFI_COOLDOWN_PERIOD_MS` after the last out of order frame
abbrev cooled_down : VideoQueue → ℕ → Bool
cooled_down q t = ltb (add_u32 q.last_oos_frame_presentation_timestamp 300000) t

unfoldable pub note_order : VideoQueue → ℕ → Bool → VideoQueue
note_order q t out_of_sequence =
    if out_of_sequence
    then record q { last_oos_frame_presentation_timestamp = t; received_oos_data = true }
    else if q.received_oos_data && cooled_down q t
    then record q { received_oos_data = false }
    else q

-- `PTS_DIVISOR` is 90. The receive time is not set before the entry is staged.
abbrev pub new_entry : RtpPacket → ℕ → Bool → Entry
new_entry p len parity = record {
  packet = p;
  receive_time_ms = 0;
  presentation_time_ms = p.timestamp / 90;
  packet_length = len;
  is_parity = parity;
}

abbrev pub append_entry : VideoQueue → Entry → VideoQueue
append_entry q e = record q {
  pending_fec_block_list = insert_entry_into_list q.pending_fec_block_list e;
}

unfoldable pub queue_packet : VideoQueue → RtpPacket → ℕ → Bool → Bool → Bool × VideoQueue
queue_packet q p len parity is_fec_recovery = elim (choose_path q p.sequence_number) [
  | none ↦ (false, q)
  | some (q', out_of_sequence) ↦ (
    true,
    append_entry (if is_fec_recovery then q' else note_order q' (p.timestamp / 90) out_of_sequence)
        (new_entry p len parity),
  )
]
