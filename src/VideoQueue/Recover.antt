-- ===== src/VideoQueue/Recover.antt =====
-- `reconstructFrame`: whether the current FEC block has all its data, recovering what is missing
-- by the Reed-Solomon library. The library, the allocator and the stream's configuration are the
-- parameters `Services`. The release build is modelled: assertions are off, and so is the FEC
-- validation mode of debug builds.
use Prim.Native.Nat.{bit_or}
use tesla_moonlight_ubuntu.Base.{
  ℕ, zero, suc, ◌+◌, ◌-◌, ◌*◌, ◌/◌, ◌%◌, ◌^◌, Bool, true, false, not, ◌&&◌, Option, none, some,
  List, [], ◌∷◌, ◌++◌, ◌==◌, ltb, if◌then◌else◌, replicate,
}
use tesla_moonlight_ubuntu.Seq.{u16, diff16}
use tesla_moonlight_ubuntu.VideoQueue.Types.{
  RtpPacket, Entry, seq_of, frame_lost, VideoQueue, emit, add_u32, sub_u32, data_offset,
}
use tesla_moonlight_ubuntu.VideoQueue.Pending.{queue_packet, report_final_frame_fec_status}

-- What the queue takes from outside this file. `reconstruct data parity shards` is
-- `reed_solomon_reconstruct` over the matrix for so many shards: `none` if it returns an error, and
-- otherwise the packet at each index. `arrays_ok`, `matrix_ok` and `buffers_ok` say whether
-- `calloc`, `reed_solomon_new` and the `malloc`s of the missing packets succeed.
pub record Services : Type 0 where
  pub packet_size : ℕ
  pub app_version_major : ℕ
  pub arrays_ok : ℕ → Bool
  pub matrix_ok : ℕ → ℕ → Bool
  pub buffers_ok : ℕ → Bool
  pub reconstruct : ℕ → ℕ → List (Option RtpPacket) → Option (ℕ → RtpPacket)

-- The values that `reconstructFrame` returns: 0, -1, -2, -3 and -4.
pub data Outcome : Type 0 where
  complete incomplete no_arrays no_matrix no_buffers : Outcome

-- `StreamConfig.packetSize + MAX_RTP_HEADER_SIZE`
abbrev pub receive_size : Services → ℕ
receive_size v = v.packet_size + 16

-- The packet as it is handed to the library: its bytes behind `length` are cleared.
abbrev pub padded : Services → Entry → RtpPacket
padded v e =
    let p = e.packet in
    let nv = p.nv in
    record p {
      nv = record nv { payload = nv.payload ++ replicate (receive_size v - e.packet_length) 0 };
    }

-- The index of an entry's packet in the block
abbrev pub shard_index : VideoQueue → Entry → ℕ
shard_index q e = u16 (diff16 (seq_of e) q.buffer_lowest_sequence_number)

-- `packets[i]`, `none` where `marks[i]` stays set; a later entry would replace an earlier one.
unfoldable pub shard_at : Services → VideoQueue → List Entry → ℕ → Option RtpPacket
shard_at v q [] i = none
shard_at v q (e ∷ es) i = elim (shard_at v q es i) [
  | some p ↦ some p
  | none ↦ if shard_index q e == i then some (padded v e) else none
]

-- `packets[i] … packets[i + n - 1]`
unfoldable pub shards_from : Services → VideoQueue → ℕ → ℕ → List (Option RtpPacket)
shards_from v q i zero = []
shards_from v q i (suc n) =
    shard_at v q q.pending_fec_block_list.entries i ∷ shards_from v q (i + 1) n

-- The header fields come from the packet at the head of the list.
abbrev pub head_packet : RtpPacket → List Entry → RtpPacket
head_packet p [] = p
head_packet p (e ∷ es) = e.packet

-- A recovered packet with its headers filled in.
unfoldable pub fill_headers : VideoQueue → ℕ → RtpPacket → RtpPacket
fill_headers q i recovered =
    let head = head_packet recovered q.pending_fec_block_list.entries in
    record {
      sequence_number = u16 (i + q.buffer_lowest_sequence_number);
      header = head.header;
      timestamp = head.timestamp;
      ssrc = head.ssrc;
      nv =
          let nv = recovered.nv in
          record nv {
            frame_index = q.current_frame_number;
            multi_fec_blocks =
                bit_or (q.multi_fec_last_block_number * 4) q.multi_fec_current_block_number
                * 16
                % 2 ^ 8;
          };
    }

-- The four checks before PACKET_RECOVERY_FAILURE: the flags start of frame (4) on the first data
-- packet, end of frame (2) on the last one, picture data (1) between them, and no other flag.
unfoldable pub is_sane : VideoQueue → ℕ → ℕ → Bool
is_sane q i flags =
    let last = sub_u32 q.buffer_data_packets 1 in
    not ((i == 0) && not (flags / 4 % 2 == 1))
    && (not ((i == last) && not (flags / 2 % 2 == 1))
        && (not (ltb 0 i && (ltb i last && not (flags % 2 == 1))) && ltb flags 8))

-- The loop at `cleanup_packets` over the indices `i … i + n - 1`. `ret_ok` is `ret == 0`; a packet
-- that is not sane clears it.
unfoldable pub submit_recovered :
    Services → (ℕ → Bool) → (ℕ → RtpPacket) → ℕ → ℕ → Bool → VideoQueue → Bool × VideoQueue
submit_recovered v missing recovered i zero ret_ok q = (ret_ok, q)
submit_recovered v missing recovered i (suc n) ret_ok q =
    let p = fill_headers q i (recovered i) in
    let sane = is_sane q i p.nv.flags in
    let use_it = missing i && (ret_ok && ltb i q.buffer_data_packets) in
    submit_recovered v missing recovered (i + 1) n (if use_it then sane else ret_ok) (
      if use_it && sane then (queue_packet q p (v.packet_size + data_offset p) false true).1 else q)

abbrev pub total_packets : VideoQueue → ℕ
total_packets q = add_u32 q.buffer_data_packets q.buffer_parity_packets

abbrev is_missing : List (Option RtpPacket) → ℕ → Bool
is_missing [] i = false
is_missing (none ∷ shards) zero = true
is_missing (some p ∷ shards) zero = false
is_missing (s ∷ shards) (suc i) = is_missing shards i

abbrev reported_if_incomplete : VideoQueue → VideoQueue
reported_if_incomplete q =
    if q.buffer_data_packets == q.received_data_packets then q else report_final_frame_fec_status q

-- What follows the call of the library, by its result.
unfoldable pub after_reconstruct :
    Services → VideoQueue → List (Option RtpPacket) → Option (ℕ → RtpPacket) → Outcome × VideoQueue
after_reconstruct v q shards none = (incomplete, reported_if_incomplete q)
after_reconstruct v q shards (some recovered) =
    let (ok, q') =
      submit_recovered v (is_missing shards) recovered 0 (total_packets q) true
        (reported_if_incomplete q) in
    (if ok then complete else incomplete, q')

-- The part from the allocation of the arrays on.
unfoldable pub recover : Services → VideoQueue → Outcome × VideoQueue
recover v q =
    let total = total_packets q in
    let shards = shards_from v q 0 total in
    if not (v.arrays_ok total)
    then (no_arrays, q)
    else if not (v.matrix_ok q.buffer_data_packets q.buffer_parity_packets)
    then (no_matrix, q)
    else if not (v.buffers_ok total)
    then (no_buffers, q)
    else after_reconstruct v q shards
        (v.reconstruct q.buffer_data_packets q.buffer_parity_packets shards)

-- The speculative report of a frame that cannot be completed any more.
unfoldable pub predict_loss : VideoQueue → VideoQueue
predict_loss q =
    if not q.reported_lost_frame && not q.received_oos_data
    then (if ltb (sub_u32 (total_packets q) q.buffer_data_packets) q.missing_packets
        then (let r = emit q (frame_lost q.current_frame_number true) in
            record r { reported_lost_frame = true })
        else q)
    else q

-- The presentation time of the head of the list, which is not empty where the code reads it.
abbrev head_presentation_time : List Entry → ℕ
head_presentation_time [] = 0
head_presentation_time (e ∷ es) = e.presentation_time_ms

-- After a wrong prediction, no more predictions for a while.
unfoldable pub withdraw_prediction : VideoQueue → VideoQueue
withdraw_prediction q =
    if q.reported_lost_frame && not q.received_oos_data
    then record q {
      received_oos_data = true;
      last_oos_frame_presentation_timestamp =
          head_presentation_time q.pending_fec_block_list.entries;
    }
    else q

unfoldable pub reconstruct_frame : Services → VideoQueue → Outcome × VideoQueue
reconstruct_frame v q =
    if ltb q.pending_fec_block_list.count q.buffer_data_packets
    then (incomplete, predict_loss q)
    else if q.received_data_packets == q.buffer_data_packets
    then (complete, withdraw_prediction q)
    else if ltb v.app_version_major 5
    then (incomplete, withdraw_prediction q)
    else recover v (withdraw_prediction q)
