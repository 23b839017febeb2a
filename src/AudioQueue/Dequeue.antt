-- ===== src/AudioQueue/Dequeue.antt =====
-- `RtpaGetQueuedPacket`: the next packet for the caller, or a placeholder for one that is lost.
use tesla_moonlight_ubuntu.Base.{ℕ, ◌+◌, Option, List, [], ◌∷◌, ◌==◌, if◌then◌else◌}
use tesla_moonlight_ubuntu.Seq.{u16}
use tesla_moonlight_ubuntu.AudioQueue.Types.{AudioPacket, FecBlock, AudioQueue, Services, add_u8}
use tesla_moonlight_ubuntu.AudioQueue.Blocks.{free_fec_block_head}
use tesla_moonlight_ubuntu.AudioQueue.Add.{is_received, slot, queue_has_packet_ready}

-- What is returned: NULL, an empty placeholder with `*length` = 0, or the copy of a packet with its
-- length. `none` in a packet's place is memory whose mark is set.
pub data Dequeued : Type 0 where
  null : Dequeued
  lost : Dequeued
  audio : Option AudioPacket → ℕ → Dequeued

-- The head's index and the queue's next number go on by one; a head that was read whole is freed.
unfoldable pub advance : AudioQueue → FecBlock → List FecBlock → AudioQueue
advance q b bs =
    let b' = record b { next_data_packet_index = add_u8 b.next_data_packet_index 1 } in
    let r = record q {
      blocks = b' ∷ bs;
      next_rtp_sequence_number = u16 (q.next_rtp_sequence_number + 1);
    } in
    if b'.next_data_packet_index == 4 then free_fec_block_head r else r

-- The second part, for the head block that has its next packet.
unfoldable pub take_ready : Services → ℕ → AudioQueue → Dequeued × AudioQueue
take_ready v custom q = elim q.blocks [
  | [] ↦ (null, q)
  | b ∷ bs ↦
      if queue_has_packet_ready q
      then (if v.malloc_ok (custom + 12 + b.block_size)
          then (
            audio (slot b.data_packets b.next_data_packet_index) (u16 (b.block_size + 12)),
            advance q b bs,
          )
          else (null, q))
      else (null, q)
]

-- A head without its mark cleared is passed over with a placeholder; one that was already read
-- whole is freed first.
unfoldable pub get_queued_packet : Services → ℕ → AudioQueue → Dequeued × AudioQueue
get_queued_packet v custom q = elim q.blocks [
  | [] ↦ take_ready v custom q
  | b ∷ bs ↦
      if b.allow_discontinuity
      then (if is_received b b.next_data_packet_index
          then take_ready v custom
              (if b.next_data_packet_index == 4 then free_fec_block_head q else q)
          else if v.malloc_ok custom
          then (lost, advance q b bs)
          else (null, q))
      else take_ready v custom q
]
