-- ===== src/AudioQueue/Add.antt =====
-- `RtpaAddPacket`: one received packet.
use tesla_moonlight_ubuntu.Base.{
  ℕ, zero, suc, ◌+◌, ◌-◌, ◌*◌, ◌%◌, ◌^◌, Bool, true, false, not, ◌&&◌, ◌||◌, Option, none, some,
  List, [], ◌∷◌, ◌==◌, ltb, if◌then◌else◌, take, drop,
}
use tesla_moonlight_ubuntu.Seq.{u16, is_before16}
use tesla_moonlight_ubuntu.AudioQueue.Types.{
  AudioPacket, FecBlock, AudioQueue, Services, base_of, add_u8,
}
use tesla_moonlight_ubuntu.AudioQueue.Blocks.{complete_fec_block, free_fec_block_head}
use tesla_moonlight_ubuntu.AudioQueue.Find.{fec_header_of, get_fec_block}

-- `RTPQ_RET_HANDLE_NOW`, `RTPQ_RET_PACKET_READY` and 0
pub data AddResult : Type 0 where
  handle_now packet_ready nothing : AddResult

-- An entry of a list of packets at a position, `none` if its mark is set.
unfoldable pub slot {ℓ} : {A : Type ℓ} → List (Option A) → ℕ → Option A
slot [] i = none
slot (x ∷ xs) zero = x
slot (x ∷ xs) (suc i) = slot xs i

unfoldable pub set_slot {ℓ} : {A : Type ℓ} → List (Option A) → ℕ → A → List (Option A)
set_slot [] i a = []
set_slot (x ∷ xs) zero a = some a ∷ xs
set_slot (x ∷ xs) (suc i) a = x ∷ set_slot xs i a

unfoldable pub set_block : ℕ → FecBlock → List FecBlock → List FecBlock
set_block i x [] = []
set_block zero x (b ∷ bs) = x ∷ bs
set_block (suc i) x (b ∷ bs) = b ∷ set_block i x bs

abbrev is_there {ℓ} : {A : Type ℓ} → Option A → Bool
is_there none = false
is_there (some a) = true

-- `marks[i] == 0`; the marks of the FEC packets lie behind those of the data packets.
unfoldable pub is_received : FecBlock → ℕ → Bool
is_received b i =
    if ltb i 4 then is_there (slot b.data_packets i) else is_there (slot b.fec_packets (i - 4))

abbrev pub head_ready : ℕ → FecBlock → Bool
head_ready next b =
    let i = b.next_data_packet_index in
    (is_received b i && (base_of b + i == next)) || b.allow_discontinuity

unfoldable pub queue_has_packet_ready : AudioQueue → Bool
queue_has_packet_ready q = elim q.blocks [
  | [] ↦ false
  | b ∷ bs ↦ head_ready q.next_rtp_sequence_number b
]

-- `RTPQ_OOS_WAIT_TIME_MS` after the time of a block of four packets
abbrev pub waited_long : Services → ℕ → ℕ → Bool
waited_long v now since =
    ltb ((v.audio_packet_duration * 4 % 2 ^ 32 + 10) % 2 ^ 32) ((now + 2 ^ 64 - since) % 2 ^ 64)

abbrev pub give_up : FecBlock → FecBlock
give_up b = record b { allow_discontinuity = true }

-- The wait for the head block is over only if there is a second block.
unfoldable pub give_up_or_wait : Services → ℕ → AudioQueue → FecBlock → List FecBlock → AudioQueue
give_up_or_wait v now q b [] = q
give_up_or_wait v now q b (c ∷ cs) =
    if not q.received_oos_data || waited_long v now b.queue_time_ms
    then record q { blocks = give_up b ∷ c ∷ cs }
    else q

unfoldable pub handle_missing_packets : Services → ℕ → AudioQueue → AudioQueue
handle_missing_packets v now q = elim q.blocks [
  | [] ↦ q
  | b ∷ bs ↦
      if is_before16 q.next_rtp_sequence_number (base_of b)
      then record q {
        next_rtp_sequence_number = base_of b;
        oldest_rtp_base_sequence_number = base_of b;
      }
      else give_up_or_wait v now q b bs
]

-- The packet as it is copied into the block: `length` bytes of the receive buffer.
abbrev pub stored : AudioPacket → ℕ → AudioPacket
stored p len = record p { payload = take (len - 12) p.payload }

-- The end: complete the block, or see whether to go on without it.
unfoldable pub try_complete : Services → ℕ → AudioQueue → ℕ → FecBlock → AddResult × AudioQueue
try_complete v now q i b =
    let (done, b') = complete_fec_block v b in
    let b'' = if done then record b' { fully_reassembled = true } else b' in
    let r = record q { blocks = set_block i b'' q.blocks } in
    let r' = if queue_has_packet_ready r then r else handle_missing_packets v now r in
    (if queue_has_packet_ready r' then packet_ready else nothing, r')

-- The next packet in order is for the caller to use at once.
unfoldable pub take_now : AudioQueue → ℕ → FecBlock → ℕ → AudioQueue
take_now q i b s =
    let next = u16 (s + 1) in
    let r = record q {
      next_rtp_sequence_number = next;
      blocks =
          set_block i (record b { next_data_packet_index = add_u8 b.next_data_packet_index 1 })
            q.blocks;
    } in
    if next == u16 (base_of b + 4) then free_fec_block_head r else r

unfoldable pub add_data :
    Services → ℕ → AudioQueue → AudioPacket → ℕ → ℕ → FecBlock → AddResult × AudioQueue
add_data v now q p len i b =
    let s = p.sequence_number in
    let pos = u16 (s + 2 ^ 16 - base_of b) in
    let b' = record b {
      data_packets = set_slot b.data_packets pos (stored p len);
      data_shards_received = add_u8 b.data_shards_received 1;
    } in
    if is_received b pos
    then (nothing, q)
    else if s == q.next_rtp_sequence_number
    then (handle_now, take_now q i b' s)
    else try_complete v now q i b'

unfoldable pub add_fec :
    Services → ℕ → AudioQueue → AudioPacket → ℕ → ℕ → FecBlock → AddResult × AudioQueue
add_fec v now q p len i b =
    let h = fec_header_of p in
    let b' = record b {
      fec_packets = set_slot b.fec_packets h.fec_shard_index (take (len - 24) (drop 12 p.payload));
      fec_shards_received = add_u8 b.fec_shards_received 1;
    } in
    if is_received b (4 + h.fec_shard_index) then (nothing, q) else try_complete v now q i b'

-- The packet goes into the block that was found for it.
unfoldable pub add_found :
    Services → ℕ → AudioPacket → ℕ → Option (ℕ × FecBlock) → AudioQueue → AddResult × AudioQueue
add_found v now p len none q = (nothing, q)
add_found v now p len (some (i, b)) q =
    if p.packet_type == 97
    then add_data v now q p len i b
    else if p.packet_type == 127
    then add_fec v now q p len i b
    else (nothing, q)

unfoldable pub add_packet : Services → AudioQueue → AudioPacket → ℕ → ℕ → AddResult × AudioQueue
add_packet v q p len now =
    let (found, r) = get_fec_block v q p len now in
    if q.incompatible_server
    then (if p.packet_type == 97 then handle_now else nothing, q)
    else add_found v now p len found r
