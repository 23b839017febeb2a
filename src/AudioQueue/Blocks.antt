-- ===== src/AudioQueue/Blocks.antt =====
-- The start and the end of the queue, and the blocks: allocation, release, recovery.
use tesla_moonlight_ubuntu.Base.{
  ◌&&◌, ◌||◌, ℕ, ◌+◌, ◌-◌, ◌*◌, ◌%◌, ◌^◌, Bool, true, false, not, Option, none, some, List, [], ◌∷◌,
  ◌++◌, ◌==◌, ltb, leb, if◌then◌else◌, map,
}
use tesla_moonlight_ubuntu.Seq.{u16, is_before16}
use tesla_moonlight_ubuntu.VideoQueue.Pending.{app_version_at_least}
use tesla_moonlight_ubuntu.AudioQueue.Types.{
  AudioPacket, AudioFecHeader, FecBlock, AudioQueue, Services, base_of,
}

-- `RtpaInitializeQueue` for a host of version `major.minor.patch`; the matrix of the Reed-Solomon
-- library is part of `Services`.
unfoldable pub initialize_queue : (major minor patch : ℕ) → AudioQueue
initialize_queue major minor patch = record {
  blocks = [];
  free_blocks = [];
  free_block_count = 0;
  next_rtp_sequence_number = 0;
  oldest_rtp_base_sequence_number = 0;
  last_oos_sequence_number = 0;
  received_oos_data = false;
  synchronizing = true;
  incompatible_server = not (app_version_at_least major minor patch 7 1 415);
}

-- The assertions of `validateFecBlockState` on sequence numbers that are made for any host
-- (`LC_ASSERT`); those on the links of the list are `validate_links` of `Links`. Here: each block
-- after the first lies behind the one before it.
unfoldable pub is_sorted : ℕ → List FecBlock → Bool
is_sorted last [] = true
is_sorted last (b ∷ bs) =
    let rest = is_sorted (base_of b) bs in is_before16 last (base_of b) && rest

unfoldable pub validate_fec_block_state : AudioQueue → Bool
validate_fec_block_state q =
    (not (is_before16 q.next_rtp_sequence_number q.oldest_rtp_base_sequence_number)
      || q.synchronizing)
    && elim q.blocks [
      | [] ↦ true
      | b ∷ bs ↦
          is_before16 q.next_rtp_sequence_number (base_of b + 4)
          && (not (is_before16 (base_of b) q.oldest_rtp_base_sequence_number)
              && is_sorted (base_of b) bs)
    ]

-- `uint16_t freeBlockCount`, one less
abbrev pub dec_u16 : ℕ → ℕ
dec_u16 n = u16 (n + 2 ^ 16 - 1)

-- `RtpaCleanupQueue`: each round of the second loop takes one off the count.
unfoldable pub drain_free : List ℕ → ℕ → ℕ
drain_free [] n = n
drain_free (s ∷ ss) n = drain_free ss (dec_u16 n)

unfoldable pub cleanup_queue : AudioQueue → AudioQueue
cleanup_queue q = record q {
  blocks = [];
  free_blocks = [];
  free_block_count = drain_free q.free_blocks q.free_block_count;
}

-- The bytes of a block with its shards behind it
abbrev slab_size : Services → ℕ → ℕ
slab_size v size = v.size_of_fec_block + 4 * u16 (size + 12) + 2 * size

-- `allocateFecBlock`: whether a block was found or made. A cached block of another size is freed.
unfoldable pub allocate_fec_block : Services → AudioQueue → ℕ → Bool × AudioQueue
allocate_fec_block v q size = elim q.free_blocks [
  | [] ↦ (v.malloc_ok (slab_size v size), q)
  | s ∷ ss ↦
      let taken = record q { free_blocks = ss; free_block_count = dec_u16 q.free_block_count } in
      if s == size then (true, taken) else (v.malloc_ok (slab_size v size), taken)
]

-- `freeFecBlockHead`. It is called with a block at the head only.
unfoldable pub free_fec_block_head : AudioQueue → AudioQueue
free_fec_block_head q = elim q.blocks [
  | [] ↦ q
  | b ∷ bs ↦
      let moved = record q {
        blocks = bs;
        oldest_rtp_base_sequence_number = u16 (base_of b + 4);
        synchronizing = false;
      } in
      if leb 4 q.free_block_count then moved else record moved {
        free_blocks = b.block_size ∷ q.free_blocks;
        free_block_count = u16 (q.free_block_count + 1);
      }
]

-- A new block with every mark set, at `now` = `PltGetMillis()`.
unfoldable pub new_block : AudioFecHeader → ℕ → ℕ → FecBlock
new_block h size now = record {
  data_packets = none ∷ none ∷ none ∷ none ∷ [];
  fec_packets = none ∷ none ∷ [];
  fec_header = h;
  queue_time_ms = now;
  data_shards_received = 0;
  fec_shards_received = 0;
  fully_reassembled = false;
  next_data_packet_index = 0;
  allow_discontinuity = false;
  block_size = size;
}

-- The data behind the RTP header, of a packet that is there
abbrev pub shard_of : Option AudioPacket → Option (List ℕ)
shard_of none = none
shard_of (some p) = some p.payload

-- A recovered packet: the RTP header is made from the FEC header.
abbrev pub recovered_packet : Services → FecBlock → ℕ → List ℕ → AudioPacket
recovered_packet v b i bytes =
    let h = b.fec_header in
    record {
      header = 0x80;
      packet_type = h.payload_type;
      sequence_number = u16 (h.base_sequence_number + i);
      timestamp = (h.base_timestamp + i * v.audio_packet_duration) % 2 ^ 32;
      ssrc = h.ssrc;
      payload = bytes;
    }

-- The loop over the marks of the data packets, from position `i` on.
unfoldable pub fill_from :
    Services → FecBlock → (ℕ → List ℕ) → ℕ → List (Option AudioPacket) → List (Option AudioPacket)
fill_from v b bytes i [] = []
fill_from v b bytes i (some p ∷ ps) = some p ∷ fill_from v b bytes (i + 1) ps
fill_from v b bytes i (none ∷ ps) =
    some (recovered_packet v b i (bytes i)) ∷ fill_from v b bytes (i + 1) ps

-- `completeFecBlock` of a release build, without the FEC validation mode.
unfoldable pub complete_fec_block : Services → FecBlock → Bool × FecBlock
complete_fec_block v b =
    if ltb (b.data_shards_received + b.fec_shards_received) 4
    then (false, b)
    else if b.data_shards_received == 4
    then (true, b)
    else elim (v.reconstruct (map shard_of b.data_packets ++ b.fec_packets) b.block_size) [
      | none ↦ (false, b)
      | some bytes ↦ (true, record b { data_packets = fill_from v b bytes 0 b.data_packets })
    ]
