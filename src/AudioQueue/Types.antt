-- ===== src/AudioQueue/Types.antt =====
-- The packets, FEC blocks and the queue of RtpAudioQueue.h. A block's data packet or FEC packet is
-- `none` where its mark is set, since the code does not read its memory then. The list of blocks
-- is their sequence, and a pointer to a block is its position; `Links` has the pointers. The
-- cache of free blocks is the sequence of their sizes, since the code clears a block that it takes
-- from there.
use tesla_moonlight_ubuntu.Base.{ℕ, ◌+◌, ◌%◌, ◌^◌, Bool, Option, List}

-- `RTP_PACKET` in host byte order, with the bytes of the receive buffer behind it
pub record AudioPacket : Type 0 where
  pub header : ℕ
  pub packet_type : ℕ
  pub sequence_number : ℕ
  pub timestamp : ℕ
  pub ssrc : ℕ
  pub payload : List ℕ

-- `AUDIO_FEC_HEADER`
pub record AudioFecHeader : Type 0 where
  pub fec_shard_index : ℕ
  pub payload_type : ℕ
  pub base_sequence_number : ℕ
  pub base_timestamp : ℕ
  pub ssrc : ℕ

-- `RTPA_FEC_BLOCK` but its links
pub record FecBlock : Type 0 where
  pub data_packets : List (Option AudioPacket)
  pub fec_packets : List (Option (List ℕ))
  pub fec_header : AudioFecHeader
  pub queue_time_ms : ℕ
  pub data_shards_received : ℕ
  pub fec_shards_received : ℕ
  pub fully_reassembled : Bool
  pub next_data_packet_index : ℕ
  pub allow_discontinuity : Bool
  pub block_size : ℕ

-- `RTP_AUDIO_QUEUE`
pub record AudioQueue : Type 0 where
  pub blocks : List FecBlock
  pub free_blocks : List ℕ
  pub free_block_count : ℕ
  pub next_rtp_sequence_number : ℕ
  pub oldest_rtp_base_sequence_number : ℕ
  pub last_oos_sequence_number : ℕ
  pub received_oos_data : Bool
  pub synchronizing : Bool
  pub incompatible_server : Bool

-- What the queue takes from outside this file: `AudioPacketDuration`, `sizeof(RTPA_FEC_BLOCK)`,
-- which depends on the target, whether `malloc` of a number
-- of bytes succeeds, and `reed_solomon_reconstruct` over the data and FEC packets of a block, which
-- is `none` if it returns an error and otherwise the data at each position.
pub record Services : Type 0 where
  pub audio_packet_duration : ℕ
  pub size_of_fec_block : ℕ
  pub malloc_ok : ℕ → Bool
  pub reconstruct : List (Option (List ℕ)) → ℕ → Option (ℕ → List ℕ)

abbrev pub base_of : FecBlock → ℕ
base_of b = let h = b.fec_header in h.base_sequence_number

-- `uint8_t` sums
abbrev pub add_u8 : ℕ → ℕ → ℕ
add_u8 a b = (a + b) % 2 ^ 8
