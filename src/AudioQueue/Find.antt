-- ===== src/AudioQueue/Find.antt =====
-- `getFecBlockForRtpPacket`: the block that a packet belongs to, made if it is not there yet.
use tesla_moonlight_ubuntu.Base.{
  ℕ, zero, suc, ◌+◌, ◌-◌, ◌*◌, ◌/◌, ◌%◌, ◌^◌, true, false, not, ◌&&◌, Option, none, some, List, [],
  ◌∷◌, ◌==◌, ltb, leb, if◌then◌else◌,
}
use tesla_moonlight_ubuntu.Seq.{u16, is_before16}
use tesla_moonlight_ubuntu.AudioQueue.Types.{
  AudioPacket, AudioFecHeader, FecBlock, AudioQueue, Services, base_of,
}
use tesla_moonlight_ubuntu.AudioQueue.Blocks.{allocate_fec_block, new_block}

-- A byte of the receive buffer; the code has checked the length where it reads one.
abbrev byte_at : List ℕ → ℕ → ℕ
byte_at [] i = 0
byte_at (b ∷ bs) zero = b
byte_at (b ∷ bs) (suc i) = byte_at bs i

-- A big-endian word of two bytes at a position, and of four
abbrev word16_at : List ℕ → ℕ → ℕ
word16_at bs i = u16 (256 * byte_at bs i + byte_at bs (i + 1))

abbrev word32_at : List ℕ → ℕ → ℕ
word32_at bs i = (2 ^ 16 * word16_at bs i + word16_at bs (i + 2)) % 2 ^ 32

-- The header behind the RTP header of an FEC packet, in host byte order
unfoldable pub fec_header_of : AudioPacket → AudioFecHeader
fec_header_of p = record {
  fec_shard_index = byte_at p.payload 0 % 2 ^ 8;
  payload_type = byte_at p.payload 1 % 2 ^ 8;
  base_sequence_number = word16_at p.payload 2;
  base_timestamp = word32_at p.payload 4;
  ssrc = word32_at p.payload 8;
}

-- The header that is made for a data packet
unfoldable pub synthesized_header : Services → AudioPacket → AudioFecHeader
synthesized_header v p =
    let s = p.sequence_number in
    record {
      fec_shard_index = 0;
      payload_type = p.packet_type;
      base_sequence_number = s / 4 * 4;
      base_timestamp = (p.timestamp + 2 ^ 32 - s % 4 * v.audio_packet_duration % 2 ^ 32) % 2 ^ 32;
      ssrc = p.ssrc;
    }

-- Whether out-of-sequence packets have come lately
unfoldable pub note_oos : AudioQueue → ℕ → AudioQueue
note_oos q s =
    if not q.synchronizing && is_before16 s q.oldest_rtp_base_sequence_number
    then record q { last_oos_sequence_number = s; received_oos_data = true }
    else if q.received_oos_data
        && is_before16 q.oldest_rtp_base_sequence_number q.last_oos_sequence_number
    then record q { received_oos_data = false }
    else q

-- The first part: the header and the size of the packet's block, `none` if the packet is rejected.
unfoldable pub describe :
    Services → AudioQueue → AudioPacket → ℕ → Option (AudioFecHeader × ℕ) × AudioQueue
describe v q p len =
    let h = fec_header_of p in
    if p.packet_type == 97
    then (if ltb len 12
        then (none, q)
        else (some (synthesized_header v p, len - 12), note_oos q p.sequence_number))
    else if p.packet_type == 127
    then (if ltb len 24
        then (none, q)
        else if leb 2 h.fec_shard_index
        then (none, q)
        else if not (h.base_sequence_number % 4 == 0)
        then (none, record q { incompatible_server = true })
        else (some (record h { fec_shard_index = 0 }, len - 24), q))
    else (none, q)

-- Where a block with this base is, or where a new one goes: before the first block with a later
-- base, or at the tail.
pub data Place : Type 0 where
  existing : ℕ → FecBlock → Place
  insert_at : ℕ → Place

abbrev pub shifted : Place → Place
shifted (existing i b) = existing (suc i) b
shifted (insert_at i) = insert_at (suc i)

unfoldable pub locate : ℕ → List FecBlock → Place
locate base [] = insert_at 0
locate base (b ∷ bs) =
    let rest = shifted (locate base bs) in
    if base_of b == base
    then existing 0 b
    else if is_before16 base (base_of b)
    then insert_at 0
    else rest

unfoldable pub insert_block : ℕ → FecBlock → List FecBlock → List FecBlock
insert_block zero x bs = x ∷ bs
insert_block (suc i) x [] = x ∷ []
insert_block (suc i) x (b ∷ bs) = b ∷ insert_block i x bs

-- The block at a place: an existing one must have the size and not be complete.
unfoldable pub take_place :
    Services → AudioQueue → AudioFecHeader → ℕ → ℕ → Place → Option (ℕ × FecBlock) × AudioQueue
take_place v q h size now (existing i b) =
    if not (b.block_size == size)
    then (none, record q { incompatible_server = true })
    else if b.fully_reassembled
    then (none, q)
    else (some (i, b), q)
take_place v q h size now (insert_at i) =
    let (ok, r) = allocate_fec_block v q size in
    let b = new_block h size now in
    if ok then (some (i, b), record r { blocks = insert_block i b r.blocks }) else (none, r)

-- The part from the synchronization on.
unfoldable pub find_block :
    Services → AudioQueue → AudioFecHeader → ℕ → ℕ → Option (ℕ × FecBlock) × AudioQueue
find_block v q h size now =
    let base = h.base_sequence_number in
    if q.synchronizing && (q.oldest_rtp_base_sequence_number == 0)
    then (
      none,
      record q {
        next_rtp_sequence_number = u16 (base + 4);
        oldest_rtp_base_sequence_number = u16 (base + 4);
      },
    )
    else if is_before16 base q.oldest_rtp_base_sequence_number
    then (none, q)
    else take_place v q h size now (locate base q.blocks)

-- What is left of a rejection, or the search for the block.
unfoldable pub find_described :
    Services → ℕ → Option (AudioFecHeader × ℕ) → AudioQueue → Option (ℕ × FecBlock) × AudioQueue
find_described v now none q = (none, q)
find_described v now (some (h, size)) q = find_block v q h size now

unfoldable pub get_fec_block :
    Services → AudioQueue → AudioPacket → ℕ → ℕ → Option (ℕ × FecBlock) × AudioQueue
get_fec_block v q p len now =
    let (described, r) = describe v q p len in find_described v now described r
