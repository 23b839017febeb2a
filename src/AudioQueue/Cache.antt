-- ===== src/AudioQueue/Cache.antt =====
-- The cache of free blocks of the audio queue stays within its limit.
use tesla_moonlight_ubuntu.Base.{
  ℕ, ◌+◌, ◌-◌, ◌^◌, ◌≤◌, ◌≡◌, refl, true, Option, none, some, List, [], ◌∷◌, arith, if◌then◌else◌,
  ◌==◌, length, take, drop, holds_if,
}
use tesla_moonlight_ubuntu.Seq.{u16}
use tesla_moonlight_ubuntu.AudioQueue.Types.{
  add_u8, AudioPacket, AudioFecHeader, FecBlock, AudioQueue, Services, base_of,
}
use tesla_moonlight_ubuntu.AudioQueue.Blocks.{
  complete_fec_block, dec_u16, drain_free, cleanup_queue, initialize_queue, allocate_fec_block,
  free_fec_block_head,
}
use tesla_moonlight_ubuntu.AudioQueue.Find.{
  fec_header_of, locate, Place, existing, insert_at, note_oos, describe, take_place, find_block,
  find_described, get_fec_block,
}
use tesla_moonlight_ubuntu.AudioQueue.Add.{
  AddResult, handle_now, nothing, set_slot, is_received, stored, set_block, give_up_or_wait,
  handle_missing_packets, try_complete, take_now, add_data, add_fec, add_found, add_packet,
}
use tesla_moonlight_ubuntu.AudioQueue.Dequeue.{advance, take_ready, get_queued_packet}
use tesla_moonlight_ubuntu.AudioQueue.Reach.{Reach, fresh, added, taken}

-- `freeBlockCount` is the length of the cache, which is at most `RTPA_CACHED_FEC_BLOCK_LIMIT`.
abbrev pub IsCached : AudioQueue → Type 0
IsCached q = (q.free_block_count ≡ length q.free_blocks) × (length q.free_blocks ≤ 4)

give_up-IsCached :
    (v : Services) (now : ℕ) (q : AudioQueue) (b : FecBlock) (bs : List FecBlock)
    → IsCached q
    → IsCached (give_up_or_wait v now q b bs)
unfolding give_up_or_wait
give_up-IsCached v now q b [] c = c
give_up-IsCached v now q b (x ∷ xs) c = ground arith

missing_blocks :
    (v : Services) (now : ℕ) (q : AudioQueue) (bs : List FecBlock)
    → IsCached q
    → IsCached (handle_missing_packets v now (record q { blocks = bs }))
unfolding handle_missing_packets
missing_blocks v now q [] c = c
missing_blocks v now q (b ∷ bs) c =
    let waits = give_up-IsCached v now (record q { blocks = b ∷ bs }) b bs c in ground arith

take_place-IsCached :
    (v : Services) (q : AudioQueue) (h : AudioFecHeader) (size now : ℕ) (p : Place)
    → IsCached q
    → IsCached (take_place v q h size now p).1
unfolding take_place allocate_fec_block
take_place-IsCached v q h size now (existing i b) c = ground arith
take_place-IsCached v q h size now (insert_at i) c = ground arith

free-IsCached : (q : AudioQueue) → IsCached q → IsCached (free_fec_block_head q)
unfolding free_fec_block_head
free-IsCached q c = ground arith

any_header-IsCached :
    (v : Services) (q : AudioQueue) (now : ℕ) (d : Option (AudioFecHeader × ℕ))
    → IsCached q
    → IsCached (find_described v now d q).1
unfolding find_described find_block
any_header-IsCached v q now none c = c
any_header-IsCached v q now (some (h, size)) c =
    let found = take_place-IsCached v q h size now (locate h.base_sequence_number q.blocks) c in
    ground arith

found-IsCached :
    (v : Services) (q : AudioQueue) (p : AudioPacket) (len now : ℕ)
    → IsCached q
    → IsCached (get_fec_block v q p len now).1
unfolding get_fec_block describe note_oos
found-IsCached v q p len now c =
    any_header-IsCached v (describe v q p len).1 now (describe v q p len).0 (ground arith)

take_now-IsCached :
    (q : AudioQueue) (i : ℕ) (b : FecBlock) (s : ℕ) → IsCached q → IsCached (take_now q i b s)
unfolding take_now
take_now-IsCached q i b s c =
    let freed =
      free-IsCached
        (record q {
          next_rtp_sequence_number = u16 (s + 1);
          blocks =
              set_block i (record b { next_data_packet_index = add_u8 b.next_data_packet_index 1 })
                q.blocks;
        })
        c in
    ground arith

try_complete-IsCached :
    (v : Services) (now : ℕ) (q : AudioQueue) (i : ℕ) (b : FecBlock)
    → IsCached q
    → IsCached (try_complete v now q i b).1
unfolding try_complete
try_complete-IsCached v now q i b c =
    let tried = complete_fec_block v b in
    let b' = if tried.0 then record tried.1 { fully_reassembled = true } else tried.1 in
    let missed = missing_blocks v now q (set_block i b' q.blocks) c in ground arith

-- The call leaves the cache as it should be.
abbrev Keeps : AddResult × AudioQueue → Type 0
Keeps x = IsCached x.1

add_data-Keeps :
    (v : Services) (now : ℕ) (q : AudioQueue) (p : AudioPacket) (len i : ℕ) (b : FecBlock)
    → IsCached q
    → Keeps (add_data v now q p len i b)
unfolding add_data
add_data-Keeps v now q p len i b c =
    let s = p.sequence_number in
    let pos = u16 (s + 2 ^ 16 - base_of b) in
    let b' = record b {
      data_packets = set_slot b.data_packets pos (stored p len);
      data_shards_received = add_u8 b.data_shards_received 1;
    } in
    holds_if Keeps (is_received b pos) (nothing, q)
      (if s == q.next_rtp_sequence_number
        then (handle_now, take_now q i b' s)
        else try_complete v now q i b')
      (λ e. c)
      (λ e.
        holds_if Keeps (s == q.next_rtp_sequence_number) (handle_now, take_now q i b' s)
          (try_complete v now q i b') (λ z. take_now-IsCached q i b' s c)
          (λ z. try_complete-IsCached v now q i b' c))

add_fec-Keeps :
    (v : Services) (now : ℕ) (q : AudioQueue) (p : AudioPacket) (len i : ℕ) (b : FecBlock)
    → IsCached q
    → Keeps (add_fec v now q p len i b)
unfolding add_fec
add_fec-Keeps v now q p len i b c =
    let h = fec_header_of p in
    let b' = record b {
      fec_packets = set_slot b.fec_packets h.fec_shard_index (take (len - 24) (drop 12 p.payload));
      fec_shards_received = add_u8 b.fec_shards_received 1;
    } in
    holds_if Keeps (is_received b (4 + h.fec_shard_index)) (nothing, q) (try_complete v now q i b')
      (λ e. c) (λ e. try_complete-IsCached v now q i b' c)

add_found-Keeps :
    (v : Services) (now : ℕ) (p : AudioPacket) (len : ℕ) (found : Option (ℕ × FecBlock))
    (q : AudioQueue)
    → IsCached q
    → Keeps (add_found v now p len found q)
unfolding add_found
add_found-Keeps v now p len none q c = c
add_found-Keeps v now p len (some (i, b)) q c =
    let data_kept = add_data-Keeps v now q p len i b c in
    let fec_kept = add_fec-Keeps v now q p len i b c in ground arith

add_packet-Keeps :
    (v : Services) (q : AudioQueue) (p : AudioPacket) (len now : ℕ)
    → IsCached q
    → Keeps (add_packet v q p len now)
unfolding add_packet
add_packet-Keeps v q p len now c =
    let found = get_fec_block v q p len now in
    let kept = add_found-Keeps v now p len found.0 found.1 (found-IsCached v q p len now c) in
    ground arith

advance-IsCached :
    (q : AudioQueue) (b : FecBlock) (bs : List FecBlock) → IsCached q → IsCached (advance q b bs)
unfolding advance free_fec_block_head
advance-IsCached q b bs c = ground arith

take_blocks :
    (v : Services) (custom : ℕ) (q : AudioQueue) (bs : List FecBlock)
    → IsCached q
    → IsCached (take_ready v custom (record q { blocks = bs })).1
unfolding take_ready
take_blocks v custom q [] c = c
take_blocks v custom q (b ∷ bs) c =
    let moved = advance-IsCached (record q { blocks = b ∷ bs }) b bs c in ground arith

get_blocks :
    (v : Services) (custom : ℕ) (q : AudioQueue) (bs : List FecBlock)
    → IsCached q
    → IsCached (get_queued_packet v custom (record q { blocks = bs })).1
unfolding get_queued_packet
get_blocks v custom q [] c = take_blocks v custom q [] c
get_blocks v custom q (b ∷ bs) c =
    let r = record q { blocks = b ∷ bs } in
    let moved = advance-IsCached r b bs c in
    let f = free_fec_block_head r in
    let after_free = take_blocks v custom f f.blocks (free-IsCached r c) in
    let direct = take_blocks v custom q (b ∷ bs) c in ground arith

Reach-IsCached : (v : Services) {q : AudioQueue} → Reach v q → IsCached q
unfolding initialize_queue
Reach-IsCached v (fresh major minor patch) = (refl, omega arith)
Reach-IsCached v (added {q} p len now w s r) = add_packet-Keeps v q p len now (Reach-IsCached v r)
Reach-IsCached v (taken {q} custom r) = get_blocks v custom q q.blocks (Reach-IsCached v r)

drained : (ss : List ℕ) (n : ℕ) → n ≡ length ss → n ≤ 4 → drain_free ss n ≡ 0
unfolding drain_free
drained [] n e h = e
drained (s ∷ ss) n e h = drained ss (dec_u16 n) (omega arith) (omega arith)

-- For a queue that comes from a fresh one by packets with 16-bit numbers and by requests of the
-- caller (no packet being added while blocks are held, the queue still synchronizes, and its oldest
-- base number is 0): the count of free blocks is the length of
-- the cache, which holds at most four, and `RtpaCleanupQueue` counts it down to exactly 0.
pub cache_is_bounded :
    (v : Services) (q : AudioQueue)
    → Reach v q
    → (q.free_block_count ≡ length q.free_blocks)
      × (length q.free_blocks ≤ 4)
      × ((cleanup_queue q).free_block_count ≡ 0)
unfolding cleanup_queue
cache_is_bounded v q r =
    let c = Reach-IsCached v r in
    (c.0, c.1, drained q.free_blocks q.free_block_count c.0 (omega arith))
