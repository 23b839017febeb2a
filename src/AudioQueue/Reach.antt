-- ===== src/AudioQueue/Reach.antt =====
-- The audio queues that come from a fresh one by packets and by requests of the caller, the checks
-- of `validateFecBlockState` on their sequence numbers, and the order of what they hand out.
use tesla_moonlight_ubuntu.Base.{ℕ, ◌+◌, ◌^◌, ◌<◌, ◌≡◌, refl, true, List, [], ◌∷◌, arith, length}
use tesla_moonlight_ubuntu.Seq.{diff16, is_before16}
use tesla_moonlight_ubuntu.AudioQueue.Types.{AudioPacket, FecBlock, AudioQueue, Services, base_of}
use tesla_moonlight_ubuntu.Base.{All}
use tesla_moonlight_ubuntu.AudioQueue.Blocks.{initialize_queue, is_sorted, validate_fec_block_state}
use tesla_moonlight_ubuntu.AudioQueue.Add.{add_packet}
use tesla_moonlight_ubuntu.AudioQueue.Dequeue.{get_queued_packet}
use tesla_moonlight_ubuntu.AudioQueue.Valid.{Numbered, base_number, dist, Blocks, IsValid}
use tesla_moonlight_ubuntu.AudioQueue.Found.{IsSettled}
use tesla_moonlight_ubuntu.AudioQueue.Arrive.{add_packet-Goes}
use tesla_moonlight_ubuntu.AudioQueue.Leave.{HandsOut, get_queued_packet-Leaves}

-- The histories of a queue: packets with 16-bit numbers, added by `RtpaAddPacket`, and calls of
-- `RtpaGetQueuedPacket`, in any order. No packet is added while the queue holds blocks and still
-- waits for its first block at base number 0.
pub data Reach (v : Services) : AudioQueue → Type 0 where
  fresh : (major minor patch : ℕ) → Reach v (initialize_queue major minor patch)
  added :
      {q : AudioQueue} (p : AudioPacket) (len now : ℕ)
      → p.sequence_number < 2 ^ 16
      → IsSettled q
      → Reach v q
      → Reach v (add_packet v q p len now).1
  taken : {q : AudioQueue} (custom : ℕ) → Reach v q → Reach v (get_queued_packet v custom q).1

pub Reach-IsValid : (v : Services) {q : AudioQueue} → Reach v q → IsValid q
unfolding initialize_queue
Reach-IsValid v (fresh major minor patch) = record {
  next_word = omega arith;
  oldest_is = refl;
  blocks = tt;
  covered = refl;
}
Reach-IsValid v (added {q} p len now w s r) =
    (add_packet-Goes v q p len now w (Reach-IsValid v r) s).0
Reach-IsValid v (taken {q} custom r) = (get_queued_packet-Leaves v custom q (Reach-IsValid v r)).0

Blocks-is_sorted :
    (next n last : ℕ) (bs : List FecBlock)
    → next < 2 ^ 16
    → last < 2 ^ 16
    → n ≡ diff16 last (base_number next) + 4
    → Blocks next n bs
    → is_sorted last bs ≡ true
unfolding is_sorted is_before16
Blocks-is_sorted next n last [] nw lw e h = refl
Blocks-is_sorted next n last (b ∷ bs) nw lw e h =
    let far = h.1.ahead in
    let w = h.1.word in
    let rest = Blocks-is_sorted next (dist next b + 4) (base_of b) bs nw w refl h.2 in
    let le = h.0 in ground arith

checked_blocks :
    (q : AudioQueue) (bs : List FecBlock)
    → IsValid (record q { blocks = bs })
    → validate_fec_block_state (record q { blocks = bs }) ≡ true
unfolding validate_fec_block_state is_before16
checked_blocks q [] h = let nw = h.next_word in let old = h.oldest_is in ground arith
checked_blocks q (b ∷ bs) h =
    let next = q.next_rtp_sequence_number in
    let nw = h.next_word in
    let old = h.oldest_is in
    let cov = h.covered in
    let far = h.blocks.1.ahead in
    let w = h.blocks.1.word in
    let al = h.blocks.1.aligned in
    let rest = Blocks-is_sorted next (dist next b + 4) (base_of b) bs nw w refl h.blocks.2 in
    ground arith

-- Whatever packets with 16-bit numbers arrive and whenever the caller takes packets out (but no
-- packet is added while blocks are held, the queue still synchronizes, and its oldest base number
-- is 0), whatever the Reed-Solomon library and the allocator answer: the assertions of
-- `validateFecBlockState` on sequence numbers that are made for any host hold, and each block has
-- four places for data, in which every packet that is there has the number of its place. The
-- assertions on the links of the list are not part of this.
pub state_checks :
    (v : Services) (q : AudioQueue)
    → Reach v q
    → (validate_fec_block_state q ≡ true)
      × All (λ b. (length b.data_packets ≡ 4) × Numbered (base_of b) b.data_packets) q.blocks
state_checks v q r =
    let h = Reach-IsValid v r in
    (checked_blocks q q.blocks h, places q.next_rtp_sequence_number 0 q.blocks h.blocks)
  where
    places :
        (next n : ℕ) (bs : List FecBlock)
        → Blocks next n bs
        → All (λ b. (length b.data_packets ≡ 4) × Numbered (base_of b) b.data_packets) bs
    places next n [] k = tt
    places next n (b ∷ bs) k = ((k.1.four, k.1.numbered), places next (dist next b + 4) bs k.2)

-- For a queue that comes from a fresh one by packets with 16-bit numbers and by requests of the
-- caller (no packet being added while blocks are held, the queue still synchronizes, and its oldest
-- base number is 0): `RtpaGetQueuedPacket` hands out the packet with the next sequence
-- number, or a placeholder for it, and moves the next number on by one, or it returns NULL and
-- changes nothing.
pub handed_out_in_order :
    (v : Services) (q : AudioQueue) (custom : ℕ)
    → Reach v q
    → HandsOut q (get_queued_packet v custom q)
handed_out_in_order v q custom r = (get_queued_packet-Leaves v custom q (Reach-IsValid v r)).1
