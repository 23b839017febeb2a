-- ===== src/AudioQueue/Served.antt =====
-- A packet that is announced is handed out.
use tesla_moonlight_ubuntu.Base.{
  ℕ, ◌+◌, ◌^◌, ◌<◌, ◌≡◌, ◌≢◌, Bool, true, false, List, [], ◌∷◌, arith,
}
use tesla_moonlight_ubuntu.AudioQueue.Types.{AudioPacket, FecBlock, AudioQueue, Services}
use tesla_moonlight_ubuntu.AudioQueue.Add.{
  AddResult, handle_now, packet_ready, nothing, add_packet, queue_has_packet_ready, head_ready,
}
use tesla_moonlight_ubuntu.AudioQueue.Dequeue.{
  Dequeued, null, lost, audio, take_ready, get_queued_packet,
}
use tesla_moonlight_ubuntu.AudioQueue.Valid.{IsValid}
use tesla_moonlight_ubuntu.AudioQueue.Leave.{ready-here}
use tesla_moonlight_ubuntu.AudioQueue.Reach.{Reach, Reach-IsValid}
use tesla_moonlight_ubuntu.AudioQueue.Found.{IsSettled}
use tesla_moonlight_ubuntu.AudioQueue.Receive.{Answers}
use tesla_moonlight_ubuntu.AudioQueue.Arrive.{add_packet-Goes}

abbrev pub is_null : Dequeued × AudioQueue → Bool
is_null (null, r) = true
is_null (lost, r) = false
is_null (audio p n, r) = false

abbrev IsServed : Dequeued × AudioQueue → Type 0
IsServed x = is_null x ≡ false

module _ (v : Services) (custom : ℕ) (room : (n : ℕ) → v.malloc_ok n ≡ true) where
  take_ready-IsServed :
      (q : AudioQueue) (b : FecBlock) (bs : List FecBlock)
      → head_ready q.next_rtp_sequence_number b ≡ true
      → IsServed (take_ready v custom (record q { blocks = b ∷ bs }))
  unfolding take_ready queue_has_packet_ready
  take_ready-IsServed q b bs ready = let ok = room (custom + 12 + b.block_size) in ground arith

  get_blocks :
      (q : AudioQueue) (bs : List FecBlock)
      → IsValid (record q { blocks = bs })
      → queue_has_packet_ready (record q { blocks = bs }) ≡ true
      → IsServed (get_queued_packet v custom (record q { blocks = bs }))
  unfolding get_queued_packet queue_has_packet_ready
  get_blocks q [] h ready = absurd (ground arith)
  get_blocks q (b ∷ bs) h ready =
      let next = q.next_rtp_sequence_number in
      let here = ready-here next q.oldest_rtp_base_sequence_number b bs h ready in
      let idx = h.blocks.1.index_here here in
      let not_four : b.next_data_packet_index ≢ 4 = λ e. absurd (omega (arith, e)) in
      let taken = take_ready-IsServed q b bs ready in let ok = room custom in ground arith

ready-Answers :
    (q : AudioQueue) (p : AudioPacket) (x : AddResult × AudioQueue)
    → Answers q p x
    → x.0 ≡ packet_ready
    → queue_has_packet_ready x.1 ≡ true
ready-Answers q p (handle_now, r) h e = absurd (ground arith)
ready-Answers q p (packet_ready, r) h e = h
ready-Answers q p (nothing, r) h e = absurd (ground arith)

-- For a queue that comes from a fresh one by packets with 16-bit numbers and by requests of the
-- caller (no packet being added while blocks are held, the queue still synchronizes, and its oldest
-- base number is 0), while its host is compatible and it is not in that state itself, and if no
-- `malloc` fails: after `RtpaAddPacket` has said that a packet is ready, `RtpaGetQueuedPacket`
-- does not return NULL.
pub announced_is_served :
    (v : Services) (q : AudioQueue) (p : AudioPacket) (len now custom : ℕ)
    → Reach v q
    → p.sequence_number < 2 ^ 16
    → IsSettled q
    → q.incompatible_server ≡ false
    → ((n : ℕ) → v.malloc_ok n ≡ true)
    → (add_packet v q p len now).0 ≡ packet_ready
    → is_null (get_queued_packet v custom (add_packet v q p len now).1) ≡ false
announced_is_served v q p len now custom r w s c room told =
    let x = add_packet v q p len now in
    let g = add_packet-Goes v q p len now w (Reach-IsValid v r) s in
    get_blocks v custom room x.1 x.1.blocks g.0 (ready-Answers q p x (g.1 c) told)
