-- ===== src/VideoQueue/Reach.antt =====
-- Every queue that `RtpvAddPacket` can produce keeps the invariant, whatever packets arrive in
-- whatever order, and whatever the Reed-Solomon library gives back.
use tesla_moonlight_ubuntu.Base.{
  ℕ, ◌^◌, ◌<◌, ◌≤◌, ◌≡◌, refl, ◌⊎◌, inl, inr, Bool, true, false, List, [], ◌∷◌, length, arith,
  if◌then◌else◌, All,
}
use tesla_moonlight_ubuntu.VideoQueue.Types.{RtpPacket, Entry, VideoQueue}
use tesla_moonlight_ubuntu.VideoQueue.Pending.{empty_list, initialize_queue}
use tesla_moonlight_ubuntu.VideoQueue.Recover.{Services, shard_index, total_packets}
use tesla_moonlight_ubuntu.VideoQueue.Add.{
  AddResult, rejected, fix_up, is_stale, needs_new_block, start_block, accept_packet, add_packet,
}
use tesla_moonlight_ubuntu.VideoQueue.Window.{Distinct, InBlock}
use tesla_moonlight_ubuntu.VideoQueue.Valid.{IsValid, block_of, total_of, length-pending}
use tesla_moonlight_ubuntu.VideoQueue.Accepted.{accept_packet-IsValid}
use tesla_moonlight_ubuntu.VideoQueue.Start.{Started, start_block-Started}

-- The packet's number is not touched by the fix-up.
fix_up-number : (q : VideoQueue) (p : RtpPacket) → (fix_up q p).sequence_number ≡ p.sequence_number
unfolding fix_up
fix_up-number q p = ground arith

-- A queue with nothing pending, which starts a block with the next packet, or a valid one.
abbrev pub IsSound : VideoQueue → Type 0
IsSound q = (q.pending_fec_block_list ≡ empty_list) ⊎ IsValid q

accept_if_going :
    (v : Services) (p : RtpPacket) (len : ℕ) (go_on : Bool) (r : VideoQueue)
    → p.sequence_number < 2 ^ 16
    → Started p (go_on, r)
    → IsSound
        (if◌then◌else◌ {A = AddResult × VideoQueue} go_on (accept_packet v r p len) (rejected, r)).1
accept_if_going v p len true r w s =
    inr (accept_packet-IsValid v r p len (s.valid refl) w (s.ahead refl))
accept_if_going v p len false r w s = inl (s.dropped refl)

module _ (v : Services) (q : VideoQueue) (p : RtpPacket) (len now : ℕ) (sound : IsSound q)
    (word : p.sequence_number < 2 ^ 16) where
  abbrev fixed : RtpPacket
  fixed = fix_up q p

  fixed_word : fixed.sequence_number < 2 ^ 16
  fixed_word = omega (arith, fix_up-number q p)

  abbrev restarted : AddResult × VideoQueue
  restarted =
      let (go_on, q') = start_block q fixed now in
      if go_on then accept_packet v q' fixed len else (rejected, q')

  continue_or_start :
      (b : Bool)
      → needs_new_block q fixed ≡ b
      → is_stale q fixed len ≡ false
      → IsSound
          (if◌then◌else◌ {A = AddResult × VideoQueue} b restarted (accept_packet v q fixed len)).1
  unfolding is_stale
  continue_or_start true e fresh =
      accept_if_going v fixed len (start_block q fixed now).0 (start_block q fixed now).1 fixed_word
        (start_block-Started q fixed now fixed_word)
  continue_or_start false e fresh = go sound
    where
      go : IsSound q → IsSound (accept_packet v q fixed len).1
      go (inl none_pending) = absurd (ground arith)
      go (inr valid) = inr (accept_packet-IsValid v q fixed len valid fixed_word (ground arith))

  stale_or :
      (b : Bool) (x : AddResult × VideoQueue)
      → (b ≡ false → IsSound x.1)
      → IsSound (if◌then◌else◌ {A = AddResult × VideoQueue} b (rejected, q) x).1
  stale_or true x h = sound
  stale_or false x h = h refl

  add_packet-IsSound : IsSound (add_packet v q p len now).1
  unfolding add_packet
  add_packet-IsSound =
      stale_or (is_stale q fixed len)
        (if needs_new_block q fixed then restarted else accept_packet v q fixed len)
        (continue_or_start (needs_new_block q fixed) refl)

initialize_queue-pending :
    (major minor patch : ℕ)
    → (initialize_queue major minor patch).pending_fec_block_list ≡ empty_list
unfolding initialize_queue
initialize_queue-pending major minor patch = refl

-- The queues that come from a fresh one by packets with 16-bit numbers.
pub data Reach (v : Services) : VideoQueue → Type 0 where
  fresh : (major minor patch : ℕ) → Reach v (initialize_queue major minor patch)
  added :
      {q : VideoQueue} (p : RtpPacket) (len now : ℕ)
      → p.sequence_number < 2 ^ 16
      → Reach v q
      → Reach v (add_packet v q p len now).1

Reach-IsSound : (v : Services) {q : VideoQueue} → Reach v q → IsSound q
Reach-IsSound v (fresh major minor patch) = inl (initialize_queue-pending major minor patch)
Reach-IsSound v (added {q} p len now w r) = add_packet-IsSound v q p len now (Reach-IsSound v r) w

shard_indexes-lt :
    (q : VideoQueue) (es : List Entry)
    → q.buffer_data_packets < 2 ^ 10
    → q.buffer_parity_packets < 2 ^ 12
    → All (InBlock q.buffer_lowest_sequence_number q.buffer_data_packets (total_of q)) es
    → All (λ e. shard_index q e < total_packets q) es
shard_indexes-lt q [] hd hp h = tt
shard_indexes-lt q (e ∷ es) hd hp h =
    let b = h.0 in (omega (arith, b.inside), shard_indexes-lt q es hd hp h.1)

-- Whatever packets with 16-bit numbers a fresh video queue is given, in whatever order, and
-- whatever the Reed-Solomon library and the allocator answer: every pending packet lies at an index
-- inside the arrays that `reconstructFrame` allocates for the block, no two pending packets have
-- the same sequence number, and the count kept beside the list is its length, which is at most the
-- number of packets of the block.
pub pending_in_bounds :
    (v : Services) (q : VideoQueue)
    → Reach v q
    → All (λ e. shard_index q e < total_packets q) q.pending_fec_block_list.entries
      × Distinct q.pending_fec_block_list.entries
      × (q.pending_fec_block_list.count ≡ length q.pending_fec_block_list.entries)
      × (length q.pending_fec_block_list.entries ≤ total_packets q)
pending_in_bounds v q r = go (Reach-IsSound v r)
  where
    go :
        IsSound q
        → All (λ e. shard_index q e < total_packets q) q.pending_fec_block_list.entries
          × Distinct q.pending_fec_block_list.entries
          × (q.pending_fec_block_list.count ≡ length q.pending_fec_block_list.entries)
          × (length q.pending_fec_block_list.entries ≤ total_packets q)
    go (inl e) = rw e (tt, tt, refl, omega arith)
    go (inr h) =
        let fits = length-pending (block_of q) h in
        let hd = h.few_data in
        let hp = h.few_parity in
        (
          shard_indexes-lt q q.pending_fec_block_list.entries hd hp h.members,
          h.distinct,
          omega (arith, h.count),
          omega arith,
        )
