-- ===== src/AudioQueue/Leave.antt =====
-- `RtpaGetQueuedPacket` keeps the audio queue valid, and hands out the packets in order.
use tesla_moonlight_ubuntu.Base.{
  ℕ, zero, suc, ◌+◌, ◌≡◌, refl, true, Option, none, some, List, [], ◌∷◌, arith, if◌then◌else◌, ◌==◌,
  holds_if,
}
use tesla_moonlight_ubuntu.Seq.{u16}
use tesla_moonlight_ubuntu.AudioQueue.Types.{
  AudioPacket, FecBlock, AudioQueue, Services, base_of, add_u8,
}
use tesla_moonlight_ubuntu.AudioQueue.Blocks.{free_fec_block_head}
use tesla_moonlight_ubuntu.AudioQueue.Add.{slot, is_received, queue_has_packet_ready, head_ready}
use tesla_moonlight_ubuntu.AudioQueue.Dequeue.{
  Dequeued, null, lost, audio, advance, take_ready, get_queued_packet,
}
use tesla_moonlight_ubuntu.AudioQueue.Valid.{Numbered, base_number, IsCore, IsValid}
use tesla_moonlight_ubuntu.AudioQueue.Step.{advance-IsValid}

-- What is handed out by a call on `q` that leaves `r`: nothing, and `q` is as it was; a placeholder,
-- and the next number goes on by one; or the packet of the next number, which goes on by one.
abbrev pub HandsOut : AudioQueue → Dequeued × AudioQueue → Type 0
HandsOut q (null, r) = r ≡ q
HandsOut q (lost, r) = r.next_rtp_sequence_number ≡ u16 (q.next_rtp_sequence_number + 1)
HandsOut q (audio none n, r) = ⊥
HandsOut q (audio (some p) n, r) =
    (p.sequence_number ≡ q.next_rtp_sequence_number)
    × (r.next_rtp_sequence_number ≡ u16 (q.next_rtp_sequence_number + 1))

abbrev pub Leaves : AudioQueue → Dequeued × AudioQueue → Type 0
Leaves q x = IsValid x.1 × HandsOut q x

-- A packet that is there has its number.
slot-Numbered :
    (s i : ℕ) (ps : List (Option AudioPacket)) (p : AudioPacket)
    → Numbered s ps
    → slot ps i ≡ some p
    → p.sequence_number ≡ s + i
unfolding slot
slot-Numbered s i [] p h e = absurd (ground arith)
slot-Numbered s zero (none ∷ ps) p h e = absurd (ground arith)
slot-Numbered s zero (some x ∷ ps) p h e = ground arith
slot-Numbered s (suc i) (none ∷ ps) p h e = omega (arith, slot-Numbered (s + 1) i ps p h e)
slot-Numbered s (suc i) (some x ∷ ps) p h e = omega (arith, slot-Numbered (s + 1) i ps p h.1 e)

-- A head that is ready or given up is the block of the next number.
pub ready-here :
    (next oldest : ℕ) (b : FecBlock) (bs : List FecBlock)
    → IsCore next oldest (b ∷ bs)
    → head_ready next b ≡ true
    → base_of b ≡ base_number next
ready-here next oldest b bs h e =
    let old = h.blocks.1 in
    let al = old.aligned in
    let w = old.word in
    let nw = h.next_word in
    let cov = h.covered in let later = old.index_later in let kept = old.kept_later in ground arith

advance-next :
    (q : AudioQueue) (b : FecBlock) (bs : List FecBlock)
    → (advance q b bs).next_rtp_sequence_number ≡ u16 (q.next_rtp_sequence_number + 1)
unfolding advance free_fec_block_head
advance-next q b bs = ground arith

advanced-IsValid :
    (q : AudioQueue) (b : FecBlock) (bs : List FecBlock)
    → IsValid (record q { blocks = b ∷ bs })
    → base_of b ≡ base_number q.next_rtp_sequence_number
    → IsValid (advance (record q { blocks = b ∷ bs }) b bs)
unfolding advance
advanced-IsValid q b bs h here =
    let idx = h.blocks.1.index_here here in
    advance-IsValid q b bs (add_u8 b.next_data_packet_index 1 == 4) h here (λ z. ground arith)
      (λ z. ground arith)

abbrev with_head : AudioQueue → FecBlock → List FecBlock → AudioQueue
with_head q b bs = record q { blocks = b ∷ bs }

module _ (v : Services) (custom : ℕ) (q : AudioQueue) (b : FecBlock) (bs : List FecBlock)
    (h : IsValid (with_head q b bs)) where
  abbrev at_head : AudioQueue
  at_head = with_head q b bs

  taken-Leaves :
      (o : Option AudioPacket) (n : ℕ)
      → slot b.data_packets b.next_data_packet_index ≡ o
      → is_received b b.next_data_packet_index ≡ true
      → base_of b ≡ base_number q.next_rtp_sequence_number
      → Leaves at_head (audio o n, advance at_head b bs)
  unfolding is_received
  taken-Leaves none n e there here = let idx = h.blocks.1.index_here here in absurd (ground arith)
  taken-Leaves (some p) n e there here =
      let idx = h.blocks.1.index_here here in
      let number =
        slot-Numbered (base_of b) b.next_data_packet_index b.data_packets p h.blocks.1.numbered e in
      (advanced-IsValid q b bs h here, (omega arith, advance-next at_head b bs))

  take_ready-Leaves :
      (b.allow_discontinuity ≡ true → is_received b b.next_data_packet_index ≡ true)
      → Leaves at_head (take_ready v custom at_head)
  unfolding take_ready queue_has_packet_ready
  take_ready-Leaves there =
      let next = q.next_rtp_sequence_number in
      let oldest = q.oldest_rtp_base_sequence_number in
      let packet = slot b.data_packets b.next_data_packet_index in
      let out : Dequeued × AudioQueue =
        (audio packet (u16 (b.block_size + 12)), advance at_head b bs) in
      let ok = v.malloc_ok (custom + 12 + b.block_size) in
      let none_out : Dequeued × AudioQueue = (null, at_head) in
      holds_if (Leaves at_head) (head_ready next b) (if ok then out else none_out) none_out
        (λ e.
          holds_if (Leaves at_head) ok out none_out
            (λ z.
              taken-Leaves packet (u16 (b.block_size + 12)) refl (ground arith)
                (ready-here next oldest b bs h e))
            (λ z. (h, refl)))
        (λ e. (h, refl))

  abbrev pub pass_over : Dequeued × AudioQueue
  pass_over =
      if is_received b b.next_data_packet_index
      then take_ready v custom
          (if b.next_data_packet_index == 4 then free_fec_block_head at_head else at_head)
      else if v.malloc_ok custom
      then (lost, advance at_head b bs)
      else (null, at_head)

  given_up-Leaves : b.allow_discontinuity ≡ true → Leaves at_head pass_over
  given_up-Leaves gap =
      let next = q.next_rtp_sequence_number in
      let oldest = q.oldest_rtp_base_sequence_number in
      let here = ready-here next oldest b bs h (ground arith) in
      let idx = h.blocks.1.index_here here in
      let first = b.next_data_packet_index == 4 in
      let skip : Dequeued × AudioQueue = (lost, advance at_head b bs) in
      let none_out : Dequeued × AudioQueue = (null, at_head) in
      holds_if {A = Dequeued × AudioQueue} (Leaves at_head) (is_received b b.next_data_packet_index)
        (take_ready v custom (if first then free_fec_block_head at_head else at_head))
        (if v.malloc_ok custom then skip else none_out)
        (λ e.
          holds_if (λ z. Leaves at_head (take_ready v custom z)) first (free_fec_block_head at_head)
            at_head (λ z. absurd (ground arith)) (λ z. take_ready-Leaves (λ y. e)))
        (λ e.
          holds_if {A = Dequeued × AudioQueue} (Leaves at_head) (v.malloc_ok custom) skip none_out
            (λ z. (advanced-IsValid q b bs h here, advance-next at_head b bs)) (λ z. (h, refl)))

no_blocks :
    (v : Services) (custom : ℕ) (q : AudioQueue)
    → IsValid (record q { blocks = [] })
    → Leaves (record q { blocks = [] }) (take_ready v custom (record q { blocks = [] }))
unfolding take_ready
no_blocks v custom q h = (h, refl)

get_blocks-Leaves :
    (v : Services) (custom : ℕ) (q : AudioQueue) (bs : List FecBlock)
    → IsValid (record q { blocks = bs })
    → Leaves (record q { blocks = bs }) (get_queued_packet v custom (record q { blocks = bs }))
unfolding get_queued_packet
get_blocks-Leaves v custom q [] h = no_blocks v custom q h
get_blocks-Leaves v custom q (b ∷ bs) h =
    holds_if {A = Dequeued × AudioQueue} (Leaves (with_head q b bs)) b.allow_discontinuity
      (pass_over v custom q b bs h) (take_ready v custom (with_head q b bs))
      (given_up-Leaves v custom q b bs h)
      (λ e. take_ready-Leaves v custom q b bs h (λ y. absurd (ground arith)))

pub get_queued_packet-Leaves :
    (v : Services) (custom : ℕ) (q : AudioQueue)
    → IsValid q
    → Leaves q (get_queued_packet v custom q)
get_queued_packet-Leaves v custom q h = get_blocks-Leaves v custom q q.blocks h
