-- ===== src/AudioQueue/Step.antt =====
-- The parts of `RtpaAddPacket` and `RtpaGetQueuedPacket` keep the audio queue valid: a stored or
-- recovered packet, the step of the next number, the end of a block, and the skip of what is lost.
use tesla_moonlight_ubuntu.Base.{
  ℕ, zero, suc, ◌+◌, ◌%◌, ◌^◌, ◌<◌, ◌≤◌, ◌≡◌, refl, sym, ◌∙◌, ap, Bool, true, false, not, ◌||◌,
  Option, none, some, List, [], ◌∷◌, ◌++◌, map, arith, if◌then◌else◌, ◌==◌, ltb, leb, length,
  holds_if,
}
use mathlib.Core.Path.{subst}
use tesla_moonlight_ubuntu.Seq.{u16, is_before16}
use tesla_moonlight_ubuntu.AudioQueue.Types.{
  AudioPacket, FecBlock, AudioQueue, Services, base_of, add_u8,
}
use tesla_moonlight_ubuntu.AudioQueue.Blocks.{
  shard_of, fill_from, complete_fec_block, free_fec_block_head,
}
use tesla_moonlight_ubuntu.AudioQueue.Add.{
  set_slot, give_up_or_wait, handle_missing_packets, give_up, waited_long,
}
use tesla_moonlight_ubuntu.AudioQueue.Valid.{
  Numbered, base_number, IsBlock, IsCore, IsValid, drop_head, step_head, resync, head_is_here,
}

pub set_slot-Numbered :
    (s i : ℕ) (ps : List (Option AudioPacket)) (p : AudioPacket)
    → p.sequence_number ≡ s + i
    → Numbered s ps
    → Numbered s (set_slot ps i p)
unfolding set_slot
set_slot-Numbered s i [] p e h = tt
set_slot-Numbered s zero (none ∷ ps) p e h = (omega arith, h)
set_slot-Numbered s zero (some x ∷ ps) p e h = (omega arith, h.1)
set_slot-Numbered s (suc i) (none ∷ ps) p e h = set_slot-Numbered (s + 1) i ps p (omega arith) h
set_slot-Numbered s (suc i) (some x ∷ ps) p e h =
    (h.0, set_slot-Numbered (s + 1) i ps p (omega arith) h.1)

pub length-set_slot :
    (i : ℕ) (ps : List (Option AudioPacket)) (p : AudioPacket)
    → length (set_slot ps i p) ≡ length ps
unfolding set_slot
length-set_slot i [] p = refl
length-set_slot zero (x ∷ ps) p = refl
length-set_slot (suc i) (x ∷ ps) p = omega (arith, length-set_slot i ps p)

fill_from-Numbered :
    (v : Services) (b : FecBlock) (bytes : ℕ → List ℕ) (i : ℕ) (ps : List (Option AudioPacket))
    → base_of b + i + length ps ≤ 2 ^ 16
    → Numbered (base_of b + i) ps
    → Numbered (base_of b + i) (fill_from v b bytes i ps)
unfolding fill_from
fill_from-Numbered v b bytes i [] room h = tt
fill_from-Numbered v b bytes i (none ∷ ps) room h =
    let same : base_of b + (i + 1) ≡ base_of b + i + 1 = omega arith in
    (
      omega arith,
      subst (λ s. Numbered s (fill_from v b bytes (i + 1) ps)) same
          (fill_from-Numbered v b bytes (i + 1) ps (omega arith)
            (subst (λ s. Numbered s ps) (sym same) h)),
    )
fill_from-Numbered v b bytes i (some p ∷ ps) room h =
    let same : base_of b + (i + 1) ≡ base_of b + i + 1 = omega arith in
    (
      h.0,
      subst (λ s. Numbered s (fill_from v b bytes (i + 1) ps)) same
          (fill_from-Numbered v b bytes (i + 1) ps (omega arith)
            (subst (λ s. Numbered s ps) (sym same) h.1)),
    )

length-fill_from :
    (v : Services) (b : FecBlock) (bytes : ℕ → List ℕ) (i : ℕ) (ps : List (Option AudioPacket))
    → length (fill_from v b bytes i ps) ≡ length ps
unfolding fill_from
length-fill_from v b bytes i [] = refl
length-fill_from v b bytes i (none ∷ ps) = omega (arith, length-fill_from v b bytes (i + 1) ps)
length-fill_from v b bytes i (some p ∷ ps) = omega (arith, length-fill_from v b bytes (i + 1) ps)

-- A block with other packets in its four places is one still, if they are numbered.
pub with_packets :
    (next : ℕ) (b b' : FecBlock)
    → IsBlock next b
    → b'.fec_header ≡ b.fec_header
    → b'.next_data_packet_index ≡ b.next_data_packet_index
    → b'.allow_discontinuity ≡ b.allow_discontinuity
    → length b'.data_packets ≡ length b.data_packets
    → Numbered (base_of b) b'.data_packets
    → IsBlock next b'
with_packets next b b' h header index gap len num =
    let same : base_of b' ≡ base_of b = ap (λ x. x.base_sequence_number) header in
    let al = h.aligned in
    let w = h.word in
    let far = h.ahead in
    record {
      aligned = omega arith;
      word = omega arith;
      ahead = omega arith;
      index_here = λ e. index ∙ h.index_here (sym same ∙ e);
      index_later = λ e. index ∙ h.index_later (λ z. e (same ∙ z));
      kept_later = λ e. gap ∙ h.kept_later (λ z. e (same ∙ z));
      four = len ∙ h.four;
      numbered = subst (λ s. Numbered s b'.data_packets) (sym same) num;
    }

-- Recovery keeps a block.
pub record SameBlock (next : ℕ) (b b' : FecBlock) : Type 0 where
  pub base : base_of b' ≡ base_of b
  pub is_block : IsBlock next b'

recovered-SameBlock :
    (v : Services) (next : ℕ) (b : FecBlock) (o : Option (ℕ → List ℕ))
    → IsBlock next b
    → SameBlock next b
        (elim o as (λ x. Bool × FecBlock) [
          | none ↦ (false, b)
          | some bytes ↦ (true, record b { data_packets = fill_from v b bytes 0 b.data_packets })
        ]).1
recovered-SameBlock v next b none h = record { base = refl; is_block = h }
recovered-SameBlock v next b (some bytes) h =
    let packets = fill_from v b bytes 0 b.data_packets in
    let at_zero : base_of b + 0 ≡ base_of b = omega arith in
    let w = h.word in
    let al = h.aligned in
    let four = h.four in
    let filled =
      fill_from-Numbered v b bytes 0 b.data_packets (omega arith)
        (subst (λ s. Numbered s b.data_packets) (sym at_zero) h.numbered) in
    record {
      base = refl;
      is_block =
          with_packets next b (record b { data_packets = packets }) h refl refl refl
            (length-fill_from v b bytes 0 b.data_packets)
            (subst (λ s. Numbered s packets) at_zero filled);
    }

pub complete_fec_block-SameBlock :
    (v : Services) (next : ℕ) (b : FecBlock)
    → IsBlock next b
    → SameBlock next b (complete_fec_block v b).1
unfolding complete_fec_block
complete_fec_block-SameBlock v next b h =
    let found = v.reconstruct (map shard_of b.data_packets ++ b.fec_packets) b.block_size in
    let rest : Bool × FecBlock = elim found [
      | none ↦ (false, b)
      | some bytes ↦ (true, record b { data_packets = fill_from v b bytes 0 b.data_packets })
    ] in
    let same : SameBlock next b b = record { base = refl; is_block = h } in
    holds_if {A = Bool × FecBlock} (λ x. SameBlock next b x.1)
      (ltb (b.data_shards_received + b.fec_shards_received) 4) (false, b)
      (if b.data_shards_received == 4 then (true, b) else rest) (λ e. same)
      (λ e.
        holds_if {A = Bool × FecBlock} (λ x. SameBlock next b x.1) (b.data_shards_received == 4)
          (true, b) rest (λ z. same) (λ z. recovered-SameBlock v next b found h))

-- The head is freed.
free_head :
    (q : AudioQueue) (b : FecBlock) (bs : List FecBlock)
    → IsCore q.next_rtp_sequence_number (u16 (base_of b + 4)) bs
    → IsValid (free_fec_block_head (record q { blocks = b ∷ bs }))
unfolding free_fec_block_head
free_head q b bs h =
    let moved = record q {
      blocks = bs;
      oldest_rtp_base_sequence_number = u16 (base_of b + 4);
      synchronizing = false;
    } in
    holds_if IsValid (leb 4 q.free_block_count) moved
      (record moved {
        free_blocks = b.block_size ∷ q.free_blocks;
        free_block_count = u16 (q.free_block_count + 1);
      })
      (λ e. h) (λ e. h)

-- The step of the next number over the head's packet.
pub advance-IsValid :
    (q : AudioQueue) (b : FecBlock) (bs : List FecBlock) (last : Bool)
    → IsCore q.next_rtp_sequence_number q.oldest_rtp_base_sequence_number (b ∷ bs)
    → base_of b ≡ base_number q.next_rtp_sequence_number
    → (last ≡ true → q.next_rtp_sequence_number % 4 ≡ 3)
    → (last ≡ false → q.next_rtp_sequence_number % 4 < 3)
    → IsValid (
        let r = record q {
          blocks = record b { next_data_packet_index = add_u8 b.next_data_packet_index 1 } ∷ bs;
          next_rtp_sequence_number = u16 (q.next_rtp_sequence_number + 1);
        } in
        if last then free_fec_block_head r else r)
advance-IsValid q b bs true h here hl hf =
    let core =
      drop_head q.next_rtp_sequence_number (u16 (q.next_rtp_sequence_number + 1)) b bs h.next_word
        refl (hl refl) here h.blocks in
    free_head (record q { next_rtp_sequence_number = u16 (q.next_rtp_sequence_number + 1) })
      (record b { next_data_packet_index = add_u8 b.next_data_packet_index 1 }) bs core
advance-IsValid q b bs false h here hl hf =
    let next = q.next_rtp_sequence_number in
    let low = hf refl in
    let old = h.oldest_is in
    let idx = h.blocks.1.index_here here in
    subst
      (λ o.
        IsCore (u16 (next + 1)) o
          (record b { next_data_packet_index = add_u8 b.next_data_packet_index 1 } ∷ bs))
      (sym old)
      (step_head next (u16 (next + 1)) b
        (record b { next_data_packet_index = add_u8 b.next_data_packet_index 1 }) bs h.next_word
        refl low here refl (omega arith) refl h.blocks)

give_up-IsBlock :
    (next : ℕ) (b : FecBlock)
    → base_of b ≡ base_number next
    → IsBlock next b
    → IsBlock next (give_up b)
give_up-IsBlock next b here h = record {
  aligned = h.aligned;
  word = h.word;
  ahead = h.ahead;
  index_here = h.index_here;
  index_later = h.index_later;
  kept_later = λ e. absurd (e here);
  four = h.four;
  numbered = h.numbered;
}

give_up_or_wait-IsValid :
    (v : Services) (now : ℕ) (q : AudioQueue) (b : FecBlock) (bs : List FecBlock)
    → IsValid (record q { blocks = b ∷ bs })
    → base_of b ≡ base_number q.next_rtp_sequence_number
    → IsValid (give_up_or_wait v now (record q { blocks = b ∷ bs }) b bs)
unfolding give_up_or_wait
give_up_or_wait-IsValid v now q b [] h here = h
give_up_or_wait-IsValid v now q b (c ∷ cs) h here =
    holds_if IsValid (not q.received_oos_data || waited_long v now b.queue_time_ms)
      (record q { blocks = give_up b ∷ c ∷ cs }) (record q { blocks = b ∷ c ∷ cs })
      (λ e. record {
        next_word = h.next_word;
        oldest_is = h.oldest_is;
        blocks =
            (h.blocks.0, give_up-IsBlock q.next_rtp_sequence_number b here h.blocks.1, h.blocks.2);
        covered = h.covered;
      })
      (λ e. h)

handle_missing_blocks :
    (v : Services) (now : ℕ) (q : AudioQueue) (bs : List FecBlock)
    → IsValid (record q { blocks = bs })
    → IsValid (handle_missing_packets v now (record q { blocks = bs }))
unfolding handle_missing_packets
handle_missing_blocks v now q [] h = h
handle_missing_blocks v now q (b ∷ bs) h =
    let next = q.next_rtp_sequence_number in
    let oldest = q.oldest_rtp_base_sequence_number in
    holds_if IsValid (is_before16 next (base_of b))
      (record q {
        blocks = b ∷ bs;
        next_rtp_sequence_number = base_of b;
        oldest_rtp_base_sequence_number = base_of b;
      })
      (give_up_or_wait v now (record q { blocks = b ∷ bs }) b bs) (λ e. resync next oldest b bs h e)
      (λ e. give_up_or_wait-IsValid v now q b bs h (head_is_here next oldest b bs h e))

pub handle_missing_packets-IsValid :
    (v : Services) (now : ℕ) (q : AudioQueue) → IsValid q → IsValid (handle_missing_packets v now q)
handle_missing_packets-IsValid v now q h = handle_missing_blocks v now q q.blocks h
