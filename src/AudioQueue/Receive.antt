-- ===== src/AudioQueue/Receive.antt =====
-- `RtpaAddPacket` keeps the audio queue valid.
use tesla_moonlight_ubuntu.Base.{
  ℕ, zero, suc, ◌+◌, ◌-◌, ◌^◌, ◌<◌, ◌≡◌, refl, sym, ◌∙◌, ap, Bool, true, false, List, [], ◌∷◌,
  arith, if◌then◌else◌, ◌==◌, take, drop, holds_if,
}
use mathlib.Core.Path.{subst}
use tesla_moonlight_ubuntu.Seq.{u16}
use tesla_moonlight_ubuntu.AudioQueue.Types.{
  AudioPacket, FecBlock, AudioQueue, Services, base_of, add_u8,
}
use tesla_moonlight_ubuntu.AudioQueue.Blocks.{complete_fec_block, free_fec_block_head}
use tesla_moonlight_ubuntu.AudioQueue.Find.{fec_header_of}
use tesla_moonlight_ubuntu.AudioQueue.Add.{
  AddResult, handle_now, packet_ready, nothing, set_slot, set_block, is_received,
  queue_has_packet_ready, handle_missing_packets, stored, try_complete, take_now, add_data, add_fec,
}
use tesla_moonlight_ubuntu.AudioQueue.Valid.{base_number, IsBlock, IsCore, IsValid}
use tesla_moonlight_ubuntu.AudioQueue.Insert.{At, At-head, Blocks-At, IsCore-set}
use tesla_moonlight_ubuntu.AudioQueue.Step.{
  set_slot-Numbered, length-set_slot, with_packets, SameBlock, complete_fec_block-SameBlock,
  advance-IsValid, handle_missing_packets-IsValid,
}

-- The result of a call, as it is for the caller: `handle_now` is said only for the packet of the
-- next number, which goes on by one, and `packet_ready` only where a packet is ready.
abbrev pub Answers : AudioQueue → AudioPacket → AddResult × AudioQueue → Type 0
Answers q p (handle_now, r) =
    (p.sequence_number ≡ q.next_rtp_sequence_number)
    × (r.next_rtp_sequence_number ≡ u16 (q.next_rtp_sequence_number + 1))
Answers q p (packet_ready, r) = queue_has_packet_ready r ≡ true
Answers q p (nothing, r) = Unit

-- A valid queue and a true answer
abbrev pub Goes : AudioQueue → AudioPacket → AddResult × AudioQueue → Type 0
Goes q p x = IsValid x.1 × Answers q p x

ready_if :
    (q : AudioQueue) (p : AudioPacket) (r : AudioQueue) (c : Bool)
    → queue_has_packet_ready r ≡ c
    → Answers q p (if c then packet_ready else nothing, r)
ready_if q p r true e = e
ready_if q p r false e = tt

free_head-next :
    (q : AudioQueue) → (free_fec_block_head q).next_rtp_sequence_number ≡ q.next_rtp_sequence_number
unfolding free_fec_block_head
free_head-next q = ground arith

take_now-next :
    (q : AudioQueue) (i : ℕ) (b : FecBlock) (s : ℕ)
    → (take_now q i b s).next_rtp_sequence_number ≡ u16 (s + 1)
unfolding take_now
take_now-next q i b s =
    let r = record q {
      next_rtp_sequence_number = u16 (s + 1);
      blocks =
          set_block i (record b { next_data_packet_index = add_u8 b.next_data_packet_index 1 })
            q.blocks;
    } in
    holds_if (λ x. x.next_rtp_sequence_number ≡ u16 (s + 1)) (u16 (s + 1) == u16 (base_of b + 4))
      (free_fec_block_head r) r (λ e. free_head-next r) (λ e. refl)

marked-SameBlock :
    (next : ℕ) (b c : FecBlock) (done : Bool)
    → SameBlock next b c
    → SameBlock next b (if done then record c { fully_reassembled = true } else c)
marked-SameBlock next b c true h = record {
  base = h.base;
  is_block =
      with_packets next c (record c { fully_reassembled = true }) h.is_block refl refl refl refl
        h.is_block.numbered;
}
marked-SameBlock next b c false h = h

module _ (v : Services) (now : ℕ) (q : AudioQueue) (p : AudioPacket) (i : ℕ) (b b' : FecBlock)
    (valid : IsValid q) (at : At i b q.blocks) (same : base_of b' ≡ base_of b)
    (new : IsBlock q.next_rtp_sequence_number b') where
  abbrev next : ℕ
  next = q.next_rtp_sequence_number

  put_back :
      (c : FecBlock)
      → base_of c ≡ base_of b
      → IsBlock next c
      → IsValid (record q { blocks = set_block i c q.blocks })
  put_back c e h = IsCore-set next q.oldest_rtp_base_sequence_number i b c q.blocks at e h valid

  skipped-IsValid :
      (r : AudioQueue)
      → IsValid r
      → IsValid (if queue_has_packet_ready r then r else handle_missing_packets v now r)
  skipped-IsValid r h =
      holds_if IsValid (queue_has_packet_ready r) r (handle_missing_packets v now r) (λ e. h)
        (λ e. handle_missing_packets-IsValid v now r h)

  ready_or_nothing :
      (r : AudioQueue)
      → IsValid r
      → Goes q p (if queue_has_packet_ready r then packet_ready else nothing, r)
  ready_or_nothing r h = (h, ready_if q p r (queue_has_packet_ready r) refl)

  try_complete-Goes : Goes q p (try_complete v now q i b')
  unfolding try_complete
  try_complete-Goes =
      let tried = complete_fec_block v b' in
      let c = if tried.0 then record tried.1 { fully_reassembled = true } else tried.1 in
      let done =
        marked-SameBlock next b' tried.1 tried.0 (complete_fec_block-SameBlock v next b' new) in
      let r = record q { blocks = set_block i c q.blocks } in
      ready_or_nothing (if queue_has_packet_ready r then r else handle_missing_packets v now r)
        (skipped-IsValid r (put_back c (done.base ∙ same) done.is_block))

  -- The packet of the next number lies in the head.
  take_from :
      (j : ℕ) (bs : List FecBlock)
      → At j b bs
      → IsCore next q.oldest_rtp_base_sequence_number bs
      → base_of b ≡ base_number next
      → IsValid (take_now (record q { blocks = bs }) j b' next)
  unfolding take_now set_block
  take_from j [] e h here = elim e [ ]
  take_from zero (x ∷ xs) e h here =
      let nw = valid.next_word in
      advance-IsValid q b' xs (u16 (next + 1) == u16 (base_of b' + 4))
        (IsCore-set next q.oldest_rtp_base_sequence_number 0 b b' (x ∷ xs) e same new h)
        (same ∙ here) (λ z. ground arith) (λ z. ground arith)
  take_from (suc j) (x ∷ xs) e h here =
      absurd (omega (arith, At-head next 0 (suc j) b x xs e here h.blocks))

  take_now-Goes :
      p.sequence_number ≡ next
      → base_of b ≡ base_number p.sequence_number
      → Goes q p (handle_now, take_now q i b' p.sequence_number)
  take_now-Goes s here = (
    subst (λ n. IsValid (take_now q i b' n)) (sym s)
        (take_from i q.blocks at valid (here ∙ ap base_number s)),
    (s, take_now-next q i b' p.sequence_number ∙ ap (λ n. u16 (n + 1)) s),
  )

pub add_data-Goes :
    (v : Services) (now : ℕ) (q : AudioQueue) (p : AudioPacket) (len i : ℕ) (b : FecBlock)
    → IsValid q
    → At i b q.blocks
    → base_of b ≡ base_number p.sequence_number
    → p.sequence_number < 2 ^ 16
    → Goes q p (add_data v now q p len i b)
unfolding add_data
add_data-Goes v now q p len i b valid at here w =
    let s = p.sequence_number in
    let next = q.next_rtp_sequence_number in
    let pos = u16 (s + 2 ^ 16 - base_of b) in
    let old = Blocks-At next 0 i b q.blocks at valid.blocks in
    let b' = record b {
      data_packets = set_slot b.data_packets pos (stored p len);
      data_shards_received = add_u8 b.data_shards_received 1;
    } in
    let new : IsBlock next b' =
      with_packets next b b' old refl refl refl (length-set_slot pos b.data_packets (stored p len))
        (set_slot-Numbered (base_of b) pos b.data_packets (stored p len) (omega arith)
          old.numbered) in
    holds_if {A = AddResult × AudioQueue} (Goes q p) (is_received b pos) (nothing, q)
      (if s == next then (handle_now, take_now q i b' s) else try_complete v now q i b')
      (λ e. (valid, tt))
      (λ e.
        holds_if {A = AddResult × AudioQueue} (Goes q p) (s == next) (handle_now, take_now q i b' s)
          (try_complete v now q i b')
          (λ z. take_now-Goes v now q p i b b' valid at refl new (ground arith) here)
          (λ z. try_complete-Goes v now q p i b b' valid at refl new))

pub add_fec-Goes :
    (v : Services) (now : ℕ) (q : AudioQueue) (p : AudioPacket) (len i : ℕ) (b : FecBlock)
    → IsValid q
    → At i b q.blocks
    → Goes q p (add_fec v now q p len i b)
unfolding add_fec
add_fec-Goes v now q p len i b valid at =
    let h = fec_header_of p in
    let next = q.next_rtp_sequence_number in
    let old = Blocks-At next 0 i b q.blocks at valid.blocks in
    let b' = record b {
      fec_packets = set_slot b.fec_packets h.fec_shard_index (take (len - 24) (drop 12 p.payload));
      fec_shards_received = add_u8 b.fec_shards_received 1;
    } in
    holds_if {A = AddResult × AudioQueue} (Goes q p) (is_received b (4 + h.fec_shard_index))
      (nothing, q) (try_complete v now q i b') (λ e. (valid, tt))
      (λ e.
        try_complete-Goes v now q p i b b' valid at refl
          (with_packets next b b' old refl refl refl refl old.numbered))
