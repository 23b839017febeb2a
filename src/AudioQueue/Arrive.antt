-- ===== src/AudioQueue/Arrive.antt =====
-- `RtpaAddPacket` from end to end keeps the audio queue valid, and what holds after each of its
-- answers.
use tesla_moonlight_ubuntu.Base.{
  ℕ, ◌+◌, ◌^◌, ◌<◌, ◌≡◌, refl, ◌∙◌, ap, Bool, true, false, ◌&&◌, Option, none, some, arith,
  if◌then◌else◌, ◌==◌, holds_if,
}
use tesla_moonlight_ubuntu.Seq.{u16, is_before16}
use tesla_moonlight_ubuntu.AudioQueue.Types.{
  AudioPacket, AudioFecHeader, FecBlock, AudioQueue, Services,
}
use tesla_moonlight_ubuntu.AudioQueue.Blocks.{allocate_fec_block}
use tesla_moonlight_ubuntu.AudioQueue.Find.{
  Place, existing, insert_at, locate, describe, take_place, find_block, find_described,
  get_fec_block,
}
use tesla_moonlight_ubuntu.AudioQueue.Add.{
  AddResult, handle_now, packet_ready, nothing, add_data, add_fec, add_found, add_packet,
}
use tesla_moonlight_ubuntu.AudioQueue.Valid.{IsValid}
use tesla_moonlight_ubuntu.AudioQueue.Found.{
  FoundFor, IsSettled, describe-SameBlocks, get_fec_block-FoundFor,
}
use tesla_moonlight_ubuntu.AudioQueue.Receive.{Answers, Goes, add_data-Goes, add_fec-Goes}

-- The search does not move the next number where it finds a block.
abbrev NextKept : AudioQueue → Option (ℕ × FecBlock) × AudioQueue → Type 0
NextKept q (none, r) = Unit
NextKept q (some x, r) = r.next_rtp_sequence_number ≡ q.next_rtp_sequence_number

take_place-NextKept :
    (v : Services) (q : AudioQueue) (h : AudioFecHeader) (size now : ℕ) (place : Place)
    → NextKept q (take_place v q h size now place)
unfolding take_place allocate_fec_block
take_place-NextKept v q h size now (existing i b) = ground arith
take_place-NextKept v q h size now (insert_at i) = ground arith

find_block-NextKept :
    (v : Services) (q : AudioQueue) (h : AudioFecHeader) (size now : ℕ)
    → NextKept q (find_block v q h size now)
unfolding find_block
find_block-NextKept v q h size now =
    let base = h.base_sequence_number in
    let place = take_place v q h size now (locate base q.blocks) in
    let stale = is_before16 base q.oldest_rtp_base_sequence_number in
    holds_if (NextKept q) (q.synchronizing && (q.oldest_rtp_base_sequence_number == 0))
      (
        none,
        record q {
          next_rtp_sequence_number = u16 (base + 4);
          oldest_rtp_base_sequence_number = u16 (base + 4);
        },
      )
      (if stale then (none, q) else place) (λ e. tt)
      (λ e.
        holds_if (NextKept q) stale (none, q) place (λ z. tt)
          (λ z. take_place-NextKept v q h size now (locate base q.blocks)))

NextKept-from :
    (q r : AudioQueue) (x : Option (ℕ × FecBlock) × AudioQueue)
    → r.next_rtp_sequence_number ≡ q.next_rtp_sequence_number
    → NextKept r x
    → NextKept q x
NextKept-from q r (none, s) e h = tt
NextKept-from q r (some y, s) e h = h ∙ e

described-NextKept :
    (v : Services) (q : AudioQueue) (now : ℕ) (d : Option (AudioFecHeader × ℕ))
    → NextKept q (find_described v now d q)
unfolding find_described
described-NextKept v q now none = tt
described-NextKept v q now (some (h, size)) = find_block-NextKept v q h size now

get_fec_block-NextKept :
    (v : Services) (q : AudioQueue) (p : AudioPacket) (len now : ℕ)
    → NextKept q (get_fec_block v q p len now)
unfolding get_fec_block
get_fec_block-NextKept v q p len now =
    let d = describe v q p len in
    NextKept-from q d.1 (find_described v now d.0 d.1) (describe-SameBlocks v q p len).next
      (described-NextKept v d.1 now d.0)

Answers-from :
    (q r : AudioQueue) (p : AudioPacket) (x : AddResult × AudioQueue)
    → r.next_rtp_sequence_number ≡ q.next_rtp_sequence_number
    → Goes r p x
    → Goes q p x
Answers-from q r p (handle_now, s) e h = (h.0, (h.1.0 ∙ e, h.1.1 ∙ ap (λ n. u16 (n + 1)) e))
Answers-from q r p (packet_ready, s) e h = h
Answers-from q r p (nothing, s) e h = h

add_found-Goes :
    (v : Services) (now : ℕ) (q : AudioQueue) (p : AudioPacket) (len : ℕ)
    (x : Option (ℕ × FecBlock) × AudioQueue)
    → p.sequence_number < 2 ^ 16
    → FoundFor p x
    → NextKept q x
    → Goes q p (add_found v now p len x.0 x.1)
unfolding add_found
add_found-Goes v now q p len (none, r) w f k = (f.2, tt)
add_found-Goes v now q p len (some (i, b), r) w f k =
    let valid = f.2.0 in
    let at = f.2.1 in
    let base = f.2.2 in
    let fec = if p.packet_type == 127 then add_fec v now r p len i b else (nothing, r) in
    holds_if {A = AddResult × AudioQueue} (Goes q p) (p.packet_type == 97)
      (add_data v now r p len i b) fec
      (λ e.
        Answers-from q r p (add_data v now r p len i b) k
          (add_data-Goes v now r p len i b valid at (base ∙ f.1 (ground arith)) w))
      (λ e.
        holds_if {A = AddResult × AudioQueue} (Goes q p) (p.packet_type == 127)
          (add_fec v now r p len i b) (nothing, r)
          (λ z.
            Answers-from q r p (add_fec v now r p len i b) k
              (add_fec-Goes v now r p len i b valid at))
          (λ z. (valid, tt)))

pub add_packet-Goes :
    (v : Services) (q : AudioQueue) (p : AudioPacket) (len now : ℕ)
    → p.sequence_number < 2 ^ 16
    → IsValid q
    → IsSettled q
    → IsValid (add_packet v q p len now).1
      × (q.incompatible_server ≡ false → Answers q p (add_packet v q p len now))
unfolding add_packet
add_packet-Goes v q p len now w valid settled = go q.incompatible_server refl
  where
    through : AddResult
    through = if p.packet_type == 97 then handle_now else nothing

    found : Option (ℕ × FecBlock) × AudioQueue
    found = get_fec_block v q p len now

    goes : Goes q p (add_found v now p len found.0 found.1)
    goes =
        add_found-Goes v now q p len found w (get_fec_block-FoundFor v q p len now w valid settled)
          (get_fec_block-NextKept v q p len now)

    go :
        (c : Bool)
        → q.incompatible_server ≡ c
        → (let x : AddResult × AudioQueue =
              if c then (through, q) else add_found v now p len found.0 found.1 in
            IsValid x.1 × (c ≡ false → Answers q p x))
    go true e = (valid, λ z. absurd (ground arith))
    go false e = (goes.0, λ z. goes.1)
