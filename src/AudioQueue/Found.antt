-- ===== src/AudioQueue/Found.antt =====
-- `getFecBlockForRtpPacket` keeps the audio queue valid, and finds the packet's block in it.
use tesla_moonlight_ubuntu.Base.{
  ℕ, ◌+◌, ◌%◌, ◌^◌, ◌<◌, ◌≡◌, refl, sym, ◌∙◌, Bool, true, false, not, ◌&&◌, Option, none, some, [],
  arith, if◌then◌else◌, ◌==◌, holds_if,
}
use tesla_moonlight_ubuntu.Seq.{diff16, is_before16}
use tesla_moonlight_ubuntu.AudioQueue.Types.{
  AudioPacket, AudioFecHeader, FecBlock, AudioQueue, Services, base_of,
}
use tesla_moonlight_ubuntu.AudioQueue.Blocks.{allocate_fec_block, new_block}
use tesla_moonlight_ubuntu.AudioQueue.Find.{
  Place, existing, insert_at, locate, insert_block, fec_header_of, synthesized_header, note_oos,
  describe, take_place, find_block, find_described, get_fec_block,
}
use tesla_moonlight_ubuntu.AudioQueue.Valid.{base_number, IsBlock, IsValid}
use tesla_moonlight_ubuntu.AudioQueue.Insert.{At, Fits, HeadFits, locate-Fits, locate-HeadFits}

-- What a search in a valid queue gives.
abbrev pub Found : ℕ → Option (ℕ × FecBlock) → AudioQueue → Type 0
Found base none r = IsValid r
Found base (some (i, b)) r = IsValid r × At i b r.blocks × (base_of b ≡ base)

abbrev pub IsFound : ℕ → Option (ℕ × FecBlock) × AudioQueue → Type 0
IsFound base x = Found base x.0 x.1

-- A queue with blocks does not wait for its first packet any more.
abbrev pub IsSettled : AudioQueue → Type 0
IsSettled q = q.synchronizing ≡ true → q.oldest_rtp_base_sequence_number ≡ 0 → q.blocks ≡ []

-- The parts of a queue that the search does not change before it makes a block.
pub record SameBlocks (q r : AudioQueue) : Type 0 where
  pub blocks : r.blocks ≡ q.blocks
  pub next : r.next_rtp_sequence_number ≡ q.next_rtp_sequence_number
  pub oldest : r.oldest_rtp_base_sequence_number ≡ q.oldest_rtp_base_sequence_number
  pub synchronizing : r.synchronizing ≡ q.synchronizing

SameBlocks-IsValid : (q r : AudioQueue) → SameBlocks q r → IsValid q → IsValid r
SameBlocks-IsValid q r s h = rw (s.blocks, s.next, s.oldest) h

SameBlocks-IsSettled : (q r : AudioQueue) → SameBlocks q r → IsSettled q → IsSettled r
SameBlocks-IsSettled q r s h = λ a b. s.blocks ∙ h (sym s.synchronizing ∙ a) (sym s.oldest ∙ b)

allocate-SameBlocks :
    (v : Services) (q : AudioQueue) (size : ℕ) → SameBlocks q (allocate_fec_block v q size).1
unfolding allocate_fec_block
allocate-SameBlocks v q size = ground arith

pub describe-SameBlocks :
    (v : Services) (q : AudioQueue) (p : AudioPacket) (len : ℕ)
    → SameBlocks q (describe v q p len).1
unfolding describe note_oos
describe-SameBlocks v q p len = ground arith

abbrev Described : AudioPacket → Option (AudioFecHeader × ℕ) → Type 0
Described p none = Unit
Described p (some (h, size)) =
    (h.base_sequence_number % 4 ≡ 0)
    × (h.base_sequence_number < 2 ^ 16)
    × (p.packet_type ≡ 97 → h.base_sequence_number ≡ base_number p.sequence_number)

describe-Described :
    (v : Services) (q : AudioQueue) (p : AudioPacket) (len : ℕ)
    → p.sequence_number < 2 ^ 16
    → Described p (describe v q p len).0
unfolding describe synthesized_header fec_header_of
describe-Described v q p len w = ground arith

-- A new block of an empty place is a block by itself.
new_block-IsBlock :
    (next size now : ℕ) (h : AudioFecHeader)
    → h.base_sequence_number % 4 ≡ 0
    → h.base_sequence_number < 2 ^ 16
    → diff16 h.base_sequence_number (base_number next) < 2 ^ 15
    → (h.base_sequence_number ≡ base_number next → next % 4 ≡ 0)
    → IsBlock next (new_block h size now)
unfolding new_block
new_block-IsBlock next size now h al w far start = record {
  aligned = al;
  word = w;
  ahead = far;
  index_here = λ e. sym (start e);
  index_later = λ e. refl;
  kept_later = λ e. refl;
  four = refl;
  numbered = tt;
}

module _ (v : Services) (q : AudioQueue) (h : AudioFecHeader) (size now : ℕ) (valid : IsValid q)
    (al : h.base_sequence_number % 4 ≡ 0) (w : h.base_sequence_number < 2 ^ 16)
    (far : diff16 h.base_sequence_number (base_number q.next_rtp_sequence_number) < 2 ^ 15) where
  abbrev base : ℕ
  base = h.base_sequence_number

  abbrev next : ℕ
  next = q.next_rtp_sequence_number

  abbrev made : FecBlock
  made = new_block h size now

  insert-Found :
      (i : ℕ) (b : Bool) (r : AudioQueue)
      → SameBlocks q r
      → Fits next base 0 q.blocks (insert_at i)
      → HeadFits next base q.blocks (insert_at i)
      → IsFound base (
          if b
          then (some (i, made), record r { blocks = insert_block i made r.blocks })
          else (none, r))
  unfolding new_block
  insert-Found i false r s f g = SameBlocks-IsValid q r s valid
  insert-Found i true r s f g =
      let f' = f made refl (new_block-IsBlock next size now h al w far g.0) in
      rw (s.blocks, s.next, s.oldest)
        (
          record {
            next_word = valid.next_word;
            oldest_is = valid.oldest_is;
            blocks = f'.0;
            covered = g.1 made;
          },
          f'.1,
          refl,
        )

  take_place-Found :
      (p : Place)
      → Fits next base 0 q.blocks p
      → HeadFits next base q.blocks p
      → IsFound base (take_place v q h size now p)
  unfolding take_place
  take_place-Found (existing i b) f g =
      holds_if (IsFound base) (not (b.block_size == size))
        (none, record q { incompatible_server = true })
        (if b.fully_reassembled then (none, q) else (some (i, b), q))
        (λ e. SameBlocks-IsValid q (record q { incompatible_server = true }) (ground arith) valid)
        (λ e.
          holds_if (IsFound base) b.fully_reassembled (none, q) (some (i, b), q) (λ z. valid)
            (λ z. (valid, f.0, f.1)))
  take_place-Found (insert_at i) f g =
      insert-Found i (allocate_fec_block v q size).0 (allocate_fec_block v q size).1
        (allocate-SameBlocks v q size) f g

-- The first packet moves the next number while there are no blocks.
start-IsValid :
    (q : AudioQueue) (base : ℕ)
    → base % 4 ≡ 0
    → q.blocks ≡ []
    → IsValid (record q {
      next_rtp_sequence_number = (base + 4) % 2 ^ 16;
      oldest_rtp_base_sequence_number = (base + 4) % 2 ^ 16;
    })
start-IsValid q base al none_yet = rw none_yet (record {
  next_word = omega arith;
  oldest_is = omega arith;
  blocks = tt;
  covered = omega arith;
})

find_block-Found :
    (v : Services) (q : AudioQueue) (h : AudioFecHeader) (size now : ℕ)
    → IsValid q
    → IsSettled q
    → h.base_sequence_number % 4 ≡ 0
    → h.base_sequence_number < 2 ^ 16
    → IsFound h.base_sequence_number (find_block v q h size now)
unfolding find_block is_before16
find_block-Found v q h size now valid settled al w =
    let base = h.base_sequence_number in
    let next = q.next_rtp_sequence_number in
    let old = valid.oldest_is in
    let nw = valid.next_word in
    let started = record q {
      next_rtp_sequence_number = (base + 4) % 2 ^ 16;
      oldest_rtp_base_sequence_number = (base + 4) % 2 ^ 16;
    } in
    let place = take_place v q h size now (locate base q.blocks) in
    let stale = is_before16 base q.oldest_rtp_base_sequence_number in
    holds_if (IsFound base) (q.synchronizing && (q.oldest_rtp_base_sequence_number == 0))
      (none, started) (if stale then (none, q) else place)
      (λ e. start-IsValid q base al (settled (ground arith) (ground arith)))
      (λ e.
        holds_if (IsFound base) stale (none, q) place (λ z. valid)
          (λ z.
            let far : diff16 base (base_number next) < 2 ^ 15 = ground arith in
            take_place-Found v q h size now valid al w far (locate base q.blocks)
              (locate-Fits next base 0 q.blocks nw al w (omega arith) far valid.blocks)
              (locate-HeadFits next q.oldest_rtp_base_sequence_number base q.blocks al w far
                valid)))

-- What the search gives for a packet.
abbrev pub FoundFor : AudioPacket → Option (ℕ × FecBlock) × AudioQueue → Type 0
FoundFor p x =
    (base : ℕ) × (p.packet_type ≡ 97 → base ≡ base_number p.sequence_number) × IsFound base x

any_header :
    (v : Services) (p : AudioPacket) (now : ℕ) (d : Option (AudioFecHeader × ℕ)) (r : AudioQueue)
    → Described p d
    → IsValid r
    → IsSettled r
    → FoundFor p (find_described v now d r)
unfolding find_described
any_header v p now none r d valid settled = (base_number p.sequence_number, (λ e. refl), valid)
any_header v p now (some (h, size)) r d valid settled =
    (h.base_sequence_number, d.2, find_block-Found v r h size now valid settled d.0 d.1)

pub get_fec_block-FoundFor :
    (v : Services) (q : AudioQueue) (p : AudioPacket) (len now : ℕ)
    → p.sequence_number < 2 ^ 16
    → IsValid q
    → IsSettled q
    → FoundFor p (get_fec_block v q p len now)
unfolding get_fec_block
get_fec_block-FoundFor v q p len now w valid settled =
    let same = describe-SameBlocks v q p len in
    let r = (describe v q p len).1 in
    any_header v p now (describe v q p len).0 r (describe-Described v q p len w)
      (SameBlocks-IsValid q r same valid) (SameBlocks-IsSettled q r same settled)
