-- ===== src/AudioQueue/Valid.antt =====
-- What holds of the audio queue's blocks between calls, and how it moves with the next number.
use tesla_moonlight_ubuntu.Base.{
  ℕ, ◌+◌, ◌-◌, ◌*◌, ◌/◌, ◌%◌, ◌^◌, ◌<◌, ◌≤◌, ◌≡◌, ◌≢◌, refl, sym, ◌∙◌, ap, true, false, Option,
  none, some, List, [], ◌∷◌, length, arith,
}
use mathlib.Core.Path.{subst}
use tesla_moonlight_ubuntu.Seq.{u16, diff16, is_before16}
use tesla_moonlight_ubuntu.AudioQueue.Types.{AudioPacket, FecBlock, AudioQueue, base_of}

-- The packets that are there have the numbers of their positions.
abbrev pub Numbered : ℕ → List (Option AudioPacket) → Type 0
Numbered s [] = Unit
Numbered s (none ∷ ps) = Numbered (s + 1) ps
Numbered s (some p ∷ ps) = (p.sequence_number ≡ s) × Numbered (s + 1) ps

-- The base of the block of four that a number lies in
abbrev pub base_number : ℕ → ℕ
base_number s = s / 4 * 4

-- How far a block lies from the block that `next` lies in
abbrev pub dist : ℕ → FecBlock → ℕ
dist next b = diff16 (base_of b) (base_number next)

-- A block by itself. Only the block of `next` may have been read from, or been given up.
pub record IsBlock (next : ℕ) (b : FecBlock) : Type 0 where
  pub aligned : base_of b % 4 ≡ 0
  pub word : base_of b < 2 ^ 16
  pub ahead : dist next b < 2 ^ 15
  pub index_here : base_of b ≡ base_number next → b.next_data_packet_index ≡ next % 4
  pub index_later : base_of b ≢ base_number next → b.next_data_packet_index ≡ 0
  pub kept_later : base_of b ≢ base_number next → b.allow_discontinuity ≡ false
  pub four : length b.data_packets ≡ 4
  pub numbered : Numbered (base_of b) b.data_packets

-- The blocks are sorted, from the distance `n` on.
abbrev pub Blocks : ℕ → ℕ → List FecBlock → Type 0
Blocks next n [] = Unit
Blocks next n (b ∷ bs) = (n ≤ dist next b) × IsBlock next b × Blocks next (dist next b + 4) bs

-- A block that was begun to be read is at the head.
abbrev pub Covered : ℕ → List FecBlock → Type 0
Covered next [] = next % 4 ≡ 0
Covered next (b ∷ bs) = next % 4 ≢ 0 → base_of b ≡ base_number next

pub record IsCore (next oldest : ℕ) (bs : List FecBlock) : Type 0 where
  pub next_word : next < 2 ^ 16
  pub oldest_is : oldest ≡ base_number next
  pub blocks : Blocks next 0 bs
  pub covered : Covered next bs

abbrev pub IsValid : AudioQueue → Type 0
IsValid q = IsCore q.next_rtp_sequence_number q.oldest_rtp_base_sequence_number q.blocks

-- The distances shrink by `k` when the next number moves on to a block `k` further.
IsBlock-move :
    (next next' k : ℕ) (b : FecBlock)
    → next < 2 ^ 16
    → next' < 2 ^ 16
    → base_number next' ≡ u16 (base_number next + k)
    → k ≤ dist next b
    → 0 < dist next b
    → (k ≢ 0 → next' % 4 ≡ 0)
    → IsBlock next b
    → (dist next' b ≡ dist next b - k) × IsBlock next' b
IsBlock-move next next' k b w w' at le pos start h =
    let d : dist next' b ≡ dist next b - k = omega (arith, h.word, h.ahead) in
    let later : base_of b ≢ base_number next = λ e. absurd (omega (arith, e)) in
    let idx = h.index_later later in
    (
      d,
      record {
        aligned = h.aligned;
        word = h.word;
        ahead = omega (arith, h.ahead);
        index_here = λ e. omega (arith, idx, start (λ z. absurd (omega (arith, z, e))));
        index_later = λ e. idx;
        kept_later = λ e. h.kept_later later;
        four = h.four;
        numbered = h.numbered;
      },
    )

pub Blocks-move :
    (next next' k n : ℕ) (bs : List FecBlock)
    → next < 2 ^ 16
    → next' < 2 ^ 16
    → base_number next' ≡ u16 (base_number next + k)
    → k ≤ n
    → 0 < n
    → (k ≢ 0 → next' % 4 ≡ 0)
    → Blocks next n bs
    → Blocks next' (n - k) bs
Blocks-move next next' k n [] w w' at le pos start h = tt
Blocks-move next next' k n (b ∷ bs) w w' at le pos start h =
    let m =
      IsBlock-move next next' k b w w' at (omega (arith, h.0)) (omega (arith, h.0)) start h.1 in
    let rest =
      Blocks-move next next' k (dist next b + 4) bs w w' at (omega (arith, h.0)) (omega arith) start
        h.2 in
    let same : dist next b + 4 - k ≡ dist next' b + 4 = omega (arith, m.0, h.0) in
    (omega (arith, m.0, h.0), m.1, subst (λ i. Blocks next' i bs) same rest)

Covered-start : (next : ℕ) (bs : List FecBlock) → next % 4 ≡ 0 → Covered next bs
Covered-start next [] h = h
Covered-start next (b ∷ bs) h = λ z. absurd (z h)

-- The head is taken off once its last packet was read.
pub drop_head :
    (next next' : ℕ) (b : FecBlock) (bs : List FecBlock)
    → next < 2 ^ 16
    → next' ≡ u16 (next + 1)
    → next % 4 ≡ 3
    → base_of b ≡ base_number next
    → Blocks next 0 (b ∷ bs)
    → IsCore next' (u16 (base_of b + 4)) bs
drop_head next next' b bs w e three here h =
    let far : dist next b + 4 ≡ 4 = omega arith in
    let rest =
      Blocks-move next next' 4 4 bs w (omega arith) (omega arith) (omega arith) (omega arith)
        (λ z. omega arith) (subst (λ i. Blocks next i bs) far h.2) in
    record {
      next_word = omega arith;
      oldest_is = omega arith;
      blocks = rest;
      covered = Covered-start next' bs (omega arith);
    }

-- The head stays, with the next number and its index one further.
pub step_head :
    (next next' : ℕ) (b b' : FecBlock) (bs : List FecBlock)
    → next < 2 ^ 16
    → next' ≡ u16 (next + 1)
    → next % 4 < 3
    → base_of b ≡ base_number next
    → base_of b' ≡ base_of b
    → b'.next_data_packet_index ≡ next % 4 + 1
    → b'.data_packets ≡ b.data_packets
    → Blocks next 0 (b ∷ bs)
    → IsCore next' (base_number next) (b' ∷ bs)
step_head next next' b b' bs w e low here same idx packets h =
    let far : dist next b + 4 ≡ dist next' b' + 4 = omega arith in
    let rest =
      Blocks-move next next' 0 4 bs w (omega arith) (omega arith) (omega arith) (omega arith)
        (λ z. absurd (z refl)) (subst (λ i. Blocks next i bs) (omega arith) h.2) in
    let old = h.1 in
    let head : IsBlock next' b' = record {
      aligned = omega (arith, old.aligned);
      word = omega (arith, old.word);
      ahead = omega arith;
      index_here = λ z. omega (arith, idx);
      index_later = λ z. absurd (z (omega arith));
      kept_later = λ z. absurd (z (omega arith));
      four = ap length packets ∙ old.four;
      numbered =
          subst (λ s. Numbered s b'.data_packets) (sym same)
            (subst (Numbered (base_of b)) (sym packets) old.numbered);
    } in
    record {
      next_word = omega arith;
      oldest_is = omega arith;
      blocks = (omega arith, head, subst (λ i. Blocks next' i bs) (omega arith) rest);
      covered = λ z. omega arith;
    }

-- The next number goes on to the head's block, when all before it is lost.
pub resync :
    (next oldest : ℕ) (b : FecBlock) (bs : List FecBlock)
    → IsCore next oldest (b ∷ bs)
    → is_before16 next (base_of b) ≡ true
    → IsCore (base_of b) (base_of b) (b ∷ bs)
unfolding is_before16
resync next oldest b bs h before =
    let old = h.blocks.1 in
    let w = old.word in
    let al = old.aligned in
    let nw = h.next_word in
    let cov = h.covered in
    let away : 0 < dist next b = ground arith in
    let moved =
      Blocks-move next (base_of b) (dist next b) (dist next b) (b ∷ bs) nw w (omega arith)
        (omega arith) away (λ z. al) (omega arith, old, h.blocks.2) in
    record {
      next_word = w;
      oldest_is = omega arith;
      blocks = subst (λ i. Blocks (base_of b) i (b ∷ bs)) (omega arith) moved;
      covered = λ z. absurd (z al);
    }

-- Where the next number is not before the head, it lies in the head's block.
pub head_is_here :
    (next oldest : ℕ) (b : FecBlock) (bs : List FecBlock)
    → IsCore next oldest (b ∷ bs)
    → is_before16 next (base_of b) ≡ false
    → base_of b ≡ base_number next
unfolding is_before16
head_is_here next oldest b bs h before =
    let old = h.blocks.1 in
    let w = old.word in
    let al = old.aligned in
    let far = old.ahead in let nw = h.next_word in let cov = h.covered in ground arith
