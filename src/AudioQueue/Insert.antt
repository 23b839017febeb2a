-- ===== src/AudioQueue/Insert.antt =====
-- The search for a block and the insertion of a new one keep the blocks sorted.
use tesla_moonlight_ubuntu.Base.{
  ℕ, zero, suc, ◌+◌, ◌%◌, ◌^◌, ◌<◌, ◌≤◌, ◌≡◌, ◌≢◌, refl, sym, ◌∙◌, ap, List, [], ◌∷◌, arith,
  if◌then◌else◌, ◌==◌, holds_if,
}
use mathlib.Core.Path.{subst}
use tesla_moonlight_ubuntu.Seq.{diff16, is_before16}
use tesla_moonlight_ubuntu.AudioQueue.Types.{FecBlock, base_of}
use tesla_moonlight_ubuntu.AudioQueue.Find.{
  Place, existing, insert_at, shifted, locate, insert_block,
}
use tesla_moonlight_ubuntu.AudioQueue.Add.{set_block}
use tesla_moonlight_ubuntu.AudioQueue.Valid.{base_number, dist, IsBlock, Blocks, Covered, IsCore}

-- The block at a position
abbrev pub At : ℕ → FecBlock → List FecBlock → Type 0
At i b [] = ⊥
At zero b (x ∷ xs) = x ≡ b
At (suc i) b (x ∷ xs) = At i b xs

pub Blocks-At :
    (next n i : ℕ) (b : FecBlock) (bs : List FecBlock)
    → At i b bs
    → Blocks next n bs
    → IsBlock next b
Blocks-At next n zero b [] at h = elim at [ ]
Blocks-At next n (suc i) b [] at h = elim at [ ]
Blocks-At next n zero b (x ∷ xs) at h = subst (IsBlock next) at h.1
Blocks-At next n (suc i) b (x ∷ xs) at h = Blocks-At next (dist next x + 4) i b xs at h.2

-- The block of the next number is at the head.
pub At-head :
    (next n i : ℕ) (b x : FecBlock) (xs : List FecBlock)
    → At i b (x ∷ xs)
    → base_of b ≡ base_number next
    → Blocks next n (x ∷ xs)
    → i ≡ 0
At-head next n zero b x xs at here h = refl
At-head next n (suc i) b x [] at here h = elim at [ ]
At-head next n (suc i) b x (y ∷ ys) at here h =
    absurd (omega (arith, below (dist next x + 4) i (y ∷ ys) at h.2))
  where
    below : (m j : ℕ) (zs : List FecBlock) → At j b zs → Blocks next m zs → m ≤ dist next b
    below m zero [] e k = elim e [ ]
    below m (suc j) [] e k = elim e [ ]
    below m zero (z ∷ zs) e k = omega (arith, k.0, ap base_of e)
    below m (suc j) (z ∷ zs) e k = omega (arith, k.0, below (dist next z + 4) j zs e k.2)

pub Blocks-set :
    (next n i : ℕ) (b b' : FecBlock) (bs : List FecBlock)
    → At i b bs
    → base_of b' ≡ base_of b
    → IsBlock next b'
    → Blocks next n bs
    → Blocks next n (set_block i b' bs)
unfolding set_block
Blocks-set next n zero b b' [] at same new h = elim at [ ]
Blocks-set next n (suc i) b b' [] at same new h = elim at [ ]
Blocks-set next n zero b b' (x ∷ xs) at same new h =
    let e : dist next b' ≡ dist next x = omega (arith, same, ap base_of at) in
    (omega (arith, h.0), new, subst (λ d. Blocks next (d + 4) xs) (sym e) h.2)
Blocks-set next n (suc i) b b' (x ∷ xs) at same new h =
    (h.0, h.1, Blocks-set next (dist next x + 4) i b b' xs at same new h.2)

pub IsCore-set :
    (next oldest i : ℕ) (b b' : FecBlock) (bs : List FecBlock)
    → At i b bs
    → base_of b' ≡ base_of b
    → IsBlock next b'
    → IsCore next oldest bs
    → IsCore next oldest (set_block i b' bs)
unfolding set_block
IsCore-set next oldest i b b' bs at same new h = record {
  next_word = h.next_word;
  oldest_is = h.oldest_is;
  blocks = Blocks-set next 0 i b b' bs at same new h.blocks;
  covered = cover i bs at h.covered;
}
  where
    cover :
        (j : ℕ) (zs : List FecBlock)
        → At j b zs
        → Covered next zs
        → Covered next (set_block j b' zs)
    cover zero [] e k = elim e [ ]
    cover (suc j) [] e k = elim e [ ]
    cover zero (z ∷ zs) e k = λ p. same ∙ sym (ap base_of e) ∙ k p
    cover (suc j) (z ∷ zs) e k = k

-- What the search finds.
abbrev pub Fits : (next base n : ℕ) → List FecBlock → Place → Type 0
Fits next base n bs (existing i b) = At i b bs × (base_of b ≡ base)
Fits next base n bs (insert_at i) =
    (x : FecBlock)
    → base_of x ≡ base
    → IsBlock next x
    → Blocks next n (insert_block i x bs) × At i x (insert_block i x bs)

Fits-shifted :
    (next base n : ℕ) (b : FecBlock) (bs : List FecBlock) (p : Place)
    → n ≤ dist next b
    → IsBlock next b
    → Fits next base (dist next b + 4) bs p
    → Fits next base n (b ∷ bs) (shifted p)
unfolding insert_block
Fits-shifted next base n b bs (existing i c) le h k = k
Fits-shifted next base n b bs (insert_at i) le h k = λ x e hx. ((le, h, (k x e hx).0), (k x e hx).1)

pub locate-Fits :
    (next base n : ℕ) (bs : List FecBlock)
    → next < 2 ^ 16
    → base % 4 ≡ 0
    → base < 2 ^ 16
    → n ≤ diff16 base (base_number next)
    → diff16 base (base_number next) < 2 ^ 15
    → Blocks next n bs
    → Fits next base n bs (locate base bs)
unfolding locate insert_block is_before16
locate-Fits next base n [] nw al w le far h = λ x e hx. ((omega (arith, e), hx, tt), refl)
locate-Fits next base n (b ∷ bs) nw al w le far h =
    let old = h.1 in
    let b_al = old.aligned in
    let b_w = old.word in
    let b_far = old.ahead in
    holds_if (Fits next base n (b ∷ bs)) (base_of b == base) (existing 0 b)
      (if is_before16 base (base_of b) then insert_at 0 else shifted (locate base bs))
      (λ z. (refl, ground arith))
      (λ z.
        holds_if (Fits next base n (b ∷ bs)) (is_before16 base (base_of b)) (insert_at 0)
          (shifted (locate base bs))
          (λ y x e hx.
            let lt : diff16 base (base_number next) + 4 ≤ dist next b = ground arith in
            ((omega (arith, e), hx, (omega (arith, e), old, h.2)), refl))
          (λ y.
            let gt : dist next b + 4 ≤ diff16 base (base_number next) = ground arith in
            Fits-shifted next base n b bs (locate base bs) h.0 old
              (locate-Fits next base (dist next b + 4) bs nw al w gt far h.2)))

-- A new block is the block of the next number only at its start, and leaves a begun one the head.
abbrev pub HeadFits : (next base : ℕ) → List FecBlock → Place → Type 0
HeadFits next base bs (existing i b) = Unit
HeadFits next base bs (insert_at i) =
    (base ≡ base_number next → next % 4 ≡ 0) × ((x : FecBlock) → Covered next (insert_block i x bs))

HeadFits-shifted :
    (next base : ℕ) (b : FecBlock) (bs : List FecBlock) (p : Place)
    → Covered next (b ∷ bs)
    → base_of b ≢ base
    → HeadFits next base (b ∷ bs) (shifted p)
unfolding insert_block
HeadFits-shifted next base b bs (existing i c) h ne = tt
HeadFits-shifted next base b bs (insert_at i) h ne = (λ e. ground arith, λ x. h)

pub locate-HeadFits :
    (next oldest base : ℕ) (bs : List FecBlock)
    → base % 4 ≡ 0
    → base < 2 ^ 16
    → diff16 base (base_number next) < 2 ^ 15
    → IsCore next oldest bs
    → HeadFits next base bs (locate base bs)
unfolding locate insert_block is_before16
locate-HeadFits next oldest base [] al w far h =
    let none_read = h.covered in (λ e. none_read, λ x z. absurd (z none_read))
locate-HeadFits next oldest base (b ∷ bs) al w far h =
    let head = h.covered in
    let nw = h.next_word in
    let old = h.blocks.1 in
    let b_w = old.word in
    holds_if (HeadFits next base (b ∷ bs)) (base_of b == base) (existing 0 b)
      (if is_before16 base (base_of b) then insert_at 0 else shifted (locate base bs)) (λ z. tt)
      (λ z.
        holds_if (HeadFits next base (b ∷ bs)) (is_before16 base (base_of b)) (insert_at 0)
          (shifted (locate base bs)) (λ y. (λ e. ground arith, λ x m. ground arith))
          (λ y. HeadFits-shifted next base b bs (locate base bs) head (ground arith)))
