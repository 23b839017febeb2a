-- ===== src/AudioQueue/Links/Places.antt =====
-- The places of a list that the search of `getFecBlockForRtpPacket` comes to.
use tesla_moonlight_ubuntu.Base.{
  ℕ, zero, suc, ◌≤◌, ◌<◌, ◌≡◌, refl, true, false, List, [], ◌∷◌, ◌==◌, arith, length,
}
use tesla_moonlight_ubuntu.AudioQueue.Links.{Memory, search}
use tesla_moonlight_ubuntu.AudioQueue.Links.Chain.{has, last_of, Chain, before_at, block_at, put_at}

pub search-Chain :
    (m : Memory) (before : ℕ) (i : ℕ) (xs : List ℕ) (p : ℕ)
    → Chain m before xs p
    → i ≤ length xs
    → search m i p ≡ block_at i xs
unfolding search
search-Chain m before zero [] p c le = c
search-Chain m before zero (x ∷ xs) p c le = c.0
search-Chain m before (suc i) [] p c le = absurd (omega arith)
search-Chain m before (suc i) (x ∷ xs) p c le =
    rw c.0 (search-Chain m x i xs (m x).next c.4 (omega arith))

-- A block that is found points back to the one before its place.
pub prev-Chain :
    (m : Memory) (before : ℕ) (i : ℕ) (xs : List ℕ) (p : ℕ)
    → Chain m before xs p
    → i < length xs
    → (m (block_at i xs)).prev ≡ before_at i before xs
prev-Chain m before i [] p c lt = absurd (omega arith)
prev-Chain m before zero (x ∷ xs) p c lt = c.2
prev-Chain m before (suc i) (x ∷ xs) p c lt = prev-Chain m x i xs (m x).next c.4 (omega arith)

pub block_at-found :
    (m : Memory) (before : ℕ) (i : ℕ) (xs : List ℕ) (p : ℕ)
    → Chain m before xs p
    → i < length xs
    → (block_at i xs == 0) ≡ false
block_at-found m before i [] p c lt = absurd (omega arith)
block_at-found m before zero (x ∷ xs) p c lt = let n = c.1 in ground arith
block_at-found m before (suc i) (x ∷ xs) p c lt =
    block_at-found m x i xs (m x).next c.4 (omega arith)

pub block_at-listed : (i : ℕ) (xs : List ℕ) → i < length xs → has (block_at i xs) xs ≡ true
block_at-listed i [] lt = absurd (omega arith)
block_at-listed zero (x ∷ xs) lt = ground arith
block_at-listed (suc i) (x ∷ xs) lt = ground (arith, block_at-listed i xs)

-- It is not the one before its place.
pub block_at-apart :
    (m : Memory) (before : ℕ) (i : ℕ) (xs : List ℕ) (p : ℕ)
    → Chain m before xs p
    → has before xs ≡ false
    → i < length xs
    → (block_at i xs == before_at i before xs) ≡ false
block_at-apart m before i [] p c out lt = absurd (omega arith)
block_at-apart m before zero (x ∷ xs) p c out lt = ground arith
block_at-apart m before (suc i) (x ∷ xs) p c out lt =
    block_at-apart m x i xs (m x).next c.4 c.3 (omega arith)

-- At the end of the list
pub block_at-end : (xs : List ℕ) → block_at (length xs) xs ≡ 0
block_at-end [] = refl
block_at-end (x ∷ xs) = block_at-end xs

pub before_at-end : (before : ℕ) (xs : List ℕ) → before_at (length xs) before xs ≡ last_of before xs
before_at-end before [] = refl
before_at-end before (x ∷ xs) = before_at-end x xs

pub put_at-end : (x before : ℕ) (xs : List ℕ) → last_of before (put_at (length xs) x xs) ≡ x
put_at-end x before [] = refl
put_at-end x before (y ∷ xs) = put_at-end x y xs

pub put_at-last :
    (i x before : ℕ) (xs : List ℕ)
    → i < length xs
    → last_of before (put_at i x xs) ≡ last_of before xs
put_at-last i x before [] lt = absurd (omega arith)
put_at-last zero x before (y ∷ xs) lt = refl
put_at-last (suc i) x before (y ∷ xs) lt = put_at-last i x y xs (omega arith)

-- Only the first place has no block before it.
pub before_at-block :
    (m : Memory) (before : ℕ) (i : ℕ) (xs : List ℕ) (p : ℕ)
    → Chain m before xs p
    → i < length xs
    → (before_at (suc i) before xs == 0) ≡ false
before_at-block m before i [] p c lt = absurd (omega arith)
before_at-block m before zero (x ∷ xs) p c lt = let n = c.1 in ground arith
before_at-block m before (suc i) (x ∷ xs) p c lt =
    before_at-block m x i xs (m x).next c.4 (omega arith)
