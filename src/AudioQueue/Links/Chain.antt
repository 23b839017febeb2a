-- ===== src/AudioQueue/Links/Chain.antt =====
-- The doubly linked list in memory, as a sequence of pointers.
use tesla_moonlight_ubuntu.Base.{
  ℕ, zero, suc, ◌≡◌, ◌≢◌, refl, Bool, true, false, ◌||◌, List, [], ◌∷◌, ◌==◌, arith,
}
use tesla_moonlight_ubuntu.AudioQueue.Links.{Memory, BlockList}

abbrev pub has : ℕ → List ℕ → Bool
has a [] = false
has a (x ∷ xs) = (x == a) || has a xs

abbrev pub last_of : ℕ → List ℕ → ℕ
last_of before [] = before
last_of before (x ∷ xs) = last_of x xs

-- From the pointer `p` the blocks lead through the distinct `xs` to NULL, each pointing back to the
-- one before it, the first to `before`.
abbrev pub Chain : Memory → (before : ℕ) → List ℕ → ℕ → Type 0
Chain m before [] p = p ≡ 0
Chain m before (x ∷ xs) p =
    (p ≡ x) × (x ≢ 0) × ((m x).prev ≡ before) × (has x xs ≡ false) × Chain m x xs (m x).next

-- The list has these blocks, in this order.
pub record IsLinked (s : BlockList) (xs : List ℕ) : Type 0 where
  pub chain : Chain s.memory 0 xs s.head
  pub ending : s.tail ≡ last_of 0 xs

-- A chain survives any change that spares its blocks.
pub Chain-frame :
    (m g : Memory) (before : ℕ) (xs : List ℕ) (p : ℕ)
    → Chain m before xs p
    → ((a : ℕ) → has a xs ≡ true → g a ≡ m a)
    → Chain g before xs p
Chain-frame m g before [] p c same = c
Chain-frame m g before (x ∷ xs) p c same =
    let e : g x ≡ m x = same x (ground arith) in
    rw e (c.0, c.1, c.2, c.3, Chain-frame m g x xs (m x).next c.4 (λ a h. same a (ground arith)))

-- The places next to position `i`: the block before it and the one at it
abbrev pub before_at : ℕ → (before : ℕ) → List ℕ → ℕ
before_at zero before xs = before
before_at (suc i) before [] = before
before_at (suc i) before (x ∷ xs) = before_at i x xs

abbrev pub block_at : ℕ → List ℕ → ℕ
block_at i [] = 0
block_at zero (x ∷ xs) = x
block_at (suc i) (x ∷ xs) = block_at i xs

abbrev pub put_at : ℕ → ℕ → List ℕ → List ℕ
put_at zero x xs = x ∷ xs
put_at (suc i) x [] = x ∷ []
put_at (suc i) x (y ∷ xs) = y ∷ put_at i x xs

pub has-put_at : (a i x : ℕ) (xs : List ℕ) → has a (put_at i x xs) ≡ ((x == a) || has a xs)
has-put_at a zero x xs = refl
has-put_at a (suc i) x [] = refl
has-put_at a (suc i) x (y ∷ xs) = ground (arith, has-put_at a i x xs)

-- Behind the first position, what stands before a position is in the list; so is what stands at
-- one, unless it is the end.
pub before_at-has : (i x : ℕ) (xs : List ℕ) → has (before_at i x xs) (x ∷ xs) ≡ true
before_at-has zero x xs = ground arith
before_at-has (suc i) x [] = ground arith
before_at-has (suc i) x (y ∷ xs) = ground (arith, before_at-has i y xs)

pub block_at-has : (i a : ℕ) (xs : List ℕ) → has a xs ≡ false → a ≢ 0 → (block_at i xs == a) ≡ false
block_at-has i a [] h z = ground arith
block_at-has zero a (x ∷ xs) h z = ground arith
block_at-has (suc i) a (x ∷ xs) h z = block_at-has i a xs (ground arith) z
