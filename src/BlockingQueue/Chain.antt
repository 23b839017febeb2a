-- ===== src/BlockingQueue/Chain.antt =====
-- The doubly linked chain of entries on the heap, and what the link writes do to it.
use tesla_moonlight_ubuntu.Base.{ℕ, ◌≡◌, ◌≢◌, Bool, true, false, ◌||◌, [], ◌∷◌, ◌++◌, ◌==◌, arith}
use tesla_moonlight_ubuntu.BlockingQueue.{Heap, write, prepare, link_first, link_last}
use tesla_moonlight_ubuntu.BlockingQueue.Fifo.{Cells}

abbrev pub has : ℕ → Cells → Bool
has a [] = false
has a ((p, d) ∷ cells) = (p == a) || has a cells

abbrev pub last_of : ℕ → Cells → ℕ
last_of prev [] = prev
last_of prev ((p, d) ∷ cells) = last_of p cells

-- From the pointer `p` the entries lead through the distinct `cells` to NULL, each pointing back
-- to the one before it, the first to `prev`.
abbrev pub Chain : Heap → ℕ → Cells → ℕ → Type 0
Chain h prev [] p = p ≡ 0
Chain h prev ((x, d) ∷ cells) p =
    (p ≡ x)
    × (x ≢ 0)
    × ((h x).blink ≡ prev)
    × ((h x).item ≡ d)
    × (has x cells ≡ false)
    × Chain h x cells (h x).flink

-- A chain survives any change that spares its entries.
pub Chain-frame :
    (h g : Heap) (prev : ℕ) (cells : Cells) (p : ℕ)
    → Chain h prev cells p
    → ((a : ℕ) → has a cells ≡ true → g a ≡ h a)
    → Chain g prev cells p
Chain-frame h g prev [] p c same = c
Chain-frame h g prev ((x, d) ∷ cells) p c same =
    let e : g x ≡ h x = same x (ground arith) in
    rw e (
      c.0,
      c.1,
      c.2,
      c.3,
      c.4,
      Chain-frame h g x cells (h x).flink c.5 (λ a m. same a (ground arith)),
    )

pub has-last_of :
    (prev x d : ℕ) (cells : Cells) → has (last_of prev ((x, d) ∷ cells)) ((x, d) ∷ cells) ≡ true
has-last_of prev x d [] = ground arith
has-last_of prev x d ((y, d') ∷ cells) = ground (arith, has-last_of x y d' cells)

-- The chain starts at NULL exactly if it is empty.
pub Chain-zero :
    (h : Heap) (prev : ℕ) (cells : Cells) (p : ℕ)
    → Chain h prev cells p
    → (p == 0) ≡ elim cells [ [] ↦ true | c ∷ cs ↦ false ]
Chain-zero h prev [] p c = ground arith
Chain-zero h prev ((x, d) ∷ cells) p c = ground arith

pub has-append :
    (a e d : ℕ) (cells : Cells) → has a (cells ++ ((e, d) ∷ [])) ≡ (has a cells || (e == a))
has-append a e d [] = ground arith
has-append a e d (c ∷ cells) = ground (arith, has-append a e d cells)

pub link_last_other :
    (h : Heap) (t e d a : ℕ)
    → (t == a) ≡ false
    → (e == a) ≡ false
    → link_last (prepare h e d) t e a ≡ h a
unfolding prepare link_last write
link_last_other h t e d a p q = ground arith

-- Linking a new entry in behind the last one extends the chain by it.
pub Chain-snoc :
    (h : Heap) (prev e d : ℕ) (x dx : ℕ) (cells : Cells) (p : ℕ)
    → Chain h prev ((x, dx) ∷ cells) p
    → e ≢ 0
    → has e ((x, dx) ∷ cells) ≡ false
    → Chain
        (link_last (prepare h e d) (last_of prev ((x, dx) ∷ cells)) e)
        prev
        (((x, dx) ∷ cells) ++ ((e, d) ∷ []))
        p
unfolding prepare link_last
Chain-snoc h prev e d x dx [] p c ne out = ground arith
Chain-snoc h prev e d x dx ((y, dy) ∷ cells) p c ne out =
    let ih = Chain-snoc h x e d y dy cells (h x).flink c.5 ne (ground arith) in
    let hl = has-last_of x y dy cells in
    let apart : (last_of x ((y, dy) ∷ cells) == x) ≡ false = ground arith in
    let same = link_last_other h (last_of x ((y, dy) ∷ cells)) e d x apart (ground arith) in
    let fresh = has-append x e d ((y, dy) ∷ cells) in rw same (c.0, c.1, c.2, c.3, ground arith, ih)

-- Linking a new entry into an empty queue makes it the only one.
pub Chain-first :
    (h : Heap) (e d : ℕ) → e ≢ 0 → Chain (link_first (prepare h e d) e) 0 ((e, d) ∷ []) e
unfolding prepare link_first write
Chain-first h e d ne = ground arith

-- Without its first entry, and with the next one pointing back to NULL, it is a chain again.
pub Chain-rest :
    (h : Heap) (x y dy : ℕ) (cells : Cells) (p : ℕ)
    → Chain h x ((y, dy) ∷ cells) p
    → Chain (write h y (record (h y) { blink = 0 })) 0 ((y, dy) ∷ cells) y
unfolding write
Chain-rest h x y dy cells p c =
    let g : Heap = write h y (record (h y) { blink = 0 }) in
    let rest = Chain-frame h g y cells (h y).flink c.5 (λ a m. ground arith) in ground arith
