-- ===== src/AudioQueue/Links/Checks.antt =====
-- The list stays a doubly linked one, and the assertions on its links hold.
use tesla_moonlight_ubuntu.Base.{
  ℕ, zero, suc, ◌≤◌, ◌<◌, ◌≡◌, ◌≢◌, refl, sym, ◌∙◌, Bool, true, false, List, [], ◌∷◌, ◌==◌, arith,
  length, Bool-cases, inl, inr,
}
use mathlib.Core.Path.{subst}
use tesla_moonlight_ubuntu.AudioQueue.Links.{
  Memory, BlockList, no_blocks, search, clear, insert_before, insert_tail, insert_links,
  free_head_links, links_hold, validate_links,
}
use tesla_moonlight_ubuntu.AudioQueue.Links.Chain.{
  has, last_of, Chain, IsLinked, Chain-frame, before_at, block_at, put_at,
}
use tesla_moonlight_ubuntu.AudioQueue.Links.Insertion.{
  IsPut, apart, head_after, put_at-Chain, insert_before-IsPut, insert_tail-IsPut,
}
use tesla_moonlight_ubuntu.AudioQueue.Links.Places.{
  search-Chain, prev-Chain, block_at-found, block_at-listed, block_at-apart, block_at-end,
  before_at-end, put_at-end, put_at-last, before_at-block,
}

-- No block of the list and not its end is the new block.
before_at-apart :
    (i x before : ℕ) (xs : List ℕ)
    → (before == x) ≡ false
    → has x xs ≡ false
    → (before_at i before xs == x) ≡ false
before_at-apart zero x before xs b out = b
before_at-apart (suc i) x before [] b out = b
before_at-apart (suc i) x before (y ∷ xs) b out =
    before_at-apart i x y xs (ground arith) (ground arith)

clear-Chain :
    (m : Memory) (x : ℕ) (xs : List ℕ) (p : ℕ)
    → has x xs ≡ false
    → Chain m 0 xs p
    → Chain (clear m x) 0 xs p
clear-Chain m x xs p out c =
    Chain-frame m (clear m x) 0 xs p c (λ a h. let n = apart a x xs h out in ground arith)

Chain-no_zero :
    (m : Memory) (before : ℕ) (xs : List ℕ) (p : ℕ) → Chain m before xs p → has 0 xs ≡ false
Chain-no_zero m before [] p c = refl
Chain-no_zero m before (x ∷ xs) p c =
    let n = c.1 in ground (arith, Chain-no_zero m x xs (m x).next c.4)

insert_tail-head :
    (s : BlockList) (x : ℕ) (xs : List ℕ)
    → Chain s.memory 0 xs s.head
    → (insert_tail s x).head ≡ head_after (length xs) x s.head
unfolding insert_tail
insert_tail-head s x [] c = ground arith
insert_tail-head s x (y ∷ xs) c = let e = c.0 in let n = c.1 in ground arith

insert_tail-IsLinked :
    (s : BlockList) (x : ℕ) (xs : List ℕ)
    → IsLinked s xs
    → (s.memory x).next ≡ 0
    → x ≢ 0
    → has x xs ≡ false
    → IsLinked (insert_tail s x) (put_at (length xs) x xs)
unfolding insert_tail
insert_tail-IsLinked s x xs l z ne out =
    let e : before_at (length xs) 0 xs ≡ s.tail = before_at-end 0 xs ∙ sym l.ending in
    let zx : (0 == x) ≡ false = ground arith in
    let tx : (s.tail == x) ≡ false =
      subst (λ t. (t == x) ≡ false) e (before_at-apart (length xs) x 0 xs zx out) in
    let g = (insert_tail s x).memory in
    let put : IsPut s.memory g (before_at (length xs) 0 xs) (block_at (length xs) xs) x =
      rw (e, block_at-end xs) (insert_tail-IsPut s x z tx) in
    let c =
      put_at-Chain s.memory (insert_tail s x).memory (length xs) x 0 xs s.head l.chain ne out
        (Chain-no_zero s.memory 0 xs s.head l.chain) zx (omega arith) put in
    record { chain = rw (insert_tail-head s x xs l.chain) c; ending = sym (put_at-end x 0 xs) }

insert_before-head :
    (s : BlockList) (i x : ℕ) (xs : List ℕ)
    → Chain s.memory 0 xs s.head
    → i < length xs
    → (insert_before s (block_at i xs) x).head ≡ head_after i x s.head
unfolding insert_before
insert_before-head s zero x xs c lt =
    let e = prev-Chain s.memory 0 zero xs s.head c lt in ground (arith, e)
insert_before-head s (suc i) x xs c lt =
    let e = prev-Chain s.memory 0 (suc i) xs s.head c lt in
    let n = before_at-block s.memory 0 i xs s.head c (omega arith) in ground (arith, e, n)

insert_before-IsLinked :
    (s : BlockList) (i x : ℕ) (xs : List ℕ)
    → IsLinked s xs
    → x ≢ 0
    → has x xs ≡ false
    → i < length xs
    → IsLinked (insert_before s (block_at i xs) x) (put_at i x xs)
unfolding insert_before
insert_before-IsLinked s i x xs l ne out lt =
    let c = l.chain in
    let zx : (0 == x) ≡ false = ground arith in
    let no_zero = Chain-no_zero s.memory 0 xs s.head c in
    let put =
      insert_before-IsPut s (block_at i xs) x (before_at i 0 xs)
        (prev-Chain s.memory 0 i xs s.head c lt)
        (apart (block_at i xs) x xs (block_at-listed i xs lt) out) (before_at-apart i x 0 xs zx out)
        (block_at-apart s.memory 0 i xs s.head c no_zero lt) in
    let d =
      put_at-Chain s.memory (insert_before s (block_at i xs) x).memory i x 0 xs s.head c ne out
        no_zero zx (omega arith) put in
    record {
      chain = rw (insert_before-head s i x xs c lt) d;
      ending = l.ending ∙ sym (put_at-last i x 0 xs lt);
    }

insert_links-IsLinked :
    (s : BlockList) (i x : ℕ) (xs : List ℕ)
    → IsLinked s xs
    → x ≢ 0
    → has x xs ≡ false
    → i ≤ length xs
    → IsLinked (insert_links s (search s.memory i s.head) x) (put_at i x xs)
unfolding insert_links
insert_links-IsLinked s i x xs l ne out le =
    let cleared : BlockList = record s { memory = clear s.memory x } in
    let k : IsLinked cleared xs = record {
      chain = clear-Chain s.memory x xs s.head out l.chain;
      ending = l.ending;
    } in
    rw (search-Chain s.memory 0 i xs s.head l.chain le) (elim (Bool-cases (i == length xs)) [
      | inl e ↦
          let at_end : i ≡ length xs = ground (arith, e) in
          rw (at_end, block_at-end xs) (insert_tail-IsLinked cleared x xs k (ground arith) ne out)
      | inr n ↦
          let lt : i < length xs = ground (arith, n) in
          rw (block_at-found s.memory 0 i xs s.head l.chain lt)
            (insert_before-IsLinked cleared i x xs k ne out lt)
    ])

free_last :
    (is_cached : Bool) (free_head : ℕ) (s : BlockList) (x : ℕ)
    → IsLinked s (x ∷ [])
    → IsLinked (free_head_links is_cached free_head s) []
unfolding free_head_links
free_last is_cached free_head s x l =
    let h = l.chain.0 in let e = l.chain.4 in record { chain = ground arith; ending = ground arith }

-- What taking off the head `x` in front of `y` does
pub record IsTakenOff (m g : Memory) (x y : ℕ) : Type 0 where
  pub first_prev : (g y).prev ≡ 0
  pub first_next : (g y).next ≡ (m y).next
  pub rest_same : (a : ℕ) → (a == x) ≡ false → (a == y) ≡ false → g a ≡ m a

free_head-IsTakenOff :
    (is_cached : Bool) (free_head : ℕ) (s : BlockList) (x y : ℕ)
    → s.head ≡ x
    → (s.memory x).next ≡ y
    → y ≢ 0
    → (x == y) ≡ false
    → IsTakenOff s.memory (free_head_links is_cached free_head s).memory x y
unfolding free_head_links
free_head-IsTakenOff false free_head s x y h n ne d = record {
  first_prev = ground arith;
  first_next = ground arith;
  rest_same = λ a p q. ground arith;
}
free_head-IsTakenOff true free_head s x y h n ne d = record {
  first_prev = ground arith;
  first_next = ground arith;
  rest_same = λ a p q. ground arith;
}

free_head-ends :
    (is_cached : Bool) (free_head : ℕ) (s : BlockList) (x y : ℕ)
    → s.head ≡ x
    → (s.memory x).next ≡ y
    → y ≢ 0
    → ((free_head_links is_cached free_head s).head ≡ y)
      × ((free_head_links is_cached free_head s).tail ≡ s.tail)
unfolding free_head_links
free_head-ends is_cached free_head s x y h n ne = (ground arith, ground arith)

free_head-IsLinked :
    (is_cached : Bool) (free_head : ℕ) (s : BlockList) (x : ℕ) (xs : List ℕ)
    → IsLinked s (x ∷ xs)
    → IsLinked (free_head_links is_cached free_head s) xs
free_head-IsLinked is_cached free_head s x [] l = free_last is_cached free_head s x l
free_head-IsLinked is_cached free_head s x (y ∷ xs) l =
    let h = l.chain.0 in
    let c = l.chain.4 in
    let fresh = l.chain.3 in
    let g = (free_head_links is_cached free_head s).memory in
    let d : (x == y) ≡ false = ground arith in
    let t = free_head-IsTakenOff is_cached free_head s x y h c.0 c.1 d in
    let ends = free_head-ends is_cached free_head s x y h c.0 c.1 in
    let rest =
      Chain-frame s.memory g y xs (s.memory y).next c.4
        (λ a k. t.rest_same a (apart a x xs k (ground arith)) (apart a y xs k c.3)) in
    record {
      chain = (ends.0, c.1, t.first_prev, c.3, rw t.first_next rest);
      ending = ends.1 ∙ l.ending;
    }

links-Chain :
    (m : Memory) (tail before f : ℕ) (xs : List ℕ) (p : ℕ)
    → Chain m before xs p
    → (0 < length xs → tail ≡ last_of before xs)
    → length xs ≤ f
    → links_hold f tail before p m ≡ true
unfolding links_hold
links-Chain m tail before zero [] p c e le = ground arith
links-Chain m tail before (suc f) [] p c e le = ground arith
links-Chain m tail before zero (x ∷ xs) p c e le = absurd (omega arith)
links-Chain m tail before (suc f) (x ∷ []) p c e le =
    let rest =
      links-Chain m tail x f [] (m x).next c.4 (λ z. absurd (omega (arith, z))) (omega arith) in
    let t : tail ≡ x = e (omega arith) in
    let ne = c.1 in let b = c.2 in let n = c.4 in rw c.0 (ground (arith, t, b, n, rest))
links-Chain m tail before (suc f) (x ∷ y ∷ xs) p c e le =
    let rest =
      links-Chain m tail x f (y ∷ xs) (m x).next c.4 (λ z. e (omega arith)) (omega arith) in
    let ne = c.1 in
    let b = c.2 in let n = c.4.0 in let ny = c.4.1 in rw c.0 (ground (arith, b, n, rest))

validate_links-IsLinked :
    (s : BlockList) (xs : List ℕ) → IsLinked s xs → validate_links (length xs) s ≡ true
unfolding validate_links
validate_links-IsLinked s [] l = let h = l.chain in ground arith
validate_links-IsLinked s (x ∷ []) l =
    let h = l.chain.0 in
    let b = l.chain.2 in
    let n = l.chain.4 in
    let rest =
      links-Chain s.memory s.tail x 1 [] (s.memory x).next n (λ z. absurd (omega (arith, z)))
        (omega arith) in
    ground arith
validate_links-IsLinked s (x ∷ y ∷ xs) l =
    let h = l.chain.0 in
    let b = l.chain.2 in
    let rest =
      links-Chain s.memory s.tail x (length (x ∷ y ∷ xs)) (y ∷ xs) (s.memory x).next l.chain.4
        (λ z. l.ending) (omega arith) in
    ground arith

-- The histories of the list: a new block is put in behind any number of blocks, and the first one
-- is taken off, to be cached or freed. `xs` are the blocks that are in the list.
pub data Made : BlockList → List ℕ → Type 0 where
  none_yet : (m : Memory) → Made (no_blocks m) []
  inserted :
      {s : BlockList} {xs : List ℕ} (i x : ℕ)
      → x ≢ 0
      → has x xs ≡ false
      → i ≤ length xs
      → Made s xs
      → Made (insert_links s (search s.memory i s.head) x) (put_at i x xs)
  freed :
      {s : BlockList} {x : ℕ} {xs : List ℕ} (is_cached : Bool) (free_head : ℕ)
      → Made s (x ∷ xs)
      → Made (free_head_links is_cached free_head s) xs

Made-IsLinked : {s : BlockList} {xs : List ℕ} → Made s xs → IsLinked s xs
Made-IsLinked (none_yet m) = record { chain = refl; ending = refl }
Made-IsLinked (inserted {s} {xs} i x ne out le r) =
    insert_links-IsLinked s i x xs (Made-IsLinked r) ne out le
Made-IsLinked (freed {s} {x} {xs} is_cached free_head r) =
    free_head-IsLinked is_cached free_head s x xs (Made-IsLinked r)

-- Whatever blocks are put in and taken off, where the search of `getFecBlockForRtpPacket` leads to
-- any place up to the end, and a new block is not NULL and not in the list: the assertions of
-- `validateFecBlockState` on the links hold, and the list is the sequence of the blocks in their
-- order, linked both ways from the head to the tail.
pub link_checks :
    (s : BlockList) (xs : List ℕ)
    → Made s xs
    → (validate_links (length xs) s ≡ true) × IsLinked s xs
link_checks s xs r = let l = Made-IsLinked r in (validate_links-IsLinked s xs l, l)
