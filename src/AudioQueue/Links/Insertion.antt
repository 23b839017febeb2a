-- ===== src/AudioQueue/Links/Insertion.antt =====
-- A block that is linked in at a place of the list.
use tesla_moonlight_ubuntu.Base.{
  ℕ, zero, suc, ◌≤◌, ◌≡◌, ◌≢◌, refl, ◌∙◌, true, false, List, [], ◌∷◌, ◌==◌, arith, length,
}
use tesla_moonlight_ubuntu.AudioQueue.Links.{Memory, BlockList, insert_before, insert_tail}
use tesla_moonlight_ubuntu.AudioQueue.Links.Chain.{
  has, Chain, Chain-frame, before_at, block_at, put_at, has-put_at, before_at-has, block_at-has,
}

-- What linking `x` in between `before` and `after` does to the memory
pub record IsPut (m g : Memory) (before after x : ℕ) : Type 0 where
  pub own_prev : (g x).prev ≡ before
  pub own_next : (g x).next ≡ after
  pub after_prev : after ≢ 0 → (g after).prev ≡ x
  pub after_next : after ≢ 0 → (g after).next ≡ (m after).next
  pub before_next : before ≢ 0 → (g before).next ≡ x
  pub before_prev : before ≢ 0 → (g before).prev ≡ (m before).prev
  pub other : (a : ℕ) → (a == x) ≡ false → (a == after) ≡ false → (a == before) ≡ false → g a ≡ m a

pub apart : (a b : ℕ) (xs : List ℕ) → has a xs ≡ true → has b xs ≡ false → (a == b) ≡ false
apart a b [] h k = absurd cc
apart a b (x ∷ xs) h k = ground (arith, apart a b xs)

abbrev pub head_after : ℕ → (x p : ℕ) → ℕ
head_after zero x p = x
head_after (suc i) x p = p

pub put_at-Chain :
    (m g : Memory) (i x before : ℕ) (xs : List ℕ) (p : ℕ)
    → Chain m before xs p
    → x ≢ 0
    → has x xs ≡ false
    → has before xs ≡ false
    → (before == x) ≡ false
    → i ≤ length xs
    → IsPut m g (before_at i before xs) (block_at i xs) x
    → Chain g before (put_at i x xs) (head_after i x p)
put_at-Chain m g zero x before [] p c ne out b bx le put =
    (refl, ne, put.own_prev, refl, put.own_next)
put_at-Chain m g zero x before (y ∷ ys) p c ne out b bx le put =
    let tail = Chain-frame m g y ys (m y).next c.4 (λ a h.
      put.other a (apart a x ys h (ground arith)) (apart a y ys h c.3)
        (apart a before ys h (ground arith))) in
    (
      refl,
      ne,
      put.own_prev,
      out,
      (put.own_next, c.1, put.after_prev c.1, c.3, rw (put.after_next c.1) tail),
    )
put_at-Chain m g (suc i) x before [] p c ne out b bx le put = absurd (omega arith)
put_at-Chain m g (suc zero) x before (z ∷ zs) p c ne out b bx le put =
    let zx : (z == x) ≡ false = ground arith in
    let rest =
      put_at-Chain m g zero x z zs (m z).next c.4 ne (ground arith) c.3 zx (omega arith) put in
    (
      c.0,
      c.1,
      put.before_prev c.1 ∙ c.2,
      ground (arith, has-put_at z zero x zs),
      rw (put.before_next c.1) rest,
    )
put_at-Chain m g (suc (suc i)) x before (z ∷ []) p c ne out b bx le put = absurd (omega arith)
put_at-Chain m g (suc (suc i)) x before (z ∷ y ∷ ys) p c ne out b bx le put =
    let zx : (z == x) ≡ false = ground arith in
    let in_rest = before_at-has i y ys in
    let pr = apart (before_at i y ys) z (y ∷ ys) in_rest c.3 in
    let e = block_at-has i z ys (ground arith) c.1 in
    let same : g z ≡ m z = put.other z zx (ground arith) (ground arith) in
    let rest =
      put_at-Chain m g (suc i) x z (y ∷ ys) (m z).next c.4 ne (ground arith) c.3 zx (omega arith)
        put in
    let fresh = has-put_at z (suc i) x (y ∷ ys) in
    rw same (c.0, c.1, c.2, ground (arith, fresh), rest)

-- The two ways of the code to link a block in
pub insert_before-IsPut :
    (s : BlockList) (e x before : ℕ)
    → (s.memory e).prev ≡ before
    → (e == x) ≡ false
    → (before == x) ≡ false
    → (e == before) ≡ false
    → IsPut s.memory (insert_before s e x).memory before e x
unfolding insert_before
insert_before-IsPut s e x before p ex bx eb = record {
  own_prev = ground arith;
  own_next = ground arith;
  after_prev = λ n. ground arith;
  after_next = λ n. ground arith;
  before_next = λ n. ground arith;
  before_prev = λ n. ground arith;
  other = λ a h k l. ground arith;
}

pub insert_tail-IsPut :
    (s : BlockList) (x : ℕ)
    → (s.memory x).next ≡ 0
    → (s.tail == x) ≡ false
    → IsPut s.memory (insert_tail s x).memory s.tail 0 x
unfolding insert_tail
insert_tail-IsPut s x z tx = record {
  own_prev = ground arith;
  own_next = ground arith;
  after_prev = λ n. absurd (n refl);
  after_next = λ n. absurd (n refl);
  before_next = λ n. ground arith;
  before_prev = λ n. ground arith;
  other = λ a h k l. ground arith;
}
