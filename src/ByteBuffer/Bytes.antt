-- ===== src/ByteBuffer/Bytes.antt =====
-- The byte layout of words: both directions of the little-endian layout, and the swap.
use tesla_moonlight_ubuntu.Base.{
  ℕ, zero, suc, ◌+◌, ◌*◌, ◌/◌, ◌%◌, ◌^◌, ◌<◌, ◌≡◌, refl, sym, ap, ◌∙◌, List, [], ◌∷◌, ◌++◌, length,
  length-append, arith,
}
use mathlib.Core.List.{reverse, reverse-reverse, reverse-append}
use native.Mathlib.Nat.{pow-suc}
use tesla_moonlight_ubuntu.ByteBuffer.{word_bytes, bytes_word, bswap}

-- every element is a byte
abbrev pub AllBytes : List ℕ → Type 0
AllBytes [] = Unit
AllBytes (b ∷ bs) = (b < 256) × AllBytes bs

pub length-word_bytes : (n x : ℕ) → length (word_bytes n x) ≡ n
unfolding word_bytes
length-word_bytes zero x = refl
length-word_bytes (suc n) x = ap suc (length-word_bytes n (x / 256))

pub AllBytes-word_bytes : (n x : ℕ) → AllBytes (word_bytes n x)
unfolding word_bytes
AllBytes-word_bytes zero x = tt
AllBytes-word_bytes (suc n) x = (omega arith, AllBytes-word_bytes n (x / 256))

pub AllBytes-append : (xs ys : List ℕ) → AllBytes xs → AllBytes ys → AllBytes (xs ++ ys)
AllBytes-append [] ys hx hy = hy
AllBytes-append (x ∷ xs) ys hx hy = (hx.0, AllBytes-append xs ys hx.1 hy)

AllBytes-reverse : (xs : List ℕ) → AllBytes xs → AllBytes (reverse xs)
AllBytes-reverse [] h = tt
AllBytes-reverse (x ∷ xs) h =
    rw (reverse-append (x ∷ []) xs)
      (AllBytes-append (reverse xs) (x ∷ []) (AllBytes-reverse xs h.1) (h.0, tt))

pub length-reverse : (xs : List ℕ) → length (reverse xs) ≡ length xs
length-reverse [] = refl
length-reverse (x ∷ xs) =
    rw (reverse-append (x ∷ []) xs)
      (omega (arith, length-append (reverse xs) (x ∷ []), length-reverse xs))

pub bytes_word-word_bytes : (n x : ℕ) → x < 256 ^ n → bytes_word (word_bytes n x) ≡ x
unfolding word_bytes bytes_word
bytes_word-word_bytes zero x h = omega arith
bytes_word-word_bytes (suc n) x h =
    omega (arith, pow-suc 256 n, bytes_word-word_bytes n (x / 256) (omega (arith, pow-suc 256 n)))

pub word_bytes-bytes_word :
    (bs : List ℕ) → AllBytes bs → word_bytes (length bs) (bytes_word bs) ≡ bs
unfolding word_bytes bytes_word
word_bytes-bytes_word [] h = refl
word_bytes-bytes_word (b ∷ bs) h =
    let low : (b + 256 * bytes_word bs) % 256 ≡ b = omega arith in
    let high : (b + 256 * bytes_word bs) / 256 ≡ bytes_word bs = omega arith in
    rw (low, high, word_bytes-bytes_word bs h.1)

pub word_bytes-bswap : (n x : ℕ) → word_bytes n (bswap n x) ≡ reverse (word_bytes n x)
unfolding bswap
word_bytes-bswap n x =
    let e : length (reverse (word_bytes n x)) ≡ n =
      length-reverse (word_bytes n x) ∙ length-word_bytes n x in
    ap (λ k. word_bytes k (bytes_word (reverse (word_bytes n x)))) (sym e)
    ∙ word_bytes-bytes_word (reverse (word_bytes n x))
        (AllBytes-reverse (word_bytes n x) (AllBytes-word_bytes n x))

-- Swapping a word's bytes twice gives the word back.
pub bswap-bswap : (n x : ℕ) → x < 256 ^ n → bswap n (bswap n x) ≡ x
unfolding bswap
bswap-bswap n x h =
    ap (λ bs. bytes_word (reverse bs)) (word_bytes-bswap n x)
    ∙ ap bytes_word (reverse-reverse (word_bytes n x))
    ∙ bytes_word-word_bytes n x h
