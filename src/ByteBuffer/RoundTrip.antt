-- ===== src/ByteBuffer/RoundTrip.antt =====
-- What is written into a byte buffer is read back, and nothing else changes.
use tesla_moonlight_ubuntu.Base.{
  ℕ, zero, suc, ◌+◌, ◌%◌, ◌^◌, ◌≤◌, ◌<◌, ◌≡◌, refl, ap, sym, ◌∙◌, true, some, List, [], ◌∷◌, ◌++◌,
  length, take, drop, arith,
}
use mathlib.Core.List.{reverse}
use tesla_moonlight_ubuntu.ByteBuffer.{
  ByteBuffer, ByteOrder, little, big, get_word, put_word, byte_swap, byte_swap_order, word_bytes,
  bytes_word, bswap,
}
use tesla_moonlight_ubuntu.ByteBuffer.Bytes.{
  length-word_bytes, bytes_word-word_bytes, word_bytes-bswap, bswap-bswap,
}
use tesla_moonlight_ubuntu.ByteBuffer.Bounds.{
  IsValid, copy_in_inside, copy_out_inside, length-copy_in,
}

module _ {ℓ} {A : Type ℓ} where
  -- Reading a written stretch gives what was written, and the rest is as before.
  take-drop_written :
      (i : ℕ) (xs src rest : List A)
      → i ≤ length xs
      → take (length src) (drop i (take i xs ++ (src ++ rest))) ≡ src
  take-drop_written zero xs [] rest h = refl
  take-drop_written zero xs (s ∷ src) rest h =
      ap (λ t. s ∷ t) (take-drop_written zero xs src rest h)
  take-drop_written (suc i) [] src rest h = absurd (omega arith)
  take-drop_written (suc i) (x ∷ xs) src rest h = take-drop_written i xs src rest (omega arith)

  take_before : (i : ℕ) (xs rest : List A) → i ≤ length xs → take i (take i xs ++ rest) ≡ take i xs
  take_before zero xs rest h = refl
  take_before (suc i) [] rest h = absurd (omega arith)
  take_before (suc i) (x ∷ xs) rest h = ap (λ t. x ∷ t) (take_before i xs rest (omega arith))

  drop_written : (src rest : List A) → drop (length src) (src ++ rest) ≡ rest
  drop_written [] rest = refl
  drop_written (s ∷ src) rest = drop_written src rest

  drop_after :
      (i : ℕ) (xs src rest : List A)
      → i ≤ length xs
      → drop (i + length src) (take i xs ++ (src ++ rest)) ≡ rest
  drop_after zero xs src rest h =
      let e : 0 + length src ≡ length src = omega arith in
      ap (λ k. drop k (src ++ rest)) e ∙ drop_written src rest
  drop_after (suc i) [] src rest h = absurd (omega arith)
  drop_after (suc i) (x ∷ xs) src rest h =
      let e : suc i + length src ≡ suc (i + length src) = omega arith in
      ap (λ k. drop k (x ∷ (take i xs ++ (src ++ rest)))) e ∙ drop_after i xs src rest (omega arith)

-- How a word of `n` bytes lies in the buffer.
abbrev pub layout : ByteOrder → ℕ → ℕ → List ℕ
layout little n x = word_bytes n x
layout big n x = reverse (word_bytes n x)

word_bytes-byte_swap :
    (n : ℕ) (b : ByteBuffer) (x : ℕ) → word_bytes n (byte_swap n b x) ≡ layout b.byte_order n x
unfolding byte_swap
word_bytes-byte_swap n b x = go b.byte_order
  where
    go : (o : ByteOrder) → word_bytes n (byte_swap_order o n x) ≡ layout o n x
    go little = refl
    go big = word_bytes-bswap n x

-- The swap undoes itself through memory.
byte_swap_back :
    (n : ℕ) (b : ByteBuffer) (x : ℕ)
    → x < 256 ^ n
    → byte_swap n b (bytes_word (word_bytes n (byte_swap n b x))) ≡ x
unfolding byte_swap bswap
byte_swap_back n b x h = go b.byte_order
  where
    go :
        (o : ByteOrder)
        → byte_swap_order o n (bytes_word (word_bytes n (byte_swap_order o n x))) ≡ x
    go little = bytes_word-word_bytes n x h
    go big = ap (λ bs. bswap n (bytes_word bs)) (word_bytes-bswap n x) ∙ bswap-bswap n x h

-- `b'` is `b` with the word `x` of `n` bytes written at its cursor.
pub record Written (n x : ℕ) (b b' : ByteBuffer) : Type 0 where
  pub read : get_word n (record b' { position = b.position }) ≡ some (true, x, b')
  pub before : take b.position b'.buffer ≡ take b.position b.buffer
  pub stored : take n (drop b.position b'.buffer) ≡ layout b.byte_order n x
  pub after : drop (b.position + n) b'.buffer ≡ drop (b.position + n) b.buffer
  pub moved : b'.position ≡ b.position + n

module _ {b : ByteBuffer} (v : IsValid b) (n x : ℕ) (room : b.position + n ≤ b.size) where
  abbrev bytes : List ℕ
  bytes = word_bytes n (byte_swap n b x)

  abbrev after_write : ByteBuffer
  after_write = record b {
    buffer = take b.position b.buffer ++ (bytes ++ drop (b.position + length bytes) b.buffer);
    position = (b.position + n) % 2 ^ 32;
  }

  put_word-ok : put_word n b x ≡ some (true, after_write)
  unfolding put_word
  put_word-ok =
      let len = length-word_bytes n (byte_swap n b x) in
      ground (arith, len, copy_in_inside b.buffer b.position bytes)

  stored_bytes : take n (drop b.position after_write.buffer) ≡ bytes
  stored_bytes =
      let len = length-word_bytes n (byte_swap n b x) in
      ap (λ k. take k (drop b.position after_write.buffer)) (sym len)
      ∙ take-drop_written b.position b.buffer bytes (drop (b.position + length bytes) b.buffer)
          (omega arith)

  read_back :
      x < 256 ^ n
      → get_word n (record after_write { position = b.position }) ≡ some (true, x, after_write)
  unfolding get_word byte_swap
  read_back h =
      let len = length-word_bytes n (byte_swap n b x) in
      let tot = length-copy_in b.buffer b.position bytes (omega arith) in
      ground (
        arith,
        tot,
        copy_out_inside after_write.buffer b.position n,
        stored_bytes,
        byte_swap_back n b x h,
      )

  -- On a valid buffer with room for it, a written word of `n` bytes is read back from the same
  -- place. It lies there least significant byte first, or most significant first in a big-endian
  -- buffer; the bytes before and after it are as they were, and the cursor stands behind it.
  pub get_word-put_word :
      x < 256 ^ n → (b' : ByteBuffer) × (put_word n b x ≡ some (true, b')) × Written n x b b'
  get_word-put_word h =
      let len = length-word_bytes n (byte_swap n b x) in
      let e : b.position + n ≡ b.position + length bytes = omega arith in
      (
        after_write,
        put_word-ok,
        record {
          read = read_back h;
          before = take_before b.position b.buffer _ (omega arith);
          stored = stored_bytes ∙ word_bytes-byte_swap n b x;
          after = rw e (drop_after b.position b.buffer bytes _ (omega arith));
          moved = omega arith;
        },
      )
