-- ===== src/ByteBuffer/Bounds.antt =====
-- Memory safety of the byte buffer: the cursor stays inside, and no access leaves the storage.
use tesla_moonlight_ubuntu.Base.{
  ℕ, ◌+◌, ◌-◌, ◌^◌, ◌≤◌, ◌<◌, ◌≡◌, Bool, true, false, Option, none, some, List, ◌++◌, leb, length,
  take, drop, if◌then◌else◌, length-append, length-take, length-drop, arith,
}
use tesla_moonlight_ubuntu.ByteBuffer.{
  ByteBuffer, advance_buffer, copy_in, copy_out, get_bytes, put_bytes, get_word, put_word,
  byte_swap, word_bytes,
}
use tesla_moonlight_ubuntu.ByteBuffer.Bytes.{length-word_bytes}

-- The buffer was made over storage of at least `size` bytes, `size` came from an `int`, and the
-- cursor is inside.
pub record IsValid (b : ByteBuffer) : Type 0 where
  pub storage : b.size ≤ length b.buffer
  pub small : b.size < 2 ^ 31
  pub inside : b.position ≤ b.size

pub copy_out_inside :
    (bytes : List ℕ) (i n : ℕ)
    → i + n ≤ length bytes
    → copy_out bytes i n ≡ some (take n (drop i bytes))
unfolding copy_out
copy_out_inside bytes i n h = ground arith

pub copy_in_inside :
    (bytes : List ℕ) (i : ℕ) (src : List ℕ)
    → i + length src ≤ length bytes
    → copy_in bytes i src ≡ some (take i bytes ++ (src ++ drop (i + length src) bytes))
unfolding copy_in
copy_in_inside bytes i src h = ground arith

pub length-copy_in :
    (bytes : List ℕ) (i : ℕ) (src : List ℕ)
    → i + length src ≤ length bytes
    → length (take i bytes ++ (src ++ drop (i + length src) bytes)) ≡ length bytes
length-copy_in bytes i src h = omega (
  arith,
  length-append (take i bytes) (src ++ drop (i + length src) bytes),
  length-append src (drop (i + length src) bytes),
  length-take i bytes,
  length-drop (i + length src) bytes,
)

-- What a read or write leaves: it was inside the storage, and the buffer is valid again.
abbrev pub GoodRead {ℓ} : {A : Type ℓ} → Option (Bool × A × ByteBuffer) → Type 0
GoodRead none = ⊥
GoodRead (some (_, _, b)) = IsValid b

abbrev pub GoodWrite : Option (Bool × ByteBuffer) → Type 0
GoodWrite none = ⊥
GoodWrite (some (_, b)) = IsValid b

module _ {b : ByteBuffer} (v : IsValid b) where
  advance_buffer-IsValid : (offset : ℕ) → IsValid (advance_buffer b offset).1
  unfolding advance_buffer
  advance_buffer-IsValid offset = ground arith

  get_bytes-GoodRead : (n : ℕ) → n < 2 ^ 31 → GoodRead (get_bytes b n)
  unfolding get_bytes copy_out
  get_bytes-GoodRead n h = ground arith

  put_bytes-GoodWrite : (src : List ℕ) → length src < 2 ^ 31 → GoodWrite (put_bytes b src)
  unfolding put_bytes copy_in
  put_bytes-GoodWrite src h = ground (arith, length-copy_in b.buffer b.position src)

  get_word-GoodRead : (n : ℕ) → GoodRead (get_word n b)
  unfolding get_word copy_out
  get_word-GoodRead n = ground arith

  put_word-GoodWrite : (n x : ℕ) → GoodWrite (put_word n b x)
  unfolding put_word copy_in
  put_word-GoodWrite n x = ground (
    arith,
    length-word_bytes n (byte_swap n b x),
    length-copy_in b.buffer b.position (word_bytes n (byte_swap n b x)),
  )

  -- On a valid buffer every operation stays inside the caller's storage and leaves a valid
  -- buffer: `BbAdvanceBuffer` by any `int`, `BbGetBytes` and `BbPutBytes` of any length that is
  -- not negative, and the reads and writes of a word of any width.
  pub access_IsValid :
      (offset n k x : ℕ) (src : List ℕ)
      → n < 2 ^ 31
      → length src < 2 ^ 31
      → IsValid (advance_buffer b offset).1
        × GoodRead (get_bytes b n)
        × GoodWrite (put_bytes b src)
        × GoodRead (get_word k b)
        × GoodWrite (put_word k b x)
  access_IsValid offset n k x src hn hs = (
    advance_buffer-IsValid offset,
    get_bytes-GoodRead n hn,
    put_bytes-GoodWrite src hs,
    get_word-GoodRead k,
    put_word-GoodWrite k x,
  )

  -- `BbAdvanceBuffer` moves the cursor by a signed amount, forwards by `k` or backwards by `k`: it
  -- says no exactly if the cursor would leave the buffer, and then does not move it, although the
  -- sum is made in unsigned 32-bit arithmetic.
  pub advance_buffer_signed :
      (k : ℕ)
      → 0 < k
      → k < 2 ^ 31
      → (advance_buffer b k ≡ (
          if leb (b.position + k) b.size
          then (true, record b { position = b.position + k })
          else (false, b)))
        × (advance_buffer b (2 ^ 32 - k) ≡ (
            if leb k b.position
            then (true, record b { position = b.position - k })
            else (false, b)))
  unfolding advance_buffer
  advance_buffer_signed k h0 h = (ground arith, ground arith)
