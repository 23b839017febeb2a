-- ===== src/ByteBuffer.antt =====
-- ByteBuffer.c: a cursor over a caller's bytes, with typed reads and writes in either byte order.
-- The host is little-endian, as on the targets of this repository. The storage is the bytes from
-- `data + offset` on. A read or write outside that storage is `none`; the theorems of
-- `ByteBuffer.Bounds` rule it out.
pub mod Bytes
pub mod Bounds
pub mod RoundTrip
mod Tests
use tesla_moonlight_ubuntu.Base.{
  ℕ, zero, suc, ◌+◌, ◌*◌, ◌/◌, ◌%◌, ◌^◌, Bool, true, false, Option, none, some, List, [], ◌∷◌, ◌++◌,
  ltb, leb, ◌==◌, if◌then◌else◌, length, take, drop, replicate,
}
use mathlib.Core.List.{reverse}

-- `BYTE_ORDER_LITTLE` and `BYTE_ORDER_BIG`
pub data ByteOrder : Type 0 where
  little big : ByteOrder

-- `BYTE_BUFFER`; `length` and `position` are `unsigned int`s.
pub record ByteBuffer : Type 0 where
  pub buffer : List ℕ
  pub size : ℕ
  pub position : ℕ
  pub byte_order : ByteOrder

-- An `int` argument is its bit pattern, which is what the sums with an `unsigned int` read.
abbrev pub add_u32 : ℕ → ℕ → ℕ
add_u32 a b = (a + b) % 2 ^ 32

pub initialize_wrapped_buffer : List ℕ → ℕ → ℕ → ByteOrder → ByteBuffer
initialize_wrapped_buffer bytes offset len order = record {
  buffer = drop offset bytes;
  size = len;
  position = 0;
  byte_order = order;
}

pub advance_buffer : ByteBuffer → ℕ → Bool × ByteBuffer
advance_buffer b offset =
    if ltb b.size (add_u32 b.position offset)
    then (false, b)
    else (true, record b { position = add_u32 b.position offset })

pub rewind_buffer : ByteBuffer → ByteBuffer
rewind_buffer b = record b { position = 0 }

-- `memcpy` from and to the storage at an index: `none` outside it
unfoldable pub copy_out : List ℕ → ℕ → ℕ → Option (List ℕ)
copy_out bytes i n = if leb (i + n) (length bytes) then some (take n (drop i bytes)) else none

unfoldable pub copy_in : List ℕ → ℕ → List ℕ → Option (List ℕ)
copy_in bytes i src =
    if leb (i + length src) (length bytes)
    then some (take i bytes ++ (src ++ drop (i + length src) bytes))
    else none

-- A short read clears the destination. The list is what `data` holds afterwards.
pub get_bytes : ByteBuffer → ℕ → Option (Bool × List ℕ × ByteBuffer)
get_bytes b n =
    if ltb b.size (add_u32 b.position n)
    then some (false, replicate n 0, b)
    else elim (copy_out b.buffer b.position n) [
      | none ↦ none
      | some bytes ↦ some (true, bytes, record b { position = add_u32 b.position n })
    ]

pub put_bytes : ByteBuffer → List ℕ → Option (Bool × ByteBuffer)
put_bytes b src =
    if ltb b.size (add_u32 b.position (length src))
    then some (false, b)
    else elim (copy_in b.buffer b.position src) [
      | none ↦ none
      | some bytes ↦
          some (true, record b { buffer = bytes; position = add_u32 b.position (length src) })
    ]

-- The bytes of a word in memory, least significant first, and the word that bytes in memory make.
unfoldable pub word_bytes : ℕ → ℕ → List ℕ
word_bytes zero x = []
word_bytes (suc n) x = (x % 256) ∷ word_bytes n (x / 256)

unfoldable pub bytes_word : List ℕ → ℕ
bytes_word [] = 0
bytes_word (b ∷ bs) = b + 256 * bytes_word bs

-- `BSWAP16`, `BSWAP32` and `BSWAP64`, for a word of `n` bytes
unfoldable pub bswap : ℕ → ℕ → ℕ
bswap n x = bytes_word (reverse (word_bytes n x))

-- `byteSwap16`, `byteSwap32` and `byteSwap64` on a little-endian host, where `BE16` and the like
-- swap and `LE16` and the like do not
abbrev pub byte_swap_order : ByteOrder → ℕ → ℕ → ℕ
byte_swap_order little n x = x
byte_swap_order big n x = bswap n x

unfoldable pub byte_swap : ℕ → ByteBuffer → ℕ → ℕ
byte_swap n b x = byte_swap_order b.byte_order n x

-- The body that `BbGet16`, `BbGet32` and `BbGet64` share, for a word of `n` bytes. `sizeof` is a
-- `size_t`, so this sum is made in 64 bits and does not wrap.
pub get_word : ℕ → ByteBuffer → Option (Bool × ℕ × ByteBuffer)
get_word n b =
    if ltb b.size (b.position + n)
    then some (false, 0, b)
    else elim (copy_out b.buffer b.position n) [
      | none ↦ none
      | some bytes ↦ some (
        true,
        byte_swap n b (bytes_word bytes),
        record b { position = (b.position + n) % 2 ^ 32 },
      )
    ]

-- The body that `BbPut16`, `BbPut32` and `BbPut64` share
pub put_word : ℕ → ByteBuffer → ℕ → Option (Bool × ByteBuffer)
put_word n b x =
    if ltb b.size (b.position + n)
    then some (false, b)
    else elim (copy_in b.buffer b.position (word_bytes n (byte_swap n b x))) [
      | none ↦ none
      | some bytes ↦ some (true, record b { buffer = bytes; position = (b.position + n) % 2 ^ 32 })
    ]

abbrev pub get16 : ByteBuffer → Option (Bool × ℕ × ByteBuffer)
get16 = get_word 2

abbrev pub get32 : ByteBuffer → Option (Bool × ℕ × ByteBuffer)
get32 = get_word 4

abbrev pub get64 : ByteBuffer → Option (Bool × ℕ × ByteBuffer)
get64 = get_word 8

abbrev pub put16 : ByteBuffer → ℕ → Option (Bool × ByteBuffer)
put16 = put_word 2

abbrev pub put32 : ByteBuffer → ℕ → Option (Bool × ByteBuffer)
put32 = put_word 4

abbrev pub put64 : ByteBuffer → ℕ → Option (Bool × ByteBuffer)
put64 = put_word 8

-- `BbGet8` and `BbPut8` move one byte.
pub get8 : ByteBuffer → Option (Bool × List ℕ × ByteBuffer)
get8 b = get_bytes b 1

pub put8 : ByteBuffer → ℕ → Option (Bool × ByteBuffer)
put8 b c = put_bytes b (c ∷ [])
