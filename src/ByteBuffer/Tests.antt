-- ===== src/ByteBuffer/Tests.antt =====
-- Runs of the byte buffer, and its theorems at concrete buffers.
use tesla_moonlight_ubuntu.Base.{
  ◌-◌, ◌+◌, ◌^◌, ◌≡◌, refl, true, false, some, [], ◌∷◌, leb, if◌then◌else◌, arith,
}
use tesla_moonlight_ubuntu.ByteBuffer.{
  ByteBuffer, little, big, initialize_wrapped_buffer, advance_buffer, get_bytes, put_bytes,
  get_word, put_word, get16, put32, get64, rewind_buffer, word_bytes, bytes_word, bswap, copy_in,
  copy_out, byte_swap,
}
use tesla_moonlight_ubuntu.ByteBuffer.Bounds.{
  IsValid, GoodRead, GoodWrite, access_IsValid, advance_buffer_signed,
}
use tesla_moonlight_ubuntu.ByteBuffer.RoundTrip.{Written, get_word-put_word}

abbrev sample : ByteBuffer
sample = record { buffer = 1 ∷ 2 ∷ 3 ∷ 4 ∷ 5 ∷ 6 ∷ []; size = 6; position = 1; byte_order = big }

sample-IsValid : IsValid sample
sample-IsValid = omega arith

get16_big : get16 sample ≡ some (true, 0x0203, record sample { position = 3 })
unfolding get_word copy_out byte_swap bswap bytes_word word_bytes
get16_big = refl

get64_short : get64 sample ≡ some (false, 0, sample)
unfolding get_word
get64_short = refl

put32_big :
    put32 sample 0xa0b0c0d0
    ≡ some (true, record sample { buffer = 1 ∷ 0xa0 ∷ 0xb0 ∷ 0xc0 ∷ 0xd0 ∷ 6 ∷ []; position = 5 })
unfolding put_word copy_in byte_swap bswap bytes_word word_bytes
put32_big = refl

wrapped_from_offset :
    rewind_buffer (initialize_wrapped_buffer (9 ∷ 8 ∷ 7 ∷ []) 1 2 little)
    ≡ record { buffer = 8 ∷ 7 ∷ []; size = 2; position = 0; byte_order = little }
unfolding initialize_wrapped_buffer rewind_buffer
wrapped_from_offset = refl

access_IsValid_example :
    IsValid (advance_buffer sample 0xffff_ffff).1
    × GoodRead (get_bytes sample 2)
    × GoodWrite (put_bytes sample (7 ∷ 7 ∷ []))
    × GoodRead (get_word 4 sample)
    × GoodWrite (put_word 4 sample 0xdead)
access_IsValid_example =
    access_IsValid sample-IsValid 0xffff_ffff 2 4 0xdead (7 ∷ 7 ∷ []) (omega arith) (omega arith)

advance_buffer_signed_example :
    (advance_buffer sample 2
      ≡ (if leb (1 + 2) 6 then (true, record sample { position = 1 + 2 }) else (false, sample)))
    × (advance_buffer sample (2 ^ 32 - 2)
        ≡ (if leb 2 1 then (true, record sample { position = 1 - 2 }) else (false, sample)))
advance_buffer_signed_example = advance_buffer_signed sample-IsValid 2 (omega arith) (omega arith)

get_word-put_word_example :
    (b' : ByteBuffer) × (put_word 4 sample 0xa0b0c0d0 ≡ some (true, b'))
    × Written 4 0xa0b0c0d0 sample b'
get_word-put_word_example =
    get_word-put_word sample-IsValid 4 0xa0b0c0d0 (omega arith) (omega arith)
