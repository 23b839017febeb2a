-- ===== src/Depacketizer/Nal.antt =====
-- The Annex B start sequences of H.264 and HEVC: the tests on the NAL unit at the cursor, and the
-- loops that move the cursor from one to the next.
pub mod Window
pub mod Loops
use tesla_moonlight_ubuntu.Base.{
  ℕ, zero, suc, ◌+◌, ◌-◌, ◌/◌, ◌%◌, Bool, true, false, ◌&&◌, ◌||◌, Option, none, some, List, ◌==◌,
  ltb, leb, get_or, if◌then◌else◌,
}
use tesla_moonlight_ubuntu.Depacketizer.Types.{Host, is_h264, is_h265}

-- `BUFFER_DESC`
pub record BufferDesc : Type 0 where
  pub bytes : List ℕ
  pub offset : ℕ
  pub size : ℕ

-- `data[offset + i]`
abbrev pub byte_at : BufferDesc → ℕ → ℕ
byte_at b i = get_or b.bytes (b.offset + i) 0

-- `getAnnexBStartSequence`: the length of the start sequence at the cursor
unfoldable pub get_annex_b_start_sequence : BufferDesc → Option ℕ
get_annex_b_start_sequence b =
    if leb b.size 3
    then none
    else if (byte_at b 0 == 0) && (byte_at b 1 == 0)
    then (if byte_at b 2 == 0
        then (if ltb 4 b.size && (byte_at b 3 == 1) then some 4 else none)
        else if byte_at b 2 == 1
        then some 3
        else none)
    else none

unfoldable pub at_start_sequence : BufferDesc → Bool
at_start_sequence b = elim (get_annex_b_start_sequence b) [ none ↦ false | some n ↦ true ]

-- `H264_NAL_TYPE` and `HEVC_NAL_TYPE`
abbrev pub h264_nal_type : ℕ → ℕ
h264_nal_type x = x % 32

abbrev pub hevc_nal_type : ℕ → ℕ
hevc_nal_type x = x / 2 % 64

-- The test that the predicates on NAL units share: a start sequence, and behind it a type that the
-- negotiated format's test accepts.
abbrev nal_is : Host → (ℕ → Bool) → (ℕ → Bool) → BufferDesc → Bool
nal_is c h264 hevc b = elim (get_annex_b_start_sequence b) [
  | none ↦ false
  | some n ↦
      if is_h264 c
      then h264 (h264_nal_type (byte_at b n))
      else if is_h265 c
      then hevc (hevc_nal_type (byte_at b n))
      else false
]

unfoldable pub is_seq_reference_frame_start : Host → BufferDesc → Bool
is_seq_reference_frame_start c = nal_is c (λ t. t == 5) (λ t. leb 16 t && leb t 21)

unfoldable pub is_access_unit_delimiter : Host → BufferDesc → Bool
is_access_unit_delimiter c = nal_is c (λ t. t == 9) (λ t. t == 35)

unfoldable pub is_sei_nal : Host → BufferDesc → Bool
is_sei_nal c = nal_is c (λ t. t == 6) (λ t. t == 39)

unfoldable pub is_picture_parameter_set_nal : Host → BufferDesc → Bool
is_picture_parameter_set_nal c = nal_is c (λ t. t == 8) (λ t. t == 34)

unfoldable pub is_idr_frame_start : Host → BufferDesc → Bool
is_idr_frame_start c = nal_is c (λ t. t == 7) (λ t. t == 32)

-- `buffer->offset += n; buffer->length -= n;`
abbrev pub advance : ℕ → BufferDesc → BufferDesc
advance n b = record b { offset = b.offset + n; size = b.size - n }

-- The loop of `skipToNextNalOrEnd`: the first argument is the length at the loop's test.
unfoldable pub find_start : ℕ → List ℕ → ℕ → BufferDesc
find_start zero bytes off = record { bytes = bytes; offset = off; size = 0 }
find_start (suc n) bytes off =
    elim (at_start_sequence (record { bytes = bytes; offset = off; size = suc n })) [
      | true ↦ record { bytes = bytes; offset = off; size = suc n }
      | false ↦ find_start n bytes (off + 1)
    ]

abbrev seek : BufferDesc → BufferDesc
seek b = find_start b.size b.bytes b.offset

unfoldable pub skip_to_next_nal_or_end : BufferDesc → BufferDesc
skip_to_next_nal_or_end b = elim (get_annex_b_start_sequence b) [
  | some n ↦ seek (advance n b)
  | none ↦ seek b
]

-- `skipToNextNal`, whose assertion a release build drops
unfoldable pub skip_to_next_nal : BufferDesc → BufferDesc
skip_to_next_nal b = skip_to_next_nal_or_end b

-- The loops over the NAL units that a test accepts, on fuel: `while (isSeiNal(...))`, the same
-- with `isAccessUnitDelimiter`, and `while (currentPos->length != 0)` behind picture data.
unfoldable pub skip_while : ℕ → (BufferDesc → Bool) → BufferDesc → BufferDesc
skip_while zero p b = b
skip_while (suc f) p b = elim (p b) [ true ↦ skip_while f p (skip_to_next_nal b) | false ↦ b ]

abbrev pub not_empty : BufferDesc → Bool
not_empty b = ltb 0 b.size
