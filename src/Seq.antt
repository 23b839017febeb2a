-- ===== src/Seq.antt =====
-- Sequence numbers that wrap round: the macros `U16`, `isBefore16`, `isBefore24` and `isBefore32`
-- of Limelight-internal.h. A difference of `unsigned int`s is taken modulo 2^32 before the mask,
-- so the operands may be words of up to 32 bits.
pub mod Window
mod Tests
use tesla_moonlight_ubuntu.Base.{ℕ, ◌+◌, ◌-◌, ◌%◌, ◌^◌, Bool, ltb}

-- `U16(x)`
abbrev pub u16 : ℕ → ℕ
u16 x = x % 2 ^ 16

-- `U16((x) - (y))`, `U24` and `U32` of the same
abbrev pub diff16 : ℕ → ℕ → ℕ
diff16 x y = (x + 2 ^ 32 - y) % 2 ^ 16

abbrev pub diff24 : ℕ → ℕ → ℕ
diff24 x y = (x + 2 ^ 32 - y) % 2 ^ 24

abbrev pub diff32 : ℕ → ℕ → ℕ
diff32 x y = (x + 2 ^ 32 - y) % 2 ^ 32

unfoldable pub is_before16 : ℕ → ℕ → Bool
is_before16 x y = ltb 32767 (diff16 x y)

unfoldable pub is_before24 : ℕ → ℕ → Bool
is_before24 x y = ltb 8388607 (diff24 x y)

unfoldable pub is_before32 : ℕ → ℕ → Bool
is_before32 x y = ltb 2147483647 (diff32 x y)
