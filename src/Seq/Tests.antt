-- ===== src/Seq/Tests.antt =====
-- The theorems on wrapping sequence numbers at concrete numbers.
use tesla_moonlight_ubuntu.Base.{◌^◌, ◌≡◌, ◌↔◌, true, false, ltb, arith, refl}
use tesla_moonlight_ubuntu.Seq.{diff16, is_before16, is_before24, is_before32}
use tesla_moonlight_ubuntu.Seq.Window.{is_before16_window, is_before_asymmetry}

wraps : is_before16 65535 3 ≡ true
unfolding is_before16
wraps = refl

is_before16_window_example : is_before16 65535 3 ≡ ltb (diff16 65535 65530) (diff16 3 65530)
is_before16_window_example =
    is_before16_window 65530 65535 3 (omega arith) (omega arith) (omega arith) (omega arith)
      (omega arith)

is_before_asymmetry_example :
    (is_before16 1 1 ≡ false)
    × (is_before24 1 1 ≡ false)
    × (is_before32 1 1 ≡ false)
    × (((is_before16 1 32769 ≡ true) × (is_before16 32769 1 ≡ true)) ↔ (diff16 1 32769 ≡ 2 ^ 15))
is_before_asymmetry_example = is_before_asymmetry 1 32769 (omega arith) (omega arith)
