-- ===== src/Seq/Window.antt =====
-- What the wrapping comparison of sequence numbers means: inside a window of at most half the
-- range, it is the order of the distances from the window's first number.
use tesla_moonlight_ubuntu.Base.{ℕ, ◌^◌, ◌<◌, ◌≡◌, ◌↔◌, true, false, ltb, arith}
use tesla_moonlight_ubuntu.Seq.{diff16, is_before16, is_before24, is_before32}

-- For two numbers less than 2^15 above the same base (all three being 16-bit values), the
-- wrapping test `isBefore16` holds exactly if the first lies closer to the base than the second,
-- wherever the window wraps round.
pub is_before16_window :
    (base x y : ℕ)
    → base < 2 ^ 16
    → x < 2 ^ 16
    → y < 2 ^ 16
    → diff16 x base < 2 ^ 15
    → diff16 y base < 2 ^ 15
    → is_before16 x y ≡ ltb (diff16 x base) (diff16 y base)
unfolding is_before16
is_before16_window base x y hb hx hy wx wy = ground arith

-- For 16-bit values, the three wrapping tests are irreflexive, and `isBefore16` holds in both
-- directions exactly for numbers that lie half of its range apart.
pub is_before_asymmetry :
    (x y : ℕ)
    → x < 2 ^ 16
    → y < 2 ^ 16
    → (is_before16 x x ≡ false)
      × (is_before24 x x ≡ false)
      × (is_before32 x x ≡ false)
      × (((is_before16 x y ≡ true) × (is_before16 y x ≡ true)) ↔ (diff16 x y ≡ 2 ^ 15))
unfolding is_before16 is_before24 is_before32
is_before_asymmetry x y hx hy =
    (ground arith, ground arith, ground arith, (ground arith, ground arith))
