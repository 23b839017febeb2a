-- ===== src/Depacketizer/Nal/Loops.antt =====
-- The loops over NAL units end.
use tesla_moonlight_ubuntu.Base.{
  ℕ, zero, suc, ◌≤◌, ◌<◌, ◌≡◌, refl, sym, inl, inr, Bool, true, false, arith, Bool-cases,
}
use mathlib.Core.Path.{subst}
use tesla_moonlight_ubuntu.Depacketizer.Nal.{
  BufferDesc, skip_to_next_nal_or_end, skip_to_next_nal, skip_while,
}
use tesla_moonlight_ubuntu.Depacketizer.Nal.Window.{
  IsWithin, IsWithin-refl, IsWithin-trans, skip-IsWithin, skip-progress,
}

-- A test that only holds where data is left
abbrev pub NeedsData : (BufferDesc → Bool) → Type 0
NeedsData p = (b : BufferDesc) → p b ≡ true → 0 < b.size

skip_while-stay :
    (f : ℕ) (p : BufferDesc → Bool) (b : BufferDesc) → p b ≡ false → skip_while f p b ≡ b
unfolding skip_while
skip_while-stay zero p b e = refl
skip_while-stay (suc f) p b e = rw (e, skip_while) refl

skip_while-move :
    (f : ℕ) (p : BufferDesc → Bool) (b : BufferDesc)
    → p b ≡ true
    → skip_while (suc f) p b ≡ skip_while f p (skip_to_next_nal_or_end b)
unfolding skip_while skip_to_next_nal
skip_while-move f p b e = rw (e, skip_while) refl

pub skip_while-IsWithin :
    (f : ℕ) (p : BufferDesc → Bool) (b : BufferDesc) → IsWithin b (skip_while f p b)
unfolding skip_while
skip_while-IsWithin zero p b = IsWithin-refl b
skip_while-IsWithin (suc f) p b = elim (Bool-cases (p b)) [
  | inl e ↦ subst (IsWithin b) (sym (skip_while-move f p b e)) (
      IsWithin-trans b (skip_to_next_nal_or_end b) (skip_while f p (skip_to_next_nal_or_end b))
        (skip-IsWithin b) (skip_while-IsWithin f p (skip_to_next_nal_or_end b)))
  | inr e ↦ subst (IsWithin b) (sym (skip_while-stay (suc f) p b e)) (IsWithin-refl b)
]

-- With the number of bytes that are left as fuel, a loop over NAL units whose test needs data
-- ends because its test fails.
pub skip_while_ends :
    (p : BufferDesc → Bool) (b : BufferDesc) (f : ℕ)
    → NeedsData p
    → b.size ≤ f
    → p (skip_while f p b) ≡ false
unfolding skip_while
skip_while_ends p b zero need le = elim (Bool-cases (p b)) [
  | inl e ↦ absurd (omega (arith, need b e))
  | inr e ↦ e
]
skip_while_ends p b (suc f) need le = elim (Bool-cases (p b)) [
  | inl e ↦
      subst (λ r. p r ≡ false) (sym (skip_while-move f p b e))
        (skip_while_ends p (skip_to_next_nal_or_end b) f need
          (omega (arith, skip-progress b (need b e))))
  | inr e ↦ subst (λ r. p r ≡ false) (sym (skip_while-stay (suc f) p b e)) e
]
