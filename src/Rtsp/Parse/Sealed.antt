-- ===== src/Rtsp/Parse/Sealed.antt =====
-- Buffers that end with a line end and the terminator, and tokens in them.
use tesla_moonlight_ubuntu.Base.{
  ℕ, ◌≡◌, sym, ◌∙◌, ap, Bool, true, false, ◌||◌, none, some, [], ◌∷◌, arith, ◌==◌, elim_false,
  elim_true, if_false, Bool-cases, ◌⊎◌, inl, inr,
}
use mathlib.Core.Path.{subst}
use tesla_moonlight_ubuntu.Rtsp.Types.{Text}
use tesla_moonlight_ubuntu.Rtsp.Types.Text.{
  is_end, skip_delims, behind, context_of, strtok, Token, first_token, token_at, tail_of,
}
use tesla_moonlight_ubuntu.Rtsp.Parse.{End, message_end, go_on, outside_buffer, check_end}
use tesla_moonlight_ubuntu.Rtsp.Parse.Ends.{none-some, some_injective}

-- The rest of a buffer: a terminator at the end, no other before it, and a line end before it
abbrev pub Sealed : Text → Type 0
Sealed [] = ⊥
Sealed (c ∷ []) = (c == 0) ≡ true
Sealed (c ∷ d ∷ cs) = ((c == 0) ≡ false) × ((d == 0) ≡ true → is_end c ≡ true) × Sealed (d ∷ cs)

-- Line ends are among the delimiters, the terminator is not.
abbrev pub EndsLines : (ℕ → Bool) → Type 0
EndsLines d = (d 0 ≡ false) × ((c : ℕ) → is_end c ≡ true → d c ≡ true)

skip-Sealed : (d : ℕ → Bool) (xs : Text) → EndsLines d → Sealed xs → Sealed (skip_delims d xs)
unfolding skip_delims
skip-Sealed d [] k h = h
skip-Sealed d (c ∷ []) k h =
    let z : c ≡ 0 = ground arith in
    let f : d c ≡ false = ap d z ∙ k.0 in subst Sealed (sym (elim_false _ _ f)) h
skip-Sealed d (c ∷ e ∷ cs) k h = elim (Bool-cases (d c)) [
  | inl t ↦ subst Sealed (sym (elim_true _ _ t)) (skip-Sealed d (e ∷ cs) k h.2)
  | inr f ↦ subst Sealed (sym (elim_false _ _ f)) h
]

-- A token in it is followed by a delimiter.
behind-Sealed :
    (d : ℕ → Bool) (x : ℕ) (xs : Text)
    → EndsLines d
    → Sealed (x ∷ xs)
    → (x == 0) ≡ false
    → (e : ℕ) × (rest : Text) × (behind d (x ∷ xs) ≡ e ∷ rest) × ((e == 0) ≡ false) × Sealed rest
unfolding behind
behind-Sealed d x [] k h z = absurd cc
behind-Sealed d x (y ∷ ys) k h z = elim (Bool-cases (d x || (x == 0))) [
  | inl t ↦ (x, y ∷ ys, elim_true _ _ t, z, h.2)
  | inr f ↦
      let n : (y == 0) ≡ false = not_last (Bool-cases (y == 0)) f in
      let r = behind-Sealed d y ys k h.2 n in (r.0, r.1, elim_false _ _ f ∙ r.2, r.3, r.4)
]
  where
    not_last : ((y == 0) ≡ true) ⊎ ((y == 0) ≡ false) → (d x || (x == 0)) ≡ false → (y == 0) ≡ false
    not_last (inr n) f = n
    not_last (inl e) f = let l = k.1 x (h.1 e) in absurd (ground (arith, l, f))

pub strtok-Sealed :
    (d : ℕ → Bool) (xs : Text) (t : Token)
    → EndsLines d
    → Sealed xs
    → strtok d xs ≡ some t
    → Sealed t.end_check × Sealed t.context
unfolding strtok context_of
strtok-Sealed d xs t k h e = go (skip_delims d xs) (skip-Sealed d xs k h) e
  where
    go : (ys : Text) → Sealed ys → first_token d ys ≡ some t → Sealed t.end_check × Sealed t.context
    go [] s f = elim s [ ]
    go (y ∷ ys) s f = elim (Bool-cases (y == 0)) [
      | inl z ↦ absurd (none-some (sym (elim_true none (some (token_at d (y ∷ ys))) z) ∙ f))
      | inr n ↦
          let u : token_at d (y ∷ ys) ≡ t =
            some_injective (sym (elim_false none (some (token_at d (y ∷ ys))) n) ∙ f) in
          let b = behind-Sealed d y ys k s n in
          let x : t.end_check ≡ b.1 = ap (λ w. Token.end_check w) (sym u) ∙ ap tail_of b.2 in
          let c : t.context ≡ b.1 =
            ap (λ w. Token.context w) (sym u) ∙ ap context_of b.2 ∙ if_false _ _ b.3 in
          (subst Sealed (sym x) b.4, subst Sealed (sym c) b.4)
    ]

abbrev pub is_outside_end : End → Bool
is_outside_end (message_end p) = false
is_outside_end go_on = false
is_outside_end outside_buffer = true

pub check_end-Sealed : (xs : Text) → Sealed xs → is_outside_end (check_end xs) ≡ false
unfolding check_end
check_end-Sealed [] h = elim h [ ]
check_end-Sealed (a ∷ []) h = ground (arith, h)
check_end-Sealed (a ∷ b ∷ []) h = ground (arith, h.2)
check_end-Sealed (a ∷ b ∷ c ∷ []) h = ground (arith, h.2.2)
check_end-Sealed (a ∷ b ∷ c ∷ d ∷ cs) h = ground arith
