-- ===== src/Rtsp/Parse/Tokens.antt =====
-- What `strtok_r` finds at the front of a buffer.
use tesla_moonlight_ubuntu.Base.{
  ℕ, ◌≡◌, refl, ◌∙◌, ap, Bool, true, false, ◌||◌, some, [], ◌∷◌, ◌++◌, arith, ◌==◌, elim_false,
  elim_true, if_false,
}
use tesla_moonlight_ubuntu.Rtsp.Types.{Text}
use tesla_moonlight_ubuntu.Rtsp.Types.Text.{
  skip_delims, token_of, behind, context_of, strtok, Token, first_token, token_at, tail_of,
}

-- No byte is a delimiter or the terminator.
abbrev pub Free : (ℕ → Bool) → Text → Type 0
Free d [] = Unit
Free d (c ∷ cs) = ((d c || (c == 0)) ≡ false) × Free d cs

token_of-append :
    (d : ℕ → Bool) (xs : Text) (c : ℕ) (rest : Text)
    → Free d xs
    → d c ≡ true
    → (token_of d (xs ++ (c ∷ rest)) ≡ xs) × (behind d (xs ++ (c ∷ rest)) ≡ c ∷ rest)
unfolding token_of behind
token_of-append d [] c rest h e = (rw (e, token_of) refl, rw (e, behind) refl)
token_of-append d (x ∷ xs) c rest h e =
    let ih = token_of-append d xs c rest h.1 e in
    let f = h.0 in (rw (f, token_of, ih.0) refl, rw (f, behind, ih.1) refl)

skip-stay : (d : ℕ → Bool) (x : ℕ) (xs : Text) → d x ≡ false → skip_delims d (x ∷ xs) ≡ x ∷ xs
unfolding skip_delims
skip-stay d x xs e = elim_false _ _ e

first_token-some :
    (d : ℕ → Bool) (x : ℕ) (xs : Text)
    → (x == 0) ≡ false
    → first_token d (x ∷ xs) ≡ some (token_at d (x ∷ xs))
first_token-some d x xs e = elim_false _ _ e

abbrev token_with : Text → Text → Token
token_with t b = record { text = t; end_check = tail_of b; context = context_of b }

token_eq : {t t' b b' : Text} → t ≡ t' → b ≡ b' → token_with t b ≡ token_with t' b'
token_eq p q = rw (p, q) refl

-- A token that a delimiter ends is found whole, and the next call begins behind the delimiter.
pub strtok-append :
    (d : ℕ → Bool) (x : ℕ) (xs : Text) (c : ℕ) (rest : Text)
    → Free d (x ∷ xs)
    → d c ≡ true
    → (c == 0) ≡ false
    → strtok d ((x ∷ xs) ++ (c ∷ rest))
      ≡ some (record { text = x ∷ xs; end_check = rest; context = rest })
unfolding strtok context_of
strtok-append d x xs c rest h e z =
    let t = token_of-append d (x ∷ xs) c rest h e in
    let f : d x ≡ false = ground (arith, h.0) in
    let g : (x == 0) ≡ false = ground (arith, h.0) in
    let k : context_of (c ∷ rest) ≡ rest = if_false _ _ z in
    ap (first_token d) (skip-stay d x (xs ++ (c ∷ rest)) f)
    ∙ first_token-some d x (xs ++ (c ∷ rest)) g
    ∙ ap some (token_eq t.0 t.1)
    ∙ ap (λ y. some (record { text = x ∷ xs; end_check = rest; context = y })) k

-- A leading delimiter is skipped.
pub strtok-skip :
    (d : ℕ → Bool) (c : ℕ) (rest : Text) → d c ≡ true → strtok d (c ∷ rest) ≡ strtok d rest
unfolding strtok skip_delims
strtok-skip d c rest e = ap (first_token d) (elim_true _ _ e)
