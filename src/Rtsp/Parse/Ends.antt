-- ===== src/Rtsp/Parse/Ends.antt =====
-- The parser comes to an end, within its buffer if the message ends with a line.
use tesla_moonlight_ubuntu.Base.{
  ℕ, zero, suc, ◌<◌, ◌≤◌, ◌≡◌, refl, sym, ◌∙◌, ap, inl, inr, Bool, true, false, Option, none, some,
  List, [], ◌∷◌, ◌++◌, arith, ◌==◌, length, elim_false, elim_true, Bool-cases,
}
use tesla_moonlight_ubuntu.Rtsp.Types.{Text, OptionItem, Start, request, response, Message}
use tesla_moonlight_ubuntu.Rtsp.Types.Text.{
  is_end, is_delim, is_option_delim, atoi, skip_delims, behind, context_of, strtok, Token,
  first_token, token_at, same, starts_with,
}
use tesla_moonlight_ubuntu.Rtsp.Options.{insert_option}
use tesla_moonlight_ubuntu.Rtsp.Parse.{
  End, message_end, go_on, outside_buffer, check_end, Result, success, malformed, outside, no_fuel,
  parse_options, parse_start, parse_response, parse_request, parse_rest, packaged,
  parse_rtsp_message, rtsp, rtsp_version, option_of,
}

length-skip : (d : ℕ → Bool) (xs : Text) → length (skip_delims d xs) ≤ length xs
unfolding skip_delims
length-skip d [] = omega arith
length-skip d (x ∷ xs) = ground (arith, length-skip d xs)

length-behind : (d : ℕ → Bool) (xs : Text) → length (behind d xs) ≤ length xs
unfolding behind
length-behind d [] = omega arith
length-behind d (x ∷ xs) = ground (arith, length-behind d xs)

length-context : (xs : Text) → length (context_of xs) ≤ length xs
unfolding context_of
length-context [] = omega arith
length-context (x ∷ xs) = ground arith

-- What is skipped leaves no delimiter at the front.
skipped : (d : ℕ → Bool) (xs : Text) (y : ℕ) (ys : Text) → skip_delims d xs ≡ y ∷ ys → d y ≡ false
unfolding skip_delims
skipped d [] y ys e = absurd cc
skipped d (x ∷ xs) y ys e = elim (Bool-cases (d x)) [
  | inl t ↦ skipped d xs y ys (sym (elim_true _ _ t) ∙ e)
  | inr f ↦
      let h : x ≡ y = cc (sym (elim_false (skip_delims d xs) (x ∷ xs) f) ∙ e) in ap d (sym h) ∙ f
]

pub none-some : {t : Token} → none ≡ some t → ⊥
none-some {t = t} e = absurd cc

pub some_injective : {t u : Token} → some t ≡ some u → t ≡ u
some_injective e = cc

-- A token takes at least one byte.
pub strtok-shrinks :
    (d : ℕ → Bool) (xs : Text) (t : Token) → strtok d xs ≡ some t → length t.context < length xs
unfolding strtok
strtok-shrinks d xs t e = go (skip_delims d xs) refl e
  where
    go :
        (ys : Text)
        → skip_delims d xs ≡ ys
        → first_token d ys ≡ some t
        → length t.context < length xs
    go [] s h = absurd cc
    go (y ∷ ys) s h = elim (Bool-cases (y == 0)) [
      | inl z ↦ absurd (none-some (sym (elim_true none (some (token_at d (y ∷ ys))) z) ∙ h))
      | inr n ↦
          let u : token_at d (y ∷ ys) ≡ t =
            some_injective (sym (elim_false none (some (token_at d (y ∷ ys))) n) ∙ h) in
          let f = skipped d xs y ys s in
          let b : behind d (y ∷ ys) ≡ behind d ys =
            elim_false (y ∷ ys) (behind d ys) (ground arith) in
          let k : length t.context ≡ length (context_of (behind d ys)) =
            ap (λ x. length (Token.context x)) (sym u) ∙ ap (λ x. length (context_of x)) b in
          let l = length-context (behind d ys) in
          let m = length-behind d ys in
          let o = length-skip d xs in
          let w : length (skip_delims d xs) ≡ suc (length ys) = ap length s in omega arith
    ]

abbrev pub is_no_fuel {ℓ} : {A : Type ℓ} → Result A → Bool
is_no_fuel (success a) = false
is_no_fuel malformed = false
is_no_fuel outside = false
is_no_fuel no_fuel = true

parse_options-fuel :
    (f : ℕ) (os : List OptionItem) (ctx : Text)
    → length ctx < f
    → is_no_fuel (parse_options f os ctx) ≡ false
unfolding parse_options
parse_options-fuel zero os ctx h = absurd (omega arith)
parse_options-fuel (suc f) os ctx h =
    name (strtok is_option_delim ctx) refl (λ os' c l. parse_options-fuel f os' c l)
  where
    checked :
        (e : End) (os' : List OptionItem) (c : Text)
        → is_no_fuel (parse_options f os' c) ≡ false
        → is_no_fuel {A = List OptionItem × Option Text} (elim e [
          | message_end payload ↦ success (os', payload)
          | go_on ↦ parse_options f os' c
          | outside_buffer ↦ outside
        ])
          ≡ false
    checked (message_end p) os' c k = refl
    checked go_on os' c k = k
    checked outside_buffer os' c k = refl

    content :
        (opt : Token) (o : Option Token)
        → strtok is_end opt.context ≡ o
        → length opt.context < length ctx
        → ((os' : List OptionItem) (c : Text)
            → length c < f
            → is_no_fuel (parse_options f os' c) ≡ false)
        → is_no_fuel {A = List OptionItem × Option Text} (elim o [
          | none ↦ malformed
          | some token ↦
              let options' = insert_option os (option_of opt token) in
              elim (check_end token.end_check) [
                | message_end payload ↦ success (options', payload)
                | go_on ↦ parse_options f options' token.context
                | outside_buffer ↦ outside
              ]
        ])
          ≡ false
    content opt none e l ih = refl
    content opt (some token) e l ih =
        let m = strtok-shrinks is_end opt.context token e in
        checked (check_end token.end_check) (insert_option os (option_of opt token)) token.context
          (ih (insert_option os (option_of opt token)) token.context (omega arith))

    name :
        (o : Option Token)
        → strtok is_option_delim ctx ≡ o
        → ((os' : List OptionItem) (c : Text)
            → length c < f
            → is_no_fuel (parse_options f os' c) ≡ false)
        → is_no_fuel {A = List OptionItem × Option Text} (elim o [
          | none ↦ malformed
          | some opt ↦ elim (strtok is_end opt.context) [
            | none ↦ malformed
            | some token ↦
                let options' = insert_option os (option_of opt token) in
                elim (check_end token.end_check) [
                  | message_end payload ↦ success (options', payload)
                  | go_on ↦ parse_options f options' token.context
                  | outside_buffer ↦ outside
                ]
          ]
        ])
          ≡ false
    name none e ih = refl
    name (some opt) e ih =
        content opt (strtok is_end opt.context) refl (strtok-shrinks is_option_delim ctx opt e) ih

parse_rest-fuel :
    (f : ℕ) (line : Start × Text × Text)
    → length line.2 < f
    → is_no_fuel (parse_rest f line) ≡ false
parse_rest-fuel f (begin, protocol, ctx) h =
    version (same protocol rtsp_version) (parse_options-fuel f [] ctx h)
  where
    packed :
        (r : Result (List OptionItem × Option Text))
        → is_no_fuel r ≡ false
        → is_no_fuel (packaged begin protocol r) ≡ false
    packed (success (os, p)) k = refl
    packed malformed k = refl
    packed outside k = refl
    packed no_fuel k = absurd cc

    version :
        (v : Bool)
        → is_no_fuel (parse_options f [] ctx) ≡ false
        → is_no_fuel {A = Message}
            (elim v [ true ↦ packaged begin protocol (parse_options f [] ctx) | false ↦ malformed ])
          ≡ false
    version true k = packed (parse_options f [] ctx) k
    version false k = refl

-- Behind the first line, less of the buffer is left.
abbrev Shorter : Text → Option (Start × Text × Text) → Type 0
Shorter buffer none = Unit
Shorter buffer (some line) = length line.2 < length buffer

parse_response-Shorter :
    (buffer : Text) (token : Token)
    → length token.context < length buffer
    → Shorter buffer (parse_response token)
unfolding parse_response
parse_response-Shorter buffer token h = code (strtok is_delim token.context) refl
  where
    status :
        (t : Token) (o : Option Token)
        → strtok is_end t.context ≡ o
        → length t.context < length buffer
        → Shorter buffer (elim o [
          | none ↦ none
          | some s ↦ some (response (atoi t.text) s.text, token.text, s.context)
        ])
    status t none e l = tt
    status t (some s) e l = let m = strtok-shrinks is_end t.context s e in omega arith

    code :
        (o : Option Token)
        → strtok is_delim token.context ≡ o
        → Shorter buffer (elim o [
          | none ↦ none
          | some t ↦ elim (strtok is_end t.context) [
            | none ↦ none
            | some s ↦ some (response (atoi t.text) s.text, token.text, s.context)
          ]
        ])
    code none e = tt
    code (some t) e =
        let m = strtok-shrinks is_delim token.context t e in
        status t (strtok is_end t.context) refl (omega arith)

parse_request-Shorter :
    (buffer : Text) (token : Token)
    → length token.context < length buffer
    → Shorter buffer (parse_request token)
unfolding parse_request
parse_request-Shorter buffer token h = target (strtok is_delim token.context) refl
  where
    protocol :
        (t : Token) (o : Option Token)
        → strtok is_delim t.context ≡ o
        → length t.context < length buffer
        → Shorter buffer
            (elim o [ none ↦ none | some p ↦ some (request token.text t.text, p.text, p.context) ])
    protocol t none e l = tt
    protocol t (some s) e l = let m = strtok-shrinks is_delim t.context s e in omega arith

    target :
        (o : Option Token)
        → strtok is_delim token.context ≡ o
        → Shorter buffer (elim o [
          | none ↦ none
          | some t ↦ elim (strtok is_delim t.context) [
            | none ↦ none
            | some p ↦ some (request token.text t.text, p.text, p.context)
          ]
        ])
    target none e = tt
    target (some t) e =
        let m = strtok-shrinks is_delim token.context t e in
        protocol t (strtok is_delim t.context) refl (omega arith)

parse_start-Shorter : (buffer : Text) → Shorter buffer (parse_start buffer)
unfolding parse_start
parse_start-Shorter buffer = first (strtok is_delim buffer) refl
  where
    kind :
        (t : Token) (v : Bool)
        → length t.context < length buffer
        → Shorter buffer (elim v [ true ↦ parse_response t | false ↦ parse_request t ])
    kind t true l = parse_response-Shorter buffer t l
    kind t false l = parse_request-Shorter buffer t l

    first :
        (o : Option Token)
        → strtok is_delim buffer ≡ o
        → Shorter buffer (elim o [
          | none ↦ none
          | some t ↦ elim (starts_with t.text rtsp) [
            | true ↦ parse_response t
            | false ↦ parse_request t
          ]
        ])
    first none e = tt
    first (some t) e = kind t (starts_with t.text rtsp) (strtok-shrinks is_delim buffer t e)

-- The parser never runs out of fuel: its loop over the options ends for every message.
pub parse_rtsp_message_ends : (message : Text) → is_no_fuel (parse_rtsp_message message) ≡ false
unfolding parse_rtsp_message
parse_rtsp_message_ends message =
    lines (parse_start (message ++ (0 ∷ []))) (parse_start-Shorter (message ++ (0 ∷ [])))
  where
    lines :
        (o : Option (Start × Text × Text))
        → Shorter (message ++ (0 ∷ [])) o
        → is_no_fuel (elim o [
          | none ↦ malformed
          | some line ↦ parse_rest (length (message ++ (0 ∷ []))) line
        ])
          ≡ false
    lines none h = refl
    lines (some line) h = parse_rest-fuel (length (message ++ (0 ∷ []))) line h
