-- ===== src/Rtsp/Parse/Inside.antt =====
-- A message that ends with a line end is read within its buffer.
use tesla_moonlight_ubuntu.Base.{
  ℕ, zero, suc, ◌≡◌, refl, Bool, true, false, Option, none, some, List, [], ◌∷◌, ◌++◌, arith,
  length,
}
use tesla_moonlight_ubuntu.Rtsp.Types.{Text, OptionItem, Start, request, response, Message}
use tesla_moonlight_ubuntu.Rtsp.Types.Text.{
  is_end, is_delim, is_option_delim, strtok, Token, same, starts_with, atoi,
}
use tesla_moonlight_ubuntu.Rtsp.Options.{insert_option}
use tesla_moonlight_ubuntu.Rtsp.Parse.{
  End, message_end, go_on, outside_buffer, check_end, Result, success, malformed, outside, no_fuel,
  parse_options, parse_start, parse_response, parse_request, parse_rest, packaged,
  parse_rtsp_message, rtsp, rtsp_version, option_of,
}
use tesla_moonlight_ubuntu.Rtsp.Parse.Tokens.{Free}
use tesla_moonlight_ubuntu.Rtsp.Parse.Sealed.{
  Sealed, EndsLines, strtok-Sealed, check_end-Sealed, is_outside_end,
}

abbrev pub is_outside {ℓ} : {A : Type ℓ} → Result A → Bool
is_outside (success a) = false
is_outside malformed = false
is_outside outside = true
is_outside no_fuel = false

option_delim-EndsLines : EndsLines is_option_delim
option_delim-EndsLines = (refl, λ c e. ground (arith, e))

delim-EndsLines : EndsLines is_delim
delim-EndsLines = (refl, λ c e. ground (arith, e))

end-EndsLines : EndsLines is_end
end-EndsLines = (refl, λ c e. e)

parse_options-Sealed :
    (f : ℕ) (os : List OptionItem) (ctx : Text)
    → Sealed ctx
    → is_outside (parse_options f os ctx) ≡ false
unfolding parse_options
parse_options-Sealed zero os ctx h = refl
parse_options-Sealed (suc f) os ctx h =
    name (strtok is_option_delim ctx) refl (λ os' c s. parse_options-Sealed f os' c s)
  where
    checked :
        (e : End) (os' : List OptionItem) (c : Text)
        → is_outside_end e ≡ false
        → is_outside (parse_options f os' c) ≡ false
        → is_outside {A = List OptionItem × Option Text} (elim e [
          | message_end payload ↦ success (os', payload)
          | go_on ↦ parse_options f os' c
          | outside_buffer ↦ outside
        ])
          ≡ false
    checked (message_end p) os' c i k = refl
    checked go_on os' c i k = k
    checked outside_buffer os' c i k = absurd cc

    content :
        (opt : Token) (o : Option Token)
        → strtok is_end opt.context ≡ o
        → Sealed opt.context
        → ((os' : List OptionItem) (c : Text)
            → Sealed c
            → is_outside (parse_options f os' c) ≡ false)
        → is_outside {A = List OptionItem × Option Text} (elim o [
          | none ↦ malformed
          | some token ↦
              let options' = insert_option os (option_of opt token) in
              elim (check_end token.end_check) [
                | message_end payload ↦ success (options', payload)
                | go_on ↦ parse_options f options' token.context
                | outside_buffer ↦ outside
              ]
        ])
          ≡ false
    content opt none e s ih = refl
    content opt (some token) e s ih =
        let m = strtok-Sealed is_end opt.context token end-EndsLines s e in
        checked (check_end token.end_check) (insert_option os (option_of opt token)) token.context
          (check_end-Sealed token.end_check m.0)
          (ih (insert_option os (option_of opt token)) token.context m.1)

    name :
        (o : Option Token)
        → strtok is_option_delim ctx ≡ o
        → ((os' : List OptionItem) (c : Text)
            → Sealed c
            → is_outside (parse_options f os' c) ≡ false)
        → is_outside {A = List OptionItem × Option Text} (elim o [
          | none ↦ malformed
          | some opt ↦ elim (strtok is_end opt.context) [
            | none ↦ malformed
            | some token ↦
                let options' = insert_option os (option_of opt token) in
                elim (check_end token.end_check) [
                  | message_end payload ↦ success (options', payload)
                  | go_on ↦ parse_options f options' token.context
                  | outside_buffer ↦ outside
                ]
          ]
        ])
          ≡ false
    name none e ih = refl
    name (some opt) e ih =
        content opt (strtok is_end opt.context) refl
          (strtok-Sealed is_option_delim ctx opt option_delim-EndsLines h e).1 ih

-- The rest behind the first line is sealed.
abbrev SealedRest : Option (Start × Text × Text) → Type 0
SealedRest none = Unit
SealedRest (some line) = Sealed line.2

parse_response-Sealed : (token : Token) → Sealed token.context → SealedRest (parse_response token)
unfolding parse_response
parse_response-Sealed token h = code (strtok is_delim token.context) refl
  where
    status :
        (t : Token) (o : Option Token)
        → strtok is_end t.context ≡ o
        → Sealed t.context
        → SealedRest (elim o [
          | none ↦ none
          | some s ↦ some (response (atoi t.text) s.text, token.text, s.context)
        ])
    status t none e l = tt
    status t (some s) e l = (strtok-Sealed is_end t.context s end-EndsLines l e).1

    code :
        (o : Option Token)
        → strtok is_delim token.context ≡ o
        → SealedRest (elim o [
          | none ↦ none
          | some t ↦ elim (strtok is_end t.context) [
            | none ↦ none
            | some s ↦ some (response (atoi t.text) s.text, token.text, s.context)
          ]
        ])
    code none e = tt
    code (some t) e =
        status t (strtok is_end t.context) refl
          (strtok-Sealed is_delim token.context t delim-EndsLines h e).1

parse_request-Sealed : (token : Token) → Sealed token.context → SealedRest (parse_request token)
unfolding parse_request
parse_request-Sealed token h = target (strtok is_delim token.context) refl
  where
    protocol :
        (t : Token) (o : Option Token)
        → strtok is_delim t.context ≡ o
        → Sealed t.context
        → SealedRest
            (elim o [ none ↦ none | some p ↦ some (request token.text t.text, p.text, p.context) ])
    protocol t none e l = tt
    protocol t (some s) e l = (strtok-Sealed is_delim t.context s delim-EndsLines l e).1

    target :
        (o : Option Token)
        → strtok is_delim token.context ≡ o
        → SealedRest (elim o [
          | none ↦ none
          | some t ↦ elim (strtok is_delim t.context) [
            | none ↦ none
            | some p ↦ some (request token.text t.text, p.text, p.context)
          ]
        ])
    target none e = tt
    target (some t) e =
        protocol t (strtok is_delim t.context) refl
          (strtok-Sealed is_delim token.context t delim-EndsLines h e).1

parse_start-Sealed : (buffer : Text) → Sealed buffer → SealedRest (parse_start buffer)
unfolding parse_start
parse_start-Sealed buffer h = first (strtok is_delim buffer) refl
  where
    kind :
        (t : Token) (v : Bool)
        → Sealed t.context
        → SealedRest (elim v [ true ↦ parse_response t | false ↦ parse_request t ])
    kind t true l = parse_response-Sealed t l
    kind t false l = parse_request-Sealed t l

    first :
        (o : Option Token)
        → strtok is_delim buffer ≡ o
        → SealedRest (elim o [
          | none ↦ none
          | some t ↦ elim (starts_with t.text rtsp) [
            | true ↦ parse_response t
            | false ↦ parse_request t
          ]
        ])
    first none e = tt
    first (some t) e =
        kind t (starts_with t.text rtsp) (strtok-Sealed is_delim buffer t delim-EndsLines h e).1

parse_rest-Sealed :
    (f : ℕ) (line : Start × Text × Text) → Sealed line.2 → is_outside (parse_rest f line) ≡ false
parse_rest-Sealed f (begin, protocol, ctx) h =
    version (same protocol rtsp_version) (parse_options-Sealed f [] ctx h)
  where
    packed :
        (r : Result (List OptionItem × Option Text))
        → is_outside r ≡ false
        → is_outside (packaged begin protocol r) ≡ false
    packed (success (os, p)) k = refl
    packed malformed k = refl
    packed outside k = absurd cc
    packed no_fuel k = refl

    version :
        (v : Bool)
        → is_outside (parse_options f [] ctx) ≡ false
        → is_outside {A = Message}
            (elim v [ true ↦ packaged begin protocol (parse_options f [] ctx) | false ↦ malformed ])
          ≡ false
    version true k = packed (parse_options f [] ctx) k
    version false k = refl

sealed :
    (xs : Text) (c : ℕ)
    → Free (λ x. false) xs
    → is_end c ≡ true
    → Sealed ((xs ++ (c ∷ [])) ++ (0 ∷ []))
sealed [] c h e = (ground (arith, e), λ z. e, refl)
sealed (x ∷ []) c h e = let r = sealed [] c tt e in (h.0, λ z. absurd (ground (arith, z, e)), r)
sealed (x ∷ y ∷ ys) c h e =
    let r = sealed (y ∷ ys) c h.1 e in (h.0, λ z. absurd (ground (arith, z, h.1.0)), r)

-- A message without a 0 byte that ends with CR or LF is parsed within its buffer. (Without the
-- line end, `endCheck` can point behind the terminator.)
pub parse_rtsp_message_stays_inside :
    (xs : Text) (c : ℕ)
    → Free (λ x. false) xs
    → is_end c ≡ true
    → is_outside (parse_rtsp_message (xs ++ (c ∷ []))) ≡ false
unfolding parse_rtsp_message
parse_rtsp_message_stays_inside xs c h e =
    lines (parse_start ((xs ++ (c ∷ [])) ++ (0 ∷ [])))
      (parse_start-Sealed ((xs ++ (c ∷ [])) ++ (0 ∷ [])) (sealed xs c h e))
  where
    lines :
        (o : Option (Start × Text × Text))
        → SealedRest o
        → is_outside (elim o [
          | none ↦ malformed
          | some line ↦ parse_rest (length ((xs ++ (c ∷ [])) ++ (0 ∷ []))) line
        ])
          ≡ false
    lines none k = refl
    lines (some line) k = parse_rest-Sealed (length ((xs ++ (c ∷ [])) ++ (0 ∷ []))) line k
