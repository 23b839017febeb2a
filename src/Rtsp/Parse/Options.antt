-- ===== src/Rtsp/Parse/Options.antt =====
-- The options of a message that is written and read again.
use tesla_moonlight_ubuntu.Base.{
  ℕ, zero, suc, ◌+◌, ◌≡◌, refl, ◌∙◌, ap, Bool, true, false, Option, none, some, List, [], ◌∷◌, ◌++◌,
  append_assoc, arith, ◌==◌, length, elim_false,
}
use tesla_moonlight_ubuntu.Rtsp.Types.{Text, OptionItem}
use tesla_moonlight_ubuntu.Rtsp.Types.Text.{
  space, cr, lf, colon, is_end, is_option_delim, strtok, Token, same,
}
use tesla_moonlight_ubuntu.Rtsp.Options.{insert_option}
use tesla_moonlight_ubuntu.Rtsp.Parse.{
  End, message_end, go_on, outside_buffer, check_end, chop, Result, success, malformed, outside,
  parse_options, option_of,
}
use tesla_moonlight_ubuntu.Rtsp.Parse.Tokens.{Free, strtok-append, strtok-skip}

-- A token that `strtok_r` can find
abbrev pub IsToken : (ℕ → Bool) → Text → Type 0
IsToken d [] = ⊥
IsToken d (c ∷ cs) = Free d (c ∷ cs)

-- The name of an option has no delimiter, its content no end of line, and no option before it,
-- in `before`, has its name.
abbrev pub IsNew : List OptionItem → Text → Type 0
IsNew [] name = Unit
IsNew (o ∷ os) name = (same o.name name ≡ false) × IsNew os name

abbrev pub AreOptions : (before options : List OptionItem) → Type 0
AreOptions before [] = Unit
AreOptions before (o ∷ os) =
    IsToken is_option_delim o.name
    × Free is_end o.content
    × IsNew before o.name
    × AreOptions (before ++ (o ∷ [])) os

insert_option-IsNew :
    (before : List OptionItem) (o : OptionItem)
    → IsNew before o.name
    → insert_option before o ≡ before ++ (o ∷ [])
unfolding insert_option
insert_option-IsNew [] o h = refl
insert_option-IsNew (b ∷ bs) o h =
    elim_false _ _ h.0 ∙ ap (λ x. b ∷ x) (insert_option-IsNew bs o h.1)

-- A token and the delimiter behind it
pub strtok-token :
    (d : ℕ → Bool) (xs : Text) (c : ℕ) (rest : Text)
    → IsToken d xs
    → d c ≡ true
    → (c == 0) ≡ false
    → strtok d (xs ++ (c ∷ rest)) ≡ some (record { text = xs; end_check = rest; context = rest })
strtok-token d [] c rest h e z = elim h [ ]
strtok-token d (x ∷ xs) c rest h e z = strtok-append d x xs c rest h e z

-- The rest of a round, from the end of a content, from a content and from a name on
abbrev end_read : ℕ → List OptionItem → Text → End → Result (List OptionItem × Option Text)
end_read f options context (message_end payload) = success (options, payload)
end_read f options context go_on = parse_options f options context
end_read f options context outside_buffer = outside

abbrev content_read :
    ℕ → List OptionItem → Token → Option Token → Result (List OptionItem × Option Text)
content_read f before opt none = malformed
content_read f before opt (some token) =
    end_read f (insert_option before (option_of opt token)) token.context
      (check_end token.end_check)

abbrev name_read : ℕ → List OptionItem → Option Token → Result (List OptionItem × Option Text)
name_read f before none = malformed
name_read f before (some opt) = content_read f before opt (strtok is_end opt.context)

-- A round of the parser's loop, in these parts
parse_options-parts :
    (f : ℕ) (before : List OptionItem) (context : Text)
    → parse_options (suc f) before context ≡ name_read f before (strtok is_option_delim context)
unfolding parse_options
parse_options-parts f before context = name (strtok is_option_delim context)
  where
    ending :
        (os : List OptionItem) (c : Text) (e : End)
        → (elim e [
          | message_end payload ↦ success (os, payload)
          | go_on ↦ parse_options f os c
          | outside_buffer ↦ outside
        ])
          ≡ end_read f os c e
    ending os c (message_end p) = refl
    ending os c go_on = refl
    ending os c outside_buffer = refl

    content :
        (opt : Token) (o : Option Token)
        → (elim o [
          | none ↦ malformed
          | some token ↦
              let options' = insert_option before (option_of opt token) in
              elim (check_end token.end_check) [
                | message_end payload ↦ success (options', payload)
                | go_on ↦ parse_options f options' token.context
                | outside_buffer ↦ outside
              ]
        ])
          ≡ content_read f before opt o
    content opt none = refl
    content opt (some token) =
        ending (insert_option before (option_of opt token)) token.context
          (check_end token.end_check)

    name :
        (o : Option Token)
        → (elim o [
          | none ↦ malformed
          | some opt ↦ elim (strtok is_end opt.context) [
            | none ↦ malformed
            | some token ↦
                let options' = insert_option before (option_of opt token) in
                elim (check_end token.end_check) [
                  | message_end payload ↦ success (options', payload)
                  | go_on ↦ parse_options f options' token.context
                  | outside_buffer ↦ outside
                ]
          ]
        ])
          ≡ name_read f before o
    name none = refl
    name (some opt) = content opt (strtok is_end opt.context)

-- One round of the parser's loop
round :
    (f : ℕ) (before : List OptionItem) (o : OptionItem) (rest : Text)
    → IsToken is_option_delim o.name
    → Free is_end o.content
    → IsNew before o.name
    → parse_options (suc f) before (o.name ++ (colon ∷ space ∷ (o.content ++ (cr ∷ lf ∷ rest))))
      ≡ end_read f (before ++ (o ∷ [])) (lf ∷ rest) (check_end (lf ∷ rest))
round f before o rest n k new =
    let a =
      strtok-token is_option_delim o.name colon (space ∷ (o.content ++ (cr ∷ lf ∷ rest))) n refl
        refl in
    let b : strtok is_end (space ∷ (o.content ++ (cr ∷ lf ∷ rest)))
        ≡ some (record { text = space ∷ o.content; end_check = lf ∷ rest; context = lf ∷ rest }) =
      strtok-token is_end (space ∷ o.content) cr (lf ∷ rest) (refl, k) refl refl in
    let i = insert_option-IsNew before o new in
    parse_options-parts f before (o.name ++ (colon ∷ space ∷ (o.content ++ (cr ∷ lf ∷ rest))))
    ∙ ap (name_read f before) a
    ∙ ap
        (content_read f before (record {
          text = o.name;
          end_check = space ∷ (o.content ++ (cr ∷ lf ∷ rest));
          context = space ∷ (o.content ++ (cr ∷ lf ∷ rest));
        }))
        b
    ∙ ap (λ x. end_read f x (lf ∷ rest) (check_end (lf ∷ rest))) i

-- The options as text, before what follows them
abbrev pub options_text : List OptionItem → Text → Text
options_text [] rest = rest
options_text (o ∷ os) rest =
    o.name ++ (colon ∷ space ∷ (o.content ++ (cr ∷ lf ∷ options_text os rest)))

pub skip_lf :
    (f : ℕ) (before : List OptionItem) (rest : Text)
    → parse_options f before (lf ∷ rest) ≡ parse_options f before rest
unfolding parse_options
skip_lf zero before rest = refl
skip_lf (suc f) before rest = rw (strtok-skip is_option_delim lf rest refl, parse_options) refl

-- Behind a content that another option follows, the loop goes on.
check_end-name :
    (name rest : Text) → IsToken is_option_delim name → check_end (lf ∷ (name ++ rest)) ≡ go_on
unfolding check_end
check_end-name [] rest h = elim h [ ]
check_end-name (c ∷ cs) rest h =
    let z : (c == 0) ≡ false = ground (arith, h.0) in
    let r : (c == 13) ≡ false = ground (arith, h.0) in elim_false _ _ z ∙ elim_false _ _ r

-- The end of the message: nothing, or the payload, and the terminator
abbrev pub payload_text : Option Text → Text
payload_text none = 0 ∷ []
payload_text (some p) = p ++ (0 ∷ [])

-- A payload has a first byte, which is not the terminator.
abbrev pub IsPayload : Option Text → Type 0
IsPayload none = Unit
IsPayload (some []) = ⊥
IsPayload (some (c ∷ cs)) = (c == 0) ≡ false

chop-snoc : (xs : Text) → chop (xs ++ (0 ∷ [])) ≡ xs
chop-snoc [] = refl
chop-snoc (x ∷ []) = refl
chop-snoc (x ∷ y ∷ xs) = ap (λ t. x ∷ t) (chop-snoc (y ∷ xs))

check_end-payload :
    (p : Option Text) → IsPayload p → check_end (lf ∷ cr ∷ lf ∷ payload_text p) ≡ message_end p
unfolding check_end
check_end-payload none h = refl
check_end-payload (some []) h = elim h [ ]
check_end-payload (some (c ∷ cs)) h =
    elim_false _ _ h ∙ ap (λ t. message_end (some t)) (chop-snoc (c ∷ cs))

pub options_read :
    (os : List OptionItem) (before : List OptionItem) (o : OptionItem) (k : ℕ) (p : Option Text)
    → AreOptions before (o ∷ os)
    → IsPayload p
    → parse_options (suc (length os + k)) before (options_text (o ∷ os) (cr ∷ lf ∷ payload_text p))
      ≡ success (before ++ (o ∷ os), p)
options_read [] before o k p h q =
    round (0 + k) before o (cr ∷ lf ∷ payload_text p) h.0 h.1 h.2
    ∙ ap (end_read (0 + k) (before ++ (o ∷ [])) (lf ∷ cr ∷ lf ∷ payload_text p))
        (check_end-payload p q)
options_read (o' ∷ os) before o k p h q =
    let rest = options_text (o' ∷ os) (cr ∷ lf ∷ payload_text p) in
    let more =
      colon ∷ space ∷ (o'.content ++ (cr ∷ lf ∷ options_text os (cr ∷ lf ∷ payload_text p))) in
    let n : check_end (lf ∷ rest) ≡ go_on = check_end-name o'.name more h.3.0 in
    let ih = options_read os (before ++ (o ∷ [])) o' k p h.3 q in
    let s = skip_lf (suc (length os + k)) (before ++ (o ∷ [])) rest in
    let a : suc (length os) + k ≡ suc (length os + k) = omega arith in
    round (suc (length os) + k) before o rest h.0 h.1 h.2
    ∙ ap (end_read (suc (length os) + k) (before ++ (o ∷ [])) (lf ∷ rest)) n
    ∙ ap (λ x. parse_options x (before ++ (o ∷ [])) (lf ∷ rest)) a
    ∙ (s ∙ ih ∙ ap (λ x. success (x, p)) (append_assoc before (o ∷ []) (o' ∷ os)))
