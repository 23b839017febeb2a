-- ===== src/Rtsp/Parse/RoundTrip.antt =====
-- A request that is written and read again.
use tesla_moonlight_ubuntu.Base.{
  ℕ, suc, ℤ, ◌+◌, ◌-◌, ◌≤◌, ◌≡◌, refl, ◌∙◌, ap, true, false, Option, none, some, List, [], ◌∷◌,
  ◌++◌, append_assoc, arith, length, length-append, elim_false,
}
use tesla_moonlight_ubuntu.Rtsp.Types.{Text, OptionItem, Start, request, Message}
use tesla_moonlight_ubuntu.Rtsp.Types.Text.{
  space, cr, lf, colon, is_delim, strtok, Token, starts_with,
}
use tesla_moonlight_ubuntu.Rtsp.Serialize.{
  crlf, start_strings, option_strings, strings_of, serialize_rtsp_message,
}
use tesla_moonlight_ubuntu.Rtsp.Serialize.Fits.{join, join-append, text_of, serialize_succeeds}
use tesla_moonlight_ubuntu.Rtsp.Parse.{
  Result, success, malformed, parse_options, parse_start, parse_request, parse_response, parse_rest,
  packaged, parse_rtsp_message, rtsp, rtsp_version, sequence_of,
}
use tesla_moonlight_ubuntu.Rtsp.Parse.Options.{
  IsToken, AreOptions, IsPayload, options_text, payload_text, skip_lf, strtok-token, options_read,
}

options_text-join :
    (os : List OptionItem) (rest : Text) → join (option_strings os) ++ rest ≡ options_text os rest
options_text-join [] rest = refl
options_text-join (o ∷ os) rest =
    append_assoc o.name (colon ∷ space ∷ (o.content ++ (cr ∷ lf ∷ join (option_strings os)))) rest
    ∙ ap (λ x. o.name ++ (colon ∷ space ∷ x))
        (append_assoc o.content (cr ∷ lf ∷ join (option_strings os)) rest
          ∙ ap (λ x. o.content ++ (cr ∷ lf ∷ x)) (options_text-join os rest))

length-options_text :
    (os : List OptionItem) (rest : Text) → length os + length rest ≤ length (options_text os rest)
length-options_text [] rest = omega arith
length-options_text (o ∷ os) rest =
    let more = cr ∷ lf ∷ options_text os rest in
    let a = length-append o.name (colon ∷ space ∷ (o.content ++ more)) in
    let b = length-append o.content more in omega (arith, length-options_text os rest)

-- The request of these parts, of RTSP/1.0
abbrev pub request_of : (command target : Text) → ℤ → List OptionItem → Option Text → Message
request_of command target n os p = record {
  begin = request command target;
  sequence_number = n;
  protocol = rtsp_version;
  options = os;
  payload = p;
}

abbrev first_line : (command target rest : Text) → Text
first_line command target rest =
    command ++ (space ∷ (target ++ (space ∷ (rtsp_version ++ (cr ∷ lf ∷ rest)))))

first_line-append :
    (command target rest more : Text)
    → first_line command target rest ++ more ≡ first_line command target (rest ++ more)
first_line-append command target rest more =
    append_assoc command (space ∷ (target ++ (space ∷ (rtsp_version ++ (cr ∷ lf ∷ rest))))) more
    ∙ ap (λ x. command ++ (space ∷ x))
        (append_assoc target (space ∷ (rtsp_version ++ (cr ∷ lf ∷ rest))) more)

-- The buffer that the parser reads
buffer_of :
    (command target : Text) (n : ℤ) (os : List OptionItem) (p : Option Text)
    → text_of (request_of command target n os p) ++ (0 ∷ [])
      ≡ first_line command target (options_text os (cr ∷ lf ∷ payload_text p))
buffer_of command target n os p =
    with_payload p
    ∙ ap (λ x. x ++ payload_text p) lines
    ∙ first_line-append command target (join (option_strings os) ++ crlf) (payload_text p)
    ∙ ap (first_line command target) (
        append_assoc (join (option_strings os)) crlf (payload_text p)
        ∙ options_text-join os (cr ∷ lf ∷ payload_text p))
  where
    with_payload :
        (q : Option Text)
        → (elim q [
          | none ↦ join (strings_of (request_of command target n os p))
          | some x ↦ join (strings_of (request_of command target n os p)) ++ x
        ])
            ++ (0 ∷ [])
          ≡ join (strings_of (request_of command target n os p)) ++ payload_text q
    with_payload none = refl
    with_payload (some x) =
        append_assoc (join (strings_of (request_of command target n os p))) x (0 ∷ [])

    lines :
        join (strings_of (request_of command target n os p))
        ≡ first_line command target (join (option_strings os) ++ crlf)
    lines =
        join-append (start_strings rtsp_version (request command target))
          (option_strings os ++ (crlf ∷ []))
        ∙ ap (λ x. join (start_strings rtsp_version (request command target)) ++ x)
            (join-append (option_strings os) (crlf ∷ []))
        ∙ first_line-append command target [] (join (option_strings os) ++ crlf)

-- The first line is read.
start_read :
    (command target rest : Text)
    → IsToken is_delim command
    → IsToken is_delim target
    → starts_with command rtsp ≡ false
    → parse_start (first_line command target rest)
      ≡ some (request command target, rtsp_version, lf ∷ rest)
unfolding parse_start parse_request
start_read command target rest c t other =
    let line = target ++ (space ∷ (rtsp_version ++ (cr ∷ lf ∷ rest))) in
    let a = strtok-token is_delim command space line c refl refl in
    let b = strtok-token is_delim target space (rtsp_version ++ (cr ∷ lf ∷ rest)) t refl refl in
    let version : IsToken is_delim rtsp_version =
      (refl, (refl, (refl, (refl, (refl, (refl, (refl, (refl, tt)))))))) in
    let d = strtok-token is_delim rtsp_version cr (lf ∷ rest) version refl refl in
    let rest_of : Option Token → Option (Start × Text × Text) = λ o. elim o [
      | none ↦ none
      | some token ↦ elim (starts_with token.text rtsp) [
        | true ↦ parse_response token
        | false ↦ parse_request token
      ]
    ] in
    let target_of : Option Token → Option (Start × Text × Text) = λ o. elim o [
      | none ↦ none
      | some t ↦ elim (strtok is_delim t.context) [
        | none ↦ none
        | some p ↦ some (request command t.text, p.text, p.context)
      ]
    ] in
    let protocol_of : Option Token → Option (Start × Text × Text) =
      λ o. elim o [ none ↦ none | some p ↦ some (request command target, p.text, p.context) ] in
    ap rest_of a ∙ elim_false _ _ other ∙ ap target_of b ∙ ap protocol_of d

-- A request of RTSP/1.0 that the serializer writes is read back with the same command, target,
-- protocol, options and payload. Its sequence number is not written as such: whatever it is, the
-- one that is read is the number in the option CSeq, and -1 without that option. The command and
-- the target are tokens and the command is no response's; there are options, with tokens for
-- names, no name twice and contents of one line; and the payload, if there is one, begins with a
-- byte that is not 0.
pub parse-serialize :
    (command target : Text) (n : ℤ) (o : OptionItem) (os : List OptionItem) (p : Option Text)
    → IsToken is_delim command
    → IsToken is_delim target
    → starts_with command rtsp ≡ false
    → AreOptions [] (o ∷ os)
    → IsPayload p
    → (text : Text) × (serialize_rtsp_message (request_of command target n (o ∷ os) p) ≡ some text)
      × (parse_rtsp_message text
          ≡ success (request_of command target (sequence_of (o ∷ os)) (o ∷ os) p))
unfolding parse_rtsp_message
parse-serialize command target n o os p c t other opts pay = (
  text_of (request_of command target n (o ∷ os) p),
  serialize_succeeds (request_of command target n (o ∷ os) p),
  opened (text_of (request_of command target n (o ∷ os) p))
      ∙ ap (λ b. read_from (length b) b) (buffer_of command target n (o ∷ os) p)
      ∙ ap (lines_of (length buffer)) (start_read command target options c t other)
      ∙ ap (packaged (request command target) rtsp_version) (
          ap (λ f. parse_options f [] (lf ∷ options)) fuel
          ∙ skip_lf (suc (length os + (length buffer - suc (length os)))) [] options
          ∙ options_read os [] o (length buffer - suc (length os)) p opts pay),
)
  where
    options : Text
    options = options_text (o ∷ os) (cr ∷ lf ∷ payload_text p)

    buffer : Text
    buffer = first_line command target options

    lines_of : ℕ → Option (Start × Text × Text) → Result Message
    lines_of f none = malformed
    lines_of f (some line) = parse_rest f line

    read_from : ℕ → Text → Result Message
    read_from f b = lines_of f (parse_start b)

    lines_eq :
        (f : ℕ) (x : Option (Start × Text × Text))
        → (elim x [ none ↦ malformed | some line ↦ parse_rest f line ]) ≡ lines_of f x
    lines_eq f none = refl
    lines_eq f (some line) = refl

    opened : (x : Text) → parse_rtsp_message x ≡ read_from (length (x ++ (0 ∷ []))) (x ++ (0 ∷ []))
    opened x = lines_eq (length (x ++ (0 ∷ []))) (parse_start (x ++ (0 ∷ [])))

    fuel : length buffer ≡ suc (length os + (length buffer - suc (length os)))
    fuel =
        let a = length-options_text (o ∷ os) (cr ∷ lf ∷ payload_text p) in
        let x =
          length-append command
            (space ∷ (target ++ (space ∷ (rtsp_version ++ (cr ∷ lf ∷ options))))) in
        let y = length-append target (space ∷ (rtsp_version ++ (cr ∷ lf ∷ options))) in omega arith
