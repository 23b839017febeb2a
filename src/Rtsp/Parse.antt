-- ===== src/Rtsp/Parse.antt =====
-- `parseRtspMessage`. A read behind the end of the buffer is a result of its own, and so is a
-- loop that runs out of fuel.
pub mod Tokens
pub mod Ends
pub mod Sealed
pub mod Inside
pub mod Options
pub mod RoundTrip
use tesla_moonlight_ubuntu.Base.{
  ℕ, zero, suc, ℤ, negsuc, ◌+◌, ◌-◌, Bool, true, false, Option, none, some, List, [], ◌∷◌, ◌++◌,
  ◌==◌, if◌then◌else◌, length, drop,
}
use tesla_moonlight_ubuntu.Rtsp.Types.{Text, OptionItem, Start, request, response, Message}
use tesla_moonlight_ubuntu.Rtsp.Types.Text.{
  same, starts_with, is_end, is_delim, is_option_delim, strtok, Token, atoi,
}
use tesla_moonlight_ubuntu.Rtsp.Options.{insert_option, get_option_content}

-- The bytes before the terminator
abbrev pub chop : Text → Text
chop [] = []
chop (c ∷ []) = []
chop (c ∷ d ∷ cs) = c ∷ chop (d ∷ cs)

-- What `endCheck` shows behind the content of an option
pub data End : Type 0 where
  message_end : Option Text → End
  go_on : End
  outside_buffer : End

-- The bytes behind the end of the message, with the terminator
abbrev pub payload_of : Text → End
payload_of [] = outside_buffer
payload_of (c ∷ cs) = elim (c == 0) [
  | true ↦ message_end none
  | false ↦ message_end (some (chop (c ∷ cs)))
]

abbrev pub after_cr : Text → End
after_cr [] = outside_buffer
after_cr (c ∷ cs) = elim (c == 0) [
  | true ↦ message_end none
  | false ↦ elim (c == 10) [ true ↦ payload_of cs | false ↦ go_on ]
]

abbrev pub after_lf : Text → End
after_lf [] = outside_buffer
after_lf (c ∷ cs) = elim (c == 0) [
  | true ↦ message_end none
  | false ↦ elim (c == 13) [ true ↦ after_cr cs | false ↦ go_on ]
]

unfoldable pub check_end : Text → End
check_end [] = outside_buffer
check_end (c ∷ cs) = elim (c == 10) [ true ↦ after_lf cs | false ↦ go_on ]

pub data Result {ℓ} (A : Type ℓ) : Type ℓ where
  success : A → Result A
  malformed : Result A
  outside : Result A
  no_fuel : Result A

abbrev pub option_of : Token → Token → OptionItem
option_of opt token = record { name = opt.text; content = drop 1 token.text }

-- The loop over the options: two tokens are an option and its content.
unfoldable pub parse_options : ℕ → List OptionItem → Text → Result (List OptionItem × Option Text)
unfolding strtok insert_option check_end
parse_options zero options context = no_fuel
parse_options (suc f) options context = elim (strtok is_option_delim context) [
  | none ↦ malformed
  | some opt ↦ elim (strtok is_end opt.context) [
    | none ↦ malformed
    | some token ↦
        let options' = insert_option options (option_of opt token) in
        elim (check_end token.end_check) [
          | message_end payload ↦ success (options', payload)
          | go_on ↦ parse_options f options' token.context
          | outside_buffer ↦ outside
        ]
  ]
]

-- "RTSP", "RTSP/1.0" and "CSeq"
abbrev pub rtsp : Text
rtsp = 82 ∷ 84 ∷ 83 ∷ 80 ∷ []

abbrev pub rtsp_version : Text
rtsp_version = 82 ∷ 84 ∷ 83 ∷ 80 ∷ 47 ∷ 49 ∷ 46 ∷ 48 ∷ []

abbrev pub cseq : Text
cseq = 67 ∷ 83 ∷ 101 ∷ 113 ∷ []

abbrev pub sequence_of : List OptionItem → ℤ
sequence_of options = elim (get_option_content options cseq) [
  | none ↦ negsuc 0
  | some content ↦ atoi content
]

-- The first line: the start of the message, its protocol, and where the options begin
unfoldable pub parse_response : Token → Option (Start × Text × Text)
unfolding strtok atoi
parse_response token = elim (strtok is_delim token.context) [
  | none ↦ none
  | some code ↦ elim (strtok is_end code.context) [
    | none ↦ none
    | some status ↦ some (response (atoi code.text) status.text, token.text, status.context)
  ]
]

unfoldable pub parse_request : Token → Option (Start × Text × Text)
unfolding strtok
parse_request token = elim (strtok is_delim token.context) [
  | none ↦ none
  | some target ↦ elim (strtok is_delim target.context) [
    | none ↦ none
    | some protocol ↦ some (request token.text target.text, protocol.text, protocol.context)
  ]
]

unfoldable pub parse_start : Text → Option (Start × Text × Text)
unfolding strtok starts_with parse_response parse_request
parse_start buffer = elim (strtok is_delim buffer) [
  | none ↦ none
  | some token ↦ elim (starts_with token.text rtsp) [
    | true ↦ parse_response token
    | false ↦ parse_request token
  ]
]

abbrev pub packaged : Start → Text → Result (List OptionItem × Option Text) → Result Message
packaged begin protocol (success (options, payload)) = success (record {
  begin = begin;
  sequence_number = sequence_of options;
  protocol = protocol;
  options = options;
  payload = payload;
})
packaged begin protocol malformed = malformed
packaged begin protocol outside = outside
packaged begin protocol no_fuel = no_fuel

-- What follows the first line. The protocol must be `RTSP/1.0`.
abbrev pub parse_rest : ℕ → Start × Text × Text → Result Message
parse_rest f (begin, protocol, context) = elim (same protocol rtsp_version) [
  | true ↦ packaged begin protocol (parse_options f [] context)
  | false ↦ malformed
]

unfoldable pub parse_rtsp_message : Text → Result Message
unfolding parse_start parse_options same get_option_content atoi
parse_rtsp_message message =
    let buffer = message ++ (0 ∷ []) in
    elim (parse_start buffer) [ none ↦ malformed | some line ↦ parse_rest (length buffer) line ]
