-- ===== src/Rtsp/Serialize.antt =====
-- `getMessageLength`, `appendString` and `serializeRtspMessage`.
pub mod Fits
use tesla_moonlight_ubuntu.Base.{
  ℕ, zero, suc, ◌+◌, ◌-◌, Bool, true, false, Option, none, some, List, [], ◌∷◌, ◌++◌, ltb, leb,
  ◌==◌, if◌then◌else◌, length,
}
use tesla_moonlight_ubuntu.Rtsp.Types.{Text, OptionItem, Start, request, response, Message}
use tesla_moonlight_ubuntu.Rtsp.Types.Text.{space, cr, lf, colon, print_int}

-- `MESSAGE_END_LENGTH` and `CRLF_LENGTH`
abbrev pub message_end_length : ℕ
message_end_length = 4

abbrev pub crlf_length : ℕ
crlf_length = 2

abbrev pub start_length : Start → ℕ
start_length (request command target) = length command + length target + message_end_length
start_length (response code status) = length (print_int code) + length status + message_end_length

abbrev pub options_length : List OptionItem → ℕ
options_length [] = 0
options_length (o ∷ os) = length o.name + length o.content + message_end_length + options_length os

abbrev pub payload_length : Option Text → ℕ
payload_length none = 0
payload_length (some p) = length p

unfoldable pub get_message_length : Message → ℕ
get_message_length m =
    1
    + length m.protocol
    + start_length m.begin
    + options_length m.options
    + crlf_length
    + payload_length m.payload

-- What has been written, and how much room is left
pub record Out : Type 0 where
  pub written : Text
  pub remaining : ℕ

-- `appendString`: `snprintf` needs room for the terminator.
unfoldable pub append_string : Text → Out → Option Out
append_string source out =
    if leb out.remaining (length source)
    then none
    else some
        (record { written = out.written ++ source; remaining = out.remaining - length source })

unfoldable pub append_all : List Text → Out → Option Out
unfolding append_string
append_all [] out = some out
append_all (s ∷ ss) out = elim (append_string s out) [
  | none ↦ none
  | some out' ↦ append_all ss out'
]

abbrev pub crlf : Text
crlf = cr ∷ lf ∷ []

-- The strings of the first line, and those of an option, in the order of the calls
abbrev pub start_strings : Text → Start → List Text
start_strings protocol (request command target) =
    command ∷ (space ∷ []) ∷ target ∷ (space ∷ []) ∷ protocol ∷ crlf ∷ []
start_strings protocol (response code status) =
    protocol ∷ (space ∷ []) ∷ print_int code ∷ (space ∷ []) ∷ status ∷ crlf ∷ []

abbrev pub option_strings : List OptionItem → List Text
option_strings [] = []
option_strings (o ∷ os) = o.name ∷ (colon ∷ space ∷ []) ∷ o.content ∷ crlf ∷ option_strings os

abbrev pub strings_of : Message → List Text
strings_of m = start_strings m.protocol m.begin ++ (option_strings m.options ++ (crlf ∷ []))

-- The payload is copied if it fits.
abbrev pub append_payload : Option Text → Out → Option Text
append_payload none out = some out.written
append_payload (some p) out = if ltb out.remaining (length p) then none else some (out.written ++ p)

-- `serializeRtspMessage`, `none` where it fails
unfoldable pub serialize_rtsp_message : Message → Option Text
unfolding get_message_length append_all
serialize_rtsp_message m =
    elim (append_all (strings_of m) (record { written = []; remaining = get_message_length m })) [
      | none ↦ none
      | some out ↦ append_payload m.payload out
    ]
