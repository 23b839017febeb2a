-- ===== src/Rtsp/Tests.antt =====
-- A request, its text, and a message that the parser reads past the end of.
use tesla_moonlight_ubuntu.Base.{pos, ◌≡◌, refl, false, Option, some, [], ◌∷◌, ◌++◌, if◌then◌else◌}
use tesla_moonlight_ubuntu.Rtsp.Types.{Text, OptionItem, Message}
use tesla_moonlight_ubuntu.Rtsp.Types.Text.{
  same, starts_with, skip_delims, token_of, behind, context_of, strtok, atoi, digits_of,
}
use tesla_moonlight_ubuntu.Rtsp.Options.{
  get_option_content, insert_option, get_option_content-insert_option,
}
use tesla_moonlight_ubuntu.Rtsp.Serialize.{serialize_rtsp_message}
use tesla_moonlight_ubuntu.Rtsp.Serialize.Fits.{text_of, serialize_succeeds}
use tesla_moonlight_ubuntu.Rtsp.Parse.{
  success, outside, check_end, parse_options, parse_response, parse_request, parse_start,
  parse_rtsp_message, cseq, sequence_of,
}
use tesla_moonlight_ubuntu.Rtsp.Parse.Tokens.{Free}
use tesla_moonlight_ubuntu.Rtsp.Parse.Ends.{is_no_fuel, parse_rtsp_message_ends}
use tesla_moonlight_ubuntu.Rtsp.Parse.Inside.{is_outside, parse_rtsp_message_stays_inside}
use tesla_moonlight_ubuntu.Rtsp.Parse.RoundTrip.{request_of, parse-serialize}

-- "PLAY", "/" and the options "CSeq: 7" and "Session: x y"
abbrev play : Text
play = 80 ∷ 76 ∷ 65 ∷ 89 ∷ []

abbrev slash : Text
slash = 47 ∷ []

abbrev cseq_seven : OptionItem
cseq_seven = record { name = cseq; content = 55 ∷ [] }

abbrev session : OptionItem
session = record { name = 83 ∷ 101 ∷ 115 ∷ []; content = 120 ∷ 32 ∷ 121 ∷ [] }

abbrev body : Option Text
body = some (118 ∷ 61 ∷ 48 ∷ 13 ∷ 10 ∷ [])

abbrev play_request : Message
play_request = request_of play slash (pos 0) (cseq_seven ∷ session ∷ []) body

parse-serialize_example :
    (text : Text) × (serialize_rtsp_message play_request ≡ some text)
    × (parse_rtsp_message text
        ≡ success
            (record play_request { sequence_number = sequence_of (cseq_seven ∷ session ∷ []) }))
unfolding starts_with same
parse-serialize_example =
    parse-serialize play slash (pos 0) cseq_seven (session ∷ []) body
      (refl, (refl, (refl, (refl, tt)))) (refl, tt) refl
      (
        (refl, (refl, (refl, (refl, tt)))),
        (refl, tt),
        tt,
        ((refl, (refl, (refl, tt))), (refl, (refl, (refl, tt))), (refl, tt), tt),
      )
      refl

serialize_succeeds_example : serialize_rtsp_message play_request ≡ some (text_of play_request)
serialize_succeeds_example = serialize_succeeds play_request

get_option_content-insert_option_example :
    get_option_content (insert_option (cseq_seven ∷ []) session) cseq ≡ (
      if same session.name cseq
      then some session.content
      else get_option_content (cseq_seven ∷ []) cseq)
get_option_content-insert_option_example =
    get_option_content-insert_option (cseq_seven ∷ []) session cseq

-- "RTSP/1.0 200 OK", CR LF, "CSeq: 1" and no line end behind it
abbrev cut_response : Text
cut_response =
    82 ∷ 84 ∷ 83 ∷ 80 ∷ 47 ∷ 49 ∷ 46 ∷ 48 ∷ 32 ∷ 50 ∷ 48 ∷ 48 ∷ 32 ∷ 79 ∷ 75 ∷ 13 ∷ 10 ∷ 67 ∷ 83
    ∷ 101 ∷ 113 ∷ 58 ∷ 32 ∷ 49 ∷ []

cut_response_outside : parse_rtsp_message cut_response ≡ outside
unfolding parse_rtsp_message parse_start parse_response parse_request parse_options check_end strtok
    skip_delims token_of behind context_of starts_with same insert_option atoi digits_of
    get_option_content
cut_response_outside = refl

parse_rtsp_message_ends_example : is_no_fuel (parse_rtsp_message cut_response) ≡ false
parse_rtsp_message_ends_example = parse_rtsp_message_ends cut_response

cut_response-Free : Free (λ x. false) cut_response
cut_response-Free = (
  refl,
  (
    refl,
    (
      refl,
      (
        refl,
        (
          refl,
          (
            refl,
            (
              refl,
              (
                refl,
                (
                  refl,
                  (
                    refl,
                    (
                      refl,
                      (
                        refl,
                        (
                          refl,
                          (
                            refl,
                            (
                              refl,
                              (
                                refl,
                                (refl, (refl, (refl, (refl, (refl, (refl, (refl, (refl, tt)))))))),
                              ),
                            ),
                          ),
                        ),
                      ),
                    ),
                  ),
                ),
              ),
            ),
          ),
        ),
      ),
    ),
  ),
)

parse_rtsp_message_stays_inside_example :
    is_outside (parse_rtsp_message (cut_response ++ (13 ∷ []))) ≡ false
parse_rtsp_message_stays_inside_example =
    parse_rtsp_message_stays_inside cut_response 13 cut_response-Free refl
