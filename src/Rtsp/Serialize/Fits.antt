-- ===== src/Rtsp/Serialize/Fits.antt =====
-- The length that is allocated is enough for the message.
use tesla_moonlight_ubuntu.Base.{
  ℕ, ◌+◌, ◌-◌, ◌<◌, ◌≡◌, refl, sym, ◌∙◌, ap, false, Option, none, some, List, [], ◌∷◌, ◌++◌,
  append_assoc, append-nil, arith, ltb, leb, length, length-append, if_false,
}
use tesla_moonlight_ubuntu.Rtsp.Types.{Text, OptionItem, Start, request, response, Message}
use tesla_moonlight_ubuntu.Rtsp.Types.Text.{space, cr, lf, colon, print_int}
use tesla_moonlight_ubuntu.Rtsp.Serialize.{
  start_length, options_length, payload_length, get_message_length, Out, append_string, append_all,
  crlf, start_strings, option_strings, strings_of, append_payload, serialize_rtsp_message,
}

abbrev pub join : List Text → Text
join [] = []
join (s ∷ ss) = s ++ join ss

pub join-append : (xs ys : List Text) → join (xs ++ ys) ≡ join xs ++ join ys
join-append [] ys = refl
join-append (x ∷ xs) ys = rw (join-append xs ys) (sym (append_assoc x (join xs) (join ys)))

abbrev out_of : Text → ℕ → Out
out_of w r = record { written = w; remaining = r }

-- Strings that fit, with room for a terminator, are all written.
pub append_all-join :
    (ss : List Text) (out : Out)
    → length (join ss) < out.remaining
    → append_all ss out
      ≡ some (record {
        written = out.written ++ join ss;
        remaining = out.remaining - length (join ss);
      })
unfolding append_all append_string
append_all-join [] out h =
    let e : out.remaining - 0 ≡ out.remaining = omega arith in rw (e, append-nil out.written) refl
append_all-join (s ∷ ss) out h =
    let l = length-append s (join ss) in
    let out' : Out = record { written = out.written ++ s; remaining = out.remaining - length s } in
    let fit : leb out.remaining (length s) ≡ false = ground arith in
    let ih = append_all-join ss out' (omega arith) in
    let step : append_string s out ≡ some out' = if_false _ _ fit in
    let e : out.remaining - length s - length (join ss) ≡ out.remaining - length (s ++ join ss) =
      omega arith in
    rw (step, append_all) (ih ∙ ap some (record_eq (append_assoc out.written s (join ss)) e))
  where
    record_eq : {w w' : Text} {r r' : ℕ} → w ≡ w' → r ≡ r' → out_of w r ≡ out_of w' r'
    record_eq p q = rw (p, q) refl

three :
    (a b c : Text)
    → length (a ++ (space ∷ (b ++ (space ∷ (c ++ (cr ∷ lf ∷ []))))))
      ≡ length c + (length a + length b + 4)
three a b c =
    let x = length-append a (space ∷ (b ++ (space ∷ (c ++ (cr ∷ lf ∷ []))))) in
    let y = length-append b (space ∷ (c ++ (cr ∷ lf ∷ []))) in
    let z = length-append c (cr ∷ lf ∷ []) in omega arith

length-start :
    (p : Text) (b : Start) → length (join (start_strings p b)) ≡ length p + start_length b
length-start p (request command target) = three command target p
length-start p (response code status) = omega (arith, three p (print_int code) status)

length-options : (os : List OptionItem) → length (join (option_strings os)) ≡ options_length os
length-options [] = refl
length-options (o ∷ os) =
    let rest = join (option_strings os) in
    let a = length-append o.name (colon ∷ space ∷ (o.content ++ (cr ∷ lf ∷ rest))) in
    let b = length-append o.content (cr ∷ lf ∷ rest) in omega (arith, length-options os)

-- The text of a message: what `serialize_rtsp_message` is to write.
abbrev pub text_of : Message → Text
text_of m = elim m.payload [ none ↦ join (strings_of m) | some p ↦ join (strings_of m) ++ p ]

length-strings :
    (m : Message)
    → get_message_length m ≡ 1 + length (join (strings_of m)) + payload_length m.payload
unfolding get_message_length
length-strings m =
    let a =
      join-append (start_strings m.protocol m.begin) (option_strings m.options ++ (crlf ∷ [])) in
    let b = join-append (option_strings m.options) (crlf ∷ []) in
    let c =
      length-append (join (start_strings m.protocol m.begin))
        (join (option_strings m.options ++ (crlf ∷ []))) in
    let d = length-append (join (option_strings m.options)) (join (crlf ∷ [])) in
    let e = length-start m.protocol m.begin in
    let f = length-options m.options in let g = ap length a in let h = ap length b in omega arith

-- Serialization never fails for want of room: the length that `get_message_length` computes is
-- enough for every string with its terminator and for the payload, so the result is the text.
pub serialize_succeeds : (m : Message) → serialize_rtsp_message m ≡ some (text_of m)
unfolding serialize_rtsp_message
serialize_succeeds m =
    let l = length-strings m in
    let out : Out = record { written = []; remaining = get_message_length m } in
    let all = append_all-join (strings_of m) out (omega arith) in
    let r : get_message_length m - length (join (strings_of m)) ≡ 1 + payload_length m.payload =
      omega arith in
    rw (all, r, serialize_rtsp_message) (copied (join (strings_of m)) m.payload)
  where
    copied :
        (w : Text) (p : Option Text)
        → append_payload p (out_of w (1 + payload_length p))
          ≡ some (elim p [ none ↦ w | some q ↦ w ++ q ])
    copied w none = refl
    copied w (some q) =
        let z : ltb (1 + length q) (length q) ≡ false = ground arith in if_false _ _ z
