-- ===== src/Stun/Tests.antt =====
-- A response with a software attribute before the address, one whose attribute is padded, and one
-- that is cut off.
use tesla_moonlight_ubuntu.Base.{ℕ, ◌≡◌, refl, false, List, [], ◌∷◌, ◌++◌, arith, length, take}
use tesla_moonlight_ubuntu.Stun.{address, failed, cookie, xor_bytes, find_address, read_response}
use tesla_moonlight_ubuntu.Stun.Attributes.{
  is_outside, read_response_stays_inside, Other, others_then, find_address-first,
}

abbrev software : Other
software = record { high = 128; low = 34; value = 97 ∷ 98 ∷ 99 ∷ 100 ∷ [] }

abbrev mapped : List ℕ
mapped = 0 ∷ 32 ∷ 0 ∷ 8 ∷ 0 ∷ 1 ∷ 7 ∷ 8 ∷ 225 ∷ 186 ∷ 165 ∷ 67 ∷ []

abbrev attributes : List ℕ
attributes = others_then (software ∷ []) mapped

find_address-first_example :
    find_address 2 (length attributes) attributes
    ≡ address (xor_bytes (225 ∷ 186 ∷ 165 ∷ 67 ∷ []) cookie)
find_address-first_example =
    find_address-first (software ∷ []) 2 0 7 8 225 186 165 67 [] (refl, tt) (omega arith)

abbrev transaction : List ℕ
transaction = 1 ∷ 2 ∷ 3 ∷ 4 ∷ 5 ∷ 6 ∷ 7 ∷ 8 ∷ 9 ∷ 10 ∷ 11 ∷ 12 ∷ []

abbrev response : List ℕ
response = (1 ∷ 1 ∷ 0 ∷ 20 ∷ []) ++ (cookie ++ (transaction ++ attributes))

response_address : read_response transaction response ≡ address (192 ∷ 168 ∷ 1 ∷ 1 ∷ [])
unfolding read_response find_address
response_address = refl

-- A software attribute of three bytes with its byte of padding: the address behind it is missed.
padded_attribute_missed :
    read_response transaction (
      (1 ∷ 1 ∷ 0 ∷ 20 ∷ [])
      ++ (cookie ++ (transaction ++ ((128 ∷ 34 ∷ 0 ∷ 3 ∷ 97 ∷ 98 ∷ 99 ∷ 0 ∷ []) ++ mapped))))
    ≡ failed 5
unfolding read_response find_address
padded_attribute_missed = refl

read_response_stays_inside_example :
    is_outside (read_response transaction (take 30 response)) ≡ false
read_response_stays_inside_example = read_response_stays_inside transaction (take 30 response)
