-- ===== src/Stun/Attributes.antt =====
-- The attributes of a response are read within it, and the first address is found.
use tesla_moonlight_ubuntu.Base.{
  ℕ, zero, suc, ◌+◌, ◌-◌, ◌/◌, ◌%◌, ◌^◌, ◌≤◌, ◌<◌, ◌≡◌, refl, ◌∙◌, ap, Bool, true, false, List, [],
  ◌∷◌, ◌++◌, ltb, leb, arith, ◌==◌, length, length-append, length-drop, drop, elim_false, holds_if,
  if◌then◌else◌,
}
use tesla_moonlight_ubuntu.Stun.{
  Found, address, failed, outside, be16, cookie, xor_bytes, read_address, find_address,
  read_response, field, require,
}

abbrev pub is_outside : Found → Bool
is_outside (address a) = false
is_outside (failed e) = false
is_outside outside = true

abbrev Inside : Found → Type 0
Inside r = is_outside r ≡ false

read_address-Inside :
    (len : ℕ) (rest : List ℕ) → len ≤ length rest → is_outside (read_address len rest) ≡ false
read_address-Inside len [] h = ground arith
read_address-Inside len (a ∷ []) h = ground arith
read_address-Inside len (a ∷ b ∷ []) h = ground arith
read_address-Inside len (a ∷ b ∷ c ∷ []) h = ground arith
read_address-Inside len (a ∷ b ∷ c ∷ d ∷ []) h = ground arith
read_address-Inside len (a ∷ b ∷ c ∷ d ∷ e ∷ []) h = ground arith
read_address-Inside len (a ∷ b ∷ c ∷ d ∷ e ∷ f ∷ []) h = ground arith
read_address-Inside len (a ∷ b ∷ c ∷ d ∷ e ∷ f ∷ g ∷ []) h = ground arith
read_address-Inside len (a ∷ b ∷ c ∷ d ∷ e ∷ f ∷ g ∷ i ∷ rest) h = ground arith

find_address-Inside :
    (f left : ℕ) (rest : List ℕ)
    → left ≤ length rest
    → is_outside (find_address f left rest) ≡ false
unfolding find_address
find_address-Inside zero left rest h = refl
find_address-Inside (suc f) left [] h = ground arith
find_address-Inside (suc f) left (a ∷ []) h = ground arith
find_address-Inside (suc f) left (a ∷ b ∷ []) h = ground arith
find_address-Inside (suc f) left (a ∷ b ∷ c ∷ []) h = ground arith
find_address-Inside (suc f) left (t1 ∷ t2 ∷ l1 ∷ l2 ∷ rest) h =
    let n = be16 l1 l2 in
    let ih = find_address-Inside f (left - (4 + n)) (drop n rest) in
    let l = length-drop n rest in let r = read_address-Inside n rest in ground arith

require-Inside :
    (offset n err : ℕ) (bytes expected : List ℕ) (found : Found)
    → offset + n ≤ length bytes
    → is_outside found ≡ false
    → is_outside (require (field offset n bytes) expected err found) ≡ false
require-Inside offset n err bytes expected found le inside =
    let long : ltb (length bytes) (offset + n) ≡ false = ground arith in ground (arith, long)

-- No response makes the parser read behind the bytes that were received, in the header or in the
-- attributes.
pub read_response_stays_inside :
    (transaction_id bytes : List ℕ) → is_outside (read_response transaction_id bytes) ≡ false
unfolding read_response
read_response_stays_inside transaction_id bytes =
    holds_if Inside (length bytes == 0) (failed 2)
      (if ltb (length bytes) 20 then failed 3 else checked) (λ e. refl)
      (λ e.
        holds_if Inside (ltb (length bytes) 20) (failed 3) checked (λ f. refl)
          (λ f. long (ground (arith, f))))
  where
    attributes : Found
    attributes = find_address (length bytes) (length bytes - 20) (drop 20 bytes)

    message_type : Found
    message_type = require (field 0 2 bytes) (1 ∷ 1 ∷ []) 4 attributes

    transaction : Found
    transaction = require (field 8 12 bytes) transaction_id 3 message_type

    checked : Found
    checked = require (field 4 4 bytes) cookie 3 transaction

    long : 20 ≤ length bytes → Inside checked
    long h =
        let l = length-drop 20 bytes in
        let a =
          find_address-Inside (length bytes) (length bytes - 20) (drop 20 bytes) (omega arith) in
        let m = require-Inside 0 2 4 bytes (1 ∷ 1 ∷ []) attributes (omega arith) a in
        let t = require-Inside 8 12 3 bytes transaction_id message_type (omega arith) m in
        require-Inside 4 4 3 bytes cookie transaction (omega arith) t

-- An attribute of another type than XOR-MAPPED-ADDRESS, as its two type bytes and its value, and
-- a list of them, back to back, in front of other bytes
pub record Other : Type 0 where
  pub high : ℕ
  pub low : ℕ
  pub value : List ℕ

abbrev pub IsOther : Other → Type 0
IsOther o = (be16 o.high o.low % 2 ^ 15 == 32) ≡ false

abbrev pub AreOthers : List Other → Type 0
AreOthers [] = Unit
AreOthers (o ∷ os) = IsOther o × AreOthers os

abbrev pub others_then : List Other → List ℕ → List ℕ
others_then [] rest = rest
others_then (o ∷ os) rest =
    o.high ∷ o.low ∷ length o.value / 256 ∷ length o.value % 256 ∷ (o.value ++ others_then os rest)

drop-append : (xs ys : List ℕ) → drop (length xs) (xs ++ ys) ≡ ys
drop-append [] ys = refl
drop-append (x ∷ xs) ys = drop-append xs ys

length-others_then : (os : List Other) (rest : List ℕ) → length rest ≤ length (others_then os rest)
length-others_then [] rest = omega arith
length-others_then (o ∷ os) rest =
    let a = length-append o.value (others_then os rest) in omega (arith, length-others_then os rest)

-- The address of the first XOR-MAPPED-ADDRESS attribute, of the IPv4 family, is found behind any
-- attributes of other types that are laid back to back, each header directly behind the value
-- before it, and whatever follows the address. Fuel for each attribute is enough. The padding to
-- four bytes that STUN puts behind a value of another length is not part of this layout, so a real
-- response is covered if the lengths of the values before the address divide by four.
pub find_address-first :
    (os : List Other) (f reserved p1 p2 a b c d : ℕ) (rest : List ℕ)
    → AreOthers os
    → length os < f
    → let bytes = others_then os (0 ∷ 32 ∷ 0 ∷ 8 ∷ reserved ∷ 1 ∷ p1 ∷ p2 ∷ a ∷ b ∷ c ∷ d ∷ rest) in
      find_address f (length bytes) bytes ≡ address (xor_bytes (a ∷ b ∷ c ∷ d ∷ []) cookie)
unfolding find_address
find_address-first os zero reserved p1 p2 a b c d rest h l = absurd (omega arith)
find_address-first [] (suc f) reserved p1 p2 a b c d rest h l =
    let n = length (0 ∷ 32 ∷ 0 ∷ 8 ∷ reserved ∷ 1 ∷ p1 ∷ p2 ∷ a ∷ b ∷ c ∷ d ∷ rest) in
    let x : leb n 4 ≡ false = ground arith in
    let y : ltb n (4 + be16 0 8) ≡ false = ground arith in elim_false _ _ x ∙ elim_false _ _ y
find_address-first (o ∷ os) (suc f) reserved p1 p2 a b c d rest h l =
    let last = 0 ∷ 32 ∷ 0 ∷ 8 ∷ reserved ∷ 1 ∷ p1 ∷ p2 ∷ a ∷ b ∷ c ∷ d ∷ rest in
    let more = others_then os last in
    let v = length o.value in
    let n = length (others_then (o ∷ os) last) in
    let len : be16 (v / 256) (v % 256) ≡ v = omega arith in
    let all = length-append o.value more in
    let m = length-others_then os last in
    let x : leb n 4 ≡ false = ground arith in
    let y : ltb n (4 + be16 (v / 256) (v % 256)) ≡ false = ground (arith, len) in
    let left : n - (4 + be16 (v / 256) (v % 256)) ≡ length more = omega (arith, len) in
    let next : drop (be16 (v / 256) (v % 256)) (o.value ++ more) ≡ more =
      ap (λ k. drop k (o.value ++ more)) len ∙ drop-append o.value more in
    elim_false _ _ x
    ∙ elim_false _ _ y
    ∙ elim_false _ _ h.0
    ∙ ap (λ k. find_address f k (drop (be16 (v / 256) (v % 256)) (o.value ++ more))) left
    ∙ ap (find_address f (length more)) next
    ∙ find_address-first os f reserved p1 p2 a b c d rest h.1 (omega arith)
