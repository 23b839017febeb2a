-- ===== src/Stun.antt =====
-- SimpleStun.c: what `LiFindExternalAddressIP4` makes of the response of a STUN server. The
-- request and the wait for the response are socket I/O; the request's transaction id is a
-- parameter. A read of the header or of an attribute behind the bytes received is a result of its
-- own.
pub mod Attributes
mod Tests
use tesla_moonlight_ubuntu.Base.{
  ℕ, zero, suc, ◌+◌, ◌-◌, ◌*◌, ◌%◌, ◌^◌, Bool, true, false, not, ◌||◌, Option, none, some, List, [],
  ◌∷◌, ◌++◌, ltb, leb, ◌==◌, if◌then◌else◌, length, take, drop,
}
use Prim.Native.Nat.{bit_xor}

-- An address, as its four bytes in the order of the network, an error with its sign dropped, or a
-- read outside
pub data Found : Type 0 where
  address : List ℕ → Found
  failed : ℕ → Found
  outside : Found

-- `htons` of a word of the message
abbrev pub be16 : ℕ → ℕ → ℕ
be16 high low = 256 * high + low

-- `STUN_MESSAGE_COOKIE`, in the order of the network
abbrev pub cookie : List ℕ
cookie = 33 ∷ 18 ∷ 164 ∷ 66 ∷ []

abbrev pub xor_bytes : List ℕ → List ℕ → List ℕ
xor_bytes [] ys = []
xor_bytes (x ∷ xs) [] = []
xor_bytes (x ∷ xs) (y ∷ ys) = bit_xor x y ∷ xor_bytes xs ys

-- The value of an XOR-MAPPED-ADDRESS attribute of length `len`
abbrev pub read_address : ℕ → List ℕ → Found
read_address len (reserved ∷ family ∷ p1 ∷ p2 ∷ a ∷ b ∷ c ∷ d ∷ rest) =
    if not (len == 8)
    then failed 5
    else if not (family == 1)
    then failed 5
    else address (xor_bytes (a ∷ b ∷ c ∷ d ∷ []) cookie)
read_address len rest = if not (len == 8) then failed 5 else outside

-- The loop over the attributes, on fuel. `left` is `bytesRead`, the list is what `attribute`
-- points to. The comprehension bit of the type is masked off.
unfoldable pub find_address : ℕ → (left : ℕ) → List ℕ → Found
find_address zero left rest = failed 6
find_address (suc f) left (t1 ∷ t2 ∷ l1 ∷ l2 ∷ rest) = elim (leb left 4) [
  | true ↦ failed 6
  | false ↦ elim (ltb left (4 + be16 l1 l2)) [
    | true ↦ failed 5
    | false ↦ elim (be16 t1 t2 % 2 ^ 15 == 32) [
      | true ↦ read_address (be16 l1 l2) rest
      | false ↦ find_address f (left - (4 + be16 l1 l2)) (drop (be16 l1 l2) rest)
    ]
  ]
]
find_address (suc f) left rest = if leb left 4 then failed 6 else outside

abbrev pub same_bytes : List ℕ → List ℕ → Bool
same_bytes [] [] = true
same_bytes [] (y ∷ ys) = false
same_bytes (x ∷ xs) [] = false
same_bytes (x ∷ xs) (y ∷ ys) = if x == y then same_bytes xs ys else false

-- The `n` bytes of the message at an offset, `none` if they are not all received
abbrev pub field : (offset n : ℕ) → List ℕ → Option (List ℕ)
field offset n bytes =
    if ltb (length bytes) (offset + n) then none else some (take n (drop offset bytes))

-- A test of a field of the header, and what follows if it holds
abbrev pub require : Option (List ℕ) → List ℕ → (err : ℕ) → Found → Found
require none expected err found = outside
require (some actual) expected err found = if same_bytes actual expected then found else failed err

-- The checks of the header of 20 bytes, and then its attributes. `bytes` is what was received, of
-- `bytesRead` bytes. `STUN_MESSAGE_BINDING_SUCCESS` is 0x0101.
unfoldable pub read_response : (transaction_id : List ℕ) → List ℕ → Found
unfolding find_address
read_response transaction_id bytes =
    if length bytes == 0
    then failed 2
    else if ltb (length bytes) 20
    then failed 3
    else require (field 4 4 bytes) cookie 3 (
        require (field 8 12 bytes) transaction_id 3 (
          require (field 0 2 bytes) (1 ∷ 1 ∷ []) 4
            (find_address (length bytes) (length bytes - 20) (drop 20 bytes))))
