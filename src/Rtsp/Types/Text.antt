-- ===== src/Rtsp/Types/Text.antt =====
-- The functions on strings that RtspParser.c calls: comparison, `atoi`, `"%d"` and `strtok_r`.
use tesla_moonlight_ubuntu.Base.{
  ℕ, zero, suc, ℤ, pos, negsuc, minus, ◌+◌, ◌-◌, ◌*◌, ◌/◌, ◌%◌, Bool, true, false, ◌&&◌, ◌||◌,
  Option, none, some, [], ◌∷◌, ◌++◌, ltb, leb, ◌==◌, if◌then◌else◌,
}
use tesla_moonlight_ubuntu.Rtsp.Types.{Text}

-- `!strcmp`
unfoldable pub same : Text → Text → Bool
same [] [] = true
same [] (y ∷ ys) = false
same (x ∷ xs) [] = false
same (x ∷ xs) (y ∷ ys) = (x == y) && same xs ys

-- `startsWith(s, prefix)`
unfoldable pub starts_with : Text → Text → Bool
starts_with s [] = true
starts_with [] (p ∷ ps) = false
starts_with (c ∷ s) (p ∷ ps) = (c == p) && starts_with s ps

-- The bytes of the delimiters: space, CR, LF and the colon
abbrev pub space : ℕ
space = 32

abbrev pub cr : ℕ
cr = 13

abbrev pub lf : ℕ
lf = 10

abbrev pub colon : ℕ
colon = 58

abbrev pub is_end : ℕ → Bool
is_end c = (c == cr) || (c == lf)

abbrev pub is_delim : ℕ → Bool
is_delim c = (c == space) || is_end c

abbrev pub is_option_delim : ℕ → Bool
is_option_delim c = (c == colon) || is_delim c

-- `strtok_r` first skips delimiters,
unfoldable pub skip_delims : (ℕ → Bool) → Text → Text
skip_delims d [] = []
skip_delims d (c ∷ cs) = elim (d c) [ true ↦ skip_delims d cs | false ↦ c ∷ cs ]

-- then takes what is before the next delimiter or the terminator.
unfoldable pub token_of : (ℕ → Bool) → Text → Text
token_of d [] = []
token_of d (c ∷ cs) = elim (d c || (c == 0)) [ true ↦ [] | false ↦ c ∷ token_of d cs ]

-- The buffer behind the token, from the delimiter or the terminator on
unfoldable pub behind : (ℕ → Bool) → Text → Text
behind d [] = []
behind d (c ∷ cs) = elim (d c || (c == 0)) [ true ↦ c ∷ cs | false ↦ behind d cs ]

-- The delimiter is overwritten and the next call begins behind it; at the terminator it stays.
unfoldable pub context_of : Text → Text
context_of [] = []
context_of (c ∷ cs) = if c == 0 then c ∷ cs else cs

-- A token, what is behind it in the buffer but for one byte, and where the next call begins
pub record Token : Type 0 where
  pub text : Text
  pub end_check : Text
  pub context : Text

abbrev pub tail_of : Text → Text
tail_of [] = []
tail_of (c ∷ cs) = cs

abbrev pub token_at : (ℕ → Bool) → Text → Token
token_at d xs = record {
  text = token_of d xs;
  end_check = tail_of (behind d xs);
  context = context_of (behind d xs);
}

abbrev pub first_token : (ℕ → Bool) → Text → Option Token
first_token d [] = none
first_token d (c ∷ cs) = elim (c == 0) [ true ↦ none | false ↦ some (token_at d (c ∷ cs)) ]

-- `strtok_r`, on the rest of a buffer with its terminator
unfoldable pub strtok : (ℕ → Bool) → Text → Option Token
unfolding skip_delims token_of behind context_of
strtok d xs = first_token d (skip_delims d xs)

-- `atoi` of a number that fits an `int`
unfoldable pub digits_of : ℕ → Text → ℕ
digits_of n [] = n
digits_of n (c ∷ cs) = elim (leb 48 c && leb c 57) [
  | true ↦ digits_of (n * 10 + (c - 48)) cs
  | false ↦ n
]

abbrev is_space : ℕ → Bool
is_space c = (c == 32) || (leb 9 c && leb c 13)

abbrev signed : Text → ℤ
signed [] = pos 0
signed (c ∷ cs) =
    if c == 45
    then minus (digits_of 0 cs)
    else if c == 43
    then pos (digits_of 0 cs)
    else pos (digits_of 0 (c ∷ cs))

unfoldable pub atoi : Text → ℤ
unfolding skip_delims digits_of
atoi xs = signed (skip_delims is_space xs)

-- `"%d"`: an `int` has at most ten digits.
unfoldable pub print_digits : ℕ → ℕ → Text
print_digits zero n = []
print_digits (suc f) n = elim (ltb n 10) [
  | true ↦ (48 + n) ∷ []
  | false ↦ print_digits f (n / 10) ++ ((48 + n % 10) ∷ [])
]

unfoldable pub print_int : ℤ → Text
unfolding print_digits
print_int (pos n) = print_digits 10 n
print_int (negsuc n) = 45 ∷ print_digits 10 (suc n)
