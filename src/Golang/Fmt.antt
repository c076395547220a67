-- ===== src/Golang/Fmt.antt =====
-- `fmt.Sprintf` with the verbs that the code uses, and `hex.DecodeString`.
pub mod Laws
use ieee_2030_5_core_go.Prelude.{
  ℕ, ◌+◌, ◌-◌, ◌*◌, ◌/◌, ◌%◌, ◌&&◌, Option, none, some, List, [], ◌∷◌, ◌++◌, leb, ltb,
  if◌then◌else◌, Text, length, replicate,
}
use ieee_2030_5_core_go.Golang.Strconv.{format_uint}

-- The upper-case hex digit of a number below 16.
unfoldable pub upper_hex : ℕ → ℕ
upper_hex d = if ltb d 10 then d + 48 else d + 55

-- `%X` on a slice of bytes: two digits each.
unfoldable pub sprintf_X : List ℕ → Text
unfolding upper_hex
sprintf_X [] = []
sprintf_X (b ∷ bs) = upper_hex (b / 16) ∷ upper_hex (b % 16) ∷ sprintf_X bs

-- `%011d` on a number that is not negative: zeros in front, up to 11 characters.
unfoldable pub sprintf_011d : ℕ → Text
sprintf_011d v = let s = format_uint v 10 in replicate (11 - length s) b'0' ++ s

-- The number of a hex digit, in either case.
unfoldable pub from_hex_char : ℕ → Option ℕ
from_hex_char c =
    if leb b'0' c && leb c b'9'
    then some (c - 48)
    else if leb b'a' c && leb c b'f'
    then some (c - 87)
    else if leb b'A' c && leb c b'F'
    then some (c - 55)
    else none

-- `hex.DecodeString`; `none` is an error.
hex_pair : Option ℕ → Option ℕ → Option (List ℕ) → Option (List ℕ)
hex_pair (some a) (some b) (some bs) = some ((a * 16 + b) ∷ bs)
hex_pair a b bs = none

unfoldable pub hex_decode_string : Text → Option (List ℕ)
unfolding hex_pair from_hex_char
hex_decode_string [] = some []
hex_decode_string (c ∷ []) = none
hex_decode_string (c ∷ d ∷ s) = hex_pair (from_hex_char c) (from_hex_char d) (hex_decode_string s)
