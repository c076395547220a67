-- ===== src/Golang/Strconv.antt =====
-- `strconv.FormatUint`, `strconv.ParseUint` and `strconv.ParseInt`, for the bases 10 and 16.
pub mod Uint
pub mod Int
use ieee_2030_5_core_go.Prelude.{
  ℕ, zero, suc, ◌+◌, ◌-◌, ◌*◌, ◌/◌, ◌%◌, ◌^◌, ◌≤◌, ◌<◌, Bool, true, false, ◌&&◌, Option, none, some,
  List, [], ◌∷◌, ◌++◌, map, ◌≡◌, ◌≢◌, refl, ap, ◌∙◌, arith, inl, inr, Bool-cases, Option-cases,
  ltb→lt, leb, ltb, ◌==◌, if◌then◌else◌, Text, All, length,
}
use ieee_2030_5_core_go.Prelude.Int.{ℤ, pos, negsuc}

-- `strconv.ErrSyntax` and `strconv.ErrRange`.
pub data NumError : Type 0 where
  syntax range : NumError

pub data Parsed {ℓ} (A : Type ℓ) : Type ℓ where
  parsed : A → Parsed A
  failed : NumError → Parsed A

-- The lower-case digit of a number below 36.
unfoldable pub digit_char : ℕ → ℕ
digit_char d = if ltb d 10 then d + 48 else d + 87

-- The number of a digit, in either case.
unfoldable pub char_digit : ℕ → Option ℕ
char_digit c =
    if leb b'0' c && leb c b'9'
    then some (c - 48)
    else if leb b'a' c && leb c b'z'
    then some (c - 87)
    else if leb b'A' c && leb c b'Z'
    then some (c - 55)
    else none

-- The digits of `v`, highest first, in front of `acc`. 64 rounds are enough for a uint64.
unfoldable pub digits_onto : ℕ → ℕ → ℕ → List ℕ → List ℕ
digits_onto zero base v acc = v ∷ acc
digits_onto (suc n) base v acc =
    let rest = digits_onto n base (v / base) ((v % base) ∷ acc) in
    if ltb v base then v ∷ acc else rest

unfoldable pub format_uint : ℕ → ℕ → Text
format_uint v base = map digit_char (digits_onto 63 base v [])

-- The loop of `ParseUint`: `n` is the value of the digits read.
unfoldable pub parse_loop : ℕ → ℕ → ℕ → Text → Parsed ℕ
parse_loop base bits n [] = parsed n
parse_loop base bits n (c ∷ s) = elim (char_digit c) [
  | none ↦ failed syntax
  | some d ↦
      let rest = parse_loop base bits (n * base + d) s in
      if leb base d
      then failed syntax
      else if leb (2 ^ bits) (n * base + d)
      then failed range
      else rest
]

unfoldable pub parse_uint : Text → ℕ → ℕ → Parsed ℕ
parse_uint [] base bits = failed syntax
parse_uint (c ∷ s) base bits = parse_loop base bits 0 (c ∷ s)

-- `-un`, as an integer.
abbrev pub negate : ℕ → ℤ
negate zero = pos 0
negate (suc n) = negsuc n

-- `ParseInt` behind the sign: `half` is `1 << (bits - 1)`.
signed_value : Bool → ℕ → Parsed ℕ → Parsed ℤ
signed_value neg half (failed e) = failed e
signed_value true half (parsed n) = if ltb half n then failed range else parsed (negate n)
signed_value false half (parsed n) = if leb half n then failed range else parsed (pos n)

unfoldable pub parse_int : Text → ℕ → ℕ → Parsed ℤ
unfolding signed_value
parse_int [] base bits = failed syntax
parse_int (c ∷ s) base bits =
    if c == b'+'
    then signed_value false (2 ^ (bits - 1)) (parse_uint s base bits)
    else if c == b'-'
    then signed_value true (2 ^ (bits - 1)) (parse_uint s base bits)
    else signed_value false (2 ^ (bits - 1)) (parse_uint (c ∷ s) base bits)

unfoldable pub format_int : ℤ → ℕ → Text
format_int (pos n) base = format_uint n base
format_int (negsuc n) base = b'-' ∷ format_uint (suc n) base
