-- ===== src/Gate/Lexical/HexText.antt =====
-- Theorems on checkHexBinary of internal/xsdgate/lexical.go and the encoder of
-- pkg/sep2/hexbinary.go.
use ieee_2030_5_core_go.Prelude.{
  ℕ, zero, suc, ◌+◌, ◌*◌, ◌/◌, ◌%◌, ◌^◌, ◌≤◌, ◌<◌, true, false, List, [], ◌∷◌, ltb, Text, All,
  length, length-map, ◌≡◌, ◌≢◌, refl, arith, inl, inr, Bool-cases,
}
use ieee_2030_5_core_go.Prelude.Int.{pos}
use ieee_2030_5_core_go.Golang.Strconv.{digits_onto}
use ieee_2030_5_core_go.Sep2.HexBinary.{
  HexWidth, hex_binary8, hex_binary16, hex_binary32, hex_binary64, hex_bits, hex_binary_text,
  marshal_xml,
}
use ieee_2030_5_core_go.Sep2.HexBinary.RoundTrip.{
  IsUpperHex, hex_binary_text_shape, hex_bits-le, even_digits, hex_binary_text-even_digits,
  upper_digit,
}
use ieee_2030_5_core_go.Gate.Lexical.{
  fine, rune_len, byte_length, is_hex, all_hex, is_empty, check_hex_binary,
}

-- A number of k digits in base 16 is written with no more.
digits_onto-length :
    (fuel k v : ℕ) (acc : List ℕ)
    → v < 16 ^ k
    → 0 < k
    → length (digits_onto fuel 16 v acc) ≤ k + length acc
unfolding digits_onto
digits_onto-length zero k v acc h some_digit = omega arith
digits_onto-length (suc fuel) zero v acc h some_digit = absurd (omega arith)
digits_onto-length (suc fuel) (suc zero) v acc h some_digit = ground arith
digits_onto-length (suc fuel) (suc (suc k)) v acc h some_digit = elim (Bool-cases (ltb v 16)) [
  | inl small ↦ rw small (omega arith)
  | inr large ↦ rw large (
      omega (
        arith,
        digits_onto-length fuel (suc k) (v / 16) ((v % 16) ∷ acc) (omega arith) (omega arith),
      ))
]

all_hex-IsUpperHex : (s : Text) → All IsUpperHex s → all_hex s ≡ true
unfolding all_hex is_hex
all_hex-IsUpperHex [] h = refl
all_hex-IsUpperHex (c ∷ s) h = ground (arith, h.0, all_hex-IsUpperHex s h.1)

byte_length-IsUpperHex : (s : Text) → All IsUpperHex s → byte_length s ≡ length s
unfolding byte_length rune_len
byte_length-IsUpperHex [] h = refl
byte_length-IsUpperHex (c ∷ s) h = ground (arith, h.0, byte_length-IsUpperHex s h.1)

even_digits-length : (k v : ℕ) → v < 16 ^ (2 * k) → 0 < k → length (even_digits v) ≤ 2 * k
unfolding even_digits
even_digits-length k v h some_octet =
    ground (arith, digits_onto-length 63 (2 * k) v [] h (omega arith))

hex_binary_text-length : (k v : ℕ) → v < 16 ^ (2 * k) → 0 < k → length (hex_binary_text v) ≤ 2 * k
hex_binary_text-length k v h some_octet =
    rw (hex_binary_text-even_digits v, length-map upper_digit (even_digits v))
      (even_digits-length k v h some_octet)

octets_lt : (w : HexWidth) (v : ℕ) → v < 2 ^ hex_bits w → v < 16 ^ (2 * (hex_bits w / 8))
octets_lt hex_binary8 v h = omega arith
octets_lt hex_binary16 v h = omega arith
octets_lt hex_binary32 v h = omega arith
octets_lt hex_binary64 v h = omega arith

some_octets : (w : HexWidth) → 0 < hex_bits w / 8
some_octets hex_binary8 = omega arith
some_octets hex_binary16 = omega arith
some_octets hex_binary32 = omega arith
some_octets hex_binary64 = omega arith

is_empty_lem : (s : Text) → s ≢ [] → is_empty s ≡ false
unfolding is_empty
is_empty_lem [] h = absurd (h refl)
is_empty_lem (c ∷ s) h = refl

-- The gate's check of hexBinary accepts everything that the four types write, at the maxLength of
-- each: a whole number of octets, at most as many as the type has.
pub check_hex_binary-marshal_xml :
    (w : HexWidth) (v : ℕ)
    → v < 2 ^ hex_bits w
    → check_hex_binary (marshal_xml w v) (pos (hex_bits w / 8)) ≡ fine
unfolding check_hex_binary marshal_xml
check_hex_binary-marshal_xml w v h =
    let (ne, even, upper) = hex_binary_text_shape v (hex_bits-le w v h) in
    let bytes = byte_length-IsUpperHex (hex_binary_text v) upper in
    let short = hex_binary_text-length (hex_bits w / 8) v (octets_lt w v h) (some_octets w) in
    rw (is_empty_lem (hex_binary_text v) ne, all_hex-IsUpperHex (hex_binary_text v) upper)
      (ground (arith, bytes, even, short))
