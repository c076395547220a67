-- ===== src/Tls/Identity.antt =====
-- pkg/sep2tls/identity.go: LFDI and SFDI. A string is the list of its bytes.
pub mod Bits
pub mod Laws
pub mod Accepts
use Prim.Native.Nat.{bit_or}
use ieee_2030_5_core_go.Prelude.{
  ℕ, zero, suc, ◌+◌, ◌-◌, ◌*◌, ◌/◌, ◌%◌, ◌^◌, Bool, true, false, not, ◌&&◌, ◌||◌, Option, none,
  some, List, [], ◌∷◌, ◌++◌, leb, ltb, ◌==◌, if◌then◌else◌, Text, length, take, drop, replicate,
}
use ieee_2030_5_core_go.Golang.Strconv.{format_uint}
use ieee_2030_5_core_go.Golang.Fmt.{sprintf_X, sprintf_011d, hex_decode_string}

-- A certificate, of which only the DER bytes matter here.
pub record Certificate : Type 0 where
  pub raw : List ℕ

-- The element of an array; the arrays here have 32 bytes, so no index is out of range.
abbrev pub byte_at : List ℕ → ℕ → ℕ
byte_at [] i = 0
byte_at (b ∷ bs) zero = b
byte_at (b ∷ bs) (suc i) = byte_at bs i

-- `val` of `sfdiFromHash`.
unfoldable pub top_36_bits : List ℕ → ℕ
top_36_bits fp =
    bit_or
      (bit_or
        (bit_or (bit_or (byte_at fp 0 * 2 ^ 28) (byte_at fp 1 * 2 ^ 20)) (byte_at fp 2 * 2 ^ 12))
        (byte_at fp 3 * 2 ^ 4))
      (byte_at fp 4 / 2 ^ 4)

-- `for _, c := range digits { sum += int(c - '0') }`
unfoldable pub sum_digits : ℕ → Text → ℕ
sum_digits sum [] = sum
sum_digits sum (c ∷ s) = sum_digits (sum + (c - b'0')) s

unfoldable pub sfdi_from_hash : List ℕ → Text
unfolding top_36_bits sum_digits
sfdi_from_hash fp =
    let digits = sprintf_011d (top_36_bits fp) in
    let check_digit = (10 - sum_digits 0 digits % 10) % 10 in digits ++ format_uint check_digit 10

is_upper_hex : ℕ → Bool
is_upper_hex c = (leb b'0' c && leb c b'9') || (leb b'A' c && leb c b'F')

-- The loop of `SFDIFromLFDI` over the characters.
all_upper_hex : Text → Bool
all_upper_hex [] = true
all_upper_hex (c ∷ s) = is_upper_hex c && all_upper_hex s

-- `none` is ErrInvalidLFDI.
sfdi_of_head : Option (List ℕ) → Option Text
sfdi_of_head none = none
sfdi_of_head (some head) = some (sfdi_from_hash (head ++ replicate (32 - length head) 0))

unfoldable pub sfdi_from_lfdi : Text → Option Text
unfolding is_upper_hex all_upper_hex sfdi_of_head
sfdi_from_lfdi lfdi =
    if not (length lfdi == 40)
    then none
    else if not (all_upper_hex lfdi)
    then none
    else sfdi_of_head (hex_decode_string (take 10 lfdi))

-- The loop of `ValidateSFDI`.
unfoldable pub validate_loop : ℕ → Text → Bool
validate_loop sum [] = sum % 10 == 0
validate_loop sum (c ∷ s) =
    let rest = validate_loop (sum + (c - b'0')) s in
    if ltb c b'0' || ltb b'9' c then false else rest

unfoldable pub validate_sfdi : Text → Bool
unfolding validate_loop
validate_sfdi sfdi = if not (length sfdi == 12) then false else validate_loop 0 sfdi

unfoldable pub format_sfdi : Text → Text
format_sfdi sfdi =
    if not (length sfdi == 12)
    then sfdi
    else take 3 sfdi
      ++ (b'-'
          ∷ (take 3 (drop 3 sfdi)
              ++ (b'-' ∷ (take 3 (drop 6 sfdi) ++ (b'-' ∷ take 3 (drop 9 sfdi))))))

-- SHA-256 is a parameter.
module _ (sum256 : List ℕ → List ℕ) where
  unfoldable pub fingerprint : Certificate → List ℕ
  fingerprint cert = sum256 cert.raw

  unfoldable pub lfdi : Certificate → Text
  unfolding fingerprint
  lfdi cert = sprintf_X (take 20 (fingerprint cert))

  unfoldable pub sfdi : Certificate → Text
  unfolding fingerprint
  sfdi cert = sfdi_from_hash (fingerprint cert)
