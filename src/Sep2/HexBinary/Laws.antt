-- ===== src/Sep2/HexBinary/Laws.antt =====
-- Theorems on the methods of the hexBinary types of pkg/sep2/hexbinary.go.
use ieee_2030_5_core_go.Prelude.{
  ℕ, ◌%◌, ◌^◌, ◌<◌, false, [], ◌∷◌, ◌≡◌, ◌≢◌, refl, ap, ◌∙◌, arith, Text, some,
}
use ieee_2030_5_core_go.Golang.Strings.{trim_space, NoSpace, trim_space-NoSpace, is_space}
use ieee_2030_5_core_go.Golang.Strconv.{Parsed, parsed, failed, char_digit, parse_loop, parse_uint}
use ieee_2030_5_core_go.Golang.Strconv.Uint.{parse_uint-lt, two_pow-pos}
use ieee_2030_5_core_go.Sep2.HexBinary.{
  HexResult, ok, err, HexWidth, hex_binary8, hex_binary16, hex_binary32, hex_binary64, hex_bits,
  hex_value_of, wrap_num_error, hex_binary_value, marshal_xml, marshal_xml_attr, unmarshal_xml,
  unmarshal_xml_attr, assign_hex,
}
use ieee_2030_5_core_go.Sep2.HexBinary.RoundTrip.{hex_binary_value-hex_binary_text, hex_bits-le}

-- For each of the four types and every value of its width, element and attribute form alike:
-- unmarshalling what was marshalled gives the value back with no error, whatever the receiver held.
pub unmarshal_xml-marshal_xml :
    (w : HexWidth) (h v : ℕ) (name : Text)
    → v < 2 ^ hex_bits w
    → (unmarshal_xml w h (some (marshal_xml w v)) ≡ (v, ok tt))
      × (unmarshal_xml_attr w h (marshal_xml_attr w v name) ≡ (v, ok tt))
unfolding unmarshal_xml unmarshal_xml_attr marshal_xml marshal_xml_attr
unmarshal_xml-marshal_xml w h v name fits =
    let e = hex_binary_value-hex_binary_text v (hex_bits w) fits (hex_bits-le w v fits) in
    (rw e (ap (λ n. (n, ok tt)) (small w v fits)), rw e (ap (λ n. (n, ok tt)) (small w v fits)))
  where
    small : (w : HexWidth) (v : ℕ) → v < 2 ^ hex_bits w → v % 2 ^ hex_bits w ≡ v
    small hex_binary8 v h = omega arith
    small hex_binary16 v h = omega arith
    small hex_binary32 v h = omega arith
    small hex_binary64 v h = omega arith

hex_value_of-lt : (s : Text) (bits : ℕ) {v : ℕ} → hex_value_of s bits ≡ ok v → v < 2 ^ bits
unfolding hex_value_of wrap_num_error
hex_value_of-lt [] bits e = cc
hex_value_of-lt (c ∷ s) bits {v} e = go (parse_uint (c ∷ s) 16 bits) refl e
  where
    go : (p : Parsed ℕ) → parse_uint (c ∷ s) 16 bits ≡ p → wrap_num_error p ≡ ok v → v < 2 ^ bits
    go (parsed u) q r = parse_uint-lt (c ∷ s) 16 bits (q ∙ cc)
    go (failed x) q r = cc

-- What a call of `UnmarshalXML` on a decoded text may do, for a type of `2 ^ m` values.
abbrev pub Outcome : ℕ → ℕ → HexResult ℕ → ℕ × HexResult (Unit {0}) → Type 0
Outcome m h (ok v) r = (r ≡ (v, ok tt)) × (v < m)
Outcome m h (err e) r = r ≡ (h, err e)

assign_hex-Outcome :
    (w : HexWidth) (h : ℕ) (r : HexResult ℕ)
    → ((v : ℕ) → r ≡ ok v → v < 2 ^ hex_bits w)
    → Outcome (2 ^ hex_bits w) h r (assign_hex w h r)
unfolding assign_hex
assign_hex-Outcome hex_binary8 h (ok v) low =
    (ap (λ n. (n, ok tt)) (omega (arith, low v refl)), low v refl)
assign_hex-Outcome hex_binary16 h (ok v) low =
    (ap (λ n. (n, ok tt)) (omega (arith, low v refl)), low v refl)
assign_hex-Outcome hex_binary32 h (ok v) low =
    (ap (λ n. (n, ok tt)) (omega (arith, low v refl)), low v refl)
assign_hex-Outcome hex_binary64 h (ok v) low =
    (ap (λ n. (n, ok tt)) (omega (arith, low v refl)), low v refl)
assign_hex-Outcome w h (err e) low = refl

-- On every text, element and attribute form alike: if `hexBinaryValue` reads a number, that very
-- number, which the width holds, is stored with no error, so the conversion never truncates; if it
-- refuses, the receiver is as before and the error is returned.
pub unmarshal_xml_outcome :
    (w : HexWidth) (h : ℕ) (name text : Text)
    → Outcome
        (2 ^ hex_bits w)
        h
        (hex_binary_value text (hex_bits w))
        (unmarshal_xml w h (some text))
      × Outcome
          (2 ^ hex_bits w)
          h
          (hex_binary_value text (hex_bits w))
          (unmarshal_xml_attr w h (name, text))
unfolding unmarshal_xml unmarshal_xml_attr hex_binary_value
unmarshal_xml_outcome w h name text =
    let r = hex_value_of (trim_space text) (hex_bits w) in
    let low = λ (v : ℕ) (e : r ≡ ok v). hex_value_of-lt (trim_space text) (hex_bits w) e in
    (assign_hex-Outcome w h r low, assign_hex-Outcome w h r low)

parse_loop-zero : (bits : ℕ) (s : Text) → parse_loop 16 bits 0 (b'0' ∷ s) ≡ parse_loop 16 bits 0 s
unfolding parse_loop char_digit
parse_loop-zero bits s = ground (arith, two_pow-pos bits)

hex_value_of-zero :
    (s : Text) (bits : ℕ) → s ≢ [] → hex_value_of (b'0' ∷ s) bits ≡ hex_value_of s bits
unfolding hex_value_of parse_uint
hex_value_of-zero [] bits h = absurd (h refl)
hex_value_of-zero (c ∷ s) bits h = ap wrap_num_error (parse_loop-zero bits (c ∷ s))

zero_no_space : is_space b'0' ≡ false
unfolding is_space
zero_no_space = refl

-- A text with no white space reads the same with one more zero in front, whatever its length: the
-- odd number of digits that sep.xsd forbids is accepted, and means the padded text.
pub hex_binary_value-zero :
    (s : Text) (bits : ℕ)
    → NoSpace s
    → s ≢ []
    → hex_binary_value (b'0' ∷ s) bits ≡ hex_binary_value s bits
unfolding hex_binary_value
hex_binary_value-zero s bits clean ne =
    rw (trim_space-NoSpace s clean)
      (rw (trim_space-NoSpace (b'0' ∷ s) (zero_no_space, clean)) (hex_value_of-zero s bits ne))
