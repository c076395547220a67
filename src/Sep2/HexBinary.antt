-- ===== src/Sep2/HexBinary.antt =====
-- pkg/sep2/hexbinary.go: the hexBinary family. A value of `HexBinaryN` is a number below 2 ^ N.
pub mod RoundTrip
pub mod Laws
use ieee_2030_5_core_go.Prelude.{
  Option, none, some, ℕ, ◌%◌, ◌^◌, [], ◌∷◌, map, ◌==◌, if◌then◌else◌, Text, length,
}
use ieee_2030_5_core_go.Golang.Strings.{trim_space, to_upper}
use ieee_2030_5_core_go.Golang.Strconv.{NumError, Parsed, parsed, failed, format_uint, parse_uint}

-- An error of `DecodeElement`, an empty text, or what `ParseUint` refuses.
pub data HexError : Type 0 where
  decode empty : HexError
  bad_number : NumError → HexError

pub data HexResult {ℓ} (A : Type ℓ) : Type ℓ where
  ok : A → HexResult A
  err : HexError → HexResult A

pad_even : Text → Text
pad_even s = if length s % 2 == 0 then s else b'0' ∷ s

unfoldable pub hex_binary_text : ℕ → Text
unfolding pad_even
hex_binary_text v = pad_even (map to_upper (format_uint v 16))

wrap_num_error : Parsed ℕ → HexResult ℕ
wrap_num_error (parsed v) = ok v
wrap_num_error (failed e) = err (bad_number e)

hex_value_of : Text → ℕ → HexResult ℕ
hex_value_of [] bits = err empty
hex_value_of (c ∷ s) bits = wrap_num_error (parse_uint (c ∷ s) 16 bits)

unfoldable pub hex_binary_value : Text → ℕ → HexResult ℕ
unfolding hex_value_of wrap_num_error
hex_binary_value text bits = hex_value_of (trim_space text) bits

-- The four types.
pub data HexWidth : Type 0 where
  hex_binary8 hex_binary16 hex_binary32 hex_binary64 : HexWidth

abbrev pub hex_bits : HexWidth → ℕ
hex_bits hex_binary8 = 8
hex_bits hex_binary16 = 16
hex_bits hex_binary32 = 32
hex_bits hex_binary64 = 64

-- `MarshalXML`: the text of the element. `EncodeElement` writes it as it is.
unfoldable pub marshal_xml : HexWidth → ℕ → Text
marshal_xml w h = hex_binary_text h

-- `MarshalXMLAttr`: the name and the value of the attribute.
unfoldable pub marshal_xml_attr : HexWidth → ℕ → Text → Text × Text
marshal_xml_attr w h name = (name, hex_binary_text h)

-- The receiver after the call, and the error. The conversion to the type wraps at its width.
assign_hex : HexWidth → ℕ → HexResult ℕ → ℕ × HexResult (Unit {0})
assign_hex w h (ok v) = (v % 2 ^ hex_bits w, ok tt)
assign_hex w h (err e) = (h, err e)

-- `UnmarshalXML`, on what `DecodeElement` made of the element: `none` if it returned an error.
unfoldable pub unmarshal_xml : HexWidth → ℕ → Option Text → ℕ × HexResult (Unit {0})
unfolding assign_hex
unmarshal_xml w h none = (h, err decode)
unmarshal_xml w h (some text) = assign_hex w h (hex_binary_value text (hex_bits w))

-- `UnmarshalXMLAttr`.
unfoldable pub unmarshal_xml_attr : HexWidth → ℕ → Text × Text → ℕ × HexResult (Unit {0})
unfolding assign_hex
unmarshal_xml_attr w h attr = assign_hex w h (hex_binary_value attr.1 (hex_bits w))
