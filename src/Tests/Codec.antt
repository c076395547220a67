-- ===== src/Tests/Codec.antt =====
-- Concrete inputs for pkg/sep2's number types.
use ieee_2030_5_core_go.Prelude.{[], ◌∷◌, some, ◌≡◌, ◌⊎◌, Text, arith, ◌^◌}
use ieee_2030_5_core_go.Prelude.Int.{pos, negsuc}
use ieee_2030_5_core_go.Golang.Xml.{XmlName, end_element, char_data}
use ieee_2030_5_core_go.Golang.Strconv.{format_int}
use ieee_2030_5_core_go.Sep2.HexBinary as Hex
use ieee_2030_5_core_go.Sep2.HexBinary.{
  hex_binary8, hex_binary16, hex_bits, hex_binary_text, hex_binary_value,
}
use ieee_2030_5_core_go.Sep2.HexBinary.Laws as HexLaws
use ieee_2030_5_core_go.Sep2.HexBinary.Laws.{
  unmarshal_xml-marshal_xml, hex_binary_value-zero, unmarshal_xml_outcome,
}
use ieee_2030_5_core_go.Sep2.Result as Res
use ieee_2030_5_core_go.Sep2.Bounded.{
  per_cent, signed_per_cent, one_hour_range, unmarshal_xml, marshal_xml, unmarshal_json,
  marshal_json,
}
use ieee_2030_5_core_go.Sep2.Bounded.Laws.{
  Within, Assigned, marshal_outcome, unmarshal_xml-marshal_xml_bounded, unmarshal-Assigned,
}

unmarshal_xml-marshal_xml_example :
    (Hex.unmarshal_xml hex_binary16 9 (some (Hex.marshal_xml hex_binary16 412)) ≡ (412, Hex.ok tt))
    × (Hex.unmarshal_xml_attr hex_binary16 9 (Hex.marshal_xml_attr hex_binary16 412 (b'n' ∷ []))
        ≡ (412, Hex.ok tt))
unmarshal_xml-marshal_xml_example =
    unmarshal_xml-marshal_xml hex_binary16 9 412 (b'n' ∷ []) (omega arith)

-- "1FF" does not fit HexBinary8.
unmarshal_xml_outcome_example :
    HexLaws.Outcome
      (2 ^ hex_bits hex_binary8)
      7
      (hex_binary_value (b'1' ∷ b'F' ∷ b'F' ∷ []) (hex_bits hex_binary8))
      (Hex.unmarshal_xml hex_binary8 7 (some (b'1' ∷ b'F' ∷ b'F' ∷ [])))
    × HexLaws.Outcome
        (2 ^ hex_bits hex_binary8)
        7
        (hex_binary_value (b'1' ∷ b'F' ∷ b'F' ∷ []) (hex_bits hex_binary8))
        (Hex.unmarshal_xml_attr hex_binary8 7 (b'n' ∷ [], b'1' ∷ b'F' ∷ b'F' ∷ []))
unmarshal_xml_outcome_example =
    unmarshal_xml_outcome hex_binary8 7 (b'n' ∷ []) (b'1' ∷ b'F' ∷ b'F' ∷ [])

abbrev value_name : XmlName
value_name = record { space = "urn:ieee:std:2030.5:ns"; local = "value" }

unmarshal_xml-marshal_xml_bounded_example :
    (text : Text) × (marshal_xml signed_per_cent (negsuc 4) ≡ Res.ok text)
    × (unmarshal_xml signed_per_cent (pos 3) (char_data text ∷ end_element value_name ∷ [])
        ≡ (negsuc 4, Res.ok tt))
unmarshal_xml-marshal_xml_bounded_example =
    unmarshal_xml-marshal_xml_bounded signed_per_cent (pos 3) (negsuc 4) value_name []
      (omega arith, omega arith)

-- 4000 seconds are more than an hour.
unmarshal-Assigned_example :
    Assigned one_hour_range (pos 5) (
      unmarshal_xml one_hour_range
        (pos 5)
        (char_data (b'4' ∷ b'0' ∷ b'0' ∷ b'0' ∷ []) ∷ end_element value_name ∷ []))
    × Assigned one_hour_range (pos 5) (unmarshal_json one_hour_range (pos 5) (some (pos 4000)))
unmarshal-Assigned_example =
    unmarshal-Assigned one_hour_range (pos 5)
      (char_data (b'4' ∷ b'0' ∷ b'0' ∷ b'0' ∷ []) ∷ end_element value_name ∷ []) (some (pos 4000))

marshal_outcome_example :
    (Within per_cent (pos 10001)
      × (marshal_json per_cent (pos 10001) ≡ Res.ok (pos 10001))
      × (marshal_xml per_cent (pos 10001) ≡ Res.ok (format_int (pos 10001) 10)))
    ⊎ (¬ Within per_cent (pos 10001)
        × (marshal_json per_cent (pos 10001)
            ≡ Res.err (Res.out_of_range (pos 10001) (pos 0) (pos 10000)))
        × (marshal_xml per_cent (pos 10001)
            ≡ Res.err (Res.out_of_range (pos 10001) (pos 0) (pos 10000))))
marshal_outcome_example = marshal_outcome per_cent (pos 10001)
