-- ===== src/Tests/Modes.antt =====
-- Concrete inputs for the DER mode types.
use Prim.Native.String.{String}
use ieee_2030_5_core_go.Prelude.{List, [], ◌∷◌, some, ◌≡◌, ◌↔◌, Text, arith}
use ieee_2030_5_core_go.Prelude.Int.{pos, negsuc}
use ieee_2030_5_core_go.Golang.Xml.{XmlName, Decoder, other_token}
use ieee_2030_5_core_go.Sep2.Result as Res
use ieee_2030_5_core_go.Sep2.Result.{ok}
use ieee_2030_5_core_go.Sep2.Content.{decode_children}
use ieee_2030_5_core_go.Sep2.Content.Sound.{Content, set_all, decode_children_iff}
use ieee_2030_5_core_go.Sep2.DerModes.{
  elements, FixedVar, marshal_fixed_var, unmarshal_fixed_var, unmarshal_fixed_var_json,
  FreqDroopType, marshal_freq_droop, unmarshal_freq_droop,
}
use ieee_2030_5_core_go.Sep2.DerModes.Fields.{
  unmarshal_fixed_var-marshal_fixed_var, unmarshal_freq_droop-marshal_freq_droop,
}
use ieee_2030_5_core_go.Sep2.DerModes.Legal.{RefTypeKept, unmarshal_fixed_var-RefTypeKept}

abbrev sep_ns : String
sep_ns = "urn:ieee:std:2030.5:ns"

abbrev mode_name : XmlName
mode_name = record { space = sep_ns; local = "opModFixedVar" }

abbrev one_child : Decoder
one_child = other_token ∷ elements sep_ns (("value", b'7' ∷ []) ∷ []) mode_name []

abbrev keep_text : String → Text → Text → Res.Result Text
keep_text name text s = ok text

decode_children_iff_example :
    (decode_children sep_ns ("value" ∷ []) keep_text [] one_child ≡ ok (b'7' ∷ [], [])) ↔ (
      (texts : List Text) × Content sep_ns ("value" ∷ []) texts one_child []
      × (set_all keep_text ("value" ∷ []) texts [] ≡ ok (b'7' ∷ [])))
decode_children_iff_example =
    decode_children_iff sep_ns ("value" ∷ []) keep_text [] one_child (b'7' ∷ []) []

abbrev zero_var : FixedVar
zero_var = record { ref_type = 0; value = pos 0 }

abbrev some_var : FixedVar
some_var = record { ref_type = 2; value = negsuc 4 }

unmarshal_fixed_var-marshal_fixed_var_example :
    (fields : List (String × Text)) × (marshal_fixed_var some_var ≡ ok fields)
    × (unmarshal_fixed_var sep_ns zero_var (elements sep_ns fields mode_name [])
        ≡ (some_var, ok tt))
unmarshal_fixed_var-marshal_fixed_var_example =
    unmarshal_fixed_var-marshal_fixed_var sep_ns zero_var some_var mode_name [] (record {
      ref_low = omega arith;
      ref_high = omega arith;
      value_legal = (omega arith, omega arith);
    })

abbrev zero_droop : FreqDroopType
zero_droop = record { dbof = 0; dbuf = 0; kof = 0; kuf = 0; open_loop_tms = 0 }

abbrev some_droop : FreqDroopType
some_droop = record { dbof = 70000; dbuf = 36; kof = 5; kuf = 6; open_loop_tms = 500 }

unmarshal_freq_droop-marshal_freq_droop_example :
    unmarshal_freq_droop sep_ns zero_droop
      (elements sep_ns (marshal_freq_droop some_droop) mode_name [])
    ≡ (some_droop, ok tt)
unmarshal_freq_droop-marshal_freq_droop_example =
    unmarshal_freq_droop-marshal_freq_droop sep_ns zero_droop some_droop mode_name [] (record {
      dbof_fits = omega arith;
      dbuf_fits = omega arith;
      kof_fits = omega arith;
      kuf_fits = omega arith;
      open_loop_tms_fits = omega arith;
    })

-- The refType is missing from the element, and 4 in the JSON form.
unmarshal_fixed_var-RefTypeKept_example :
    RefTypeKept some_var (unmarshal_fixed_var sep_ns some_var one_child)
    × RefTypeKept some_var (unmarshal_fixed_var_json some_var (some (some 4, some (pos 0))))
unmarshal_fixed_var-RefTypeKept_example =
    unmarshal_fixed_var-RefTypeKept sep_ns some_var one_child (some (some 4, some (pos 0)))
