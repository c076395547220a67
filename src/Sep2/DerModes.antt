-- ===== src/Sep2/DerModes.antt =====
-- pkg/sep2/der_mode_types.go: FixedVar and FreqDroopType. A marshalled element is the
-- list of its children, each a name with its text; `elements` is what a decoder reads of it.
pub mod Fields
pub mod Legal
use Prim.Native.String.{String}
use text.Mathlib.Text.{◌==◌}
use ieee_2030_5_core_go.Prelude.{
  ℕ, ◌%◌, ◌^◌, Bool, true, false, ◌||◌, List, [], ◌∷◌, ◌++◌, Option, none, some, if◌then◌else◌, ltb,
  Text,
}
use ieee_2030_5_core_go.Prelude.Int.{ℤ, pos}
use ieee_2030_5_core_go.Golang.Strconv.{format_uint}
use ieee_2030_5_core_go.Golang.Xml.{start_element, end_element, char_data, XmlName, Decoder}
use ieee_2030_5_core_go.Sep2.Result.{
  bad_json, bad_ref_type, Result, ok, err, stuck, assign, ◌>>=◌, ◌>>◌,
}
use ieee_2030_5_core_go.Sep2.Content.{decode_children, parse_uint_text, require_json}
use ieee_2030_5_core_go.Sep2.Bounded as Bounded
use ieee_2030_5_core_go.Sep2.Bounded.{signed_per_cent, parse_signed_per_cent}

-- The tokens of an element's children in namespace `ns`, up to the end tag `n`.
abbrev pub elements : String → List (String × Text) → XmlName → Decoder → Decoder
elements ns [] n rest = end_element n ∷ rest
elements ns ((name, text) ∷ fields) n rest =
    let tag : XmlName = record { space = ns; local = name } in
    start_element tag [] ∷ char_data text ∷ end_element tag ∷ elements ns fields n rest

pub record FixedVar : Type 0 where
  pub ref_type : ℕ
  pub value : ℤ

check_ref_type : ℕ → Result (Unit {0})
check_ref_type r = if ltb r 1 || ltb 3 r then err (bad_ref_type r) else ok tt

-- `FixedVar.MarshalXML`. The value goes through `SignedPerCent.MarshalXML`.
unfoldable pub marshal_fixed_var : FixedVar → Result (List (String × Text))
unfolding check_ref_type
marshal_fixed_var f = do
  check_ref_type f.ref_type
  value ← Bounded.marshal_xml signed_per_cent f.value
  ok (("refType", format_uint f.ref_type 10) ∷ ("value", value) ∷ [])

-- The callback of `FixedVar.UnmarshalXML`.
set_fixed_var : String → Text → FixedVar → Result FixedVar
set_fixed_var name text v =
    if name == "refType"
    then (parse_uint_text text 8 >>= λ n. ok (record v { ref_type = n % 2 ^ 8 }))
    else (parse_signed_per_cent text >>= λ p. ok (record v { value = p }))

-- The zero value.
abbrev zero_fixed_var : FixedVar
zero_fixed_var = record { ref_type = 0; value = pos 0 }

-- `FixedVar.UnmarshalXML` behind a start tag in namespace `ns`.
unfoldable pub unmarshal_fixed_var : String → FixedVar → Decoder → FixedVar × Result (Unit {0})
unfolding set_fixed_var check_ref_type
unmarshal_fixed_var ns old d = assign old do
  (v, rest) ← decode_children ns ("refType" ∷ "value" ∷ []) set_fixed_var zero_fixed_var d
  check_ref_type v.ref_type
  ok v

-- `FixedVar.MarshalJSON`: the two fields that it encodes.
unfoldable pub marshal_fixed_var_json : FixedVar → Result (ℕ × ℤ)
unfolding check_ref_type
marshal_fixed_var_json f = do
  check_ref_type f.ref_type
  value ← Bounded.marshal_json signed_per_cent f.value
  ok (f.ref_type, value)

is_nil {ℓ} : {A : Type ℓ} → Option A → Bool
is_nil none = true
is_nil (some a) = false

-- The last lines of `FixedVar.UnmarshalJSON`. `stuck` is the dereference of a nil pointer.
deref_fixed_var : Option ℕ → Option ℤ → Result FixedVar
deref_fixed_var (some r) (some v) = do check_ref_type r; ok (record { ref_type = r; value = v })
deref_fixed_var r v = stuck

-- `FixedVar.UnmarshalJSON` on what `decodeJSONStrict` made of the text: `none` if it returned an
-- error, otherwise the two fields, `none` where one is missing.
fixed_var_of_json : Option (Option ℕ × Option ℤ) → Result FixedVar
fixed_var_of_json none = err bad_json
fixed_var_of_json (some (r, v)) = do
  u ← require_json (("RefType", is_nil r) ∷ ("Value", is_nil v) ∷ [])
  deref_fixed_var r v

unfoldable pub unmarshal_fixed_var_json :
    FixedVar → Option (Option ℕ × Option ℤ) → FixedVar × Result (Unit {0})
unfolding fixed_var_of_json deref_fixed_var check_ref_type is_nil
unmarshal_fixed_var_json old raw = assign old (fixed_var_of_json raw)

pub record FreqDroopType : Type 0 where
  pub dbof : ℕ
  pub dbuf : ℕ
  pub kof : ℕ
  pub kuf : ℕ
  pub open_loop_tms : ℕ

-- The default encoding: each field in declaration order, as a decimal.
unfoldable pub marshal_freq_droop : FreqDroopType → List (String × Text)
marshal_freq_droop f =
    ("dBOF", format_uint f.dbof 10)
    ∷ ("dBUF", format_uint f.dbuf 10)
    ∷ ("kOF", format_uint f.kof 10)
    ∷ ("kUF", format_uint f.kuf 10)
    ∷ ("openLoopTms", format_uint f.open_loop_tms 10)
    ∷ []

-- The width that the callback of `FreqDroopType.UnmarshalXML` parses a field at.
freq_droop_bits : String → ℕ
freq_droop_bits name = if name == "dBOF" || name == "dBUF" then 32 else 16

assign_freq_droop : String → ℕ → FreqDroopType → FreqDroopType
assign_freq_droop name n v =
    if name == "dBOF"
    then record v { dbof = n % 2 ^ 32 }
    else if name == "dBUF"
    then record v { dbuf = n % 2 ^ 32 }
    else if name == "kOF"
    then record v { kof = n % 2 ^ 16 }
    else if name == "kUF"
    then record v { kuf = n % 2 ^ 16 }
    else if name == "openLoopTms"
    then record v { open_loop_tms = n % 2 ^ 16 }
    else v

set_freq_droop : String → Text → FreqDroopType → Result FreqDroopType
unfolding freq_droop_bits assign_freq_droop
set_freq_droop name text v =
    parse_uint_text text (freq_droop_bits name) >>= λ n. ok (assign_freq_droop name n v)

abbrev zero_freq_droop : FreqDroopType
zero_freq_droop = record { dbof = 0; dbuf = 0; kof = 0; kuf = 0; open_loop_tms = 0 }

unfoldable pub unmarshal_freq_droop :
    String → FreqDroopType → Decoder → FreqDroopType × Result (Unit {0})
unfolding set_freq_droop
unmarshal_freq_droop ns old d = assign old do
  (v, rest) ←
      decode_children ns ("dBOF" ∷ "dBUF" ∷ "kOF" ∷ "kUF" ∷ "openLoopTms" ∷ []) set_freq_droop
        zero_freq_droop d
  ok v
