-- ===== src/Gate/Parse.antt =====
-- internal/xsdgate/schema.go: `ParseSchema`. The reader of the XML binding, `xml.Unmarshal`, is a
-- parameter. The last loop ranges over a map, in any order in Go, in order of insertion here.
pub mod Laws
pub mod Flow
use Prim.Native.String.{String}
use text.Mathlib.Text.{◌==◌ as str_eq}
use ieee_2030_5_core_go.Prelude.{
  Bool, ◌&&◌, ◌||◌, List, [], ◌∷◌, Option, none, some, ◌==◌, if◌then◌else◌, Text,
}
use ieee_2030_5_core_go.Gate.Table.{lookup, put}
use ieee_2030_5_core_go.Gate.Lexical.{SimpleType}
use ieee_2030_5_core_go.Gate.Schema.{
  Element, Attribute, ComplexType, ChainResult, ok, unknown_type, inheritance_cycle,
  effective_elements, effective_attributes,
}
use ieee_2030_5_core_go.Gate.Schema as Types
use ieee_2030_5_core_go.Gate.Xsd.{XsdElementDecl, XsdComplexType, XsdSimpleType, XsdSchemaDoc}
use ieee_2030_5_core_go.Gate.Convert.{
  ConvertError, Converted, refused, made, convert_simple_type, convert_complex_type,
}
use ieee_2030_5_core_go.Gate.Model.{Schema}
use ieee_2030_5_core_go.Gate.Validate.{Views}

-- `stuck_chain` is a chain that runs out of fuel.
pub data ParseError : Type 0 where
  bad_xml no_namespace uses_imports uses_groups unnamed_element stuck_chain : ParseError
  conversion : ConvertError → ParseError
  duplicate_simple_type duplicate_complex_type unknown_base base_cycle : String → ParseError

pub data Loaded {ℓ} (A : Type ℓ) : Type ℓ where
  fails : ParseError → Loaded A
  loads : A → Loaded A

infixl 5 ◌>>=◌
abbrev pub ◌>>=◌ {ℓ κ} : {A : Type ℓ} {B : Type κ} → Loaded A → (A → Loaded B) → Loaded B
fails why >>= next = fails why
loads a >>= next = next a

converted {ℓ} : {A : Type ℓ} → Converted A → Loaded A
converted (refused why) = fails (conversion why)
converted (made a) = loads a

-- `table[name] = a`, if the name is new.
enter :
    {A : Type 0}
    → Option A
    → ParseError
    → String
    → A
    → List (String × A)
    → Loaded (List (String × A))
enter none duplicate name a table = loads (put name a table)
enter (some old) duplicate name a table = fails duplicate

unfoldable pub simple_loop :
    List XsdSimpleType → List (String × SimpleType) → Loaded (List (String × SimpleType))
unfolding converted enter
simple_loop [] table = loads table
simple_loop (x ∷ rest) table = converted (convert_simple_type x) >>= λ st.
    enter (lookup st.name table) (duplicate_simple_type st.name) st.name st table >>= λ table'.
    simple_loop rest table'

unfoldable pub complex_loop :
    List XsdComplexType → List (String × ComplexType) → Loaded (List (String × ComplexType))
unfolding converted enter
complex_loop [] table = loads table
complex_loop (x ∷ rest) table = converted (convert_complex_type x) >>= λ ct.
    enter (lookup ct.name table) (duplicate_complex_type ct.name) ct.name ct table >>= λ table'.
    complex_loop rest table'

unfoldable pub element_loop :
    List XsdElementDecl → List (String × String) → Loaded (List (String × String))
element_loop [] table = loads table
element_loop (e ∷ rest) table =
    let later = element_loop rest (put e.name e.type table) in
    if str_eq e.name "" || str_eq e.type "" then fails unnamed_element else later

chain_error : {A : Type 0} → ChainResult A → Loaded (Unit {0})
chain_error (ok view) = loads tt
chain_error (unknown_type name) = fails (unknown_base name)
chain_error (inheritance_cycle name) = fails (base_cycle name)
chain_error Types.stuck = fails stuck_chain

-- The maps behind a round of the last loop, if both views were found.
resolve_views : List (String × ComplexType) → Views → String → Loaded Views
unfolding chain_error
resolve_views types v name =
    let (elements, found) = effective_elements types v.elements name in
    let (attributes, found') = effective_attributes types v.attributes name in
    chain_error found >>= λ u.
    chain_error found' >>= λ u'. loads (record { elements = elements; attributes = attributes })

unfoldable pub resolve_all :
    List (String × ComplexType) → List (String × ComplexType) → Views → Loaded Views
unfolding resolve_views
resolve_all types [] v = loads v
resolve_all types ((name, ct) ∷ rest) v =
    resolve_views types v name >>= λ v'. resolve_all types rest v'

-- `ParseSchema` behind `xml.Unmarshal`.
of_doc : XsdSchemaDoc → Loaded Schema
of_doc doc =
    if str_eq doc.target_namespace ""
    then fails no_namespace
    else if doc.imports || doc.includes
    then fails uses_imports
    else if doc.groups || doc.attribute_groups
    then fails uses_groups
    else simple_loop doc.simple_types [] >>= λ simple.
        complex_loop doc.complex_types [] >>= λ complex.
        element_loop doc.elements [] >>= λ elements.
        resolve_all complex complex (record { elements = []; attributes = [] }) >>= λ v.
        loads (record {
          target_namespace = doc.target_namespace;
          version = doc.version;
          complex_types = complex;
          simple_types = simple;
          elements = elements;
          eff_elements = v.elements;
          eff_attrs = v.attributes;
        })

-- `bytes.TrimPrefix` of the UTF-8 byte order mark.
unfoldable pub trim_bom : Text → Text
trim_bom (a ∷ b ∷ c ∷ rest) =
    if (a == 0xEF) && ((b == 0xBB) && (c == 0xBF)) then rest else a ∷ b ∷ c ∷ rest
trim_bom (a ∷ b ∷ []) = a ∷ b ∷ []
trim_bom (a ∷ []) = a ∷ []
trim_bom [] = []

from_binding : Option XsdSchemaDoc → Loaded Schema
unfolding of_doc
from_binding none = fails bad_xml
from_binding (some doc) = of_doc doc

unfoldable pub parse_schema : (Text → Option XsdSchemaDoc) → Text → Loaded Schema
unfolding from_binding
parse_schema unmarshal text = from_binding (unmarshal (trim_bom text))
