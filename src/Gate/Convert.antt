-- ===== src/Gate/Convert.antt =====
-- internal/xsdgate/schema.go: the conversion of the parsed XSD into simple and complex types.
pub mod Laws
pub mod Types
use Prim.Native.String.{String}
use Prim.Native.Char.{code}
use text.Mathlib.Text.{◌==◌ as str_eq}
use ieee_2030_5_core_go.Prelude.{
  Bool, true, false, not, ◌&&◌, ◌||◌, List, [], ◌∷◌, ◌++◌, Option, none, some, ◌==◌, if◌then◌else◌,
  Text,
}
use ieee_2030_5_core_go.Prelude.Int.{ℤ, pos, negsuc}
use ieee_2030_5_core_go.Golang.Strconv.{Parsed, parsed, failed, parse_int}
use ieee_2030_5_core_go.Gate.Lexical.{SimpleType}
use ieee_2030_5_core_go.Gate.Xsd.{
  XsdElementDecl, XsdAttribute, SequenceParts, XsdSequence, XsdSequences, Particles, XsdExtension,
  XsdDerivation, XsdComplexType, XsdSimpleType, sequence, no_more, more,
}
use ieee_2030_5_core_go.Gate.Schema.{Element, Attribute, ComplexType}

pub data ConvertError : Type 0 where
  uses_union uses_list no_restriction bad_max_length : ConvertError
  anonymous_type abstract_type complex_restriction simple_restriction no_extension : ConvertError
  uses_choice uses_all uses_group uses_attribute_group : ConvertError
  sequence_choice sequence_all sequence_group sequence_any : ConvertError
  element_ref inline_type unnamed_element attribute_ref : ConvertError

pub data Converted {ℓ} (A : Type ℓ) : Type ℓ where
  refused : ConvertError → Converted A
  made : A → Converted A

abbrev pub and_then {ℓ κ} :
    {A : Type ℓ} {B : Type κ} → Converted A → (A → Converted B) → Converted B
and_then (refused why) next = refused why
and_then (made a) next = next a

after_colon : String → Option String
after_colon String.[] = none
after_colon (String.◌∷◌ c s) = if code c == b':' then some s else after_colon s

or_whole : Option String → String → String
or_whole none s = s
or_whole (some t) s = t

unfoldable pub strip_ns : String → String
unfolding after_colon or_whole
strip_ns qname = or_whole (after_colon qname) qname

max_length_of : Option Text → Converted ℤ
max_length_of none = made (negsuc 0)
max_length_of (some text) = go (parse_int text 10 64)
  where
    go : Parsed ℤ → Converted ℤ
    go (parsed n) = made n
    go (failed e) = refused bad_max_length

restricted : String → Option (String × Option Text) → Converted SimpleType
unfolding max_length_of
restricted name none = refused no_restriction
restricted name (some (base, max_length)) =
    and_then (max_length_of max_length)
      λ n. made (record { name = name; base = strip_ns base; max_length = n })

unfoldable pub convert_simple_type : XsdSimpleType → Converted SimpleType
unfolding restricted
convert_simple_type st =
    if st.union
    then refused uses_union
    else if st.list
    then refused uses_list
    else restricted st.name st.restriction

unfoldable pub reject_unsupported_particles : Particles → Converted (Unit {0})
reject_unsupported_particles p =
    if p.choice
    then refused uses_choice
    else if p.all
    then refused uses_all
    else if p.group_ref
    then refused uses_group
    else if p.attr_groups
    then refused uses_attribute_group
    else made tt

unfoldable pub convert_element : String → XsdElementDecl → Converted Element
convert_element owner e =
    if not (str_eq e.ref "")
    then refused element_ref
    else if e.inline_complex || e.inline_simple
    then refused inline_type
    else if str_eq e.name "" || str_eq e.type ""
    then refused unnamed_element
    else made (record {
      name = e.name;
      type = strip_ns e.type;
      required = str_eq e.min_occurs "" || not (str_eq e.min_occurs "0");
      repeatable = not (str_eq e.max_occurs "") && not (str_eq e.max_occurs "1");
      owner = owner;
    })

unfoldable pub convert_elements : String → List XsdElementDecl → Converted (List Element)
convert_elements owner [] = made []
convert_elements owner (e ∷ es) =
    and_then (convert_element owner e)
      λ element. and_then (convert_elements owner es) λ rest. made (element ∷ rest)

reject_sequence : SequenceParts → Converted (Unit {0})
reject_sequence s =
    if s.choice
    then refused sequence_choice
    else if s.all
    then refused sequence_all
    else if s.group_ref
    then refused sequence_group
    else if s.any
    then refused sequence_any
    else made tt

unfoldable mutual
  unfolding reject_sequence

  pub flatten : String → XsdSequence → Converted (List Element)
  flatten owner (sequence parts nested) = and_then (reject_sequence parts) λ u.
      and_then (convert_elements owner parts.elements)
        λ own. and_then (flatten_all owner nested) λ inner. made (own ++ inner)

  pub flatten_all : String → XsdSequences → Converted (List Element)
  flatten_all owner no_more = made []
  flatten_all owner (more s rest) =
      and_then (flatten owner s)
        λ here. and_then (flatten_all owner rest) λ later. made (here ++ later)

-- `flattenSequence`; nil is `none`.
unfoldable pub flatten_sequence : String → Option XsdSequence → Converted (List Element)
flatten_sequence owner none = made []
flatten_sequence owner (some s) = flatten owner s

unfoldable pub convert_attributes : String → List XsdAttribute → Converted (List Attribute)
convert_attributes owner [] = made []
convert_attributes owner (a ∷ rest) =
    if not (str_eq a.ref "")
    then refused attribute_ref
    else and_then (convert_attributes owner rest) λ later. made (
        record {
          name = a.name;
          type = strip_ns a.type;
          required = str_eq a.use_attr "required";
          owner = owner;
        }
        ∷ later)

-- The last lines of `convertComplexType`.
finish_type :
    String → String → Bool → Option XsdSequence → List XsdAttribute → Converted ComplexType
finish_type name base simple_content seq attrs = and_then (flatten_sequence name seq) λ elements.
    and_then (convert_attributes name attrs) λ attributes. made (record {
      name = name;
      base = base;
      simple_content = simple_content;
      own_elements = elements;
      own_attributes = attributes;
    })

checked_extension : Option XsdExtension → Converted XsdExtension
checked_extension none = refused no_extension
checked_extension (some ext) = and_then (reject_unsupported_particles ext.particles) λ u. made ext

-- The extension of a derivation, behind the tests of its case.
extension_of : ConvertError → XsdDerivation → Converted XsdExtension
unfolding checked_extension
extension_of why d = if d.restriction then refused why else checked_extension d.extension

by_content : XsdComplexType → Option XsdDerivation → Option XsdDerivation → Converted ComplexType
unfolding finish_type extension_of
by_content ct (some complex) simple =
    and_then (extension_of complex_restriction complex)
      λ ext. finish_type ct.name (strip_ns ext.base) false ext.sequence ext.attributes
by_content ct none (some simple) =
    and_then (extension_of simple_restriction simple)
      λ ext. finish_type ct.name (strip_ns ext.base) true none ext.attributes
by_content ct none none = finish_type ct.name "" false ct.sequence ct.attributes

unfoldable pub convert_complex_type : XsdComplexType → Converted ComplexType
unfolding by_content
convert_complex_type ct =
    if str_eq ct.name ""
    then refused anonymous_type
    else if str_eq ct.abstract "true"
    then refused abstract_type
    else and_then (reject_unsupported_particles ct.particles)
        λ u. by_content ct ct.complex_content ct.simple_content
