-- ===== src/Gate/Convert/Types.antt =====
-- Theorems on convertComplexType of internal/xsdgate/schema.go.
use Prim.Native.String.{String}
use text.Mathlib.Text.{◌==◌ as str_eq}
use ieee_2030_5_core_go.Prelude.{Bool, true, false, List, [], Option, none, some, ◌≡◌}
use ieee_2030_5_core_go.Gate.Schema.{ComplexType}
use ieee_2030_5_core_go.Gate.Convert.{strip_ns}
use ieee_2030_5_core_go.Gate.Xsd.{
  XsdElementDecl, XsdSequence, XsdExtension, XsdDerivation, XsdComplexType,
}
use ieee_2030_5_core_go.Gate.Convert.Laws.{declared, Matches}

-- What a type is made from: its base, whether its content is a simple value, and its elements'
-- declarations in document order.
pub record Source : Type 0 where
  pub base : String
  pub simple_content : Bool
  pub declarations : List XsdElementDecl

abbrev pub declared_in : Option XsdSequence → List XsdElementDecl
declared_in none = []
declared_in (some s) = declared s

-- The derivation that counts: that of the complex content, else that of the simple content.
pub data MadeFrom : XsdComplexType → Source → Type 0 where
  complex :
      {ct : XsdComplexType} {d : XsdDerivation} {ext : XsdExtension}
      → ct.complex_content ≡ some d
      → d.extension ≡ some ext
      → MadeFrom ct (record {
        base = strip_ns ext.base;
        simple_content = false;
        declarations = declared_in ext.sequence;
      })
  simple_value :
      {ct : XsdComplexType} {d : XsdDerivation} {ext : XsdExtension}
      → ct.complex_content ≡ none
      → ct.simple_content ≡ some d
      → d.extension ≡ some ext
      → MadeFrom ct (record { base = strip_ns ext.base; simple_content = true; declarations = [] })
  plain :
      {ct : XsdComplexType}
      → ct.complex_content ≡ none
      → ct.simple_content ≡ none
      → MadeFrom ct
          (record { base = ""; simple_content = false; declarations = declared_in ct.sequence })

-- The type that is made from a source.
pub record IsMade (name : String) (s : Source) (t : ComplexType) : Type 0 where
  pub same_name : t.name ≡ name
  pub same_base : t.base ≡ s.base
  pub same_content : t.simple_content ≡ s.simple_content
  pub elements : Matches name s.declarations t.own_elements
