-- ===== src/Gate/Xsd.antt =====
-- internal/xsdgate/schema.go: the raw binding of an XSD. A pointer to an empty struct, and a list of
-- them, count only as present or absent.
use Prim.Native.String.{String}
use ieee_2030_5_core_go.Prelude.{Bool, List, Option, Text}

pub record XsdElementDecl : Type 0 where
  pub name : String
  pub ref : String
  pub type : String
  pub min_occurs : String
  pub max_occurs : String
  pub inline_complex : Bool
  pub inline_simple : Bool

pub record XsdAttribute : Type 0 where
  pub name : String
  pub ref : String
  pub type : String
  pub use_attr : String

-- The constructs that stand beside the elements of an `xsdSequence`.
pub record SequenceParts : Type 0 where
  pub choice : Bool
  pub all : Bool
  pub group_ref : Bool
  pub any : Bool
  pub elements : List XsdElementDecl

mutual
  pub data XsdSequence : Type 0 where
    sequence : SequenceParts → XsdSequences → XsdSequence

  pub data XsdSequences : Type 0 where
    no_more : XsdSequences
    more : XsdSequence → XsdSequences → XsdSequences

-- The constructs that `rejectUnsupportedParticles` looks at.
pub record Particles : Type 0 where
  pub choice : Bool
  pub all : Bool
  pub group_ref : Bool
  pub attr_groups : Bool

pub record XsdExtension : Type 0 where
  pub base : String
  pub sequence : Option XsdSequence
  pub particles : Particles
  pub attributes : List XsdAttribute

pub record XsdDerivation : Type 0 where
  pub extension : Option XsdExtension
  pub restriction : Bool

pub record XsdComplexType : Type 0 where
  pub name : String
  pub abstract : String
  pub sequence : Option XsdSequence
  pub particles : Particles
  pub attributes : List XsdAttribute
  pub complex_content : Option XsdDerivation
  pub simple_content : Option XsdDerivation

pub record XsdSimpleType : Type 0 where
  pub name : String
  pub union : Bool
  pub list : Bool
  -- The base and the maxLength of the restriction.
  pub restriction : Option (String × Option Text)

-- `xsdSchemaDoc`.
pub record XsdSchemaDoc : Type 0 where
  pub target_namespace : String
  pub version : String
  pub complex_types : List XsdComplexType
  pub simple_types : List XsdSimpleType
  pub elements : List XsdElementDecl
  pub imports : Bool
  pub includes : Bool
  pub groups : Bool
  pub attribute_groups : Bool
