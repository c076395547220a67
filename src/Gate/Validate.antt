-- ===== src/Gate/Validate.antt =====
-- internal/xsdgate/validate.go: the checks of a document's tree against the schema. A problem has its
-- kind and its path; the message is not modelled. The maps of views, which the checks fill, go from
-- call to call. The range over `counts`, which Go does in any order, is in order of insertion here.
pub mod Attributes
pub mod Order
pub mod Tree
use Prim.Native.String.{String, ◌++◌ as then_text}
use text.Mathlib.Text.{◌==◌ as str_eq}
use ieee_2030_5_core_go.Prelude.{
  ℕ, zero, suc, Bool, true, false, not, ◌&&◌, ◌||◌, List, [], ◌∷◌, ◌++◌, Option, none, some, ltb,
  if◌then◌else◌, Text,
}
use ieee_2030_5_core_go.Prelude.Int.{ℤ, pos, negsuc, ltb_ℤ}
use ieee_2030_5_core_go.Golang.Xml.{Token, XmlName, XmlAttr}
use ieee_2030_5_core_go.Gate.Table.{lookup, mem_name, keyed, fill}
use ieee_2030_5_core_go.Gate.Lexical.{
  Verdict, fine, odd_digits, not_hex, too_long, not_boolean, spaces, not_an_integer, outside,
  check_lexical,
}
use ieee_2030_5_core_go.Gate.Schema.{
  Element, Attribute, ComplexType, ChainResult, ok, unknown_type, inheritance_cycle,
  effective_elements, effective_attributes,
}
use ieee_2030_5_core_go.Gate.Lexical as Lexical
use ieee_2030_5_core_go.Gate.Schema as Types
use ieee_2030_5_core_go.Gate.Model.{Schema, sort_by}
use ieee_2030_5_core_go.Gate.Document.{
  Node, Nodes, node, no_nodes, child, name_of, Ending, Parse, bad_syntax, second_root,
  unbalanced_end, no_root, document, parse_document,
}

pub data ProblemKind : Type 0 where
  order missing_element missing_attribute unknown_element unknown_attribute : ProblemKind
  placement repetition lexical namespace : ProblemKind

pub record Problem : Type 0 where
  pub kind : ProblemKind
  pub path : String

abbrev pub problem : ProblemKind → String → List Problem
problem kind path = record { kind = kind; path = path } ∷ []

-- The maps of views.
pub record Views : Type 0 where
  pub elements : List (String × List Element)
  pub attributes : List (String × List Attribute)

abbrev pub Outcome : Type 0
Outcome = Views × List Problem

unfoldable pub child_path : String → String → String
child_path path local = then_text path (then_text "/" local)

unfoldable pub attr_path : String → String → String
attr_path path local = then_text path (then_text "/@" local)

unfoldable pub is_fine : Verdict → Bool
is_fine fine = true
is_fine odd_digits = false
is_fine not_hex = false
is_fine too_long = false
is_fine not_boolean = false
is_fine spaces = false
is_fine not_an_integer = false
is_fine outside = false
is_fine Lexical.stuck = false

unfoldable pub lexical_problem : Verdict → String → List Problem
lexical_problem verdict path = if is_fine verdict then [] else problem lexical path

-- Each child of an element whose type is a simple type.
unfoldable pub child_problems : Nodes → String → List Problem
child_problems no_nodes path = []
child_problems (child c rest) path =
    problem unknown_element (child_path path (name_of c).local) ++ child_problems rest path

-- `elemByName`.
unfoldable pub elem_by_name : List Element → List (String × Element)
elem_by_name elems = fill [] (keyed (λ e. e.name) elems)

pub by_index : ℕ → List Element → List (String × ℕ)
by_index i [] = []
by_index i (e ∷ rest) = (e.name, i) ∷ by_index (suc i) rest

-- `elemIndex`.
unfoldable pub elem_index : List Element → List (String × ℕ)
unfolding by_index
elem_index elems = fill [] (by_index 0 elems)

-- `attrByName`.
unfoldable pub attr_by_name : List Attribute → List (String × Attribute)
attr_by_name attrs = fill [] (keyed (λ a. a.name) attrs)

unfoldable pub is_namespace_decl : XmlName → Bool
is_namespace_decl n = str_eq n.local "xmlns" || str_eq n.space "xmlns"

-- The attributes that `checkAttributes` passes over.
unfoldable pub is_exempt : XmlName → Bool
is_exempt n = is_namespace_decl n || str_eq n.space "http://www.w3.org/2001/XMLSchema-instance"

unfoldable pub root_tolerated : String → Bool
root_tolerated local = str_eq local "schemaVer"

undeclared_attribute : Option Element → Bool → String → List Problem
undeclared_attribute (some el) tolerated path = problem placement path
undeclared_attribute none tolerated path = if tolerated then [] else problem unknown_attribute path

pub attribute_problem :
    Schema → Option Attribute → Option Element → Bool → Text → String → List Problem
unfolding undeclared_attribute
attribute_problem s (some decl) el tolerated value path =
    lexical_problem (check_lexical s.simple_types decl.type value) path
attribute_problem s none el tolerated value path = undeclared_attribute el tolerated path

-- The first loop of `checkAttributes`.
unfoldable pub present_problems :
    Schema
    → List (String × Attribute)
    → List (String × Element)
    → Bool
    → String
    → List XmlAttr
    → List Problem
unfolding attribute_problem
present_problems s attrs elems root path [] = []
present_problems s attrs elems root path (a ∷ rest) =
    if is_exempt a.name
    then present_problems s attrs elems root path rest
    else attribute_problem s (lookup a.name.local attrs) (lookup a.name.local elems)
        (root && root_tolerated a.name.local) a.value (attr_path path a.name.local)
      ++ present_problems s attrs elems root path rest

-- `seen`.
unfoldable pub seen_names : List XmlAttr → List String
seen_names [] = []
seen_names (a ∷ rest) = if is_exempt a.name then seen_names rest else a.name.local ∷ seen_names rest

values : List (String × Attribute) → List Attribute
values [] = []
values ((name, a) ∷ rest) = a ∷ values rest

unfoldable pub sorted_attrs : List (String × Attribute) → List Attribute
unfolding values
sorted_attrs table = sort_by (λ a. a.name) (values table)

-- The second loop of `checkAttributes`.
unfoldable pub absent_problems : List String → String → List Attribute → List Problem
absent_problems seen path [] = []
absent_problems seen path (a ∷ rest) =
    (if a.required && not (mem_name a.name seen)
      then problem missing_attribute (attr_path path a.name)
      else [])
    ++ absent_problems seen path rest

unfoldable pub check_attributes :
    Schema
    → List (String × Attribute)
    → List (String × Element)
    → Bool
    → String
    → List XmlAttr
    → List Problem
check_attributes s by_name elem_table root path attrs =
    present_problems s by_name elem_table root path attrs
    ++ absent_problems (seen_names attrs) path (sorted_attrs by_name)
