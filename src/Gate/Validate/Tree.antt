-- ===== src/Gate/Validate/Tree.antt =====
-- internal/xsdgate/validate.go: `checkChildren`, `validateNode` and `Validate`.
pub mod Counting
pub mod Accepts
pub mod Conforms
pub mod Decides
pub mod Sound
pub mod Steps
use Prim.Native.String.{String}
use text.Mathlib.Text.{◌==◌ as str_eq}
use ieee_2030_5_core_go.Prelude.{
  ℕ, zero, suc, Bool, true, false, not, ◌&&◌, ◌||◌, List, [], ◌∷◌, ◌++◌, Option, none, some, ltb,
  ◌==◌, if◌then◌else◌, Text,
}
use ieee_2030_5_core_go.Prelude.Int.{ℤ, pos, negsuc, ltb_ℤ}
use ieee_2030_5_core_go.Golang.Xml.{Token, XmlName, XmlAttr}
use ieee_2030_5_core_go.Gate.Table.{lookup, put}
use ieee_2030_5_core_go.Gate.Lexical.{check_lexical}
use ieee_2030_5_core_go.Gate.Schema.{
  Element, Attribute, ComplexType, ChainResult, ok, unknown_type, inheritance_cycle,
  effective_elements, effective_attributes,
}
use ieee_2030_5_core_go.Gate.Schema as Types
use ieee_2030_5_core_go.Gate.Model.{Schema, complex_type, type_of_element}
use ieee_2030_5_core_go.Gate.Document.{
  Node, Nodes, node, no_nodes, child, name_of, Ending, Parse, bad_syntax, second_root,
  unbalanced_end, no_root, document, parse_document,
}
use ieee_2030_5_core_go.Gate.Validate.{
  Problem, problem, order, missing_element, unknown_element, unknown_attribute, placement,
  repetition, namespace, Views, Outcome, child_path, lexical_problem, child_problems, elem_by_name,
  elem_index, attr_by_name, check_attributes,
}

repeatable_of : Option Element → Bool
repeatable_of none = false
repeatable_of (some e) = e.repeatable

pub count_of : Option ℕ → ℕ
count_of none = 0
count_of (some n) = n

-- `counts[local]++`.
unfoldable pub count_up : String → List (String × ℕ) → List (String × ℕ)
unfolding count_of
count_up name counts = put name (suc (count_of (lookup name counts))) counts

unfoldable pub repeated_problems :
    List (String × Element) → String → List (String × ℕ) → List Problem
unfolding repeatable_of
repeated_problems by_name path [] = []
repeated_problems by_name path ((name, count) ∷ rest) =
    (if ltb 1 count && not (repeatable_of (lookup name by_name))
      then problem repetition (child_path path name)
      else [])
    ++ repeated_problems by_name path rest

unfoldable pub missing_problems : List (String × ℕ) → String → List Element → List Problem
unfolding count_of
missing_problems counts path [] = []
missing_problems counts path (e ∷ rest) =
    (if e.required && count_of (lookup e.name counts) == 0
      then problem missing_element (child_path path e.name)
      else [])
    ++ missing_problems counts path rest

pub undeclared_child : Option Attribute → String → List Problem
undeclared_child (some a) path = problem placement path
undeclared_child none path = problem unknown_element path

pub order_problem : ℤ → ℤ → String → List Problem
order_problem idx last path = if ltb_ℤ idx last then problem order path else []

pub next_last : ℤ → ℤ → ℤ
next_last idx last = if ltb_ℤ last idx then idx else last

abbrev pub prepend : List Problem → Outcome → Outcome
prepend ps (views, qs) = (views, ps ++ qs)

-- What `checkChildren` finds in the type of the element.
pub record Tables : Type 0 where
  pub elems : List Element
  pub by_name : List (String × Element)
  pub index : List (String × ℕ)
  pub attrs : List (String × Attribute)

unfoldable pub tables_of : List Element → List Attribute → Tables
tables_of elems attrs = record {
  elems = elems;
  by_name = elem_by_name elems;
  index = elem_index elems;
  attrs = attr_by_name attrs;
}

pub child_step : Option Element → List Problem → Outcome → (Element → Outcome) → Outcome
child_step none undeclared behind declared = prepend undeclared behind
child_step (some decl) undeclared behind declared = declared decl

pub by_type : Option ComplexType → Outcome → (ComplexType → Outcome) → Outcome
by_type none simple complex = simple
by_type (some ct) simple complex = complex ct

pub with_elements :
    Views
    → List (String × List Element) × ChainResult (List Element)
    → String
    → (Views → List Element → Outcome)
    → Outcome
with_elements v (cache, ok elems) path next = next (record v { elements = cache }) elems
with_elements v (cache, unknown_type n) path next =
    (record v { elements = cache }, problem unknown_element path)
with_elements v (cache, inheritance_cycle n) path next =
    (record v { elements = cache }, problem unknown_element path)
with_elements v (cache, Types.stuck) path next =
    (record v { elements = cache }, problem unknown_element path)

pub with_attributes :
    Views
    → List (String × List Attribute) × ChainResult (List Attribute)
    → String
    → (Views → List Attribute → Outcome)
    → Outcome
with_attributes v (cache, ok attrs) path next = next (record v { attributes = cache }) attrs
with_attributes v (cache, unknown_type n) path next =
    (record v { attributes = cache }, problem unknown_attribute path)
with_attributes v (cache, inheritance_cycle n) path next =
    (record v { attributes = cache }, problem unknown_attribute path)
with_attributes v (cache, Types.stuck) path next =
    (record v { attributes = cache }, problem unknown_attribute path)

unfoldable mutual
  unfolding count_of order_problem next_last undeclared_child child_step by_type with_elements
      with_attributes

  pub validate_node : Schema → Views → Node → String → String → Bool → Outcome
  validate_node s v (node name attrs children text) type_name path root =
      by_type (complex_type s type_name)
        (
          v,
          lexical_problem (check_lexical s.simple_types type_name text) path
              ++ child_problems children path,
        )
        λ ct.
          with_elements v (effective_elements s.complex_types v.elements type_name) path λ v₁ es.
            with_attributes v₁ (effective_attributes s.complex_types v₁.attributes type_name) path
              λ v₂ as'.
                prepend (check_attributes s (attr_by_name as') (elem_by_name es) root path attrs) (
                  prepend
                    (if ct.simple_content
                      then lexical_problem (check_lexical s.simple_types ct.base text) path
                      else [])
                    (check_children s v₂ (tables_of es as') path children (negsuc 0) []))

  -- `checkChildren`, from its loop's variables on.
  pub check_children : Schema → Views → Tables → String → Nodes → ℤ → List (String × ℕ) → Outcome
  check_children s v t path no_nodes last counts =
      (v, repeated_problems t.by_name path counts ++ missing_problems counts path t.elems)
  check_children s v t path (child c rest) last counts =
      let local = (name_of c).local in
      let here = child_path path local in
      let idx = pos (count_of (lookup local t.index)) in
      child_step (lookup local t.by_name) (undeclared_child (lookup local t.attrs) here)
        (check_children s v t path rest last counts)
        λ decl.
          let r = validate_node s v c decl.type here false in
          prepend (order_problem idx last here) (
            prepend r.1
              (check_children s r.0 t path rest (next_last idx last) (count_up local counts)))

pub data Validated : Type 0 where
  bad_document : Parse → Validated
  no_such_type no_such_element : String → Validated
  checked : List Problem → Validated

root_problems : Schema → XmlName → List Problem
root_problems s name =
    if not (str_eq name.space s.target_namespace) then problem namespace name.local else []

validated : Outcome → Schema → Schema × Validated
validated (v, ps) s = (record s { eff_elements = v.elements; eff_attrs = v.attributes }, checked ps)

check_root : Schema → Option ComplexType → String → Node → Schema × Validated
unfolding validated root_problems
check_root s none type_name root = (s, no_such_type type_name)
check_root s (some ct) type_name root =
    validated
      (prepend (root_problems s (name_of root)) (
        validate_node s (record { elements = s.eff_elements; attributes = s.eff_attrs }) root
          type_name (name_of root).local true))
      s

validate_tree : Schema → String → Parse → Schema × Validated
unfolding check_root
validate_tree s type_name bad_syntax = (s, bad_document bad_syntax)
validate_tree s type_name second_root = (s, bad_document second_root)
validate_tree s type_name unbalanced_end = (s, bad_document unbalanced_end)
validate_tree s type_name no_root = (s, bad_document no_root)
validate_tree s type_name (document root) = check_root s (complex_type s type_name) type_name root

-- `Validate`: the schema afterwards, and the result.
unfoldable pub validate : Schema → String → List Token → Ending → Schema × Validated
unfolding validate_tree
validate s type_name tokens ending = validate_tree s type_name (parse_document tokens ending)

of_element : Option String → Schema → String → List Token → Ending → Schema × Validated
of_element none s name tokens ending = (s, no_such_element name)
of_element (some type_name) s name tokens ending = validate s type_name tokens ending

unfoldable pub validate_element : Schema → String → List Token → Ending → Schema × Validated
unfolding of_element
validate_element s name tokens ending = of_element (type_of_element s name) s name tokens ending
