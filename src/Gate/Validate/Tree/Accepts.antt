-- ===== src/Gate/Validate/Tree/Accepts.antt =====
-- Lemmas on `Validate` and `ValidateElement` of internal/xsdgate/validate.go.
use Prim.Native.String.{String}
use text.Mathlib.Text.{◌==◌ as str_eq}
use text.Mathlib.TextEquality.{eq_iff}
use ieee_2030_5_core_go.Prelude.{
  true, List, [], ◌++◌, Option, none, some, append-nil_iff, ◌≡◌, ◌↔◌, inl, inr, refl, Bool-cases,
  Option-cases,
}
use ieee_2030_5_core_go.Golang.Xml.{Token, XmlName}
use ieee_2030_5_core_go.Gate.Schema.{ComplexType}
use ieee_2030_5_core_go.Gate.Model.{Schema, complex_type, type_of_element}
use ieee_2030_5_core_go.Gate.Document.{
  Node, name_of, Ending, Parse, bad_syntax, second_root, unbalanced_end, no_root, document,
  parse_document,
}
use ieee_2030_5_core_go.Gate.Validate.{Views}
use ieee_2030_5_core_go.Gate.Validate.Tree.{
  validate_node, checked, root_problems, validated, check_root, validate_tree, validate, of_element,
  validate_element,
}
use ieee_2030_5_core_go.Gate.Validate.Tree.Conforms.{Conforms, WellNamed, ViewsSound}
use ieee_2030_5_core_go.Gate.Validate.Tree.Decides.{node_decides}

-- The schema's own maps.
abbrev pub views_in : Schema → Views
views_in s = record { elements = s.eff_elements; attributes = s.eff_attrs }

-- A root in the target namespace, of the given complex type.
unfoldable pub Accepts : Schema → String → Node → Type 0
Accepts s type_name root =
    ((ct : ComplexType) × (complex_type s type_name ≡ some ct))
    × ((name_of root).space ≡ s.target_namespace)
    × Conforms s type_name true root

root_problems_iff :
    (s : Schema) (name : XmlName) → (root_problems s name ≡ []) ↔ (name.space ≡ s.target_namespace)
unfolding root_problems
root_problems_iff s name = elim (Bool-cases (str_eq name.space s.target_namespace)) [
  | inl q ↦ rw q (λ e. (eq_iff name.space s.target_namespace).0 q, λ e. refl)
  | inr q ↦
      rw q (λ e. absurd (cc e), λ e. absurd (cc ((eq_iff name.space s.target_namespace).1 e, q)))
]

check_root_iff :
    (s : Schema) (o : Option ComplexType) (type_name : String) (root : Node)
    → complex_type s type_name ≡ o
    → WellNamed s
    → ViewsSound s (views_in s)
    → ((check_root s o type_name root).1 ≡ checked []) ↔ Accepts s type_name root
unfolding check_root validated Accepts
check_root_iff s none type_name root q w sound =
    (λ e. absurd (cc e), λ ((ct, known), space, conform). absurd (cc (q, known)))
check_root_iff s (some ct) type_name root q w sound =
    let outcome = validate_node s (views_in s) root type_name (name_of root).local true in
    let (sound', iff) =
      node_decides s (views_in s) root type_name (name_of root).local true w sound in
    let named = root_problems_iff s (name_of root) in
    let split = append-nil_iff (root_problems s (name_of root)) outcome.1 in
    (
      λ e.
          let none_left : root_problems s (name_of root) ++ outcome.1 ≡ [] = cc e in
          let (a, b) = split.0 none_left in ((ct, q), named.0 a, iff.0 b),
      λ (known, space, conform). cc (split.1 (named.1 space, iff.1 conform)),
    )

validate_tree_iff :
    (s : Schema) (type_name : String) (p : Parse)
    → WellNamed s
    → ViewsSound s (views_in s)
    → ((validate_tree s type_name p).1 ≡ checked [])
      ↔ ((root : Node) × (p ≡ document root) × Accepts s type_name root)
unfolding validate_tree
validate_tree_iff s type_name bad_syntax w sound =
    (λ e. absurd (cc e), λ (root, q, a). absurd (cc q))
validate_tree_iff s type_name second_root w sound =
    (λ e. absurd (cc e), λ (root, q, a). absurd (cc q))
validate_tree_iff s type_name unbalanced_end w sound =
    (λ e. absurd (cc e), λ (root, q, a). absurd (cc q))
validate_tree_iff s type_name no_root w sound = (λ e. absurd (cc e), λ (root, q, a). absurd (cc q))
validate_tree_iff s type_name (document root) w sound =
    let iff = check_root_iff s (complex_type s type_name) type_name root refl w sound in
    (
      λ e. (root, refl, iff.0 e),
      λ (root', q, a). let same : root ≡ root' = cc q in iff.1 (rw same a),
    )

-- For a schema whose views declare no name twice, and whose maps hold only computed views: Validate
-- reports no error and no problem exactly for the documents that parse to a root in the target
-- namespace that conforms to the type, which is a complex type: at every depth the children stand in
-- the declared sequence, each particle as often as it may; attributes are declared, required ones are
-- given; values are in their types' lexical spaces; schemaVer is tolerated on the root alone.
pub validate_iff :
    (s : Schema) (type_name : String) (tokens : List Token) (ending : Ending)
    → WellNamed s
    → ViewsSound s (views_in s)
    → ((validate s type_name tokens ending).1 ≡ checked [])
      ↔ ((root : Node) × (parse_document tokens ending ≡ document root) × Accepts s type_name root)
unfolding validate
validate_iff s type_name tokens ending w sound =
    validate_tree_iff s type_name (parse_document tokens ending) w sound

-- The schema with other maps of views.
abbrev pub with_views : Schema → Views → Schema
with_views s v = record s { eff_elements = v.elements; eff_attrs = v.attributes }

-- Nothing but the maps differs, and the maps are sound.
abbrev pub KeepsSchema : Schema → Schema → Type 0
KeepsSchema s s' = (s' ≡ with_views s (views_in s')) × ViewsSound s (views_in s')

unchanged : (s : Schema) → ViewsSound s (views_in s) → KeepsSchema s s
unchanged s sound = (refl, sound)

validate_tree-KeepsSchema :
    (s : Schema) (type_name : String) (p : Parse)
    → WellNamed s
    → ViewsSound s (views_in s)
    → KeepsSchema s (validate_tree s type_name p).0
unfolding validate_tree check_root validated
validate_tree-KeepsSchema s type_name bad_syntax w sound = unchanged s sound
validate_tree-KeepsSchema s type_name second_root w sound = unchanged s sound
validate_tree-KeepsSchema s type_name unbalanced_end w sound = unchanged s sound
validate_tree-KeepsSchema s type_name no_root w sound = unchanged s sound
validate_tree-KeepsSchema s type_name (document root) w sound =
    elim (Option-cases (complex_type s type_name)) [
      | inl q ↦ rw q (unchanged s sound)
      | inr (ct, q) ↦
          let (sound', iff) =
            node_decides s (views_in s) root type_name (name_of root).local true w sound in
          rw q (refl, sound')
    ]

-- Under the same conditions, after any call of ValidateElement, whatever its result: the schema's
-- types and elements are what they were, and its maps hold only views that would be computed again.
pub validate_element-KeepsSchema :
    (s : Schema) (name : String) (tokens : List Token) (ending : Ending)
    → WellNamed s
    → ViewsSound s (views_in s)
    → KeepsSchema s (validate_element s name tokens ending).0
unfolding validate_element of_element validate
validate_element-KeepsSchema s name tokens ending w sound =
    elim (Option-cases (type_of_element s name)) [
      | inl q ↦ rw q (unchanged s sound)
      | inr (type_name, q) ↦
          rw q (validate_tree-KeepsSchema s type_name (parse_document tokens ending) w sound)
    ]
