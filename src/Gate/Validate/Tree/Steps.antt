-- ===== src/Gate/Validate/Tree/Steps.antt =====
-- Lemmas on the checks of one element, without those of its children.
use Prim.Native.String.{String}
use ieee_2030_5_core_go.Prelude.{
  Bool, true, false, List, [], ◌++◌, Option, none, some, map, if◌then◌else◌, append-nil_iff, ◌≡◌,
  ◌↔◌, ◌⊎◌, inl, inr, refl,
}
use ieee_2030_5_core_go.Prelude.Int.{negsuc}
use ieee_2030_5_core_go.Golang.Xml.{XmlAttr}
use ieee_2030_5_core_go.Gate.Table.{distinct}
use ieee_2030_5_core_go.Gate.Table.Put.{lookup-All}
use ieee_2030_5_core_go.Gate.Lexical.{Verdict, fine}
use ieee_2030_5_core_go.Gate.Schema.{Element, Attribute, ComplexType}
use ieee_2030_5_core_go.Gate.Model.{Schema, complex_type}
use ieee_2030_5_core_go.Gate.Document.{Nodes, no_nodes, child}
use ieee_2030_5_core_go.Gate.Validate.{
  Views, Outcome, lexical_problem, child_problems, elem_by_name, attr_by_name, check_attributes,
}
use ieee_2030_5_core_go.Gate.Validate.Attributes.{AttributesOk, lexical_problem_iff}
use ieee_2030_5_core_go.Gate.Validate.Attributes.Check.{check_attributes_iff}
use ieee_2030_5_core_go.Gate.Validate.Order.{InSequence, names}
use ieee_2030_5_core_go.Gate.Validate.Order.Counts.{InSequence-iff}
use ieee_2030_5_core_go.Gate.Validate.Tree.{by_type, prepend}
use ieee_2030_5_core_go.Gate.Validate.Tree.Counting.{counts_iff}
use ieee_2030_5_core_go.Gate.Validate.Tree.Conforms.{
  locals, ElementsAre, AttributesAre, ChildrenConform, WellNamed, ViewsSound, Decides,
}
use ieee_2030_5_core_go.Gate.Validate.Tree.Sound.{ChildrenOk}

child_problems_iff :
    (children : Nodes) (path : String) → (child_problems children path ≡ []) ↔ (children ≡ no_nodes)
unfolding child_problems
child_problems_iff no_nodes path = (λ e. refl, λ e. refl)
child_problems_iff (child c rest) path = (λ e. absurd (cc e), λ e. absurd (cc e))

content_iff :
    (simple : Bool) (v : Verdict) (path : String)
    → ((if simple then lexical_problem v path else []) ≡ []) ↔ (simple ≡ true → v ≡ fine)
content_iff true v path =
    let iff = lexical_problem_iff v path in (λ e r. iff.0 e, λ h. iff.1 (h refl))
content_iff false v path = (λ e r. absurd (cc r), λ h. refl)

pub elements-distinct :
    (s : Schema) (type_name : String) (ct : ComplexType) (elems : List Element)
    → WellNamed s
    → complex_type s type_name ≡ some ct
    → ElementsAre s type_name elems
    → distinct (names elems) ≡ true
elements-distinct s type_name ct elems w q are =
    rw are at (lookup-All _ type_name s.complex_types w q).0

pub attributes-distinct :
    (s : Schema) (type_name : String) (ct : ComplexType) (attrs : List Attribute)
    → WellNamed s
    → complex_type s type_name ≡ some ct
    → AttributesAre s type_name attrs
    → distinct (map (λ a. a.name) attrs) ≡ true
attributes-distinct s type_name ct attrs w q are =
    rw are at (lookup-All _ type_name s.complex_types w q).1

pub type_step :
    (s : Schema) (o : Option ComplexType) (simple : Outcome) (complex : ComplexType → Outcome)
    (Simple : Type 0) (Complex : ComplexType → Type 0)
    → Decides s simple Simple
    → ((ct : ComplexType) → o ≡ some ct → Decides s (complex ct) (Complex ct))
    → Decides s
        (by_type o simple complex)
        (((o ≡ none) × Simple) ⊎ ((ct : ComplexType) × (o ≡ some ct) × Complex ct))
unfolding by_type
type_step s none simple complex Simple Complex (sound, iff) h = (
  sound,
  (λ e. inl (refl, iff.0 e), λ c. elim c [ inl (q, x) ↦ iff.1 x | inr (ct, q, x) ↦ absurd (cc q) ]),
)
type_step s (some ct) simple complex Simple Complex (sound, iff) h =
    let (sound', iff') = h ct refl in
    (
      sound',
      (
        λ e. inr (ct, refl, iff'.0 e),
        λ c. elim c [
          | inl (q, x) ↦ absurd (cc q)
          | inr (ct', q, x) ↦ let same : ct ≡ ct' = cc q in iff'.1 (rw same x)
        ],
      ),
    )

pub simple_step :
    (s : Schema) (v : Views) (verdict : Verdict) (children : Nodes) (path : String)
    → ViewsSound s v
    → Decides s
        (v, lexical_problem verdict path ++ child_problems children path)
        ((verdict ≡ fine) × (children ≡ no_nodes))
simple_step s v verdict children path sound =
    let split = append-nil_iff (lexical_problem verdict path) (child_problems children path) in
    let value = lexical_problem_iff verdict path in
    let none_left = child_problems_iff children path in
    (
      sound,
      (
        λ e. let (a, b) = split.0 e in (value.0 a, none_left.0 b),
        λ (a, b). split.1 (value.1 a, none_left.1 b),
      ),
    )

-- From its start, the loop of checkChildren decides the sequence and the children.
children_iff :
    (s : Schema) (elems : List Element) (path : String) (children : Nodes)
    → distinct (names elems) ≡ true
    → ChildrenOk s elems path children (negsuc 0) []
      ↔ (InSequence 0 elems (locals children) × ChildrenConform s elems children)
children_iff s elems path children d =
    let seq = InSequence-iff elems (locals children) d in
    (
      λ (asc, conform, fin).
          (seq.1 (asc, (counts_iff elems path (locals children) d asc).0 fin), conform),
      λ (sequence, conform).
          let (asc, occur) = seq.0 sequence in
          (asc, conform, (counts_iff elems path (locals children) d asc).1 occur),
    )

-- The three checks of an element of a complex type.
pub complex_step :
    (s : Schema) (elems : List Element) (declared : List Attribute) (root : Bool) (path : String)
    (attrs : List XmlAttr) (simple : Bool) (verdict : Verdict) (children : Nodes) (rest : Outcome)
    → distinct (names elems) ≡ true
    → distinct (map (λ a. a.name) declared) ≡ true
    → Decides s rest (ChildrenOk s elems path children (negsuc 0) [])
    → Decides s
        (prepend
          (check_attributes s (attr_by_name declared) (elem_by_name elems) root path attrs)
          (prepend (if simple then lexical_problem verdict path else []) rest))
        (AttributesOk s declared elems root attrs
          × (simple ≡ true → verdict ≡ fine)
          × InSequence 0 elems (locals children)
          × ChildrenConform s elems children)
complex_step s elems declared root path attrs simple verdict children rest de da (sound, iff) =
    let given = check_attributes_iff s declared elems root path attrs da de in
    let content = content_iff simple verdict path in
    let below = children_iff s elems path children de in
    let split =
      append-nil_iff
        (check_attributes s (attr_by_name declared) (elem_by_name elems) root path attrs)
        ((if simple then lexical_problem verdict path else []) ++ rest.1) in
    let inner = append-nil_iff (if simple then lexical_problem verdict path else []) rest.1 in
    (
      sound,
      (
        λ e.
            let (a, e') = split.0 e in
            let (b, c) = inner.0 e' in
            let (sequence, conform) = below.0 (iff.0 c) in
            (given.0 a, content.0 b, sequence, conform),
        λ (a, b, sequence, conform).
            split.1 (given.1 a, inner.1 (content.1 b, iff.1 (below.1 (sequence, conform)))),
      ),
    )
