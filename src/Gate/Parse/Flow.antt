-- ===== src/Gate/Parse/Flow.antt =====
-- `ParseSchema` of internal/xsdgate/schema.go with the calls of `ValidateElement` and `Validate`
-- behind it.
use Prim.Native.String.{String}
use ieee_2030_5_core_go.Prelude.{
  List, [], ◌∷◌, Option, Text, Bool, true, false, ◌≡◌, ◌↔◌, inl, inr, refl, sym, ap, subst, ◌∙◌,
}
use ieee_2030_5_core_go.Golang.Xml.{Token}
use ieee_2030_5_core_go.Gate.Schema.{Element}
use ieee_2030_5_core_go.Gate.Xsd.{XsdSchemaDoc}
use ieee_2030_5_core_go.Gate.Model.{Schema}
use ieee_2030_5_core_go.Gate.Document.{
  Node, Nodes, node, no_nodes, child, Ending, document, parse_document,
}
use ieee_2030_5_core_go.Gate.Validate.{Views}
use ieee_2030_5_core_go.Gate.Validate.Attributes.{AttributeOk, AttributesOk}
use ieee_2030_5_core_go.Gate.Validate.Tree.{validate, validate_element, checked}
use ieee_2030_5_core_go.Gate.Validate.Tree.Conforms.{
  Conforms, ChildrenConform, WellNamed, ViewsSound,
}
use ieee_2030_5_core_go.Gate.Validate.Tree.Accepts.{
  Accepts, views_in, with_views, KeepsSchema, validate_iff, validate_element-KeepsSchema,
}
use ieee_2030_5_core_go.Gate.Parse.{loads, parse_schema}
use ieee_2030_5_core_go.Gate.Parse.Laws.{SchemaOk, parse_schema-SchemaOk}

-- A call of ValidateElement.
abbrev pub Call : Type 0
Call = String × List Token × Ending

-- The schema behind the calls, one after the other.
unfoldable pub after_calls : Schema → List Call → Schema
after_calls s [] = s
after_calls s ((name, tokens, ending) ∷ calls) =
    after_calls (validate_element s name tokens ending).0 calls

mutual
  unfolding Conforms AttributesOk AttributeOk

  Conforms-with :
      (s : Schema) (v : Views) (n : Node) (type_name : String) (root : Bool)
      → Conforms s type_name root n
      → Conforms (with_views s v) type_name root n
  Conforms-with s v (node name attrs children text) type_name root c = elim c [
    | inl leaf ↦ inl leaf
    | inr (ct, q, (es, are_e, (as', are_a, (given, value, sequence, conform)))) ↦ inr (
      ct,
      q,
      (es, are_e, (as', are_a, (given, value, sequence, children_with s v es children conform))),
    )
  ]

  children_with :
      (s : Schema) (v : Views) (es : List Element) (children : Nodes)
      → ChildrenConform s es children
      → ChildrenConform (with_views s v) es children
  children_with s v es no_nodes c = tt
  children_with s v es (child n rest) ((e, m, named, c), cs) =
      ((e, m, named, Conforms-with s v n e.type false c), children_with s v es rest cs)

Accepts-with_views :
    (s : Schema) (v : Views) (type_name : String) (root : Node)
    → Accepts s type_name root
    → Accepts (with_views s v) type_name root
unfolding Accepts
Accepts-with_views s v type_name root (known, space, c) =
    (known, space, Conforms-with s v root type_name true c)

-- The calls keep what ParseSchema established.
after_calls-KeepsSchema :
    (s s' : Schema) (calls : List Call)
    → WellNamed s
    → KeepsSchema s s'
    → KeepsSchema s (after_calls s' calls)
unfolding after_calls
after_calls-KeepsSchema s s' [] w keeps = keeps
after_calls-KeepsSchema s s' ((name, tokens, ending) ∷ calls) w (q, sound) =
    let next = (validate_element s' name tokens ending).0 in
    let w' = subst WellNamed (sym q) w in
    let sound' = subst (λ x. ViewsSound x (views_in s')) (sym q) sound in
    let (q', sound'') = validate_element-KeepsSchema s' name tokens ending w' sound' in
    after_calls-KeepsSchema s next calls w (
      q' ∙ ap (λ x. with_views x (views_in next)) q,
      subst (λ x. ViewsSound x (views_in next)) q sound'',
    )

validate-KeepsSchema :
    (s s' : Schema) (type_name : String) (tokens : List Token) (ending : Ending)
    → WellNamed s
    → KeepsSchema s s'
    → ((validate s' type_name tokens ending).1 ≡ checked [])
      ↔ ((root : Node) × (parse_document tokens ending ≡ document root) × Accepts s type_name root)
validate-KeepsSchema s s' type_name tokens ending w (q, sound) =
    let w' = subst WellNamed (sym q) w in
    let sound' = subst (λ x. ViewsSound x (views_in s')) (sym q) sound in
    let iff = validate_iff s' type_name tokens ending w' sound' in
    (
      λ e.
          let (root, parses, a) = iff.0 e in
          let a' = subst (λ x. Accepts x type_name root) q a in
          (
            root,
            parses,
            Accepts-with_views (with_views s (views_in s')) (views_in s) type_name root a',
          ),
      λ (root, parses, a).
          let a' = Accepts-with_views s (views_in s') type_name root a in
          iff.1 (root, parses, subst (λ x. Accepts x type_name root) (sym q) a'),
    )

-- The gate as it is used: with a schema that ParseSchema returned and whose views declare no name
-- twice, after any sequence of ValidateElement calls, Validate still accepts exactly the documents
-- that parse to a root in the target namespace that conforms to the type.
pub parse_schema-validate :
    (unmarshal : Text → Option XsdSchemaDoc) (text : Text) {s : Schema} (calls : List Call)
    (type_name : String) (tokens : List Token) (ending : Ending)
    → parse_schema unmarshal text ≡ loads s
    → WellNamed s
    → ((validate (after_calls s calls) type_name tokens ending).1 ≡ checked [])
      ↔ ((root : Node) × (parse_document tokens ending ≡ document root) × Accepts s type_name root)
unfolding SchemaOk
parse_schema-validate unmarshal text {s = s} calls type_name tokens ending e w =
    let (named, ts, tc, found, sound) = parse_schema-SchemaOk unmarshal text e in
    let keeps = after_calls-KeepsSchema s s calls w (refl, sound) in
    validate-KeepsSchema s (after_calls s calls) type_name tokens ending w keeps
