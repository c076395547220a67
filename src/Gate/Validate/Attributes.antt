-- ===== src/Gate/Validate/Attributes.antt =====
-- The conditions on attributes, for `checkAttributes` of internal/xsdgate/validate.go.
pub mod Check
use Prim.Native.String.{String}
use text.Mathlib.Text.{◌==◌ as str_eq}
use text.Mathlib.TextEquality.{eq_iff}
use mathlib.Core.List.{Memᴰ}
use mathlib.Core.List.Memᴰ.{head, tail}
use ieee_2030_5_core_go.Prelude.{
  Bool, true, false, not, ◌&&◌, List, [], ◌∷◌, none, map, All, append-nil_iff, guarded-nil_iff, ◌≡◌,
  ◌↔◌, ◌⊎◌, inl, inr, refl, sym, Bool-cases, Option-cases,
}
use ieee_2030_5_core_go.Golang.Xml.{XmlAttr}
use ieee_2030_5_core_go.Gate.Table.{lookup, mem_name, keyed, distinct}
use ieee_2030_5_core_go.Gate.Table.Put.{str_eq_refl}
use ieee_2030_5_core_go.Gate.Table.Put.Keyed.{
  lookup-fill-keyed, lookup-keyed-Mem, Mem-lookup-named, lookup-none_iff, fill-keyed-All,
}
use ieee_2030_5_core_go.Gate.Lexical.{
  Verdict, fine, odd_digits, not_hex, too_long, not_boolean, spaces, not_an_integer, outside,
  check_lexical,
}
use ieee_2030_5_core_go.Gate.Lexical as Lexical
use ieee_2030_5_core_go.Gate.Schema.{Element, Attribute}
use ieee_2030_5_core_go.Gate.Model.{Schema, sort_by-All}
use ieee_2030_5_core_go.Gate.Validate.{
  is_fine, lexical_problem, elem_by_name, attr_by_name, is_exempt, root_tolerated,
  undeclared_attribute, attribute_problem, present_problems, seen_names, values, sorted_attrs,
  absent_problems, check_attributes, attr_path,
}

-- An attribute that is passed over, or declared with a value in its type's lexical space, or
-- tolerated on the root.
unfoldable pub AttributeOk : Schema → List Attribute → List Element → Bool → XmlAttr → Type 0
AttributeOk s attrs elems root a =
    (is_exempt a.name ≡ true)
    ⊎ (((d : Attribute) × Memᴰ d attrs
          × (d.name ≡ a.name.local)
          × (check_lexical s.simple_types d.type a.value ≡ fine))
        ⊎ ((root ≡ true)
            × (a.name.local ≡ "schemaVer")
            × (mem_name a.name.local (map (λ d. d.name) attrs) ≡ false)
            × (mem_name a.name.local (map (λ e. e.name) elems) ≡ false)))

abbrev pub Given : String → List XmlAttr → Type 0
Given name xs = (a : XmlAttr) × Memᴰ a xs × (is_exempt a.name ≡ false) × (a.name.local ≡ name)

-- Every attribute is one of those, and every required one is given.
unfoldable pub AttributesOk : Schema → List Attribute → List Element → Bool → List XmlAttr → Type 0
AttributesOk s attrs elems root xs =
    All (AttributeOk s attrs elems root) xs × All (λ d. d.required ≡ true → Given d.name xs) attrs

is_fine_iff : (v : Verdict) → (is_fine v ≡ true) ↔ (v ≡ fine)
unfolding is_fine
is_fine_iff fine = (λ e. refl, λ e. refl)
is_fine_iff odd_digits = (λ e. absurd (cc e), λ e. absurd (cc e))
is_fine_iff not_hex = (λ e. absurd (cc e), λ e. absurd (cc e))
is_fine_iff too_long = (λ e. absurd (cc e), λ e. absurd (cc e))
is_fine_iff not_boolean = (λ e. absurd (cc e), λ e. absurd (cc e))
is_fine_iff spaces = (λ e. absurd (cc e), λ e. absurd (cc e))
is_fine_iff not_an_integer = (λ e. absurd (cc e), λ e. absurd (cc e))
is_fine_iff outside = (λ e. absurd (cc e), λ e. absurd (cc e))
is_fine_iff Lexical.stuck = (λ e. absurd (cc e), λ e. absurd (cc e))

pub lexical_problem_iff : (v : Verdict) (path : String) → (lexical_problem v path ≡ []) ↔ (v ≡ fine)
unfolding lexical_problem
lexical_problem_iff v path = elim (Bool-cases (is_fine v)) [
  | inl q ↦ rw q (λ e. (is_fine_iff v).0 q, λ e. refl)
  | inr q ↦ rw q (λ e. absurd (cc e), λ e. absurd (cc ((is_fine_iff v).1 e, q)))
]

-- An attribute that neither the attributes nor the elements declare.
tolerated_iff :
    (s : Schema) (attrs : List Attribute) (elems : List Element) (root : Bool) (a : XmlAttr)
    (path : String)
    → lookup a.name.local (keyed (λ d. d.name) attrs) ≡ none
    → lookup a.name.local (keyed (λ e. e.name) elems) ≡ none
    → distinct (map (λ d. d.name) attrs) ≡ true
    → is_exempt a.name ≡ false
    → (undeclared_attribute none (root && root_tolerated a.name.local) path ≡ [])
      ↔ AttributeOk s attrs elems root a
unfolding AttributeOk undeclared_attribute root_tolerated
tolerated_iff s attrs elems root a path gone gone_e d plain =
    let local = a.name.local in
    let na = (lookup-none_iff local (λ d. d.name) attrs).0 gone in
    let ne = (lookup-none_iff local (λ e. e.name) elems).0 gone_e in
    elim (Bool-cases (root && str_eq local "schemaVer")) [
      | inl q ↦
          let (r, t) = both root (str_eq local "schemaVer") q in
          rw q (λ e. inr (inr (r, (eq_iff local "schemaVer").0 t, na, ne)), λ ok. refl)
      | inr q ↦ rw q (
        λ e. absurd (cc e),
        λ ok. elim ok [
          | inl exempt ↦ absurd (cc (exempt, plain))
          | inr (inl (c, mc, named_c, f)) ↦
              let known = Mem-lookup-named local (λ d. d.name) attrs d mc named_c in
              absurd (cc (gone, known))
          | inr (inr (r, t, na', ne')) ↦
              let t' = (eq_iff local "schemaVer").1 t in absurd (cc (rw (r, t') at q))
        ],
      )
    ]
  where
    both : (b c : Bool) → (b && c) ≡ true → (b ≡ true) × (c ≡ true)
    both true c e = (refl, e)
    both false c e = absurd (cc e)

-- The outcome for one attribute that is not passed over.
pub attribute_problem_iff :
    (s : Schema) (attrs : List Attribute) (elems : List Element) (root : Bool) (a : XmlAttr)
    (path : String)
    → distinct (map (λ d. d.name) attrs) ≡ true
    → distinct (map (λ e. e.name) elems) ≡ true
    → is_exempt a.name ≡ false
    → (attribute_problem s
          (lookup a.name.local (attr_by_name attrs))
          (lookup a.name.local (elem_by_name elems))
          (root && root_tolerated a.name.local)
          a.value
          path
        ≡ [])
      ↔ AttributeOk s attrs elems root a
unfolding AttributeOk attribute_problem undeclared_attribute attr_by_name elem_by_name
    root_tolerated
attribute_problem_iff s attrs elems root a path da de plain =
    let local = a.name.local in
    let qa = lookup-fill-keyed local (λ d. d.name) attrs da in
    let qe = lookup-fill-keyed local (λ e. e.name) elems de in
    let absent_a = lookup-none_iff local (λ d. d.name) attrs in
    let absent_e = lookup-none_iff local (λ e. e.name) elems in
    elim (Option-cases (lookup local (keyed (λ d. d.name) attrs))) [
      | inr (d, there) ↦
          let (m, named) = lookup-keyed-Mem local (λ d. d.name) attrs there in
          let verdict = lexical_problem_iff (check_lexical s.simple_types d.type a.value) path in
          rw (qa, there)
            (
              λ e. inr (inl (d, m, named, verdict.0 e)),
              λ ok. elim ok [
                | inl exempt ↦ absurd (cc (exempt, plain))
                | inr (inl (c, mc, named_c, f)) ↦
                    let known = Mem-lookup-named local (λ d. d.name) attrs da mc named_c in
                    let q : d ≡ c = cc (there, known) in verdict.1 (rw q f)
                | inr (inr (r, t, na, ne)) ↦ absurd (cc (absent_a.1 na, there))
              ],
            )
      | inl gone ↦ elim (Option-cases (lookup local (keyed (λ e. e.name) elems))) [
        | inr (e, there) ↦
            rw (qa, gone, qe, there)
              (
                λ q. absurd (cc q),
                λ ok. elim ok [
                  | inl exempt ↦ absurd (cc (exempt, plain))
                  | inr (inl (c, mc, named_c, f)) ↦
                      let known = Mem-lookup-named local (λ d. d.name) attrs da mc named_c in
                      absurd (cc (gone, known))
                  | inr (inr (r, t, na, ne)) ↦ absurd (cc (absent_e.1 ne, there))
                ],
              )
        | inl gone_e ↦
            rw (qa, gone, qe, gone_e) (tolerated_iff s attrs elems root a path gone gone_e da plain)
      ]
    ]
