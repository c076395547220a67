-- ===== src/Gate/Validate/Attributes/Check.antt =====
-- Lemmas on the two loops of `checkAttributes`.
use Prim.Native.String.{String}
use text.Mathlib.Text.{◌==◌ as str_eq}
use text.Mathlib.TextEquality.{eq_iff}
use mathlib.Core.List.Memᴰ.{head, tail}
use ieee_2030_5_core_go.Prelude.{
  Bool, true, false, not, ◌&&◌, List, [], ◌∷◌, map, All, append-nil_iff, guarded-nil_iff, ◌≡◌, ◌↔◌,
  inl, inr, refl, sym, Bool-cases,
}
use ieee_2030_5_core_go.Golang.Xml.{XmlAttr}
use ieee_2030_5_core_go.Gate.Table.{mem_name, distinct}
use ieee_2030_5_core_go.Gate.Table.Put.{str_eq_refl}
use ieee_2030_5_core_go.Gate.Table.Put.Keyed.{fill-keyed-All}
use ieee_2030_5_core_go.Gate.Schema.{Element, Attribute}
use ieee_2030_5_core_go.Gate.Model.{Schema, sort_by-All}
use ieee_2030_5_core_go.Gate.Validate.{
  elem_by_name, attr_by_name, is_exempt, present_problems, seen_names, values, sorted_attrs,
  absent_problems, check_attributes, attr_path,
}
use ieee_2030_5_core_go.Gate.Validate.Attributes.{
  AttributeOk, AttributesOk, Given, attribute_problem_iff,
}

exempt_ok :
    (s : Schema) (attrs : List Attribute) (elems : List Element) (root : Bool) (a : XmlAttr)
    → is_exempt a.name ≡ true
    → AttributeOk s attrs elems root a
unfolding AttributeOk
exempt_ok s attrs elems root a q = inl q

present_iff :
    (s : Schema) (attrs : List Attribute) (elems : List Element) (root : Bool) (path : String)
    (xs : List XmlAttr)
    → distinct (map (λ d. d.name) attrs) ≡ true
    → distinct (map (λ e. e.name) elems) ≡ true
    → (present_problems s (attr_by_name attrs) (elem_by_name elems) root path xs ≡ [])
      ↔ All (AttributeOk s attrs elems root) xs
unfolding present_problems
present_iff s attrs elems root path [] da de = (λ e. tt, λ h. refl)
present_iff s attrs elems root path (a ∷ xs) da de =
    let ih = present_iff s attrs elems root path xs da de in
    elim (Bool-cases (is_exempt a.name)) [
      | inl exempt ↦
          rw exempt (λ e. (exempt_ok s attrs elems root a exempt, ih.0 e), λ (h, hs). ih.1 hs)
      | inr plain ↦
          let one =
            attribute_problem_iff s attrs elems root a (attr_path path a.name.local) da de plain in
          let split =
            append-nil_iff _
              (present_problems s (attr_by_name attrs) (elem_by_name elems) root path xs) in
          rw plain (
            λ e. let (p, q) = split.0 e in (one.0 p, ih.0 q),
            λ (h, hs). split.1 (one.1 h, ih.1 hs),
          )
    ]

seen_names_iff :
    (name : String) (xs : List XmlAttr) → (mem_name name (seen_names xs) ≡ true) ↔ Given name xs
unfolding seen_names mem_name
seen_names_iff name [] = (λ e. absurd (cc e), λ (a, m, p, q). elim m [ ])
seen_names_iff name (x ∷ xs) =
    let ih = seen_names_iff name xs in
    elim (Bool-cases (is_exempt x.name)) [
      | inl exempt ↦ rw exempt (
        λ e. let (a, m, p, q) = ih.0 e in (a, tail m, p, q),
        λ (a, m, p, q). elim m [
          | head e ↦ let p' : is_exempt x.name ≡ false = rw e at p in absurd (cc (exempt, p'))
          | tail m' ↦ ih.1 (a, m', p, q)
        ],
      )
      | inr plain ↦ elim (Bool-cases (str_eq name x.name.local)) [
        | inl same ↦
            rw (plain, same)
              (λ e. (x, head refl, plain, sym ((eq_iff name x.name.local).0 same)), λ g. refl)
        | inr other ↦
            rw (plain, other)
              (
                λ e. let (a, m, p, q) = ih.0 e in (a, tail m, p, q),
                λ (a, m, p, q). elim m [
                  | head e ↦
                      let q' : x.name.local ≡ name = rw e at q in
                      absurd (cc (rw q' at other, str_eq_refl name))
                  | tail m' ↦ ih.1 (a, m', p, q)
                ],
              )
      ]
    ]

-- A required attribute is among those seen.
Seen : List String → Attribute → Type 0
Seen seen d = d.required ≡ true → mem_name d.name seen ≡ true

need_iff : (b c : Bool) → ((b && not c) ≡ false) ↔ (b ≡ true → c ≡ true)
need_iff true true = (λ e r. refl, λ h. refl)
need_iff true false = (λ e r. absurd (cc e), λ h. absurd (cc (h refl)))
need_iff false c = (λ e r. absurd (cc r), λ h. refl)

absent_iff :
    (seen : List String) (path : String) (attrs : List Attribute)
    → (absent_problems seen path attrs ≡ []) ↔ All (Seen seen) attrs
unfolding absent_problems Seen
absent_iff seen path [] = (λ e. tt, λ h. refl)
absent_iff seen path (d ∷ attrs) =
    let need = need_iff d.required (mem_name d.name seen) in
    let split =
      guarded-nil_iff (d.required && not (mem_name d.name seen)) _
        (absent_problems seen path attrs) in
    let ih = absent_iff seen path attrs in
    (λ q. let (a, b) = split.0 q in (need.0 a, ih.0 b), λ (h, hs). split.1 (need.1 h, ih.1 hs))

values-All :
    (P : Attribute → Type 0) (table : List (String × Attribute))
    → All P (values table) ↔ All (λ entry. P entry.1) table
unfolding values
values-All P [] = (λ h. h, λ h. h)
values-All P ((name, d) ∷ table) =
    let ih = values-All P table in (λ (h, hs). (h, ih.0 hs), λ (h, hs). (h, ih.1 hs))

All-iff : {A : Type 0} (P Q : A → Type 0) (l : List A) → ((a : A) → P a ↔ Q a) → All P l ↔ All Q l
All-iff P Q [] h = (λ x. x, λ x. x)
All-iff P Q (a ∷ l) h =
    let ih = All-iff P Q l h in (λ (x, xs). ((h a).0 x, ih.0 xs), λ (x, xs). ((h a).1 x, ih.1 xs))

-- Where the declared names are distinct: checkAttributes finds no problem exactly if every attribute
-- is passed over, or declared with a value of its type, or tolerated on the root, and every required
-- attribute is given.
pub check_attributes_iff :
    (s : Schema) (attrs : List Attribute) (elems : List Element) (root : Bool) (path : String)
    (xs : List XmlAttr)
    → distinct (map (λ d. d.name) attrs) ≡ true
    → distinct (map (λ e. e.name) elems) ≡ true
    → (check_attributes s (attr_by_name attrs) (elem_by_name elems) root path xs ≡ [])
      ↔ AttributesOk s attrs elems root xs
unfolding check_attributes AttributesOk sorted_attrs Seen attr_by_name
check_attributes_iff s attrs elems root path xs da de =
    let seen = seen_names xs in
    let present = present_iff s attrs elems root path xs da de in
    let absent = absent_iff seen path (sorted_attrs (attr_by_name attrs)) in
    let sorted = sort_by-All (Seen seen) (λ d. d.name) (values (attr_by_name attrs)) in
    let listed = values-All (Seen seen) (attr_by_name attrs) in
    let filled = fill-keyed-All (Seen seen) (λ d. d.name) attrs da in
    let given =
      All-iff (Seen seen) (λ d. d.required ≡ true → Given d.name xs) attrs
        λ d.
          (λ h r. (seen_names_iff d.name xs).0 (h r), λ h r. (seen_names_iff d.name xs).1 (h r)) in
    let split =
      append-nil_iff (present_problems s (attr_by_name attrs) (elem_by_name elems) root path xs)
        _ in
    (
      λ q.
          let (a, b) = split.0 q in
          (present.0 a, given.0 (filled.0 (listed.0 (sorted.0 (absent.0 b))))),
      λ (a, b). split.1 (present.1 a, absent.1 (sorted.1 (listed.1 (filled.1 (given.1 b))))),
    )
