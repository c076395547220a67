-- ===== src/Gate/Convert/Laws.antt =====
-- Lemmas on the conversions of internal/xsdgate/schema.go.
use Prim.Native.String.{String}
use text.Mathlib.Text.{◌==◌ as str_eq}
use text.Mathlib.TextEquality.{eq_iff}
use ieee_2030_5_core_go.Prelude.{
  true, false, not, ◌||◌, List, [], ◌∷◌, ◌++◌, ◌≡◌, refl, sym, arith, inl, inr, Bool-cases,
}
use ieee_2030_5_core_go.Gate.Schema.{Element}
use ieee_2030_5_core_go.Gate.Convert.{
  Converted, refused, made, and_then, strip_ns, convert_element, convert_elements, reject_sequence,
  flatten, flatten_all,
}
use ieee_2030_5_core_go.Gate.Xsd.{
  XsdElementDecl, XsdSequence, XsdSequences, sequence, no_more, more,
}

pub and_then-made :
    {A B : Type 0} (r : Converted A) (next : A → Converted B) {b : B}
    → and_then r next ≡ made b
    → (a : A) × (r ≡ made a) × (next a ≡ made b)
and_then-made (refused why) next e = absurd (cc e)
and_then-made (made a) next e = (a, refl, e)

-- The declarations of a sequence in document order: its own, then those of the nested ones.
abbrev mutual
  pub declared : XsdSequence → List XsdElementDecl
  declared (sequence parts nested) = parts.elements ++ declared_all nested

  pub declared_all : XsdSequences → List XsdElementDecl
  declared_all no_more = []
  declared_all (more s rest) = declared s ++ declared_all rest

-- The element that a declaration with a name and a type stands for.
pub record Declares (owner : String) (d : XsdElementDecl) (e : Element) : Type 0 where
  pub no_ref : str_eq d.ref "" ≡ true
  pub is_named : (str_eq d.name "" || str_eq d.type "") ≡ false
  pub same_name : e.name ≡ d.name
  pub same_type : e.type ≡ strip_ns d.type
  pub required_iff : e.required ≡ not (str_eq d.min_occurs "0")
  pub owned : e.owner ≡ owner

-- One element for each declaration, in the same order.
pub data Matches (owner : String) : List XsdElementDecl → List Element → Type 0 where
  no_elements : Matches owner [] []
  one_more :
      {d : XsdElementDecl} {e : Element} {ds : List XsdElementDecl} {es : List Element}
      → Declares owner d e
      → Matches owner ds es
      → Matches owner (d ∷ ds) (e ∷ es)

Matches-append :
    (owner : String) {ds ds' : List XsdElementDecl} {es es' : List Element}
    → Matches owner ds es
    → Matches owner ds' es'
    → Matches owner (ds ++ ds') (es ++ es')
Matches-append owner no_elements m = m
Matches-append owner (one_more d rest) m = one_more d (Matches-append owner rest m)

-- An absent minOccurs is not "0".
min_occurs_lem : (s : String) → (str_eq s "" || not (str_eq s "0")) ≡ not (str_eq s "0")
min_occurs_lem s = elim (Bool-cases (str_eq s "0")) [
  | inl zero ↦ let e : s ≡ "0" = (eq_iff s "0").0 zero in rw e refl
  | inr other ↦ rw other (ground arith)
]

convert_element-Declares :
    (owner : String) (d : XsdElementDecl) {e : Element}
    → convert_element owner d ≡ made e
    → Declares owner d e
unfolding convert_element
convert_element-Declares owner d {e = e} h = elim (Bool-cases (str_eq d.ref "")) [
  | inr ref ↦ absurd (cc (rw ref at h))
  | inl no_ref ↦ elim (Bool-cases (d.inline_complex || d.inline_simple)) [
    | inl inline ↦ absurd (cc (rw (no_ref, inline) at h))
    | inr plain ↦ elim (Bool-cases (str_eq d.name "" || str_eq d.type "")) [
      | inl unnamed ↦ absurd (cc (rw (no_ref, plain, unnamed) at h))
      | inr named ↦
          let q = rw (no_ref, plain, named) at h in
          rw (sym (made-injective q)) (record {
            no_ref = no_ref;
            is_named = named;
            same_name = refl;
            same_type = refl;
            required_iff = min_occurs_lem d.min_occurs;
            owned = refl;
          })
    ]
  ]
]
  where
    made-injective : {a b : Element} → ◌≡◌ {A = Converted Element} (made a) (made b) → a ≡ b
    made-injective q = cc q

convert_elements-Matches :
    (owner : String) (ds : List XsdElementDecl) {es : List Element}
    → convert_elements owner ds ≡ made es
    → Matches owner ds es
unfolding convert_elements
convert_elements-Matches owner [] {es = es} h = let q : [] ≡ es = cc h in rw (sym q) no_elements
convert_elements-Matches owner (d ∷ ds) {es = es} h =
    let (e, q, h') = and_then-made (convert_element owner d) _ h in
    let (rest, r, h'') = and_then-made (convert_elements owner ds) _ h' in
    let same : e ∷ rest ≡ es = cc h'' in
    rw (sym same)
      (one_more (convert_element-Declares owner d q) (convert_elements-Matches owner ds r))

mutual
  unfolding flatten

  pub flatten-Matches :
      (owner : String) (s : XsdSequence) {es : List Element}
      → flatten owner s ≡ made es
      → Matches owner (declared s) es
  flatten-Matches owner (sequence parts nested) {es = es} h =
      let (u, q, h') = and_then-made (reject_sequence parts) _ h in
      let (own, r, h'') = and_then-made (convert_elements owner parts.elements) _ h' in
      let (inner, t, h3) = and_then-made (flatten_all owner nested) _ h'' in
      let same : own ++ inner ≡ es = cc h3 in
      rw (sym same) (
        Matches-append owner (convert_elements-Matches owner parts.elements r)
          (flatten_all-Matches owner nested t))

  flatten_all-Matches :
      (owner : String) (ss : XsdSequences) {es : List Element}
      → flatten_all owner ss ≡ made es
      → Matches owner (declared_all ss) es
  flatten_all-Matches owner no_more {es = es} h = let q : [] ≡ es = cc h in rw (sym q) no_elements
  flatten_all-Matches owner (more s rest) {es = es} h =
      let (here, q, h') = and_then-made (flatten owner s) _ h in
      let (later, r, h'') = and_then-made (flatten_all owner rest) _ h' in
      let same : here ++ later ≡ es = cc h'' in
      rw (sym same)
        (Matches-append owner (flatten-Matches owner s q) (flatten_all-Matches owner rest r))
