-- ===== src/Gate/Parse/Laws.antt =====
-- Theorems on `ParseSchema` of internal/xsdgate/schema.go.
use Prim.Native.String.{String}
use text.Mathlib.Text.{◌==◌ as str_eq}
use ieee_2030_5_core_go.Prelude.{
  true, false, ◌||◌, List, [], ◌∷◌, Option, none, some, Text, All, ◌≡◌, inl, inr, refl, sym, ap,
  subst, ◌∙◌, Bool-cases, Option-cases,
}
use ieee_2030_5_core_go.Gate.Table.{lookup, put, distinct}
use ieee_2030_5_core_go.Gate.Table.Put.{keys, put-distinct, put-All}
use ieee_2030_5_core_go.Gate.Lexical.{SimpleType}
use ieee_2030_5_core_go.Gate.Schema as Types
use ieee_2030_5_core_go.Gate.Schema.{
  Element, Attribute, ComplexType, ChainResult, ok, unknown_type, inheritance_cycle, view_of,
  effective_elements, effective_attributes,
}
use ieee_2030_5_core_go.Gate.Schema.Cache.{CacheSound, effective-CacheSound}
use ieee_2030_5_core_go.Gate.Xsd.{XsdComplexType, XsdSimpleType, XsdSchemaDoc}
use ieee_2030_5_core_go.Gate.Convert.{convert_simple_type, convert_complex_type}
use ieee_2030_5_core_go.Gate.Model.{Schema}
use ieee_2030_5_core_go.Gate.Validate.{Views}
use ieee_2030_5_core_go.Gate.Validate.Tree.Conforms.{ViewsSound}
use ieee_2030_5_core_go.Gate.Validate.Tree.Accepts.{views_in}
use ieee_2030_5_core_go.Gate.Parse.{
  ParseError, Loaded, fails, loads, ◌>>=◌, converted, enter, simple_loop, complex_loop,
  element_loop, chain_error, resolve_views, resolve_all, of_doc, from_binding, parse_schema,
  trim_bom,
}

>>=-loads :
    {A B : Type 0} (r : Loaded A) (next : A → Loaded B) {b : B}
    → (r >>= next) ≡ loads b
    → (a : A) × (r ≡ loads a) × (next a ≡ loads b)
>>=-loads (fails why) next e = absurd (cc e)
>>=-loads (loads a) next e = (a, refl, e)

enter-loads :
    {A : Type 0} (o : Option A) (why : ParseError) (name : String) (a : A)
    (table : List (String × A)) {t : List (String × A)}
    → enter o why name a table ≡ loads t
    → put name a table ≡ t
unfolding enter
enter-loads none why name a table e = cc e
enter-loads (some old) why name a table e = absurd (cc e)

-- A table whose entries stand under their own, distinct names.
abbrev pub Tidy : {A : Type 0} → (A → String) → List (String × A) → Type 0
Tidy name table = (distinct (keys table) ≡ true) × All (λ entry. name entry.1 ≡ entry.0) table

put-Tidy :
    {A : Type 0} (name : A → String) (a : A) (table : List (String × A))
    → Tidy name table
    → Tidy name (put (name a) a table)
put-Tidy name a table (d, n) = (
  put-distinct (name a) a table d,
  put-All (λ entry. name entry.1 ≡ entry.0) (name a) a table n refl,
)

simple_loop-Tidy :
    (xs : List XsdSimpleType) (table : List (String × SimpleType)) {t : List (String × SimpleType)}
    → Tidy (λ st. st.name) table
    → simple_loop xs table ≡ loads t
    → Tidy (λ st. st.name) t
unfolding simple_loop
simple_loop-Tidy [] table {t = t} tidy e = let q : table ≡ t = cc e in rw (sym q) tidy
simple_loop-Tidy (x ∷ xs) table tidy e =
    let (st, made_st, e') = >>=-loads (converted (convert_simple_type x)) _ e in
    let (table', entered, e'') = >>=-loads (enter (lookup st.name table) _ st.name st table) _ e' in
    let q = enter-loads (lookup st.name table) _ st.name st table entered in
    let tidy' : Tidy (λ t. t.name) (put st.name st table) =
      put-Tidy {A = SimpleType} (λ t. t.name) st table tidy in
    simple_loop-Tidy xs table' (rw q at tidy') e''

complex_loop-Tidy :
    (xs : List XsdComplexType) (table : List (String × ComplexType))
    {t : List (String × ComplexType)}
    → Tidy (λ ct. ct.name) table
    → complex_loop xs table ≡ loads t
    → Tidy (λ ct. ct.name) t
unfolding complex_loop
complex_loop-Tidy [] table {t = t} tidy e = let q : table ≡ t = cc e in rw (sym q) tidy
complex_loop-Tidy (x ∷ xs) table tidy e =
    let (ct, made_ct, e') = >>=-loads (converted (convert_complex_type x)) _ e in
    let (table', entered, e'') = >>=-loads (enter (lookup ct.name table) _ ct.name ct table) _ e' in
    let q = enter-loads (lookup ct.name table) _ ct.name ct table entered in
    let tidy' : Tidy (λ t. t.name) (put ct.name ct table) =
      put-Tidy {A = ComplexType} (λ t. t.name) ct table tidy in
    complex_loop-Tidy xs table' (rw q at tidy') e''

-- Both effective views of a type were found.
abbrev pub Resolves : List (String × ComplexType) → String → Type 0
Resolves types name =
    ((elems : List Element) × (view_of (λ ct. ct.own_elements) types name ≡ ok elems))
    × ((attrs : List Attribute) × (view_of (λ ct. ct.own_attributes) types name ≡ ok attrs))

chain_error-loads :
    {A : Type 0} (r : ChainResult A) → chain_error r ≡ loads tt → (a : A) × (r ≡ ok a)
unfolding chain_error
chain_error-loads (ok a) e = (a, refl)
chain_error-loads (unknown_type n) e = absurd (cc e)
chain_error-loads (inheritance_cycle n) e = absurd (cc e)
chain_error-loads Types.stuck e = absurd (cc e)

resolve_views-loads :
    (types : List (String × ComplexType)) (v : Views) (name : String) {v' : Views}
    → CacheSound (λ ct. ct.own_elements) types v.elements
    → CacheSound (λ ct. ct.own_attributes) types v.attributes
    → resolve_views types v name ≡ loads v'
    → Resolves types name
      × CacheSound (λ ct. ct.own_elements) types v'.elements
      × CacheSound (λ ct. ct.own_attributes) types v'.attributes
unfolding resolve_views
resolve_views-loads types v name {v' = v'} se sa e =
    let (qe, se', qa, sa') = effective-CacheSound types v.elements v.attributes name se sa in
    let (u, found, e') = >>=-loads (chain_error (effective_elements types v.elements name).1) _ e in
    let (u', found', e'') =
      >>=-loads (chain_error (effective_attributes types v.attributes name).1) _ e' in
    let (elems, r) = chain_error-loads _ found in
    let (attrs, r') = chain_error-loads _ found' in
    let same : record {
      elements = (effective_elements types v.elements name).0;
      attributes = (effective_attributes types v.attributes name).0;
    }
        ≡ v' =
      cc e'' in
    let same_e : (effective_elements types v.elements name).0 ≡ v'.elements =
      ap (λ w. w.elements) same in
    let same_a : (effective_attributes types v.attributes name).0 ≡ v'.attributes =
      ap (λ w. w.attributes) same in
    (((elems, sym qe ∙ r), (attrs, sym qa ∙ r')), rw same_e at se', rw same_a at sa')

resolve_all-loads :
    (types rest : List (String × ComplexType)) (v : Views) {v' : Views}
    → CacheSound (λ ct. ct.own_elements) types v.elements
    → CacheSound (λ ct. ct.own_attributes) types v.attributes
    → resolve_all types rest v ≡ loads v'
    → All (λ entry. Resolves types entry.0) rest
      × CacheSound (λ ct. ct.own_elements) types v'.elements
      × CacheSound (λ ct. ct.own_attributes) types v'.attributes
unfolding resolve_all
resolve_all-loads types [] v {v' = v'} se sa e =
    let q : v ≡ v' = cc e in (tt, rw q at se, rw q at sa)
resolve_all-loads types ((name, ct) ∷ rest) v se sa e =
    let (v₁, one, e') = >>=-loads (resolve_views types v name) _ e in
    let (found, se₁, sa₁) = resolve_views-loads types v name se sa one in
    let (others, se₂, sa₂) = resolve_all-loads types rest v₁ se₁ sa₁ e' in
    ((found, others), se₂, sa₂)

-- What the gate relies on in a schema.
unfoldable pub SchemaOk : Schema → Type 0
SchemaOk s =
    (str_eq s.target_namespace "" ≡ false)
    × Tidy (λ st. st.name) s.simple_types
    × Tidy (λ ct. ct.name) s.complex_types
    × All (λ entry. Resolves s.complex_types entry.0) s.complex_types
    × ViewsSound s (views_in s)

assembled :
    (doc : XsdSchemaDoc) (simple : List (String × SimpleType))
    (complex : List (String × ComplexType)) (elements : List (String × String)) (v : Views)
    {s : Schema}
    → str_eq doc.target_namespace "" ≡ false
    → Tidy (λ st. st.name) simple
    → Tidy (λ ct. ct.name) complex
    → All (λ entry. Resolves complex entry.0) complex
    → CacheSound (λ ct. ct.own_elements) complex v.elements
    → CacheSound (λ ct. ct.own_attributes) complex v.attributes
    → loads (record {
      target_namespace = doc.target_namespace;
      version = doc.version;
      complex_types = complex;
      simple_types = simple;
      elements = elements;
      eff_elements = v.elements;
      eff_attrs = v.attributes;
    })
      ≡ loads s
    → SchemaOk s
unfolding SchemaOk
assembled doc simple complex elements v {s = s} named ts tc found se sa e =
    let built : Schema = record {
      target_namespace = doc.target_namespace;
      version = doc.version;
      complex_types = complex;
      simple_types = simple;
      elements = elements;
      eff_elements = v.elements;
      eff_attrs = v.attributes;
    } in
    let same : built ≡ s = cc e in subst SchemaOk same (named, ts, tc, found, (se, sa))

of_doc-SchemaOk : (doc : XsdSchemaDoc) {s : Schema} → of_doc doc ≡ loads s → SchemaOk s
unfolding of_doc distinct
of_doc-SchemaOk doc {s = s} e = elim (Bool-cases (str_eq doc.target_namespace "")) [
  | inl q ↦ absurd (cc (rw q at e))
  | inr named ↦ elim (Bool-cases (doc.imports || doc.includes)) [
    | inl q ↦ absurd (cc (rw (named, q) at e))
    | inr q ↦ elim (Bool-cases (doc.groups || doc.attribute_groups)) [
      | inl r ↦ absurd (cc (rw (named, q, r) at e))
      | inr r ↦
          let e₀ = rw (named, q, r) at e in
          let (simple, es, e₁) = >>=-loads (simple_loop doc.simple_types []) _ e₀ in
          let (complex, ec, e₂) = >>=-loads (complex_loop doc.complex_types []) _ e₁ in
          let (elements, ee, e₃) = >>=-loads (element_loop doc.elements []) _ e₂ in
          let (v, ev, e₄) = >>=-loads (resolve_all complex complex _) _ e₃ in
          let tidy_s = simple_loop-Tidy doc.simple_types [] (refl, tt) es in
          let tidy_c = complex_loop-Tidy doc.complex_types [] (refl, tt) ec in
          let (found, se, sa) = resolve_all-loads complex complex _ tt tt ev in
          assembled doc simple complex elements v named tidy_s tidy_c found se sa e₄
    ]
  ]
]

-- A schema that ParseSchema returns has a target namespace, its types stand under their own names,
-- each name once, every complex type's chain of extensions ends, so that both its views exist, and
-- its maps hold only computed views.
pub parse_schema-SchemaOk :
    (unmarshal : Text → Option XsdSchemaDoc) (text : Text) {s : Schema}
    → parse_schema unmarshal text ≡ loads s
    → SchemaOk s
unfolding parse_schema from_binding
parse_schema-SchemaOk unmarshal text e = elim (Option-cases (unmarshal (trim_bom text))) [
  | inl q ↦ absurd (cc (rw q at e))
  | inr (doc, q) ↦ of_doc-SchemaOk doc (rw q at e)
]
