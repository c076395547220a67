-- ===== src/Gate/Schema/Cache.antt =====
-- Lemmas on the maps of views in internal/xsdgate/schema.go.
use Prim.Native.String.{String}
use text.Mathlib.Text.{◌==◌ as str_eq}
use text.Mathlib.TextEquality.{eq_iff}
use ieee_2030_5_core_go.Prelude.{
  List, [], ◌∷◌, some, All, ◌≡◌, inl, inr, refl, sym, Bool-cases, Option-cases,
}
use ieee_2030_5_core_go.Gate.Table.{lookup}
use ieee_2030_5_core_go.Gate.Schema.{
  Element, Attribute, ComplexType, ChainResult, ok, unknown_type, inheritance_cycle, stuck, view_of,
  remember, cached_or, effective_elements, effective_attributes,
}

-- Every view that a map holds is the one that would be computed.
abbrev pub CacheSound {ℓ} :
    {A : Type ℓ}
    → (ComplexType → List A)
    → List (String × ComplexType)
    → List (String × List A)
    → Type ℓ
CacheSound own types cache = All (λ entry. view_of own types entry.0 ≡ ok entry.1) cache

lookup-CacheSound :
    {A : Type 0} (own : ComplexType → List A) (types : List (String × ComplexType))
    (cache : List (String × List A)) (name : String) {view : List A}
    → CacheSound own types cache
    → lookup name cache ≡ some view
    → view_of own types name ≡ ok view
unfolding lookup
lookup-CacheSound own types [] name sound e = absurd (cc e)
lookup-CacheSound own types ((key, v) ∷ cache) name {view = view} (here, rest) e =
    elim (Bool-cases (str_eq name key)) [
      | inl same ↦
          let k : name ≡ key = (eq_iff name key).0 same in
          let w : v ≡ view = cc (rw same at e) in rw (k, sym w) here
      | inr other ↦ lookup-CacheSound own types cache name rest (rw other at e)
    ]

remember-CacheSound :
    {A : Type 0} (own : ComplexType → List A) (types : List (String × ComplexType))
    (cache : List (String × List A)) (name : String) (r : ChainResult (List A))
    → CacheSound own types cache
    → view_of own types name ≡ r
    → ((remember name cache r).1 ≡ r) × CacheSound own types (remember name cache r).0
unfolding remember
remember-CacheSound own types cache name (ok view) sound q = (refl, (q, sound))
remember-CacheSound own types cache name (unknown_type n) sound q = (refl, sound)
remember-CacheSound own types cache name (inheritance_cycle n) sound q = (refl, sound)
remember-CacheSound own types cache name stuck sound q = (refl, sound)

cached_view :
    {A : Type 0} (own : ComplexType → List A) (types : List (String × ComplexType))
    (cache : List (String × List A)) (name : String)
    → CacheSound own types cache
    → ((cached_or (lookup name cache) cache (remember name cache (view_of own types name))).1
        ≡ view_of own types name)
      × CacheSound own types
          (cached_or (lookup name cache) cache (remember name cache (view_of own types name))).0
unfolding cached_or
cached_view own types cache name sound = elim (Option-cases (lookup name cache)) [
  | inl q ↦ rw q (remember-CacheSound own types cache name (view_of own types name) sound refl)
  | inr (v, q) ↦ rw q (sym (lookup-CacheSound own types cache name sound q), sound)
]

-- Where the maps hold only computed views, EffectiveElements and EffectiveAttributes answer as if
-- there were no maps, and leave maps that hold only computed views.
pub effective-CacheSound :
    (types : List (String × ComplexType)) (elements : List (String × List Element))
    (attributes : List (String × List Attribute)) (name : String)
    → CacheSound (λ ct. ct.own_elements) types elements
    → CacheSound (λ ct. ct.own_attributes) types attributes
    → ((effective_elements types elements name).1 ≡ view_of (λ ct. ct.own_elements) types name)
      × CacheSound (λ ct. ct.own_elements) types (effective_elements types elements name).0
      × ((effective_attributes types attributes name).1
          ≡ view_of (λ ct. ct.own_attributes) types name)
      × CacheSound (λ ct. ct.own_attributes) types (effective_attributes types attributes name).0
unfolding effective_elements effective_attributes
effective-CacheSound types elements attributes name sound_e sound_a =
    let (a, b) = cached_view (λ ct. ct.own_elements) types elements name sound_e in
    let (c, d) = cached_view (λ ct. ct.own_attributes) types attributes name sound_a in (a, b, c, d)
