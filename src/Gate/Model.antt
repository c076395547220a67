-- ===== src/Gate/Model.antt =====
-- internal/xsdgate/schema.go: `Schema`, and the lookups in it.
use Prim.Native.String.{String, compare}
use Prim.Native.Nat.{Ordering}
use ieee_2030_5_core_go.Prelude.{
  Bool, true, false, List, [], ◌∷◌, Option, if◌then◌else◌, All, ◌↔◌, inl, inr, Bool-cases,
}
use ieee_2030_5_core_go.Gate.Table.{lookup}
use ieee_2030_5_core_go.Gate.Lexical.{SimpleType}
use ieee_2030_5_core_go.Gate.Schema.{Element, Attribute, ComplexType}

pub record Schema : Type 0 where
  pub target_namespace : String
  pub version : String
  pub complex_types : List (String × ComplexType)
  pub simple_types : List (String × SimpleType)
  pub elements : List (String × String)
  pub eff_elements : List (String × List Element)
  pub eff_attrs : List (String × List Attribute)

abbrev pub complex_type : Schema → String → Option ComplexType
complex_type s name = lookup name s.complex_types

abbrev pub simple_type : Schema → String → Option SimpleType
simple_type s name = lookup name s.simple_types

abbrev pub type_of_element : Schema → String → Option String
type_of_element s name = lookup name s.elements

-- Go's `<` on strings.
before : String → String → Bool
before s t = elim (compare s t) [ Ordering.lt ↦ true | _ ↦ false ]

insert_by {ℓ} : {A : Type ℓ} → (A → String) → A → List A → List A
unfolding before
insert_by key a [] = a ∷ []
insert_by key a (b ∷ rest) =
    let behind = insert_by key a rest in if before (key b) (key a) then b ∷ behind else a ∷ b ∷ rest

-- The sort by names: `sort.Strings` and `sort.Slice`.
unfoldable pub sort_by {ℓ} : {A : Type ℓ} → (A → String) → List A → List A
unfolding insert_by
sort_by key [] = []
sort_by key (a ∷ rest) = insert_by key a (sort_by key rest)

element_names : List (String × String) → List String
element_names [] = []
element_names ((name, type) ∷ rest) = name ∷ element_names rest

-- `TopLevelElements`.
unfoldable pub top_level_elements : Schema → List String
unfolding element_names
top_level_elements s = sort_by (λ name. name) (element_names s.elements)

insert_by-All :
    {A : Type 0} (P : A → Type 0) (key : A → String) (a : A) (l : List A)
    → All P (insert_by key a l) ↔ (P a × All P l)
unfolding insert_by
insert_by-All P key a [] = (λ h. h, λ h. h)
insert_by-All P key a (b ∷ l) = elim (Bool-cases (before (key b) (key a))) [
  | inl q ↦ rw q (
    λ (x, h). let (y, h') = (insert_by-All P key a l).0 h in (y, (x, h')),
    λ (y, (x, h)). (x, (insert_by-All P key a l).1 (y, h)),
  )
  | inr q ↦ rw q (λ h. h, λ h. h)
]

pub sort_by-All :
    {A : Type 0} (P : A → Type 0) (key : A → String) (l : List A) → All P (sort_by key l) ↔ All P l
unfolding sort_by
sort_by-All P key [] = (λ h. h, λ h. h)
sort_by-All P key (a ∷ l) =
    let one = insert_by-All P key a (sort_by key l) in
    let rest = sort_by-All P key l in
    (λ h. let (x, h') = one.0 h in (x, rest.0 h'), λ (x, h). one.1 (x, rest.1 h))
