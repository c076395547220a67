-- ===== src/Gate/Schema.antt =====
-- internal/xsdgate/schema.go: complex types, their inheritance chains and their effective views,
-- with the maps that remember the views.
pub mod Chain
pub mod Views
pub mod Cache
use Prim.Native.String.{String}
use text.Mathlib.Text.{◌==◌ as str_eq}
use ieee_2030_5_core_go.Prelude.{
  ℕ, zero, suc, Bool, List, [], ◌∷◌, ◌++◌, Option, none, some, if◌then◌else◌, length,
}
use ieee_2030_5_core_go.Gate.Table.{lookup, mem_name}

pub record Element : Type 0 where
  pub name : String
  pub type : String
  pub required : Bool
  pub repeatable : Bool
  pub owner : String

pub record Attribute : Type 0 where
  pub name : String
  pub type : String
  pub required : Bool
  pub owner : String

pub record ComplexType : Type 0 where
  pub name : String
  pub base : String
  pub simple_content : Bool
  pub own_elements : List Element
  pub own_attributes : List Attribute

-- `stuck` is a loop that runs out of fuel.
pub data ChainResult {ℓ} (A : Type ℓ) : Type ℓ where
  ok : A → ChainResult A
  unknown_type inheritance_cycle : String → ChainResult A
  stuck : ChainResult A

abbrev pub map_result {ℓ κ} : {A : Type ℓ} {B : Type κ} → (A → B) → ChainResult A → ChainResult B
map_result f (ok a) = ok (f a)
map_result f (unknown_type name) = unknown_type name
map_result f (inheritance_cycle name) = inheritance_cycle name
map_result f stuck = stuck

-- A round of `baseChain` behind the lookup of `name`; `next` goes on with a type's base.
chain_step :
    Option ComplexType
    → String
    → List String
    → String
    → (ComplexType → ChainResult (List ComplexType))
    → ChainResult (List ComplexType)
chain_step none type_name seen name next =
    if str_eq name type_name then unknown_type type_name else ok []
chain_step (some ct) type_name seen name next =
    if mem_name name seen
    then inheritance_cycle name
    else map_result (λ chain. ct ∷ chain) (next ct)

unfoldable pub chain_loop :
    ℕ → List (String × ComplexType) → String → List String → String → ChainResult (List ComplexType)
unfolding chain_step
chain_loop zero types type_name seen name = stuck
chain_loop (suc fuel) types type_name seen name =
    if str_eq name ""
    then ok []
    else chain_step (lookup name types) type_name seen name
        λ ct. chain_loop fuel types type_name (name ∷ seen) ct.base

-- `baseChain`: each round but the last looks up another of the types.
unfoldable pub base_chain : List (String × ComplexType) → String → ChainResult (List ComplexType)
base_chain types type_name = chain_loop (suc (length types)) types type_name [] type_name

-- The chain in reverse, each type's own items behind those of its base.
unfoldable pub collect {ℓ} : {A : Type ℓ} → (ComplexType → List A) → List ComplexType → List A
collect own [] = []
collect own (ct ∷ chain) = collect own chain ++ own ct

-- The view without the map that remembers it.
unfoldable pub view_of {ℓ} :
    {A : Type ℓ}
    → (ComplexType → List A)
    → List (String × ComplexType)
    → String
    → ChainResult (List A)
view_of own types type_name = map_result (collect own) (base_chain types type_name)

-- The map behind a call: a view that was computed is remembered.
remember {ℓ} :
    {A : Type ℓ}
    → String
    → List (String × List A)
    → ChainResult (List A)
    → List (String × List A) × ChainResult (List A)
remember name cache (ok view) = ((name, view) ∷ cache, ok view)
remember name cache (unknown_type n) = (cache, unknown_type n)
remember name cache (inheritance_cycle n) = (cache, inheritance_cycle n)
remember name cache stuck = (cache, stuck)

cached_or {ℓ} :
    {A : Type ℓ}
    → Option (List A)
    → List (String × List A)
    → List (String × List A) × ChainResult (List A)
    → List (String × List A) × ChainResult (List A)
cached_or (some view) cache computed = (cache, ok view)
cached_or none cache computed = computed

-- `EffectiveElements`: the map afterwards, and the result.
unfoldable pub effective_elements :
    List (String × ComplexType)
    → List (String × List Element)
    → String
    → List (String × List Element) × ChainResult (List Element)
unfolding remember cached_or
effective_elements types cache name =
    cached_or (lookup name cache) cache
      (remember name cache (view_of (λ ct. ct.own_elements) types name))

-- `EffectiveAttributes`.
unfoldable pub effective_attributes :
    List (String × ComplexType)
    → List (String × List Attribute)
    → String
    → List (String × List Attribute) × ChainResult (List Attribute)
unfolding remember cached_or
effective_attributes types cache name =
    cached_or (lookup name cache) cache
      (remember name cache (view_of (λ ct. ct.own_attributes) types name))
