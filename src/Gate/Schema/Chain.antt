-- ===== src/Gate/Schema/Chain.antt =====
-- Chains of extensions, and lemmas on `baseChain` of internal/xsdgate/schema.go.
use Prim.Native.String.{String}
use text.Mathlib.Text.{◌==◌ as str_eq}
use ieee_2030_5_core_go.Prelude.{
  ℕ, zero, suc, ◌<◌, true, false, List, [], ◌∷◌, none, some, length, ◌≡◌, ◌≢◌, inl, inr, refl, sym,
  arith, Bool-cases, Option-cases,
}
use ieee_2030_5_core_go.Gate.Table.{lookup, mem_name, unseen, unseen-nil, unseen-lt}
use ieee_2030_5_core_go.Gate.Schema.{
  ComplexType, ChainResult, ok, unknown_type, inheritance_cycle, stuck, map_result, chain_step,
  chain_loop, base_chain,
}

-- The chain of extensions from a name: it ends at no base, or at a name that is no complex type.
pub data Derives (types : List (String × ComplexType)) : String → List ComplexType → Type 0 where
  no_base : {name : String} → str_eq name "" ≡ true → Derives types name []
  simple :
      {name : String} → str_eq name "" ≡ false → lookup name types ≡ none → Derives types name []
  extends :
      {name : String} {ct : ComplexType} {chain : List ComplexType}
      → str_eq name "" ≡ false
      → lookup name types ≡ some ct
      → Derives types ct.base chain
      → Derives types name (ct ∷ chain)

map_result-ne_stuck :
    {A B : Type 0} (f : A → B) (r : ChainResult A) → r ≢ stuck → map_result f r ≢ stuck
map_result-ne_stuck f (ok a) h = λ e. cc e
map_result-ne_stuck f (unknown_type n) h = λ e. cc e
map_result-ne_stuck f (inheritance_cycle n) h = λ e. cc e
map_result-ne_stuck f stuck h = absurd (h refl)

pub map_result-ok :
    {A B : Type 0} (f : A → B) (r : ChainResult A) {b : B}
    → map_result f r ≡ ok b
    → (a : A) × (r ≡ ok a) × (f a ≡ b)
map_result-ok f (ok a) e = (a, refl, cc e)
map_result-ok f (unknown_type n) e = absurd (cc e)
map_result-ok f (inheritance_cycle n) e = absurd (cc e)
map_result-ok f stuck e = absurd (cc e)

chain_loop-ne_stuck :
    (fuel : ℕ) (types : List (String × ComplexType)) (type_name : String) (seen : List String)
    (name : String)
    → unseen types seen < fuel
    → chain_loop fuel types type_name seen name ≢ stuck
unfolding chain_loop chain_step
chain_loop-ne_stuck zero types t seen name h = absurd (omega arith)
chain_loop-ne_stuck (suc fuel) types t seen name h = elim (Bool-cases (str_eq name "")) [
  | inl top ↦ rw top (λ e. cc e)
  | inr down ↦ elim (Option-cases (lookup name types)) [
    | inl q ↦
        rw (down, q)
          (elim (Bool-cases (str_eq name t)) [
            | inl same ↦ rw same (λ e. cc e)
            | inr other ↦ rw other (λ e. cc e)
          ])
    | inr (ct, q) ↦ elim (Bool-cases (mem_name name seen)) [
      | inl old ↦ rw (down, q, old) (λ e. cc e)
      | inr new ↦
          rw (down, q, new)
            (map_result-ne_stuck _ _ (
              chain_loop-ne_stuck fuel types t (name ∷ seen) ct.base
                (omega (arith, unseen-lt types name seen q new))))
    ]
  ]
]

-- On all types, also if some inherit from themselves, the loop of baseChain ends.
pub base_chain-ne_stuck :
    (types : List (String × ComplexType)) (name : String) → base_chain types name ≢ stuck
unfolding base_chain
base_chain-ne_stuck types name =
    chain_loop-ne_stuck (suc (length types)) types name [] name (omega (arith, unseen-nil types))

pub chain_loop-Derives :
    (fuel : ℕ) (types : List (String × ComplexType)) (t : String) (seen : List String)
    (name : String) {chain : List ComplexType}
    → chain_loop fuel types t seen name ≡ ok chain
    → Derives types name chain
unfolding chain_loop chain_step
chain_loop-Derives zero types t seen name e = absurd (cc e)
chain_loop-Derives (suc fuel) types t seen name {chain = chain} e =
    elim (Bool-cases (str_eq name "")) [
      | inl top ↦ let q : [] ≡ chain = cc (rw top at e) in rw (sym q) (no_base top)
      | inr down ↦ elim (Option-cases (lookup name types)) [
        | inl q ↦ elim (Bool-cases (str_eq name t)) [
          | inl same ↦ absurd (cc (rw (down, q, same) at e))
          | inr other ↦
              let r : [] ≡ chain = cc (rw (down, q, other) at e) in rw (sym r) (simple down q)
        ]
        | inr (ct, q) ↦ elim (Bool-cases (mem_name name seen)) [
          | inl old ↦ absurd (cc (rw (down, q, old) at e))
          | inr new ↦
              let (rest, r, s) = map_result-ok (λ c. ct ∷ c) _ (rw (down, q, new) at e) in
              rw (sym s) (extends down q (chain_loop-Derives fuel types t (name ∷ seen) ct.base r))
        ]
      ]
    ]
