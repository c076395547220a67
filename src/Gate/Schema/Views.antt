-- ===== src/Gate/Schema/Views.antt =====
-- Theorems on `baseChain` and the effective views of internal/xsdgate/schema.go.
use Prim.Native.String.{String}
use text.Mathlib.Text.{◌==◌ as str_eq}
use text.Mathlib.TextEquality.{eq_iff}
use ieee_2030_5_core_go.Prelude.{
  ℕ, zero, suc, ◌<◌, false, List, [], ◌∷◌, ◌++◌, some, length, All, ◌≡◌, ◌↔◌, inl, inr, refl, ap,
  sym, ◌∙◌, arith, Bool-cases,
}
use ieee_2030_5_core_go.Gate.Table.{lookup, mem_name, unseen, unseen-nil, unseen-lt}
use ieee_2030_5_core_go.Gate.Schema.{
  ComplexType, ok, map_result, chain_step, chain_loop, base_chain, collect, view_of,
}
use ieee_2030_5_core_go.Gate.Schema.Chain.{
  Derives, no_base, simple, extends, chain_loop-Derives, map_result-ok,
}

Derives-unique :
    (types : List (String × ComplexType)) (name : String) {c d : List ComplexType}
    → Derives types name c
    → Derives types name d
    → length c ≡ length d
Derives-unique types name (no_base p) (no_base q) = refl
Derives-unique types name (no_base p) (simple q r) = refl
Derives-unique types name (no_base p) (extends q r s) = absurd (cc (p, q))
Derives-unique types name (simple p q) (no_base r) = refl
Derives-unique types name (simple p q) (simple r s) = refl
Derives-unique types name (simple p q) (extends r s t) = absurd (cc (q, s))
Derives-unique types name (extends p q r) (no_base s) = absurd (cc (p, s))
Derives-unique types name (extends p q r) (simple s t) = absurd (cc (q, t))
Derives-unique types name (extends {ct = a} p q r) (extends {ct = b} s t u) =
    let e : a ≡ b = cc (q, t) in ap suc (Derives-unique types a.base r (rw (sym e) at u))

-- Every name that was seen has a longer chain.
Longer : List (String × ComplexType) → ℕ → List String → Type 0
Longer types k seen = All (λ n. (c : List ComplexType) × Derives types n c × (k < length c)) seen

Longer-suc :
    (types : List (String × ComplexType)) (k : ℕ) (seen : List String)
    → Longer types (suc k) seen
    → Longer types k seen
unfolding Longer
Longer-suc types k [] h = tt
Longer-suc types k (n ∷ seen) ((c, d, l), h) = ((c, d, omega arith), Longer-suc types k seen h)

not_seen :
    (types : List (String × ComplexType)) (seen : List String) (name : String)
    {chain : List ComplexType}
    → Derives types name chain
    → Longer types (length chain) seen
    → mem_name name seen ≡ false
unfolding mem_name Longer
not_seen types [] name d h = refl
not_seen types (n ∷ seen) name d ((c, d', l), h) = elim (Bool-cases (str_eq name n)) [
  | inl same ↦
      let e : n ≡ name = sym ((eq_iff name n).0 same) in
      absurd (omega (arith, Derives-unique types name d (rw e at d')))
  | inr other ↦ rw other (not_seen types seen name d h)
]

chain_loop-ok :
    (fuel : ℕ) (types : List (String × ComplexType)) (t : String) (seen : List String)
    (name : String) {chain : List ComplexType} {declared : ComplexType}
    → Derives types name chain
    → lookup t types ≡ some declared
    → Longer types (length chain) seen
    → unseen types seen < fuel
    → chain_loop fuel types t seen name ≡ ok chain
unfolding chain_loop chain_step Longer
chain_loop-ok zero types t seen name d known h enough = absurd (omega arith)
chain_loop-ok (suc fuel) types t seen name (no_base p) known h enough = rw p refl
chain_loop-ok (suc fuel) types t seen name (simple p q) known h enough =
    elim (Bool-cases (str_eq name t)) [
      | inl same ↦ let e : name ≡ t = (eq_iff name t).0 same in absurd (cc (rw e at q, known))
      | inr other ↦ rw (p, q, other) refl
    ]
chain_loop-ok (suc fuel) types t seen name (extends {ct = ct} {chain = chain} p q r) known h
      enough =
    let new = not_seen types seen name (extends p q r) h in
    rw (p, q, new)
      (ap (map_result (λ c. ct ∷ c)) (
        chain_loop-ok fuel types t (name ∷ seen) ct.base r known
          ((ct ∷ chain, extends p q r, omega arith), Longer-suc types (length chain) seen h)
          (omega (arith, unseen-lt types name seen q new))))

-- For a complex type of the schema: baseChain returns a chain exactly if it is the chain of
-- extensions from that type on, derived type first. So an error, or a chain cut short, stands only
-- for types whose extensions go round in a cycle.
pub base_chain_iff :
    (types : List (String × ComplexType)) (name : String) (ct : ComplexType)
    (chain : List ComplexType)
    → lookup name types ≡ some ct
    → (base_chain types name ≡ ok chain) ↔ Derives types name chain
unfolding base_chain Longer
base_chain_iff types name ct chain known = (
  chain_loop-Derives (suc (length types)) types name [] name,
  λ d.
      chain_loop-ok (suc (length types)) types name [] name d known tt
        (omega (arith, unseen-nil types)),
)

-- A view of a type that extends another complex type: the whole view of the base comes first, in
-- its order, then the type's own items. This holds for elements, attributes and any other items.
pub view_of-extends :
    {A : Type 0} (own : ComplexType → List A) (types : List (String × ComplexType)) (name : String)
    (ct base : ComplexType) (view : List A)
    → str_eq name "" ≡ false
    → lookup name types ≡ some ct
    → lookup ct.base types ≡ some base
    → view_of own types name ≡ ok view
    → (inherited : List A) × (view_of own types ct.base ≡ ok inherited)
      × (view ≡ inherited ++ own ct)
unfolding view_of collect
view_of-extends {A = A} own types name ct base view named known known_base e =
    let (chain, r, same) = map_result-ok (collect own) (base_chain types name) e in
    go chain ((base_chain_iff types name ct chain known).0 r) same
  where
    go :
        (chain : List ComplexType)
        → Derives types name chain
        → collect own chain ≡ view
        → (inherited : List A) × (view_of own types ct.base ≡ ok inherited)
          × (view ≡ inherited ++ own ct)
    go chain (no_base p) same = absurd (cc (p, named))
    go chain (simple p q) same = absurd (cc (q, known))
    go chain (extends {ct = c} {chain = rest} p q d) same =
        let e : c ≡ ct = cc (q, known) in
        let d' : Derives types ct.base rest = rw e at d in
        (
          collect own rest,
          ap (map_result (collect own)) ((base_chain_iff types ct.base base rest known_base).1 d'),
          sym same ∙ ap (λ x. collect own rest ++ own x) e,
        )
