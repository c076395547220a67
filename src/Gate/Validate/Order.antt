-- ===== src/Gate/Validate/Order.antt =====
-- The xsd:sequence that a type declares, for `checkChildren` of internal/xsdgate/validate.go.
pub mod Counts
use Prim.Native.String.{String}
use text.Mathlib.Text.{◌==◌ as str_eq}
use text.Mathlib.TextEquality.{eq_iff}
use ieee_2030_5_core_go.Prelude.{
  ℕ, zero, suc, ◌+◌, ◌≤◌, ◌<◌, Bool, true, false, List, [], ◌∷◌, some, if◌then◌else◌, map, All, ◌≡◌,
  inl, inr, refl, sym, arith, Bool-cases,
}
use ieee_2030_5_core_go.Gate.Table.{lookup, mem_name, distinct}
use ieee_2030_5_core_go.Gate.Table.Put.{str_eq_refl, str_eq-sym}
use ieee_2030_5_core_go.Gate.Schema.{Element}
use ieee_2030_5_core_go.Gate.Validate.{by_index}

-- The names of an element's children are the particles in their order: each particle's block has a
-- child if the particle is required, and more than one only if it is repeatable. The number counts
-- the children of the first particle that were read.
pub data InSequence : ℕ → List Element → List String → Type 0 where
  done : InSequence 0 [] []
  next :
      {n : ℕ} {e : Element} {es : List Element} {ns : List String}
      → (e.required ≡ true → 0 < n)
      → (1 < n → e.repeatable ≡ true)
      → InSequence 0 es ns
      → InSequence n (e ∷ es) ns
  one_more :
      {n : ℕ} {e : Element} {es : List Element} {ns : List String}
      → InSequence (suc n) (e ∷ es) ns
      → InSequence n (e ∷ es) (e.name ∷ ns)

abbrev pub count : String → List String → ℕ
count name [] = 0
count name (n ∷ ns) = let rest = count name ns in if str_eq name n then suc rest else rest

-- Positions that never fall, from `b` on.
abbrev pub Ascending : List (String × ℕ) → ℕ → List String → Type 0
Ascending table b [] = Unit
Ascending table b (n ∷ ns) = (i : ℕ) × (lookup n table ≡ some i) × (b ≤ i) × Ascending table i ns

-- The bounds of a particle on the number of its children.
abbrev pub Occurs : Element → ℕ → Type 0
Occurs e n = (e.required ≡ true → 0 < n) × (1 < n → e.repeatable ≡ true)

abbrev pub AllOccur : List Element → List String → Type 0
AllOccur es ns = All (λ e. Occurs e (count e.name ns)) es

FirstOccurs : ℕ → List Element → List String → Type 0
FirstOccurs n [] ns = n ≡ 0
FirstOccurs n (e ∷ es) ns = Occurs e (n + count e.name ns) × AllOccur es ns

abbrev pub names : List Element → List String
names es = map (λ e. e.name) es

-- A name that is none of the particles' has no position.
no_index :
    (name : String) (k : ℕ) (es : List Element) {i : ℕ}
    → mem_name name (names es) ≡ false
    → lookup name (by_index k es) ≡ some i
    → ⊥
unfolding lookup mem_name by_index
no_index name k [] h e = cc e
no_index name k (d ∷ es) h e = elim (Bool-cases (str_eq name d.name)) [
  | inl same ↦ cc (rw same at h)
  | inr other ↦ no_index name (suc k) es (rw other at h) (rw other at e)
]

index-ge :
    (name : String) (k : ℕ) (es : List Element) {i : ℕ}
    → lookup name (by_index k es) ≡ some i
    → k ≤ i
unfolding lookup by_index
index-ge name k [] e = absurd (cc e)
index-ge name k (d ∷ es) {i = i} e = elim (Bool-cases (str_eq name d.name)) [
  | inl same ↦ let q : k ≡ i = cc (rw same at e) in omega (arith, q)
  | inr other ↦ omega (arith, index-ge name (suc k) es (rw other at e))
]

-- None of the children is called like a particle that has no position among them.
count-absent :
    (name : String) (k b : ℕ) (es : List Element) (ns : List String)
    → mem_name name (names es) ≡ false
    → Ascending (by_index k es) b ns
    → count name ns ≡ 0
count-absent name k b es [] h a = refl
count-absent name k b es (n ∷ ns) h (i, e, le, a) = elim (Bool-cases (str_eq name n)) [
  | inl same ↦
      let q : n ≡ name = sym ((eq_iff name n).0 same) in absurd (no_index name k es h (rw q at e))
  | inr other ↦ rw other (count-absent name k i es ns h a)
]

Ascending-cons :
    (k b c : ℕ) (e : Element) (es : List Element) (ns : List String)
    → mem_name e.name (names es) ≡ false
    → c ≤ b
    → Ascending (by_index (suc k) es) b ns
    → Ascending (by_index k (e ∷ es)) c ns
unfolding lookup by_index
Ascending-cons k b c e es [] new le a = tt
Ascending-cons k b c e es (n ∷ ns) new le (i, q, ge, a) = elim (Bool-cases (str_eq n e.name)) [
  | inl same ↦
      let r : n ≡ e.name = (eq_iff n e.name).0 same in
      absurd (no_index e.name (suc k) es new (rw r at q))
  | inr other ↦ (
    i,
    rw (other, q) refl,
    omega (arith, le, ge),
    Ascending-cons k i i e es ns new (omega arith) a,
  )
]

Ascending-tail :
    (k b : ℕ) (e : Element) (es : List Element) (ns : List String)
    → k < b
    → Ascending (by_index k (e ∷ es)) b ns
    → Ascending (by_index (suc k) es) b ns
unfolding lookup by_index
Ascending-tail k b e es [] lt a = tt
Ascending-tail k b e es (n ∷ ns) lt (i, q, ge, a) = elim (Bool-cases (str_eq n e.name)) [
  | inl same ↦ let r : k ≡ i = cc (rw same at q) in absurd (omega (arith, r, lt, ge))
  | inr other ↦ (i, rw other at q, ge, Ascending-tail k i e es ns (omega (arith, lt, ge)) a)
]

-- A further child of another particle changes no count.
AllOccur-other :
    (name : String) (es : List Element) (ns : List String)
    → mem_name name (names es) ≡ false
    → AllOccur es (name ∷ ns) ≡ AllOccur es ns
unfolding mem_name
AllOccur-other name [] ns h = refl
AllOccur-other name (e ∷ es) ns h = elim (Bool-cases (str_eq name e.name)) [
  | inl same ↦ absurd (cc (rw same at h))
  | inr other ↦ rw (AllOccur-other name es ns (rw other at h), str_eq-sym name e.name other) refl
]
