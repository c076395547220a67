-- ===== src/Gate/Table/Put.antt =====
-- Lemmas on the maps of internal/xsdgate and assignments to them.
pub mod Keyed
use Prim.Native.String.{String}
use text.Mathlib.Text.{◌==◌ as str_eq}
use text.Mathlib.TextEquality.{eq_iff}
use ieee_2030_5_core_go.Prelude.{
  Bool, true, false, not, ◌&&◌, ◌||◌, List, [], ◌∷◌, Option, none, some, if◌then◌else◌, map, ◌≡◌,
  inl, inr, refl, sym, ap, Bool-cases, All,
}
use ieee_2030_5_core_go.Gate.Table.{lookup, mem_name, put, fill, keyed, distinct}

pub str_eq_refl : (s : String) → str_eq s s ≡ true
str_eq_refl s = (eq_iff s s).1 refl

pub str_eq-sym : (s t : String) → str_eq s t ≡ false → str_eq t s ≡ false
str_eq-sym s t h = elim (Bool-cases (str_eq t s)) [
  | inl same ↦
      let e : t ≡ s = (eq_iff t s).0 same in
      let h' : str_eq s s ≡ false = rw e at h in absurd (cc (h', str_eq_refl s))
  | inr other ↦ other
]

pub or_else {ℓ} : {A : Type ℓ} → Option A → Option A → Option A
or_else none o = o
or_else (some a) o = some a

-- Names of the entries.
abbrev pub keys {ℓ} : {A : Type ℓ} → List (String × A) → List String
keys [] = []
keys ((key, a) ∷ table) = key ∷ keys table

pub lookup-absent :
    {A : Type 0} (name : String) (table : List (String × A))
    → mem_name name (keys table) ≡ false
    → lookup name table ≡ none
unfolding lookup mem_name
lookup-absent name [] h = refl
lookup-absent name ((key, a) ∷ table) h = elim (Bool-cases (str_eq name key)) [
  | inl same ↦ absurd (cc (rw same at h))
  | inr other ↦ rw other (lookup-absent name table (rw other at h))
]

pub lookup-put-same :
    {A : Type 0} (key : String) (a : A) (table : List (String × A))
    → lookup key (put key a table) ≡ some a
unfolding lookup put
lookup-put-same key a [] = rw (str_eq_refl key) refl
lookup-put-same key a ((k, b) ∷ table) = elim (Bool-cases (str_eq key k)) [
  | inl same ↦ rw (same, str_eq_refl key) refl
  | inr other ↦ rw (other, other) (lookup-put-same key a table)
]

pub lookup-put-other :
    {A : Type 0} (name key : String) (a : A) (table : List (String × A))
    → str_eq name key ≡ false
    → lookup name (put key a table) ≡ lookup name table
unfolding lookup put
lookup-put-other name key a [] h = rw h refl
lookup-put-other name key a ((k, b) ∷ table) h = elim (Bool-cases (str_eq key k)) [
  | inl same ↦
      let e : k ≡ key = sym ((eq_iff key k).0 same) in
      let h' : str_eq name k ≡ false = rw (sym e) at h in rw (same, h, h') refl
  | inr other ↦ elim (Bool-cases (str_eq name k)) [
    | inl here ↦ rw (other, here) refl
    | inr there ↦ rw (other, there) (lookup-put-other name key a table h)
  ]
]

-- Distinct assignments: each is found, and what the map held under other names.
pub lookup-fill :
    {A : Type 0} (name : String) (table entries : List (String × A))
    → distinct (keys entries) ≡ true
    → lookup name (fill table entries) ≡ or_else (lookup name entries) (lookup name table)
unfolding lookup fill distinct or_else
lookup-fill name table [] d = refl
lookup-fill name table ((key, a) ∷ rest) d = elim (Bool-cases (mem_name key (keys rest))) [
  | inl again ↦ absurd (cc (rw again at d))
  | inr new ↦
      let ih = lookup-fill name (put key a table) rest (rw new at d) in
      elim (Bool-cases (str_eq name key)) [
        | inl same ↦
            let e : key ≡ name = sym ((eq_iff name key).0 same) in
            let gone = lookup-absent name rest (rw e at new) in
            let here = lookup-put-same name a table in rw (ih, e, gone, here, str_eq_refl name) refl
        | inr other ↦ rw (ih, lookup-put-other name key a table other, other) refl
      ]
]

-- What holds of every entry holds of the one that is found.
pub lookup-All :
    {A : Type 0} (P : String × A → Type 0) (n : String) (table : List (String × A)) {a : A}
    → All P table
    → lookup n table ≡ some a
    → P (n, a)
unfolding lookup
lookup-All P n [] h e = absurd (cc e)
lookup-All P n ((key, b) ∷ table) {a = a} (here, h) e = elim (Bool-cases (str_eq n key)) [
  | inl same ↦
      let q : n ≡ key = (eq_iff n key).0 same in
      let r : b ≡ a = cc (rw same at e) in rw (q, sym r) here
  | inr other ↦ lookup-All P n table h (rw other at e)
]

mem_name-put :
    {A : Type 0} (n key : String) (a : A) (table : List (String × A))
    → str_eq n key ≡ false
    → mem_name n (keys (put key a table)) ≡ mem_name n (keys table)
unfolding mem_name put
mem_name-put n key a [] h = rw h refl
mem_name-put n key a ((k, b) ∷ table) h = elim (Bool-cases (str_eq key k)) [
  | inl same ↦ let q : k ≡ key = sym ((eq_iff key k).0 same) in rw (same, q) refl
  | inr other ↦ rw (other, mem_name-put n key a table h) refl
]

-- An assignment leaves the names distinct.
pub put-distinct :
    {A : Type 0} (key : String) (a : A) (table : List (String × A))
    → distinct (keys table) ≡ true
    → distinct (keys (put key a table)) ≡ true
unfolding distinct put mem_name
put-distinct key a [] d = refl
put-distinct key a ((k, b) ∷ table) d = elim (Bool-cases (mem_name k (keys table))) [
  | inl again ↦ absurd (cc (rw again at d))
  | inr new ↦ elim (Bool-cases (str_eq key k)) [
    | inl same ↦
        let q : k ≡ key = sym ((eq_iff key k).0 same) in rw (same, rw q at new, rw new at d) refl
    | inr other ↦
        let new' = mem_name-put k key a table (str_eq-sym key k other) in
        rw (other, new', new, put-distinct key a table (rw new at d)) refl
  ]
]

-- With distinct names, what holds of all that is found holds of every entry.
pub All-lookup :
    {A : Type 0} (P : String × A → Type 0) (table : List (String × A))
    → distinct (keys table) ≡ true
    → ((n : String) (a : A) → lookup n table ≡ some a → P (n, a))
    → All P table
unfolding distinct lookup
All-lookup P [] d h = tt
All-lookup {A = A} P ((key, b) ∷ table) d h = elim (Bool-cases (mem_name key (keys table))) [
  | inl again ↦ absurd (cc (rw again at d))
  | inr new ↦ (
    h key b (rw (str_eq_refl key) refl),
    All-lookup P table (rw new at d) λ n a e. elim (Bool-cases (str_eq n key)) [
      | inl same ↦
          let q : key ≡ n = sym ((eq_iff n key).0 same) in
          absurd (cc (rw (lookup-absent n table (rw q at new)) at e))
      | inr other ↦ h n a (rw (other, e) refl)
    ],
  )
]

pub put-All :
    {A : Type 0} (P : String × A → Type 0) (key : String) (a : A) (table : List (String × A))
    → All P table
    → P (key, a)
    → All P (put key a table)
unfolding put
put-All P key a [] h p = (p, tt)
put-All P key a ((k, b) ∷ table) (h, hs) p = elim (Bool-cases (str_eq key k)) [
  | inl same ↦ rw same (p, hs)
  | inr other ↦ rw other (h, put-All P key a table hs p)
]
