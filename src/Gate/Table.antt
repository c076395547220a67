-- ===== src/Gate/Table.antt =====
-- The maps of internal/xsdgate, from names, as association lists, and the names that a loop has
-- seen; `unseen` counts the entries of a map that it has not.
pub mod Put
use Prim.Native.String.{String}
use text.Mathlib.Text.{◌==◌ as str_eq}
use text.Mathlib.TextEquality.{eq_iff}
use ieee_2030_5_core_go.Prelude.{
  ℕ, suc, ◌≤◌, ◌<◌, Bool, true, false, not, ◌&&◌, ◌||◌, List, [], ◌∷◌, Option, none, some,
  if◌then◌else◌, length, ◌≡◌, inl, inr, refl, arith, Bool-cases,
}

unfoldable pub lookup {ℓ} : {A : Type ℓ} → String → List (String × A) → Option A
lookup name [] = none
lookup name ((key, a) ∷ table) = if str_eq name key then some a else lookup name table

-- `table[key] = a`: an entry that is there is replaced.
unfoldable pub put {ℓ} : {A : Type ℓ} → String → A → List (String × A) → List (String × A)
put key a [] = (key, a) ∷ []
put key a ((k, b) ∷ table) = if str_eq key k then (key, a) ∷ table else (k, b) ∷ put key a table

-- The assignments one after the other.
unfoldable pub fill {ℓ} : {A : Type ℓ} → List (String × A) → List (String × A) → List (String × A)
fill table [] = table
fill table ((key, a) ∷ rest) = fill (put key a table) rest

-- The entries that a loop assigns, each under its own name.
abbrev pub keyed {ℓ} : {A : Type ℓ} → (A → String) → List A → List (String × A)
keyed name [] = []
keyed name (a ∷ rest) = (name a, a) ∷ keyed name rest

unfoldable pub mem_name : String → List String → Bool
mem_name name [] = false
mem_name name (n ∷ names) = str_eq name n || mem_name name names

unfoldable pub distinct : List String → Bool
distinct [] = true
distinct (n ∷ names) = not (mem_name n names) && distinct names

-- The entries whose names are not among those seen.
unfoldable pub unseen {ℓ} : {A : Type ℓ} → List (String × A) → List String → ℕ
unseen [] seen = 0
unseen ((key, a) ∷ table) seen =
    let rest = unseen table seen in if mem_name key seen then rest else suc rest

pub unseen-nil {ℓ} : {A : Type ℓ} (table : List (String × A)) → unseen table [] ≡ length table
unfolding unseen mem_name
unseen-nil [] = refl
unseen-nil ((key, a) ∷ table) = omega (arith, unseen-nil table)

pub unseen-le {ℓ} :
    {A : Type ℓ} (table : List (String × A)) (name : String) (seen : List String)
    → unseen table (name ∷ seen) ≤ unseen table seen
unfolding unseen mem_name
unseen-le [] name seen = omega arith
unseen-le ((key, a) ∷ table) name seen = ground (arith, unseen-le table name seen)

-- Seeing the name of an entry for the first time leaves fewer.
pub unseen-lt {ℓ} :
    {A : Type ℓ} (table : List (String × A)) (name : String) (seen : List String) {a : A}
    → lookup name table ≡ some a
    → mem_name name seen ≡ false
    → unseen table (name ∷ seen) < unseen table seen
unfolding unseen mem_name lookup
unseen-lt [] name seen found new = absurd (cc found)
unseen-lt ((key, b) ∷ table) name seen found new = elim (Bool-cases (str_eq name key)) [
  | inl same ↦
      let e : name ≡ key = (eq_iff name key).0 same in
      let self : str_eq key name ≡ true = rw e ((eq_iff key key).1 refl) in
      let new' : mem_name key seen ≡ false = rw e at new in
      rw (self, new') (omega (arith, unseen-le table name seen))
  | inr other ↦ ground (arith, unseen-lt table name seen (rw other at found) new)
]
