-- ===== src/Gate/Table/Put/Keyed.antt =====
-- Lemmas on the map of a list of named items, filled item by item.
use Prim.Native.String.{String}
use text.Mathlib.Text.{◌==◌ as str_eq}
use text.Mathlib.TextEquality.{eq_iff}
use ieee_2030_5_core_go.Prelude.{
  Bool, true, false, ◌||◌, List, [], ◌∷◌, Option, none, some, map, ◌≡◌, ◌↔◌, ◌∙◌, All, inl, inr,
  refl, sym, ap, Bool-cases,
}
use mathlib.Core.List.{Memᴰ}
use mathlib.Core.List.Memᴰ.{head, tail}
use ieee_2030_5_core_go.Gate.Table.{lookup, mem_name, put, fill, keyed, distinct}
use ieee_2030_5_core_go.Gate.Table.Put.{
  str_eq_refl, or_else, keys, lookup-fill, lookup-All, put-distinct, All-lookup,
}

pub or_else-none : {A : Type 0} (o : Option A) → or_else o none ≡ o
unfolding or_else
or_else-none none = refl
or_else-none (some a) = refl

pub keys-keyed : {A : Type 0} (name : A → String) (l : List A) → keys (keyed name l) ≡ map name l
keys-keyed name [] = refl
keys-keyed name (a ∷ l) = ap (λ rest. name a ∷ rest) (keys-keyed name l)

-- Distinct names: the map that a loop fills finds what stands in the list.
pub lookup-fill-keyed :
    {A : Type 0} (n : String) (name : A → String) (l : List A)
    → distinct (map name l) ≡ true
    → lookup n (fill [] (keyed name l)) ≡ lookup n (keyed name l)
unfolding lookup
lookup-fill-keyed n name l d =
    rw (lookup-fill n [] (keyed name l) (rw (sym (keys-keyed name l)) at d)) (or_else-none _)

pub lookup-keyed-Mem :
    {A : Type 0} (n : String) (name : A → String) (l : List A) {a : A}
    → lookup n (keyed name l) ≡ some a
    → Memᴰ a l × (name a ≡ n)
unfolding lookup
lookup-keyed-Mem n name [] e = absurd (cc e)
lookup-keyed-Mem n name (b ∷ l) {a = a} e = elim (Bool-cases (str_eq n (name b))) [
  | inl same ↦
      let q : b ≡ a = cc (rw same at e) in
      (head (sym q), rw (sym q) (sym ((eq_iff n (name b)).0 same)))
  | inr other ↦ let (m, q) = lookup-keyed-Mem n name l (rw other at e) in (tail m, q)
]

pub mem_name-map :
    {A : Type 0} (name : A → String) (l : List A) {a : A}
    → Memᴰ a l
    → mem_name (name a) (map name l) ≡ true
unfolding mem_name
mem_name-map name [] m = elim m [ ]
mem_name-map name (b ∷ l) (head e) = rw (e, str_eq_refl (name b)) refl
mem_name-map name (b ∷ l) {a = a} (tail m) =
    rw (mem_name-map name l m) (go (str_eq (name a) (name b)))
  where
    go : (t : Bool) → (t || true) ≡ true
    go true = refl
    go false = refl

pub Mem-lookup-keyed :
    {A : Type 0} (name : A → String) (l : List A) {a : A}
    → distinct (map name l) ≡ true
    → Memᴰ a l
    → lookup (name a) (keyed name l) ≡ some a
unfolding lookup distinct
Mem-lookup-keyed name [] d m = elim m [ ]
Mem-lookup-keyed name (b ∷ l) d (head e) = rw (e, str_eq_refl (name b)) refl
Mem-lookup-keyed name (b ∷ l) {a = a} d (tail m) =
    elim (Bool-cases (mem_name (name b) (map name l))) [
      | inl again ↦ absurd (cc (rw again at d))
      | inr new ↦ elim (Bool-cases (str_eq (name a) (name b))) [
        | inl same ↦
            let q : name b ≡ name a = sym ((eq_iff (name a) (name b)).0 same) in
            absurd (cc (rw q at new, mem_name-map name l m))
        | inr other ↦ rw other (Mem-lookup-keyed name l (rw new at d) m)
      ]
    ]

pub Mem-lookup-named :
    {A : Type 0} (n : String) (name : A → String) (l : List A) {a : A}
    → distinct (map name l) ≡ true
    → Memᴰ a l
    → name a ≡ n
    → lookup n (keyed name l) ≡ some a
Mem-lookup-named n name l d m e = rw (sym e) (Mem-lookup-keyed name l d m)

pub lookup-none_iff :
    {A : Type 0} (n : String) (name : A → String) (l : List A)
    → (lookup n (keyed name l) ≡ none) ↔ (mem_name n (map name l) ≡ false)
unfolding lookup mem_name
lookup-none_iff n name [] = (λ e. refl, λ e. refl)
lookup-none_iff n name (b ∷ l) = elim (Bool-cases (str_eq n (name b))) [
  | inl same ↦ rw same (λ e. absurd (cc e), λ e. absurd (cc e))
  | inr other ↦ rw other (lookup-none_iff n name l)
]

fill-distinct :
    {A : Type 0} (table entries : List (String × A))
    → distinct (keys table) ≡ true
    → distinct (keys (fill table entries)) ≡ true
unfolding fill
fill-distinct table [] d = d
fill-distinct table ((key, a) ∷ rest) d =
    fill-distinct (put key a table) rest (put-distinct key a table d)

pub All→Mem : {A : Type 0} (P : A → Type 0) (l : List A) {a : A} → All P l → Memᴰ a l → P a
All→Mem P [] h m = elim m [ ]
All→Mem P (b ∷ l) (h, hs) (head e) = rw e h
All→Mem P (b ∷ l) (h, hs) (tail m) = All→Mem P l hs m

pub Mem→All : {A : Type 0} (P : A → Type 0) (l : List A) → ((a : A) → Memᴰ a l → P a) → All P l
Mem→All P [] h = tt
Mem→All P (b ∷ l) h = (h b (head refl), Mem→All P l λ a m. h a (tail m))

-- What holds of every item of a list with distinct names holds of every entry of its map.
pub fill-keyed-All :
    {A : Type 0} (P : A → Type 0) (name : A → String) (l : List A)
    → distinct (map name l) ≡ true
    → All (λ entry. P entry.1) (fill [] (keyed name l)) ↔ All P l
unfolding distinct
fill-keyed-All P name l d =
    let table = fill [] (keyed name l) in
    (
      λ h. Mem→All P l λ a m.
          let q = lookup-fill-keyed (name a) name l d in
          let r = Mem-lookup-keyed name l d m in
          lookup-All (λ entry. P entry.1) (name a) table h (q ∙ r),
      λ h.
          All-lookup (λ entry. P entry.1) table (fill-distinct [] (keyed name l) refl)
            λ n a e.
              let q = lookup-fill-keyed n name l d in
              let (m, r) = lookup-keyed-Mem n name l (sym q ∙ e) in All→Mem P l h m,
    )
