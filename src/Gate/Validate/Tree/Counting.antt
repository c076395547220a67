-- ===== src/Gate/Validate/Tree/Counting.antt =====
-- Lemmas on the counts of `checkChildren`.
use Prim.Native.String.{String}
use text.Mathlib.Text.{◌==◌ as str_eq}
use text.Mathlib.TextEquality.{eq_iff}
use ieee_2030_5_core_go.Prelude.{
  ℕ, suc, ◌+◌, ◌<◌, Bool, true, false, not, ◌&&◌, List, [], ◌∷◌, ◌++◌, some, ltb, ◌==◌, All,
  append-nil_iff, guarded-nil_iff, ltb→lt, ◌≡◌, ◌↔◌, inl, inr, refl, sym, ◌∙◌, arith, Bool-cases,
  Option-cases,
}
use ieee_2030_5_core_go.Gate.Table.{lookup, keyed, distinct}
use ieee_2030_5_core_go.Gate.Table.Put.{
  str_eq_refl, keys, lookup-put-same, lookup-put-other, lookup-All, put-distinct, All-lookup,
}
use ieee_2030_5_core_go.Gate.Table.Put.Keyed.{
  lookup-fill-keyed, lookup-keyed-Mem, Mem-lookup-keyed, All→Mem, Mem→All,
}
use ieee_2030_5_core_go.Gate.Schema.{Element}
use ieee_2030_5_core_go.Gate.Validate.{elem_by_name, by_index}
use ieee_2030_5_core_go.Gate.Validate.Order.{count, Ascending, AllOccur, names}
use ieee_2030_5_core_go.Gate.Validate.Tree.{
  repeatable_of, count_of, count_up, repeated_problems, missing_problems,
}

low_iff : (b : Bool) (n : ℕ) → ((b && n == 0) ≡ false) ↔ (b ≡ true → 0 < n)
low_iff true n = (λ e r. ground arith, λ h. ground (arith, h refl))
low_iff false n = (λ e r. absurd (cc r), λ h. refl)

high_iff : (b : Bool) (n : ℕ) → ((ltb 1 n && not b) ≡ false) ↔ (1 < n → b ≡ true)
high_iff true n = (λ e r. refl, λ h. ground arith)
high_iff false n = (
  λ e r. ground (arith, e, r),
  λ h. elim (Bool-cases (ltb 1 n)) [ inl q ↦ absurd (cc (h (ltb→lt 1 n q))) | inr q ↦ rw q refl ],
)

amount : String → List (String × ℕ) → ℕ
unfolding count_of
amount name counts = count_of (lookup name counts)

-- The counts behind a list of children.
unfoldable pub counts_after : List (String × ℕ) → List String → List (String × ℕ)
unfolding count_up
counts_after counts [] = counts
counts_after counts (n ∷ ns) = counts_after (count_up n counts) ns

amount-counts_after :
    (name : String) (counts : List (String × ℕ)) (ns : List String)
    → amount name (counts_after counts ns) ≡ amount name counts + count name ns
unfolding amount counts_after count_up count_of
amount-counts_after name counts [] = omega arith
amount-counts_after name counts (n ∷ ns) =
    let ih = amount-counts_after name (count_up n counts) ns in
    elim (Bool-cases (str_eq name n)) [
      | inl same ↦
          let q : n ≡ name = sym ((eq_iff name n).0 same) in
          let here = lookup-put-same name (suc (count_of (lookup name counts))) counts in
          let ih' = rw (q, here) at ih in rw (q, str_eq_refl name) (omega (arith, ih'))
      | inr other ↦
          let there = lookup-put-other name n (suc (count_of (lookup n counts))) counts other in
          let ih' = rw there at ih in rw other (omega (arith, ih'))
    ]

counts_after-distinct :
    (counts : List (String × ℕ)) (ns : List String)
    → distinct (keys counts) ≡ true
    → distinct (keys (counts_after counts ns)) ≡ true
unfolding counts_after count_up
counts_after-distinct counts [] d = d
counts_after-distinct counts (n ∷ ns) d =
    counts_after-distinct (count_up n counts) ns
      (put-distinct n (suc (count_of (lookup n counts))) counts d)

missing_iff :
    (counts : List (String × ℕ)) (path : String) (es : List Element)
    → (missing_problems counts path es ≡ [])
      ↔ All (λ e. e.required ≡ true → 0 < amount e.name counts) es
unfolding missing_problems amount count_of
missing_iff counts path [] = (λ e. tt, λ a. refl)
missing_iff counts path (e ∷ es) =
    let n = count_of (lookup e.name counts) in
    let split = guarded-nil_iff (e.required && n == 0) _ (missing_problems counts path es) in
    let ih = missing_iff counts path es in
    (
      λ q. let (a, b) = split.0 q in ((low_iff e.required n).0 a, ih.0 b),
      λ (low, rest). split.1 ((low_iff e.required n).1 low, ih.1 rest),
    )

-- The bound on repetition, of an entry of the counts.
Repeats : List (String × Element) → String × ℕ → Type 0
Repeats table entry = 1 < entry.1 → repeatable_of (lookup entry.0 table) ≡ true

repeated_iff :
    (table : List (String × Element)) (path : String) (counts : List (String × ℕ))
    → (repeated_problems table path counts ≡ []) ↔ All (Repeats table) counts
unfolding repeated_problems Repeats
repeated_iff table path [] = (λ e. tt, λ a. refl)
repeated_iff table path ((name, n) ∷ counts) =
    let again = repeatable_of (lookup name table) in
    let split = guarded-nil_iff (ltb 1 n && not again) _ (repeated_problems table path counts) in
    let ih = repeated_iff table path counts in
    (
      λ q. let (a, b) = split.0 q in ((high_iff again n).0 a, ih.0 b),
      λ (high, rest). split.1 ((high_iff again n).1 high, ih.1 rest),
    )

-- A child's name that has a position is a particle's.
pub index-declared :
    (name : String) (k : ℕ) (es : List Element) {i : ℕ}
    → lookup name (by_index k es) ≡ some i
    → (e : Element) × (lookup name (keyed (λ e. e.name) es) ≡ some e)
unfolding lookup by_index
index-declared name k [] q = absurd (cc q)
index-declared name k (d ∷ es) q = elim (Bool-cases (str_eq name d.name)) [
  | inl same ↦ (d, rw same refl)
  | inr other ↦
      let (e, r) = index-declared name (suc k) es (rw other at q) in (e, rw (other, r) refl)
]

counted-declared :
    (name : String) (b : ℕ) (es : List Element) (ns : List String)
    → Ascending (by_index 0 es) b ns
    → 0 < count name ns
    → (e : Element) × (lookup name (keyed (λ e. e.name) es) ≡ some e)
counted-declared name b es [] a h = absurd (omega (arith, h))
counted-declared name b es (n ∷ ns) (i, q, ge, a) h = elim (Bool-cases (str_eq name n)) [
  | inl same ↦ index-declared name 0 es (rw (sym ((eq_iff name n).0 same)) at q)
  | inr other ↦ counted-declared name i es ns a (rw other at h)
]

amount-some :
    (name : String) (counts : List (String × ℕ))
    → 0 < amount name counts
    → lookup name counts ≡ some (amount name counts)
unfolding amount count_of
amount-some name counts h = elim (Option-cases (lookup name counts)) [
  | inl q ↦ absurd (omega (arith, rw q at h))
  | inr (n, q) ↦ rw q refl
]

amount-lookup :
    (name : String) (counts : List (String × ℕ)) {n : ℕ}
    → lookup name counts ≡ some n
    → amount name counts ≡ n
unfolding amount count_of
amount-lookup name counts q = rw q refl

-- Where every child has a position: checkChildren finds no repetition and no missing element exactly
-- if every particle occurs as often as it may.
pub counts_iff :
    (es : List Element) (path : String) (ns : List String)
    → distinct (names es) ≡ true
    → Ascending (by_index 0 es) 0 ns
    → (repeated_problems (elem_by_name es) path (counts_after [] ns)
          ++ missing_problems (counts_after [] ns) path es
        ≡ [])
      ↔ AllOccur es ns
unfolding elem_by_name amount count_of lookup repeatable_of Repeats distinct
counts_iff es path ns d asc =
    let counts = counts_after [] ns in
    let found : (name : String) → amount name counts ≡ count name ns =
      λ name. omega (arith, amount-counts_after name [] ns) in
    let split =
      append-nil_iff (repeated_problems (elem_by_name es) path counts)
        (missing_problems counts path es) in
    (
      λ q.
          let (a, b) = split.0 q in
          let highs = (repeated_iff (elem_by_name es) path counts).0 a in
          let lows = (missing_iff counts path es).0 b in
          Mem→All _ es λ e m. (
            λ r. omega (arith, All→Mem _ es lows m r, found e.name),
            λ h.
                let more : 1 < amount e.name counts = omega (arith, h, found e.name) in
                let seen = amount-some e.name counts (omega (arith, more)) in
                let there = lookup-fill-keyed e.name (λ x. x.name) es d in
                let here = Mem-lookup-keyed (λ x. x.name) es d m in
                let again = lookup-All (Repeats (elem_by_name es)) e.name counts highs seen more in
                cc (rw (there, here) at again),
          ),
      λ occur. split.1 (
        (repeated_iff (elem_by_name es) path counts).1 (
            All-lookup (Repeats (elem_by_name es)) counts (counts_after-distinct [] ns refl)
              λ n a q h.
                let same : count n ns ≡ a = sym (found n) ∙ amount-lookup n counts q in
                let (e, there) = counted-declared n 0 es ns asc (omega (arith, h, same)) in
                let (m, named) = lookup-keyed-Mem n (λ x. x.name) es there in
                let whole = lookup-fill-keyed n (λ x. x.name) es d in
                let often : 1 < count e.name ns = rw named (omega (arith, h, same)) in
                rw (whole, there) ((All→Mem _ es occur m).1 often)),
        (missing_iff counts path es).1
            (Mem→All _ es λ e m r. omega (arith, (All→Mem _ es occur m).0 r, found e.name)),
      ),
    )
