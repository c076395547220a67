-- ===== src/Gate/Validate/Order/Counts.antt =====
-- Lemmas on the xsd:sequence, positions and counts.
use Prim.Native.String.{String}
use text.Mathlib.Text.{◌==◌ as str_eq}
use text.Mathlib.TextEquality.{eq_iff}
use ieee_2030_5_core_go.Prelude.{
  ℕ, suc, ◌+◌, ◌≤◌, true, false, List, [], ◌∷◌, ◌≡◌, ◌↔◌, inl, inr, refl, arith, Bool-cases,
}
use ieee_2030_5_core_go.Gate.Table.{lookup, mem_name, distinct}
use ieee_2030_5_core_go.Gate.Table.Put.{str_eq_refl}
use ieee_2030_5_core_go.Gate.Schema.{Element}
use ieee_2030_5_core_go.Gate.Validate.{by_index}
use ieee_2030_5_core_go.Gate.Validate.Order.{
  InSequence, done, next, one_more, count, Ascending, Occurs, AllOccur, FirstOccurs, names,
  index-ge, count-absent, Ascending-cons, Ascending-tail, AllOccur-other,
}

pub distinct-cons :
    (name : String) (rest : List String)
    → distinct (name ∷ rest) ≡ true
    → (mem_name name rest ≡ false) × (distinct rest ≡ true)
unfolding distinct
distinct-cons name rest d = elim (Bool-cases (mem_name name rest)) [
  | inl again ↦ absurd (cc (rw again at d))
  | inr new ↦ (new, rw new at d)
]

FirstOccurs-zero : (es : List Element) (ns : List String) → FirstOccurs 0 es ns → AllOccur es ns
unfolding FirstOccurs
FirstOccurs-zero [] ns f = tt
FirstOccurs-zero (e ∷ es) ns ((low, high), f) =
    ((λ r. omega (arith, low r), λ h. high (omega (arith, h))), f)

AllOccur-first : (es : List Element) (ns : List String) → AllOccur es ns → FirstOccurs 0 es ns
unfolding FirstOccurs
AllOccur-first [] ns f = refl
AllOccur-first (e ∷ es) ns ((low, high), f) =
    ((λ r. omega (arith, low r), λ h. high (omega (arith, h))), f)

InSequence-flat :
    (k n : ℕ) (es : List Element) (ns : List String)
    → distinct (names es) ≡ true
    → InSequence n es ns
    → Ascending (by_index k es) k ns × FirstOccurs n es ns
unfolding FirstOccurs by_index lookup
InSequence-flat k _ _ _ d done = (tt, refl)
InSequence-flat k n _ ns d (next {e = e} {es = es} low high s) =
    let (new, d') = distinct-cons e.name (names es) d in
    let (a, f) = InSequence-flat (suc k) 0 es ns d' s in
    let none_left = count-absent e.name (suc k) (suc k) es ns new a in
    (
      Ascending-cons k (suc k) k e es ns new (omega arith) a,
      (
        (λ r. omega (arith, low r), λ h. high (omega (arith, h, none_left))),
        FirstOccurs-zero es ns f,
      ),
    )
InSequence-flat k n _ _ d (one_more {e = e} {es = es} {ns = ns} s) =
    let (new, d') = distinct-cons e.name (names es) d in
    let (a, ((low, high), f)) = InSequence-flat k (suc n) (e ∷ es) ns d s in
    rw (str_eq_refl e.name, AllOccur-other e.name es ns new)
      ((k, refl, omega arith, a), ((λ r. omega arith, λ h. high (omega (arith, h))), f))

flat-InSequence :
    (k n b : ℕ) (es : List Element) (ns : List String)
    → distinct (names es) ≡ true
    → k ≤ b
    → Ascending (by_index k es) b ns
    → FirstOccurs n es ns
    → InSequence n es ns
unfolding FirstOccurs by_index lookup
flat-InSequence k n b [] [] d le a f = rw f done
flat-InSequence k n b [] (m ∷ ns) d le (i, e, ge, a) f = absurd (cc e)
flat-InSequence k n b (e ∷ es) [] d le a ((low, high), f) =
    next (λ r. omega (arith, low r)) (λ h. high (omega (arith, h)))
      (flat-InSequence (suc k) 0 (suc k) es [] ((distinct-cons e.name (names es) d).1) (omega arith)
        tt (AllOccur-first es [] f))
flat-InSequence k n b (e ∷ es) (m ∷ ns) d le (i, q, ge, a) ((low, high), f) =
    let (new, d') = distinct-cons e.name (names es) d in
    elim (Bool-cases (str_eq m e.name)) [
      | inl same ↦
          let r : m ≡ e.name = (eq_iff m e.name).0 same in
          let q' : k ≡ i = cc (rw same at q) in
          let more : count e.name (m ∷ ns) ≡ suc (count e.name ns) =
            rw (r, str_eq_refl e.name) refl in
          let rest = rw (r, AllOccur-other e.name es ns new) at f in
          let bounds : Occurs e (suc n + count e.name ns) =
            (λ h. omega arith, λ h. high (omega (arith, h, more))) in
          rw r (
            one_more
              (flat-InSequence k (suc n) i (e ∷ es) ns d (omega (arith, q')) a (bounds, rest)))
      | inr other ↦
          let there = index-ge m (suc k) es (rw other at q) in
          let a' : Ascending (by_index (suc k) es) i (m ∷ ns) =
            Ascending-tail k i e es (m ∷ ns) (omega (arith, there)) (i, q, omega arith, a) in
          let none_left = count-absent e.name (suc k) i es (m ∷ ns) new a' in
          next (λ r. omega (arith, low r, none_left)) (λ h. high (omega (arith, h, none_left)))
            (flat-InSequence (suc k) 0 i es (m ∷ ns) d' there a' (AllOccur-first es (m ∷ ns) f))
    ]

-- With distinct names among the particles: the children stand in the declared sequence exactly if
-- each is declared, their positions never fall, and each particle occurs as often as it may.
pub InSequence-iff :
    (es : List Element) (ns : List String)
    → distinct (names es) ≡ true
    → InSequence 0 es ns ↔ (Ascending (by_index 0 es) 0 ns × AllOccur es ns)
InSequence-iff es ns d = (
  λ s. let (a, f) = InSequence-flat 0 0 es ns d s in (a, FirstOccurs-zero es ns f),
  λ (a, f). flat-InSequence 0 0 0 es ns d (omega arith) a (AllOccur-first es ns f),
)
