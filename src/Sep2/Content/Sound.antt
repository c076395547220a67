-- ===== src/Sep2/Content/Sound.antt =====
-- The wanted content of an element, and theorems on `decodeChildren` of
-- pkg/sep2/der_mode_types.go.
use Prim.Native.String.{String}
use mathlib.Core.Path.{subst}
use text.Mathlib.TextEquality.{eq_iff}
use ieee_2030_5_core_go.Prelude.{
  ℕ, zero, suc, ◌<◌, List, [], ◌∷◌, ◌++◌, Text, length, ◌≡◌, ◌≢◌, refl, arith, ◌↔◌,
}
use ieee_2030_5_core_go.Golang.Strings.{trim_space}
use ieee_2030_5_core_go.Golang.Xml.{
  start_element, end_element, char_data, other_token, XmlName, XmlAttr, Decoder,
}
use ieee_2030_5_core_go.Sep2.Result.{Result, ok, stuck, ◌>>=◌, >>=-eq-ok, >>=-ne_stuck}
use ieee_2030_5_core_go.Sep2.Content.{
  simple_text, expect_child, refuse_text, expect_none, children_loop, decode_children,
}

-- The content of an element in namespace `ns`: the wanted children in order, each once, in that
-- namespace and with a simple text, with white space and other tokens between them, up to the end
-- tag. `rest` is what stands behind it.
pub data Content (ns : String) : List String → List Text → Decoder → Decoder → Type 0 where
  closed : {n : XmlName} {d : Decoder} → Content ns [] [] (end_element n ∷ d) d
  blank :
      {want : List String} {texts : List Text} {t : Text} {d rest : Decoder}
      → trim_space t ≡ []
      → Content ns want texts d rest
      → Content ns want texts (char_data t ∷ d) rest
  skip :
      {want : List String} {texts : List Text} {d rest : Decoder}
      → Content ns want texts d rest
      → Content ns want texts (other_token ∷ d) rest
  child :
      {w : String} {want : List String} {text : Text} {texts : List Text} {n : XmlName}
      {attrs : List XmlAttr} {d d' rest : Decoder}
      → n.local ≡ w
      → n.space ≡ ns
      → simple_text [] d ≡ ok (text, d')
      → Content ns want texts d' rest
      → Content ns (w ∷ want) (text ∷ texts) (start_element n attrs ∷ d) rest

closed_eq :
    (ns : String) (n : XmlName) {d rest : Decoder}
    → d ≡ rest
    → Content ns [] [] (end_element n ∷ d) rest
closed_eq ns n {d = d} e = subst (λ r. Content ns [] [] (end_element n ∷ d) r) e closed

-- The callback on each child in turn.
unfoldable pub set_all {ℓ} :
    {S : Type ℓ} → (String → Text → S → Result S) → List String → List Text → S → Result S
set_all set [] texts s = ok s
set_all set (w ∷ want) [] s = ok s
set_all set (w ∷ want) (t ∷ texts) s = set w t s >>= λ s'. set_all set want texts s'

simple_text-shorter :
    (text : Text) (d : Decoder) {t : Text} {rest : Decoder}
    → simple_text text d ≡ ok (t, rest)
    → length rest < length d
unfolding simple_text
simple_text-shorter text [] e = cc
simple_text-shorter text (start_element n a ∷ d) e = cc
simple_text-shorter text (char_data s ∷ d) e = omega (arith, simple_text-shorter (text ++ s) d e)
simple_text-shorter text (end_element n ∷ d) {rest = rest} e = ground arith
simple_text-shorter text (other_token ∷ d) e = omega (arith, simple_text-shorter text d e)

expect_child-fits :
    (ns : String) (n : XmlName) (w : String) (want : List String)
    → n.local ≡ w
    → n.space ≡ ns
    → expect_child ns n (w ∷ want) ≡ ok want
unfolding expect_child
expect_child-fits ns n w want p q = ground (arith, eq_iff n.local w, eq_iff n.space ns)

expect_child-cases :
    (ns : String) (n : XmlName) (want : List String) {behind : List String}
    → expect_child ns n want ≡ ok behind
    → (want ≡ n.local ∷ behind) × (n.space ≡ ns)
unfolding expect_child
expect_child-cases ns n [] e = cc
expect_child-cases ns n (w ∷ want) e = (
  ground (arith, eq_iff n.local w, eq_iff n.space ns),
  ground (arith, eq_iff n.local w, eq_iff n.space ns),
)

refuse_text-eq_ok : (t : Text) {u : Unit {0}} → refuse_text t ≡ ok u → t ≡ []
unfolding refuse_text
refuse_text-eq_ok [] e = refl
refuse_text-eq_ok (c ∷ t) e = cc

expect_none-eq_ok : (want : List String) {u : Unit {0}} → expect_none want ≡ ok u → want ≡ []
unfolding expect_none
expect_none-eq_ok [] e = refl
expect_none-eq_ok (w ∷ want) e = cc

pub simple_text-ne_stuck : (text : Text) (d : Decoder) → simple_text text d ≢ stuck
unfolding simple_text
simple_text-ne_stuck text [] = λ e. cc
simple_text-ne_stuck text (start_element n a ∷ d) = λ e. cc
simple_text-ne_stuck text (char_data t ∷ d) = simple_text-ne_stuck (text ++ t) d
simple_text-ne_stuck text (end_element n ∷ d) = λ e. cc
simple_text-ne_stuck text (other_token ∷ d) = simple_text-ne_stuck text d

expect_child-ne_stuck :
    (ns : String) (n : XmlName) (want : List String) → expect_child ns n want ≢ stuck
unfolding expect_child
expect_child-ne_stuck ns n [] = λ e. cc
expect_child-ne_stuck ns n (w ∷ want) = ground arith

refuse_text-ne_stuck : (t : Text) → refuse_text t ≢ stuck
unfolding refuse_text
refuse_text-ne_stuck [] = λ e. cc
refuse_text-ne_stuck (c ∷ t) = λ e. cc

expect_none-ne_stuck : (want : List String) → expect_none want ≢ stuck
unfolding expect_none
expect_none-ne_stuck [] = λ e. cc
expect_none-ne_stuck (w ∷ want) = λ e. cc

module _ {ℓ} {S : Type ℓ} (ns : String) (set : String → Text → S → Result S) where
  children_loop-Content :
      (fuel : ℕ) {want : List String} {texts : List Text} {d rest : Decoder} (s : S) {s' : S}
      → length d < fuel
      → Content ns want texts d rest
      → set_all set want texts s ≡ ok s'
      → children_loop fuel ns want set s d ≡ ok (s', rest)
  unfolding children_loop set_all
  children_loop-Content zero s h c e = absurd (omega arith)
  children_loop-Content (suc fuel) s h closed e = cc
  children_loop-Content (suc fuel) s h (blank b c) e =
      rw b (children_loop-Content fuel s (omega arith) c e)
  children_loop-Content (suc fuel) s h (skip c) e = children_loop-Content fuel s (omega arith) c e
  children_loop-Content (suc fuel) s h (child {w} {want} {text} {texts} {n} {d = d} p q t c) e =
      let (s₁, e₁, e₂) = >>=-eq-ok (set w text s) (λ s₁. set_all set want texts s₁) e in
      rw (expect_child-fits ns n w want p q) (
        rw t (
          rw p (
            rw e₁
              (children_loop-Content fuel s₁ (omega (arith, simple_text-shorter [] d t)) c e₂))))

  -- What a successful run has read, and what it has done.
  abbrev pub Ran : List String → S → Decoder → S → Decoder → Type ℓ
  Ran want s d s' rest =
      (texts : List Text) × Content ns want texts d rest × (set_all set want texts s ≡ ok s')

  children_loop-Ran :
      (fuel : ℕ) (want : List String) (s : S) (d : Decoder) {s' : S} {rest : Decoder}
      → children_loop fuel ns want set s d ≡ ok (s', rest)
      → Ran want s d s' rest
  unfolding children_loop set_all
  children_loop-Ran zero want s d e = absurd (cc)
  children_loop-Ran (suc fuel) want s [] e = absurd (cc)
  children_loop-Ran (suc fuel) want s (start_element n a ∷ d) e =
      let (behind, e₁, f₁) = >>=-eq-ok (expect_child ns n want) _ e in
      let (p, e₂, f₂) = >>=-eq-ok (simple_text [] d) _ f₁ in
      let (s₁, e₃, f₃) = >>=-eq-ok (set n.local p.0 s) _ f₂ in
      let (texts, c, done) = children_loop-Ran fuel behind s₁ p.1 f₃ in
      let (w, q) = expect_child-cases ns n want e₁ in
      rw w (p.0 ∷ texts, child refl q e₂ c, rw e₃ done)
  children_loop-Ran (suc fuel) want s (char_data t ∷ d) e =
      let (u, e₁, e₂) = >>=-eq-ok (refuse_text (trim_space t)) _ e in
      let (texts, c, done) = children_loop-Ran fuel want s d e₂ in
      (texts, blank (refuse_text-eq_ok (trim_space t) e₁) c, done)
  children_loop-Ran (suc fuel) want s (end_element n ∷ d) {rest = rest} e =
      let (u, e₁, e₂) = >>=-eq-ok (expect_none want) _ e in
      let q : d ≡ rest = cc e₂ in rw (expect_none-eq_ok want e₁) ([], closed_eq ns n q, cc e₂)
  children_loop-Ran (suc fuel) want s (other_token ∷ d) e =
      let (texts, c, done) = children_loop-Ran fuel want s d e in (texts, skip c, done)

  -- Enough fuel: the loop ends, unless the callback is stuck.
  children_loop-ne_stuck :
      (fuel : ℕ) (want : List String) (s : S) (d : Decoder)
      → length d < fuel
      → ((w : String) (t : Text) (s : S) → set w t s ≢ stuck)
      → children_loop fuel ns want set s d ≢ stuck
  unfolding children_loop
  children_loop-ne_stuck zero want s d h ends = absurd (omega arith)
  children_loop-ne_stuck (suc fuel) want s [] h ends = λ e. cc
  children_loop-ne_stuck (suc fuel) want s (start_element n a ∷ d) h ends =
      >>=-ne_stuck (expect_child ns n want) _ (expect_child-ne_stuck ns n want) λ behind e₁.
        >>=-ne_stuck (simple_text [] d) _ (simple_text-ne_stuck [] d) λ p e₂.
          >>=-ne_stuck (set n.local p.0 s) _ (ends n.local p.0 s) λ s₁ e₃.
            children_loop-ne_stuck fuel behind s₁ p.1 (omega (arith, simple_text-shorter [] d e₂))
              ends
  children_loop-ne_stuck (suc fuel) want s (char_data t ∷ d) h ends =
      >>=-ne_stuck (refuse_text (trim_space t)) _ (refuse_text-ne_stuck (trim_space t))
        λ u e₁. children_loop-ne_stuck fuel want s d (omega arith) ends
  children_loop-ne_stuck (suc fuel) want s (end_element n ∷ d) h ends =
      >>=-ne_stuck (expect_none want) _ (expect_none-ne_stuck want) λ u e₁ q. cc
  children_loop-ne_stuck (suc fuel) want s (other_token ∷ d) h ends =
      children_loop-ne_stuck fuel want s d (omega arith) ends

-- In any namespace, for any wanted names, callback and tokens: `decodeChildren` succeeds with state
-- `s'` and leaves the tokens `rest` exactly if what it has consumed is the wanted content (each
-- wanted child once, in order, in the namespace, with a simple text, and nothing but white space
-- between them) and the callback, on the children's texts in order, ends in `s'`.
pub decode_children_iff {ℓ} :
    {S : Type ℓ} (ns : String) (want : List String) (set : String → Text → S → Result S) (s : S)
    (d : Decoder) (s' : S) (rest : Decoder)
    → (decode_children ns want set s d ≡ ok (s', rest))
      ↔ ((texts : List Text) × Content ns want texts d rest × (set_all set want texts s ≡ ok s'))
unfolding decode_children
decode_children_iff ns want set s d s' rest = (
  children_loop-Ran ns set (suc (length d)) want s d,
  λ r. children_loop-Content ns set (suc (length d)) s (omega arith) r.1 r.2,
)

pub decode_children-ne_stuck {ℓ} :
    {S : Type ℓ} (ns : String) (want : List String) (set : String → Text → S → Result S) (s : S)
    (d : Decoder)
    → ((w : String) (t : Text) (s : S) → set w t s ≢ stuck)
    → decode_children ns want set s d ≢ stuck
unfolding decode_children
decode_children-ne_stuck ns want set s d ends =
    children_loop-ne_stuck ns set (suc (length d)) want s d (omega arith) ends
