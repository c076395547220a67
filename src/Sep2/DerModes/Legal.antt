-- ===== src/Sep2/DerModes/Legal.antt =====
-- The refType of FixedVar in the decoders of pkg/sep2/der_mode_types.go.
use Prim.Native.String.{String}
use text.Mathlib.Text.{◌==◌}
use ieee_2030_5_core_go.Prelude.{
  ℕ, ◌≤◌, ◌||◌, [], ◌∷◌, Option, none, some, ltb, Text, ◌≡◌, refl, arith, ◌≢◌, inl, inr, Bool-cases,
}
use ieee_2030_5_core_go.Prelude.Int.{ℤ}
use ieee_2030_5_core_go.Golang.Xml.{Decoder}
use ieee_2030_5_core_go.Sep2.Result.{Result, ok, err, stuck, assign, ◌>>=◌, ◌>>◌, >>=-ne_stuck}
use ieee_2030_5_core_go.Sep2.Content.{decode_children, parse_uint_text, require_json}
use ieee_2030_5_core_go.Sep2.Content.Uint.{parse_uint_text-ne_stuck}
use ieee_2030_5_core_go.Sep2.Bounded.Laws.{parse_signed_per_cent-ne_stuck}
use ieee_2030_5_core_go.Sep2.Content.Sound.{decode_children-ne_stuck}
use ieee_2030_5_core_go.Sep2.Bounded.{parse_signed_per_cent}
use ieee_2030_5_core_go.Sep2.DerModes.{
  FixedVar, check_ref_type, set_fixed_var, zero_fixed_var, unmarshal_fixed_var,
  unmarshal_fixed_var_json, fixed_var_of_json, deref_fixed_var, is_nil,
}

-- After an unmarshalling call: a refType of 1, 2 or 3 with no error, or an error and the receiver as before.
abbrev pub RefTypeKept : FixedVar → FixedVar × Result (Unit {0}) → Type 0
RefTypeKept old (new, ok u) = (1 ≤ new.ref_type) × (new.ref_type ≤ 3)
RefTypeKept old (new, err e) = new ≡ old
RefTypeKept old (new, stuck) = ⊥

kept_or_refused :
    (old v : FixedVar) → RefTypeKept old (assign old (check_ref_type v.ref_type >> ok v))
unfolding check_ref_type
kept_or_refused old v = elim (Bool-cases (ltb v.ref_type 1 || ltb 3 v.ref_type)) [
  | inl bad ↦ rw bad refl
  | inr good ↦ rw good (ground arith, ground arith)
]

checked :
    {A : Type 0} (old : FixedVar) (r : Result A) (f : A → FixedVar)
    → r ≢ stuck
    → RefTypeKept old (assign old (r >>= λ a. check_ref_type (f a).ref_type >> ok (f a)))
checked old (ok a) f h = kept_or_refused old (f a)
checked old (err e) f h = refl
checked old stuck f h = absurd (h refl)

set_fixed_var-ne_stuck : (w : String) (t : Text) (v : FixedVar) → set_fixed_var w t v ≢ stuck
unfolding set_fixed_var
set_fixed_var-ne_stuck w t v = elim (Bool-cases (w == "refType")) [
  | inl ref ↦
      rw ref (>>=-ne_stuck (parse_uint_text t 8) _ (parse_uint_text-ne_stuck t 8) λ n e q. cc)
  | inr val ↦
      rw val
        (>>=-ne_stuck (parse_signed_per_cent t) _ (parse_signed_per_cent-ne_stuck t) λ n e q. cc)
]

json_kept :
    (old : FixedVar) (raw : Option (Option ℕ × Option ℤ))
    → RefTypeKept old (assign old (fixed_var_of_json raw))
unfolding fixed_var_of_json deref_fixed_var is_nil require_json
json_kept old none = refl
json_kept old (some (none, v)) = refl
json_kept old (some (some r, none)) = refl
json_kept old (some (some r, some v)) = kept_or_refused old (record { ref_type = r; value = v })

-- On every token stream and on every pair of JSON fields, missing ones included: UnmarshalXML and
-- UnmarshalJSON of FixedVar either store a refType of 1, 2 or 3 and return no error, or return an
-- error and leave the receiver as it was; neither runs out of fuel nor follows a nil pointer.
pub unmarshal_fixed_var-RefTypeKept :
    (ns : String) (old : FixedVar) (d : Decoder) (raw : Option (Option ℕ × Option ℤ))
    → RefTypeKept old (unmarshal_fixed_var ns old d)
      × RefTypeKept old (unmarshal_fixed_var_json old raw)
unfolding unmarshal_fixed_var unmarshal_fixed_var_json
unmarshal_fixed_var-RefTypeKept ns old d raw = (
  checked old (decode_children ns ("refType" ∷ "value" ∷ []) set_fixed_var zero_fixed_var d)
      (λ p. p.0)
      (decode_children-ne_stuck ns _ set_fixed_var zero_fixed_var d set_fixed_var-ne_stuck),
  json_kept old raw,
)
