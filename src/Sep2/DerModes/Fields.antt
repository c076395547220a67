-- ===== src/Sep2/DerModes/Fields.antt =====
-- Round trips of FixedVar and FreqDroopType of pkg/sep2/der_mode_types.go.
use Prim.Native.String.{String}
use ieee_2030_5_core_go.Prelude.{
  ℕ, ◌%◌, ◌^◌, ◌≤◌, ◌<◌, List, [], ◌∷◌, Text, ◌≡◌, refl, ap, ◌∙◌, arith, map,
}
use ieee_2030_5_core_go.Prelude.Int.{ℤ}
use ieee_2030_5_core_go.Golang.Strconv.{format_uint, format_int}
use ieee_2030_5_core_go.Golang.Xml.{XmlName, Decoder}
use ieee_2030_5_core_go.Sep2.Result.{ok}
use ieee_2030_5_core_go.Sep2.Content.{simple_text}
use ieee_2030_5_core_go.Sep2.Content.Uint.{parse_uint_text-format_uint}
use ieee_2030_5_core_go.Sep2.Content.Sound.{Content, closed, child, set_all, decode_children_iff}
use ieee_2030_5_core_go.Sep2.Bounded.{signed_per_cent, parse_signed_per_cent}
use ieee_2030_5_core_go.Sep2.Bounded.Laws.{
  InRange, marshal-InRange, narrow_of-InRange, InRange-int64, parse_bounded-format_int,
}
use ieee_2030_5_core_go.Sep2.DerModes.{
  elements, FixedVar, check_ref_type, marshal_fixed_var, set_fixed_var, zero_fixed_var,
  unmarshal_fixed_var, FreqDroopType, marshal_freq_droop, set_freq_droop, zero_freq_droop,
  unmarshal_freq_droop,
}

-- Such an element's tokens are its content.
Content-elements :
    (ns : String) (fields : List (String × Text)) (n : XmlName) (rest : Decoder)
    → Content ns (map (λ f. f.0) fields) (map (λ f. f.1) fields) (elements ns fields n rest) rest
unfolding simple_text
Content-elements ns [] n rest = closed
Content-elements ns ((name, text) ∷ fields) n rest =
    child refl refl refl (Content-elements ns fields n rest)

parse_signed_per_cent-format_int :
    (v : ℤ) → InRange signed_per_cent v → parse_signed_per_cent (format_int v 10) ≡ ok v
unfolding parse_signed_per_cent
parse_signed_per_cent-format_int v h =
    parse_bounded-format_int v _ _ _ (InRange-int64 signed_per_cent v h).0
      (InRange-int64 signed_per_cent v h).1
    ∙ narrow_of-InRange signed_per_cent v h

-- A FixedVar with refType 1, 2 or 3 and a value that SignedPerCent allows.
pub record IsLegal (f : FixedVar) : Type 0 where
  pub ref_low : 1 ≤ f.ref_type
  pub ref_high : f.ref_type ≤ 3
  pub value_legal : InRange signed_per_cent f.value

check_ref_type-IsLegal : (f : FixedVar) → IsLegal f → check_ref_type f.ref_type ≡ ok tt
unfolding check_ref_type
check_ref_type-IsLegal f h = ground arith

set_fixed_var-texts :
    (f : FixedVar)
    → IsLegal f
    → set_all set_fixed_var
        ("refType" ∷ "value" ∷ [])
        (format_uint f.ref_type 10 ∷ format_int f.value 10 ∷ [])
        zero_fixed_var
      ≡ ok f
unfolding set_all set_fixed_var
set_fixed_var-texts f h =
    rw (parse_uint_text-format_uint f.ref_type 8 (omega arith) (omega arith)) (
      rw (parse_signed_per_cent-format_int f.value h.value_legal)
        (ap ok (λ i. record { ref_type = small f h i; value = f.value })))
  where
    small : (f : FixedVar) → IsLegal f → f.ref_type % 2 ^ 8 ≡ f.ref_type
    small f h = omega arith

-- A FixedVar with refType 1, 2 or 3 and a value in SignedPerCent's range is marshalled with no
-- error, and what a decoder reads of it in any namespace is unmarshalled to the same FixedVar,
-- whatever the receiver held.
pub unmarshal_fixed_var-marshal_fixed_var :
    (ns : String) (old f : FixedVar) (n : XmlName) (rest : Decoder)
    → IsLegal f
    → (fields : List (String × Text)) × (marshal_fixed_var f ≡ ok fields)
      × (unmarshal_fixed_var ns old (elements ns fields n rest) ≡ (f, ok tt))
unfolding unmarshal_fixed_var marshal_fixed_var
unmarshal_fixed_var-marshal_fixed_var ns old f n rest h =
    let fields : List (String × Text) =
      ("refType", format_uint f.ref_type 10) ∷ ("value", format_int f.value 10) ∷ [] in
    let read =
      (decode_children_iff ns ("refType" ∷ "value" ∷ []) set_fixed_var zero_fixed_var
          (elements ns fields n rest) f rest).1
        (
          format_uint f.ref_type 10 ∷ format_int f.value 10 ∷ [],
          Content-elements ns fields n rest,
          set_fixed_var-texts f h,
        ) in
    (
      fields,
      rw (check_ref_type-IsLegal f h)
          (rw ((marshal-InRange signed_per_cent f.value h.value_legal).1)),
      rw read (rw (check_ref_type-IsLegal f h)),
    )

-- Every field has the width of its Go type.
pub record FitsWidths (f : FreqDroopType) : Type 0 where
  pub dbof_fits : f.dbof < 2 ^ 32
  pub dbuf_fits : f.dbuf < 2 ^ 32
  pub kof_fits : f.kof < 2 ^ 16
  pub kuf_fits : f.kuf < 2 ^ 16
  pub open_loop_tms_fits : f.open_loop_tms < 2 ^ 16

mod16 : (n : ℕ) → n < 2 ^ 16 → n % 2 ^ 16 ≡ n
mod16 n h = omega arith

mod32 : (n : ℕ) → n < 2 ^ 32 → n % 2 ^ 32 ≡ n
mod32 n h = omega arith

set_freq_droop-texts :
    (f : FreqDroopType)
    → FitsWidths f
    → set_all set_freq_droop
        ("dBOF" ∷ "dBUF" ∷ "kOF" ∷ "kUF" ∷ "openLoopTms" ∷ [])
        (map (λ p. p.1) (marshal_freq_droop f))
        zero_freq_droop
      ≡ ok f
unfolding set_all set_freq_droop marshal_freq_droop
set_freq_droop-texts f h = rw (parse_uint_text-format_uint f.dbof 32 h.dbof_fits (omega arith)) (
    rw (parse_uint_text-format_uint f.dbuf 32 h.dbuf_fits (omega arith)) (
      rw (parse_uint_text-format_uint f.kof 16 h.kof_fits (omega arith)) (
        rw (parse_uint_text-format_uint f.kuf 16 h.kuf_fits (omega arith)) (
          rw (parse_uint_text-format_uint f.open_loop_tms 16 h.open_loop_tms_fits (omega arith)) (
            ap ok (λ i. record {
              dbof = mod32 f.dbof h.dbof_fits i;
              dbuf = mod32 f.dbuf h.dbuf_fits i;
              kof = mod16 f.kof h.kof_fits i;
              kuf = mod16 f.kuf h.kuf_fits i;
              open_loop_tms = mod16 f.open_loop_tms h.open_loop_tms_fits i;
            }))))))

-- What a decoder reads of a FreqDroopType, in any namespace, is unmarshalled to the same five
-- values with no error, whatever the receiver held.
pub unmarshal_freq_droop-marshal_freq_droop :
    (ns : String) (old f : FreqDroopType) (n : XmlName) (rest : Decoder)
    → FitsWidths f
    → unmarshal_freq_droop ns old (elements ns (marshal_freq_droop f) n rest) ≡ (f, ok tt)
unfolding unmarshal_freq_droop
unmarshal_freq_droop-marshal_freq_droop ns old f n rest h =
    let want : List String = "dBOF" ∷ "dBUF" ∷ "kOF" ∷ "kUF" ∷ "openLoopTms" ∷ [] in
    let read =
      (decode_children_iff ns want set_freq_droop zero_freq_droop
          (elements ns (marshal_freq_droop f) n rest) f rest).1
        (
          map (λ p. p.1) (marshal_freq_droop f),
          (unfold marshal_freq_droop in Content-elements ns (marshal_freq_droop f) n rest),
          set_freq_droop-texts f h,
        ) in
    rw read
