-- ===== src/Sep2/Bounded/Laws.antt =====
-- Theorems on the methods of PerCent, SignedPerCent and OneHourRange, and on the guards of
-- pkg/sep2/power_status.go.
use ieee_2030_5_core_go.Prelude.{
  ◌-◌, ◌^◌, ◌||◌, [], ◌∷◌, ◌++◌, Option, none, some, Text, ◌≡◌, ◌≢◌, refl, ap, ◌∙◌, arith, inl, inr,
  ◌⊎◌, ◌↔◌, Bool-cases,
}
use ieee_2030_5_core_go.Prelude.Int.{ℤ, pos, negsuc, ltb_ℤ, ◌≤ℤ◌}
use ieee_2030_5_core_go.Golang.Strings.{trim_space, trim_space-NoSpace}
use ieee_2030_5_core_go.Golang.Strconv.{Parsed, parsed, failed, parse_int, format_int}
use ieee_2030_5_core_go.Golang.Strconv.Int.{
  parse_int-format_int, format_int-NoSpace, format_int-ne_nil,
}
use ieee_2030_5_core_go.Golang.Xml.{
  start_element, end_element, char_data, other_token, XmlName, Decoder,
}
use ieee_2030_5_core_go.Sep2.Result.{out_of_range, Result, ok, err, stuck, assign, ◌>>=◌, ◌>>◌}
use ieee_2030_5_core_go.Sep2.Content.{simple_text}
use ieee_2030_5_core_go.Sep2.Bounded.{
  check_bounded, narrow_int16, narrow_uint16, NarrowFunc, parse_trimmed, parse_bounded,
  decode_bounded_json, BoundedType, per_cent, signed_per_cent, one_hour_range, lower_bound,
  upper_bound, narrow_of, unmarshal_xml, marshal_xml, unmarshal_json, marshal_json, wrap_parsed,
  drop_rest, parse_signed_per_cent, Energy, marshal_real_energy, marshal_signed_real_energy,
}

-- `v` is in the range of the type.
abbrev pub InRange : BoundedType → ℤ → Type 0
InRange t v = (lower_bound t ≤ℤ v) × (v ≤ℤ upper_bound t)

-- The ranges of IEEE 2030.5, in hundredths of a percent and in seconds.
abbrev pub Within : BoundedType → ℤ → Type 0
Within per_cent v = (pos 0 ≤ℤ v) × (v ≤ℤ pos 10000)
Within signed_per_cent v = (negsuc 9999 ≤ℤ v) × (v ≤ℤ pos 10000)
Within one_hour_range v = (negsuc 3599 ≤ℤ v) × (v ≤ℤ pos 3600)

Within-iff : (t : BoundedType) (v : ℤ) → Within t v ↔ InRange t v
Within-iff per_cent v = (λ h. h, λ h. h)
Within-iff signed_per_cent v = (λ h. h, λ h. h)
Within-iff one_hour_range v = (λ h. h, λ h. h)

-- The two narrowing functions agree with the bare range check on each type: the second guard never
-- fires, and the conversion to 16 bits never changes the number.
narrow_of_lem :
    (t : BoundedType) (n : ℤ)
    → narrow_of t n (lower_bound t) (upper_bound t)
      ≡ (check_bounded n (lower_bound t) (upper_bound t) >> ok n)
unfolding narrow_int16 narrow_uint16 check_bounded
narrow_of_lem per_cent (pos n) = ground arith
narrow_of_lem per_cent (negsuc n) = ground arith
narrow_of_lem signed_per_cent (pos n) = ground arith
narrow_of_lem signed_per_cent (negsuc n) = ground arith
narrow_of_lem one_hour_range (pos n) = ground arith
narrow_of_lem one_hour_range (negsuc n) = ground arith

-- The range check, read as an order.
check_bounded-cases :
    (t : BoundedType) (n : ℤ)
    → (InRange t n × (check_bounded n (lower_bound t) (upper_bound t) ≡ ok tt))
      ⊎ (¬ InRange t n
          × (check_bounded n (lower_bound t) (upper_bound t)
              ≡ err (out_of_range n (lower_bound t) (upper_bound t))))
unfolding check_bounded
check_bounded-cases t n = elim (Bool-cases (ltb_ℤ n (lower_bound t) || ltb_ℤ (upper_bound t) n)) [
  | inl out ↦ inr ((λ r. ground arith), rw out)
  | inr within ↦ inl ((ground arith, ground arith), rw within)
]

pub InRange-int64 :
    (t : BoundedType) (v : ℤ) → InRange t v → (negsuc (2 ^ 63 - 1) ≤ℤ v) × (v ≤ℤ pos (2 ^ 63 - 1))
InRange-int64 per_cent v h = omega arith
InRange-int64 signed_per_cent v h = omega arith
InRange-int64 one_hour_range v h = omega arith

parse_trimmed-parsed :
    (s : Text) (lo hi : ℤ) (narrow : NarrowFunc) {v : ℤ}
    → s ≢ []
    → parse_int s 10 64 ≡ parsed v
    → parse_trimmed s lo hi narrow ≡ narrow v lo hi
unfolding parse_trimmed wrap_parsed
parse_trimmed-parsed [] lo hi narrow ne e = absurd (ne refl)
parse_trimmed-parsed (c ∷ s) lo hi narrow ne e = rw e

-- The decimal text of an int64 is read as that number.
pub parse_bounded-format_int :
    (v lo hi : ℤ) (narrow : NarrowFunc)
    → negsuc (2 ^ 63 - 1) ≤ℤ v
    → v ≤ℤ pos (2 ^ 63 - 1)
    → parse_bounded (format_int v 10) lo hi narrow ≡ narrow v lo hi
unfolding parse_bounded
parse_bounded-format_int v lo hi narrow a b =
    rw (trim_space-NoSpace _ (format_int-NoSpace v a b))
      (parse_trimmed-parsed _ lo hi narrow (format_int-ne_nil v) (parse_int-format_int v a b))

unmarshal_xml-text :
    (t : BoundedType) (old : ℤ) (text : Text) (n : XmlName) (rest : Decoder)
    → unmarshal_xml t old (char_data text ∷ end_element n ∷ rest)
      ≡ assign old (parse_bounded text (lower_bound t) (upper_bound t) (narrow_of t))
unfolding unmarshal_xml
unmarshal_xml-text t old text n rest =
    ap (assign old)
      (bind_pair (parse_bounded text (lower_bound t) (upper_bound t) (narrow_of t)) rest)
  where
    bind_pair : (r : Result ℤ) (rest : Decoder) → drop_rest (r >>= λ v. ok (v, rest)) ≡ r
    bind_pair (ok v) rest = refl
    bind_pair (err e) rest = refl
    bind_pair stuck rest = refl

pub narrow_of-InRange :
    (t : BoundedType) (v : ℤ) → InRange t v → narrow_of t v (lower_bound t) (upper_bound t) ≡ ok v
narrow_of-InRange t v h =
    narrow_of_lem t v
    ∙ elim (check_bounded-cases t v) [ inl (within, e) ↦ rw e | inr (out, e) ↦ absurd (out h) ]

-- On a value in the range of the type, `MarshalXML` writes a text with no error, and `UnmarshalXML`
-- of an element with that text stores the value in any receiver with no error.
pub unmarshal_xml-marshal_xml_bounded :
    (t : BoundedType) (old v : ℤ) (n : XmlName) (rest : Decoder)
    → InRange t v
    → (text : Text) × (marshal_xml t v ≡ ok text)
      × (unmarshal_xml t old (char_data text ∷ end_element n ∷ rest) ≡ (v, ok tt))
unfolding marshal_xml
unmarshal_xml-marshal_xml_bounded t old v n rest h = elim (check_bounded-cases t v) [
  | inl (within, e) ↦ (
    format_int v 10,
    rw e,
    unmarshal_xml-text t old (format_int v 10) n rest
        ∙ ap (assign old) (
            parse_bounded-format_int v _ _ (narrow_of t) (InRange-int64 t v h).0
              (InRange-int64 t v h).1
            ∙ narrow_of-InRange t v h),
  )
  | inr (out, e) ↦ absurd (out h)
]

-- A value of the type's range, or an error.
abbrev pub Sound : BoundedType → Result ℤ → Type 0
Sound t (ok v) = InRange t v
Sound t (err e) = Unit
Sound t stuck = ⊥

narrow_of-Sound :
    (t : BoundedType) (n : ℤ) → Sound t (narrow_of t n (lower_bound t) (upper_bound t))
narrow_of-Sound t n =
    rw (narrow_of_lem t n)
      (elim (check_bounded-cases t n) [ inl (within, e) ↦ rw e within | inr (out, e) ↦ rw e tt ])

parse_trimmed-Sound :
    (t : BoundedType) (s : Text)
    → Sound t (parse_trimmed s (lower_bound t) (upper_bound t) (narrow_of t))
unfolding parse_trimmed wrap_parsed
parse_trimmed-Sound t [] = tt
parse_trimmed-Sound t (c ∷ s) = go (parse_int (c ∷ s) 10 64)
  where
    go :
        (p : Parsed ℤ)
        → Sound t (wrap_parsed p >>= λ n. narrow_of t n (lower_bound t) (upper_bound t))
    go (parsed n) = narrow_of-Sound t n
    go (failed e) = tt

decode-Sound :
    (t : BoundedType) (text : Text) (d : Decoder)
    → Sound t (
        drop_rest (
          simple_text text d >>= λ (s, rest).
          parse_bounded s (lower_bound t) (upper_bound t) (narrow_of t) >>= λ v. ok (v, rest)))
unfolding simple_text drop_rest parse_bounded
decode-Sound t text [] = tt
decode-Sound t text (start_element n a ∷ d) = tt
decode-Sound t text (char_data s ∷ d) = decode-Sound t (text ++ s) d
decode-Sound t text (end_element n ∷ d) =
    go (parse_trimmed _ _ _ (narrow_of t)) (parse_trimmed-Sound t (trim_space text))
  where
    go : (r : Result ℤ) → Sound t r → Sound t (drop_rest (r >>= λ v. ok (v, d)))
    go (ok v) h = h
    go (err e) h = h
    go stuck h = h
decode-Sound t text (other_token ∷ d) = decode-Sound t text d

-- After an unmarshalling call the receiver holds a value of the range and there is no error, or
-- there is an error and the receiver is as before.
abbrev pub Assigned : BoundedType → ℤ → ℤ × Result (Unit {0}) → Type 0
Assigned t old (new, ok u) = InRange t new
Assigned t old (new, err e) = new ≡ old
Assigned t old (new, stuck) = ⊥

assign-Assigned :
    (t : BoundedType) (old : ℤ) (r : Result ℤ) → Sound t r → Assigned t old (assign old r)
assign-Assigned t old (ok v) h = h
assign-Assigned t old (err e) h = refl
assign-Assigned t old stuck h = h

-- On every token stream and on every integer that JSON gives, or none: `UnmarshalXML` and
-- `UnmarshalJSON` store a value of the type's range and return no error, or return an error and
-- leave the receiver as it was.
pub unmarshal-Assigned :
    (t : BoundedType) (old : ℤ) (d : Decoder) (json : Option ℤ)
    → Assigned t old (unmarshal_xml t old d) × Assigned t old (unmarshal_json t old json)
unfolding unmarshal_xml unmarshal_json
unmarshal-Assigned t old d json =
    (assign-Assigned t old _ (decode-Sound t [] d), assign-Assigned t old _ (from_json json))
  where
    from_json :
        (json : Option ℤ)
        → Sound t (decode_bounded_json json (lower_bound t) (upper_bound t) (narrow_of t))
    from_json none = tt
    from_json (some n) = narrow_of-Sound t n

pub marshal-InRange :
    (t : BoundedType) (v : ℤ)
    → InRange t v
    → (marshal_json t v ≡ ok v) × (marshal_xml t v ≡ ok (format_int v 10))
unfolding marshal_json marshal_xml
marshal-InRange t v h = elim (check_bounded-cases t v) [
  | inl (within, e) ↦ (rw e, rw e)
  | inr (out, e) ↦ absurd (out h)
]

-- On a value from 0 to 10000 for PerCent, -10000 to 10000 for SignedPerCent, or -3600 to 3600 for
-- OneHourRange, both encoders write the value with no error; on any other value both return the
-- error with the value and the bounds.
pub marshal_outcome :
    (t : BoundedType) (v : ℤ)
    → (Within t v × (marshal_json t v ≡ ok v) × (marshal_xml t v ≡ ok (format_int v 10)))
      ⊎ (¬ Within t v
          × (marshal_json t v ≡ err (out_of_range v (lower_bound t) (upper_bound t)))
          × (marshal_xml t v ≡ err (out_of_range v (lower_bound t) (upper_bound t))))
unfolding marshal_json marshal_xml
marshal_outcome t v = elim (check_bounded-cases t v) [
  | inl (within, e) ↦ inl ((Within-iff t v).1 within, rw e, rw e)
  | inr (out, e) ↦ inr ((λ h. out ((Within-iff t v).0 h)), rw e, rw e)
]

Sound-ne_stuck : (t : BoundedType) (r : Result ℤ) → Sound t r → r ≢ stuck
Sound-ne_stuck t (ok v) h = λ e. cc
Sound-ne_stuck t (err x) h = λ e. cc
Sound-ne_stuck t stuck h = absurd h

pub parse_signed_per_cent-ne_stuck : (text : Text) → parse_signed_per_cent text ≢ stuck
unfolding parse_signed_per_cent parse_bounded
parse_signed_per_cent-ne_stuck text =
    Sound-ne_stuck signed_per_cent _ (parse_trimmed-Sound signed_per_cent (trim_space text))

-- RealEnergy is passed on to the encoder, as it is, exactly if its value is in [0, 2 ^ 48 - 1], and
-- SignedRealEnergy exactly if its value is in [-2 ^ 47, 2 ^ 47 - 1].
pub marshal_energy_iff :
    (r : Energy)
    → ((marshal_real_energy r ≡ ok r) ↔ ((pos 0 ≤ℤ r.value) × (r.value ≤ℤ pos (2 ^ 48 - 1))))
      × ((marshal_signed_real_energy r ≡ ok r)
          ↔ ((negsuc (2 ^ 47 - 1) ≤ℤ r.value) × (r.value ≤ℤ pos (2 ^ 47 - 1))))
unfolding marshal_real_energy marshal_signed_real_energy
marshal_energy_iff r = (
  ((λ e. (ground arith, ground arith)), (λ h. ground arith)),
  ((λ e. (ground arith, ground arith)), (λ h. ground arith)),
)
