-- ===== src/Sep2/Bounded.antt =====
-- pkg/sep2/power.go and event.go: the bounded integer types PerCent, SignedPerCent and OneHourRange.
-- pkg/sep2/power_status.go: the range guards of RealEnergy and SignedRealEnergy.
pub mod Laws
use Prim.Native.Nat.{pred}
use ieee_2030_5_core_go.Prelude.{
  ℕ, zero, suc, ◌+◌, ◌-◌, ◌%◌, ◌^◌, Bool, ◌||◌, List, [], ◌∷◌, ◌++◌, Option, none, some, ltb,
  if◌then◌else◌, Text,
}
use ieee_2030_5_core_go.Prelude.Int.{ℤ, pos, negsuc, ltb_ℤ}
use ieee_2030_5_core_go.Golang.Strings.{trim_space}
use ieee_2030_5_core_go.Golang.Strconv.{Parsed, parsed, failed, parse_int, format_int}
use ieee_2030_5_core_go.Golang.Xml.{Decoder}
use ieee_2030_5_core_go.Sep2.Content.{simple_text}
use ieee_2030_5_core_go.Sep2.Result.{
  Error, bad_token, bad_json, empty_scalar, bad_number, out_of_range, unexpected_child, Result, ok,
  err, assign, ◌>>=◌, ◌>>◌,
}

-- Go's conversions of an int64 to int16 and to uint16.
unfoldable pub to_int16 : ℤ → ℤ
to_int16 (pos n) = let r = n % 2 ^ 16 in if ltb r (2 ^ 15) then pos r else negsuc (2 ^ 16 - 1 - r)
to_int16 (negsuc n) =
    let r = 2 ^ 16 - 1 - n % 2 ^ 16 in if ltb r (2 ^ 15) then pos r else negsuc (2 ^ 16 - 1 - r)

unfoldable pub to_uint16 : ℤ → ℤ
to_uint16 (pos n) = pos (n % 2 ^ 16)
to_uint16 (negsuc n) = pos (2 ^ 16 - 1 - n % 2 ^ 16)

unfoldable pub check_bounded : ℤ → ℤ → ℤ → Result (Unit {0})
check_bounded n lo hi = if ltb_ℤ n lo || ltb_ℤ hi n then err (out_of_range n lo hi) else ok tt

unfoldable pub narrow_int16 : ℤ → ℤ → ℤ → Result ℤ
unfolding check_bounded to_int16
narrow_int16 n lo hi = do
  check_bounded n lo hi
  if ltb_ℤ n (negsuc (2 ^ 15 - 1)) || ltb_ℤ (pos (2 ^ 15 - 1)) n
      then err (out_of_range n lo hi)
      else ok (to_int16 n)

unfoldable pub narrow_uint16 : ℤ → ℤ → ℤ → Result ℤ
unfolding check_bounded to_uint16
narrow_uint16 n lo hi = do
  check_bounded n lo hi
  if ltb_ℤ n (pos 0) || ltb_ℤ (pos (2 ^ 16 - 1)) n
      then err (out_of_range n lo hi)
      else ok (to_uint16 n)

abbrev pub NarrowFunc : Type 0
NarrowFunc = ℤ → ℤ → ℤ → Result ℤ

wrap_parsed : Parsed ℤ → Result ℤ
wrap_parsed (parsed n) = ok n
wrap_parsed (failed e) = err (bad_number e)

parse_trimmed : Text → ℤ → ℤ → NarrowFunc → Result ℤ
parse_trimmed [] lo hi narrow = err empty_scalar
parse_trimmed (c ∷ s) lo hi narrow = do n ← wrap_parsed (parse_int (c ∷ s) 10 64); narrow n lo hi

unfoldable pub parse_bounded : Text → ℤ → ℤ → NarrowFunc → Result ℤ
unfolding parse_trimmed wrap_parsed
parse_bounded text lo hi narrow = parse_trimmed (trim_space text) lo hi narrow

-- The decoder stands behind the start tag.
unfoldable pub decode_bounded_xml : Decoder → ℤ → ℤ → NarrowFunc → Result (ℤ × Decoder)
unfolding simple_text parse_bounded
decode_bounded_xml d lo hi narrow = do
  (text, rest) ← simple_text [] d
  v ← parse_bounded text lo hi narrow
  ok (v, rest)

-- On what `json.Unmarshal` read into an int64: `none` if it returned an error.
unfoldable pub decode_bounded_json : Option ℤ → ℤ → ℤ → NarrowFunc → Result ℤ
decode_bounded_json none lo hi narrow = err bad_json
decode_bounded_json (some n) lo hi narrow = narrow n lo hi

-- The three types, with the bounds and the narrowing that their methods pass on.
pub data BoundedType : Type 0 where
  per_cent signed_per_cent one_hour_range : BoundedType

abbrev pub lower_bound : BoundedType → ℤ
lower_bound per_cent = pos 0
lower_bound signed_per_cent = negsuc 9999
lower_bound one_hour_range = negsuc 3599

abbrev pub upper_bound : BoundedType → ℤ
upper_bound per_cent = pos 10000
upper_bound signed_per_cent = pos 10000
upper_bound one_hour_range = pos 3600

abbrev pub narrow_of : BoundedType → NarrowFunc
narrow_of per_cent = narrow_uint16
narrow_of signed_per_cent = narrow_int16
narrow_of one_hour_range = narrow_int16

drop_rest : Result (ℤ × Decoder) → Result ℤ
drop_rest r = r >>= λ p. ok p.0

unfoldable pub unmarshal_xml : BoundedType → ℤ → Decoder → ℤ × Result (Unit {0})
unfolding decode_bounded_xml drop_rest
unmarshal_xml t old d =
    assign old (drop_rest (decode_bounded_xml d (lower_bound t) (upper_bound t) (narrow_of t)))

-- The text of the element that `MarshalXML` encodes.
unfoldable pub marshal_xml : BoundedType → ℤ → Result Text
unfolding check_bounded
marshal_xml t v = do check_bounded v (lower_bound t) (upper_bound t); ok (format_int v 10)

unfoldable pub unmarshal_json : BoundedType → ℤ → Option ℤ → ℤ × Result (Unit {0})
unfolding decode_bounded_json
unmarshal_json t old n =
    assign old (decode_bounded_json n (lower_bound t) (upper_bound t) (narrow_of t))

-- The integer that `MarshalJSON` encodes.
unfoldable pub marshal_json : BoundedType → ℤ → Result ℤ
unfolding check_bounded
marshal_json t v = do check_bounded v (lower_bound t) (upper_bound t); ok v

unfoldable pub parse_signed_per_cent : Text → Result ℤ
parse_signed_per_cent text = parse_bounded text (negsuc 9999) (pos 10000) narrow_int16

-- RealEnergy and SignedRealEnergy: the value of an element with a multiplier.
pub record Energy : Type 0 where
  pub multiplier : ℤ
  pub value : ℤ

-- The guard of `RealEnergy.MarshalXML`, and what it passes to the encoder.
unfoldable pub marshal_real_energy : Energy → Result Energy
marshal_real_energy r =
    if ltb_ℤ r.value (pos 0) || ltb_ℤ (pos (2 ^ 48 - 1)) r.value
    then err (out_of_range r.value (pos 0) (pos (2 ^ 48 - 1)))
    else ok r

-- The guard of `SignedRealEnergy.MarshalXML`.
unfoldable pub marshal_signed_real_energy : Energy → Result Energy
marshal_signed_real_energy s =
    if ltb_ℤ s.value (negsuc (2 ^ 47 - 1)) || ltb_ℤ (pos (2 ^ 47 - 1)) s.value
    then err (out_of_range s.value (negsuc (2 ^ 47 - 1)) (pos (2 ^ 47 - 1)))
    else ok s
