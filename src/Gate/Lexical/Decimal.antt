-- ===== src/Gate/Lexical/Decimal.antt =====
-- Theorems on checkLexical of internal/xsdgate/lexical.go and the encoders of pkg/sep2/power.go
-- and event.go.
use Prim.Native.String.{String}
use ieee_2030_5_core_go.Prelude.{
  ℕ, ◌-◌, ◌^◌, ◌<◌, true, false, [], ◌∷◌, some, ltb, Text, ◌≡◌, ◌≢◌, refl, ◌∙◌, arith,
}
use ieee_2030_5_core_go.Prelude.Int.{ℤ, pos, negsuc, ◌≤ℤ◌}
use ieee_2030_5_core_go.Golang.Strings.{trim_space-NoSpace}
use ieee_2030_5_core_go.Golang.Strconv.{format_int}
use ieee_2030_5_core_go.Golang.Strconv.Uint.{ten, parse_uint-format_uint}
use ieee_2030_5_core_go.Golang.Strconv.Int.{
  parse_int-format_int, format_int-NoSpace, format_int-ne_nil,
}
use ieee_2030_5_core_go.Sep2.Result.{ok}
use ieee_2030_5_core_go.Sep2.Bounded.{
  BoundedType, per_cent, signed_per_cent, one_hour_range, marshal_xml,
}
use ieee_2030_5_core_go.Sep2.Bounded.Laws.{InRange, InRange-int64, marshal-InRange}
use ieee_2030_5_core_go.Gate.Table.{lookup, mem_name}
use ieee_2030_5_core_go.Gate.Lexical.{
  fine, XsdIntRange, signed, unsigned, check_builtin, check_integer, in_range, check_signed,
  check_unsigned, text_eq, is_empty,
}

-- The built-in type that sep.xsd restricts for each.
abbrev pub builtin_of : BoundedType → String
builtin_of per_cent = "unsignedShort"
builtin_of signed_per_cent = "short"
builtin_of one_hour_range = "short"

text_eq_self : (s : Text) → text_eq s s ≡ true
unfolding text_eq
text_eq_self [] = refl
text_eq_self (c ∷ s) = ground (arith, text_eq_self s)

is_empty_lem : (s : Text) → s ≢ [] → is_empty s ≡ false
unfolding is_empty
is_empty_lem [] h = absurd (h refl)
is_empty_lem (c ∷ s) h = refl

check_integer-format_int :
    (r : XsdIntRange) (v : ℤ)
    → negsuc (2 ^ 63 - 1) ≤ℤ v
    → v ≤ℤ pos (2 ^ 63 - 1)
    → check_integer (some r) (format_int v 10) ≡ in_range r (format_int v 10)
unfolding check_integer
check_integer-format_int r v low high =
    rw (trim_space-NoSpace _ (format_int-NoSpace v low high))
      (rw (text_eq_self (format_int v 10), is_empty_lem (format_int v 10) (format_int-ne_nil v)))

in_range-signed :
    (min max v : ℤ)
    → negsuc (2 ^ 63 - 1) ≤ℤ v
    → v ≤ℤ pos (2 ^ 63 - 1)
    → min ≤ℤ v
    → v ≤ℤ max
    → in_range (signed min max) (format_int v 10) ≡ fine
unfolding in_range check_signed
in_range-signed min max v low high a b = rw (parse_int-format_int v low high) (ground arith)

in_range-unsigned :
    (umax n : ℕ)
    → n < 2 ^ 64
    → ltb umax n ≡ false
    → in_range (unsigned umax) (format_int (pos n) 10) ≡ fine
unfolding in_range check_unsigned format_int
in_range-unsigned umax n fits low =
    rw (parse_uint-format_uint ten 64 n (omega arith) fits fits) (rw low)

checked :
    (t : BoundedType) (v m : ℤ)
    → InRange t v
    → check_builtin (some (builtin_of t, m)) (format_int v 10) ≡ fine
unfolding check_builtin lookup mem_name
checked per_cent (pos n) m h =
    check_integer-format_int (unsigned (2 ^ 16 - 1)) (pos n) (InRange-int64 per_cent (pos n) h).0
      (InRange-int64 per_cent (pos n) h).1
    ∙ in_range-unsigned (2 ^ 16 - 1) n (omega arith) (ground arith)
checked per_cent (negsuc n) m h = absurd (omega arith)
checked signed_per_cent v m h =
    let (low, high) = InRange-int64 signed_per_cent v h in
    check_integer-format_int (signed (negsuc (2 ^ 15 - 1)) (pos (2 ^ 15 - 1))) v low high
    ∙ in_range-signed (negsuc (2 ^ 15 - 1)) (pos (2 ^ 15 - 1)) v low high (omega arith)
        (omega arith)
checked one_hour_range v m h =
    let (low, high) = InRange-int64 one_hour_range v h in
    check_integer-format_int (signed (negsuc (2 ^ 15 - 1)) (pos (2 ^ 15 - 1))) v low high
    ∙ in_range-signed (negsuc (2 ^ 15 - 1)) (pos (2 ^ 15 - 1)) v low high (omega arith)
        (omega arith)

-- For a value in the range of PerCent, SignedPerCent or OneHourRange: MarshalXML writes a text that
-- the gate's check accepts for the built-in integer type that the schema restricts, unsignedShort
-- or short, at any maxLength.
pub check_builtin-marshal_xml :
    (t : BoundedType) (v m : ℤ)
    → InRange t v
    → (text : Text) × (marshal_xml t v ≡ ok text)
      × (check_builtin (some (builtin_of t, m)) text ≡ fine)
check_builtin-marshal_xml t v m h = (format_int v 10, (marshal-InRange t v h).1, checked t v m h)
