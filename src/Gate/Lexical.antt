-- ===== src/Gate/Lexical.antt =====
-- internal/xsdgate/lexical.go and resolveBuiltin of schema.go: simple types and the check of a
-- value's text. A value is the list of its code points; `byte_length` is Go's `len`.
pub mod Resolve
pub mod HexText
pub mod Decimal
use Prim.Native.String.{String}
use text.Mathlib.Text.{◌==◌ as str_eq}
use ieee_2030_5_core_go.Prelude.{
  ℕ, zero, suc, ◌+◌, ◌-◌, ◌/◌, ◌%◌, ◌^◌, Bool, true, false, not, ◌&&◌, ◌||◌, List, [], ◌∷◌, Option,
  none, some, leb, ltb, ◌==◌, if◌then◌else◌, Text, length,
}
use ieee_2030_5_core_go.Prelude.Int.{ℤ, pos, negsuc, ltb_ℤ}
use ieee_2030_5_core_go.Golang.Strings.{trim_space}
use ieee_2030_5_core_go.Golang.Strconv.{Parsed, parsed, failed, parse_int, parse_uint}
use ieee_2030_5_core_go.Gate.Table.{lookup, mem_name}

-- `xsdIntRange`.
pub data XsdIntRange : Type 0 where
  signed : ℤ → ℤ → XsdIntRange
  unsigned : ℕ → XsdIntRange

abbrev pub xsd_int_ranges : List (String × XsdIntRange)
xsd_int_ranges =
    ("byte", signed (negsuc (2 ^ 7 - 1)) (pos (2 ^ 7 - 1)))
    ∷ ("short", signed (negsuc (2 ^ 15 - 1)) (pos (2 ^ 15 - 1)))
    ∷ ("int", signed (negsuc (2 ^ 31 - 1)) (pos (2 ^ 31 - 1)))
    ∷ ("long", signed (negsuc (2 ^ 63 - 1)) (pos (2 ^ 63 - 1)))
    ∷ ("unsignedByte", unsigned (2 ^ 8 - 1))
    ∷ ("unsignedShort", unsigned (2 ^ 16 - 1))
    ∷ ("unsignedInt", unsigned (2 ^ 32 - 1))
    ∷ ("unsignedLong", unsigned (2 ^ 64 - 1))
    ∷ []

is_some {ℓ} : {A : Type ℓ} → Option A → Bool
is_some none = false
is_some (some a) = true

unfoldable pub is_xsd_builtin : String → Bool
unfolding is_some
is_xsd_builtin name =
    is_some (lookup name xsd_int_ranges)
    || mem_name name
        ("hexBinary" ∷ "string" ∷ "boolean" ∷ "anyURI" ∷ "decimal" ∷ "float" ∷ "double" ∷ [])

-- `SimpleType`; a negative maxLength is none.
pub record SimpleType : Type 0 where
  pub name : String
  pub base : String
  pub max_length : ℤ

unfoldable pub tighter : ℤ → ℤ → ℤ
tighter max_len own =
    if not (ltb_ℤ own (pos 0)) && (ltb_ℤ max_len (pos 0) || ltb_ℤ own max_len) then own else max_len

bottom_of : String → ℤ → String × ℤ
bottom_of name max_len = if is_xsd_builtin name then (name, max_len) else ("", max_len)

resolve_type :
    Option SimpleType → String → ℤ → (SimpleType → Option (String × ℤ)) → Option (String × ℤ)
unfolding bottom_of
resolve_type none name max_len next = some (bottom_of name max_len)
resolve_type (some st) name max_len next = next st

-- The loop of `resolveBuiltin`; `none` is a loop that runs out of fuel.
unfoldable pub resolve_loop :
    ℕ → List (String × SimpleType) → List String → String → ℤ → Option (String × ℤ)
unfolding resolve_type
resolve_loop zero types seen name max_len = none
resolve_loop (suc fuel) types seen name max_len =
    if mem_name name seen
    then some ("", max_len)
    else resolve_type (lookup name types) name max_len
        λ st. resolve_loop fuel types (name ∷ seen) st.base (tighter max_len st.max_length)

-- Each round but the last looks up another of the types.
unfoldable pub resolve_builtin : List (String × SimpleType) → String → Option (String × ℤ)
resolve_builtin types type_name = resolve_loop (suc (length types)) types [] type_name (negsuc 0)

-- What a check finds, in place of the message; `fine` is the empty one.
pub data Verdict : Type 0 where
  fine odd_digits not_hex too_long not_boolean spaces not_an_integer outside stuck : Verdict

-- The bytes of a character's UTF-8 form.
rune_len : ℕ → ℕ
rune_len c = if ltb c 0x80 then 1 else if ltb c 0x800 then 2 else if ltb c 0x10000 then 3 else 4

unfoldable pub byte_length : Text → ℕ
unfolding rune_len
byte_length [] = 0
byte_length (c ∷ s) = rune_len c + byte_length s

is_hex : ℕ → Bool
is_hex c = (leb b'0' c && leb c b'9') || (leb b'a' c && leb c b'f') || (leb b'A' c && leb c b'F')

all_hex : Text → Bool
unfolding is_hex
all_hex [] = true
all_hex (c ∷ s) = if not (is_hex c) then false else all_hex s

is_empty : Text → Bool
is_empty [] = true
is_empty (c ∷ s) = false

unfoldable pub check_hex_binary : Text → ℤ → Verdict
unfolding all_hex is_empty
check_hex_binary value max_len =
    if is_empty value
    then fine
    else if not (byte_length value % 2 == 0)
    then odd_digits
    else if not (all_hex value)
    then not_hex
    else if not (ltb_ℤ max_len (pos 0)) && ltb_ℤ max_len (pos (byte_length value / 2))
    then too_long
    else fine

text_eq : Text → Text → Bool
text_eq [] [] = true
text_eq [] (d ∷ t) = false
text_eq (c ∷ s) [] = false
text_eq (c ∷ s) (d ∷ t) = (c == d) && text_eq s t

check_signed : Parsed ℤ → ℤ → ℤ → Verdict
check_signed (failed e) min max = not_an_integer
check_signed (parsed n) min max = if ltb_ℤ n min || ltb_ℤ max n then outside else fine

check_unsigned : Parsed ℕ → ℕ → Verdict
check_unsigned (failed e) umax = not_an_integer
check_unsigned (parsed n) umax = if ltb umax n then outside else fine

in_range : XsdIntRange → Text → Verdict
unfolding check_signed check_unsigned
in_range (signed min max) value = check_signed (parse_int value 10 64) min max
in_range (unsigned umax) value = check_unsigned (parse_uint value 10 64) umax

check_integer : Option XsdIntRange → Text → Verdict
unfolding in_range text_eq is_empty
check_integer none value = fine
check_integer (some r) value =
    if not (text_eq (trim_space value) value) || is_empty value then spaces else in_range r value

is_boolean : Text → Bool
unfolding text_eq
is_boolean value =
    text_eq value (b't' ∷ b'r' ∷ b'u' ∷ b'e' ∷ [])
    || text_eq value (b'f' ∷ b'a' ∷ b'l' ∷ b's' ∷ b'e' ∷ [])
    || text_eq value (b'0' ∷ [])
    || text_eq value (b'1' ∷ [])

-- `checkLexical` behind `resolveBuiltin`.
unfoldable pub check_builtin : Option (String × ℤ) → Text → Verdict
unfolding is_boolean check_integer
check_builtin none value = stuck
check_builtin (some (builtin, max_len)) value =
    if str_eq builtin ""
    then fine
    else if str_eq builtin "hexBinary"
    then check_hex_binary value max_len
    else if str_eq builtin "boolean"
    then (if is_boolean value then fine else not_boolean)
    else if mem_name builtin ("string" ∷ "anyURI" ∷ "decimal" ∷ "float" ∷ "double" ∷ [])
    then fine
    else check_integer (lookup builtin xsd_int_ranges) value

-- `checkLexical`, on the schema's simple types.
unfoldable pub check_lexical : List (String × SimpleType) → String → Text → Verdict
check_lexical types type_name value = check_builtin (resolve_builtin types type_name) value
