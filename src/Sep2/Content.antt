-- ===== src/Sep2/Content.antt =====
-- pkg/sep2/der_mode_types.go: the strict readers of element content, `simpleText` and
-- `decodeChildren`, and `requireJSON`.
pub mod Sound
pub mod Uint
use Prim.Native.String.{String}
use text.Mathlib.Text.{◌==◌}
use ieee_2030_5_core_go.Prelude.{
  ℕ, zero, suc, Bool, true, false, not, List, [], ◌∷◌, ◌++◌, if◌then◌else◌, Text, length,
}
use ieee_2030_5_core_go.Golang.Strings.{trim_space}
use ieee_2030_5_core_go.Golang.Strconv.{Parsed, parsed, failed, parse_uint}
use ieee_2030_5_core_go.Golang.Xml.{
  Token, start_element, end_element, char_data, other_token, XmlName, Decoder,
}
use ieee_2030_5_core_go.Sep2.Result.{
  bad_token, bad_number, unexpected_child, unexpected_element, wrong_namespace, missing_element,
  unexpected_text, missing_field, Result, ok, err, stuck, ◌>>=◌,
}

-- `simpleText`, with the text read so far: the text, and the tokens behind the end tag.
unfoldable pub simple_text : Text → Decoder → Result (Text × Decoder)
simple_text text [] = err bad_token
simple_text text (start_element n attrs ∷ d) = err (unexpected_child n.local)
simple_text text (char_data t ∷ d) = simple_text (text ++ t) d
simple_text text (end_element n ∷ d) = ok (text, d)
simple_text text (other_token ∷ d) = simple_text text d

-- The two checks on a start tag, `want` being the names that are still to come; the names behind.
expect_child : String → XmlName → List String → Result (List String)
expect_child ns n [] = err (unexpected_element n.local)
expect_child ns n (w ∷ want) =
    if not (n.local == w)
    then err (unexpected_element n.local)
    else if not (n.space == ns)
    then err (wrong_namespace n.local)
    else ok want

refuse_text : Text → Result (Unit {0})
refuse_text [] = ok tt
refuse_text (c ∷ t) = err (unexpected_text (c ∷ t))

expect_none : List String → Result (Unit {0})
expect_none [] = ok tt
expect_none (w ∷ want) = err (missing_element w)

-- The loop of `decodeChildren` in the namespace `ns` of the start tag. The state `s` is what the
-- callback `set` captures.
unfoldable pub children_loop {ℓ} :
    {S : Type ℓ}
    → ℕ
    → String
    → List String
    → (String → Text → S → Result S)
    → S
    → Decoder
    → Result (S × Decoder)
unfolding simple_text expect_child refuse_text expect_none
children_loop zero ns want set s d = stuck
children_loop (suc fuel) ns want set s [] = err bad_token
children_loop (suc fuel) ns want set s (start_element n attrs ∷ d) = do
  behind ← expect_child ns n want
  (text, rest) ← simple_text [] d
  s' ← set n.local text s
  children_loop fuel ns behind set s' rest
children_loop (suc fuel) ns want set s (char_data t ∷ d) = do
  u ← refuse_text (trim_space t)
  children_loop fuel ns want set s d
children_loop (suc fuel) ns want set s (end_element n ∷ d) = do u ← expect_none want; ok (s, d)
children_loop (suc fuel) ns want set s (other_token ∷ d) = children_loop fuel ns want set s d

-- Every round takes a token.
unfoldable pub decode_children {ℓ} :
    {S : Type ℓ}
    → String
    → List String
    → (String → Text → S → Result S)
    → S
    → Decoder
    → Result (S × Decoder)
unfolding children_loop
decode_children ns want set s d = children_loop (suc (length d)) ns want set s d

wrap_uint : Parsed ℕ → Result ℕ
wrap_uint (parsed n) = ok n
wrap_uint (failed e) = err (bad_number e)

-- `parseUint`.
unfoldable pub parse_uint_text : Text → ℕ → Result ℕ
unfolding wrap_uint
parse_uint_text text bits = wrap_uint (parse_uint (trim_space text) 10 bits)

-- `requireJSON`: the name of a field, and whether it is missing.
unfoldable pub require_json : List (String × Bool) → Result (Unit {0})
require_json [] = ok tt
require_json ((name, missing) ∷ fields) =
    if missing then err (missing_field name) else require_json fields
