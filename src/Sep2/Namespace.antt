-- ===== src/Sep2/Namespace.antt =====
-- pkg/sep2/encoding/namespace.go: the choice of the XML namespace from the Accept header. The media
-- type parser of mime and strconv.ParseFloat are parameters. A header line is the list of its code points.
pub mod Ranges
pub mod Levels
pub mod Splits
pub mod Detects
pub mod Buffered
use Prim.Native.String.{String}
use text.Mathlib.Text.{◌==◌ as str_eq}
use ieee_2030_5_core_go.Prelude.{
  ℕ, zero, suc, ◌-◌, Bool, true, false, not, ◌&&◌, ◌||◌, List, [], ◌∷◌, ◌++◌, Option, none, some,
  leb, ◌==◌, if◌then◌else◌, length, Text, codes,
}
use ieee_2030_5_core_go.Golang.Strings.{trim_space}
use ieee_2030_5_core_go.Golang.Strconv.{format_uint}
use ieee_2030_5_core_go.Gate.Table.{lookup}

pub data NamespaceMode : Type 0 where
  namespace2018 namespace2013 : NamespaceMode

abbrev pub max_media_ranges : ℕ
max_media_ranges = 32

-- Puts a code point in front of the range that is read.
before_part : ℕ → Text × Text → Text × Text
before_part c (part, rest) = (c ∷ part, rest)

-- The loop of `nextMediaRange`.
unfoldable pub range_loop : Bool → Text → Text × Text
unfolding before_part
range_loop in_quotes [] = ([], [])
range_loop in_quotes (c ∷ s) =
    let quoted = before_part c (range_loop (if c == b'"' then not in_quotes else in_quotes) s) in
    if (c == b',') && not in_quotes then ([], s) else quoted

unfoldable pub next_media_range : Text → Text × Text
next_media_range s = range_loop false s

unfoldable pub is_sep_media_type : String → Bool
is_sep_media_type media_type =
    str_eq media_type "application/sep+xml" || str_eq media_type "application/sep-exi"

-- The letter that `strings.EqualFold` compares, of the letters of an ASCII word.
unfoldable pub fold_rune : ℕ → ℕ
fold_rune c =
    if leb b'a' c && leb c b'z'
    then c - 32
    else if c == 0x17F
    then b'S'
    else if c == 0x212A
    then b'K'
    else c

unfoldable pub equal_fold : Text → Text → Bool
unfolding fold_rune
equal_fold [] [] = true
equal_fold [] (d ∷ t) = false
equal_fold (c ∷ s) [] = false
equal_fold (c ∷ s) (d ∷ t) = (fold_rune c == fold_rune d) && equal_fold s t

unfoldable pub is_level : Option Text → Text → Text → Bool
unfolding equal_fold
is_level none minus plus = false
is_level (some level) minus plus = equal_fold level minus || equal_fold level plus

-- `sawS1` and `sawS0`.
pub record Saw : Type 0 where
  pub s1 : Bool
  pub s0 : Bool

module _ {F : Type 0} (parse_media_type : Text → Option (String × List (String × Text)))
    (parse_float : Text → Option F) (float_is_zero : F → Bool) where
  -- `isZeroQuality`, on the entry of the parameters.
  is_zero_quality : Option Text → Bool
  is_zero_quality none = false
  is_zero_quality (some q) = go (parse_float q)
    where
      go : Option F → Bool
      go none = false
      go (some v) = float_is_zero v

  see_level : Option Text → Saw → Saw
  see_level level saw =
      if is_level level (codes "-S1") (codes "+S1")
      then record saw { s1 = true }
      else if is_level level (codes "-S0") (codes "+S0")
      then record saw { s0 = true }
      else saw

  see_media : Option (String × List (String × Text)) → Saw → Saw
  unfolding is_zero_quality see_level
  see_media none saw = saw
  see_media (some (media_type, params)) saw =
      if not (is_sep_media_type media_type)
      then saw
      else if is_zero_quality (lookup "q" params)
      then saw
      else see_level (lookup "level" params) saw

  -- The body of the inner loop behind `nextMediaRange`.
  unfoldable pub see_range : Text → Saw → Saw
  unfolding see_media
  see_range part saw = see_media (parse_media_type (trim_space part)) saw

  -- The inner loop; the number is how many ranges may still be counted.
  unfoldable pub line_loop : ℕ → Text → Saw → ℕ × Saw
  line_loop zero rest saw = (zero, saw)
  line_loop (suc budget) [] saw = (suc budget, saw)
  line_loop (suc budget) (c ∷ rest) saw =
      let next = next_media_range (c ∷ rest) in line_loop budget next.1 (see_range next.0 saw)

  unfoldable pub lines_loop : ℕ → List Text → Saw → Saw
  lines_loop budget [] saw = saw
  lines_loop budget (line ∷ lines) saw =
      let r = line_loop budget line saw in lines_loop r.0 lines r.1

  -- `DetectNamespace`, on the values of the Accept header.
  unfoldable pub detect_namespace : List Text → NamespaceMode
  detect_namespace lines =
      let saw = lines_loop max_media_ranges lines (record { s1 = false; s0 = false }) in
      if saw.s0 && not saw.s1 then namespace2013 else namespace2018
