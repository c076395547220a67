-- ===== src/Sep2/HexBinary/RoundTrip.antt =====
-- Lemmas on hexBinaryText and hexBinaryValue of pkg/sep2/hexbinary.go.
use ieee_2030_5_core_go.Prelude.{
  ℕ, ◌%◌, ◌^◌, ◌≤◌, ◌<◌, false, List, [], ◌∷◌, map, ◌≡◌, ◌≢◌, refl, sym, ap, ◌∙◌, arith, ◌==◌,
  if◌then◌else◌, Text, All, length, length-map, inl, inr, Bool-cases, some, ◌⊎◌,
}
use ieee_2030_5_core_go.Golang.Strings.{is_space, to_upper, NoSpace, trim_space-NoSpace}
use ieee_2030_5_core_go.Golang.Strconv.{
  parsed, digit_char, char_digit, digits_onto, format_uint, parse_uint,
}
use ieee_2030_5_core_go.Golang.Strconv.Uint.{
  value, sixteen, value-digits_onto, digits_onto-lt, digits_onto-ne_nil, parse_loop-value,
  parse_uint-ne_nil, map-ne_nil,
}
use ieee_2030_5_core_go.Sep2.HexBinary.{
  ok, HexWidth, hex_binary8, hex_binary16, hex_binary32, hex_binary64, hex_bits, pad_even,
  hex_binary_text, hex_value_of, wrap_num_error, hex_binary_value,
}

-- The upper-case digit of a number below 16.
pub upper_digit : ℕ → ℕ
upper_digit d = to_upper (digit_char d)

-- The digits of `v`, with the zero in front that makes their number even.
unfoldable pub even_digits : ℕ → List ℕ
even_digits v = let ds = digits_onto 63 16 v [] in if length ds % 2 == 0 then ds else 0 ∷ ds

map-map : (f g : ℕ → ℕ) (s : List ℕ) → map f (map g s) ≡ map (λ d. f (g d)) s
map-map f g [] = refl
map-map f g (d ∷ s) = ap (◌∷◌ (f (g d))) (map-map f g s)

pub hex_binary_text-even_digits : (v : ℕ) → hex_binary_text v ≡ map upper_digit (even_digits v)
unfolding hex_binary_text even_digits upper_digit format_uint
hex_binary_text-even_digits v =
    let ds = digits_onto 63 16 v [] in
    ap pad_even (map-map to_upper digit_char ds) ∙ pad_even-map ds
  where
    zero_digit : upper_digit 0 ≡ b'0'
    zero_digit = unfold to_upper digit_char in refl

    pad_even-map :
        (ds : List ℕ)
        → pad_even (map upper_digit ds)
          ≡ map upper_digit (if length ds % 2 == 0 then ds else 0 ∷ ds)
    pad_even-map ds = rw (length-map upper_digit ds) (elim (Bool-cases (length ds % 2 == 0)) [
      | inl even ↦ rw even
      | inr odd ↦ rw odd (ap (λ c. c ∷ map upper_digit ds) (sym zero_digit))
    ])

upper_digit-reads : (d : ℕ) → d < 16 → char_digit (upper_digit d) ≡ some d
unfolding upper_digit to_upper digit_char char_digit
upper_digit-reads d h = ground arith

pub even_digits-lt : (v : ℕ) → v < 2 ^ 64 → All (λ d. d < 16) (even_digits v)
unfolding even_digits
even_digits-lt v h = elim (Bool-cases (length (digits_onto 63 16 v []) % 2 == 0)) [
  | inl even ↦ rw even (digits_onto-lt sixteen 63 v [] h (omega arith) tt)
  | inr odd ↦ rw odd (omega arith, digits_onto-lt sixteen 63 v [] h (omega arith) tt)
]

value-even_digits : (v : ℕ) → value 16 0 (even_digits v) ≡ v
unfolding even_digits
value-even_digits v = elim (Bool-cases (length (digits_onto 63 16 v []) % 2 == 0)) [
  | inl even ↦ rw even (value-digits_onto sixteen 63 v [])
  | inr odd ↦ rw odd (value-digits_onto sixteen 63 v [])
]

pub even_digits-even : (v : ℕ) → length (even_digits v) % 2 ≡ 0
unfolding even_digits
even_digits-even v = ground arith

pub even_digits-ne_nil : (v : ℕ) → even_digits v ≢ []
unfolding even_digits
even_digits-ne_nil v = elim (Bool-cases (length (digits_onto 63 16 v []) % 2 == 0)) [
  | inl even ↦ rw even (digits_onto-ne_nil 63 16 v [])
  | inr odd ↦ rw odd (λ e. cc)
]

-- The characters of the uppercase form.
abbrev pub IsUpperHex : ℕ → Type 0
IsUpperHex c = ((48 ≤ c) × (c ≤ 57)) ⊎ ((65 ≤ c) × (c ≤ 70))

upper_digit-IsUpperHex : (d : ℕ) → d < 16 → IsUpperHex (upper_digit d)
unfolding upper_digit to_upper digit_char
upper_digit-IsUpperHex d h = ground arith

All-map :
    (P : ℕ → Type 0) (f : ℕ → ℕ) (ds : List ℕ)
    → ((d : ℕ) → d < 16 → P (f d))
    → All (λ d. d < 16) ds
    → All P (map f ds)
All-map P f [] h low = tt
All-map P f (d ∷ ds) h low = (h d low.0, All-map P f ds h low.1)

-- The text of a uint64 is not empty, has an even number of characters, and each is a decimal
-- digit or one of the letters A to F.
pub hex_binary_text_shape :
    (v : ℕ)
    → v < 2 ^ 64
    → (hex_binary_text v ≢ [])
      × (length (hex_binary_text v) % 2 ≡ 0)
      × All IsUpperHex (hex_binary_text v)
hex_binary_text_shape v h = rw (hex_binary_text-even_digits v) (
  map-ne_nil upper_digit _ (even_digits-ne_nil v),
  rw (length-map upper_digit (even_digits v)) (even_digits-even v),
  All-map IsUpperHex upper_digit _ upper_digit-IsUpperHex (even_digits-lt v h),
)

IsUpperHex-no_space : (d : ℕ) → d < 16 → is_space (upper_digit d) ≡ false
unfolding upper_digit to_upper digit_char is_space
IsUpperHex-no_space d h = ground arith

hex_binary_text-NoSpace : (v : ℕ) → v < 2 ^ 64 → NoSpace (hex_binary_text v)
hex_binary_text-NoSpace v h =
    rw (hex_binary_text-even_digits v)
      (All-map _ upper_digit _ IsUpperHex-no_space (even_digits-lt v h))

parse_uint-hex_binary_text :
    (v bits : ℕ) → v < 2 ^ bits → v < 2 ^ 64 → parse_uint (hex_binary_text v) 16 bits ≡ parsed v
parse_uint-hex_binary_text v bits fits h = rw (hex_binary_text-even_digits v) (
    parse_uint-ne_nil _ 16 bits (map-ne_nil upper_digit _ (even_digits-ne_nil v))
    ∙ parse_loop-value sixteen upper_digit bits 0 (even_digits v) upper_digit-reads
        (even_digits-lt v h) (rw (value-even_digits v) fits)
    ∙ ap parsed (value-even_digits v))

hex_value_of-parsed :
    (s : Text) (bits : ℕ) {v : ℕ} → parse_uint s 16 bits ≡ parsed v → hex_value_of s bits ≡ ok v
unfolding hex_value_of wrap_num_error parse_uint
hex_value_of-parsed [] bits e = cc
hex_value_of-parsed (c ∷ s) bits {v} e = rw e

-- `hexBinaryValue` inverts `hexBinaryText` on every value of the width asked for.
pub hex_binary_value-hex_binary_text :
    (v bits : ℕ) → v < 2 ^ bits → v < 2 ^ 64 → hex_binary_value (hex_binary_text v) bits ≡ ok v
unfolding hex_binary_value
hex_binary_value-hex_binary_text v bits fits h =
    rw (trim_space-NoSpace (hex_binary_text v) (hex_binary_text-NoSpace v h))
      (hex_value_of-parsed _ bits (parse_uint-hex_binary_text v bits fits h))

pub hex_bits-le : (w : HexWidth) (v : ℕ) → v < 2 ^ hex_bits w → v < 2 ^ 64
hex_bits-le hex_binary8 v h = omega arith
hex_bits-le hex_binary16 v h = omega arith
hex_bits-le hex_binary32 v h = omega arith
hex_bits-le hex_binary64 v h = omega arith
