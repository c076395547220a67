-- ===== src/Golang/Strconv/Uint.antt =====
-- Lemmas on `ParseUint` and `FormatUint`.
use ieee_2030_5_core_go.Prelude.{
  ℕ, zero, suc, ◌+◌, ◌*◌, ◌/◌, ◌%◌, ◌^◌, ◌≤◌, ◌<◌, some, List, [], ◌∷◌, map, ◌≡◌, ◌≢◌, refl, ap,
  ◌∙◌, arith, inl, inr, Bool-cases, Option-cases, ltb→lt, ltb, Text, All,
}
use ieee_2030_5_core_go.Golang.Strconv.{
  parsed, digit_char, char_digit, digits_onto, format_uint, parse_loop, parse_uint,
}

-- The value of a list of digits, read after `n`.
abbrev pub value : ℕ → ℕ → List ℕ → ℕ
value base n [] = n
value base n (d ∷ ds) = value base (n * base + d) ds

-- What the proofs use of a base; the two bases of the code have it.
pub record IsBase (base : ℕ) : Type 0 where
  pub mod-lt-base : (v : ℕ) → v % base < base
  pub div_mod : (v : ℕ) → v / base * base + v % base ≡ v
  pub div-le-half : (v : ℕ) → v / base ≤ v / 2
  pub grows : (v : ℕ) → v ≤ v * base
  pub small : base ≤ 36

pub ten : IsBase 10
ten = record {
  mod-lt-base = λ v. omega arith;
  div_mod = λ v. omega arith;
  div-le-half = λ v. omega arith;
  grows = λ v. omega arith;
  small = omega arith;
}

pub sixteen : IsBase 16
sixteen = record {
  mod-lt-base = λ v. omega arith;
  div_mod = λ v. omega arith;
  div-le-half = λ v. omega arith;
  grows = λ v. omega arith;
  small = omega arith;
}

module _ {base : ℕ} (b : IsBase base) where
  pub value-digits_onto :
      (n v : ℕ) (acc : List ℕ) → value base 0 (digits_onto n base v acc) ≡ value base v acc
  unfolding digits_onto
  value-digits_onto zero v acc = ap (λ w. value base w acc) (omega arith)
  value-digits_onto (suc n) v acc = elim (Bool-cases (ltb v base)) [
    | inl small ↦ rw small (ap (λ w. value base w acc) (omega arith))
    | inr large ↦ rw large (
        value-digits_onto n (v / base) ((v % base) ∷ acc)
        ∙ ap (λ w. value base w acc) (b.div_mod v))
  ]

  -- The fuel suffices: every digit is below the base.
  pub digits_onto-lt :
      (n v : ℕ) (acc : List ℕ)
      → v < 2 ^ suc n
      → 2 ≤ base
      → All (λ d. d < base) acc
      → All (λ d. d < base) (digits_onto n base v acc)
  unfolding digits_onto
  digits_onto-lt zero v acc h two low = (omega arith, low)
  digits_onto-lt (suc n) v acc h two low = elim (Bool-cases (ltb v base)) [
    | inl small ↦ rw small (ltb→lt v base small, low)
    | inr large ↦ rw large (
        digits_onto-lt n (v / base) ((v % base) ∷ acc) (omega (arith, b.div-le-half v)) two
          (b.mod-lt-base v, low))
  ]

  le-value : (n : ℕ) (ds : List ℕ) → n ≤ value base n ds
  le-value n [] = omega arith
  le-value n (d ∷ ds) = omega (arith, b.grows n, le-value (n * base + d) ds)

  char_digit-digit_char : (d : ℕ) → d < base → char_digit (digit_char d) ≡ some d
  unfolding char_digit digit_char
  char_digit-digit_char d h = ground (arith, b.small)

  -- Digits whose value fits are read back, from any character that stands for them.
  pub parse_loop-value :
      (char : ℕ → ℕ) (bits n : ℕ) (ds : List ℕ)
      → ((d : ℕ) → d < base → char_digit (char d) ≡ some d)
      → All (λ d. d < base) ds
      → value base n ds < 2 ^ bits
      → parse_loop base bits n (map char ds) ≡ parsed (value base n ds)
  unfolding parse_loop
  parse_loop-value char bits n [] reads low fits = refl
  parse_loop-value char bits n (d ∷ ds) reads low fits = ground (
    arith,
    reads d low.0,
    low.0,
    le-value (n * base + d) ds,
    parse_loop-value char bits (n * base + d) ds reads low.1 fits,
  )

-- Whatever is parsed fits the width.
pub parse_loop-lt :
    (base bits n : ℕ) (s : Text) {v : ℕ}
    → n < 2 ^ bits
    → parse_loop base bits n s ≡ parsed v
    → v < 2 ^ bits
unfolding parse_loop
parse_loop-lt base bits n [] h e = ground arith
parse_loop-lt base bits n (c ∷ s) {v} h e = elim (Option-cases (char_digit c)) [
  | inl q ↦ ground (arith, q)
  | inr (d, q) ↦ ground (
    arith,
    q,
    λ (k : n * base + d < 2 ^ bits). parse_loop-lt base bits (n * base + d) s {v = v} k,
  )
]

pub two_pow-pos : (n : ℕ) → 0 < 2 ^ n
two_pow-pos zero = omega arith
two_pow-pos (suc n) = omega (arith, two_pow-pos n)

pub parse_uint-lt :
    (s : Text) (base bits : ℕ) {v : ℕ} → parse_uint s base bits ≡ parsed v → v < 2 ^ bits
unfolding parse_uint
parse_uint-lt [] base bits e = cc
parse_uint-lt (c ∷ s) base bits e = parse_loop-lt base bits 0 (c ∷ s) (two_pow-pos bits) e

-- A text that is not empty goes to the loop.
pub parse_uint-ne_nil :
    (s : Text) (base bits : ℕ) → s ≢ [] → parse_uint s base bits ≡ parse_loop base bits 0 s
unfolding parse_uint
parse_uint-ne_nil [] base bits h = absurd (h refl)
parse_uint-ne_nil (c ∷ s) base bits h = refl

pub digits_onto-ne_nil : (n base v : ℕ) (acc : List ℕ) → digits_onto n base v acc ≢ []
unfolding digits_onto
digits_onto-ne_nil zero base v acc = λ e. cc
digits_onto-ne_nil (suc n) base v acc = elim (Bool-cases (ltb v base)) [
  | inl small ↦ rw small (λ e. cc)
  | inr large ↦ rw large (digits_onto-ne_nil n base (v / base) ((v % base) ∷ acc))
]

pub map-ne_nil : (f : ℕ → ℕ) (s : List ℕ) → s ≢ [] → map f s ≢ []
map-ne_nil f [] h = absurd (h refl)
map-ne_nil f (c ∷ s) h = λ e. cc

module _ {base : ℕ} (b : IsBase base) where
  pub parse_uint-digits :
      (char : ℕ → ℕ) (bits v : ℕ)
      → ((d : ℕ) → d < base → char_digit (char d) ≡ some d)
      → 2 ≤ base
      → v < 2 ^ bits
      → v < 2 ^ 64
      → parse_uint (map char (digits_onto 63 base v [])) base bits ≡ parsed v
  parse_uint-digits char bits v reads two fits h =
      parse_uint-ne_nil _ base bits (map-ne_nil char _ (digits_onto-ne_nil 63 base v []))
      ∙ parse_loop-value b char bits 0 (digits_onto 63 base v []) reads
          (digits_onto-lt b 63 v [] h two tt) (rw (value-digits_onto b 63 v []) fits)
      ∙ ap parsed (value-digits_onto b 63 v [])

  -- `ParseUint` reads back what `FormatUint` writes.
  pub parse_uint-format_uint :
      (bits v : ℕ)
      → 2 ≤ base
      → v < 2 ^ bits
      → v < 2 ^ 64
      → parse_uint (format_uint v base) base bits ≡ parsed v
  unfolding format_uint
  parse_uint-format_uint bits v = parse_uint-digits digit_char bits v (char_digit-digit_char b)
