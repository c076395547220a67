-- ===== src/Golang/Strconv/Int.antt =====
-- Lemmas on `ParseInt` and `FormatInt`.
use ieee_2030_5_core_go.Prelude.{
  ℕ, zero, suc, ◌-◌, ◌^◌, ◌<◌, Bool, true, false, List, [], ◌∷◌, map, ◌≡◌, ◌≢◌, refl, ◌∙◌, arith,
  ◌==◌, Text, All, Bool-cases, inl, inr,
}
use ieee_2030_5_core_go.Prelude.Int.{ℤ, pos, negsuc, ◌≤ℤ◌}
use ieee_2030_5_core_go.Golang.Strconv.{
  Parsed, parsed, failed, digit_char, digits_onto, format_uint, parse_uint, signed_value, parse_int,
  format_int,
}
use ieee_2030_5_core_go.Golang.Strconv.Uint.{
  ten, parse_uint-format_uint, digits_onto-ne_nil, digits_onto-lt, map-ne_nil,
}
use ieee_2030_5_core_go.Golang.Strings.{is_space, NoSpace}

-- The first character of a decimal text is no sign.
head_digit : (d : ℕ) → d < 10 → ((digit_char d == b'+') ≡ false) × ((digit_char d == b'-') ≡ false)
unfolding digit_char
head_digit d h = ground arith

parse_int-no_sign :
    (s : Text) (ds : List ℕ)
    → s ≡ map digit_char ds
    → ds ≢ []
    → All (λ d. d < 10) ds
    → parse_int s 10 64 ≡ signed_value false (2 ^ 63) (parse_uint s 10 64)
unfolding parse_int
parse_int-no_sign [] [] e ne low = absurd (ne refl)
parse_int-no_sign (c ∷ s) [] e ne low = absurd (ne refl)
parse_int-no_sign [] (d ∷ ds) e ne low = cc
parse_int-no_sign (c ∷ s) (d ∷ ds) e ne low = ground (arith, head_digit d low.0)

pub parse_int-pos : (n : ℕ) → n < 2 ^ 63 → parse_int (format_uint n 10) 10 64 ≡ parsed (pos n)
unfolding signed_value
parse_int-pos n h =
    parse_int-no_sign (format_uint n 10) (digits_onto 63 10 n []) (unfold format_uint in refl)
      (digits_onto-ne_nil 63 10 n []) (digits_onto-lt ten 63 n [] (omega arith) (omega arith) tt)
    ∙ rw (parse_uint-format_uint ten 64 n (omega arith) (omega arith) (omega arith)) (ground arith)

parse_int-neg :
    (n : ℕ) → n < 2 ^ 63 → parse_int (b'-' ∷ format_uint (suc n) 10) 10 64 ≡ parsed (negsuc n)
unfolding signed_value parse_int
parse_int-neg n h =
    rw (parse_uint-format_uint ten 64 (suc n) (omega arith) (omega arith) (omega arith))
      (ground arith)

-- A value that an int64 holds is read back.
pub parse_int-format_int :
    (n : ℤ)
    → negsuc (2 ^ 63 - 1) ≤ℤ n
    → n ≤ℤ pos (2 ^ 63 - 1)
    → parse_int (format_int n 10) 10 64 ≡ parsed n
unfolding format_int
parse_int-format_int (pos n) lo hi = parse_int-pos n (omega arith)
parse_int-format_int (negsuc n) lo hi = parse_int-neg n (omega arith)

-- The texts of integers hold no white space.
digit_no_space : (d : ℕ) → d < 10 → is_space (digit_char d) ≡ false
unfolding digit_char is_space
digit_no_space d h = ground arith

digits-NoSpace : (ds : List ℕ) → All (λ d. d < 10) ds → NoSpace (map digit_char ds)
digits-NoSpace [] h = tt
digits-NoSpace (d ∷ ds) h = (digit_no_space d h.0, digits-NoSpace ds h.1)

pub format_uint-NoSpace : (n : ℕ) → n < 2 ^ 64 → NoSpace (format_uint n 10)
unfolding format_uint
format_uint-NoSpace n h = digits-NoSpace _ (digits_onto-lt ten 63 n [] h (omega arith) tt)

minus_no_space : is_space b'-' ≡ false
unfolding is_space
minus_no_space = refl

pub format_int-NoSpace :
    (n : ℤ) → negsuc (2 ^ 63 - 1) ≤ℤ n → n ≤ℤ pos (2 ^ 63 - 1) → NoSpace (format_int n 10)
unfolding format_int
format_int-NoSpace (pos n) lo hi = format_uint-NoSpace n (omega arith)
format_int-NoSpace (negsuc n) lo hi = (minus_no_space, format_uint-NoSpace (suc n) (omega arith))

pub format_int-ne_nil : (n : ℤ) → format_int n 10 ≢ []
unfolding format_int format_uint
format_int-ne_nil (pos n) = map-ne_nil digit_char _ (digits_onto-ne_nil 63 10 n [])
format_int-ne_nil (negsuc n) = λ e. cc

pub format_uint-ne_nil : (n : ℕ) → format_uint n 10 ≢ []
unfolding format_uint
format_uint-ne_nil n = map-ne_nil digit_char _ (digits_onto-ne_nil 63 10 n [])

signed_value-lt :
    (neg : Bool) (half : ℕ) (p : Parsed ℕ) {n : ℕ}
    → 0 < half
    → signed_value neg half p ≡ parsed (pos n)
    → n < half
unfolding signed_value
signed_value-lt neg half (failed x) h e = cc
signed_value-lt true half (parsed zero) h e = ground arith
signed_value-lt true half (parsed (suc k)) h e = ground arith
signed_value-lt false half (parsed k) h e = ground arith

-- A number that is not negative is below 2 ^ 63.
pub parse_int-lt : (s : Text) {n : ℕ} → parse_int s 10 64 ≡ parsed (pos n) → n < 2 ^ 63
unfolding parse_int
parse_int-lt [] e = cc
parse_int-lt (c ∷ s) {n = n} e = elim (Bool-cases (c == b'+')) [
  | inl plus ↦ signed_value-lt false (2 ^ 63) (parse_uint s 10 64) (omega arith) (rw plus at e)
  | inr other ↦ elim (Bool-cases (c == b'-')) [
    | inl minus ↦
        signed_value-lt true (2 ^ 63) (parse_uint s 10 64) (omega arith) (rw (other, minus) at e)
    | inr plain ↦
        signed_value-lt false (2 ^ 63) (parse_uint (c ∷ s) 10 64) (omega arith)
          (rw (other, plain) at e)
  ]
]
