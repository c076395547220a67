-- ===== src/Tls/Identity/Laws.antt =====
-- Theorems on the LFDI and the SFDI of pkg/sep2tls/identity.go.
use ieee_2030_5_core_go.Prelude.{
  ℕ, zero, suc, ◌+◌, ◌-◌, ◌/◌, ◌%◌, ◌^◌, ◌≤◌, ◌<◌, true, some, List, [], ◌∷◌, ◌++◌, ◌==◌, Text,
  length, take, ◌≡◌, refl, ◌∙◌, arith, All, All-append, length-append, length-take,
}
use ieee_2030_5_core_go.Golang.Strconv.{format_uint, digit_char, digits_onto}
use ieee_2030_5_core_go.Golang.Fmt.{sprintf_X, sprintf_011d, hex_decode_string, upper_hex}
use ieee_2030_5_core_go.Golang.Fmt.Laws.{
  IsByte, IsDigit, sprintf_011d_shape, hex_decode_string-sprintf_X, length-sprintf_X,
}
use ieee_2030_5_core_go.Tls.Identity.{
  Certificate, top_36_bits, sum_digits, sfdi_from_hash, is_upper_hex, all_upper_hex, sfdi_of_head,
  sfdi_from_lfdi, validate_loop, validate_sfdi, lfdi, sfdi,
}
use ieee_2030_5_core_go.Tls.Identity.Bits.{top_36_bits-lt}

-- An array of 32 bytes.
pub record IsHash (fp : List ℕ) : Type 0 where
  pub size : length fp ≡ 32
  pub bytes : All IsByte fp

hash_bits-lt : (fp : List ℕ) → IsHash fp → top_36_bits fp < 10 ^ 11
hash_bits-lt (a ∷ b ∷ c ∷ d ∷ e ∷ fp) h =
    let (ha, t₁) = h.bytes in
    let (hb, t₂) = t₁ in
    let (hc, t₃) = t₂ in
    let (hd, t₄) = t₃ in omega (arith, top_36_bits-lt a b c d e fp ha hb hc hd t₄.0)
hash_bits-lt [] h = absurd (omega (arith, h.size))
hash_bits-lt (a ∷ []) h = absurd (omega (arith, h.size))
hash_bits-lt (a ∷ b ∷ []) h = absurd (omega (arith, h.size))
hash_bits-lt (a ∷ b ∷ c ∷ []) h = absurd (omega (arith, h.size))
hash_bits-lt (a ∷ b ∷ c ∷ d ∷ []) h = absurd (omega (arith, h.size))

pub validate_loop-sum_digits :
    (sum : ℕ) (s : Text) → All IsDigit s → validate_loop sum s ≡ (sum_digits sum s % 10 == 0)
unfolding validate_loop sum_digits
validate_loop-sum_digits sum [] h = refl
validate_loop-sum_digits sum (c ∷ s) h =
    ground (arith, h.0, validate_loop-sum_digits (sum + (c - b'0')) s h.1)

pub sum_digits-append :
    (sum : ℕ) (s t : Text) → sum_digits sum (s ++ t) ≡ sum_digits (sum_digits sum s) t
unfolding sum_digits
sum_digits-append sum [] t = refl
sum_digits-append sum (c ∷ s) t = sum_digits-append (sum + (c - b'0')) s t

format_digit : (d : ℕ) → d < 10 → format_uint d 10 ≡ (d + 48) ∷ []
unfolding format_uint digits_onto digit_char
format_digit d h = ground arith

check_digit : ℕ → ℕ
check_digit n = (10 - n % 10) % 10

check_digit-sum : (n : ℕ) → (n + (check_digit n + 48 - 48)) % 10 ≡ 0
unfolding check_digit
check_digit-sum n = omega arith

sfdi_from_hash-check :
    (fp : List ℕ)
    → IsHash fp
    → sfdi_from_hash fp
      ≡ sprintf_011d (top_36_bits fp)
        ++ ((check_digit (sum_digits 0 (sprintf_011d (top_36_bits fp))) + 48) ∷ [])
unfolding sfdi_from_hash check_digit
sfdi_from_hash-check fp h =
    rw (format_digit ((10 - sum_digits 0 (sprintf_011d (top_36_bits fp)) % 10) % 10) (omega arith))

valid_with_check :
    (s : Text)
    → All IsDigit s
    → validate_loop 0 (s ++ ((check_digit (sum_digits 0 s) + 48) ∷ [])) ≡ true
valid_with_check s digits =
    let n = sum_digits 0 s in
    validate_loop-sum_digits 0 _
      (All-append IsDigit s _ digits ((check_digit_range n, check_digit_range' n), tt))
    ∙ rw (sum_digits-append 0 s ((check_digit n + 48) ∷ []))
        (unfold sum_digits in ground (arith, check_digit-sum n))
  where
    check_digit_range : (n : ℕ) → 48 ≤ check_digit n + 48
    check_digit_range n = omega arith

    check_digit_range' : (n : ℕ) → check_digit n + 48 ≤ 57
    check_digit_range' n = unfold check_digit in omega arith

-- The SFDI of every 32-byte fingerprint passes ValidateSFDI: it has 12 decimal digits whose sum is
-- a multiple of 10.
pub validate_sfdi-sfdi_from_hash :
    (fp : List ℕ) → IsHash fp → validate_sfdi (sfdi_from_hash fp) ≡ true
unfolding validate_sfdi
validate_sfdi-sfdi_from_hash fp h =
    let s = sprintf_011d (top_36_bits fp) in
    let (size, digits) = sprintf_011d_shape (top_36_bits fp) (hash_bits-lt fp h) in
    rw (sfdi_from_hash-check fp h) (
      ground (
        arith,
        length-append s ((check_digit (sum_digits 0 s) + 48) ∷ []),
        size,
        valid_with_check s digits,
      ))

all_upper_hex-sprintf_X : (bs : List ℕ) → All IsByte bs → all_upper_hex (sprintf_X bs) ≡ true
unfolding all_upper_hex sprintf_X is_upper_hex
all_upper_hex-sprintf_X [] h = refl
all_upper_hex-sprintf_X (b ∷ bs) h =
    rw (upper (b / 16) (omega (arith, h.0)), upper (b % 16) (omega arith))
      (all_upper_hex-sprintf_X bs h.1)
  where
    upper : (d : ℕ) → d < 16 → is_upper_hex (upper_hex d) ≡ true
    upper d h = unfold upper_hex in ground arith

All-take : (n : ℕ) (bs : List ℕ) → All IsByte bs → All IsByte (take n bs)
All-take zero bs h = tt
All-take (suc n) [] h = tt
All-take (suc n) (b ∷ bs) h = (h.0, All-take n bs h.1)

length-lfdi : (fp : List ℕ) → IsHash fp → length (sprintf_X (take 20 fp)) ≡ 40
length-lfdi fp h = omega (arith, length-sprintf_X (take 20 fp), length-take 20 fp, h.size)

-- The SFDI looks at the first five bytes only.
head_decoded :
    (fp : List ℕ)
    → IsHash fp
    → sfdi_of_head (hex_decode_string (take 10 (sprintf_X (take 20 fp)))) ≡ some (sfdi_from_hash fp)
unfolding sprintf_X sfdi_of_head sfdi_from_hash
head_decoded (a ∷ b ∷ c ∷ d ∷ e ∷ fp) h =
    rw
      (hex_decode_string-sprintf_X (a ∷ b ∷ c ∷ d ∷ e ∷ [])
        (All-take 5 (a ∷ b ∷ c ∷ d ∷ e ∷ fp) h.bytes))
      refl
head_decoded [] h = absurd (omega (arith, h.size))
head_decoded (a ∷ []) h = absurd (omega (arith, h.size))
head_decoded (a ∷ b ∷ []) h = absurd (omega (arith, h.size))
head_decoded (a ∷ b ∷ c ∷ []) h = absurd (omega (arith, h.size))
head_decoded (a ∷ b ∷ c ∷ d ∷ []) h = absurd (omega (arith, h.size))

-- For every hash function that gives 32 bytes: SFDIFromLFDI accepts the LFDI of a certificate, and
-- gives the SFDI that is computed from the certificate itself.
pub sfdi_from_lfdi-lfdi :
    (sum256 : List ℕ → List ℕ) (cert : Certificate)
    → IsHash (sum256 cert.raw)
    → sfdi_from_lfdi (lfdi sum256 cert) ≡ some (sfdi sum256 cert)
unfolding sfdi_from_lfdi lfdi sfdi
sfdi_from_lfdi-lfdi sum256 cert h =
    let fp = sum256 cert.raw in
    rw (length-lfdi fp h)
      (rw (all_upper_hex-sprintf_X (take 20 fp) (All-take 20 fp h.bytes)) (head_decoded fp h))
