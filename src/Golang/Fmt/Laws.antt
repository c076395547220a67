-- ===== src/Golang/Fmt/Laws.antt =====
-- Lemmas on the verbs of `fmt.Sprintf` and on `hex.DecodeString`.
use ieee_2030_5_core_go.Prelude.{
  ℕ, zero, suc, ◌+◌, ◌-◌, ◌*◌, ◌/◌, ◌%◌, ◌^◌, ◌≤◌, ◌<◌, some, List, [], ◌∷◌, ltb, length, replicate,
  map, ◌≡◌, refl, ap, arith, All, All-append, inl, inr, Bool-cases, length-append, length-map,
  length-replicate,
}
use ieee_2030_5_core_go.Golang.Strconv.{format_uint, digit_char, digits_onto}
use ieee_2030_5_core_go.Golang.Strconv.Uint.{ten, digits_onto-lt}
use ieee_2030_5_core_go.Golang.Fmt.{
  upper_hex, sprintf_X, sprintf_011d, from_hex_char, hex_decode_string,
}

abbrev pub IsByte : ℕ → Type 0
IsByte b = b < 256

abbrev pub IsDigit : ℕ → Type 0
IsDigit c = (48 ≤ c) × (c ≤ 57)

from_hex_char-upper_hex : (d : ℕ) → d < 16 → from_hex_char (upper_hex d) ≡ some d
unfolding from_hex_char upper_hex
from_hex_char-upper_hex d h = ground arith

-- `hex.DecodeString` inverts `%X`.
pub hex_decode_string-sprintf_X :
    (bs : List ℕ) → All IsByte bs → hex_decode_string (sprintf_X bs) ≡ some bs
unfolding hex_decode_string sprintf_X
hex_decode_string-sprintf_X [] h = refl
hex_decode_string-sprintf_X (b ∷ bs) h =
    rw (from_hex_char-upper_hex (b / 16) (omega (arith, h.0))) (
      rw (from_hex_char-upper_hex (b % 16) (omega arith))
        (rw (hex_decode_string-sprintf_X bs h.1) (ap (λ n. some (n ∷ bs)) (omega arith))))

pub length-sprintf_X : (bs : List ℕ) → length (sprintf_X bs) ≡ 2 * length bs
unfolding sprintf_X
length-sprintf_X [] = refl
length-sprintf_X (b ∷ bs) = omega (arith, length-sprintf_X bs)

length-digits_onto :
    (k n v : ℕ) (acc : List ℕ)
    → v < 10 ^ suc k
    → k ≤ n
    → length (digits_onto n 10 v acc) ≤ length acc + suc k
unfolding digits_onto
length-digits_onto k zero v acc h le = omega arith
length-digits_onto zero (suc n) v acc h le = ground arith
length-digits_onto (suc k) (suc n) v acc h le = elim (Bool-cases (ltb v 10)) [
  | inl small ↦ rw small (omega arith)
  | inr large ↦
      rw large (
        omega (arith, length-digits_onto k n (v / 10) ((v % 10) ∷ acc) (omega arith) (omega arith)))
]

digit_char-IsDigit : (ds : List ℕ) → All (λ d. d < 10) ds → All IsDigit (map digit_char ds)
digit_char-IsDigit [] h = tt
digit_char-IsDigit (d ∷ ds) h = (digit d h.0, digit_char-IsDigit ds h.1)
  where
    digit : (d : ℕ) → d < 10 → IsDigit (digit_char d)
    digit d h = unfold digit_char in ground arith

replicate-IsDigit : (n : ℕ) → All IsDigit (replicate n b'0')
replicate-IsDigit zero = tt
replicate-IsDigit (suc n) = ((omega arith, omega arith), replicate-IsDigit n)

pub format_uint-IsDigit : (v : ℕ) → v < 2 ^ 64 → All IsDigit (format_uint v 10)
unfolding format_uint
format_uint-IsDigit v h = digit_char-IsDigit _ (digits_onto-lt ten 63 v [] h (omega arith) tt)

length-format_uint : (v : ℕ) → v < 10 ^ 11 → length (format_uint v 10) ≤ 11
unfolding format_uint
length-format_uint v h = omega (
  arith,
  length-map digit_char (digits_onto 63 10 v []),
  length-digits_onto 10 63 v [] h (omega arith),
)

-- A number below 10 ^ 11 takes 11 characters, and each is a decimal digit.
pub sprintf_011d_shape :
    (v : ℕ) → v < 10 ^ 11 → (length (sprintf_011d v) ≡ 11) × All IsDigit (sprintf_011d v)
unfolding sprintf_011d
sprintf_011d_shape v h =
    let s = format_uint v 10 in
    (
      omega (
        arith,
        length-append (replicate (11 - length s) b'0') s,
        length-replicate {A = ℕ} (11 - length s) 48,
        length-format_uint v h,
      ),
      All-append IsDigit (replicate (11 - length s) b'0') s (replicate-IsDigit (11 - length s))
          (format_uint-IsDigit v (omega arith)),
    )
