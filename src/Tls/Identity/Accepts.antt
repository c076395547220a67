-- ===== src/Tls/Identity/Accepts.antt =====
-- Theorems on ValidateSFDI and SFDIFromLFDI of pkg/sep2tls/identity.go.
use ieee_2030_5_core_go.Prelude.{
  ℕ, zero, suc, ◌+◌, ◌-◌, ◌*◌, ◌%◌, ◌≤◌, Bool, true, false, none, some, List, [], ◌∷◌, ◌++◌, ◌==◌,
  Text, length, take, ◌≡◌, ◌≢◌, ◌↔◌, refl, ◌∙◌, arith, All, length-take, Bool-cases, inl, inr, ◌⊎◌,
}
use ieee_2030_5_core_go.Golang.Fmt.{hex_decode_string, from_hex_char}
use ieee_2030_5_core_go.Golang.Fmt.Laws.{IsDigit}
use ieee_2030_5_core_go.Tls.Identity.{
  sum_digits, is_upper_hex, all_upper_hex, sfdi_from_lfdi, validate_loop, validate_sfdi,
}
use ieee_2030_5_core_go.Tls.Identity.Laws.{validate_loop-sum_digits, sum_digits-append}

validate_loop-digits : (sum : ℕ) (s : Text) → validate_loop sum s ≡ true → All IsDigit s
unfolding validate_loop
validate_loop-digits sum [] h = tt
validate_loop-digits sum (c ∷ s) h =
    ((ground arith, ground arith), validate_loop-digits (sum + (c - b'0')) s (ground arith))

-- ValidateSFDI accepts exactly the texts of 12 decimal digits whose sum is a multiple of 10.
pub validate_sfdi_iff :
    (s : Text)
    → (validate_sfdi s ≡ true) ↔ ((length s ≡ 12) × All IsDigit s × (sum_digits 0 s % 10 ≡ 0))
unfolding validate_sfdi
validate_sfdi_iff s = (
  λ h.
      let ok : validate_loop 0 s ≡ true = ground arith in
      let digits = validate_loop-digits 0 s ok in
      (ground arith, digits, ground (arith, validate_loop-sum_digits 0 s digits)),
  λ h. ground (arith, h.0, h.2, validate_loop-sum_digits 0 s h.1),
)

sum_digits-add : (n : ℕ) (s : Text) → sum_digits n s ≡ n + sum_digits 0 s
unfolding sum_digits
sum_digits-add n [] = omega arith
sum_digits-add n (c ∷ s) =
    omega (arith, sum_digits-add (n + (c - b'0')) s, sum_digits-add (0 + (c - b'0')) s)

sum_digits-around :
    (p q : Text) (c : ℕ)
    → sum_digits 0 (p ++ (c ∷ q)) ≡ sum_digits 0 p + (c - b'0') + sum_digits 0 q
sum_digits-around p q c =
    sum_digits-append 0 p (c ∷ q)
    ∙ unfold sum_digits in sum_digits-add (sum_digits 0 p + (c - b'0')) q

All-around : (p q : Text) (c : ℕ) → All IsDigit (p ++ (c ∷ q)) → IsDigit c
All-around [] q c h = h.0
All-around (d ∷ p) q c h = All-around p q c h.1

-- The check digit detects every substitution of one character: a text that ValidateSFDI accepts is
-- refused as soon as any one of its characters, at any position, is replaced by another.
pub validate_sfdi-substitute :
    (p q : Text) (c c' : ℕ)
    → validate_sfdi (p ++ (c ∷ q)) ≡ true
    → c' ≢ c
    → validate_sfdi (p ++ (c' ∷ q)) ≡ false
validate_sfdi-substitute p q c c' h ne = elim (Bool-cases (validate_sfdi (p ++ (c' ∷ q)))) [
  | inl ok ↦
      let a = (validate_sfdi_iff (p ++ (c ∷ q))).0 h in
      let b = (validate_sfdi_iff (p ++ (c' ∷ q))).0 ok in
      absurd (
        ne (
          omega (
            arith,
            sum_digits-around p q c,
            sum_digits-around p q c',
            a.2,
            b.2,
            All-around p q c a.1,
            All-around p q c' b.1,
          )))
  | inr refused ↦ refused
]

-- The characters of the form that LFDI produces.
abbrev pub IsUpperHex : ℕ → Type 0
IsUpperHex c = ((48 ≤ c) × (c ≤ 57)) ⊎ ((65 ≤ c) × (c ≤ 70))

all_upper_hex_iff : (s : Text) → (all_upper_hex s ≡ true) ↔ All IsUpperHex s
unfolding all_upper_hex is_upper_hex
all_upper_hex_iff [] = ((λ _. tt), (λ _. refl))
all_upper_hex_iff (c ∷ s) = (
  (λ h. (ground arith, (all_upper_hex_iff s).0 (ground arith))),
  (λ h. ground (arith, h.0, (all_upper_hex_iff s).1 h.1)),
)

hex_digit-ne_none : (c : ℕ) → IsUpperHex c → (d : ℕ) × (from_hex_char c ≡ some d)
unfolding from_hex_char
hex_digit-ne_none c (inl h) = (c - 48, ground arith)
hex_digit-ne_none c (inr h) = (c - 55, ground arith)

-- An even number of upper-case hex digits always decodes.
decode_pairs :
    (n : ℕ) (s : Text)
    → length s ≡ n + n
    → All IsUpperHex s
    → (bs : List ℕ) × (hex_decode_string s ≡ some bs)
unfolding hex_decode_string
decode_pairs n [] e h = ([], refl)
decode_pairs n (c ∷ []) e h = absurd (omega arith)
decode_pairs zero (c ∷ d ∷ s) e h = absurd (omega arith)
decode_pairs (suc n) (c ∷ d ∷ s) e h =
    let (a, ea) = hex_digit-ne_none c h.0 in
    let (b, eb) = hex_digit-ne_none d h.1.0 in
    let (bs, es) = decode_pairs n s (omega arith) h.1.1 in
    ((a * 16 + b) ∷ bs, rw ea (rw eb (rw es)))

All-take : (n : ℕ) (s : Text) → All IsUpperHex s → All IsUpperHex (take n s)
All-take zero s h = tt
All-take (suc n) [] h = tt
All-take (suc n) (c ∷ s) h = (h.0, All-take n s h.1)

accepts :
    (s : Text)
    → length s ≡ 40
    → all_upper_hex s ≡ true
    → (bs : List ℕ) × (hex_decode_string (take 10 s) ≡ some bs)
    → sfdi_from_lfdi s ≢ none
unfolding sfdi_from_lfdi
accepts s e u (bs, d) = rw (e, u, d) (λ q. cc)

-- SFDIFromLFDI returns an SFDI exactly on the texts of 40 characters from 0 to 9 and A to F; in
-- particular its hex decoding never fails.
pub sfdi_from_lfdi_iff :
    (s : Text) → (sfdi_from_lfdi s ≢ none) ↔ ((length s ≡ 40) × All IsUpperHex s)
sfdi_from_lfdi_iff s = (
  λ h. refused (length s == 40) refl (all_upper_hex s) refl h,
  λ h.
      let ten : length (take 10 s) ≡ 5 + 5 = omega (arith, length-take 10 s, h.0) in
      accepts s h.0 ((all_upper_hex_iff s).1 h.1)
        (decode_pairs 5 (take 10 s) ten (All-take 10 s h.1)),
)
  where
    refused :
        (a : Bool)
        → (length s == 40) ≡ a
        → (b : Bool) → all_upper_hex s ≡ b
        → sfdi_from_lfdi s ≢ none
        → (length s ≡ 40) × All IsUpperHex s
    refused true e true u h = (ground (arith, e), (all_upper_hex_iff s).0 u)
    refused true e false u h = absurd (h (unfold sfdi_from_lfdi in rw (e, u)))
    refused false e b u h = absurd (h (unfold sfdi_from_lfdi in rw e))
