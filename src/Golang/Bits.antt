-- ===== src/Golang/Bits.antt =====
-- Lemmas on the bitwise operators.
use Prim.Native.Nat.{max, bit_or, digits, bit_or-bitwise}
use ieee_2030_5_core_go.Prelude.{
  ℕ, zero, suc, ◌+◌, ◌*◌, ◌/◌, ◌%◌, ◌^◌, ◌≤◌, ◌<◌, ◌≡◌, refl, ap, ◌∙◌, arith,
}

abbrev or_digits : ℕ → ℕ → ℕ → ℕ
or_digits n a b = digits (λ b. b) max n a b

or_digits_fuel : (n m a b : ℕ) → a ≤ n → a ≤ m → or_digits n a b ≡ or_digits m a b
or_digits_fuel zero zero a b p q = refl
or_digits_fuel zero (suc m) zero b p q = refl
or_digits_fuel zero (suc m) (suc a) b p q = absurd (omega arith)
or_digits_fuel (suc n) zero zero b p q = refl
or_digits_fuel (suc n) zero (suc a) b p q = absurd (omega arith)
or_digits_fuel (suc n) (suc m) zero b p q = refl
or_digits_fuel (suc n) (suc m) (suc a) b p q =
    omega (arith, or_digits_fuel n m (suc a / 2) (b / 2) (omega arith) (omega arith))

zero-bit_or : (b : ℕ) → bit_or 0 b ≡ b
zero-bit_or b = bit_or-bitwise 0 b

bit_or_step : (a b : ℕ) → bit_or a b ≡ bit_or (a / 2) (b / 2) * 2 + max (a % 2) (b % 2)
bit_or_step zero b = omega (arith, zero-bit_or b, zero-bit_or (b / 2))
bit_or_step (suc a) b = omega (
  arith,
  bit_or-bitwise (suc a) b,
  bit_or-bitwise (suc a / 2) (b / 2),
  or_digits_fuel a (suc a / 2) (suc a / 2) (b / 2) (omega arith) (omega arith),
)

bit_or-zero_fuel : (n a : ℕ) → a ≤ n → bit_or a 0 ≡ a
bit_or-zero_fuel n zero h = refl
bit_or-zero_fuel zero (suc a) h = absurd (omega arith)
bit_or-zero_fuel (suc n) (suc a) h =
    omega (arith, bit_or_step (suc a) 0, bit_or-zero_fuel n (suc a / 2) (omega arith))

bit_or-zero : (a : ℕ) → bit_or a 0 ≡ a
bit_or-zero a = bit_or-zero_fuel a a (omega arith)

bit_or-double : (x lo : ℕ) → bit_or (x * 2) lo ≡ bit_or x (lo / 2) * 2 + lo % 2
bit_or-double x lo =
    bit_or_step (x * 2) lo
    ∙ (let e : x * 2 / 2 ≡ x = omega arith in
        let f : max (x * 2 % 2) (lo % 2) ≡ lo % 2 = omega arith in rw (e, f))

shifted_suc : (k hi : ℕ) → hi * 2 ^ suc k ≡ hi * 2 ^ k * 2
shifted_suc k hi = omega (arith, ap (λ (t : ℕ). hi * t) (two_suc k))
  where
    two_suc : (k : ℕ) → 2 ^ suc k ≡ 2 ^ k * 2
    two_suc k = omega arith

-- `hi << k | lo` is `hi << k + lo` where `lo` has k bits at most.
pub bit_or-shifted : (k hi lo : ℕ) → lo < 2 ^ k → bit_or (hi * 2 ^ k) lo ≡ hi * 2 ^ k + lo
bit_or-shifted zero hi lo h =
    let e : lo ≡ 0 = omega arith in rw e (bit_or-zero (hi * 1) ∙ omega arith)
bit_or-shifted (suc k) hi lo h =
    let half : lo / 2 < 2 ^ k = omega arith in
    rw (shifted_suc k hi)
      (bit_or-double (hi * 2 ^ k) lo ∙ omega (arith, bit_or-shifted k hi (lo / 2) half))
