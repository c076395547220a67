-- ===== src/Tls/Identity/Bits.antt =====
-- Lemmas on the shifts and "or"s of `sfdiFromHash` of pkg/sep2tls/identity.go.
use Prim.Native.Nat.{bit_or}
use ieee_2030_5_core_go.Prelude.{ℕ, ◌+◌, ◌*◌, ◌/◌, ◌^◌, ◌<◌, List, ◌∷◌, ◌≡◌, refl, arith}
use ieee_2030_5_core_go.Golang.Bits.{bit_or-shifted}
use ieee_2030_5_core_go.Golang.Fmt.Laws.{IsByte}
use ieee_2030_5_core_go.Tls.Identity.{top_36_bits}

join : (k hi lo : ℕ) (x : ℕ) → x ≡ hi * 2 ^ k → lo < 2 ^ k → bit_or x lo ≡ x + lo
join k hi lo x e h = rw e (bit_or-shifted k hi lo h)

pub top_36_bits_sum :
    (a b c d e : ℕ) (fp : List ℕ)
    → IsByte a
    → IsByte b
    → IsByte c
    → IsByte d
    → IsByte e
    → top_36_bits (a ∷ b ∷ c ∷ d ∷ e ∷ fp)
      ≡ a * 2 ^ 28 + b * 2 ^ 20 + c * 2 ^ 12 + d * 2 ^ 4 + e / 2 ^ 4
unfolding top_36_bits
top_36_bits_sum a b c d e fp ha hb hc hd he =
    let e₁ = join 28 a (b * 2 ^ 20) (a * 2 ^ 28) refl (omega arith) in
    let e₂ =
      join 20 (a * 2 ^ 8 + b) (c * 2 ^ 12) (a * 2 ^ 28 + b * 2 ^ 20) (omega arith) (omega arith) in
    let e₃ =
      join 12 (a * 2 ^ 16 + b * 2 ^ 8 + c) (d * 2 ^ 4) (a * 2 ^ 28 + b * 2 ^ 20 + c * 2 ^ 12)
        (omega arith) (omega arith) in
    let e₄ =
      join 4 (a * 2 ^ 24 + b * 2 ^ 16 + c * 2 ^ 8 + d) (e / 2 ^ 4)
        (a * 2 ^ 28 + b * 2 ^ 20 + c * 2 ^ 12 + d * 2 ^ 4) (omega arith) (omega arith) in
    rw e₁ (rw e₂ (rw e₃ e₄))

pub top_36_bits-lt :
    (a b c d e : ℕ) (fp : List ℕ)
    → IsByte a
    → IsByte b
    → IsByte c
    → IsByte d
    → IsByte e
    → top_36_bits (a ∷ b ∷ c ∷ d ∷ e ∷ fp) < 2 ^ 36
top_36_bits-lt a b c d e fp ha hb hc hd he =
    omega (arith, top_36_bits_sum a b c d e fp ha hb hc hd he)
