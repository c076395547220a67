-- ===== src/Tests/Identity.antt =====
-- Concrete inputs for LFDI and SFDI.
use ieee_2030_5_core_go.Prelude.{
  ℕ, List, [], ◌∷◌, ◌++◌, some, true, false, ◌≡◌, Text, replicate, arith, refl,
}
use ieee_2030_5_core_go.Tls.Identity.{
  sfdi_from_hash, sfdi_from_lfdi, validate_sfdi, lfdi, sfdi, validate_loop,
}
use ieee_2030_5_core_go.Tls.Identity.Laws.{
  IsHash, validate_sfdi-sfdi_from_hash, sfdi_from_lfdi-lfdi,
}
use ieee_2030_5_core_go.Tls.Identity.Accepts.{validate_sfdi-substitute}

abbrev some_hash : List ℕ
some_hash = 0x3e ∷ 0x4f ∷ 0x45 ∷ 0xab ∷ 0x31 ∷ replicate 27 0xed

some_hash-IsHash : IsHash some_hash
some_hash-IsHash = record { size = refl; bytes = omega arith }

validate_sfdi-sfdi_from_hash_example : validate_sfdi (sfdi_from_hash some_hash) ≡ true
validate_sfdi-sfdi_from_hash_example = validate_sfdi-sfdi_from_hash some_hash some_hash-IsHash

sfdi_from_lfdi-lfdi_example :
    sfdi_from_lfdi (lfdi (λ raw. some_hash) (record { raw = 48 ∷ [] }))
    ≡ some (sfdi (λ raw. some_hash) (record { raw = 48 ∷ [] }))
sfdi_from_lfdi-lfdi_example =
    sfdi_from_lfdi-lfdi (λ raw. some_hash) (record { raw = 48 ∷ [] }) some_hash-IsHash

-- 167-261-211-391
abbrev sfdi_head : Text
sfdi_head = b'1' ∷ b'6' ∷ b'7' ∷ b'2' ∷ b'6' ∷ b'1' ∷ []

abbrev sfdi_tail : Text
sfdi_tail = b'1' ∷ b'1' ∷ b'3' ∷ b'9' ∷ b'1' ∷ []

validate_sfdi-substitute_example : validate_sfdi (sfdi_head ++ (b'3' ∷ sfdi_tail)) ≡ false
validate_sfdi-substitute_example =
    validate_sfdi-substitute sfdi_head sfdi_tail b'2' b'3'
      (unfold validate_sfdi validate_loop in refl) (omega arith)
