-- ===== src/Tests/Cert.antt =====
-- Concrete inputs for ParseOID and for the checks on an issuing CA.
use Prim.Native.String.{String}
use ieee_2030_5_core_go.Prelude.{
  ℕ, List, Option, Bool, [], ◌∷◌, some, true, ◌≡◌, ◌↔◌, arith, inr, ◌==◌,
}
use ieee_2030_5_core_go.Prelude.Int.{pos}
use ieee_2030_5_core_go.Cert.Oid.{ok, parse_oid}
use ieee_2030_5_core_go.Cert.Oid.Laws.{
  oid_string, WellFormed, parse_oid-oid_string, parse_oid-WellFormed,
}
use ieee_2030_5_core_go.Cert.Ca.{CaCert, ValidateCaOptions, accept, validate_ca}
use ieee_2030_5_core_go.Cert.Pem.{PemBlock, checked, zero_options, load_ca}
use ieee_2030_5_core_go.Cert.Pem.Laws.{Holds, load_ca_iff}
use ieee_2030_5_core_go.Cert.Ca.Laws.{CanIssue, validate_ca_iff}

parse_oid-oid_string_example : parse_oid (oid_string (1 ∷ 3 ∷ 40732 ∷ [])) ≡ ok (1 ∷ 3 ∷ 40732 ∷ [])
parse_oid-oid_string_example =
    parse_oid-oid_string 1 3 (40732 ∷ [])
      (record { first_arc = omega arith; second_arc = inr (omega arith); ints = omega arith })

parse_oid-WellFormed_example : WellFormed (parse_oid (b'1' ∷ b'.' ∷ b'4' ∷ b'0' ∷ []))
parse_oid-WellFormed_example = parse_oid-WellFormed (b'1' ∷ b'.' ∷ b'4' ∷ b'0' ∷ [])

-- Keys are numbers, all on the curve; every certificate signs itself; the clock stands at 100.
abbrev same : ℕ → ℕ → Bool
same a b = a == b

abbrev p256 : ℕ → Bool
p256 k = true

abbrev self_signed : CaCert ℕ → Bool
self_signed c = true

abbrev some_ca : CaCert ℕ
some_ca = record {
  public_key = some 7;
  is_ca = true;
  basic_constraints_valid = true;
  key_usage = 32;
  unhandled_critical_extensions = [];
  ext_key_usage = 2 ∷ [];
  unknown_ext_key_usage = [];
  not_before = pos 50;
  not_after = pos 1000;
}

abbrev some_options : ValidateCaOptions
some_options = record { now = pos 0; require_self_signed = true; min_remaining = pos 10 }

validate_ca_iff_example :
    (validate_ca same p256 self_signed (pos 100) (some some_ca) (some 7) some_options ≡ accept tt)
    ↔ CanIssue same p256 self_signed (pos 100) some_ca 7 some_options
validate_ca_iff_example =
    validate_ca_iff same p256 self_signed (pos 100) some_ca 7 some_options (omega arith)

-- Every text is one block, of a certificate and of a key at once; every file is there.
abbrev one_block : List ℕ → Option PemBlock
one_block pem = some (record { type = "CERTIFICATE"; bytes = pem })

abbrev read_cert : List ℕ → Option (CaCert ℕ)
read_cert der = some some_ca

abbrev read_key : List ℕ → Option (Option ℕ)
read_key der = some (some 7)

abbrev any_file : String → Option (List ℕ)
any_file name = some (1 ∷ [])

load_ca_iff_example :
    ((load_ca same p256 self_signed
          (pos 100)
          one_block
          read_cert
          read_key
          any_file
          "ca.pem"
          "ca.key"
          (some_options ∷ [])
        ≡ checked (accept (some_ca, 7)))
      ↔ (Holds same p256 self_signed
            (pos 100)
            one_block
            read_cert
            read_key
            any_file
            "ca.pem"
            "ca.key"
            some_ca
            7
          × CanIssue same p256 self_signed (pos 100) some_ca 7 some_options))
    × ((load_ca same p256 self_signed
            (pos 100)
            one_block
            read_cert
            read_key
            any_file
            "ca.pem"
            "ca.key"
            []
          ≡ checked (accept (some_ca, 7)))
        ↔ (Holds same p256 self_signed
              (pos 100)
              one_block
              read_cert
              read_key
              any_file
              "ca.pem"
              "ca.key"
              some_ca
              7
            × CanIssue same p256 self_signed (pos 100) some_ca 7 zero_options))
load_ca_iff_example =
    load_ca_iff same p256 self_signed (pos 100) one_block read_cert read_key any_file "ca.pem"
      "ca.key" some_options some_ca 7 (omega arith)
