-- ===== src/Cert/Pem.antt =====
-- pkg/sep2cert/pem.go: the PEM parsers and LoadCA. `pem.Decode`, the two DER parsers of
-- crypto/x509 and the reader of files are parameters.
pub mod Laws
use Prim.Native.String.{String}
use text.Mathlib.Text.{◌==◌ as str_eq}
use ieee_2030_5_core_go.Prelude.{
  ℕ, Bool, false, not, List, [], ◌∷◌, Option, none, some, if◌then◌else◌,
}
use ieee_2030_5_core_go.Prelude.Int.{ℤ, pos}
use ieee_2030_5_core_go.Cert.Ca.{CaCert, ValidateCaOptions, CaResult, parse_ca_pair}

pub record PemBlock : Type 0 where
  pub type : String
  pub bytes : List ℕ

pub data LoadResult (A : Type 0) : Type 0 where
  too_many_options cert_not_read key_not_read : LoadResult A
  checked : CaResult A → LoadResult A

abbrev pub bind : {A B : Type 0} → Option A → (A → Option B) → Option B
bind none next = none
bind (some a) next = next a

-- `CertificateDER`: `none` is an error.
unfoldable pub certificate_der : (List ℕ → Option PemBlock) → List ℕ → Option (List ℕ)
certificate_der decode pem =
    bind (decode pem)
      λ block. if not (str_eq block.type "CERTIFICATE") then none else some block.bytes

-- `ParseCertificatePEM`.
unfoldable pub parse_certificate_pem :
    {C : Type 0} → (List ℕ → Option PemBlock) → (List ℕ → Option C) → List ℕ → Option C
parse_certificate_pem decode parse_certificate pem =
    bind (decode pem) λ block. parse_certificate block.bytes

-- `ParseKeyPEM`. `parse_pkcs8` gives a key, of which the inner option is the ECDSA key.
unfoldable pub parse_key_pem :
    {K : Type 0} → (List ℕ → Option PemBlock) → (List ℕ → Option (Option K)) → List ℕ → Option K
parse_key_pem decode parse_pkcs8 pem =
    bind (decode pem) λ block. bind (parse_pkcs8 block.bytes) λ key. key

abbrev pub zero_options : ValidateCaOptions
zero_options = record { now = pos 0; require_self_signed = false; min_remaining = pos 0 }

load_files :
    {A : Type 0} → Option (List ℕ) → Option (List ℕ) → (List ℕ → List ℕ → CaResult A) → LoadResult A
load_files none key_file check = cert_not_read
load_files (some cert_pem) none check = key_not_read
load_files (some cert_pem) (some key_pem) check = checked (check cert_pem key_pem)

module _ {K : Type 0} (equal : K → K → Bool) (is_p256 : K → Bool) (signs_itself : CaCert K → Bool)
    (clock : ℤ) (decode : List ℕ → Option PemBlock) (parse_certificate : List ℕ → Option (CaCert K))
    (parse_pkcs8 : List ℕ → Option (Option K)) (read_file : String → Option (List ℕ)) where
  -- `ParseCAPair` with the parsers of this file.
  unfoldable pub ca_pair : ValidateCaOptions → List ℕ → List ℕ → CaResult (CaCert K × K)
  ca_pair opts cert_pem key_pem =
      parse_ca_pair equal is_p256 signs_itself clock
        (parse_certificate_pem decode parse_certificate) (parse_key_pem decode parse_pkcs8) cert_pem
        key_pem opts

  -- `LoadCA`, with its variadic options.
  unfoldable pub load_ca : String → String → List ValidateCaOptions → LoadResult (CaCert K × K)
  unfolding load_files
  load_ca cert_file key_file [] =
      load_files (read_file cert_file) (read_file key_file) (ca_pair zero_options)
  load_ca cert_file key_file (opts ∷ []) =
      load_files (read_file cert_file) (read_file key_file) (ca_pair opts)
  load_ca cert_file key_file (opts ∷ more ∷ rest) = too_many_options
