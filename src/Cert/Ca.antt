-- ===== src/Cert/Ca.antt =====
-- pkg/sep2cert/validate.go: ValidateCA and ParseCAPair. An instant is the number of nanoseconds
-- since Go's zero time, a duration is an int64. Parameters: keys with their equality and curve, the
-- check of a certificate's signature by itself, and the clock. The two PEM parsers are arguments of
-- ParseCAPair; Cert.Pem has them.
pub mod Conditions
pub mod Laws
use Prim.Native.Nat.{bit_and}
use ieee_2030_5_core_go.Prelude.{
  ℕ, ◌+◌, ◌-◌, ◌^◌, Bool, true, false, not, ◌&&◌, ◌||◌, List, [], ◌∷◌, Option, none, some, leb, ltb,
  ◌==◌, if◌then◌else◌, Text,
}
use ieee_2030_5_core_go.Prelude.Int.{ℤ, pos, negsuc, pos_part, neg_part, ltb_ℤ}

-- The fields of an `x509.Certificate` that the checks read. `public_key` is `none` where the key
-- is not an ECDSA key.
pub record CaCert (K : Type 0) : Type 0 where
  pub public_key : Option K
  pub is_ca : Bool
  pub basic_constraints_valid : Bool
  pub key_usage : ℕ
  pub unhandled_critical_extensions : List (List ℕ)
  pub ext_key_usage : List ℕ
  pub unknown_ext_key_usage : List (List ℕ)
  pub not_before : ℤ
  pub not_after : ℤ

pub record ValidateCaOptions : Type 0 where
  pub now : ℤ
  pub require_self_signed : Bool
  pub min_remaining : ℤ

pub data CaError : Type 0 where
  cert_parse key_parse cert_nil key_nil key_type key_mismatch wrong_curve not_ca no_cert_sign
        critical_extension no_client_auth not_yet_valid expired expiring_soon not_self_signed :
      CaError

pub data CaResult (A : Type 0) : Type 0 where
  accept : A → CaResult A
  refuse : CaError → CaResult A

-- `if c { return e }` before the rest.
unfoldable pub unless : {A : Type 0} → Bool → CaError → CaResult A → CaResult A
unless c e rest = if c then refuse e else rest

pub is_nil {ℓ} : {A : Type ℓ} → List A → Bool
is_nil [] = true
is_nil (a ∷ rest) = false

-- x509's KeyUsageCertSign, ExtKeyUsageAny and ExtKeyUsageClientAuth.
abbrev pub cert_sign : ℕ
cert_sign = 2 ^ 5

abbrev pub usage_any : ℕ
usage_any = 0

abbrev pub usage_client_auth : ℕ
usage_client_auth = 2

-- The loop over ExtKeyUsage.
pub permitted : List ℕ → Bool
permitted [] = false
permitted (u ∷ us) = if u == usage_client_auth || u == usage_any then true else permitted us

-- `Time.Sub`, whose result is kept within the int64 durations.
unfoldable pub sub_time : ℤ → ℤ → ℤ
sub_time t u =
    let up = pos_part t + neg_part u in
    let down = pos_part u + neg_part t in
    if leb down up
    then if ltb (2 ^ 63 - 1) (up - down) then pos (2 ^ 63 - 1) else pos (up - down)
    else if ltb (2 ^ 63) (down - up)
    then negsuc (2 ^ 63 - 1)
    else negsuc (down - up - 1)

is_zero : ℤ → Bool
is_zero (pos n) = n == 0
is_zero (negsuc n) = false

-- The instant to check against: the clock's if the option is the zero time.
unfoldable pub now_of : ℤ → ℤ → ℤ
unfolding is_zero
now_of clock now = if is_zero now then clock else now

module _ {K : Type 0} (equal : K → K → Bool) (is_p256 : K → Bool) (signs_itself : CaCert K → Bool)
    (clock : ℤ) where
  check_window : CaCert K → ValidateCaOptions → ℤ → CaResult (Unit {0})
  check_window cert opts now = unless (ltb_ℤ now cert.not_before) not_yet_valid (
      unless (ltb_ℤ cert.not_after now) expired (
        unless
          (ltb_ℤ (pos 0) opts.min_remaining
            && ltb_ℤ (sub_time cert.not_after now) opts.min_remaining)
          expiring_soon
          (unless (opts.require_self_signed && not (signs_itself cert)) not_self_signed
            (accept tt))))

  check_usage : CaCert K → ValidateCaOptions → CaResult (Unit {0})
  unfolding check_window is_nil permitted
  check_usage cert opts = unless (not cert.is_ca || not cert.basic_constraints_valid) not_ca (
      unless (bit_and cert.key_usage cert_sign == 0) no_cert_sign (
        unless (not (is_nil cert.unhandled_critical_extensions)) critical_extension (
          unless
            ((not (is_nil cert.ext_key_usage) || not (is_nil cert.unknown_ext_key_usage))
              && not (permitted cert.ext_key_usage))
            no_client_auth (check_window cert opts (now_of clock opts.now)))))

  check_key : Option K → K → CaCert K → ValidateCaOptions → CaResult (Unit {0})
  unfolding check_usage
  check_key none key cert opts = refuse key_type
  check_key (some public) key cert opts =
      unless (not (equal key public)) key_mismatch
        (unless (not (is_p256 key)) wrong_curve (check_usage cert opts))

  -- `ValidateCA`; nil pointers are `none`. A private key is known by its public part.
  unfoldable pub validate_ca :
      Option (CaCert K) → Option K → ValidateCaOptions → CaResult (Unit {0})
  unfolding check_key
  validate_ca none key opts = refuse cert_nil
  validate_ca (some cert) none opts = refuse key_nil
  validate_ca (some cert) (some key) opts = check_key cert.public_key key cert opts

  pair_with : CaCert K → K → CaResult (Unit {0}) → CaResult (CaCert K × K)
  pair_with cert key (accept u) = accept (cert, key)
  pair_with cert key (refuse e) = refuse e

  pair_of : Option (CaCert K) → Option K → ValidateCaOptions → CaResult (CaCert K × K)
  unfolding pair_with
  pair_of none key opts = refuse cert_parse
  pair_of (some cert) none opts = refuse key_parse
  pair_of (some cert) (some key) opts = pair_with cert key (validate_ca (some cert) (some key) opts)

  -- `ParseCAPair`, with the parsers of the certificate and of the key.
  unfoldable pub parse_ca_pair :
      (List ℕ → Option (CaCert K))
      → (List ℕ → Option K)
      → List ℕ
      → List ℕ
      → ValidateCaOptions
      → CaResult (CaCert K × K)
  unfolding pair_of
  parse_ca_pair parse_cert parse_key cert_pem key_pem opts =
      pair_of (parse_cert cert_pem) (parse_key key_pem) opts
