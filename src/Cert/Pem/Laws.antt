-- ===== src/Cert/Pem/Laws.antt =====
-- Theorems on LoadCA of pkg/sep2cert/pem.go.
use Prim.Native.String.{String}
use ieee_2030_5_core_go.Prelude.{
  ℕ, ◌-◌, ◌^◌, Bool, List, [], ◌∷◌, Option, none, some, ◌≡◌, ◌↔◌, refl, ap, ◌∙◌, arith,
}
use ieee_2030_5_core_go.Prelude.Int.{ℤ, pos, ◌≤ℤ◌}
use ieee_2030_5_core_go.Cert.Ca.{CaCert, ValidateCaOptions, CaResult, accept}
use ieee_2030_5_core_go.Cert.Ca.Laws.{CanIssue, parse_ca_pair_iff}
use ieee_2030_5_core_go.Cert.Pem.{
  PemBlock, LoadResult, checked, bind, parse_certificate_pem, parse_key_pem, zero_options,
  load_files, ca_pair, load_ca,
}

bind-some :
    {A B : Type 0} (o : Option A) (next : A → Option B) {b : B}
    → (bind o next ≡ some b) ↔ ((a : A) × (o ≡ some a) × (next a ≡ some b))
bind-some none next = ((λ e. absurd (cc e)), (λ h. absurd (cc h.1)))
bind-some (some x) next {b = b} =
    (λ e. (x, refl, e), λ (a, q, e). let same : x ≡ a = cc q in rw same e)

checked_eq :
    {A : Type 0} {a b : CaResult A} → ◌≡◌ {A = LoadResult A} (checked a) (checked b) → a ≡ b
checked_eq e = cc e

module _ {K : Type 0} (equal : K → K → Bool) (is_p256 : K → Bool) (signs_itself : CaCert K → Bool)
    (clock : ℤ) (decode : List ℕ → Option PemBlock) (parse_certificate : List ℕ → Option (CaCert K))
    (parse_pkcs8 : List ℕ → Option (Option K)) (read_file : String → Option (List ℕ)) where
  -- The two files hold PEM blocks of this certificate and of this ECDSA key.
  pub record Holds (cert_file key_file : String) (cert : CaCert K) (key : K) : Type 0 where
    pub cert_pem : List ℕ
    pub key_pem : List ℕ
    pub cert_block : PemBlock
    pub key_block : PemBlock
    pub cert_read : read_file cert_file ≡ some cert_pem
    pub key_read : read_file key_file ≡ some key_pem
    pub cert_decoded : decode cert_pem ≡ some cert_block
    pub key_decoded : decode key_pem ≡ some key_block
    pub cert_parsed : parse_certificate cert_block.bytes ≡ some cert
    pub key_parsed : parse_pkcs8 key_block.bytes ≡ some (some key)

  load_files_iff :
      (cert_file key_file : String) (opts : ValidateCaOptions) (cert : CaCert K) (key : K)
      → opts.min_remaining ≤ℤ pos (2 ^ 63 - 1)
      → (load_files (read_file cert_file) (read_file key_file) (
            ca_pair equal is_p256 signs_itself clock decode parse_certificate parse_pkcs8 read_file
              opts)
          ≡ checked (accept (cert, key)))
        ↔ (Holds cert_file key_file cert key
            × CanIssue equal is_p256 signs_itself clock cert key opts)
  unfolding load_files ca_pair parse_certificate_pem parse_key_pem
  load_files_iff cert_file key_file opts cert key high = (
    λ e. from_files (read_file cert_file) refl (read_file key_file) refl e,
    λ (h, c).
        rw (h.cert_read, h.key_read)
          (ap checked (
            (parse_ca_pair_iff equal is_p256 signs_itself clock _ _ h.cert_pem h.key_pem opts cert
                key high).1
              (rw h.cert_decoded h.cert_parsed, rw (h.key_decoded, h.key_parsed) refl, c))),
  )
    where
      from_files :
          (oc : Option (List ℕ))
          → read_file cert_file ≡ oc
          → (ok : Option (List ℕ)) → read_file key_file ≡ ok
          → load_files oc ok (
              ca_pair equal is_p256 signs_itself clock decode parse_certificate parse_pkcs8
                read_file opts)
            ≡ checked (accept (cert, key))
          → Holds cert_file key_file cert key
            × CanIssue equal is_p256 signs_itself clock cert key opts
      from_files none p ok q e = absurd (cc e)
      from_files (some cp) p none q e = absurd (cc e)
      from_files (some cp) p (some kp) q e =
          let (a, b, c) =
            (parse_ca_pair_iff equal is_p256 signs_itself clock
                (parse_certificate_pem decode parse_certificate) (parse_key_pem decode parse_pkcs8)
                cp kp opts cert key high).0
              (checked_eq e) in
          let (cb, d, f) = (bind-some (decode cp) _).0 a in
          let (kb, g, i) = (bind-some (decode kp) _).0 b in
          let (k, j, l) = (bind-some (parse_pkcs8 kb.bytes) _).0 i in
          (
            record {
              cert_pem = cp;
              key_pem = kp;
              cert_block = cb;
              key_block = kb;
              cert_read = p;
              key_read = q;
              cert_decoded = d;
              key_decoded = g;
              cert_parsed = f;
              key_parsed = j ∙ ap some l;
            },
            c,
          )

  -- For options whose margin an int64 holds, or none: LoadCA returns a certificate and a key exactly
  -- if the two files hold PEM blocks of that certificate and of that ECDSA key, and the pair can
  -- issue by the options, or by the zero options where none are given.
  pub load_ca_iff :
      (cert_file key_file : String) (opts : ValidateCaOptions) (cert : CaCert K) (key : K)
      → opts.min_remaining ≤ℤ pos (2 ^ 63 - 1)
      → ((load_ca equal is_p256 signs_itself clock decode parse_certificate parse_pkcs8 read_file
              cert_file key_file
              (opts ∷ [])
            ≡ checked (accept (cert, key)))
          ↔ (Holds cert_file key_file cert key
              × CanIssue equal is_p256 signs_itself clock cert key opts))
        × ((load_ca equal is_p256 signs_itself clock decode parse_certificate parse_pkcs8 read_file
                cert_file key_file []
              ≡ checked (accept (cert, key)))
            ↔ (Holds cert_file key_file cert key
                × CanIssue equal is_p256 signs_itself clock cert key zero_options))
  unfolding load_ca
  load_ca_iff cert_file key_file opts cert key high = (
    load_files_iff cert_file key_file opts cert key high,
    load_files_iff cert_file key_file zero_options cert key (omega arith),
  )
