-- ===== src/Tls/Verify.antt =====
-- pkg/sep2tls/verify.go: AcknowledgeHardwareModuleSAN, and the callback that verifies a client's
-- chain. Parameters: the strict check of a certificate's extensions (pkg/sep2cert), the parser of a
-- certificate, and the chain walk of crypto/x509 for the configured roots.
pub mod Laws
pub mod Closed
use ieee_2030_5_core_go.Prelude.{
  ℕ, suc, ◌+◌, Bool, true, false, not, ◌||◌, List, [], ◌∷◌, Option, none, some, map, if◌then◌else◌,
}
use ieee_2030_5_core_go.Cert.San.{Oid, oid_eq, oid_subject_alt_name, Extension}

-- The fields of an `x509.Certificate` that are read or written here.
pub record PeerCert : Type 0 where
  pub raw : List ℕ
  pub extensions : List Extension
  pub unhandled_critical_extensions : List Oid

pub data VerifyError : Type 0 where
  no_certificate not_verified : VerifyError
  parse_failed : ℕ → VerifyError

pub data VerifyResult {ℓ} (A : Type ℓ) : Type ℓ where
  ok : A → VerifyResult A
  err : VerifyError → VerifyResult A

-- The loop over the OIDs: what is kept, and whether one was dropped.
unfoldable pub filter_san : List Oid → List Oid × Bool
filter_san [] = ([], false)
filter_san (oid ∷ oids) =
    let (kept, cleared) = filter_san oids in
    if oid_eq oid oid_subject_alt_name then (kept, true) else (oid ∷ kept, cleared)

is_none {ℓ} : {A : Type ℓ} → List A → Bool
is_none [] = true
is_none (a ∷ rest) = false

-- `AcknowledgeHardwareModuleSAN`: the certificate after the call, and its answer. `all_hmn` is the
-- first answer of `SANAllOtherNamesAreHardwareModuleName`.
unfoldable pub acknowledge_cert : (List Extension → Bool × Bool) → PeerCert → PeerCert × Bool
unfolding is_none
acknowledge_cert all_hmn cert =
    if is_none cert.unhandled_critical_extensions
    then (cert, false)
    else if not (all_hmn cert.extensions).0
    then (cert, false)
    else let (kept, cleared) = filter_san cert.unhandled_critical_extensions in
      (record cert { unhandled_critical_extensions = kept }, cleared)

-- With the pointer: nil is `none`.
unfoldable pub acknowledge :
    (List Extension → Bool × Bool) → Option PeerCert → Option PeerCert × Bool
acknowledge all_hmn none = (none, false)
acknowledge all_hmn (some cert) =
    let (cert', cleared) = acknowledge_cert all_hmn cert in (some cert', cleared)

module _ (all_hmn : List Extension → Bool × Bool) (parse : List ℕ → Option PeerCert)
    (verify : PeerCert → List PeerCert → Bool) where
  cons_cert : PeerCert → VerifyResult (List PeerCert) → VerifyResult (List PeerCert)
  cons_cert cert (ok chain) = ok (cert ∷ chain)
  cons_cert cert (err e) = err e

  parsed_cert : Option PeerCert → ℕ → VerifyResult (List PeerCert) → VerifyResult (List PeerCert)
  unfolding cons_cert
  parsed_cert none i rest = err (parse_failed i)
  parsed_cert (some cert) i rest = cons_cert cert rest

  -- The loop that parses the chain, from index `i` on.
  parse_chain : ℕ → List (List ℕ) → VerifyResult (List PeerCert)
  unfolding parsed_cert
  parse_chain i [] = ok []
  parse_chain i (raw ∷ raws) = parsed_cert (parse raw) i (parse_chain (suc i) raws)

  -- Each certificate is acknowledged, then the leaf is verified with the others as intermediates.
  verify_chain : VerifyResult (List PeerCert) → VerifyResult (Unit {0})
  verify_chain (err e) = err e
  verify_chain (ok []) = err no_certificate
  verify_chain (ok (leaf ∷ rest)) =
      if verify (acknowledge_cert all_hmn leaf).0 (map (λ c. (acknowledge_cert all_hmn c).0) rest)
      then ok tt
      else err not_verified

  -- `VerifyPeerCertWithHardwareModuleSAN`.
  unfoldable pub verify_peer : List (List ℕ) → VerifyResult (Unit {0})
  unfolding parse_chain verify_chain
  verify_peer [] = err no_certificate
  verify_peer (raw ∷ raws) = verify_chain (parse_chain 0 (raw ∷ raws))
