-- ===== src/Tls/Server.antt =====
-- pkg/sep2tls/ccmserver.go and ccmclient.go: the configurations for the CCM-8 listener and client.
-- Parameters: the files, X509KeyPair, AppendCertsFromPEM, and what the verification of a peer uses.
pub mod Laws
use Prim.Native.String.{String}
use ieee_2030_5_core_go.Prelude.{ℕ, Bool, true, false, List, [], ◌∷◌, Option, none, some, Text}
use ieee_2030_5_core_go.Cert.San.{Extension}
use ieee_2030_5_core_go.Tls.Verify.{PeerCert, VerifyResult, verify_peer}
use ieee_2030_5_core_go.Tls.Roots.{Roots, RootsError, fails, pool, load_client_cas}

-- A version, a cipher suite and a curve of gotls are uint16 numbers.
abbrev pub version_tls12 : ℕ
version_tls12 = 0x0303

abbrev pub tls_ecdhe_ecdsa_with_aes128_ccm8 : ℕ
tls_ecdhe_ecdsa_with_aes128_ccm8 = 0xC0AE

abbrev pub curve_p256 : ℕ
curve_p256 = 23

pub data ClientAuth : Type 0 where
  no_client_cert request_client_cert require_any_client_cert : ClientAuth
  verify_client_cert_if_given require_and_verify_client_cert : ClientAuth

-- The fields of a `gotls.Config` that are set here; `K` is a certificate with its key.
pub record Config (K C : Type 0) : Type 0 where
  pub certificates : List K
  pub client_cas : List C
  pub root_cas : List C
  pub client_auth : ClientAuth
  pub verify_peer_certificate : Option (List (List ℕ) → VerifyResult (Unit {0}))
  pub min_version : ℕ
  pub max_version : ℕ
  pub cipher_suites : List ℕ
  pub curve_preferences : List ℕ
  pub session_tickets_disabled : Bool

pub data ConfigError : Type 0 where
  read_cert read_key read_ca parse_cert parse_ca : ConfigError
  load_client_roots : RootsError → ConfigError

pub data Configured (K C : Type 0) : Type 0 where
  refused : ConfigError → Configured K C
  config : Config K C → Configured K C

or_refuse : {A K C : Type 0} → ConfigError → Option A → (A → Configured K C) → Configured K C
or_refuse why none next = refused why
or_refuse why (some a) next = next a

from_roots : {K C : Type 0} → Roots C → (List C → Configured K C) → Configured K C
from_roots (fails why) next = refused (load_client_roots why)
from_roots (pool certs) next = next certs

from_pem : {K C : Type 0} → List C → (List C → Configured K C) → Configured K C
from_pem [] next = refused parse_ca
from_pem (c ∷ certs) next = next (c ∷ certs)

module _ {K C : Type 0} (read_file : String → Option Text) (x509_key_pair : Text → Text → Option K)
    (certs_from_pem : Text → List C) (all_hmn : List Extension → Bool × Bool)
    (parse : List ℕ → Option PeerCert) (verify : List C → PeerCert → List PeerCert → Bool) where
  -- `newCCMServerConfigFromMaterial`.
  unfoldable pub server_config_from_material : K → List C → Config K C
  server_config_from_material cert ca_pool = record {
    certificates = cert ∷ [];
    client_cas = ca_pool;
    root_cas = [];
    client_auth = require_any_client_cert;
    verify_peer_certificate =
        some (λ raw_certs. verify_peer all_hmn parse (verify ca_pool) raw_certs);
    min_version = version_tls12;
    max_version = version_tls12;
    cipher_suites = tls_ecdhe_ecdsa_with_aes128_ccm8 ∷ [];
    curve_preferences = curve_p256 ∷ [];
    session_tickets_disabled = true;
  }

  -- `NewCCMServerConfigWithExtraCAs`.
  unfoldable pub ccm_server_config_with_extra_cas :
      String → String → String → List String → Configured K C
  unfolding or_refuse from_roots
  ccm_server_config_with_extra_cas cert_file key_file ca_file extra_ca_files =
      or_refuse read_cert (read_file cert_file) λ cert_pem.
        or_refuse read_key (read_file key_file) λ key_pem.
          or_refuse parse_cert (x509_key_pair cert_pem key_pem) λ cert.
            from_roots (load_client_cas read_file certs_from_pem ca_file extra_ca_files)
              λ ca_pool. config (server_config_from_material cert ca_pool)

  -- `NewCCMServerConfig`.
  unfoldable pub ccm_server_config : String → String → String → Configured K C
  ccm_server_config cert_file key_file ca_file =
      ccm_server_config_with_extra_cas cert_file key_file ca_file []

  -- `NewCCMServerConfigFromPEM`.
  unfoldable pub ccm_server_config_from_pem : Text → Text → Text → Configured K C
  unfolding or_refuse from_pem
  ccm_server_config_from_pem cert_pem key_pem ca_pem =
      or_refuse parse_cert (x509_key_pair cert_pem key_pem) λ cert.
        from_pem (certs_from_pem ca_pem)
          λ ca_pool. config (server_config_from_material cert ca_pool)

  -- `newCCMClientConfigFromMaterial`.
  unfoldable pub client_config_from_material : K → List C → Config K C
  client_config_from_material cert ca_pool = record {
    certificates = cert ∷ [];
    client_cas = [];
    root_cas = ca_pool;
    client_auth = no_client_cert;
    verify_peer_certificate = none;
    min_version = version_tls12;
    max_version = version_tls12;
    cipher_suites = tls_ecdhe_ecdsa_with_aes128_ccm8 ∷ [];
    curve_preferences = curve_p256 ∷ [];
    session_tickets_disabled = false;
  }

  -- `NewCCMClientConfigFromPEM`.
  unfoldable pub ccm_client_config_from_pem : Text → Text → Text → Configured K C
  unfolding or_refuse from_pem
  ccm_client_config_from_pem cert_pem key_pem ca_pem =
      or_refuse parse_cert (x509_key_pair cert_pem key_pem) λ cert.
        from_pem (certs_from_pem ca_pem)
          λ ca_pool. config (client_config_from_material cert ca_pool)

  -- `NewCCMClientConfig`: all files are read first.
  unfoldable pub ccm_client_config : String → String → String → Configured K C
  unfolding or_refuse
  ccm_client_config cert_file key_file ca_file =
      or_refuse read_cert (read_file cert_file) λ cert_pem.
        or_refuse read_key (read_file key_file) λ key_pem.
          or_refuse read_ca (read_file ca_file)
            λ ca_pem. ccm_client_config_from_pem cert_pem key_pem ca_pem
