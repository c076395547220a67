-- ===== src/Tls/Server/Laws.antt =====
-- Theorems on the server configurations of pkg/sep2tls/ccmserver.go.
use Prim.Native.String.{String}
use text.Mathlib.Text.{◌==◌ as str_eq}
use ieee_2030_5_core_go.Prelude.{
  ℕ, Bool, true, false, List, [], ◌∷◌, Option, none, some, Text, ◌≡◌, ◌↔◌, refl, sym, subst,
}
use ieee_2030_5_core_go.Cert.San.{Extension}
use ieee_2030_5_core_go.Tls.Verify.{PeerCert, verify_peer}
use ieee_2030_5_core_go.Tls.Roots.{
  Roots, fails, pool, load_client_cas, GiveAll, load_client_cas_iff,
}
use ieee_2030_5_core_go.Tls.Server.{
  require_any_client_cert, Config, ConfigError, Configured, config, or_refuse, from_roots,
  server_config_from_material, ccm_server_config_with_extra_cas,
}

or_refuse-config :
    {A K C : Type 0} (why : ConfigError) (o : Option A) (next : A → Configured K C) {c : Config K C}
    → or_refuse why o next ≡ config c
    → (a : A) × (o ≡ some a) × (next a ≡ config c)
unfolding or_refuse
or_refuse-config why none next e = absurd (cc e)
or_refuse-config why (some a) next e = (a, refl, e)

from_roots-config :
    {K C : Type 0} (r : Roots C) (next : List C → Configured K C) {c : Config K C}
    → from_roots r next ≡ config c
    → (certs : List C) × (r ≡ pool certs) × (next certs ≡ config c)
unfolding from_roots
from_roots-config (fails why) next e = absurd (cc e)
from_roots-config (pool certs) next e = (certs, refl, e)

module _ {K C : Type 0} (read_file : String → Option Text) (x509_key_pair : Text → Text → Option K)
    (certs_from_pem : Text → List C) (all_hmn : List Extension → Bool × Bool)
    (parse : List ℕ → Option PeerCert) (verify : List C → PeerCert → List PeerCert → Bool) where
  -- A configuration for a certificate and client roots: TLS 1.2 alone, the CCM-8 suite alone, P-256
  -- alone, no session tickets, no server roots; a client certificate is required, and verified by
  -- VerifyPeerCertWithHardwareModuleSAN against the roots.
  pub record Secures (cert : K) (ca_pool : List C) (c : Config K C) : Type 0 where
    pub own : c.certificates ≡ cert ∷ []
    pub roots : c.client_cas ≡ ca_pool
    pub no_server_roots : c.root_cas ≡ []
    pub required : c.client_auth ≡ require_any_client_cert
    pub verified :
        c.verify_peer_certificate ≡ some (λ raw. verify_peer all_hmn parse (verify ca_pool) raw)
    pub at_least : c.min_version ≡ 0x0303
    pub at_most : c.max_version ≡ 0x0303
    pub suites : c.cipher_suites ≡ 0xC0AE ∷ []
    pub curves : c.curve_preferences ≡ 23 ∷ []
    pub no_tickets : c.session_tickets_disabled ≡ true

  abbrev made : K → List C → Config K C
  made = server_config_from_material read_file x509_key_pair certs_from_pem all_hmn parse verify

  made-Secures : (cert : K) (ca_pool : List C) → Secures cert ca_pool (made cert ca_pool)
  unfolding server_config_from_material
  made-Secures cert ca_pool = record {
    own = refl;
    roots = refl;
    no_server_roots = refl;
    required = refl;
    verified = refl;
    at_least = refl;
    at_most = refl;
    suites = refl;
    curves = refl;
    no_tickets = refl;
  }

  Secures-made :
      (cert : K) (ca_pool : List C) (c : Config K C)
      → Secures cert ca_pool c
      → made cert ca_pool ≡ c
  unfolding server_config_from_material
  Secures-made cert ca_pool c s = sym λ i. record {
    certificates = s.own i;
    client_cas = s.roots i;
    root_cas = s.no_server_roots i;
    client_auth = s.required i;
    verify_peer_certificate = s.verified i;
    min_version = s.at_least i;
    max_version = s.at_most i;
    cipher_suites = s.suites i;
    curve_preferences = s.curves i;
    session_tickets_disabled = s.no_tickets i;
  }

  -- NewCCMServerConfigWithExtraCAs succeeds exactly if both files are read, their pair is valid, the
  -- CA path is not empty, and it and every extra path that is not empty name files with certificates.
  -- The configuration then has the pair, and as client roots all those certificates; it has TLS 1.2
  -- alone, the CCM-8 suite alone, P-256 alone and no session tickets, and it requires a client
  -- certificate, which VerifyPeerCertWithHardwareModuleSAN verifies against those roots.
  pub ccm_server_config_iff :
      (cert_file key_file ca_file : String) (extra : List String) (c : Config K C)
      → (ccm_server_config_with_extra_cas read_file x509_key_pair certs_from_pem all_hmn parse
            verify cert_file key_file ca_file extra
          ≡ config c)
        ↔ ((cert_pem : Text) × (key_pem : Text) × (cert : K) × (ca_pool : List C) × (read_file
                cert_file
              ≡ some cert_pem)
            × (read_file key_file ≡ some key_pem)
            × (x509_key_pair cert_pem key_pem ≡ some cert)
            × (str_eq ca_file "" ≡ false)
            × GiveAll read_file certs_from_pem (ca_file ∷ extra) ca_pool
            × Secures cert ca_pool c)
  unfolding ccm_server_config_with_extra_cas or_refuse from_roots
  ccm_server_config_iff cert_file key_file ca_file extra c = (
    λ e.
        let (cert_pem, p, e₁) = or_refuse-config _ (read_file cert_file) _ e in
        let (key_pem, q, e₂) = or_refuse-config _ (read_file key_file) _ e₁ in
        let (cert, r, e₃) = or_refuse-config _ (x509_key_pair cert_pem key_pem) _ e₂ in
        let (ca_pool, s, e₄) =
          from_roots-config (load_client_cas read_file certs_from_pem ca_file extra) _ e₃ in
        let (named, gives) =
          (load_client_cas_iff read_file certs_from_pem ca_file extra ca_pool).0 s in
        let same : made cert ca_pool ≡ c = cc e₄ in
        let secures = subst (Secures cert ca_pool) same (made-Secures cert ca_pool) in
        (cert_pem, key_pem, cert, ca_pool, p, q, r, named, gives, secures),
    λ (cert_pem, key_pem, cert, ca_pool, p, q, r, named, gives, secures).
        let s =
          (load_client_cas_iff read_file certs_from_pem ca_file extra ca_pool).1 (named, gives) in
        rw (p, q, r, s, Secures-made cert ca_pool c secures) refl,
  )
