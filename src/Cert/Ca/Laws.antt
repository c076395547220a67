-- ===== src/Cert/Ca/Laws.antt =====
-- Theorems on ValidateCA and ParseCAPair of pkg/sep2cert/validate.go.
use Prim.Native.Nat.{bit_and}
use ieee_2030_5_core_go.Prelude.{
  ℕ, ◌-◌, ◌^◌, Bool, true, false, List, [], Option, none, some, ◌≡◌, ◌≢◌, ◌↔◌, ◌⊎◌, refl, ap, ◌∙◌,
  arith,
}
use ieee_2030_5_core_go.Prelude.Int.{ℤ, pos, ◌≤ℤ◌}
use ieee_2030_5_core_go.Cert.Ca.{
  CaCert, ValidateCaOptions, CaResult, accept, refuse, cert_sign, now_of, check_window, check_usage,
  check_key, validate_ca, parse_ca_pair, pair_of, pair_with,
}
use ieee_2030_5_core_go.Cert.Ca.Conditions.{
  Permits, InWindow, is_nil_iff, sub_time-margin, unless-accept, purposes_iff, neither,
}

module _ {K : Type 0} (equal : K → K → Bool) (is_p256 : K → Bool) (signs_itself : CaCert K → Bool)
    (clock : ℤ) where
  -- All that makes a pair an issuing CA.
  pub record CanIssue (cert : CaCert K) (key : K) (opts : ValidateCaOptions) : Type 0 where
    pub public : K
    pub public_key : cert.public_key ≡ some public
    pub same_key : equal key public ≡ true
    pub on_p256 : is_p256 key ≡ true
    pub marked_ca : cert.is_ca ≡ true
    pub constraints : cert.basic_constraints_valid ≡ true
    pub signs_certs : bit_and cert.key_usage cert_sign ≢ 0
    pub understood : cert.unhandled_critical_extensions ≡ []
    pub purposes :
        ((cert.ext_key_usage ≡ []) × (cert.unknown_ext_key_usage ≡ [])) ⊎ Permits cert.ext_key_usage
    pub window : InWindow cert.not_before cert.not_after (now_of clock opts.now) opts.min_remaining
    pub signature : (opts.require_self_signed ≡ false) ⊎ (signs_itself cert ≡ true)

  check_window_iff :
      (cert : CaCert K) (opts : ValidateCaOptions) (now : ℤ)
      → opts.min_remaining ≤ℤ pos (2 ^ 63 - 1)
      → (check_window equal is_p256 signs_itself clock cert opts now ≡ accept tt) ↔ (
          InWindow cert.not_before cert.not_after now opts.min_remaining
          × ((opts.require_self_signed ≡ false) ⊎ (signs_itself cert ≡ true)))
  unfolding check_window
  check_window_iff cert opts now high = (
    λ h.
        let (early, h₁) = (unless-accept _ _ _ _).0 h in
        let (late, h₂) = (unless-accept _ _ _ _).0 h₁ in
        let (soon, h₃) = (unless-accept _ _ _ _).0 h₂ in
        let (forged, h₄) = (unless-accept _ _ _ _).0 h₃ in
        (
          record {
            started = ground arith;
            not_ended = ground arith;
            margin = (sub_time-margin cert.not_after now opts.min_remaining high).0 soon;
          },
          ground arith,
        ),
    λ (w, s). (unless-accept _ _ _ _).1 (
      ground arith,
      (unless-accept _ _ _ _).1 (
        ground arith,
        (unless-accept _ _ _ _).1 (
          (sub_time-margin cert.not_after now opts.min_remaining high).1 w.margin,
          (unless-accept _ _ _ _).1 (ground arith, refl),
        ),
      ),
    ),
  )

  check_usage_iff :
      (cert : CaCert K) (opts : ValidateCaOptions)
      → (check_usage equal is_p256 signs_itself clock cert opts ≡ accept tt) ↔ (
          (cert.is_ca ≡ true)
          × (cert.basic_constraints_valid ≡ true)
          × (bit_and cert.key_usage cert_sign ≢ 0)
          × (cert.unhandled_critical_extensions ≡ [])
          × (((cert.ext_key_usage ≡ []) × (cert.unknown_ext_key_usage ≡ []))
              ⊎ Permits cert.ext_key_usage)
          × (check_window equal is_p256 signs_itself clock cert opts (now_of clock opts.now)
              ≡ accept tt))
  unfolding check_usage
  check_usage_iff cert opts = (
    λ h.
        let (ca, h₁) = (unless-accept _ _ _ _).0 h in
        let (signs, h₂) = (unless-accept _ _ _ _).0 h₁ in
        let (crit, h₃) = (unless-accept _ _ _ _).0 h₂ in
        let (eku, h₄) = (unless-accept _ _ _ _).0 h₃ in
        (
          ((neither _ _).0 ca).0,
          ((neither _ _).0 ca).1,
          ground arith,
          (is_nil_iff cert.unhandled_critical_extensions).0 (ground arith),
          (purposes_iff _ _).0 eku,
          h₄,
        ),
    λ (ca, con, signs, crit, eku, w). (unless-accept _ _ _ _).1 (
      (neither _ _).1 (ca, con),
      (unless-accept _ _ _ _).1 (
        ground arith,
        (unless-accept _ _ _ _).1 (
          rw ((is_nil_iff cert.unhandled_critical_extensions).1 crit) refl,
          (unless-accept _ _ _ _).1 ((purposes_iff _ _).1 eku, w),
        ),
      ),
    ),
  )

  check_key_iff :
      (public : Option K) (key : K) (cert : CaCert K) (opts : ValidateCaOptions)
      → (check_key equal is_p256 signs_itself clock public key cert opts ≡ accept tt) ↔ (
          (p : K) × (public ≡ some p)
          × (equal key p ≡ true)
          × (is_p256 key ≡ true)
          × (check_usage equal is_p256 signs_itself clock cert opts ≡ accept tt))
  unfolding check_key
  check_key_iff none key cert opts = ((λ h. absurd (cc h)), (λ h. absurd (cc h.1)))
  check_key_iff (some p) key cert opts = (
    λ h.
        let (same, h₁) = (unless-accept _ _ _ _).0 h in
        let (curve, h₂) = (unless-accept _ _ _ _).0 h₁ in (p, refl, ground arith, ground arith, h₂),
    λ (q, e, same, curve, u).
        let e' : p ≡ q = cc e in
        (unless-accept _ _ _ _).1
          (rw (ap (equal key) e' ∙ same) refl, (unless-accept _ _ _ _).1 (rw curve refl, u)),
  )

  -- With a margin that an int64 holds: ValidateCA accepts a certificate and a key exactly if the
  -- certificate's ECDSA key is that key, on P-256; the certificate is marked as a CA with valid
  -- basic constraints, may sign certificates, and has no unhandled critical extension; its extended
  -- key usage is absent or lists client authentication or any use; the instant is in the validity
  -- window and at least the margin before its end; and it signs itself, if that is asked for.
  pub validate_ca_iff :
      (cert : CaCert K) (key : K) (opts : ValidateCaOptions)
      → opts.min_remaining ≤ℤ pos (2 ^ 63 - 1)
      → (validate_ca equal is_p256 signs_itself clock (some cert) (some key) opts ≡ accept tt)
        ↔ CanIssue cert key opts
  unfolding validate_ca
  validate_ca_iff cert key opts high = (
    λ h.
        let (p, e, same, curve, u) = (check_key_iff cert.public_key key cert opts).0 h in
        let (ca, con, signs, crit, eku, w) = (check_usage_iff cert opts).0 u in
        let (win, sig) = (check_window_iff cert opts _ high).0 w in
        record {
          public = p;
          public_key = e;
          same_key = same;
          on_p256 = curve;
          marked_ca = ca;
          constraints = con;
          signs_certs = signs;
          understood = crit;
          purposes = eku;
          window = win;
          signature = sig;
        },
    λ c. (check_key_iff cert.public_key key cert opts).1 (
      c.public,
      c.public_key,
      c.same_key,
      c.on_p256,
      (check_usage_iff cert opts).1 (
        c.marked_ca,
        c.constraints,
        c.signs_certs,
        c.understood,
        c.purposes,
        (check_window_iff cert opts _ high).1 (c.window, c.signature),
      ),
    ),
  )

  pair_with-accept :
      (cert : CaCert K) (key : K) (r : CaResult (Unit {0})) {c : CaCert K} {k : K}
      → pair_with equal is_p256 signs_itself clock cert key r ≡ accept (c, k)
      → (cert ≡ c) × (key ≡ k) × (r ≡ accept tt)
  unfolding pair_with
  pair_with-accept cert key (accept u) e = (cc e, cc e, refl)
  pair_with-accept cert key (refuse x) e = absurd (cc e)

  pair_of-accept :
      (oc : Option (CaCert K)) (ok : Option K) (opts : ValidateCaOptions) {c : CaCert K} {k : K}
      → pair_of equal is_p256 signs_itself clock oc ok opts ≡ accept (c, k)
      → (oc ≡ some c)
        × (ok ≡ some k)
        × (validate_ca equal is_p256 signs_itself clock (some c) (some k) opts ≡ accept tt)
  unfolding pair_of
  pair_of-accept none ok opts e = absurd (cc e)
  pair_of-accept (some cert) none opts e = absurd (cc e)
  pair_of-accept (some cert) (some key) opts e =
      let (a, b, v) = pair_with-accept cert key _ e in (ap some a, ap some b, rw (a, b) at v)

  -- With a margin that an int64 holds: ParseCAPair returns a certificate and a key exactly if the
  -- two parsers read that certificate and that key, and the pair can issue.
  pub parse_ca_pair_iff :
      (parse_cert : List ℕ → Option (CaCert K)) (parse_key : List ℕ → Option K)
      (cert_pem key_pem : List ℕ) (opts : ValidateCaOptions) (cert : CaCert K) (key : K)
      → opts.min_remaining ≤ℤ pos (2 ^ 63 - 1)
      → (parse_ca_pair equal is_p256 signs_itself clock parse_cert parse_key cert_pem key_pem opts
          ≡ accept (cert, key))
        ↔ ((parse_cert cert_pem ≡ some cert)
            × (parse_key key_pem ≡ some key)
            × CanIssue cert key opts)
  unfolding parse_ca_pair pair_of pair_with
  parse_ca_pair_iff parse_cert parse_key cert_pem key_pem opts cert key high = (
    λ h.
        let (a, b, v) = pair_of-accept _ _ opts h in
        (a, b, (validate_ca_iff cert key opts high).0 v),
    λ (a, b, c). rw (a, b) (rw ((validate_ca_iff cert key opts high).1 c)),
  )
