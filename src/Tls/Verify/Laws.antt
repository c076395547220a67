-- ===== src/Tls/Verify/Laws.antt =====
-- Theorems on AcknowledgeHardwareModuleSAN of pkg/sep2tls/verify.go.
use ieee_2030_5_core_go.Prelude.{
  Bool, true, false, List, [], ◌∷◌, ◌≡◌, ◌↔◌, ◌⊎◌, inl, inr, refl, ap, Bool-cases,
}
use ieee_2030_5_core_go.Cert.San.{Oid, oid_eq, oid_subject_alt_name, Extension}
use ieee_2030_5_core_go.Tls.Verify.{PeerCert, filter_san, is_none, acknowledge_cert}

abbrev pub IsSan : Oid → Type 0
IsSan oid = oid_eq oid oid_subject_alt_name ≡ true

-- `new` is `old` without every OID of the SubjectAlternativeName, in the same order.
pub data Without : List Oid → List Oid → Type 0 where
  done : Without [] []
  keep :
      {oid : Oid} {old new : List Oid}
      → oid_eq oid oid_subject_alt_name ≡ false
      → Without old new
      → Without (oid ∷ old) (oid ∷ new)
  drop_san :
      {oid : Oid} {old new : List Oid} → IsSan oid → Without old new → Without (oid ∷ old) new

-- Some OID of the list is that of the SubjectAlternativeName.
pub data HasSan : List Oid → Type 0 where
  here : {oid : Oid} {oids : List Oid} → IsSan oid → HasSan (oid ∷ oids)
  there : {oid : Oid} {oids : List Oid} → HasSan oids → HasSan (oid ∷ oids)

filter_san-Without : (oids : List Oid) → Without oids (filter_san oids).0
unfolding filter_san
filter_san-Without [] = done
filter_san-Without (oid ∷ oids) = elim (Bool-cases (oid_eq oid oid_subject_alt_name)) [
  | inl q ↦ rw q (drop_san q (filter_san-Without oids))
  | inr q ↦ rw q (keep q (filter_san-Without oids))
]

filter_san_iff : (oids : List Oid) → ((filter_san oids).1 ≡ true) ↔ HasSan oids
unfolding filter_san
filter_san_iff [] = ((λ e. absurd (cc e)), (λ h. elim h [ ]))
filter_san_iff (oid ∷ oids) = elim (Bool-cases (oid_eq oid oid_subject_alt_name)) [
  | inl q ↦ rw q ((λ e. here q), (λ h. refl))
  | inr q ↦
      rw q ((λ e. there ((filter_san_iff oids).0 e)), (λ h. (filter_san_iff oids).1 (tail q h)))
]
  where
    tail :
        {oid : Oid} {oids : List Oid}
        → oid_eq oid oid_subject_alt_name ≡ false
        → HasSan (oid ∷ oids)
        → HasSan oids
    tail q (here h) = absurd (cc (q, h))
    tail q (there h) = h

filter_san-same : (oids : List Oid) → (filter_san oids).1 ≡ false → (filter_san oids).0 ≡ oids
unfolding filter_san
filter_san-same [] e = refl
filter_san-same (oid ∷ oids) e = elim (Bool-cases (oid_eq oid oid_subject_alt_name)) [
  | inl q ↦ absurd (cc (rw q at e))
  | inr q ↦ rw q (ap (λ os. oid ∷ os) (filter_san-same oids (rw q at e)))
]

HasSan-cons : (oids : List Oid) → HasSan oids → is_none oids ≡ false
unfolding is_none
HasSan-cons [] h = elim h [ ]
HasSan-cons (oid ∷ oids) h = refl

-- What a call has done: the OID was there, in a name that passes the strict check, and is dropped,
-- or one of the two fails and nothing has changed.
abbrev pub Acknowledged : (List Extension → Bool × Bool) → PeerCert → PeerCert × Bool → Type 0
Acknowledged all_hmn cert (cert', cleared) =
    ((cleared ≡ true)
      × HasSan cert.unhandled_critical_extensions
      × ((all_hmn cert.extensions).0 ≡ true)
      × Without cert.unhandled_critical_extensions cert'.unhandled_critical_extensions
      × (cert'.extensions ≡ cert.extensions)
      × (cert'.raw ≡ cert.raw))
    ⊎ ((cleared ≡ false)
        × (cert' ≡ cert)
        × ((¬ HasSan cert.unhandled_critical_extensions) ⊎ ((all_hmn cert.extensions).0 ≡ false)))

-- Of every certificate: AcknowledgeHardwareModuleSAN answers true, removes each OID of the
-- SubjectAlternativeName from the unhandled critical extensions and keeps all else in order, where
-- that OID is in the list and the extension passes the strict check; elsewhere it answers false
-- and leaves the certificate as it was.
pub acknowledge_cert-Acknowledged :
    (all_hmn : List Extension → Bool × Bool) (cert : PeerCert)
    → Acknowledged all_hmn cert (acknowledge_cert all_hmn cert)
unfolding acknowledge_cert
acknowledge_cert-Acknowledged all_hmn cert =
    let oids = cert.unhandled_critical_extensions in
    elim (Bool-cases (is_none oids)) [
      | inl empty ↦ rw empty (inr (refl, refl, inl λ h. cc (empty, HasSan-cons oids h)))
      | inr listed ↦ elim (Bool-cases ((all_hmn cert.extensions).0)) [
        | inr no_names ↦ rw (listed, no_names) (inr (refl, refl, inr refl))
        | inl names ↦ elim (Bool-cases ((filter_san oids).1)) [
          | inl cleared ↦
              rw (listed, names)
                (inl (
                  cleared,
                  (filter_san_iff oids).0 cleared,
                  refl,
                  filter_san-Without oids,
                  refl,
                  refl,
                ))
          | inr kept ↦
              rw (listed, names)
                (inr (
                  kept,
                  ap (λ os. record cert { unhandled_critical_extensions = os })
                      (filter_san-same oids kept),
                  inl λ h. cc (kept, (filter_san_iff oids).1 h),
                ))
        ]
      ]
    ]
