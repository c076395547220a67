-- ===== src/Tls/Verify/Closed.antt =====
-- Theorems on the verification of a chain by pkg/sep2tls/verify.go.
use ieee_2030_5_core_go.Prelude.{
  ℕ, suc, Bool, true, List, [], ◌∷◌, Option, some, map, All, ◌≡◌, ◌↔◌, ◌⊎◌, inl, inr, refl, ap, sym,
  ◌∙◌, Bool-cases, Option-cases,
}
use ieee_2030_5_core_go.Cert.San.{Oid, Extension}
use ieee_2030_5_core_go.Tls.Verify.{
  PeerCert, VerifyResult, ok, err, acknowledge_cert, parse_chain, parsed_cert, cons_cert,
  verify_chain, verify_peer,
}
use ieee_2030_5_core_go.Tls.Verify.Laws.{
  IsSan, Without, done, drop_san, acknowledge_cert-Acknowledged,
}

module _ (all_hmn : List Extension → Bool × Bool) (parse : List ℕ → Option PeerCert)
    (verify : PeerCert → List PeerCert → Bool) where
  -- The texts are parsed to these certificates, each to its own.
  pub data Parses : List (List ℕ) → List PeerCert → Type 0 where
    none_left : Parses [] []
    parsed :
        {raw : List ℕ} {raws : List (List ℕ)} {cert : PeerCert} {chain : List PeerCert}
        → parse raw ≡ some cert
        → Parses raws chain
        → Parses (raw ∷ raws) (cert ∷ chain)

  abbrev chain_of : ℕ → List (List ℕ) → VerifyResult (List PeerCert)
  chain_of = parse_chain all_hmn parse verify

  cons_cert-ok :
      (cert : PeerCert) (r : VerifyResult (List PeerCert)) {chain : List PeerCert}
      → cons_cert all_hmn parse verify cert r ≡ ok chain
      → (rest : List PeerCert) × (r ≡ ok rest) × (cert ∷ rest ≡ chain)
  unfolding cons_cert
  cons_cert-ok cert (ok rest) e = (rest, refl, cc e)
  cons_cert-ok cert (err x) e = absurd (cc e)

  parse_chain-Parses :
      (i : ℕ) (raws : List (List ℕ)) {chain : List PeerCert}
      → chain_of i raws ≡ ok chain
      → Parses raws chain
  unfolding parse_chain parsed_cert
  parse_chain-Parses i [] {chain = chain} e = let q : [] ≡ chain = cc e in rw (sym q) none_left
  parse_chain-Parses i (raw ∷ raws) e = elim (Option-cases (parse raw)) [
    | inl q ↦ absurd (cc (rw q at e))
    | inr (cert, q) ↦
        let (rest, r, same) = cons_cert-ok cert (chain_of (suc i) raws) (rw q at e) in
        rw (sym same) (parsed q (parse_chain-Parses (suc i) raws r))
  ]

  Parses-parse_chain :
      (i : ℕ) {raws : List (List ℕ)} {chain : List PeerCert}
      → Parses raws chain
      → chain_of i raws ≡ ok chain
  unfolding parse_chain parsed_cert cons_cert
  Parses-parse_chain i none_left = refl
  Parses-parse_chain i (parsed q rest) = rw (q, Parses-parse_chain (suc i) rest)

  abbrev acknowledged : PeerCert → PeerCert
  acknowledged cert = (acknowledge_cert all_hmn cert).0

  -- The callback accepts exactly the lists whose every element is parsed, that have a first one,
  -- and whose first certificate the chain walk verifies with the others as intermediates, each
  -- after its acknowledgement.
  pub verify_peer_iff :
      (raws : List (List ℕ))
      → (verify_peer all_hmn parse verify raws ≡ ok tt) ↔ (
          (leaf : PeerCert) × (rest : List PeerCert) × Parses raws (leaf ∷ rest)
          × (verify
                (acknowledge_cert all_hmn leaf).0
                (map (λ c. (acknowledge_cert all_hmn c).0) rest)
              ≡ true))
  unfolding verify_peer verify_chain
  verify_peer_iff [] = ((λ e. absurd (cc e)), (λ h. elim h.2 [ ]))
  verify_peer_iff (raw ∷ raws) =
      (λ e. from_chain (chain_of 0 (raw ∷ raws)) refl e, λ h. rw (Parses-parse_chain 0 h.2, h.3))
    where
      from_chain :
          (r : VerifyResult (List PeerCert))
          → chain_of 0 (raw ∷ raws) ≡ r
          → verify_chain all_hmn parse verify r ≡ ok tt
          → (leaf : PeerCert) × (rest : List PeerCert) × Parses (raw ∷ raws) (leaf ∷ rest)
            × (verify
                  (acknowledge_cert all_hmn leaf).0
                  (map (λ c. (acknowledge_cert all_hmn c).0) rest)
                ≡ true)
      from_chain (err x) q e = absurd (cc e)
      from_chain (ok []) q e = absurd (cc e)
      from_chain (ok (leaf ∷ rest)) q e =
          elim (Bool-cases (verify (acknowledged leaf) (map acknowledged rest))) [
            | inl v ↦ (leaf, rest, parse_chain-Parses 0 (raw ∷ raws) q, v)
            | inr v ↦ absurd (cc (rw v at e))
          ]

  All-dropped : {oids : List Oid} → Without oids [] → All IsSan oids
  All-dropped done = tt
  All-dropped (drop_san q w) = (q, All-dropped w)

  -- If the chain walk refuses a leaf with an unhandled critical extension, as crypto/x509 does: of
  -- a chain that the callback accepts, the leaf has no unhandled critical extension at all, or only
  -- the SubjectAlternativeName, which then passes the strict check.
  pub verify_peer_closed :
      (raws : List (List ℕ))
      → ((leaf : PeerCert) (rest : List PeerCert)
          → verify leaf rest ≡ true
          → leaf.unhandled_critical_extensions ≡ [])
      → verify_peer all_hmn parse verify raws ≡ ok tt
      → (leaf : PeerCert) × (rest : List PeerCert) × Parses raws (leaf ∷ rest)
        × ((leaf.unhandled_critical_extensions ≡ [])
            ⊎ (All IsSan leaf.unhandled_critical_extensions × ((all_hmn leaf.extensions).0 ≡ true)))
  verify_peer_closed raws refuses e =
      let (leaf, rest, chain, v) = (verify_peer_iff raws).0 e in
      (
        leaf,
        rest,
        chain,
        elim (acknowledge_cert-Acknowledged all_hmn leaf) [
          | inl (cleared, has, names, without, same, raw) ↦
              inr (All-dropped (rw (refuses (acknowledged leaf) _ v) at without), names)
          | inr (kept, same, why) ↦ inl (
              ap (λ c. c.unhandled_critical_extensions) (sym same)
              ∙ refuses (acknowledged leaf) _ v)
        ],
      )
