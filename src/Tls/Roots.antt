-- ===== src/Tls/Roots.antt =====
-- pkg/sep2tls/client_cas.go: the pool of client roots. The files and the reader of their PEM blocks,
-- AppendCertsFromPEM, are parameters; a certificate is a type of its own.
use Prim.Native.String.{String}
use text.Mathlib.Text.{◌==◌ as str_eq}
use ieee_2030_5_core_go.Prelude.{
  true, false, List, [], ◌∷◌, ◌++◌, Option, none, some, if◌then◌else◌, Text, list_append_assoc,
  list_append_nil, ◌≡◌, ◌↔◌, ◌⊎◌, inl, inr, refl, sym, ap, ◌∙◌, Bool-cases,
}

pub data RootsError : Type 0 where
  no_primary : RootsError
  unreadable no_certificates : String → RootsError

pub data Roots (C : Type 0) : Type 0 where
  fails : RootsError → Roots C
  pool : List C → Roots C

abbrev pub and_then : {C : Type 0} → Roots C → (List C → Roots C) → Roots C
and_then (fails why) next = fails why
and_then (pool certs) next = next certs

and_then-pool :
    {C : Type 0} (r : Roots C) (next : List C → Roots C) {all : List C}
    → and_then r next ≡ pool all
    → (certs : List C) × (r ≡ pool certs) × (next certs ≡ pool all)
and_then-pool (fails why) next e = absurd (cc e)
and_then-pool (pool certs) next e = (certs, refl, e)

module _ {C : Type 0} (read_file : String → Option Text) (certs_from_pem : Text → List C) where
  -- AppendCertsFromPEM reports false if it found no certificate.
  appended : String → List C → List C → Roots C
  appended path certs [] = fails (no_certificates path)
  appended path certs (c ∷ found) = pool (certs ++ (c ∷ found))

  of_file : String → List C → Option Text → Roots C
  unfolding appended
  of_file path certs none = fails (unreadable path)
  of_file path certs (some pem) = appended path certs (certs_from_pem pem)

  -- `appendPEMFile`.
  unfoldable pub append_pem_file : List C → String → Roots C
  unfolding of_file
  append_pem_file certs path = of_file path certs (read_file path)

  unfoldable pub extra_loop : List C → List String → Roots C
  extra_loop certs [] = pool certs
  extra_loop certs (p ∷ paths) =
      if str_eq p ""
      then extra_loop certs paths
      else and_then (append_pem_file certs p) λ more. extra_loop more paths

  unfoldable pub load_client_cas : String → List String → Roots C
  load_client_cas primary extra =
      if str_eq primary ""
      then fails no_primary
      else and_then (append_pem_file [] primary) λ certs. extra_loop certs extra

  -- A file gives these certificates, at least one.
  abbrev pub Gives : String → List C → Type 0
  Gives path found =
      (pem : Text) × (read_file path ≡ some pem)
      × (certs_from_pem pem ≡ found)
      × ((c : C) × (rest : List C) × (found ≡ c ∷ rest))

  -- The files of the paths that are not empty give certificates, which make up the list in order.
  abbrev pub GiveAll : List String → List C → Type 0
  GiveAll [] all = all ≡ []
  GiveAll (p ∷ paths) all =
      ((str_eq p "" ≡ true) × GiveAll paths all)
      ⊎ ((str_eq p "" ≡ false)
          × ((found : List C) × (rest : List C) × Gives p found
              × GiveAll paths rest
              × (all ≡ found ++ rest)))

  append_pem_file-pool :
      (certs : List C) (path : String) {all : List C}
      → append_pem_file certs path ≡ pool all
      → (found : List C) × Gives path found × (all ≡ certs ++ found)
  unfolding append_pem_file of_file appended
  append_pem_file-pool certs path {all = all} e = go (read_file path) refl e
    where
      found_in :
          (pem : Text) (found : List C)
          → read_file path ≡ some pem
          → certs_from_pem pem ≡ found
          → appended path certs found ≡ pool all
          → (found : List C) × Gives path found × (all ≡ certs ++ found)
      found_in pem [] q r e = absurd (cc e)
      found_in pem (c ∷ found) q r e =
          let s : certs ++ (c ∷ found) ≡ all = cc e in
          (c ∷ found, (pem, q, r, (c, found, refl)), sym s)

      go :
          (o : Option Text)
          → read_file path ≡ o
          → of_file path certs o ≡ pool all
          → (found : List C) × Gives path found × (all ≡ certs ++ found)
      go none q e = absurd (cc e)
      go (some pem) q e = found_in pem (certs_from_pem pem) q refl e

  append_pem_file-Gives :
      (certs : List C) (path : String) (found : List C)
      → Gives path found
      → append_pem_file certs path ≡ pool (certs ++ found)
  unfolding append_pem_file of_file appended
  append_pem_file-Gives certs path found (pem, q, r, (c, rest, s)) = rw (q, r, s) refl

  extra_loop-pool :
      (certs : List C) (paths : List String) {all : List C}
      → extra_loop certs paths ≡ pool all
      → (found : List C) × GiveAll paths found × (all ≡ certs ++ found)
  unfolding extra_loop
  extra_loop-pool certs [] {all = all} e =
      let q : certs ≡ all = cc e in ([], refl, sym q ∙ sym (list_append_nil certs))
  extra_loop-pool certs (p ∷ paths) e = elim (Bool-cases (str_eq p "")) [
    | inl q ↦ let (found, g, r) = extra_loop-pool certs paths (rw q at e) in (found, inl (q, g), r)
    | inr q ↦
        let (more, added, e') = and_then-pool (append_pem_file certs p) _ (rw q at e) in
        let (here, gives, r) = append_pem_file-pool certs p added in
        let (rest, g, s) = extra_loop-pool more paths e' in
        (
          here ++ rest,
          inr (q, (here, rest, gives, g, refl)),
          s ∙ (ap (λ x. x ++ rest) r ∙ list_append_assoc certs here rest),
        )
  ]

  extra_loop-GiveAll :
      (certs : List C) (paths : List String) (found : List C)
      → GiveAll paths found
      → extra_loop certs paths ≡ pool (certs ++ found)
  unfolding extra_loop
  extra_loop-GiveAll certs [] found g = rw (g, list_append_nil certs) refl
  extra_loop-GiveAll certs (p ∷ paths) found g = elim g [
    | inl (q, g') ↦ rw q (extra_loop-GiveAll certs paths found g')
    | inr (q, (here, rest, gives, g', s)) ↦
        rw (q, append_pem_file-Gives certs p here gives, s, sym (list_append_assoc certs here rest))
          (extra_loop-GiveAll (certs ++ here) paths rest g')
  ]

  -- LoadClientCAs returns a pool exactly if the primary path is not empty, and every path of the two
  -- arguments that is not empty names a readable file with at least one certificate; the pool has all
  -- their certificates, the primary file's first, in the order of the paths.
  pub load_client_cas_iff :
      (primary : String) (extra : List String) (all : List C)
      → (load_client_cas primary extra ≡ pool all)
        ↔ ((str_eq primary "" ≡ false) × GiveAll (primary ∷ extra) all)
  unfolding load_client_cas
  load_client_cas_iff primary extra all = elim (Bool-cases (str_eq primary "")) [
    | inl q ↦ rw q (λ e. absurd (cc e), λ (r, g). absurd (cc r))
    | inr q ↦ (
      λ e.
          let (certs, added, e') = and_then-pool (append_pem_file [] primary) _ (rw q at e) in
          let (here, gives, r) = append_pem_file-pool [] primary added in
          let (rest, g, s) = extra_loop-pool certs extra e' in
          (q, inr (q, (here, rest, gives, g, s ∙ ap (λ x. x ++ rest) r))),
      λ (r, g). elim g [
        | inl (blank, g') ↦ absurd (cc (blank, q))
        | inr (r', (here, rest, gives, g', s)) ↦
            rw (q, append_pem_file-Gives [] primary here gives, s)
              (extra_loop-GiveAll here extra rest g')
      ],
    )
  ]
