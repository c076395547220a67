-- ===== src/Tests/San.antt =====
-- Concrete inputs for the hardware module names and for the verification of a chain. The encoding
-- here has elements of one byte, but for 48, which takes all that follows as its content.
use ieee_2030_5_core_go.Prelude.{
  ℕ, List, [], ◌∷◌, Option, some, none, Bool, true, false, ◌≡◌, ◌≢◌, ◌↔◌, ◌⊎◌, inl, inr, refl, sym,
  arith, map, All, ◌==◌, if◌then◌else◌, Bool-cases,
}
use ieee_2030_5_core_go.Cert.San.{
  Oid, oid_eq, oid_subject_alt_name, oid_hardware_module_name, RawValue, Extension,
  HardwareModuleName, found, stuck, san_all_hmn, extract_hmn, strict_loop, parse_other_name,
  san_general_names,
}
use ieee_2030_5_core_go.Cert.San.Laws.{Consumes, FirstSan, OnlyHmn, san_all_hmn_iff}
use ieee_2030_5_core_go.Cert.San.Lenient.{extract_hmn-san_all_hmn, extract_hmn-ne_stuck}
use ieee_2030_5_core_go.Tls.Verify.{PeerCert, ok, acknowledge_cert, filter_san, verify_peer}
use ieee_2030_5_core_go.Tls.Verify.Laws.{IsSan}
use ieee_2030_5_core_go.Tls.Verify.Closed.{Parses, verify_peer_iff, verify_peer_closed}

abbrev raw_of : List ℕ → Option (RawValue × List ℕ)
raw_of [] = none
raw_of (b ∷ rest) =
    if b == 48
    then some (
      record { class = 0; tag = 16; is_compound = true; bytes = rest; full_bytes = b ∷ rest },
      [],
    )
    else some
        (record { class = 2; tag = 0; is_compound = true; bytes = []; full_bytes = b ∷ [] }, rest)

abbrev serial : RawValue
serial = record { class = 0; tag = 4; is_compound = false; bytes = 9 ∷ []; full_bytes = 4 ∷ 9 ∷ [] }

abbrev other_name_of : List ℕ → Option (Oid × RawValue)
other_name_of bytes = some (oid_hardware_module_name, serial)

abbrev inner_of : List ℕ → Option (Oid × RawValue)
inner_of bytes = some (1 ∷ 3 ∷ [], serial)

raw_of-Consumes : Consumes raw_of other_name_of inner_of
raw_of-Consumes [] gn rest e = absurd (cc e)
raw_of-Consumes (b ∷ bs) gn rest e = elim (Bool-cases (b == 48)) [
  | inl seq ↦ let q : [] ≡ rest = cc (rw seq at e) in rw (sym q) (omega arith)
  | inr one ↦ let q : bs ≡ rest = cc (rw one at e) in rw (sym q) (omega arith)
]

abbrev some_extensions : List Extension
some_extensions =
    record { id = 2 ∷ 5 ∷ 29 ∷ 15 ∷ []; value = [] }
    ∷ record { id = oid_subject_alt_name; value = 48 ∷ 160 ∷ 160 ∷ [] }
    ∷ []

san_all_hmn_iff_example :
    (san_all_hmn raw_of other_name_of inner_of some_extensions ≡ (true, true))
    ↔ ((ext : Extension) × FirstSan some_extensions ext × OnlyHmn raw_of other_name_of inner_of ext)
san_all_hmn_iff_example =
    san_all_hmn_iff raw_of other_name_of inner_of some_extensions raw_of-Consumes

some_extensions-accepted : san_all_hmn raw_of other_name_of inner_of some_extensions ≡ (true, true)
unfolding san_all_hmn san_general_names strict_loop parse_other_name oid_eq
some_extensions-accepted = refl

extract_hmn-san_all_hmn_example :
    (h : HardwareModuleName) × (extract_hmn raw_of other_name_of inner_of some_extensions ≡ found h)
extract_hmn-san_all_hmn_example =
    extract_hmn-san_all_hmn raw_of other_name_of inner_of some_extensions some_extensions-accepted

extract_hmn-ne_stuck_example : extract_hmn raw_of other_name_of inner_of some_extensions ≢ stuck
extract_hmn-ne_stuck_example =
    extract_hmn-ne_stuck raw_of other_name_of inner_of some_extensions raw_of-Consumes

abbrev some_peer : PeerCert
some_peer = record {
  raw = 1 ∷ [];
  extensions = some_extensions;
  unhandled_critical_extensions = oid_subject_alt_name ∷ [];
}

abbrev strict : List Extension → Bool × Bool
strict = san_all_hmn raw_of other_name_of inner_of

abbrev parse_peer : List ℕ → Option PeerCert
parse_peer raw = some some_peer

-- A chain walk that refuses unhandled critical extensions, and nothing else.
abbrev is_handled : List Oid → Bool
is_handled [] = true
is_handled (o ∷ os) = false

abbrev walk_chain : PeerCert → List PeerCert → Bool
walk_chain leaf rest = is_handled leaf.unhandled_critical_extensions

verify_peer_iff_example : (verify_peer strict parse_peer walk_chain ((1 ∷ []) ∷ []) ≡ ok tt) ↔ (
    (leaf : PeerCert) × (rest : List PeerCert) × Parses strict parse_peer walk_chain
      ((1 ∷ []) ∷ [])
      (leaf ∷ rest)
    × (walk_chain (acknowledge_cert strict leaf).0 (map (λ c. (acknowledge_cert strict c).0) rest)
        ≡ true))
verify_peer_iff_example = verify_peer_iff strict parse_peer walk_chain ((1 ∷ []) ∷ [])

is_handled-nil : (os : List Oid) → is_handled os ≡ true → os ≡ []
is_handled-nil [] e = refl
is_handled-nil (o ∷ os) e = absurd (cc e)

walk_chain-refuses :
    (leaf : PeerCert) (rest : List PeerCert)
    → walk_chain leaf rest ≡ true
    → leaf.unhandled_critical_extensions ≡ []
walk_chain-refuses leaf rest e = is_handled-nil leaf.unhandled_critical_extensions e

some_peer-accepted : verify_peer strict parse_peer walk_chain ((1 ∷ []) ∷ []) ≡ ok tt
unfolding san_all_hmn san_general_names strict_loop parse_other_name oid_eq verify_peer
    acknowledge_cert filter_san
some_peer-accepted = refl

verify_peer_closed_example :
    (leaf : PeerCert) × (rest : List PeerCert) × Parses strict parse_peer walk_chain
      ((1 ∷ []) ∷ [])
      (leaf ∷ rest)
    × ((leaf.unhandled_critical_extensions ≡ [])
        ⊎ (All IsSan leaf.unhandled_critical_extensions × ((strict leaf.extensions).0 ≡ true)))
verify_peer_closed_example =
    verify_peer_closed strict parse_peer walk_chain ((1 ∷ []) ∷ []) walk_chain-refuses
      some_peer-accepted
