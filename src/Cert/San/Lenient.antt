-- ===== src/Cert/San/Lenient.antt =====
-- Theorems on ExtractHardwareModuleName of pkg/sep2cert/oids.go.
use ieee_2030_5_core_go.Prelude.{
  ℕ, zero, suc, ◌≤◌, true, List, [], ◌∷◌, Option, none, some, length, All, ◌≡◌, ◌≢◌, inl, inr, refl,
  arith, Bool-cases, Option-cases,
}
use ieee_2030_5_core_go.Cert.San.{
  Oid, oid_eq, oid_subject_alt_name, RawValue, Extension, HardwareModuleName, OtherName, other,
  malformed, hmn, Walk, found, nothing, failed, stuck, walk_step, on_name, or_later,
  san_general_names, walk_loop, walk_names, extract_hmn, san_all_hmn,
}
use ieee_2030_5_core_go.Cert.San.Laws.{
  FirstSan, here, past, Names, last, next, Consumes, OnlyParsed, found_only,
}
use ieee_2030_5_core_go.Cert.San.Names.{IsParsed}

module _ (unmarshal_raw : List ℕ → Option (RawValue × List ℕ))
    (unmarshal_other_name : List ℕ → Option (Oid × RawValue))
    (unmarshal_inner : List ℕ → Option (Oid × RawValue)) where
  abbrev extract : List Extension → Walk
  extract = extract_hmn unmarshal_raw unmarshal_other_name unmarshal_inner

  walk_loop-hmn :
      (bytes : List ℕ) (gns : List RawValue)
      → Names unmarshal_raw unmarshal_other_name unmarshal_inner bytes gns
      → gns ≢ []
      → All (IsParsed unmarshal_raw unmarshal_other_name unmarshal_inner) gns
      → (h : HardwareModuleName) × (walk_loop unmarshal_raw unmarshal_other_name unmarshal_inner
            (length bytes)
            bytes
          ≡ found h)
  unfolding walk_loop walk_step on_name
  walk_loop-hmn bytes gns last ne all = absurd (ne refl)
  walk_loop-hmn bytes gns (next q names) ne ((h, r), all) = (h, rw (q, r))

  extract-FirstSan :
      (exts : List Extension) {ext : Extension}
      → FirstSan exts ext
      → OnlyParsed unmarshal_raw unmarshal_other_name unmarshal_inner ext
      → (h : HardwareModuleName) × (extract exts ≡ found h)
  unfolding extract_hmn walk_names or_later
  extract-FirstSan [] f only = elim f [ ]
  extract-FirstSan (ext ∷ exts) (here q) only =
      let (h, e) =
        walk_loop-hmn only.bytes only.entries only.are_entries only.not_none only.are_hmn in
      (h, rw (q, only.is_content, e))
  extract-FirstSan (ext ∷ exts) (past q f) only =
      let (h, e) = extract-FirstSan exts f only in (h, rw (q, e))

  -- Whatever encoding/asn1 does: a certificate that passes the strict check has a hardware module
  -- name for the lenient reader.
  pub extract_hmn-san_all_hmn :
      (exts : List Extension)
      → san_all_hmn unmarshal_raw unmarshal_other_name unmarshal_inner exts ≡ (true, true)
      → (h : HardwareModuleName) × (extract_hmn unmarshal_raw unmarshal_other_name unmarshal_inner
            exts
          ≡ found h)
  extract_hmn-san_all_hmn exts e =
      let (ext, f, only) = found_only unmarshal_raw unmarshal_other_name unmarshal_inner exts e in
      extract-FirstSan exts f only

  on_name-ne_stuck :
      (o : OtherName) (later : Walk)
      → later ≢ stuck
      → on_name unmarshal_raw unmarshal_other_name unmarshal_inner o later ≢ stuck
  unfolding on_name
  on_name-ne_stuck other later h = h
  on_name-ne_stuck malformed later h = λ e. cc e
  on_name-ne_stuck (hmn n) later h = λ e. cc e

  walk_loop-ne_stuck :
      (fuel : ℕ) (bytes : List ℕ)
      → Consumes unmarshal_raw unmarshal_other_name unmarshal_inner
      → length bytes ≤ fuel
      → walk_loop unmarshal_raw unmarshal_other_name unmarshal_inner fuel bytes ≢ stuck
  unfolding walk_loop walk_step
  walk_loop-ne_stuck fuel [] shrink enough = λ e. cc e
  walk_loop-ne_stuck zero (b ∷ rest) shrink enough = absurd (omega arith)
  walk_loop-ne_stuck (suc fuel) (b ∷ rest) shrink enough =
      elim (Option-cases (unmarshal_raw (b ∷ rest))) [
        | inl q ↦ rw q (λ e. cc e)
        | inr (p, q) ↦
            let shorter = shrink (b ∷ rest) p.0 p.1 q in
            rw q (on_name-ne_stuck _ _ (walk_loop-ne_stuck fuel p.1 shrink (omega arith)))
      ]

  walk_names-ne_stuck :
      (o : Option (List ℕ))
      → Consumes unmarshal_raw unmarshal_other_name unmarshal_inner
      → walk_names unmarshal_raw unmarshal_other_name unmarshal_inner o ≢ stuck
  unfolding walk_names
  walk_names-ne_stuck none shrink = λ e. cc e
  walk_names-ne_stuck (some bytes) shrink =
      walk_loop-ne_stuck (length bytes) bytes shrink (omega arith)

  or_later-ne_stuck :
      (w later : Walk)
      → w ≢ stuck
      → later ≢ stuck
      → or_later unmarshal_raw unmarshal_other_name unmarshal_inner w later ≢ stuck
  unfolding or_later
  or_later-ne_stuck (found h) later a b = λ e. cc e
  or_later-ne_stuck failed later a b = λ e. cc e
  or_later-ne_stuck stuck later a b = absurd (a refl)
  or_later-ne_stuck nothing later a b = b

  -- If reading an element takes at least a byte, the lenient reader's loops end on all extensions.
  pub extract_hmn-ne_stuck :
      (exts : List Extension)
      → Consumes unmarshal_raw unmarshal_other_name unmarshal_inner
      → extract_hmn unmarshal_raw unmarshal_other_name unmarshal_inner exts ≢ stuck
  unfolding extract_hmn
  extract_hmn-ne_stuck [] shrink = λ e. cc e
  extract_hmn-ne_stuck (ext ∷ exts) shrink =
      elim (Bool-cases (oid_eq ext.id oid_subject_alt_name)) [
        | inr q ↦ rw q (extract_hmn-ne_stuck exts shrink)
        | inl q ↦ rw q (
            or_later-ne_stuck _ _
              (walk_names-ne_stuck
                (san_general_names unmarshal_raw unmarshal_other_name unmarshal_inner ext.value)
                shrink)
              (extract_hmn-ne_stuck exts shrink))
      ]
