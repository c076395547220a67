-- ===== src/Cert/San/Laws.antt =====
-- The content of a SubjectAlternativeName, and theorems on SANAllOtherNamesAreHardwareModuleName
-- of pkg/sep2cert/oids.go.
use ieee_2030_5_core_go.Prelude.{
  ℕ, zero, suc, ◌+◌, ◌≤◌, ◌<◌, Bool, true, false, List, [], ◌∷◌, Option, some, ltb, length, All,
  ◌≡◌, ◌≢◌, ◌↔◌, ◌⊎◌, inl, inr, refl, ap, ◌∙◌, arith, Bool-cases, Option-cases,
}
use ieee_2030_5_core_go.Cert.San.{
  Oid, oid_eq, oid_subject_alt_name, RawValue, Extension, HardwareModuleName, OtherName, other,
  malformed, hmn, Scan, scanned, refused, stuck, is_hmn, strict_step, san_general_names,
  parse_other_name, strict_loop, strict_answer, strict_names, san_all_hmn,
}
use ieee_2030_5_core_go.Cert.San.Names.{
  IsHmn, SequenceContent, IsParsed, IsParsed-IsHmn, IsHmn-IsParsed,
  san_general_names-SequenceContent,
}

is_hmn-cases : (o : OtherName) → ((h : HardwareModuleName) × (o ≡ hmn h)) ⊎ (is_hmn o ≡ false)
unfolding is_hmn
is_hmn-cases other = inr refl
is_hmn-cases malformed = inr refl
is_hmn-cases (hmn h) = inl (h, refl)

All-map : {A : Type 0} {P Q : A → Type 0} → ((a : A) → P a → Q a) → (l : List A) → All P l → All Q l
All-map f [] h = h
All-map f (a ∷ l) (x, h) = (f a x, All-map f l h)

-- The first extension with the identifier of the SubjectAlternativeName.
pub data FirstSan : List Extension → Extension → Type 0 where
  here :
      {ext : Extension} {exts : List Extension}
      → oid_eq ext.id oid_subject_alt_name ≡ true
      → FirstSan (ext ∷ exts) ext
  past :
      {other ext : Extension} {exts : List Extension}
      → oid_eq other.id oid_subject_alt_name ≡ false
      → FirstSan exts ext
      → FirstSan (other ∷ exts) ext

module _ (unmarshal_raw : List ℕ → Option (RawValue × List ℕ))
    (unmarshal_other_name : List ℕ → Option (Oid × RawValue))
    (unmarshal_inner : List ℕ → Option (Oid × RawValue)) where
  -- The bytes are these elements, one behind the other.
  pub data Names : List ℕ → List RawValue → Type 0 where
    last : Names [] []
    next :
        {b : ℕ} {rest behind : List ℕ} {gn : RawValue} {gns : List RawValue}
        → unmarshal_raw (b ∷ rest) ≡ some (gn, behind)
        → Names behind gns
        → Names (b ∷ rest) (gn ∷ gns)

  -- Every element has at least one byte.
  abbrev pub Consumes : Type 0
  Consumes =
      (bytes : List ℕ) (gn : RawValue) (rest : List ℕ)
      → unmarshal_raw bytes ≡ some (gn, rest)
      → length rest < length bytes

  abbrev Parsed : RawValue → Type 0
  Parsed = IsParsed unmarshal_raw unmarshal_other_name unmarshal_inner

  abbrev scan : ℕ → ℕ → List ℕ → Scan
  scan = strict_loop unmarshal_raw unmarshal_other_name unmarshal_inner

  strict_loop-Names :
      (fuel entries : ℕ) (bytes : List ℕ) {n : ℕ}
      → scan fuel entries bytes ≡ scanned n
      → (gns : List RawValue) × Names bytes gns × All Parsed gns × (n ≡ entries + length gns)
  unfolding strict_loop strict_step
  strict_loop-Names fuel entries [] {n = n} e =
      let count : entries ≡ n = cc e in ([], last, tt, omega arith)
  strict_loop-Names zero entries (b ∷ rest) e = absurd (cc e)
  strict_loop-Names (suc fuel) entries (b ∷ rest) {n = n} e =
      elim (Option-cases (unmarshal_raw (b ∷ rest))) [
        | inl q ↦ absurd (cc (rw q at e))
        | inr (p, q) ↦
            elim (is_hmn-cases
              (parse_other_name unmarshal_raw unmarshal_other_name unmarshal_inner p.0)) [
                | inl (h, r) ↦
                    let (gns, names, all, count) =
                      strict_loop-Names fuel (suc entries) p.1 (rw (q, r) at e) in
                    (p.0 ∷ gns, next q names, ((h, r), all), omega arith)
                | inr r ↦ absurd (cc (rw (q, r) at e))
              ]
      ]

  strict_loop-scanned :
      (fuel entries : ℕ) {bytes : List ℕ} {gns : List RawValue}
      → Consumes
      → length bytes ≤ fuel
      → Names bytes gns
      → All Parsed gns
      → scan fuel entries bytes ≡ scanned (entries + length gns)
  unfolding strict_loop strict_step
  strict_loop-scanned fuel entries shrink enough last all = ap scanned (omega arith)
  strict_loop-scanned zero entries shrink enough (next q names) all = absurd (omega arith)
  strict_loop-scanned (suc fuel) entries {bytes = bytes} shrink enough
        (next {behind = behind} {gn = gn} {gns = gns} q names) (h, all) =
      let shorter = shrink _ gn behind q in
      rw (q, h.1)
        (strict_loop-scanned fuel (suc entries) shrink (omega arith) names all
          ∙ ap scanned (omega arith))

  abbrev all_hmn : List Extension → Bool × Bool
  all_hmn = san_all_hmn unmarshal_raw unmarshal_other_name unmarshal_inner

  abbrev content : List ℕ → Option (List ℕ)
  content = san_general_names unmarshal_raw unmarshal_other_name unmarshal_inner

  strict_answer-accepts :
      (s : Scan)
      → strict_answer unmarshal_raw unmarshal_other_name unmarshal_inner s ≡ (true, true)
      → (n : ℕ) × (s ≡ scanned n) × (0 < n)
  unfolding strict_answer
  strict_answer-accepts (scanned n) e =
      let some_entry : ltb 0 n ≡ true = ap (λ p. p.0) e in (n, refl, ground arith)
  strict_answer-accepts refused e = absurd (cc e)
  strict_answer-accepts stuck e = absurd (cc e)

  pub record OnlyParsed (ext : Extension) : Type 0 where
    pub bytes : List ℕ
    pub is_content : content ext.value ≡ some bytes
    pub entries : List RawValue
    pub are_entries : Names bytes entries
    pub not_none : entries ≢ []
    pub are_hmn : All Parsed entries

  strict_names-OnlyParsed :
      (ext : Extension)
      → strict_answer unmarshal_raw unmarshal_other_name unmarshal_inner
          (strict_names unmarshal_raw unmarshal_other_name unmarshal_inner (content ext.value))
        ≡ (true, true)
      → OnlyParsed ext
  unfolding strict_names
  strict_names-OnlyParsed ext e =
      let (n, q, pos) = strict_answer-accepts _ e in
      elim (Option-cases (content ext.value)) [
        | inl none_q ↦ absurd (cc (rw none_q at q))
        | inr (bytes, some_q) ↦
            let (gns, names, all, count) =
              strict_loop-Names (length bytes) 0 bytes (rw some_q at q) in
            record {
              bytes = bytes;
              is_content = some_q;
              entries = gns;
              are_entries = names;
              not_none = nonempty gns (omega arith);
              are_hmn = all;
            }
      ]
    where
      nonempty : (gns : List RawValue) → 0 < length gns → gns ≢ []
      nonempty [] h = absurd (omega arith)
      nonempty (gn ∷ gns) h = λ e. cc e

  pub found_only :
      (exts : List Extension)
      → all_hmn exts ≡ (true, true)
      → (ext : Extension) × FirstSan exts ext × OnlyParsed ext
  unfolding san_all_hmn
  found_only [] e = absurd (cc e)
  found_only (ext ∷ exts) e = elim (Bool-cases (oid_eq ext.id oid_subject_alt_name)) [
    | inl q ↦ (ext, here q, strict_names-OnlyParsed ext (rw q at e))
    | inr q ↦ let (x, f, only) = found_only exts (rw q at e) in (x, past q f, only)
  ]

  positive : (gns : List RawValue) → gns ≢ [] → ltb 0 (0 + length gns) ≡ true
  positive [] h = absurd (h refl)
  positive (gn ∷ gns) h = ground arith

  accepts :
      (exts : List Extension)
      → Consumes
      → {ext : Extension} → FirstSan exts ext
      → OnlyParsed ext
      → all_hmn exts ≡ (true, true)
  unfolding san_all_hmn strict_names strict_answer
  accepts [] shrink f only = elim f [ ]
  accepts (ext ∷ exts) shrink (here q) only =
      rw (q, only.is_content)
        (rw
          (strict_loop-scanned (length only.bytes) 0 shrink (omega arith) only.are_entries
            only.are_hmn)
          (ap (λ b. (b, true)) (positive only.entries only.not_none)))
  accepts (ext ∷ exts) shrink (past q f) only = rw q (accepts exts shrink f only)

  -- The extension's value is a sequence of one or more elements, all of them hardware module names.
  pub record OnlyHmn (ext : Extension) : Type 0 where
    pub bytes : List ℕ
    pub is_content :
        SequenceContent unmarshal_raw unmarshal_other_name unmarshal_inner ext.value bytes
    pub entries : List RawValue
    pub are_entries : Names bytes entries
    pub not_none : entries ≢ []
    pub are_hmn : All (IsHmn unmarshal_raw unmarshal_other_name unmarshal_inner) entries

  OnlyParsed-OnlyHmn : (ext : Extension) → OnlyParsed ext ↔ OnlyHmn ext
  OnlyParsed-OnlyHmn ext = (
    λ only. record {
      bytes = only.bytes;
      is_content =
          (san_general_names-SequenceContent unmarshal_raw unmarshal_other_name unmarshal_inner
              ext.value only.bytes).0
            only.is_content;
      entries = only.entries;
      are_entries = only.are_entries;
      not_none = only.not_none;
      are_hmn =
          All-map (IsParsed-IsHmn unmarshal_raw unmarshal_other_name unmarshal_inner) only.entries
            only.are_hmn;
    },
    λ only. record {
      bytes = only.bytes;
      is_content =
          (san_general_names-SequenceContent unmarshal_raw unmarshal_other_name unmarshal_inner
              ext.value only.bytes).1
            only.is_content;
      entries = only.entries;
      are_entries = only.are_entries;
      not_none = only.not_none;
      are_hmn =
          All-map (IsHmn-IsParsed unmarshal_raw unmarshal_other_name unmarshal_inner) only.entries
            only.are_hmn;
    },
  )

  -- If reading an element takes at least a byte: the strict check answers (true, true) exactly if
  -- the first SubjectAlternativeName among the extensions starts with a constructed universal
  -- SEQUENCE whose content is one or more elements up to its last byte, each an otherName with the
  -- identifier 1.3.6.1.5.5.7.8.4, a hardware type that is not empty, and an OCTET STRING as serial
  -- number.
  pub san_all_hmn_iff :
      (exts : List Extension)
      → Consumes
      → (all_hmn exts ≡ (true, true)) ↔ ((ext : Extension) × FirstSan exts ext × OnlyHmn ext)
  san_all_hmn_iff exts shrink = (
    λ e. let (ext, f, only) = found_only exts e in (ext, f, (OnlyParsed-OnlyHmn ext).0 only),
    λ (ext, f, only). accepts exts shrink f ((OnlyParsed-OnlyHmn ext).1 only),
  )
