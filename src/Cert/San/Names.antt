-- ===== src/Cert/San/Names.antt =====
-- The form of a hardware module name in a SubjectAlternativeName, by RFC 4108, and lemmas on
-- parseOtherNameHMN and sanGeneralNames of pkg/sep2cert/oids.go.
use ieee_2030_5_core_go.Prelude.{
  ℕ, Bool, true, false, not, ◌||◌, List, [], ◌∷◌, Option, none, some, length, ◌==◌, ==_iff,
  if◌then◌else◌, ◌≡◌, ◌≢◌, ◌↔◌, inl, inr, refl, arith, Bool-cases,
}
use ieee_2030_5_core_go.Cert.San.{
  Oid, oid_eq, oid_hardware_module_name, RawValue, HardwareModuleName, other, malformed, hmn,
  of_inner, of_other_name, parse_other_name, names_of, san_general_names,
}

oid_eq_refl : (a : Oid) → oid_eq a a ≡ true
unfolding oid_eq
oid_eq_refl [] = refl
oid_eq_refl (a ∷ as') = rw ((==_iff a a).1 refl) (oid_eq_refl as')

oid_eq-true : (a b : Oid) → oid_eq a b ≡ true → a ≡ b
unfolding oid_eq
oid_eq-true [] [] e = refl
oid_eq-true [] (b ∷ bs) e = absurd (cc e)
oid_eq-true (a ∷ as') [] e = absurd (cc e)
oid_eq-true (a ∷ as') (b ∷ bs) e = elim (Bool-cases (a == b)) [
  | inl q ↦
      let heads : a ≡ b = (==_iff a b).0 q in
      let tails : as' ≡ bs = oid_eq-true as' bs (rw q at e) in cc (heads, tails)
  | inr q ↦ absurd (cc (rw q at e))
]

unless-cases :
    {A : Type 0} (b : Bool) (x y : A) {z : A}
    → (if not b then x else y) ≡ z
    → x ≢ z
    → (b ≡ true) × (y ≡ z)
unless-cases true x y e differs = (refl, e)
unless-cases false x y e differs = absurd (differs e)

either-cases :
    {A : Type 0} (a b : Bool) (x y : A) {z : A}
    → (if not a || not b then x else y) ≡ z
    → x ≢ z
    → (a ≡ true) × (b ≡ true) × (y ≡ z)
either-cases true true x y e differs = (refl, refl, e)
either-cases true false x y e differs = absurd (differs e)
either-cases false b x y e differs = absurd (differs e)

module _ (unmarshal_raw : List ℕ → Option (RawValue × List ℕ))
    (unmarshal_other_name : List ℕ → Option (Oid × RawValue))
    (unmarshal_inner : List ℕ → Option (Oid × RawValue)) where
  -- A well-formed name: an otherName (context tag 0) with the identifier 1.3.6.1.5.5.7.8.4 of
  -- hardware module names, whose value has a hardware type that is not empty and, as serial number,
  -- an OCTET STRING (universal tag 4).
  pub record IsHmn (gn : RawValue) : Type 0 where
    pub in_context : gn.class ≡ 2
    pub is_other_name : gn.tag ≡ 0
    pub type_id : Oid
    pub value : RawValue
    pub reads : unmarshal_other_name gn.full_bytes ≡ some (type_id, value)
    pub names_hmn : type_id ≡ 1 ∷ 3 ∷ 6 ∷ 1 ∷ 5 ∷ 5 ∷ 7 ∷ 8 ∷ 4 ∷ []
    pub hw_type : Oid
    pub serial : RawValue
    pub reads_inner : unmarshal_inner value.bytes ≡ some (hw_type, serial)
    pub has_type : hw_type ≢ []
    pub is_octet_string : serial.tag ≡ 4
    pub is_universal : serial.class ≡ 0

  -- The content of a constructed universal SEQUENCE (tag 16) at the start of the bytes.
  pub record SequenceContent (ext bytes : List ℕ) : Type 0 where
    pub seq : RawValue
    pub behind : List ℕ
    pub reads : unmarshal_raw ext ≡ some (seq, behind)
    pub is_universal : seq.class ≡ 0
    pub is_sequence : seq.tag ≡ 16
    pub is_constructed : seq.is_compound ≡ true
    pub content : seq.bytes ≡ bytes

  abbrev pub IsParsed : RawValue → Type 0
  IsParsed gn =
      (h : HardwareModuleName) × (parse_other_name unmarshal_raw unmarshal_other_name
          unmarshal_inner gn
        ≡ hmn h)

  of_inner-hmn :
      (o : Option (Oid × RawValue)) {h : HardwareModuleName}
      → of_inner unmarshal_raw unmarshal_other_name unmarshal_inner o ≡ hmn h
      → (hw_type : Oid) × (serial : RawValue) × (o ≡ some (hw_type, serial))
        × (hw_type ≢ [])
        × (serial.tag ≡ 4)
        × (serial.class ≡ 0)
  unfolding of_inner
  of_inner-hmn none e = absurd (cc e)
  of_inner-hmn (some ([], serial)) e = absurd (cc e)
  of_inner-hmn (some (a ∷ as', serial)) e =
      let some_arc : (length (a ∷ as') == 0) ≡ false = ground arith in
      let (tag, class, same) =
        either-cases (serial.tag == 4) (serial.class == 0) malformed _ (rw some_arc at e)
          (λ q. cc q) in
      (
        a ∷ as',
        serial,
        refl,
        λ q. cc q,
        (==_iff serial.tag 4).0 tag,
        (==_iff serial.class 0).0 class,
      )

  of_other_name-hmn :
      (gn : RawValue) (o : Option (Oid × RawValue)) {h : HardwareModuleName}
      → gn.class ≡ 2
      → gn.tag ≡ 0
      → unmarshal_other_name gn.full_bytes ≡ o
      → of_other_name unmarshal_raw unmarshal_other_name unmarshal_inner o ≡ hmn h
      → IsHmn gn
  unfolding of_other_name
  of_other_name-hmn gn none class tag q e = absurd (cc e)
  of_other_name-hmn gn (some (type_id, value)) class tag q e =
      let (same, inner) =
        unless-cases (oid_eq type_id oid_hardware_module_name) other _ e (λ q. cc q) in
      let (hw_type, serial, reads, has, octets, universal) = of_inner-hmn _ inner in
      record {
        in_context = class;
        is_other_name = tag;
        type_id = type_id;
        value = value;
        reads = q;
        names_hmn = oid_eq-true type_id oid_hardware_module_name same;
        hw_type = hw_type;
        serial = serial;
        reads_inner = reads;
        has_type = has;
        is_octet_string = octets;
        is_universal = universal;
      }

  pub IsParsed-IsHmn : (gn : RawValue) → IsParsed gn → IsHmn gn
  unfolding parse_other_name
  IsParsed-IsHmn gn (h, e) =
      let (class, tag, rest) = either-cases (gn.class == 2) (gn.tag == 0) other _ e (λ q. cc q) in
      of_other_name-hmn gn _ ((==_iff gn.class 2).0 class) ((==_iff gn.tag 0).0 tag) refl rest

  inner-hmn :
      (hw_type : Oid) (serial : RawValue)
      → hw_type ≢ []
      → serial.tag ≡ 4
      → serial.class ≡ 0
      → of_inner unmarshal_raw unmarshal_other_name unmarshal_inner (some (hw_type, serial))
        ≡ hmn (record { hw_type = hw_type; hw_serial_num = serial.bytes })
  unfolding of_inner
  inner-hmn [] serial has tag class = absurd (has refl)
  inner-hmn (a ∷ as') serial has tag class =
      let some_arc : (length (a ∷ as') == 0) ≡ false = ground arith in
      rw (some_arc, (==_iff serial.tag 4).1 tag, (==_iff serial.class 0).1 class) refl

  pub IsHmn-IsParsed : (gn : RawValue) → IsHmn gn → IsParsed gn
  unfolding parse_other_name of_other_name
  IsHmn-IsParsed gn n =
      let same : oid_eq n.type_id oid_hardware_module_name ≡ true =
        rw n.names_hmn (oid_eq_refl oid_hardware_module_name) in
      (
        record { hw_type = n.hw_type; hw_serial_num = n.serial.bytes },
        rw
            (
              (==_iff gn.class 2).1 n.in_context,
              (==_iff gn.tag 0).1 n.is_other_name,
              n.reads,
              same,
              n.reads_inner,
            )
            (inner-hmn n.hw_type n.serial n.has_type n.is_octet_string n.is_universal),
      )

  pub san_general_names-SequenceContent :
      (ext bytes : List ℕ)
      → (san_general_names unmarshal_raw unmarshal_other_name unmarshal_inner ext ≡ some bytes)
        ↔ SequenceContent ext bytes
  unfolding san_general_names names_of
  san_general_names-SequenceContent ext bytes = (λ e. go (unmarshal_raw ext) refl e, back)
    where
      go :
          (o : Option (RawValue × List ℕ))
          → unmarshal_raw ext ≡ o
          → names_of unmarshal_raw unmarshal_other_name unmarshal_inner o ≡ some bytes
          → SequenceContent ext bytes
      go none q e = absurd (cc e)
      go (some (seq, behind)) q e = elim (Bool-cases (seq.class == 0)) [
        | inr r ↦ absurd (cc (rw r at e))
        | inl r ↦ elim (Bool-cases (seq.tag == 16)) [
          | inr s ↦ absurd (cc (rw (r, s) at e))
          | inl s ↦ elim (Bool-cases seq.is_compound) [
            | inr t ↦ absurd (cc (rw (r, s, t) at e))
            | inl t ↦
                let same : some seq.bytes ≡ some bytes = rw (r, s, t) at e in
                record {
                  seq = seq;
                  behind = behind;
                  reads = q;
                  is_universal = (==_iff seq.class 0).0 r;
                  is_sequence = (==_iff seq.tag 16).0 s;
                  is_constructed = t;
                  content = cc same;
                }
          ]
        ]
      ]

      back :
          SequenceContent ext bytes
          → san_general_names unmarshal_raw unmarshal_other_name unmarshal_inner ext ≡ some bytes
      back c =
          rw
            (
              c.reads,
              (==_iff c.seq.class 0).1 c.is_universal,
              (==_iff c.seq.tag 16).1 c.is_sequence,
              c.is_constructed,
              c.content,
            )
            refl
