-- ===== src/Cert/San.antt =====
-- pkg/sep2cert/oids.go: hardware module names in a certificate's SubjectAlternativeName, and the
-- certificate policies. encoding/asn1 is a parameter: `unmarshal_raw` reads one element and gives
-- the bytes behind it, and each of the others reads a struct of the source; `none` is an error.
pub mod Laws
pub mod Lenient
pub mod Names
use ieee_2030_5_core_go.Prelude.{
  ℕ, zero, suc, Bool, true, false, not, ◌&&◌, ◌||◌, List, [], ◌∷◌, Option, none, some, ltb, ◌==◌,
  if◌then◌else◌, length, ◌++◌,
}
use ieee_2030_5_core_go.Prelude.Int.{ℤ, pos, negsuc}

abbrev pub Oid : Type 0
Oid = List ℕ

-- `ObjectIdentifier.Equal`.
unfoldable pub oid_eq : Oid → Oid → Bool
oid_eq [] [] = true
oid_eq [] (b ∷ bs) = false
oid_eq (a ∷ rest) [] = false
oid_eq (a ∷ rest) (b ∷ bs) = (a == b) && oid_eq rest bs

abbrev pub oid_subject_alt_name : Oid
oid_subject_alt_name = 2 ∷ 5 ∷ 29 ∷ 17 ∷ []

abbrev pub oid_certificate_policies : Oid
oid_certificate_policies = 2 ∷ 5 ∷ 29 ∷ 32 ∷ []

abbrev pub oid_hardware_module_name : Oid
oid_hardware_module_name = 1 ∷ 3 ∷ 6 ∷ 1 ∷ 5 ∷ 5 ∷ 7 ∷ 8 ∷ 4 ∷ []

-- `asn1.RawValue`.
pub record RawValue : Type 0 where
  pub class : ℕ
  pub tag : ℕ
  pub is_compound : Bool
  pub bytes : List ℕ
  pub full_bytes : List ℕ

pub record Extension : Type 0 where
  pub id : Oid
  pub value : List ℕ

pub record HardwareModuleName : Type 0 where
  pub hw_type : Oid
  pub hw_serial_num : List ℕ

-- What `parseOtherNameHMN` returns: another form, a name, or an error.
pub data OtherName : Type 0 where
  other malformed : OtherName
  hmn : HardwareModuleName → OtherName

pub data Scan : Type 0 where
  scanned : ℕ → Scan
  refused stuck : Scan

pub data Walk : Type 0 where
  found : HardwareModuleName → Walk
  nothing failed stuck : Walk

is_hmn : OtherName → Bool
is_hmn (hmn h) = true
is_hmn n = false

module _ (unmarshal_raw : List ℕ → Option (RawValue × List ℕ))
    (unmarshal_other_name : List ℕ → Option (Oid × RawValue))
    (unmarshal_inner : List ℕ → Option (Oid × RawValue)) where
  names_of : Option (RawValue × List ℕ) → Option (List ℕ)
  names_of none = none
  names_of (some (seq, rest)) =
      if not (seq.class == 0) || not (seq.tag == 16) || not seq.is_compound
      then none
      else some seq.bytes

  unfoldable pub san_general_names : List ℕ → Option (List ℕ)
  unfolding names_of
  san_general_names ext = names_of (unmarshal_raw ext)

  of_inner : Option (Oid × RawValue) → OtherName
  of_inner none = malformed
  of_inner (some (hw_type, serial)) =
      if length hw_type == 0
      then malformed
      else if not (serial.tag == 4) || not (serial.class == 0)
      then malformed
      else hmn (record { hw_type = hw_type; hw_serial_num = serial.bytes })

  of_other_name : Option (Oid × RawValue) → OtherName
  of_other_name none = malformed
  of_other_name (some (type_id, value)) =
      if not (oid_eq type_id oid_hardware_module_name)
      then other
      else of_inner (unmarshal_inner value.bytes)

  unfoldable pub parse_other_name : RawValue → OtherName
  unfolding of_inner of_other_name
  parse_other_name gn =
      if not (gn.class == 2) || not (gn.tag == 0)
      then other
      else of_other_name (unmarshal_other_name gn.full_bytes)

  -- One round of a loop behind the call of `asn1.Unmarshal`; `next` is the rest of the loop.
  strict_step : Option (RawValue × List ℕ) → (List ℕ → Scan) → Scan
  unfolding is_hmn
  strict_step none next = refused
  strict_step (some (gn, behind)) next =
      if is_hmn (parse_other_name gn) then next behind else refused

  -- The loop of `SANAllOtherNamesAreHardwareModuleName`, with the number of entries so far.
  unfoldable pub strict_loop : ℕ → ℕ → List ℕ → Scan
  unfolding strict_step
  strict_loop fuel entries [] = scanned entries
  strict_loop zero entries (b ∷ rest) = stuck
  strict_loop (suc fuel) entries (b ∷ rest) =
      strict_step (unmarshal_raw (b ∷ rest)) λ behind. strict_loop fuel (suc entries) behind

  strict_answer : Scan → Bool × Bool
  strict_answer (scanned n) = (ltb 0 n, true)
  strict_answer refused = (false, true)
  strict_answer stuck = (false, true)

  strict_names : Option (List ℕ) → Scan
  strict_names none = refused
  strict_names (some rest) = strict_loop (length rest) 0 rest

  -- `SANAllOtherNamesAreHardwareModuleName`, on the certificate's extensions.
  unfoldable pub san_all_hmn : List Extension → Bool × Bool
  unfolding strict_answer strict_names
  san_all_hmn [] = (false, false)
  san_all_hmn (ext ∷ exts) =
      if not (oid_eq ext.id oid_subject_alt_name)
      then san_all_hmn exts
      else strict_answer (strict_names (san_general_names ext.value))

  on_name : OtherName → Walk → Walk
  on_name malformed later = failed
  on_name (hmn h) later = found h
  on_name other later = later

  walk_step : Option (RawValue × List ℕ) → (List ℕ → Walk) → Walk
  unfolding on_name
  walk_step none next = failed
  walk_step (some (gn, behind)) next = on_name (parse_other_name gn) (next behind)

  -- The inner loop of `ExtractHardwareModuleName`.
  unfoldable pub walk_loop : ℕ → List ℕ → Walk
  unfolding walk_step
  walk_loop fuel [] = nothing
  walk_loop zero (b ∷ rest) = stuck
  walk_loop (suc fuel) (b ∷ rest) =
      walk_step (unmarshal_raw (b ∷ rest)) λ behind. walk_loop fuel behind

  walk_names : Option (List ℕ) → Walk
  walk_names none = failed
  walk_names (some rest) = walk_loop (length rest) rest

  -- A walk that found nothing goes on with the next extension.
  or_later : Walk → Walk → Walk
  or_later (found h) later = found h
  or_later failed later = failed
  or_later stuck later = stuck
  or_later nothing later = later

  -- `ExtractHardwareModuleName`; `stuck` only if a loop runs out of fuel.
  unfoldable pub extract_hmn : List Extension → Walk
  unfolding walk_names or_later
  extract_hmn [] = nothing
  extract_hmn (ext ∷ exts) =
      let later = extract_hmn exts in
      if not (oid_eq ext.id oid_subject_alt_name)
      then later
      else or_later (walk_names (san_general_names ext.value)) later

any_policy : List Oid → Oid → Bool
any_policy [] target = false
any_policy (p ∷ ps) target = if oid_eq p target then true else any_policy ps target

policy_step : Option (List Oid) → Oid → Bool → Bool
unfolding any_policy
policy_step none target later = false
policy_step (some policies) target later = if any_policy policies target then true else later

-- `HasPolicyOID`; `unmarshal_policies` reads the identifiers of a sequence of policies.
unfoldable pub has_policy_oid : (List ℕ → Option (List Oid)) → List Extension → Oid → Bool
unfolding policy_step
has_policy_oid unmarshal_policies [] target = false
has_policy_oid unmarshal_policies (ext ∷ exts) target =
    let later = has_policy_oid unmarshal_policies exts target in
    if not (oid_eq ext.id oid_certificate_policies)
    then later
    else policy_step (unmarshal_policies ext.value) target later

abbrev pub ieee_arc : Oid
ieee_arc = 1 ∷ 3 ∷ 6 ∷ 1 ∷ 4 ∷ 1 ∷ 40732 ∷ 1 ∷ []

-- `DeviceType.OID`, on an int.
unfoldable pub device_type_oid : ℤ → Oid
device_type_oid (negsuc n) = ieee_arc ++ (1 ∷ [])
device_type_oid (pos n) =
    if n == 1
    then ieee_arc ++ (1 ∷ [])
    else if n == 2
    then ieee_arc ++ (2 ∷ [])
    else if n == 3
    then ieee_arc ++ (3 ∷ [])
    else ieee_arc ++ (1 ∷ [])
