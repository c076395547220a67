-- ===== src/Cert/Oid/Laws.antt =====
-- Theorems on ParseOID of pkg/sep2cert/oids.go.
use ieee_2030_5_core_go.Prelude.{
  ℕ, ◌^◌, ◌≤◌, ◌<◌, ◌&&◌, List, [], ◌∷◌, ◌++◌, ltb, Text, map, ◌≡◌, ◌≢◌, refl, ap, ◌∙◌, arith, All,
  ◌⊎◌, inl, inr, Bool-cases,
}
use ieee_2030_5_core_go.Prelude.Int.{ℤ, pos, negsuc}
use ieee_2030_5_core_go.Golang.Strconv.{Parsed, parsed, failed, parse_int, format_uint}
use ieee_2030_5_core_go.Golang.Strconv.Int.{parse_int-pos, parse_int-lt, format_uint-ne_nil}
use ieee_2030_5_core_go.Golang.Fmt.Laws.{IsDigit, format_uint-IsDigit}
use ieee_2030_5_core_go.Cert.Oid.{
  OidResult, ok, err, ◌>>=◌, split_dots, arc_of, parse_arcs, check_arcs, parse_oid,
}

-- The dotted form of an identifier, `asn1.ObjectIdentifier.String`.
abbrev pub oid_string : List ℕ → Text
oid_string [] = []
oid_string (a ∷ []) = format_uint a 10
oid_string (a ∷ b ∷ arcs) = format_uint a 10 ++ (b'.' ∷ oid_string (b ∷ arcs))

-- X.660: at least two arcs, the first at most 2, and the second at most 39 below 2. Every arc is
-- an int.
pub record IsOid (a b : ℕ) (arcs : List ℕ) : Type 0 where
  pub first_arc : a ≤ 2
  pub second_arc : (a ≡ 2) ⊎ (b ≤ 39)
  pub ints : All (λ n. n < 2 ^ 63) (a ∷ b ∷ arcs)

split_dots-digits : (p : Text) → All IsDigit p → split_dots p ≡ p ∷ []
unfolding split_dots
split_dots-digits [] h = refl
split_dots-digits (c ∷ p) h = rw (split_dots-digits p h.1) (ground (arith, h.0))

split_dots-append : (p s : Text) → All IsDigit p → split_dots (p ++ (b'.' ∷ s)) ≡ p ∷ split_dots s
unfolding split_dots
split_dots-append [] s h = refl
split_dots-append (c ∷ p) s h = rw (split_dots-append p s h.1) (ground (arith, h.0))

split_dots-oid_string :
    (a : ℕ) (arcs : List ℕ)
    → All (λ n. n < 2 ^ 63) (a ∷ arcs)
    → split_dots (oid_string (a ∷ arcs)) ≡ map (λ n. format_uint n 10) (a ∷ arcs)
split_dots-oid_string a [] h = split_dots-digits _ (format_uint-IsDigit a (omega (arith, h.0)))
split_dots-oid_string a (b ∷ arcs) h =
    split_dots-append _ (oid_string (b ∷ arcs)) (format_uint-IsDigit a (omega (arith, h.0)))
    ∙ ap (◌∷◌ (format_uint a 10)) (split_dots-oid_string b arcs h.1)

parse_arcs-map :
    (arcs : List ℕ)
    → All (λ n. n < 2 ^ 63) arcs
    → parse_arcs (map (λ n. format_uint n 10) arcs) ≡ ok arcs
unfolding parse_arcs
parse_arcs-map [] h = refl
parse_arcs-map (a ∷ arcs) h = rw (parse_int-pos a h.0, parse_arcs-map arcs h.1)

check_arcs-IsOid :
    (a b : ℕ) (arcs : List ℕ) → IsOid a b arcs → check_arcs (a ∷ b ∷ arcs) ≡ ok (a ∷ b ∷ arcs)
unfolding check_arcs
check_arcs-IsOid a b arcs h = ground (arith, h.second_arc, h.first_arc)

parse_oid-ne_nil :
    (s : Text) → s ≢ [] → parse_oid s ≡ (parse_arcs (split_dots s) >>= λ oid. check_arcs oid)
unfolding parse_oid
parse_oid-ne_nil [] h = absurd (h refl)
parse_oid-ne_nil (c ∷ s) h = refl

-- ParseOID reads the dotted form of every well-formed identifier back to its arcs.
pub parse_oid-oid_string :
    (a b : ℕ) (arcs : List ℕ)
    → IsOid a b arcs
    → parse_oid (oid_string (a ∷ b ∷ arcs)) ≡ ok (a ∷ b ∷ arcs)
parse_oid-oid_string a b arcs h =
    parse_oid-ne_nil _ (append-ne_nil (format_uint a 10) _ (format_uint-ne_nil a))
    ∙ rw (split_dots-oid_string a (b ∷ arcs) h.ints)
        (rw (parse_arcs-map (a ∷ b ∷ arcs) h.ints) (check_arcs-IsOid a b arcs h))
  where
    append-ne_nil : (s t : Text) → s ≢ [] → s ++ t ≢ []
    append-ne_nil [] t h = absurd (h refl)
    append-ne_nil (c ∷ s) t h = λ e. cc

-- What a result may be: an error, or a well-formed identifier.
abbrev pub WellFormed : OidResult (List ℕ) → Type 0
WellFormed (ok []) = ⊥
WellFormed (ok (a ∷ [])) = ⊥
WellFormed (ok (a ∷ b ∷ arcs)) = IsOid a b arcs
WellFormed (err e) = Unit

check_arcs-WellFormed : (oid : List ℕ) → All (λ n. n < 2 ^ 63) oid → WellFormed (check_arcs oid)
unfolding check_arcs
check_arcs-WellFormed [] h = tt
check_arcs-WellFormed (a ∷ []) h = tt
check_arcs-WellFormed (a ∷ b ∷ arcs) h = elim (Bool-cases (ltb 2 a)) [
  | inl big ↦ rw big tt
  | inr first ↦ elim (Bool-cases (ltb a 2 && ltb 39 b)) [
    | inl bad ↦ rw (first, bad) tt
    | inr second ↦
        rw (first, second)
          (record { first_arc = ground arith; second_arc = ground arith; ints = h })
  ]
]

-- The arcs that the loop returns are ints.
abbrev IntArcs : OidResult (List ℕ) → Type 0
IntArcs (ok oid) = All (λ n. n < 2 ^ 63) oid
IntArcs (err e) = Unit

parse_arcs-IntArcs : (parts : List Text) → IntArcs (parse_arcs parts)
unfolding parse_arcs
parse_arcs-IntArcs [] = tt
parse_arcs-IntArcs (p ∷ parts) =
    go (parse_int p 10 64) (parse_arcs parts) refl (parse_arcs-IntArcs parts)
  where
    go :
        (q : Parsed ℤ) (r : OidResult (List ℕ))
        → parse_int p 10 64 ≡ q
        → IntArcs r
        → IntArcs (arc_of q >>= λ n. r >>= λ rest. ok (n ∷ rest))
    go (failed e) r h k = tt
    go (parsed (negsuc n)) r h k = tt
    go (parsed (pos n)) (err e) h k = tt
    go (parsed (pos n)) (ok oid) h k = (parse_int-lt p h, k)

-- Whatever the text: ParseOID returns an error, or at least two arcs that are ints, the first at
-- most 2, and the second at most 39 if the first is below 2.
pub parse_oid-WellFormed : (s : Text) → WellFormed (parse_oid s)
unfolding parse_oid
parse_oid-WellFormed [] = tt
parse_oid-WellFormed (c ∷ s) =
    go (parse_arcs (split_dots (c ∷ s))) (parse_arcs-IntArcs (split_dots (c ∷ s)))
  where
    go : (r : OidResult (List ℕ)) → IntArcs r → WellFormed (r >>= λ oid. check_arcs oid)
    go (ok oid) h = check_arcs-WellFormed oid h
    go (err e) h = tt
