-- ===== src/Cert/Oid.antt =====
-- pkg/sep2cert/oids.go: ParseOID. An identifier is the list of its arcs.
pub mod Laws
use ieee_2030_5_core_go.Prelude.{
  ℕ, Bool, ◌&&◌, List, [], ◌∷◌, ◌++◌, ltb, ◌==◌, if◌then◌else◌, Text, length,
}
use ieee_2030_5_core_go.Prelude.Int.{ℤ, pos, negsuc}
use ieee_2030_5_core_go.Golang.Strconv.{Parsed, parsed, failed, parse_int}

pub data OidError : Type 0 where
  empty_oid bad_arc negative_arc too_few_arcs bad_first_arc bad_second_arc : OidError

pub data OidResult {ℓ} (A : Type ℓ) : Type ℓ where
  ok : A → OidResult A
  err : OidError → OidResult A

infixl 5 ◌>>=◌
abbrev pub ◌>>=◌ {ℓ κ} : {A : Type ℓ} {B : Type κ} → OidResult A → (A → OidResult B) → OidResult B
ok a >>= f = f a
err e >>= f = err e

cons_head : ℕ → List Text → List Text
cons_head c [] = (c ∷ []) ∷ []
cons_head c (p ∷ parts) = (c ∷ p) ∷ parts

-- `strings.Split(s, ".")`
unfoldable pub split_dots : Text → List Text
unfolding cons_head
split_dots [] = [] ∷ []
split_dots (c ∷ s) = let parts = split_dots s in if c == b'.' then [] ∷ parts else cons_head c parts

arc_of : Parsed ℤ → OidResult ℕ
arc_of (failed e) = err bad_arc
arc_of (parsed (negsuc n)) = err negative_arc
arc_of (parsed (pos n)) = ok n

-- The loop over the parts. `strconv.Atoi` is `ParseInt` at 64 bits.
unfoldable pub parse_arcs : List Text → OidResult (List ℕ)
unfolding arc_of
parse_arcs [] = ok []
parse_arcs (p ∷ parts) = do n ← arc_of (parse_int p 10 64); rest ← parse_arcs parts; ok (n ∷ rest)

-- The well-formedness checks behind the loop.
check_arcs : List ℕ → OidResult (List ℕ)
check_arcs [] = err too_few_arcs
check_arcs (a ∷ []) = err too_few_arcs
check_arcs (a ∷ b ∷ arcs) =
    if ltb 2 a
    then err bad_first_arc
    else if ltb a 2 && ltb 39 b
    then err bad_second_arc
    else ok (a ∷ b ∷ arcs)

unfoldable pub parse_oid : Text → OidResult (List ℕ)
unfolding check_arcs
parse_oid [] = err empty_oid
parse_oid (c ∷ s) = parse_arcs (split_dots (c ∷ s)) >>= λ oid. check_arcs oid
