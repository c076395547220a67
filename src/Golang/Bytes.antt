-- ===== src/Golang/Bytes.antt =====
-- The functions of Go's bytes package that the program calls, as they are documented.
use ieee_2030_5_core_go.Prelude.{
  ℕ, zero, suc, ◌-◌, Bool, true, false, ◌&&◌, [], ◌∷◌, ◌++◌, ◌==◌, if◌then◌else◌, length, Text,
}

unfoldable pub has_prefix : Text → Text → Bool
has_prefix s [] = true
has_prefix [] (d ∷ t) = false
has_prefix (c ∷ s) (d ∷ t) = (c == d) && has_prefix s t

-- `bytes.ReplaceAll` from left to right; the number counts the bytes of a match still to pass.
unfoldable pub replace_from : ℕ → Text → Text → Text → Text
replace_from skip old new [] = []
replace_from zero old new (c ∷ s) =
    let matched = new ++ replace_from (length old - 1) old new s in
    let other = c ∷ replace_from zero old new s in if has_prefix (c ∷ s) old then matched else other
replace_from (suc skip) old new (c ∷ s) = replace_from skip old new s

unfoldable pub replace_all : Text → Text → Text → Text
replace_all s old new = replace_from 0 old new s
