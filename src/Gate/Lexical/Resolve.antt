-- ===== src/Gate/Lexical/Resolve.antt =====
-- Theorems on `resolveBuiltin` of internal/xsdgate/schema.go.
use Prim.Native.String.{String}
use ieee_2030_5_core_go.Prelude.{
  ℕ, zero, suc, ◌<◌, List, [], ◌∷◌, none, length, ◌≢◌, inl, inr, arith, Bool-cases, Option-cases,
}
use ieee_2030_5_core_go.Prelude.Int.{ℤ, negsuc}
use ieee_2030_5_core_go.Gate.Table.{lookup, mem_name, unseen, unseen-nil, unseen-lt}
use ieee_2030_5_core_go.Gate.Lexical.{
  SimpleType, tighter, resolve_type, resolve_loop, resolve_builtin,
}

resolve_loop-ne_none :
    (fuel : ℕ) (types : List (String × SimpleType)) (seen : List String) (name : String) (m : ℤ)
    → unseen types seen < fuel
    → resolve_loop fuel types seen name m ≢ none
unfolding resolve_loop resolve_type
resolve_loop-ne_none zero types seen name m h = absurd (omega arith)
resolve_loop-ne_none (suc fuel) types seen name m h = elim (Bool-cases (mem_name name seen)) [
  | inl old ↦ rw old (λ e. cc e)
  | inr new ↦ elim (Option-cases (lookup name types)) [
    | inl q ↦ rw (new, q) (λ e. cc e)
    | inr (st, q) ↦
        rw (new, q)
          (resolve_loop-ne_none fuel types (name ∷ seen) st.base (tighter m st.max_length)
            (omega (arith, unseen-lt types name seen q new)))
  ]
]

-- On all simple types, cyclic ones included, the loop of resolveBuiltin ends.
pub resolve_builtin-ne_none :
    (types : List (String × SimpleType)) (name : String) → resolve_builtin types name ≢ none
unfolding resolve_builtin
resolve_builtin-ne_none types name =
    resolve_loop-ne_none (suc (length types)) types [] name (negsuc 0)
      (omega (arith, unseen-nil types))
