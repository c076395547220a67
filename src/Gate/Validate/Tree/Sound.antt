-- ===== src/Gate/Validate/Tree/Sound.antt =====
-- Lemmas on `validateNode` and conformance.
use Prim.Native.String.{String}
use text.Mathlib.Text.{◌==◌ as str_eq}
use ieee_2030_5_core_go.Prelude.{
  ℕ, suc, ◌≤◌, true, false, List, [], ◌∷◌, ◌++◌, Option, none, some, append-nil_iff, ◌≡◌, ◌↔◌, inl,
  inr, refl, sym, ap, arith, Bool-cases,
}
use ieee_2030_5_core_go.Prelude.Int.{ℤ, pos, negsuc, ltb_ℤ, pos_part}
use ieee_2030_5_core_go.Gate.Table.{lookup, keyed, distinct}
use ieee_2030_5_core_go.Gate.Table.Put.{keys, lookup-fill}
use ieee_2030_5_core_go.Gate.Table.Put.Keyed.{or_else-none, lookup-keyed-Mem, Mem-lookup-named}
use ieee_2030_5_core_go.Gate.Schema.{Element, Attribute}
use ieee_2030_5_core_go.Gate.Model.{Schema}
use ieee_2030_5_core_go.Gate.Document.{Node, Nodes, child, name_of}
use ieee_2030_5_core_go.Gate.Validate.{Problem, Outcome, elem_by_name, elem_index, by_index}
use ieee_2030_5_core_go.Gate.Validate.Order.{Ascending, names}
use ieee_2030_5_core_go.Gate.Validate.Tree.{
  count_up, order_problem, next_last, undeclared_child, child_step, prepend, repeated_problems,
  missing_problems,
}
use ieee_2030_5_core_go.Gate.Validate.Tree.Counting.{counts_after, index-declared}
use ieee_2030_5_core_go.Gate.Validate.Tree.Conforms.{
  locals, Conforms, ChildrenConform, ViewsSound, Decides,
}

order_iff :
    (i : ℕ) (last : ℤ) (path : String)
    → (order_problem (pos i) last path ≡ []) ↔ (pos_part last ≤ i)
unfolding order_problem
order_iff i last path = elim (Bool-cases (ltb_ℤ (pos i) last)) [
  | inl q ↦ rw q (λ e. absurd (cc e), λ le. absurd (before last q le))
  | inr q ↦ rw q (λ e. behind last q, λ le. refl)
]
  where
    before : (l : ℤ) → ltb_ℤ (pos i) l ≡ true → pos_part l ≤ i → ⊥
    before (pos b) q le = ground (arith, q, le)
    before (negsuc b) q le = ground (arith, q)

    behind : (l : ℤ) → ltb_ℤ (pos i) l ≡ false → pos_part l ≤ i
    behind (pos b) q = ground (arith, q)
    behind (negsuc b) q = omega arith

next_last-pos_part : (i : ℕ) (last : ℤ) → pos_part last ≤ i → pos_part (next_last (pos i) last) ≡ i
unfolding next_last
next_last-pos_part i (pos b) le = ground (arith, le)
next_last-pos_part i (negsuc b) le = ground (arith, le)

keys-by_index : (k : ℕ) (es : List Element) → keys (by_index k es) ≡ names es
unfolding by_index
keys-by_index k [] = refl
keys-by_index k (e ∷ es) = ap (λ rest. e.name ∷ rest) (keys-by_index (suc k) es)

pub lookup-elem_index :
    (name : String) (es : List Element)
    → distinct (names es) ≡ true
    → lookup name (elem_index es) ≡ lookup name (by_index 0 es)
unfolding elem_index lookup
lookup-elem_index name es d =
    rw (lookup-fill name [] (by_index 0 es) (rw (sym (keys-by_index 0 es)) at d)) (or_else-none _)

pub declared-index :
    (name : String) (k : ℕ) (es : List Element) {e : Element}
    → lookup name (keyed (λ x. x.name) es) ≡ some e
    → (i : ℕ) × (lookup name (by_index k es) ≡ some i)
unfolding lookup by_index
declared-index name k [] q = absurd (cc q)
declared-index name k (d ∷ es) q = elim (Bool-cases (str_eq name d.name)) [
  | inl same ↦ (k, rw same refl)
  | inr other ↦
      let (i, r) = declared-index name (suc k) es (rw other at q) in (i, rw (other, r) refl)
]

undeclared-ne_nil :
    (a : Option Attribute) (path : String) (ps : List Problem)
    → undeclared_child a path ++ ps ≡ []
    → ⊥
unfolding undeclared_child
undeclared-ne_nil none path ps e = cc e
undeclared-ne_nil (some a) path ps e = cc e

-- What the loop of checkChildren decides, from its variables on.
abbrev pub ChildrenOk : Schema → List Element → String → Nodes → ℤ → List (String × ℕ) → Type 0
ChildrenOk s elems path children last counts =
    Ascending (by_index 0 elems) (pos_part last) (locals children)
    × ChildrenConform s elems children
    × (repeated_problems (elem_by_name elems) path (counts_after counts (locals children))
          ++ missing_problems (counts_after counts (locals children)) path elems
        ≡ [])

-- An element with no declared child of its own name: the round of the loop when the name is unknown.
pub undeclared_step :
    (s : Schema) (elems : List Element) (a : Option Attribute) (path here : String) (c : Node)
    (rest : Nodes) (last : ℤ) (counts : List (String × ℕ)) (behind : Outcome)
    → ViewsSound s behind.0
    → distinct (names elems) ≡ true
    → lookup (name_of c).local (keyed (λ x. x.name) elems) ≡ none
    → Decides s
        (prepend (undeclared_child a here) behind)
        (ChildrenOk s elems path (child c rest) last counts)
undeclared_step s elems a path here c rest last counts behind sound d gone = (
  sound,
  (
    λ e. absurd (undeclared-ne_nil a here behind.1 e),
    λ ((i, q, le, asc), conform, fin).
        let (e, there) = index-declared (name_of c).local 0 elems q in absurd (cc (gone, there)),
  ),
)

-- The round of the loop for a declared child, from what its check and the rest decide.
pub declared_step :
    (s : Schema) (elems : List Element) (path here : String) (c : Node) (rest : Nodes) (last : ℤ)
    (counts : List (String × ℕ)) (decl : Element) (idx : ℤ) (i : ℕ) (own behind : Outcome)
    → distinct (names elems) ≡ true
    → lookup (name_of c).local (keyed (λ x. x.name) elems) ≡ some decl
    → lookup (name_of c).local (by_index 0 elems) ≡ some i
    → idx ≡ pos i
    → Decides s own (Conforms s decl.type false c)
    → Decides s behind
        (ChildrenOk s elems path rest (next_last idx last) (count_up (name_of c).local counts))
    → Decides s
        (prepend (order_problem idx last here) (prepend own.1 behind))
        (ChildrenOk s elems path (child c rest) last counts)
unfolding counts_after Conforms
declared_step s elems path here c rest last counts decl idx i own behind d there index at_i (so, dn)
      (sb, db) =
    let local = (name_of c).local in
    let order : (order_problem idx last here ≡ []) ↔ (pos_part last ≤ i) =
      rw at_i (order_iff i last here) in
    let moved : pos_part last ≤ i → pos_part (next_last idx last) ≡ i =
      λ le. rw at_i (next_last-pos_part i last le) in
    let split = append-nil_iff (order_problem idx last here) (own.1 ++ behind.1) in
    let inner = append-nil_iff own.1 behind.1 in
    (
      sb,
      (
        λ e.
            let (a, e') = split.0 e in
            let (b, e'') = inner.0 e' in
            let le = order.0 a in
            let (asc, conform, fin) = db.0 e'' in
            let (m, named) = lookup-keyed-Mem local (λ x. x.name) elems there in
            ((i, index, le, rw (moved le) at asc), ((decl, m, named, dn.0 b), conform), fin),
        λ ((j, index', le, asc), ((e, m, named, conf), conform), fin).
            let same_i : j ≡ i = cc (index, index') in
            let same_e : decl ≡ e =
              cc (there, Mem-lookup-named local (λ x. x.name) elems d m named) in
            let le' : pos_part last ≤ i = rw same_i at le in
            let asc' = rw (same_i, sym (moved le')) at asc in
            split.1 (order.1 le', inner.1 (dn.1 (rw same_e conf), db.1 (asc', conform, fin))),
      ),
    )

pub child_round :
    (s : Schema) (o : Option Element) (undeclared : List Problem) (behind : Outcome)
    (declared : Element → Outcome) (P : Type 0)
    → (o ≡ none → Decides s (prepend undeclared behind) P)
    → ((decl : Element) → o ≡ some decl → Decides s (declared decl) P)
    → Decides s (child_step o undeclared behind declared) P
unfolding child_step
child_round s none undeclared behind declared P unknown known = unknown refl
child_round s (some decl) undeclared behind declared P unknown known = known decl refl
